-- ===== src/UniversalClient.antt =====
-- Requests of a client: the types of packages/connect/src/protocol/universal.ts, create-method-url.ts,
-- and the client of universal-handler-client.ts, which calls the handlers of the same process. A signal
-- that aborts is not part of it; `pathname` is that of the `URL` of the platform.
use connect_es.Prelude.{
  ℕ, ◌≡◌, ap, Option, none, some, List, [], ◌∷◌, ◌++◌, ◌==◌, if◌then◌else◌, or_else,
}
use connect_es.Prelude.Text.{Text, codes, text_eq}
use connect_es.Code.{unimplemented}
use connect_es.Headers.{Headers}
use connect_es.ConnectError.{Result, map_result, raise}
use connect_es.Stream.{Stream, done}
use connect_es.Universal.{bytes, UniversalServerRequest, UniversalServerResponse, UniversalHandler}

pub record UniversalClientRequest : Type 0 where
  pub url : Text
  pub method : Text
  pub header : Headers
  pub body : Option (Stream (List ℕ))

pub record UniversalClientResponse : Type 0 where
  pub status : ℕ
  pub header : Headers
  pub body : Stream (List ℕ)
  pub trailer : Headers

-- `.replace(/\/?$/, …)` takes one slash off the end.
strip_slash : Text → Text
strip_slash [] = []
strip_slash (c ∷ []) = if c == b'/' then [] else c ∷ []
strip_slash (c ∷ d ∷ s) = c ∷ strip_slash (d ∷ s)

-- `createMethodUrl`, of the names.
unfoldable pub create_method_url : Text → Text → Text → Text
unfolding strip_slash
create_method_url base_url service method =
    strip_slash base_url ++ (codes "/" ++ (service ++ (codes "/" ++ method)))

-- `handlerMap.get(pathname)`: the last handler that was set for the path.
unfoldable pub handler_for : Text → List UniversalHandler → Option UniversalHandler
handler_for path [] = none
handler_for path (h ∷ hs) = elim (handler_for path hs) [
  | some g ↦ some g
  | none ↦ if text_eq h.request_path path then some h else none
]

abbrev pub client_response : UniversalServerResponse → UniversalClientResponse
client_response r = record {
  status = r.status;
  header = or_else r.header [];
  body = or_else r.body done;
  trailer = or_else r.trailer [];
}

-- The request as the handler gets it.
abbrev pub server_request : UniversalClientRequest → UniversalServerRequest
server_request req = record {
  http_version = codes "2.0";
  url = req.url;
  method = req.method;
  header = req.header;
  body = bytes (or_else req.body done);
}

abbrev serve :
    Option UniversalHandler → Text → UniversalClientRequest → Result UniversalClientResponse
unfolding raise
serve none path req =
    raise (codes "RouterHttpClient: no handler registered for " ++ path) unimplemented
serve (some h) path req = map_result client_response (h.handle (server_request req))

-- `createUniversalHandlerClient`
unfoldable pub universal_handler_client :
    (Text → Text) → List UniversalHandler → UniversalClientRequest → Result UniversalClientResponse
unfolding serve handler_for
universal_handler_client pathname handlers req =
    serve (handler_for (pathname req.url) handlers) (pathname req.url) req

-- A request for a path that has a handler goes to it.
pub universal_handler_client_lem :
    (pathname : Text → Text) (handlers : List UniversalHandler) (req : UniversalClientRequest)
    (h : UniversalHandler)
    → handler_for (pathname req.url) handlers ≡ some h
    → universal_handler_client pathname handlers req
      ≡ map_result client_response (h.handle (server_request req))
unfolding universal_handler_client
universal_handler_client_lem pathname handlers req h found =
    ap (λ o. serve o (pathname req.url) req) found
