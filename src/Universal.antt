-- ===== src/Universal.antt =====
-- packages/connect/src/protocol/universal.ts and universal-handler.ts: requests and responses of a
-- server, and the negotiation of the protocol. The function `supportedContentType` of a handler is a
-- test without state here, as `ContentType.Matcher` shows that it answers.
pub mod Negotiation
use connect_es.Prelude.{
  ℕ, Bool, true, false, ◌&&◌, not, Option, none, some, List, [], ◌∷◌, ◌++◌, ◌==◌, if◌then◌else◌,
  or_else, any, filter?,
}
use connect_es.Prelude.Text.{Text, codes, text_eq, starts_with}
use connect_es.Code.{internal}
use connect_es.Json.{Json}
use connect_es.Headers.{Headers, get}
use connect_es.ConnectError.{js_error, thrown, Result, ok, err, raise}
use connect_es.Stream.{Stream}

-- `MethodKind`
pub data MethodKind : Type 0 where
  unary server_streaming client_streaming bidi_streaming : MethodKind

abbrev pub is_bidi : MethodKind → Bool
is_bidi bidi_streaming = true
is_bidi _ = false

-- `body` of a request: a stream of bytes, or JSON that a server has parsed.
pub data Body : Type 0 where
  bytes : Stream (List ℕ) → Body
  json : Json → Body

pub record UniversalServerRequest : Type 0 where
  pub http_version : Text
  pub url : Text
  pub method : Text
  pub header : Headers
  pub body : Body

pub record UniversalServerResponse : Type 0 where
  pub status : ℕ
  pub header : Option Headers
  pub body : Option (Stream (List ℕ))
  pub trailer : Option Headers

-- `assertByteStreamRequest`: the stream of bytes, or what is thrown.
unfoldable pub assert_byte_stream_request : UniversalServerRequest → Result (Stream (List ℕ))
assert_byte_stream_request req = elim req.body [
  | bytes s ↦ ok s
  | json j ↦
      err (thrown (js_error (codes "Error") (codes "byte stream required, but received JSON")))
]

abbrev pub status_only : ℕ → UniversalServerResponse
status_only status = record { status = status; header = none; body = none; trailer = none }

abbrev pub response_unsupported_media_type : UniversalServerResponse
response_unsupported_media_type = status_only 415

abbrev pub response_method_not_allowed : UniversalServerResponse
response_method_not_allowed = status_only 405

abbrev pub response_version_not_supported : UniversalServerResponse
response_version_not_supported = status_only 505

-- `MethodInfo`, as far as handlers are compared by it: the object and its kind.
pub record MethodInfo : Type 0 where
  pub identity : ℕ
  pub kind : MethodKind

-- `UniversalHandler`; a service is known by its object.
pub record UniversalHandler : Type 0 where
  pub handle : UniversalServerRequest → Result UniversalServerResponse
  pub protocol_names : List Text
  pub service : ℕ
  pub method : MethodInfo
  pub request_path : Text
  pub allowed_methods : List Text
  pub supported_content_type : Text → Bool

-- `array.includes(value)`
abbrev pub includes : List Text → Text → Bool
includes array value = any (λ v. text_eq v value) array

-- `.filter((value, index, array) => array.indexOf(value) === index)`, over the values before.
distinct_from : List Text → List Text → List Text
distinct_from before [] = []
distinct_from before (v ∷ vs) =
    let rest = distinct_from (before ++ v ∷ []) vs in if includes before v then rest else v ∷ rest

abbrev flat_map : (UniversalHandler → List Text) → List UniversalHandler → List Text
flat_map f [] = []
flat_map f (h ∷ hs) = f h ++ flat_map f hs

-- The handlers that remain for a method and for a content type.
abbrev pub allows : Text → UniversalHandler → Bool
allows method h = includes h.allowed_methods method

-- The branch on the handlers for the content type.
pub first_match : List UniversalHandler → UniversalServerRequest → Result UniversalServerResponse
first_match [] req = ok response_unsupported_media_type
first_match (h ∷ hs) req = h.handle req

-- The branch on the handlers for the method.
pub by_content_type :
    List UniversalHandler → Text → UniversalServerRequest → Result UniversalServerResponse
unfolding first_match
by_content_type [] content_type req = ok response_method_not_allowed
by_content_type (h ∷ []) [] req = h.handle req
by_content_type (h ∷ hs) content_type req =
    first_match (filter? (λ h. h.supported_content_type content_type) (h ∷ hs)) req

-- `protocolNegotiatingHandler`
unfoldable pub negotiating_handler :
    MethodInfo → List UniversalHandler → UniversalServerRequest → Result UniversalServerResponse
unfolding by_content_type get
negotiating_handler method handlers req =
    if is_bidi method.kind && starts_with req.http_version (codes "1.")
    then ok (record response_version_not_supported {
      header = some ((codes "connection", codes "close") ∷ []);
    })
    else by_content_type (filter? (allows req.method) handlers)
        (or_else (get (codes "Content-Type") req.header) []) req

abbrev same_rpc : UniversalHandler → UniversalHandler → Bool
same_rpc a b = a.service == b.service && a.method.identity == b.method.identity

-- `negotiateProtocol`
unfoldable pub negotiate_protocol : List UniversalHandler → Result UniversalHandler
unfolding negotiating_handler distinct_from raise
negotiate_protocol [] = raise (codes "at least one protocol is required") internal
negotiate_protocol (h ∷ hs) =
    if any (λ g. not (same_rpc g h)) (h ∷ hs)
    then raise (codes "cannot negotiate protocol for different RPCs") internal
    else if any (λ (g : UniversalHandler). not (text_eq g.request_path h.request_path)) (h ∷ hs)
    then raise (codes "cannot negotiate protocol for different requestPaths") internal
    else ok (record {
      handle = negotiating_handler h.method (h ∷ hs);
      protocol_names = distinct_from [] (flat_map (λ h. h.protocol_names) (h ∷ hs));
      service = h.service;
      method = h.method;
      request_path = h.request_path;
      allowed_methods = distinct_from [] (flat_map (λ h. h.allowed_methods) (h ∷ hs));
      supported_content_type =
          λ t. any (λ (h : UniversalHandler). h.supported_content_type t) (h ∷ hs);
    })
