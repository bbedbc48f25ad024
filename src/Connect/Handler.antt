-- ===== src/Connect/Handler.antt =====
-- packages/connect/src/protocol-connect/handler-factory.ts: the handler of unary methods
-- (`createUnaryHandler`).
use connect_es.Prelude.{
  ℕ, Bool, true, false, ◌&&◌, not, Option, none, some, List, [], ◌∷◌, leb, if◌then◌else◌, length,
}
use connect_es.Prelude.Text.{Text, codes, text_eq, show_nat}
use connect_es.Code.{invalid_argument, internal}
use connect_es.Code.HttpStatus.{code_to_http_status}
use connect_es.Headers.{Headers, get, set}
use connect_es.Json.{Json}
use connect_es.ConnectError.{
  ConnectError, connect_error, from, Result, ok, err, map_result, ◌>>◌, ◌>>=◌, raise,
}
use connect_es.Compression.{Compression, Negotiated, compression_negotiate}
use connect_es.Timeout.{Timeout, parse_timeout}
use connect_es.ContentType.{
  ParsedType, parse_content_type, content_type_unary_proto, content_type_unary_json,
  parse_encoding_query,
}
use connect_es.Stream.{done, next}
use connect_es.Serialization.{MessageType, serialization_lookup}
use connect_es.TrailerMux.{trailer_mux}
use connect_es.Universal.{
  UniversalServerRequest, UniversalServerResponse, response_unsupported_media_type,
  response_method_not_allowed,
}
use connect_es.RequestHeader.{
  header_content_type, header_timeout, header_unary_encoding, header_unary_accept_encoding,
}
use connect_es.Version.{
  param_encoding, param_compression, require_protocol_version_header,
  require_protocol_version_param,
}
use connect_es.GetRequest.{header_unary_content_length}
use connect_es.Handler.{
  HandlerOptions, HandlerContext, Left, unchanged, Output, prelude, shown_error,
}
use connect_es.Handler.Invoke.{invoke_unary_implementation}
use connect_es.Connect.{Platform, error_to_json_bytes}
use connect_es.Connect.UnaryBody.{
  UnaryBody, raw, parsed, read_unary_message_from_body, read_unary_message_from_query,
}

abbrev pub method_post : Text
method_post = codes "POST"

abbrev pub method_get : Text
method_get = codes "GET"

-- The bytes of a response with its status and what is left in the context.
pub record Answer : Type 0 where
  pub status : ℕ
  pub left : Left
  pub body : List ℕ

-- The response, with its length and the trailers among the headers.
unfoldable pub unary_reply : Answer → Headers → List ℕ → UniversalServerResponse
unfolding trailer_mux set show_nat
unary_reply a header body = record {
  status = a.status;
  header = some (
      set header_unary_content_length (show_nat (length body)) (trailer_mux header a.left.trailer));
  body = some (next body done);
  trailer = none;
}

-- `error.metadata.forEach(…)`
unfoldable pub set_fields : Headers → Headers → Headers
unfolding set
set_fields [] h = h
set_fields ((key, value) ∷ fields) h = set_fields fields (set key value h)

abbrev pub unary_content_type : Bool → Text
unary_content_type binary = if binary then content_type_unary_proto else content_type_unary_json

module _ {I O P : Type 0} (p : Platform) (input : MessageType I) (from_json : Json → Result I)
    (output : MessageType O) (new_type : P → O) (opt : HandlerOptions) (no_side_effects : Bool)
    (impl : I → HandlerContext → Result (Output O P) × Left) where
  abbrev json_input : Result I → Result I
  unfolding from
  json_input (ok i) = ok i
  json_input (err r) = err (connect_error (from r invalid_argument))

  -- `parseUnaryMessage`
  unfoldable pub parse_unary_message : Bool → UnaryBody → Result I
  unfolding serialization_lookup raise json_input
  parse_unary_message binary (raw b) =
      (serialization_lookup input opt.write_max_bytes opt.read_max_bytes binary).parse b
  parse_unary_message true (parsed j) =
      raise (codes "received parsed JSON request body, but content-type indicates binary format")
        internal
  parse_unary_message false (parsed j) = json_input (from_json j)

  unfoldable pub unary_context : UniversalServerRequest → Bool → Timeout → HandlerContext
  unfolding set
  unary_context req binary timeout = record {
    request_method = req.method;
    request_header = req.header;
    response_header = set header_content_type (unary_content_type binary) [];
    response_trailer = [];
    timeout_ms = timeout.timeout;
    protocol_name = codes "connect";
  }

  -- The test of the version, if it is required.
  required_version : Bool → UniversalServerRequest → Result (Unit {0})
  unfolding require_protocol_version_param require_protocol_version_header
  required_version is_get req =
      if opt.require_connect_protocol_header
      then (if is_get
          then require_protocol_version_param (p.search_params req.url)
          else require_protocol_version_header req.header)
      else ok tt

  -- The message, or what is thrown before the implementation is called.
  unfoldable pub unary_input :
      UniversalServerRequest → Bool → Bool → Timeout → Negotiated → Result I
  unfolding required_version read_unary_message_from_query read_unary_message_from_body
      parse_unary_message
  unary_input req is_get binary timeout compression =
      required_version is_get req
      >> (prelude compression.error timeout.error >>= λ nothing.
          (if is_get
            then read_unary_message_from_query p.dec opt.read_max_bytes compression.request
                (p.search_params req.url)
            else read_unary_message_from_body opt.read_max_bytes compression.request req)
          >>= parse_unary_message binary)

  -- The implementation, and the bytes of what it returns.
  unfoldable pub unary_output : Bool → HandlerContext → Result I → Result (List ℕ) × Left
  unfolding invoke_unary_implementation serialization_lookup
  unary_output binary context (err r) = (err r, unchanged context)
  unary_output binary context (ok i) =
      let (o, left) = invoke_unary_implementation new_type impl context i in
      (
        o >>= (serialization_lookup output opt.write_max_bytes opt.read_max_bytes binary).serialize,
        left,
      )

  -- The branch that catches what was thrown.
  unfoldable pub unary_error : ConnectError → Left → Answer
  unfolding set_fields error_to_json_bytes code_to_http_status set
  unary_error e left = record {
    status = code_to_http_status e.code;
    left = record left {
      header = set_fields e.metadata (set header_content_type content_type_unary_json left.header);
    };
    body = error_to_json_bytes p e;
  }

  abbrev unary_answer : Result (List ℕ) × Left → Answer
  unfolding unary_error shown_error
  unary_answer (ok b, left) = record { status = 200; left = left; body = b }
  unary_answer (err r, left) = unary_error (shown_error r) left

  -- The compression of the response, and its headers.
  unfoldable pub unary_response : Option Compression → Answer → Result UniversalServerResponse
  unfolding unary_reply set
  unary_response compression a = elim compression [
    | none ↦ ok (unary_reply a a.left.header a.body)
    | some c ↦
        if leb opt.compress_min_bytes (length a.body)
        then map_result (unary_reply a (set header_unary_encoding c.name a.left.header))
            (c.compress a.body)
        else ok (unary_reply a a.left.header a.body)
  ]

  -- From the negotiation of the compression on.
  unfoldable pub unary_serve :
      UniversalServerRequest → Bool → Bool → Timeout → Negotiated → Result UniversalServerResponse
  unfolding unary_input unary_output unary_answer unary_response unary_context
  unary_serve req is_get binary timeout compression = unary_response compression.response (
      unary_answer (
        unary_output binary (unary_context req binary timeout)
          (unary_input req is_get binary timeout compression)))

  unfoldable pub unary_typed :
      UniversalServerRequest → Bool → Option ParsedType → Result UniversalServerResponse
  unfolding unary_serve parse_timeout compression_negotiate get
  unary_typed req is_get none = ok response_unsupported_media_type
  unary_typed req is_get (some type) =
      if type.stream
      then ok response_unsupported_media_type
      else unary_serve req is_get type.binary
          (parse_timeout (get header_timeout req.header) opt.max_timeout_ms)
          (compression_negotiate opt.accept_compression
            (if is_get
              then p.search_params req.url param_compression
              else get header_unary_encoding req.header)
            (get header_unary_accept_encoding req.header) header_unary_accept_encoding)

  -- The function `handle` of `createUnaryHandler`.
  unfoldable pub unary_handle : UniversalServerRequest → Result UniversalServerResponse
  unfolding unary_typed parse_content_type parse_encoding_query get
  unary_handle req =
      let is_get = text_eq req.method method_get in
      if is_get && not no_side_effects
      then ok response_method_not_allowed
      else unary_typed req is_get (
          if is_get
          then parse_encoding_query (p.search_params req.url param_encoding)
          else parse_content_type (get header_content_type req.header))
