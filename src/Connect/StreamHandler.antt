-- ===== src/Connect/StreamHandler.antt =====
-- packages/connect/src/protocol-connect/handler-factory.ts: the handler of streaming methods
-- (`createStreamHandler`).
use connect_es.Prelude.{ℕ, Bool, not, Option, none, some, List, [], if◌then◌else◌}
use connect_es.Prelude.Text.{Text, codes, text_eq}
use connect_es.Headers.{Headers, get, set}
use connect_es.ConnectError.{ConnectError, Reason, Result, ok, map_result, ◌>>◌, ◌>>=◌}
use connect_es.Compression.{Compression, Negotiated, compression_negotiate}
use connect_es.Timeout.{Timeout, parse_timeout}
use connect_es.ContentType.{
  ParsedType, parse_content_type, content_type_stream_proto, content_type_stream_json,
}
use connect_es.Stream.{Stream}
use connect_es.Envelope.{EnvelopedMessage}
use connect_es.AsyncIterable.{transform_catch_finally, transform_prepend, until_first}
use connect_es.AsyncIterable.Split.{transform_split_envelope, transform_join_envelopes}
use connect_es.AsyncIterable.Envelopes.{
  undefined, transform_serialize_envelope, transform_parse_envelope, transform_compress_envelope,
  transform_decompress_envelope,
}
use connect_es.Serialization.{MessageType, serialization_lookup}
use connect_es.Universal.{
  UniversalServerRequest, UniversalServerResponse, assert_byte_stream_request,
  response_unsupported_media_type, response_method_not_allowed,
}
use connect_es.RequestHeader.{
  header_content_type, header_timeout, header_stream_encoding, header_stream_accept_encoding,
  set_if, map_option, name_of,
}
use connect_es.Version.{require_protocol_version_header}
use connect_es.Handler.{HandlerOptions, HandlerContext, Left, MethodImpl, prelude, shown_error}
use connect_es.Handler.Invoke.{transform_invoke_implementation}
use connect_es.Connect.{Platform, end_stream_flag, end_stream_serialization}
use connect_es.Connect.Handler.{method_post}

abbrev pub stream_content_type : Bool → Text
stream_content_type binary = if binary then content_type_stream_proto else content_type_stream_json

module _ (p : Platform) where
  -- The message for the end of the stream, from what was thrown and the trailers.
  unfoldable pub end_stream_message : Headers → Option Reason → Result (Option EnvelopedMessage)
  unfolding end_stream_serialization
  end_stream_message trailer r =
      map_result (λ payload. some (record { flags = end_stream_flag; payload = payload }))
        ((end_stream_serialization p).serialize (trailer, map_option shown_error r))

module _ {I O P : Type 0} (p : Platform) (input : MessageType I) (output : MessageType O)
    (new_type : P → O) (opt : HandlerOptions) (impl : MethodImpl I O P) where
  unfoldable pub stream_context :
      UniversalServerRequest → Bool → Timeout → Negotiated → HandlerContext
  unfolding set set_if
  stream_context req binary timeout compression = record {
    request_method = req.method;
    request_header = req.header;
    response_header =
        set_if header_stream_encoding (map_option name_of compression.response)
          (set header_content_type (stream_content_type binary) []);
    response_trailer = [];
    timeout_ms = timeout.timeout;
    protocol_name = codes "connect";
  }

  -- What the first transform of the request raises.
  abbrev pub version_and_prelude :
      UniversalServerRequest → Option ConnectError → Option ConnectError → Result (Option (List ℕ))
  unfolding require_protocol_version_header
  version_and_prelude req compression_error timeout_error =
      (if opt.require_connect_protocol_header
        then require_protocol_version_header req.header
        else ok tt)
      >> prelude compression_error timeout_error

  -- The messages of the request; one for the end of the stream is skipped.
  unfoldable pub stream_input :
      UniversalServerRequest → Bool → Timeout → Negotiated → Stream (List ℕ) → Stream I
  unfolding transform_prepend transform_split_envelope transform_decompress_envelope
      transform_parse_envelope serialization_lookup version_and_prelude
  stream_input req binary timeout compression body =
      transform_parse_envelope
        (serialization_lookup input opt.write_max_bytes opt.read_max_bytes binary)
        (some end_stream_flag) undefined
        (transform_decompress_envelope compression.request opt.read_max_bytes (
          transform_split_envelope opt.read_max_bytes
            (transform_prepend (version_and_prelude req compression.error timeout.error) body)))

  -- The bytes of the response, from the messages and what the implementation leaves in the context.
  unfoldable pub stream_output : Bool → Option Compression → Stream O × Left → Stream (List ℕ)
  unfolding transform_join_envelopes transform_compress_envelope transform_serialize_envelope
      transform_catch_finally serialization_lookup end_stream_message
  stream_output binary compression (messages, left) = transform_join_envelopes (
      transform_compress_envelope compression opt.compress_min_bytes (
        transform_catch_finally (end_stream_message p left.trailer) (
          transform_serialize_envelope
            (serialization_lookup output opt.write_max_bytes opt.read_max_bytes binary) messages)))

  unfoldable pub stream_respond :
      Bool → Option Compression → Stream O × Left → Result UniversalServerResponse
  unfolding stream_output until_first
  stream_respond binary compression (messages, left) =
      map_result
        (λ body. record {
          status = 200;
          header = some left.header;
          body = some body;
          trailer = none;
        })
        (until_first (stream_output binary compression (messages, left)))

  -- From the context on.
  unfoldable pub stream_serve :
      UniversalServerRequest
      → Bool
      → Timeout
      → Negotiated
      → Stream (List ℕ)
      → Result UniversalServerResponse
  unfolding stream_input stream_context stream_respond transform_invoke_implementation
  stream_serve req binary timeout compression body = stream_respond binary compression.response (
      transform_invoke_implementation new_type impl (stream_context req binary timeout compression)
        (stream_input req binary timeout compression body))

  unfoldable pub stream_typed :
      UniversalServerRequest → Stream (List ℕ) → Option ParsedType → Result UniversalServerResponse
  unfolding stream_serve parse_timeout compression_negotiate get
  stream_typed req body none = ok response_unsupported_media_type
  stream_typed req body (some type) =
      if not type.stream
      then ok response_unsupported_media_type
      else if not (text_eq req.method method_post)
      then ok response_method_not_allowed
      else stream_serve req type.binary
          (parse_timeout (get header_timeout req.header) opt.max_timeout_ms)
          (compression_negotiate opt.accept_compression (get header_stream_encoding req.header)
            (get header_stream_accept_encoding req.header) header_stream_accept_encoding)
          body

  -- The function `handle` of `createStreamHandler`.
  unfoldable pub stream_handle : UniversalServerRequest → Result UniversalServerResponse
  unfolding stream_typed assert_byte_stream_request parse_content_type get
  stream_handle req = assert_byte_stream_request req >>= λ body.
      stream_typed req body (parse_content_type (get header_content_type req.header))
