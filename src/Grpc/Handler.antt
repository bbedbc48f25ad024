-- ===== src/Grpc/Handler.antt =====
-- packages/connect/src/protocol-grpc/handler-factory.ts: the handler of a method.
use connect_es.Prelude.{ℕ, Bool, not, Option, none, some, List, [], if◌then◌else◌}
use connect_es.Prelude.Text.{Text, codes, text_eq}
use connect_es.Headers.{Headers, get, set}
use connect_es.ConnectError.{Reason, Result, ok, err, map_result, ◌>>=◌}
use connect_es.Compression.{Compression, Negotiated, compression_negotiate}
use connect_es.Timeout.{Timeout, parse_grpc_timeout}
use connect_es.ContentType.{parse_grpc_type}
use connect_es.Stream.{Stream, ending}
use connect_es.AsyncIterable.{transform_catch_finally, transform_prepend, until_first}
use connect_es.AsyncIterable.Split.{transform_split_envelope, transform_join_envelopes}
use connect_es.AsyncIterable.Envelopes.{
  undefined, transform_serialize_envelope, transform_parse_envelope, transform_compress_envelope,
  transform_decompress_envelope,
}
use connect_es.Serialization.{MessageType, serialization_lookup}
use connect_es.Universal.{
  UniversalServerRequest, UniversalServerResponse, assert_byte_stream_request,
  response_unsupported_media_type, response_method_not_allowed,
}
use connect_es.RequestHeader.{
  header_content_type, header_grpc_timeout, header_grpc_encoding, header_grpc_accept_encoding,
  set_if, map_option, name_of, grpc_content_type,
}
use connect_es.TrailerStatus.{
  header_grpc_status, grpc_status_ok, Protobuf, set_trailer_status, trailer_left,
}
use connect_es.Handler.{HandlerOptions, HandlerContext, Left, MethodImpl, prelude, shown_error}
use connect_es.Handler.Invoke.{transform_invoke_implementation}

abbrev method_post : Text
method_post = codes "POST"

module _ (p : Protobuf) where
  -- The trailers once the body has ended, or what setting them throws.
  unfoldable pub end_trailer : Option Reason → Headers → Result Headers
  unfolding set_trailer_status
  end_trailer none trailer = ok trailer
  end_trailer (some r) trailer = set_trailer_status p trailer (some (shown_error r))

  abbrev pub trailer_or_left : Result Headers → Option Reason → Headers → Headers
  unfolding trailer_left
  trailer_or_left (ok h) r trailer = h
  trailer_or_left (err e) none trailer = trailer
  trailer_or_left (err e) (some r) trailer = trailer_left p trailer (shown_error r)

  -- The response with the bytes of its body.
  unfoldable pub respond : Stream (List ℕ) → Left → Result UniversalServerResponse
  unfolding end_trailer trailer_or_left transform_catch_finally until_first
  respond sent left =
      map_result
        (λ body. record {
          status = 200;
          header = some left.header;
          body = some body;
          trailer =
              some (
                trailer_or_left (end_trailer (ending sent) left.trailer) (ending sent)
                  left.trailer);
        })
        (until_first
          (transform_catch_finally (λ r. map_result (λ h. none) (end_trailer r left.trailer)) sent))

module _ {I O P : Type 0} (p : Protobuf) (show_ms : ℕ → Text) (input : MessageType I)
    (output : MessageType O) (new_type : P → O) (opt : HandlerOptions)
    (impl : MethodImpl I O P) where
  unfoldable pub grpc_context :
      UniversalServerRequest → Bool → Timeout → Negotiated → HandlerContext
  unfolding set set_if
  grpc_context req binary timeout compression = record {
    request_method = req.method;
    request_header = req.header;
    response_header =
        set_if header_grpc_encoding (map_option name_of compression.response)
          (set header_content_type (grpc_content_type binary) []);
    response_trailer = set header_grpc_status grpc_status_ok [];
    timeout_ms = timeout.timeout;
    protocol_name = codes "grpc";
  }

  -- The messages of the request.
  unfoldable pub grpc_input : Bool → Timeout → Negotiated → Stream (List ℕ) → Stream I
  unfolding transform_prepend transform_split_envelope transform_decompress_envelope
      transform_parse_envelope serialization_lookup
  grpc_input binary timeout compression body =
      transform_parse_envelope
        (serialization_lookup input opt.write_max_bytes opt.read_max_bytes binary) none undefined
        (transform_decompress_envelope compression.request opt.read_max_bytes (
          transform_split_envelope opt.read_max_bytes
            (transform_prepend (prelude compression.error timeout.error) body)))

  -- The bytes of the response, before the last transform.
  unfoldable pub grpc_output : Bool → Option Compression → Stream O → Stream (List ℕ)
  unfolding transform_join_envelopes transform_compress_envelope transform_serialize_envelope
      serialization_lookup
  grpc_output binary compression messages = transform_join_envelopes (
      transform_compress_envelope compression opt.compress_min_bytes (
        transform_serialize_envelope
          (serialization_lookup output opt.write_max_bytes opt.read_max_bytes binary) messages))

  -- The response, from the messages and what the implementation leaves in the context.
  unfoldable pub grpc_response :
      Bool → Option Compression → Stream O × Left → Result UniversalServerResponse
  unfolding grpc_output respond
  grpc_response binary compression (messages, left) =
      respond p (grpc_output binary compression messages) left

  -- From the context on.
  unfoldable pub grpc_serve :
      UniversalServerRequest
      → Bool
      → Timeout
      → Negotiated
      → Stream (List ℕ)
      → Result UniversalServerResponse
  unfolding grpc_input grpc_context grpc_response transform_invoke_implementation
  grpc_serve req binary timeout compression body = grpc_response binary compression.response (
      transform_invoke_implementation new_type impl (grpc_context req binary timeout compression)
        (grpc_input binary timeout compression body))

  unfoldable pub typed_request :
      UniversalServerRequest → Stream (List ℕ) → Option Bool → Result UniversalServerResponse
  unfolding grpc_serve parse_grpc_timeout compression_negotiate get
  typed_request req body none = ok response_unsupported_media_type
  typed_request req body (some binary) =
      if not (text_eq req.method method_post)
      then ok response_method_not_allowed
      else grpc_serve req binary
          (parse_grpc_timeout show_ms (get header_grpc_timeout req.header) opt.max_timeout_ms)
          (compression_negotiate opt.accept_compression (get header_grpc_encoding req.header)
            (get header_grpc_accept_encoding req.header) header_grpc_accept_encoding)
          body

  -- The function `handle` of `createHandler`.
  unfoldable pub grpc_handle : UniversalServerRequest → Result UniversalServerResponse
  unfolding typed_request assert_byte_stream_request parse_grpc_type get
  grpc_handle req = assert_byte_stream_request req >>= λ body.
      typed_request req body (parse_grpc_type (get header_content_type req.header))
