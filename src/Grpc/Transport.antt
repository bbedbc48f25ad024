-- ===== src/Grpc/Transport.antt =====
-- packages/connect/src/protocol-grpc/transport.ts: the client's side of a call.
use connect_es.Prelude.{ℕ, Bool, Option, none, some, List, [], ◌∷◌, if◌then◌else◌}
use connect_es.Prelude.Text.{Text, codes}
use connect_es.Code.{invalid_argument}
use connect_es.Headers.{Headers}
use connect_es.ConnectError.{connect_error, new_error, Result, ok, err, ◌>>◌, ◌>>=◌, raise}
use connect_es.Compression.{Compression}
use connect_es.Stream.{Stream, done, fails, next, of_list, then_stream}
use connect_es.AsyncIterable.Split.{transform_split_envelope, transform_join_envelopes}
use connect_es.AsyncIterable.Envelopes.{
  undefined, transform_serialize_envelope, transform_parse_envelope, transform_compress_envelope,
  transform_decompress_envelope,
}
use connect_es.Serialization.{MessageType, serialization_lookup}
use connect_es.UniversalClient.{UniversalClientRequest, UniversalClientResponse, create_method_url}
use connect_es.RequestHeader.{grpc_request_header_with_compression}
use connect_es.ValidateResponse.{validate_grpc_response_with_compression}
use connect_es.TrailerStatus.{Protobuf, validate_trailer}
use connect_es.RunCall.{Request, Response, run_unary_call, run_streaming_call}

-- `CommonTransportOptions`, less the interceptors and the options of the serializations.
pub record TransportOptions : Type 0 where
  pub http_client : UniversalClientRequest → Result UniversalClientResponse
  pub base_url : Text
  pub use_binary_format : Bool
  pub accept_compression : List Compression
  pub send_compression : Option Compression
  pub compress_min_bytes : ℕ
  pub read_max_bytes : ℕ
  pub write_max_bytes : ℕ

-- The loop over the messages of a unary response, with the message so far.
pub single_message : {O : Type 0} → Option O → Stream O → Result (Option O)
unfolding raise
single_message found done = ok found
single_message found (fails r) = err r
single_message (some m) (next a s) =
    raise (codes "protocol error: received extra output message for unary method") invalid_argument
single_message none (next a s) = single_message (some a) s

abbrev or_missing : {O : Type 0} → Option O → Result O
or_missing none = err (
    connect_error (
      new_error (codes "protocol error: missing output message for unary method") invalid_argument
        []))
or_missing (some m) = ok m

-- What follows the messages of a stream.
abbrev pub status_after : {O : Type 0} → Result (Unit {0}) → Stream O
status_after (ok _) = done
status_after (err r) = fails r

module _ {I O : Type 0} (p : Protobuf) (input : MessageType I) (output : MessageType O)
    (opt : TransportOptions) where
  unfoldable pub request_body : Stream I → Stream (List ℕ)
  unfolding transform_join_envelopes transform_compress_envelope transform_serialize_envelope
      serialization_lookup
  request_body messages = transform_join_envelopes (
      transform_compress_envelope opt.send_compression opt.compress_min_bytes (
        transform_serialize_envelope
          (serialization_lookup input opt.write_max_bytes opt.read_max_bytes opt.use_binary_format)
          messages))

  unfoldable pub response_messages : Option Compression → Stream (List ℕ) → Stream O
  unfolding transform_split_envelope transform_decompress_envelope transform_parse_envelope
      serialization_lookup
  response_messages compression body =
      transform_parse_envelope
        (serialization_lookup output opt.write_max_bytes opt.read_max_bytes opt.use_binary_format)
        none undefined
        (transform_decompress_envelope compression opt.read_max_bytes
          (transform_split_envelope opt.read_max_bytes body))

  unfoldable pub sent : Request (Stream I) → UniversalClientRequest
  unfolding request_body
  sent req = record {
    url = req.url;
    method = codes "POST";
    header = req.header;
    body = some (request_body req.message);
  }

  unfoldable pub checked : UniversalClientResponse → Result (Bool × Option Compression)
  unfolding validate_grpc_response_with_compression
  checked res =
      validate_grpc_response_with_compression p opt.accept_compression res.status res.header

  single_response : UniversalClientResponse → Option Compression → Result (Response O)
  unfolding single_message response_messages validate_trailer
  single_response res compression =
      single_message none (response_messages compression res.body) >>= λ found.
      validate_trailer p res.trailer
      >> (or_missing found >>= λ message.
          ok (record { header = res.header; message = message; trailer = res.trailer }))

  -- The function `next` of `unary`.
  unfoldable pub unary_next : Request I → Result (Response O)
  unfolding sent checked single_response
  unary_next req =
      opt.http_client
        (sent (record { url = req.url; header = req.header; message = of_list (req.message ∷ []) }))
      >>= λ res. checked res >>= λ (found, compression). single_response res compression

  -- The transform that follows the messages with the status of the trailers.
  unfoldable pub then_status : Bool → Headers → Stream O → Stream O
  unfolding validate_trailer
  then_status found trailer messages =
      if found then messages else then_stream messages (status_after (validate_trailer p trailer))

  unfoldable pub stream_response :
      UniversalClientResponse → Bool → Option Compression → Response (Stream O)
  unfolding response_messages then_status
  stream_response res found compression = record {
    header = res.header;
    message = then_status found res.trailer (response_messages compression res.body);
    trailer = res.trailer;
  }

  -- The function `next` of `stream`.
  unfoldable pub stream_next : Request (Stream I) → Result (Response (Stream O))
  unfolding sent checked stream_response
  stream_next req = opt.http_client (sent req) >>= λ res.
      checked res >>= λ (found, compression). ok (stream_response res found compression)

  -- The request of both: its address and headers.
  unfoldable pub request_of : {M : Type 0} → Text → Text → Option ℕ → Headers → M → Request M
  unfolding create_method_url grpc_request_header_with_compression
  request_of service method timeout_ms header m = record {
    url = create_method_url opt.base_url service method;
    header =
        grpc_request_header_with_compression opt.use_binary_format timeout_ms header
          opt.accept_compression opt.send_compression;
    message = m;
  }

  -- `unary`, with the interceptors.
  unfoldable pub grpc_unary :
      List ((Request I → Result (Response O)) → Request I → Result (Response O))
      → Text
      → Text
      → Option ℕ
      → Headers
      → I
      → Result (Response O)
  unfolding unary_next request_of run_unary_call
  grpc_unary interceptors service method timeout_ms header m =
      run_unary_call unary_next interceptors (request_of service method timeout_ms header m)

  -- `stream`, with the interceptors.
  unfoldable pub grpc_stream :
      List (
        (Request (Stream I) → Result (Response (Stream O)))
        → Request (Stream I)
        → Result (Response (Stream O)))
      → Text
      → Text
      → Option ℕ
      → Headers
      → Stream I
      → Result (Response (Stream O))
  unfolding stream_next request_of run_streaming_call
  grpc_stream interceptors service method timeout_ms header messages =
      run_streaming_call stream_next interceptors
        (request_of service method timeout_ms header messages)
