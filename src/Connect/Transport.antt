-- ===== src/Connect/Transport.antt =====
-- packages/connect/src/protocol-connect/transport.ts: the client's side of a call.
use connect_es.Prelude.{
  ℕ, Bool, true, false, ◌&&◌, Option, none, some, List, [], ◌++◌, ltb, if◌then◌else◌, length,
}
use connect_es.Prelude.Text.{Text, codes}
use connect_es.Code.{invalid_argument}
use connect_es.Headers.{Headers, get, set, delete}
use connect_es.ConnectError.{
  ConnectError, Reason, connect_error, new_error, Result, ok, err, map_result, ◌>>=◌,
}
use connect_es.Compression.{Compression}
use connect_es.Stream.{Stream, done, fails, next}
use connect_es.AsyncIterable.ReadAll.{read_all_bytes}
use connect_es.AsyncIterable.Split.{transform_split_envelope, transform_join_envelopes}
use connect_es.AsyncIterable.Envelopes.{
  Parsed, message, end_stream, transform_serialize_envelope, transform_parse_envelope_end,
  transform_compress_envelope, transform_decompress_envelope,
}
use connect_es.Serialization.{MessageType, serialization_lookup}
use connect_es.EndStream.{EndStreamResponse, append_headers}
use connect_es.TrailerMux.{trailer_demux}
use connect_es.Universal.{MethodKind}
use connect_es.UniversalClient.{UniversalClientRequest, UniversalClientResponse, create_method_url}
use connect_es.RequestHeader.{header_unary_encoding, request_header_with_compression}
use connect_es.ValidateResponse.{validate_response_with_compression}
use connect_es.RunCall.{Request, Response, run_unary_call, run_streaming_call}
use connect_es.GetRequest.{header_unary_content_length, get_query, get_header}
use connect_es.Grpc.Transport.{TransportOptions}
use connect_es.Connect.{Platform, end_stream_flag, error_from_json_bytes, end_stream_serialization}
use connect_es.Connect.Handler.{method_post, method_get, set_fields, unary_error}
use connect_es.Connect.UnaryBody.{length_hint, decompressed}

protocol_error : Text → Reason
unfolding new_error
protocol_error what =
    connect_error (new_error (codes "protocol error: " ++ what) invalid_argument [])

module _ {O : Type 0} where
  -- The loop over the chunks of a stream, with whether the end was received and the trailers so far.
  -- The trailers are complete when the messages have been read.
  unfoldable pub read_chunks :
      Bool → Headers → Stream (Parsed O EndStreamResponse) → Stream O × Headers
  unfolding protocol_error
  read_chunks true trailer done = (done, trailer)
  read_chunks false trailer done =
      (fails (protocol_error (codes "missing EndStreamResponse")), trailer)
  read_chunks received trailer (fails r) = (fails r, trailer)
  read_chunks true trailer (next (end_stream e) s) =
      (fails (protocol_error (codes "received extra EndStreamResponse")), trailer)
  read_chunks true trailer (next (message v) s) =
      (fails (protocol_error (codes "received extra message after EndStreamResponse")), trailer)
  read_chunks false trailer (next (end_stream (metadata, some e)) s) =
      (fails (connect_error e), trailer)
  read_chunks false trailer (next (end_stream (metadata, none)) s) =
      read_chunks true (set_fields metadata trailer) s
  read_chunks false trailer (next (message v) s) =
      let (rest, left) = read_chunks false trailer s in (next v rest, left)

module _ {I O : Type 0} (p : Platform) (input : MessageType I) (output : MessageType O)
    (use_http_get no_side_effects : Bool) (kind : MethodKind) (opt : TransportOptions) where
  -- The compression of the body of a unary request, and its header.
  unfoldable pub compressed_body : Headers → List ℕ → Result (List ℕ × Headers)
  unfolding set delete
  compressed_body header b = elim opt.send_compression [
    | none ↦ ok (b, delete header_unary_encoding header)
    | some c ↦
        if ltb opt.compress_min_bytes (length b)
        then map_result (λ z. (z, set header_unary_encoding c.name header)) (c.compress b)
        else ok (b, delete header_unary_encoding header)
  ]

  -- The request by POST, or by GET (`transformConnectPostToGetRequest`).
  unfoldable pub unary_request : Text → List ℕ × Headers → Result UniversalClientRequest
  unfolding get_query get_header
  unary_request url (b, header) =
      if use_http_get && no_side_effects
      then map_result
          (λ query. record {
            url = url ++ query;
            method = method_get;
            header = get_header header;
            body = none;
          })
          (get_query p.enc header b opt.use_binary_format)
      else ok
          (record { url = url; method = method_post; header = header; body = some (next b done) })

  -- The bytes of the response.
  unfoldable pub response_bytes : UniversalClientResponse → Option Compression → Result (List ℕ)
  unfolding read_all_bytes get
  response_bytes res compression =
      read_all_bytes res.body opt.read_max_bytes
        (length_hint (get header_unary_content_length res.header))
      >>= decompressed compression opt.read_max_bytes

  -- The error of the response, or its message.
  unfoldable pub unary_result :
      Headers × Headers → Option ConnectError → List ℕ → Result (Response O)
  unfolding error_from_json_bytes append_headers serialization_lookup
  unary_result (header, trailer) (some unary_error) b =
      error_from_json_bytes p b (some (append_headers header trailer)) unary_error >>= λ e.
      err (connect_error e)
  unary_result (header, trailer) none b =
      map_result (λ m. record { header = header; message = m; trailer = trailer })
        ((serialization_lookup output opt.write_max_bytes opt.read_max_bytes
            opt.use_binary_format).parse
          b)

  unfoldable pub unary_response_of : UniversalClientResponse → Result (Response O)
  unfolding validate_response_with_compression response_bytes unary_result trailer_demux
  unary_response_of res =
      validate_response_with_compression kind opt.accept_compression res.status res.header
      >>= λ (compression, unary_error).
          response_bytes res compression >>= unary_result (trailer_demux res.header) unary_error

  -- The function `next` of `unary`.
  unfoldable pub unary_next : Request I → Result (Response O)
  unfolding compressed_body unary_request unary_response_of serialization_lookup
  unary_next req =
      (serialization_lookup input opt.write_max_bytes opt.read_max_bytes
          opt.use_binary_format).serialize
        req.message
      >>= λ b. compressed_body req.header b >>= λ body.
          unary_request req.url body >>= λ request. opt.http_client request >>= unary_response_of

  unfoldable pub stream_request : Request (Stream I) → UniversalClientRequest
  unfolding transform_join_envelopes transform_compress_envelope transform_serialize_envelope
      serialization_lookup
  stream_request req = record {
    url = req.url;
    method = method_post;
    header = req.header;
    body = some (
        transform_join_envelopes (
          transform_compress_envelope opt.send_compression opt.compress_min_bytes (
            transform_serialize_envelope
              (serialization_lookup input opt.write_max_bytes opt.read_max_bytes
                opt.use_binary_format)
              req.message)));
  }

  -- The messages of the response, and its trailers.
  unfoldable pub stream_messages : Option Compression → Stream (List ℕ) → Stream O × Headers
  unfolding transform_split_envelope transform_decompress_envelope transform_parse_envelope_end
      serialization_lookup end_stream_serialization read_chunks
  stream_messages compression body = read_chunks false [] (
      transform_parse_envelope_end
        (serialization_lookup output opt.write_max_bytes opt.read_max_bytes opt.use_binary_format)
        end_stream_flag (end_stream_serialization p)
        (transform_decompress_envelope compression opt.read_max_bytes
          (transform_split_envelope opt.read_max_bytes body)))

  unfoldable pub stream_response_of :
      UniversalClientResponse → Option Compression → Response (Stream O)
  unfolding stream_messages
  stream_response_of res compression =
      let (messages, trailer) = stream_messages compression res.body in
      record { header = res.header; message = messages; trailer = trailer }

  -- The function `next` of `stream`.
  unfoldable pub stream_next : Request (Stream I) → Result (Response (Stream O))
  unfolding stream_request stream_response_of validate_response_with_compression
  stream_next req = opt.http_client (stream_request req) >>= λ res.
      validate_response_with_compression kind opt.accept_compression res.status res.header
      >>= λ (compression, unary_error). ok (stream_response_of res compression)

  -- The request of both: its address and headers.
  unfoldable pub request_of : {M : Type 0} → Text → Text → Option ℕ → Headers → M → Request M
  unfolding create_method_url request_header_with_compression
  request_of service method timeout_ms header m = record {
    url = create_method_url opt.base_url service method;
    header =
        request_header_with_compression kind opt.use_binary_format timeout_ms header
          opt.accept_compression opt.send_compression;
    message = m;
  }

  -- `unary`, with the interceptors.
  unfoldable pub connect_unary :
      List ((Request I → Result (Response O)) → Request I → Result (Response O))
      → Text
      → Text
      → Option ℕ
      → Headers
      → I
      → Result (Response O)
  unfolding unary_next request_of run_unary_call
  connect_unary interceptors service method timeout_ms header m =
      run_unary_call unary_next interceptors (request_of service method timeout_ms header m)

  -- `stream`, with the interceptors.
  unfoldable pub connect_stream :
      List (
        (Request (Stream I) → Result (Response (Stream O)))
        → Request (Stream I)
        → Result (Response (Stream O)))
      → Text
      → Text
      → Option ℕ
      → Headers
      → Stream I
      → Result (Response (Stream O))
  unfolding stream_next request_of run_streaming_call
  connect_stream interceptors service method timeout_ms header messages =
      run_streaming_call stream_next interceptors
        (request_of service method timeout_ms header messages)
