-- ===== src/Grpc/Received.antt =====
-- The last stage of a streaming call over gRPC: the transport reads the response.
use connect_es.Prelude.{ℕ, ◌<◌, ◌≡◌, refl, ap, ◌∙◌, Bool, false, Option, none, List, [], All}
use connect_es.Headers.{Headers}
use connect_es.Compression.{Compression}
use connect_es.Stream.{Stream, of_list, then_stream}
use connect_es.Serialization.{MessageType, serialization_lookup}
use connect_es.UniversalClient.{UniversalClientResponse, client_response}
use connect_es.TrailerStatus.{Protobuf, validate_trailer}
use connect_es.Grpc.Transport.{
  TransportOptions, status_after, response_messages, sent, checked, then_status, stream_response,
  stream_next,
}
use connect_es.AsyncIterable.Envelopes.{Serialization}
use connect_es.Grpc.Served.{response_of}
use connect_es.Grpc.Status.{
  status_reason, thrown_status, then_stream-with_end, aborted_stream-with_end,
}
use connect_es.AsyncIterable.Envelopes.Plain.{with_end, Passes, chunks, receive_plain}
use connect_es.ConnectError.{Reason, Result, ok, map_result, ◌>>=◌}
use connect_es.AsyncIterable.Envelopes.Flags.{Inverts}
use connect_es.RunCall.{
  Request, Response, apply_interceptors, aborted, aborted_stream, run_streaming_call,
}
use connect_es.ValidateResponse.{validate_grpc_response_with_compression}

module _ {I O : Type 0} (p : Protobuf) (input : MessageType I) (output : MessageType O)
    (client : TransportOptions) (s : Serialization O) (c : Option Compression)
    (compress_min_bytes : ℕ) (o : Inverts c client.read_max_bytes) (outs : List O)
    (returns : All
      (Passes s
        (serialization_lookup output client.write_max_bytes client.read_max_bytes
          client.use_binary_format)
        c
        compress_min_bytes
        client.read_max_bytes
        o)
      outs)
    (result : Option Reason) (header : Headers) where
  abbrev q : Serialization O
  q =
      serialization_lookup output client.write_max_bytes client.read_max_bytes
        client.use_binary_format

  abbrev body : List (List ℕ)
  body = chunks s q c compress_min_bytes client.read_max_bytes o outs returns

  pub run_streaming_call_lem :
      (req : Request (Stream I)) (trailer : Headers)
      → client.http_client (sent p input output client req)
        ≡ ok (client_response (response_of header body trailer))
      → validate_trailer p trailer ≡ thrown_status (status_reason trailer result)
      → client.read_max_bytes < 0x100000000
      → validate_grpc_response_with_compression p client.accept_compression 200 header
        ≡ ok (false, c)
      → run_streaming_call (stream_next p input output client) [] req
        ≡ ok (record {
          header = header;
          message = with_end outs (status_reason trailer result);
          trailer = trailer;
        })
  unfolding run_streaming_call apply_interceptors stream_next checked stream_response then_status
      response_messages
  run_streaming_call_lem req trailer answered read limit head =
      let res = client_response (response_of header body trailer) in
      let response : Stream O → Result (Response (Stream O)) =
        λ m. ok (record { header = header; message = m; trailer = trailer }) in
      let call : Result (Response (Stream O)) → Result (Response (Stream O)) = λ r.
        map_result
          (λ (res : Response (Stream O)). record res { message = aborted_stream res.message })
          (aborted r) in
      let checked_result : UniversalClientResponse
          → Result (Bool × Option Compression)
          → Result (Response (Stream O)) =
        λ res r.
          call (r >>= λ (found, c). ok (stream_response p input output client res found c)) in
      ap
        (λ r. call (
          r >>= λ res. checked p input output client res >>= λ (found, c).
          ok (stream_response p input output client res found c)))
        answered
      ∙ ap (checked_result res) head
      ∙ ap (λ s. call (response (then_stream s (status_after (validate_trailer p trailer)))))
          (receive_plain s q c compress_min_bytes client.read_max_bytes o none outs returns refl
            limit)
      ∙ ap (λ v. call (response (then_stream (of_list outs) (status_after v)))) read
      ∙ ap (λ m. call (response m)) (then_stream-with_end trailer outs result)
      ∙ ap response (aborted_stream-with_end trailer outs result)
