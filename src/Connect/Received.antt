-- ===== src/Connect/Received.antt =====
-- The last stage of a streaming call over the Connect protocol: the transport reads the response.
use connect_es.Prelude.{
  ◌≤◌, length, ℕ, ◌<◌, ◌≡◌, refl, ap, ◌∙◌, Bool, false, Option, none, some, List, [], All, arith,
}
use connect_es.Headers.{Headers}
use connect_es.Headers.Order.{IsCanonical}
use connect_es.Compression.{Compression}
use connect_es.ConnectError.{ConnectError, Reason, connect_error, Result, ok, map_result, ◌>>=◌}
use connect_es.Envelope.{EnvelopedMessage, envelope_compress}
use connect_es.EndStream.{end_stream_to_json}
use connect_es.EndStream.Laws.{NoProto, IsSendable}
use connect_es.Stream.{Stream, of_list}
use connect_es.AsyncIterable.Split.RoundTrip.{Fits}
use connect_es.AsyncIterable.Envelopes.Flags.{Inverts}
use connect_es.AsyncIterable.Envelopes.Plain.{with_end, Passes}
use connect_es.AsyncIterable.Envelopes.Ended.{ended_chunks, receive_ended}
use connect_es.Serialization.{MessageType}
use connect_es.Universal.{MethodKind}
use connect_es.UniversalClient.{UniversalClientResponse, client_response}
use connect_es.RequestHeader.{map_option}
use connect_es.ValidateResponse.{validate_response_with_compression}
use connect_es.RunCall.{
  Request, Response, apply_interceptors, aborted, aborted_stream, run_streaming_call,
}
use connect_es.Handler.{HandlerOptions, Left, MethodImpl, shown_error}
use connect_es.Grpc.Transport.{TransportOptions}
use connect_es.Connect.{Platform, end_stream_flag, end_stream_serialization}
use connect_es.Connect.Ends.{
  kept_trailer, read_chunks-finished, aborted_stream-ended, all_metadata, arrived, last, parse-last,
}
use connect_es.Connect.UnaryErrors.{IsPrinted}
use connect_es.Connect.Transport.{
  read_chunks, stream_request, stream_messages, stream_response_of, stream_next,
}
use connect_es.Connect.Streamed.{streamed_response}
use connect_es.Grpc.Negotiated.{of_client, of_server}

module _ {I O P : Type 0} (p : Platform) (base64 : (b : List ℕ) → p.dec (p.enc b) ≡ some b)
    (input : MessageType I) (output : MessageType O) (new_type : P → O) (server : HandlerOptions)
    (impl : MethodImpl I O P) (client : TransportOptions) (use_http_get no_side_effects : Bool)
    (kind : MethodKind) (c : Option Compression) (outs : List O) (result : Option Reason)
    (left : Left) (o : Inverts c client.read_max_bytes) (sent_last : EnvelopedMessage)
    (returns : All
      (Passes
        (of_server output server client)
        (of_client output client)
        c
        server.compress_min_bytes
        client.read_max_bytes
        o)
      outs)
    (packed : envelope_compress (last p left.trailer result) c server.compress_min_bytes
      ≡ ok sent_last)
    (small : length (last p left.trailer result).payload ≤ client.read_max_bytes)
    (fits : Fits client.read_max_bytes sent_last)
    (canonical : IsCanonical (all_metadata p left.trailer result))
    (no_proto : NoProto (all_metadata p left.trailer result))
    (sendable : IsSendable p.to_json (map_option shown_error result))
    (printed : IsPrinted p
      (end_stream_to_json p.enc p.to_json left.trailer (map_option shown_error result)))
    (limit : client.read_max_bytes < 0x100000000) where
  -- How the stream of the client ends, and the trailers that it leaves.
  abbrev arrived_end : Option Reason
  arrived_end = map_option connect_error (arrived p left.trailer result)

  abbrev arrived_trailer : Headers
  arrived_trailer =
      kept_trailer (all_metadata p left.trailer result) (arrived p left.trailer result)

  stream_messages_lem :
      stream_messages p input output use_http_get no_side_effects kind client c (
        of_list (
          ended_chunks
            (of_server output server client)
            (of_client output client)
            c
            server.compress_min_bytes
            client.read_max_bytes
            o
            (last p left.trailer result)
            sent_last
            packed
            fits
            outs
            returns))
      ≡ (with_end outs arrived_end, arrived_trailer)
  unfolding stream_messages
  stream_messages_lem =
      ap (read_chunks false []) (
        receive_ended (of_server output server client) (of_client output client) c
          server.compress_min_bytes client.read_max_bytes o (last p left.trailer result) sent_last
          packed fits end_stream_flag (end_stream_serialization p)
          (all_metadata p left.trailer result, arrived p left.trailer result) (omega arith) small
          refl refl (parse-last p left.trailer result base64 canonical no_proto sendable printed)
          outs returns limit)
      ∙ read_chunks-finished outs (all_metadata p left.trailer result)
          (arrived p left.trailer result) canonical

  pub run_streaming_call_lem :
      (req : Request (Stream I))
      → client.http_client
          (stream_request p input output use_http_get no_side_effects kind client req)
        ≡ ok (
            client_response (
              streamed_response p input output new_type server impl client.use_binary_format c
                (of_client output client)
                client.read_max_bytes
                o
                outs
                result
                left
                sent_last
                returns
                packed
                fits))
      → validate_response_with_compression kind client.accept_compression 200 left.header
        ≡ ok (c, none)
      → run_streaming_call
          (stream_next p input output use_http_get no_side_effects kind client)
          []
          req
        ≡ ok (record {
          header = left.header;
          message = with_end outs arrived_end;
          trailer = arrived_trailer;
        })
  unfolding run_streaming_call apply_interceptors stream_next stream_response_of
  run_streaming_call_lem req answered head =
      let res = client_response (
        streamed_response p input output new_type server impl client.use_binary_format c
          (of_client output client) client.read_max_bytes o outs result left sent_last returns
          packed fits) in
      let call : Result (Response (Stream O)) → Result (Response (Stream O)) = λ r.
        map_result
          (λ (res : Response (Stream O)). record res { message = aborted_stream res.message })
          (aborted r) in
      let checked : UniversalClientResponse
          → Result (Option Compression × Option ConnectError)
          → Result (Response (Stream O)) =
        λ res r. call (
          r >>= λ (c, e).
          ok (stream_response_of p input output use_http_get no_side_effects kind client res c)) in
      let response : Stream O → Result (Response (Stream O)) =
        λ m. ok (record { header = left.header; message = m; trailer = arrived_trailer }) in
      ap
        (λ r. call (
          r >>= λ res.
          validate_response_with_compression kind client.accept_compression res.status res.header
          >>= λ (c, e).
              ok
                (stream_response_of p input output use_http_get no_side_effects kind client res c)))
        answered
      ∙ ap (checked res) head
      ∙ ap
          (λ (read : Stream O × Headers).
            call (ok (record { header = left.header; message = read.0; trailer = read.1 })))
          stream_messages_lem
      ∙ ap response (aborted_stream-ended outs (arrived p left.trailer result))
