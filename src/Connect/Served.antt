-- ===== src/Connect/Served.antt =====
-- A streaming call over the Connect protocol on the side of the handler, as a whole: from the request of
-- the transport to the response.
use connect_es.Prelude.{ℕ, ◌<◌, ◌≡◌, refl, sym, ap, ◌∙◌, Bool, Option, none, List, All}
use connect_es.Prelude.Text.{Text}
use connect_es.Headers.{Headers, get}
use connect_es.Compression.{Negotiated, compression_negotiate}
use connect_es.Timeout.{Timeout, parse_timeout}
use connect_es.ConnectError.{Reason, Result, ok}
use connect_es.Envelope.{EnvelopedMessage, envelope_compress}
use connect_es.Stream.{Stream, of_list}
use connect_es.AsyncIterable.Split.{transform_join_envelopes}
use connect_es.AsyncIterable.Split.RoundTrip.{Fits}
use connect_es.AsyncIterable.Envelopes.{transform_serialize_envelope, transform_compress_envelope}
use connect_es.AsyncIterable.Envelopes.Flags.{Inverts}
use connect_es.AsyncIterable.Envelopes.Plain.{with_end, with_end-none, Passes, chunks, send_plain}
use connect_es.Serialization.{MessageType}
use connect_es.Universal.{
  MethodKind, UniversalServerRequest, UniversalServerResponse, assert_byte_stream_request,
}
use connect_es.UniversalClient.{server_request}
use connect_es.RequestHeader.{
  header_timeout, header_stream_encoding, header_stream_accept_encoding, map_option, name_of,
  accepted_names,
}
use connect_es.RequestHeader.Reading.{IsVisibleOption, AreVisible}
use connect_es.Handler.{HandlerOptions, HandlerContext, Left, MethodImpl}
use connect_es.Handler.Invoke.{transform_invoke_implementation}
use connect_es.Grpc.Transport.{TransportOptions}
use connect_es.Grpc.Negotiated.{of_client, of_server, agreed, Knows, compression_negotiate-Knows}
use connect_es.Connect.{Platform}
use connect_es.Connect.Ends.{last}
use connect_es.Connect.StreamHandler.{
  stream_context, stream_respond, stream_serve, stream_typed, stream_handle,
}
use connect_es.Connect.Transport.{stream_request, request_of}
use connect_es.Connect.Streamed.{stream_input_lem, streamed_response, stream_respond_lem}
use connect_es.Connect.Heads.{IsStreaming, stream_header_read, timeout_of}

module _ {I O P : Type 0} (p : Platform) (input : MessageType I) (output : MessageType O)
    (new_type : P → O) (server : HandlerOptions) (impl : MethodImpl I O P)
    (client : TransportOptions) (use_http_get no_side_effects : Bool) (kind : MethodKind)
    (service method : Text) (timeout_ms : Option ℕ) (user : Headers) where
  -- The request as the handler gets it, and the context that it makes.
  abbrev pub request_at : Stream I → UniversalServerRequest
  request_at messages = server_request (
      stream_request p input output use_http_get no_side_effects kind client (
        request_of p input output use_http_get no_side_effects kind client service method timeout_ms
          user messages))

  abbrev pub context_at : Stream I → HandlerContext
  context_at messages =
      stream_context p input output new_type server impl (request_at messages)
        client.use_binary_format (timeout_of server timeout_ms) (agreed server client)

  module _ (ms : List I) (i : Inverts client.send_compression server.read_max_bytes)
      (sends : All
        (Passes
          (of_client input client)
          (of_server input server client)
          client.send_compression
          client.compress_min_bytes
          server.read_max_bytes
          i)
        ms)
      (streaming : IsStreaming kind) (accepts : AreVisible client.accept_compression)
      (visible : IsVisibleOption (map_option name_of client.send_compression))
      (no_timeout : get header_timeout user ≡ none)
      (no_encoding : get header_stream_encoding user ≡ none)
      (no_accepted : get header_stream_accept_encoding user ≡ none) where
    abbrev body_in : Stream (List ℕ)
    body_in = of_list (
        chunks (of_client input client) (of_server input server client) client.send_compression
          client.compress_min_bytes server.read_max_bytes i ms sends)

    abbrev req : UniversalServerRequest
    req = request_at (of_list ms)

    -- The handler takes the request.
    stream_handle_lem :
        Knows server.accept_compression client.send_compression
        → stream_handle p input output new_type server impl req
          ≡ stream_serve p input output new_type server impl req client.use_binary_format
              (timeout_of server timeout_ms)
              (agreed server client)
              body_in
    unfolding stream_handle stream_typed assert_byte_stream_request request_of stream_request
    stream_handle_lem knows =
        let (type_read, version_read, timeout_read, encoding_read, accepted_read) =
          stream_header_read kind client.accept_compression client.send_compression streaming
            accepts visible client.use_binary_format timeout_ms user no_timeout no_encoding
            no_accepted in
        let body : Stream I → Stream (List ℕ) = λ ms. transform_join_envelopes (
          transform_compress_envelope client.send_compression client.compress_min_bytes
            (transform_serialize_envelope (of_client input client) ms)) in
        let serve : Timeout → Negotiated → Stream (List ℕ) → Result UniversalServerResponse =
          stream_serve p input output new_type server impl req client.use_binary_format in
        ap (stream_typed p input output new_type server impl req (body (of_list ms))) type_read
        ∙ ap
            (λ t.
              serve (parse_timeout t server.max_timeout_ms)
                (compression_negotiate server.accept_compression
                  (get header_stream_encoding req.header)
                  (get header_stream_accept_encoding req.header) header_stream_accept_encoding)
                (body (of_list ms)))
            timeout_read
        ∙ ap
            (λ e.
              serve (timeout_of server timeout_ms)
                (compression_negotiate server.accept_compression e
                  (get header_stream_accept_encoding req.header) header_stream_accept_encoding)
                (body (of_list ms)))
            encoding_read
        ∙ ap
            (λ a.
              serve (timeout_of server timeout_ms)
                (compression_negotiate server.accept_compression
                  (map_option name_of client.send_compression) a header_stream_accept_encoding)
                (body (of_list ms)))
            accepted_read
        ∙ ap (λ c. serve (timeout_of server timeout_ms) c (body (of_list ms)))
            (compression_negotiate-Knows server.accept_compression client.send_compression
              (accepted_names client.accept_compression) header_stream_accept_encoding knows)
        ∙ ap (serve (timeout_of server timeout_ms) (agreed server client)) (
            ap body (sym (with_end-none ms))
            ∙ send_plain (of_client input client) (of_server input server client)
                client.send_compression client.compress_min_bytes server.read_max_bytes i ms none
                sends
            ∙ with_end-none _)

    module _ (outs : List O) (result : Option Reason) (left : Left)
        (o : Inverts (agreed server client).response client.read_max_bytes)
        (sent_last : EnvelopedMessage)
        (returns : All
          (Passes
            (of_server output server client)
            (of_client output client)
            (agreed server client).response
            server.compress_min_bytes
            client.read_max_bytes
            o)
          outs)
        (packed : envelope_compress
            (last p left.trailer result)
            (agreed server client).response
            server.compress_min_bytes
          ≡ ok sent_last)
        (fits : Fits client.read_max_bytes sent_last) where
      -- It answers with the messages of the implementation, its end and its trailers.
      pub stream_handle-response :
          Knows server.accept_compression client.send_compression
          → (timeout_of server timeout_ms).error ≡ none
          → server.read_max_bytes < 0x100000000
          → transform_invoke_implementation new_type impl (context_at (of_list ms)) (of_list ms)
            ≡ (with_end outs result, left)
          → stream_handle p input output new_type server impl req
            ≡ ok (
                streamed_response p input output new_type server impl client.use_binary_format
                  (agreed server client).response
                  (of_client output client)
                  client.read_max_bytes
                  o
                  outs
                  result
                  left
                  sent_last
                  returns
                  packed
                  fits)
      unfolding stream_serve request_of stream_request
      stream_handle-response knows in_time limit invoked =
          let version_read =
            (stream_header_read kind client.accept_compression client.send_compression streaming
              accepts visible client.use_binary_format timeout_ms user no_timeout no_encoding
              no_accepted).1 in
          let c = agreed server client in
          let binary = client.use_binary_format in
          stream_handle_lem knows
          ∙ ap
              (λ s.
                stream_respond p input output new_type server impl binary c.response
                  (transform_invoke_implementation new_type impl (context_at (of_list ms)) s))
              (stream_input_lem p input output new_type server impl binary req
                (timeout_of server timeout_ms) c (of_client input client) client.compress_min_bytes
                i ms sends version_read refl in_time limit)
          ∙ ap (stream_respond p input output new_type server impl binary c.response) invoked
          ∙ stream_respond_lem p input output new_type server impl binary c.response
              (of_client output client) client.read_max_bytes o outs result left sent_last returns
              packed fits
