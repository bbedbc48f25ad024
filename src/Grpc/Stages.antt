-- ===== src/Grpc/Stages.antt =====
-- The stages of a streaming call over gRPC on the side of the handler: it gets the request of the
-- transport, and serves it.
use connect_es.Prelude.{ℕ, ◌<◌, ◌≡◌, refl, sym, ap, ◌∙◌, Option, none, List, All}
use connect_es.Prelude.Text.{Text}
use connect_es.Headers.{Headers, get}
use connect_es.Compression.{Negotiated, compression_negotiate}
use connect_es.Timeout.{Timeout, parse_grpc_timeout, print_grpc_timeout}
use connect_es.Stream.{Stream, of_list}
use connect_es.Serialization.{MessageType}
use connect_es.Universal.{
  UniversalServerRequest, UniversalServerResponse, assert_byte_stream_request,
}
use connect_es.UniversalClient.{server_request}
use connect_es.RequestHeader.{
  header_grpc_timeout, header_grpc_encoding, header_grpc_accept_encoding, map_option, name_of,
  accepted_names,
}
use connect_es.TrailerStatus.{header_grpc_status, header_status_details, Protobuf, validate_trailer}
use connect_es.Handler.{HandlerOptions, HandlerContext, Left, MethodImpl}
use connect_es.Grpc.Transport.{TransportOptions, request_body, sent, request_of}
use connect_es.Grpc.Handler.{
  respond, grpc_context, grpc_response, grpc_serve, typed_request, grpc_handle,
}
use connect_es.RequestHeader.Reading.{IsVisibleOption, or_option, AreVisible, or_none}
use connect_es.TrailerStatus.Sendable.{IsFaithful}
use connect_es.Handler.Invoke.{transform_invoke_implementation}
use connect_es.Grpc.Served.{
  response_of, respond_lem, grpc_input_lem, grpc_output_lem, grpc_context_lem,
}
use connect_es.Grpc.Status.{status_reason, Keeps, Shows, thrown_status}
use connect_es.AsyncIterable.Envelopes.Plain.{with_end, with_end-none, Passes, chunks, send_plain}
use connect_es.ConnectError.{Reason, Result, ok}
use connect_es.AsyncIterable.Envelopes.Flags.{Inverts}
use connect_es.RequestHeader.Grpc.{grpc_request_header_read}
use connect_es.Grpc.Negotiated.{Knows, compression_negotiate-Knows}
use connect_es.Grpc.Negotiated.{of_client, of_server, agreed}

module _ {I O P : Type 0} (p : Protobuf) (show_ms : ℕ → Text) (input : MessageType I)
    (output : MessageType O) (new_type : P → O) (server : HandlerOptions) (impl : MethodImpl I O P)
    (client : TransportOptions) where
  abbrev pub timeout_of : Option ℕ → Timeout
  timeout_of timeout_ms =
      parse_grpc_timeout show_ms (map_option print_grpc_timeout timeout_ms) server.max_timeout_ms

  -- The request as the handler gets it, and the context that it makes.
  abbrev pub request_at : Text → Text → Option ℕ → Headers → Stream I → UniversalServerRequest
  request_at service method timeout_ms user messages = server_request (
      sent p input output client
        (request_of p input output client service method timeout_ms user messages))

  abbrev pub context_at : Text → Text → Option ℕ → Headers → Stream I → HandlerContext
  context_at service method timeout_ms user messages =
      grpc_context p show_ms input output new_type server impl
        (request_at service method timeout_ms user messages) client.use_binary_format
        (timeout_of timeout_ms) (agreed server client)

  module _ (f : IsFaithful p) (service method : Text) (timeout_ms : Option ℕ) (user : Headers)
      (ms : List I) (outs : List O) (result : Option Reason) (left : Left)
      (i : Inverts client.send_compression server.read_max_bytes)
      (o : Inverts (agreed server client).response client.read_max_bytes)
      (sends : All
        (Passes
          (of_client input client)
          (of_server input server client)
          client.send_compression
          client.compress_min_bytes
          server.read_max_bytes
          i)
        ms)
      (returns : All
        (Passes
          (of_server output server client)
          (of_client output client)
          (agreed server client).response
          server.compress_min_bytes
          client.read_max_bytes
          o)
        outs) where
    -- The bytes of both bodies.
    abbrev pub body_in : Stream (List ℕ)
    body_in = of_list (
        chunks (of_client input client) (of_server input server client) client.send_compression
          client.compress_min_bytes server.read_max_bytes i ms sends)

    abbrev pub body_out : List (List ℕ)
    body_out =
        chunks (of_server output server client) (of_client output client)
          (agreed server client).response server.compress_min_bytes client.read_max_bytes o outs
          returns

    pub grpc_serve_lem :
        (req : UniversalServerRequest)
        → (timeout_of timeout_ms).error ≡ none
        → server.read_max_bytes < 0x100000000
        → IsVisibleOption (map_option name_of (agreed server client).response)
        → (let c =
              grpc_context p show_ms input output new_type server impl req client.use_binary_format
                (timeout_of timeout_ms)
                (agreed server client) in
            (transform_invoke_implementation new_type impl c (of_list ms)
              ≡ (with_end outs result, left))
            × Keeps c left)
        → Shows result
        → (trailer : Headers) × (grpc_serve p show_ms input output new_type server impl req
              client.use_binary_format
              (timeout_of timeout_ms)
              (agreed server client)
              body_in
            ≡ ok (response_of left.header body_out trailer))
          × (validate_trailer p trailer ≡ thrown_status (status_reason trailer result))
          × (get header_grpc_encoding left.header
              ≡ map_option name_of (agreed server client).response)
          × (get header_grpc_status left.header ≡ none)
          × (get header_status_details left.header ≡ none)
    unfolding grpc_serve grpc_response
    grpc_serve_lem req in_time limit v (invoked, keeps) s =
        let binary = client.use_binary_format in
        let timeout = timeout_of timeout_ms in
        let c =
          grpc_context p show_ms input output new_type server impl req binary timeout
            (agreed server client) in
        let (encoding, status, details, ok_status, no_details) =
          grpc_context_lem p show_ms input output new_type server impl req binary timeout
            (agreed server client) v in
        let (trailer, written, read) =
          respond_lem p f body_out result left (keeps.status ∙ ok_status)
            (keeps.details ∙ no_details) s in
        (
          trailer,
          ap
                (λ ms.
                  grpc_response p show_ms input output new_type server impl binary
                    (agreed server client).response
                    (transform_invoke_implementation new_type impl c ms))
                (grpc_input_lem p show_ms input output new_type server impl binary timeout
                  (agreed server client) (of_client input client) client.compress_min_bytes i ms
                  sends refl in_time limit)
              ∙ ap
                  (grpc_response p show_ms input output new_type server impl binary
                    (agreed server client).response)
                  invoked
              ∙ ap (λ b. respond p b left)
                  (grpc_output_lem p show_ms input output new_type server impl binary
                    (agreed server client).response (of_client output client) client.read_max_bytes
                    o outs result returns)
              ∙ written,
          read,
          keeps.encoding ∙ encoding,
          keeps.header_status ∙ status,
          keeps.header_details ∙ details,
        )

    pub grpc_handle_lem :
        (accepts : AreVisible client.accept_compression)
        (sent_visible : IsVisibleOption (map_option name_of client.send_compression))
        → Knows server.accept_compression client.send_compression
        → get header_grpc_timeout user ≡ none
        → get header_grpc_encoding user ≡ none
        → get header_grpc_accept_encoding user ≡ none
        → grpc_handle p show_ms input output new_type server impl
            (request_at service method timeout_ms user (of_list ms))
          ≡ grpc_serve p show_ms input output new_type server impl
              (request_at service method timeout_ms user (of_list ms))
              client.use_binary_format
              (timeout_of timeout_ms)
              (agreed server client)
              body_in
    unfolding grpc_handle typed_request assert_byte_stream_request request_body request_of sent
    grpc_handle_lem accepts sent_visible knows no_timeout no_encoding no_accepted =
        let binary = client.use_binary_format in
        let req = request_at service method timeout_ms user (of_list ms) in
        let sent_body = request_body p input output client (of_list ms) in
        let serve : Timeout → Negotiated → Stream (List ℕ) → Result UniversalServerResponse =
          grpc_serve p show_ms input output new_type server impl req binary in
        let (type_read, timeout_read, encoding_read, accepted_read) =
          grpc_request_header_read client.accept_compression client.send_compression accepts
            sent_visible binary timeout_ms user in
        ap
          (typed_request p show_ms input output new_type server impl req
            (request_body p input output client (of_list ms)))
          type_read
        ∙ ap
            (λ t.
              serve (parse_grpc_timeout show_ms t server.max_timeout_ms)
                (compression_negotiate server.accept_compression
                  (get header_grpc_encoding req.header) (get header_grpc_accept_encoding req.header)
                  header_grpc_accept_encoding)
                sent_body)
            (timeout_read ∙ ap (or_option _) no_timeout ∙ or_none _)
        ∙ ap
            (λ e.
              serve (timeout_of timeout_ms)
                (compression_negotiate server.accept_compression e
                  (get header_grpc_accept_encoding req.header) header_grpc_accept_encoding)
                sent_body)
            (encoding_read ∙ ap (or_option _) no_encoding ∙ or_none _)
        ∙ ap
            (λ a.
              serve (timeout_of timeout_ms)
                (compression_negotiate server.accept_compression
                  (map_option name_of client.send_compression) a header_grpc_accept_encoding)
                sent_body)
            (accepted_read ∙ ap (or_option _) no_accepted ∙ or_none _)
        ∙ ap (λ c. serve (timeout_of timeout_ms) c sent_body)
            (compression_negotiate-Knows server.accept_compression client.send_compression
              (accepted_names client.accept_compression) header_grpc_accept_encoding knows)
        ∙ ap (serve (timeout_of timeout_ms) (agreed server client)) (
            ap (request_body p input output client) (sym (with_end-none ms))
            ∙ send_plain (of_client input client) (of_server input server client)
                client.send_compression client.compress_min_bytes server.read_max_bytes i ms none
                sends
            ∙ with_end-none _)
