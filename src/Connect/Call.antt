-- ===== src/Connect/Call.antt =====
-- The whole way of a streaming call over the Connect protocol: from the transport of a client, through
-- the client of handlers in the same process, to the handler and the implementation, and back.
use connect_es.Prelude.{◌≤◌, length, ℕ, ◌<◌, ◌≡◌, ap, ◌∙◌, Bool, Option, none, some, List, [], All}
use connect_es.Prelude.Text.{Text}
use connect_es.Headers.{Headers, get}
use connect_es.Headers.Order.{IsCanonical}
use connect_es.Compression.{Compression}
use connect_es.ConnectError.{Reason, connect_error, ok, map_result}
use connect_es.Envelope.{EnvelopedMessage, envelope_compress}
use connect_es.EndStream.{end_stream_to_json}
use connect_es.EndStream.Laws.{NoProto, IsSendable}
use connect_es.Stream.{of_list}
use connect_es.AsyncIterable.Split.RoundTrip.{Fits}
use connect_es.AsyncIterable.Envelopes.Flags.{Inverts}
use connect_es.AsyncIterable.Envelopes.Plain.{with_end, Passes}
use connect_es.Serialization.{MessageType}
use connect_es.Universal.{MethodKind, UniversalHandler}
use connect_es.UniversalClient.{
  create_method_url, handler_for, client_response, universal_handler_client,
  universal_handler_client_lem,
}
use connect_es.RequestHeader.{
  header_timeout, header_stream_encoding, header_stream_accept_encoding, map_option,
}
use connect_es.RequestHeader.Reading.{AreVisible}
use connect_es.Handler.{HandlerOptions, Left, MethodImpl, shown_error}
use connect_es.Handler.Invoke.{transform_invoke_implementation}
use connect_es.Grpc.Transport.{TransportOptions}
use connect_es.Grpc.Negotiated.{of_client, of_server, agreed, Knows, name-IsVisible}
use connect_es.Connect.{Platform}
use connect_es.Connect.Ends.{kept_trailer, all_metadata, arrived, last}
use connect_es.Connect.UnaryErrors.{IsPrinted}
use connect_es.Connect.StreamHandler.{stream_handle}
use connect_es.Connect.Transport.{stream_request, request_of, connect_stream}
use connect_es.Connect.Streamed.{stream_context_lem}
use connect_es.Connect.Served.{request_at, context_at, stream_handle-response}
use connect_es.Connect.Heads.{IsStreaming, stream_head, timeout_of}
use connect_es.Connect.Received.{run_streaming_call_lem}

module _ {I O P : Type 0} (p : Platform) (base64 : (b : List ℕ) → p.dec (p.enc b) ≡ some b)
    (input : MessageType I) (output : MessageType O) (new_type : P → O) (server : HandlerOptions)
    (impl : MethodImpl I O P) (client : TransportOptions) (use_http_get no_side_effects : Bool)
    (kind : MethodKind) (pathname : Text → Text) (handlers : List UniversalHandler)
    (handler : UniversalHandler) where
  abbrev c : Option Compression
  c = (agreed server client).response

  -- A streaming call over the Connect protocol whose handler is in the same process returns the
  -- messages and the headers of the implementation, and ends as it does: without an error and with
  -- its trailers, or without trailers and with an error of the code, the message and the details
  -- of the one that was thrown, and with the metadata of the trailers and of that error. Here the
  -- method is not unary, and the handler is found under its path; the server has the compression
  -- of the request and the client that of the response, under names without white space that are
  -- not "identity"; the user sets no header of the protocol; the timeout is within the server's,
  -- and the limits for reading are below 2^32; each message, and the message for the end, is
  -- within the limit of its reader before and after compression, up to which decompression inverts
  -- compression, and the reader parses the bytes of each message; base64 is decoded to what was
  -- encoded; the implementation gives these outputs and this end for the messages, and leaves the
  -- encoding alone; the metadata is as a `Headers` object holds it, without a field "__proto__";
  -- the code is one of the enum, the JSON of each detail is an object, an array or `null`, and
  -- that of the end is read back from its text.
  pub connect_stream_call :
      (service method : Text) (timeout_ms : Option ℕ) (user : Headers) (ms : List I) (outs : List O)
      (result : Option Reason) (left : Left) (sent_last : EnvelopedMessage)
      → client.http_client ≡ universal_handler_client pathname handlers
      → handler_for (pathname (create_method_url client.base_url service method)) handlers
        ≡ some handler
      → handler.handle ≡ stream_handle p input output new_type server impl
      → IsStreaming kind
      → AreVisible client.accept_compression
      → Knows server.accept_compression client.send_compression
      → Knows client.accept_compression c
      → get header_timeout user ≡ none
      → get header_stream_encoding user ≡ none
      → get header_stream_accept_encoding user ≡ none
      → (timeout_of server timeout_ms).error ≡ none
      → server.read_max_bytes < 0x100000000
      → client.read_max_bytes < 0x100000000
      → (i : Inverts client.send_compression server.read_max_bytes)
        (o : Inverts c client.read_max_bytes)
      → All
          (Passes
            (of_client input client)
            (of_server input server client)
            client.send_compression
            client.compress_min_bytes
            server.read_max_bytes
            i)
          ms
      → All
          (Passes
            (of_server output server client)
            (of_client output client)
            c
            server.compress_min_bytes
            client.read_max_bytes
            o)
          outs
      → (let context =
            context_at p input output new_type server impl client use_http_get no_side_effects kind
              service method timeout_ms user
              (of_list ms) in
          (transform_invoke_implementation new_type impl context (of_list ms)
            ≡ (with_end outs result, left))
          × (get header_stream_encoding left.header
              ≡ get header_stream_encoding context.response_header))
      → envelope_compress (last p left.trailer result) c server.compress_min_bytes ≡ ok sent_last
      → length (last p left.trailer result).payload ≤ client.read_max_bytes
      → Fits client.read_max_bytes sent_last
      → IsCanonical (all_metadata p left.trailer result)
      → NoProto (all_metadata p left.trailer result)
      → IsSendable p.to_json (map_option shown_error result)
      → IsPrinted p
          (end_stream_to_json p.enc p.to_json left.trailer (map_option shown_error result))
      → connect_stream p input output use_http_get no_side_effects kind client [] service method
          timeout_ms user
          (of_list ms)
        ≡ ok (record {
          header = left.header;
          message = with_end outs (map_option connect_error (arrived p left.trailer result));
          trailer =
              kept_trailer (all_metadata p left.trailer result) (arrived p left.trailer result);
        })
  unfolding connect_stream request_of stream_request
  connect_stream_call service method timeout_ms user ms outs result left sent_last connected found
        handles streaming accepts knows known no_timeout no_encoding no_accepted in_time in_limit
        limit i o sends returns (invoked, keeps) packed small fits canonical no_proto sendable
        printed =
      let req =
        request_of p input output use_http_get no_side_effects kind client service method timeout_ms
          user (of_list ms) in
      let request = stream_request p input output use_http_get no_side_effects kind client req in
      let server_req =
        request_at p input output new_type server impl client use_http_get no_side_effects kind
          service method timeout_ms user (of_list ms) in
      run_streaming_call_lem p base64 input output new_type server impl client use_http_get
        no_side_effects kind c outs result left o sent_last returns packed small fits canonical
        no_proto sendable printed limit req
        (ap (λ g. g request) connected
          ∙ universal_handler_client_lem pathname handlers request handler found
          ∙ ap (λ g. map_result client_response (g server_req)) handles
          ∙ ap (map_result client_response) (
              stream_handle-response p input output new_type server impl client use_http_get
                no_side_effects kind service method timeout_ms user ms i sends streaming accepts
                (name-IsVisible server.accept_compression client.send_compression knows) no_timeout
                no_encoding no_accepted outs result left o sent_last returns packed fits knows
                in_time in_limit invoked))
        (stream_head kind client.accept_compression c left.header streaming
          (keeps
            ∙ stream_context_lem p input output new_type server impl client.use_binary_format
                server_req (timeout_of server timeout_ms) (agreed server client)
                (name-IsVisible client.accept_compression c known))
          known)
