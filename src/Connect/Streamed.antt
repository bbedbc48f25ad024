-- ===== src/Connect/Streamed.antt =====
-- A streaming call over the Connect protocol on the side of the handler, part by part: the messages
-- that it reads, its context, and the response.
use connect_es.Prelude.{ℕ, ◌<◌, ◌≡◌, refl, ap, ◌∙◌, Bool, Option, none, some, List, All}
use connect_es.Prelude.{[]}
use connect_es.Headers.{get, set}
use connect_es.Headers.Laws.{get-set}
use connect_es.Compression.{Compression, Negotiated}
use connect_es.Timeout.{Timeout}
use connect_es.ConnectError.{ConnectError, Reason, Result, ok, map_result}
use connect_es.Envelope.{EnvelopedMessage, envelope_compress}
use connect_es.Stream.{Stream, of_list}
use connect_es.AsyncIterable.{transform_prepend, until_first}
use connect_es.AsyncIterable.Split.{transform_split_envelope}
use connect_es.AsyncIterable.Split.RoundTrip.{Fits}
use connect_es.AsyncIterable.Envelopes.{
  Serialization, undefined, transform_parse_envelope, transform_decompress_envelope,
}
use connect_es.AsyncIterable.Envelopes.Flags.{Inverts}
use connect_es.AsyncIterable.Envelopes.Plain.{
  with_end, until_first-of_list, Passes, chunks, receive_plain,
}
use connect_es.AsyncIterable.Envelopes.Ended.{ended_chunks, send_ended}
use connect_es.Serialization.{MessageType, serialization_lookup}
use connect_es.Universal.{UniversalServerRequest, UniversalServerResponse}
use connect_es.RequestHeader.{
  header_content_type, header_protocol_version, header_stream_encoding, protocol_version,
  map_option, name_of,
}
use connect_es.RequestHeader.Reading.{IsVisibleOption, or_option, or_none, get-set_if_self}
use connect_es.Handler.{HandlerOptions, Left, MethodImpl}
use connect_es.Connect.{Platform, end_stream_flag}
use connect_es.Connect.StreamHandler.{
  stream_content_type, stream_context, end_stream_message, version_and_prelude, stream_input,
  stream_output, stream_respond,
}
use connect_es.Connect.Ends.{last, end_stream_message_lem}
use connect_es.Connect.Heads.{prelude_lem}

module _ {I O P : Type 0} (p : Platform) (input : MessageType I) (output : MessageType O)
    (new_type : P → O) (opt : HandlerOptions) (impl : MethodImpl I O P) (binary : Bool) where
  pub stream_input_lem :
      (req : UniversalServerRequest) (timeout : Timeout) (compression : Negotiated)
      (s : Serialization I) (min : ℕ) (i : Inverts compression.request opt.read_max_bytes)
      (ms : List I)
      (h : All
        (Passes s
          (serialization_lookup input opt.write_max_bytes opt.read_max_bytes binary)
          compression.request
          min
          opt.read_max_bytes
          i)
        ms)
      → get header_protocol_version req.header ≡ some protocol_version
      → compression.error ≡ none
      → timeout.error ≡ none
      → opt.read_max_bytes < 0x100000000
      → stream_input p input output new_type opt impl req binary timeout compression (
          of_list (
            chunks s
              (serialization_lookup input opt.write_max_bytes opt.read_max_bytes binary)
              compression.request
              min
              opt.read_max_bytes
              i
              ms
              h))
        ≡ of_list ms
  unfolding stream_input transform_prepend
  stream_input_lem req timeout compression s min i ms h version no_error in_time limit =
      let q = serialization_lookup input opt.write_max_bytes opt.read_max_bytes binary in
      let max = opt.read_max_bytes in
      let body = of_list (chunks s q compression.request min max i ms h) in
      let first : Option ConnectError → Option ConnectError → Result (Option (List ℕ)) =
        version_and_prelude p input output new_type opt impl req in
      let parsed : Result (Option (List ℕ)) → Stream I = λ first.
        transform_parse_envelope q (some end_stream_flag) undefined (
          transform_decompress_envelope compression.request max
            (transform_split_envelope max (transform_prepend first body))) in
      ap (λ e. parsed (first e timeout.error)) no_error
      ∙ ap (λ e. parsed (first none e)) in_time
      ∙ ap parsed (prelude_lem opt.require_connect_protocol_header req.header version)
      ∙ receive_plain s q compression.request min max i (some end_stream_flag) ms h refl limit

  -- What the context has for the encoding of the response.
  pub stream_context_lem :
      (req : UniversalServerRequest) (timeout : Timeout) (compression : Negotiated)
      → IsVisibleOption (map_option name_of compression.response)
      → let context =
          stream_context p input output new_type opt impl req binary timeout compression in
        get header_stream_encoding context.response_header ≡ map_option name_of compression.response
  unfolding stream_context get
  stream_context_lem req timeout compression visible =
      let n = map_option name_of compression.response in
      get-set_if_self header_stream_encoding n
        (set header_content_type (stream_content_type binary) []) visible
      ∙ ap (or_option n)
          (get-set header_content_type header_stream_encoding (stream_content_type binary) [])
      ∙ or_none n

  module _ (c : Option Compression) (q : Serialization O) (max : ℕ) (i : Inverts c max)
      (outs : List O) (result : Option Reason) (left : Left) (sent_last : EnvelopedMessage)
      (returns : All
        (Passes
          (serialization_lookup output opt.write_max_bytes opt.read_max_bytes binary)
          q
          c
          opt.compress_min_bytes
          max
          i)
        outs)
      (packed : envelope_compress (last p left.trailer result) c opt.compress_min_bytes
        ≡ ok sent_last)
      (fits : Fits max sent_last) where
    -- The response with its body.
    abbrev pub streamed_response : UniversalServerResponse
    streamed_response = record {
      status = 200;
      header = some left.header;
      body = some (
          of_list (
            ended_chunks (serialization_lookup output opt.write_max_bytes opt.read_max_bytes binary)
              q c opt.compress_min_bytes max i (last p left.trailer result) sent_last packed fits
              outs returns));
      trailer = none;
    }

    pub stream_respond_lem :
        stream_respond p input output new_type opt impl binary c (with_end outs result, left)
        ≡ ok streamed_response
    unfolding stream_respond stream_output
    stream_respond_lem =
        let s = serialization_lookup output opt.write_max_bytes opt.read_max_bytes binary in
        let response : Stream (List ℕ) → UniversalServerResponse = λ body. record {
          status = 200;
          header = some left.header;
          body = some body;
          trailer = none;
        } in
        ap (λ b. map_result response (until_first b))
          (send_ended s q c opt.compress_min_bytes max i (last p left.trailer result) sent_last
            packed fits outs result returns (end_stream_message p left.trailer)
            (end_stream_message_lem p left.trailer result))
        ∙ ap (map_result response) (until_first-of_list _)
