-- ===== src/Grpc/Served.antt =====
-- What the handler makes of a request whose messages it accepts, part by part.
use connect_es.Prelude.{ℕ, ◌<◌, ◌≡◌, refl, ap, ◌∙◌, Bool, Option, none, some, List, [], All}
use connect_es.Prelude.Text.{Text}
use connect_es.Headers.{Headers, get, set}
use connect_es.ConnectError.{Reason, ok, map_result}
use connect_es.Compression.{Compression, Negotiated}
use connect_es.Timeout.{Timeout}
use connect_es.Stream.{Stream, of_list}
use connect_es.AsyncIterable.{transform_catch_finally, transform_prepend, until_first}
use connect_es.AsyncIterable.Envelopes.{
  Serialization, undefined, transform_parse_envelope, transform_decompress_envelope,
}
use connect_es.AsyncIterable.Envelopes.Flags.{Inverts}
use connect_es.AsyncIterable.Envelopes.Plain.{
  with_end, ending-with_end, transform_catch_finally-with_end, until_first-of_list, Passes, chunks,
  send_plain, receive_plain,
}
use connect_es.Serialization.{MessageType, serialization_lookup}
use connect_es.Universal.{UniversalServerRequest, UniversalServerResponse}
use connect_es.TrailerStatus.{
  header_grpc_status, header_status_details, grpc_status_ok, Protobuf, validate_trailer,
}
use connect_es.TrailerStatus.Sendable.{IsFaithful}
use connect_es.Handler.{HandlerOptions, Left, MethodImpl, prelude}
use connect_es.Grpc.Handler.{
  end_trailer, trailer_or_left, respond, grpc_context, grpc_input, grpc_output,
}
use connect_es.Grpc.Status.{status_reason, Shows, thrown_status, end_trailer_lem}
use connect_es.AsyncIterable.Split.{transform_split_envelope}
use connect_es.RequestHeader.{
  header_content_type, header_grpc_encoding, map_option, name_of, grpc_content_type,
}
use connect_es.RequestHeader.Reading.{
  IsVisibleOption, or_option, get-set_if_self, get-set_if_other, or_none,
}
use connect_es.Headers.Laws.{get-set}

-- The response, its head and the chunks of its body.
abbrev pub response_of : Headers → List (List ℕ) → Headers → UniversalServerResponse
response_of header body trailer = record {
  status = 200;
  header = some header;
  body = some (of_list body);
  trailer = some trailer;
}

module _ (p : Protobuf) (f : IsFaithful p) where
  pub respond_lem :
      (body : List (List ℕ)) (result : Option Reason) (left : Left)
      → get header_grpc_status left.trailer ≡ some grpc_status_ok
      → get header_status_details left.trailer ≡ none
      → Shows result
      → (h : Headers) × (respond p (with_end body result) left
          ≡ ok (response_of left.header body h))
        × (validate_trailer p h ≡ thrown_status (status_reason h result))
  unfolding respond
  respond_lem body result left status details s =
      let (h, written, read) = end_trailer_lem p f left.trailer result status details s in
      let response : Stream (List ℕ) → Headers → UniversalServerResponse = λ b trailer. record {
        status = 200;
        header = some left.header;
        body = some b;
        trailer = some trailer;
      } in
      (
        h,
        ap
              (λ e.
                map_result
                  (λ body.
                    response body (trailer_or_left p (end_trailer p e left.trailer) e left.trailer))
                  (until_first (
                    transform_catch_finally
                      (λ r. map_result (λ h. none) (end_trailer p r left.trailer))
                      (with_end body result))))
              (ending-with_end body result)
            ∙ ap
                (λ s.
                  map_result
                    (λ body.
                      response body
                        (trailer_or_left p (end_trailer p result left.trailer) result left.trailer))
                    (until_first s))
                (transform_catch_finally-with_end body result
                  (λ r. map_result (λ h. none) (end_trailer p r left.trailer))
                  (ap (map_result (λ h. none)) written))
            ∙ ap
                (map_result (λ body.
                  response body
                    (trailer_or_left p (end_trailer p result left.trailer) result left.trailer)))
                (until_first-of_list body)
            ∙ ap (λ t. ok (response (of_list body) (trailer_or_left p t result left.trailer)))
                written,
        read,
      )

module _ {I O P : Type 0} (p : Protobuf) (show_ms : ℕ → Text) (input : MessageType I)
    (output : MessageType O) (new_type : P → O) (opt : HandlerOptions)
    (impl : MethodImpl I O P) where
  pub grpc_input_lem :
      (binary : Bool) (timeout : Timeout) (compression : Negotiated) (s : Serialization I) (min : ℕ)
      (i : Inverts compression.request opt.read_max_bytes) (ms : List I)
      (h : All
        (Passes s
          (serialization_lookup input opt.write_max_bytes opt.read_max_bytes binary)
          compression.request
          min
          opt.read_max_bytes
          i)
        ms)
      → compression.error ≡ none
      → timeout.error ≡ none
      → opt.read_max_bytes < 0x100000000
      → grpc_input p show_ms input output new_type opt impl binary timeout compression (
          of_list (
            chunks s
              (serialization_lookup input opt.write_max_bytes opt.read_max_bytes binary)
              compression.request
              min
              opt.read_max_bytes
              i
              ms
              h))
        ≡ of_list ms
  unfolding grpc_input transform_prepend
  grpc_input_lem binary timeout compression s min i ms h no_error no_timeout limit =
      let q = serialization_lookup input opt.write_max_bytes opt.read_max_bytes binary in
      let max = opt.read_max_bytes in
      let body = of_list (chunks s q compression.request min max i ms h) in
      let parsed : Stream (List ℕ) → Stream I = λ body. transform_parse_envelope q none undefined (
        transform_decompress_envelope compression.request max
          (transform_split_envelope max body)) in
      ap (λ e. parsed (transform_prepend (prelude e timeout.error) body)) no_error
      ∙ ap (λ e. parsed (transform_prepend (prelude none e) body)) no_timeout
      ∙ receive_plain s q compression.request min max i none ms h refl limit

  pub grpc_output_lem :
      (binary : Bool) (c : Option Compression) (q : Serialization O) (max : ℕ) (i : Inverts c max)
      (outs : List O) (r : Option Reason)
      (h : All
        (Passes
          (serialization_lookup output opt.write_max_bytes opt.read_max_bytes binary)
          q
          c
          opt.compress_min_bytes
          max
          i)
        outs)
      → grpc_output p show_ms input output new_type opt impl binary c (with_end outs r)
        ≡ with_end
            (chunks
              (serialization_lookup output opt.write_max_bytes opt.read_max_bytes binary)
              q
              c
              opt.compress_min_bytes
              max
              i
              outs
              h)
            r
  unfolding grpc_output
  grpc_output_lem binary c q max i outs r h =
      send_plain (serialization_lookup output opt.write_max_bytes opt.read_max_bytes binary) q c
        opt.compress_min_bytes max i outs r h

  -- What the context starts with.
  pub grpc_context_lem :
      (req : UniversalServerRequest) (binary : Bool) (timeout : Timeout) (compression : Negotiated)
      → IsVisibleOption (map_option name_of compression.response)
      → let c =
          grpc_context p show_ms input output new_type opt impl req binary timeout compression in
        (get header_grpc_encoding c.response_header ≡ map_option name_of compression.response)
        × (get header_grpc_status c.response_header ≡ none)
        × (get header_status_details c.response_header ≡ none)
        × (get header_grpc_status c.response_trailer ≡ some grpc_status_ok)
        × (get header_status_details c.response_trailer ≡ none)
  unfolding grpc_context get
  grpc_context_lem req binary timeout compression v =
      let h = set header_content_type (grpc_content_type binary) [] in
      let n = map_option name_of compression.response in
      (
        get-set_if_self header_grpc_encoding n h v
            ∙ ap (or_option n)
                (get-set header_content_type header_grpc_encoding (grpc_content_type binary) [])
            ∙ or_none n,
        get-set_if_other header_grpc_encoding header_grpc_status n h refl
            ∙ get-set header_content_type header_grpc_status (grpc_content_type binary) [],
        get-set_if_other header_grpc_encoding header_status_details n h refl
            ∙ get-set header_content_type header_status_details (grpc_content_type binary) [],
        get-set header_grpc_status header_grpc_status grpc_status_ok [],
        get-set header_grpc_status header_status_details grpc_status_ok [],
      )
