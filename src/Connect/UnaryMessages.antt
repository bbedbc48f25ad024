-- ===== src/Connect/UnaryMessages.antt =====
-- A message that the handler of a unary call returns, as the client reads it.
use connect_es.Prelude.{
  ℕ, ◌≤◌, ◌≡◌, refl, ap, ◌∙◌, Bool, Option, none, some, List, ◌++◌, leb, length,
}
use connect_es.Prelude.Text.{Text, to_lower, show_nat}
use connect_es.Headers.{Headers, get, set}
use connect_es.Headers.Order.{IsCanonical}
use connect_es.Compression.{Compression}
use connect_es.ConnectError.{Result, ok, map_result, ◌>>=◌}
use connect_es.TrailerMux.Laws.{NoPrefix}
use connect_es.TrailerMux.Fields.{
  get-trailer_demux, find_at-trailer_mux, trailer_mux-IsCanonical, set-IsCanonical, set-NoPrefix,
}
use connect_es.Json.{Json}
use connect_es.Universal.{unary, UniversalServerResponse}
use connect_es.Handler.{HandlerOptions, HandlerContext, Left, Output}
use connect_es.Serialization.{MessageType, serialization_lookup}
use connect_es.Grpc.Transport.{TransportOptions}
use connect_es.Connect.Handler.{Answer, unary_reply, unary_error, unary_response}
use connect_es.RequestHeader.{
  header_content_type, header_unary_encoding, set_if, map_option, name_of,
}
use connect_es.RequestHeader.Reading.{IsVisibleOption, show_nat-IsVisible}
use connect_es.AsyncIterable.Envelopes.Flags.{Inverts}
use connect_es.Connect.Transport.{response_bytes, unary_result, unary_response_of}
use connect_es.Connect.Answers.{
  used_for, compressed, reply_with, unary_response_lem, sent_header, encoding_lem, type_lem,
  bytes_lem,
}
use connect_es.Headers.Visible.{normalize_value-IsVisible}
use connect_es.Connect.{Platform}
use connect_es.UniversalClient.{client_response}
use connect_es.RunCall.{Response}
use connect_es.Grpc.Negotiated.{Knows, response_compression-Knows, name-IsVisible}
use connect_es.TrailerMux.{prefix, trailer_demux, trailer_mux}
use connect_es.GetRequest.{header_unary_content_length}
use connect_es.Headers.Laws.{find_at-set_at}
use connect_es.ValidateResponse.{
  response_compression, validate_response, validate_response_with_compression,
}

set_encoding-IsCanonical :
    (o : Option Text) (h : Headers)
    → IsVisibleOption o
    → IsCanonical h
    → IsCanonical (set_if header_unary_encoding o h)
unfolding set_if
set_encoding-IsCanonical none h v c = c
set_encoding-IsCanonical (some n) h v c =
    set-IsCanonical header_unary_encoding n h refl (normalize_value-IsVisible n v) c

set_encoding-NoPrefix :
    (o : Option Text) (h : Headers) → NoPrefix h → NoPrefix (set_if header_unary_encoding o h)
unfolding set_if
set_encoding-NoPrefix none h np = np
set_encoding-NoPrefix (some n) h np = set-NoPrefix header_unary_encoding n h refl np

validated_message :
    (accept : List Compression) (used : Option Compression) (h : Headers)
    → get header_unary_encoding h ≡ map_option name_of used
    → Knows accept used
    → validate_response_with_compression unary accept 200 h ≡ ok (used, none)
unfolding validate_response_with_compression validate_response
validated_message accept used h encoding known =
    ap
      (λ o. response_compression accept o h >>= λ c.
        map_result (λ e. (c, e)) (validate_response unary 200 h))
      encoding
    ∙ ap (λ r. r >>= λ c. map_result (λ e. (c, e)) (validate_response unary 200 h))
        (response_compression-Knows accept used h known)

module _ {I O P : Type 0} (p : Platform) (input : MessageType I) (from_json : Json → Result I)
    (output : MessageType O) (new_type : P → O) (server : HandlerOptions)
    (no_side_effects use_http_get : Bool) (impl : I → HandlerContext → Result (Output O P) × Left)
    (client : TransportOptions) (c : Option Compression) (left : Left) (body z : List ℕ)
    (m : O) where
  abbrev answer : Answer
  answer = record { status = 200; left = left; body = body }

  abbrev used : Option Compression
  used = used_for c (leb server.compress_min_bytes (length body))

  -- The client of a unary call over the Connect protocol returns the message whose bytes the handler
  -- answered with, the trailers, which travel among the headers, and the content type, whether the
  -- response is compressed or not. The bytes parse to the message; the headers have no field for the
  -- encoding and none with the prefix of the trailers; both are as a `Headers` object holds them; the
  -- body is within the limit of the client before and after compression; and the client knows the
  -- compression, which gives back what it has compressed within that limit.
  pub unary_response_of-unary_answer :
      (serialization_lookup output client.write_max_bytes client.read_max_bytes
            client.use_binary_format).parse
          body
        ≡ ok m
      → get header_unary_encoding left.header ≡ none
      → IsCanonical left.header
      → NoPrefix left.header
      → IsCanonical left.trailer
      → compressed used body ≡ ok z
      → Knows client.accept_compression used
      → Inverts used client.read_max_bytes
      → length z ≤ client.read_max_bytes
      → length body ≤ client.read_max_bytes
      → (r : UniversalServerResponse) × (res : Response O) × (unary_response p input from_json
            output new_type server no_side_effects impl c answer
          ≡ ok r)
        × (unary_response_of p input output use_http_get no_side_effects unary client
              (client_response r)
            ≡ ok res)
        × (res.message ≡ m)
        × ((name : Text) → get name res.trailer ≡ get name left.trailer)
        × (get header_content_type res.header ≡ get header_content_type left.header)
  unfolding set unary_reply unary_response_of response_bytes unary_result
  unary_response_of-unary_answer reads plain ch np ct packed known inverts small whole =
      let a = answer in
      let visible = name-IsVisible client.accept_compression used known in
      let g = set_if header_unary_encoding (map_option name_of used) left.header in
      let h = sent_header a used z ct plain visible in
      let mux = trailer_mux g left.trailer in
      let size = header_unary_content_length in
      let cg = set_encoding-IsCanonical (map_option name_of used) left.header visible ch in
      let ng = set_encoding-NoPrefix (map_option name_of used) left.header np in
      let canonical : IsCanonical h =
        set-IsCanonical size (show_nat (length z)) mux refl
          (normalize_value-IsVisible (show_nat (length z)) (show_nat-IsVisible (length z)))
          (trailer_mux-IsCanonical g left.trailer cg ct) in
      let (header, trailer) = trailer_demux h in
      (
        reply_with a used z,
        record { header = header; message = m; trailer = trailer },
        unary_response_lem p input from_json output new_type server no_side_effects impl c a z
            packed,
        ap
              (λ v. v >>= λ (c, unary_error).
                response_bytes p input output use_http_get no_side_effects unary client
                  (client_response (reply_with a used z)) c
                >>= unary_result p input output use_http_get no_side_effects unary client
                    (header, trailer) unary_error)
              (validated_message client.accept_compression used h
                (encoding_lem a used z ct plain visible) known)
            ∙ ap
                (λ v.
                  v
                  >>= unary_result p input output use_http_get no_side_effects unary client
                      (header, trailer) none)
                (bytes_lem a used z ct plain visible client.read_max_bytes small whole inverts
                  packed)
            ∙ ap (map_result (λ m. record { header = header; message = m; trailer = trailer }))
                reads,
        refl,
        λ name.
            (get-trailer_demux name h canonical).0
            ∙ find_at-set_at (prefix ++ to_lower name) (to_lower size) _ mux
            ∙ find_at-trailer_mux name g left.trailer ct ng,
        (get-trailer_demux header_content_type h canonical).1 refl
            ∙ type_lem a used z ct plain visible,
      )
