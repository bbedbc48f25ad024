-- ===== src/Connect/UnaryErrors.antt =====
-- The outcome of a unary call: what the handler answers, and what the client reads.
use connect_es.Prelude.{
  ℕ, ◌≤◌, ◌≡◌, refl, ap, ◌∙◌, Bool, false, ◌&&◌, Option, none, some, List, map, leb, ◌==◌,
  if◌then◌else◌, if_false, length, All,
}
use connect_es.Code.{Code, canceled, foreign, IsMember}
use connect_es.Code.HttpStatus.{code_to_http_status}
use connect_es.Headers.{Headers, get, set}
use connect_es.Json.{Json}
use connect_es.Prelude.Text.Utf8.{IsScalars, skip_bom}
use connect_es.Prelude.Text.Utf8.Decode.{decode-encode}
use connect_es.ConnectError.{
  ConnectError, connect_error, new_error_with, Result, ok, err, map_result, ◌>>=◌,
}
use connect_es.ErrorJson.{error_to_json}
use connect_es.ErrorJson.Laws.{received, HasDebug, error_from_json-error_to_json}
use connect_es.Connect.{Platform, error_to_json_bytes, or_fallback, error_from_json_bytes}
use connect_es.Universal.{unary, UniversalServerResponse}
use connect_es.Handler.{HandlerOptions, HandlerContext, Left, Output}
use connect_es.Serialization.{MessageType}
use connect_es.Grpc.Transport.{TransportOptions}
use connect_es.Connect.Handler.{Answer, unary_reply, unary_error, unary_response}
use connect_es.RequestHeader.{header_content_type, header_unary_encoding, map_option, name_of}
use connect_es.ContentType.{parse_content_type, content_type_unary_json}
use connect_es.AsyncIterable.Envelopes.Flags.{Inverts}
use connect_es.ValidateResponse.{
  response_compression, http_error, is_json, is_unary, http_message, validate_response,
  validate_response_with_compression,
}
use connect_es.Connect.Transport.{response_bytes, unary_result, unary_response_of}
use connect_es.Connect.Answers.{
  used_for, compressed, reply_with, Lacks, get-set_fields, unary_response_lem, sent_header,
  encoding_lem, type_lem, bytes_lem,
}
use connect_es.Compression.{Compression}
use connect_es.Headers.Laws.{get-set}
use connect_es.Headers.Order.{IsCanonical}
use connect_es.Grpc.Negotiated.{Knows, response_compression-Knows, name-IsVisible}
use connect_es.TrailerMux.{trailer_demux}
use connect_es.EndStream.{append_headers}
use connect_es.UniversalClient.{client_response}

-- A JSON value that is read back from its text.
pub record IsPrinted (p : Platform) (j : Json) : Type 0 where
  pub scalars : IsScalars (p.stringify j)
  pub unmarked : skip_bom (p.stringify j) ≡ p.stringify j
  pub read : p.parse_json (p.stringify j) ≡ some j

-- The status of an error is not that of success.
not_ok : (c : Code) → IsMember c → (code_to_http_status c == 200) ≡ false
unfolding code_to_http_status
not_ok (foreign t) m = absurd m
not_ok canceled m = refl
not_ok _ m = refl

module _ (p : Platform) (base64 : (b : List ℕ) → p.dec (p.enc b) ≡ some b) where
  error_bytes_lem :
      (e : ConnectError) (metadata : Headers) (fallback : ConnectError)
      → IsMember e.code
      → All (HasDebug p.to_json) e.details
      → IsPrinted p (error_to_json p.enc p.to_json e)
      → error_from_json_bytes p (error_to_json_bytes p e) (some metadata) fallback
        ≡ ok (record (new_error_with e.raw_message e.code (some metadata) none none) {
          details = map (received p.to_json) e.details;
        })
  unfolding error_from_json_bytes error_to_json_bytes
  error_bytes_lem e metadata fallback member debug printed =
      let j = error_to_json p.enc p.to_json e in
      ap (λ t. or_fallback p (p.parse_json t) (some metadata) fallback)
        (decode-encode (p.stringify j) printed.scalars printed.unmarked)
      ∙ ap (λ o. or_fallback p o (some metadata) fallback) printed.read
      ∙ error_from_json-error_to_json p.enc p.dec p.to_json base64 e (some metadata) fallback member
          debug

validated_error :
    (accept : List Compression) (used : Option Compression) (status : ℕ) (h : Headers)
    → (status == 200) ≡ false
    → get header_unary_encoding h ≡ map_option name_of used
    → get header_content_type h ≡ some content_type_unary_json
    → Knows accept used
    → (fallback : ConnectError) × (validate_response_with_compression unary accept status h
        ≡ ok (used, some fallback))
unfolding validate_response_with_compression validate_response parse_content_type
validated_error accept used status h failed encoding type known = (
  http_error status (http_message status) h,
  ap
        (λ o. response_compression accept o h >>= λ c.
          map_result (λ e. (c, e)) (validate_response unary status h))
        encoding
      ∙ ap (λ r. r >>= λ c. map_result (λ e. (c, e)) (validate_response unary status h))
          (response_compression-Knows accept used h known)
      ∙ ap (map_result (λ e. (used, e))) (
          if_false _ _ failed
          ∙ ap
              (λ o.
                if is_unary unary && is_json (parse_content_type o)
                then ok (some (http_error status (http_message status) h))
                else err (connect_error (http_error status (http_message status) h)))
              type),
)

module _ {I O P : Type 0} (p : Platform) (base64 : (b : List ℕ) → p.dec (p.enc b) ≡ some b)
    (input : MessageType I) (from_json : Json → Result I) (output : MessageType O)
    (new_type : P → O) (server : HandlerOptions) (no_side_effects use_http_get : Bool)
    (impl : I → HandlerContext → Result (Output O P) × Left) (client : TransportOptions)
    (c : Option Compression) (left : Left) (z : List ℕ) where
  abbrev answer_to : ConnectError → Answer
  answer_to e = unary_error p input from_json output new_type server no_side_effects impl e left

  abbrev used_in : Answer → Option Compression
  used_in a = used_for c (leb server.compress_min_bytes (length a.body))

  -- The client of a unary call over the Connect protocol throws the error that the handler answered
  -- with: its code, its message and its details arrive, with the headers and trailers of the response as
  -- metadata, whether the response is compressed or not. The code is one of the enum; the JSON of each
  -- detail is an object, an array or `null`; the JSON of the error is read back from its text; neither
  -- the metadata of the error nor the headers have a field for the encoding, and the metadata has none
  -- for the content type; the trailers are as a `Headers` object holds them; base64 is decoded; the body is
  -- within the limit of the client before and after compression; and the client knows the compression,
  -- which gives back what it has compressed within that limit.
  pub unary_response_of-unary_error :
      (e : ConnectError)
      → IsMember e.code
      → All (HasDebug p.to_json) e.details
      → IsPrinted p (error_to_json p.enc p.to_json e)
      → Lacks header_content_type e.metadata
      → Lacks header_unary_encoding e.metadata
      → get header_unary_encoding left.header ≡ none
      → IsCanonical left.trailer
      → compressed (used_in (answer_to e)) (answer_to e).body ≡ ok z
      → Knows client.accept_compression (used_in (answer_to e))
      → Inverts (used_in (answer_to e)) client.read_max_bytes
      → length z ≤ client.read_max_bytes
      → length (answer_to e).body ≤ client.read_max_bytes
      → (r : UniversalServerResponse) × (unary_response p input from_json output new_type server
            no_side_effects impl c
            (answer_to e)
          ≡ ok r)
        × (let (header, trailer) = trailer_demux (client_response r).header in
            unary_response_of p input output use_http_get no_side_effects unary client
              (client_response r)
            ≡ err (
                connect_error
                  (record (new_error_with e.raw_message e.code
                    (some (append_headers header trailer))
                    none
                    none) { details = map (received p.to_json) e.details })))
  unfolding unary_error unary_reply unary_response_of response_bytes unary_result
  unary_response_of-unary_error e member debug printed no_type no_encoding plain canonical packed
        known inverts small whole =
      let a = answer_to e in
      let u = used_in a in
      let g = set header_content_type content_type_unary_json left.header in
      let unencoded : get header_unary_encoding a.left.header ≡ none =
        get-set_fields header_unary_encoding e.metadata g no_encoding
        ∙ get-set header_content_type header_unary_encoding content_type_unary_json left.header
        ∙ plain in
      let type : get header_content_type a.left.header ≡ some content_type_unary_json =
        get-set_fields header_content_type e.metadata g no_type
        ∙ get-set header_content_type header_content_type content_type_unary_json left.header in
      let visible = name-IsVisible client.accept_compression u known in
      let h = sent_header a u z canonical unencoded visible in
      let (fallback, validated) =
        validated_error client.accept_compression u a.status h (not_ok e.code member)
          (encoding_lem a u z canonical unencoded visible)
          (type_lem a u z canonical unencoded visible ∙ type) known in
      let res = client_response (reply_with a u z) in
      let (header, trailer) = trailer_demux h in
      (
        reply_with a u z,
        unary_response_lem p input from_json output new_type server no_side_effects impl c a z
            packed,
        ap
              (λ v. v >>= λ (c, unary_error).
                response_bytes p input output use_http_get no_side_effects unary client res c
                >>= unary_result p input output use_http_get no_side_effects unary client
                    (header, trailer) unary_error)
              validated
            ∙ ap
                (λ v.
                  v
                  >>= unary_result p input output use_http_get no_side_effects unary client
                      (header, trailer) (some fallback))
                (bytes_lem a u z canonical unencoded visible client.read_max_bytes small whole
                  inverts packed)
            ∙ ap (λ v. v >>= λ e. err (connect_error e))
                (error_bytes_lem p base64 e (append_headers header trailer) fallback member debug
                  printed),
      )
