-- ===== src/Connect/UnaryBody.antt =====
-- packages/connect/src/protocol-connect/handler-factory.ts: reading the message of a unary request.
use connect_es.Prelude.{ℕ, Bool, false, Option, none, some, List, [], if◌then◌else◌, or_else}
use connect_es.Prelude.Text.{Text, codes, text_eq}
use connect_es.Prelude.Text.Utf8.{encode}
use connect_es.Headers.{get}
use connect_es.Json.{Json}
use connect_es.ConnectError.{js_error, thrown, Result, ok, err, map_result, ◌>>=◌}
use connect_es.Compression.{Compression}
use connect_es.AsyncIterable.ReadAll.{LengthHint, no_hint, text, read_all_bytes}
use connect_es.Universal.{bytes, json, UniversalServerRequest}
use connect_es.Version.{param_base64, param_message}
use connect_es.GetRequest.{header_unary_content_length}

-- The message of a request, in bytes or as parsed JSON.
pub data UnaryBody : Type 0 where
  raw : List ℕ → UnaryBody
  parsed : Json → UnaryBody

-- `request.header.get(headerUnaryContentLength)` as a hint.
abbrev pub length_hint : Option Text → LengthHint
length_hint none = no_hint
length_hint (some s) = text s

-- `compression.decompress`, if there is a compression.
abbrev pub decompressed : Option Compression → ℕ → List ℕ → Result (List ℕ)
decompressed none max b = ok b
decompressed (some c) max b = c.decompress b max

-- `readUnaryMessageFromBody`
unfoldable pub read_unary_message_from_body :
    ℕ → Option Compression → UniversalServerRequest → Result UnaryBody
unfolding read_all_bytes get
read_unary_message_from_body max compression req = elim req.body [
  | bytes s ↦ map_result raw (
      read_all_bytes s max (length_hint (get header_unary_content_length req.header))
      >>= decompressed compression max)
  | json j ↦ ok (parsed j)
]

abbrev dec_or_throw : Option (List ℕ) → Result (List ℕ)
dec_or_throw none = err (thrown (js_error (codes "Error") (codes "invalid base64 string")))
dec_or_throw (some b) = ok b

abbrev is_one : Option Text → Bool
is_one none = false
is_one (some s) = text_eq s (codes "1")

-- `readUnaryMessageFromQuery`
unfoldable pub read_unary_message_from_query :
    (Text → Option (List ℕ)) → ℕ → Option Compression → (Text → Option Text) → Result UnaryBody
unfolding encode
read_unary_message_from_query dec max compression params =
    let message_text = or_else (params param_message) [] in
    map_result raw (
      (if is_one (params param_base64)
        then dec_or_throw (dec message_text)
        else ok (encode message_text))
      >>= decompressed compression max)
