-- ===== src/BinaryHeader.antt =====
-- packages/connect/src/http-headers.ts: binary values in headers. `protoBase64` is a parameter.
use connect_es.Prelude.{ℕ, List, [], ◌∷◌, ◌==◌, if◌then◌else◌}
use connect_es.Prelude.Text.{Text}
use connect_es.Prelude.Text.Utf8.{encode}
use connect_es.Code.{data_loss}
use connect_es.ConnectError.{connect_error, from, Result, ok, err, map_result, ◌>>=◌}

-- A value for a header: a message with what its `toBinary()` gives, a text, or bytes.
pub data HeaderValue : Type 0 where
  message_value : Result (List ℕ) → HeaderValue
  string : Text → HeaderValue
  bytes : List ℕ → HeaderValue

-- `.replace(/=+$/, "")`
unfoldable pub strip_padding : Text → Text
strip_padding [] = []
strip_padding (c ∷ s) = elim (strip_padding s) [
  | [] ↦ if c == b'=' then [] else c ∷ []
  | d ∷ t ↦ c ∷ d ∷ t
]

abbrev value_bytes : HeaderValue → Result (List ℕ)
value_bytes (message_value r) = r
value_bytes (string s) = ok (encode s)
value_bytes (bytes b) = ok b

-- `encodeBinaryHeader`
unfoldable pub encode_binary_header : (List ℕ → Text) → HeaderValue → Result Text
unfolding strip_padding
encode_binary_header enc value = map_result (λ b. strip_padding (enc b)) (value_bytes value)

abbrev pub or_data_loss {ℓ} : {A : Type ℓ} → Result A → Result A
or_data_loss (ok a) = ok a
or_data_loss (err r) = err (connect_error (from r data_loss))

-- `decodeBinaryHeader`, with the `fromBinary` of a message type, or `ok` for plain bytes.
unfoldable pub decode_binary_header {ℓ} :
    {A : Type ℓ} → (Text → Result (List ℕ)) → (List ℕ → Result A) → Text → Result A
unfolding from
decode_binary_header dec from_binary value = or_data_loss (dec value >>= from_binary)
