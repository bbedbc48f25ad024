-- ===== src/EndStream.antt =====
-- packages/connect/src/protocol-connect/end-stream.ts: the message that ends a stream of the Connect
-- protocol. The JSON values are those behind `JSON.stringify` and `JSON.parse`.
pub mod Laws
use connect_es.Prelude.{ℕ, Option, none, some, List, [], ◌∷◌, if◌then◌else◌}
use connect_es.Prelude.Text.{Text, codes, text_eq}
use connect_es.Code.{invalid_argument}
use connect_es.Headers.{Headers, append}
use connect_es.Json.{Json, str, arr, obj, Items, nil, cons, Fields, end, field, get_field}
use connect_es.ConnectError.{
  Message, ConnectError, connect_error, new_error_with, Result, ok, err, map_result,
}
use connect_es.ErrorJson.{error_from_json, error_to_json}

-- `EndStreamResponse`
abbrev pub EndStreamResponse : Type 0
EndStreamResponse = Headers × Option ConnectError

abbrev parse_error : ConnectError
parse_error = new_error_with (codes "invalid end stream") invalid_argument none none none

-- `values`, if all of them are strings.
abbrev add_string : Json → Option (List Text) → Option (List Text)
add_string (str s) (some ss) = some (s ∷ ss)
add_string _ _ = none

strings : Items → Option (List Text)
strings nil = some []
strings (cons v vs) = add_string v (strings vs)

-- `for (const value of values)`
append_values : Text → List Text → Headers → Headers
unfolding append
append_values key [] h = h
append_values key (v ∷ vs) h = append_values key vs (append key v h)

-- The `values` of one key; `none` is that the error is thrown.
read_values : Text → Json → Headers → Option Headers
unfolding strings append_values
read_values key (arr vs) h = elim (strings vs) [
  | none ↦ none
  | some ss ↦ some (append_values key ss h)
]
read_values key _ h = none

-- `for (const [key, values] of Object.entries(…))`
read_entries : Fields → Option Headers → Option Headers
unfolding read_values
read_entries fs none = none
read_entries end (some h) = some h
read_entries (field key values fs) (some h) = read_entries fs (read_values key values h)

read_metadata : Option Json → Option Headers
unfolding read_entries
read_metadata none = some []
read_metadata (some (obj fs)) = read_entries fs (some [])
read_metadata (some _) = none

module _ (dec : Text → Option (List ℕ)) where
  read_error : Option Headers → Option Json → Result EndStreamResponse
  unfolding error_from_json
  read_error none error = err (connect_error parse_error)
  read_error (some metadata) none = ok (metadata, none)
  read_error (some metadata) (some json) =
      map_result (λ e. (metadata, some e)) (error_from_json dec json (some metadata) parse_error)

  -- `endStreamFromJson`
  unfoldable pub end_stream_from_json : Json → Result EndStreamResponse
  unfolding read_error read_metadata
  end_stream_from_json (obj fs) =
      read_error (read_metadata (get_field (codes "metadata") fs)) (get_field (codes "error") fs)
  end_stream_from_json _ = err (connect_error parse_error)

-- `appendHeaders`, of two arguments.
append_fields : Headers → Headers → Headers
unfolding append
append_fields [] h = h
append_fields ((key, value) ∷ fields) h = append_fields fields (append key value h)

unfoldable pub append_headers : Headers → Headers → Headers
unfolding append_fields
append_headers a b = append_fields b (append_fields a [])

-- `md[key] = [value]` for each field. For the key "__proto__", this sets the prototype of the object,
-- which is not serialized.
metadata_fields : Headers → Fields
metadata_fields [] = end
metadata_fields ((key, value) ∷ h) =
    if text_eq key (codes "__proto__")
    then metadata_fields h
    else field key (arr (cons (str value) nil)) (metadata_fields h)

metadata_field : Headers → Fields
unfolding metadata_fields
metadata_field [] = end
metadata_field (f ∷ h) = field (codes "metadata") (obj (metadata_fields (f ∷ h))) end

-- The metadata that is sent: that of the error follows that of the response.
unfoldable pub sent_metadata : Headers → Option ConnectError → Headers
unfolding append_headers
sent_metadata metadata none = metadata
sent_metadata metadata (some e) = append_headers metadata e.metadata

module _ (enc : List ℕ → Text) (to_json : Message → Option Json) where
  error_field : Option ConnectError → Fields → Fields
  unfolding error_to_json
  error_field none fs = fs
  error_field (some e) fs = field (codes "error") (error_to_json enc to_json e) fs

  -- `endStreamToJson`
  unfoldable pub end_stream_to_json : Headers → Option ConnectError → Json
  unfolding error_field metadata_field sent_metadata
  end_stream_to_json metadata error =
      obj (error_field error (metadata_field (sent_metadata metadata error)))
