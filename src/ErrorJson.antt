-- ===== src/ErrorJson.antt =====
-- packages/connect/src/protocol-connect/error-json.ts: the JSON form of an error. The JSON values
-- are those behind `JSON.stringify`, which leaves out what is undefined.
pub mod Laws
pub mod Defects
use connect_es.Prelude.{ℕ, Bool, true, false, Option, none, some, List, [], ◌∷◌, map, if◌then◌else◌}
use connect_es.Prelude.Text.{Text, codes}
use connect_es.Code.Names.{code_to_string, code_from_string}
use connect_es.Headers.{Headers, append}
use connect_es.Json.{
  Json, null, bool, num, str, arr, obj, Items, nil, cons, Fields, end, field, get_field, of_list,
}
use connect_es.ConnectError.{
  Message, Detail, outgoing, incoming, ConnectError, connect_error, new_error_with, Result, ok, err,
}
use connect_es.Code.{Code}

-- `headers.forEach((value, key) => fallback.metadata.append(key, value))`
append_all : Headers → Headers → Headers
unfolding append
append_all [] h = h
append_all ((key, value) ∷ fields) h = append_all fields (append key value h)

pub with_metadata : Option Headers → ConnectError → ConnectError
unfolding append_all
with_metadata none fallback = fallback
with_metadata (some metadata) fallback = record fallback {
  metadata = append_all metadata fallback.metadata;
}

-- `typeof v != "object"` for the field "debug", if the detail has it.
abbrev pub is_debug : Option Json → Bool
is_debug none = true
is_debug (some null) = true
is_debug (some (arr vs)) = true
is_debug (some (obj fs)) = true
is_debug (some (bool b)) = false
is_debug (some (num n)) = false
is_debug (some (str s)) = false

abbrev decode : Text → Option Json → Option (List ℕ) → Option Detail
decode type debug none = none
decode type debug (some value) = some (incoming type value debug)

-- `message ?? ""`, or a throw; `none` is that the fallback is thrown.
abbrev read_message : Option Json → Option Text
read_message none = some []
read_message (some null) = some []
read_message (some (str m)) = some m
read_message (some _) = none

module _ (dec : Text → Option (List ℕ)) where
  -- The checks of one detail, and its conversion.
  detail_fields : Option Json → Option Json → Option Json → Option Detail
  detail_fields (some (str type)) (some (str value)) debug =
      if is_debug debug then decode type debug (dec value) else none
  detail_fields _ _ debug = none

  detail_from_json : Json → Option Detail
  unfolding detail_fields
  detail_from_json (obj fs) =
      detail_fields (get_field (codes "type") fs) (get_field (codes "value") fs)
        (get_field (codes "debug") fs)
  detail_from_json _ = none

  abbrev add_detail : Option Detail → Option (List Detail) → Option (List Detail)
  add_detail (some d) (some ds) = some (d ∷ ds)
  add_detail _ _ = none

  details_from : Items → Option (List Detail)
  unfolding detail_from_json
  details_from nil = some []
  details_from (cons v vs) = add_detail (detail_from_json v) (details_from vs)

  -- Details that are missing or no array are no error.
  read_details : Option Json → Option (List Detail)
  unfolding details_from
  read_details (some (arr vs)) = details_from vs
  read_details _ = some []

  abbrev read_code : Option Json → Option Code
  read_code (some (str c)) = code_from_string c
  read_code _ = none

  abbrev finish :
      ConnectError
      → Option Headers
      → Option Code
      → Option Text
      → Option (List Detail)
      → Result ConnectError
  finish fallback metadata (some code) (some message) (some details) =
      ok (record (new_error_with message code metadata none none) { details = details })
  finish fallback metadata _ _ _ = err (connect_error fallback)

  -- `errorFromJson`
  unfoldable pub error_from_json : Json → Option Headers → ConnectError → Result ConnectError
  unfolding with_metadata read_details new_error_with code_from_string
  error_from_json (obj fs) metadata fallback =
      finish (with_metadata metadata fallback) metadata (read_code (get_field (codes "code") fs))
        (read_message (get_field (codes "message") fs))
        (read_details (get_field (codes "details") fs))
  error_from_json _ metadata fallback = err (connect_error (with_metadata metadata fallback))

module _ (enc : List ℕ → Text) (to_json : Message → Option Json) where
  abbrev debug_field : Option Json → Fields → Fields
  debug_field none fs = fs
  debug_field (some v) fs = field (codes "debug") v fs

  abbrev detail_json : Text → List ℕ → Option Json → Json
  detail_json type value debug = obj (
      field (codes "type") (str type)
        (debug_field debug (field (codes "value") (str (enc value)) end)))

  detail_to_json : Detail → Json
  detail_to_json (outgoing m) = detail_json m.type_name m.binary (to_json m)
  detail_to_json (incoming type value debug) = detail_json type value debug

  message_field : Text → Fields → Fields
  message_field [] fs = fs
  message_field (c ∷ m) fs = field (codes "message") (str (c ∷ m)) fs

  details_field : List Detail → Fields
  unfolding detail_to_json
  details_field [] = end
  details_field (d ∷ ds) = field (codes "details") (arr (of_list (map detail_to_json (d ∷ ds)))) end

  -- `errorToJson`
  unfoldable pub error_to_json : ConnectError → Json
  unfolding message_field details_field
  error_to_json e = obj (
      field (codes "code") (str (code_to_string e.code))
        (message_field e.raw_message (details_field e.details)))
