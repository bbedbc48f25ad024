-- ===== src/ErrorJson/Laws.antt =====
-- The JSON form of an error is read back.
use connect_es.Prelude.{
  ℕ, ◌≡◌, refl, ap, ◌∙◌, true, Option, none, some, List, [], ◌∷◌, map, if_true, All,
}
use connect_es.Prelude.Text.{Text, codes}
use connect_es.Code.{IsMember}
use connect_es.Code.Names.{code_from_string-code_to_string}
use connect_es.Headers.{Headers}
use connect_es.Json.{Json, get_field, of_list}
use connect_es.ConnectError.{Message, Detail, outgoing, incoming, ConnectError, new_error_with, ok}
use connect_es.ErrorJson.{
  is_debug, error_from_json, error_to_json, decode, read_message, detail_fields, detail_from_json,
  details_from, read_details, detail_json, detail_to_json, message_field, details_field,
}

-- A detail as it arrives.
abbrev pub received : (Message → Option Json) → Detail → Detail
received to_json (outgoing m) = incoming m.type_name m.binary (to_json m)
received to_json (incoming type value debug) = incoming type value debug

-- The "debug" field of a detail, if there is one, is an object, an array or `null`.
abbrev pub HasDebug : (Message → Option Json) → Detail → Type 0
HasDebug to_json (outgoing m) = is_debug (to_json m) ≡ true
HasDebug to_json (incoming type value debug) = is_debug debug ≡ true

module _ (enc : List ℕ → Text) (dec : Text → Option (List ℕ)) (to_json : Message → Option Json)
    (base64 : (b : List ℕ) → dec (enc b) ≡ some b) where
  detail_from_json-detail_json :
      (type : Text) (value : List ℕ) (debug : Option Json)
      → is_debug debug ≡ true
      → detail_from_json dec (detail_json enc to_json type value debug)
        ≡ some (incoming type value debug)
  unfolding detail_from_json detail_fields
  detail_from_json-detail_json type value none d = ap (decode type none) (base64 value)
  detail_from_json-detail_json type value (some v) d =
      if_true _ _ d ∙ ap (decode type (some v)) (base64 value)

  detail_from_json-detail_to_json :
      (d : Detail)
      → HasDebug to_json d
      → detail_from_json dec (detail_to_json enc to_json d) ≡ some (received to_json d)
  unfolding detail_to_json
  detail_from_json-detail_to_json (outgoing m) h =
      detail_from_json-detail_json m.type_name m.binary (to_json m) h
  detail_from_json-detail_to_json (incoming type value debug) h =
      detail_from_json-detail_json type value debug h

  details_from-of_list :
      (ds : List Detail)
      → All (HasDebug to_json) ds
      → details_from dec (of_list (map (detail_to_json enc to_json) ds))
        ≡ some (map (received to_json) ds)
  unfolding details_from
  details_from-of_list [] hs = refl
  details_from-of_list (d ∷ ds) (h, hs) =
      rw (detail_from_json-detail_to_json d h, details_from-of_list ds hs) refl

  read_details-details_field :
      (ds : List Detail)
      → All (HasDebug to_json) ds
      → read_details dec (get_field (codes "details") (details_field enc to_json ds))
        ≡ some (map (received to_json) ds)
  unfolding read_details details_field
  read_details-details_field [] hs = refl
  read_details-details_field (d ∷ ds) hs = details_from-of_list (d ∷ ds) hs

  -- The fields of the JSON form.
  read_message-message_field :
      (m : Text) (ds : List Detail)
      → (read_message (
            get_field
              (codes "message")
              (message_field enc to_json m (details_field enc to_json ds)))
          ≡ some m)
        × (get_field (codes "details") (message_field enc to_json m (details_field enc to_json ds))
            ≡ get_field (codes "details") (details_field enc to_json ds))
  unfolding message_field details_field
  read_message-message_field [] [] = (refl, refl)
  read_message-message_field [] (d ∷ ds) = (refl, refl)
  read_message-message_field (c ∷ m) ds = (refl, refl)

  -- An error that is sent as JSON arrives with its code, message and details, each detail with its
  -- type, value and JSON, and with the metadata that the response has: if the code is one of the
  -- enum, decoding base64 inverts encoding it, and the JSON of each detail is an object, an array or
  -- `null`.
  pub error_from_json-error_to_json :
      (e : ConnectError) (metadata : Option Headers) (fallback : ConnectError)
      → IsMember e.code
      → All (HasDebug to_json) e.details
      → error_from_json dec (error_to_json enc to_json e) metadata fallback
        ≡ ok (record (new_error_with e.raw_message e.code metadata none none) {
          details = map (received to_json) e.details;
        })
  unfolding error_from_json error_to_json
  error_from_json-error_to_json e metadata fallback member hs =
      let (message, details) = read_message-message_field e.raw_message e.details in
      let read = ap (read_details dec) details ∙ read_details-details_field e.details hs in
      rw (code_from_string-code_to_string e.code member, message, read) refl
