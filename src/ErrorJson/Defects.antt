-- ===== src/ErrorJson/Defects.antt =====
-- An error that is lost on the way.
use connect_es.Prelude.{ℕ, ◌≡◌, refl, ap, ◌∙◌, Option, none, some, List, [], ◌∷◌, ◌++◌, map}
use connect_es.Prelude.Text.{Text, codes}
use connect_es.Code.{Code}
use connect_es.Headers.{Headers}
use connect_es.Json.{Json, str, get_field, of_list}
use connect_es.ConnectError.{Message, Detail, outgoing, ConnectError, connect_error, err}
use connect_es.ErrorJson.{
  with_metadata, error_from_json, error_to_json, detail_fields, detail_from_json, add_detail,
  details_from, read_details, finish, detail_json, detail_to_json, message_field, details_field,
}

module _ (enc : List ℕ → Text) (dec : Text → Option (List ℕ))
    (to_json : Message → Option Json) where
  detail_from_json-refused :
      (m : Message) (s : Text)
      → to_json m ≡ some (str s)
      → detail_from_json dec (detail_to_json enc to_json (outgoing m)) ≡ none
  unfolding detail_from_json detail_fields detail_to_json
  detail_from_json-refused m s e =
      ap (λ j. detail_from_json dec (detail_json enc to_json m.type_name m.binary j)) e

  add_none : (o : Option Detail) → add_detail dec o none ≡ none
  add_none none = refl
  add_none (some d) = refl

  details_from-refused :
      (before : List Detail) (d : Detail) (after : List Detail)
      → detail_from_json dec (detail_to_json enc to_json d) ≡ none
      → details_from dec (of_list (map (detail_to_json enc to_json) (before ++ d ∷ after))) ≡ none
  unfolding details_from
  details_from-refused [] d after e =
      ap
        (λ o.
          add_detail dec o (details_from dec (of_list (map (detail_to_json enc to_json) after))))
        e
  details_from-refused (b ∷ before) d after e =
      ap (add_detail dec _) (details_from-refused before d after e) ∙ add_none _

  finish-none :
      (fallback : ConnectError) (metadata : Option Headers) (c : Option Code) (m : Option Text)
      → finish dec fallback metadata c m none ≡ err (connect_error fallback)
  finish-none fallback metadata none m = refl
  finish-none fallback metadata (some c) none = refl
  finish-none fallback metadata (some c) (some m) = refl

  read_details-refused :
      (ds : List Detail) (message : Text)
      → details_from dec (of_list (map (detail_to_json enc to_json) ds)) ≡ none
      → read_details dec (
          get_field
            (codes "details")
            (message_field enc to_json message (details_field enc to_json ds)))
        ≡ none
  unfolding read_details details_field message_field details_from
  read_details-refused [] message e = absurd cc
  read_details-refused (d ∷ ds) [] e = e
  read_details-refused (d ∷ ds) (c ∷ m) e = e

  -- An error with a detail whose JSON is a string, as that of a timestamp or a duration is, does
  -- not arrive: the fallback is thrown in its place, whatever its code and message are.
  pub error_from_json-refused :
      (e : ConnectError) (before : List Detail) (m : Message) (after : List Detail) (s : Text)
      (metadata : Option Headers) (fallback : ConnectError)
      → e.details ≡ before ++ outgoing m ∷ after
      → to_json m ≡ some (str s)
      → error_from_json dec (error_to_json enc to_json e) metadata fallback
        ≡ err (connect_error (with_metadata metadata fallback))
  unfolding error_from_json error_to_json
  error_from_json-refused e before m after s metadata fallback split j =
      let refused =
        details_from-refused before (outgoing m) after (detail_from_json-refused m s j) in
      let none_read = read_details-refused e.details e.raw_message (
        ap (λ ds. details_from dec (of_list (map (detail_to_json enc to_json) ds))) split
        ∙ refused) in
      ap (finish dec (with_metadata metadata fallback) metadata _ _) none_read
      ∙ finish-none _ metadata _ _
