-- ===== src/Tests/Errors.antt =====
-- Errors as JSON at concrete inputs.
use connect_es.Prelude.{ℕ, ◌≡◌, refl, Option, none, some, List, [], ◌∷◌}
use connect_es.Prelude.Text.{Text, codes}
use connect_es.Code.{not_found, internal}
use connect_es.Headers.{Headers, append}
use connect_es.Json.{Json, str, obj, end}
use connect_es.ConnectError.{
  Message, outgoing, incoming, ConnectError, connect_error, new_error_with, ok, err,
}
use connect_es.ErrorJson.{with_metadata, error_from_json, error_to_json}
use connect_es.ErrorJson.Laws.{error_from_json-error_to_json}
use connect_es.ErrorJson.Defects.{error_from_json-refused}
use connect_es.EndStream.{end_stream_from_json, sent_metadata, end_stream_to_json}
use connect_es.EndStream.Laws.{arriving, end_stream_from_json-end_stream_to_json}

-- Base64 that leaves the bytes as they are.
abbrev enc : List ℕ → Text
enc b = b

abbrev dec : Text → Option (List ℕ)
dec s = some s

abbrev object_json : Message → Option Json
object_json m = some (obj end)

abbrev string_json : Message → Option Json
string_json m = some (str (codes "3s"))

abbrev duration : Message
duration = record { type_name = codes "google.protobuf.Duration"; binary = 8 ∷ 3 ∷ [] }

abbrev response : Headers
response = (codes "x-id", codes "7") ∷ []

abbrev missing : ConnectError
missing = record (new_error_with (codes "no such user") not_found none none none) {
  details = outgoing duration ∷ [];
}

abbrev fallback : ConnectError
fallback = new_error_with (codes "HTTP 404") internal none none none

error_from_json-error_to_json_example :
    error_from_json dec (error_to_json enc object_json missing) (some response) fallback
    ≡ ok (record (new_error_with (codes "no such user") not_found (some response) none none) {
      details = incoming duration.type_name duration.binary (some (obj end)) ∷ [];
    })
unfolding new_error_with
error_from_json-error_to_json_example =
    error_from_json-error_to_json enc dec object_json (λ b. refl) missing (some response) fallback
      tt (refl, tt)

error_from_json-refused_example :
    error_from_json dec (error_to_json enc string_json missing) (some response) fallback
    ≡ err (connect_error (with_metadata (some response) fallback))
error_from_json-refused_example =
    error_from_json-refused enc dec string_json missing [] duration [] (codes "3s") (some response)
      fallback refl refl

abbrev ending : ConnectError
ending = record missing { metadata = (codes "x-id", codes "9") ∷ [] }

end_stream_from_json-end_stream_to_json_example :
    end_stream_from_json dec (end_stream_to_json enc object_json response (some ending))
    ≡ ok (
      (codes "x-id", codes "7, 9") ∷ [],
      arriving object_json ((codes "x-id", codes "7, 9") ∷ []) (some ending),
    )
unfolding sent_metadata append new_error_with
end_stream_from_json-end_stream_to_json_example =
    end_stream_from_json-end_stream_to_json enc dec object_json (λ b. refl) response (some ending)
      (refl, (refl, (tt, tt))) (refl, tt) (tt, (refl, tt))
