-- ===== src/Tests/Unary.antt =====
-- The answers of a unary method of the Connect protocol at concrete inputs.
use connect_es.Prelude.{
  ℕ, ◌≡◌, refl, false, Option, none, some, List, [], ◌∷◌, arith, if◌then◌else◌,
}
use connect_es.Prelude.Text.{Text, codes, text_eq}
use connect_es.Prelude.Text.Utf8.{encode}
use connect_es.Code.{not_found}
use connect_es.Headers.{get}
use connect_es.Json.{Json}
use connect_es.ConnectError.{Message, ConnectError, connect_error, new_error_with, Result, ok, err}
use connect_es.ErrorJson.{error_to_json}
use connect_es.TrailerMux.{trailer_demux}
use connect_es.EndStream.{append_headers}
use connect_es.Universal.{unary, UniversalServerResponse}
use connect_es.UniversalClient.{client_response}
use connect_es.RunCall.{Response}
use connect_es.Handler.{HandlerContext, Left, unchanged, Output}
use connect_es.RequestHeader.{header_content_type}
use connect_es.Connect.{Platform, error_to_json_bytes}
use connect_es.Connect.Handler.{unary_error, unary_response}
use connect_es.Connect.Transport.{unary_response_of}
use connect_es.Connect.UnaryErrors.{IsPrinted, unary_response_of-unary_error}
use connect_es.Connect.UnaryMessages.{unary_response_of-unary_answer}
use connect_es.Tests.Calls.{
  numbers, prefixing, server, new_number, client, prefixing-Inverts, prefixing-IsKnown,
}
use connect_es.Serialization.{serialization_lookup}

abbrev pub enc : List ℕ → Text
enc b = b

abbrev pub no_json : Message → Option Json
no_json m = none

abbrev pub missing : ConnectError
missing =
    new_error_with (codes "no such user") not_found (some ((codes "x-id", codes "7") ∷ [])) none
      none

-- The text of the JSON of this error.
abbrev printed : Text
printed = codes "{\"code\":\"not_found\",\"message\":\"no such user\"}"

-- A platform that prints and parses the JSON of this error.
abbrev platform : Platform
platform = record {
  enc = enc;
  dec = λ s. some s;
  to_json = no_json;
  stringify = λ j. printed;
  parse_json = λ s. if text_eq s printed then some (error_to_json enc no_json missing) else none;
  search_params = λ url name. none;
}

missing-IsPrinted : IsPrinted platform (error_to_json enc no_json missing)
missing-IsPrinted = record { scalars = ground arith; unmarked = refl; read = refl }

abbrev from_json : Json → Result ℕ
from_json j = ok 0

abbrev never : ℕ → HandlerContext → Result (Output ℕ ℕ) × Left
never n c = (err (connect_error missing), unchanged c)

abbrev left : Left
left = record {
  header = (codes "content-type", codes "application/proto") ∷ [];
  trailer = (codes "x-took", codes "3") ∷ [];
}

unary_response_of-unary_error_example :
    (r : UniversalServerResponse) × (unary_response platform numbers from_json numbers new_number
        server false never
        (some prefixing)
        (unary_error platform numbers from_json numbers new_number server false never missing left)
      ≡ ok r)
    × (let (header, trailer) = trailer_demux (client_response r).header in
        unary_response_of platform numbers numbers false false unary client (client_response r)
        ≡ err (
            connect_error (
              new_error_with
                (codes "no such user")
                not_found
                (some (append_headers header trailer))
                none
                none)))
unfolding unary_error get encode error_to_json_bytes new_error_with
unary_response_of-unary_error_example =
    unary_response_of-unary_error platform (λ b. refl) numbers from_json numbers new_number server
      false false never client (some prefixing) left (1 ∷ encode printed) missing tt tt
      missing-IsPrinted (refl, tt) (refl, tt) refl (refl, (refl, (tt, tt))) refl prefixing-IsKnown
      prefixing-Inverts (ground arith) (ground arith)

unary_response_of-unary_answer_example :
    (r : UniversalServerResponse) × (res : Response ℕ) × (unary_response platform numbers from_json
        numbers new_number server false never
        (some prefixing)
        (record { status = 200; left = left; body = 7 ∷ [] })
      ≡ ok r)
    × (unary_response_of platform numbers numbers false false unary client (client_response r)
        ≡ ok res)
    × (res.message ≡ 7)
    × ((name : Text) → get name res.trailer ≡ get name left.trailer)
    × (get header_content_type res.header ≡ get header_content_type left.header)
unfolding get serialization_lookup
unary_response_of-unary_answer_example =
    unary_response_of-unary_answer platform numbers from_json numbers new_number server false false
      never client (some prefixing) left (7 ∷ []) (1 ∷ 7 ∷ []) 7 refl refl (refl, (refl, (tt, tt)))
      (refl, tt) (refl, (refl, (tt, tt))) refl prefixing-IsKnown prefixing-Inverts (omega arith)
      (omega arith)
