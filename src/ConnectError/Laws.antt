-- ===== src/ConnectError/Laws.antt =====
-- What `ConnectError.from` and `findDetails` give.
use connect_es.Prelude.{
  ◌≡◌, refl, sym, ◌∙◌, List, [], ◌∷◌, ◌++◌, append-nil, append_assoc, arith, if◌then◌else◌,
}
use connect_es.Prelude.Text.{Text, codes, text_eq}
use connect_es.Code.{Code, canceled}
use connect_es.ConnectError.{
  Message, Detail, js_error, other_value, ConnectError, Reason, connect_error, thrown, from,
  Registry, found_detail, find_details, find_details_from,
}

-- Converting what was thrown a second time, under any default code, changes nothing.
pub from_idempotent : (r : Reason) (c d : Code) → from (connect_error (from r c)) d ≡ from r c
unfolding from
from_idempotent r c d = refl

-- The code of a converted error: its own for a `ConnectError`, `Canceled` for an `AbortError`, and
-- the given one for all else.
abbrev pub code_of : Reason → Code → Code
code_of (connect_error e) code = e.code
code_of (thrown (js_error name message)) code =
    if text_eq name (codes "AbortError") then canceled else code
code_of (thrown (other_value text)) code = code

abbrev pub text_of : Reason → Text
text_of (connect_error e) = e.raw_message
text_of (thrown (js_error name message)) = message
text_of (thrown (other_value text)) = text

-- The converted error keeps the message of what was thrown and has the code that the rules of
-- `ConnectError.from` say, on each branch.
pub from_lem :
    (r : Reason) (c : Code) → ((from r c).code ≡ code_of r c) × ((from r c).raw_message ≡ text_of r)
unfolding from
from_lem (connect_error e) c = (refl, refl)
from_lem (thrown (js_error name message)) c = ground arith
from_lem (thrown (other_value text)) c = (refl, refl)

abbrev pub flat_found : Registry → List Detail → List Message
flat_found find_message [] = []
flat_found find_message (d ∷ ds) = found_detail find_message d ++ flat_found find_message ds

find_details_from_lem :
    (find_message : Registry) (found : List Message) (ds : List Detail)
    → find_details_from find_message found ds ≡ found ++ flat_found find_message ds
unfolding find_details_from
find_details_from_lem find_message found [] = sym (append-nil found)
find_details_from_lem find_message found (d ∷ ds) =
    find_details_from_lem find_message (found ++ found_detail find_message d) ds
    ∙ append_assoc found (found_detail find_message d) (flat_found find_message ds)

-- `findDetails` gives the messages that each detail yields by itself, in the order of the details.
pub find_details_lem :
    (find_message : Registry) (e : ConnectError)
    → find_details find_message e ≡ flat_found find_message e.details
unfolding find_details
find_details_lem find_message e = find_details_from_lem find_message [] e.details
