-- ===== src/ConnectError.antt =====
-- packages/connect/src/connect-error.ts: errors, what can be thrown, and fallible results.
pub mod Laws
use connect_es.Prelude.{
  ℕ, ◌≡◌, refl, ◌⊎◌, inl, inr, Option, none, some, List, [], ◌∷◌, ◌++◌, map, if◌then◌else◌, or_else,
}
use connect_es.Prelude.Text.{Text, codes, text_eq}
use connect_es.Code.{Code, canceled}
use connect_es.Code.Names.{code_to_string}
use connect_es.Headers.{Headers}
use connect_es.Json.{Json}

-- A protobuf message, of which the program uses the type's name and the binary form.
pub record Message : Type 0 where
  pub type_name : Text
  pub binary : List ℕ

-- `Message | IncomingDetail`
pub data Detail : Type 0 where
  outgoing : Message → Detail
  incoming : Text → List ℕ → Option Json → Detail

-- A thrown value that is no `ConnectError`: an `Error` with its name and message, or any other
-- value, given by `String(reason)`.
pub data Thrown : Type 0 where
  js_error : Text → Text → Thrown
  other_value : Text → Thrown

pub record ConnectError : Type 0 where
  pub message : Text
  pub raw_message : Text
  pub code : Code
  pub metadata : Headers
  pub details : List Detail
  pub cause : Option Thrown

pub data Reason : Type 0 where
  connect_error : ConnectError → Reason
  thrown : Thrown → Reason

-- `createMessage`
unfoldable pub create_message : Text → Code → Text
create_message [] code = codes "[" ++ (code_to_string code ++ codes "]")
create_message message code = codes "[" ++ (code_to_string code ++ (codes "] " ++ message))

-- The constructor with all its arguments, and with the first three.
unfoldable pub new_error_with :
    Text → Code → Option Headers → Option (List Message) → Option Thrown → ConnectError
unfolding create_message
new_error_with message code metadata outgoing_details cause = record {
  message = create_message message code;
  raw_message = message;
  code = code;
  metadata = or_else metadata [];
  details = map outgoing (or_else outgoing_details []);
  cause = cause;
}

unfoldable pub new_error : Text → Code → Headers → ConnectError
unfolding new_error_with
new_error message code metadata = new_error_with message code (some metadata) none none

-- `ConnectError.from`
unfoldable pub from : Reason → Code → ConnectError
unfolding new_error_with
from (connect_error e) code = e
from (thrown (js_error name message)) code =
    if text_eq name (codes "AbortError")
    then new_error_with message canceled none none none
    else new_error_with message code none none (some (js_error name message))
from (thrown (other_value text)) code = new_error_with text code none none (some (other_value text))

-- A registry finds a message type by its name, and a type parses the binary form; `none` is that
-- `fromBinary` throws.
abbrev pub Registry : Type 0
Registry = Text → Option (List ℕ → Option Message)

-- What one detail adds to the result of `findDetails`.
pub found_detail : Registry → Detail → List Message
found_detail find_message (outgoing m) = elim (find_message m.type_name) [
  | none ↦ []
  | some from_binary ↦ m ∷ []
]
found_detail find_message (incoming type value debug) = elim (find_message type) [
  | none ↦ []
  | some from_binary ↦ elim (from_binary value) [ none ↦ [] | some m ↦ m ∷ [] ]
]

-- `findDetails`, over the details that are left and the messages found so far.
find_details_from : Registry → List Message → List Detail → List Message
unfolding found_detail
find_details_from find_message found [] = found
find_details_from find_message found (d ∷ ds) =
    find_details_from find_message (found ++ found_detail find_message d) ds

unfoldable pub find_details : Registry → ConnectError → List Message
unfolding find_details_from
find_details find_message e = find_details_from find_message [] e.details

-- The registry that `findDetails` makes of a single message type.
unfoldable pub single_type : Text → (List ℕ → Option Message) → Registry
single_type type_name from_binary name = if text_eq name type_name then some from_binary else none

-- An error with the given code.
abbrev pub HasCode : Code → Reason → Type 0
HasCode c (connect_error e) = e.code ≡ c
HasCode c (thrown t) = ⊥

-- A result, or a thrown value.
pub data Result {ℓ} (A : Type ℓ) : Type ℓ where
  ok : A → Result A
  err : Reason → Result A

abbrev pub map_result {ℓ κ} : {A : Type ℓ} {B : Type κ} → (A → B) → Result A → Result B
map_result f (ok a) = ok (f a)
map_result f (err e) = err e

-- A result that holds no value, and then another.
infixl 5 ◌>>◌
abbrev pub ◌>>◌ {ℓ} : {B : Type ℓ} → Result (Unit {0}) → Result B → Result B
ok done >> next = next
err reason >> next = err reason

-- A result, and what goes on with its value.
infixl 5 ◌>>=◌
abbrev pub ◌>>=◌ {ℓ κ} : {A : Type ℓ} {B : Type κ} → Result A → (A → Result B) → Result B
ok value >>= next = next value
err reason >>= next = err reason

pub Result-cases {ℓ} :
    {A : Type ℓ} (x : Result A) → ((a : A) × (x ≡ ok a)) ⊎ ((r : Reason) × (x ≡ err r))
Result-cases (ok a) = inl (a, refl)
Result-cases (err r) = inr (r, refl)

-- `throw new ConnectError(message, code)`
unfoldable pub raise {ℓ} : {A : Type ℓ} → Text → Code → Result A
unfolding new_error
raise message code = err (connect_error (new_error message code []))
