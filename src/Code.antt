-- ===== src/Code.antt =====
-- packages/connect/src/code.ts, and the two ways of writing a code: its name on the wire
-- (packages/connect/src/protocol-connect/code-string.ts) and an HTTP status (the http-status.ts of
-- protocol-connect and of protocol-grpc).
pub mod Names
pub mod HttpStatus
use connect_es.Prelude.{ℕ, Bool, true, false, Option, none, some, List, [], ◌∷◌}
use connect_es.Prelude.Text.{Text}

-- The enum, and the values that its type excludes but that reach a field of this type at run time:
-- a number outside the enum or an object, given by its `toString()`.
pub data Code : Type 0 where
  canceled unknown invalid_argument deadline_exceeded not_found already_exists : Code
  permission_denied resource_exhausted failed_precondition aborted out_of_range : Code
  unimplemented internal unavailable data_loss unauthenticated : Code
  foreign : Text → Code

-- `Object.values(Code)` less the names.
abbrev pub members : List Code
members =
    canceled ∷ unknown ∷ invalid_argument ∷ deadline_exceeded ∷ not_found ∷ already_exists
    ∷ permission_denied ∷ resource_exhausted ∷ failed_precondition ∷ aborted ∷ out_of_range
    ∷ unimplemented ∷ internal ∷ unavailable ∷ data_loss ∷ unauthenticated ∷ []

-- The number of a member.
abbrev pub enum_number : Code → Option ℕ
enum_number canceled = some 1
enum_number unknown = some 2
enum_number invalid_argument = some 3
enum_number deadline_exceeded = some 4
enum_number not_found = some 5
enum_number already_exists = some 6
enum_number permission_denied = some 7
enum_number resource_exhausted = some 8
enum_number failed_precondition = some 9
enum_number aborted = some 10
enum_number out_of_range = some 11
enum_number unimplemented = some 12
enum_number internal = some 13
enum_number unavailable = some 14
enum_number data_loss = some 15
enum_number unauthenticated = some 16
enum_number (foreign t) = none

-- What the type of the enum promises: the value is one of its members.
abbrev pub IsMember : Code → Type 0
IsMember (foreign t) = ⊥
IsMember _ = Unit {0}

-- `code == Code.Canceled`
abbrev pub is_canceled : Code → Bool
is_canceled canceled = true
is_canceled _ = false
