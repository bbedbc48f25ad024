-- ===== src/Code/Names.antt =====
-- packages/connect/src/protocol-connect/code-string.ts: the name of a code on the wire.
use connect_es.Prelude.{
  ◌≡◌, refl, ◌∙◌, subst, ◌↔◌, inl, inr, ◌&&◌, Option, none, some, List, [], ◌∷◌, arith, leb,
  if◌then◌else◌, Bool-cases, Option-cases, All,
}
use connect_es.Prelude.Text.{Text, codes, text_eq, text_eq_sound, lower}
use connect_es.Code.{
  Code, canceled, unknown, invalid_argument, deadline_exceeded, not_found, already_exists,
  permission_denied, resource_exhausted, failed_precondition, aborted, out_of_range, unimplemented,
  internal, unavailable, data_loss, unauthenticated, foreign, members, IsMember,
}

-- `Code[value]`, the reverse mapping of the enum.
enum_name : Code → Option Text
enum_name canceled = some (codes "Canceled")
enum_name unknown = some (codes "Unknown")
enum_name invalid_argument = some (codes "InvalidArgument")
enum_name deadline_exceeded = some (codes "DeadlineExceeded")
enum_name not_found = some (codes "NotFound")
enum_name already_exists = some (codes "AlreadyExists")
enum_name permission_denied = some (codes "PermissionDenied")
enum_name resource_exhausted = some (codes "ResourceExhausted")
enum_name failed_precondition = some (codes "FailedPrecondition")
enum_name aborted = some (codes "Aborted")
enum_name out_of_range = some (codes "OutOfRange")
enum_name unimplemented = some (codes "Unimplemented")
enum_name internal = some (codes "Internal")
enum_name unavailable = some (codes "Unavailable")
enum_name data_loss = some (codes "DataLoss")
enum_name unauthenticated = some (codes "Unauthenticated")
enum_name (foreign t) = none

-- `s.replace(/[A-Z]/g, (c) => "_" + c.toLowerCase())`
snake : Text → Text
snake [] = []
snake (c ∷ s) =
    let rest = snake s in if leb b'A' c && leb c b'Z' then b'_' ∷ lower c ∷ rest else c ∷ rest

-- `name[0].toLowerCase() + …` of a name that is not empty.
uncapitalize : Text → Text
unfolding snake
uncapitalize [] = []
uncapitalize (c ∷ s) = lower c ∷ snake s

printed : Code → Text
printed (foreign t) = t
printed _ = []

-- `codeToString`
unfoldable pub code_to_string : Code → Text
unfolding enum_name uncapitalize printed
code_to_string c = elim (enum_name c) [ none ↦ printed c | some name ↦ uncapitalize name ]

-- What `{}` inherits: the keys of `Object.prototype`, with the text of what each of them holds.
abbrev pub inherited : List (Text × Text)
inherited =
    (codes "constructor", codes "function Object() { [native code] }")
    ∷ (codes "hasOwnProperty", codes "function hasOwnProperty() { [native code] }")
    ∷ (codes "isPrototypeOf", codes "function isPrototypeOf() { [native code] }")
    ∷ (codes "propertyIsEnumerable", codes "function propertyIsEnumerable() { [native code] }")
    ∷ (codes "toLocaleString", codes "function toLocaleString() { [native code] }")
    ∷ (codes "toString", codes "function toString() { [native code] }")
    ∷ (codes "valueOf", codes "function valueOf() { [native code] }")
    ∷ (codes "__defineGetter__", codes "function __defineGetter__() { [native code] }")
    ∷ (codes "__defineSetter__", codes "function __defineSetter__() { [native code] }")
    ∷ (codes "__lookupGetter__", codes "function __lookupGetter__() { [native code] }")
    ∷ (codes "__lookupSetter__", codes "function __lookupSetter__() { [native code] }")
    ∷ (codes "__proto__", codes "[object Object]")
    ∷ []

-- An own property of the table that the loop over the members fills; no two members share a name.
own_property : List Code → Text → Option Code
own_property [] value = none
own_property (c ∷ cs) value =
    if text_eq (code_to_string c) value then some c else own_property cs value

pub inherited_property : List (Text × Text) → Text → Option Code
inherited_property [] value = none
inherited_property ((key, held) ∷ ps) value =
    if text_eq key value then some (foreign held) else inherited_property ps value

-- `codeFromString`: `stringToCode[value]`
unfoldable pub code_from_string : Text → Option Code
unfolding own_property inherited_property code_to_string
code_from_string value = elim (own_property members value) [
  | some c ↦ some c
  | none ↦ inherited_property inherited value
]

-- Parsing the printed name of a member of the enum gives that member.
pub code_from_string-code_to_string :
    (c : Code) → IsMember c → code_from_string (code_to_string c) ≡ some c
unfolding code_from_string
code_from_string-code_to_string canceled h = refl
code_from_string-code_to_string unknown h = refl
code_from_string-code_to_string invalid_argument h = refl
code_from_string-code_to_string deadline_exceeded h = refl
code_from_string-code_to_string not_found h = refl
code_from_string-code_to_string already_exists h = refl
code_from_string-code_to_string permission_denied h = refl
code_from_string-code_to_string resource_exhausted h = refl
code_from_string-code_to_string failed_precondition h = refl
code_from_string-code_to_string aborted h = refl
code_from_string-code_to_string out_of_range h = refl
code_from_string-code_to_string unimplemented h = refl
code_from_string-code_to_string internal h = refl
code_from_string-code_to_string unavailable h = refl
code_from_string-code_to_string data_loss h = refl
code_from_string-code_to_string unauthenticated h = refl
code_from_string-code_to_string (foreign t) h = absurd h

members-IsMember : All IsMember members
members-IsMember = omega arith

own_property_sound :
    (cs : List Code) (value : Text) (c : Code)
    → All IsMember cs
    → own_property cs value ≡ some c
    → IsMember c × (code_to_string c ≡ value)
unfolding own_property
own_property_sound [] value c m h = cc
own_property_sound (d ∷ cs) value c m h = elim (Bool-cases (text_eq (code_to_string d) value)) [
  | inl hit ↦
      let same : d ≡ c = ground arith in
      subst (λ e. IsMember e × (code_to_string e ≡ value)) same
        (m.0, text_eq_sound (code_to_string d) value hit)
  | inr miss ↦ own_property_sound cs value c m.1 (rw (miss, own_property) at h)
]

-- A text that is no key of `Object.prototype` parses to a code exactly if the code is a member of
-- the enum and the text is its printed name.
pub code_from_string_iff :
    (value : Text) (c : Code)
    → inherited_property inherited value ≡ none
    → (code_from_string value ≡ some c) ↔ (IsMember c × (code_to_string c ≡ value))
unfolding code_from_string
code_from_string_iff value c plain = (to, from)
  where
    to : code_from_string value ≡ some c → IsMember c × (code_to_string c ≡ value)
    to h = elim (Option-cases (own_property members value)) [
      | inl missing ↦ cc (plain, rw (missing, code_from_string) at h)
      | inr (d, found) ↦
          own_property_sound members value c (members-IsMember)
            (found ∙ (rw (found, code_from_string) at h))
    ]

    from : IsMember c × (code_to_string c ≡ value) → code_from_string value ≡ some c
    from (m, e) = subst (λ v. code_from_string v ≡ some c) e (code_from_string-code_to_string c m)
