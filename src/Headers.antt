-- ===== src/Headers.antt =====
-- The `Headers` object of the fetch API, which the program takes from its platform, as far as the
-- program uses it: a map from lower-case names to values that is walked in the order of the names.
-- Names and values are taken to be ones that the platform accepts, and `Set-Cookie` is a field like
-- the others.
pub mod Laws
pub mod Order
pub mod Visible
use connect_es.Prelude.{
  ℕ, Bool, true, false, ◌||◌, Option, none, some, List, [], ◌∷◌, ◌++◌, ltb, ◌==◌, if◌then◌else◌,
}
use connect_es.Prelude.Text.{Text, codes, text_eq, to_lower}
use mathlib.Core.List.{reverse}

abbrev pub Headers : Type 0
Headers = List (Text × Text)

-- The order of names.
abbrev pub text_lt : Text → Text → Bool
text_lt [] [] = false
text_lt [] (_ ∷ _) = true
text_lt (_ ∷ _) [] = false
text_lt (a ∷ s) (b ∷ t) = if a == b then text_lt s t else ltb a b

-- A value loses the HTTP white space at its ends.
abbrev is_http_space : ℕ → Bool
is_http_space c = c == 32 || (c == 9 || (c == 10 || c == 13))

abbrev strip_start : Text → Text
strip_start [] = []
strip_start (c ∷ s) = if is_http_space c then strip_start s else c ∷ s

abbrev pub normalize_value : Text → Text
normalize_value v = reverse (strip_start (reverse (strip_start v)))

-- Lookup and update by a name that is in lower case.
unfoldable pub find_at : Text → Headers → Option Text
find_at k [] = none
find_at k ((j, v) ∷ h) = if text_eq j k then some v else find_at k h

pub set_at : Text → Text → Headers → Headers
set_at k v [] = (k, v) ∷ []
set_at k v ((j, w) ∷ h) =
    if text_eq j k
    then (k, v) ∷ h
    else if text_lt k j
    then (k, v) ∷ (j, w) ∷ h
    else (j, w) ∷ set_at k v h

abbrev pub joined : Option Text → Text → Text
joined none v = v
joined (some old) v = old ++ codes ", " ++ v

-- `h.get(name)`; `none` is `null`.
unfoldable pub get : Text → Headers → Option Text
unfolding find_at
get name h = find_at (to_lower name) h

-- `h.has(name)`
unfoldable pub has : Text → Headers → Bool
unfolding get
has name h = elim (get name h) [ none ↦ false | some v ↦ true ]

-- `h.set(name, value)`
unfoldable pub set : Text → Text → Headers → Headers
unfolding set_at
set name value h = set_at (to_lower name) (normalize_value value) h

-- `h.append(name, value)`
unfoldable pub append : Text → Text → Headers → Headers
unfolding set_at find_at
append name value h =
    set_at (to_lower name) (joined (find_at (to_lower name) h) (normalize_value value)) h

-- `h.delete(name)`
unfoldable pub delete_at : Text → Headers → Headers
delete_at k [] = []
delete_at k ((j, w) ∷ h) = if text_eq j k then delete_at k h else (j, w) ∷ delete_at k h

unfoldable pub delete : Text → Headers → Headers
unfolding delete_at
delete name h = delete_at (to_lower name) h
