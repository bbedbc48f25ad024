-- ===== src/Headers/Laws.antt =====
-- The laws of lookup and update.
use connect_es.Prelude.{◌≡◌, refl, some, [], ◌∷◌, arith, if◌then◌else◌}
use connect_es.Prelude.Text.{Text, text_eq, text_eq_iff, to_lower}
use connect_es.Headers.{Headers, normalize_value, find_at, set_at, joined, get, set, append}

pub find_at-set_at :
    (j k v : Text) (h : Headers)
    → find_at j (set_at k v h) ≡ (if text_eq k j then some v else find_at j h)
unfolding find_at set_at
find_at-set_at j k v [] = refl
find_at-set_at j k v ((i, w) ∷ h) =
    ground (arith, text_eq_iff k j, text_eq_iff i k, text_eq_iff i j, find_at-set_at j k v h)

-- A field that was set is read back, and no other field changes.
pub get-set :
    (name other value : Text) (h : Headers)
    → get other (set name value h) ≡ (
        if text_eq (to_lower name) (to_lower other)
        then some (normalize_value value)
        else get other h)
unfolding get set
get-set name other value h =
    find_at-set_at (to_lower other) (to_lower name) (normalize_value value) h

-- A value that is appended follows the values that the field had, behind a comma.
pub get-append :
    (name other value : Text) (h : Headers)
    → get other (append name value h) ≡ (
        if text_eq (to_lower name) (to_lower other)
        then some (joined (get name h) (normalize_value value))
        else get other h)
unfolding get append
get-append name other value h = find_at-set_at (to_lower other) (to_lower name) _ h
