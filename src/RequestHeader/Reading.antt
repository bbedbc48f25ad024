-- ===== src/RequestHeader/Reading.antt =====
-- What a server reads from the headers of a request, in parts.
use connect_es.Prelude.{
  ℕ, zero, suc, ◌+◌, ◌/◌, ◌≡◌, refl, ap, ◌∙◌, false, Option, none, some, List, [], ◌∷◌, map, arith,
  ltb, if_intro, if_true, if_false, All, All-append,
}
use connect_es.Prelude.Text.{Text, text_eq, text_eq_refl, to_lower, show_fuel, show_nat}
use connect_es.Prelude.Text.Uri.Laws.{IsVisible}
use connect_es.Headers.{Headers, get}
use connect_es.Headers.Laws.{get-set}
use connect_es.Headers.Visible.{normalize_value-IsVisible}
use connect_es.Compression.{Compression, join_comma, acceptable}
use connect_es.Timeout.{print_timeout, print_grpc_timeout}
use connect_es.RequestHeader.{set_if, map_option, name_of, accepted_names, with_compression}

-- Values that are read as they were set.
abbrev pub IsVisibleOption : Option Text → Type 0
IsVisibleOption none = Unit {0}
IsVisibleOption (some v) = IsVisible v

-- The first option that is there.
abbrev pub or_option {ℓ} : {A : Type ℓ} → Option A → Option A → Option A
or_option none o = o
or_option (some a) o = some a

-- A field that was set, or not, is read back.
pub get-set_if_self :
    (name : Text) (value : Option Text) (h : Headers)
    → IsVisibleOption value
    → get name (set_if name value h) ≡ or_option value (get name h)
unfolding set_if
get-set_if_self name none h v = refl
get-set_if_self name (some value) h v =
    get-set name name value h
    ∙ if_true _ _ (text_eq_refl (to_lower name))
    ∙ ap some (normalize_value-IsVisible value v)

pub get-set_if_other :
    (name other : Text) (value : Option Text) (h : Headers)
    → text_eq (to_lower name) (to_lower other) ≡ false
    → get other (set_if name value h) ≡ get other h
unfolding set_if
get-set_if_other name other none h d = refl
get-set_if_other name other (some value) h d = get-set name other value h ∙ if_false _ _ d

show_fuel-IsVisible : (f n : ℕ) → IsVisible (show_fuel f n)
unfolding show_fuel
show_fuel-IsVisible zero n = tt
show_fuel-IsVisible (suc f) n =
    if_intro IsVisible (ltb n 10) (λ small. (omega arith, tt))
      (λ big.
        All-append _ (show_fuel f (n / 10)) _ (show_fuel-IsVisible f (n / 10)) (omega arith, tt))

pub show_nat-IsVisible : (n : ℕ) → IsVisible (show_nat n)
unfolding show_nat
show_nat-IsVisible n = show_fuel-IsVisible (n + 1) n

-- All names of compressions are visible.
abbrev pub AreVisible : List Compression → Type 0
AreVisible cs = All (λ (c : Compression). IsVisible c.name) cs

join_comma-IsVisible :
    (cs : List Compression) → AreVisible cs → IsVisible (join_comma (map name_of cs))
unfolding join_comma
join_comma-IsVisible [] v = tt
join_comma-IsVisible (c ∷ []) (v, vs) = v
join_comma-IsVisible (c ∷ d ∷ cs) (v, vs) =
    All-append _ c.name _ v (omega arith, join_comma-IsVisible (d ∷ cs) vs)

accepted_names-IsVisible :
    (cs : List Compression) → AreVisible cs → IsVisibleOption (accepted_names cs)
unfolding acceptable
accepted_names-IsVisible [] v = tt
accepted_names-IsVisible (c ∷ cs) v = join_comma-IsVisible (c ∷ cs) v

pub print_timeout-IsVisible : (t : Option ℕ) → IsVisibleOption (map_option print_timeout t)
unfolding print_timeout
print_timeout-IsVisible none = tt
print_timeout-IsVisible (some n) = show_nat-IsVisible n

pub print_grpc_timeout-IsVisible :
    (t : Option ℕ) → IsVisibleOption (map_option print_grpc_timeout t)
unfolding print_grpc_timeout
print_grpc_timeout-IsVisible none = tt
print_grpc_timeout-IsVisible (some n) =
    All-append _ (show_nat n) _ (show_nat-IsVisible n) (omega arith, tt)

pub or_none {ℓ} : {A : Type ℓ} (o : Option A) → or_option o none ≡ o
or_none none = refl
or_none (some a) = refl

-- The compressions as a server reads them.
module _ (accept : List Compression) (send : Option Compression) (accepts : AreVisible accept)
    (sends : IsVisibleOption (map_option name_of send)) where
  pub get-with_compression_encoding :
      (encoding accepted : Text) (h : Headers)
      → text_eq (to_lower accepted) (to_lower encoding) ≡ false
      → get encoding (with_compression encoding accepted accept send h)
        ≡ or_option (map_option name_of send) (get encoding h)
  unfolding with_compression
  get-with_compression_encoding encoding accepted h d =
      get-set_if_other accepted encoding (accepted_names accept)
        (set_if encoding (map_option name_of send) h) d
      ∙ get-set_if_self encoding (map_option name_of send) h sends

  pub get-with_compression_accepted :
      (encoding accepted : Text) (h : Headers)
      → text_eq (to_lower encoding) (to_lower accepted) ≡ false
      → get accepted (with_compression encoding accepted accept send h)
        ≡ or_option (accepted_names accept) (get accepted h)
  unfolding with_compression
  get-with_compression_accepted encoding accepted h d =
      get-set_if_self accepted (accepted_names accept) (set_if encoding (map_option name_of send) h)
        (accepted_names-IsVisible accept accepts)
      ∙ ap (or_option (accepted_names accept))
          (get-set_if_other encoding accepted (map_option name_of send) h d)

  pub get-with_compression_other :
      (encoding accepted name : Text) (h : Headers)
      → text_eq (to_lower encoding) (to_lower name) ≡ false
      → text_eq (to_lower accepted) (to_lower name) ≡ false
      → get name (with_compression encoding accepted accept send h) ≡ get name h
  unfolding with_compression
  get-with_compression_other encoding accepted name h d d' =
      get-set_if_other accepted name (accepted_names accept)
        (set_if encoding (map_option name_of send) h) d'
      ∙ get-set_if_other encoding name (map_option name_of send) h d
