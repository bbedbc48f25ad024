-- ===== src/Headers/Order.antt =====
-- Headers that are sorted by their names, in lower case, with normalized values.
use connect_es.Prelude.{
  ◌≡◌, refl, sym, ap, ◌∙◌, subst, inl, inr, true, false, none, [], ◌∷◌, ◌++◌, arith, ==_refl,
  Bool-cases, if_intro, if_false, All,
}
use connect_es.Prelude.Text.{Text, text_eq, text_eq_sound, to_lower}
use connect_es.Headers.{Headers, text_lt, normalize_value, find_at, set_at, set, append}

text_lt_irreflexive : (s : Text) → text_lt s s ≡ false
text_lt_irreflexive [] = refl
text_lt_irreflexive (c ∷ s) = rw (==_refl c) (text_lt_irreflexive s)

text_lt_trans : (r s t : Text) → text_lt r s ≡ true → text_lt s t ≡ true → text_lt r t ≡ true
text_lt_trans [] [] t a b = absurd cc
text_lt_trans [] (c ∷ s) [] a b = absurd cc
text_lt_trans [] (c ∷ s) (d ∷ t) a b = refl
text_lt_trans (a ∷ r) [] t x y = absurd cc
text_lt_trans (a ∷ r) (b ∷ s) [] x y = absurd cc
text_lt_trans (a ∷ r) (b ∷ s) (c ∷ t) x y = ground (arith, text_lt_trans r s t)

text_lt_total : (s t : Text) → text_eq t s ≡ false → text_lt s t ≡ false → text_lt t s ≡ true
text_lt_total [] [] a b = absurd cc
text_lt_total [] (c ∷ t) a b = absurd cc
text_lt_total (c ∷ s) [] a b = refl
text_lt_total (c ∷ s) (d ∷ t) a b = ground (arith, text_lt_total s t)

-- All names come behind the given one.
abbrev pub Above : Text → Headers → Type 0
Above k [] = Unit {0}
Above k ((j, w) ∷ h) = (text_lt k j ≡ true) × Above k h

-- The form in which a `Headers` object holds its fields.
abbrev pub IsCanonical : Headers → Type 0
IsCanonical [] = Unit {0}
IsCanonical ((k, v) ∷ h) =
    (to_lower k ≡ k) × ((normalize_value v ≡ v) × (Above k h × IsCanonical h))

pub find_at-Above : (k : Text) (h : Headers) → Above k h → find_at k h ≡ none
unfolding find_at
find_at-Above k [] a = refl
find_at-Above k ((j, w) ∷ h) (lt, a) = elim (Bool-cases (text_eq j k)) [
  | inl same ↦
      let before : text_lt k k ≡ true =
        subst (λ x. text_lt k x ≡ true) (text_eq_sound j k same) lt in
      let not_before = text_lt_irreflexive k in absurd cc
  | inr other ↦ if_false _ _ other ∙ find_at-Above k h a
]

Above-trans : (k j : Text) (h : Headers) → text_lt k j ≡ true → Above j h → Above k h
Above-trans k j [] lt a = tt
Above-trans k j ((i, w) ∷ h) lt (b, a) = (text_lt_trans k j i lt b, Above-trans k j h lt a)

set_at-Above :
    (i k v : Text) (h : Headers) → text_lt i k ≡ true → Above i h → Above i (set_at k v h)
unfolding set_at
set_at-Above i k v [] lt a = (lt, tt)
set_at-Above i k v ((j, w) ∷ h) lt (b, a) =
    if_intro (Above i) (text_eq j k) (λ e. (lt, a))
      (λ e.
        if_intro (Above i) (text_lt k j) (λ f. (lt, (b, a))) (λ f. (b, set_at-Above i k v h lt a)))

pub set_at-IsCanonical :
    (k v : Text) (h : Headers)
    → to_lower k ≡ k
    → normalize_value v ≡ v
    → IsCanonical h
    → IsCanonical (set_at k v h)
unfolding set_at
set_at-IsCanonical k v [] l n c = (l, (n, (tt, tt)))
set_at-IsCanonical k v ((j, w) ∷ h) l n (l', (n', (a, c))) =
    if_intro IsCanonical (text_eq j k)
      (λ e. (l, (n, (subst (λ x. Above x h) (text_eq_sound j k e) a, c))))
      (λ e.
        if_intro IsCanonical (text_lt k j)
          (λ f. (l, (n, ((f, Above-trans k j h f a), (l', (n', (a, c)))))))
          (λ f. (
            l',
            (n', (set_at-Above j k v h (text_lt_total k j e f) a, set_at-IsCanonical k v h l n c)),
          )))

text_lt_asymmetric : (s t : Text) → text_lt s t ≡ true → text_lt t s ≡ false
text_lt_asymmetric s t lt = elim (Bool-cases (text_lt t s)) [
  | inr other ↦ other
  | inl gt ↦
      let around = text_lt_trans s t s lt gt in let not_around = text_lt_irreflexive s in absurd cc
]

text_lt_apart : (s t : Text) → text_lt s t ≡ true → text_eq s t ≡ false
text_lt_apart s t lt = elim (Bool-cases (text_eq s t)) [
  | inr other ↦ other
  | inl same ↦
      let itself : text_lt s s ≡ true =
        subst (λ x. text_lt s x ≡ true) (sym (text_eq_sound s t same)) lt in
      let not_itself = text_lt_irreflexive s in absurd cc
]

Above-middle :
    (i : Text) (g : Headers) (k v : Text) (h : Headers)
    → Above i (g ++ (k, v) ∷ h)
    → text_lt i k ≡ true
Above-middle i [] k v h (lt, a) = lt
Above-middle i ((j, w) ∷ g) k v h (lt, a) = Above-middle i g k v h a

-- A field of a canonical list is new to the fields before it, and comes behind them.
set_at-last :
    (g : Headers) (k v : Text) (h : Headers)
    → IsCanonical (g ++ (k, v) ∷ h)
    → (find_at k g ≡ none) × (set_at k v g ≡ g ++ (k, v) ∷ [])
unfolding find_at set_at
set_at-last [] k v h c = (refl, refl)
set_at-last ((j, w) ∷ g) k v h (l, (n, (a, c))) =
    let before = Above-middle j g k v h a in
    let (found, last) = set_at-last g k v h c in
    (
      if_false _ _ (text_lt_apart j k before) ∙ found,
      if_false _ _ (text_lt_apart j k before)
          ∙ if_false _ _ (text_lt_asymmetric j k before)
          ∙ ap (λ r. (j, w) ∷ r) last,
    )

IsCanonical-middle :
    (g : Headers) (k v : Text) (h : Headers)
    → IsCanonical (g ++ (k, v) ∷ h)
    → (to_lower k ≡ k) × (normalize_value v ≡ v)
IsCanonical-middle [] k v h (l, (n, c)) = (l, n)
IsCanonical-middle (f ∷ g) k v h (l, (n, (a, c))) = IsCanonical-middle g k v h c

-- Appending the next field of a canonical list puts it at the end.
pub append-last :
    (g : Headers) (k v : Text) (h : Headers)
    → IsCanonical (g ++ (k, v) ∷ h)
    → append k v g ≡ g ++ (k, v) ∷ []
unfolding append
append-last g k v h c =
    let (found, last) = set_at-last g k v h c in
    let (l, n) = IsCanonical-middle g k v h c in rw (l, n, found) last

pub set-last :
    (g : Headers) (k v : Text) (h : Headers)
    → IsCanonical (g ++ (k, v) ∷ h)
    → set k v g ≡ g ++ (k, v) ∷ []
unfolding set
set-last g k v h c =
    let (l, n) = IsCanonical-middle g k v h c in rw (l, n) (set_at-last g k v h c).1

-- A property of all names.
pub set_at-All :
    (P : Text → Type 0) (k v : Text) (h : Headers)
    → P k
    → All (λ (j, w). P j) h
    → All (λ (j, w). P j) (set_at k v h)
unfolding set_at
set_at-All P k v [] p ps = (p, tt)
set_at-All P k v ((j, w) ∷ h) p (q, ps) =
    if_intro (All (λ (j, w). P j)) (text_eq j k) (λ same. (p, ps))
      (λ other.
        if_intro (All (λ (j, w). P j)) (text_lt k j) (λ less. (p, (q, ps)))
          (λ more. (q, set_at-All P k v h p ps)))
