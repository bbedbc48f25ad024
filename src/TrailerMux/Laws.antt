-- ===== src/TrailerMux/Laws.antt =====
-- Trailers that are sent among the headers come out again.
use connect_es.Prelude.{
  ℕ, zero, suc, ◌≡◌, refl, sym, ap, ◌∙◌, subst, inl, inr, true, false, Option, none, some, [], ◌∷◌,
  ◌++◌, arith, if◌then◌else◌, Bool-cases, if_true, if_false, length, drop, All,
}
use connect_es.Prelude.Text.{
  Text, text_eq, text_eq_sound, to_lower, starts_with, starts_with-append,
}
use connect_es.Headers.{Headers, normalize_value, find_at, set_at, get, set}
use connect_es.Headers.Laws.{find_at-set_at}
use connect_es.Headers.Order.{Above, IsCanonical, find_at-Above, set_at-IsCanonical}
use connect_es.TrailerMux.{
  prefix, demux_field, demux_fields, trailer_demux, mux_fields, trailer_mux,
}

-- The first lookup that finds something.
abbrev pub or_from : Option Text → Option Text → Option Text
or_from none o = o
or_from (some v) o = some v

-- A canonical field is set as it is.
set_canonical :
    (k v : Text) (h : Headers) → to_lower k ≡ k → normalize_value v ≡ v → set k v h ≡ set_at k v h
unfolding set
set_canonical k v h l n = ap (λ k. set_at k (normalize_value v) h) l ∙ ap (λ v. set_at k v h) n

pub mux_fields-trailer :
    (x : Text) (t h : Headers)
    → IsCanonical t
    → find_at (prefix ++ x) (mux_fields t h) ≡ or_from (find_at x t) (find_at (prefix ++ x) h)
unfolding mux_fields find_at
mux_fields-trailer x [] h c = refl
mux_fields-trailer x ((k, v) ∷ t) h (l, (n, (a, c))) =
    let key = prefix ++ k in
    let field = set_canonical key v h (ap (λ k. prefix ++ k) l) n in
    mux_fields-trailer x t (set key v h) c
    ∙ ap (λ h. or_from (find_at x t) (find_at (prefix ++ x) h)) field
    ∙ ap (or_from (find_at x t)) (find_at-set_at (prefix ++ x) key v h)
    ∙ ground (arith, text_eq_sound k x, find_at-Above k t a)

-- A name without the prefix is no name with the prefix.
not_prefixed : (k j : Text) → starts_with j prefix ≡ false → text_eq (prefix ++ k) j ≡ false
not_prefixed k j p = elim (Bool-cases (text_eq (prefix ++ k) j)) [
  | inr other ↦ other
  | inl same ↦
      let with_prefix : starts_with j prefix ≡ true =
        subst (λ j. starts_with j prefix ≡ true) (text_eq_sound (prefix ++ k) j same)
          (starts_with-append prefix k) in
      absurd cc
]

pub mux_fields-other :
    (j : Text) (t h : Headers)
    → starts_with j prefix ≡ false
    → IsCanonical t
    → find_at j (mux_fields t h) ≡ find_at j h
unfolding mux_fields
mux_fields-other j [] h p c = refl
mux_fields-other j ((k, v) ∷ t) h p (l, (n, (a, c))) =
    let key = prefix ++ k in
    mux_fields-other j t (set key v h) p c
    ∙ ap (find_at j) (set_canonical key v h (ap (λ k. prefix ++ k) l) n)
    ∙ find_at-set_at j key v h
    ∙ if_false _ _ (not_prefixed k j p)

pub mux_fields-IsCanonical :
    (t h : Headers) → IsCanonical t → IsCanonical h → IsCanonical (mux_fields t h)
unfolding mux_fields
mux_fields-IsCanonical [] h ct ch = ch
mux_fields-IsCanonical ((k, v) ∷ t) h (l, (n, (a, ct))) ch =
    let key = prefix ++ k in
    let lowered = ap (λ k. prefix ++ k) l in
    mux_fields-IsCanonical t (set key v h) ct (
      subst IsCanonical (sym (set_canonical key v h lowered n))
        (set_at-IsCanonical key v h lowered n ch))

starts_with-drop : (s p : Text) → starts_with s p ≡ true → s ≡ p ++ drop (length p) s
starts_with-drop s [] e = refl
starts_with-drop [] (d ∷ p) e = absurd cc
starts_with-drop (c ∷ s) (d ∷ p) e = ground (arith, starts_with-drop s p)

to_lower-drop : (n : ℕ) (s : Text) → to_lower s ≡ s → to_lower (drop n s) ≡ drop n s
to_lower-drop zero s e = e
to_lower-drop (suc n) [] e = refl
to_lower-drop (suc n) (c ∷ s) e = to_lower-drop n s cc

-- A field with the prefix goes to the trailers, and another one to the headers.
demux_prefixed :
    (j v : Text) (h t : Headers)
    → to_lower j ≡ j
    → normalize_value v ≡ v
    → starts_with j prefix ≡ true
    → demux_field j v (h, t) ≡ (h, set_at (drop 8 j) v t)
unfolding demux_field
demux_prefixed j v h t l n p =
    if_true _ _ (ap (λ j. starts_with j prefix) l ∙ p)
    ∙ ap (λ t. (h, t)) (set_canonical (drop 8 j) v t (to_lower-drop 8 j l) n)

demux_plain :
    (j v : Text) (h t : Headers)
    → to_lower j ≡ j
    → normalize_value v ≡ v
    → starts_with j prefix ≡ false
    → demux_field j v (h, t) ≡ (set_at j v h, t)
unfolding demux_field
demux_plain j v h t l n p =
    if_false _ _ (ap (λ j. starts_with j prefix) l ∙ p) ∙ ap (λ h. (h, t)) (set_canonical j v h l n)

-- A field comes once.
later_none : (j k : Text) (m : Headers) → Above j m → text_eq j k ≡ true → find_at k m ≡ none
later_none j k m a e = subst (λ x. find_at x m ≡ none) (text_eq_sound j k e) (find_at-Above j m a)

prefixed_eq :
    (j k : Text) → starts_with j prefix ≡ true → text_eq j (prefix ++ k) ≡ text_eq (drop 8 j) k
prefixed_eq j k p = ap (λ x. text_eq x (prefix ++ k)) (starts_with-drop j prefix p)

same_prefix : (j k : Text) → text_eq j k ≡ true → starts_with j prefix ≡ starts_with k prefix
same_prefix j k e = ap (λ x. starts_with x prefix) (text_eq_sound j k e)

plain_eq : (j k : Text) → starts_with j prefix ≡ false → text_eq j (prefix ++ k) ≡ false
plain_eq j k p = ground (arith, same_prefix j (prefix ++ k), starts_with-append prefix k)

pub demux_fields-trailer :
    (k : Text) (m h t : Headers)
    → IsCanonical m
    → find_at k (demux_fields m (h, t)).1 ≡ or_from (find_at (prefix ++ k) m) (find_at k t)
unfolding demux_fields find_at
demux_fields-trailer k [] h t c = refl
demux_fields-trailer k ((j, v) ∷ m) h t (l, (n, (a, c))) =
    elim (Bool-cases (starts_with j prefix)) [
      | inl p ↦
          ap (λ b. find_at k (demux_fields m b).1) (demux_prefixed j v h t l n p)
          ∙ demux_fields-trailer k m h (set_at (drop 8 j) v t) c
          ∙ ap (or_from (find_at (prefix ++ k) m)) (find_at-set_at k (drop 8 j) v t)
          ∙ ground (arith, prefixed_eq j k p, later_none j (prefix ++ k) m a)
      | inr p ↦
          ap (λ b. find_at k (demux_fields m b).1) (demux_plain j v h t l n p)
          ∙ demux_fields-trailer k m (set_at j v h) t c
          ∙ ground (arith, plain_eq j k p)
    ]

pub demux_fields-header :
    (k : Text) (m h t : Headers)
    → IsCanonical m
    → find_at k (demux_fields m (h, t)).0
      ≡ or_from (if starts_with k prefix then none else find_at k m) (find_at k h)
unfolding demux_fields find_at
demux_fields-header k [] h t c = ground arith
demux_fields-header k ((j, v) ∷ m) h t (l, (n, (a, c))) = elim (Bool-cases (starts_with j prefix)) [
  | inl p ↦
      ap (λ b. find_at k (demux_fields m b).0) (demux_prefixed j v h t l n p)
      ∙ demux_fields-header k m h (set_at (drop 8 j) v t) c
      ∙ ground (arith, same_prefix j k, p)
  | inr p ↦
      ap (λ b. find_at k (demux_fields m b).0) (demux_plain j v h t l n p)
      ∙ demux_fields-header k m (set_at j v h) t c
      ∙ ap (or_from (if starts_with k prefix then none else find_at k m)) (find_at-set_at k j v h)
      ∙ ground (arith, same_prefix j k, p, later_none j k m a)
]

-- No field has a name with the prefix.
abbrev pub NoPrefix : Headers → Type 0
NoPrefix h = All (λ (k, v). starts_with k prefix ≡ false) h

pub find_at-prefixed :
    (k : Text) (h : Headers) → starts_with k prefix ≡ true → NoPrefix h → find_at k h ≡ none
unfolding find_at
find_at-prefixed k [] p a = refl
find_at-prefixed k ((j, v) ∷ h) p (q, a) =
    ground (arith, same_prefix j k, find_at-prefixed k h p a, q)

-- The headers and the trailers that were muxed come out of the demuxing as they were, for headers
-- and trailers as a `Headers` object holds them, and headers without the prefix "trailer-".
pub trailer_demux-trailer_mux :
    (h t : Headers) (name : Text)
    → IsCanonical h
    → IsCanonical t
    → NoPrefix h
    → (get name (trailer_demux (trailer_mux h t)).0 ≡ get name h)
      × (get name (trailer_demux (trailer_mux h t)).1 ≡ get name t)
unfolding get trailer_demux trailer_mux find_at
trailer_demux-trailer_mux h t name ch ct np =
    let k = to_lower name in
    let m = mux_fields t h in
    let cm = mux_fields-IsCanonical t h ct ch in
    let other : starts_with k prefix ≡ false → find_at k m ≡ find_at k h =
      λ p. mux_fields-other k t h p ct in
    let none_before = find_at-prefixed (prefix ++ k) h (starts_with-append prefix k) np in
    (
      demux_fields-header k m [] [] cm ∙ ground (arith, find_at-prefixed k h, np, other),
      demux_fields-trailer k m [] [] cm ∙ ground (arith, mux_fields-trailer k t h ct, none_before),
    )
