-- ===== src/Prelude/Text/Uri/Laws.antt =====
-- A text is decoded from its encoding for URIs.
use Prim.Native.Nat.{ℕ, ◌/◌, ◌%◌, ◌≤◌, ◌<◌}
use mathlib.Core.Path.{◌≡◌, refl, sym, ap, ◌∙◌}
use mathlib.Core.Logic.{inl, inr}
use mathlib.Core.Bool.{true, false}
use mathlib.Core.Option.{Option, none, some}
use mathlib.Core.List.{List, [], ◌∷◌, ◌++◌, append_assoc}
use native.Mathlib.Omega.{arith}
use connect_es.Prelude.Tests.{◌==◌, if_true, if_false, Bool-cases, Option-cases}
use connect_es.Prelude.Lists.{All, All-append}
use connect_es.Prelude.Text.{Text}
use connect_es.Prelude.Text.Utf8.{
  IsScalar, IsScalars, encode_char, Decoder, idle, feed, emitted, run,
}
use connect_es.Prelude.Text.Utf8.Chars.{run_one, run-encode_char}
use connect_es.Prelude.Text.Utf8.Decode.{prepend-some}
use connect_es.Prelude.Text.Uri.{
  is_unreserved, hex_digit, hex_value, percent, encode_one, both, encode_uri_component, Place,
  between, behind_percent, behind_digit, after_byte, first_digit, second_digit, place_step,
  put_before, decode_at, decode_uri_component,
}

hex_value-hex_digit : (n : ℕ) → n < 16 → hex_value (hex_digit n) ≡ some n
hex_value-hex_digit n h = ground arith

put_before_assoc :
    (s t : Text) (r : Option Text) → put_before s (put_before t r) ≡ put_before (s ++ t) r
put_before_assoc s t none = refl
put_before_assoc s t (some u) = ap some (sym (append_assoc s t u))

put_nothing : (r : Option Text) → put_before [] r ≡ r
put_nothing none = refl
put_nothing (some u) = refl

decode_step :
    (p q : Place) (c : ℕ) (t s : Text)
    → place_step p c ≡ some (t, q)
    → decode_at p (c ∷ s) ≡ put_before t (decode_at q s)
unfolding decode_at
decode_step p q c t s e =
    ap (λ x. elim x [ none ↦ none | some (t, q) ↦ put_before t (decode_at q s) ]) e

-- One escaped byte.
decode_at-escape :
    (d e : Decoder) (b : ℕ) (o : Option ℕ) (s : Text)
    → b < 256
    → feed d b ≡ some (o, e)
    → decode_at (between d) (percent (b ∷ []) ++ s)
      ≡ put_before (emitted o) (decode_at (between e) s)
unfolding place_step
decode_at-escape d e b o s h fed =
    decode_step (between d) (behind_percent d) b'%' [] _ refl
    ∙ put_nothing _
    ∙ decode_step (behind_percent d) (behind_digit d (b / 16)) (hex_digit (b / 16)) [] _
        (ap (first_digit d) (hex_value-hex_digit (b / 16) (omega arith)))
    ∙ put_nothing _
    ∙ decode_step (behind_digit d (b / 16)) (between e) (hex_digit (b % 16)) (emitted o) s (
        ap (second_digit d (b / 16)) (hex_value-hex_digit (b % 16) (omega arith))
        ∙ ap (λ b. after_byte (feed d b)) (omega arith)
        ∙ ap after_byte fed)

decode_at-percent :
    (d e : Decoder) (bs : List ℕ) (t s : Text)
    → All (λ b. b < 256) bs
    → run d bs ≡ some (t, e)
    → decode_at (between d) (percent bs ++ s) ≡ put_before t (decode_at (between e) s)
unfolding run
decode_at-percent d e [] t s h ran =
    let same : (t ≡ []) × (d ≡ e) = (cc, cc) in
    ap (λ d. decode_at (between d) s) same.1
    ∙ sym (put_nothing _)
    ∙ ap (λ t. put_before t (decode_at (between e) s)) (sym same.0)
decode_at-percent d e (b ∷ bs) t s (h, hs) ran = elim (Option-cases (feed d b)) [
  | inl failed ↦ absurd (let ran' = rw (failed, run) at ran in cc)
  | inr ((o, f), fed) ↦
      let (u, later, split) = prepend-some o (run f bs) t e (sym (run_one d f b o bs fed) ∙ ran) in
      decode_at-escape d f b o (percent bs ++ s) h fed
      ∙ ap (put_before (emitted o)) (decode_at-percent f e bs u s hs later)
      ∙ put_before_assoc (emitted o) u (decode_at (between e) s)
      ∙ ap (λ t. put_before t (decode_at (between e) s)) (sym split)
]

encode_char_bytes : (c : ℕ) → c < 0x110000 → All (λ b. b < 256) (encode_char c)
unfolding encode_char
encode_char_bytes c h = ground arith

-- What is encoded holds no white space and no control character.
abbrev pub IsVisible : Text → Type 0
IsVisible s = All (λ c. 33 ≤ c) s

percent-IsVisible : (bs : List ℕ) → IsVisible (percent bs)
percent-IsVisible [] = tt
percent-IsVisible (b ∷ bs) = (omega arith, (ground arith, (ground arith, percent-IsVisible bs)))

no_percent : (c : ℕ) → is_unreserved c ≡ true → (c == b'%') ≡ false
no_percent c h = ground arith

-- One code point: how it is encoded, and that it is decoded again.
encode_one_lem :
    (c : ℕ)
    → IsScalar c
    → (t : Text) × (encode_one c ≡ some t)
      × IsVisible t
      × ((s : Text)
          → decode_at (between idle) (t ++ s) ≡ put_before (c ∷ []) (decode_at (between idle) s))
unfolding encode_one place_step
encode_one_lem c (small, single) = elim (Bool-cases (is_unreserved c)) [
  | inl plain ↦ (
    c ∷ [],
    if_true _ _ plain,
    ground arith,
    λ s. decode_step (between idle) (between idle) c (c ∷ []) s (if_false _ _ (no_percent c plain)),
  )
  | inr other ↦ (
    percent (encode_char c),
    if_false _ _ other ∙ if_false _ _ single,
    percent-IsVisible (encode_char c),
    λ s.
        decode_at-percent idle idle (encode_char c) (c ∷ []) s (encode_char_bytes c small)
          (run-encode_char c (small, single)),
  )
]

-- A text of code points is encoded, without white space, and decoded again.
pub encode_uri_component_lem :
    (s : Text)
    → IsScalars s
    → (t : Text) × (encode_uri_component s ≡ some t)
      × IsVisible t
      × (decode_uri_component t ≡ some s)
unfolding encode_uri_component decode_uri_component decode_at
encode_uri_component_lem [] h = ([], refl, tt, refl)
encode_uri_component_lem (c ∷ s) (h, hs) =
    let (t, e, v, d) = encode_one_lem c h in
    let (u, e', v', d') = encode_uri_component_lem s hs in
    (
      t ++ u,
      ap (λ x. both x (encode_uri_component s)) e ∙ ap (both (some t)) e',
      All-append _ t u v v',
      d u ∙ ap (put_before (c ∷ [])) d',
    )
