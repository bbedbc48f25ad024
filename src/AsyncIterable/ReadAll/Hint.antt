-- ===== src/AsyncIterable/ReadAll/Hint.antt =====
-- The length of a body as a client reads it from a header.
use connect_es.Prelude.{
  ℕ, zero, suc, ◌+◌, ◌/◌, ◌≤◌, ◌≡◌, refl, ap, ◌∙◌, inl, inr, true, false, some, [], ◌∷◌, arith, ltb,
  leb, ◌==◌, Bool-cases, if_intro, if_false, length, All, All-append,
}
use connect_es.Prelude.Text.{
  Text, is_space, trim_start, is_digit, show_fuel, show_nat, parse_digits, parse_digits-show_nat,
}
use connect_es.Prelude.Text.Decimal.{length-show_nat}
use connect_es.AsyncIterable.ReadAll.{
  text, max_safe_integer, parse_signed, parse_int, parse_length_hint, digits_prefix, number_of,
  safe,
}
use connect_es.AsyncIterable.ReadAll.Laws.{Agrees}

abbrev IsDigits : Text → Type 0
IsDigits s = All (λ c. is_digit c ≡ true) s

show_fuel-IsDigits : (f n : ℕ) → IsDigits (show_fuel f n)
unfolding show_fuel
show_fuel-IsDigits zero n = tt
show_fuel-IsDigits (suc f) n =
    if_intro IsDigits (ltb n 10) (λ small. (ground arith, tt))
      (λ big.
        All-append _ (show_fuel f (n / 10)) _ (show_fuel-IsDigits f (n / 10)) (ground arith, tt))

digits_prefix-IsDigits : (s : Text) → IsDigits s → digits_prefix s ≡ s
digits_prefix-IsDigits [] h = refl
digits_prefix-IsDigits (c ∷ s) (h, hs) = rw (h, digits_prefix-IsDigits s hs) refl

parse_int-IsDigits : (s : Text) → IsDigits s → 1 ≤ length s → parse_int s ≡ some (parse_digits 0 s)
unfolding parse_int
parse_int-IsDigits [] h long = absurd (omega arith)
parse_int-IsDigits (c ∷ s) (h, hs) long =
    let plus : (c == b'+') ≡ false = ground arith in
    let minus : (c == b'-') ≡ false = ground arith in
    let whole = digits_prefix-IsDigits (c ∷ s) (h, hs) in
    let solid : is_space c ≡ false = ground arith in
    ap parse_signed (if_false (trim_start s) (c ∷ s) solid)
    ∙ if_false _ _ plus
    ∙ if_false _ _ minus
    ∙ ap number_of whole

safe-Agrees : (n : ℕ) → Agrees (safe (some n)) n
safe-Agrees n = elim (Bool-cases (leb n max_safe_integer)) [
  | inl small ↦ rw small refl
  | inr large ↦ rw large tt
]

pub parse_length_hint-show_nat : (n : ℕ) → Agrees (parse_length_hint (text (show_nat n))) n
unfolding parse_length_hint show_nat
parse_length_hint-show_nat n =
    rw
      (
        parse_int-IsDigits (show_nat n) (show_fuel-IsDigits (n + 1) n) (length-show_nat n 0).0,
        parse_digits-show_nat n,
      )
      (safe-Agrees n)
