-- ===== src/Prelude/Text/Utf8/Chars.antt =====
-- Each code point is decoded from the bytes that encode it.
use Prim.Native.Nat.{ℕ, suc, ◌+◌, ◌*◌, ◌/◌, ◌%◌, ◌≤◌, ◌<◌}
use mathlib.Core.Path.{◌≡◌, refl, ap, ◌∙◌}
use mathlib.Core.Bool.{◌&&◌}
use mathlib.Core.Option.{Option, none, some}
use mathlib.Core.List.{List, [], ◌∷◌}
use native.Mathlib.Omega.{arith}
use connect_es.Prelude.Tests.{leb, if◌then◌else◌, le_or_lt, if_true, if_false, lt→ltb, le→ltb}
use mathlib.Core.Logic.{inl, inr}
use connect_es.Prelude.Text.Utf8.{
  IsScalar, encode_char, Decoder, idle, waiting, expect, feed, emitted, prepend, run,
}

pub run_one :
    (d e : Decoder) (b : ℕ) (o : Option ℕ) (bs : List ℕ)
    → feed d b ≡ some (o, e)
    → run d (b ∷ bs) ≡ prepend o (run e bs)
unfolding run
run_one d e b o bs h = ap (λ f. elim f [ none ↦ none | some (o, e) ↦ prepend o (run e bs) ]) h

pub run_nil : (o : Option ℕ) → prepend o (run idle []) ≡ some (emitted o, idle)
unfolding run
run_nil none = refl
run_nil (some c) = refl

-- The first byte of each length.
feed-one : (c : ℕ) → c < 0x80 → feed idle c ≡ some (some c, idle)
unfolding feed
feed-one c h = ground arith

feed-two : (c : ℕ) → 0x80 ≤ c → c < 0x800 → feed idle (0xc0 + c / 64) ≡ expect 1 (c / 64) 0x80 0xbf
unfolding feed
feed-two c l h = ground arith

feed-three :
    (c : ℕ)
    → 0x800 ≤ c
    → c < 0x10000
    → feed idle (0xe0 + c / 4096)
      ≡ expect 2
          (c / 4096)
          (if leb (0xe0 + c / 4096) 0xe0 then 0xa0 else 0x80)
          (if leb 0xed (0xe0 + c / 4096) && leb (0xe0 + c / 4096) 0xed then 0x9f else 0xbf)
unfolding feed
feed-three c l h = ground arith

feed-four :
    (c : ℕ)
    → 0x10000 ≤ c
    → c < 0x110000
    → feed idle (0xf0 + c / 262144)
      ≡ expect 3
          (c / 262144)
          (if leb (0xf0 + c / 262144) 0xf0 then 0x90 else 0x80)
          (if leb 0xf4 (0xf0 + c / 262144) then 0x8f else 0xbf)
unfolding feed
feed-four c l h = ground arith

-- The bytes that follow.
feed_last :
    (bits low high b : ℕ)
    → low ≤ b
    → b ≤ high
    → feed (waiting 1 bits low high) b ≡ some (some (bits * 64 + b % 64), idle)
unfolding feed
feed_last bits low high b l h = ground arith

feed_more :
    (left bits low high b : ℕ)
    → low ≤ b
    → b ≤ high
    → feed (waiting (suc (suc left)) bits low high) b
      ≡ expect (suc left) (bits * 64 + b % 64) 0x80 0xbf
unfolding feed
feed_more left bits low high b l h = ground arith

-- A code point with bytes in range.
run-two :
    (bits low high b : ℕ) (c : ℕ)
    → low ≤ b
    → b ≤ high
    → bits * 64 + b % 64 ≡ c
    → run (waiting 1 bits low high) (b ∷ []) ≡ some (c ∷ [], idle)
unfolding run
run-two bits low high b c l h e =
    run_one (waiting 1 bits low high) idle b (some (bits * 64 + b % 64)) []
      (feed_last bits low high b l h)
    ∙ ap (λ c. some (c ∷ [], idle)) e

run-three :
    (bits low high a b c : ℕ)
    → low ≤ a
    → a ≤ high
    → 0x80 ≤ b
    → b ≤ 0xbf
    → (bits * 64 + a % 64) * 64 + b % 64 ≡ c
    → run (waiting 2 bits low high) (a ∷ b ∷ []) ≡ some (c ∷ [], idle)
run-three bits low high a b c l h l' h' e =
    run_one (waiting 2 bits low high) (waiting 1 (bits * 64 + a % 64) 0x80 0xbf) a none (b ∷ [])
      (feed_more 0 bits low high a l h)
    ∙ ap (prepend none) (run-two (bits * 64 + a % 64) 0x80 0xbf b c l' h' e)

run-four :
    (bits low high a b c d : ℕ)
    → low ≤ a
    → a ≤ high
    → (0x80 ≤ b) × (b ≤ 0xbf) × (0x80 ≤ c) × (c ≤ 0xbf)
    → ((bits * 64 + a % 64) * 64 + b % 64) * 64 + c % 64 ≡ d
    → run (waiting 3 bits low high) (a ∷ b ∷ c ∷ []) ≡ some (d ∷ [], idle)
run-four bits low high a b c d l h (lb, hb, lc, hc) e =
    run_one (waiting 3 bits low high) (waiting 2 (bits * 64 + a % 64) 0x80 0xbf) a none (b ∷ c ∷ [])
      (feed_more 1 bits low high a l h)
    ∙ ap (prepend none) (run-three (bits * 64 + a % 64) 0x80 0xbf b c d lb hb lc hc e)

run-char_two :
    (c : ℕ)
    → 0x80 ≤ c
    → c < 0x800
    → run idle ((0xc0 + c / 64) ∷ (0x80 + c % 64) ∷ []) ≡ some (c ∷ [], idle)
run-char_two c l h =
    run_one idle (waiting 1 (c / 64) 0x80 0xbf) (0xc0 + c / 64) none ((0x80 + c % 64) ∷ [])
      (feed-two c l h)
    ∙ ap (prepend none)
        (run-two (c / 64) 0x80 0xbf (0x80 + c % 64) c (omega arith) (omega arith) (omega arith))

run-char_three :
    (c : ℕ)
    → IsScalar c
    → 0x800 ≤ c
    → c < 0x10000
    → run idle ((0xe0 + c / 4096) ∷ (0x80 + c / 64 % 64) ∷ (0x80 + c % 64) ∷ [])
      ≡ some (c ∷ [], idle)
run-char_three c s l h =
    run_one idle
      (waiting 2 (c / 4096) (if leb (0xe0 + c / 4096) 0xe0 then 0xa0 else 0x80)
        (if leb 0xed (0xe0 + c / 4096) && leb (0xe0 + c / 4096) 0xed then 0x9f else 0xbf))
      (0xe0 + c / 4096) none ((0x80 + c / 64 % 64) ∷ (0x80 + c % 64) ∷ []) (feed-three c l h)
    ∙ ap (prepend none) (
        run-three (c / 4096) _ _ (0x80 + c / 64 % 64) (0x80 + c % 64) c (ground arith)
          (ground arith) (omega arith) (omega arith) (omega arith))

run-char_four :
    (c : ℕ)
    → 0x10000 ≤ c
    → c < 0x110000
    → run idle
        ((0xf0 + c / 262144) ∷ (0x80 + c / 4096 % 64) ∷ (0x80 + c / 64 % 64) ∷ (0x80 + c % 64) ∷ [])
      ≡ some (c ∷ [], idle)
run-char_four c l h =
    run_one idle
      (waiting 3 (c / 262144) (if leb (0xf0 + c / 262144) 0xf0 then 0x90 else 0x80)
        (if leb 0xf4 (0xf0 + c / 262144) then 0x8f else 0xbf))
      (0xf0 + c / 262144) none
      ((0x80 + c / 4096 % 64) ∷ (0x80 + c / 64 % 64) ∷ (0x80 + c % 64) ∷ []) (feed-four c l h)
    ∙ ap (prepend none) (
        run-four (c / 262144) _ _ (0x80 + c / 4096 % 64) (0x80 + c / 64 % 64) (0x80 + c % 64) c
          (ground arith) (ground arith) (omega arith) (omega arith))

-- A code point that UTF-8 encodes is decoded from its bytes.
pub run-encode_char : (c : ℕ) → IsScalar c → run idle (encode_char c) ≡ some (c ∷ [], idle)
unfolding encode_char
run-encode_char c (h, s) = elim (le_or_lt 0x80 c) [
  | inr lt ↦
      ap (run idle) (if_true _ _ (lt→ltb c 0x80 lt))
      ∙ run_one idle idle c (some c) [] (feed-one c lt)
      ∙ run_nil (some c)
  | inl ge ↦ ap (run idle) (if_false _ _ (le→ltb c 0x80 ge)) ∙ elim (le_or_lt 0x800 c) [
    | inr lt ↦ ap (run idle) (if_true _ _ (lt→ltb c 0x800 lt)) ∙ run-char_two c ge lt
    | inl ge' ↦ ap (run idle) (if_false _ _ (le→ltb c 0x800 ge')) ∙ elim (le_or_lt 0x10000 c) [
      | inr lt ↦ ap (run idle) (if_true _ _ (lt→ltb c 0x10000 lt)) ∙ run-char_three c (h, s) ge' lt
      | inl big ↦ ap (run idle) (if_false _ _ (le→ltb c 0x10000 big)) ∙ run-char_four c big h
    ]
  ]
]
