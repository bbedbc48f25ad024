-- ===== src/AsyncIterable/ReadAll.antt =====
-- `readAllBytes` of packages/connect/src/protocol/async-iterable.ts, and what uses it.
pub mod Laws
pub mod Hint
use connect_es.Prelude.{
  ℕ, zero, ◌+◌, true, false, Option, none, some, List, [], ◌∷◌, ◌++◌, ltb, leb, ◌==◌, if◌then◌else◌,
  length,
}
use connect_es.Prelude.Text.{Text, codes, trim_start, is_digit, show_nat, parse_digits}
use connect_es.Code.{invalid_argument}
use connect_es.ConnectError.{Result, ok, err, ◌>>=◌, raise}
use connect_es.Stream.{Stream, done, fails, next}
use connect_es.Limits.{assert_read_max_bytes}
use connect_es.Envelope.{Bytes, set_bytes, zeroes}

-- The argument `lengthHint`: `undefined` or `null`, a number that is a natural one, any other
-- number, or the text of a header.
pub data LengthHint : Type 0 where
  no_hint : LengthHint
  number : ℕ → LengthHint
  other_number : LengthHint
  text : Text → LengthHint

abbrev pub max_safe_integer : ℕ
max_safe_integer = 0x1fffffffffffff

-- The digits at the front of a text.
abbrev digits_prefix : Text → Text
digits_prefix [] = []
digits_prefix (c ∷ s) = if is_digit c then c ∷ digits_prefix s else []

-- A number from its digits; without any it is `NaN`.
abbrev number_of : Text → Option ℕ
number_of [] = none
number_of (c ∷ s) = some (parse_digits 0 (c ∷ s))

-- The negative of a number is a natural one only if it is zero.
abbrev negate : Option ℕ → Option ℕ
negate (some zero) = some 0
negate _ = none

-- `parseInt(text, 10)` behind the white space at the front; `none` is `NaN` or below zero.
abbrev pub parse_signed : Text → Option ℕ
parse_signed [] = none
parse_signed (c ∷ s) =
    if c == b'+'
    then number_of (digits_prefix s)
    else if c == b'-'
    then negate (number_of (digits_prefix s))
    else number_of (digits_prefix (c ∷ s))

unfoldable pub parse_int : Text → Option ℕ
unfolding parse_digits
parse_int s = parse_signed (trim_start s)

abbrev safe : Option ℕ → Option ℕ
safe none = none
safe (some n) = if leb n max_safe_integer then some n else none

-- `parseLengthHint`: the hint, if it is `ok`.
unfoldable pub parse_length_hint : LengthHint → Option ℕ
unfolding parse_int
parse_length_hint no_hint = none
parse_length_hint (number n) = safe (some n)
parse_length_hint other_number = none
parse_length_hint (text s) = safe (parse_int s)

promised : ℕ → ℕ → Result Bytes
promised hint received =
    raise
      (codes "protocol error: promised "
        ++ (show_nat hint ++ (codes " bytes, received " ++ show_nat received)))
      invalid_argument

-- The loop with a hint, and what follows it.
read_hinted : ℕ → ℕ → Bytes → Stream Bytes → Result Bytes
unfolding promised
read_hinted hint offset buffer done = if ltb offset hint then promised hint offset else ok buffer
read_hinted hint offset buffer (fails r) = err r
read_hinted hint offset buffer (next chunk s) =
    let rest = read_hinted hint (offset + length chunk) (set_bytes chunk offset buffer) s in
    if ltb hint (offset + length chunk) then promised hint (offset + length chunk) else rest

-- The loop over the collected chunks: `all.set(chunk, offset)`.
join_chunks : List Bytes → ℕ → Bytes → Bytes
join_chunks [] offset all = all
join_chunks (chunk ∷ chunks) offset all =
    join_chunks chunks (offset + length chunk) (set_bytes chunk offset all)

-- The loop without a hint, and what follows it.
read_unhinted : ℕ → List Bytes → ℕ → Stream Bytes → Result Bytes
unfolding join_chunks
read_unhinted read_max_bytes chunks count done = ok (join_chunks chunks 0 (zeroes count))
read_unhinted read_max_bytes chunks count (fails r) = err r
read_unhinted read_max_bytes chunks count (next chunk s) =
    let rest = read_unhinted read_max_bytes (chunks ++ chunk ∷ []) (count + length chunk) s in
    assert_read_max_bytes read_max_bytes (count + length chunk) false >>= λ _. rest

-- `readAllBytes` with the parsed hint.
abbrev read_with : Stream Bytes → ℕ → Option ℕ → Result Bytes
read_with s read_max_bytes none = read_unhinted read_max_bytes [] 0 s
read_with s read_max_bytes (some hint) =
    assert_read_max_bytes read_max_bytes hint true >>= λ _. read_hinted hint 0 (zeroes hint) s

-- `readAllBytes`
unfoldable pub read_all_bytes : Stream Bytes → ℕ → LengthHint → Result Bytes
unfolding read_hinted read_unhinted assert_read_max_bytes
read_all_bytes s read_max_bytes length_hint =
    read_with s read_max_bytes (parse_length_hint length_hint)

-- `transformReadAllBytes`
unfoldable pub transform_read_all_bytes : ℕ → LengthHint → Stream Bytes → Stream Bytes
unfolding read_all_bytes
transform_read_all_bytes read_max_bytes length_hint s =
    elim (read_all_bytes s read_max_bytes length_hint) [ ok b ↦ next b done | err r ↦ fails r ]
