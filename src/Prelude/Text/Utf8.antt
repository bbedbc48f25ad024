-- ===== src/Prelude/Text/Utf8.antt =====
-- UTF-8, as `TextEncoder`, `TextDecoder` and the functions on URIs of JavaScript use it.
pub mod Chars
pub mod Decode
use Prim.Native.Nat.{ℕ, zero, suc, ◌+◌, ◌*◌, ◌/◌, ◌%◌, ◌<◌}
use mathlib.Core.Path.{◌≡◌}
use mathlib.Core.Bool.{Bool, false, ◌&&◌}
use mathlib.Core.Option.{Option, none, some}
use mathlib.Core.List.{List, [], ◌∷◌, ◌++◌}
use connect_es.Prelude.Tests.{leb, ltb, if◌then◌else◌, ◌==◌}
use connect_es.Prelude.Lists.{All}
use connect_es.Prelude.Text.{Text}

-- A surrogate without its other half.
abbrev pub is_surrogate : ℕ → Bool
is_surrogate c = leb 0xd800 c && leb c 0xdfff

-- A code point that UTF-8 encodes.
abbrev pub IsScalar : ℕ → Type 0
IsScalar c = (c < 0x110000) × (is_surrogate c ≡ false)

abbrev pub IsScalars : Text → Type 0
IsScalars s = All IsScalar s

unfoldable pub encode_char : ℕ → List ℕ
encode_char c =
    if ltb c 0x80
    then c ∷ []
    else if ltb c 0x800
    then (0xc0 + c / 64) ∷ (0x80 + c % 64) ∷ []
    else if ltb c 0x10000
    then (0xe0 + c / 4096) ∷ (0x80 + c / 64 % 64) ∷ (0x80 + c % 64) ∷ []
    else (0xf0 + c / 262144) ∷ (0x80 + c / 4096 % 64) ∷ (0x80 + c / 64 % 64) ∷ (0x80 + c % 64) ∷ []

-- `new TextEncoder().encode(s)`
unfoldable pub encode : Text → List ℕ
unfolding encode_char
encode [] = []
encode (c ∷ s) = encode_char (if is_surrogate c then 0xfffd else c) ++ encode s

-- The decoder: how many bytes are to come for the code point, its bits so far, and the range of the
-- next byte.
pub record Decoder : Type 0 where
  pub left : ℕ
  pub bits : ℕ
  pub low : ℕ
  pub high : ℕ

abbrev pub idle : Decoder
idle = record { left = 0; bits = 0; low = 0x80; high = 0xbf }

-- A code point that is complete with this byte, and the decoder after it; `none` is an error.
abbrev pub Fed : Type 0
Fed = Option (Option ℕ × Decoder)

abbrev pub waiting : ℕ → ℕ → ℕ → ℕ → Decoder
waiting left bits low high = record { left = left; bits = bits; low = low; high = high }

abbrev pub expect : ℕ → ℕ → ℕ → ℕ → Fed
expect left bits low high = some (none, waiting left bits low high)

pub first_byte : ℕ → Fed
first_byte b =
    if ltb b 0x80
    then some (some b, idle)
    else if ltb b 0xc2
    then none
    else if ltb b 0xe0
    then expect 1 (b % 32) 0x80 0xbf
    else if ltb b 0xf0
    then expect 2 (b % 16) (if leb b 0xe0 then 0xa0 else 0x80)
        (if leb 0xed b && leb b 0xed then 0x9f else 0xbf)
    else if ltb b 0xf5
    then expect 3 (b % 8) (if leb b 0xf0 then 0x90 else 0x80) (if leb 0xf4 b then 0x8f else 0xbf)
    else none

unfoldable pub feed_at : ℕ → Decoder → ℕ → Fed
unfolding first_byte
feed_at zero d b = first_byte b
feed_at (suc zero) d b =
    if leb d.low b && leb b d.high then some (some (d.bits * 64 + b % 64), idle) else none
feed_at (suc (suc left)) d b =
    if leb d.low b && leb b d.high then expect (suc left) (d.bits * 64 + b % 64) 0x80 0xbf else none

unfoldable pub feed : Decoder → ℕ → Fed
unfolding feed_at
feed d b = feed_at d.left d b

abbrev pub emitted : Option ℕ → Text
emitted none = []
emitted (some c) = c ∷ []

abbrev pub prepend : Option ℕ → Option (Text × Decoder) → Option (Text × Decoder)
prepend o none = none
prepend o (some (t, d)) = some (emitted o ++ t, d)

-- Bytes without an error: the code points, and the decoder after them.
unfoldable pub run : Decoder → List ℕ → Option (Text × Decoder)
unfolding feed
run d [] = some ([], d)
run d (b ∷ bs) = elim (feed d b) [ none ↦ none | some (o, e) ↦ prepend o (run e bs) ]

-- One byte for `TextDecoder`, which puts U+FFFD for an error, and reads the byte again if it does
-- not go on with a code point.
abbrev replaced : Fed → Text × Decoder
replaced none = (0xfffd ∷ [], idle)
replaced (some (o, e)) = (emitted o, e)

abbrev decode_fed : Fed → ℕ → Fed → Text × Decoder
decode_fed (some (o, e)) left again = (emitted o, e)
decode_fed none zero again = (0xfffd ∷ [], idle)
decode_fed none (suc left) again = let (t, e) = replaced again in (0xfffd ∷ t, e)

decode_step : Decoder → ℕ → Text × Decoder
unfolding feed
decode_step d b = decode_fed (feed d b) d.left (feed idle b)

decode_from : Decoder → List ℕ → Text
unfolding decode_step
decode_from d [] = if d.left == 0 then [] else 0xfffd ∷ []
decode_from d (b ∷ bs) = let (t, e) = decode_step d b in t ++ decode_from e bs

abbrev pub skip_bom : Text → Text
skip_bom [] = []
skip_bom (c ∷ s) = if c == 0xfeff then s else c ∷ s

-- `new TextDecoder().decode(bytes)`
unfoldable pub decode : List ℕ → Text
unfolding decode_from
decode bytes = skip_bom (decode_from idle bytes)
