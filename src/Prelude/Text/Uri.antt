-- ===== src/Prelude/Text/Uri.antt =====
-- `encodeURIComponent` and `decodeURIComponent` of JavaScript.
pub mod Laws
use Prim.Native.Nat.{ℕ, ◌+◌, ◌-◌, ◌*◌, ◌/◌, ◌%◌}
use mathlib.Core.Bool.{Bool, true, false, ◌&&◌, ◌||◌}
use mathlib.Core.Option.{Option, none, some}
use mathlib.Core.List.{List, [], ◌∷◌, ◌++◌}
use connect_es.Prelude.Tests.{leb, ltb, ◌==◌, if◌then◌else◌}
use connect_es.Prelude.Text.{Text, codes, is_digit}
use connect_es.Prelude.Text.Utf8.{is_surrogate, encode_char, Decoder, idle, feed, emitted, Fed}

abbrev pub is_one_of : Text → ℕ → Bool
is_one_of [] c = false
is_one_of (d ∷ s) c = c == d || is_one_of s c

-- The characters that are left as they are.
abbrev pub is_unreserved : ℕ → Bool
is_unreserved c =
    is_digit c
    || (leb b'A' c && leb c b'Z' || (leb b'a' c && leb c b'z' || is_one_of (codes "-_.!~*'()") c))

abbrev pub hex_digit : ℕ → ℕ
hex_digit n = if ltb n 10 then b'0' + n else b'A' + (n - 10)

abbrev pub percent : List ℕ → Text
percent [] = []
percent (b ∷ bs) = b'%' ∷ hex_digit (b / 16) ∷ hex_digit (b % 16) ∷ percent bs

-- One code point; it throws at a surrogate without its other half.
pub encode_one : ℕ → Option Text
unfolding encode_char
encode_one c =
    if is_unreserved c
    then some (c ∷ [])
    else if is_surrogate c
    then none
    else some (percent (encode_char c))

abbrev pub both : Option Text → Option Text → Option Text
both (some s) (some t) = some (s ++ t)
both _ _ = none

-- `encodeURIComponent(s)`; `none` is that it throws a `URIError`.
unfoldable pub encode_uri_component : Text → Option Text
unfolding encode_one
encode_uri_component [] = some []
encode_uri_component (c ∷ s) = both (encode_one c) (encode_uri_component s)

abbrev pub hex_value : ℕ → Option ℕ
hex_value c =
    if is_digit c
    then some (c - b'0')
    else if leb b'A' c && leb c b'F'
    then some (c - b'A' + 10)
    else if leb b'a' c && leb c b'f'
    then some (c - b'a' + 10)
    else none

-- Where the decoder stands: between two escapes, behind "%", or behind "%" and a digit.
pub data Place : Type 0 where
  between : Decoder → Place
  behind_percent : Decoder → Place
  behind_digit : Decoder → ℕ → Place

abbrev after_byte : Fed → Option (Text × Place)
after_byte none = none
after_byte (some (o, d)) = some (emitted o, between d)

abbrev first_digit : Decoder → Option ℕ → Option (Text × Place)
first_digit d none = none
first_digit d (some h) = some ([], behind_digit d h)

second_digit : Decoder → ℕ → Option ℕ → Option (Text × Place)
unfolding feed
second_digit d h none = none
second_digit d h (some l) = after_byte (feed d (h * 16 + l))

-- One character. Within a code point, only a further escape is allowed.
pub place_step : Place → ℕ → Option (Text × Place)
unfolding second_digit
place_step (between d) c =
    if c == b'%'
    then some ([], behind_percent d)
    else if d.left == 0
    then some (c ∷ [], between d)
    else none
place_step (behind_percent d) c = first_digit d (hex_value c)
place_step (behind_digit d h) c = second_digit d h (hex_value c)

abbrev pub put_before : Text → Option Text → Option Text
put_before s none = none
put_before s (some t) = some (s ++ t)

abbrev at_end : Place → Option Text
at_end (between d) = if d.left == 0 then some [] else none
at_end (behind_percent d) = none
at_end (behind_digit d h) = none

pub decode_at : Place → Text → Option Text
unfolding place_step
decode_at p [] = at_end p
decode_at p (c ∷ s) = elim (place_step p c) [
  | none ↦ none
  | some (t, q) ↦ put_before t (decode_at q s)
]

-- `decodeURIComponent(s)`; `none` is that it throws a `URIError`.
unfoldable pub decode_uri_component : Text → Option Text
unfolding decode_at
decode_uri_component s = decode_at (between idle) s
