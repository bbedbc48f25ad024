-- ===== src/Prelude/Text/Utf8/Decode.antt =====
-- What `TextEncoder` gives is decoded to the same text.
use Prim.Native.Nat.{ℕ}
use mathlib.Core.Path.{◌≡◌, refl, sym, ap, ◌∙◌}
use mathlib.Core.Option.{Option, none, some}
use mathlib.Core.Logic.{inl, inr}
use mathlib.Core.List.{List, [], ◌∷◌, ◌++◌, append_assoc}
use connect_es.Prelude.Tests.{if_false, Option-cases}
use connect_es.Prelude.Text.{Text}
use connect_es.Prelude.Text.Utf8.{
  IsScalars, encode_char, encode, Decoder, idle, feed, emitted, prepend, run, decode_fed,
  decode_step, decode_from, skip_bom, decode,
}
use connect_es.Prelude.Text.Utf8.Chars.{run-encode_char}

pub prepend-some :
    (o : Option ℕ) (r : Option (Text × Decoder)) (t : Text) (e : Decoder)
    → prepend o r ≡ some (t, e)
    → (u : Text) × (r ≡ some (u, e)) × (t ≡ emitted o ++ u)
prepend-some o none t e h = absurd cc
prepend-some o (some (u, d)) t e h = (u, cc, cc)

decode_from-run :
    (d e : Decoder) (bs rest : List ℕ) (t : Text)
    → run d bs ≡ some (t, e)
    → decode_from d (bs ++ rest) ≡ t ++ decode_from e rest
unfolding run decode_from decode_step
decode_from-run d e [] rest t h =
    let same : (t ≡ []) × (d ≡ e) = (cc, cc) in
    ap (λ d. decode_from d rest) same.1 ∙ ap (λ t. t ++ decode_from e rest) (sym same.0)
decode_from-run d e (b ∷ bs) rest t h = elim (Option-cases (feed d b)) [
  | inl failed ↦ absurd (let h' = rw (failed, run) at h in cc)
  | inr ((o, f), fed) ↦
      let (u, ran, split) =
        prepend-some o (run f bs) t e
          (ap (λ x. elim x [ none ↦ none | some (o, e) ↦ prepend o (run e bs) ]) (sym fed) ∙ h) in
      ap (λ x. let (t, e) = decode_fed x d.left (feed idle b) in t ++ decode_from e (bs ++ rest))
        fed
      ∙ ap (λ r. emitted o ++ r) (decode_from-run f e bs rest u ran)
      ∙ sym (append_assoc (emitted o) u (decode_from e rest))
      ∙ ap (λ t. t ++ decode_from e rest) (sym split)
]

decode_from-encode : (s : Text) → IsScalars s → decode_from idle (encode s) ≡ s
unfolding encode decode_from
decode_from-encode [] h = refl
decode_from-encode (c ∷ s) ((small, single), h) =
    ap (λ c. decode_from idle (encode_char c ++ encode s)) (if_false _ _ single)
    ∙ decode_from-run idle idle (encode_char c) (encode s) (c ∷ [])
        (run-encode_char c (small, single))
    ∙ ap (λ s. c ∷ s) (decode_from-encode s h)

-- A text of code points that does not begin with a byte order mark.
pub decode-encode : (s : Text) → IsScalars s → skip_bom s ≡ s → decode (encode s) ≡ s
unfolding decode
decode-encode s h unmarked = ap skip_bom (decode_from-encode s h) ∙ unmarked
