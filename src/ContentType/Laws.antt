-- ===== src/ContentType/Laws.antt =====
-- What the content types of the protocols have in common, and how the tests fit the parsers.
use connect_es.Prelude.{
  ℕ, ◌+◌, ◌≤◌, ◌≡◌, refl, sym, ap, ◌∙◌, ◌↔◌, inl, inr, Bool, true, false, ◌||◌, Option, none, some,
  [], ◌∷◌, ◌++◌, arith, ◌==◌, if◌then◌else◌, ==_iff, ==_sym, Bool-cases, Option-cases, if_true,
  if_false,
}
use connect_es.Prelude.Text.{Text, codes, lower, to_lower}
use connect_es.ContentType.{
  strip, format, then_format, typed, strip_from, parse_content_type, is_some, content_type_unary,
  optional_plus, content_type_stream, plus_format, parse_grpc_type, web, parse_grpc_web_type,
  connect_type, grpc_type, web_type,
}

pub strip-append : (p q s : Text) → strip (p ++ q) s ≡ strip_from q (strip p s)
strip-append [] q s = refl
strip-append (c ∷ p) q [] = refl
strip-append (c ∷ p) q (d ∷ s) = elim (Bool-cases (c == d)) [
  | inl same ↦ if_true _ _ same ∙ strip-append p q s ∙ ap (strip_from q) (sym (if_true _ _ same))
  | inr other ↦ if_false _ _ other ∙ ap (strip_from q) (sym (if_false _ _ other))
]

pub strip-some : (p s t : Text) → strip p s ≡ some t → s ≡ p ++ t
strip-some [] s t e = cc
strip-some (c ∷ p) [] t e = absurd cc
strip-some (c ∷ p) (d ∷ s) t e = elim (Bool-cases (c == d)) [
  | inl same ↦
      let rest = strip-some p s t (sym (if_true _ _ same) ∙ e) in
      ap (λ d. d ∷ s) (sym ((==_iff c d).0 same)) ∙ ap (λ s. c ∷ s) rest
  | inr other ↦
      absurd (let none_left : none ≡ some t = sym (if_false (strip p s) none other) ∙ e in cc)
]

abbrev pub one_of : Bool → ℕ
one_of b = if b then 1 else 0

abbrev pub found {ℓ} : {A : Type ℓ} → Option A → ℕ
found none = 0
found (some a) = 1

-- Behind "application/".
abbrev connect_test : Option Text → Bool
unfolding then_format
connect_test t =
    is_some (then_format t)
    || is_some (then_format (optional_plus (strip_from (codes "connect") t)))

one_of_le : (b : Bool) → one_of b ≤ 1
one_of_le true = omega arith
one_of_le false = omega arith

found_le {ℓ} : {A : Type ℓ} (o : Option A) → found o ≤ 1
found_le none = omega arith
found_le (some a) = omega arith

-- Behind "application/grpc".
apart_grpc : (u : Text) → found (plus_format u) + found (web_type (strip (codes "-web") u)) ≤ 1
unfolding plus_format web_type
apart_grpc u = elim (Option-cases (strip (codes "-web") u)) [
  | inl other ↦ rw other (omega (arith, found_le (plus_format u)))
  | inr (w, web) ↦
      rw web (rw (strip-some (codes "-web") u w web) (omega (arith, found_le (web_type (some w)))))
]

apart :
    (t : Option Text)
    → one_of (connect_test t)
        + found (grpc_type (strip_from (codes "grpc") t))
        + found (web_type (strip_from (codes "-web") (strip_from (codes "grpc") t)))
      ≤ 1
unfolding connect_test then_format format grpc_type web_type plus_format
apart none = omega arith
apart (some t) = elim (Option-cases (strip (codes "grpc") t)) [
  | inl other ↦ rw other (elim (Bool-cases (connect_test (some t))) [
    | inl accepted ↦ rw accepted (omega arith)
    | inr refused ↦ rw refused (omega arith)
  ])
  | inr (u, grpc) ↦ rw grpc (rw (strip-some (codes "grpc") t u grpc) (omega (arith, apart_grpc u)))
]

web_behind :
    (t : Option Text)
    → strip_from (codes "grpc-web") t ≡ strip_from (codes "-web") (strip_from (codes "grpc") t)
web_behind none = refl
web_behind (some t) = strip-append (codes "grpc") (codes "-web") t

typed_unary :
    (f : Option Bool)
    → (is_some f ≡ true)
      ↔ ((binary : Bool) × (typed false f ≡ some (record { stream = false; binary = binary })))
typed_unary none = (λ h. absurd cc, λ (b, h). absurd cc)
typed_unary (some b) = (λ h. (b, refl), λ h. refl)

-- A stream is no unary call.
typed_stream :
    (f : Option Bool) (binary : Bool)
    → typed true f ≡ some (record { stream = false; binary = binary })
    → false ≡ true
typed_stream none binary h = absurd cc
typed_stream (some b) binary h = cc

unary_at :
    (t : Option Text)
    → (is_some (then_format t) ≡ true)
      ↔ ((binary : Bool) × (connect_type t ≡ some (record { stream = false; binary = binary })))
unfolding then_format connect_type format
unary_at none = typed_unary none
unary_at (some t) = elim (Option-cases (strip (codes "connect+") t)) [
  | inl other ↦ rw other (typed_unary (format t))
  | inr (u, connect) ↦ rw connect (
      rw (strip-some (codes "connect+") t u connect)
        (λ h. absurd cc, λ (b, h). typed_stream (format u) b h))
]

-- A content type is accepted for at most one of the protocols: by one of the regular expressions of
-- the Connect protocol, or by that of gRPC, or by that of gRPC-Web.
pub content_types_apart :
    (s : Text)
    → one_of (content_type_unary s || content_type_stream s)
        + found (parse_grpc_type (some s))
        + found (parse_grpc_web_type (some s))
      ≤ 1
unfolding content_type_unary content_type_stream parse_grpc_type parse_grpc_web_type
content_types_apart s =
    let t = strip (codes "application/") (to_lower s) in
    let split = strip-append (codes "application/") in
    rw
      (
        split (codes "connect") (to_lower s),
        split (codes "grpc") (to_lower s),
        split (codes "grpc-web") (to_lower s),
      )
      (rw (web_behind t) (apart t))

-- The test for unary calls accepts just what the parser reads as no stream.
pub content_type_unary_iff :
    (s : Text)
    → (content_type_unary s ≡ true) ↔ (
        (binary : Bool) × (parse_content_type (some s)
          ≡ some (record { stream = false; binary = binary })))
unfolding content_type_unary parse_content_type
content_type_unary_iff s = unary_at (strip (codes "application/") (to_lower s))

not_plus : (c : ℕ) (s : Text) (binary : Bool) → format (c ∷ s) ≡ some binary → (c == b'+') ≡ false
unfolding format
not_plus c s binary e = elim (Bool-cases (c == b'+')) [
  | inr other ↦ other
  | inl plus ↦ absurd (let e' = rw ((==_iff c b'+').0 plus) at e in cc)
]

-- A content type without "+" behind "application/connect", such as "application/connectproto", passes
-- the test for streams, and the parser refuses it.
pub content_type_stream-unparsed :
    (u : Text) (binary : Bool)
    → format (to_lower u) ≡ some binary
    → (content_type_stream (codes "application/connect" ++ u) ≡ true)
      × (parse_content_type (some (codes "application/connect" ++ u)) ≡ none)
unfolding content_type_stream parse_content_type then_format connect_type format
content_type_stream-unparsed [] binary e = absurd cc
content_type_stream-unparsed (c ∷ u) binary e =
    let plain = not_plus (lower c) (to_lower u) binary e in
    (
      ap (λ t. is_some (then_format t))
            (if_false (some (to_lower u)) (some (to_lower (c ∷ u))) plain)
          ∙ ap is_some e,
      ap (λ t. elim t [ none ↦ none | some t ↦ typed true (format t) ])
          (if_false (some (to_lower u)) none (==_sym (lower c) b'+' plain)),
    )
