-- ===== src/Tests/Codec.antt =====
-- A simple binary form of statuses and of bytes in texts, as @bufbuild/protobuf provides them.
use connect_es.Prelude.{
  ℕ, zero, suc, ◌≡◌, refl, sym, ap, ◌∙◌, subst, false, Option, none, some, List, [], ◌∷◌, arith,
  ◌==◌, if◌then◌else◌, or_else, if_false, All,
}
use connect_es.Prelude.Text.{Text, codes}
use connect_es.Prelude.Text.Uri.Laws.{IsVisible}
use connect_es.Code.{Code, canceled, foreign, enum_number, IsMember}
use connect_es.BinaryHeader.{strip_padding}
use connect_es.ConnectError.{js_error, thrown, Result, ok, err}
use connect_es.TrailerStatus.{AnyMessage, Status, Protobuf, type_url, code_of_number}
use connect_es.TrailerStatus.Sendable.{IsEncodable, IsFaithful}

-- Bytes in a text: as many letters as the byte is large, and a separator.
abbrev letters : ℕ → Text → Text
letters zero s = b'z' ∷ s
letters (suc n) s = b'a' ∷ letters n s

abbrev enc : List ℕ → Text
enc [] = []
enc (n ∷ ns) = letters n (enc ns)

abbrev add_one : List ℕ → List ℕ
add_one [] = []
add_one (n ∷ ns) = suc n ∷ ns

abbrev dec_bytes : Text → List ℕ
dec_bytes [] = []
dec_bytes (c ∷ s) = if c == b'a' then add_one (dec_bytes s) else 0 ∷ dec_bytes s

dec-letters : (n : ℕ) (s : Text) → dec_bytes (letters n s) ≡ n ∷ dec_bytes s
dec-letters zero s = refl
dec-letters (suc n) s = ap add_one (dec-letters n s)

dec-enc : (b : List ℕ) → dec_bytes (enc b) ≡ b
dec-enc [] = refl
dec-enc (n ∷ ns) = dec-letters n (enc ns) ∙ ap (λ b. n ∷ b) (dec-enc ns)

abbrev IsUnpadded : Text → Type 0
IsUnpadded s = All (λ c. (c == b'=') ≡ false) s

letters-IsUnpadded : (n : ℕ) (s : Text) → IsUnpadded s → IsUnpadded (letters n s)
letters-IsUnpadded zero s h = (refl, h)
letters-IsUnpadded (suc n) s h = (refl, letters-IsUnpadded n s h)

enc-IsUnpadded : (b : List ℕ) → IsUnpadded (enc b)
enc-IsUnpadded [] = tt
enc-IsUnpadded (n ∷ ns) = letters-IsUnpadded n (enc ns) (enc-IsUnpadded ns)

letters-IsVisible : (n : ℕ) (s : Text) → IsVisible s → IsVisible (letters n s)
letters-IsVisible zero s h = (omega arith, h)
letters-IsVisible (suc n) s h = (omega arith, letters-IsVisible n s h)

enc-IsVisible : (b : List ℕ) → IsVisible (enc b)
enc-IsVisible [] = tt
enc-IsVisible (n ∷ ns) = letters-IsVisible n (enc ns) (enc-IsVisible ns)

strip_unpadded : (s : Text) → IsUnpadded s → strip_padding s ≡ s
unfolding strip_padding
strip_unpadded [] h = refl
strip_unpadded (c ∷ []) (h, hs) = if_false _ _ h
strip_unpadded (c ∷ d ∷ s) (h, hs) = rw (strip_unpadded (d ∷ s) hs) refl

-- Lists of bytes in bytes: every element after a one, and a zero behind each list.
abbrev flat : List ℕ → List ℕ → List ℕ
flat [] rest = 0 ∷ rest
flat (x ∷ xs) rest = 1 ∷ x ∷ flat xs rest

abbrev flat_all : List (List ℕ) → List ℕ
flat_all [] = []
flat_all (l ∷ ls) = flat l (flat_all ls)

abbrev push : ℕ → List (List ℕ) → List (List ℕ)
push x [] = (x ∷ []) ∷ []
push x (l ∷ ls) = (x ∷ l) ∷ ls

abbrev lists : List ℕ → List (List ℕ)
lists [] = []
lists (zero ∷ r) = [] ∷ lists r
lists (suc n ∷ []) = []
lists (suc n ∷ x ∷ r) = push x (lists r)

lists-flat : (l rest : List ℕ) → lists (flat l rest) ≡ l ∷ lists rest
lists-flat [] rest = refl
lists-flat (x ∷ xs) rest = ap (push x) (lists-flat xs rest)

lists-flat_all : (ls : List (List ℕ)) → lists (flat_all ls) ≡ ls
lists-flat_all [] = refl
lists-flat_all (l ∷ ls) = lists-flat l (flat_all ls) ∙ ap (λ r. l ∷ r) (lists-flat_all ls)

-- The parts of a status.
abbrev parts : List AnyMessage → List (List ℕ)
parts [] = []
parts (a ∷ rest) = a.type_url ∷ a.value ∷ parts rest

abbrev anys : List (List ℕ) → List AnyMessage
anys [] = []
anys (t ∷ []) = []
anys (t ∷ v ∷ rest) = record { type_url = t; value = v } ∷ anys rest

anys-parts : (list : List AnyMessage) → anys (parts list) ≡ list
anys-parts [] = refl
anys-parts (a ∷ rest) = ap (λ r. a ∷ r) (anys-parts rest)

abbrev number_of : Option Code → ℕ
number_of none = 0
number_of (some c) = or_else (enum_number c) 0

code_of-number_of :
    (c : Option Code) → ((d : Code) → c ≡ some d → IsMember d) → code_of_number (number_of c) ≡ c
code_of-number_of none h = refl
code_of-number_of (some (foreign t)) h = absurd (h (foreign t) refl)
code_of-number_of (some canceled) h = refl
code_of-number_of (some _) h = refl

abbrev status_from : List (List ℕ) → Result Status
status_from ((n ∷ []) ∷ m ∷ rest) =
    ok (record { code = code_of_number n; message = m; details = anys rest })
status_from _ = err (thrown (js_error (codes "Error") (codes "premature EOF")))

abbrev pub codec : Protobuf
codec = record {
  enc = enc;
  dec = λ s. ok (dec_bytes s);
  to_binary = λ s. ok (flat_all ((number_of s.code ∷ []) ∷ s.message ∷ parts s.details));
  from_binary = λ b. status_from (lists b);
  pack = λ m. record { type_url = type_url m.type_name; value = m.binary };
}

read_back :
    (s : Status)
    → IsEncodable s
    → status_from (lists (flat_all ((number_of s.code ∷ []) ∷ s.message ∷ parts s.details))) ≡ ok s
read_back s (member, scalars) =
    ap status_from (lists-flat_all ((number_of s.code ∷ []) ∷ s.message ∷ parts s.details))
    ∙ ap (λ c. ok (record { code = c; message = s.message; details = anys (parts s.details) }))
        (code_of-number_of s.code member)
    ∙ ap (λ d. ok (record { code = s.code; message = s.message; details = d }))
        (anys-parts s.details)

pub codec-IsFaithful : IsFaithful codec
codec-IsFaithful = record {
  base64 = λ b.
      ap (λ s. ok (dec_bytes s)) (strip_unpadded (enc b) (enc-IsUnpadded b)) ∙ ap ok (dec-enc b);
  visible =
      λ b. subst IsVisible (sym (strip_unpadded (enc b) (enc-IsUnpadded b))) (enc-IsVisible b);
  binary = λ s h. (_, refl, read_back s h);
  pack = λ m. refl;
}
