-- ===== src/Compression/Laws.antt =====
-- What the negotiation of compressions guarantees.
use connect_es.ConnectError.{ConnectError, new_error_with, new_error}
use connect_es.Prelude.{
  ◌≡◌, refl, sym, ap, ◌∙◌, ◌≢◌, ◌⊎◌, inl, inr, false, Option, none, some, List, [], ◌∷◌, ◌++◌, map,
  Bool-cases, Option-cases, if_intro, if_true, All,
}
use connect_es.Prelude.Text.{Text, codes, text_eq, text_eq_sound, text_eq_refl, to_lower, trim}
use connect_es.Compression.{
  Compression, find_by_name, split_comma, first_available, acceptable, negotiate_request,
  negotiate_response, unknown_compression, answer_request,
}
use connect_es.Headers.{normalize_value, get}
use connect_es.Code.{unimplemented}
use connect_es.ConnectError.{ConnectError, new_error_with, new_error}
use connect_es.Headers.Laws.{get-set}

-- Nothing that is available has the name.
abbrev pub Missing : Text → List Compression → Type 0
Missing name available = All (λ (c : Compression). text_eq c.name name ≡ false) available

-- The compression is available under the name.
pub record IsNamed (c : Compression) (name : Text) (available : List Compression) : Type 0 where
  pub before : List Compression
  pub after : List Compression
  pub split : available ≡ before ++ c ∷ after
  pub named : c.name ≡ name
  pub missing : Missing name before

find_by_name-none :
    (name : Text) (available : List Compression)
    → find_by_name name available ≡ none
    → Missing name available
unfolding find_by_name
find_by_name-none name [] e = tt
find_by_name-none name (c ∷ cs) e = elim (Bool-cases (text_eq c.name name)) [
  | inl same ↦ absurd (let h = rw same at e in cc)
  | inr other ↦ (other, find_by_name-none name cs (rw other at e))
]

find_by_name-some :
    (name : Text) (available : List Compression) (c : Compression)
    → find_by_name name available ≡ some c
    → IsNamed c name available
unfolding find_by_name
find_by_name-some name [] c e = absurd cc
find_by_name-some name (d ∷ cs) c e = elim (Bool-cases (text_eq d.name name)) [
  | inl same ↦
      let found : d ≡ c = let h = rw same at e in cc in
      record {
        before = [];
        after = cs;
        split = ap (λ x. x ∷ cs) found;
        named = ap (λ x. x.name) (sym found) ∙ text_eq_sound d.name name same;
        missing = tt;
      }
  | inr other ↦
      let v = find_by_name-some name cs c (rw other at e) in
      record {
        before = d ∷ v.before;
        after = v.after;
        split = ap (◌∷◌ d) v.split;
        named = v.named;
        missing = (other, v.missing);
      }
]

-- The compression is that of the first name that is available.
pub record IsFirst (c : Compression) (names : List Text) (available : List Compression)
    : Type 0 where
  pub name : Text
  pub earlier : List Text
  pub later : List Text
  pub split_names : names ≡ earlier ++ name ∷ later
  pub is_named : IsNamed c name available
  pub none_earlier : All (λ n. Missing n available) earlier

first_available-some :
    (available : List Compression) (names : List Text) (c : Compression)
    → first_available available names ≡ some c
    → IsFirst c names available
unfolding first_available
first_available-some available [] c e = absurd cc
first_available-some available (name ∷ names) c e =
    elim (Option-cases (find_by_name name available)) [
      | inl missing ↦
          let v = first_available-some available names c (rw missing at e) in
          record {
            name = v.name;
            earlier = name ∷ v.earlier;
            later = v.later;
            split_names = ap (◌∷◌ name) v.split_names;
            is_named = v.is_named;
            none_earlier = (find_by_name-none name available missing, v.none_earlier);
          }
      | inr (d, found) ↦
          let same : d ≡ c = let h = rw found at e in cc in
          record {
            name = name;
            earlier = [];
            later = names;
            split_names = refl;
            is_named = find_by_name-some name available c (found ∙ ap some same);
            none_earlier = tt;
          }
    ]

-- What the negotiation of the request's compression says: none is asked for, or the named one, which is
-- not "identity", is available, or it is not, and an error tells in the given header what is.
pub data Request (available : List Compression) (requested : Option Text) (header_name : Text)
    : Option Compression → Option ConnectError → Type 0 where
  plain :
      (requested ≡ none) ⊎ (requested ≡ some (codes "identity"))
      → Request available requested header_name none none
  compressed :
      (c : Compression) (name : Text)
      → requested ≡ some name
      → name ≢ codes "identity"
      → IsNamed c name available
      → Request available requested header_name (some c) none
  refused :
      (e : ConnectError) (name : Text)
      → requested ≡ some name
      → name ≢ codes "identity"
      → Missing name available
      → e.code ≡ unimplemented
      → get header_name e.metadata ≡ some (normalize_value (acceptable available))
      → Request available requested header_name none (some e)

answer_request-cases :
    (available : List Compression) (requested header_name : Text) (found : Option Compression)
    → requested ≢ codes "identity"
    → find_by_name requested available ≡ found
    → let (c, e) = answer_request found available requested header_name in
      Request available (some requested) header_name c e
unfolding unknown_compression new_error new_error_with
answer_request-cases available requested header_name none proper e =
    refused (unknown_compression available requested header_name) requested refl proper
      (find_by_name-none requested available e) refl
      (get-set header_name header_name (acceptable available) []
        ∙ if_true _ _ (text_eq_refl (to_lower header_name)))
answer_request-cases available requested header_name (some c) proper e =
    compressed c requested refl proper (find_by_name-some requested available c e)

-- If no encoding or "identity" is requested, the request has no compression and there is no error.
-- For any other name, its compression is the first that is available under that name, without an
-- error; if there is none, it has no compression, and the error has the code `Unimplemented` and
-- the names of those that are available in the given header.
pub negotiate_request-Request :
    (available : List Compression) (requested : Option Text) (header_name : Text)
    → let (c, e) = negotiate_request available requested header_name in
      Request available requested header_name c e
unfolding negotiate_request
negotiate_request-Request available none header_name = plain (inl refl)
negotiate_request-Request available (some requested) header_name =
    if_intro (λ (c, e). Request available (some requested) header_name c e)
      (text_eq requested (codes "identity"))
      (λ same. plain (inr (ap some (text_eq_sound requested (codes "identity") same))))
      (λ other.
        answer_request-cases available requested header_name _
          (λ same. let h = text_eq_refl (codes "identity") in absurd cc) refl)

first_available-none :
    (available : List Compression) (names : List Text)
    → first_available available names ≡ none
    → All (λ n. Missing n available) names
unfolding first_available
first_available-none available [] e = tt
first_available-none available (name ∷ names) e =
    elim (Option-cases (find_by_name name available)) [
      | inl missing ↦ (
        find_by_name-none name available missing,
        first_available-none available names (rw missing at e),
      )
      | inr (d, found) ↦ absurd (let h = rw found at e in cc)
    ]

-- What the negotiation of the response's compression says, for the compression of the request.
pub data Response (available : List Compression) (request : Option Compression)
    (accepted : Option Text) : Option Compression → Type 0 where
  same : (accepted ≡ none) ⊎ (accepted ≡ some []) → Response available request accepted request
  first :
      (c : Compression) (text : Text)
      → accepted ≡ some text
      → text ≢ []
      → IsFirst c (map trim (split_comma text)) available
      → Response available request accepted (some c)
  unavailable :
      (text : Text)
      → accepted ≡ some text
      → text ≢ []
      → All (λ n. Missing n available) (map trim (split_comma text))
      → Response available request accepted none

first_available-cases :
    (available : List Compression) (request : Option Compression) (text : Text)
    (found : Option Compression)
    → text ≢ []
    → first_available available (map trim (split_comma text)) ≡ found
    → Response available request (some text) found
first_available-cases available request text none d e =
    unavailable text refl d (first_available-none available _ e)
first_available-cases available request text (some c) d e =
    first c text refl d (first_available-some available _ c e)

-- If the client accepts no encodings by name, the response has the compression of the request, or
-- none if that has none. Otherwise it has the first compression that is available under the first
-- of the accepted names under which any is, and none if there is no such name.
pub negotiate_response-Response :
    (available : List Compression) (request : Option Compression) (accepted : Option Text)
    → Response available request accepted (negotiate_response available request accepted)
unfolding negotiate_response
negotiate_response-Response available request none = same (inl refl)
negotiate_response-Response available request (some []) = same (inr refl)
negotiate_response-Response available request (some (x ∷ text)) =
    first_available-cases available request (x ∷ text) _ (λ e. absurd cc) refl
