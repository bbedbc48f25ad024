-- ===== src/TrailerStatus/Sendable.antt =====
-- Errors that can be sent in trailers, and how they arrive.
use connect_es.Prelude.{
  ℕ, ◌≡◌, refl, ap, ◌∙◌, false, Option, none, some, List, [], ◌∷◌, map, ◌==◌, if_false, All,
}
use connect_es.Prelude.Text.{Text, text_eq, show_nat}
use connect_es.Prelude.Text.Utf8.{IsScalars}
use connect_es.Prelude.Text.Uri.Laws.{IsVisible}
use connect_es.Code.{Code, canceled, foreign, IsMember}
use connect_es.Headers.{Headers, normalize_value}
use connect_es.BinaryHeader.{strip_padding}
use connect_es.ConnectError.{Message, Detail, outgoing, incoming, ConnectError, new_error_with, ok}
use connect_es.AsyncIterable.ReadAll.{parse_int}
use connect_es.TrailerStatus.{
  grpc_status_ok, Status, Protobuf, type_url, code_text, after_slash, received, code_of,
}

-- A status that has a binary form.
abbrev pub IsEncodable : Status → Type 0
IsEncodable s = ((c : Code) → s.code ≡ some c → IsMember c) × IsScalars s.message

-- What is relied on of @bufbuild/protobuf.
pub record IsFaithful (p : Protobuf) : Type 0 where
  pub base64 : (b : List ℕ) → p.dec (strip_padding (p.enc b)) ≡ ok b
  pub visible : (b : List ℕ) → IsVisible (strip_padding (p.enc b))
  pub binary :
      (s : Status)
      → IsEncodable s
      → (b : List ℕ) × (p.to_binary s ≡ ok b) × (p.from_binary b ≡ ok s)
  pub pack : (m : Message) → p.pack m ≡ record { type_url = type_url m.type_name; value = m.binary }

abbrev pub NoSlash : Text → Type 0
NoSlash s = All (λ c. (c == b'/') ≡ false) s

-- The type of a detail, whose name holds no slash.
abbrev pub IsTyped : Detail → Type 0
IsTyped (outgoing m) = NoSlash m.type_name
IsTyped (incoming type value debug) = NoSlash type

-- An error that a trailer can hold.
pub record IsSendable (e : ConnectError) : Type 0 where
  pub member : IsMember e.code
  pub scalars : IsScalars e.raw_message
  pub typed : All IsTyped e.details

-- A detail and an error as they arrive.
abbrev pub arrived_detail : Detail → Detail
arrived_detail (outgoing m) = incoming m.type_name m.binary none
arrived_detail (incoming type value debug) = incoming type value none

abbrev pub arrived_error : Headers → ConnectError → ConnectError
arrived_error headers e = record (new_error_with e.raw_message e.code (some headers) none none) {
  details = map arrived_detail e.details;
}

abbrev pub arrived : Headers → Option ConnectError → Option ConnectError
arrived headers none = none
arrived headers (some e) = some (arrived_error headers e)

pub after_slash_none : (type s : Text) → NoSlash s → after_slash type s ≡ type
unfolding after_slash
after_slash_none type [] h = refl
after_slash_none type (c ∷ s) (h, hs) =
    ap (λ t. after_slash t s) (if_false s type h) ∙ after_slash_none type s hs

pub received-type_url :
    (type : Text) (value : List ℕ)
    → NoSlash type
    → received (record { type_url = type_url type; value = value }) ≡ incoming type value none
unfolding received
received-type_url type value h = ap (λ t. incoming t value none) (after_slash_none type type h)

-- The number of a code is read back.
pub code_of-code_text :
    (c : Code)
    → IsMember c
    → (text_eq (normalize_value (code_text c)) grpc_status_ok ≡ false)
      × (code_of (parse_int (normalize_value (code_text c))) ≡ some c)
unfolding code_text parse_int show_nat
code_of-code_text (foreign t) h = absurd h
code_of-code_text canceled h = (refl, refl)
code_of-code_text _ h = (refl, refl)
