-- ===== src/Serialization/Laws.antt =====
-- What is serialized within the limits is parsed back.
use connect_es.Prelude.{
  ℕ, ◌≤◌, ◌≡◌, ◌<◌, refl, sym, ap, ◌∙◌, Bool, true, false, List, arith, if◌then◌else◌, length,
}
use connect_es.Prelude.Text.{Text}
use connect_es.Prelude.Text.Utf8.{IsScalars, encode, skip_bom, decode}
use connect_es.Prelude.Text.Utf8.Decode.{decode-encode}
use connect_es.ConnectError.{Reason, HasCode, raise, Result, ok, err, ◌>>◌, ◌>>=◌}
use connect_es.Code.{resource_exhausted}
use connect_es.Limits.{
  assert_write_max_bytes, assert_read_max_bytes-ok, assert_read_max_bytes-large,
}
use connect_es.Serialization.{
  MessageType, create_binary_serialization, create_json_serialization, limit_serialization,
  serialization_lookup,
}

-- What is relied on of a message type: its two forms are read back, and JSON is a text of code points
-- that does not begin with a byte order mark.
pub record IsFaithfulType {T : Type 0} (t : MessageType T) : Type 0 where
  pub binary : (m : T) (b : List ℕ) → t.to_binary m ≡ ok b → t.from_binary b ≡ ok m
  pub json : (m : T) (s : Text) → t.to_json_string m ≡ ok s → t.from_json_string s ≡ ok m
  pub scalars : (m : T) (s : Text) → t.to_json_string m ≡ ok s → IsScalars s × (skip_bom s ≡ s)

written :
    (r : Result (List ℕ)) (b : List ℕ) (write : ℕ)
    → (r >>= λ c. assert_write_max_bytes write (length c) >> ok c) ≡ ok b
    → (r ≡ ok b) × (length b ≤ write)
unfolding assert_write_max_bytes raise
written (err r) b write h = absurd cc
written (ok c) b write h = ground arith

module _ {T : Type 0} (t : MessageType T) (f : IsFaithfulType t) where
  binary_lem :
      (m : T) (r : Result (List ℕ)) (b : List ℕ)
      → t.to_binary m ≡ r
      → (create_binary_serialization t).serialize m ≡ ok b
      → (create_binary_serialization t).parse b ≡ ok m
  unfolding create_binary_serialization
  binary_lem m (err r) b e h = absurd (let h' = rw e at h in cc)
  binary_lem m (ok c) b e h =
      let same : c ≡ b = let h' = rw e at h in cc in rw (f.binary m b (e ∙ ap ok same)) refl

  json_lem :
      (m : T) (r : Result Text) (b : List ℕ)
      → t.to_json_string m ≡ r
      → (create_json_serialization t).serialize m ≡ ok b
      → (create_json_serialization t).parse b ≡ ok m
  unfolding create_json_serialization
  json_lem m (err r) b e h = absurd (let h' = rw e at h in cc)
  json_lem m (ok s) b e h =
      let same : encode s ≡ b = let h' = rw e at h in cc in
      let (scalars, unmarked) = f.scalars m s e in
      let decoded : decode b ≡ s = ap decode (sym same) ∙ decode-encode s scalars unmarked in
      rw (decoded, f.json m s e) refl

  format_lem :
      (m : T) (b : List ℕ) (binary : Bool)
      → (if binary then create_binary_serialization t else create_json_serialization t).serialize m
        ≡ ok b
      → (if binary then create_binary_serialization t else create_json_serialization t).parse b
        ≡ ok m
  format_lem m b true h = binary_lem m (t.to_binary m) b refl h
  format_lem m b false h = json_lem m (t.to_json_string m) b refl h

  -- The bytes that one side serializes a message to, in either format, are no more than its limit
  -- for writing, and the other side parses them to the same message if they are within its limit
  -- for reading; if they are above it, it throws `ResourceExhausted`. Here the methods of the
  -- message type read back what they write, and JSON is a text of code points that does not begin
  -- with a byte order mark.
  pub parse-serialize :
      (m : T) (b : List ℕ) (binary : Bool) (write read write' read' : ℕ)
      → (serialization_lookup t write read binary).serialize m ≡ ok b
      → (length b ≤ write)
        × (length b ≤ read' → (serialization_lookup t write' read' binary).parse b ≡ ok m)
        × (read' < length b
            → (r : Reason) × ((serialization_lookup t write' read' binary).parse b ≡ err r)
              × HasCode resource_exhausted r)
  unfolding serialization_lookup limit_serialization
  parse-serialize m b binary write read write' read' h =
      let s = if binary then create_binary_serialization t else create_json_serialization t in
      let (made, small) = written (s.serialize m) b write h in
      (
        small,
        λ fits.
            ap (λ r. r >> s.parse b) (assert_read_max_bytes-ok read' (length b) true fits)
            ∙ format_lem m b binary made,
        λ large.
            let (r, refused, code) = assert_read_max_bytes-large read' (length b) true large in
            (r, ap (λ c. c >> s.parse b) refused, code),
      )
