-- ===== src/AsyncIterable/Split/Errors.antt =====
-- What `transformSplitEnvelope` does with an envelope that is cut short or too large.
use connect_es.Prelude.{
  ℕ, ◌+◌, ◌<◌, ◌≡◌, refl, sym, ap, ◌∙◌, ◌≢◌, inl, inr, true, none, some, List, [], ◌∷◌, ◌++◌,
  append-nil, arith, Option-cases, length, length-append, All,
}
use connect_es.Code.{invalid_argument, resource_exhausted}
use connect_es.ConnectError.{Reason, connect_error, new_error, HasCode}
use connect_es.Stream.{Stream, done, fails, of_list, then_stream, contents}
use connect_es.Limits.{assert_read_max_bytes-ok, assert_read_max_bytes-large}
use connect_es.Envelope.{Bytes, EnvelopedMessage, be32, encode_envelope}
use connect_es.Envelope.Encode.{wire, encode_envelope_lem, encodings}
use connect_es.Envelope.Reader.{peek_header}
use connect_es.Envelope.Reader.Laws.{peek_header-append, be32_get, peek_header-wire}
use connect_es.AsyncIterable.Split.{finish, round, drain, transform_split_envelope, end_message}
use connect_es.AsyncIterable.Split.Rounds.{round-eq, shift_envelope-cut}
use connect_es.AsyncIterable.Split.Chunks.{tail}
use connect_es.AsyncIterable.Split.RoundTrip.{Fits, split-wires}

finish-short :
    (part : Bytes) → part ≢ [] → (r : Reason) × (finish part ≡ fails r) × HasCode invalid_argument r
unfolding finish new_error
finish-short [] h = absurd (h refl)
finish-short (b ∷ part) h = (
  connect_error (new_error (end_message (b ∷ part) (peek_header (b ∷ part))) invalid_argument []),
  refl,
  refl,
)

length-pos : (xs : Bytes) → xs ≢ [] → 0 < length xs
length-pos [] h = absurd (h refl)
length-pos (x ∷ xs) h = omega arith

-- A proper part of an envelope makes the loop wait for more bytes.
round-part :
    (max : ℕ) (again break : Bytes → Stream EnvelopedMessage) (e : EnvelopedMessage)
    (part missing : Bytes)
    → max < 0x100000000
    → Fits max e
    → wire e ≡ part ++ missing
    → missing ≢ []
    → round max again break part ≡ break part
round-part max again break e part missing limit (byte, small) cut some_missing =
    elim (Option-cases (peek_header part)) [
      | inl short ↦ round-eq max again break part none short
      | inr (h, found) ↦
          let same : some h ≡ some (record { flags = e.flags; size = length e.payload }) =
            sym (peek_header-append part missing h found)
            ∙ ap peek_header (sym cut ∙ sym (append-nil (wire e)))
            ∙ peek_header-wire e [] byte (omega arith) in
          let within : length part < 5 + length e.payload =
            omega
              (arith, ap length cut, length-append part missing, length-pos missing some_missing) in
          round-eq max again break part _ (found ∙ same)
          ∙ rw (
            assert_read_max_bytes-ok max (length e.payload) true small,
            shift_envelope-cut part (record { flags = e.flags; size = length e.payload }) within,
          )
    ]

drain-part :
    (max : ℕ) (e : EnvelopedMessage) (part missing : Bytes)
    → max < 0x100000000
    → Fits max e
    → wire e ≡ part ++ missing
    → part ≢ []
    → missing ≢ []
    → drain max finish (length part) part ≡ finish part
unfolding drain
drain-part max e [] missing limit fit cut some_part some_missing = absurd (some_part refl)
drain-part max e (b ∷ part) missing limit fit cut some_part some_missing =
    round-part max (drain max finish (length part)) finish e (b ∷ part) missing limit fit cut
      some_missing

-- A stream that ends within an envelope yields the envelopes before it, and then throws
-- `InvalidArgument`: for any non-empty proper part `part` of the bytes of an envelope.
pub split_truncated :
    (max : ℕ) (es : List EnvelopedMessage) (e : EnvelopedMessage) (part missing : Bytes)
    (s : Stream Bytes)
    → max < 0x100000000
    → All (Fits max) es
    → Fits max e
    → encode_envelope e.flags e.payload ≡ part ++ missing
    → part ≢ []
    → missing ≢ []
    → contents s ≡ encodings es ++ part
    → tail s ≡ done
    → (r : Reason) × (transform_split_envelope max s ≡ then_stream (of_list es) (fails r))
      × HasCode invalid_argument r
split_truncated max es e part missing s limit fits fit cut some_part some_missing split ends =
    let (r, e₁, code) = finish-short part some_part in
    (
      r,
      split-wires max es part s limit fits split ends
          ∙ ap (then_stream (of_list es)) (
              drain-part max e part missing limit fit (sym (encode_envelope_lem e) ∙ cut) some_part
                some_missing
              ∙ e₁),
      code,
    )

-- An envelope whose payload exceeds the limit makes the split throw `ResourceExhausted` behind the
-- envelopes before it, whatever follows its header.
pub split_too_large :
    (max : ℕ) (es : List EnvelopedMessage) (e : EnvelopedMessage) (rest : Bytes) (s : Stream Bytes)
    → max < 0x100000000
    → All (Fits max) es
    → e.flags < 256
    → max < length e.payload
    → length e.payload < 0x100000000
    → contents s ≡ encodings es ++ (e.flags ∷ (be32 (length e.payload) ++ rest))
    → tail s ≡ done
    → (r : Reason) × (transform_split_envelope max s ≡ then_stream (of_list es) (fails r))
      × HasCode resource_exhausted r
unfolding drain peek_header
split_too_large max es e rest s limit fits byte large wide split ends =
    let (r, big, code) = assert_read_max_bytes-large max (length e.payload) true large in
    let buffer = e.flags ∷ (be32 (length e.payload) ++ rest) in
    let stop : drain max finish (length buffer) buffer ≡ fails r =
      rw (be32_get (length e.payload) wide, big) in
    (
      r,
      split-wires max es buffer s limit fits split ends ∙ ap (then_stream (of_list es)) stop,
      code,
    )
