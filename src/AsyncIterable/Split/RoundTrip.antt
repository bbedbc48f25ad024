-- ===== src/AsyncIterable/Split/RoundTrip.antt =====
-- `transformSplitEnvelope` gives back what `transformJoinEnvelopes` sent, and refuses what is cut
-- short or too large.
use connect_es.Prelude.{
  ℕ, zero, suc, ◌+◌, ◌≤◌, ◌<◌, ◌≡◌, refl, sym, ap, ◌∙◌, true, false, some, List, [], ◌∷◌, ◌++◌,
  append-nil, append_assoc, arith, ltb, length, length-append, take, drop, All, take-append_self,
  drop-append_self,
}
use connect_es.Stream.{Stream, done, fails, next, of_list, then_stream, contents}
use connect_es.Limits.{assert_read_max_bytes-ok}
use connect_es.Envelope.{Bytes, EnvelopedMessage, encode_envelope}
use connect_es.Envelope.Encode.{wire, wires, encodings, wires-encodings}
use connect_es.AsyncIterable.Split.{
  shift_envelope, finish, round, drain, transform_split_envelope, transform_join_envelopes,
  split_loop,
}
use connect_es.AsyncIterable.Split.Rounds.{round-eq, drain_fuel}
use connect_es.AsyncIterable.Split.Chunks.{tail, transform_split_envelope-contents}
use connect_es.Envelope.Reader.Laws.{peek_header-wire}

-- An envelope whose flags are a byte and whose payload is within the limit.
abbrev pub Fits : ℕ → EnvelopedMessage → Type 0
Fits max e = (e.flags < 256) × (length e.payload ≤ max)

shift_envelope-wire :
    (e : EnvelopedMessage) (rest : Bytes)
    → e.flags < 256
    → shift_envelope (wire e ++ rest) (record { flags = e.flags; size = length e.payload })
      ≡ (some e, rest)
unfolding shift_envelope
shift_envelope-wire e rest byte =
    let n : 5 + length e.payload ≡ length (wire e) = omega arith in
    let whole : ltb (length (wire e ++ rest)) (5 + length e.payload) ≡ false =
      ground (arith, length-append (wire e) rest) in
    let front : take (5 + length e.payload) (wire e ++ rest) ≡ wire e =
      ap (λ k. take k (wire e ++ rest)) n ∙ take-append_self (wire e) rest in
    let back : drop (5 + length e.payload) (wire e ++ rest) ≡ rest =
      ap (λ k. drop k (wire e ++ rest)) n ∙ drop-append_self (wire e) rest in
    rw whole (rw (front, back))

round-wire :
    (max : ℕ) (again break : Bytes → Stream EnvelopedMessage) (e : EnvelopedMessage) (rest : Bytes)
    → max < 0x100000000
    → Fits max e
    → round max again break (wire e ++ rest) ≡ next e (again rest)
round-wire max again break e rest limit (byte, small) =
    round-eq max again break (wire e ++ rest)
      (some (record { flags = e.flags; size = length e.payload }))
      (peek_header-wire e rest byte (omega arith))
    ∙ rw (
      assert_read_max_bytes-ok max (length e.payload) true small,
      shift_envelope-wire e rest byte,
    )

-- Envelopes at the front of a buffer are yielded, and the loop goes on with the bytes behind them.
pub drain-wires :
    (max : ℕ) (break : Bytes → Stream EnvelopedMessage) (es : List EnvelopedMessage) (rest : Bytes)
    (f : ℕ)
    → max < 0x100000000
    → All (Fits max) es
    → length (wires es ++ rest) ≤ f
    → drain max break f (wires es ++ rest)
      ≡ then_stream (of_list es) (drain max break (length rest) rest)
unfolding drain
drain-wires max break [] rest f limit fits p =
    drain_fuel max break f (length rest) rest p (omega arith)
drain-wires max break (e ∷ es) rest zero limit fits p = absurd (omega arith)
drain-wires max break (e ∷ es) rest (suc f) limit (fit, fits) p =
    let onward : (wire e ++ wires es) ++ rest ≡ wire e ++ (wires es ++ rest) =
      append_assoc (wire e) (wires es) rest in
    ap (round max (drain max break f) break) onward
    ∙ round-wire max (drain max break f) break e (wires es ++ rest) limit fit
    ∙ ap (next e) (
        drain-wires max break es rest f limit fits
          (omega (arith, ap length onward, length-append (wire e) (wires es ++ rest))))

-- The bytes of encoded envelopes, and what follows them.
pub split-wires :
    (max : ℕ) (es : List EnvelopedMessage) (rest : Bytes) (s : Stream Bytes)
    → max < 0x100000000
    → All (Fits max) es
    → contents s ≡ encodings es ++ rest
    → tail s ≡ done
    → transform_split_envelope max s
      ≡ then_stream (of_list es) (drain max finish (length rest) rest)
unfolding transform_split_envelope split_loop
split-wires max es rest s limit fits split ends =
    transform_split_envelope-contents max s
    ∙ rw (split, ends, ← wires-encodings es)
        (drain-wires max finish es rest (length (wires es ++ rest)) limit fits (omega arith))

contents-join :
    (es : List EnvelopedMessage) → contents (transform_join_envelopes (of_list es)) ≡ encodings es
unfolding transform_join_envelopes
contents-join [] = refl
contents-join (e ∷ es) = ap (◌++◌ (encode_envelope e.flags e.payload)) (contents-join es)

then_stream-done {ℓ} : {A : Type ℓ} (s : Stream A) → then_stream s done ≡ s
then_stream-done done = refl
then_stream-done (fails r) = refl
then_stream-done (next a s) = ap (next a) (then_stream-done s)

-- Joining envelopes and splitting the bytes again gives the envelopes back, however the bytes are
-- cut into chunks on the way: if the flags are bytes, no payload exceeds the limit, the limit is
-- below 2^32, and the stream of chunks ends without an error.
pub split-join_envelopes :
    (max : ℕ) (es : List EnvelopedMessage) (s : Stream Bytes)
    → max < 0x100000000
    → All (Fits max) es
    → contents s ≡ contents (transform_join_envelopes (of_list es))
    → tail s ≡ done
    → transform_split_envelope max s ≡ of_list es
unfolding drain finish
split-join_envelopes max es s limit fits split ends =
    split-wires max es [] s limit fits (split ∙ contents-join es ∙ sym (append-nil (encodings es)))
      ends
    ∙ then_stream-done (of_list es)
