-- ===== src/AsyncIterable/Split/Chunks.antt =====
-- Splitting a stream of bytes into envelopes does not depend on how the bytes are cut into chunks.
use connect_es.Prelude.{
  ℕ, zero, suc, ◌≤◌, ◌<◌, ◌≡◌, refl, sym, ap, ◌∙◌, [], ◌∷◌, ◌++◌, append-nil, append_assoc, arith,
  length, length-append,
}
use connect_es.ConnectError.{Reason}
use connect_es.Stream.{Stream, done, fails, next, contents}
use connect_es.Envelope.{Bytes, EnvelopedMessage}
use connect_es.AsyncIterable.Split.{round, drain, transform_split_envelope, split_loop}
use connect_es.AsyncIterable.Split.Rounds.{
  waits, stops, emits, view, stops_here, emits_here, drain_fuel,
}

-- Draining a buffer, and later what is left with more bytes, is draining all of them at once.
drain-drain :
    (max : ℕ) (break : Bytes → Stream EnvelopedMessage) (more : Bytes) (f g : ℕ) (buffer : Bytes)
    → length buffer ≤ f
    → length (buffer ++ more) ≤ g
    → drain max (λ b. drain max break (length (b ++ more)) (b ++ more)) f buffer
      ≡ drain max break g (buffer ++ more)
unfolding drain
drain-drain max break more zero g [] p q = drain_fuel max break (length more) g more (omega arith) q
drain-drain max break more zero g (b ∷ buffer) p q = absurd (omega arith)
drain-drain max break more (suc f) g buffer p q = elim (view max buffer) [
  | waits w ↦
      w (drain max later f) later
      ∙ drain_fuel max break (length (buffer ++ more)) g (buffer ++ more) (omega arith) q
  | stops r long s ↦ stopped g q r long s
  | emits e rest short t ↦
      emitted g q e rest short t (λ g' q'. drain-drain max break more f g' rest (omega arith) q')
]
  where
    later : Bytes → Stream EnvelopedMessage
    later b = drain max break (length (b ++ more)) (b ++ more)

    stopped :
        (g : ℕ)
        → length (buffer ++ more) ≤ g
        → (r : Reason) → 0 < length buffer
        → ((again break : Bytes → Stream EnvelopedMessage) (more : Bytes)
            → round max again break (buffer ++ more) ≡ fails r)
        → round max (drain max later f) later buffer ≡ drain max break g (buffer ++ more)
    stopped zero q r long s = absurd (omega (arith, length-append buffer more))
    stopped (suc g) q r long s =
        stops_here max buffer r (drain max later f) later (s (drain max later f) later)
        ∙ sym (s (drain max break g) break more)

    emitted :
        (g : ℕ)
        → length (buffer ++ more) ≤ g
        → (e : EnvelopedMessage) (rest : Bytes) → length rest < length buffer
        → ((again break : Bytes → Stream EnvelopedMessage) (more : Bytes)
            → round max again break (buffer ++ more) ≡ next e (again (rest ++ more)))
        → ((g' : ℕ)
            → length (rest ++ more) ≤ g'
            → drain max later f rest ≡ drain max break g' (rest ++ more))
        → round max (drain max later f) later buffer ≡ drain max break g (buffer ++ more)
    emitted zero q e rest short t ih = absurd (omega (arith, length-append buffer more))
    emitted (suc g) q e rest short t ih =
        emits_here max buffer rest e (drain max later f) later (t (drain max later f) later)
        ∙ ap (next e) (ih g (omega (arith, length-append buffer more, length-append rest more)))
        ∙ sym (t (drain max break g) break more)

-- How a stream ends, as a stream with no values.
abbrev pub tail : Stream Bytes → Stream Bytes
tail done = done
tail (fails r) = fails r
tail (next c s) = tail s

split_loop-contents :
    (max : ℕ) (s : Stream Bytes) (chunk buffer : Bytes)
    → split_loop max (next chunk s) buffer
      ≡ split_loop max (next (chunk ++ contents s) (tail s)) buffer
unfolding split_loop
split_loop-contents max done chunk buffer = rw (append-nil chunk)
split_loop-contents max (fails r) chunk buffer = rw (append-nil chunk)
split_loop-contents max (next c s) chunk buffer =
    drain-drain max (split_loop max s) c (length (buffer ++ chunk))
      (length ((buffer ++ chunk) ++ c)) (buffer ++ chunk) (omega arith) (omega arith)
    ∙ ap (λ b. drain max (split_loop max s) (length b) b) (append_assoc buffer chunk c)
    ∙ split_loop-contents max s (chunk ++ c) buffer
    ∙ ap (λ b. split_loop max (next b (tail s)) buffer) (append_assoc chunk c (contents s))

-- The envelopes that `transformSplitEnvelope` yields, and whether and how it throws, depend on the
-- bytes of the stream and its end alone: one chunk with all the bytes gives the same.
pub transform_split_envelope-contents :
    (max : ℕ) (s : Stream Bytes)
    → transform_split_envelope max s ≡ transform_split_envelope max (next (contents s) (tail s))
unfolding transform_split_envelope split_loop drain
transform_split_envelope-contents max done = refl
transform_split_envelope-contents max (fails r) = refl
transform_split_envelope-contents max (next c s) = split_loop-contents max s c []
