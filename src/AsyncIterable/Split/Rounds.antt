-- ===== src/AsyncIterable/Split/Rounds.antt =====
-- What a round of the inner loop of `transformSplitEnvelope` does, and the fuel of that loop.
use connect_es.Prelude.{
  ℕ, zero, suc, ◌+◌, ◌≤◌, ◌<◌, ◌≡◌, refl, sym, ap, ◌∙◌, subst, inl, inr, true, false, Option, none,
  some, [], ◌∷◌, ◌++◌, append-nil, arith, ltb, lt→ltb, Option-cases, le_or_lt, length,
  length-append, take, drop, length-drop, take-append_left, drop-append_left,
}
use connect_es.ConnectError.{Reason, Result-cases}
use connect_es.Stream.{Stream, fails, next}
use connect_es.Limits.{assert_read_max_bytes}
use connect_es.Envelope.{Bytes, EnvelopedMessage}
use connect_es.Envelope.Reader.{Header, peek_header}
use connect_es.Envelope.Reader.Laws.{peek_header-append}
use connect_es.AsyncIterable.Split.{shift_envelope, round, drain, peeked}

pub round-eq :
    (max : ℕ) (again break : Bytes → Stream EnvelopedMessage) (buffer : Bytes) (o : Option Header)
    → peek_header buffer ≡ o
    → round max again break buffer ≡ peeked max again break buffer o
unfolding round
round-eq max again break buffer o e = rw e

-- What a round does at a buffer, and still does when more bytes follow.
pub data View (max : ℕ) (buffer : Bytes) : Type 0 where
  waits :
      ((again break : Bytes → Stream EnvelopedMessage)
        → round max again break buffer ≡ break buffer)
      → View max buffer
  stops :
      (r : Reason)
      → 0 < length buffer
      → ((again break : Bytes → Stream EnvelopedMessage) (more : Bytes)
          → round max again break (buffer ++ more) ≡ fails r)
      → View max buffer
  emits :
      (e : EnvelopedMessage) (rest : Bytes)
      → length rest < length buffer
      → ((again break : Bytes → Stream EnvelopedMessage) (more : Bytes)
          → round max again break (buffer ++ more) ≡ next e (again (rest ++ more)))
      → View max buffer

peek_header-long : (buffer : Bytes) (h : Header) → peek_header buffer ≡ some h → 5 ≤ length buffer
unfolding peek_header
peek_header-long [] h e = cc
peek_header-long (a ∷ []) h e = cc
peek_header-long (a ∷ b ∷ []) h e = cc
peek_header-long (a ∷ b ∷ c ∷ []) h e = cc
peek_header-long (a ∷ b ∷ c ∷ d ∷ []) h e = cc
peek_header-long (a ∷ b ∷ c ∷ d ∷ f ∷ buffer) h e = omega arith

shift_envelope-whole :
    (buffer more : Bytes) (h : Header)
    → 5 + h.size ≤ length buffer
    → shift_envelope (buffer ++ more) h ≡ (
      some (record { flags = h.flags; payload = drop 5 (take (5 + h.size) buffer) }),
      drop (5 + h.size) buffer ++ more,
    )
unfolding shift_envelope
shift_envelope-whole buffer more h whole =
    let enough : ltb (length (buffer ++ more)) (5 + h.size) ≡ false =
      ground (arith, length-append buffer more) in
    rw (
      enough,
      take-append_left (5 + h.size) buffer more whole,
      drop-append_left (5 + h.size) buffer more whole,
    )

pub shift_envelope-cut :
    (buffer : Bytes) (h : Header)
    → length buffer < 5 + h.size
    → shift_envelope buffer h ≡ (none, buffer)
unfolding shift_envelope
shift_envelope-cut buffer h cut = rw (lt→ltb _ _ cut)

pub view : (max : ℕ) (buffer : Bytes) → View max buffer
view max buffer = elim (Option-cases (peek_header buffer)) [
  | inl short ↦ waits (λ again break. round-eq max again break buffer none short)
  | inr (h, found) ↦ elim (Result-cases (assert_read_max_bytes max h.size true)) [
    | inr (r, big) ↦ stops r (omega (arith, peek_header-long buffer h found)) (λ again break more.
        round-eq max again break (buffer ++ more) (some h) (peek_header-append buffer more h found)
        ∙ rw big)
    | inl (_, small) ↦ elim (le_or_lt (5 + h.size) (length buffer)) [
      | inr cut ↦ waits (λ again break.
          round-eq max again break buffer (some h) found
          ∙ rw (small, shift_envelope-cut buffer h cut))
      | inl whole ↦
          emits (record { flags = h.flags; payload = drop 5 (take (5 + h.size) buffer) })
            (drop (5 + h.size) buffer)
            (omega (arith, length-drop (5 + h.size) buffer, peek_header-long buffer h found))
            (λ again break more.
              round-eq max again break (buffer ++ more) (some h)
                (peek_header-append buffer more h found)
              ∙ rw (small, shift_envelope-whole buffer more h whole))
    ]
  ]
]

-- The same at the buffer itself.
pub stops_here :
    (max : ℕ) (buffer : Bytes) (r : Reason) (again break : Bytes → Stream EnvelopedMessage)
    → ((more : Bytes) → round max again break (buffer ++ more) ≡ fails r)
    → round max again break buffer ≡ fails r
stops_here max buffer r again break h =
    subst (λ b. round max again break b ≡ fails r) (append-nil buffer) (h [])

pub emits_here :
    (max : ℕ) (buffer rest : Bytes) (e : EnvelopedMessage)
    (again break : Bytes → Stream EnvelopedMessage)
    → ((more : Bytes) → round max again break (buffer ++ more) ≡ next e (again (rest ++ more)))
    → round max again break buffer ≡ next e (again rest)
emits_here max buffer rest e again break h =
    subst (λ b. round max again break b ≡ next e (again rest)) (append-nil buffer)
      (h [] ∙ ap (λ b. next e (again b)) (append-nil rest))

drain-nil :
    (max : ℕ) (break : Bytes → Stream EnvelopedMessage) (f : ℕ) → drain max break f [] ≡ break []
unfolding drain
drain-nil max break zero = refl
drain-nil max break (suc f) = refl

-- Any fuel from the length of the buffer on gives the same.
pub drain_fuel :
    (max : ℕ) (break : Bytes → Stream EnvelopedMessage) (f g : ℕ) (buffer : Bytes)
    → length buffer ≤ f
    → length buffer ≤ g
    → drain max break f buffer ≡ drain max break g buffer
unfolding drain
drain_fuel max break zero g [] p q = sym (drain-nil max break g)
drain_fuel max break zero g (b ∷ buffer) p q = absurd (omega arith)
drain_fuel max break (suc f) zero [] p q = drain-nil max break (suc f)
drain_fuel max break (suc f) zero (b ∷ buffer) p q = absurd (omega arith)
drain_fuel max break (suc f) (suc g) buffer p q = elim (view max buffer) [
  | waits w ↦ w (drain max break f) break ∙ sym (w (drain max break g) break)
  | stops r long s ↦
      stops_here max buffer r (drain max break f) break (s (drain max break f) break)
      ∙ sym (stops_here max buffer r (drain max break g) break (s (drain max break g) break))
  | emits e rest short t ↦
      emits_here max buffer rest e (drain max break f) break (t (drain max break f) break)
      ∙ ap (next e) (drain_fuel max break f g rest (omega arith) (omega arith))
      ∙ sym (emits_here max buffer rest e (drain max break g) break (t (drain max break g) break))
]
