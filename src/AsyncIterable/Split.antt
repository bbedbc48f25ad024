-- ===== src/AsyncIterable/Split.antt =====
-- `transformSplitEnvelope` and `transformJoinEnvelopes` of
-- packages/connect/src/protocol/async-iterable.ts.
pub mod Rounds
pub mod Chunks
pub mod RoundTrip
pub mod Errors
use connect_es.Prelude.{
  ℕ, zero, suc, ◌+◌, ◌-◌, true, Option, none, some, [], ◌∷◌, ◌++◌, ltb, if◌then◌else◌, length, take,
  drop,
}
use connect_es.Prelude.Text.{Text, codes, show_nat}
use connect_es.Code.{invalid_argument}
use connect_es.ConnectError.{connect_error, new_error, Result, ok, err}
use connect_es.Stream.{Stream, done, fails, next}
use connect_es.Limits.{assert_read_max_bytes}
use connect_es.Envelope.{Bytes, EnvelopedMessage, encode_envelope}
use connect_es.Envelope.Reader.{Header, peek_header}
use connect_es.AsyncIterable.{for_await}

-- `shiftEnvelope`: the envelope, if the buffer holds it whole, and the remainder of the buffer.
pub shift_envelope : Bytes → Header → Option EnvelopedMessage × Bytes
shift_envelope buffer header = if ltb (length buffer) (5 + header.size) then (none, buffer) else (
  some (record { flags = header.flags; payload = drop 5 (take (5 + header.size) buffer) }),
  drop (5 + header.size) buffer,
)

end_message : Bytes → Option Header → Text
end_message buffer none = codes "protocol error: incomplete envelope"
end_message buffer (some header) =
    codes "protocol error: promised "
    ++ (show_nat header.size
        ++ (codes " bytes in enveloped message, got "
            ++ (show_nat (length buffer - 5) ++ codes " bytes")))

-- The part behind the loop over the chunks.
pub finish : Bytes → Stream EnvelopedMessage
unfolding peek_header end_message
finish [] = done
finish (b ∷ buffer) =
    let message = end_message (b ∷ buffer) (peek_header (b ∷ buffer)) in
    fails (connect_error (new_error message invalid_argument []))

-- What the inner loop does with the result of `shiftEnvelope`.
abbrev emit :
    (Bytes → Stream EnvelopedMessage)
    → (Bytes → Stream EnvelopedMessage)
    → Option EnvelopedMessage × Bytes
    → Stream EnvelopedMessage
emit again break (none, buffer) = break buffer
emit again break (some e, buffer) = next e (again buffer)

-- The rest of a round once the header has been held against the limit.
abbrev allowed :
    (Bytes → Stream EnvelopedMessage)
    → (Bytes → Stream EnvelopedMessage)
    → Result (Unit {0})
    → Option EnvelopedMessage × Bytes
    → Stream EnvelopedMessage
allowed again break (err r) shifted = fails r
allowed again break (ok _) shifted = emit again break shifted

-- The rest of a round once the header has been looked for.
abbrev peeked :
    ℕ
    → (Bytes → Stream EnvelopedMessage)
    → (Bytes → Stream EnvelopedMessage)
    → Bytes
    → Option Header
    → Stream EnvelopedMessage
peeked read_max_bytes again break buffer none = break buffer
peeked read_max_bytes again break buffer (some header) =
    allowed again break (assert_read_max_bytes read_max_bytes header.size true)
      (shift_envelope buffer header)

-- One round of the inner loop: `again` is the next round, `break` what follows the loop.
pub round :
    ℕ
    → (Bytes → Stream EnvelopedMessage)
    → (Bytes → Stream EnvelopedMessage)
    → Bytes
    → Stream EnvelopedMessage
unfolding peek_header shift_envelope assert_read_max_bytes
round read_max_bytes again break buffer =
    peeked read_max_bytes again break buffer (peek_header buffer)

-- The inner loop, with fuel: each round but the last takes five bytes or more off the buffer, so
-- the length of the buffer is enough.
pub drain : ℕ → (Bytes → Stream EnvelopedMessage) → ℕ → Bytes → Stream EnvelopedMessage
unfolding round
drain read_max_bytes break zero buffer = break buffer
drain read_max_bytes break (suc fuel) buffer =
    round read_max_bytes (drain read_max_bytes break fuel) break buffer

-- The loop over the chunks.
split_loop : ℕ → Stream Bytes → Bytes → Stream EnvelopedMessage
unfolding drain finish
split_loop read_max_bytes done buffer = finish buffer
split_loop read_max_bytes (fails r) buffer = fails r
split_loop read_max_bytes (next chunk s) buffer =
    let joined = buffer ++ chunk in
    drain read_max_bytes (split_loop read_max_bytes s) (length joined) joined

-- `transformSplitEnvelope`
unfoldable pub transform_split_envelope : ℕ → Stream Bytes → Stream EnvelopedMessage
unfolding split_loop
transform_split_envelope read_max_bytes s = split_loop read_max_bytes s []

-- `transformJoinEnvelopes`
unfoldable pub transform_join_envelopes : Stream EnvelopedMessage → Stream Bytes
unfolding for_await encode_envelope
transform_join_envelopes = for_await λ e. ok (encode_envelope e.flags e.payload)
