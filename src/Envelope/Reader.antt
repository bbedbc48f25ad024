-- ===== src/Envelope/Reader.antt =====
-- `createEnvelopeReadableStream` of packages/connect/src/protocol/envelope.ts: the reader of
-- envelopes that pulls chunks of bytes from a stream.
pub mod Laws
pub mod Defects
use connect_es.Prelude.{
  ℕ, zero, suc, ◌+◌, ◌-◌, Bool, false, ◌||◌, Option, none, some, [], ◌∷◌, ◌++◌, ltb, leb,
  if◌then◌else◌, length, take, drop,
}
use connect_es.Prelude.Text.{codes}
use connect_es.Code.{data_loss}
use connect_es.ConnectError.{Reason, connect_error, new_error}
use connect_es.Stream.{Stream, done, fails, next}
use connect_es.Envelope.{Bytes, EnvelopedMessage, get_be32}

-- `size` is the four bytes of the length as an unsigned number. The source computes the length with
-- `<<`, on signed 32-bit integers: it is `size` below 2^31, and `size - 2^32` from there on.
pub record Header : Type 0 where
  pub flags : ℕ
  pub size : ℕ

unfoldable pub peek_header : Bytes → Option Header
peek_header (f ∷ a ∷ b ∷ c ∷ d ∷ rest) = some (record { flags = f; size = get_be32 a b c d })
peek_header _ = none

-- `if (header === undefined && buffer.byteLength >= 5) …`
read_header : Option Header → Bytes → Option Header
unfolding peek_header
read_header none buffer = peek_header buffer
read_header (some h) buffer = some h

-- `header !== undefined && buffer.byteLength >= header.length + 5`
is_complete : Option Header → Bytes → Bool
is_complete none buffer = false
is_complete (some h) buffer = leb 0x80000000 h.size || leb (h.size + 5) (length buffer)

-- The index `5 + header.length` as `subarray` reads it: a negative one counts from the end.
end_index : ℕ → ℕ → ℕ
end_index size byte_length =
    if ltb size 0x80000000
    then size + 5
    else if leb 0x100000000 (size + 5)
    then size + 5 - 0x100000000
    else byte_length - (0x100000000 - (size + 5))

pub data Outcome : Type 0 where
  closed : Outcome
  errored : Reason → Outcome
  enqueued : EnvelopedMessage → Outcome

-- What a call of `pull` does with the controller, and the state that it leaves.
pub record Pulled : Type 0 where
  pub outcome : Outcome
  pub buffer : Bytes
  pub source : Stream Bytes

premature_end : Reason
premature_end = connect_error (new_error (codes "premature end of stream") data_loss [])

-- The part of `pull` behind its loop.
finish : Option Header → Bytes → Stream Bytes → Pulled
unfolding end_index premature_end
finish none [] source = record { outcome = closed; buffer = []; source = source }
finish none (b ∷ buffer) source = record {
  outcome = errored premature_end;
  buffer = b ∷ buffer;
  source = source;
}
finish (some h) buffer source =
    let end = end_index h.size (length buffer) in
    record {
      outcome = enqueued (record { flags = h.flags; payload = drop 5 (take end buffer) });
      buffer = drop end buffer;
      source = source;
    }

-- The loop of `pull`. A `read` of a stream that failed rejects, and so does `pull`.
pull_loop : Option Header → Bytes → Stream Bytes → Pulled
unfolding read_header is_complete finish
pull_loop header buffer done = finish (read_header header buffer) buffer done
pull_loop header buffer (fails r) =
    let header' = read_header header buffer in
    if is_complete header' buffer
    then finish header' buffer (fails r)
    else record { outcome = errored r; buffer = buffer; source = fails r }
pull_loop header buffer (next chunk source) =
    let header' = read_header header buffer in
    let more = pull_loop header' (buffer ++ chunk) source in
    if is_complete header' buffer then finish header' buffer (next chunk source) else more

-- `pull`
unfoldable pub pull : Bytes → Stream Bytes → Pulled
unfolding pull_loop
pull buffer source = pull_loop none buffer source

-- What the consumer of the controller's queue sees of an outcome, and of the pulls after it.
abbrev deliver : Outcome → Stream EnvelopedMessage → Stream EnvelopedMessage
deliver closed rest = done
deliver (errored r) rest = fails r
deliver (enqueued e) rest = next e rest

-- The messages that a consumer gets with at most so many pulls.
unfoldable pub read_messages : ℕ → Bytes → Stream Bytes → Stream EnvelopedMessage
read_messages zero buffer source = done
read_messages (suc n) buffer source =
    let rest = read_messages n (pull buffer source).buffer (pull buffer source).source in
    deliver (pull buffer source).outcome rest
