-- ===== src/AsyncIterable/Envelopes.antt =====
-- The transforms of packages/connect/src/protocol/async-iterable.ts between messages and envelopes.
pub mod Flags
pub mod RoundTrip
pub mod Plain
pub mod Ended
use connect_es.Prelude.{ℕ, bit_or, Bool, false, Option, none, some, [], if◌then◌else◌}
use connect_es.Prelude.Text.{codes}
use connect_es.Code.{invalid_argument}
use connect_es.ConnectError.{connect_error, new_error, Result, ok, err, map_result, ◌>>=◌}
use connect_es.Compression.{Compression}
use connect_es.Stream.{Stream, done, fails, next}
use connect_es.Envelope.{Bytes, EnvelopedMessage, has_flag, envelope_compress, envelope_decompress}
use connect_es.AsyncIterable.{for_await}

-- The interface `Serialization` of packages/connect/src/protocol/serialization.ts.
pub record Serialization (T : Type 0) : Type 0 where
  pub serialize : T → Result Bytes
  pub parse : Bytes → Result T

-- `ParsedEnvelopedMessage`, by its field `end`.
pub data Parsed (T E : Type 0) : Type 0 where
  message : T → Parsed T E
  end_stream : E → Parsed T E

-- `endSerialization` of `transformParseEnvelope` where it is no serialization.
pub data NoEnd : Type 0 where
  undefined null : NoEnd

module _ {T : Type 0} (serialization : Serialization T) where
  -- `transformSerializeEnvelope` without a serialization for the end of the stream.
  unfoldable pub transform_serialize_envelope : Stream T → Stream EnvelopedMessage
  unfolding for_await
  transform_serialize_envelope = for_await λ chunk.
      map_result (λ payload. record { flags = 0; payload = payload })
        (serialization.serialize chunk)

  -- The tests of `transformParseEnvelope` on the flags, where it yields plain messages.
  abbrev pub is_end : ℕ → Option ℕ → Bool
  is_end flags none = false
  is_end flags (some end_stream_flag) = has_flag flags end_stream_flag

  -- `transformParseEnvelope` without a serialization for the end of the stream.
  unfoldable pub transform_parse_envelope : Option ℕ → NoEnd → Stream EnvelopedMessage → Stream T
  transform_parse_envelope end_stream_flag no_end done = done
  transform_parse_envelope end_stream_flag no_end (fails r) = fails r
  transform_parse_envelope end_stream_flag no_end (next e s) =
      let rest = transform_parse_envelope end_stream_flag no_end s in
      if is_end e.flags end_stream_flag
      then elim no_end [
        | null ↦ fails (connect_error (new_error (codes "unexpected end flag") invalid_argument []))
        | undefined ↦ rest
      ]
      else elim (serialization.parse e.payload) [ ok v ↦ next v rest | err r ↦ fails r ]

module _ {T E : Type 0} (serialization : Serialization T) (end_stream_flag : ℕ)
    (end_serialization : Serialization E) where
  unfoldable pub serialize_one : Parsed T E → Result EnvelopedMessage
  serialize_one (message v) =
      map_result (λ payload. record { flags = 0; payload = payload }) (serialization.serialize v)
  serialize_one (end_stream v) = end_serialization.serialize v >>= λ payload.
      ok (record { flags = bit_or 0 end_stream_flag; payload = payload })

  -- `transformSerializeEnvelope` with a serialization for the end of the stream.
  unfoldable pub transform_serialize_envelope_end : Stream (Parsed T E) → Stream EnvelopedMessage
  unfolding for_await serialize_one
  transform_serialize_envelope_end = for_await serialize_one

  unfoldable pub parse_one : EnvelopedMessage → Result (Parsed T E)
  parse_one e =
      if has_flag e.flags end_stream_flag
      then map_result end_stream (end_serialization.parse e.payload)
      else map_result message (serialization.parse e.payload)

  -- `transformParseEnvelope` with a serialization for the end of the stream.
  unfoldable pub transform_parse_envelope_end : Stream EnvelopedMessage → Stream (Parsed T E)
  unfolding for_await parse_one
  transform_parse_envelope_end = for_await parse_one

-- `transformCompressEnvelope`
unfoldable pub transform_compress_envelope :
    Option Compression → ℕ → Stream EnvelopedMessage → Stream EnvelopedMessage
unfolding for_await envelope_compress
transform_compress_envelope compression compress_min_bytes =
    for_await λ e. envelope_compress e compression compress_min_bytes

-- `transformDecompressEnvelope`
unfoldable pub transform_decompress_envelope :
    Option Compression → ℕ → Stream EnvelopedMessage → Stream EnvelopedMessage
unfolding for_await envelope_decompress
transform_decompress_envelope compression read_max_bytes =
    for_await λ e. envelope_decompress e compression read_max_bytes
