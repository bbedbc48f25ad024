-- ===== src/AsyncIterable/Envelopes/Flags.antt =====
-- Compressing an envelope and decompressing it again.
use connect_es.Prelude.{
  ℕ, ◌<◌, ◌≤◌, length, bit_or, bit_xor, ◌≡◌, refl, true, false, ◌&&◌, ◌||◌, Option, none, some,
  arith, ltb, ◌==◌, all_below, all_below_sound,
}
use connect_es.ConnectError.{ok, raise}
use connect_es.Compression.{Compression}
use connect_es.Envelope.{Bytes, EnvelopedMessage, has_flag, envelope_compress, envelope_decompress}

-- The facts about the flags of an envelope that is not compressed, checked for each byte.
flags_table :
    all_below 256 (λ f.
      has_flag f 1
      || has_flag (bit_or f 1) 1 && (bit_xor (bit_or f 1) 1 == f && ltb (bit_or f 1) 256))
    ≡ true
unfolding all_below
flags_table = refl

pub compressed_flags :
    (f : ℕ)
    → f < 256
    → has_flag f 1 ≡ false
    → (has_flag (bit_or f 1) 1 ≡ true) × (bit_xor (bit_or f 1) 1 ≡ f) × (bit_or f 1 < 256)
compressed_flags f byte plain = ground (arith, all_below_sound 256 _ flags_table f byte)

-- What decompression owes to compression: data within the limit is given back. Larger data is refused,
-- as the interface says, so nothing is asked of it.
abbrev pub Inverts : Option Compression → ℕ → Type 0
Inverts none max = Unit {0}
Inverts (some c) max =
    (data' z : Bytes) → length data' ≤ max → c.compress data' ≡ ok z → c.decompress z max ≡ ok data'

-- Decompressing what `envelopeCompress` returns gives the envelope back: if its flags are a byte
-- and its payload is within the limit, up to which the compression, if there is one, decompresses what
-- it has compressed.
pub envelope_decompress-envelope_compress :
    (e e' : EnvelopedMessage) (c : Option Compression) (compress_min_bytes max : ℕ)
    → e.flags < 256
    → length e.payload ≤ max
    → Inverts c max
    → envelope_compress e c compress_min_bytes ≡ ok e'
    → envelope_decompress e' c max ≡ ok e
unfolding envelope_compress envelope_decompress raise
envelope_decompress-envelope_compress e e' none min max byte small inv h = ground arith
envelope_decompress-envelope_compress e e' (some c) min max byte small inv h =
    ground (arith, compressed_flags e.flags byte, inv e.payload e'.payload)
