-- ===== src/Envelope.antt =====
-- packages/connect/src/protocol/envelope.ts: the envelopes that carry the messages of a stream.
-- Bytes are numbers below 256.
pub mod Encode
pub mod Reader
use connect_es.Prelude.{
  ℕ, zero, suc, ◌+◌, ◌*◌, ◌/◌, ◌%◌, bit_and, bit_or, bit_xor, Bool, Option, none, some, List, [],
  ◌∷◌, ◌++◌, leb, ◌==◌, if◌then◌else◌, length, take, drop,
}
use connect_es.Prelude.Text.{codes}
use connect_es.Code.{invalid_argument, internal}
use connect_es.ConnectError.{Result, ok, ◌>>=◌, raise}
use connect_es.Compression.{compressed_flag, Compression}

abbrev pub Bytes : Type 0
Bytes = List ℕ

-- `data` of the source is `payload`.
pub record EnvelopedMessage : Type 0 where
  pub flags : ℕ
  pub payload : Bytes

-- `DataView.setUint32`, most significant byte first; the value is taken modulo 2^32.
abbrev pub be32 : ℕ → Bytes
be32 n = n / 0x1000000 % 256 ∷ n / 0x10000 % 256 ∷ n / 0x100 % 256 ∷ n % 256 ∷ []

-- `DataView.getUint32`
abbrev pub get_be32 : ℕ → ℕ → ℕ → ℕ → ℕ
get_be32 a b c d = ((a * 256 + b) * 256 + c) * 256 + d

-- `bytes.set(source, offset)`, within bounds.
abbrev pub set_bytes : Bytes → ℕ → Bytes → Bytes
set_bytes source offset bytes = take offset bytes ++ (source ++ drop (offset + length source) bytes)

abbrev pub zeroes : ℕ → Bytes
zeroes zero = []
zeroes (suc n) = 0 ∷ zeroes n

-- `encodeEnvelope`
unfoldable pub encode_envelope : ℕ → Bytes → Bytes
encode_envelope flags payload =
    let bytes = zeroes (length payload + 5) in
    let bytes = set_bytes payload 5 bytes in
    let bytes = set_bytes (flags % 256 ∷ []) 0 bytes in set_bytes (be32 (length payload)) 1 bytes

-- The loop of `encodeEnvelopes`.
encode_loop : List EnvelopedMessage → ℕ → Bytes → Bytes
encode_loop [] offset bytes = bytes
encode_loop (e ∷ es) offset bytes =
    let bytes = set_bytes (e.flags % 256 ∷ []) offset bytes in
    let bytes = set_bytes (be32 (length e.payload)) (offset + 1) bytes in
    let bytes = set_bytes e.payload (offset + 5) bytes in
    encode_loop es (offset + (length e.payload + 5)) bytes

-- `envelopes.reduce(…, 0)`
encoded_length : ℕ → List EnvelopedMessage → ℕ
encoded_length previous [] = previous
encoded_length previous (e ∷ es) = encoded_length (previous + length e.payload + 5) es

-- `encodeEnvelopes`
unfoldable pub encode_envelopes : List EnvelopedMessage → Bytes
unfolding encode_loop encoded_length
encode_envelopes es = encode_loop es 0 (zeroes (encoded_length 0 es))

-- `(flags & flag) === flag`
abbrev pub has_flag : ℕ → ℕ → Bool
has_flag flags flag = bit_and flags flag == flag

-- `envelopeCompress`; a `null` compression is `none`.
unfoldable pub envelope_compress :
    EnvelopedMessage → Option Compression → ℕ → Result EnvelopedMessage
envelope_compress e compression compress_min_bytes =
    if has_flag e.flags compressed_flag
    then raise (codes "invalid envelope, already compressed") internal
    else elim compression [
      | none ↦ ok e
      | some c ↦
          if leb compress_min_bytes (length e.payload)
          then (c.compress e.payload >>= λ payload.
              ok (record { flags = bit_or e.flags compressed_flag; payload = payload }))
          else ok e
    ]

-- `envelopeDecompress`
unfoldable pub envelope_decompress :
    EnvelopedMessage → Option Compression → ℕ → Result EnvelopedMessage
envelope_decompress e compression read_max_bytes =
    if has_flag e.flags compressed_flag
    then elim compression [
      | none ↦
          raise (codes "received compressed envelope, but do not know how to decompress")
            invalid_argument
      | some c ↦
          (c.decompress e.payload read_max_bytes >>= λ payload.
          ok (record { flags = bit_xor e.flags compressed_flag; payload = payload }))
    ]
    else ok e
