-- ===== src/AsyncIterable/Envelopes/RoundTrip.antt =====
-- The whole way of a stream of messages: serialized, compressed and joined on one side, split,
-- decompressed and parsed on the other, as the transports and the handlers of the three protocols
-- pipe these transforms.
use connect_es.Prelude.{
  ℕ, ◌<◌, ◌≤◌, length, bit_or, ◌≡◌, refl, ap, ◌∙◌, true, false, ◌&&◌, ◌||◌, not, Option, List, [],
  ◌∷◌, arith, ltb, ◌==◌, all_below, all_below_sound, All,
}
use connect_es.ConnectError.{ok}
use connect_es.Compression.{Compression}
use connect_es.Stream.{Stream, done, next, of_list, contents}
use connect_es.Envelope.{Bytes, EnvelopedMessage, has_flag, envelope_compress}
use connect_es.AsyncIterable.{for_await}
use connect_es.AsyncIterable.Split.RoundTrip.{Fits, split-join_envelopes}
use connect_es.AsyncIterable.Envelopes.{
  Serialization, Parsed, message, end_stream, serialize_one, transform_serialize_envelope_end,
  parse_one, transform_parse_envelope_end, transform_compress_envelope,
  transform_decompress_envelope,
}
use connect_es.AsyncIterable.Envelopes.Flags.{Inverts, envelope_decompress-envelope_compress}
use connect_es.AsyncIterable.Split.{transform_split_envelope, transform_join_envelopes}
use connect_es.AsyncIterable.Split.Chunks.{tail}

-- Parsing what was serialized gives the value back.
abbrev pub IsFaithful : {T : Type 0} → Serialization T → Type 0
IsFaithful {T} s = (v : T) (b : Bytes) → s.serialize v ≡ ok b → s.parse b ≡ ok v

-- The flag for the end of the stream is a byte with a bit of its own.
abbrev pub IsEndFlag : ℕ → Type 0
IsEndFlag f = (0 < f) × (f < 256)

end_flag_table :
    all_below 256
      (λ f. f == 0 || not (has_flag 0 f) && (has_flag (bit_or 0 f) f && ltb (bit_or 0 f) 256))
    ≡ true
unfolding all_below
end_flag_table = refl

end_flag_facts :
    (f : ℕ)
    → IsEndFlag f
    → (has_flag 0 f ≡ false) × (has_flag (bit_or 0 f) f ≡ true) × (bit_or 0 f < 256)
end_flag_facts f (pos, byte) = ground (arith, all_below_sound 256 _ end_flag_table f byte)

module _ {T E : Type 0} (serialization : Serialization T) (end_stream_flag : ℕ)
    (end_serialization : Serialization E) (faithful : IsFaithful serialization)
    (end_faithful : IsFaithful end_serialization) (flag : IsEndFlag end_stream_flag) where
  -- A serialized message has flags below 256 and parses to itself.
  serialize_one_lem :
      (m : Parsed T E) (e : EnvelopedMessage)
      → serialize_one serialization end_stream_flag end_serialization m ≡ ok e
      → (e.flags < 256) × (parse_one serialization end_stream_flag end_serialization e ≡ ok m)
  unfolding serialize_one parse_one
  serialize_one_lem (message v) e h =
      ground (arith, end_flag_facts end_stream_flag flag, faithful v e.payload)
  serialize_one_lem (end_stream v) e h =
      ground (arith, end_flag_facts end_stream_flag flag, end_faithful v e.payload)

  module _ (c : Option Compression) (compress_min_bytes max : ℕ) (inverts : Inverts c max) where
    -- A message that is sent: its bytes are within the limit before and after compression.
    abbrev pub Sends : Parsed T E → Type 0
    Sends m =
        (plain sent : EnvelopedMessage) × (serialize_one serialization end_stream_flag
            end_serialization m
          ≡ ok plain)
        × (length plain.payload ≤ max)
        × (envelope_compress plain c compress_min_bytes ≡ ok sent)
        × Fits max sent

    envelopes : (ms : List (Parsed T E)) → All Sends ms → List EnvelopedMessage
    envelopes [] h = []
    envelopes (m ∷ ms) (h, hs) = h.1 ∷ envelopes ms hs

    envelopes-Fits : (ms : List (Parsed T E)) (h : All Sends ms) → All (Fits max) (envelopes ms h)
    unfolding envelopes
    envelopes-Fits [] h = tt
    envelopes-Fits (m ∷ ms) ((plain, sent, _, _, _, fits), hs) = (fits, envelopes-Fits ms hs)

    send :
        (ms : List (Parsed T E)) (h : All Sends ms)
        → transform_compress_envelope c compress_min_bytes (
            transform_serialize_envelope_end serialization end_stream_flag end_serialization
              (of_list ms))
          ≡ of_list (envelopes ms h)
    unfolding envelopes for_await transform_compress_envelope transform_serialize_envelope_end
    send [] h = refl
    send (m ∷ ms) ((plain, sent, s, _, z, _), hs) =
        rw (s, for_await, z, for_await) (ap (next sent) (send ms hs))

    receive :
        (ms : List (Parsed T E)) (h : All Sends ms)
        → transform_parse_envelope_end serialization end_stream_flag end_serialization
            (transform_decompress_envelope c max (of_list (envelopes ms h)))
          ≡ of_list ms
    unfolding envelopes for_await transform_decompress_envelope transform_parse_envelope_end
    receive [] h = refl
    receive (m ∷ ms) ((plain, sent, s, small, z, _), hs) =
        let (byte, parsed) = serialize_one_lem m plain s in
        let back =
          envelope_decompress-envelope_compress plain sent c compress_min_bytes max byte small
            inverts z in
        rw (back, for_await, parsed, for_await) (ap (next m) (receive ms hs))

    -- What a peer receives is what was sent. Messages that are serialized, compressed and joined
    -- to bytes, and that are split, decompressed and parsed from chunks of the same bytes, come out
    -- as they went in, the message for the end of the stream included: if parsing inverts
    -- serializing, decompressing inverts compressing for data within the read limit, the end flag is
    -- a byte above 0, the payload of each message is within that limit before and after compression,
    -- the limit is below 2^32, and the stream of chunks ends without an error.
    pub messages_round_trip :
        (ms : List (Parsed T E)) (chunks : Stream Bytes)
        → max < 0x100000000
        → All Sends ms
        → contents chunks
          ≡ contents (
              transform_join_envelopes (
                transform_compress_envelope c compress_min_bytes (
                  transform_serialize_envelope_end serialization end_stream_flag end_serialization
                    (of_list ms))))
        → tail chunks ≡ done
        → transform_parse_envelope_end serialization end_stream_flag end_serialization
            (transform_decompress_envelope c max (transform_split_envelope max chunks))
          ≡ of_list ms
    messages_round_trip ms chunks limit h bytes ends =
        ap
          (λ s.
            transform_parse_envelope_end serialization end_stream_flag end_serialization
              (transform_decompress_envelope c max s))
          (split-join_envelopes max (envelopes ms h) chunks limit (envelopes-Fits ms h)
            (bytes ∙ ap (λ s. contents (transform_join_envelopes s)) (send ms h)) ends)
        ∙ receive ms h
