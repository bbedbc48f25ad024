-- ===== src/AsyncIterable/Envelopes/Ended.antt =====
-- The way of messages with a message for the end of the stream behind them, which
-- `transformCatchFinally` provides, as the Connect protocol pipes the transforms.
use connect_es.Prelude.{
  ℕ, ◌<◌, ◌≤◌, length, ◌≡◌, refl, sym, ap, ◌∙◌, true, false, Option, none, some, List, [], ◌∷◌, map,
  arith, All,
}
use connect_es.ConnectError.{Reason, Result, ok}
use connect_es.Compression.{Compression}
use connect_es.Stream.{Stream, done, next, of_list, contents}
use connect_es.Envelope.{Bytes, EnvelopedMessage, encode_envelope, has_flag, envelope_compress}
use connect_es.AsyncIterable.{for_await, transform_catch_finally}
use connect_es.AsyncIterable.Split.{transform_split_envelope, transform_join_envelopes}
use connect_es.AsyncIterable.Split.RoundTrip.{Fits, split-join_envelopes}
use connect_es.AsyncIterable.Envelopes.{
  Serialization, Parsed, message, end_stream, transform_serialize_envelope,
  transform_parse_envelope_end, transform_compress_envelope, transform_decompress_envelope,
}
use connect_es.AsyncIterable.Envelopes.Flags.{Inverts, envelope_decompress-envelope_compress}
use connect_es.AsyncIterable.Envelopes.Plain.{with_end, join-of_list, tail-of_list, plain, Passes}

-- Messages, and then the message for the end of the stream.
abbrev pub finished : {T E : Type 0} → List T → E → Stream (Parsed T E)
finished [] v = next (end_stream v) done
finished (m ∷ ms) v = next (message m) (finished ms v)

module _ {T : Type 0} (s q : Serialization T) (c : Option Compression) (compress_min_bytes max : ℕ)
    (inverts : Inverts c max) (last sent_last : EnvelopedMessage)
    (packed : envelope_compress last c compress_min_bytes ≡ ok sent_last)
    (last_fits : Fits max sent_last) where
  envelopes :
      (ms : List T) → All (Passes s q c compress_min_bytes max inverts) ms → List EnvelopedMessage
  envelopes [] h = sent_last ∷ []
  envelopes (m ∷ ms) (h, hs) = h.1 ∷ envelopes ms hs

  envelopes-Fits :
      (ms : List T) (h : All (Passes s q c compress_min_bytes max inverts) ms)
      → All (Fits max) (envelopes ms h)
  unfolding envelopes
  envelopes-Fits [] h = (last_fits, tt)
  envelopes-Fits (m ∷ ms) (h, hs) = (h.5, envelopes-Fits ms hs)

  -- The chunks that are sent.
  pub ended_chunks :
      (ms : List T) → All (Passes s q c compress_min_bytes max inverts) ms → List Bytes
  unfolding envelopes
  ended_chunks ms h = map (λ e. encode_envelope e.flags e.payload) (envelopes ms h)

  pub send_ended :
      (ms : List T) (r : Option Reason) (h : All (Passes s q c compress_min_bytes max inverts) ms)
      (f : Option Reason → Result (Option EnvelopedMessage))
      → f r ≡ ok (some last)
      → transform_join_envelopes (
          transform_compress_envelope c compress_min_bytes
            (transform_catch_finally f (transform_serialize_envelope s (with_end ms r))))
        ≡ of_list (ended_chunks ms h)
  unfolding ended_chunks for_await transform_join_envelopes transform_compress_envelope
      transform_serialize_envelope transform_catch_finally
  send_ended [] none h f e = rw (e, for_await, packed) refl
  send_ended [] (some r) h f e = rw (e, for_await, packed) refl
  send_ended (m ∷ ms) r ((payload, sent, ser, small, z, fits, parsed), hs) f e =
      rw (ser, for_await, z, for_await)
        (ap (next (encode_envelope sent.flags sent.payload)) (send_ended ms r hs f e))

  module _ {E : Type 0} (end_stream_flag : ℕ) (end_serialization : Serialization E) (v : E)
      (byte : last.flags < 256) (last_small : length last.payload ≤ max)
      (flagged : has_flag last.flags end_stream_flag ≡ true)
      (unflagged : has_flag 0 end_stream_flag ≡ false)
      (read : end_serialization.parse last.payload ≡ ok v) where
    parse_ended :
        (ms : List T) (h : All (Passes s q c compress_min_bytes max inverts) ms)
        → transform_parse_envelope_end q end_stream_flag end_serialization
            (transform_decompress_envelope c max (of_list (envelopes ms h)))
          ≡ finished ms v
    unfolding envelopes for_await transform_decompress_envelope transform_parse_envelope_end
    parse_ended [] h =
        let back =
          envelope_decompress-envelope_compress last sent_last c compress_min_bytes max byte
            last_small inverts packed in
        rw (back, for_await, flagged, read) refl
    parse_ended (m ∷ ms) ((payload, sent, e, small, z, fits, parsed), hs) =
        let back =
          envelope_decompress-envelope_compress (plain payload) sent c compress_min_bytes max
            (omega arith) small inverts z in
        rw (back, for_await, unflagged, parsed) (ap (next (message m)) (parse_ended ms hs))

    -- The other side parses the messages and the end from the chunks.
    pub receive_ended :
        (ms : List T) (h : All (Passes s q c compress_min_bytes max inverts) ms)
        → max < 0x100000000
        → transform_parse_envelope_end q end_stream_flag end_serialization (
            transform_decompress_envelope c max
              (transform_split_envelope max (of_list (ended_chunks ms h))))
          ≡ finished ms v
    unfolding ended_chunks
    receive_ended ms h limit =
        ap
          (λ s.
            transform_parse_envelope_end q end_stream_flag end_serialization
              (transform_decompress_envelope c max s))
          (split-join_envelopes max (envelopes ms h) (of_list (ended_chunks ms h)) limit
            (envelopes-Fits ms h) (ap contents (sym (join-of_list (envelopes ms h))))
            (tail-of_list (ended_chunks ms h)))
        ∙ parse_ended ms h
