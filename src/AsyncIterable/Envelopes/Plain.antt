-- ===== src/AsyncIterable/Envelopes/Plain.antt =====
-- The way of messages without a message for the end of the stream, as the handlers and gRPC pipe the
-- transforms, with the limits of two sides.
use connect_es.Prelude.{
  ℕ, ◌<◌, ◌≤◌, length, ◌≡◌, refl, sym, ap, ◌∙◌, false, Option, none, some, List, [], ◌∷◌, map,
  arith, All,
}
use connect_es.ConnectError.{Reason, Result, ok}
use connect_es.Compression.{Compression}
use connect_es.Stream.{Stream, done, fails, next, of_list, ending, contents}
use connect_es.Envelope.{Bytes, EnvelopedMessage, encode_envelope, envelope_compress}
use connect_es.AsyncIterable.{for_await, transform_catch_finally, until_first}
use connect_es.AsyncIterable.Split.{transform_split_envelope, transform_join_envelopes}
use connect_es.AsyncIterable.Split.Chunks.{tail}
use connect_es.AsyncIterable.Split.RoundTrip.{Fits, split-join_envelopes}
use connect_es.AsyncIterable.Envelopes.{
  Serialization, undefined, transform_serialize_envelope, is_end, transform_parse_envelope,
  transform_compress_envelope, transform_decompress_envelope,
}
use connect_es.AsyncIterable.Envelopes.Flags.{Inverts, envelope_decompress-envelope_compress}

-- Values, and then an end or an error.
abbrev pub with_end {ℓ} : {A : Type ℓ} → List A → Option Reason → Stream A
with_end [] none = done
with_end [] (some r) = fails r
with_end (a ∷ rest) r = next a (with_end rest r)

pub with_end-none {ℓ} : {A : Type ℓ} (xs : List A) → with_end xs none ≡ of_list xs
with_end-none [] = refl
with_end-none (x ∷ xs) = ap (next x) (with_end-none xs)

pub ending-with_end {ℓ} :
    {A : Type ℓ} (xs : List A) (r : Option Reason) → ending (with_end xs r) ≡ r
ending-with_end [] none = refl
ending-with_end [] (some r) = refl
ending-with_end (x ∷ xs) r = ending-with_end xs r

-- A callback that gives nothing ends the stream after its values.
pub transform_catch_finally-with_end {ℓ} :
    {A : Type ℓ} (xs : List A) (r : Option Reason) (f : Option Reason → Result (Option A))
    → f r ≡ ok none
    → transform_catch_finally f (with_end xs r) ≡ of_list xs
unfolding transform_catch_finally
transform_catch_finally-with_end [] none f e = rw e refl
transform_catch_finally-with_end [] (some r) f e = rw e refl
transform_catch_finally-with_end (x ∷ xs) r f e =
    ap (next x) (transform_catch_finally-with_end xs r f e)

pub until_first-of_list {ℓ} :
    {A : Type ℓ} (xs : List A) → until_first (of_list xs) ≡ ok (of_list xs)
unfolding until_first
until_first-of_list [] = refl
until_first-of_list (x ∷ xs) = refl

pub join-of_list :
    (es : List EnvelopedMessage)
    → transform_join_envelopes (of_list es)
      ≡ of_list (map (λ e. encode_envelope e.flags e.payload) es)
unfolding transform_join_envelopes for_await
join-of_list [] = refl
join-of_list (e ∷ es) = ap (next (encode_envelope e.flags e.payload)) (join-of_list es)

pub tail-of_list : (xs : List Bytes) → tail (of_list xs) ≡ done
tail-of_list [] = refl
tail-of_list (x ∷ xs) = tail-of_list xs

abbrev pub plain : Bytes → EnvelopedMessage
plain payload = record { flags = 0; payload = payload }

module _ {T : Type 0} (s q : Serialization T) (c : Option Compression) (compress_min_bytes max : ℕ)
    (inverts : Inverts c max) where
  -- A message that is sent: its bytes are within the limit before and after compression, and the other
  -- side parses them.
  abbrev pub Passes : T → Type 0
  Passes m =
      (payload : Bytes) × (sent : EnvelopedMessage) × (s.serialize m ≡ ok payload)
      × (length payload ≤ max)
      × (envelope_compress (plain payload) c compress_min_bytes ≡ ok sent)
      × Fits max sent
      × (q.parse payload ≡ ok m)

  passed : (ms : List T) → All Passes ms → List EnvelopedMessage
  passed [] h = []
  passed (m ∷ ms) (h, hs) = h.1 ∷ passed ms hs

  passed-Fits : (ms : List T) (h : All Passes ms) → All (Fits max) (passed ms h)
  unfolding passed
  passed-Fits [] h = tt
  passed-Fits (m ∷ ms) (h, hs) = (h.5, passed-Fits ms hs)

  -- The chunks that are sent.
  pub chunks : (ms : List T) → All Passes ms → List Bytes
  unfolding passed
  chunks ms h = map (λ e. encode_envelope e.flags e.payload) (passed ms h)

  pub send_plain :
      (ms : List T) (r : Option Reason) (h : All Passes ms)
      → transform_join_envelopes (
          transform_compress_envelope c compress_min_bytes
            (transform_serialize_envelope s (with_end ms r)))
        ≡ with_end (chunks ms h) r
  unfolding chunks for_await transform_join_envelopes transform_compress_envelope
      transform_serialize_envelope
  send_plain [] none h = refl
  send_plain [] (some r) h = refl
  send_plain (m ∷ ms) r ((payload, sent, e, small, z, fits, parsed), hs) =
      rw (e, for_await, z, for_await)
        (ap (next (encode_envelope sent.flags sent.payload)) (send_plain ms r hs))

  parse_passed :
      (end_stream_flag : Option ℕ) (ms : List T) (h : All Passes ms)
      → is_end q 0 end_stream_flag ≡ false
      → transform_parse_envelope q end_stream_flag undefined
          (transform_decompress_envelope c max (of_list (passed ms h)))
        ≡ of_list ms
  unfolding passed for_await transform_decompress_envelope transform_parse_envelope
  parse_passed f [] h plain_flags = refl
  parse_passed f (m ∷ ms) ((payload, sent, e, small, z, fits, parsed), hs) plain_flags =
      let back =
        envelope_decompress-envelope_compress (plain payload) sent c compress_min_bytes max
          (omega arith) small inverts z in
      rw (back, for_await, plain_flags, parsed) (ap (next m) (parse_passed f ms hs plain_flags))

  -- The other side parses the messages from the chunks.
  pub receive_plain :
      (end_stream_flag : Option ℕ) (ms : List T) (h : All Passes ms)
      → is_end q 0 end_stream_flag ≡ false
      → max < 0x100000000
      → transform_parse_envelope q end_stream_flag undefined (
          transform_decompress_envelope c max
            (transform_split_envelope max (of_list (chunks ms h))))
        ≡ of_list ms
  unfolding chunks
  receive_plain f ms h plain_flags limit =
      ap (λ s. transform_parse_envelope q f undefined (transform_decompress_envelope c max s))
        (split-join_envelopes max (passed ms h) (of_list (chunks ms h)) limit (passed-Fits ms h)
          (ap contents (sym (join-of_list (passed ms h)))) (tail-of_list (chunks ms h)))
      ∙ parse_passed f ms h plain_flags
