-- ===== src/Envelope/Encode.antt =====
-- What `encodeEnvelope` and `encodeEnvelopes` write.
use connect_es.Prelude.{
  ℕ, zero, suc, ◌+◌, ◌%◌, ◌≡◌, refl, sym, ap, ◌∙◌, ◌≡⟨◌⟩◌, ◌∎, List, [], ◌∷◌, ◌++◌, append-nil,
  append_assoc, arith, length, length-append, drop, take-append_self, drop-append_self,
}
use native.Mathlib.Nat.{zero-add}
use connect_es.Envelope.{
  Bytes, EnvelopedMessage, be32, set_bytes, zeroes, encode_envelope, encode_envelopes, encode_loop,
  encoded_length,
}

-- An envelope on the wire: the flags, four bytes of length, the payload.
abbrev pub wire : EnvelopedMessage → Bytes
wire e = e.flags % 256 ∷ (be32 (length e.payload) ++ e.payload)

abbrev pub wires : List EnvelopedMessage → Bytes
wires [] = []
wires (e ∷ es) = wire e ++ wires es

pub length-zeroes : (n : ℕ) → length (zeroes n) ≡ n
length-zeroes zero = refl
length-zeroes (suc n) = ap suc (length-zeroes n)

pub zeroes-add : (n m : ℕ) → zeroes (n + m) ≡ zeroes n ++ zeroes m
zeroes-add zero m = rw zero-add
zeroes-add (suc n) m =
    let e : suc n + m ≡ suc (n + m) = omega arith in rw e (ap (◌∷◌ 0) (zeroes-add n m))

drop-append_add : (pre xs : Bytes) (n : ℕ) → drop (length pre + n) (pre ++ xs) ≡ drop n xs
drop-append_add [] xs n = rw zero-add
drop-append_add (x ∷ pre) xs n =
    let e : suc (length pre) + n ≡ suc (length pre + n) = omega arith in
    rw e (drop-append_add pre xs n)

-- Writing over the part of an array that follows a prefix.
pub set_bytes_lem :
    (pre mid post source : Bytes) (k : ℕ)
    → k ≡ length pre
    → length mid ≡ length source
    → set_bytes source k (pre ++ (mid ++ post)) ≡ pre ++ (source ++ post)
set_bytes_lem pre mid post source k e f = rw (
  e,
  take-append_self pre (mid ++ post),
  drop-append_add pre (mid ++ post) (length source),
  ← f,
  drop-append_self mid post,
)

-- The three writes of one envelope, at the end of what was written before.
write_envelope :
    (pre payload post : Bytes) (flag k : ℕ)
    → k ≡ length pre
    → set_bytes payload (k + 5) (
        set_bytes (be32 (length payload)) (k + 1) (
          set_bytes
            (flag ∷ [])
            k
            (pre ++ (zeroes 1 ++ (zeroes 4 ++ (zeroes (length payload) ++ post))))))
      ≡ pre ++ (flag ∷ (be32 (length payload) ++ (payload ++ post)))
write_envelope pre payload post flag k e =
    let n = length payload in
    let tail = zeroes 4 ++ (zeroes n ++ post) in
    set_bytes payload (k + 5)
      (set_bytes (be32 n) (k + 1) (set_bytes (flag ∷ []) k (pre ++ (zeroes 1 ++ tail))))
    ≡⟨ ap (λ b. set_bytes payload (k + 5) (set_bytes (be32 n) (k + 1) b))
        (set_bytes_lem pre (zeroes 1) tail (flag ∷ []) k e refl
          ∙ sym (append_assoc pre (flag ∷ []) tail)) ⟩
      set_bytes payload (k + 5) (set_bytes (be32 n) (k + 1) ((pre ++ flag ∷ []) ++ tail))
    ≡⟨ ap (set_bytes payload (k + 5)) (
        set_bytes_lem (pre ++ flag ∷ []) (zeroes 4) (zeroes n ++ post) (be32 n) (k + 1)
          (omega (arith, length-append pre (flag ∷ []))) refl
        ∙ sym (append_assoc (pre ++ flag ∷ []) (be32 n) (zeroes n ++ post))) ⟩
      set_bytes payload (k + 5) (((pre ++ flag ∷ []) ++ be32 n) ++ (zeroes n ++ post))
    ≡⟨ set_bytes_lem ((pre ++ flag ∷ []) ++ be32 n) (zeroes n) post payload (k + 5)
        (omega (arith, length-append pre (flag ∷ []), length-append (pre ++ flag ∷ []) (be32 n)))
        (length-zeroes n) ⟩
      ((pre ++ flag ∷ []) ++ be32 n) ++ (payload ++ post)
    ≡⟨ (simp append_assoc) ⟩ pre ++ (flag ∷ (be32 n ++ (payload ++ post))) ∎

encoded_length-add :
    (n : ℕ) (es : List EnvelopedMessage) → encoded_length n es ≡ n + encoded_length 0 es
unfolding encoded_length
encoded_length-add n [] = omega arith
encoded_length-add n (e ∷ es) = omega (
  arith,
  encoded_length-add (n + length e.payload + 5) es,
  encoded_length-add (0 + length e.payload + 5) es,
)

zeroes-encoded_length :
    (e : EnvelopedMessage) (es : List EnvelopedMessage)
    → zeroes (encoded_length 0 (e ∷ es))
      ≡ zeroes 1 ++ (zeroes 4 ++ (zeroes (length e.payload) ++ zeroes (encoded_length 0 es)))
unfolding encoded_length
zeroes-encoded_length e es =
    let n = encoded_length 0 es in
    let total : encoded_length (0 + length e.payload + 5) es ≡ 5 + (length e.payload + n) =
      omega (arith, encoded_length-add (0 + length e.payload + 5) es) in
    rw total
      (zeroes-add 5 (length e.payload + n) ∙ ap (◌++◌ (zeroes 5)) (zeroes-add (length e.payload) n))

encode_loop_lem :
    (es : List EnvelopedMessage) (pre : Bytes) (k : ℕ)
    → k ≡ length pre
    → encode_loop es k (pre ++ zeroes (encoded_length 0 es)) ≡ pre ++ wires es
unfolding encode_loop
encode_loop_lem [] pre k e = unfold encoded_length in refl
encode_loop_lem (e ∷ es) pre k h =
    rw
      (
        zeroes-encoded_length e es,
        write_envelope pre e.payload (zeroes (encoded_length 0 es)) (e.flags % 256) k h,
        ← append_assoc pre (wire e) (wires es),
        ← append_assoc pre (wire e) (zeroes (encoded_length 0 es)),
      )
      (encode_loop_lem es (pre ++ wire e) (k + (length e.payload + 5)) (length-wire))
  where
    length-wire : k + (length e.payload + 5) ≡ length (pre ++ wire e)
    length-wire = omega (arith, length-append pre (wire e))

drop-zeroes_self : (n : ℕ) → drop n (zeroes n) ≡ []
drop-zeroes_self zero = refl
drop-zeroes_self (suc n) = drop-zeroes_self n

-- Encoding one envelope gives the byte of the flags (modulo 256), the length of the payload in four
-- bytes (modulo 2^32), and the payload.
pub encode_envelope_lem : (e : EnvelopedMessage) → encode_envelope e.flags e.payload ≡ wire e
unfolding encode_envelope
encode_envelope_lem e =
    let n = length e.payload in
    let room : zeroes (n + 5) ≡ zeroes 5 ++ zeroes n = ap zeroes (omega arith) ∙ zeroes-add 5 n in
    rw (room, drop-append_add (zeroes 5) (zeroes n) n, drop-zeroes_self n, append-nil)

-- The encodings of envelopes, one after the other.
abbrev pub encodings : List EnvelopedMessage → Bytes
encodings [] = []
encodings (e ∷ es) = encode_envelope e.flags e.payload ++ encodings es

pub wires-encodings : (es : List EnvelopedMessage) → wires es ≡ encodings es
wires-encodings [] = refl
wires-encodings (e ∷ es) = rw (encode_envelope_lem e) (ap (◌++◌ (wire e)) (wires-encodings es))

-- `encodeEnvelopes`, which writes into one array at computed offsets, gives the encodings of the
-- envelopes one after the other.
pub encode_envelopes_lem : (es : List EnvelopedMessage) → encode_envelopes es ≡ encodings es
unfolding encode_envelopes
encode_envelopes_lem es = encode_loop_lem es [] 0 refl ∙ wires-encodings es
