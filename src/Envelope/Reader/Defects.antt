-- ===== src/Envelope/Reader/Defects.antt =====
-- Where the reader departs from the protocol.
use connect_es.Prelude.{
  ℕ, suc, ◌+◌, ◌<◌, ◌≡◌, refl, sym, ap, ◌∙◌, ◌⊎◌, inl, inr, false, Option, none, some, List, [],
  ◌∷◌, ◌++◌, append-nil, append_assoc, arith, Option-cases, length, length-append, take_all,
  drop_all, All,
}
use connect_es.Stream.{Stream, done, fails, next, of_list, ending, contents}
use connect_es.Envelope.{Bytes, EnvelopedMessage, be32, encode_envelopes}
use connect_es.Envelope.Encode.{wire, wires, wires-encodings, encode_envelopes_lem}
use connect_es.Envelope.Reader.{
  Header, peek_header, read_header, is_complete, finish, enqueued, pull, pull_loop, read_messages,
  end_index,
}
use connect_es.Envelope.Reader.Laws.{IsReadable, be32_get, peek_header-append, pull_lem}

end_index-small : (size byte_length : ℕ) → size < 0x80000000 → end_index size byte_length ≡ size + 5
unfolding end_index
end_index-small size byte_length h = ground arith

module _ (flags size : ℕ) (part : Bytes) (small : size < 0x80000000)
    (short : length part < size) where
  -- What is sent of the last envelope, and what the reader knows of it.
  abbrev cut : Bytes
  cut = flags ∷ (be32 size ++ part)

  abbrev header : Header
  header = record { flags = flags; size = size }

  peek_header-cut : peek_header cut ≡ some header
  unfolding peek_header
  peek_header-cut =
      ap (λ n. some (record { flags = flags; size = n })) (be32_get size (omega arith))

  finish-cut : finish (some header) cut done ≡ record {
    outcome = enqueued (record { flags = flags; payload = part });
    buffer = [];
    source = done;
  }
  unfolding finish
  finish-cut =
      let end : end_index size (length cut) ≡ size + 5 = end_index-small size (length cut) small in
      rw (end, take_all (size + 5) cut (omega arith), drop_all (size + 5) cut (omega arith)) refl

  -- The header is read, or not yet.
  read_header-cut :
      (known : Option Header) (buffer more : Bytes)
      → (known ≡ none) ⊎ (known ≡ some header)
      → buffer ++ more ≡ cut
      → (read_header known buffer ≡ none) ⊎ (read_header known buffer ≡ some header)
  unfolding read_header
  read_header-cut known buffer more (inr k) split = rw k (inr refl)
  read_header-cut known buffer more (inl k) split = rw k (elim (Option-cases (peek_header buffer)) [
    | inl missing ↦ inl missing
    | inr (h, found) ↦ inr (
        sym (peek_header-append buffer more h found ∙ sym found)
        ∙ ap peek_header split
        ∙ peek_header-cut)
  ])

  read_header-whole :
      (known : Option Header)
      → (known ≡ none) ⊎ (known ≡ some header)
      → read_header known cut ≡ some header
  unfolding read_header
  read_header-whole known (inl k) = rw k peek_header-cut
  read_header-whole known (inr k) = rw k refl

  incomplete :
      (known : Option Header) (buffer more : Bytes)
      → (known ≡ none) ⊎ (known ≡ some header)
      → buffer ++ more ≡ cut
      → is_complete known buffer ≡ false
  unfolding is_complete
  incomplete known buffer more (inl k) split = rw k refl
  incomplete known buffer more (inr k) split =
      let fewer : length buffer < size + 5 =
        omega (arith, ap length split, length-append buffer more, length-append (be32 size) part) in
      rw k (ground arith)

  pull_loop-cut :
      (source : Stream Bytes) (known : Option Header) (buffer : Bytes)
      → (known ≡ none) ⊎ (known ≡ some header)
      → buffer ++ contents source ≡ cut
      → ending source ≡ none
      → pull_loop known buffer source ≡ record {
        outcome = enqueued (record { flags = flags; payload = part });
        buffer = [];
        source = done;
      }
  unfolding pull_loop
  pull_loop-cut done known buffer k split ends =
      ap (λ b. finish (read_header known b) b done) (sym (append-nil buffer) ∙ split)
      ∙ ap (λ h. finish h cut done) (read_header-whole known k)
      ∙ finish-cut
  pull_loop-cut (fails r) known buffer k split ends = cc
  pull_loop-cut (next chunk source) known buffer k split ends =
      let k' = read_header-cut known buffer (chunk ++ contents source) k split in
      rw (incomplete (read_header known buffer) buffer (chunk ++ contents source) k' split) (
        pull_loop-cut source (read_header known buffer) (buffer ++ chunk) k'
          (append_assoc buffer chunk (contents source) ∙ split) ends)

  read_messages-cut :
      (es : List EnvelopedMessage) (buffer : Bytes) (source : Stream Bytes)
      → All IsReadable es
      → buffer ++ contents source ≡ wires es ++ cut
      → ending source ≡ none
      → read_messages (suc (suc (length es))) buffer source
        ≡ of_list (es ++ record { flags = flags; payload = part } ∷ [])
  unfolding read_messages pull
  read_messages-cut [] buffer source fits split ends =
      rw (pull_loop-cut source none buffer (inl refl) split ends) refl
  read_messages-cut (e ∷ es) buffer source (fit, fits) split ends =
      let (gives, split', ends') =
        pull_lem e buffer (wires es ++ cut) source fit
          (split ∙ append_assoc (wire e) (wires es) cut) ends in
      rw gives (
        ap (next e) (
          read_messages-cut es (pull buffer source).buffer (pull buffer source).source fits split'
            ends'))

  -- A stream that ends within the payload of an envelope, behind its whole header, is not refused:
  -- after the envelopes before it, the part of the payload that has arrived is delivered as a
  -- complete message, and then the stream ends, however the bytes are cut into chunks. The flags
  -- of the envelopes before it are bytes, all payloads are shorter than 2^31 bytes, and the stream
  -- of chunks does not fail. Two pulls more than there are envelopes before it are enough.
  pub pull_truncated :
      (es : List EnvelopedMessage) (source : Stream Bytes)
      → All IsReadable es
      → contents source ≡ encode_envelopes es ++ flags ∷ (be32 size ++ part)
      → ending source ≡ none
      → read_messages (suc (suc (length es))) [] source
        ≡ of_list (es ++ record { flags = flags; payload = part } ∷ [])
  pull_truncated es source fits split ends =
      read_messages-cut es [] source fits
        (split ∙ ap (λ b. b ++ cut) (encode_envelopes_lem es ∙ sym (wires-encodings es))) ends

-- A header whose length is 2^32 - 5 reads as the length -5: the reader delivers an empty message
-- and keeps its state, so it does so again on each pull, without end.
pub pull_stuck :
    (flags : ℕ) (rest : Bytes) (source : Stream Bytes)
    → let buffer = flags ∷ (be32 0xfffffffb ++ rest) in
      pull buffer source ≡ record {
        outcome = enqueued (record { flags = flags; payload = [] });
        buffer = buffer;
        source = source;
      }
unfolding pull
pull_stuck flags rest done = refl
pull_stuck flags rest (fails r) = refl
pull_stuck flags rest (next chunk source) = refl
