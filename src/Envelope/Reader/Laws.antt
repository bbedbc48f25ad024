-- ===== src/Envelope/Reader/Laws.antt =====
-- The reader gives back the envelopes that were encoded, however the bytes are cut into chunks.
use connect_es.Prelude.{
  ℕ, suc, ◌+◌, ◌/◌, ◌%◌, ◌≤◌, ◌<◌, ◌≡◌, refl, sym, ap, ◌∙◌, ◌⊎◌, inl, inr, true, Option, none, some,
  List, [], ◌∷◌, ◌++◌, append_assoc, arith, Bool-cases, Option-cases, length, length-append, take,
  drop, All, take-append_self, drop-append_self, take-append_left, drop-append_left,
}
use connect_es.Envelope.{Bytes, EnvelopedMessage, get_be32, encode_envelopes}
use connect_es.Envelope.Encode.{wire, wires, wires-encodings, encode_envelopes_lem}
use connect_es.Envelope.Reader.{
  Header, peek_header, closed, enqueued, Pulled, pull, read_messages, read_header, is_complete,
  end_index, finish, pull_loop,
}
use connect_es.Stream.{Stream, done, fails, next, of_list, ending, contents}

-- An envelope whose flags are a byte and whose length the reader's signed integers can hold.
abbrev pub IsReadable : EnvelopedMessage → Type 0
IsReadable e = (e.flags < 256) × (length e.payload < 0x80000000)

abbrev header_of : EnvelopedMessage → Header
header_of e = record { flags = e.flags; size = length e.payload }

pub peek_header-append :
    (buffer more : Bytes) (h : Header)
    → peek_header buffer ≡ some h
    → peek_header (buffer ++ more) ≡ some h
unfolding peek_header
peek_header-append [] more h e = cc
peek_header-append (a ∷ []) more h e = cc
peek_header-append (a ∷ b ∷ []) more h e = cc
peek_header-append (a ∷ b ∷ c ∷ []) more h e = cc
peek_header-append (a ∷ b ∷ c ∷ d ∷ []) more h e = cc
peek_header-append (a ∷ b ∷ c ∷ d ∷ f ∷ buffer) more h e = e

pub be32_get :
    (n : ℕ)
    → n < 0x100000000
    → get_be32 (n / 0x1000000 % 256) (n / 0x10000 % 256) (n / 0x100 % 256) (n % 256) ≡ n
be32_get n h = omega arith

pub peek_header-wire :
    (e : EnvelopedMessage) (rest : Bytes)
    → e.flags < 256
    → length e.payload < 0x100000000
    → peek_header (wire e ++ rest) ≡ some (header_of e)
unfolding peek_header
peek_header-wire e rest f l =
    let small : e.flags % 256 ≡ e.flags = omega arith in cc (small, be32_get (length e.payload) l)

-- What a pull does at an envelope, in terms of the bytes that follow it.
abbrev Gives : EnvelopedMessage → Bytes → Pulled → Type 0
Gives e rest p =
    (p.outcome ≡ enqueued e) × (p.buffer ++ contents p.source ≡ rest) × (ending p.source ≡ none)

length-wire : (e : EnvelopedMessage) → length (wire e) ≡ length e.payload + 5
length-wire e = omega arith

-- A buffer that holds the envelope whole is cut behind it.
finish_lem :
    (e : EnvelopedMessage) (buffer rest : Bytes) (source : Stream Bytes)
    → IsReadable e
    → buffer ++ contents source ≡ wire e ++ rest
    → ending source ≡ none
    → length e.payload + 5 ≤ length buffer
    → Gives e rest (finish (some (header_of e)) buffer source)
unfolding finish
finish_lem e buffer rest source (_, small) split ends whole = (rw (end, front), rw end back, ends)
  where
    end : end_index (length e.payload) (length buffer) ≡ length (wire e)
    end = ground arith

    front : take (length (wire e)) buffer ≡ wire e
    front =
        sym (take-append_left (length (wire e)) buffer (contents source) (omega arith))
        ∙ ap (take (length (wire e))) split
        ∙ take-append_self (wire e) rest

    back : drop (length (wire e)) buffer ++ contents source ≡ rest
    back =
        sym (drop-append_left (length (wire e)) buffer (contents source) (omega arith))
        ∙ ap (drop (length (wire e))) split
        ∙ drop-append_self (wire e) rest

-- The header that `pull` has found so far: none, or that of the envelope at hand.
abbrev Known : EnvelopedMessage → Option Header → Type 0
Known e header = (header ≡ none) ⊎ (header ≡ some (header_of e))

peek_header-short : (buffer : Bytes) → peek_header buffer ≡ none → length buffer < 5
unfolding peek_header
peek_header-short [] e = omega arith
peek_header-short (a ∷ []) e = omega arith
peek_header-short (a ∷ b ∷ []) e = omega arith
peek_header-short (a ∷ b ∷ c ∷ []) e = omega arith
peek_header-short (a ∷ b ∷ c ∷ d ∷ []) e = omega arith
peek_header-short (a ∷ b ∷ c ∷ d ∷ f ∷ buffer) e = cc

read_header_lem :
    (e : EnvelopedMessage) (header : Option Header) (buffer more rest : Bytes)
    → IsReadable e
    → Known e header
    → buffer ++ more ≡ wire e ++ rest
    → (read_header header buffer ≡ some (header_of e))
      ⊎ ((read_header header buffer ≡ none) × (length buffer < 5))
unfolding read_header
read_header_lem e header buffer more rest (byte, small) (inr k) split = rw k (inl refl)
read_header_lem e header buffer more rest (byte, small) (inl k) split =
    rw k (elim (Option-cases (peek_header buffer)) [
      | inl short ↦ inr (short, peek_header-short buffer short)
      | inr (h, found) ↦ inl (
          sym (peek_header-append buffer more h found ∙ sym found)
          ∙ ap peek_header split
          ∙ peek_header-wire e rest byte (omega arith))
    ])

is_complete-whole :
    (e : EnvelopedMessage) (buffer : Bytes)
    → IsReadable e
    → is_complete (some (header_of e)) buffer ≡ true
    → length e.payload + 5 ≤ length buffer
unfolding is_complete
is_complete-whole e buffer (_, small) h = ground arith

-- At the end of the stream the buffer holds all bytes, so it holds the envelope.
at_end :
    (e : EnvelopedMessage) (buffer rest : Bytes)
    → buffer ++ [] ≡ wire e ++ rest
    → length e.payload + 5 ≤ length buffer
at_end e buffer rest split =
    omega
      (arith, ap length split, length-append buffer [], length-append (wire e) rest, length-wire e)

pull_loop_lem :
    (source : Stream Bytes) (e : EnvelopedMessage) (header : Option Header) (buffer rest : Bytes)
    → IsReadable e
    → Known e header
    → buffer ++ contents source ≡ wire e ++ rest
    → ending source ≡ none
    → Gives e rest (pull_loop header buffer source)
unfolding pull_loop
pull_loop_lem done e header buffer rest fit known split ends =
    elim (read_header_lem e header buffer [] rest fit known split) [
      | inl k ↦ rw k (finish_lem e buffer rest done fit split ends (at_end e buffer rest split))
      | inr (_, short) ↦ absurd (omega (arith, at_end e buffer rest split))
    ]
pull_loop_lem (fails r) e header buffer rest fit known split ends = cc
pull_loop_lem (next chunk source) e header buffer rest fit known split ends =
    elim (read_header_lem e header buffer (chunk ++ contents source) rest fit known split) [
      | inl k ↦ rw k (elim (Bool-cases (is_complete (some (header_of e)) buffer)) [
        | inl full ↦ rw full (
            finish_lem e buffer rest (next chunk source) fit split ends
              (is_complete-whole e buffer fit full))
        | inr more ↦
            rw more (pull_loop_lem source e _ (buffer ++ chunk) rest fit (inr refl) onward ends)
      ])
      | inr (k, _) ↦
          rw (k, is_complete)
            (pull_loop_lem source e none (buffer ++ chunk) rest fit (inl refl) onward ends)
    ]
  where
    onward : (buffer ++ chunk) ++ contents source ≡ wire e ++ rest
    onward = append_assoc buffer chunk (contents source) ∙ split

-- A pull gives the next envelope whatever the chunks are, and leaves the bytes behind it: for an
-- envelope whose flags are a byte and whose payload is shorter than 2^31 bytes, and a stream that
-- does not fail.
pub pull_lem :
    (e : EnvelopedMessage) (buffer rest : Bytes) (source : Stream Bytes)
    → IsReadable e
    → buffer ++ contents source ≡ wire e ++ rest
    → ending source ≡ none
    → Gives e rest (pull buffer source)
unfolding pull
pull_lem e buffer rest source fit split ends =
    pull_loop_lem source e none buffer rest fit (inl refl) split ends

append-eq-nil : (xs ys : Bytes) → xs ++ ys ≡ [] → (xs ≡ []) × (ys ≡ [])
append-eq-nil [] ys h = (refl, h)
append-eq-nil (x ∷ xs) ys h = cc

pull_loop-closed :
    (source : Stream Bytes)
    → contents source ≡ []
    → ending source ≡ none
    → (pull_loop none [] source).outcome ≡ closed
unfolding pull_loop peek_header
pull_loop-closed done h ends = refl
pull_loop-closed (fails r) h ends = cc
pull_loop-closed (next chunk source) h ends =
    let (empty, more) = append-eq-nil chunk (contents source) h in
    rw empty (pull_loop-closed source more ends)

pull-closed :
    (source : Stream Bytes)
    → contents source ≡ []
    → ending source ≡ none
    → (pull [] source).outcome ≡ closed
unfolding pull
pull-closed source h ends = pull_loop-closed source h ends

read_messages_lem :
    (es : List EnvelopedMessage) (buffer : Bytes) (source : Stream Bytes)
    → All IsReadable es
    → buffer ++ contents source ≡ wires es
    → ending source ≡ none
    → read_messages (suc (length es)) buffer source ≡ of_list es
unfolding read_messages
read_messages_lem [] buffer source fits split ends =
    let (empty, more) = append-eq-nil buffer (contents source) split in
    rw empty (rw (pull-closed source more ends, read_messages))
read_messages_lem (e ∷ es) buffer source (fit, fits) split ends =
    let (gives, split', ends') = pull_lem e buffer (wires es) source fit split ends in
    rw gives (
      ap (next e) (
        read_messages_lem es (pull buffer source).buffer (pull buffer source).source fits split'
          ends'))

-- A reader gets back exactly the envelopes that `encodeEnvelopes` wrote, and then the end of the
-- stream, however the bytes are cut into chunks: if the flags are bytes, each payload is shorter
-- than 2^31 bytes, and the stream of chunks does not fail. One pull more than there are envelopes
-- is enough.
pub read_messages-encode_envelopes :
    (es : List EnvelopedMessage) (source : Stream Bytes)
    → All IsReadable es
    → contents source ≡ encode_envelopes es
    → ending source ≡ none
    → read_messages (suc (length es)) [] source ≡ of_list es
read_messages-encode_envelopes es source fits split ends =
    read_messages_lem es [] source fits (split ∙ encode_envelopes_lem es ∙ sym (wires-encodings es))
      ends
