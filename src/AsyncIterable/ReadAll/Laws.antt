-- ===== src/AsyncIterable/ReadAll/Laws.antt =====
-- What `readAllBytes` returns.
use connect_es.Prelude.{
  ℕ, zero, suc, ◌+◌, ◌-◌, ◌≤◌, ◌≡◌, refl, sym, ap, ◌∙◌, ◌≢◌, ◌↔◌, inl, inr, true, false, Option,
  none, some, List, [], ◌∷◌, ◌++◌, append-nil, append_assoc, arith, ltb, Option-cases, le_or_lt,
  length, length-append,
}
use connect_es.ConnectError.{ok, raise}
use connect_es.Stream.{Stream, done, fails, next, ending, contents}
use connect_es.Envelope.{Bytes, set_bytes, zeroes}
use connect_es.Envelope.Encode.{length-zeroes, zeroes-add, set_bytes_lem}
use connect_es.AsyncIterable.ReadAll.{
  LengthHint, parse_length_hint, read_all_bytes, promised, read_hinted, join_chunks, read_unhinted,
}
use connect_es.Limits.{assert_read_max_bytes-ok, assert_read_max_bytes-large}

-- The promised length, where there is one, is the length of the bytes.
abbrev pub Agrees : Option ℕ → ℕ → Type 0
Agrees none n = Unit {0}
Agrees (some hint) n = hint ≡ n

abbrev flatten : List Bytes → Bytes
flatten [] = []
flatten (chunk ∷ chunks) = chunk ++ flatten chunks

flatten-snoc :
    (chunks : List Bytes) (chunk : Bytes) → flatten (chunks ++ chunk ∷ []) ≡ flatten chunks ++ chunk
flatten-snoc [] chunk = append-nil chunk
flatten-snoc (c ∷ chunks) chunk =
    ap (◌++◌ c) (flatten-snoc chunks chunk) ∙ sym (append_assoc c (flatten chunks) chunk)

-- Writing a chunk at the offset of the bytes written before it.
set_bytes-zeroes :
    (pre chunk : Bytes) (k : ℕ)
    → set_bytes chunk (length pre) (pre ++ zeroes (length chunk + k)) ≡ (pre ++ chunk) ++ zeroes k
set_bytes-zeroes pre chunk k = rw (zeroes-add (length chunk) k) (
    set_bytes_lem pre (zeroes (length chunk)) (zeroes k) chunk (length pre) refl
      (length-zeroes (length chunk))
    ∙ sym (append_assoc pre chunk (zeroes k)))

join_chunks_lem :
    (chunks : List Bytes) (pre : Bytes)
    → join_chunks chunks (length pre) (pre ++ zeroes (length (flatten chunks)))
      ≡ pre ++ flatten chunks
unfolding join_chunks
join_chunks_lem [] pre = refl
join_chunks_lem (chunk ∷ chunks) pre =
    rw
      (
        length-append chunk (flatten chunks),
        set_bytes-zeroes pre chunk (length (flatten chunks)),
        ← length-append pre chunk,
      )
      (join_chunks_lem chunks (pre ++ chunk) ∙ append_assoc pre chunk (flatten chunks))

promised-ne-ok : (hint n : ℕ) (b : Bytes) → promised hint n ≢ ok b
unfolding promised raise
promised-ne-ok hint n b h = cc

module _ (max : ℕ) (b : Bytes) where
  -- The loop without a hint, from the chunks read so far.
  read_unhinted_iff :
      (s : Stream Bytes) (chunks : List Bytes) (count : ℕ)
      → count ≡ length (flatten chunks)
      → count ≤ max
      → (read_unhinted max chunks count s ≡ ok b)
        ↔ ((ending s ≡ none) × (b ≡ flatten chunks ++ contents s) × (length b ≤ max))
  unfolding read_unhinted
  read_unhinted_iff done chunks count e h =
      let all : join_chunks chunks 0 (zeroes count) ≡ flatten chunks =
        rw e (join_chunks_lem chunks []) in
      rw (all, append-nil (flatten chunks))
        (
          (λ x.
              let same : flatten chunks ≡ b = ground arith in
              (refl, sym same, rw (← same) (omega arith))),
          (λ (_, same, _). ap ok (sym same)),
        )
  read_unhinted_iff (fails r) chunks count e h = ((λ x. cc), (λ (x, _, _). cc))
  read_unhinted_iff (next chunk s) chunks count e h = elim (le_or_lt (count + length chunk) max) [
    | inl small ↦
        let onward =
          read_unhinted_iff s (chunks ++ chunk ∷ []) (count + length chunk)
            (omega
              (arith, ap length (flatten-snoc chunks chunk), length-append (flatten chunks) chunk))
            small in
        rw (assert_read_max_bytes-ok max (count + length chunk) false small) (
          rw (flatten-snoc chunks chunk, append_assoc (flatten chunks) chunk (contents s)) at
            onward)
    | inr large ↦
        let (r, big, _) = assert_read_max_bytes-large max (count + length chunk) false large in
        rw big (
          (λ x. cc),
          (λ (_, same, small). absurd (
              omega (
                arith,
                ap length same,
                length-append (flatten chunks) (chunk ++ contents s),
                length-append chunk (contents s),
              ))),
        )
  ]

  -- The loop with a hint, from the bytes read so far.
  read_hinted_iff :
      (s : Stream Bytes) (hint : ℕ) (pre : Bytes) (k : ℕ)
      → hint ≡ length pre + k
      → (read_hinted hint (length pre) (pre ++ zeroes k) s ≡ ok b)
        ↔ ((ending s ≡ none) × (b ≡ pre ++ contents s) × (hint ≡ length b))
  unfolding read_hinted
  read_hinted_iff done hint pre zero e =
      let full : ltb (length pre) hint ≡ false = ground arith in
      rw (full, append-nil pre)
        (
          (λ x. let same : pre ≡ b = ground arith in (refl, sym same, rw (← same) (omega arith))),
          (λ (_, same, _). ap ok (sym same)),
        )
  read_hinted_iff done hint pre (suc k) e =
      let short : ltb (length pre) hint ≡ true = ground arith in
      rw short (
        (λ x. absurd (promised-ne-ok hint (length pre) b x)),
        (λ (_, same, whole). absurd (omega (arith, ap length same, length-append pre []))),
      )
  read_hinted_iff (fails r) hint pre k e = ((λ x. cc), (λ (x, _, _). cc))
  read_hinted_iff (next chunk s) hint pre k e = elim (le_or_lt (length chunk) k) [
    | inl fits ↦
        let within : ltb hint (length pre + length chunk) ≡ false = ground arith in
        let room : k ≡ length chunk + (k - length chunk) = omega arith in
        let onward =
          read_hinted_iff s hint (pre ++ chunk) (k - length chunk)
            (omega (arith, length-append pre chunk)) in
        rw within (
          rw
            (
              ap zeroes room,
              set_bytes-zeroes pre chunk (k - length chunk),
              ← length-append pre chunk,
            )
            (rw (append_assoc pre chunk (contents s)) at onward))
    | inr large ↦
        let over : ltb hint (length pre + length chunk) ≡ true = ground arith in
        rw over (
          (λ x. absurd (promised-ne-ok hint (length pre + length chunk) b x)),
          (λ (_, same, whole). absurd (
              omega (
                arith,
                ap length same,
                length-append pre (chunk ++ contents s),
                length-append chunk (contents s),
              ))),
        )
  ]

-- `readAllBytes` returns bytes exactly if the stream ends without an error, they are the bytes of
-- its chunks in order, they are no more than the limit, and they are as many as the length hint
-- promises, where it is a natural number.
pub read_all_bytes_iff :
    (s : Stream Bytes) (max : ℕ) (length_hint : LengthHint) (b : Bytes)
    → (read_all_bytes s max length_hint ≡ ok b) ↔ (
        (ending s ≡ none)
        × (b ≡ contents s)
        × (length b ≤ max)
        × Agrees (parse_length_hint length_hint) (length b))
unfolding read_all_bytes
read_all_bytes_iff s max length_hint b = elim (Option-cases (parse_length_hint length_hint)) [
  | inl absent ↦
      let (to, back) = read_unhinted_iff max b s [] 0 refl (omega arith) in
      rw absent ((λ x. let (e, c, l) = to x in (e, c, l, tt)), (λ (e, c, l, _). back (e, c, l)))
  | inr (hint, found) ↦
      let (to, back) = read_hinted_iff max b s hint [] hint (omega arith) in
      elim (le_or_lt hint max) [
        | inl small ↦
            rw (found, assert_read_max_bytes-ok max hint true small)
              (
                (λ x. let (e, c, l) = to x in (e, c, omega arith, l)),
                (λ (e, c, _, l). back (e, c, l)),
              )
        | inr large ↦
            let (r, big, _) = assert_read_max_bytes-large max hint true large in
            rw (found, big) ((λ x. cc), (λ (_, _, l, agrees). absurd (omega arith)))
      ]
]
