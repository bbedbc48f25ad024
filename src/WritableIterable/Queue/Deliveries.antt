-- ===== src/WritableIterable/Queue/Deliveries.antt =====
-- Payloads are delivered in the order of their writes.
use connect_es.Prelude.{
  ℕ, ◌≡◌, refl, sym, ap, ◌∙◌, inl, inr, true, false, List, [], ◌∷◌, ◌++◌, append-nil, append_assoc,
  arith, Bool-cases, if_intro,
}
use connect_es.WritableIterable.{
  State, Call, writes, reads, throws, returns, closes, resumes, step, run, write_open, next_from,
}
use connect_es.WritableIterable.Invariant.{IsConsistent, step-IsConsistent}
use connect_es.WritableIterable.Queue.{
  delivered, accepts, accepted, keeps, all_keep, delivered-append, delivered-drained,
  resume_first-same,
}

module _ {T : Type 0} where
  -- What was delivered and what waits, in order.
  abbrev line : State T → List T
  line s = delivered s.answered ++ s.write_queue

  -- A pending read means that no payload waits.
  waiting_none :
      {r : ℕ} {rs : List ℕ} (s : State T)
      → s.read_queue ≡ r ∷ rs
      → IsConsistent s
      → s.write_queue ≡ []
  waiting_none s e v = ground (arith, v.one_sided)

  write_open-line :
      (id : ℕ) (p : T) (reads : List ℕ) (s : State T)
      → s.read_queue ≡ reads
      → IsConsistent s
      → line (write_open id p reads s) ≡ line s ++ p ∷ []
  unfolding write_open delivered
  write_open-line id p [] s e v = simp append_assoc
  write_open-line id p (r ∷ []) s e v = simp (delivered-append, waiting_none s e v, append-nil)
  write_open-line id p (r ∷ q ∷ rs) s e v = simp (delivered-append, waiting_none s e v, append-nil)

  next_from-line :
      (id : ℕ) (ps : List T) (s : State T) → s.write_queue ≡ ps → line (next_from id ps s) ≡ line s
  unfolding next_from delivered
  next_from-line id (p ∷ ps) s e = simp (delivered-append, append_assoc, e)
  next_from-line id [] s e =
      if_intro (λ x. line x ≡ line s) s.closed
        (λ shut. simp (delivered-append, append_assoc, e, append-nil)) (λ open'. simp e)

  step-line :
      (c : Call T) (s : State T)
      → keeps c ≡ true
      → IsConsistent s
      → line (step c s) ≡ line s ++ accepts c s
  unfolding step keeps accepts
  step-line (writes id payload) s k v = elim (Bool-cases s.closed) [
    | inl shut ↦ simp (shut, append-nil)
    | inr open' ↦ simp open' (write_open-line id payload s.read_queue s refl v)
  ]
  step-line (reads id) s k v = next_from-line id s.write_queue _ refl ∙ sym (append-nil _)
  step-line (throws r) s k v = absurd cc
  step-line returns s k v = absurd cc
  step-line closes s k v = simp (delivered-append, delivered-drained, append-nil)
  step-line resumes s k v =
      let (a, w, r, c) = resume_first-same s.writers s in simp (a, w, append-nil)

  -- Without `throw` and `return`, what was delivered and what waits in the queue are, in order, what
  -- it was before the calls and the payloads that they write on an open iterable.
  pub run-line :
      (cs : List (Call T)) (s : State T)
      → all_keep cs ≡ true
      → IsConsistent s
      → delivered (run cs s).answered ++ (run cs s).write_queue
        ≡ (delivered s.answered ++ s.write_queue) ++ accepted cs s
  unfolding run accepted all_keep
  run-line [] s k v = sym (append-nil _)
  run-line (c ∷ cs) s k v =
      run-line cs (step c s) (ground arith) (step-IsConsistent c s v)
      ∙ ap (λ x. x ++ accepted cs (step c s)) (step-line c s (ground arith) v)
      ∙ append_assoc (line s) (accepts c s) (accepted cs (step c s))

  write_open-closed :
      (id : ℕ) (p : T) (reads : List ℕ) (s : State T) → (write_open id p reads s).closed ≡ s.closed
  unfolding write_open
  write_open-closed id p [] s = refl
  write_open-closed id p (r ∷ []) s = refl
  write_open-closed id p (r ∷ q ∷ rs) s = refl

  next_from-closed : (id : ℕ) (ps : List T) (s : State T) → (next_from id ps s).closed ≡ s.closed
  unfolding next_from
  next_from-closed id (p ∷ ps) s = refl
  next_from-closed id [] s =
      if_intro (λ (x : State T). x.closed ≡ s.closed) s.closed (λ shut. refl) (λ open'. refl)

  -- A closed iterable stays closed.
  step-closed : (c : Call T) (s : State T) → s.closed ≡ true → (step c s).closed ≡ true
  unfolding step
  step-closed (writes id payload) s shut =
      if_intro (λ (x : State T). x.closed ≡ true) s.closed (λ h. shut)
        (λ open'. write_open-closed id payload s.read_queue s ∙ shut)
  step-closed (reads id) s shut = next_from-closed id s.write_queue _ ∙ shut
  step-closed (throws r) s shut = refl
  step-closed returns s shut = refl
  step-closed closes s shut = refl
  step-closed resumes s shut = let (a, w, r, c) = resume_first-same s.writers s in c ∙ shut

  closed-accepted : (cs : List (Call T)) (s : State T) → s.closed ≡ true → accepted cs s ≡ []
  unfolding accepted accepts
  closed-accepted [] s shut = refl
  closed-accepted (writes id payload ∷ cs) s shut =
      simp shut (closed-accepted cs _ (step-closed (writes id payload) s shut))
  closed-accepted (reads id ∷ cs) s shut = closed-accepted cs _ (step-closed (reads id) s shut)
  closed-accepted (throws r ∷ cs) s shut = closed-accepted cs _ (step-closed (throws r) s shut)
  closed-accepted (returns ∷ cs) s shut = closed-accepted cs _ (step-closed returns s shut)
  closed-accepted (closes ∷ cs) s shut = closed-accepted cs _ (step-closed closes s shut)
  closed-accepted (resumes ∷ cs) s shut = closed-accepted cs _ (step-closed resumes s shut)

  abbrev pub IsPrefix : List T → List T → Type 0
  IsPrefix xs ys = (rest : List T) × (xs ++ rest ≡ ys)

  -- After a call that drops the payloads that wait, only what was delivered stays.
  dropped-line :
      (c : Call T) (s : State T)
      → keeps c ≡ false
      → (line (step c s) ≡ delivered s.answered) × ((step c s).closed ≡ true) × (accepts c s ≡ [])
  unfolding keeps step accepts
  dropped-line (writes id payload) s k = absurd cc
  dropped-line (reads id) s k = absurd cc
  dropped-line (throws r) s k = (simp (delivered-append, delivered-drained, append-nil), refl, refl)
  dropped-line returns s k = (simp (delivered-append, delivered-drained, append-nil), refl, refl)
  dropped-line closes s k = absurd cc
  dropped-line resumes s k = absurd cc

  -- Whatever is called, the payloads that were delivered are a prefix of those that were written,
  -- in their order.
  pub run-delivered :
      (cs : List (Call T)) (s : State T)
      → IsConsistent s
      → IsPrefix
          (delivered (run cs s).answered)
          ((delivered s.answered ++ s.write_queue) ++ accepted cs s)
  unfolding run accepted
  run-delivered [] s v = (s.write_queue, sym (append-nil _))
  run-delivered (c ∷ cs) s v =
      let (rest, e) = run-delivered cs (step c s) (step-IsConsistent c s v) in
      elim (Bool-cases (keeps c)) [
        | inl kept ↦ (
          rest,
          e
              ∙ ap (λ x. x ++ accepted cs (step c s)) (step-line c s kept v)
              ∙ append_assoc (line s) (accepts c s) (accepted cs (step c s)),
        )
        | inr dropped ↦
            let (l, shut, a) = dropped-line c s dropped in
            let none_more = closed-accepted cs (step c s) shut in
            let held : delivered (run cs (step c s)).answered ++ rest ≡ delivered s.answered =
              e ∙ (simp (l, none_more, append-nil)) in
            (
              rest ++ s.write_queue,
              sym (append_assoc _ rest s.write_queue)
                  ∙ ap (λ x. x ++ s.write_queue) held
                  ∙ simp (a, none_more, append-nil),
            )
      ]
