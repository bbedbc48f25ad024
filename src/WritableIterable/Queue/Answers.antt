-- ===== src/WritableIterable/Queue/Answers.antt =====
-- Reads are answered in their order.
use connect_es.Prelude.{
  ℕ, ◌≡◌, refl, sym, ap, ◌∙◌, List, [], ◌∷◌, ◌++◌, append-nil, append_assoc, arith, if_intro,
}
use connect_es.WritableIterable.{
  State, Call, writes, reads, throws, returns, closes, resumes, step, run, write_open, next_from,
}
use connect_es.WritableIterable.Invariant.{IsConsistent, step-IsConsistent}
use connect_es.WritableIterable.Queue.{
  answered_ids, requested, answered_ids-drained, answered_ids-append, resume_first-same,
}

module _ {T : Type 0} where
  -- The reads that are answered or pending, in order.
  abbrev readers : State T → List ℕ
  readers s = answered_ids s.answered ++ s.read_queue

  abbrev requests : Call T → List ℕ
  requests c = requested (c ∷ [])

  write_open-readers :
      (id : ℕ) (p : T) (reads : List ℕ) (s : State T)
      → s.read_queue ≡ reads
      → readers (write_open id p reads s) ≡ readers s
  unfolding write_open answered_ids
  write_open-readers id p [] s e = refl
  write_open-readers id p (r ∷ []) s e = simp (answered_ids-append, e, append-nil)
  write_open-readers id p (r ∷ q ∷ rs) s e = simp (answered_ids-append, e, append_assoc)

  -- A waiting payload means that no read is pending.
  pending_none :
      {p : T} {ps : List T} (s : State T)
      → s.write_queue ≡ p ∷ ps
      → IsConsistent s
      → s.read_queue ≡ []
  pending_none s e v = ground (arith, v.one_sided)

  next_from-readers :
      (id : ℕ) (ps : List T) (s : State T)
      → s.write_queue ≡ ps
      → IsConsistent s
      → readers (next_from id ps s) ≡ readers s ++ id ∷ []
  unfolding next_from answered_ids
  next_from-readers id (p ∷ ps) s e v = simp (answered_ids-append, pending_none s e v, append-nil)
  next_from-readers id [] s e v =
      if_intro (λ x. readers x ≡ readers s ++ id ∷ []) s.closed
        (λ shut. simp (answered_ids-append, v.closed_empty shut, append-nil))
        (λ open'. sym (append_assoc (answered_ids s.answered) s.read_queue (id ∷ [])))

  step-readers :
      (c : Call T) (s : State T) → IsConsistent s → readers (step c s) ≡ readers s ++ requests c
  unfolding step requested
  step-readers (writes id payload) s v =
      if_intro (λ x. readers x ≡ readers s ++ []) s.closed (λ shut. sym (append-nil _))
        (λ open'. write_open-readers id payload s.read_queue s refl ∙ sym (append-nil _))
  step-readers (reads id) s v =
      next_from-readers id s.write_queue _ refl
        (record { one_sided = v.one_sided; closed_empty = v.closed_empty })
  step-readers (throws r) s v = simp (answered_ids-append, answered_ids-drained, append-nil)
  step-readers returns s v = simp (answered_ids-append, answered_ids-drained, append-nil)
  step-readers closes s v = simp (answered_ids-append, answered_ids-drained, append-nil)
  step-readers resumes s v =
      let (a, w, r, c) = resume_first-same s.writers s in simp (a, r, append-nil)

  requested_first :
      (c : Call T) (cs : List (Call T)) → requested (c ∷ cs) ≡ requests c ++ requested cs
  unfolding requested
  requested_first (writes id payload) cs = refl
  requested_first (reads id) cs = refl
  requested_first (throws r) cs = refl
  requested_first returns cs = refl
  requested_first closes cs = refl
  requested_first resumes cs = refl

  -- From a consistent state, the reads that are answered and those that are pending are, in order,
  -- those of before and those of the calls.
  pub run-readers :
      (cs : List (Call T)) (s : State T)
      → IsConsistent s
      → answered_ids (run cs s).answered ++ (run cs s).read_queue
        ≡ (answered_ids s.answered ++ s.read_queue) ++ requested cs
  unfolding run requested
  run-readers [] s v = sym (append-nil _)
  run-readers (c ∷ cs) s v =
      run-readers cs (step c s) (step-IsConsistent c s v)
      ∙ ap (λ x. x ++ requested cs) (step-readers c s v)
      ∙ append_assoc (readers s) (requests c) (requested cs)
      ∙ ap (λ x. readers s ++ x) (sym (requested_first c cs))
