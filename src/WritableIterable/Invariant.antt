-- ===== src/WritableIterable/Invariant.antt =====
-- The queues never hold both pending reads and pending writes, and a closed iterable has no
-- pending read.
use connect_es.Prelude.{
  ℕ, zero, suc, ◌≡◌, refl, ◌⊎◌, inl, inr, true, false, List, [], ◌∷◌, arith, if_intro,
}
use connect_es.WritableIterable.{
  Settled, pending, resolved, rejected, Writer, State, resume_first, Call, writes, reads, throws,
  returns, closes, resumes, step, promise_at, write_open, next_from, resume_writer,
}

module _ {T : Type 0} where
  pub record IsConsistent (s : State T) : Type 0 where
    pub one_sided : (s.read_queue ≡ []) ⊎ (s.write_queue ≡ [])
    pub closed_empty : s.closed ≡ true → s.read_queue ≡ []

  write_open-IsConsistent :
      (id : ℕ) (payload : T) (reads : List ℕ) (s : State T)
      → s.read_queue ≡ reads
      → s.closed ≡ false
      → IsConsistent s
      → IsConsistent (write_open id payload reads s)
  unfolding write_open
  write_open-IsConsistent id payload [] s e o v = record {
    one_sided = inl e;
    closed_empty = λ h. e;
  }
  write_open-IsConsistent id payload (r ∷ []) s e o v = record {
    one_sided = inl refl;
    closed_empty = λ h. refl;
  }
  write_open-IsConsistent id payload (r ∷ q ∷ rs) s e o v = record {
    one_sided = ground (arith, v.one_sided);
    closed_empty = λ h. cc;
  }

  next_from-IsConsistent :
      (id : ℕ) (payloads : List T) (s : State T)
      → s.write_queue ≡ payloads
      → IsConsistent s
      → IsConsistent (next_from id payloads s)
  unfolding next_from
  next_from-IsConsistent id (p ∷ ps) s e v = record {
    one_sided = ground (arith, v.one_sided);
    closed_empty = v.closed_empty;
  }
  next_from-IsConsistent id [] s e v =
      if_intro IsConsistent s.closed
        (λ shut. record { one_sided = v.one_sided; closed_empty = v.closed_empty })
        (λ open'. record { one_sided = inr e; closed_empty = λ h. cc })

  -- The queues and `closed` are those before the turn of a writer.
  resume_writer-IsConsistent :
      (w : Writer) (rounds : ℕ) (p : Settled) (s : State T)
      → IsConsistent s
      → IsConsistent (resume_writer w rounds p s)
  unfolding resume_writer
  resume_writer-IsConsistent w rounds pending s v = record {
    one_sided = v.one_sided;
    closed_empty = v.closed_empty;
  }
  resume_writer-IsConsistent w rounds (rejected r) s v = record {
    one_sided = v.one_sided;
    closed_empty = v.closed_empty;
  }
  resume_writer-IsConsistent w zero resolved s v = record {
    one_sided = v.one_sided;
    closed_empty = v.closed_empty;
  }
  resume_writer-IsConsistent w (suc zero) resolved s v = record {
    one_sided = v.one_sided;
    closed_empty = v.closed_empty;
  }
  resume_writer-IsConsistent w (suc (suc rounds)) resolved s v = record {
    one_sided = v.one_sided;
    closed_empty = v.closed_empty;
  }

  resume_first-IsConsistent :
      (ws : List Writer) (s : State T) → IsConsistent s → IsConsistent (resume_first ws s)
  unfolding resume_first
  resume_first-IsConsistent [] s v = v
  resume_first-IsConsistent (w ∷ ws) s v =
      resume_writer-IsConsistent w w.rounds (promise_at w.awaits s.next_promises) _
        (record { one_sided = v.one_sided; closed_empty = v.closed_empty })

  -- Every call and every turn of a writer keeps an iterable consistent.
  pub step-IsConsistent : (c : Call T) (s : State T) → IsConsistent s → IsConsistent (step c s)
  unfolding step
  step-IsConsistent (writes id payload) s v =
      if_intro IsConsistent s.closed
        (λ shut. record { one_sided = v.one_sided; closed_empty = v.closed_empty })
        (λ open'. write_open-IsConsistent id payload s.read_queue s refl open' v)
  step-IsConsistent (reads id) s v =
      next_from-IsConsistent id s.write_queue _ refl
        (record { one_sided = v.one_sided; closed_empty = v.closed_empty })
  step-IsConsistent (throws r) s v = record { one_sided = inl refl; closed_empty = λ h. refl }
  step-IsConsistent returns s v = record { one_sided = inl refl; closed_empty = λ h. refl }
  step-IsConsistent closes s v = record { one_sided = inl refl; closed_empty = λ h. refl }
  step-IsConsistent resumes s v = resume_first-IsConsistent s.writers s v
