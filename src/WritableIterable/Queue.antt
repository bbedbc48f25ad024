-- ===== src/WritableIterable/Queue.antt =====
-- What a run of calls takes in and gives out, read off from the calls and the results.
pub mod Deliveries
pub mod Answers
use connect_es.Prelude.{
  ℕ, zero, suc, ◌≡◌, refl, ap, Bool, true, false, ◌&&◌, Option, none, some, List, [], ◌∷◌, ◌++◌,
  map, if◌then◌else◌,
}
use connect_es.WritableIterable.{
  Settled, pending, resolved, rejected, Writer, State, resume_first, Call, writes, reads, throws,
  returns, closes, resumes, step, promise_at, resume_writer,
}

-- The payloads among the results of reads.
unfoldable pub delivered : {T : Type 0} → List (ℕ × Option T) → List T
delivered [] = []
delivered ((id, none) ∷ rs) = delivered rs
delivered ((id, some payload) ∷ rs) = payload ∷ delivered rs

-- The ids of the reads that have results.
unfoldable pub answered_ids : {T : Type 0} → List (ℕ × Option T) → List ℕ
answered_ids [] = []
answered_ids ((id, r) ∷ rs) = id ∷ answered_ids rs

-- The payloads that `step` takes in.
unfoldable pub accepts : {T : Type 0} → Call T → State T → List T
accepts (writes id payload) s = if s.closed then [] else payload ∷ []
accepts (reads id) s = []
accepts (throws r) s = []
accepts returns s = []
accepts closes s = []
accepts resumes s = []

-- The payloads that a run takes in, in the order of their writes.
unfoldable pub accepted : {T : Type 0} → List (Call T) → State T → List T
unfolding accepts
accepted [] s = []
accepted (c ∷ cs) s = accepts c s ++ accepted cs (step c s)

-- The ids of the reads of a run, in their order.
unfoldable pub requested : {T : Type 0} → List (Call T) → List ℕ
requested [] = []
requested (writes id payload ∷ cs) = requested cs
requested (reads id ∷ cs) = id ∷ requested cs
requested (throws r ∷ cs) = requested cs
requested (returns ∷ cs) = requested cs
requested (closes ∷ cs) = requested cs
requested (resumes ∷ cs) = requested cs

-- Calls that drop no payload.
unfoldable pub keeps : {T : Type 0} → Call T → Bool
keeps (writes id payload) = true
keeps (reads id) = true
keeps (throws r) = false
keeps returns = false
keeps closes = true
keeps resumes = true

unfoldable pub all_keep : {T : Type 0} → List (Call T) → Bool
unfolding keeps
all_keep [] = true
all_keep (c ∷ cs) = keeps c && all_keep cs

pub answered_ids-drained :
    (T : Type 0) (ids : List ℕ) → answered_ids {T = T} (map (λ r. (r, none)) ids) ≡ ids
unfolding answered_ids
answered_ids-drained T [] = refl
answered_ids-drained T (i ∷ is) = ap (◌∷◌ i) (answered_ids-drained T is)

module _ {T : Type 0} where
  pub delivered-append :
      (xs ys : List (ℕ × Option T)) → delivered (xs ++ ys) ≡ delivered xs ++ delivered ys
  unfolding delivered
  delivered-append [] ys = refl
  delivered-append ((id, none) ∷ xs) ys = delivered-append xs ys
  delivered-append ((id, some p) ∷ xs) ys = ap (◌∷◌ p) (delivered-append xs ys)

  pub answered_ids-append :
      (xs ys : List (ℕ × Option T)) → answered_ids (xs ++ ys) ≡ answered_ids xs ++ answered_ids ys
  unfolding answered_ids
  answered_ids-append [] ys = refl
  answered_ids-append ((id, r) ∷ xs) ys = ap (◌∷◌ id) (answered_ids-append xs ys)

  pub delivered-drained : (ids : List ℕ) → delivered {T = T} (map (λ r. (r, none)) ids) ≡ []
  unfolding delivered
  delivered-drained [] = refl
  delivered-drained (i ∷ is) = delivered-drained is

  -- The turn of a writer leaves the queues as they are.
  resume_writer-same :
      (w : Writer) (rounds : ℕ) (p : Settled) (s : State T)
      → ((resume_writer w rounds p s).answered ≡ s.answered)
        × ((resume_writer w rounds p s).write_queue ≡ s.write_queue)
        × ((resume_writer w rounds p s).read_queue ≡ s.read_queue)
        × ((resume_writer w rounds p s).closed ≡ s.closed)
  unfolding resume_writer
  resume_writer-same w rounds pending s = (refl, refl, refl, refl)
  resume_writer-same w rounds (rejected r) s = (refl, refl, refl, refl)
  resume_writer-same w zero resolved s = (refl, refl, refl, refl)
  resume_writer-same w (suc zero) resolved s = (refl, refl, refl, refl)
  resume_writer-same w (suc (suc rounds)) resolved s = (refl, refl, refl, refl)

  pub resume_first-same :
      (ws : List Writer) (s : State T)
      → ((resume_first ws s).answered ≡ s.answered)
        × ((resume_first ws s).write_queue ≡ s.write_queue)
        × ((resume_first ws s).read_queue ≡ s.read_queue)
        × ((resume_first ws s).closed ≡ s.closed)
  unfolding resume_first
  resume_first-same [] s = (refl, refl, refl, refl)
  resume_first-same (w ∷ ws) s =
      resume_writer-same w w.rounds (promise_at w.awaits s.next_promises)
        (record s { writers = ws })
