-- ===== src/WritableIterable.antt =====
-- `createWritableIterable` of packages/connect/src/protocol/async-iterable.ts: a queue between
-- writers and a reader, as a state with one function for each method. Reads and writes carry a
-- number by which their promises are known.
pub mod Queue
pub mod Invariant
use connect_es.Prelude.{
  ℕ, zero, suc, ◌+◌, ◌-◌, Bool, true, false, Option, none, some, List, [], ◌∷◌, ◌++◌, map,
  if◌then◌else◌, or_else, length,
}
use connect_es.Prelude.Text.{codes}
use connect_es.ConnectError.{js_error, Reason, thrown}

-- The promises that `nextPromise` has been, by their index.
pub data Settled : Type 0 where
  pending : Settled
  resolved : Settled
  rejected : Reason → Settled

-- A call of `write` in its loop of `await nextPromise`: the rounds that are left, and the promise
-- that it awaits.
pub record Writer : Type 0 where
  pub id : ℕ
  pub rounds : ℕ
  pub awaits : ℕ

-- How the promise of a call of `write` is settled.
pub data Written : Type 0 where
  completed : ℕ → Written
  failed : ℕ → Reason → Written

-- `answered` and `written` record the results: `none` is `{ done: true }`.
pub record State (T : Type 0) : Type 0 where
  pub read_queue : List ℕ
  pub write_queue : List T
  pub error : Option Reason
  pub closed : Bool
  pub next_promises : List Settled
  pub resolver : ℕ
  pub writers : List Writer
  pub answered : List (ℕ × Option T)
  pub written : List Written

-- Settling a promise that is settled already does nothing.
abbrev settle_one : Settled → Settled → Settled
settle_one pending s = s
settle_one resolved s = resolved
settle_one (rejected r) s = rejected r

settle_at : ℕ → Settled → List Settled → List Settled
settle_at i s [] = []
settle_at zero s (p ∷ ps) = settle_one p s ∷ ps
settle_at (suc i) s (p ∷ ps) = p ∷ settle_at i s ps

abbrev last_index : List Settled → ℕ
last_index ps = length ps - 1

abbrev promise_at : ℕ → List Settled → Settled
promise_at i [] = pending
promise_at zero (p ∷ ps) = p
promise_at (suc i) (p ∷ ps) = promise_at i ps

closed_error : Reason
closed_error =
    thrown (js_error (codes "Error") (codes "cannot write, WritableIterable already closed"))

returned_error : Reason
returned_error = thrown (js_error (codes "Error") (codes "cannot write, consumer called return"))

module _ {T : Type 0} where
  unfoldable pub initial : State T
  initial = record {
    read_queue = [];
    write_queue = [];
    error = none;
    closed = false;
    next_promises = pending ∷ [];
    resolver = 0;
    writers = [];
    answered = [];
    written = [];
  }

  -- `drain`
  drain : State T → State T
  drain s = record s { read_queue = []; answered = s.answered ++ map (λ r. (r, none)) s.read_queue }

  -- `close`
  unfoldable pub close : State T → State T
  unfolding drain
  close s = drain (record s { closed = true })

  -- The loop of `write` at its first `await`.
  wait : ℕ → State T → State T
  wait id s =
      let writer : Writer = record {
        id = id;
        rounds = length s.write_queue + 1;
        awaits = last_index s.next_promises;
      } in
      record s { writers = s.writers ++ writer ∷ [] }

  -- `write` on an open iterable, by the queue of pending reads.
  write_open : ℕ → T → List ℕ → State T → State T
  unfolding wait
  write_open id payload [] s = wait id (record s { write_queue = s.write_queue ++ payload ∷ [] })
  write_open id payload (read ∷ []) s =
      wait id (record s { read_queue = []; answered = s.answered ++ (read, some payload) ∷ [] })
  write_open id payload (read ∷ other ∷ reads) s = record s {
    read_queue = other ∷ reads;
    answered = s.answered ++ (read, some payload) ∷ [];
    written = s.written ++ completed id ∷ [];
  }

  -- `write`
  unfoldable pub write : ℕ → T → State T → State T
  unfolding write_open closed_error
  write id payload s =
      if s.closed
      then record s { written = s.written ++ failed id (or_else s.error closed_error) ∷ [] }
      else write_open id payload s.read_queue s

  -- `next`, behind the handling of `nextPromise`, by the queue of pending writes.
  next_from : ℕ → List T → State T → State T
  next_from id (payload ∷ payloads) s = record s {
    write_queue = payloads;
    answered = s.answered ++ (id, some payload) ∷ [];
  }
  next_from id [] s =
      if s.closed
      then record s { answered = s.answered ++ (id, none) ∷ [] }
      else record s { read_queue = s.read_queue ++ id ∷ [] }

  -- `next`: it resolves `nextPromise` and puts a new promise in its place.
  unfoldable pub read_next : ℕ → State T → State T
  unfolding next_from settle_at
  read_next id s =
      let promises = settle_at s.resolver resolved s.next_promises ++ pending ∷ [] in
      next_from id s.write_queue
        (record s { next_promises = promises; resolver = last_index promises })

  -- `throw`
  unfoldable pub throw : Reason → State T → State T
  unfolding drain settle_at
  throw r s = drain (record s {
    error = some r;
    closed = true;
    write_queue = [];
    next_promises = settle_at s.resolver (rejected r) s.next_promises;
  })

  -- `return`: the new promise is rejected, and the resolver stays that of the old one.
  unfoldable pub return : State T → State T
  unfolding drain settle_at returned_error
  return s = drain (record s {
    closed = true;
    write_queue = [];
    next_promises = settle_at s.resolver resolved s.next_promises ++ rejected returned_error ∷ [];
  })

  -- A writer goes on when the promise that it awaits is settled: it fails, completes, or awaits
  -- what is `nextPromise` by then.
  resume_writer : Writer → ℕ → Settled → State T → State T
  resume_writer w rounds pending s = record s { writers = s.writers ++ w ∷ [] }
  resume_writer w rounds (rejected r) s = record s { written = s.written ++ failed w.id r ∷ [] }
  resume_writer w zero resolved s = record s { written = s.written ++ completed w.id ∷ [] }
  resume_writer w (suc zero) resolved s = record s { written = s.written ++ completed w.id ∷ [] }
  resume_writer w (suc (suc rounds)) resolved s =
      let w' = record w { rounds = suc rounds; awaits = last_index s.next_promises } in
      record s { writers = s.writers ++ w' ∷ [] }

  -- The turn of the writer that has waited longest since its last turn.
  pub resume_first : List Writer → State T → State T
  unfolding resume_writer
  resume_first [] s = s
  resume_first (w ∷ ws) s =
      resume_writer w w.rounds (promise_at w.awaits s.next_promises) (record s { writers = ws })

  unfoldable pub resume : State T → State T
  unfolding resume_first
  resume s = resume_first s.writers s

-- The calls of the methods, and the turns of waiting writers.
pub data Call (T : Type 0) : Type 0 where
  writes : ℕ → T → Call T
  reads : ℕ → Call T
  throws : Reason → Call T
  returns closes resumes : Call T

module _ {T : Type 0} where
  unfoldable pub step : Call T → State T → State T
  unfolding write read_next throw return close resume
  step (writes id payload) s = write id payload s
  step (reads id) s = read_next id s
  step (throws r) s = throw r s
  step returns s = return s
  step closes s = close s
  step resumes s = resume s

  unfoldable pub run : List (Call T) → State T → State T
  unfolding step
  run [] s = s
  run (c ∷ cs) s = run cs (step c s)
