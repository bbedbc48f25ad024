-- ===== src/Tests/Queues.antt =====
-- The theorems on queues applied to concrete runs.
use connect_es.Prelude.{ℕ, ◌≡◌, refl, inl, none, some, List, [], ◌∷◌, ◌++◌}
use connect_es.WritableIterable.{initial, Call, writes, reads, returns, closes, resumes, step, run}
use connect_es.WritableIterable.Queue.{delivered, answered_ids, accepted, requested, all_keep}
use connect_es.WritableIterable.Queue.Deliveries.{run-line, IsPrefix, run-delivered}
use connect_es.WritableIterable.Queue.Answers.{run-readers}
use connect_es.WritableIterable.Invariant.{IsConsistent, step-IsConsistent}

-- A read that waits, three writes, two reads, the end, and a read behind it.
abbrev calls : List (Call ℕ)
calls =
    reads 1
    ∷ writes 2 10
    ∷ writes 3 20
    ∷ writes 4 30
    ∷ reads 5
    ∷ resumes
    ∷ reads 6
    ∷ closes
    ∷ writes 7 40
    ∷ reads 8
    ∷ []

initial-IsConsistent : IsConsistent (initial {T = ℕ})
unfolding initial
initial-IsConsistent = record { one_sided = inl refl; closed_empty = λ h. refl }

all_answered :
    (run calls initial).answered ≡ (1, some 10) ∷ (5, some 20) ∷ (6, some 30) ∷ (8, none) ∷ []
unfolding run initial
all_answered = refl

step-IsConsistent_example : IsConsistent (step (writes 2 10) (initial {T = ℕ}))
step-IsConsistent_example = step-IsConsistent (writes 2 10) initial initial-IsConsistent

run-line_example :
    delivered (run calls initial).answered ++ (run calls initial).write_queue
    ≡ accepted calls initial
unfolding all_keep initial accepted delivered
run-line_example = run-line calls initial refl initial-IsConsistent

abbrev dropping : List (Call ℕ)
dropping = writes 1 10 ∷ writes 2 20 ∷ reads 3 ∷ returns ∷ reads 4 ∷ []

run-delivered_example : IsPrefix (delivered (run dropping initial).answered) (10 ∷ 20 ∷ [])
unfolding run initial accepted delivered
run-delivered_example = run-delivered dropping initial initial-IsConsistent

run-readers_example :
    answered_ids (run calls initial).answered ++ (run calls initial).read_queue ≡ 1 ∷ 5 ∷ 6 ∷ 8 ∷ []
unfolding requested initial answered_ids
run-readers_example = run-readers calls initial initial-IsConsistent
