-- ===== src/Stream.antt =====
-- An `AsyncIterable` seen from its consumer, who awaits one value after the other: it yields values,
-- and then ends or throws.
use connect_es.Prelude.{ℕ, Option, none, some, List, [], ◌∷◌, ◌++◌}
use connect_es.ConnectError.{Reason}

pub data Stream {ℓ} (A : Type ℓ) : Type ℓ where
  done : Stream A
  fails : Reason → Stream A
  next : A → Stream A → Stream A

module _ {ℓ} {A : Type ℓ} where
  -- `createAsyncIterable`
  abbrev pub of_list : List A → Stream A
  of_list [] = done
  of_list (a ∷ rest) = next a (of_list rest)

  -- The values that are yielded, and how the iterable ends.
  abbrev pub values : Stream A → List A
  values done = []
  values (fails r) = []
  values (next a s) = a ∷ values s

  abbrev pub ending : Stream A → Option Reason
  ending done = none
  ending (fails r) = some r
  ending (next a s) = ending s

  -- The values, and then what another iterable gives, unless this one throws.
  abbrev pub then_stream : Stream A → Stream A → Stream A
  then_stream done t = t
  then_stream (fails r) t = fails r
  then_stream (next a s) t = next a (then_stream s t)

-- The bytes of a stream of chunks.
abbrev pub contents : Stream (List ℕ) → List ℕ
contents done = []
contents (fails r) = []
contents (next c s) = c ++ contents s
