-- ===== src/AsyncIterable.antt =====
-- packages/connect/src/protocol/async-iterable.ts: transforms of async iterables. A transform is a
-- function on what its source yields; a consumer that stops before the end is not modelled here.
pub mod Split
pub mod ReadAll
pub mod Envelopes
pub mod Laws
use connect_es.Prelude.{Option, none, some, List, [], ◌∷◌, ◌++◌}
use connect_es.ConnectError.{Reason, Result, ok, err}
use connect_es.Stream.{Stream, done, fails, next}

module _ {ℓ} {A : Type ℓ} where
  -- `for await (const a of iterable) { yield f(a); }`
  unfoldable pub for_await {κ} : {B : Type κ} → (A → Result B) → Stream A → Stream B
  for_await f done = done
  for_await f (fails r) = fails r
  for_await f (next a s) =
      let rest = for_await f s in elim (f a) [ ok b ↦ next b rest | err r ↦ fails r ]

  -- What a callback provides is yielded unless it is `undefined`.
  abbrev yield_provided : Result (Option A) → Stream A → Stream A
  yield_provided (ok none) s = s
  yield_provided (ok (some a)) s = next a s
  yield_provided (err r) s = fails r

  -- `transformCatch`
  unfoldable pub transform_catch : (Reason → Result (Option A)) → Stream A → Stream A
  transform_catch catch_error done = done
  transform_catch catch_error (fails r) = yield_provided (catch_error r) done
  transform_catch catch_error (next a s) = next a (transform_catch catch_error s)

  -- `transformCatchFinally`; the callback gets `undefined`, here `none`, if nothing was thrown.
  unfoldable pub transform_catch_finally : (Option Reason → Result (Option A)) → Stream A → Stream A
  transform_catch_finally catch_finally done = yield_provided (catch_finally none) done
  transform_catch_finally catch_finally (fails r) = yield_provided (catch_finally (some r)) done
  transform_catch_finally catch_finally (next a s) =
      next a (transform_catch_finally catch_finally s)

  -- `transformAppend`; the callback is called once the source has ended.
  unfoldable pub transform_append : Result (Option A) → Stream A → Stream A
  transform_append provide done = yield_provided provide done
  transform_append provide (fails r) = fails r
  transform_append provide (next a s) = next a (transform_append provide s)

  -- `transformPrepend`
  unfoldable pub transform_prepend : Result (Option A) → Stream A → Stream A
  transform_prepend provide s = yield_provided provide s

  -- `sinkAll`, over the values collected so far.
  sink_all_from : List A → Stream A → Result (List A)
  sink_all_from all done = ok all
  sink_all_from all (fails r) = err r
  sink_all_from all (next a s) = sink_all_from (all ++ a ∷ []) s

  unfoldable pub sink_all : Stream A → Result (List A)
  unfolding sink_all_from
  sink_all s = sink_all_from [] s

  -- The transforms of `pipe`, applied in their order.
  unfoldable pub pipe : List (Stream A → Stream A) → Stream A → Stream A
  pipe [] s = s
  pipe (t ∷ ts) s = pipe ts (t s)

  -- `untilFirst`: it waits for the first result, and rejects if that is an error.
  unfoldable pub until_first : Stream A → Result (Stream A)
  until_first done = ok done
  until_first (fails r) = err r
  until_first (next a s) = ok (next a s)
