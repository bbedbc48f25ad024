-- ===== src/AsyncIterable/Laws.antt =====
-- What the transforms do with the values and the end of a stream.
use connect_es.Prelude.{
  ◌≡◌, refl, ap, ◌∙◌, Option, none, some, List, [], ◌∷◌, ◌++◌, append-nil, append_assoc,
}
use connect_es.ConnectError.{Reason, Result, ok, err}
use connect_es.Stream.{Stream, done, fails, next, values, ending}
use connect_es.AsyncIterable.{
  transform_catch, transform_catch_finally, transform_append, sink_all, pipe, yield_provided,
  sink_all_from,
}

module _ {ℓ} {A : Type ℓ} where
  abbrev pub collected : Option Reason → List A → Result (List A)
  collected none vs = ok vs
  collected (some r) vs = err r

  sink_all_from_lem :
      (all : List A) (s : Stream A) → sink_all_from all s ≡ collected (ending s) (all ++ values s)
  unfolding sink_all_from
  sink_all_from_lem all done = rw (append-nil all)
  sink_all_from_lem all (fails r) = refl
  sink_all_from_lem all (next a s) =
      sink_all_from_lem (all ++ a ∷ []) s
      ∙ ap (collected (ending s)) (append_assoc all (a ∷ []) (values s))

  -- `sinkAll` collects all values in order, or throws what the stream throws.
  pub sink_all_lem : (s : Stream A) → sink_all s ≡ collected (ending s) (values s)
  unfolding sink_all
  sink_all_lem s = sink_all_from_lem [] s

  -- What a callback adds to the values, and the error that it throws.
  abbrev pub added : Result (Option A) → List A
  added (ok none) = []
  added (ok (some a)) = a ∷ []
  added (err r) = []

  abbrev pub raised : Result (Option A) → Option Reason
  raised (ok o) = none
  raised (err r) = some r

  -- The result of a transform that lets all values through and ends with what a callback returns.
  abbrev pub EndsWith : Stream A → Result (Option A) → Stream A → Type ℓ
  EndsWith s result t = (values t ≡ values s ++ added result) × (ending t ≡ raised result)

  provided-EndsWith :
      (result : Result (Option A)) → EndsWith done result (yield_provided result done)
  provided-EndsWith (ok none) = (refl, refl)
  provided-EndsWith (ok (some a)) = (refl, refl)
  provided-EndsWith (err r) = (refl, refl)

  next-EndsWith :
      (a : A) (s : Stream A) (result : Result (Option A)) (t : Stream A)
      → EndsWith s result t
      → EndsWith (next a s) result (next a t)
  next-EndsWith a s result t (v, e) = (ap (◌∷◌ a) v, e)

  -- The outcome of the callback of `transformCatch`, which runs only if the source throws.
  abbrev pub caught : (Reason → Result (Option A)) → Option Reason → Result (Option A)
  caught f none = ok none
  caught f (some r) = f r

  -- The outcome of the callback of `transformAppend`, which runs only if the source does not throw.
  abbrev pub appended : Result (Option A) → Option Reason → Result (Option A)
  appended provide none = provide
  appended provide (some r) = err r

  -- All three transforms let every value of the source through. Then `transformCatch` ends with
  -- what its callback returns for an error of the source, `transformCatchFinally` with what its
  -- callback returns for the error or for none, and `transformAppend` with the value provided if
  -- the source does not throw; the source's error shows only behind `transformAppend`.
  pub transforms-EndsWith :
      (catch_error : Reason → Result (Option A)) (catch_finally : Option Reason → Result (Option A))
      (provide : Result (Option A)) (s : Stream A)
      → EndsWith s (caught catch_error (ending s)) (transform_catch catch_error s)
        × EndsWith s (catch_finally (ending s)) (transform_catch_finally catch_finally s)
        × EndsWith s (appended provide (ending s)) (transform_append provide s)
  unfolding transform_catch transform_catch_finally transform_append
  transforms-EndsWith f g p done = ((refl, refl), provided-EndsWith (g none), provided-EndsWith p)
  transforms-EndsWith f g p (fails r) =
      (provided-EndsWith (f r), provided-EndsWith (g (some r)), (refl, refl))
  transforms-EndsWith f g p (next a s) =
      let (c, d, e) = transforms-EndsWith f g p s in
      (
        next-EndsWith a s (caught f (ending s)) (transform_catch f s) c,
        next-EndsWith a s (g (ending s)) (transform_catch_finally g s) d,
        next-EndsWith a s (appended p (ending s)) (transform_append p s) e,
      )

  -- Piping through some transforms and then through others is piping through all of them.
  pub pipe-append :
      (ts us : List (Stream A → Stream A)) (s : Stream A) → pipe (ts ++ us) s ≡ pipe us (pipe ts s)
  unfolding pipe
  pipe-append [] us s = refl
  pipe-append (t ∷ ts) us s = pipe-append ts us (t s)
