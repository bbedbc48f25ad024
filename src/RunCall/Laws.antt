-- ===== src/RunCall/Laws.antt =====
-- Interceptors wrap one another in their order.
use mathlib.Core.List.{reverse, foldl, foldl-append, reverse-cons}
use connect_es.Prelude.{◌≡◌, ap, ◌∙◌, List, [], ◌∷◌}
use connect_es.RunCall.{apply_interceptors}

-- The first interceptor is the outermost one: it gets the call through all others, and a call of the
-- last one goes to the transport.
pub apply_interceptors-cons {ℓ} :
    {F : Type ℓ} (call : F) (i : F → F) (interceptors : List (F → F))
    → apply_interceptors call (i ∷ interceptors) ≡ i (apply_interceptors call interceptors)
unfolding apply_interceptors
apply_interceptors-cons call i interceptors =
    ap (foldl (λ n i. i n) call) (reverse-cons i interceptors)
    ∙ foldl-append (λ n i. i n) call (reverse interceptors) (i ∷ [])
