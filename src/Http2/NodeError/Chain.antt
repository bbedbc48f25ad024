-- ===== src/Http2/NodeError/Chain.antt =====
-- `unwrapNodeErrorChain` of packages/connect-node/src/node-error.ts, on a heap of errors whose
-- causes may form a cycle.
use connect_es.Prelude.{
  ℕ, zero, suc, ◌≤◌, ◌<◌, ◌≡◌, refl, sym, ap, ◌∙◌, subst, inl, inr, Bool, true, false, Option, none,
  some, List, [], ◌∷◌, ◌++◌, arith, ◌==◌, if◌then◌else◌, Bool-cases, Option-cases, if_true,
  if_false,
}

-- A value, as far as the loop looks at it: an instance of `Error`, by its address, or another one.
pub data Value : Type 0 where
  error_at : ℕ → Value
  no_error : Value

-- The `cause` properties of the errors, by their addresses.
abbrev pub Heap : Type 0
Heap = ℕ → Option Value

-- `chain.includes(reason)`
pub includes : ℕ → List ℕ → Bool
includes a [] = false
includes a (b ∷ bs) = if b == a then true else includes a bs

-- What follows the push of an error: its cause, if it has one.
abbrev follow : (Value → Option (List ℕ)) → List ℕ → Option Value → Option (List ℕ)
follow again chain none = some chain
follow again chain (some cause) = again cause

-- The loop, with fuel: `none` is that the fuel is used up.
unwrap_loop : ℕ → Heap → List ℕ → Value → Option (List ℕ)
unfolding includes
unwrap_loop zero heap chain reason = none
unwrap_loop (suc fuel) heap chain no_error = some chain
unwrap_loop (suc fuel) heap chain (error_at a) =
    let extended = chain ++ a ∷ [] in
    if includes a chain
    then some chain
    else follow (unwrap_loop fuel heap extended) extended (heap a)

-- For errors at addresses below `size`, `size + 1` rounds are enough.
unfoldable pub unwrap_node_error_chain : ℕ → Heap → Value → Option (List ℕ)
unfolding unwrap_loop
unwrap_node_error_chain size heap reason = unwrap_loop (suc size) heap [] reason

-- An address that a value has is below the size of the heap.
abbrev pub Within : ℕ → Value → Type 0
Within size (error_at a) = a < size
Within size no_error = Unit {0}

abbrev pub WithinAll : ℕ → Option Value → Type 0
WithinAll size none = Unit {0}
WithinAll size (some v) = Within size v

-- The addresses below the size that are not in the chain.
unseen : ℕ → List ℕ → ℕ
unfolding includes
unseen zero chain = 0
unseen (suc n) chain = let rest = unseen n chain in if includes n chain then rest else suc rest

includes-append :
    (a b : ℕ) (chain : List ℕ)
    → includes b (chain ++ a ∷ []) ≡ (if includes b chain then true else a == b)
unfolding includes
includes-append a b [] = ground arith
includes-append a b (c ∷ chain) = ground (arith, includes-append a b chain)

unseen-append_le : (n a : ℕ) (chain : List ℕ) → unseen n (chain ++ a ∷ []) ≤ unseen n chain
unfolding unseen
unseen-append_le zero a chain = omega arith
unseen-append_le (suc n) a chain =
    ground (arith, unseen-append_le n a chain, includes-append a n chain)

unseen-append :
    (n a : ℕ) (chain : List ℕ)
    → a < n
    → includes a chain ≡ false
    → unseen n (chain ++ a ∷ []) < unseen n chain
unfolding unseen
unseen-append zero a chain lt new = absurd (omega arith)
unseen-append (suc n) a chain lt new =
    ground
      (arith, unseen-append n a chain, unseen-append_le n a chain, includes-append a n chain, new)

unseen_le : (n : ℕ) (chain : List ℕ) → unseen n chain ≤ n
unfolding unseen
unseen_le zero chain = omega arith
unseen_le (suc n) chain = ground (arith, unseen_le n chain)

-- No address comes twice.
abbrev pub IsDistinct : List ℕ → Type 0
IsDistinct [] = Unit {0}
IsDistinct (a ∷ rest) = (includes a rest ≡ false) × IsDistinct rest

append-IsDistinct :
    (chain : List ℕ) (a : ℕ)
    → IsDistinct chain
    → includes a chain ≡ false
    → IsDistinct (chain ++ a ∷ [])
unfolding includes
append-IsDistinct [] a d new = (refl, tt)
append-IsDistinct (b ∷ chain) a (d, ds) new = (
  includes-append a b chain ∙ ground (arith, d, new),
  append-IsDistinct chain a ds (ground (arith, new)),
)

-- The loop returns a chain without repetition.
abbrev Returns : Option (List ℕ) → Type 0
Returns result = (chain : List ℕ) × (result ≡ some chain) × IsDistinct chain

unwrap_loop-Returns :
    (size : ℕ) (heap : Heap)
    → ((a : ℕ) → WithinAll size (heap a))
    → (fuel : ℕ) (chain : List ℕ) (reason : Value) → Within size reason
    → unseen size chain < fuel
    → IsDistinct chain
    → Returns (unwrap_loop fuel heap chain reason)
unfolding unwrap_loop
unwrap_loop-Returns size heap w zero chain reason r lt d = absurd (omega (arith, lt))
unwrap_loop-Returns size heap w (suc fuel) chain no_error r lt d = (chain, refl, d)
unwrap_loop-Returns size heap w (suc fuel) chain (error_at a) r lt d =
    let extended = chain ++ a ∷ [] in
    elim (Bool-cases (includes a chain)) [
      | inl cycle ↦ (chain, if_true _ _ cycle, d)
      | inr new ↦
          let fresh = append-IsDistinct chain a d new in
          let less = unseen-append size a chain r new in
          subst Returns (sym (if_false (some chain) _ new)) (elim (Option-cases (heap a)) [
            | inl last ↦
                (extended, ap (follow (unwrap_loop fuel heap extended) extended) last, fresh)
            | inr (cause, e) ↦
                subst Returns (sym (ap (follow (unwrap_loop fuel heap extended) extended) e)) (
                  unwrap_loop-Returns size heap w fuel extended cause
                    (subst (WithinAll size) e (w a)) (omega (arith, lt, less)) fresh)
          ])
    ]

-- The chain of causes ends, and no error is in it twice, even if the causes form a cycle: for a
-- heap of `size` errors, at the addresses below `size`.
pub unwrap_node_error_chain-IsDistinct :
    (size : ℕ) (heap : Heap) (reason : Value)
    → ((a : ℕ) → WithinAll size (heap a))
    → Within size reason
    → (chain : List ℕ) × (unwrap_node_error_chain size heap reason ≡ some chain) × IsDistinct chain
unfolding unwrap_node_error_chain
unwrap_node_error_chain-IsDistinct size heap reason w r =
    unwrap_loop-Returns size heap w (suc size) [] reason r (omega (arith, unseen_le size [])) tt
