-- ===== src/Http2/Session/Timers.antt =====
-- The live timers of a connection, counted by their kind.
use connect_es.Prelude.{
  ℕ, suc, ◌≤◌, ◌≡◌, refl, ◌≢◌, inl, inr, Bool, true, false, Option, none, some, List, [], ◌∷◌,
  arith, ◌==◌, if◌then◌else◌, ==_refl, Bool-cases, if_intro,
}
use connect_es.Http2.Session.{TimerKind, ping_interval, ping_timeout, idle_timeout, Timer, remove}

abbrev pub same_kind : TimerKind → TimerKind → Bool
same_kind ping_interval ping_interval = true
same_kind ping_timeout ping_timeout = true
same_kind idle_timeout idle_timeout = true
same_kind _ _ = false

-- How many timers of a kind are live.
abbrev pub count : TimerKind → List Timer → ℕ
count k [] = 0
count k (t ∷ ts) = let rest = count k ts in if same_kind k t.kind then suc rest else rest

-- The timers of a kind have the id that a variable holds.
abbrev pub Owned : TimerKind → Option ℕ → List Timer → Type 0
Owned k id [] = Unit {0}
Owned k id (t ∷ ts) = (same_kind k t.kind ≡ true → id ≡ some t.id) × Owned k id ts

pub count-remove :
    (k : TimerKind) (id : Option ℕ) (ts : List Timer) → count k (remove id ts) ≤ count k ts
unfolding remove
count-remove k none ts = omega arith
count-remove k (some i) [] = omega arith
count-remove k (some i) (t ∷ ts) = ground (arith, count-remove k (some i) ts)

pub remove-Owned :
    (k : TimerKind) (x id : Option ℕ) (ts : List Timer) → Owned k x ts → Owned k x (remove id ts)
unfolding remove
remove-Owned k x none ts w = w
remove-Owned k x (some i) [] w = tt
remove-Owned k x (some i) (t ∷ ts) (h, w) =
    if_intro (Owned k x) (t.id == i) (λ e. remove-Owned k x (some i) ts w)
      (λ e. (h, remove-Owned k x (some i) ts w))

-- Clearing what a variable holds leaves no timer of its kind.
pub count-remove_own :
    (k : TimerKind) (id : Option ℕ) (ts : List Timer) → Owned k id ts → count k (remove id ts) ≡ 0
unfolding remove
count-remove_own k none [] w = refl
count-remove_own k none (t ∷ ts) (h, w) = elim (Bool-cases (same_kind k t.kind)) [
  | inl same ↦ absurd (let bad = h same in cc)
  | inr other ↦ rw other (count-remove_own k none ts w)
]
count-remove_own k (some i) [] w = refl
count-remove_own k (some i) (t ∷ ts) (h, w) = elim (Bool-cases (same_kind k t.kind)) [
  | inl same ↦
      let own : i ≡ t.id = let e = h same in cc in
      rw (← own, ==_refl i) (count-remove_own k (some i) ts w)
  | inr other ↦
      if_intro (λ x. count k x ≡ 0) (t.id == i) (λ e. count-remove_own k (some i) ts w)
        (λ e. rw other (count-remove_own k (some i) ts w))
]

not_counted :
    (k : TimerKind) (t : Timer)
    → same_kind k t.kind ≡ true
    → (ts : List Timer) → count k (t ∷ ts) ≢ 0
not_counted k t same ts e = ground (arith, same)

pub none-Owned : (k : TimerKind) (id : Option ℕ) (ts : List Timer) → count k ts ≡ 0 → Owned k id ts
none-Owned k id [] e = tt
none-Owned k id (t ∷ ts) e =
    (λ same. absurd (not_counted k t same ts e), none-Owned k id ts (ground arith))
