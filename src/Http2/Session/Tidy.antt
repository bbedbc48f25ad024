-- ===== src/Http2/Session/Tidy.antt =====
-- The invariant of the timers of a connection.
use connect_es.Prelude.{
  ℕ, suc, ◌+◌, ◌≤◌, ◌<◌, ◌≡◌, refl, false, ◌||◌, Option, none, some, List, ◌∷◌, arith, ltb,
  if_intro,
}
use connect_es.Http2.Session.{
  Ms, finite, infinite, Options, TimerKind, ping_interval, ping_timeout, idle_timeout, Timer,
  Session, remove, clear_timeout, id_of, assign, safe_set_timeout,
}
use connect_es.Http2.Session.Timers.{
  same_kind, count, Owned, count-remove, remove-Owned, count-remove_own, none-Owned,
}
use connect_es.Http2.Session.Handlers.{stop_ping_interval, reset_ping_interval}

-- The live timers of a kind: at most one, known by the variable of the kind.
pub record IsSingle (k : TimerKind) (id : Option ℕ) (ts : List Timer) : Type 0 where
  pub owned : Owned k id ts
  pub at_most_one : count k ts ≤ 1

-- Each kind has at most one live timer, and no idle timer is live under the condition `Q`.
pub record IsTidyIf (Q : Type 0) (s : Session) : Type 0 where
  pub interval_single : IsSingle ping_interval s.ping_interval_id s.timers
  pub timeout_single : IsSingle ping_timeout s.ping_timeout_id s.timers
  pub idle_single : IsSingle idle_timeout s.idle_timeout_id s.timers
  pub not_idle : Q → count idle_timeout s.timers ≡ 0

-- Each kind has at most one live timer, and an idle timer is live only without open streams.
abbrev pub IsTidy : Session → Type 0
IsTidy s = IsTidyIf (0 < s.stream_count) s

remove-IsSingle :
    (k : TimerKind) (x id : Option ℕ) (ts : List Timer)
    → IsSingle k x ts
    → IsSingle k x (remove id ts)
remove-IsSingle k x id ts v = record {
  owned = remove-Owned k x id ts v.owned;
  at_most_one = omega (arith, count-remove k id ts, v.at_most_one);
}

pub none-IsSingle :
    (k : TimerKind) (id : Option ℕ) (ts : List Timer) → count k ts ≡ 0 → IsSingle k id ts
none-IsSingle k id ts e = record { owned = none-Owned k id ts e; at_most_one = omega (arith, e) }

started-IsSingle :
    (t : Timer) (ts : List Timer) → count t.kind ts ≡ 0 → IsSingle t.kind (some t.id) (t ∷ ts)
started-IsSingle t ts e = record {
  owned = (λ same. refl, none-Owned t.kind (some t.id) ts e);
  at_most_one = ground (arith, e);
}

other-IsSingle :
    (k : TimerKind) (x : Option ℕ) (t : Timer) (ts : List Timer)
    → same_kind k t.kind ≡ false
    → IsSingle k x ts
    → IsSingle k x (t ∷ ts)
other-IsSingle k x t ts other v = record {
  owned = (λ same. cc, v.owned);
  at_most_one = ground (arith, v.at_most_one);
}

pub clear_timeout-IsTidy :
    {Q : Type 0} (id : Option ℕ) (s : Session) → IsTidyIf Q s → IsTidyIf Q (clear_timeout id s)
clear_timeout-IsTidy id s v = record {
  interval_single = remove-IsSingle ping_interval _ id s.timers v.interval_single;
  timeout_single = remove-IsSingle ping_timeout _ id s.timers v.timeout_single;
  idle_single = remove-IsSingle idle_timeout _ id s.timers v.idle_single;
  not_idle = λ h. omega (arith, v.not_idle h, count-remove idle_timeout id s.timers);
}

-- The variable of one kind is assigned.
assign-IsTidy :
    {Q : Type 0} (k : TimerKind) (id : Option ℕ) (s : Session)
    → IsSingle k id s.timers
    → (same_kind ping_interval k ≡ false → IsSingle ping_interval s.ping_interval_id s.timers)
    → (same_kind ping_timeout k ≡ false → IsSingle ping_timeout s.ping_timeout_id s.timers)
    → (same_kind idle_timeout k ≡ false → IsSingle idle_timeout s.idle_timeout_id s.timers)
    → (Q → count idle_timeout s.timers ≡ 0)
    → IsTidyIf Q (assign k id s)
assign-IsTidy ping_interval id s own a b c q = record {
  interval_single = own;
  timeout_single = b refl;
  idle_single = c refl;
  not_idle = q;
}
assign-IsTidy ping_timeout id s own a b c q = record {
  interval_single = a refl;
  timeout_single = own;
  idle_single = c refl;
  not_idle = q;
}
assign-IsTidy idle_timeout id s own a b c q = record {
  interval_single = a refl;
  timeout_single = b refl;
  idle_single = own;
  not_idle = q;
}

-- An idle timer is started only where the condition does not hold.
abbrev Startable : TimerKind → Type 0 → Type 0
Startable idle_timeout Q = ¬ Q
Startable _ Q = Unit {0}

started-not_idle :
    {Q : Type 0} (k : TimerKind) (s : Session) (id due : ℕ)
    → IsTidyIf Q s
    → Startable k Q
    → Q
    → count idle_timeout (record { id = id; kind = k; due = due } ∷ s.timers) ≡ 0
started-not_idle ping_interval s id due v q h = v.not_idle h
started-not_idle ping_timeout s id due v q h = v.not_idle h
started-not_idle idle_timeout s id due v q h = absurd (q h)

unset-IsTidy :
    {Q : Type 0} (k : TimerKind) (s : Session)
    → IsTidyIf Q s
    → count k s.timers ≡ 0
    → IsTidyIf Q (assign k none s)
unset-IsTidy k s v free =
    assign-IsTidy k none s (none-IsSingle k none s.timers free) (λ d. v.interval_single)
      (λ d. v.timeout_single) (λ d. v.idle_single) v.not_idle

-- A timer is started of a kind that has no live timer.
pub safe_set_timeout-IsTidyIf :
    {Q : Type 0} (k : TimerKind) (ms : Ms) (now : ℕ) (s : Session)
    → IsTidyIf Q s
    → count k s.timers ≡ 0
    → Startable k Q
    → IsTidyIf Q (safe_set_timeout k ms now s)
safe_set_timeout-IsTidyIf k infinite now s v free q = unset-IsTidy k s v free
safe_set_timeout-IsTidyIf k (finite ms) now s v free q =
    let t : Timer = record { id = s.next_id; kind = k; due = now + ms } in
    if_intro (IsTidyIf _) (ltb 0x7fffffff ms) (λ e. unset-IsTidy k s v free)
      (λ e.
        assign-IsTidy k (some s.next_id)
          (record s { timers = t ∷ s.timers; next_id = suc s.next_id })
          (started-IsSingle t s.timers free)
          (λ d. other-IsSingle ping_interval _ t s.timers d v.interval_single)
          (λ d. other-IsSingle ping_timeout _ t s.timers d v.timeout_single)
          (λ d. other-IsSingle idle_timeout _ t s.timers d v.idle_single)
          (started-not_idle k s s.next_id (now + ms) v q))

-- What a variable holds is cleared: its kind has no live timer.
pub cleared :
    {Q : Type 0} (k : TimerKind) (s : Session)
    → IsTidyIf Q s
    → count k (clear_timeout (id_of k s) s).timers ≡ 0
cleared ping_interval s v = count-remove_own ping_interval _ s.timers v.interval_single.owned
cleared ping_timeout s v = count-remove_own ping_timeout _ s.timers v.timeout_single.owned
cleared idle_timeout s v = count-remove_own idle_timeout _ s.timers v.idle_single.owned

pub stop_ping_interval-IsTidy :
    {Q : Type 0} (s : Session) → IsTidyIf Q s → IsTidyIf Q (stop_ping_interval s)
stop_ping_interval-IsTidy s v =
    clear_timeout-IsTidy s.ping_timeout_id _ (clear_timeout-IsTidy s.ping_interval_id s v)

pub reset_ping_interval-IsTidyIf :
    {Q : Type 0} (o : Options) (now : ℕ) (s : Session)
    → IsTidyIf Q s
    → IsTidyIf Q (reset_ping_interval o now s)
unfolding reset_ping_interval
reset_ping_interval-IsTidyIf o now s v =
    let stopped = stop_ping_interval-IsTidy s v in
    if_intro (IsTidyIf _) (ltb 0 s.stream_count || o.ping_idle_connection)
      (λ e.
        safe_set_timeout-IsTidyIf ping_interval o.ping_interval_ms now _ stopped
          (omega (
            arith,
            cleared ping_interval s v,
            count-remove ping_interval s.ping_timeout_id (remove s.ping_interval_id s.timers),
          ))
          tt)
      (λ e. stopped)

-- The timers are tidy under the condition on the streams that were open before.
pub with_streams :
    (s s' : Session)
    → s'.stream_count ≡ s.stream_count
    → IsTidyIf (0 < s.stream_count) s'
    → IsTidy s'
with_streams s s' e v = record {
  interval_single = v.interval_single;
  timeout_single = v.timeout_single;
  idle_single = v.idle_single;
  not_idle = λ h. v.not_idle (omega (arith, e, h));
}

assign-stream_count :
    (k : TimerKind) (id : Option ℕ) (s : Session) → (assign k id s).stream_count ≡ s.stream_count
assign-stream_count ping_interval id s = refl
assign-stream_count ping_timeout id s = refl
assign-stream_count idle_timeout id s = refl

pub safe_set_timeout-stream_count :
    (k : TimerKind) (ms : Ms) (now : ℕ) (s : Session)
    → (safe_set_timeout k ms now s).stream_count ≡ s.stream_count
safe_set_timeout-stream_count k infinite now s = assign-stream_count k none s
safe_set_timeout-stream_count k (finite ms) now s =
    if_intro (λ (x : Session). x.stream_count ≡ s.stream_count) (ltb 0x7fffffff ms)
      (λ e. assign-stream_count k none s) (λ e. assign-stream_count k _ _)

pub reset_ping_interval-stream_count :
    (o : Options) (now : ℕ) (s : Session)
    → (reset_ping_interval o now s).stream_count ≡ s.stream_count
unfolding reset_ping_interval
reset_ping_interval-stream_count o now s =
    if_intro (λ (x : Session). x.stream_count ≡ s.stream_count)
      (ltb 0 s.stream_count || o.ping_idle_connection)
      (λ e.
        safe_set_timeout-stream_count ping_interval o.ping_interval_ms now (stop_ping_interval s))
      (λ e. refl)

pub reset_ping_interval-IsTidy :
    (o : Options) (now : ℕ) (s : Session) → IsTidy s → IsTidy (reset_ping_interval o now s)
reset_ping_interval-IsTidy o now s v =
    with_streams s _ (reset_ping_interval-stream_count o now s)
      (reset_ping_interval-IsTidyIf o now s v)

-- A session that differs in neither the timers, their variables nor the streams.
pub same-IsTidy :
    (s s' : Session)
    → s'.timers ≡ s.timers
    → s'.ping_interval_id ≡ s.ping_interval_id
    → s'.ping_timeout_id ≡ s.ping_timeout_id
    → s'.idle_timeout_id ≡ s.idle_timeout_id
    → s'.stream_count ≡ s.stream_count
    → IsTidy s
    → IsTidy s'
same-IsTidy s s' a b c d e v = record {
  interval_single = rw (a, b) v.interval_single;
  timeout_single = rw (a, c) v.timeout_single;
  idle_single = rw (a, d) v.idle_single;
  not_idle = rw (a, e) v.not_idle;
}
