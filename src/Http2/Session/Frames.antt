-- ===== src/Http2/Session/Frames.antt =====
-- What the timers and most events of a connection leave as it is.
use connect_es.Prelude.{ℕ, suc, ◌+◌, ◌≡◌, refl, ◌||◌, Option, none, some, ◌∷◌, ltb, if_intro}
use connect_es.Http2.Session.{
  Ms, finite, infinite, Options, TimerKind, ping_interval, ping_timeout, idle_timeout, Timer,
  Session, emit, clear_timeout, assign, safe_set_timeout,
}
use connect_es.Http2.Session.Handlers.{stop_ping_interval, reset_ping_interval, common_ping, ping}

-- The second session has the listeners and the shutdown of the first.
abbrev pub IsSame : Session → Session → Type 0
IsSame s s' = (s'.listening ≡ s.listening) × (s'.received_goaway ≡ s.received_goaway)

assign-IsSame : (k : TimerKind) (id : Option ℕ) (s : Session) → IsSame s (assign k id s)
assign-IsSame ping_interval id s = (refl, refl)
assign-IsSame ping_timeout id s = (refl, refl)
assign-IsSame idle_timeout id s = (refl, refl)

safe_set_timeout-IsSame :
    (k : TimerKind) (ms : Ms) (now : ℕ) (s : Session) → IsSame s (safe_set_timeout k ms now s)
safe_set_timeout-IsSame k infinite now s = assign-IsSame k none s
safe_set_timeout-IsSame k (finite ms) now s =
    let t : Timer = record { id = s.next_id; kind = k; due = now + ms } in
    if_intro (IsSame s) (ltb 0x7fffffff ms) (λ e. assign-IsSame k none s)
      (λ e.
        assign-IsSame k (some s.next_id)
          (record s { timers = t ∷ s.timers; next_id = suc s.next_id }))

reset_ping_interval-IsSame :
    (o : Options) (now : ℕ) (s : Session) → IsSame s (reset_ping_interval o now s)
unfolding reset_ping_interval
reset_ping_interval-IsSame o now s =
    if_intro (IsSame s) (ltb 0 s.stream_count || o.ping_idle_connection)
      (λ e. safe_set_timeout-IsSame ping_interval o.ping_interval_ms now (stop_ping_interval s))
      (λ e. (refl, refl))

pub ping-IsSame : (o : Options) (now : ℕ) (s : Session) → IsSame s (ping o now s)
unfolding ping common_ping emit
ping-IsSame o now s =
    safe_set_timeout-IsSame ping_timeout o.ping_timeout_ms now (clear_timeout s.ping_timeout_id s)
