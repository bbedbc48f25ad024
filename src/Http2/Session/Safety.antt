-- ===== src/Http2/Session/Safety.antt =====
-- What is always true of the timers of a connection.
use connect_es.Prelude.{
  ℕ, ◌+◌, ◌-◌, ◌<◌, ◌≡◌, refl, sym, ◌∙◌, subst, inl, inr, Bool, ◌&&◌, ◌||◌, not, none, some, [],
  arith, leb, ◌==◌, if_intro,
}
use connect_es.Http2.Session.{
  exceeds, Options, TimerKind, ping_interval, ping_timeout, idle_timeout, Timer, Connection, Effect,
  refs, unrefs, pings, closes, resolves, Session, nghttp2_no_error, emit,
}
use connect_es.Http2.Session.Handlers.{
  reset_ping_interval, reset_idle_timeout, cleanup, common_ping, OnSuccess, restarts,
  resolves_promise, on_success, ping_answered, on_idle_timeout, on_timer, timer_fired,
  register_request, stream_response, stream_closed, response_byte_read, ping, abort, retire,
  on_exit_state, on_goaway, assert_session_open, new_session, opened_session, ready_state,
}
use connect_es.Http2.Session.Events.{
  Event, registers, responds, stream_closes, exits, verifies, reads_byte, aborts, answers, fires,
  goes_away, conn_closes, handle, Possible, Reachable, opens, goes_on,
}
use connect_es.Http2.Session.Tidy.{
  IsTidyIf, IsTidy, none-IsSingle, clear_timeout-IsTidy, safe_set_timeout-IsTidyIf, cleared,
  stop_ping_interval-IsTidy, reset_ping_interval-IsTidyIf, with_streams,
  safe_set_timeout-stream_count, reset_ping_interval-stream_count, reset_ping_interval-IsTidy,
  same-IsTidy,
}
use connect_es.Http2.Session.Timers.{count}
use connect_es.ConnectError.{ok, err, Result-cases}

cleanup-IsTidy : (s : Session) → IsTidy s → IsTidy (cleanup s)
unfolding cleanup
cleanup-IsTidy s v =
    let stopped = clear_timeout-IsTidy s.idle_timeout_id _ (stop_ping_interval-IsTidy s v) in
    same-IsTidy _ _ refl refl refl refl refl stopped

retire-IsTidy : (s : Session) → IsTidy s → IsTidy (retire s)
unfolding retire
retire-IsTidy s v = same-IsTidy _ _ refl refl refl refl refl (cleanup-IsTidy s v)

emit-IsTidy : (e : Effect) (s : Session) → IsTidy s → IsTidy (emit e s)
unfolding emit
emit-IsTidy e s v = same-IsTidy s _ refl refl refl refl refl v

pub common_ping-IsTidy :
    (o : Options) (now : ℕ) (s : Session) → IsTidy s → IsTidy (common_ping o now s)
unfolding common_ping
common_ping-IsTidy o now s v =
    let cleared_s = clear_timeout-IsTidy s.ping_timeout_id s v in
    emit-IsTidy pings _ (
      with_streams s _ (safe_set_timeout-stream_count ping_timeout o.ping_timeout_ms now _) (
        safe_set_timeout-IsTidyIf ping_timeout o.ping_timeout_ms now _ cleared_s
          (cleared ping_timeout s v) tt))

on_success-IsTidy :
    (on : OnSuccess) (o : Options) (now : ℕ) (s : Session)
    → IsTidy s
    → IsTidy (on_success on o now s)
unfolding on_success
on_success-IsTidy restarts o now s v = reset_ping_interval-IsTidy o now s v
on_success-IsTidy resolves_promise o now s v = emit-IsTidy resolves s v

ping_answered-IsTidy :
    (on : OnSuccess) (failed : Bool) (duration : ℕ) (o : Options) (now : ℕ) (s : Session)
    → IsTidy s
    → IsTidy (ping_answered on failed duration o now s)
unfolding ping_answered
ping_answered-IsTidy on failed duration o now s v =
    let waited = clear_timeout-IsTidy s.ping_timeout_id s v in
    if_intro IsTidy failed (λ e. waited)
      (λ e.
        if_intro IsTidy (exceeds duration o.ping_timeout_ms) (λ e. emit-IsTidy _ _ waited)
          (λ e. on_success-IsTidy on o now _ (same-IsTidy _ _ refl refl refl refl refl waited)))

on_timer-IsTidy :
    (k : TimerKind) (o : Options) (now : ℕ) (s : Session) → IsTidy s → IsTidy (on_timer k o now s)
unfolding on_timer on_idle_timeout
on_timer-IsTidy ping_interval o now s v = common_ping-IsTidy o now s v
on_timer-IsTidy ping_timeout o now s v = emit-IsTidy _ s v
on_timer-IsTidy idle_timeout o now s v = cleanup-IsTidy _ (emit-IsTidy closes s v)

timer_fired-IsTidy :
    (t : Timer) (o : Options) (now : ℕ) (s : Session) → IsTidy s → IsTidy (timer_fired t o now s)
unfolding timer_fired
timer_fired-IsTidy t o now s v =
    on_timer-IsTidy t.kind o now _ (clear_timeout-IsTidy (some t.id) s v)

-- A session with the same timers is tidy under any condition that leaves no idle timer live.
quiet :
    {Q Q' : Type 0} (s s' : Session)
    → s'.timers ≡ s.timers
    → s'.ping_interval_id ≡ s.ping_interval_id
    → s'.ping_timeout_id ≡ s.ping_timeout_id
    → s'.idle_timeout_id ≡ s.idle_timeout_id
    → IsTidyIf Q s
    → (Q' → count idle_timeout s.timers ≡ 0)
    → IsTidyIf Q' s'
quiet s s' a b c d v e = record {
  interval_single = rw (a, b) v.interval_single;
  timeout_single = rw (a, c) v.timeout_single;
  idle_single = rw (a, d) v.idle_single;
  not_idle = rw a e;
}

register_request-IsTidy :
    (o : Options) (now : ℕ) (s : Session) → IsTidy s → IsTidy (register_request o now s)
unfolding register_request emit
register_request-IsTidy o now s v =
    let opened : Session = record s { stream_count = s.stream_count + 1 } in
    let loose : IsTidyIf ⊥ (emit refs opened) = quiet s _ refl refl refl refl v (λ h. absurd h) in
    let reset = reset_ping_interval-IsTidyIf o now (emit refs opened) loose in
    if_intro IsTidy (s.stream_count + 1 == 1)
      (λ e.
        quiet _ _ refl refl refl refl (clear_timeout-IsTidy _ _ reset)
          (λ h. cleared idle_timeout _ reset))
      (λ e. quiet s opened refl refl refl refl v (λ h. v.not_idle (ground arith)))

-- The last stream closes when no idle timer is live, and starts one.
last_closed-IsTidy :
    (o : Options) (now : ℕ) (s : Session)
    → IsTidyIf (Unit {0}) s
    → s.stream_count ≡ 0
    → IsTidy (reset_idle_timeout o now (reset_ping_interval o now s))
last_closed-IsTidy o now s v none_open =
    let reset = reset_ping_interval-IsTidyIf o now s v in
    let loose : IsTidyIf ⊥ _ = quiet _ _ refl refl refl refl reset (λ b. absurd b) in
    let idle =
      safe_set_timeout-IsTidyIf idle_timeout o.idle_connection_timeout_ms now
        (reset_ping_interval o now s) loose (reset.not_idle tt) (λ b. b) in
    let counted =
      safe_set_timeout-stream_count idle_timeout o.idle_connection_timeout_ms now
        (reset_ping_interval o now s)
      ∙ reset_ping_interval-stream_count o now s
      ∙ none_open in
    quiet _ _ refl refl refl refl idle (λ pos. absurd (omega (arith, pos, counted)))

stream_closed-IsTidy :
    (o : Options) (now : ℕ) (s : Session)
    → 0 < s.stream_count
    → IsTidy s
    → IsTidy (stream_closed o now s)
unfolding stream_closed emit
stream_closed-IsTidy o now s h v =
    let left : Session = record s { stream_count = s.stream_count - 1 } in
    if_intro IsTidy (s.stream_count - 1 == 0)
      (λ e.
        last_closed-IsTidy o now (emit unrefs left)
          (quiet s _ refl refl refl refl v (λ u. v.not_idle h)) (ground arith))
      (λ e. quiet s left refl refl refl refl v (λ p. v.not_idle h))

-- Everything that can happen to a connection keeps its timers tidy.
pub handle-IsTidy :
    (e : Event) (o : Options) (now : ℕ) (s : Session)
    → Possible e s
    → IsTidy s
    → IsTidy (handle e o now s)
unfolding handle response_byte_read abort on_goaway on_exit_state stream_response ping
handle-IsTidy registers o now s p v = register_request-IsTidy o now s v
handle-IsTidy responds o now s p v =
    reset_ping_interval-IsTidy o now _ (same-IsTidy s _ refl refl refl refl refl v)
handle-IsTidy stream_closes o now s p v = stream_closed-IsTidy o now s p v
handle-IsTidy exits o now s p v =
    if_intro IsTidy s.received_goaway (λ e. v) (λ e. retire-IsTidy s v)
handle-IsTidy verifies o now s p v = common_ping-IsTidy o now s v
handle-IsTidy (reads_byte own conn) o now s p v =
    if_intro IsTidy (not own) (λ e. v)
      (λ e.
        if_intro IsTidy (conn.closed || conn.destroyed) (λ e. v)
          (λ e.
            if_intro IsTidy (leb s.stream_count 0) (λ e. v)
              (λ e.
                reset_ping_interval-IsTidy o now _ (same-IsTidy s _ refl refl refl refl refl v))))
handle-IsTidy (aborts reason conn) o now s p v =
    if_intro IsTidy conn.destroyed (λ e. v) (λ e. emit-IsTidy _ s v)
handle-IsTidy (answers on failed duration) o now s p v =
    ping_answered-IsTidy on failed duration o now s v
handle-IsTidy (fires t) o now s p v = timer_fired-IsTidy t o now s v
handle-IsTidy (goes_away node_major code debug_data) o now s p v =
    let noted = same-IsTidy s _ refl refl refl refl refl v in
    if_intro IsTidy (code == nghttp2_no_error && (s.stream_count == 0 && leb 18 node_major))
      (λ e. emit-IsTidy _ _ noted) (λ e. noted)
handle-IsTidy conn_closes o now s p v = cleanup-IsTidy s v

opened_session-IsTidy : (o : Options) (now : ℕ) → IsTidy (opened_session o now)
unfolding opened_session
opened_session-IsTidy o now =
    let fresh : IsTidyIf ⊥ (new_session now) = record {
      interval_single = none-IsSingle ping_interval none [] refl;
      timeout_single = none-IsSingle ping_timeout none [] refl;
      idle_single = none-IsSingle idle_timeout none [] refl;
      not_idle = λ h. refl;
    } in
    let idle =
      safe_set_timeout-IsTidyIf idle_timeout o.idle_connection_timeout_ms now _ fresh refl
        (λ b. b) in
    let counted =
      safe_set_timeout-stream_count idle_timeout o.idle_connection_timeout_ms now
        (new_session now) in
    quiet _ _ refl refl refl refl idle (λ pos. absurd (omega (arith, pos, counted)))

ready-opened :
    (conn : Connection) (o : Options) (now : ℕ) (s : Session)
    → ready_state conn o now ≡ ok s
    → s ≡ opened_session o now
unfolding ready_state
ready-opened conn o now s e = elim (Result-cases (assert_session_open conn)) [
  | inl (u, good) ↦ let opened : ok (opened_session o now) ≡ ok s = rw good at e in cc
  | inr (r, bad) ↦ absurd (let failed : err r ≡ ok s = rw bad at e in cc)
]

-- At every time of a connection, each kind of timer is live at most once and under the id that is
-- kept for it, and no idle timer is live while a stream is open.
pub Reachable-IsTidy : (s : Session) → Reachable s → IsTidy s
Reachable-IsTidy s (opens conn o now _ e) =
    subst IsTidy (sym (ready-opened conn o now s e)) (opened_session-IsTidy o now)
Reachable-IsTidy _ (goes_on e o now s p r) = handle-IsTidy e o now s p (Reachable-IsTidy s r)
