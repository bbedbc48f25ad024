-- ===== src/Http2/Manager/Connecting.antt =====
-- Connections that are established, used and aborted.
use connect_es.Code.{is_canceled}
use connect_es.Prelude.{
  ℕ, suc, ◌<◌, ◌≡◌, refl, ap, ◌∙◌, ◌≢◌, false, some, List, [], ◌∷◌, arith, if_intro, if_false,
}
use connect_es.ConnectError.{Reason, connect_error, thrown}
use connect_es.Http2.Session.{Connection}
use connect_es.Http2.Manager.{
  Phase, closed, error, connecting, verifying, ready, pending, rejected, fresh_attempt, Manager,
  update, update_at, update_off, closed_or_error, leave_ready, exit_phase, enter_phase, set_state,
  set_connecting, goto_from, goto_ready, on_connect, on_connect_error, connection_continues,
  abort_phase, abort_manager, settle, continue_with, abort_all, abort_reason,
}
use connect_es.Http2.NodeError.{Chain}
use connect_es.Http2.Session.Handlers.{on_exit_state}

-- Leaving and entering the states "closed" and "error" does nothing else.
enter_closed : (r : Reason) (m : Manager) → enter_phase (closed_or_error r) m ≡ m
enter_closed (connect_error e) m =
    if_intro (λ p. enter_phase p m ≡ m) (is_canceled e.code) (λ c. refl) (λ c. refl)
enter_closed (thrown t) m = refl

exit_closed : (r : Reason) (m : Manager) → exit_phase (closed_or_error r) m ≡ m
unfolding exit_phase
exit_closed (connect_error e) m =
    if_intro (λ p. exit_phase p m ≡ m) (is_canceled e.code) (λ c. refl) (λ c. refl)
exit_closed (thrown t) m = refl

goto_closed :
    (r : Reason) (conn : Connection) (now : ℕ) (m : Manager)
    → goto_from (closed_or_error r) conn now m ≡ set_connecting m
unfolding goto_from
goto_closed (connect_error e) conn now m =
    if_intro (λ p. goto_from p conn now m ≡ set_connecting m) (is_canceled e.code) (λ c. refl)
      (λ c. refl)
goto_closed (thrown t) conn now m = refl

abort_all-same :
    (is : List ℕ) (r : Reason) (conns : ℕ → Connection) (m : Manager)
    → ((abort_all is r conns m).attempts ≡ m.attempts)
      × ((abort_all is r conns m).phase ≡ m.phase)
      × ((abort_all is r conns m).next_connection ≡ m.next_connection)
unfolding abort_all
abort_all-same [] r conns m = (refl, refl, refl)
abort_all-same (i ∷ is) r conns m = abort_all-same is r conns _

abort_reason-some : (r : Reason) → abort_reason (some r) ≡ r
unfolding abort_reason
abort_reason-some r = refl

-- The manager that is left by `abort` while a connection is established.
record AfterAbort (c : ℕ) (r : Reason) (m a : Manager) : Type 0 where
  phase_after : a.phase ≡ closed_or_error r
  rejected_promise : (a.attempts c).outcome ≡ rejected r
  same_next : a.next_connection ≡ m.next_connection

abort_phase-same :
    (p : Phase) (r : Reason) (conn : Connection) (m : Manager)
    → ((abort_phase p r conn m).phase ≡ m.phase)
      × ((abort_phase p r conn m).next_connection ≡ m.next_connection)
unfolding abort_phase
abort_phase-same closed r conn m = (refl, refl)
abort_phase-same (error e) r conn m = (refl, refl)
abort_phase-same (connecting c) r conn m = (refl, refl)
abort_phase-same (verifying i) r conn m = (refl, refl)
abort_phase-same (ready i) r conn m = (refl, refl)

exit_phase-next : (p : Phase) (m : Manager) → (exit_phase p m).next_connection ≡ m.next_connection
unfolding exit_phase leave_ready
exit_phase-next closed m = refl
exit_phase-next (error e) m = refl
exit_phase-next (connecting c) m = refl
exit_phase-next (verifying i) m = refl
exit_phase-next (ready i) m =
    if_intro (λ (x : Manager). x.next_connection ≡ m.next_connection)
      (on_exit_state (m.sessions i)).received_goaway (λ e. refl) (λ e. refl)

-- The promise is rejected, and leaving the state keeps it so.
rejected_attempt :
    (c : ℕ) (r : Reason) (conn : Connection) (m : Manager)
    → (m.attempts c).outcome ≡ pending
    → ((abort_phase (connecting c) r conn m).attempts c).outcome ≡ rejected r
unfolding abort_phase
rejected_attempt c r conn m p =
    ap (λ a. a.outcome) (update_at c _ m.attempts) ∙ ap (λ o. settle o (rejected r)) p

exit_connecting :
    (c : ℕ) (m : Manager)
    → (exit_phase (connecting c) m).attempts c
      ≡ record { listening = false; outcome = (m.attempts c).outcome }
unfolding exit_phase
exit_connecting c m = update_at c _ m.attempts

abort_connecting :
    (c : ℕ) (r : Reason) (conn : Connection) (conns : ℕ → Connection) (m : Manager)
    → m.phase ≡ connecting c
    → (m.attempts c).outcome ≡ pending
    → AfterAbort c r m (abort_manager (some r) conn conns m)
unfolding abort_manager abort_reason set_state
abort_connecting c r conn conns m e p =
    let x = abort_phase m.phase r conn m in
    let y = abort_all m.shutting_down r conns x in
    let (attempts, phase, next) = abort_all-same m.shutting_down r conns x in
    let (phase', next') = abort_phase-same m.phase r conn m in
    record {
      phase_after = refl;
      rejected_promise =
          ap (λ m. (m.attempts c).outcome) (enter_closed r (exit_phase y.phase y))
          ∙ ap (λ p. ((exit_phase p y).attempts c).outcome) (phase ∙ phase' ∙ e)
          ∙ ap (λ a. a.outcome) (exit_connecting c y)
          ∙ ap (λ f. (f c).outcome) attempts
          ∙ ap (λ p. ((abort_phase p r conn m).attempts c).outcome) e
          ∙ rejected_attempt c r conn m p;
      same_next =
          ap (λ m. m.next_connection) (enter_closed r (exit_phase y.phase y))
          ∙ exit_phase-next y.phase y
          ∙ next
          ∙ next';
    }

-- A new connection is established from the states "closed" and "error".
set_connecting_attempts :
    (r : Reason) (a : Manager)
    → a.phase ≡ closed_or_error r
    → (set_connecting a).attempts ≡ update a.next_connection fresh_attempt a.attempts
unfolding set_connecting set_state
set_connecting_attempts r a e =
    let a1 : Manager = record a {
      next_connection = suc a.next_connection;
      attempts = update a.next_connection fresh_attempt a.attempts;
    } in
    ap (λ p. (exit_phase p a1).attempts) e ∙ ap (λ m. m.attempts) (exit_closed r a1)

goto_ready_closed :
    (r : Reason) (conn : Connection) (now : ℕ) (a : Manager)
    → a.phase ≡ closed_or_error r
    → goto_ready conn now a ≡ set_connecting a
unfolding goto_ready
goto_ready_closed r conn now a e = ap (λ p. goto_from p conn now a) e ∙ goto_closed r conn now a

pub set_connecting-phase : (a : Manager) → (set_connecting a).phase ≡ connecting a.next_connection
unfolding set_connecting set_state
set_connecting-phase a = refl

-- The continuation of a rejected promise changes the state, whatever it is by then.
stale_continues :
    (c c' : ℕ) (r : Reason) (conn : Connection) (now : ℕ) (b : Manager)
    → (b.attempts c).outcome ≡ rejected r
    → b.phase ≡ connecting c'
    → ((connection_continues c conn now b).phase ≡ closed_or_error r)
      × ((connection_continues c conn now b).attempts c'
          ≡ record { listening = false; outcome = (b.attempts c').outcome })
unfolding connection_continues continue_with set_state
stale_continues c c' r conn now b e p = (
  ap (λ o. (continue_with o c conn now b).phase) e,
  ap (λ o. (continue_with o c conn now b).attempts c') e
      ∙ ap (λ m. m.attempts c') (enter_closed r (exit_phase b.phase b))
      ∙ ap (λ p. (exit_phase p b).attempts c') p
      ∙ exit_connecting c' b,
)

-- When `abort` stops a connection that is being established and a new one is asked for before the
-- rejection of the old promise is handled, that rejection takes the listeners off the new
-- connection: the manager is closed, or in error, while the promise of the new connection is
-- pending, and neither "connect" nor "error" of the new connection can settle it.
pub abort-goto_ready-stuck :
    (c : ℕ) (r : Reason) (m : Manager)
    → m.phase ≡ connecting c
    → (m.attempts c).outcome ≡ pending
    → c < m.next_connection
    → (conn conn' : Connection) (conns : ℕ → Connection) (now : ℕ)
    → let waiting = goto_ready conn now (abort_manager (some r) conn conns m) in
      let stuck = connection_continues c conn' now waiting in
      (waiting.phase ≡ connecting m.next_connection)
      × (stuck.phase ≡ closed_or_error r)
      × ((stuck.attempts m.next_connection).outcome ≡ pending)
      × (on_connect m.next_connection stuck ≡ stuck)
      × ((chain : Chain) (reason : Reason)
          → on_connect_error m.next_connection chain reason stuck ≡ stuck)
unfolding on_connect on_connect_error
abort-goto_ready-stuck c r m e p lt conn conn' conns now =
    let a = abort_manager (some r) conn conns m in
    let v = abort_connecting c r conn conns m e p in
    let next = m.next_connection in
    let waiting = goto_ready conn now a in
    let went = goto_ready_closed r conn now a v.phase_after in
    let phase = ap (λ m. m.phase) went ∙ set_connecting-phase a ∙ ap connecting v.same_next in
    let attempts = ap (λ m. m.attempts) went ∙ set_connecting_attempts r a v.phase_after in
    let distinct : a.next_connection ≢ c = λ same. absurd (omega (arith, same, v.same_next, lt)) in
    let old =
      ap (λ f. (f c).outcome) attempts
      ∙ ap (λ t. t.outcome) (update_off a.next_connection c _ a.attempts distinct)
      ∙ v.rejected_promise in
    let fresh =
      ap (λ f. f next) attempts
      ∙ ap (λ n. update n fresh_attempt a.attempts next) v.same_next
      ∙ update_at next fresh_attempt a.attempts in
    let (over, off) = stale_continues c next r conn' now waiting old phase in
    let deaf = ap (λ t. t.listening) off in
    (
      phase,
      over,
      ap (λ t. t.outcome) off ∙ ap (λ t. t.outcome) fresh,
      if_false _ _ deaf,
      λ chain reason. if_false _ _ deaf,
    )
