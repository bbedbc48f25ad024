-- ===== src/Http2/Manager/Shutdown.antt =====
-- Connections that were asked to shut down.
use connect_es.Prelude.{
  ℕ, suc, ◌≡◌, refl, sym, ap, ◌∙◌, subst, true, false, ◌||◌, List, [], ◌∷◌, ◌++◌, ◌==◌, ==_refl,
  if_true, if_false, All,
}
use connect_es.Http2.Session.{Connection, removing}
use connect_es.Http2.Session.Handlers.{cleanup, on_exit_state}
use connect_es.Http2.Manager.{
  closed, connecting, ready, fresh_attempt, Manager, update, update_at, put_session, leave_ready,
  exit_phase, set_state, set_connecting, goto_from, goto_ready, call_back, session_closes, without,
}

-- The manager with a connection `i` that goes away, and with the one that takes its place.
pub record IsReplaced (i : ℕ) (m w : Manager) : Type 0 where
  pub new_phase : w.phase ≡ connecting m.next_connection
  pub maintained : w.shutting_down ≡ m.shutting_down ++ i ∷ []
  pub untouched : w.sessions i ≡ record (m.sessions i) { callbacks = removing }

leave_ready-goaway :
    (i : ℕ) (m : Manager)
    → (m.sessions i).received_goaway ≡ true
    → exit_phase (ready i) m
      ≡ put_session i
          (record (m.sessions i) { callbacks = removing })
          (record m { shutting_down = m.shutting_down ++ i ∷ [] })
unfolding exit_phase leave_ready on_exit_state
leave_ready-goaway i m g = ap (λ s. leave_ready i s m) (if_true (m.sessions i) _ g) ∙ if_true _ _ g

replaced :
    (i : ℕ) (m : Manager)
    → m.phase ≡ ready i
    → (m.sessions i).received_goaway ≡ true
    → IsReplaced i m (set_connecting m)
unfolding set_connecting set_state
replaced i m e g =
    let m1 : Manager = record m {
      next_connection = suc m.next_connection;
      attempts = update m.next_connection fresh_attempt m.attempts;
    } in
    let left = ap (λ p. exit_phase p m1) e ∙ leave_ready-goaway i m1 g in
    record {
      new_phase = refl;
      maintained = ap (λ m. m.shutting_down) left;
      untouched = ap (λ m. m.sessions i) left ∙ update_at i _ m.sessions;
    }

without-last :
    (i : ℕ) (js : List ℕ) → All (λ j. (i == j) ≡ false) js → without i (js ++ i ∷ []) ≡ js
unfolding without
without-last i [] w = if_true _ _ (==_refl i)
without-last i (j ∷ js) (d, w) = if_false _ _ d ∙ ap (◌∷◌ j) (without-last i js w)

-- The "close" event of a connection that is maintained.
removing_closes :
    (i : ℕ) (w : Manager)
    → (w.sessions i).listening ≡ true
    → (w.sessions i).callbacks ≡ removing
    → session_closes i w ≡ record (put_session i (cleanup (w.sessions i)) w) {
      shutting_down = without i w.shutting_down;
    }
unfolding session_closes call_back
removing_closes i w l c =
    let cleaned = put_session i (cleanup (w.sessions i)) w in
    if_true _ _ l ∙ ap (λ c. call_back c i closed cleaned) c

goto_ready-goaway :
    (conn : Connection) (now i : ℕ) (m : Manager)
    → m.phase ≡ ready i
    → (m.sessions i).received_goaway ≡ true
    → goto_ready conn now m ≡ set_connecting m
unfolding goto_ready goto_from
goto_ready-goaway conn now i m e g =
    let leaving : ((m.sessions i).received_goaway || (conn.closed || conn.destroyed)) ≡ true =
      rw g refl in
    ap (λ p. goto_from p conn now m) e ∙ if_true _ _ leaving

-- When a connection was asked to shut down, the next request opens a new one, and the old one is
-- maintained with its timers, listeners and streams, in the list `shuttingDown` from which its end
-- takes it without another change of the state: if it was not in the list before.
pub goto_ready-IsReplaced :
    (conn : Connection) (now i : ℕ) (m : Manager)
    → m.phase ≡ ready i
    → (m.sessions i).received_goaway ≡ true
    → (m.sessions i).listening ≡ true
    → All (λ j. (i == j) ≡ false) m.shutting_down
    → let w = goto_ready conn now m in
      IsReplaced i m w
      × ((session_closes i w).phase ≡ connecting m.next_connection)
      × ((session_closes i w).shutting_down ≡ m.shutting_down)
goto_ready-IsReplaced conn now i m e g l absent =
    let w = goto_ready conn now m in
    let v : IsReplaced i m w =
      subst (IsReplaced i m) (sym (goto_ready-goaway conn now i m e g)) (replaced i m e g) in
    let closed_w =
      removing_closes i w (ap (λ s. s.listening) v.untouched ∙ l)
        (ap (λ s. s.callbacks) v.untouched) in
    (
      v,
      ap (λ m. m.phase) closed_w ∙ v.new_phase,
      ap (λ m. m.shutting_down) closed_w
          ∙ ap (without i) v.maintained
          ∙ without-last i m.shutting_down absent,
    )
