-- ===== src/Http2/Manager/Verification.antt =====
-- The verification of a connection that was quiet for long.
use connect_es.Prelude.{ℕ, ◌≡◌, refl, ap, ◌∙◌, true, false, ◌||◌, arith, if_true, if_false}
use connect_es.Http2.Session.{
  Options, TimerKind, ping_interval, ping_timeout, idle_timeout, Connection, managed, Session,
  remove, clear_timeout,
}
use connect_es.Http2.Session.Handlers.{
  stop_ping_interval, cleanup, ping, requires_verify, retire, on_exit_state,
}
use connect_es.Http2.Session.Timers.{count, count-remove}
use connect_es.Http2.Session.Tidy.{IsTidy, clear_timeout-IsTidy, cleared, stop_ping_interval-IsTidy}
use connect_es.Http2.Manager.{
  verifying, ready, Manager, update_at, put_session, leave_ready, exit_phase, enter_phase,
  set_state, set_verifying, goto_from, goto_ready, verification_continues, session_closes,
  session_fails,
}
use connect_es.Http2.Session.Frames.{ping-IsSame}
use connect_es.Http2.NodeError.{Chain}
use connect_es.Http2.Session.Safety.{common_ping-IsTidy}
use connect_es.ConnectError.{Reason}

-- A tidy session that is cleaned up has no live timer.
cleanup-count : (k : TimerKind) (s : Session) → IsTidy s → count k (retire s).timers ≡ 0
unfolding retire cleanup
cleanup-count ping_interval s v =
    let timeout_removed =
      count-remove ping_interval s.ping_timeout_id (remove s.ping_interval_id s.timers) in
    omega (
      arith,
      cleared ping_interval s v,
      timeout_removed,
      count-remove ping_interval s.idle_timeout_id
          (remove s.ping_timeout_id (remove s.ping_interval_id s.timers)),
    )
cleanup-count ping_timeout s v =
    let w = clear_timeout-IsTidy s.ping_interval_id s v in
    omega (
      arith,
      cleared ping_timeout (clear_timeout s.ping_interval_id s) w,
      count-remove ping_timeout s.idle_timeout_id
          (remove s.ping_timeout_id (remove s.ping_interval_id s.timers)),
    )
cleanup-count idle_timeout s v =
    cleared idle_timeout (stop_ping_interval s) (stop_ping_interval-IsTidy s v)

-- A connection needs verification: it is open, and nothing was heard of it for long.
pub record NeedsVerify (conn : Connection) (now i : ℕ) (m : Manager) : Type 0 where
  pub is_ready : m.phase ≡ ready i
  pub goes_on : (m.sessions i).received_goaway ≡ false
  pub is_open : conn.closed ≡ false
  pub is_alive : conn.destroyed ≡ false
  pub is_quiet : requires_verify m.options now (m.sessions i) ≡ true
  pub tidy : IsTidy (m.sessions i)

goto_ready-verifying :
    (conn : Connection) (now i : ℕ) (m : Manager)
    → NeedsVerify conn now i m
    → goto_ready conn now m ≡ set_verifying i now m
unfolding goto_ready goto_from
goto_ready-verifying conn now i m v =
    let usable : ((m.sessions i).received_goaway || (conn.closed || conn.destroyed)) ≡ false =
      rw (v.goes_on, v.is_open, v.is_alive) refl in
    ap (λ p. goto_from p conn now m) v.is_ready ∙ if_false _ _ usable ∙ if_true _ _ v.is_quiet

retire-goaway : (s : Session) → (retire s).received_goaway ≡ s.received_goaway
unfolding retire cleanup
retire-goaway s = refl

leave_ready-retire :
    (i : ℕ) (m : Manager)
    → (m.sessions i).received_goaway ≡ false
    → exit_phase (ready i) m ≡ put_session i (retire (m.sessions i)) m
unfolding exit_phase leave_ready on_exit_state
leave_ready-retire i m g =
    let left : on_exit_state (m.sessions i) ≡ retire (m.sessions i) = if_false _ _ g in
    ap (λ s. leave_ready i s m) left ∙ if_false _ _ (retire-goaway (m.sessions i) ∙ g)

verifying_session :
    (now i : ℕ) (m : Manager)
    → m.phase ≡ ready i
    → (m.sessions i).received_goaway ≡ false
    → (set_verifying i now m).sessions i ≡ retire (ping m.options now (m.sessions i))
unfolding set_verifying set_state
verifying_session now i m e g =
    let pinged = ping m.options now (m.sessions i) in
    let m1 = put_session i pinged m in
    let same = update_at i pinged m.sessions in
    ap (λ p. (exit_phase p m1).sessions i) e
    ∙ ap (λ m. m.sessions i)
        (leave_ready-retire i m1
          (ap (λ s. s.received_goaway) same ∙ (ping-IsSame m.options now (m.sessions i)).1 ∙ g))
    ∙ update_at i _ m1.sessions
    ∙ ap retire same

verifying-retired :
    (conn : Connection) (now i : ℕ) (m : Manager)
    → NeedsVerify conn now i m
    → (goto_ready conn now m).sessions i ≡ retire (ping m.options now (m.sessions i))
verifying-retired conn now i m v =
    ap (λ m. m.sessions i) (goto_ready-verifying conn now i m v)
    ∙ verifying_session now i m v.is_ready v.goes_on

ping-IsTidy : (o : Options) (now : ℕ) (s : Session) → IsTidy s → IsTidy (ping o now s)
unfolding ping
ping-IsTidy o now s v = common_ping-IsTidy o now s v

retire-listening : (s : Session) → (retire s).listening ≡ false
unfolding retire cleanup
retire-listening s = refl

set_verifying-phase : (i now : ℕ) (m : Manager) → (set_verifying i now m).phase ≡ verifying i
unfolding set_verifying set_state
set_verifying-phase i now m = refl

-- When a request finds a connection that needs verification, the manager verifies it, and while it
-- waits for the answer to the PING, the connection has no timer that could end the wait, and none
-- of the listeners of the manager.
pub goto_ready-untimed :
    (conn : Connection) (now i : ℕ) (m : Manager)
    → NeedsVerify conn now i m
    → ((goto_ready conn now m).phase ≡ verifying i)
      × ((k : TimerKind) → count k ((goto_ready conn now m).sessions i).timers ≡ 0)
      × (((goto_ready conn now m).sessions i).listening ≡ false)
goto_ready-untimed conn now i m v =
    let retired = verifying-retired conn now i m v in
    (
      ap (λ m. m.phase) (goto_ready-verifying conn now i m v) ∙ set_verifying-phase i now m,
      λ k.
          ap (λ s. count k s.timers) retired
          ∙ cleanup-count k _ (ping-IsTidy m.options now (m.sessions i) v.tidy),
      ap (λ s. s.listening) retired ∙ retire-listening _,
    )

verified_session :
    (i : ℕ) (m : Manager)
    → m.phase ≡ verifying i
    → (verification_continues i true m).sessions i ≡ record (m.sessions i) { callbacks = managed }
unfolding verification_continues set_state exit_phase
verified_session i m e =
    ap (λ p. (enter_phase (ready i) (exit_phase p m)).sessions i) e ∙ update_at i _ m.sessions

verified_phase : (i : ℕ) (m : Manager) → (verification_continues i true m).phase ≡ ready i
unfolding verification_continues set_state
verified_phase i m = refl

-- When the PING is answered in time, the connection is ready again, but the manager no longer
-- hears of it: its "close" and "error" events change nothing.
pub verification_continues-deaf :
    (conn : Connection) (now i : ℕ) (m : Manager)
    → NeedsVerify conn now i m
    → (chain : Chain) (reason : Reason)
    → let m' = verification_continues i true (goto_ready conn now m) in
      (m'.phase ≡ ready i) × (session_closes i m' ≡ m') × (session_fails i chain reason m' ≡ m')
unfolding session_closes session_fails
verification_continues-deaf conn now i m v chain reason =
    let (p, t, l) = goto_ready-untimed conn now i m v in
    let waiting = goto_ready conn now m in
    let deaf = ap (λ s. s.listening) (verified_session i waiting p) ∙ l in
    (verified_phase i waiting, if_false _ _ deaf, if_false _ _ deaf)
