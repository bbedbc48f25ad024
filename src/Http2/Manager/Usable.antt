-- ===== src/Http2/Manager/Usable.antt =====
-- The connections that `gotoReady` gives out.
use connect_es.Prelude.{ℕ, ◌≡◌, refl, sym, subst, false, ◌||◌, if_intro, or_false}
use connect_es.Http2.Session.{Connection}
use connect_es.Http2.Session.Handlers.{requires_verify}
use connect_es.Http2.Manager.{
  Phase, closed, error, connecting, verifying, ready, Manager, set_state, set_connecting,
  set_verifying, goto_from, goto_ready, Round, returns, awaits_connection, awaits_verification,
  ready_round,
}

-- The first round of the loop of `gotoReady`, with what it says of the connection that it returns.
pub data IsUsable (conn : Connection) (now : ℕ) (m : Manager) : Round → Type 0 where
  returned :
      (i : ℕ)
      → m.phase ≡ ready i
      → (m.sessions i).received_goaway ≡ false
      → conn.closed ≡ false
      → conn.destroyed ≡ false
      → requires_verify m.options now (m.sessions i) ≡ false
      → IsUsable conn now m (returns i)
  connects : (c : ℕ) → IsUsable conn now m (awaits_connection c)
  verifies : (i : ℕ) → IsUsable conn now m (awaits_verification i)

goto_from-IsUsable :
    (p : Phase) (conn : Connection) (now : ℕ) (m : Manager)
    → m.phase ≡ p
    → IsUsable conn now m (ready_round (goto_from p conn now m).phase)
unfolding goto_from set_connecting set_verifying set_state
goto_from-IsUsable closed conn now m e = connects m.next_connection
goto_from-IsUsable (error r) conn now m e = connects m.next_connection
goto_from-IsUsable (connecting c) conn now m e =
    subst (λ p. IsUsable conn now m (ready_round p)) (sym e) (connects c)
goto_from-IsUsable (verifying i) conn now m e =
    subst (λ p. IsUsable conn now m (ready_round p)) (sym e) (verifies i)
goto_from-IsUsable (ready i) conn now m e =
    if_intro (λ (x : Manager). IsUsable conn now m (ready_round x.phase))
      ((m.sessions i).received_goaway || (conn.closed || conn.destroyed))
      (λ bad. connects m.next_connection)
      (λ good.
        if_intro (λ (x : Manager). IsUsable conn now m (ready_round x.phase))
          (requires_verify m.options now (m.sessions i)) (λ quiet. verifies i)
          (λ heard.
            let (g, rest) = or_false _ _ good in
            let (c, d) = or_false _ _ rest in
            subst (λ p. IsUsable conn now m (ready_round p)) (sym e) (returned i e g c d heard)))

-- `gotoReady` leaves the manager connecting, verifying or ready, so its loop first returns or
-- awaits, and a connection that it returns without waiting is one that it found ready: open, not
-- shutting down, and heard of recently.
pub goto_ready-IsUsable :
    (conn : Connection) (now : ℕ) (m : Manager)
    → IsUsable conn now m (ready_round (goto_ready conn now m).phase)
unfolding goto_ready
goto_ready-IsUsable conn now m = goto_from-IsUsable m.phase conn now m refl
