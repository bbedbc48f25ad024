-- ===== src/Tests/Connections.antt =====
-- The theorems on HTTP/2 connections applied to concrete runs.
use connect_es.Prelude.{
  ℕ, ◌≡◌, refl, ◌⊎◌, true, false, some, List, [], ◌∷◌, arith, ◌==◌, if◌then◌else◌, if_intro,
}
use connect_es.ConnectError.{other_value, Reason, thrown, ok, err}
use connect_es.Http2.Session.{
  finite, Options, TimerKind, ping_interval, Connection, Session, remove,
}
use connect_es.Http2.Session.Handlers.{
  reset_ping_interval, register_request, requires_verify, assert_session_open, new_session,
  opened_session, ready_state,
}
use connect_es.Http2.Session.Events.{registers, handle, Reachable, opens, goes_on}
use connect_es.Http2.Session.Timers.{count}
use connect_es.Http2.Session.Tidy.{IsTidy}
use connect_es.Http2.Session.Safety.{Reachable-IsTidy}
use connect_es.Http2.Manager.{
  error, connecting, verifying, ready, pending, fulfilled, fresh_attempt, Manager, goto_ready,
  ready_round, on_connect, on_connect_error, connection_continues, verification_continues,
  abort_manager, session_closes, session_fails,
}
use connect_es.Http2.Manager.Verification.{
  NeedsVerify, goto_ready-untimed, verification_continues-deaf,
}
use connect_es.Http2.Manager.Connecting.{abort-goto_ready-stuck}
use connect_es.Http2.Manager.Usable.{IsUsable, goto_ready-IsUsable}
use connect_es.Prelude.Text.{codes}
use connect_es.Http2.NodeError.{Chain}
use connect_es.Http2.Manager.Requests.{retries, failed, request_round, request_round-retries}
use connect_es.Http2.Manager.Shutdown.{IsReplaced, goto_ready-IsReplaced}
use connect_es.Http2.NodeError.Chain.{
  error_at, Heap, unwrap_node_error_chain, WithinAll, IsDistinct,
  unwrap_node_error_chain-IsDistinct,
}

abbrev options : Options
options = record {
  ping_interval_ms = finite 1000;
  ping_timeout_ms = finite 200;
  ping_idle_connection = false;
  idle_connection_timeout_ms = finite 9000;
}

abbrev open_connection : Connection
open_connection = record { connecting = false; closed = false; destroyed = false }

abbrev opened : Session
opened = opened_session options 0

opened_ready : ready_state open_connection options 0 ≡ ok opened
unfolding ready_state assert_session_open
opened_ready = refl

opened-Reachable : Reachable opened
opened-Reachable = opens open_connection options 0 opened opened_ready

Reachable-IsTidy_example : IsTidy (handle registers options 5 opened)
Reachable-IsTidy_example =
    Reachable-IsTidy (handle registers options 5 opened)
      (goes_on registers options 5 opened tt opened-Reachable)

-- With a stream open, the PING timer is the only one.
one_timer :
    (handle registers options 5 opened).timers
    ≡ record { id = 1; kind = ping_interval; due = 1005 } ∷ []
unfolding handle register_request reset_ping_interval opened_session new_session remove
one_timer = refl

abbrev quiet_manager : Manager
quiet_manager = record {
  phase = ready 0;
  shutting_down = [];
  options = options;
  sessions = λ i. opened;
  attempts = λ i. record { listening = false; outcome = fulfilled };
  next_connection = 1;
}

quiet-NeedsVerify : NeedsVerify open_connection 5000 0 quiet_manager
unfolding opened_session new_session requires_verify
quiet-NeedsVerify = record {
  is_ready = refl;
  goes_on = refl;
  is_open = refl;
  is_alive = refl;
  is_quiet = refl;
  tidy = Reachable-IsTidy opened opened-Reachable;
}

goto_ready-untimed_example :
    ((goto_ready open_connection 5000 quiet_manager).phase ≡ verifying 0)
    × ((k : TimerKind)
        → count k ((goto_ready open_connection 5000 quiet_manager).sessions 0).timers ≡ 0)
    × (((goto_ready open_connection 5000 quiet_manager).sessions 0).listening ≡ false)
goto_ready-untimed_example =
    goto_ready-untimed open_connection 5000 0 quiet_manager quiet-NeedsVerify

abbrev verified : Manager
verified = verification_continues 0 true (goto_ready open_connection 5000 quiet_manager)

abbrev reset : Reason
reset = thrown (other_value (codes "reset"))

verification_continues-deaf_example :
    (verified.phase ≡ ready 0)
    × (session_closes 0 verified ≡ verified)
    × (session_fails 0 [] reset verified ≡ verified)
verification_continues-deaf_example =
    verification_continues-deaf open_connection 5000 0 quiet_manager quiet-NeedsVerify [] reset

abbrev connecting_manager : Manager
connecting_manager = record {
  phase = connecting 0;
  shutting_down = [];
  options = options;
  sessions = λ i. opened;
  attempts = λ i. fresh_attempt;
  next_connection = 1;
}

abbrev waiting : Manager
waiting =
    goto_ready open_connection 7
      (abort_manager (some reset) open_connection (λ i. open_connection) connecting_manager)

abbrev stuck : Manager
stuck = connection_continues 0 open_connection 7 waiting

abort-goto_ready-stuck_example :
    (waiting.phase ≡ connecting 1)
    × (stuck.phase ≡ error reset)
    × ((stuck.attempts 1).outcome ≡ pending)
    × (on_connect 1 stuck ≡ stuck)
    × ((chain : Chain) (reason : Reason) → on_connect_error 1 chain reason stuck ≡ stuck)
abort-goto_ready-stuck_example =
    abort-goto_ready-stuck 0 reset connecting_manager refl refl (omega arith) open_connection
      open_connection (λ i. open_connection) 7

goto_ready-IsUsable_example :
    IsUsable open_connection 500 quiet_manager
      (ready_round (goto_ready open_connection 500 quiet_manager).phase)
goto_ready-IsUsable_example = goto_ready-IsUsable open_connection 500 quiet_manager

abbrev leaving_manager : Manager
leaving_manager = record quiet_manager { sessions = λ i. record opened { received_goaway = true } }

goto_ready-IsReplaced_example :
    let w = goto_ready open_connection 500 leaving_manager in
    IsReplaced 0 leaving_manager w
    × ((session_closes 0 w).phase ≡ connecting 1)
    × ((session_closes 0 w).shutting_down ≡ [])
unfolding opened_session new_session
goto_ready-IsReplaced_example =
    goto_ready-IsReplaced open_connection 500 0 leaving_manager refl refl refl tt

abbrev dead_connection : Connection
dead_connection = record { connecting = false; closed = true; destroyed = false }

request_round-retries_example :
    (dead_connection.closed ≡ false
      → dead_connection.destroyed ≡ false
      → request_round 0 (err reset) dead_connection 500 quiet_manager
        ≡ (failed reset, quiet_manager))
    × ((dead_connection.closed ≡ true) ⊎ (dead_connection.destroyed ≡ true)
        → (request_round 0 (err reset) dead_connection 500 quiet_manager ≡ (retries, quiet_manager))
          × ((goto_ready dead_connection 500 quiet_manager).phase ≡ connecting 1))
request_round-retries_example = request_round-retries 0 reset dead_connection 500 quiet_manager refl

-- Two errors that are each other's causes.
abbrev cycle : Heap
cycle a = if a == 0 then some (error_at 1) else some (error_at 0)

cycle_chain : unwrap_node_error_chain 2 cycle (error_at 0) ≡ some (0 ∷ 1 ∷ [])
unfolding unwrap_node_error_chain
cycle_chain = refl

unwrap_node_error_chain-IsDistinct_example :
    (chain : List ℕ) × (unwrap_node_error_chain 2 cycle (error_at 0) ≡ some chain)
    × IsDistinct chain
unwrap_node_error_chain-IsDistinct_example =
    unwrap_node_error_chain-IsDistinct 2 cycle (error_at 0)
      (λ a. if_intro (WithinAll 2) (a == 0) (λ e. omega arith) (λ e. omega arith)) (omega arith)
