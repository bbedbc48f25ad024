-- ===== src/Http2/Manager.antt =====
-- `Http2SessionManager` of packages/connect-node/src/http2-session-manager.ts, with `connect()` and
-- `verify()`. Connections are known by numbers. A promise that settles and the continuation that
-- the manager put on it are two steps, since the continuation runs in a later microtask.
pub mod Verification
pub mod Connecting
pub mod Usable
pub mod Requests
pub mod Shutdown
use connect_es.Prelude.{
  ℕ, suc, ◌≡◌, refl, ◌≢◌, Bool, true, false, ◌||◌, Option, none, some, List, [], ◌∷◌, ◌++◌, arith,
  ltb, ◌==◌, if◌then◌else◌, ==_refl, or_else, if_false,
}
use connect_es.Prelude.Text.{Text, codes}
use connect_es.Code.{canceled, aborted, is_canceled}
use connect_es.ConnectError.{Reason, connect_error, thrown, new_error, Result, ok, err}
use connect_es.Http2.Session.{Options, Connection, Callbacks, detached, managed, removing, Session}
use connect_es.Http2.Session.Handlers.{
  cleanup, ping, abort, requires_verify, on_exit_state, error_reason, ready_state,
}
use connect_es.Http2.NodeError.{Chain, connect_error_from_node_reason}

-- The states, by the connection that they are about.
pub data Phase : Type 0 where
  closed : Phase
  error : Reason → Phase
  connecting verifying ready : ℕ → Phase

-- The promise of `connect()`.
pub data Settled : Type 0 where
  pending fulfilled : Settled
  rejected : Reason → Settled

-- A connection that is being established; `listening` tells that the listeners for "connect" and
-- "error" are on it.
pub record Attempt : Type 0 where
  pub listening : Bool
  pub outcome : Settled

abbrev pub fresh_attempt : Attempt
fresh_attempt = record { listening = true; outcome = pending }

pub record Manager : Type 0 where
  pub phase : Phase
  pub shutting_down : List ℕ
  pub options : Options
  pub sessions : ℕ → Session
  pub attempts : ℕ → Attempt
  pub next_connection : ℕ

abbrev pub update {ℓ} : {A : Type ℓ} → ℕ → A → (ℕ → A) → ℕ → A
update i a f j = if i == j then a else f j

pub update_at : {A : Type 0} (i : ℕ) (a : A) (f : ℕ → A) → update i a f i ≡ a
update_at i a f = rw (==_refl i) refl

pub update_off : {A : Type 0} (i j : ℕ) (a : A) (f : ℕ → A) → i ≢ j → update i a f j ≡ f j
update_off i j a f d = if_false a (f j) (ground (arith, d))

abbrev pub put_session : ℕ → Session → Manager → Manager
put_session i s m = record m { sessions = update i s m.sessions }

abbrev put_attempt : ℕ → Attempt → Manager → Manager
put_attempt c a m = record m { attempts = update c a m.attempts }

-- `closedOrError`
abbrev pub closed_or_error : Reason → Phase
closed_or_error (connect_error e) = if is_canceled e.code then closed else error (connect_error e)
closed_or_error (thrown t) = error (thrown t)

-- `state()`
unfoldable pub state : Manager → Text
state m = elim m.phase [
  | closed ↦ codes "closed"
  | error r ↦ codes "error"
  | connecting c ↦ codes "connecting"
  | verifying i ↦ codes "verifying"
  | ready i ↦ if ltb 0 (m.sessions i).stream_count then codes "open" else codes "idle"
]

-- A connection that was asked to shut down is maintained.
unfoldable pub leave_ready : ℕ → Session → Manager → Manager
leave_ready i s m =
    if s.received_goaway
    then put_session i (record s { callbacks = removing })
        (record m { shutting_down = m.shutting_down ++ i ∷ [] })
    else put_session i s m

-- `error()`
unfoldable pub current_error : Manager → Option Reason
current_error m = elim m.phase [ error r ↦ some r | _ ↦ none ]

-- `onExitState` of the state that is left, and the keeping of a connection that shuts down.
unfoldable pub exit_phase : Phase → Manager → Manager
unfolding on_exit_state leave_ready
exit_phase closed m = m
exit_phase (error r) m = m
exit_phase (connecting c) m =
    put_attempt c (record { listening = false; outcome = (m.attempts c).outcome }) m
exit_phase (verifying i) m = m
exit_phase (ready i) m = leave_ready i (on_exit_state (m.sessions i)) m

-- What `setState` does with the state that is entered.
abbrev pub enter_phase : Phase → Manager → Manager
enter_phase (ready i) m = put_session i (record (m.sessions i) { callbacks = managed }) m
enter_phase _ m = m

-- `setState`
unfoldable pub set_state : Phase → Manager → Manager
unfolding exit_phase
set_state p m = record (enter_phase p (exit_phase m.phase m)) { phase = p }

-- `connect()`, and the change to its state.
unfoldable pub set_connecting : Manager → Manager
unfolding set_state
set_connecting m =
    let c = m.next_connection in
    set_state (connecting c) (
      put_attempt c (record { listening = true; outcome = pending })
        (record m { next_connection = suc c }))

-- `verify()`, and the change to its state: the PING is sent before the old state is left.
unfoldable pub set_verifying : ℕ → ℕ → Manager → Manager
unfolding set_state ping
set_verifying i now m =
    set_state (verifying i) (put_session i (ping m.options now (m.sessions i)) m)

-- `gotoReady`, up to its loop, by the state and for the flags of its connection.
unfoldable pub goto_from : Phase → Connection → ℕ → Manager → Manager
unfolding set_connecting set_verifying requires_verify
goto_from closed conn now m = set_connecting m
goto_from (error r) conn now m = set_connecting m
goto_from (connecting c) conn now m = m
goto_from (verifying i) conn now m = m
goto_from (ready i) conn now m =
    if (m.sessions i).received_goaway || (conn.closed || conn.destroyed)
    then set_connecting m
    else if requires_verify m.options now (m.sessions i)
    then set_verifying i now m
    else m

unfoldable pub goto_ready : Connection → ℕ → Manager → Manager
unfolding goto_from
goto_ready conn now m = goto_from m.phase conn now m

-- A round of the loop of `gotoReady`.
pub data Round : Type 0 where
  returns awaits_connection awaits_verification : ℕ → Round
  throws : Reason → Round
  spins : Round

abbrev pub ready_round : Phase → Round
ready_round (ready i) = returns i
ready_round (error r) = throws r
ready_round (connecting c) = awaits_connection c
ready_round (verifying i) = awaits_verification i
ready_round closed = spins

-- The listeners "connect" and "error" of `connect()`; the promise settles once.
abbrev settle : Settled → Settled → Settled
settle pending s = s
settle fulfilled s = fulfilled
settle (rejected r) s = rejected r

unfoldable pub settle_attempt : ℕ → Settled → Manager → Manager
settle_attempt c s m =
    put_attempt c (record { listening = false; outcome = settle (m.attempts c).outcome s }) m

unfoldable pub on_connect : ℕ → Manager → Manager
unfolding settle_attempt
on_connect c m = if (m.attempts c).listening then settle_attempt c fulfilled m else m

unfoldable pub on_connect_error : ℕ → Chain → Reason → Manager → Manager
unfolding settle_attempt
on_connect_error c chain r m =
    if (m.attempts c).listening
    then settle_attempt c (rejected (connect_error (connect_error_from_node_reason chain r))) m
    else m

-- The continuation of the promise of `connect()`; `ready` may throw, which leaves the state.
abbrev become_ready : ℕ → Result Session → Manager → Manager
become_ready c (ok s) m = set_state (ready c) (put_session c s m)
become_ready c (err r) m = m

continue_with : Settled → ℕ → Connection → ℕ → Manager → Manager
unfolding set_state ready_state
continue_with pending c conn now m = m
continue_with fulfilled c conn now m = become_ready c (ready_state conn m.options now) m
continue_with (rejected r) c conn now m = set_state (closed_or_error r) m

unfoldable pub connection_continues : ℕ → Connection → ℕ → Manager → Manager
unfolding continue_with
connection_continues c conn now m = continue_with (m.attempts c).outcome c conn now m

-- The continuation of the promise of `verify()`.
unfoldable pub verification_continues : ℕ → Bool → Manager → Manager
unfolding set_state set_connecting
verification_continues i success m = if success then set_state (ready i) m else set_connecting m

-- `abort` of a state, for the flags of its connection.
unfoldable pub abort_phase : Phase → Reason → Connection → Manager → Manager
unfolding abort
abort_phase closed r conn m = m
abort_phase (error e) r conn m = m
abort_phase (connecting c) r conn m =
    put_attempt c
      (record {
        listening = (m.attempts c).listening;
        outcome = settle (m.attempts c).outcome (rejected r);
      })
      m
abort_phase (verifying i) r conn m = put_session i (abort (some r) conn (m.sessions i)) m
abort_phase (ready i) r conn m = put_session i (abort (some r) conn (m.sessions i)) m

-- The states in `shuttingDown`.
abort_all : List ℕ → Reason → (ℕ → Connection) → Manager → Manager
unfolding abort
abort_all [] r conns m = m
abort_all (i ∷ is) r conns m =
    abort_all is r conns (put_session i (abort (some r) (conns i) (m.sessions i)) m)

abort_reason : Option Reason → Reason
abort_reason reason =
    or_else reason (connect_error (new_error (codes "connection aborted") canceled []))

-- `abort`
unfoldable pub abort_manager : Option Reason → Connection → (ℕ → Connection) → Manager → Manager
unfolding abort_phase abort_all abort_reason set_state
abort_manager reason conn conns m =
    let r = abort_reason reason in
    let aborted = abort_phase m.phase r conn m in
    set_state (closed_or_error r) (abort_all m.shutting_down r conns aborted)

-- The `onClose` and `onError` of a state, which change the manager's state to the given one or
-- take the connection off `shuttingDown`.
without : ℕ → List ℕ → List ℕ
without i [] = []
without i (j ∷ js) = let rest = without i js in if i == j then js else j ∷ rest

unfoldable pub call_back : Callbacks → ℕ → Phase → Manager → Manager
unfolding set_state without
call_back detached i p m = m
call_back managed i p m = set_state p m
call_back removing i p m = record m { shutting_down = without i m.shutting_down }

-- The listeners "close" and "error" of a connection.
unfoldable pub session_closes : ℕ → Manager → Manager
unfolding call_back cleanup
session_closes i m =
    let s = m.sessions i in
    if s.listening then call_back s.callbacks i closed (put_session i (cleanup s) m) else m

unfoldable pub session_fails : ℕ → Chain → Reason → Manager → Manager
unfolding call_back cleanup error_reason
session_fails i chain r m =
    let s = m.sessions i in
    if s.listening
    then call_back s.callbacks i (closed_or_error (error_reason chain r s))
        (put_session i (cleanup s) m)
    else m
