-- ===== src/Http2/Session/Handlers.antt =====
-- The functions of the closure that `ready()` of
-- packages/connect-node/src/http2-session-manager.ts returns, and its listeners.
use connect_es.Prelude.{
  ℕ, ◌+◌, ◌-◌, Bool, true, false, ◌&&◌, ◌||◌, not, Option, none, some, List, [], ◌∷◌, ltb, leb,
  ◌==◌, if◌then◌else◌,
}
use connect_es.ConnectError.{Reason, connect_error, new_error, Result, ok, map_result, raise}
use connect_es.Http2.Session.{
  double, exceeds, Options, TimerKind, ping_interval, ping_timeout, idle_timeout, Timer, Connection,
  refs, unrefs, pings, closes, resolves, destroys, detached, Session, nghttp2_no_error,
  nghttp2_cancel, nghttp2_enhance_your_calm, emit, clear_timeout, safe_set_timeout,
}
use connect_es.Http2.NodeError.{Chain, connect_error_from_node_reason}
use connect_es.Prelude.Text.{Text, codes, text_eq}
use connect_es.Code.{canceled, resource_exhausted, internal, unavailable}

-- `stopPingInterval`
abbrev pub stop_ping_interval : Session → Session
stop_ping_interval s = clear_timeout s.ping_timeout_id (clear_timeout s.ping_interval_id s)

-- `resetPingInterval`
unfoldable pub reset_ping_interval : Options → ℕ → Session → Session
reset_ping_interval o now s =
    let stopped = stop_ping_interval s in
    if ltb 0 s.stream_count || o.ping_idle_connection
    then safe_set_timeout ping_interval o.ping_interval_ms now stopped
    else stopped

-- `stopIdleTimeout`
abbrev pub stop_idle_timeout : Session → Session
stop_idle_timeout s = clear_timeout s.idle_timeout_id s

-- `resetIdleTimeout`
abbrev pub reset_idle_timeout : Options → ℕ → Session → Session
reset_idle_timeout o now s = safe_set_timeout idle_timeout o.idle_connection_timeout_ms now s

-- `cleanup`
unfoldable pub cleanup : Session → Session
cleanup s = record (stop_idle_timeout (stop_ping_interval s)) { listening = false }

unfoldable pub timed_out : Reason
timed_out = connect_error (new_error (codes "PING timed out") unavailable [])

-- `commonPing`, up to the answer.
unfoldable pub common_ping : Options → ℕ → Session → Session
unfolding emit
common_ping o now s =
    emit pings
      (safe_set_timeout ping_timeout o.ping_timeout_ms now (clear_timeout s.ping_timeout_id s))

-- The `onSuccess` of a PING: it restarts the interval, or resolves the promise of `ping()`.
pub data OnSuccess : Type 0 where
  restarts resolves_promise : OnSuccess

unfoldable pub on_success : OnSuccess → Options → ℕ → Session → Session
unfolding reset_ping_interval emit
on_success restarts o now s = reset_ping_interval o now s
on_success resolves_promise o now s = emit resolves s

-- The callback of `conn.ping`.
unfoldable pub ping_answered : OnSuccess → Bool → ℕ → Options → ℕ → Session → Session
unfolding on_success timed_out emit
ping_answered on failed duration o now s =
    let waited = clear_timeout s.ping_timeout_id s in
    if failed
    then waited
    else if exceeds duration o.ping_timeout_ms
    then emit (destroys (some timed_out) nghttp2_cancel) waited
    else on_success on o now (record waited { last_alive_at = now })

-- What an idle timer does before the state's `onClose`: `conn.close()`, and `cleanup`.
unfoldable pub on_idle_timeout : Session → Session
unfolding emit cleanup
on_idle_timeout s = cleanup (emit closes s)

-- The callback of a timer.
unfoldable pub on_timer : TimerKind → Options → ℕ → Session → Session
unfolding common_ping on_idle_timeout emit timed_out
on_timer ping_interval o now s = common_ping o now s
on_timer ping_timeout o now s = emit (destroys (some timed_out) nghttp2_cancel) s
on_timer idle_timeout o now s = on_idle_timeout s

-- A timer that fires is no longer live.
unfoldable pub timer_fired : Timer → Options → ℕ → Session → Session
unfolding on_timer
timer_fired t o now s = on_timer t.kind o now (clear_timeout (some t.id) s)

-- `registerRequest`
unfoldable pub register_request : Options → ℕ → Session → Session
unfolding reset_ping_interval emit
register_request o now s =
    let opened = record s { stream_count = s.stream_count + 1 } in
    if opened.stream_count == 1
    then stop_idle_timeout (reset_ping_interval o now (emit refs opened))
    else opened

-- The "response" event of a registered stream.
unfoldable pub stream_response : Options → ℕ → Session → Session
unfolding reset_ping_interval
stream_response o now s = reset_ping_interval o now (record s { last_alive_at = now })

-- The "close" event of a registered stream.
unfoldable pub stream_closed : Options → ℕ → Session → Session
unfolding reset_ping_interval emit
stream_closed o now s =
    let left = record s { stream_count = s.stream_count - 1 } in
    if left.stream_count == 0
    then reset_idle_timeout o now (reset_ping_interval o now (emit unrefs left))
    else left

-- `responseByteRead`, by whether the stream is one of the connection.
unfoldable pub response_byte_read : Bool → Connection → Options → ℕ → Session → Session
unfolding reset_ping_interval
response_byte_read own conn o now s =
    if not own
    then s
    else if conn.closed || conn.destroyed
    then s
    else if leb s.stream_count 0
    then s
    else reset_ping_interval o now (record s { last_alive_at = now })

-- `ping`, called to verify the connection.
unfoldable pub ping : Options → ℕ → Session → Session
unfolding common_ping
ping o now s = common_ping o now s

-- `abort`
unfoldable pub abort : Option Reason → Connection → Session → Session
unfolding emit
abort reason conn s = if conn.destroyed then s else emit (destroys reason nghttp2_cancel) s

-- `requiresVerify`
unfoldable pub requires_verify : Options → ℕ → Session → Bool
requires_verify o now s = exceeds (now - s.last_alive_at) o.ping_interval_ms

-- `onExitState` of a connection that does not shut down.
unfoldable pub retire : Session → Session
unfolding cleanup
retire s = record (cleanup s) { callbacks = detached }

-- `onExitState`
unfoldable pub on_exit_state : Session → Session
unfolding retire
on_exit_state s = if s.received_goaway then s else retire s

-- `opaqueData.equals(Buffer.from("too_many_pings", "ascii"))` on a GOAWAY with ENHANCE_YOUR_CALM.
unfoldable pub too_many_pings : ℕ → Option (List ℕ) → Bool
too_many_pings code none = false
too_many_pings code (some debug_data) =
    code == nghttp2_enhance_your_calm && text_eq debug_data (codes "too_many_pings")

-- `onGoaway`: the options are shared with the manager, so the doubled interval goes to all its
-- connections. The debug data is compared with "too_many_pings" in ASCII.
unfoldable pub goaway_options : ℕ → Option (List ℕ) → Options → Options
unfolding too_many_pings
goaway_options code debug_data o =
    if too_many_pings code debug_data
    then record o { ping_interval_ms = double o.ping_interval_ms }
    else o

no_streams : Reason
no_streams =
    connect_error (new_error (codes "received GOAWAY without any open streams") canceled [])

unfoldable pub on_goaway : ℕ → ℕ → Option (List ℕ) → Session → Session
unfolding emit no_streams too_many_pings
on_goaway node_major code debug_data s =
    let noted = record s {
      received_goaway = true;
      received_too_many_pings = too_many_pings code debug_data || s.received_too_many_pings;
    } in
    if code == nghttp2_no_error && (s.stream_count == 0 && leb 18 node_major)
    then emit (destroys (some no_streams) nghttp2_no_error) noted
    else noted

calm_message : Text
calm_message =
    codes
      "http/2 connection closed with error code ENHANCE_YOUR_CALM (0xb), too_many_pings, doubled the interval"

-- The reason that `onError` passes on.
unfoldable pub error_reason : Chain → Reason → Session → Reason
unfolding calm_message
error_reason chain reason s = connect_error (
    if s.received_too_many_pings
    then new_error calm_message resource_exhausted []
    else connect_error_from_node_reason chain reason)

-- `assertSessionOpen`
unfoldable pub assert_session_open : Connection → Result (Unit {0})
assert_session_open conn =
    if conn.connecting
    then raise (codes "expected open session, but it is connecting") internal
    else if conn.destroyed
    then raise (codes "expected open session, but it is destroyed") internal
    else if conn.closed
    then raise (codes "expected open session, but it is closed") internal
    else ok tt

-- The variables of `ready` before the idle timer is started.
unfoldable pub new_session : ℕ → Session
new_session now = record {
  last_alive_at = now;
  stream_count = 0;
  ping_interval_id = none;
  ping_timeout_id = none;
  idle_timeout_id = none;
  received_goaway = false;
  received_too_many_pings = false;
  listening = true;
  callbacks = detached;
  timers = [];
  next_id = 0;
  effects = unrefs ∷ [];
}

unfoldable pub opened_session : Options → ℕ → Session
unfolding new_session
opened_session o now = reset_idle_timeout o now (new_session now)

-- `ready`
unfoldable pub ready_state : Connection → Options → ℕ → Result Session
unfolding assert_session_open opened_session
ready_state conn o now = map_result (λ _. opened_session o now) (assert_session_open conn)
