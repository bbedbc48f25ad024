-- ===== src/Http2/Session/Events.antt =====
-- What happens to a connection: the calls of the manager, the callbacks of node, and the timers.
use connect_es.Prelude.{ℕ, ◌<◌, ◌≡◌, Bool, Option, List}
use connect_es.ConnectError.{Reason, ok}
use connect_es.Http2.Session.{Options, Timer, Connection, Session}
use connect_es.Http2.Session.Handlers.{
  cleanup, OnSuccess, ping_answered, timer_fired, register_request, stream_response, stream_closed,
  response_byte_read, ping, abort, on_exit_state, on_goaway, ready_state,
}

pub data Event : Type 0 where
  registers responds stream_closes exits verifies : Event
  reads_byte : Bool → Connection → Event
  aborts : Option Reason → Connection → Event
  answers : OnSuccess → Bool → ℕ → Event
  fires : Timer → Event
  goes_away : ℕ → ℕ → Option (List ℕ) → Event
  conn_closes : Event

unfoldable pub handle : Event → Options → ℕ → Session → Session
unfolding register_request stream_response stream_closed on_exit_state ping response_byte_read abort
    ping_answered timer_fired on_goaway cleanup
handle registers o now s = register_request o now s
handle responds o now s = stream_response o now s
handle stream_closes o now s = stream_closed o now s
handle exits o now s = on_exit_state s
handle verifies o now s = ping o now s
handle (reads_byte own conn) o now s = response_byte_read own conn o now s
handle (aborts reason conn) o now s = abort reason conn s
handle (answers on failed duration) o now s = ping_answered on failed duration o now s
handle (fires t) o now s = timer_fired t o now s
handle (goes_away node_major code debug_data) o now s = on_goaway node_major code debug_data s
handle conn_closes o now s = cleanup s

-- A stream that closes was registered.
abbrev pub Possible : Event → Session → Type 0
Possible stream_closes s = 0 < s.stream_count
Possible _ s = Unit {0}

-- The sessions that come about, under options and at times that may change.
pub data Reachable : Session → Type 0 where
  opens :
      (conn : Connection) (o : Options) (now : ℕ) (s : Session)
      → ready_state conn o now ≡ ok s
      → Reachable s
  goes_on :
      (e : Event) (o : Options) (now : ℕ) (s : Session)
      → Possible e s
      → Reachable s
      → Reachable (handle e o now s)
