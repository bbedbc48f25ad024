-- ===== src/Http2/Session.antt =====
-- `ready()` of packages/connect-node/src/http2-session-manager.ts: an open connection, its timers
-- and the keep-alive. What the closure asks of the connection of node is recorded in `effects`, and
-- what it reads of it is an argument; a timer that was set and neither cleared nor fired is live.
pub mod Handlers
pub mod Events
pub mod Timers
pub mod Tidy
pub mod Safety
pub mod Frames
use connect_es.Prelude.{
  ℕ, suc, ◌+◌, ◌*◌, Bool, false, Option, none, some, List, [], ◌∷◌, ◌++◌, ltb, ◌==◌, if◌then◌else◌,
}
use connect_es.ConnectError.{Reason}

-- A number of milliseconds, or `Number.POSITIVE_INFINITY`.
pub data Ms : Type 0 where
  finite : ℕ → Ms
  infinite : Ms

abbrev pub double : Ms → Ms
double (finite ms) = finite (ms * 2)
double infinite = infinite

-- `elapsed > ms`
abbrev pub exceeds : ℕ → Ms → Bool
exceeds elapsed (finite ms) = ltb ms elapsed
exceeds elapsed infinite = false

-- `Required<Http2SessionOptions>`
pub record Options : Type 0 where
  pub ping_interval_ms : Ms
  pub ping_timeout_ms : Ms
  pub ping_idle_connection : Bool
  pub idle_connection_timeout_ms : Ms

pub data TimerKind : Type 0 where
  ping_interval ping_timeout idle_timeout : TimerKind

pub record Timer : Type 0 where
  pub id : ℕ
  pub kind : TimerKind
  pub due : ℕ

-- The flags of `http2.ClientHttp2Session`.
pub record Connection : Type 0 where
  pub connecting : Bool
  pub closed : Bool
  pub destroyed : Bool

-- Calls of the connection's methods, and the promise of `ping()` resolved to `true`.
pub data Effect : Type 0 where
  refs unrefs pings closes resolves : Effect
  destroys : Option Reason → ℕ → Effect

-- What `onClose` and `onError` of a `StateReady` do: nothing, a change of the manager's state, or
-- the removal from `shuttingDown`.
pub data Callbacks : Type 0 where
  detached managed removing : Callbacks

-- The variables of the closure. `listening` tells that the listeners for "error", "close" and
-- "goaway" are on the connection.
pub record Session : Type 0 where
  pub last_alive_at : ℕ
  pub stream_count : ℕ
  pub ping_interval_id : Option ℕ
  pub ping_timeout_id : Option ℕ
  pub idle_timeout_id : Option ℕ
  pub received_goaway : Bool
  pub received_too_many_pings : Bool
  pub listening : Bool
  pub callbacks : Callbacks
  pub timers : List Timer
  pub next_id : ℕ
  pub effects : List Effect

abbrev pub nghttp2_no_error : ℕ
nghttp2_no_error = 0x0

abbrev pub nghttp2_cancel : ℕ
nghttp2_cancel = 0x8

abbrev pub nghttp2_enhance_your_calm : ℕ
nghttp2_enhance_your_calm = 0xb

unfoldable pub emit : Effect → Session → Session
emit e s = record s { effects = s.effects ++ e ∷ [] }

-- `clearTimeout`
unfoldable pub remove : Option ℕ → List Timer → List Timer
remove none ts = ts
remove (some i) [] = []
remove (some i) (t ∷ ts) = let rest = remove (some i) ts in if t.id == i then rest else t ∷ rest

abbrev pub clear_timeout : Option ℕ → Session → Session
clear_timeout id s = record s { timers = remove id s.timers }

-- The variable that holds the id of a timer.
abbrev pub id_of : TimerKind → Session → Option ℕ
id_of ping_interval s = s.ping_interval_id
id_of ping_timeout s = s.ping_timeout_id
id_of idle_timeout s = s.idle_timeout_id

abbrev pub assign : TimerKind → Option ℕ → Session → Session
assign ping_interval id s = record s { ping_interval_id = id }
assign ping_timeout id s = record s { ping_timeout_id = id }
assign idle_timeout id s = record s { idle_timeout_id = id }

-- `id = setTimeout(…)`
abbrev pub set_timeout : TimerKind → ℕ → ℕ → Session → Session
set_timeout kind ms now s =
    let timer : Timer = record { id = s.next_id; kind = kind; due = now + ms } in
    assign kind (some s.next_id) (record s { timers = timer ∷ s.timers; next_id = suc s.next_id })

-- `id = safeSetTimeout(…)`
abbrev pub safe_set_timeout : TimerKind → Ms → ℕ → Session → Session
safe_set_timeout kind infinite now s = assign kind none s
safe_set_timeout kind (finite ms) now s =
    if ltb 0x7fffffff ms then assign kind none s else set_timeout kind ms now s
