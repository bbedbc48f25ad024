-- ===== src/Http2/Manager/Requests.antt =====
-- `request` and `notifyResponseByteRead` of `Http2SessionManager`.
use connect_es.Prelude.{
  ℕ, ◌≡◌, refl, ap, ◌∙◌, ◌≢◌, ◌⊎◌, inl, inr, Bool, true, false, ◌||◌, List, [], ◌∷◌, arith, ◌==◌,
  if◌then◌else◌, ==_iff, Bool-cases, if_true, if_false, or_true,
}
use connect_es.ConnectError.{Reason, Result, ok, err}
use connect_es.Http2.Session.{Options, Connection, Session}
use connect_es.Http2.Session.Handlers.{register_request, response_byte_read}
use connect_es.Http2.Manager.{
  Phase, closed, error, connecting, verifying, ready, Manager, put_session, set_connecting,
  goto_from, goto_ready,
}
use connect_es.Http2.Manager.Connecting.{set_connecting-phase}

-- A round of the loop of `request` opens a stream, goes on with the next round, or throws.
pub data RequestRound : Type 0 where
  opened retries : RequestRound
  failed : Reason → RequestRound

abbrev end_round : ℕ → Result (Unit {0}) → Connection → ℕ → Manager → RequestRound × Manager
end_round i (ok u) conn now m =
    (opened, put_session i (register_request m.options now (m.sessions i)) m)
end_round i (err r) conn now m =
    if conn.closed || conn.destroyed then (retries, m) else (failed r, m)

-- The round behind `gotoReady`, for the connection that this returned, the result of its method
-- `request`, and its flags then.
unfoldable pub request_round :
    ℕ → Result (Unit {0}) → Connection → ℕ → Manager → RequestRound × Manager
request_round i result conn now m = end_round i result conn now m

-- `responseByteRead` on the states in `shuttingDown`, for a stream of the connection `i`.
notify_all : ℕ → List ℕ → (ℕ → Connection) → ℕ → Manager → Manager
unfolding response_byte_read
notify_all i [] conns now m = m
notify_all i (j ∷ js) conns now m =
    notify_all i js conns now
      (put_session j (response_byte_read (i == j) (conns j) m.options now (m.sessions j)) m)

notify_phase : ℕ → Phase → (ℕ → Connection) → ℕ → Manager → Manager
unfolding response_byte_read
notify_phase i (ready j) conns now m =
    put_session j (response_byte_read (i == j) (conns j) m.options now (m.sessions j)) m
notify_phase i _ conns now m = m

-- `notifyResponseByteRead`
unfoldable pub notify_response_byte_read : ℕ → (ℕ → Connection) → ℕ → Manager → Manager
unfolding notify_all notify_phase
notify_response_byte_read i conns now m =
    let notified = notify_phase i m.phase conns now m in
    notify_all i notified.shutting_down conns now notified

own_bytes :
    {own : Bool} (conn : Connection) (o : Options) (now : ℕ) (s : Session)
    → own ≡ false
    → response_byte_read own conn o now s ≡ s
unfolding response_byte_read
own_bytes conn o now s e = ap (λ own. response_byte_read own conn o now s) e

foreign_byte :
    (i j k : ℕ) (conn : Connection) (now : ℕ) (m : Manager)
    → i ≢ k
    → (put_session j (response_byte_read (i == j) conn m.options now (m.sessions j)) m).sessions k
      ≡ m.sessions k
unfolding response_byte_read
foreign_byte i j k conn now m d =
    let other = response_byte_read (i == j) conn m.options now (m.sessions j) in
    elim (Bool-cases (j == k)) [
      | inr off ↦ if_false other (m.sessions k) off
      | inl on ↦
          let same : j ≡ k = (==_iff j k).0 on in
          let foreign : (i == j) ≡ false = ground (arith, d, same) in
          if_true other (m.sessions k) on
          ∙ own_bytes conn m.options now (m.sessions j) foreign
          ∙ ap m.sessions same
    ]

notify_all-other :
    (i k : ℕ) (js : List ℕ) (conns : ℕ → Connection) (now : ℕ) (m : Manager)
    → i ≢ k
    → (notify_all i js conns now m).sessions k ≡ m.sessions k
unfolding notify_all
notify_all-other i k [] conns now m d = refl
notify_all-other i k (j ∷ js) conns now m d =
    notify_all-other i k js conns now _ d ∙ foreign_byte i j k (conns j) now m d

notify_phase-other :
    (i k : ℕ) (p : Phase) (conns : ℕ → Connection) (now : ℕ) (m : Manager)
    → i ≢ k
    → (notify_phase i p conns now m).sessions k ≡ m.sessions k
unfolding notify_phase
notify_phase-other i k closed conns now m d = refl
notify_phase-other i k (error r) conns now m d = refl
notify_phase-other i k (connecting c) conns now m d = refl
notify_phase-other i k (verifying j) conns now m d = refl
notify_phase-other i k (ready j) conns now m d = foreign_byte i j k (conns j) now m d

-- A byte that was read on a stream of one connection is no sign of life of another one.
pub notify_response_byte_read-other :
    (i k : ℕ) (conns : ℕ → Connection) (now : ℕ) (m : Manager)
    → i ≢ k
    → (notify_response_byte_read i conns now m).sessions k ≡ m.sessions k
unfolding notify_response_byte_read
notify_response_byte_read-other i k conns now m d =
    let notified = notify_phase i m.phase conns now m in
    notify_all-other i k notified.shutting_down conns now notified d
    ∙ notify_phase-other i k m.phase conns now m d

-- A round of `request` that does not open a stream leaves the manager as it is. If the connection
-- is neither closed nor destroyed, it throws the error; if it is closed or destroyed, the loop
-- goes on, and the next round gives up the connection, on which the manager is ready, for a new
-- one.
pub request_round-retries :
    (i : ℕ) (r : Reason) (conn : Connection) (now : ℕ) (m : Manager)
    → m.phase ≡ ready i
    → (conn.closed ≡ false
        → conn.destroyed ≡ false
        → request_round i (err r) conn now m ≡ (failed r, m))
      × ((conn.closed ≡ true) ⊎ (conn.destroyed ≡ true)
          → (request_round i (err r) conn now m ≡ (retries, m))
            × ((goto_ready conn now m).phase ≡ connecting m.next_connection))
unfolding request_round goto_ready goto_from
request_round-retries i r conn now m e = (
  λ not_closed alive. ground arith,
  λ lost.
      let dead : (conn.closed || conn.destroyed) ≡ true = ground arith in
      let left : goto_from (ready i) conn now m ≡ set_connecting m =
        if_true _ _ (or_true _ _ dead) in
      (
        if_true _ _ dead,
        ap (λ p. (goto_from p conn now m).phase) e
            ∙ ap (λ m. m.phase) left
            ∙ set_connecting-phase m,
      ),
)
