-- ===== src/Tcp/Server/Tasks.antt =====
-- The tasks that `server_main_loop` of wolf/src/stream/tcp/tcp_server.rs spawns, side by side: each does its
-- TLS handshake, if the server has TLS, and then `accept_connection`. The tasks call the same
-- callbacks, so they share the state that these change, and the tokio runtime lets them go on in any
-- order: a schedule is a list of events, each of which lets one task go on to its next wait.
pub mod Safety
pub mod Guard
use wolf_engine.Base.{
  ℕ, zero, suc, ◌≡◌, Bool, true, false, List, [], ◌∷◌, ◌++◌, Option, none, some, String, Result, ok,
  err, if◌then◌else◌,
}
use wolf_engine.Stream.{
  App, Io, Phase, looping, closed, panicked, faulted, TcpProtocol, native, websocket,
}
use wolf_engine.Tcp.Native
use wolf_engine.Tcp.WebSocket
use wolf_engine.Tcp.WebSocket.{Ws, Closing}

module _ (app : App) (io : Io) (ws : Ws) where
  open app use {St, Addr, Failure}
  open ws use {WsError}

  -- Where a task waits: in the TLS handshake, before the accept callback, in one of the two loops, in
  -- the handshake of a websocket, or in the sending of its close frame. At its end it is over, with
  -- whether it is an error, or it is dead of a panic or a fault.
  pub data Task : Type 0 where
    tls_handshake arrived ws_handshake : Addr → Task
    in_native : Addr → Native.Conn app io → Task
    in_ws : Addr → WebSocket.Conn app ws → Task
    ws_closing : Addr → Closing → Task
    over : Bool → Task
    dead : Task

  -- What a task waits for.
  pub data Wake : Type 0 where
    tls_accepted : Result Failure (Unit {0}) → Wake
    start_connection : Wake
    native_turn : Native.Turn app io → Wake
    ws_accepted : Result WsError (Unit {0}) → Wake
    ws_turn : WebSocket.Turn app ws → Wake
    close_sent : Result WsError (Unit {0}) → Wake

  -- What of it is for each of the waits
  abbrev pub tls_result : Wake → Option (Result Failure (Unit {0}))
  tls_result (tls_accepted r) = some r
  tls_result _ = none

  abbrev pub is_start : Wake → Option (Unit {0})
  is_start start_connection = some tt
  is_start _ = none

  abbrev pub native_of : Wake → Option (Native.Turn app io)
  native_of (native_turn t) = some t
  native_of _ = none

  abbrev pub ws_result : Wake → Option (Result WsError (Unit {0}))
  ws_result (ws_accepted r) = some r
  ws_result _ = none

  abbrev pub ws_of : Wake → Option (WebSocket.Turn app ws)
  ws_of (ws_turn t) = some t
  ws_of _ = none

  abbrev pub close_result : Wake → Option (Result WsError (Unit {0}))
  close_result (close_sent r) = some r
  close_result _ = none

  is_err : {E A : Type 0} → Result E A → Bool
  is_err (ok a) = false
  is_err (err e) = true

  unfoldable pub on_tls : Addr → St → Result Failure (Unit {0}) → Task × St
  on_tls peer s (ok _) = (arrived peer, s)
  on_tls peer s (err e) = (over true, s)

  unfoldable pub on_accepted : TcpProtocol → Addr → St × Result Failure (Unit {0}) → Task × St
  on_accepted native peer (s, ok _) = (in_native peer (Native.start app io s), s)
  on_accepted websocket peer (s, ok _) = (ws_handshake peer, s)
  on_accepted protocol peer (s, err e) = (over true, s)

  unfoldable pub closed_with : St × Result Failure (Unit {0}) → Task × St
  unfolding is_err
  closed_with (s, r) = (over (is_err r), s)

  unfoldable pub after_native : Addr → St → Phase (Native.Conn app io) String → Task × St
  unfolding closed_with
  after_native peer s (looping c) = (in_native peer c, c.st)
  after_native peer s (closed c m) = closed_with (app.on_close c.st peer m)
  after_native peer s panicked = (dead, s)
  after_native peer s faulted = (dead, s)

  unfoldable pub on_shaken : Addr → St → Result WsError (Unit {0}) → Task × St
  on_shaken peer s (ok _) = (in_ws peer (WebSocket.start app ws s), s)
  on_shaken peer s (err e) = (over true, s)

  unfoldable pub after_ws : Addr → St → Phase (WebSocket.Conn app ws) Closing → Task × St
  after_ws peer s (looping c) = (in_ws peer c, c.st)
  after_ws peer s (closed c e) = (ws_closing peer e, c.st)
  after_ws peer s panicked = (dead, s)
  after_ws peer s faulted = (dead, s)

  unfoldable pub on_closed : Addr → St → Closing → Result WsError (Unit {0}) → Task × St
  unfolding closed_with
  on_closed peer s e (ok _) = closed_with (app.on_close s peer e.reason)
  on_closed peer s e (err x) = (over true, s)

  -- A task sleeps on through what it does not wait for.
  unfoldable pub go_on : {A : Type 0} → Task → St → (A → Task × St) → Option A → Task × St
  go_on task s f none = (task, s)
  go_on task s f (some a) = f a

  module _ (protocol : TcpProtocol) (timed : Bool) where
    abbrev pub start_on : Addr → St → Unit {0} → Task × St
    start_on peer s u = on_accepted protocol peer (app.on_accept s peer)

    abbrev pub native_on : Addr → Native.Conn app io → St → Native.Turn app io → Task × St
    native_on peer c s t =
        after_native peer s (Native.step app io peer timed (record c { st = s }) t)

    abbrev pub ws_on : Addr → WebSocket.Conn app ws → St → WebSocket.Turn app ws → Task × St
    ws_on peer c s t = after_ws peer s (WebSocket.step app ws peer (record c { st = s }) t)

    -- A task goes on with the shared state as it is now.
    unfoldable pub wake : Task → Wake → St → Task × St
    unfolding go_on on_tls on_accepted after_native on_shaken after_ws on_closed
    wake (tls_handshake peer) w s = go_on (tls_handshake peer) s (on_tls peer s) (tls_result w)
    wake (arrived peer) w s = go_on (arrived peer) s (start_on peer s) (is_start w)
    wake (in_native peer c) w s = go_on (in_native peer c) s (native_on peer c s) (native_of w)
    wake (ws_handshake peer) w s = go_on (ws_handshake peer) s (on_shaken peer s) (ws_result w)
    wake (in_ws peer c) w s = go_on (in_ws peer c) s (ws_on peer c s) (ws_of w)
    wake (ws_closing peer e) w s = go_on (ws_closing peer e) s (on_closed peer s e) (close_result w)
    wake (over failed) w s = (over failed, s)
    wake dead w s = (dead, s)

  pub record Tasks : Type 0 where
    pub tasks : List Task
    pub shared : St

  -- The loop accepts a connection and spawns its task, or the task of this number goes on.
  pub data Event : Type 0 where
    accepted : Addr → Event
    wakes : ℕ → Wake → Event

  unfoldable pub spawned : Bool → Addr → Task
  spawned true peer = tls_handshake peer
  spawned false peer = arrived peer

  unfoldable pub cons_task : Task → List Task × St → List Task × St
  cons_task task (tasks, s) = (task ∷ tasks, s)

  unfoldable pub first_task : List Task → Task × St → List Task × St
  first_task tasks (task, s) = (task ∷ tasks, s)

  module _ (protocol : TcpProtocol) (timed tls : Bool) where
    unfoldable pub wake_at : ℕ → Wake → List Task → St → List Task × St
    unfolding wake cons_task first_task
    wake_at i w [] s = ([], s)
    wake_at zero w (task ∷ tasks) s = first_task tasks (wake protocol timed task w s)
    wake_at (suc i) w (task ∷ tasks) s = cons_task task (wake_at i w tasks s)

    unfoldable pub step : Tasks → Event → Tasks
    unfolding spawned wake_at
    step p (accepted peer) = record p { tasks = p.tasks ++ spawned tls peer ∷ [] }
    step p (wakes i w) =
        let (tasks, s) = wake_at i w p.tasks p.shared in record { tasks = tasks; shared = s }

    unfoldable pub run : Tasks → List Event → Tasks
    unfolding step
    run p [] = p
    run p (e ∷ es) = run (step p e) es
