-- ===== src/Tcp/Server.antt =====
-- `accept_connection`, `server_main_loop` and `server` of wolf/src/stream/tcp/tcp_server.rs.
--
-- `tokio::spawn` starts a connection that runs beside the loop: the loop's state holds the tasks
-- it has spawned, and `accept_connection` is what each of them does. The queue is the channel of the
-- shutdown signal. A turn is what the world does until the loop is asked again.
pub mod Accept
pub mod Shutdown
pub mod Tasks
use Prim.Native.String.{◌++◌ as ◌<>◌}
use wolf_engine.Base.{
  ℕ, Bool, true, false, List, [], ◌∷◌, ◌++◌, Option, none, some, String, Result, ok, err, ◌>>=◌,
}
use wolf_engine.Stream.{
  App, Io, Arrival, Phase, looping, closed, panicked, faulted, TcpProtocol, native, websocket, run,
  select,
}
use wolf_engine.Tcp.Native
use wolf_engine.Tcp.WebSocket
use wolf_engine.Tcp.WebSocket.{Ws, Closing}

-- TcpServerConfig: a timeout is whether it is above 0.
pub record ServerConfig : Type 0 where
  pub protocol : TcpProtocol
  pub address : String
  pub port : ℕ
  pub ttl : ℕ
  pub accept_timed : Bool
  pub io_timed : Bool

module _ (app : App) (io : Io) (ws : Ws) where
  open app use {St, Addr, Failure, on_accept, on_close}
  open ws use {WsError}

  -- What the world does over one connection, up to now, by the protocol it is handled with: the
  -- websocket handshake, the rounds of the loops, and the sending of the close frame.
  pub record Session : Type 0 where
    pub handshake : Result WsError (Unit {0})
    pub native_turns : List (Native.Turn app io)
    pub ws_turns : List (WebSocket.Turn app ws)
    pub close_sent : Result WsError (Unit {0})

  -- Where a connection stands, with the callbacks' state: still open, refused, ended, or dead.
  pub data Ended : Type 0 where
    open_ : St → Ended
    refused : St → Failure → Ended
    not_closed : St → WsError → Ended
    finished : St → Result Failure (Unit {0}) → Ended
    crashed : Ended

  close_with : Addr → St → String → Ended
  close_with peer s m = let (s', r) = on_close s peer m in finished s' r

  pub end_native : Addr → Phase (Native.Conn app io) String → Ended
  unfolding close_with
  end_native peer (looping c) = open_ c.st
  end_native peer (closed c m) = close_with peer c.st m
  end_native peer panicked = crashed
  end_native peer faulted = crashed

  ws_closed : Addr → St → Result WsError (Unit {0}) → Closing → Ended
  unfolding close_with
  ws_closed peer s (ok _) e = close_with peer s e.reason
  ws_closed peer s (err x) e = not_closed s x

  pub end_ws : Addr → Result WsError (Unit {0}) → Phase (WebSocket.Conn app ws) Closing → Ended
  unfolding ws_closed
  end_ws peer sent (looping c) = open_ c.st
  end_ws peer sent (closed c e) = ws_closed peer c.st sent e
  end_ws peer sent panicked = crashed
  end_ws peer sent faulted = crashed

  -- `accept_async(p_stream).await?`, then the loop, then the close frame.
  pub handle_ws : Addr → St → Session → Result WsError (Unit {0}) → Ended
  unfolding end_ws
  handle_ws peer s session (err e) = not_closed s e
  handle_ws peer s session (ok _) =
      end_ws peer session.close_sent
        (run (WebSocket.step app ws peer) (looping (WebSocket.start app ws s)) session.ws_turns)

  pub handle : TcpProtocol → Bool → Addr → St → Session → Ended
  unfolding end_native handle_ws
  handle native timed peer s session =
      end_native peer
        (run (Native.step app io peer timed) (looping (Native.start app io s)) session.native_turns)
  handle websocket timed peer s session = handle_ws peer s session session.handshake

  pub on_accepted : TcpProtocol → Bool → Addr → Session → St × Result Failure (Unit {0}) → Ended
  unfolding handle
  on_accepted protocol timed peer session (s, ok _) = handle protocol timed peer s session
  on_accepted protocol timed peer session (s, err e) = refused s e

  pub accept_connection : TcpProtocol → Bool → Addr → St → Session → Ended
  unfolding on_accepted
  accept_connection protocol timed peer s session =
      on_accepted protocol timed peer session (on_accept s peer)

-- `try_lock` and `try_recv`: the flag that is taken from the channel, and what is left in it.
unfoldable pub poll : Bool → List Bool → Bool × List Bool
poll false queue = (false, queue)
poll true [] = (false, [])
poll true (b ∷ queue) = (b, queue)

module _ (io : Io) (Task : Type 0) where
  -- `signals` are sent to the channel before the turn, and `lock_free` is whether `try_lock` gets
  -- the lock.
  pub record Turn : Type 0 where
    pub signals : List Bool
    pub lock_free : Bool
    pub arrival : Arrival io.IoError Task

  -- `accepting` is that the loop is at its `accept`, and not at the check of the signal.
  pub record Loop : Type 0 where
    pub queue : List Bool
    pub accepting : Bool
    pub spawned : List Task

  unfoldable pub start : Loop
  start = record { queue = []; accepting = false; spawned = [] }

  unfoldable pub on_accept : Loop → Option (Result io.IoError Task) → Phase Loop (Unit {0})
  on_accept c none = looping (record c { accepting = true })
  on_accept c (some (err e)) = looping (record c { accepting = false })
  on_accept c (some (ok task)) =
      looping (record c { accepting = false; spawned = c.spawned ++ task ∷ [] })

  unfoldable pub on_poll : Bool → Turn → Loop → Bool × List Bool → Phase Loop (Unit {0})
  on_poll timed t c (true, queue) = closed (record c { queue = queue }) tt
  on_poll timed t c (false, queue) =
      on_accept (record c { queue = queue }) (select io timed t.arrival)

  -- One round of the `loop`, or of the wait in it where there is no timeout.
  unfoldable pub step : Bool → Loop → Turn → Phase Loop (Unit {0})
  step timed c t =
      let c' = record c { queue = c.queue ++ t.signals } in on_step timed t c' c.accepting
    where
      on_step : Bool → Turn → Loop → Bool → Phase Loop (Unit {0})
      on_step timed t c true = on_accept c (select io timed t.arrival)
      on_step timed t c false = on_poll timed t c (poll t.lock_free c.queue)

-- What `server` needs of the host: the address, the listener, and the callbacks of the socket.
pub record Listener (app : App) : Type 0 where
  pub decimal : ℕ → String
  pub parse : String → Result app.Failure app.Addr
  pub bind : app.Addr → Result app.Failure (Unit {0})
  pub set_ttl : ℕ → Result app.Failure (Unit {0})
  pub on_bind_socket : app.St → app.Addr → app.St × Result app.Failure (Unit {0})
  pub on_close_socket : app.St → app.Addr → app.St × Result app.Failure (Unit {0})

module _ (app : App) (io : Io) (Task : Type 0) (host : Listener app) where
  open app use {St, Addr, Failure}

  -- `serving` is that the loop goes on, and `stopped` is the return of `server`.
  pub data ServerEnd : Type 0 where
    failed : Failure → ServerEnd
    serving : List Task → ServerEnd
    stopped : List Task → Result Failure (Unit {0}) → ServerEnd

  unfoldable pub prepare : ServerConfig → Result Failure Addr
  prepare config = host.parse (config.address <> (":" <> host.decimal config.port)) >>= λ addr.
      host.bind addr >>= λ _. host.set_ttl config.ttl >>= λ _. ok addr

  unfoldable pub after_loop : Addr → St → Phase (Loop io Task) (Unit {0}) → ServerEnd
  after_loop addr s (looping c) = serving c.spawned
  after_loop addr s (closed c _) = stopped c.spawned (host.on_close_socket s addr).1
  after_loop addr s panicked = serving []
  after_loop addr s faulted = serving []

  unfoldable pub after_bind :
      ServerConfig → Addr → St → List (Turn io Task) → St × Result Failure (Unit {0}) → ServerEnd
  unfolding after_loop
  after_bind config addr left turns (s, err e) = failed e
  after_bind config addr left turns (s, ok _) =
      after_loop addr left (run (step io Task config.accept_timed) (looping (start io Task)) turns)

  unfoldable pub after_prepare :
      ServerConfig → St → St → List (Turn io Task) → Result Failure Addr → ServerEnd
  unfolding after_bind
  after_prepare config s left turns (err e) = failed e
  after_prepare config s left turns (ok addr) =
      after_bind config addr left turns (host.on_bind_socket s addr)

  -- `left` is the callbacks' state as the connections have left it when the loop ends.
  unfoldable pub server : ServerConfig → St → St → List (Turn io Task) → ServerEnd
  unfolding after_prepare prepare
  server config s left turns = after_prepare config s left turns (prepare config)
