-- ===== src/Tcp/Server/Accept.antt =====
-- `accept_connection` (wolf/src/stream/tcp/tcp_server.rs) over the two protocols.
use wolf_engine.Base.{◌≡◌, ap, Bool, Result, ok, err, String}
use wolf_engine.Stream.{
  App, Io, TcpProtocol, native, websocket, Phase, looping, closed, panicked, faulted,
}
use wolf_engine.Stream.Buffers.{KeepsBuffer}
use wolf_engine.Stream.Loops.{All}
use wolf_engine.Tcp.Native
use wolf_engine.Tcp.Native.Loop.{IsModest, never_panics}
use wolf_engine.Tcp.WebSocket
use wolf_engine.Tcp.WebSocket.{Ws, Closing}
use wolf_engine.Tcp.WebSocket.Safety.{KeepsText, never_faults}
use wolf_engine.Tcp.WebSocket.Behaviour.{IsSilent, silence_never_closes}
use wolf_engine.Tcp.Native.Loop
use wolf_engine.Tcp.WebSocket.Safety
use wolf_engine.Tcp.Server.{
  Session, Ended, open_, crashed, end_native, end_ws, handle_ws, handle, on_accepted,
  accept_connection,
}

module _ (app : App) (io : Io) (ws : Ws) (peer : app.Addr) where
  abbrev pub IsAlive : Ended app io ws → Type 0
  IsAlive crashed = ⊥
  IsAlive _ = Unit

  native-IsAlive :
      (p : Phase (Native.Conn app io) String)
      → Loop.IsSound app io peer p
      → IsAlive (end_native app io ws peer p)
  unfolding end_native
  native-IsAlive (looping c) h = tt
  native-IsAlive (closed c m) h = tt
  native-IsAlive panicked h = h
  native-IsAlive faulted h = h

  ws-IsAlive :
      (sent : Result ws.WsError (Unit {0})) (p : Phase (WebSocket.Conn app ws) Closing)
      → Safety.IsSound app ws peer p
      → IsAlive (end_ws app io ws peer sent p)
  unfolding end_ws
  ws-IsAlive sent (looping c) h = tt
  ws-IsAlive (ok _) (closed c e) h = tt
  ws-IsAlive (err x) (closed c e) h = tt
  ws-IsAlive sent panicked h = h
  ws-IsAlive sent faulted h = h

  handle_ws-IsAlive :
      (s : app.St) (session : Session app io ws) (r : Result ws.WsError (Unit {0}))
      → KeepsBuffer app
      → KeepsText ws
      → IsAlive (handle_ws app io ws peer s session r)
  unfolding handle_ws
  handle_ws-IsAlive s session (err e) keeps kept = tt
  handle_ws-IsAlive s session (ok _) keeps kept =
      ws-IsAlive session.close_sent _ (never_faults app ws peer s session.ws_turns keeps kept)

  handle-IsAlive :
      (protocol : TcpProtocol) (timed : Bool) (s : app.St) (session : Session app io ws)
      → KeepsBuffer app
      → KeepsText ws
      → IsModest app io peer
      → IsAlive (handle app io ws protocol timed peer s session)
  unfolding handle
  handle-IsAlive native timed s session keeps kept modest =
      native-IsAlive _ (never_panics app io peer timed s session.native_turns keeps modest)
  handle-IsAlive websocket timed s session keeps kept modest =
      handle_ws-IsAlive s session session.handshake keeps kept

  on_accepted-IsAlive :
      (protocol : TcpProtocol) (timed : Bool) (session : Session app io ws)
      (r : app.St × Result app.Failure (Unit {0}))
      → KeepsBuffer app
      → KeepsText ws
      → IsModest app io peer
      → IsAlive (on_accepted app io ws protocol timed peer session r)
  unfolding on_accepted
  on_accepted-IsAlive protocol timed session (s', ok _) keeps kept modest =
      handle-IsAlive protocol timed s' session keeps kept modest
  on_accepted-IsAlive protocol timed session (s', err e) keeps kept modest = tt

  -- With either protocol, whatever the peer and the network do, the task of a connection does not
  -- die of a panic or a fault, given that the callback does not resize the array and leaves no size
  -- above 1024, and that the library's text of a message is as long as its payload.
  pub never_crashes :
      (protocol : TcpProtocol) (timed : Bool) (s : app.St) (session : Session app io ws)
      → KeepsBuffer app
      → KeepsText ws
      → IsModest app io peer
      → IsAlive (accept_connection app io ws protocol timed peer s session)
  unfolding accept_connection
  never_crashes protocol timed s session keeps kept modest =
      on_accepted-IsAlive protocol timed session (app.on_accept s peer) keeps kept modest

  -- An accepted websocket connection with a good handshake stays open over any number of ends, errors and timeouts of its
  -- stream: neither the message callback nor the close callback is ever called.
  pub silent_websocket_open :
      (timed : Bool) (s : app.St) (session : Session app io ws)
      → (app.on_accept s peer).1 ≡ ok tt
      → session.handshake ≡ ok tt
      → All (λ t. IsSilent app ws peer t.next) session.ws_turns
      → accept_connection app io ws websocket timed peer s session ≡ open_ (app.on_accept s peer).0
  unfolding accept_connection on_accepted handle handle_ws end_ws WebSocket.start
  silent_websocket_open timed s session accepted shaken silent =
      rw (accepted, shaken)
        (ap (end_ws app io ws peer session.close_sent) (
          silence_never_closes app ws peer (WebSocket.start app ws (app.on_accept s peer).0)
            session.ws_turns silent))
