-- ===== src/Tcp/Server/Tasks/Safety.antt =====
-- What holds of the tasks of a TCP server (wolf/src/stream/tcp/tcp_server.rs) in any order.
use wolf_engine.Base.{
  ℕ, zero, suc, Bool, true, false, List, [], ◌∷◌, String, Result, ok, err, Option, none, some,
}
use wolf_engine.Stream.{
  App, Io, Phase, looping, closed, panicked, faulted, TcpProtocol, native, websocket, binary, text,
}
use wolf_engine.Stream.Buffers.{IsBuffer, KeepsBuffer, new-IsBuffer}
use wolf_engine.Stream.Loops.{All, All-snoc}
use wolf_engine.Tcp.Native
use wolf_engine.Tcp.Native.Loop
use wolf_engine.Tcp.Native.Loop.{IsModest}
use wolf_engine.Tcp.Server.Tasks
use wolf_engine.Tcp.Server.Tasks.{
  Task, tls_handshake, arrived, ws_handshake, in_native, in_ws, ws_closing, over, dead, Wake,
  tls_accepted, start_connection, native_turn, ws_accepted, ws_turn, close_sent, wake, wake_at,
  Event, accepted, wakes, spawned, step, run, is_err,
}
use wolf_engine.Tcp.WebSocket
use wolf_engine.Tcp.WebSocket.{Ws, Closing}
use wolf_engine.Tcp.WebSocket.Safety as WsSafety
use wolf_engine.Tcp.WebSocket.Safety.{KeepsText}

module _ (app : App) (io : Io) (ws : Ws) where
  -- A task that is not dead, and whose buffer has its 1024 bytes.
  abbrev pub IsSafe : Task app io ws → Type 0
  IsSafe (tls_handshake peer) = Unit
  IsSafe (arrived peer) = Unit
  IsSafe (ws_handshake peer) = Unit
  IsSafe (in_native peer c) = IsBuffer c.msg
  IsSafe (in_ws peer c) = IsBuffer c.msg
  IsSafe (ws_closing peer e) = Unit
  IsSafe (over failed) = Unit
  IsSafe dead = ⊥

  on_accepted-IsSafe :
      (protocol : TcpProtocol) (peer : app.Addr) (r : app.St × Result app.Failure (Unit {0}))
      → IsSafe (Tasks.on_accepted app io ws protocol peer r).0
  unfolding Tasks.on_accepted Native.start
  on_accepted-IsSafe native peer (s, ok u) = new-IsBuffer binary
  on_accepted-IsSafe websocket peer (s, ok u) = tt
  on_accepted-IsSafe native peer (s, err e) = tt
  on_accepted-IsSafe websocket peer (s, err e) = tt

  after_native-IsSafe :
      (peer : app.Addr) (s : app.St) (p : Phase (Native.Conn app io) String)
      → Loop.IsSound app io peer p
      → IsSafe (Tasks.after_native app io ws peer s p).0
  unfolding Tasks.after_native Tasks.closed_with
  after_native-IsSafe peer s (looping c) h = h
  after_native-IsSafe peer s (closed c m) h = tt
  after_native-IsSafe peer s panicked h = h
  after_native-IsSafe peer s faulted h = h

  after_ws-IsSafe :
      (peer : app.Addr) (s : app.St) (p : Phase (WebSocket.Conn app ws) Closing)
      → WsSafety.IsSound app ws peer p
      → IsSafe (Tasks.after_ws app io ws peer s p).0
  unfolding Tasks.after_ws
  after_ws-IsSafe peer s (looping c) h = h
  after_ws-IsSafe peer s (closed c e) h = tt
  after_ws-IsSafe peer s panicked h = h
  after_ws-IsSafe peer s faulted h = h

  on_tls-IsSafe :
      (peer : app.Addr) (s : app.St) (r : Result app.Failure (Unit {0}))
      → IsSafe (Tasks.on_tls app io ws peer s r).0
  unfolding Tasks.on_tls
  on_tls-IsSafe peer s (ok u) = tt
  on_tls-IsSafe peer s (err e) = tt

  on_shaken-IsSafe :
      (peer : app.Addr) (s : app.St) (r : Result ws.WsError (Unit {0}))
      → IsSafe (Tasks.on_shaken app io ws peer s r).0
  unfolding Tasks.on_shaken WebSocket.start
  on_shaken-IsSafe peer s (ok u) = new-IsBuffer text
  on_shaken-IsSafe peer s (err e) = tt

  on_closed-IsSafe :
      (peer : app.Addr) (s : app.St) (e : Closing) (r : Result ws.WsError (Unit {0}))
      → IsSafe (Tasks.on_closed app io ws peer s e r).0
  unfolding Tasks.on_closed Tasks.closed_with
  on_closed-IsSafe peer s e (ok u) = tt
  on_closed-IsSafe peer s e (err x) = tt

  go_on-IsSafe :
      {A : Type 0} (task : Task app io ws) (s : app.St) (f : A → Task app io ws × app.St)
      (o : Option A)
      → IsSafe task
      → ((a : A) → IsSafe (f a).0)
      → IsSafe (Tasks.go_on app io ws task s f o).0
  unfolding Tasks.go_on
  go_on-IsSafe task s f none h safe = h
  go_on-IsSafe task s f (some a) h safe = safe a

  module _ (protocol : TcpProtocol) (timed : Bool) (keeps : KeepsBuffer app) (kept : KeepsText ws)
      (modest : (peer : app.Addr) → IsModest app io peer) where
    wake-IsSafe :
        (task : Task app io ws) (w : Wake app io ws) (s : app.St)
        → IsSafe task
        → IsSafe (wake app io ws protocol timed task w s).0
    unfolding wake
    wake-IsSafe (tls_handshake peer) w s h =
        go_on-IsSafe (tls_handshake peer) s (Tasks.on_tls app io ws peer s)
          (Tasks.tls_result app io ws w) h (on_tls-IsSafe peer s)
    wake-IsSafe (arrived peer) w s h =
        go_on-IsSafe (arrived peer) s (Tasks.start_on app io ws protocol timed peer s)
          (Tasks.is_start app io ws w) h
          (λ u. on_accepted-IsSafe protocol peer (app.on_accept s peer))
    wake-IsSafe (in_native peer c) w s h =
        go_on-IsSafe (in_native peer c) s (Tasks.native_on app io ws protocol timed peer c s)
          (Tasks.native_of app io ws w) h
          (λ t.
            after_native-IsSafe peer s _
              (Loop.step-IsSound app io peer timed (record c { st = s }) t keeps (modest peer) h))
    wake-IsSafe (ws_handshake peer) w s h =
        go_on-IsSafe (ws_handshake peer) s (Tasks.on_shaken app io ws peer s)
          (Tasks.ws_result app io ws w) h (on_shaken-IsSafe peer s)
    wake-IsSafe (in_ws peer c) w s h =
        go_on-IsSafe (in_ws peer c) s (Tasks.ws_on app io ws protocol timed peer c s)
          (Tasks.ws_of app io ws w) h
          (λ t.
            after_ws-IsSafe peer s _
              (WsSafety.step-IsSound app ws peer (record c { st = s }) t keeps kept h))
    wake-IsSafe (ws_closing peer e) w s h =
        go_on-IsSafe (ws_closing peer e) s (Tasks.on_closed app io ws peer s e)
          (Tasks.close_result app io ws w) h (on_closed-IsSafe peer s e)
    wake-IsSafe (over failed) w s h = tt
    wake-IsSafe dead w s h = h

    module _ (tls : Bool) where
      wake_at-IsSafe :
          (i : ℕ) (w : Wake app io ws) (tasks : List (Task app io ws)) (s : app.St)
          → All IsSafe tasks
          → All IsSafe (wake_at app io ws protocol timed tls i w tasks s).0
      unfolding wake_at
      wake_at-IsSafe i w [] s h = tt
      wake_at-IsSafe zero w (task ∷ tasks) s (h, hs) = (wake-IsSafe task w s h, hs)
      wake_at-IsSafe (suc i) w (task ∷ tasks) s (h, hs) = (h, wake_at-IsSafe i w tasks s hs)

      spawned-IsSafe : (b : Bool) (peer : app.Addr) → IsSafe (spawned app io ws b peer)
      unfolding spawned
      spawned-IsSafe true peer = tt
      spawned-IsSafe false peer = tt

      step-IsSafe :
          (p : Tasks.Tasks app io ws) (e : Event app io ws)
          → All IsSafe p.tasks
          → All IsSafe (step app io ws protocol timed tls p e).tasks
      unfolding step
      step-IsSafe p (accepted peer) h = All-snoc IsSafe p.tasks _ h (spawned-IsSafe tls peer)
      step-IsSafe p (wakes i w) h = wake_at-IsSafe i w p.tasks p.shared h

      run-IsSafe :
          (p : Tasks.Tasks app io ws) (es : List (Event app io ws))
          → All IsSafe p.tasks
          → All IsSafe (run app io ws protocol timed tls p es).tasks
      unfolding run
      run-IsSafe p [] h = h
      run-IsSafe p (e ∷ es) h =
          run-IsSafe (step app io ws protocol timed tls p e) es (step-IsSafe p e h)

    -- However the connections of a server are interleaved over the state that their callbacks share, with
    -- or without TLS and with either protocol, no task dies of a panic or a fault, and the buffer of
    -- every connection keeps its 1024 bytes, given a timeout that a `Duration` holds, a callback that does
    -- not resize the array and leaves no size above 1024, and a library whose text of a message is as
    -- long as its payload.
    pub tasks-never_die :
        (tls : Bool) (s : app.St) (es : List (Event app io ws))
        → All IsSafe (run app io ws protocol timed tls (record { tasks = []; shared = s }) es).tasks
    tasks-never_die tls s es = run-IsSafe tls (record { tasks = []; shared = s }) es tt
