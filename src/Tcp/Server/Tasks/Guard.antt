-- ===== src/Tcp/Server/Tasks/Guard.antt =====
-- TLS in front of the callbacks of a TCP server (wolf/src/stream/tcp/tcp_server.rs).
use wolf_engine.Base.{
  ℕ, zero, suc, ◌≡◌, ◌∙◌, refl, Bool, true, false, List, [], ◌∷◌, ◌++◌, ok, err, arith,
}
use wolf_engine.Stream.{App, Io, TcpProtocol}
use wolf_engine.Stream.Loops.{All, All-snoc}
use wolf_engine.Tcp.Server.Tasks
use wolf_engine.Tcp.Server.Tasks.{
  Task, tls_handshake, arrived, ws_handshake, in_native, in_ws, ws_closing, over, dead, Wake,
  tls_accepted, start_connection, native_turn, ws_accepted, ws_turn, close_sent, wake, wake_at,
  Event, accepted, wakes, spawned, step, run,
}
use wolf_engine.Tcp.WebSocket.{Ws}

module _ (app : App) (io : Io) (ws : Ws) where
  -- The task of a connection that has not got through its handshake.
  abbrev pub IsOutside : Task app io ws → Type 0
  IsOutside (tls_handshake peer) = Unit
  IsOutside (over failed) = Unit
  IsOutside (arrived peer) = ⊥
  IsOutside (ws_handshake peer) = ⊥
  IsOutside (in_native peer c) = ⊥
  IsOutside (in_ws peer c) = ⊥
  IsOutside (ws_closing peer e) = ⊥
  IsOutside dead = ⊥

  abbrev fails : Wake app io ws → Bool
  fails (tls_accepted (ok u)) = false
  fails _ = true

  -- An event in which no TLS handshake succeeds.
  abbrev pub no_handshake : Event app io ws → Bool
  no_handshake (accepted peer) = true
  no_handshake (wakes i w) = fails w

  abbrev IsGuarded : app.St → Task app io ws × app.St → Type 0
  IsGuarded s r = IsOutside r.0 × (r.1 ≡ s)

  module _ (protocol : TcpProtocol) (timed : Bool) where
    wake-IsGuarded :
        (task : Task app io ws) (w : Wake app io ws) (s : app.St)
        → fails w ≡ true
        → IsOutside task
        → IsGuarded s (wake app io ws protocol timed task w s)
    unfolding wake Tasks.go_on Tasks.on_tls
    wake-IsGuarded (tls_handshake peer) (tls_accepted (ok u)) s f h = absurd (ground arith)
    wake-IsGuarded (tls_handshake peer) (tls_accepted (err e)) s f h = (tt, refl)
    wake-IsGuarded (tls_handshake peer) start_connection s f h = (tt, refl)
    wake-IsGuarded (tls_handshake peer) (native_turn t) s f h = (tt, refl)
    wake-IsGuarded (tls_handshake peer) (ws_accepted r) s f h = (tt, refl)
    wake-IsGuarded (tls_handshake peer) (ws_turn t) s f h = (tt, refl)
    wake-IsGuarded (tls_handshake peer) (close_sent r) s f h = (tt, refl)
    wake-IsGuarded (over failed) w s f h = (tt, refl)
    wake-IsGuarded (arrived peer) w s f h = absurd h
    wake-IsGuarded (ws_handshake peer) w s f h = absurd h
    wake-IsGuarded (in_native peer c) w s f h = absurd h
    wake-IsGuarded (in_ws peer c) w s f h = absurd h
    wake-IsGuarded (ws_closing peer e) w s f h = absurd h
    wake-IsGuarded dead w s f h = absurd h

    wake_at-IsGuarded :
        (i : ℕ) (w : Wake app io ws) (tasks : List (Task app io ws)) (s : app.St)
        → fails w ≡ true
        → All IsOutside tasks
        → All IsOutside (wake_at app io ws protocol timed true i w tasks s).0
          × ((wake_at app io ws protocol timed true i w tasks s).1 ≡ s)
    unfolding wake_at Tasks.first_task Tasks.cons_task
    wake_at-IsGuarded i w [] s f h = (tt, refl)
    wake_at-IsGuarded zero w (task ∷ tasks) s f (h, hs) =
        let (outside, same) = wake-IsGuarded task w s f h in ((outside, hs), same)
    wake_at-IsGuarded (suc i) w (task ∷ tasks) s f (h, hs) =
        let (outside, same) = wake_at-IsGuarded i w tasks s f hs in ((h, outside), same)

    run-IsGuarded :
        (p : Tasks.Tasks app io ws) (es : List (Event app io ws))
        → All IsOutside p.tasks
        → All (λ e. no_handshake e ≡ true) es
        → All IsOutside (run app io ws protocol timed true p es).tasks
          × ((run app io ws protocol timed true p es).shared ≡ p.shared)
    unfolding run step spawned
    run-IsGuarded p [] h fs = (h, refl)
    run-IsGuarded p (accepted peer ∷ es) h (f, fs) =
        run-IsGuarded (record p { tasks = p.tasks ++ tls_handshake peer ∷ [] }) es
          (All-snoc IsOutside p.tasks (tls_handshake peer) h tt) fs
    run-IsGuarded p (wakes i w ∷ es) h (f, fs) =
        let (outside, same) = wake_at-IsGuarded i w p.tasks p.shared f h in
        let (still, kept) =
          run-IsGuarded (step app io ws protocol timed true p (wakes i w)) es outside fs in
        (still, kept ∙ same)

    -- A server with TLS calls no callback for a peer that does not get through the handshake: over any
    -- schedule in which no handshake succeeds, whatever else the peers send, the state that the callbacks
    -- change is as it was, and every task is in its handshake or over.
    pub tls-guards :
        (s : app.St) (es : List (Event app io ws))
        → All (λ e. no_handshake e ≡ true) es
        → ((run app io ws protocol timed true (record { tasks = []; shared = s }) es).shared ≡ s)
          × All IsOutside
              (run app io ws protocol timed true (record { tasks = []; shared = s }) es).tasks
    tls-guards s es fs =
        let (outside, same) = run-IsGuarded (record { tasks = []; shared = s }) es tt fs in
        (same, outside)
