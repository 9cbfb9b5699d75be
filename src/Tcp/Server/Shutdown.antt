-- ===== src/Tcp/Server/Shutdown.antt =====
-- `server_main_loop` (wolf/src/stream/tcp/tcp_server.rs): whom it accepts, and when it stops.
use mathlib.Core.List.{append-nil, append_assoc}
use wolf_engine.Base.{
  ◌≡◌, ◌∙◌, ap, sym, refl, Bool, true, false, List, [], ◌∷◌, ◌++◌, ok, err, arith,
}
use wolf_engine.Stream.{App, Io, Arrival, ready, deadline, looping, closed, run, select}
use wolf_engine.Stream.Loops.{All, run-closed}
use wolf_engine.Tcp.Server
use wolf_engine.Tcp.Server.{
  Listener, ServerConfig, prepare, server, after_prepare, after_bind, after_loop, stopped, Turn,
  Loop, start, poll, step,
}

module _ (io : Io) (Task : Type 0) where
  abbrev one : Arrival io.IoError Task → List Task
  one (ready (ok task)) = task ∷ []
  one (ready (err e)) = []
  one deadline = []

  -- The connections that arrived over these turns, in order.
  abbrev pub arrived : List (Turn io Task) → List Task
  arrived [] = []
  arrived (t ∷ ts) = one t.arrival ++ arrived ts

  wait_step :
      (c : Loop io Task) (t : Turn io Task)
      → c.accepting ≡ true
      → t.arrival ≡ deadline
      → (c' : Loop io Task) × (step io Task false c t ≡ looping c')
        × (c'.accepting ≡ true)
        × (c'.spawned ≡ c.spawned)
  unfolding step Server.on_accept select
  wait_step c t waiting none_came =
      (record c { queue = c.queue ++ t.signals; accepting = true }, ground arith, refl, refl)

  -- Without a timeout a round that has begun to wait for a connection ignores the signal: however
  -- many signals are sent, the loop stays at its `accept` as long as no connection arrives.
  pub waits_for_connection :
      (c : Loop io Task) (ts : List (Turn io Task))
      → c.accepting ≡ true
      → All (λ t. t.arrival ≡ deadline) ts
      → (c' : Loop io Task) × (run (step io Task false) (looping c) ts ≡ looping c')
        × (c'.accepting ≡ true)
        × (c'.spawned ≡ c.spawned)
  unfolding run
  waits_for_connection c [] waiting none_came = (c, refl, waiting, refl)
  waits_for_connection c (t ∷ ts) waiting none_came =
      let (c1, e1, w1, s1) = wait_step c t waiting none_came.0 in
      let (c2, e2, w2, s2) = waits_for_connection c1 ts w1 none_came.1 in
      (c2, ap (λ p. run (step io Task false) p ts) e1 ∙ e2, w2, s2 ∙ s1)

  timed_accept :
      (c : Loop io Task) (a : Arrival io.IoError Task)
      → Server.on_accept io Task c (select io true a)
        ≡ looping (record c { accepting = false; spawned = c.spawned ++ one a })
  unfolding Server.on_accept select
  timed_accept c (ready (ok task)) = refl
  timed_accept c (ready (err e)) =
      ap (λ l. looping (record c { accepting = false; spawned = l })) (sym (append-nil c.spawned))
  timed_accept c deadline =
      ap (λ l. looping (record c { accepting = false; spawned = l })) (sym (append-nil c.spawned))

  quiet_step :
      (c : Loop io Task) (t : Turn io Task)
      → c.queue ≡ []
      → c.accepting ≡ false
      → t.signals ≡ []
      → step io Task true c t
        ≡ looping (record { queue = []; accepting = false; spawned = c.spawned ++ one t.arrival })
  unfolding step Server.on_poll poll
  quiet_step c t q a s = ground (
    arith,
    timed_accept (record { queue = []; accepting = false; spawned = c.spawned }) t.arrival,
  )

  stop_step :
      (c : Loop io Task) (t : Turn io Task) (rest : List Bool)
      → c.queue ≡ []
      → c.accepting ≡ false
      → t.signals ≡ true ∷ rest
      → t.lock_free ≡ true
      → step io Task true c t
        ≡ closed (record { queue = rest; accepting = false; spawned = c.spawned }) tt
  unfolding step Server.on_poll poll
  stop_step c t rest q a signal lock = ground arith

  stops_after :
      (c : Loop io Task) (ts more : List (Turn io Task)) (t : Turn io Task) (rest : List Bool)
      → c.queue ≡ []
      → c.accepting ≡ false
      → All (λ t. t.signals ≡ []) ts
      → t.signals ≡ true ∷ rest
      → t.lock_free ≡ true
      → run (step io Task true) (looping c) (ts ++ t ∷ more)
        ≡ closed (record { queue = rest; accepting = false; spawned = c.spawned ++ arrived ts }) tt
  unfolding run
  stops_after c [] more t rest q a quiet signal lock =
      ap (λ p. run (step io Task true) p more) (stop_step c t rest q a signal lock)
      ∙ (run-closed (step io Task true) _ tt more
          ∙ ap (λ l. closed (record { queue = rest; accepting = false; spawned = l }) tt)
              (sym (append-nil c.spawned)))
  stops_after c (u ∷ ts) more t rest q a quiet signal lock =
      ap (λ p. run (step io Task true) p (ts ++ t ∷ more)) (quiet_step c u q a quiet.0)
      ∙ (stops_after
            (record { queue = []; accepting = false; spawned = c.spawned ++ one u.arrival }) ts more
            t rest refl refl quiet.1 signal lock
          ∙ ap (λ l. closed (record { queue = rest; accepting = false; spawned = l }) tt)
              (append_assoc c.spawned (one u.arrival) (arrived ts)))

  -- With a timeout, a server that has had no signal has spawned a task for every connection that
  -- arrived, in order, and a `true` that it can take from the channel in its next round ends the
  -- loop there, whatever would come later.
  pub signal_stops :
      (ts more : List (Turn io Task)) (t : Turn io Task) (rest : List Bool)
      → All (λ t. t.signals ≡ []) ts
      → t.signals ≡ true ∷ rest
      → t.lock_free ≡ true
      → run (step io Task true) (looping (start io Task)) (ts ++ t ∷ more)
        ≡ closed (record { queue = rest; accepting = false; spawned = arrived ts }) tt
  unfolding start
  signal_stops ts more t rest quiet signal lock =
      stops_after (start io Task) ts more t rest refl refl quiet signal lock

module _ (app : App) (io : Io) (Task : Type 0) (host : Listener app) where
  -- A server with an accept timeout whose address parses, binds and takes the ttl, and whose bind
  -- callback consents, serves without a signal until a `true` comes that it can take from the
  -- channel, and then returns what the close callback returns, having spawned one task for each
  -- connection that arrived before, in order.
  pub server_stops :
      (config : ServerConfig) (addr : app.Addr) (s s' left : app.St) (ts more : List (Turn io Task))
      (t : Turn io Task) (rest : List Bool)
      → config.accept_timed ≡ true
      → prepare app io Task host config ≡ ok addr
      → host.on_bind_socket s addr ≡ (s', ok tt)
      → All (λ t. t.signals ≡ []) ts
      → t.signals ≡ true ∷ rest
      → t.lock_free ≡ true
      → server app io Task host config s left (ts ++ t ∷ more)
        ≡ stopped (arrived io Task ts) (host.on_close_socket left addr).1
  unfolding server after_prepare after_bind after_loop
  server_stops config addr s s' left ts more t rest timed ready_ bound quiet signal lock =
      rw (ready_, bound, timed)
        (ap (after_loop app io Task host addr left)
          (signal_stops io Task ts more t rest quiet signal lock))
