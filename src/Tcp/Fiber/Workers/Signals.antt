-- ===== src/Tcp/Fiber/Workers/Signals.antt =====
-- The shutdown of the fiber server (wolf/src/stream/tcp/tcp_server_fiber.rs): how many workers a signal
-- stops.
use mathlib.Core.Option.{some-injective}
use wolf_engine.Base.{
  ℕ, zero, suc, ◌+◌, ◌≡◌, ap, subst, refl, Bool, true, false, List, [], ◌∷◌, ◌++◌, Option, none,
  some, Result, ok, err, Outcome, returned, panicked, if◌then◌else◌, arith,
}
use wolf_engine.Stream.{App, Io, Arrival, select}
use wolf_engine.Tcp.Server.{poll}
use wolf_engine.Tcp.Fiber.Workers
use wolf_engine.Tcp.Fiber.Workers.{
  Status, unbound, checking, accepting, stopped, status, set, Event, signal, check, accept, Pool,
  step, run, ServerConfig, Host, server, spawn,
}

abbrev pub trues : List Bool → ℕ
trues [] = 0
trues (b ∷ bs) = (if b then 1 else 0) + trues bs

abbrev is_stopped : Status → ℕ
is_stopped stopped = 1
is_stopped unbound = 0
is_stopped checking = 0
is_stopped accepting = 0

abbrev pub stopped_workers : List Status → ℕ
stopped_workers [] = 0
stopped_workers (s ∷ ss) = is_stopped s + stopped_workers ss

trues-append : (bs : List Bool) (b : Bool) → trues (bs ++ b ∷ []) ≡ trues bs + (if b then 1 else 0)
trues-append [] b = omega arith
trues-append (c ∷ bs) b = omega (arith, trues-append bs b)

stopped-set :
    (i : ℕ) (s t : Status) (ss : List Status)
    → status i ss ≡ some s
    → stopped_workers (set i t ss) + is_stopped s ≡ stopped_workers ss + is_stopped t
unfolding status set
stopped-set i s t [] e = ground arith
stopped-set zero s t (u ∷ ss) e = omega (arith, ap is_stopped (some-injective u s e))
stopped-set (suc i) s t (u ∷ ss) e = omega (arith, stopped-set i s t ss e)

trues-poll :
    (free : Bool) (queue : List Bool)
    → (if (poll free queue).0 then 1 else 0) + trues (poll free queue).1 ≡ trues queue
unfolding poll
trues-poll false queue = omega arith
trues-poll true [] = omega arith
trues-poll true (b ∷ queue) = omega arith

module _ (io : Io) (Task : Type 0) (timed : Bool) where
  -- The `true`s that were sent over a schedule.
  abbrev sent : Event io Task → ℕ
  sent (signal b) = if b then 1 else 0
  sent (check i free) = 0
  sent (accept i arrival) = 0

  abbrev pub all_sent : List (Event io Task) → ℕ
  all_sent [] = 0
  all_sent (e ∷ es) = sent e + all_sent es

  -- Every `true` so far has stopped a worker, or is still in the channel.
  abbrev pub used : Pool io Task → ℕ
  used p = stopped_workers p.workers + trues p.queue

  polled-used :
      (i : ℕ) (p : Pool io Task) (r : Bool × List Bool)
      → status i p.workers ≡ some checking
      → used (Workers.polled io Task i p r)
        ≡ stopped_workers p.workers + ((if r.0 then 1 else 0) + trues r.1)
  unfolding Workers.polled
  polled-used i p (true, queue) e = omega (arith, stopped-set i checking stopped p.workers e)
  polled-used i p (false, queue) e = omega (arith, stopped-set i checking accepting p.workers e)

  on_check-used :
      (i : ℕ) (free : Bool) (p : Pool io Task) (s : Option Status)
      → status i p.workers ≡ s
      → used (Workers.on_check io Task i free p s) ≡ used p
  unfolding Workers.on_check
  on_check-used i free p none e = refl
  on_check-used i free p (some unbound) e = refl
  on_check-used i free p (some checking) e =
      omega (arith, polled-used i p (poll free p.queue) e, trues-poll free p.queue)
  on_check-used i free p (some accepting) e = refl
  on_check-used i free p (some stopped) e = refl

  accepted-used :
      (i : ℕ) (p : Pool io Task) (r : Option (Result io.IoError Task))
      → status i p.workers ≡ some accepting
      → used (Workers.accepted io Task i p r) ≡ used p
  unfolding Workers.accepted
  accepted-used i p none e = refl
  accepted-used i p (some (err x)) e = omega (arith, stopped-set i accepting checking p.workers e)
  accepted-used i p (some (ok t)) e = omega (arith, stopped-set i accepting checking p.workers e)

  on_accept-used :
      (i : ℕ) (arrival : Arrival io.IoError Task) (p : Pool io Task) (s : Option Status)
      → status i p.workers ≡ s
      → used (Workers.on_accept io Task timed i arrival p s) ≡ used p
  unfolding Workers.on_accept
  on_accept-used i arrival p none e = refl
  on_accept-used i arrival p (some unbound) e = refl
  on_accept-used i arrival p (some checking) e = refl
  on_accept-used i arrival p (some accepting) e = accepted-used i p (select io timed arrival) e
  on_accept-used i arrival p (some stopped) e = refl

  step-used :
      (p : Pool io Task) (e : Event io Task) → used (step io Task timed p e) ≡ used p + sent e
  unfolding step
  step-used p (signal b) = omega (arith, trues-append p.queue b)
  step-used p (check i free) = omega (arith, on_check-used i free p (status i p.workers) refl)
  step-used p (accept i arrival) =
      omega (arith, on_accept-used i arrival p (status i p.workers) refl)

  run-used :
      (p : Pool io Task) (es : List (Event io Task))
      → used (run io Task timed p es) ≡ used p + all_sent es
  unfolding run
  run-used p [] = omega arith
  run-used p (e ∷ es) = omega (arith, run-used (step io Task timed p e) es, step-used p e)

module _ (app : App) (io : Io) (Task : Type 0) (host : Host app) where
  bound-stopped :
      (r : Result app.Failure (Unit {0})) → is_stopped (Workers.bound app io Task host r) ≡ 0
  unfolding Workers.bound
  bound-stopped (ok u) = refl
  bound-stopped (err e) = refl

  spawn-stopped :
      (addr : app.Addr) (i n : ℕ) → stopped_workers (spawn app io Task host addr i n) ≡ 0
  unfolding spawn
  spawn-stopped addr i zero = refl
  spawn-stopped addr i (suc n) =
      omega (arith, bound-stopped (host.bind i addr), spawn-stopped addr (suc i) n)

  abbrev StartsWithNone : Outcome (Pool io Task) → Type 0
  StartsWithNone panicked = Unit
  StartsWithNone (returned p) = used io Task true p ≡ 0

  after_bind-start :
      (config : ServerConfig) (addr : app.Addr) (r : app.St × Result app.Failure (Unit {0}))
      → StartsWithNone (Workers.after_bind app io Task host config addr r)
  unfolding Workers.after_bind
  after_bind-start config addr (s, err e) = tt
  after_bind-start config addr (s, ok u) =
      omega (arith, spawn-stopped addr 0 config.fiber_num_of_workers)

  after_parse-start :
      (config : ServerConfig) (s : app.St) (r : Result app.Failure app.Addr)
      → StartsWithNone (Workers.after_parse app io Task host config s r)
  unfolding Workers.after_parse
  after_parse-start config s (err e) = tt
  after_parse-start config s (ok addr) = after_bind-start config addr (host.on_bind_socket s addr)

  server-start :
      (config : ServerConfig) (s : app.St) → StartsWithNone (server app io Task host config s)
  unfolding server
  server-start config s = after_parse-start config s _

  -- The workers share one channel, and a signal reaches one of them: over any schedule of a server that
  -- has started, the workers that have stopped and the `true`s that are still in the channel are together
  -- as many as the `true`s that were sent.
  pub server-one_signal_each :
      (config : ServerConfig) (s : app.St) (p : Pool io Task) (es : List (Event io Task))
      → server app io Task host config s ≡ returned p
      → stopped_workers (run io Task config.accept_timed p es).workers
          + trues (run io Task config.accept_timed p es).queue
        ≡ all_sent io Task config.accept_timed es
  server-one_signal_each config s p es e = omega (
    arith,
    run-used io Task config.accept_timed p es,
    subst StartsWithNone e (server-start config s),
  )
