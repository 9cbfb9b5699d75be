-- ===== src/Tcp/Fiber/Workers.antt =====
-- `server_main_loop` and `server` of wolf/src/stream/tcp/tcp_server_fiber.rs: the workers, which accept
-- connections side by side and share the channel of the shutdown signal.
--
-- A schedule is a list of events, each a step of one worker or a signal that is sent. A worker is at the
-- check of the signal or at its `accept`; a coroutine that it starts is an abstract value.
pub mod Signals
use Prim.Native.String.{◌++◌ as ◌<>◌}
use wolf_engine.Base.{
  ℕ, zero, suc, Bool, true, false, List, [], ◌∷◌, ◌++◌, Option, none, some, String, Result, ok, err,
  Outcome, returned, panicked,
}
use wolf_engine.Stream.{App, Io, Arrival, TcpProtocol, select}
use wolf_engine.Tcp.Server.{poll}

-- TcpFiberServerConfig: `accept_timed` is whether the timeout is above 0.
pub record ServerConfig : Type 0 where
  pub protocol : TcpProtocol
  pub address : String
  pub port : ℕ
  pub fiber_num_of_workers : ℕ
  pub accept_timed : Bool

pub data Status : Type 0 where
  unbound checking accepting stopped : Status

unfoldable pub status : ℕ → List Status → Option Status
status i [] = none
status zero (s ∷ ss) = some s
status (suc i) (s ∷ ss) = status i ss

unfoldable pub set : ℕ → Status → List Status → List Status
set i t [] = []
set zero t (s ∷ ss) = t ∷ ss
set (suc i) t (s ∷ ss) = s ∷ set i t ss

module _ (io : Io) (Task : Type 0) where
  -- What happens: a signal is sent, a worker looks for one, where the flag is whether `try_lock` gets
  -- the lock, or a worker's `accept` goes on.
  pub data Event : Type 0 where
    signal : Bool → Event
    check : ℕ → Bool → Event
    accept : ℕ → Arrival io.IoError Task → Event

  pub record Pool : Type 0 where
    pub queue : List Bool
    pub workers : List Status
    pub spawned : List Task
    pub logged : List io.IoError

  unfoldable pub polled : ℕ → Pool → Bool × List Bool → Pool
  unfolding set
  polled i p (true, queue) = record p { queue = queue; workers = set i stopped p.workers }
  polled i p (false, queue) = record p { queue = queue; workers = set i accepting p.workers }

  unfoldable pub on_check : ℕ → Bool → Pool → Option Status → Pool
  unfolding polled poll
  on_check i free p none = p
  on_check i free p (some unbound) = p
  on_check i free p (some checking) = polled i p (poll free p.queue)
  on_check i free p (some accepting) = p
  on_check i free p (some stopped) = p

  unfoldable pub accepted : ℕ → Pool → Option (Result io.IoError Task) → Pool
  unfolding set
  accepted i p none = p
  accepted i p (some (err e)) = record p {
    workers = set i checking p.workers;
    logged = p.logged ++ e ∷ [];
  }
  accepted i p (some (ok task)) = record p {
    workers = set i checking p.workers;
    spawned = p.spawned ++ task ∷ [];
  }

  unfoldable pub on_accept : Bool → ℕ → Arrival io.IoError Task → Pool → Option Status → Pool
  unfolding accepted
  on_accept timed i arrival p none = p
  on_accept timed i arrival p (some unbound) = p
  on_accept timed i arrival p (some checking) = p
  on_accept timed i arrival p (some accepting) = accepted i p (select io timed arrival)
  on_accept timed i arrival p (some stopped) = p

  unfoldable pub step : Bool → Pool → Event → Pool
  unfolding on_check on_accept status
  step timed p (signal b) = record p { queue = p.queue ++ b ∷ [] }
  step timed p (check i free) = on_check i free p (status i p.workers)
  step timed p (accept i arrival) = on_accept timed i arrival p (status i p.workers)

  unfoldable pub run : Bool → Pool → List Event → Pool
  run timed p [] = p
  run timed p (e ∷ es) = run timed (step timed p e) es

-- What `server` needs of the host: the address, the callback of the socket, and how the `bind` of each
-- worker ends.
pub record Host (app : App) : Type 0 where
  pub decimal : ℕ → String
  pub parse : String → Result app.Failure app.Addr
  pub on_bind_socket : app.St → app.Addr → app.St × Result app.Failure (Unit {0})
  pub bind : ℕ → app.Addr → Result app.Failure (Unit {0})

module _ (app : App) (io : Io) (Task : Type 0) (host : Host app) where
  open app use {St, Addr, Failure}

  unfoldable pub bound : Result Failure (Unit {0}) → Status
  bound (ok _) = checking
  bound (err e) = unbound

  -- One coroutine for each of the workers from `i` on.
  unfoldable pub spawn : Addr → ℕ → ℕ → List Status
  unfolding bound
  spawn addr i zero = []
  spawn addr i (suc left) = bound (host.bind i addr) ∷ spawn addr (suc i) left

  -- Both `unwrap`s may panic.
  unfoldable pub after_bind :
      ServerConfig → Addr → St × Result Failure (Unit {0}) → Outcome (Pool io Task)
  unfolding spawn
  after_bind config addr (s, err e) = panicked
  after_bind config addr (s, ok _) = returned (record {
    queue = [];
    workers = spawn addr 0 config.fiber_num_of_workers;
    spawned = [];
    logged = [];
  })

  unfoldable pub after_parse : ServerConfig → St → Result Failure Addr → Outcome (Pool io Task)
  unfolding after_bind
  after_parse config s (err e) = panicked
  after_parse config s (ok addr) = after_bind config addr (host.on_bind_socket s addr)

  unfoldable pub server : ServerConfig → St → Outcome (Pool io Task)
  unfolding after_parse
  server config s =
      after_parse config s (host.parse (config.address <> (":" <> host.decimal config.port)))
