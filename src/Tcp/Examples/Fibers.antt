-- ===== src/Tcp/Examples/Fibers.antt =====
-- The workers of the fiber server of wolf/src/stream/tcp/tcp_server_fiber.rs at concrete inputs.
use wolf_engine.Base.{ℕ, ◌≡◌, ◌+◌, refl, true, List, [], ◌∷◌, ok}
use wolf_engine.Stream.{ready, deadline, native}
use wolf_engine.Stream.Demo.{answering, io}
use wolf_engine.Tcp.Fiber.Workers
use wolf_engine.Tcp.Fiber.Workers.{
  Host, ServerConfig, Event, signal, check, accept, Pool, checking, run,
}
use wolf_engine.Tcp.Fiber.Workers.Signals.{stopped_workers, trues, all_sent, server-one_signal_each}

abbrev host : Host answering
host = record {
  decimal = λ n. "80";
  parse = λ s. ok 7;
  on_bind_socket = λ s a. (s, ok tt);
  bind = λ i a. ok tt;
}

abbrev config : ServerConfig
config = record {
  protocol = native;
  address = "0.0.0.0";
  port = 80;
  fiber_num_of_workers = 2;
  accept_timed = true;
}

abbrev pool : Pool io ℕ
pool = record { queue = []; workers = checking ∷ checking ∷ []; spawned = []; logged = [] }

-- One signal, and two workers that look for it.
abbrev schedule : List (Event io ℕ)
schedule =
    check 0 true
    ∷ accept 0 (ready (ok 5))
    ∷ signal true
    ∷ check 1 true
    ∷ check 0 true
    ∷ accept 0 deadline
    ∷ []

server-one_signal_each_example :
    stopped_workers (run io ℕ true pool schedule).workers
      + trues (run io ℕ true pool schedule).queue
    ≡ all_sent io ℕ true schedule
unfolding Workers.server Workers.after_parse Workers.after_bind Workers.spawn Workers.bound
server-one_signal_each_example =
    server-one_signal_each answering io ℕ host config 0 pool schedule refl
