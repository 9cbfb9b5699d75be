-- ===== src/Tcp/Examples/Tasks.antt =====
-- The tasks of the TCP server of wolf/src/stream/tcp/tcp_server.rs at concrete inputs.
use wolf_engine.Base.{ℕ, map, ◌≡◌, refl, true, false, List, [], ◌∷◌, ok, err, arith}
use wolf_engine.Stream.{ready, native}
use wolf_engine.Stream.Demo.{answering, io, answering-KeepsBuffer}
use wolf_engine.Stream.Loops.{All}
use wolf_engine.Tcp.Server.Tasks.{
  Event, accepted, wakes, start_connection, native_turn, tls_accepted, run,
}
use wolf_engine.Tcp.Server.Tasks.Safety.{IsSafe, tasks-never_die}
use wolf_engine.Tcp.Server.Tasks.Guard.{IsOutside, tls-guards}
use wolf_engine.Tcp.Examples.WebSockets.{plain_ws, plain_ws-KeepsText}

-- Two connections that take turns: each message is counted in the state that they share.
abbrev interleaved : List (Event answering io plain_ws)
interleaved =
    accepted 7
    ∷ accepted 8
    ∷ wakes 1 start_connection
    ∷ wakes 0 start_connection
    ∷ wakes 0
        (native_turn (record { arrival = ready (ok (1 ∷ [])); elapsed = 1; write_result = ok 2 }))
    ∷ wakes 1
        (native_turn (record { arrival = ready (ok (2 ∷ [])); elapsed = 1; write_result = ok 2 }))
    ∷ wakes 0
        (native_turn (record { arrival = ready (ok (3 ∷ [])); elapsed = 2; write_result = ok 2 }))
    ∷ []

counts_both :
    (run answering io plain_ws native true false
      (record { tasks = []; shared = 0 })
      interleaved).shared
    ≡ 3
unfolding run wolf_engine.Tcp.Native.step wolf_engine.Stream.select wolf_engine.Base.overwrite
    wolf_engine.Stream.receive wolf_engine.Tcp.Native.start wolf_engine.Stream.new
    wolf_engine.Stream.zeros wolf_engine.Base.replicate
counts_both = refl

tasks-never_die_example :
    All
      (IsSafe answering io plain_ws)
      (run answering io plain_ws native true false
        (record { tasks = []; shared = 0 })
        interleaved).tasks
tasks-never_die_example =
    tasks-never_die answering io plain_ws native true answering-KeepsBuffer plain_ws-KeepsText
      (λ peer s t b. ground arith) false 0 interleaved

abbrev strangers : List (Event answering io plain_ws)
strangers =
    accepted 7 ∷ wakes 0 start_connection ∷ wakes 0 (tls_accepted (err tt)) ∷ accepted 8 ∷ []

tls-guards_example :
    ((run answering io plain_ws native true true
        (record { tasks = []; shared = 4 })
        strangers).shared
      ≡ 4)
    × All
        (IsOutside answering io plain_ws)
        (run answering io plain_ws native true true
          (record { tasks = []; shared = 4 })
          strangers).tasks
tls-guards_example =
    tls-guards answering io plain_ws native true 4 strangers (refl, (refl, (refl, (refl, tt))))
