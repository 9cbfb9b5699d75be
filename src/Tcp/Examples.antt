-- ===== src/Tcp/Examples.antt =====
-- The theorems about the tcp server of wolf/src/stream/tcp/tcp_server.rs at concrete inputs.
mod WebSockets
mod Fibers
mod Servers
mod Tasks
use wolf_engine.Base.{
  ℕ, ◌≤◌, ◌≡◌, refl, suc, true, false, List, [], ◌∷◌, ◌++◌, Option, none, some, Result, ok, err,
  length, arith, take-overwrite, length-overwrite,
}
use wolf_engine.Stream.{App, Buffer, ready, deadline, looping, panicked, closed, run, new, binary}
use wolf_engine.Stream.Buffers.{IsBuffer, new-IsBuffer}
use wolf_engine.Stream.Demo.{
  answering, mute, oversize, io, answering-KeepsBuffer, mute-KeepsBuffer, oversize-KeepsBuffer,
}
use wolf_engine.Tcp.Native.{Conn, Turn, start, step}
use wolf_engine.Tcp.Native.Loop.{eof_never_closes, never_panics, oversize_answer_panics, IsSound}
use wolf_engine.Tcp.Native.Loop.Service.{Implements, served, rounds, serves}

abbrev turn : List ℕ → Turn answering io
turn bytes = record { arrival = ready (ok bytes); elapsed = 1; write_result = ok 2 }

eof_never_closes_example :
    (c' : Conn mute io) × (run
        (step mute io 9 true)
        (looping (record { st = 0; msg = new binary; sent = [] }))
        (record { arrival = ready (ok []); elapsed = 0; write_result = ok 0 }
          ∷ record { arrival = ready (ok []); elapsed = 1; write_result = ok 0 }
          ∷ [])
      ≡ looping c')
    × (c'.sent ≡ [])
eof_never_closes_example =
    eof_never_closes mute io 9 true (record { st = 0; msg = new binary; sent = [] })
      (record { arrival = ready (ok []); elapsed = 0; write_result = ok 0 }
        ∷ record { arrival = ready (ok []); elapsed = 1; write_result = ok 0 }
        ∷ [])
      (λ s t b h. (refl, refl)) (refl, (refl, tt))

-- The service that `answering` implements.
abbrev counted : ℕ → List ℕ → ℕ × List ℕ
counted s x = (suc s, 7 ∷ s ∷ [])

answering-Implements : Implements answering 9 counted
answering-Implements = record {
  state = λ s t b. refl;
  accepts = λ s t b. refl;
  front = λ s t b h. (
    answering-KeepsBuffer.kept s t 9 b h,
    ground arith,
    take-overwrite (7 ∷ s ∷ []) b.buf (ground (arith, h)),
  );
}

serves_example :
    (c' : Conn answering io) × (run
        (step answering io 9 true)
        (looping (record { st = 0; msg = new binary; sent = [] }))
        (rounds answering io 9 counted 0 ((1, 5 ∷ []) ∷ (2, 6 ∷ 6 ∷ []) ∷ []))
      ≡ looping c')
    × (c'.sent ≡ served counted 0 ((5 ∷ []) ∷ (6 ∷ 6 ∷ []) ∷ []))
serves_example =
    serves answering io 9 counted true (record { st = 0; msg = new binary; sent = [] })
      ((1, 5 ∷ []) ∷ (2, 6 ∷ 6 ∷ []) ∷ []) answering-Implements (omega arith, (omega arith, tt))
      (new-IsBuffer binary)
