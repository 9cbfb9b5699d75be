-- ===== src/Udp/Examples.antt =====
-- The theorems about wolf/src/stream/udp.rs at concrete inputs.
use wolf_engine.Base.{◌≡◌, refl, true, List, [], ◌∷◌, ok}
use wolf_engine.Stream.{looping, run}
use wolf_engine.Stream.Demo.{answering, mute, io, answering-KeepsBuffer}
use wolf_engine.Udp.{Conn, Turn, Socket, connect, udp_client, ready, deadline, start, server_step}
use wolf_engine.Udp.Datagrams.{
  SentTo, client_sends_to_itself, rounds, destinations, server_answers_senders,
}

abbrev turns : List (Turn answering io true)
turns =
    record { elapsed = 1; received = ready (ok (5 ∷ [], 4)); send_result = ready (ok 1024) }
    ∷ record { elapsed = 2; received = deadline refl; send_result = ready (ok 1024) }
    ∷ []

-- A socket at the address 9, for which the peer 4 is named.
abbrev socket : Socket answering io true
socket = record {
  decimal = λ n. "7777";
  parse = λ text. ok 4;
  bind = λ addr. ok tt;
  on_bind_socket = λ s addr. (s, ok tt);
  local_addr = ok 9;
}

client_sends_to_itself_example :
    SentTo answering io true 9 (connect answering io true socket "peer" 7777 udp_client 0 turns)
client_sends_to_itself_example =
    client_sends_to_itself answering io true socket 9 refl turns answering-KeepsBuffer "peer" 7777 0

server_answers_senders_example :
    (c' : Conn mute io true) × (run
        (server_step mute io true)
        (looping (start mute io true 0))
        (rounds mute io true ((1, 5 ∷ [], 4) ∷ (2, [], 6) ∷ (3, 6 ∷ 6 ∷ [], 8) ∷ []))
      ≡ looping c')
    × (destinations mute io true c'.sent ≡ 4 ∷ 8 ∷ [])
unfolding start
server_answers_senders_example =
    server_answers_senders mute io true (start mute io true 0)
      ((1, 5 ∷ [], 4) ∷ (2, [], 6) ∷ (3, 6 ∷ 6 ∷ [], 8) ∷ []) (λ s t a b. refl)
