-- ===== src/Tcp/Examples/Servers.antt =====
-- The theorems about the servers, the client and the TLS set-up of wolf/src/stream at concrete inputs.
use wolf_engine.Base.{
  ℕ, ◌≡◌, refl, true, false, [], ◌∷◌, ◌++◌, none, some, ok, length, take, inr, arith,
}
use wolf_engine.Stream.{
  Buffer, ready, deadline, looping, run, native, websocket, new, binary, receive, max_msg_size,
}
use wolf_engine.Stream.Buffers.{new-IsBuffer}
use wolf_engine.Stream.Demo.{answering, io, answering-KeepsBuffer}
use wolf_engine.Tcp.Native
use wolf_engine.Tcp.Tls
use wolf_engine.Tcp.Tls.{Rustls, pkcs8, certificate_present, load_certs, load_private_keys}
use wolf_engine.Tcp.Tls.Acceptor.{new_by_files, expected}
use wolf_engine.Tcp.Server
use wolf_engine.Tcp.Server.{
  Session, ServerConfig, Listener, accept_connection, open_, server, stopped,
}
use wolf_engine.Tcp.Server.Accept.{silent_websocket_open}
use wolf_engine.Tcp.Server.Shutdown.{waits_for_connection, server_stops}
use wolf_engine.Tcp.Fiber
use wolf_engine.Tcp.Fiber.Answers.{sends_whole_buffer}
use wolf_engine.Tcp.Client
use wolf_engine.Tcp.Client.{Network, ClientConfig, client, crashed}
use wolf_engine.Tcp.Client.Panics
use wolf_engine.Tcp.Client.Panics.{client_never_panics, bad_root_panics}
use wolf_engine.Tcp.Examples.WebSockets.{plain_ws, silent, broken}

-- Files that hold one certificate and one key.
abbrev rustls : Rustls
rustls = record {
  FilePath = ℕ;
  File = ℕ;
  IoError = Unit {0};
  TlsError = Unit {0};
  Acceptor = ℕ;
  open_file = ok;
  certs = λ f. ok ((1 ∷ 2 ∷ []) ∷ []);
  pkcs8_private_keys = λ f. ok ((3 ∷ []) ∷ []);
  rsa_private_keys = λ f. ok [];
  with_single_cert = λ certs key. ok 5;
}

new_by_files_example :
    Tls.new rustls (some 1) (some 2) (some pkcs8)
    ≡ expected rustls (load_certs rustls 1) (load_private_keys rustls 2 pkcs8)
new_by_files_example = new_by_files rustls 1 2 pkcs8

abbrev session : Session answering io plain_ws
session = record {
  handshake = ok tt;
  native_turns = record { arrival = ready (ok (1 ∷ [])); elapsed = 1; write_result = ok 2 } ∷ [];
  ws_turns = silent ∷ broken ∷ [];
  close_sent = ok tt;
}

silent_websocket_open_example :
    accept_connection answering io plain_ws websocket true 9 0 session ≡ open_ 0
silent_websocket_open_example =
    silent_websocket_open answering io plain_ws 9 true 0 session refl refl (tt, (tt, tt))

abbrev waiting : Server.Loop io ℕ
waiting = record { queue = []; accepting = true; spawned = 4 ∷ [] }

abbrev signalled : Server.Turn io ℕ
signalled = record { signals = true ∷ []; lock_free = true; arrival = deadline }

abbrev visit : ℕ → Server.Turn io ℕ
visit task = record { signals = []; lock_free = true; arrival = ready (ok task) }

waits_for_connection_example :
    (c' : Server.Loop io ℕ) × (run
        (Server.step io ℕ false)
        (looping waiting)
        (signalled ∷ signalled ∷ [])
      ≡ looping c')
    × (c'.accepting ≡ true)
    × (c'.spawned ≡ 4 ∷ [])
waits_for_connection_example =
    waits_for_connection io ℕ waiting (signalled ∷ signalled ∷ []) refl (refl, (refl, tt))

abbrev listener : Listener answering
listener = record {
  decimal = λ n. "8000";
  parse = λ s. ok 9;
  bind = λ a. ok tt;
  set_ttl = λ n. ok tt;
  on_bind_socket = λ s a. (s, ok tt);
  on_close_socket = λ s a. (s, ok tt);
}

abbrev server_config : ServerConfig
server_config = record {
  protocol = native;
  address = "0.0.0.0";
  port = 8000;
  ttl = 64;
  accept_timed = true;
  io_timed = true;
}

server_stops_example :
    server answering io ℕ listener server_config 0 3
      ((visit 4 ∷ visit 6 ∷ []) ++ signalled ∷ visit 8 ∷ [])
    ≡ stopped (4 ∷ 6 ∷ []) (ok tt)
unfolding Server.prepare
server_stops_example =
    server_stops answering io ℕ listener server_config 9 0 0 3 (visit 4 ∷ visit 6 ∷ [])
      (visit 8 ∷ []) signalled [] refl refl refl (refl, (refl, tt)) refl refl

abbrev answered : Buffer
answered = (answering.on_message 0 1 9 (receive (1 ∷ []) (new binary))).1

sends_whole_buffer_example :
    (Fiber.step answering io 9
        (record { st = 0; msg = new binary; sent = [] })
        (record { read_result = ok (1 ∷ []); elapsed = 1; write_result = ok max_msg_size })
      ≡ looping (record { st = 1; msg = answered; sent = answered.buf ∷ [] }))
    × (length answered.buf ≡ max_msg_size)
    × (Native.step answering io 9 true
          (record { st = 0; msg = new binary; sent = [] })
          (record { arrival = ready (ok (1 ∷ [])); elapsed = 1; write_result = ok 2 })
        ≡ looping (record { st = 1; msg = answered; sent = take 2 answered.buf ∷ [] }))
sends_whole_buffer_example =
    sends_whole_buffer answering io 9 true (record { st = 0; msg = new binary; sent = [] }) 1
      (1 ∷ []) answering-KeepsBuffer (new-IsBuffer binary) refl (ground arith) (ground arith)

abbrev network : Network answering io
network = record {
  FilePath = ℕ;
  Anchor = ℕ;
  Stream = ℕ;
  ServerName = Unit {0};
  decimal = λ n. "8000";
  parse = λ s. ok 9;
  read_certs = λ path. ok ((1 ∷ []) ∷ [] ∷ []);
  anchor = λ der. elim der [ [] ↦ none | x ∷ xs ↦ some x ];
  system_anchors = 1 ∷ [];
  connect = λ a. ok 3;
  server_name = λ s. ok tt;
  peer_addr = λ stream. ok 9;
  tls_connect = λ anchors name stream. ok stream;
  wrap = λ e. e;
  on_close_socket = λ s a. (s, ok tt);
}

abbrev client_config : ClientConfig ℕ
client_config = record {
  endpoint_address = "0.0.0.0";
  port = 8000;
  io_timed = true;
  tls = true;
  tls_ca_path = some 2;
}

abbrev client_turn : Client.Turn answering io
client_turn = record {
  elapsed = 1;
  write_result = ok 2;
  flush_result = ok tt;
  arrival = ready (ok (5 ∷ []));
}

client_never_panics_example : Panics.IsAlive answering io network (
    client answering io network
      (record client_config { tls_ca_path = none })
      0
      (client_turn ∷ client_turn ∷ []))
client_never_panics_example =
    client_never_panics answering io network (record client_config { tls_ca_path = none }) 0
      (client_turn ∷ client_turn ∷ []) (inr refl) answering-KeepsBuffer (λ peer s t b. ground arith)
