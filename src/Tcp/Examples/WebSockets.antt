-- ===== src/Tcp/Examples/WebSockets.antt =====
-- The theorems about the websocket handler of wolf/src/stream/tcp/tcp_server.rs at concrete inputs.
use wolf_engine.Base.{ℕ, refl, true, List, [], ◌∷◌, none, some, ok, err, arith}
use wolf_engine.Stream.{looping, run}
use wolf_engine.Stream.Demo.{answering}
use wolf_engine.Tcp.WebSocket.{Kind, text_kind, binary_kind, Ws, Turn, start, step, unsupported}
use wolf_engine.Tcp.WebSocket.Safety.{KeepsText}
use wolf_engine.Tcp.WebSocket.Behaviour.{IsBlankSent, text_frames_blank, IsRefused, step-IsRefused}

-- A library whose text is the payload, and that takes any bytes for UTF-8.
abbrev pub plain_ws : Ws
plain_ws = record {
  WsError = Unit {0};
  debug_ws = λ e. "ws";
  into_text = λ m. ok m.payload;
  from_utf8 = λ bytes. true;
  debug_slice_error = "slice";
}

pub plain_ws-KeepsText : KeepsText plain_ws
plain_ws-KeepsText = record { text_length = λ m str e. ground (arith, e) }

abbrev turn : Kind → List ℕ → Turn answering plain_ws
turn kind payload = record {
  next = some (ok (record { kind = kind; payload = payload }));
  elapsed = 1;
  send_result = ok tt;
}

abbrev pub silent : Turn answering plain_ws
silent = record { next = none; elapsed = 1; send_result = ok tt }

abbrev pub broken : Turn answering plain_ws
broken = record { next = some (err tt); elapsed = 1; send_result = ok tt }

abbrev talk : List (Turn answering plain_ws)
talk = turn text_kind (104 ∷ 105 ∷ []) ∷ silent ∷ turn binary_kind (1 ∷ []) ∷ []

text_frames_blank_example :
    IsBlankSent answering plain_ws 9
      (run (step answering plain_ws 9) (looping (start answering plain_ws 0)) talk)
text_frames_blank_example = text_frames_blank answering plain_ws 9 0 talk

step-IsRefused_example :
    IsRefused answering plain_ws 9
      (start answering plain_ws 3)
      unsupported
      (step answering plain_ws 9 (start answering plain_ws 3) (turn binary_kind (1 ∷ 2 ∷ [])))
step-IsRefused_example =
    step-IsRefused answering plain_ws 9 (start answering plain_ws 3) (turn binary_kind (1 ∷ 2 ∷ []))
      (record { kind = binary_kind; payload = 1 ∷ 2 ∷ [] }) unsupported refl refl
