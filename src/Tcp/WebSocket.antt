-- ===== src/Tcp/WebSocket.antt =====
-- `handle_ws_text_msg` and `handle_ws_connection` of wolf/src/stream/tcp/tcp_server.rs.
--
-- A turn holds what the world does in one round: what the wait yields, the time, and whether `send`
-- succeeds. tokio_tungstenite is the parameter `Ws`; a message is its kind with
-- the bytes of its payload, which is what the methods `is_..`, `len` and `into_data` look at.
pub mod Safety
pub mod Behaviour
use Prim.Native.String.{◌++◌ as ◌<>◌}
use wolf_engine.Base.{
  ℕ, Bool, true, false, not, ◌&&◌, ◌||◌, List, [], ◌∷◌, ◌++◌, Option, none, some, String, Result,
  ok, err, length, overwrite, ltb, leb, ◌==◌, if◌then◌else◌,
}
use wolf_engine.Stream.{
  debug_err, App, Io, Arrival, ready, deadline, Buffer, Phase, looping, closed, faulted,
  max_msg_size, binary, text, new, reset, zeros,
}

pub data Kind : Type 0 where
  text_kind binary_kind ping pong close frame : Kind

pub record Message : Type 0 where
  pub kind : Kind
  pub payload : List ℕ

abbrev pub is_close : Kind → Bool
is_close close = true
is_close _ = false

abbrev pub is_text : Kind → Bool
is_text text_kind = true
is_text _ = false

abbrev pub is_binary : Kind → Bool
is_binary binary_kind = true
is_binary _ = false

abbrev pub is_empty : Message → Bool
is_empty m = length m.payload == 0

-- The codes of a close frame that the handler uses.
pub data CloseCode : Type 0 where
  normal unsupported invalid abnormal size : CloseCode

-- `into_text` and `from_utf8` are the library's; an error's text is that of `{:?}`.
pub record Ws : Type 1 where
  pub WsError : Type 0
  pub debug_ws : WsError → String
  pub into_text : Message → Result WsError (List ℕ)
  pub from_utf8 : List ℕ → Bool
  pub debug_slice_error : String

pub data Sent : Type 0 where
  text_frame binary_frame : List ℕ → Sent

-- Why the loop is left: the code and the text of the close frame that is sent next.
pub record Closing : Type 0 where
  pub code : CloseCode
  pub reason : String

abbrev pub default_closing : Closing
default_closing = record { code = unsupported; reason = "" }

-- `std::ptr::copy_nonoverlapping` of the whole source: outside of the buffer it is a fault.
pub copy_bytes : List ℕ → Buffer → Option Buffer
copy_bytes src b =
    if leb (length src) (length b.buf) then some (record b { buf = overwrite src b.buf }) else none

module _ (app : App) (ws : Ws) where
  open app use {St, Addr, Secs, Failure}
  open ws use {WsError, debug_ws, into_text, from_utf8}

  -- `next` is `none` at the end of the stream and, where there is a timeout, at the deadline:
  -- `timeout_for_read_ws` returns `None` too.
  pub record Turn : Type 0 where
    pub next : Option (Result WsError Message)
    pub elapsed : Secs
    pub send_result : Result WsError (Unit {0})

  pub record Conn : Type 0 where
    pub st : St
    pub msg : Buffer
    pub sent : List Sent

  unfoldable pub start : St → Conn
  start s = record { st = s; msg = new text; sent = [] }

  abbrev callback_closing : Failure → Closing
  callback_closing e = record {
    code = normal;
    reason =
        "websocket connection is going to close because of the p_on_msg_callback request. Reason: "
        <> debug_err (app.debug_failure e);
  }

  -- A frame is out, or the connection ends as abnormal.
  on_send : Conn → Sent → String → Result WsError (Unit {0}) → Phase Conn Closing
  on_send c out reason (ok _) = looping (record c { sent = c.sent ++ out ∷ [] })
  on_send c out reason (err e) =
      closed c (record { code = abnormal; reason = reason <> debug_err (debug_ws e) })

  -- After the callback on a text: the buffer is reset, then sent as text.
  pub text_answer : Conn → Turn → Result Failure (Unit {0}) → Phase Conn Closing
  unfolding on_send
  text_answer c t (err e) = closed c (callback_closing e)
  text_answer c t (ok _) =
      let b = reset c.msg in
      if from_utf8 b.buf
      then on_send (record c { msg = b }) (text_frame b.buf)
          "websocket connection is going to close, because the TEXT message could not send. Reason: "
          t.send_result
      else closed (record c { msg = b })
          (record {
            code = invalid;
            reason =
                "websocket connection is going to close. Reason: for MessageType::TEXT, the data which was provided by p_on_msg_callback is not UTF8";
          })

  pub text_copied : Addr → Conn → Turn → Option Buffer → Phase Conn Closing
  unfolding text_answer
  text_copied peer c t none = faulted
  text_copied peer c t (some b) =
      let (st', b', r) = app.on_message c.st t.elapsed peer b in
      text_answer (record c { st = st'; msg = b' }) t r

  -- `handle_ws_text_msg`
  pub handle_text : Addr → Conn → Turn → Result WsError (List ℕ) → Phase Conn Closing
  unfolding text_copied
  handle_text peer c t (ok str) =
      text_copied peer c t (copy_bytes str (record c.msg { type_ = text }))
  handle_text peer c t (err e) =
      closed (record c { msg = record c.msg { type_ = text } })
        (record {
          code = unsupported;
          reason =
              "websocket connection is going to close. Reason: Unsupported text message. "
              <> debug_ws e;
        })

  binary_answer : Conn → Turn → Result Failure (Unit {0}) → Phase Conn Closing
  unfolding on_send
  binary_answer c t (err e) = closed c (callback_closing e)
  binary_answer c t (ok _) =
      on_send c (binary_frame c.msg.buf)
        "websocket connection is going to close, because the BINARY message could not send. Reason: "
        t.send_result

  binary_copied : Addr → Conn → Turn → Buffer → Phase Conn Closing
  unfolding binary_answer
  binary_copied peer c t b =
      let (st', b', r) = app.on_message c.st t.elapsed peer b in
      binary_answer (record c { st = st'; msg = b' }) t r

  -- The arm `msg.is_binary()`: the payload is taken as a `&[u8; 1024]` or refused.
  pub handle_binary : Addr → Conn → Turn → List ℕ → Phase Conn Closing
  unfolding binary_copied
  handle_binary peer c t payload =
      if length payload == max_msg_size
      then binary_copied peer c t (record c.msg { type_ = binary; buf = payload })
      else closed (record c { msg = record c.msg { type_ = binary } })
          (record {
            code = unsupported;
            reason =
                "websocket connection is going to close. Reason: Unsupported binary message. "
                <> ws.debug_slice_error;
          })

  -- A message that is not empty and is text or binary, of a size that is in `msg.size` already.
  pub handle_data : Addr → Conn → Turn → Message → Phase Conn Closing
  unfolding handle_text handle_binary
  handle_data peer c t m =
      if ltb max_msg_size c.msg.size
      then closed c (record {
        code = size;
        reason =
            "websocket connection is going to close. Reason: Received message size is greater than 1024";
      })
      else if is_text m.kind
      then handle_text peer c t (into_text m)
      else if is_binary m.kind
      then handle_binary peer c t m.payload
      else closed c (record {
        code = unsupported;
        reason = "websocket connection is going to close. Reason: Unsupported message type";
      })

  pub handle_message : Addr → Conn → Turn → Message → Phase Conn Closing
  unfolding handle_data
  handle_message peer c t m =
      if is_close m.kind
      then closed c default_closing
      else if not (is_empty m) && (is_text m.kind || is_binary m.kind)
      then handle_data peer (record c { msg = record c.msg { size = length m.payload } }) t m
      else closed c (record {
        code = invalid;
        reason =
            "websocket connection is going to close. Reason: Received an empty or invalid message";
      })

  -- `None` and `Some(Err(..))` fall through to the next round.
  pub on_next : Addr → Conn → Turn → Option (Result WsError Message) → Phase Conn Closing
  unfolding handle_message
  on_next peer c t none = looping c
  on_next peer c t (some (err e)) = looping c
  on_next peer c t (some (ok m)) = handle_message peer c t m

  -- One round of the `loop`.
  pub step : Addr → Conn → Turn → Phase Conn Closing
  unfolding on_next
  step peer c t = on_next peer c t t.next

  -- After the loop: the close frame is sent, and the text of the closing is returned.
  pub finish : Phase Conn Closing → Result WsError (Unit {0}) → Option (Result WsError String)
  finish (closed c e) (ok _) = some (ok e.reason)
  finish (closed c e) (err x) = some (err x)
  finish _ _ = none
