-- ===== src/Tcp/Fiber.antt =====
-- wolf/src/stream/tcp/tcp_server_fiber.rs: the server whose connections are coroutines of `may`.
--
-- A turn holds what `read` returns, the time, and what `write` returns.
pub mod Answers
pub mod Workers
use Prim.Native.String.{◌++◌ as ◌<>◌, [] as no_text}
use wolf_engine.Base.{
  ℕ, Bool, true, false, List, [], ◌∷◌, ◌++◌, Option, none, some, String, Result, ok, err, take, ltb,
  if◌then◌else◌,
}
use wolf_engine.Stream.{
  App, Io, Buffer, Phase, looping, closed, panicked, faulted, TcpProtocol, native, websocket,
  binary, new, receive, run,
}

abbrev pub is_empty : String → Bool
is_empty no_text = true
is_empty _ = false

module _ (app : App) (io : Io) where
  open app use {St, Addr, Secs, Failure, debug_failure, on_accept, on_close}
  open io use {IoError, debug_error}

  pub record Turn : Type 0 where
    pub read_result : Result IoError (List ℕ)
    pub elapsed : Secs
    pub write_result : Result IoError ℕ

  pub record Conn : Type 0 where
    pub st : St
    pub msg : Buffer
    pub sent : List (List ℕ)

  unfoldable pub start : St → Conn
  start s = record { st = s; msg = new binary; sent = [] }

  abbrev because : String → String
  because s =
      "tcp connection will be closed because of the p_on_msg_callback request. Reason: " <> s

  -- `format!("{:?}. ", close_conn)` of a `Result`, where it is an error
  abbrev callback_text : Result Failure (Unit {0}) → String
  callback_text (ok _) = ""
  callback_text (err e) = "Err(" <> (debug_failure e <> "). ")

  -- `write` is given the whole buffer.
  unfoldable pub on_write : Conn → String → Result IoError ℕ → Conn × String
  on_write c text (ok n) = (record c { sent = c.sent ++ take n c.msg.buf ∷ [] }, text)
  on_write c text (err e) = (c, text <> debug_error e)

  -- One round up to the test of `close_msg`, with what is in it then.
  unfoldable pub on_read : Addr → Conn → Turn → Result IoError (List ℕ) → Conn × String
  unfolding on_write
  on_read peer c t (err e) = (c, because (debug_error e))
  on_read peer c t (ok bytes) =
      let (st', msg', r) = app.on_message c.st t.elapsed peer (receive bytes c.msg) in
      let c' = record c { st = st'; msg = msg' } in
      if ltb 0 msg'.size
      then on_write c' (callback_text r) t.write_result
      else (c', callback_text r)

  unfoldable pub test_close : Conn × String → Phase Conn String
  test_close (c, text) = if is_empty text then looping c else closed c (because text)

  -- One round of the `loop` of `handle_tcp_connection`.
  unfoldable pub step : Addr → Conn → Turn → Phase Conn String
  unfolding on_read test_close
  step peer c t = test_close (on_read peer c t t.read_result)

  -- `handle_ws_connection` does nothing but name itself.
  abbrev pub ws_close_msg : String
  ws_close_msg = "close_msg_from_ws"

  -- Where a connection stands, with the callbacks' state.
  pub data Ended : Type 0 where
    open_ : St → Ended
    refused : St → Failure → Ended
    no_timeout : St → IoError → Ended
    finished : St → Result Failure (Unit {0}) → Ended
    crashed : Ended

  close_with : Addr → St → String → Ended
  close_with peer s m = let (s', r) = on_close s peer m in finished s' r

  pub end_native : Addr → Phase Conn String → Ended
  unfolding close_with
  end_native peer (looping c) = open_ c.st
  end_native peer (closed c m) = close_with peer c.st m
  end_native peer panicked = crashed
  end_native peer faulted = crashed

  handle : TcpProtocol → Addr → St → List Turn → Ended
  unfolding end_native
  handle native peer s turns = end_native peer (run (step peer) (looping (start s)) turns)
  handle websocket peer s turns = close_with peer s ws_close_msg

  with_timeouts : TcpProtocol → Addr → St → List Turn → Result IoError (Unit {0}) → Ended
  unfolding handle
  with_timeouts protocol peer s turns (err e) = no_timeout s e
  with_timeouts protocol peer s turns (ok _) = handle protocol peer s turns

  on_accepted :
      TcpProtocol
      → Addr
      → List Turn
      → Result IoError (Unit {0})
      → St × Result Failure (Unit {0})
      → Ended
  unfolding with_timeouts
  on_accepted protocol peer turns set (s, ok _) = with_timeouts protocol peer s turns set
  on_accepted protocol peer turns set (s, err e) = refused s e

  -- `set` is what setting the read timeout and then the write timeout of the stream gives.
  unfoldable pub accept_connection :
      TcpProtocol → Addr → St → List Turn → Result IoError (Unit {0}) → Ended
  unfolding on_accepted
  accept_connection protocol peer s turns set =
      on_accepted protocol peer turns set (on_accept s peer)
