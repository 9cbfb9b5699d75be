-- ===== src/Tcp/Native.antt =====
-- `handle_tcp_connection` of wolf/src/stream/tcp/tcp_server.rs: the loop that reads, calls the
-- message callback and writes its answer.
--
-- A turn holds what the world does in one round of the loop: what arrives, the time, and how far
-- `write` gets. `flush` is left out, since its result is not looked at.
pub mod Loop
use Prim.Native.String.{◌++◌ as ◌<>◌}
use wolf_engine.Base.{
  ℕ, Bool, true, false, List, [], ◌∷◌, ◌++◌, Option, none, some, String, Result, ok, err, length,
  take, ltb, leb, if◌then◌else◌,
}
use wolf_engine.Stream.{
  debug_err, App, Io, Arrival, Buffer, Phase, looping, closed, panicked, binary, new, receive,
  select,
}

module _ (app : App) (io : Io) where
  open app use {St, Addr, Secs, Failure}
  open io use {IoError, debug_error}

  pub record Turn : Type 0 where
    pub arrival : Arrival IoError (List ℕ)
    pub elapsed : Secs
    pub write_result : Result IoError ℕ

  -- `sent` holds what each `write` took, the oldest first.
  pub record Conn : Type 0 where
    pub st : St
    pub msg : Buffer
    pub sent : List (List ℕ)

  unfoldable pub start : St → Conn
  start s = record { st = s; msg = new binary; sent = [] }

  -- `writer.write(&v)` takes a front part of `v`, of the length that it returns.
  unfoldable pub on_write : Conn → List ℕ → Result IoError ℕ → Phase Conn String
  on_write c v (ok n) = looping (record c { sent = c.sent ++ take n v ∷ [] })
  on_write c v (err e) = closed c (debug_err (debug_error e))

  -- `msg.buf[0..msg.size]` panics beyond the end of the array.
  unfoldable pub on_reply : Conn → Turn → Result Failure (Unit {0}) → Phase Conn String
  unfolding on_write
  on_reply c t (err e) = closed c (
      "tcp connection will be closed because of the p_on_msg_callback request. Reason: "
      <> debug_err (app.debug_failure e))
  on_reply c t (ok _) =
      if ltb 0 c.msg.size
      then if leb c.msg.size (length c.msg.buf)
        then on_write c (take c.msg.size c.msg.buf) t.write_result
        else panicked
      else looping c

  unfoldable pub on_read : Addr → Conn → Turn → Option (Result IoError (List ℕ)) → Phase Conn String
  unfolding on_reply
  on_read peer c t none = looping c
  on_read peer c t (some (err e)) = closed c (debug_err (debug_error e))
  on_read peer c t (some (ok bytes)) =
      let (st', msg', r) = app.on_message c.st t.elapsed peer (receive bytes c.msg) in
      on_reply (record c { st = st'; msg = msg' }) t r

  -- One round of the `loop`; `timed` is `p_io_timeout_in_secs > 0.0`.
  unfoldable pub step : Addr → Bool → Conn → Turn → Phase Conn String
  unfolding on_read
  step peer timed c t = on_read peer c t (select io timed t.arrival)
