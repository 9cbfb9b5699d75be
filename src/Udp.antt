-- ===== src/Udp.antt =====
-- wolf/src/stream/udp.rs: the loops of a UDP server and a UDP client, and the socket around them.
--
-- A turn holds what the world does in one round of a loop, which is over when its waits are.
pub mod Datagrams
mod Examples
use Prim.Native.String.{◌++◌ as ◌<>◌}
use wolf_engine.Base.{
  ℕ, ◌≡◌, Bool, true, false, List, [], ◌∷◌, ◌++◌, String, Result, ok, err, take, overwrite, ltb,
  if◌then◌else◌, ◌>>=◌,
}
use wolf_engine.Stream.{
  debug_err, App, Io, Buffer, Phase, looping, closed, panicked, faulted, max_msg_size, binary, new,
  receive, run,
}

pub data UdpConnectionType : Type 0 where
  udp_server udp_client : UdpConnectionType

-- `read` and `send` of this file end with the socket's result or, where there is a timeout, with its
-- error. The timeout is one that a `Duration` holds.
pub data Wait (timed : Bool) (IoError A : Type 0) : Type 0 where
  ready : Result IoError A → Wait timed IoError A
  deadline : timed ≡ true → Wait timed IoError A

abbrev pub settle :
    (io : Io) {timed : Bool} {A : Type 0} → Wait timed io.IoError A → Result io.IoError A
settle io (ready r) = r
settle io (deadline e) = err io.timed_out

module _ (app : App) (io : Io) (timed : Bool) where
  open app use {St, Addr, Secs, Failure, debug_failure, on_close}
  open io use {IoError, debug_error}

  pub record Turn : Type 0 where
    pub elapsed : Secs
    pub received : Wait timed IoError (List ℕ × Addr)
    pub send_result : Wait timed IoError ℕ

  pub record Datagram : Type 0 where
    pub to : Addr
    pub bytes : List ℕ

  -- `sent` holds the datagrams that the socket took.
  pub record Conn : Type 0 where
    pub st : St
    pub msg : Buffer
    pub sent : List Datagram

  unfoldable pub start : St → Conn
  start s = record { st = s; msg = new binary; sent = [] }

  unfoldable pub on_send : Conn → Addr → Result IoError ℕ → Result String Conn
  on_send c to (ok n) =
      ok (record c { sent = c.sent ++ record { to = to; bytes = c.msg.buf } ∷ [] })
  on_send c to (err e) = err (debug_err (debug_error e))

  unfoldable pub server_answer :
      Turn → Conn → Addr → ℕ → Result Failure (Unit {0}) → Result String Conn
  unfolding on_send
  server_answer t c peer msg_size (err e) = err (
      "udp connection will be closed because of the p_on_msg_callback request. Reason: "
      <> debug_err (debug_failure e))
  server_answer t c peer msg_size (ok _) =
      if ltb 0 msg_size then on_send c peer (settle io t.send_result) else ok c

  unfoldable pub callback : Secs → Addr → Conn → Conn × Result Failure (Unit {0})
  callback now peer c =
      let (st', msg', r) = app.on_message c.st now peer c.msg in
      (record c { st = st'; msg = msg' }, r)

  unfoldable pub server_read :
      Conn → Turn → Result IoError (List ℕ × Addr) → Conn × Result String Conn
  unfolding server_answer callback
  server_read c t (err e) = (c, err (debug_err (debug_error e)))
  server_read c t (ok (bytes, peer)) =
      let b = receive bytes c.msg in
      let (c', r) = callback t.elapsed peer (record c { msg = b }) in
      (c', server_answer t c' peer b.size r)

  -- The loop is left with the text of its error, from where it stands.
  abbrev pub end_round : Conn × Result String Conn → Phase Conn String
  end_round (c, ok c') = looping c'
  end_round (c, err m) = closed c m

  -- One round of the loop of `UdpConnectionType::UDPServer`.
  unfoldable pub server_step : Conn → Turn → Phase Conn String
  unfolding server_read
  server_step c t = end_round (server_read c t (settle io t.received))

  -- The bytes that a read leaves in the buffer, and not their number.
  abbrev pub fill : Conn → Result IoError (List ℕ × Addr) → Result String Conn
  fill c (ok (bytes, peer)) =
      ok (record c { msg = record c.msg { buf = overwrite (take max_msg_size bytes) c.msg.buf } })
  fill c (err e) = err (debug_err (debug_error e))

  unfoldable pub client_sent : Turn → Conn → Result String Conn → Conn × Result String Conn
  client_sent t c (ok c') = (c', fill c' (settle io t.received))
  client_sent t c (err m) = (c, err m)

  unfoldable pub client_answer :
      Addr → Turn → Conn × Result Failure (Unit {0}) → Conn × Result String Conn
  unfolding on_send client_sent
  client_answer local t (c, err e) = (
    c,
    err (
        "udp client will be closed because of the p_on_msg_callback request. Reason: "
        <> debug_err (debug_failure e)),
  )
  client_answer local t (c, ok _) =
      if ltb 0 c.msg.size
      then client_sent t c (on_send c local (settle io t.send_result))
      else (c, ok c)

  -- One round of the loop of `UdpConnectionType::UDPClient`; `local` is `socket.local_addr()`.
  unfoldable pub client_step : Addr → Conn → Turn → Phase Conn String
  unfolding client_answer callback
  client_step local c t = end_round (client_answer local t (callback t.elapsed local c))

  -- What `connect` needs of the host.
  pub record Socket : Type 0 where
    pub decimal : ℕ → String
    pub parse : String → Result Failure Addr
    pub bind : Addr → Result Failure (Unit {0})
    pub on_bind_socket : St → Addr → St × Result Failure (Unit {0})
    pub local_addr : Result Failure Addr

  -- How `connect` ends, or that its loop still runs, with the connection as it then is.
  pub data Ended : Type 0 where
    open_ : Conn → Ended
    failed : St → Failure → Ended
    finished : Conn → Result Failure (Unit {0}) → Ended
    crashed : Ended

  unfoldable pub after_loop : Addr → Phase Conn String → Ended
  after_loop addr (looping c) = open_ c
  after_loop addr (closed c m) =
      let (s', r) = on_close c.st addr m in finished (record c { st = s' }) r
  after_loop addr panicked = crashed
  after_loop addr faulted = crashed

  unfoldable pub client_loop : Addr → St → List Turn → Result Failure Addr → Ended
  unfolding after_loop
  client_loop addr s turns (err e) = failed s e
  client_loop addr s turns (ok local) =
      after_loop addr (run (client_step local) (looping (start s)) turns)

  unfoldable pub loop : Socket → UdpConnectionType → Addr → St → List Turn → Ended
  unfolding client_loop
  loop host udp_server addr s turns = after_loop addr (run server_step (looping (start s)) turns)
  loop host udp_client addr s turns = client_loop addr s turns host.local_addr

  unfoldable pub on_bound :
      Socket → UdpConnectionType → Addr → List Turn → St × Result Failure (Unit {0}) → Ended
  unfolding loop
  on_bound host type_ addr turns (s, err e) = failed s e
  on_bound host type_ addr turns (s, ok _) = loop host type_ addr s turns

  unfoldable pub on_parsed :
      Socket → UdpConnectionType → St → List Turn → Result Failure Addr → Ended
  unfolding on_bound
  on_parsed host type_ s turns (err e) = failed s e
  on_parsed host type_ s turns (ok addr) =
      on_bound host type_ addr turns (host.on_bind_socket s addr)

  unfoldable pub connect : Socket → String → ℕ → UdpConnectionType → St → List Turn → Ended
  unfolding on_parsed
  connect host address port type_ s turns = on_parsed host type_ s turns (
      host.parse (address <> (":" <> host.decimal port)) >>= λ addr.
      host.bind addr >>= λ _. ok addr)
