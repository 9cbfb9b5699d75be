-- ===== src/Tcp/Client.antt =====
-- wolf/src/stream/tcp/tcp_client.rs: the loop that calls the message callback, writes its answer and
-- reads, and the connection around it.
--
-- A turn holds what the world does in one round of the loop.
pub mod Panics
use Prim.Native.String.{◌++◌ as ◌<>◌}
use wolf_engine.Base.{
  ℕ, Bool, true, false, List, [], ◌∷◌, ◌++◌, Option, none, some, String, Result, ok, err, length,
  take, ltb, leb, if◌then◌else◌, map_err, ◌>>=◌, Outcome, returned,
}
use wolf_engine.Base.Results
use wolf_engine.Stream.{
  App, Io, Arrival, Buffer, Phase, looping, closed, panicked, faulted, binary, new, receive, run,
  select,
}

module _ (app : App) (io : Io) where
  open app use {St, Addr, Secs, Failure}
  open io use {IoError}

  pub record Turn : Type 0 where
    pub elapsed : Secs
    pub write_result : Result IoError ℕ
    pub flush_result : Result IoError (Unit {0})
    pub arrival : Arrival IoError (List ℕ)

  -- `reading` is that the loop waits in its `read`, for which there is no timeout.
  pub record Conn : Type 0 where
    pub st : St
    pub msg : Buffer
    pub sent : List (List ℕ)
    pub reading : Bool

  unfoldable pub start : St → Conn
  start s = record { st = s; msg = new binary; sent = []; reading = false }

  unfoldable pub on_read :
      Conn → Option (Result IoError (List ℕ)) → Phase Conn (Result IoError (Unit {0}))
  on_read c none = looping (record c { reading = true })
  on_read c (some (err e)) = closed c (err e)
  on_read c (some (ok bytes)) = looping (record c { msg = receive bytes c.msg; reading = false })

  -- `flush` is called where `write` took something.
  unfoldable pub on_flush : Bool → Turn → Conn → Bool → Phase Conn (Result IoError (Unit {0}))
  unfolding on_read
  on_flush timed t c wrote = by_result t.flush_result
    where
      by_result : Result IoError (Unit {0}) → Phase Conn (Result IoError (Unit {0}))
      by_result (ok _) = on_read c (select io timed t.arrival)
      by_result (err e) = if wrote then closed c (err e) else on_read c (select io timed t.arrival)

  unfoldable pub on_write :
      Bool → Turn → Conn → List ℕ → Result IoError ℕ → Phase Conn (Result IoError (Unit {0}))
  unfolding on_flush
  on_write timed t c v (ok n) =
      on_flush timed t (record c { sent = c.sent ++ take n v ∷ [] }) (ltb 0 n)
  on_write timed t c v (err e) = closed c (err e)

  -- `msg_buffer.buf[0..msg_buffer.size]` panics beyond the end of the array.
  unfoldable pub on_callback :
      Bool → Turn → Conn → Result Failure (Unit {0}) → Phase Conn (Result IoError (Unit {0}))
  unfolding on_write
  on_callback timed t c (err e) = closed c (ok tt)
  on_callback timed t c (ok _) =
      if ltb 0 c.msg.size
      then if leb c.msg.size (length c.msg.buf)
        then on_write timed t c (take c.msg.size c.msg.buf) t.write_result
        else panicked
      else on_read c (select io timed t.arrival)

  unfoldable pub round : Addr → Bool → Conn → Turn → Phase Conn (Result IoError (Unit {0}))
  unfolding on_callback
  round peer timed c t =
      let (st', msg', r) = app.on_message c.st t.elapsed peer c.msg in
      on_callback timed t (record c { st = st'; msg = msg' }) r

  -- One round of the `loop` of `handle_client_stream`, or of the wait in it.
  unfoldable pub step : Addr → Bool → Conn → Turn → Phase Conn (Result IoError (Unit {0}))
  unfolding round
  step peer timed c t =
      if c.reading then on_read c (select io timed t.arrival) else round peer timed c t

-- TcpClientConfig: the timeout is whether it is above 0.
pub record ClientConfig (FilePath : Type 0) : Type 0 where
  pub endpoint_address : String
  pub port : ℕ
  pub io_timed : Bool
  pub tls : Bool
  pub tls_ca_path : Option FilePath

-- rustls, webpki and the network. `anchor` is `TrustAnchor::try_from_cert_der`; `system_anchors` is
-- webpki_roots; `tls_connect` takes the trust anchors and the name of the server. An error is one
-- value, whatever text the code wraps it in.
pub record Network (app : App) (io : Io) : Type 1 where
  pub FilePath : Type 0
  pub Anchor : Type 0
  pub Stream : Type 0
  pub ServerName : Type 0
  pub decimal : ℕ → String
  pub parse : String → Result app.Failure app.Addr
  pub read_certs : FilePath → Result app.Failure (List (List ℕ))
  pub anchor : List ℕ → Option Anchor
  pub system_anchors : List Anchor
  pub connect : app.Addr → Result app.Failure Stream
  pub server_name : String → Result app.Failure ServerName
  pub peer_addr : Stream → Result app.Failure app.Addr
  pub tls_connect : List Anchor → ServerName → Stream → Result app.Failure Stream
  pub wrap : io.IoError → app.Failure
  pub on_close_socket : app.St → app.Addr → app.St × Result app.Failure (Unit {0})

module _ (app : App) (io : Io) (net : Network app io) where
  open app use {St, Addr, Failure}
  open net use {FilePath, Anchor, Stream}

  -- `unwrap` of each anchor, from the first on: `none` is a panic.
  unfoldable pub anchors : List (List ℕ) → Option (List Anchor)
  anchors [] = some []
  anchors (der ∷ ders) = cons (net.anchor der) (anchors ders)
    where
      cons : Option Anchor → Option (List Anchor) → Option (List Anchor)
      cons (some a) (some as_) = some (a ∷ as_)
      cons (some a) none = none
      cons none rest = none

  unfoldable pub certs_to_root :
      Result Failure (List (List ℕ)) → Outcome (Result Failure (List Anchor))
  certs_to_root (err e) = returned (err e)
  certs_to_root (ok ders) = or_panic (anchors ders)
    where
      or_panic : Option (List Anchor) → Outcome (Result Failure (List Anchor))
      or_panic none = Results.panicked
      or_panic (some as_) = returned (ok as_)

  unfoldable pub load_root_ca : Option FilePath → Outcome (Result Failure (List Anchor))
  unfolding certs_to_root
  load_root_ca none = returned (ok net.system_anchors)
  load_root_ca (some path) = certs_to_root (net.read_certs path)

  -- The stream and the peer's address, by the branch on `tls`.
  unfoldable pub plain_stream : Addr → Result Failure (Stream × Addr)
  plain_stream addr =
      net.connect addr >>= λ stream. net.peer_addr stream >>= λ peer. ok (stream, peer)

  unfoldable pub tls_stream :
      ClientConfig FilePath → Addr → List Anchor → Result Failure (Stream × Addr)
  tls_stream config addr roots = net.connect addr >>= λ stream.
      net.server_name config.endpoint_address >>= λ name. net.peer_addr stream >>= λ peer.
      net.tls_connect roots name stream >>= λ stream'. ok (stream', peer)

  unfoldable pub with_root :
      ClientConfig FilePath
      → Addr
      → Outcome (Result Failure (List Anchor))
      → Outcome (Result Failure (Stream × Addr))
  with_root config addr (returned (ok roots)) = returned (tls_stream config addr roots)
  with_root config addr (returned (err e)) = returned (err e)
  with_root config addr Results.panicked = Results.panicked

  unfoldable pub open_stream :
      ClientConfig FilePath → Addr → Outcome (Result Failure (Stream × Addr))
  unfolding with_root
  open_stream config addr =
      if config.tls
      then with_root config addr (load_root_ca config.tls_ca_path)
      else returned (plain_stream addr)

  -- What `client` is at: in its loop, returned with the callbacks' state, or dead.
  pub data ClientEnd : Type 0 where
    running : St → ClientEnd
    returned_ : St → Result Failure (Unit {0}) → ClientEnd
    crashed : ClientEnd

  unfoldable pub after_stream :
      Addr → Phase (Conn app io) (Result io.IoError (Unit {0})) → ClientEnd
  after_stream addr (looping c) = running c.st
  after_stream addr (closed c (err e)) = returned_ c.st (err (net.wrap e))
  after_stream addr (closed c (ok _)) =
      let (s', r) = net.on_close_socket c.st addr in returned_ s' r
  after_stream addr panicked = crashed
  after_stream addr faulted = crashed

  unfoldable pub after_open :
      ClientConfig FilePath
      → Addr
      → St
      → List (Turn app io)
      → Outcome (Result Failure (Stream × Addr))
      → ClientEnd
  unfolding after_stream
  after_open config addr s turns Results.panicked = crashed
  after_open config addr s turns (returned (err e)) = returned_ s (err e)
  after_open config addr s turns (returned (ok (stream, peer))) =
      after_stream addr (run (step app io peer config.io_timed) (looping (start app io s)) turns)

  unfoldable pub after_accept :
      ClientConfig FilePath → Addr → List (Turn app io) → St × Result Failure (Unit {0}) → ClientEnd
  unfolding after_open
  after_accept config addr turns (s, err e) = returned_ s (err e)
  after_accept config addr turns (s, ok _) =
      after_open config addr s turns (open_stream config addr)

  unfoldable pub after_parse :
      ClientConfig FilePath → St → List (Turn app io) → Result Failure Addr → ClientEnd
  unfolding after_accept
  after_parse config s turns (err e) = returned_ s (err e)
  after_parse config s turns (ok addr) = after_accept config addr turns (app.on_accept s addr)

  unfoldable pub client : ClientConfig FilePath → St → List (Turn app io) → ClientEnd
  unfolding after_parse
  client config s turns =
      after_parse config s turns
        (net.parse (config.endpoint_address <> (":" <> net.decimal config.port)))
