-- ===== src/Tcp/Client/Panics.antt =====
-- When `client` (wolf/src/stream/tcp/tcp_client.rs) dies of a panic, and when it does not.
use Prim.Native.String.{◌++◌ as ◌<>◌}
use wolf_engine.Base.{
  ◌⊎◌, inl, inr, ℕ, ◌≡◌, refl, Bool, true, false, List, [], ◌∷◌, ◌++◌, take, Result, ok, err, arith,
  returned, Option, some, none, if◌then◌else◌,
}
use wolf_engine.Stream.{App, Io, Phase, looping, closed, panicked, faulted, binary, select}
use wolf_engine.Stream.Buffers.{IsBuffer, KeepsBuffer, receive-IsBuffer, new-IsBuffer}
use wolf_engine.Stream.Loops.{run_inv}
use wolf_engine.Tcp.Client
use wolf_engine.Tcp.Client.{
  Conn, Turn, start, step, round, on_callback, on_read, on_write, on_flush, Network, ClientConfig,
  ClientEnd, crashed, running, returned_, anchors, load_root_ca, certs_to_root, with_root,
  open_stream, after_stream, after_open, after_accept, after_parse, client,
}
use wolf_engine.Tcp.Native.Loop.{IsModest}

module _ (app : App) (io : Io) (peer : app.Addr) where
  abbrev pub IsSound : Phase (Conn app io) (Result io.IoError (Unit {0})) → Type 0
  IsSound (looping c) = IsBuffer c.msg
  IsSound (closed c r) = Unit
  IsSound panicked = ⊥
  IsSound faulted = ⊥

  on_read-IsSound :
      (c : Conn app io) (r : Option (Result io.IoError (List ℕ)))
      → IsBuffer c.msg
      → IsSound (on_read app io c r)
  unfolding on_read
  on_read-IsSound c none h = h
  on_read-IsSound c (some (err e)) h = tt
  on_read-IsSound c (some (ok bytes)) h = receive-IsBuffer bytes c.msg h

  on_write-IsSound :
      (timed : Bool) (t : Turn app io) (c : Conn app io) (v : List ℕ) (r : Result io.IoError ℕ)
      → IsBuffer c.msg
      → IsSound (on_write app io timed t c v r)
  unfolding on_write on_flush
  on_write-IsSound timed t c v (ok n) h = ground (
    arith,
    on_read-IsSound (record c { sent = c.sent ++ take n v ∷ [] }) (select io timed t.arrival) h,
  )
  on_write-IsSound timed t c v (err e) h = tt

  step-IsSound :
      (timed : Bool) (c : Conn app io) (t : Turn app io)
      → KeepsBuffer app
      → IsModest app io peer
      → IsBuffer c.msg
      → IsSound (step app io peer timed c t)
  unfolding step round on_callback
  step-IsSound timed c t keeps modest h =
      let (s', b, r) = app.on_message c.st t.elapsed peer c.msg in
      let c' : Conn app io = record c { st = s'; msg = b } in
      let k = keeps.kept c.st t.elapsed peer c.msg h in
      ground (
        arith,
        on_read-IsSound c (select io timed t.arrival) h,
        on_read-IsSound c' (select io timed t.arrival) k,
        on_write-IsSound timed t c' (take b.size b.buf) t.write_result k,
        k,
        modest c.st t.elapsed c.msg,
      )

module _ (app : App) (io : Io) (net : Network app io) where
  abbrev pub IsAlive : ClientEnd app io net → Type 0
  IsAlive crashed = ⊥
  IsAlive _ = Unit

  after_stream-IsAlive :
      (addr peer : app.Addr) (p : Phase (Conn app io) (Result io.IoError (Unit {0})))
      → IsSound app io peer p
      → IsAlive (after_stream app io net addr p)
  unfolding after_stream
  after_stream-IsAlive addr peer (looping c) h = tt
  after_stream-IsAlive addr peer (closed c (ok _)) h = tt
  after_stream-IsAlive addr peer (closed c (err e)) h = tt
  after_stream-IsAlive addr peer panicked h = h
  after_stream-IsAlive addr peer faulted h = h

  after_open-IsAlive :
      (config : ClientConfig net.FilePath) (addr : app.Addr) (s : app.St) (ts : List (Turn app io))
      (r : Result app.Failure (net.Stream × app.Addr))
      → KeepsBuffer app
      → ((peer : app.Addr) → IsModest app io peer)
      → IsAlive (after_open app io net config addr s ts (returned r))
  unfolding after_open start
  after_open-IsAlive config addr s ts (err e) keeps modest = tt
  after_open-IsAlive config addr s ts (ok (stream, peer)) keeps modest =
      after_stream-IsAlive addr peer _ (
        run_inv (step app io peer config.io_timed) (IsSound app io peer)
          (λ c t. step-IsSound app io peer config.io_timed c t keeps (modest peer)) ts _
          (new-IsBuffer binary))

  after_accept-IsAlive :
      (config : ClientConfig net.FilePath) (addr : app.Addr) (ts : List (Turn app io))
      (r : app.St × Result app.Failure (Unit {0})) (o : Result app.Failure (net.Stream × app.Addr))
      → open_stream app io net config addr ≡ returned o
      → KeepsBuffer app
      → ((peer : app.Addr) → IsModest app io peer)
      → IsAlive (after_accept app io net config addr ts r)
  unfolding after_accept
  after_accept-IsAlive config addr ts (s, err e) o opened keeps modest = tt
  after_accept-IsAlive config addr ts (s, ok _) o opened keeps modest =
      rw opened (after_open-IsAlive config addr s ts o keeps modest)

  after_parse-IsAlive :
      (config : ClientConfig net.FilePath) (s : app.St) (ts : List (Turn app io))
      (r : Result app.Failure app.Addr)
      → ((addr : app.Addr)
          → (o : Result app.Failure (net.Stream × app.Addr)) × (open_stream app io net config addr
              ≡ returned o))
      → KeepsBuffer app
      → ((peer : app.Addr) → IsModest app io peer)
      → IsAlive (after_parse app io net config s ts r)
  unfolding after_parse
  after_parse-IsAlive config s ts (err e) opens keeps modest = tt
  after_parse-IsAlive config s ts (ok addr) opens keeps modest =
      let (o, e) = opens addr in
      after_accept-IsAlive config addr ts (app.on_accept s addr) o e keeps modest

  -- Whatever the network does, a client without TLS, or with TLS over the system's own roots, does
  -- not panic, given a timeout that a `Duration` holds, and a callback that does not resize the array
  -- and leaves no size above 1024.
  pub client_never_panics :
      (config : ClientConfig net.FilePath) (s : app.St) (ts : List (Turn app io))
      → config.tls ≡ false ⊎ (config.tls_ca_path ≡ none)
      → KeepsBuffer app
      → ((peer : app.Addr) → IsModest app io peer)
      → IsAlive (client app io net config s ts)
  unfolding client open_stream with_root load_root_ca
  client_never_panics config s ts roots keeps modest =
      after_parse-IsAlive config s ts _ (λ addr. opens addr roots) keeps modest
    where
      opens :
          (addr : app.Addr)
          → config.tls ≡ false ⊎ (config.tls_ca_path ≡ none)
          → (o : Result app.Failure (net.Stream × app.Addr)) × (open_stream app io net config addr
              ≡ returned o)
      opens addr (inl e) = (Client.plain_stream app io net addr, rw e refl)
      opens addr (inr e) = (
        if config.tls
            then Client.tls_stream app io net config addr net.system_anchors
            else Client.plain_stream app io net addr,
        ground (arith, e),
      )

  anchors-none :
      (good rest : List (List ℕ)) (bad : List ℕ)
      → net.anchor bad ≡ none
      → anchors app io net (good ++ bad ∷ rest) ≡ none
  unfolding anchors
  anchors-none [] rest bad no_anchor = rw no_anchor refl
  anchors-none (g ∷ good) rest bad no_anchor = ground (arith, anchors-none good rest bad no_anchor)

  -- A client that its accept callback lets through dies of a panic where it uses TLS over a file of
  -- roots that can be read and in which one certificate is no trust anchor.
  pub bad_root_panics :
      (config : ClientConfig net.FilePath) (s : app.St) (ts : List (Turn app io)) (addr : app.Addr)
      (path : net.FilePath) (good rest : List (List ℕ)) (bad : List ℕ)
      → net.parse (config.endpoint_address <> (":" <> net.decimal config.port)) ≡ ok addr
      → (app.on_accept s addr).1 ≡ ok tt
      → config.tls ≡ true
      → config.tls_ca_path ≡ some path
      → net.read_certs path ≡ ok (good ++ bad ∷ rest)
      → net.anchor bad ≡ none
      → client app io net config s ts ≡ crashed
  unfolding client after_parse after_accept after_open open_stream with_root load_root_ca
      certs_to_root
  bad_root_panics config s ts addr path good rest bad parsed accepted tls ca certs no_anchor =
      rw (parsed, accepted, tls, ca, certs, anchors-none good rest bad no_anchor) refl
