-- ===== src/Udp/Datagrams.antt =====
-- The datagrams that the loops of wolf/src/stream/udp.rs send.
use mathlib.Core.List.{append-nil, append_assoc}
use wolf_engine.Base.{
  ◌∙◌, ap, sym, subst, ℕ, ◌<◌, ◌≡◌, refl, Bool, true, false, List, [], ◌∷◌, ◌++◌, String, Result,
  ok, err, length, take, arith, ltb, if◌then◌else◌, length-overwrite, length-take, lt→ltb,
}
use wolf_engine.Stream.{
  App, Io, Buffer, Phase, looping, closed, panicked, faulted, max_msg_size, receive, run, binary,
}
use wolf_engine.Stream.Buffers.{IsBuffer, KeepsBuffer, new-IsBuffer}
use wolf_engine.Stream.Loops.{All, All-snoc, run_inv}
use wolf_engine.Udp.{
  Conn, Turn, Datagram, ready, settle, start, client_step, client_answer, client_sent, callback,
  udp_client, Socket, Ended, open_, failed, finished, crashed, connect, on_parsed, on_bound, loop,
  client_loop, after_loop, on_send, fill, end_round, server_step, server_read, server_answer,
}

module _ (app : App) (io : Io) (timed : Bool) where
  -- A datagram of a whole buffer, to an address of which `P` holds.
  abbrev pub IsWhole : (app.Addr → Type 0) → Datagram app io timed → Type 0
  IsWhole P d = P d.to × (length d.bytes ≡ max_msg_size)

  abbrev pub SendsOnly : (app.Addr → Type 0) → Phase (Conn app io timed) String → Type 0
  SendsOnly P (looping c) = All (IsWhole P) c.sent × IsBuffer c.msg
  SendsOnly P (closed c m) = All (IsWhole P) c.sent
  SendsOnly P panicked = ⊥
  SendsOnly P faulted = ⊥

  abbrev Keeps :
      (app.Addr → Type 0) → Conn app io timed × Result String (Conn app io timed) → Type 0
  Keeps P (c, ok c') = All (IsWhole P) c'.sent × IsBuffer c'.msg
  Keeps P (c, err m) = All (IsWhole P) c.sent

  end_round-SendsOnly :
      (P : app.Addr → Type 0) (r : Conn app io timed × Result String (Conn app io timed))
      → Keeps P r
      → SendsOnly P (end_round app io timed r)
  end_round-SendsOnly P (c, ok c') h = h
  end_round-SendsOnly P (c, err m) h = h

  on_send-Keeps :
      (P : app.Addr → Type 0) (c : Conn app io timed) (to : app.Addr) (r : Result io.IoError ℕ)
      → P to
      → IsBuffer c.msg
      → All (IsWhole P) c.sent
      → Keeps P (c, on_send app io timed c to r)
  unfolding on_send
  on_send-Keeps P c to (ok n) here h sent =
      (All-snoc (IsWhole P) c.sent (record { to = to; bytes = c.msg.buf }) sent (here, h), h)
  on_send-Keeps P c to (err e) here h sent = sent

  fill-Keeps :
      (P : app.Addr → Type 0) (c : Conn app io timed) (r : Result io.IoError (List ℕ × app.Addr))
      → All (IsWhole P) c.sent × IsBuffer c.msg
      → Keeps P (c, fill app io timed c r)
  fill-Keeps P c (ok (bytes, peer)) (sent, h) =
      (sent, omega (arith, length-overwrite (take max_msg_size bytes) c.msg.buf))
  fill-Keeps P c (err e) (sent, h) = sent

  client_sent-Keeps :
      (P : app.Addr → Type 0) (t : Turn app io timed) (c : Conn app io timed)
      (r : Result String (Conn app io timed))
      → Keeps P (c, r)
      → Keeps P (client_sent app io timed t c r)
  unfolding client_sent
  client_sent-Keeps P t c (ok c') h = fill-Keeps P c' (settle io t.received) h
  client_sent-Keeps P t c (err m) h = h

  either-Keeps :
      (P : app.Addr → Type 0) (b : Bool)
      (x y : Conn app io timed × Result String (Conn app io timed))
      → Keeps P x
      → Keeps P y
      → Keeps P (if b then x else y)
  either-Keeps P true x y hx hy = hx
  either-Keeps P false x y hx hy = hy

  client_answer-Keeps :
      (P : app.Addr → Type 0) (local : app.Addr) (t : Turn app io timed) (c : Conn app io timed)
      (r : Result app.Failure (Unit {0}))
      → P local
      → IsBuffer c.msg
      → All (IsWhole P) c.sent
      → Keeps P (client_answer app io timed local t (c, r))
  unfolding client_answer
  client_answer-Keeps P local t c (err e) here h sent = sent
  client_answer-Keeps P local t c (ok _) here h sent =
      let k =
        client_sent-Keeps P t c (on_send app io timed c local (settle io t.send_result))
          (on_send-Keeps P c local (settle io t.send_result) here h sent) in
      either-Keeps P (ltb 0 c.msg.size)
        (client_sent app io timed t c (on_send app io timed c local (settle io t.send_result)))
        (c, ok c) k (sent, h)

  client_step-SendsOnly :
      (local : app.Addr) (s : app.St) (ts : List (Turn app io timed))
      → KeepsBuffer app
      → SendsOnly
          (λ a. a ≡ local)
          (run (client_step app io timed local) (looping (start app io timed s)) ts)
  unfolding client_step callback start
  client_step-SendsOnly local s ts keeps =
      run_inv (client_step app io timed local) (SendsOnly (λ a. a ≡ local))
        (λ c t (sent, h).
          let (s', b, r) = app.on_message c.st t.elapsed local c.msg in
          end_round-SendsOnly (λ a. a ≡ local)
            (client_answer app io timed local t (record { st = s'; msg = b; sent = c.sent }, r))
            (client_answer-Keeps (λ a. a ≡ local) local t
              (record { st = s'; msg = b; sent = c.sent }) r refl
              (keeps.kept c.st t.elapsed local c.msg h) sent))
        ts _ (tt, new-IsBuffer binary)

  -- Where a client ends or stands, all it has sent are whole buffers to this address, and it has not
  -- crashed.
  abbrev pub SentTo : app.Addr → Ended app io timed → Type 0
  SentTo local (open_ c) = All (IsWhole (λ a. a ≡ local)) c.sent
  SentTo local (failed s e) = Unit
  SentTo local (finished c r) = All (IsWhole (λ a. a ≡ local)) c.sent
  SentTo local crashed = ⊥

  after_loop-SentTo :
      (local addr : app.Addr) (p : Phase (Conn app io timed) String)
      → SendsOnly (λ a. a ≡ local) p
      → SentTo local (after_loop app io timed addr p)
  unfolding after_loop
  after_loop-SentTo local addr (looping c) h = h.0
  after_loop-SentTo local addr (closed c m) h = h
  after_loop-SentTo local addr panicked h = h
  after_loop-SentTo local addr faulted h = h

  module _ (host : Socket app io timed) (local : app.Addr) (here : host.local_addr ≡ ok local)
      (ts : List (Turn app io timed)) (keeps : KeepsBuffer app) where
    loop-SentTo :
        (addr : app.Addr) (s : app.St) → SentTo local (loop app io timed host udp_client addr s ts)
    unfolding loop client_loop
    loop-SentTo addr s =
        subst (λ r. SentTo local (client_loop app io timed addr s ts r)) (sym here)
          (after_loop-SentTo local addr _ (client_step-SendsOnly local s ts keeps))

    on_bound-SentTo :
        (addr : app.Addr) (r : app.St × Result app.Failure (Unit {0}))
        → SentTo local (on_bound app io timed host udp_client addr ts r)
    unfolding on_bound
    on_bound-SentTo addr (s, err e) = tt
    on_bound-SentTo addr (s, ok u) = loop-SentTo addr s

    on_parsed-SentTo :
        (s : app.St) (r : Result app.Failure app.Addr)
        → SentTo local (on_parsed app io timed host udp_client s ts r)
    unfolding on_parsed
    on_parsed-SentTo s (err e) = tt
    on_parsed-SentTo s (ok addr) = on_bound-SentTo addr (host.on_bind_socket s addr)

    -- Whatever address and port `connect` is given for a UDP client, and whatever the network does: each
    -- datagram that the client sends is 1024 bytes long and goes to the local address of its own socket,
    -- given that the socket has one, and a callback that does not resize the array.
    pub client_sends_to_itself :
        (address : String) (port : ℕ) (s : app.St)
        → SentTo local (connect app io timed host address port udp_client s ts)
    unfolding connect
    client_sends_to_itself address port s = on_parsed-SentTo s _

  -- A callback that consents to every message.
  abbrev pub IsAgreeable : Type 0
  IsAgreeable =
      (s : app.St) (t : app.Secs) (a : app.Addr) (b : Buffer) → (app.on_message s t a b).2 ≡ ok tt

  -- The rounds in which these datagrams arrive from these addresses, and every send succeeds.
  abbrev pub rounds : List (app.Secs × List ℕ × app.Addr) → List (Turn app io timed)
  rounds [] = []
  rounds ((now, bytes, peer) ∷ xs) =
      record {
        elapsed = now;
        received = ready (ok (bytes, peer));
        send_result = ready (ok max_msg_size);
      }
      ∷ rounds xs

  -- Who sent the datagrams that are not empty, in order.
  abbrev pub senders : List (app.Secs × List ℕ × app.Addr) → List app.Addr
  senders [] = []
  senders ((now, [], peer) ∷ xs) = senders xs
  senders ((now, x ∷ bytes, peer) ∷ xs) = peer ∷ senders xs

  abbrev pub destinations : List (Datagram app io timed) → List app.Addr
  destinations [] = []
  destinations (d ∷ ds) = d.to ∷ destinations ds

  destinations_snoc :
      (ds : List (Datagram app io timed)) (d : Datagram app io timed)
      → destinations (ds ++ d ∷ []) ≡ destinations ds ++ d.to ∷ []
  destinations_snoc [] d = refl
  destinations_snoc (e ∷ ds) d = ap (◌∷◌ e.to) (destinations_snoc ds d)

  empty_round :
      (c : Conn app io timed) (now : app.Secs) (peer : app.Addr)
      → IsAgreeable
      → (c' : Conn app io timed) × (server_step app io timed c (record {
        elapsed = now;
        received = ready (ok ([], peer));
        send_result = ready (ok max_msg_size);
      })
          ≡ looping c')
        × (destinations c'.sent ≡ destinations c.sent)
  unfolding server_step server_read server_answer callback receive
  empty_round c now peer agreeable =
      let (s', b, r) = app.on_message c.st now peer (receive [] c.msg) in
      (
        record { st = s'; msg = b; sent = c.sent },
        rw (agreeable c.st now peer (receive [] c.msg)) refl,
        refl,
      )

  receive_some : (x : ℕ) (bytes : List ℕ) (b : Buffer) → 0 < (receive (x ∷ bytes) b).size
  unfolding receive
  receive_some x bytes b = omega (arith, length-take max_msg_size (x ∷ bytes))

  full_round :
      (c : Conn app io timed) (now : app.Secs) (x : ℕ) (bytes : List ℕ) (peer : app.Addr)
      → IsAgreeable
      → (c' : Conn app io timed) × (server_step app io timed c (record {
        elapsed = now;
        received = ready (ok (x ∷ bytes, peer));
        send_result = ready (ok max_msg_size);
      })
          ≡ looping c')
        × (destinations c'.sent ≡ destinations c.sent ++ peer ∷ [])
  unfolding server_step server_read server_answer callback on_send
  full_round c now x bytes peer agreeable =
      let (s', b, r) = app.on_message c.st now peer (receive (x ∷ bytes) c.msg) in
      let d : Datagram app io timed = record { to = peer; bytes = b.buf } in
      (
        record { st = s'; msg = b; sent = c.sent ++ d ∷ [] },
        rw
            (
              agreeable c.st now peer (receive (x ∷ bytes) c.msg),
              lt→ltb 0 (receive (x ∷ bytes) c.msg).size (receive_some x bytes c.msg),
            )
            refl,
        destinations_snoc c.sent d,
      )

  -- Over rounds in which a datagram is received without an error or a deadline, and every send
  -- succeeds, a UDP server whose callback consents answers every datagram that is not empty, once, to
  -- its sender and in order, whatever size the callback leaves in the buffer, and no empty one; and it
  -- is then still in its loop.
  pub server_answers_senders :
      (c : Conn app io timed) (xs : List (app.Secs × List ℕ × app.Addr))
      → IsAgreeable
      → (c' : Conn app io timed) × (run (server_step app io timed) (looping c) (rounds xs)
          ≡ looping c')
        × (destinations c'.sent ≡ destinations c.sent ++ senders xs)
  unfolding run
  server_answers_senders c [] agreeable = (c, refl, sym (append-nil (destinations c.sent)))
  server_answers_senders c ((now, [], peer) ∷ xs) agreeable =
      let (c1, e1, d1) = empty_round c now peer agreeable in
      let (c2, e2, d2) = server_answers_senders c1 xs agreeable in
      (
        c2,
        ap (λ p. run (server_step app io timed) p (rounds xs)) e1 ∙ e2,
        d2 ∙ ap (λ l. l ++ senders xs) d1,
      )
  server_answers_senders c ((now, x ∷ bytes, peer) ∷ xs) agreeable =
      let (c1, e1, d1) = full_round c now x bytes peer agreeable in
      let (c2, e2, d2) = server_answers_senders c1 xs agreeable in
      (
        c2,
        ap (λ p. run (server_step app io timed) p (rounds xs)) e1 ∙ e2,
        d2
            ∙ (ap (λ l. l ++ senders xs) d1
                ∙ append_assoc (destinations c.sent) (peer ∷ []) (senders xs)),
      )
