-- ===== src/Tcp/Fiber/Answers.antt =====
-- What the connections of wolf/src/stream/tcp/tcp_server_fiber.rs send, beside those of
-- wolf/src/stream/tcp/tcp_server.rs.
use wolf_engine.Base.{
  ℕ, ◌<◌, ◌≤◌, ◌≡◌, ◌∙◌, lt→ltb, refl, ap, sym, zero, suc, Bool, List, [], ◌∷◌, ◌++◌, ok, length,
  take, arith, ltb, if◌then◌else◌,
}
use wolf_engine.Stream.{App, Io, ready, looping, max_msg_size, receive, select}
use wolf_engine.Stream.Buffers.{IsBuffer, KeepsBuffer, receive-IsBuffer}
use wolf_engine.Tcp.Fiber
use wolf_engine.Tcp.Fiber.{Conn, Turn, step, on_read, test_close, start}
use wolf_engine.Tcp.Native
use wolf_engine.Tcp.Native.Loop.Service.{take-length}

take-all : (xs : List ℕ) → length xs ≡ max_msg_size → take max_msg_size xs ≡ xs
take-all xs e = ap (λ n. take n xs) (sym e) ∙ take-length xs

take_twice : (n : ℕ) (xs : List ℕ) → take n (take n xs) ≡ take n xs
take_twice zero xs = refl
take_twice (suc n) [] = refl
take_twice (suc n) (x ∷ xs) = ap (◌∷◌ x) (take_twice n xs)

module _ (app : App) (io : Io) (peer : app.Addr) where
  fiber_write :
      (c : Conn app io)
      → IsBuffer c.msg
      → 0 < c.msg.size
      → test_close app io
          (if ltb 0 c.msg.size then Fiber.on_write app io c "" (ok max_msg_size) else (c, ""))
        ≡ looping (record c { sent = c.sent ++ c.msg.buf ∷ [] })
  unfolding Fiber.on_write test_close
  fiber_write c h some_ = rw (lt→ltb 0 c.msg.size some_, take-all c.msg.buf h) refl

  native_write :
      (c : Native.Conn app io) (t : Native.Turn app io)
      → IsBuffer c.msg
      → 0 < c.msg.size
      → c.msg.size ≤ max_msg_size
      → t.write_result ≡ ok c.msg.size
      → Native.on_reply app io c t (ok tt)
        ≡ looping (record c { sent = c.sent ++ take c.msg.size c.msg.buf ∷ [] })
  unfolding Native.on_reply Native.on_write
  native_write c t h some_ fits w = ground (arith, take_twice c.msg.size c.msg.buf)

  -- An answer of `size` bytes, accepted by the callback and fully taken by `write`, goes out as the
  -- whole 1024 bytes of the buffer from a fiber server, and as its `size` bytes from the other
  -- server.
  pub sends_whole_buffer :
      (timed : Bool) (c : Conn app io) (now : app.Secs) (bytes : List ℕ)
      → KeepsBuffer app
      → IsBuffer c.msg
      → let (s', b, r) = app.on_message c.st now peer (receive bytes c.msg) in
        r ≡ ok tt
        → let (s', b, r) = app.on_message c.st now peer (receive bytes c.msg) in
          0 < b.size
          → let (s', b, r) = app.on_message c.st now peer (receive bytes c.msg) in
            b.size ≤ max_msg_size
            → let (s', b, r) = app.on_message c.st now peer (receive bytes c.msg) in
              (step app io peer c
                  (record { read_result = ok bytes; elapsed = now; write_result = ok max_msg_size })
                ≡ looping (record { st = s'; msg = b; sent = c.sent ++ b.buf ∷ [] }))
              × (length b.buf ≡ max_msg_size)
              × (Native.step app io peer timed
                    (record { st = c.st; msg = c.msg; sent = c.sent })
                    (record { arrival = ready (ok bytes); elapsed = now; write_result = ok b.size })
                  ≡ looping (record { st = s'; msg = b; sent = c.sent ++ take b.size b.buf ∷ [] }))
  unfolding step on_read Native.step Native.on_read select
  sends_whole_buffer timed c now bytes keeps h accepted some_ fits =
      let k = keeps.kept c.st now peer (receive bytes c.msg) (receive-IsBuffer bytes c.msg h) in
      let (s', b, r) = app.on_message c.st now peer (receive bytes c.msg) in
      (
        rw accepted (fiber_write (record { st = s'; msg = b; sent = c.sent }) k some_),
        k,
        rw accepted (
            native_write (record { st = s'; msg = b; sent = c.sent })
              (record { arrival = ready (ok bytes); elapsed = now; write_result = ok b.size }) k
              some_ fits refl),
      )
