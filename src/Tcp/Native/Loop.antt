-- ===== src/Tcp/Native/Loop.antt =====
-- What `handle_tcp_connection` (wolf/src/stream/tcp/tcp_server.rs) does over a whole connection.
pub mod Service
use mathlib.Core.List.{append-nil}
use wolf_engine.Base.{
  ℕ, ◌≤◌, ◌<◌, ◌≡◌, ◌≢◌, ◌↔◌, ◌∙◌, refl, Bool, true, false, List, [], ◌∷◌, ◌++◌, ◌⊎◌, Option, some,
  none, String, Result, ok, err, length, take, arith, ltb, leb, if◌then◌else◌, inl, inr, Bool-cases,
}
use wolf_engine.Stream.{
  App, Io, Arrival, ready, deadline, Buffer, Phase, looping, closed, panicked, faulted,
  max_msg_size, binary, receive, select, run, advance,
}
use wolf_engine.Stream.Buffers.{
  IsBuffer, KeepsBuffer, receive-IsBuffer, new-IsBuffer, receive_front,
}
use wolf_engine.Stream.Loops.{All, run_inv}
use wolf_engine.Tcp.Native.{Conn, Turn, start, step}

Read-cases {ℓ} :
    {E : Type 0} {A : Type ℓ} (r : Option (Result E A))
    → ((r ≡ none) ⊎ ((e : E) × (r ≡ some (err e)))) ⊎ ((a : A) × (r ≡ some (ok a)))
Read-cases none = inl (inl refl)
Read-cases (some (err e)) = inl (inr (e, refl))
Read-cases (some (ok a)) = inr (a, refl)

module _ (app : App) (io : Io) (peer : app.Addr) where
  -- A turn in which the peer has closed its side: the read returns `Ok(0)`.
  abbrev pub IsEof : Turn app io → Type 0
  IsEof t = t.arrival ≡ ready (ok [])

  -- A callback that has no answer to an empty message, and no objection.
  abbrev pub IsQuiet : Type 0
  IsQuiet =
      (s : app.St) (t : app.Secs) (b : Buffer)
      → b.size ≡ 0
      → let (s', b', r) = app.on_message s t peer b in (r ≡ ok tt) × (b'.size ≡ 0)

  eof_step :
      (timed : Bool) (c : Conn app io) (t : Turn app io)
      → IsQuiet
      → IsEof t
      → (c' : Conn app io) × (step app io peer timed c t ≡ looping c') × (c'.sent ≡ c.sent)
  unfolding step select receive
  eof_step timed c t quiet eof =
      let b = receive [] c.msg in
      let r = app.on_message c.st t.elapsed peer b in
      (record c { st = r.0; msg = r.1 }, ground (arith, quiet c.st t.elapsed b refl), refl)

  -- Once the peer has closed its side, the loop goes on for as long as the callback has neither an
  -- answer nor an objection: no number of empty reads ends it, with a timeout or without one.
  pub eof_never_closes :
      (timed : Bool) (c : Conn app io) (ts : List (Turn app io))
      → IsQuiet
      → All IsEof ts
      → (c' : Conn app io) × (run (step app io peer timed) (looping c) ts ≡ looping c')
        × (c'.sent ≡ c.sent)
  unfolding run
  eof_never_closes timed c [] quiet eof = (c, refl, refl)
  eof_never_closes timed c (t ∷ ts) quiet eof =
      let (c1, e1, s1) = eof_step timed c t quiet eof.0 in
      let (c2, e2, s2) = eof_never_closes timed c1 ts quiet eof.1 in (c2, rw e1 e2, s2 ∙ s1)

  -- A callback that never answers with more than the buffer holds.
  abbrev pub IsModest : Type 0
  IsModest =
      (s : app.St) (t : app.Secs) (b : Buffer) → (app.on_message s t peer b).1.size ≤ max_msg_size

  abbrev pub IsSound : Phase (Conn app io) String → Type 0
  IsSound (looping c) = IsBuffer c.msg
  IsSound (closed c m) = Unit
  IsSound panicked = ⊥
  IsSound faulted = ⊥

  pub step-IsSound :
      (timed : Bool) (c : Conn app io) (t : Turn app io)
      → KeepsBuffer app
      → IsModest
      → IsBuffer c.msg
      → IsSound (step app io peer timed c t)
  unfolding step select
  step-IsSound timed c t keeps modest h = elim (Read-cases (select io timed t.arrival)) [
    | inl e ↦ ground arith
    | inr (bytes, e) ↦
        let b = receive bytes c.msg in
        ground (
          arith,
          modest c.st t.elapsed b,
          keeps.kept c.st t.elapsed peer b (receive-IsBuffer bytes c.msg h),
        )
  ]

  -- A connection never panics, whatever the peer sends and whatever fails, as long as the callback
  -- leaves no size above `MAX_MSG_SIZE`; and its buffer keeps its 1024 bytes.
  pub never_panics :
      (timed : Bool) (s : app.St) (ts : List (Turn app io))
      → KeepsBuffer app
      → IsModest
      → IsSound (run (step app io peer timed) (looping (start app io s)) ts)
  unfolding start
  never_panics timed s ts keeps modest =
      run_inv (step app io peer timed) IsSound (λ c t. step-IsSound timed c t keeps modest) ts _
        (new-IsBuffer binary)

  -- The bound on the callback is needed: an answer without objection of more than 1024 bytes to
  -- anything that was read is a panic.
  pub oversize_answer_panics :
      (timed : Bool) (c : Conn app io) (t : Turn app io) (bytes : List ℕ)
      → KeepsBuffer app
      → IsBuffer c.msg
      → t.arrival ≡ ready (ok bytes)
      → (app.on_message c.st t.elapsed peer (receive bytes c.msg)).2 ≡ ok tt
      → max_msg_size < (app.on_message c.st t.elapsed peer (receive bytes c.msg)).1.size
      → step app io peer timed c t ≡ panicked
  unfolding step select
  oversize_answer_panics timed c t bytes keeps h e accepted over =
      ground (
        arith,
        keeps.kept c.st t.elapsed peer (receive bytes c.msg) (receive-IsBuffer bytes c.msg h),
      )
