-- ===== src/Tcp/WebSocket/Safety.antt =====
-- The memory copy of `handle_ws_text_msg` (wolf/src/stream/tcp/tcp_server.rs) stays in its buffer.
use wolf_engine.Base.{
  ℕ, ◌≤◌, ◌≡◌, refl, List, length, length-overwrite, Option, none, some, Result, ok, err, arith,
  le→leb, ltb, if◌then◌else◌, Bool-cases, inl, inr,
}
use wolf_engine.Stream.{
  App, Buffer, Phase, looping, closed, panicked, faulted, max_msg_size, text, binary, run,
}
use wolf_engine.Stream.Buffers.{IsBuffer, KeepsBuffer, reset-IsBuffer, new-IsBuffer}
use wolf_engine.Stream.Loops.{run_inv}
use wolf_engine.Tcp.WebSocket.{
  Kind, text_kind, binary_kind, ping, pong, close, frame, on_next, is_text, is_binary, Ws, Message,
  Conn, Turn, Closing, start, step, copy_bytes, handle_text, handle_binary, text_copied,
  text_answer, handle_data, handle_message,
}

-- tungstenite: the text of a text message is its payload, byte for byte.
pub record KeepsText (ws : Ws) : Type 0 where
  pub text_length :
      (m : Message) (str : List ℕ) → ws.into_text m ≡ ok str → length str ≡ length m.payload

module _ (app : App) (ws : Ws) (peer : app.Addr) where
  abbrev pub IsSound : Phase (Conn app ws) Closing → Type 0
  IsSound (looping c) = IsBuffer c.msg
  IsSound (closed c e) = IsBuffer c.msg
  IsSound panicked = ⊥
  IsSound faulted = ⊥

  text_answer-IsSound :
      (c : Conn app ws) (t : Turn app ws) (r : _)
      → IsBuffer c.msg
      → IsSound (text_answer app ws c t r)
  unfolding text_answer
  text_answer-IsSound c t r h = ground (arith, reset-IsBuffer c.msg)

  text_copied-IsSound :
      (c : Conn app ws) (t : Turn app ws) (b : Buffer)
      → KeepsBuffer app
      → IsBuffer b
      → IsSound (text_copied app ws peer c t (some b))
  unfolding text_copied
  text_copied-IsSound c t b keeps h = text_answer-IsSound _ t _ (keeps.kept c.st t.elapsed peer b h)

  -- The text fits the buffer, so the copy is in bounds.
  handle_text-IsSound :
      (c : Conn app ws) (t : Turn app ws) (r : Result ws.WsError (List ℕ))
      → KeepsBuffer app
      → IsBuffer c.msg
      → ((str : List ℕ) → r ≡ ok str → length str ≤ max_msg_size)
      → IsSound (handle_text app ws peer c t r)
  unfolding handle_text copy_bytes
  handle_text-IsSound c t (ok str) keeps h small =
      rw (le→leb (length str) (length c.msg.buf) (omega (arith, small str refl)))
        (text_copied-IsSound c t _ keeps (omega (arith, length-overwrite str c.msg.buf)))
  handle_text-IsSound c t (err e) keeps h small = h

  handle_binary-IsSound :
      (c : Conn app ws) (t : Turn app ws) (payload : List ℕ)
      → KeepsBuffer app
      → IsBuffer c.msg
      → IsSound (handle_binary app ws peer c t payload)
  unfolding handle_binary
  handle_binary-IsSound c t payload keeps h =
      ground
        (arith, keeps.kept c.st t.elapsed peer (record c.msg { type_ = binary; buf = payload }))

  -- What is done by the kind of a message is sound where each arm is.
  by_kind-IsSound :
      (k : Kind) (x y z : Phase (Conn app ws) Closing)
      → IsSound x
      → IsSound y
      → IsSound z
      → IsSound (if is_text k then x else if is_binary k then y else z)
  by_kind-IsSound text_kind x y z hx hy hz = hx
  by_kind-IsSound binary_kind x y z hx hy hz = hy
  by_kind-IsSound ping x y z hx hy hz = hz
  by_kind-IsSound pong x y z hx hy hz = hz
  by_kind-IsSound close x y z hx hy hz = hz
  by_kind-IsSound frame x y z hx hy hz = hz

  handle_data-IsSound :
      (c : Conn app ws) (t : Turn app ws) (m : Message)
      → KeepsBuffer app
      → KeepsText ws
      → IsBuffer c.msg
      → c.msg.size ≡ length m.payload
      → IsSound (handle_data app ws peer c t m)
  unfolding handle_data
  handle_data-IsSound c t m keeps kept h e = elim (Bool-cases (ltb max_msg_size c.msg.size)) [
    | inl over ↦ rw over h
    | inr within ↦
        let fits : c.msg.size ≤ max_msg_size = ground arith in
        rw within (
          by_kind-IsSound m.kind _ _ _
            (handle_text-IsSound c t (ws.into_text m) keeps h
              (λ str q. omega (arith, kept.text_length m str q)))
            (handle_binary-IsSound c t m.payload keeps h) h)
  ]

  handle_message-IsSound :
      (c : Conn app ws) (t : Turn app ws) (m : Message)
      → KeepsBuffer app
      → KeepsText ws
      → IsBuffer c.msg
      → IsSound (handle_message app ws peer c t m)
  unfolding handle_message
  handle_message-IsSound c t m keeps kept h = ground (
    arith,
    handle_data-IsSound (record c { msg = record c.msg { size = length m.payload } }) t m keeps kept
        h refl,
  )

  on_next-IsSound :
      (c : Conn app ws) (t : Turn app ws) (n : Option (Result ws.WsError Message))
      → KeepsBuffer app
      → KeepsText ws
      → IsBuffer c.msg
      → IsSound (on_next app ws peer c t n)
  unfolding on_next
  on_next-IsSound c t none keeps kept h = h
  on_next-IsSound c t (some (err e)) keeps kept h = h
  on_next-IsSound c t (some (ok m)) keeps kept h = handle_message-IsSound c t m keeps kept h

  pub step-IsSound :
      (c : Conn app ws) (t : Turn app ws)
      → KeepsBuffer app
      → KeepsText ws
      → IsBuffer c.msg
      → IsSound (step app ws peer c t)
  unfolding step
  step-IsSound c t keeps kept h = on_next-IsSound c t t.next keeps kept h

  -- Whatever the peer sends and whatever fails, a websocket connection neither panics nor copies
  -- bytes beyond its buffer, and the buffer keeps its 1024 bytes, given that the library's text of a
  -- message is as long as its payload and that the callback does not resize the array.
  pub never_faults :
      (s : app.St) (ts : List (Turn app ws))
      → KeepsBuffer app
      → KeepsText ws
      → IsSound (run (step app ws peer) (looping (start app ws s)) ts)
  unfolding start
  never_faults s ts keeps kept =
      run_inv (step app ws peer) IsSound (λ c t. step-IsSound c t keeps kept) ts _
        (new-IsBuffer text)
