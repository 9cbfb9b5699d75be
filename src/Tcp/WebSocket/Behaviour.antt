-- ===== src/Tcp/WebSocket/Behaviour.antt =====
-- What `handle_ws_connection` (wolf/src/stream/tcp/tcp_server.rs) answers, refuses and waits for.
use wolf_engine.Base.{
  ℕ, ◌≡◌, ◌∙◌, ap, refl, List, [], ◌∷◌, length, Option, none, some, Result, ok, err, arith, ltb,
  ◌==◌, if◌then◌else◌,
}
use wolf_engine.Stream.{
  App, Buffer, Phase, looping, closed, panicked, faulted, max_msg_size, zeros, reset, text, binary,
  run,
}
use wolf_engine.Stream.Loops.{All, All-snoc, run_inv}
use wolf_engine.Tcp.WebSocket.{
  Kind, text_kind, binary_kind, ping, pong, close, frame, Ws, Message, Conn, Turn, Sent, text_frame,
  binary_frame, Closing, CloseCode, unsupported, invalid, size, start, step, on_next,
  handle_message, handle_data, handle_text, handle_binary, text_copied, text_answer,
}

module _ (app : App) (ws : Ws) (peer : app.Addr) where
  abbrev pub IsBlank : Sent → Type 0
  IsBlank (text_frame bytes) = bytes ≡ zeros
  IsBlank (binary_frame bytes) = Unit

  abbrev pub IsBlankSent : Phase (Conn app ws) Closing → Type 0
  IsBlankSent (looping c) = All IsBlank c.sent
  IsBlankSent (closed c e) = All IsBlank c.sent
  IsBlankSent panicked = Unit
  IsBlankSent faulted = Unit

  text_answer-IsBlankSent :
      (c : Conn app ws) (t : Turn app ws) (r : _)
      → All IsBlank c.sent
      → IsBlankSent (text_answer app ws c t r)
  unfolding text_answer reset
  text_answer-IsBlankSent c t r h =
      ground (arith, All-snoc IsBlank c.sent (text_frame zeros) h refl)

  text_copied-IsBlankSent :
      (c : Conn app ws) (t : Turn app ws) (b : Option Buffer)
      → All IsBlank c.sent
      → IsBlankSent (text_copied app ws peer c t b)
  unfolding text_copied
  text_copied-IsBlankSent c t none h = tt
  text_copied-IsBlankSent c t (some b) h = text_answer-IsBlankSent _ t _ h

  handle_text-IsBlankSent :
      (c : Conn app ws) (t : Turn app ws) (r : Result ws.WsError (List ℕ))
      → All IsBlank c.sent
      → IsBlankSent (handle_text app ws peer c t r)
  unfolding handle_text
  handle_text-IsBlankSent c t (ok str) h =
      text_copied-IsBlankSent (record c { msg = record c.msg { type_ = text } }) t _ h
  handle_text-IsBlankSent c t (err e) h = h

  handle_binary-IsBlankSent :
      (c : Conn app ws) (t : Turn app ws) (payload : List ℕ)
      → All IsBlank c.sent
      → IsBlankSent (handle_binary app ws peer c t payload)
  unfolding handle_binary
  handle_binary-IsBlankSent c t payload h =
      let out =
        app.on_message c.st t.elapsed peer (record c.msg { type_ = binary; buf = payload }) in
      ground (arith, All-snoc IsBlank c.sent (binary_frame (out.1).buf) h tt)

  handle_message-IsBlankSent :
      (c : Conn app ws) (t : Turn app ws) (m : Message)
      → All IsBlank c.sent
      → IsBlankSent (handle_message app ws peer c t m)
  unfolding handle_message handle_data
  handle_message-IsBlankSent c t m h =
      let c' = record c { msg = record c.msg { size = length m.payload } } in
      ground (
        arith,
        handle_text-IsBlankSent c' t (ws.into_text m) h,
        handle_binary-IsBlankSent c' t m.payload h,
      )

  on_next-IsBlankSent :
      (c : Conn app ws) (t : Turn app ws) (n : Option (Result ws.WsError Message))
      → All IsBlank c.sent
      → IsBlankSent (on_next app ws peer c t n)
  unfolding on_next
  on_next-IsBlankSent c t none h = h
  on_next-IsBlankSent c t (some (err e)) h = h
  on_next-IsBlankSent c t (some (ok m)) h = handle_message-IsBlankSent c t m h

  step-IsBlankSent :
      (c : Conn app ws) (t : Turn app ws) → All IsBlank c.sent → IsBlankSent (step app ws peer c t)
  unfolding step
  step-IsBlankSent c t h = on_next-IsBlankSent c t t.next h

  -- Over a whole connection, every text frame that is sent holds 1024 zero bytes, whatever the
  -- callback wrote as its answer.
  pub text_frames_blank :
      (s : app.St) (ts : List (Turn app ws))
      → IsBlankSent (run (step app ws peer) (looping (start app ws s)) ts)
  unfolding start
  text_frames_blank s ts = run_inv (step app ws peer) IsBlankSent step-IsBlankSent ts _ tt

  -- A turn in which the stream is at its end, a read fails, or the timeout passes.
  abbrev pub IsSilent : Option (Result ws.WsError Message) → Type 0
  IsSilent none = Unit
  IsSilent (some (err e)) = Unit
  IsSilent (some (ok m)) = ⊥

  silent_step :
      (c : Conn app ws) (t : Turn app ws) (n : Option (Result ws.WsError Message))
      → IsSilent n
      → on_next app ws peer c t n ≡ looping c
  unfolding on_next
  silent_step c t none silent = refl
  silent_step c t (some (err e)) silent = refl
  silent_step c t (some (ok _)) silent = elim silent [ ]

  step_silent :
      (c : Conn app ws) (t : Turn app ws) → IsSilent t.next → step app ws peer c t ≡ looping c
  unfolding step
  step_silent c t silent = silent_step c t t.next silent

  -- Ends, errors and timeouts of the stream, in any number, leave the loop where it stands: it is
  -- neither left nor is the callback called.
  pub silence_never_closes :
      (c : Conn app ws) (ts : List (Turn app ws))
      → All (λ t. IsSilent t.next) ts
      → run (step app ws peer) (looping c) ts ≡ looping c
  unfolding run
  silence_never_closes c [] silent = refl
  silence_never_closes c (t ∷ ts) silent =
      ap (λ p. run (step app ws peer) p ts) (step_silent c t silent.0)
      ∙ silence_never_closes c ts silent.1

  abbrev readable : Result ws.WsError (List ℕ) → Option CloseCode
  readable (ok str) = none
  readable (err e) = some unsupported

  -- The code with which a message ends the connection before the callback sees it.
  abbrev pub refusal : Kind → List ℕ → Option CloseCode
  refusal close payload = some unsupported
  refusal text_kind payload =
      if length payload == 0
      then some invalid
      else if ltb max_msg_size (length payload)
      then some size
      else readable (ws.into_text (record { kind = text_kind; payload = payload }))
  refusal binary_kind payload =
      if length payload == 0
      then some invalid
      else if ltb max_msg_size (length payload)
      then some size
      else if length payload == max_msg_size
      then none
      else some unsupported
  refusal _ payload = some invalid

  -- The loop is left with this code, and neither the callback's state nor the peer sees a thing.
  abbrev pub IsRefused : Conn app ws → CloseCode → Phase (Conn app ws) Closing → Type 0
  IsRefused c code (closed c' e) = (e.code ≡ code) × (c'.st ≡ c.st) × (c'.sent ≡ c.sent)
  IsRefused c code _ = ⊥

  handle_text-IsRefused :
      (c : Conn app ws) (t : Turn app ws) (r : Result ws.WsError (List ℕ)) (code : CloseCode)
      → readable r ≡ some code
      → IsRefused c code (handle_text app ws peer c t r)
  unfolding handle_text
  handle_text-IsRefused c t (ok str) code e = ground arith
  handle_text-IsRefused c t (err x) code e = ground arith

  handle_message-IsRefused :
      (c : Conn app ws) (t : Turn app ws) (k : Kind) (payload : List ℕ) (code : CloseCode)
      → refusal k payload ≡ some code
      → IsRefused c code (handle_message app ws peer c t (record { kind = k; payload = payload }))
  unfolding handle_message handle_data handle_binary
  handle_message-IsRefused c t close payload code e = ground arith
  handle_message-IsRefused c t text_kind payload code e = ground (
    arith,
    handle_text-IsRefused (record c { msg = record c.msg { size = length payload } }) t
        (ws.into_text (record { kind = text_kind; payload = payload })) code,
  )
  handle_message-IsRefused c t binary_kind payload code e = ground arith
  handle_message-IsRefused c t ping payload code e = ground arith
  handle_message-IsRefused c t pong payload code e = ground arith
  handle_message-IsRefused c t frame payload code e = ground arith

  -- A message that is empty, too long, unreadable, a binary of other than 1024 bytes, or of another
  -- kind closes the connection with the code that `refusal` gives for it, and neither the callback's
  -- state nor the peer sees anything of it.
  pub step-IsRefused :
      (c : Conn app ws) (t : Turn app ws) (m : Message) (code : CloseCode)
      → t.next ≡ some (ok m)
      → refusal m.kind m.payload ≡ some code
      → IsRefused c code (step app ws peer c t)
  unfolding step on_next
  step-IsRefused c t m code e r = rw e (handle_message-IsRefused c t m.kind m.payload code r)
