-- ===== src/Tcp/Native/Loop/Service.antt =====
-- The connection handler as a transport: what the peer gets back is what a service on byte strings
-- answers to what the peer sent.
use mathlib.Core.List.{append-nil, append_assoc}
use wolf_engine.Base.{
  ℕ, zero, suc, ◌≤◌, ◌≡◌, ◌∙◌, refl, subst, sym, ap, Bool, List, [], ◌∷◌, ◌++◌, ok, length, take,
  arith, ltb, if◌then◌else◌, length-take,
}
use wolf_engine.Stream.{App, Io, ready, Buffer, looping, max_msg_size, receive, select, run}
use wolf_engine.Stream.Loops.{All}
use wolf_engine.Stream.Buffers.{IsBuffer, receive-IsBuffer, receive_front}
use wolf_engine.Tcp.Native.{Conn, Turn, step, on_reply}

-- A service: a state, and an answer to each message. An empty answer is none.
abbrev pub Answers : Type 0 → Type 0
Answers S = S → List ℕ → S × List ℕ

-- The answers that are sent for these messages.
pub served : {S : Type 0} → Answers S → S → List (List ℕ) → List (List ℕ)
served f s [] = []
served f s (x ∷ xs) =
    let (s', out) = f s x in
    let rest = served f s' xs in if ltb 0 (length out) then out ∷ rest else rest

-- The callback does on the buffer what `f` does on the front of it that `size` counts.
pub record Implements (app : App) (peer : app.Addr) (f : Answers app.St) : Type 0 where
  pub state :
      (s : app.St) (t : app.Secs) (b : Buffer)
      → (app.on_message s t peer b).0 ≡ (f s (take b.size b.buf)).0
  pub accepts : (s : app.St) (t : app.Secs) (b : Buffer) → (app.on_message s t peer b).2 ≡ ok tt
  pub front :
      (s : app.St) (t : app.Secs) (b : Buffer)
      → IsBuffer b
      → let b' = (app.on_message s t peer b).1 in
        IsBuffer b' × (b'.size ≤ max_msg_size) × (take b'.size b'.buf ≡ (f s (take b.size b.buf)).1)

pub take-length : (xs : List ℕ) → take (length xs) xs ≡ xs
take-length [] = refl
take-length (x ∷ xs) = ap (◌∷◌ x) (take-length xs)

take_short : (n : ℕ) (xs : List ℕ) → length xs ≤ n → take n xs ≡ xs
take_short zero [] h = refl
take_short (suc n) [] h = refl
take_short zero (x ∷ xs) h = absurd (omega arith)
take_short (suc n) (x ∷ xs) h = ap (◌∷◌ x) (take_short n xs (omega arith))

-- One read takes the message.
abbrev pub Fits : {T : Type 0} → T × List ℕ → Type 0
Fits (now, x) = length x ≤ max_msg_size

module _ (app : App) (io : Io) (peer : app.Addr) (f : Answers app.St) where
  -- The rounds in which these messages arrive and every write takes the whole answer.
  pub rounds : app.St → List (app.Secs × List ℕ) → List (Turn app io)
  rounds s [] = []
  rounds s ((now, x) ∷ xs) =
      let (s', out) = f s x in
      record { arrival = ready (ok x); elapsed = now; write_result = ok (length out) }
      ∷ rounds s' xs

  abbrev messages : List (app.Secs × List ℕ) → List (List ℕ)
  messages [] = []
  messages ((now, x) ∷ xs) = x ∷ messages xs

  -- An accepted answer goes out whole, and an empty one not at all.
  answer :
      (c : Conn app io) (t : Turn app io) (out : List ℕ)
      → IsBuffer c.msg
      → c.msg.size ≤ max_msg_size
      → take c.msg.size c.msg.buf ≡ out
      → t.write_result ≡ ok (length out)
      → on_reply app io c t (ok tt)
        ≡ looping (record c { sent = if ltb 0 (length out) then c.sent ++ out ∷ [] else c.sent })
  unfolding on_reply
  answer c t out h fits e w =
      let len : length out ≡ c.msg.size =
        rw (← e) (omega (arith, length-take c.msg.size c.msg.buf)) in
      ground (arith, take-length out)

  round :
      (timed : Bool) (c : Conn app io) (now : app.Secs) (x : List ℕ)
      → Implements app peer f
      → length x ≤ max_msg_size
      → IsBuffer c.msg
      → let (s', out) = f c.st x in
        (c' : Conn app io) × (step app io peer timed c
            (record { arrival = ready (ok x); elapsed = now; write_result = ok (length out) })
          ≡ looping c')
        × (c'.st ≡ s')
        × IsBuffer c'.msg
        × (c'.sent ≡ (if ltb 0 (length out) then c.sent ++ out ∷ [] else c.sent))
  unfolding step select
  round timed c now x i fits h =
      let t : Turn app io = record {
        arrival = ready (ok x);
        elapsed = now;
        write_result = ok (length (f c.st x).1);
      } in
      let b = receive x c.msg in
      let got : take b.size b.buf ≡ x =
        (receive_front x c.msg h).0 ∙ take_short max_msg_size x fits in
      let b' = (app.on_message c.st now peer b).1 in
      let facts = i.front c.st now b (receive-IsBuffer x c.msg h) in
      let out = (f c.st x).1 in
      let same : take b'.size b'.buf ≡ out = facts.2 ∙ ap (λ y. (f c.st y).1) got in
      (
        record c {
          st = (app.on_message c.st now peer b).0;
          msg = b';
          sent = if ltb 0 (length out) then c.sent ++ out ∷ [] else c.sent;
        },
        rw (i.accepts c.st now b) (
            answer (record c { st = (app.on_message c.st now peer b).0; msg = b' }) t out facts.0
              facts.1 same refl),
        i.state c.st now b ∙ ap (λ y. (f c.st y).0) got,
        facts.0,
        refl,
      )

  -- Over a connection whose callback implements a service, whose reads each take one message of the
  -- peer, of at most the 1024 bytes of the buffer, and whose writes take the whole of each answer: the
  -- messages are answered by what the service answers, each answer once, whole and in order, an empty
  -- one not at all, and the loop goes on.
  pub serves :
      (timed : Bool) (c : Conn app io) (xs : List (app.Secs × List ℕ))
      → Implements app peer f
      → All Fits xs
      → IsBuffer c.msg
      → (c' : Conn app io) × (run (step app io peer timed) (looping c) (rounds c.st xs)
          ≡ looping c')
        × (c'.sent ≡ c.sent ++ served f c.st (messages xs))
  unfolding run rounds served
  serves timed c [] i fit h = (c, refl, sym (append-nil c.sent))
  serves timed c ((now, x) ∷ xs) i fit h =
      let (c1, e1, st1, h1, s1) = round timed c now x i fit.0 h in
      let (c2, e2, s2) = serves timed c1 xs i fit.1 h1 in
      let again =
        λ (s : app.St). run (step app io peer timed) (looping c1) (rounds s xs) ≡ looping c2 in
      let out = (f c.st x).1 in
      (
        c2,
        ap (λ p. run (step app io peer timed) p (rounds (f c.st x).0 xs)) e1 ∙ subst again st1 e2,
        s2
            ∙ (ap (λ s. c1.sent ++ served f s (messages xs)) st1
                ∙ ground
                    (arith, append_assoc c.sent (out ∷ []) (served f (f c.st x).0 (messages xs)))),
      )
