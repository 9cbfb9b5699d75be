-- ===== src/Ffmpeg/Decode/Settles.antt =====
-- Calls of wolf/sys/media/ffmpeg.cpp that come to an end: `cleanup` and the tests with an early return.
use wolf_engine.Base.{
  ◌≡◌, refl, Bool, true, false, List, [], ◌∷◌, ◌==◌, ltb, if◌then◌else◌, inl, inr, String,
  Bool-cases,
}
use wolf_engine.Base.Int.{ℤ}
use wolf_engine.Ffmpeg.{
  Block, Memory, Run, done, failed, fault, looping, Call, pure, and_then, ◌>>◌, load, store, free,
  load_ctx, alloc,
}
use wolf_engine.Rist.Store.{Ptr, calloc}
use wolf_engine.Ffmpeg.Cleanup.{
  Slot, opt, ctx, frame_buffer, get, set, field, output, Group, Errors, require, make_error,
  written, allocate, cleanup, release,
}
use wolf_engine.Ffmpeg.Decode.Held.{Held, load-Held, load_ctx-Held}

-- A call that comes to an end, with what holds where it returns.
abbrev pub Through : {A : Type 0} → Type 0 → Run A → Type 0
Through P (done a s) = P
Through P (failed s) = Unit
Through P fault = Unit
Through P looping = ⊥

abbrev pub Settles : {A : Type 0} → Run A → Type 0
Settles x = Through Unit x

pub through :
    {A B : Type 0} (P R : Type 0) (x : Run A) (k : A → Call B)
    → Through P x
    → (P → (a : A) (s : Memory) → Through R (k a s))
    → Through R (and_then x k)
through P R (done a s) k h next = next h a s
through P R (failed s) k h next = tt
through P R fault k h next = tt
through P R looping k h next = absurd h

pub settles :
    {A B : Type 0} (x : Run A) (k : A → Call B)
    → Settles x
    → ((a : A) (s : Memory) → Settles (k a s))
    → Settles (and_then x k)
settles x k h next = through Unit Unit x k h (λ u. next)

pub Held-Settles : {A : Type 0} (s : Memory) (x : Run A) → Held s x → Settles x
Held-Settles s (done a t) h = tt
Held-Settles s (failed t) h = tt
Held-Settles s fault h = tt
Held-Settles s looping h = absurd h

pub get-Settles : (x : Slot) (s : Memory) → Settles (get x s)
unfolding get
get-Settles opt s = tt
get-Settles ctx s = tt
get-Settles (field f) s = settles (load_ctx s) _ (Held-Settles s _ (load_ctx-Held s)) (λ c s'. tt)
get-Settles output s = tt
get-Settles frame_buffer s = tt

pub set-Settles : (x : Slot) (p : Ptr) (s : Memory) → Settles (set x p s)
unfolding set store
set-Settles opt p s = tt
set-Settles ctx p s = tt
set-Settles (field f) p s = settles (load_ctx s) _ (Held-Settles s _ (load_ctx-Held s)) (λ c s'. tt)
set-Settles output p s = tt
set-Settles frame_buffer p s = tt

free-Settles : (p : Ptr) (s : Memory) → Settles (free p s)
unfolding free store
free-Settles p s = settles (load p s) _ (Held-Settles s _ (load-Held p s)) (λ b s'. tt)

pub if-Settles :
    {A : Type 0} (b : Bool) (m n : Call A) (s : Memory)
    → Settles (m s)
    → Settles (n s)
    → Settles ((if b then m else n) s)
if-Settles true m n s hm hn = hm
if-Settles false m n s hm hn = hn

release-Settles : (g : Group) (s : Memory) → Settles (release g s)
unfolding release
release-Settles [] s = tt
release-Settles (x ∷ []) s = settles (get x s) _ (get-Settles x s) (λ p s1.
    if-Settles (p == 0) (pure tt) (free p >> set x 0) s1 tt
      (settles (free p s1) _ (free-Settles p s1) (λ u s2. set-Settles x 0 s2)))
release-Settles (x ∷ (y ∷ g)) s =
    settles (get x s) _ (get-Settles x s)
      (λ p s1. if-Settles (p == 0) (pure tt) (release (y ∷ g)) s1 tt (release-Settles (y ∷ g) s1))

pub cleanup-Settles : (gs : List Group) (s : Memory) → Settles (cleanup gs s)
unfolding cleanup
cleanup-Settles [] s = tt
cleanup-Settles (g ∷ gs) s =
    settles (release g s) _ (release-Settles g s) (λ u s1. cleanup-Settles gs s1)

pub allocate-Settles :
    (given : Bool) (b : Block) (x : Slot) (s : Memory) → Settles (allocate given b x s)
unfolding allocate alloc
allocate-Settles given b x s =
    set-Settles x (calloc given b s.heap).0 (record s { heap = (calloc given b s.heap).1 })

pub require-Through :
    (e : Errors) (b : Bool) (gs : List Group) (place msg : String) (code : ℤ) (s : Memory)
    → Through (b ≡ true) (require e b gs place msg code s)
unfolding require make_error
require-Through e true gs place msg code s = refl
require-Through e false gs place msg code s =
    elim (Bool-cases (ltb e.room (written e place msg code))) [
      | inl over ↦ rw over tt
      | inr fits ↦ rw fits (stopped (cleanup gs s) (cleanup-Settles gs s))
    ]
  where
    stopped :
        (x : Run (Unit {0}))
        → Settles x
        → Through {A = Unit {0}} (false ≡ true) (and_then x (λ u. failed))
    stopped (done u t) h = tt
    stopped (failed t) h = tt
    stopped fault h = tt
    stopped looping h = absurd h
