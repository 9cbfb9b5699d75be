-- ===== src/Ffmpeg/Ends.antt =====
-- How a call of wolf/sys/media/ffmpeg.cpp ends: with what it returns or with -1, and without undefined behaviour.
use wolf_engine.Base.{Option, none, some}
use wolf_engine.Ffmpeg.{Memory, Run, done, failed, Call, and_then, caught}

pub data Ends {A : Type 0} (P : A → Memory → Type 0) (Q : Memory → Type 0) : Run A → Type 0 where
  returns : {a : A} {s : Memory} → P a s → Ends P Q (done a s)
  fails : {s : Memory} → Q s → Ends P Q (failed s)

-- What the caller sees of a call.
abbrev pub Seen :
    {A : Type 0} → (A → Memory → Type 0) → (Memory → Type 0) → Option A → Memory → Type 0
Seen P Q none s = Q s
Seen P Q (some a) s = P a s

module _ {A : Type 0} {P : A → Memory → Type 0} {Q : Memory → Type 0} where
  pub bind :
      {B : Type 0} {R : B → Memory → Type 0} {N : Memory → Type 0} {r : Run A} {k : A → Call B}
      → Ends P Q r
      → ((a : A) (s : Memory) → P a s → Ends R N (k a s))
      → ((s : Memory) → Q s → N s)
      → Ends R N (and_then r k)
  bind (returns p) next kept = next _ _ p
  bind (fails q) next kept = fails (kept _ q)

  pub mono :
      {R : A → Memory → Type 0} {N : Memory → Type 0} {r : Run A}
      → Ends P Q r
      → ((a : A) (s : Memory) → P a s → R a s)
      → ((s : Memory) → Q s → N s)
      → Ends R N r
  mono (returns p) weaken kept = returns (weaken _ _ p)
  mono (fails q) weaken kept = fails (kept _ q)

  pub seen : {N : Memory → Type 0} {r : Run A} → Ends P Q r → Ends (Seen P Q) N (caught r)
  seen (returns p) = returns p
  seen (fails q) = returns q
