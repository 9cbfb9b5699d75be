-- ===== src/GameTime/Release.antt =====
-- A tick of wolf/src/system/chrono/gametime.rs in the profile that does not check overflow.
use wolf_engine.Base.{
  if-false, ℕ, ◌≡◌, sym, subst, refl, Bool, true, false, Option, none, some, ltb, leb,
  if◌then◌else◌, arith, Bool-cases, ◌+◌, ◌-◌, ◌^◌, ◌%◌, inl, inr,
}
use wolf_engine.GameTime
use wolf_engine.GameTime.{
  Clock, GameTime, Ticked, done, tick_fn, track, variable_step, add_u32, sub_u32, set_frames,
  add_frames, track_second, clamp, overflow, out_of_fuel,
}

pub add_u32-some : (a b : ℕ) → (x : ℕ) × (add_u32 false a b ≡ some x)
unfolding add_u32
add_u32-some a b = elim (Bool-cases (ltb (a + b) (2 ^ 32))) [
  | inl fits ↦ (a + b, ground arith)
  | inr over ↦ ((a + b) % 2 ^ 32, ground arith)
]

sub_u32-some : (a b : ℕ) → (x : ℕ) × (sub_u32 false a b ≡ some x)
unfolding sub_u32
sub_u32-some a b = elim (Bool-cases (leb b a)) [
  | inl fits ↦ (a - b, ground arith)
  | inr under ↦ (a + 2 ^ 32 - b, ground arith)
]

module _ (c : Clock) {S : Type 0} (on_tick : S → S) where
  -- A tick that is done with this callback state, and that left the mode of the step.
  abbrev pub IsDone : Bool → S → Ticked c S → Type 0
  IsDone mode s (done g s') = (g.fixed_time_step ≡ mode) × (s' ≡ s)
  IsDone mode s _ = ⊥

  if-fixed :
      (b : Bool) (g g' : GameTime c)
      → g.fixed_time_step ≡ g'.fixed_time_step
      → (if b then g else g').fixed_time_step ≡ g'.fixed_time_step
  if-fixed true g g' e = e
  if-fixed false g g' e = refl

  add_frames-IsDone :
      (g : GameTime c) (s : S) (frames : Option ℕ) (n : ℕ)
      → frames ≡ some n
      → IsDone g.fixed_time_step s (add_frames c false on_tick g s frames)
  unfolding add_frames set_frames track_second
  add_frames-IsDone g s none n e = absurd (ground arith)
  add_frames-IsDone g s (some k) n e =
      let (x, sum) = add_u32-some g.frames_this_sec k in
      subst (λ o. IsDone g.fixed_time_step s (set_frames c false on_tick g s o)) (sym sum)
        (if-fixed (c.ge g.seconds_counter c.one) _ (record g { frames_this_sec = x }) refl, refl)

  track-IsDone :
      (last : ℕ) (mode : Bool) (s : S) (r : Ticked c S)
      → IsDone mode s r
      → IsDone mode s (track c false on_tick last r)
  unfolding track
  track-IsDone last mode s (done g s') (m, e) =
      let (x, frames) = sub_u32-some g.frame_count last in
      subst (λ m. IsDone m s (track c false on_tick last (done g s'))) m
        (subst (λ t. IsDone g.fixed_time_step t (track c false on_tick last (done g s'))) e
          (add_frames-IsDone g s' _ x frames))
  track-IsDone last mode s overflow h = absurd h
  track-IsDone last mode s out_of_fuel h = absurd h

  variable_step-IsDone :
      (delta : c.F64) (g : GameTime c) (s : S)
      → IsDone g.fixed_time_step (on_tick s) (variable_step c false on_tick delta g s)
  unfolding variable_step GameTime.variable_frame
  variable_step-IsDone delta g s =
      let (x, sum) = add_u32-some g.frame_count 1 in
      subst
        (λ o.
          IsDone g.fixed_time_step (on_tick s)
            (GameTime.variable_frame c false on_tick delta g s o))
        (sym sum) (refl, refl)

  -- In variable steps every tick ends, calls the callback once and stays in variable steps.
  pub variable_tick-IsDone :
      (fuel : ℕ) (now : c.Instant) (g : GameTime c) (s : S)
      → g.fixed_time_step ≡ false
      → IsDone false (on_tick s) (tick_fn c false on_tick fuel now g s)
  unfolding tick_fn
  variable_tick-IsDone fuel now g s variable =
      if-false (λ r. IsDone false (on_tick s) (track c false on_tick g.frame_count r))
        g.fixed_time_step _ _ variable
        (track-IsDone g.frame_count false (on_tick s) _ (
          subst
            (λ m.
              IsDone m (on_tick s)
                (variable_step c false on_tick (clamp c (c.since now g.last_time)) (moved now g) s))
            variable (variable_step-IsDone (clamp c (c.since now g.last_time)) (moved now g) s)))
    where
      moved : c.Instant → GameTime c → GameTime c
      moved now g = record g {
        last_time = now;
        seconds_counter = c.plus g.seconds_counter (c.since now g.last_time);
      }
