-- ===== src/GameTime/Ticks.antt =====
-- How often `tick_fn` (wolf/src/system/chrono/gametime.rs) calls its callback, and when it returns.
use wolf_engine.Base.{
  if-true, if-false, ℕ, zero, suc, ◌+◌, ◌<◌, ◌≤◌, inl, inr, Bool-cases, ◌^◌, ◌≡◌, refl, ◌∙◌, ap,
  sym, subst, Bool, true, false, Option, none, some, arith, lt→ltb,
}
use wolf_engine.GameTime.Release.{add_u32-some}
use wolf_engine.GameTime.{
  Clock, GameTime, Ticked, done, overflow, out_of_fuel, fixed_loop, variable_step, tick_fn, track,
  track_second, add_frames, set_frames, variable_frame, one_frame, clamp, snap, add_u32, sub_u32,
}

abbrev pub iterate : {S : Type 0} → ℕ → (S → S) → S → S
iterate zero f s = s
iterate (suc n) f s = iterate n f (f s)

add_u32-exact : (checks : Bool) (a b : ℕ) → a + b < 2 ^ 32 → add_u32 checks a b ≡ some (a + b)
unfolding add_u32
add_u32-exact checks a b h = ground arith

sub_u32-exact : (checks : Bool) (a b n : ℕ) → a ≡ b + n → sub_u32 checks a b ≡ some n
unfolding sub_u32
sub_u32-exact checks a b n h = ground arith

module _ (c : Clock) {S : Type 0} (checks : Bool) (on_tick : S → S) where
  -- So many target times, taken off one after the other, are due in what is left over.
  abbrev pub AreDue : ℕ → c.F64 → c.F64 → Type 0
  AreDue zero target left = c.ge left target ≡ false
  AreDue (suc n) target left = (c.ge left target ≡ true) × AreDue n target (c.minus left target)

  -- The loop has ended after this many frames; the frames of the second are not yet counted.
  abbrev pub HasTicked : ℕ → GameTime c → S → Ticked c S → Type 0
  HasTicked n g s (done g' s') =
      (s' ≡ iterate n on_tick s)
      × (g'.frame_count ≡ g.frame_count + n)
      × (g'.frames_this_sec ≡ g.frames_this_sec)
      × (g'.fps ≡ g.fps)
      × (g'.seconds_counter ≡ g.seconds_counter)
  HasTicked n g s overflow = ⊥
  HasTicked n g s out_of_fuel = ⊥

  one_frame-HasTicked :
      (n : ℕ) (g : GameTime c) (s : S) (r : Ticked c S)
      → HasTicked n (one_frame c g (g.frame_count + 1)) (on_tick s) r
      → HasTicked (suc n) g s r
  unfolding one_frame
  one_frame-HasTicked n g s (done g' s') (same, frames, kept, rate, counter) =
      (same, omega arith, kept, rate, counter)
  one_frame-HasTicked n g s overflow h = h
  one_frame-HasTicked n g s out_of_fuel h = h

  fixed_loop-HasTicked :
      (n k : ℕ) (g : GameTime c) (s : S)
      → n ≤ k
      → AreDue n g.target_elapsed_secs g.left_over_ticks
      → g.frame_count + n < 2 ^ 32
      → HasTicked n g s (fixed_loop c checks on_tick (suc k) g s)
  unfolding fixed_loop add_u32 one_frame
  fixed_loop-HasTicked zero k g s enough due small = rw due (refl, omega arith, refl, refl, refl)
  fixed_loop-HasTicked (suc n) zero g s enough due small = absurd (omega arith)
  fixed_loop-HasTicked (suc n) (suc k) g s enough due small =
      rw (due.0, lt→ltb (g.frame_count + 1) (2 ^ 32) (omega arith))
        (one_frame-HasTicked n g s _ (
          fixed_loop-HasTicked n k (one_frame c g (g.frame_count + 1)) (on_tick s) (omega arith)
            due.1 (omega arith)))

  -- The fields of a second of this length so far, by whether it is over: then its frames are the rate,
  -- and a new second starts with what is left of it, and else the frames are counted.
  abbrev pub HasRate : Bool → c.F64 → ℕ → GameTime c → GameTime c → Type 0
  HasRate true counter n g g' =
      (g'.frames_this_sec ≡ 0)
      × (g'.fps ≡ g.frames_this_sec + n)
      × (g'.seconds_counter ≡ c.rem counter c.one)
  HasRate false counter n g g' =
      (g'.frames_this_sec ≡ g.frames_this_sec + n)
      × (g'.fps ≡ g.fps)
      × (g'.seconds_counter ≡ counter)

  -- The callback was called `n` times, and `n` frames were counted, where this is the second so far.
  abbrev pub HasCounted : c.F64 → ℕ → GameTime c → S → Ticked c S → Type 0
  HasCounted counter n g s (done g' s') =
      (s' ≡ iterate n on_tick s)
      × (g'.frame_count ≡ g.frame_count + n)
      × HasRate (c.ge counter c.one) counter n g g'
  HasCounted counter n g s overflow = ⊥
  HasCounted counter n g s out_of_fuel = ⊥

  track-exact :
      (n last : ℕ) (g : GameTime c) (s : S)
      → g.frame_count ≡ last + n
      → g.frames_this_sec + n < 2 ^ 32
      → track c checks on_tick last (done g s)
        ≡ done
            (track_second c checks on_tick (record g { frames_this_sec = g.frames_this_sec + n }))
            s
  unfolding track add_frames set_frames
  track-exact n last g s e small =
      ap (add_frames c checks on_tick g s) (sub_u32-exact checks g.frame_count last n e)
      ∙ ap (set_frames c checks on_tick g s) (add_u32-exact checks g.frames_this_sec n small)

  track_second-HasRate :
      (over : Bool) (n : ℕ) (g g2 : GameTime c)
      → c.ge g2.seconds_counter c.one ≡ over
      → g2.frames_this_sec ≡ g.frames_this_sec + n
      → g2.fps ≡ g.fps
      → HasRate over g2.seconds_counter n g (track_second c checks on_tick g2)
  unfolding track_second
  track_second-HasRate true n g g2 over frames rate = rw over (refl, frames, refl)
  track_second-HasRate false n g g2 within frames rate = rw within (frames, rate, refl)

  track_second-frames :
      (g : GameTime c) → (track_second c checks on_tick g).frame_count ≡ g.frame_count
  unfolding track_second
  track_second-frames g = elim (Bool-cases (c.ge g.seconds_counter c.one)) [
    | inl over ↦ rw over refl
    | inr within ↦ rw within refl
  ]

  -- Counting at the end of a tick that called the callback `n` times.
  track-HasCounted :
      (n last : ℕ) (g g1 : GameTime c) (s : S) (r : Ticked c S)
      → g.frame_count ≡ last
      → g1.frame_count ≡ last
      → g1.frames_this_sec ≡ g.frames_this_sec
      → g1.fps ≡ g.fps
      → g.frames_this_sec + n < 2 ^ 32
      → HasTicked n g1 s r
      → HasCounted g1.seconds_counter n g s (track c checks on_tick last r)
  unfolding track
  track-HasCounted n last g g1 s (done g' s') e e1 f p small (same, frames, kept, rate, counter) =
      let g2 : GameTime c = record g' { frames_this_sec = g'.frames_this_sec + n } in
      subst (HasCounted g1.seconds_counter n g s)
        (sym (track-exact n last g' s' (omega arith) (omega arith)))
        (
          same,
          track_second-frames g2 ∙ omega arith,
          subst (λ x. HasRate (c.ge x c.one) x n g (track_second c checks on_tick g2)) counter
              (track_second-HasRate (c.ge g'.seconds_counter c.one) n g g2 refl (omega arith)
                (rate ∙ p)),
        )
  track-HasCounted n last g g1 s overflow e e1 f p small h = h
  track-HasCounted n last g g1 s out_of_fuel e e1 f p small h = h

  -- In fixed steps a tick returns, given fuel for one turn more than the target times that are due in
  -- what is left over with the clamped and snapped delta; it has called the callback once for each of
  -- them and counted as many frames. If the second so far, with the time since the last tick, is one or
  -- more, the rate is the frames of it, these included, and a new second starts with no frame and the
  -- remainder; else they are added to its frames, and the rate is kept. This in both profiles of
  -- overflow, where neither counter reaches 2 ^ 32.
  pub fixed_ticks_counted :
      (n k : ℕ) (now : c.Instant) (g : GameTime c) (s : S)
      → g.fixed_time_step ≡ true
      → n ≤ k
      → AreDue n g.target_elapsed_secs (
          c.plus g.left_over_ticks
            (snap c g.target_elapsed_secs (clamp c (c.since now g.last_time))))
      → g.frame_count + n < 2 ^ 32
      → g.frames_this_sec + n < 2 ^ 32
      → HasCounted
          (c.plus g.seconds_counter (c.since now g.last_time))
          n
          g
          s
          (tick_fn c checks on_tick (suc k) now g s)
  unfolding tick_fn
  fixed_ticks_counted n k now g s fixed enough due small few =
      let raw = c.since now g.last_time in
      let g1 : GameTime c = record g {
        last_time = now;
        seconds_counter = c.plus g.seconds_counter raw;
        left_over_ticks = c.plus g.left_over_ticks (snap c g.target_elapsed_secs (clamp c raw));
      } in
      if-true (λ r. HasCounted g1.seconds_counter n g s (track c checks on_tick g.frame_count r))
        g.fixed_time_step _ _ fixed
        (track-HasCounted n g.frame_count g g1 s (fixed_loop c checks on_tick (suc k) g1 s) refl
          refl refl refl few (fixed_loop-HasTicked n k g1 s enough due small))

  variable_step-HasTicked :
      (g : GameTime c) (s : S) (delta : c.F64)
      → g.frame_count + 1 < 2 ^ 32
      → HasTicked 1 g s (variable_step c checks on_tick delta g s)
  unfolding variable_step variable_frame
  variable_step-HasTicked g s delta small =
      subst (λ x. HasTicked 1 g s (variable_frame c checks on_tick delta g s x))
        (sym (add_u32-exact checks g.frame_count 1 small)) (refl, refl, refl, refl, refl)

  -- In variable steps a tick returns and has called the callback once and counted one frame. If the
  -- second so far, with the time since the last tick, is one or more, the rate is the frames of it, this
  -- one included, and a new second starts with no frame and the remainder; else it is added to its
  -- frames, and the rate is kept. This in both profiles, where neither counter reaches 2 ^ 32.
  pub variable_ticks_once :
      (fuel : ℕ) (now : c.Instant) (g : GameTime c) (s : S)
      → g.fixed_time_step ≡ false
      → g.frame_count + 1 < 2 ^ 32
      → g.frames_this_sec + 1 < 2 ^ 32
      → HasCounted
          (c.plus g.seconds_counter (c.since now g.last_time))
          1
          g
          s
          (tick_fn c checks on_tick fuel now g s)
  unfolding tick_fn
  variable_ticks_once fuel now g s variable small few =
      let g1 : GameTime c = record g {
        last_time = now;
        seconds_counter = c.plus g.seconds_counter (c.since now g.last_time);
      } in
      if-false (λ r. HasCounted g1.seconds_counter 1 g s (track c checks on_tick g.frame_count r))
        g.fixed_time_step _ _ variable
        (track-HasCounted 1 g.frame_count g g1 s
          (variable_step c checks on_tick (clamp c (c.since now g.last_time)) g1 s) refl refl refl
          refl few (variable_step-HasTicked g1 s (clamp c (c.since now g.last_time)) small))

module _ (c : Clock) {S : Type 0} (on_tick : S → S) where
  stuck_loop :
      (fuel : ℕ) (g : GameTime c) (s : S)
      → c.ge g.left_over_ticks g.target_elapsed_secs ≡ true
      → c.minus g.left_over_ticks g.target_elapsed_secs ≡ g.left_over_ticks
      → fixed_loop c false on_tick fuel g s ≡ out_of_fuel
  unfolding fixed_loop one_frame
  stuck_loop zero g s due same = refl
  stuck_loop (suc fuel) g s due same =
      let (count, e) = add_u32-some g.frame_count 1 in
      let due' = ap (λ left. c.ge left g.target_elapsed_secs) same ∙ due in
      let same' = ap (λ left. c.minus left g.target_elapsed_secs) same in
      if-true (λ r. r ≡ out_of_fuel) (c.ge g.left_over_ticks g.target_elapsed_secs) _ _ due
        (ap
            (λ (x : Option ℕ). elim x as (λ _. Ticked c S) [
              | none ↦ overflow
              | some k ↦ fixed_loop c false on_tick fuel (one_frame c g k) (on_tick s)
            ])
            e
          ∙ stuck_loop fuel (one_frame c g count) (on_tick s) due' same')

  -- In fixed steps, where overflow wraps, a tick does not return if a target time is due and taking it
  -- off leaves as much as before, as it does for a target of zero seconds: no fuel is enough.
  pub stuck_tick_never_returns :
      (fuel : ℕ) (now : c.Instant) (g : GameTime c) (s : S)
      → g.fixed_time_step ≡ true
      → let left =
          c.plus g.left_over_ticks
            (snap c g.target_elapsed_secs (clamp c (c.since now g.last_time))) in
        c.ge left g.target_elapsed_secs ≡ true
        → let left =
            c.plus g.left_over_ticks
              (snap c g.target_elapsed_secs (clamp c (c.since now g.last_time))) in
          c.minus left g.target_elapsed_secs ≡ left
          → tick_fn c false on_tick fuel now g s ≡ out_of_fuel
  unfolding tick_fn track
  stuck_tick_never_returns fuel now g s fixed due same =
      let g1 : GameTime c = record g {
        last_time = now;
        seconds_counter = c.plus g.seconds_counter (c.since now g.last_time);
        left_over_ticks =
            c.plus g.left_over_ticks
              (snap c g.target_elapsed_secs (clamp c (c.since now g.last_time)));
      } in
      if-true (λ r. track c false on_tick g.frame_count r ≡ out_of_fuel) g.fixed_time_step _ _ fixed
        (ap (track c false on_tick g.frame_count) (stuck_loop fuel g1 s due same))
