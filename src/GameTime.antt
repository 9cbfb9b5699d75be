-- ===== src/GameTime.antt =====
-- wolf/src/system/chrono/gametime.rs: the measurement of game time and its ticks.
--
-- `f64` and the clock are the parameter `Clock`, with the constants of the code. A `u32` is a native
-- number below 2 ^ 32 with both profiles of overflow; the callback of a tick changes a state. The
-- `while` runs on fuel, and `Ticks` says when there is enough.
pub mod Ticks
pub mod Release
mod Examples
use wolf_engine.Base.{
  ℕ, zero, suc, ◌+◌, ◌-◌, ◌^◌, ◌%◌, Bool, true, false, Option, none, some, ltb, leb, if◌then◌else◌,
}

-- `since` is `(now - last_time).as_secs_f64()`; `ge` and `lt` are `>=` and `<`; `frame` is 1.0 / 60.0,
-- `max_delta` is MAX_DELTA_IN_MILLIS and `near` is 0.0004.
pub record Clock : Type 1 where
  pub Instant : Type 0
  pub F64 : Type 0
  pub since : Instant → Instant → F64
  pub nought : F64
  pub one : F64
  pub frame : F64
  pub max_delta : F64
  pub near : F64
  pub plus : F64 → F64 → F64
  pub minus : F64 → F64 → F64
  pub rem : F64 → F64 → F64
  pub abs : F64 → F64
  pub ge : F64 → F64 → Bool
  pub lt : F64 → F64 → Bool

-- `+` and `-` at u32: `none` is the panic where overflow is checked.
unfoldable pub add_u32 : Bool → ℕ → ℕ → Option ℕ
add_u32 checks a b =
    if ltb (a + b) (2 ^ 32) then some (a + b) else if checks then none else some ((a + b) % 2 ^ 32)

unfoldable pub sub_u32 : Bool → ℕ → ℕ → Option ℕ
sub_u32 checks a b =
    if leb b a then some (a - b) else if checks then none else some (a + 2 ^ 32 - b)

module _ (c : Clock) where
  open c use {Instant, F64, since, nought, one, max_delta, near, plus, minus, ge, lt}

  pub record GameTime : Type 0 where
    pub last_time : Instant
    pub elapsed_secs : F64
    pub total_secs : F64
    pub left_over_ticks : F64
    pub frame_count : ℕ
    pub fps : ℕ
    pub frames_this_sec : ℕ
    pub seconds_counter : F64
    pub fixed_time_step : Bool
    pub target_elapsed_secs : F64

  -- GameTime::default, at the moment that `Instant::now()` gives
  unfoldable pub default_time : Instant → GameTime
  default_time now = record {
    last_time = now;
    elapsed_secs = nought;
    total_secs = nought;
    left_over_ticks = nought;
    frame_count = 0;
    fps = 0;
    frames_this_sec = 0;
    seconds_counter = nought;
    fixed_time_step = false;
    target_elapsed_secs = c.frame;
  }

  pub reset : Instant → GameTime → GameTime
  reset now g = record g {
    last_time = now;
    left_over_ticks = nought;
    fps = 0;
    frames_this_sec = 0;
    seconds_counter = nought;
  }

  pub set_fixed_time_step : Bool → GameTime → GameTime
  set_fixed_time_step value g = record g { fixed_time_step = value }

  pub set_target_elapsed_seconds : F64 → GameTime → GameTime
  set_target_elapsed_seconds value g = record g { target_elapsed_secs = value }

  -- How a tick ends: with the time and the callback's state, by a panic of an addition, or not yet.
  pub data Ticked (S : Type 0) : Type 0 where
    done : GameTime → S → Ticked S
    overflow : Ticked S
    out_of_fuel : Ticked S

  -- One turn of the `while`, with the frame counter that it sets.
  unfoldable pub one_frame : GameTime → ℕ → GameTime
  one_frame g count = record g {
    elapsed_secs = g.target_elapsed_secs;
    total_secs = plus g.total_secs g.target_elapsed_secs;
    left_over_ticks = minus g.left_over_ticks g.target_elapsed_secs;
    frame_count = count;
  }

  unfoldable pub clamp : F64 → F64
  clamp delta = if lt max_delta delta then max_delta else delta

  -- A delta close to the target is the target.
  unfoldable pub snap : F64 → F64 → F64
  snap target delta = if lt (c.abs (minus delta target)) near then target else delta

  module _ {S : Type 0} (checks : Bool) (on_tick : S → S) where
    unfoldable pub fixed_loop : ℕ → GameTime → S → Ticked S
    unfolding one_frame add_u32
    fixed_loop zero g s = out_of_fuel
    fixed_loop (suc fuel) g s =
        let again : Ticked S = elim (add_u32 checks g.frame_count 1) [
          | none ↦ overflow
          | some count ↦ fixed_loop fuel (one_frame g count) (on_tick s)
        ] in
        if ge g.left_over_ticks g.target_elapsed_secs then again else done g s

    unfoldable pub variable_frame : F64 → GameTime → S → Option ℕ → Ticked S
    variable_frame delta g s none = overflow
    variable_frame delta g s (some count) =
        done
          (record g {
            elapsed_secs = delta;
            total_secs = plus g.total_secs delta;
            left_over_ticks = nought;
            frame_count = count;
          })
          (on_tick s)

    unfoldable pub variable_step : F64 → GameTime → S → Ticked S
    unfolding variable_frame add_u32
    variable_step delta g s = variable_frame delta g s (add_u32 checks g.frame_count 1)

    -- The end of a second: the frames of it are the rate.
    unfoldable pub track_second : GameTime → GameTime
    track_second g =
        if ge g.seconds_counter one
        then record g {
          fps = g.frames_this_sec;
          frames_this_sec = 0;
          seconds_counter = c.rem g.seconds_counter one;
        }
        else g

    unfoldable pub set_frames : GameTime → S → Option ℕ → Ticked S
    unfolding track_second
    set_frames g s none = overflow
    set_frames g s (some n) = done (track_second (record g { frames_this_sec = n })) s

    unfoldable pub add_frames : GameTime → S → Option ℕ → Ticked S
    unfolding set_frames add_u32
    add_frames g s none = overflow
    add_frames g s (some frames) = set_frames g s (add_u32 checks g.frames_this_sec frames)

    unfoldable pub track : ℕ → Ticked S → Ticked S
    unfolding add_frames sub_u32
    track last overflow = overflow
    track last out_of_fuel = out_of_fuel
    track last (done g s) = add_frames g s (sub_u32 checks g.frame_count last)

    unfoldable pub tick_fn : ℕ → Instant → GameTime → S → Ticked S
    unfolding fixed_loop variable_step track clamp snap
    tick_fn fuel now g s =
        let raw = since now g.last_time in
        let g1 : GameTime = record g {
          last_time = now;
          seconds_counter = plus g.seconds_counter raw;
        } in
        track g.frame_count (
          if g.fixed_time_step
          then fixed_loop fuel
              (record g1 {
                left_over_ticks = plus g.left_over_ticks (snap g.target_elapsed_secs (clamp raw));
              })
              s
          else variable_step (clamp raw) g1 s)

  -- A tick without a callback.
  unfoldable pub tick : Bool → ℕ → Instant → GameTime → Ticked (Unit {0})
  unfolding tick_fn
  tick checks fuel now g = tick_fn checks (λ u. u) fuel now g tt
