-- ===== src/GameTime/Examples.antt =====
-- The theorems about wolf/src/system/chrono/gametime.rs on a clock that counts whole units.
use wolf_engine.Base.{ℕ, suc, ◌+◌, ◌-◌, ◌≡◌, refl, true, false, ltb, leb, arith}
use wolf_engine.GameTime.{Clock, GameTime, out_of_fuel, tick_fn, clamp, snap}
use wolf_engine.GameTime.Ticks.{
  HasCounted, fixed_ticks_counted, variable_ticks_once, stuck_tick_never_returns,
}

-- A unit is a tenth of a second.
abbrev tenths : Clock
tenths = record {
  Instant = ℕ;
  F64 = ℕ;
  since = λ now last. now - last;
  nought = 0;
  one = 10;
  frame = 1;
  max_delta = 600000;
  near = 0;
  plus = λ a b. a + b;
  minus = λ a b. a - b;
  rem = λ a b. a - b;
  abs = λ a. a;
  ge = λ a b. leb b a;
  lt = ltb;
}

-- A target of three tenths, with one tenth left over.
abbrev game : GameTime tenths
game = record {
  last_time = 100;
  elapsed_secs = 3;
  total_secs = 30;
  left_over_ticks = 1;
  frame_count = 10;
  fps = 0;
  frames_this_sec = 2;
  seconds_counter = 4;
  fixed_time_step = true;
  target_elapsed_secs = 3;
}

fixed_ticks_counted_example :
    HasCounted tenths true suc 10 2 game 0 (tick_fn tenths true suc 5 106 game 0)
unfolding clamp snap
fixed_ticks_counted_example =
    fixed_ticks_counted tenths true suc 2 4 106 game 0 refl (omega arith) (refl, (refl, refl))
      (omega arith) (omega arith)

abbrev variable_game : GameTime tenths
variable_game = record game { fixed_time_step = false }

variable_ticks_once_example :
    HasCounted tenths false suc 10 1 variable_game 0
      (tick_fn tenths false suc 0 106 variable_game 0)
variable_ticks_once_example =
    variable_ticks_once tenths false suc 0 106 variable_game 0 refl (omega arith) (omega arith)

abbrev zero_target : GameTime tenths
zero_target = record game { target_elapsed_secs = 0 }

stuck_tick_never_returns_example : tick_fn tenths false suc 50 106 zero_target 0 ≡ out_of_fuel
unfolding clamp snap
stuck_tick_never_returns_example =
    stuck_tick_never_returns tenths suc 50 106 zero_target 0 refl refl refl
