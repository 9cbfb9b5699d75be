-- ===== src/Render/Examples.antt =====
-- Runs and witnesses for the graphics device and the demo.
use wolf_engine.Base.{
  ℕ, ◌≡◌, refl, false, not, Option, none, some, List, [], ◌∷◌, ok, err, ltb, leb, ◌+◌, ◌-◌,
}
use wolf_engine.GameTime.{Clock, default_time}
use wolf_engine.Render
use wolf_engine.Render.{Gpu, Config, WindowInfo, GraphicsDevice, out_of_memory}
use wolf_engine.Render.Sizes.{IsConsistent, last_size, resize_all, resized-IsConsistent}
use wolf_engine.Render.Demo
use wolf_engine.Render.Demo.{
  App, window_event, redraw_requested, redraw_events_cleared, resized, close_requested, w_scene,
  step,
}
use wolf_engine.Render.Demo.Exits.{DemoEvent, DemoApp, any_leaves, IsSafe, is_looping, demo-leaves}
use wolf_engine.Stream.{looping, run}

-- A surface is the configuration that it was last given.
abbrev gpu : Gpu
gpu = record {
  Handle = Unit {0};
  Surface = Option (Config ℕ);
  Adapter = Unit {0};
  Device = Unit {0};
  Queue = Unit {0};
  Format = ℕ;
  Info = Unit {0};
  Failure = Unit {0};
  create_surface = λ h. none;
  request_adapter = λ s. some tt;
  request_device = λ a. ok (tt, tt);
  get_supported_formats = λ s a. 5 ∷ 6 ∷ [];
  rgba32_sint = 9;
  configure = λ s d config. some config;
  get_info = λ a. tt;
}

abbrev window : WindowInfo gpu
window = record { handle = tt; width = 640; height = 480 }

abbrev device : GraphicsDevice gpu
device = record {
  adaptor = tt;
  config = record { format = 5; width = 640; height = 480 };
  device = tt;
  queue = tt;
  size = (640, 480);
  surface = some (some (record { format = 5; width = 640; height = 480 }));
}

abbrev sizes : List (ℕ × ℕ)
sizes = (10, 20) ∷ (0, 30) ∷ []

resized-IsConsistent_example :
    IsConsistent gpu (resize_all gpu sizes device)
    × ((resize_all gpu sizes device).size ≡ last_size gpu (640, 480) sizes)
unfolding Render.new Render.on_adapter Render.with_adapter Render.with_device Render.for_surface
    Render.config_of Render.target
resized-IsConsistent_example = resized-IsConsistent gpu (some window) device sizes refl

-- A clock that counts.
abbrev clock : Clock
clock = record {
  Instant = ℕ;
  F64 = ℕ;
  since = ◌-◌;
  nought = 0;
  one = 60;
  frame = 1;
  max_delta = 60000;
  near = 1;
  plus = ◌+◌;
  minus = ◌-◌;
  rem = λ a b. a - b;
  abs = λ a. a;
  ge = λ a b. leb b a;
  lt = ltb;
}

abbrev app : DemoApp gpu clock ℕ 9 1
app = record {
  device = device;
  time = default_time clock 0;
  scene_state = [];
  redraws = 0;
  logged = [];
}

abbrev events : List (DemoEvent gpu clock ℕ 9 1)
events =
    window_event (resized (10, 20)) 1
    ∷ redraw_requested 1 5 (ok 77)
    ∷ redraw_events_cleared
    ∷ window_event close_requested 2
    ∷ redraw_requested 1 6 (err out_of_memory)
    ∷ []

demo-leaves_example :
    IsSafe gpu clock ℕ 9 1
      (640, 480)
      (run (step gpu clock (w_scene gpu clock ℕ) false 9 1) (looping app) events)
    × (is_looping (run (step gpu clock (w_scene gpu clock ℕ) false 9 1) (looping app) events)
        ≡ not (any_leaves gpu clock ℕ 9 1 events))
unfolding Demo.prepare Demo.with_device Demo.loaded Render.new Render.on_adapter Render.with_adapter
    Render.with_device Render.for_surface Render.config_of Render.target
demo-leaves_example = demo-leaves gpu clock ℕ 9 1 0 [] window app events refl
