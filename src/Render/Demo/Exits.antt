-- ===== src/Render/Demo/Exits.antt =====
-- When the demo (wolf-demo/src/main.rs) leaves its loop, and what its events do to the device.
use wolf_engine.Base.{
  returned, Outcome, String, ℕ, ◌≡◌, ◌∙◌, sym, subst, refl, Bool, true, false, not, ◌&&◌, ◌||◌,
  Option, none, some, List, [], ◌∷◌, Result, ok, err, ◌==◌, if◌then◌else◌, arith,
}
use wolf_engine.GameTime.{Clock, GameTime, Ticked, done, overflow, out_of_fuel, tick, default_time}
use wolf_engine.GameTime.Release.{variable_tick-IsDone, IsDone}
use wolf_engine.Render.{
  WindowInfo, target, Gpu, GraphicsDevice, SurfaceError, out_of_memory, lost, timeout, outdated,
}
use wolf_engine.Render.Sizes.{is_some, IsMade, new-IsMade, resize-same}
use wolf_engine.Render.Demo
use wolf_engine.Render.Demo.{
  prepare, App, Event, window_event, redraw_requested, redraw_events_cleared, other_event, w_scene,
  WindowEvent, close_requested, keyboard_input, resized, other_window_event, pressed, released,
  escape, other_key, step, asks_exit, after_tick, exit, stuck,
}
use wolf_engine.Stream.{Phase, looping, closed, panicked, faulted, run}
use wolf_engine.Stream.Loops.{run-closed}

abbrev pub is_looping : {C R : Type 0} → Phase C R → Bool
is_looping (looping c) = true
is_looping (closed c r) = false
is_looping panicked = false
is_looping faulted = false

module _ (gpu : Gpu) (c : Clock) (Frame : Type 0) (fuel own : ℕ) where
  abbrev pub DemoEvent : Type 0
  DemoEvent = Event c.Instant (Result SurfaceError Frame)

  abbrev pub DemoApp : Type 0
  DemoApp = App gpu c (w_scene gpu c Frame)

  abbrev demo_step : DemoApp → DemoEvent → Phase DemoApp Demo.Left
  demo_step = step gpu c (w_scene gpu c Frame) false fuel own

  abbrev no_memory : Result SurfaceError Frame → Bool
  no_memory (err out_of_memory) = true
  no_memory (err timeout) = false
  no_memory (err outdated) = false
  no_memory (err lost) = false
  no_memory (ok frame) = false

  -- The events that end the demo: its window is closed, Escape is pressed in it, or it is to be drawn
  -- and the surface is out of memory.
  abbrev pub leaves : DemoEvent → Bool
  leaves (window_event close_requested id) = id == own
  leaves (window_event (keyboard_input pressed (some escape)) id) = id == own
  leaves (window_event (keyboard_input pressed (some other_key)) id) = false
  leaves (window_event (keyboard_input pressed none) id) = false
  leaves (window_event (keyboard_input released key) id) = false
  leaves (window_event (resized size) id) = false
  leaves (window_event other_window_event id) = false
  leaves (redraw_requested id now texture) = (id == own) && no_memory texture
  leaves redraw_events_cleared = false
  leaves other_event = false

  abbrev pub any_leaves : List DemoEvent → Bool
  any_leaves [] = false
  any_leaves (e ∷ es) = leaves e || any_leaves es

  -- In variable steps, with a surface, and of this size.
  pub record IsReady (size : ℕ × ℕ) (a : DemoApp) : Type 0 where
    pub variable : a.time.fixed_time_step ≡ false
    pub on_screen : is_some a.device.surface ≡ true
    pub same_size : a.device.size ≡ size

  -- The loop goes on, or was left by the code, and not by a panic or in a tick that does not end.
  abbrev pub IsSafe : ℕ × ℕ → Phase DemoApp Demo.Left → Type 0
  IsSafe size (looping a) = IsReady size a
  IsSafe size (closed a exit) = IsReady size a
  IsSafe size (closed a stuck) = ⊥
  IsSafe size panicked = ⊥
  IsSafe size faulted = ⊥

  abbrev Steps : ℕ × ℕ → Bool → Phase DemoApp Demo.Left → Type 0
  Steps size left p = IsSafe size p × (is_looping p ≡ not left)

  texture_is :
      (s : Option gpu.Surface) (texture : Result SurfaceError Frame)
      → is_some s ≡ true
      → Demo.current_texture gpu c Frame s texture ≡ texture
  unfolding Demo.current_texture
  texture_is none texture h = absurd (ground arith)
  texture_is (some s) texture h = refl

  after_render-Steps :
      (size : ℕ × ℕ) (a : DemoApp) (t : GameTime c) (texture : Result SurfaceError Frame)
      → IsReady size a
      → t.fixed_time_step ≡ false
      → Steps size (no_memory texture) (
          Demo.after_render gpu c
            (w_scene gpu c Frame)
            a
            (Demo.present gpu c Frame a.scene_state a.device t texture))
  unfolding Demo.after_render Demo.present
  after_render-Steps size a t (ok frame) ready variable = (
    record { variable = variable; on_screen = ready.on_screen; same_size = ready.same_size },
    refl,
  )
  after_render-Steps size a t (err out_of_memory) ready variable = (
    record { variable = variable; on_screen = ready.on_screen; same_size = ready.same_size },
    refl,
  )
  after_render-Steps size a t (err timeout) ready variable = (
    record { variable = variable; on_screen = ready.on_screen; same_size = ready.same_size },
    refl,
  )
  after_render-Steps size a t (err outdated) ready variable = (
    record { variable = variable; on_screen = ready.on_screen; same_size = ready.same_size },
    refl,
  )
  after_render-Steps size a t (err lost) ready variable =
      let (same, surface) = resize-same gpu a.device in
      (
        record {
          variable = variable;
          on_screen = surface ∙ ready.on_screen;
          same_size = same ∙ ready.same_size;
        },
        refl,
      )

  after_tick-Steps :
      (size : ℕ × ℕ) (a : DemoApp) (texture : Result SurfaceError Frame) (r : Ticked c (Unit {0}))
      → IsReady size a
      → IsDone c (λ u. u) false tt r
      → Steps size (no_memory texture) (after_tick gpu c (w_scene gpu c Frame) texture a r)
  unfolding after_tick Demo.render
  after_tick-Steps size a texture (done t u) ready d =
      subst
        (λ x. Steps size (no_memory texture) (
          Demo.after_render gpu c (w_scene gpu c Frame) a
            (Demo.present gpu c Frame a.scene_state a.device t x)))
        (sym (texture_is a.device.surface texture ready.on_screen))
        (after_render-Steps size a t texture ready d.0)
  after_tick-Steps size a texture overflow ready d = absurd d
  after_tick-Steps size a texture out_of_fuel ready d = absurd d

  if-Steps :
      (size : ℕ × ℕ) (here left : Bool) (a : DemoApp) (p : Phase DemoApp Demo.Left)
      → IsReady size a
      → Steps size left p
      → Steps size (here && left) (if here then p else looping a)
  if-Steps size true left a p ready steps = steps
  if-Steps size false left a p ready steps = (ready, refl)

  exit-Steps :
      (size : ℕ × ℕ) (b : Bool) (a : DemoApp)
      → IsReady size a
      → Steps size b (if b then closed a exit else looping a)
  exit-Steps size true a ready = (ready, refl)
  exit-Steps size false a ready = (ready, refl)

  exits_lem : (e : WindowEvent) (id : ℕ) → ((id == own) && asks_exit e) ≡ leaves (window_event e id)
  unfolding asks_exit
  exits_lem close_requested id = ground arith
  exits_lem (keyboard_input pressed (some escape)) id = ground arith
  exits_lem (keyboard_input pressed (some other_key)) id = ground arith
  exits_lem (keyboard_input pressed none) id = ground arith
  exits_lem (keyboard_input released key) id = ground arith
  exits_lem (resized size) id = ground arith
  exits_lem other_window_event id = ground arith

  step-Steps :
      (size : ℕ × ℕ) (a : DemoApp) (e : DemoEvent)
      → IsReady size a
      → Steps size (leaves e) (demo_step a e)
  unfolding step tick
  step-Steps size a (window_event e id) ready =
      subst (λ b. Steps size b (if (id == own) && asks_exit e then closed a exit else looping a))
        (exits_lem e id) (exit-Steps size ((id == own) && asks_exit e) a ready)
  step-Steps size a (redraw_requested id now texture) ready =
      if-Steps size (id == own) (no_memory texture) a _ ready (
        after_tick-Steps size a texture (tick c false fuel now a.time) ready
          (variable_tick-IsDone c (λ u. u) fuel now a.time tt ready.variable))
  step-Steps size a redraw_events_cleared ready = (
    record { variable = ready.variable; on_screen = ready.on_screen; same_size = ready.same_size },
    refl,
  )
  step-Steps size a other_event ready = (ready, refl)

  -- From a phase that the code may be in after some events, over more of them.
  run-Steps :
      (size : ℕ × ℕ) (es : List DemoEvent) (left : Bool) (p : Phase DemoApp Demo.Left)
      → Steps size left p
      → Steps size (left || any_leaves es) (run demo_step p es)
  unfolding run
  run-Steps size [] true p steps = steps
  run-Steps size [] false p steps = steps
  run-Steps size (e ∷ es) false (looping a) steps =
      run-Steps size es (leaves e) (demo_step a e) (step-Steps size a e steps.0)
  run-Steps size (e ∷ es) true (looping a) steps = absurd (ground arith)
  run-Steps size (e ∷ es) true (closed a r) steps =
      subst (Steps size true) (sym (run-closed demo_step a r es)) steps
  run-Steps size (e ∷ es) false (closed a r) steps = absurd (ground arith)
  run-Steps size (e ∷ es) left panicked steps = absurd steps.0
  run-Steps size (e ∷ es) left faulted steps = absurd steps.0

  abbrev IsStart : ℕ × ℕ → Outcome (Result String DemoApp) → Type 0
  IsStart size (returned (ok a)) = IsReady size a
  IsStart size (returned (err m)) = Unit
  IsStart size Outcome.panicked = Unit

  with_device-IsStart :
      (size : ℕ × ℕ) (now : c.Instant) (frames : List Frame)
      (r : Outcome (Result String (GraphicsDevice gpu)))
      → IsMade gpu size true r
      → IsStart size (Demo.with_device gpu c (w_scene gpu c Frame) now frames r)
  unfolding Demo.with_device Demo.loaded default_time
  with_device-IsStart size now frames (returned (ok g)) (made, same, on_screen) = record {
    variable = refl;
    on_screen = on_screen;
    same_size = same;
  }
  with_device-IsStart size now frames (returned (err m)) h = tt
  with_device-IsStart size now frames Outcome.panicked h = tt

  prepare-IsReady :
      (now : c.Instant) (frames : List Frame) (window : WindowInfo gpu) (a : DemoApp)
      → prepare gpu c (w_scene gpu c Frame) now frames (ok window) ≡ returned (ok a)
      → IsReady (window.width, window.height) a
  unfolding prepare target
  prepare-IsReady now frames window a e = subst (IsStart (window.width, window.height)) e (
      with_device-IsStart (window.width, window.height) now frames _ (new-IsMade gpu (some window)))

  -- Where overflow is not checked, and whatever the surface answers: a demo that has come up never
  -- panics and never hangs in a tick. It leaves its loop exactly if one of its events is the closing of
  -- its own window, Escape pressed in it, or a drawing of it for which the surface is out of memory.
  -- Its device keeps the size that the window had at the start, whatever sizes the window is given.
  pub demo-leaves :
      (now : c.Instant) (frames : List Frame) (window : WindowInfo gpu) (a : DemoApp)
      (es : List DemoEvent)
      → prepare gpu c (w_scene gpu c Frame) now frames (ok window) ≡ returned (ok a)
      → IsSafe (window.width, window.height) (run demo_step (looping a) es)
        × (is_looping (run demo_step (looping a) es) ≡ not (any_leaves es))
  demo-leaves now frames window a es e =
      run-Steps (window.width, window.height) es false (looping a)
        (prepare-IsReady now frames window a e, refl)
