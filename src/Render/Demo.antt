-- ===== src/Render/Demo.antt =====
-- `run` of wolf-demo/src/main.rs: a window, a device and a scene in the event loop of winit, and WScene.
--
-- An event carries what the world does while it is handled. `own` is the id of the demo's window. The
-- parts for wasm32 are left out, and so is the test() that `load` runs.
pub mod Exits
use Prim.Native.String.{◌++◌ as ◌<>◌}
use wolf_engine.Base.{
  ℕ, suc, Bool, true, false, ◌&&◌, Option, none, some, List, [], ◌∷◌, ◌++◌, String, Result, ok, err,
  Outcome, returned, panicked, ◌==◌, if◌then◌else◌,
}
use wolf_engine.GameTime.{Clock, GameTime, Ticked, done, overflow, out_of_fuel, default_time, tick}
use wolf_engine.Render.{
  Gpu, WindowInfo, GraphicsDevice, Scene, SurfaceError, timeout, outdated, lost, out_of_memory, new,
  resize, get_size,
}
use wolf_engine.Stream
use wolf_engine.Stream.{Phase, looping, closed}

pub data ElementState : Type 0 where
  pressed released : ElementState

pub data KeyCode : Type 0 where
  escape other_key : KeyCode

pub data WindowEvent : Type 0 where
  close_requested : WindowEvent
  keyboard_input : ElementState → Option KeyCode → WindowEvent
  resized : ℕ × ℕ → WindowEvent
  other_window_event : WindowEvent

pub data Event (Instant World : Type 0) : Type 0 where
  window_event : WindowEvent → ℕ → Event Instant World
  redraw_requested : ℕ → Instant → World → Event Instant World
  redraw_events_cleared other_event : Event Instant World

-- Why the loop is left: `ControlFlow::Exit`, or not by the code, but in a tick that does not end.
pub data Left : Type 0 where
  exit stuck : Left

-- Which window events the `match` answers with `ControlFlow::Exit`
unfoldable pub asks_exit : WindowEvent → Bool
asks_exit close_requested = true
asks_exit (keyboard_input pressed (some escape)) = true
asks_exit (keyboard_input pressed (some other_key)) = false
asks_exit (keyboard_input pressed none) = false
asks_exit (keyboard_input released key) = false
asks_exit (resized size) = false
asks_exit other_window_event = false

module _ (gpu : Gpu) (c : Clock) where
  module _ (Frame : Type 0) where
    -- `map_or_else` of the surface: what `get_current_texture` gives, if there is one.
    unfoldable pub current_texture :
        Option gpu.Surface → Result SurfaceError Frame → Result SurfaceError Frame
    current_texture none texture = err outdated
    current_texture (some s) texture = texture

    -- WScene::render, which presents the frame that it draws on
    unfoldable pub present :
        List Frame
        → GraphicsDevice gpu
        → GameTime c
        → Result SurfaceError Frame
        → List Frame × GraphicsDevice gpu × GameTime c × Result SurfaceError (Unit {0})
    present frames g t (err e) = (frames, g, t, err e)
    present frames g t (ok frame) = (frames ++ frame ∷ [], g, t, ok tt)

    unfoldable pub render :
        Result SurfaceError Frame
        → List Frame
        → GraphicsDevice gpu
        → GameTime c
        → List Frame × GraphicsDevice gpu × GameTime c × Result SurfaceError (Unit {0})
    unfolding present current_texture
    render texture frames g t = present frames g t (current_texture g.surface texture)

    abbrev pub w_scene : Scene gpu c
    w_scene = record {
      St = List Frame;
      World = Result SurfaceError Frame;
      Problem = Unit {0};
      load = λ frames g. (frames, g, ok tt);
      render = render;
    }

  module _ (scene : Scene gpu c) where
    open scene use {St, World, Problem}

    pub record App : Type 0 where
      pub device : GraphicsDevice gpu
      pub time : GameTime c
      pub scene_state : St
      pub redraws : ℕ
      pub logged : List SurfaceError

    -- `match render_res`
    unfoldable pub after_render :
        App → St × GraphicsDevice gpu × GameTime c × Result SurfaceError (Unit {0}) → Phase App Left
    unfolding resize
    after_render a (s, g, t, ok _) = looping (record a { device = g; time = t; scene_state = s })
    after_render a (s, g, t, err lost) =
        looping (record a { device = resize gpu (get_size gpu g) g; time = t; scene_state = s })
    after_render a (s, g, t, err out_of_memory) =
        closed (record a { device = g; time = t; scene_state = s }) exit
    after_render a (s, g, t, err timeout) =
        looping
          (record a { device = g; time = t; scene_state = s; logged = a.logged ++ timeout ∷ [] })
    after_render a (s, g, t, err outdated) =
        looping
          (record a { device = g; time = t; scene_state = s; logged = a.logged ++ outdated ∷ [] })

    unfoldable pub after_tick : World → App → Ticked c (Unit {0}) → Phase App Left
    unfolding after_render
    after_tick world a (done t _) = after_render a (scene.render world a.scene_state a.device t)
    after_tick world a overflow = Stream.panicked
    after_tick world a out_of_fuel = closed a stuck

    module _ (checks : Bool) (fuel own : ℕ) where
      -- The closure that `event_loop.run` is given
      unfoldable pub step : App → Event c.Instant World → Phase App Left
      unfolding after_tick asks_exit
      step a (window_event e id) = if (id == own) && asks_exit e then closed a exit else looping a
      step a (redraw_requested id now world) =
          let redrawn = after_tick world a (tick c checks fuel now a.time) in
          if id == own then redrawn else looping a
      step a redraw_events_cleared = looping (record a { redraws = suc a.redraws })
      step a other_event = looping a

    -- The error of `load` is logged, and the loop starts all the same.
    unfoldable pub loaded : GameTime c → St × GraphicsDevice gpu × Result Problem (Unit {0}) → App
    loaded t (s, g, r) = record { device = g; time = t; scene_state = s; redraws = 0; logged = [] }

    unfoldable pub with_device :
        c.Instant → St → Outcome (Result String (GraphicsDevice gpu)) → Outcome (Result String App)
    unfolding loaded
    with_device now s panicked = panicked
    with_device now s (returned (err m)) = returned (err m)
    with_device now s (returned (ok g)) =
        returned (ok (loaded (default_time c now) (scene.load s g)))

    -- `run` up to its loop, by what building the window gives
    unfoldable pub prepare :
        c.Instant → St → Result String (WindowInfo gpu) → Outcome (Result String App)
    unfolding with_device new
    prepare now s (err e) = returned (err ("could not create window " <> e))
    prepare now s (ok window) = with_device now s (new gpu (some window))
