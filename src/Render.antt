-- ===== src/Render.antt =====
-- wolf/src/render/graphics_device.rs and scene.rs: the device that a scene draws with.
--
-- wgpu is the parameter `Gpu`: its objects are values, and `configure` is the surface that it leaves.
pub mod Sizes
pub mod Demo
mod Examples
use wolf_engine.Base.{
  ℕ, Bool, true, false, ◌&&◌, Option, none, some, List, [], ◌∷◌, String, Result, ok, err, Outcome,
  returned, panicked, ltb, if◌then◌else◌,
}
use wolf_engine.GameTime.{Clock, GameTime}

-- wgpu::SurfaceConfiguration; the usage and the present mode are the same in every one.
pub record Config (Format : Type 0) : Type 0 where
  pub format : Format
  pub width : ℕ
  pub height : ℕ

pub data SurfaceError : Type 0 where
  timeout outdated lost out_of_memory : SurfaceError

pub record Gpu : Type 1 where
  pub Handle : Type 0
  pub Surface : Type 0
  pub Adapter : Type 0
  pub Device : Type 0
  pub Queue : Type 0
  pub Format : Type 0
  pub Info : Type 0
  pub Failure : Type 0
  pub create_surface : Handle → Surface
  pub request_adapter : Option Surface → Option Adapter
  pub request_device : Adapter → Result Failure (Device × Queue)
  pub get_supported_formats : Surface → Adapter → List Format
  pub rgba32_sint : Format
  pub configure : Surface → Device → Config Format → Surface
  pub get_info : Adapter → Info

module _ (gpu : Gpu) where
  open gpu use {Handle, Surface, Adapter, Device, Queue, Format, Info, Failure}

  pub record WindowInfo : Type 0 where
    pub handle : Handle
    pub width : ℕ
    pub height : ℕ

  pub record GraphicsDevice : Type 0 where
    pub adaptor : Adapter
    pub config : Config Format
    pub device : Device
    pub queue : Queue
    pub size : ℕ × ℕ
    pub surface : Option Surface

  unfoldable pub config_of : Format → ℕ × ℕ → Config Format
  config_of format (width, height) = record { format = format; width = width; height = height }

  -- The device for a window's surface, by the formats that the surface supports.
  unfoldable pub for_surface :
      Adapter → Device × Queue → ℕ × ℕ → Surface → List Format → Result String GraphicsDevice
  unfolding config_of
  for_surface adapter (device, queue) size s [] = err "get_supported_formats returns nothing"
  for_surface adapter (device, queue) size s (format ∷ formats) = ok (record {
    adaptor = adapter;
    config = config_of format size;
    device = device;
    queue = queue;
    size = size;
    surface = some (gpu.configure s device (config_of format size));
  })

  unfoldable pub with_device :
      Adapter → ℕ × ℕ → Option Surface → Device × Queue → Result String GraphicsDevice
  unfolding for_surface config_of
  with_device adapter size (some s) d =
      for_surface adapter d size s (gpu.get_supported_formats s adapter)
  with_device adapter size none (device, queue) = ok (record {
    adaptor = adapter;
    config = config_of gpu.rgba32_sint size;
    device = device;
    queue = queue;
    size = size;
    surface = none;
  })

  -- `request_device(…).await.unwrap()`
  unfoldable pub with_adapter :
      ℕ × ℕ
      → Option Surface
      → Adapter
      → Result Failure (Device × Queue)
      → Outcome (Result String GraphicsDevice)
  unfolding with_device
  with_adapter size surface adapter (err e) = panicked
  with_adapter size surface adapter (ok d) = returned (with_device adapter size surface d)

  unfoldable pub on_adapter :
      ℕ × ℕ → Option Surface → Option Adapter → Outcome (Result String GraphicsDevice)
  unfolding with_adapter
  on_adapter size surface none = returned (err "couldn't create graphics device adaptor")
  on_adapter size surface (some adapter) =
      with_adapter size surface adapter (gpu.request_device adapter)

  -- The size and the surface that `new` takes from the window, if there is one.
  unfoldable pub target : Option WindowInfo → (ℕ × ℕ) × Option Surface
  target (some w) = ((w.width, w.height), some (gpu.create_surface w.handle))
  target none = ((800, 600), none)

  -- GraphicsDevice::new
  unfoldable pub new : Option WindowInfo → Outcome (Result String GraphicsDevice)
  unfolding target on_adapter
  new window =
      let (size, surface) = target window in on_adapter size surface (gpu.request_adapter surface)

  unfoldable pub reconfigure : Device → Config Format → Option Surface → Option Surface
  reconfigure device config none = none
  reconfigure device config (some s) = some (gpu.configure s device config)

  -- GraphicsDevice::resize
  unfoldable pub resize : ℕ × ℕ → GraphicsDevice → GraphicsDevice
  unfolding reconfigure
  resize (width, height) g =
      let config : Config Format = record g.config { width = width; height = height } in
      if ltb 0 width && ltb 0 height
      then record g {
        config = config;
        size = (width, height);
        surface = reconfigure g.device config g.surface;
      }
      else g

  abbrev pub get_size : GraphicsDevice → ℕ × ℕ
  get_size g = g.size

  abbrev pub get_adapter_info : GraphicsDevice → Info
  get_adapter_info g = gpu.get_info g.adaptor

  -- The trait IScene, over the state of what the scene does and what the world does while it renders.
  pub record Scene (c : Clock) : Type 1 where
    pub St : Type 0
    pub World : Type 0
    pub Problem : Type 0
    pub load : St → GraphicsDevice → St × GraphicsDevice × Result Problem (Unit {0})
    pub render :
        World
        → St
        → GraphicsDevice
        → GameTime c
        → St × GraphicsDevice × GameTime c × Result SurfaceError (Unit {0})

  -- A scene that implements neither method.
  abbrev pub default_scene : (c : Clock) → Scene c
  default_scene c = record {
    St = Unit {0};
    World = Unit {0};
    Problem = Unit {0};
    load = λ s g. (s, g, ok tt);
    render = λ w s g t. (s, g, t, ok tt);
  }
