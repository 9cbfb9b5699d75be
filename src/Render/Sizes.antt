-- ===== src/Render/Sizes.antt =====
-- GraphicsDevice (wolf/src/render/graphics_device.rs): the size, the configuration and the surface agree.
use wolf_engine.Base.{
  ℕ, ◌≡◌, ◌∙◌, ap, refl, Bool, true, false, ◌&&◌, Option, none, some, List, [], ◌∷◌, Result, ok,
  err, String, returned, panicked, subst, Outcome, ltb, if◌then◌else◌,
}
use wolf_engine.Render
use wolf_engine.Render.{Gpu, Config, GraphicsDevice, WindowInfo, new, resize, target, reconfigure}

abbrev pub is_some {ℓ} : {A : Type ℓ} → Option A → Bool
is_some none = false
is_some (some a) = true

module _ (gpu : Gpu) where
  -- The surface, if there is one, was last configured with this configuration.
  abbrev pub IsCurrent : gpu.Device → Config gpu.Format → Option gpu.Surface → Type 0
  IsCurrent device config none = Unit
  IsCurrent device config (some s) =
      (before : gpu.Surface) × (s ≡ gpu.configure before device config)

  pub record IsConsistent (g : GraphicsDevice gpu) : Type 0 where
    pub width : g.config.width ≡ g.size.0
    pub height : g.config.height ≡ g.size.1
    pub current : IsCurrent g.device g.config g.surface

  if-size :
      (b : Bool) (g g' : GraphicsDevice gpu)
      → (if b then g else g').size ≡ (if b then g.size else g'.size)
  if-size true g g' = refl
  if-size false g g' = refl

  -- The size after a list of requests: the last one with no side of 0, if any.
  abbrev pub last_size : ℕ × ℕ → List (ℕ × ℕ) → ℕ × ℕ
  last_size size [] = size
  last_size size ((w, h) ∷ more) = last_size (if ltb 0 w && ltb 0 h then (w, h) else size) more

  abbrev pub resize_all : List (ℕ × ℕ) → GraphicsDevice gpu → GraphicsDevice gpu
  resize_all [] g = g
  resize_all (size ∷ more) g = resize_all more (resize gpu size g)

  reconfigure-IsCurrent :
      (device : gpu.Device) (config : Config gpu.Format) (s : Option gpu.Surface)
      → IsCurrent device config (reconfigure gpu device config s)
  unfolding reconfigure
  reconfigure-IsCurrent device config none = tt
  reconfigure-IsCurrent device config (some s) = (s, refl)

  pub resize-IsConsistent :
      (size : ℕ × ℕ) (g : GraphicsDevice gpu) → IsConsistent g → IsConsistent (resize gpu size g)
  unfolding resize
  resize-IsConsistent (w, h) g ok_g = on_sides (ltb 0 w && ltb 0 h)
    where
      config : Config gpu.Format
      config = record g.config { width = w; height = h }

      resized : GraphicsDevice gpu
      resized = record g {
        config = config;
        size = (w, h);
        surface = reconfigure gpu g.device config g.surface;
      }

      on_sides : (b : Bool) → IsConsistent (if b then resized else g)
      on_sides true = record {
        width = refl;
        height = refl;
        current = reconfigure-IsCurrent g.device config g.surface;
      }
      on_sides false = ok_g

  -- What `new` returns has this size, and a surface if this says so.
  abbrev pub IsMade : ℕ × ℕ → Bool → Outcome (Result String (GraphicsDevice gpu)) → Type 0
  IsMade size on_screen panicked = Unit
  IsMade size on_screen (returned (err m)) = Unit
  IsMade size on_screen (returned (ok g)) =
      IsConsistent g × (g.size ≡ size) × (is_some g.surface ≡ on_screen)

  for_surface-IsMade :
      (adapter : gpu.Adapter) (d : gpu.Device × gpu.Queue) (size : ℕ × ℕ) (s : gpu.Surface)
      (formats : List gpu.Format)
      → IsMade size true (returned (Render.for_surface gpu adapter d size s formats))
  unfolding Render.for_surface Render.config_of
  for_surface-IsMade adapter d size s [] = tt
  for_surface-IsMade adapter (device, queue) (w, h) s (format ∷ formats) =
      (record { width = refl; height = refl; current = (s, refl) }, refl, refl)

  with_adapter-IsMade :
      (size : ℕ × ℕ) (surface : Option gpu.Surface) (adapter : gpu.Adapter)
      (r : Result gpu.Failure (gpu.Device × gpu.Queue))
      → IsMade size (is_some surface) (Render.with_adapter gpu size surface adapter r)
  unfolding Render.with_adapter Render.with_device Render.config_of
  with_adapter-IsMade size surface adapter (err e) = tt
  with_adapter-IsMade size (some s) adapter (ok d) =
      for_surface-IsMade adapter d size s (gpu.get_supported_formats s adapter)
  with_adapter-IsMade (w, h) none adapter (ok (device, queue)) =
      (record { width = refl; height = refl; current = tt }, refl, refl)

  on_adapter-IsMade :
      (size : ℕ × ℕ) (surface : Option gpu.Surface) (adapter : Option gpu.Adapter)
      → IsMade size (is_some surface) (Render.on_adapter gpu size surface adapter)
  unfolding Render.on_adapter
  on_adapter-IsMade size surface none = tt
  on_adapter-IsMade size surface (some adapter) =
      with_adapter-IsMade size surface adapter (gpu.request_device adapter)

  pub new-IsMade :
      (window : Option (WindowInfo gpu))
      → IsMade (target gpu window).0 (is_some (target gpu window).1) (new gpu window)
  unfolding new
  new-IsMade window =
      let (size, surface) = target gpu window in
      on_adapter-IsMade size surface (gpu.request_adapter surface)

  pub resize-size :
      (size : ℕ × ℕ) (g : GraphicsDevice gpu)
      → (resize gpu size g).size ≡ (if ltb 0 size.0 && ltb 0 size.1 then size else g.size)
  unfolding resize
  resize-size (w, h) g = if-size (ltb 0 w && ltb 0 h) _ g

  -- Resizing a device to its own size changes neither the size nor whether there is a surface.
  pub resize-same :
      (g : GraphicsDevice gpu)
      → ((resize gpu g.size g).size ≡ g.size)
        × (is_some (resize gpu g.size g).surface ≡ is_some g.surface)
  unfolding resize reconfigure
  resize-same g =
      on_sides (ltb 0 g.size.0 && ltb 0 g.size.1) g.surface
        (record g.config { width = g.size.0; height = g.size.1 })
    where
      on_sides :
          (b : Bool) (s : Option gpu.Surface) (config : Config gpu.Format)
          → ((if b
                then record g {
                  config = config;
                  size = g.size;
                  surface = reconfigure gpu g.device config s;
                }
                else record g { surface = s }).size
              ≡ g.size)
            × (is_some
                  (if b
                    then record g {
                      config = config;
                      size = g.size;
                      surface = reconfigure gpu g.device config s;
                    }
                    else record g { surface = s }).surface
                ≡ is_some s)
      on_sides true none config = (refl, refl)
      on_sides true (some s) config = (refl, refl)
      on_sides false s config = (refl, refl)

  resize_all-sizes :
      (sizes : List (ℕ × ℕ)) (g : GraphicsDevice gpu)
      → IsConsistent g
      → IsConsistent (resize_all sizes g) × ((resize_all sizes g).size ≡ last_size g.size sizes)
  resize_all-sizes [] g ok_g = (ok_g, refl)
  resize_all-sizes (size ∷ more) g ok_g =
      let (ok_g', e) =
        resize_all-sizes more (resize gpu size g) (resize-IsConsistent size g ok_g) in
      (ok_g', e ∙ ap (λ n. last_size n more) (resize-size size g))

  -- A device that `new` returns, and that is then resized any number of times, has the size of the last
  -- request without a side of 0, or else the size of its window (800 by 600 without one). Its
  -- configuration has that size, and its surface, if there is one, was last configured with it.
  pub resized-IsConsistent :
      (window : Option (WindowInfo gpu)) (g : GraphicsDevice gpu) (sizes : List (ℕ × ℕ))
      → new gpu window ≡ returned (ok g)
      → IsConsistent (resize_all sizes g)
        × ((resize_all sizes g).size ≡ last_size (target gpu window).0 sizes)
  resized-IsConsistent window g sizes e =
      let (made, size, on_screen) =
        subst (IsMade (target gpu window).0 (is_some (target gpu window).1)) e
          (new-IsMade window) in
      let (kept, last) = resize_all-sizes sizes g made in
      (kept, last ∙ ap (λ n. last_size n sizes) size)
