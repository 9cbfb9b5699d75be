-- ===== src/System/Screens.antt =====
-- wolf/src/system/os/screen.rs: the screens to capture. The crate scrap is the parameter `Scrap`.
use Prim.Native.String.{◌++◌ as ◌<>◌}
use mathlib.Core.List.{append-nil, append_assoc}
use wolf_engine.Base.{
  ℕ, ◌≡◌, ◌∙◌, ◌⊎◌, inl, inr, ap, sym, refl, Result-cases, List, [], ◌∷◌, ◌++◌, String, Result, ok,
  err, map_err, ◌>>=◌,
}

pub record Scrap : Type 1 where
  pub Display : Type 0
  pub Capturer : Type 0
  pub Frame : Type 0
  pub IoError : Type 0
  pub show_error : IoError → String
  pub primary : Result IoError Display
  pub all : Result IoError (List Display)
  pub width : Display → ℕ
  pub height : Display → ℕ
  pub new : Display → Result IoError Capturer
  pub frame : Capturer → Capturer × Result IoError Frame

module _ (scrap : Scrap) where
  open scrap use {Display, Capturer, Frame, IoError, show_error}

  pub record Screen : Type 0 where
    pub capturer : Capturer
    pub height : ℕ
    pub width : ℕ

  abbrev pub no_primary : IoError → String
  no_primary e =
      "couldn't find primary display, because "
      <> (show_error e <> ". trace info screen::new_primary")

  abbrev pub no_capture : IoError → String
  no_capture e =
      "couldn't capture from display because "
      <> (show_error e <> ". trace info screen::new_primary")

  abbrev pub no_displays : IoError → String
  no_displays e =
      "couldn't find primary display because " <> (show_error e <> " trace info screen::new_all")

  abbrev pub no_capture_of_all : IoError → String
  no_capture_of_all e =
      "couldn't capture from display. because " <> (show_error e <> " trace info screen::new_all")

  abbrev pub screen_of : Display → Capturer → Screen
  screen_of d c = record { capturer = c; height = scrap.height d; width = scrap.width d }

  -- Screen::new_primary
  unfoldable pub new_primary : Result String Screen
  new_primary = map_err no_primary scrap.primary >>= λ d.
      map_err no_capture (scrap.new d) >>= λ c. ok (screen_of d c)

  -- The loop of Screen::new_all, with the instances that it has pushed
  unfoldable pub push_all : List Screen → List Display → Result String (List Screen)
  push_all instances [] = ok instances
  push_all instances (d ∷ ds) =
      map_err no_capture_of_all (scrap.new d) >>= λ c. push_all (instances ++ screen_of d c ∷ []) ds

  unfoldable pub new_all : Result String (List Screen)
  unfolding push_all
  new_all = map_err no_displays scrap.all >>= push_all []

  -- Screen::capture
  unfoldable pub capture : Screen → Screen × Result IoError Frame
  capture s = let (c, r) = scrap.frame s.capturer in (record s { capturer = c }, r)

  -- One screen for each display, in order.
  abbrev pub AreOf : List Display → List Screen → Type 0
  AreOf [] [] = Unit
  AreOf [] (s ∷ ss) = ⊥
  AreOf (d ∷ ds) [] = ⊥
  AreOf (d ∷ ds) (s ∷ ss) =
      ((c : Capturer) × (scrap.new d ≡ ok c) × (s ≡ screen_of d c)) × AreOf ds ss

  abbrev pub AnyFails : List Display → Type 0
  AnyFails [] = ⊥
  AnyFails (d ∷ ds) = ((e : IoError) × (scrap.new d ≡ err e)) ⊎ AnyFails ds

  push_all-cases :
      (instances : List Screen) (ds : List Display)
      → ((ss : List Screen) × (push_all instances ds ≡ ok (instances ++ ss)) × AreOf ds ss)
        ⊎ ((m : String) × (push_all instances ds ≡ err m) × AnyFails ds)
  unfolding push_all
  push_all-cases instances [] = inl ([], ap ok (sym (append-nil instances)), tt)
  push_all-cases instances (d ∷ ds) = elim (Result-cases (scrap.new d)) [
    | inr (e, failed) ↦ inr (no_capture_of_all e, rw failed refl, inl (e, failed))
    | inl (c, made) ↦ elim (push_all-cases (instances ++ screen_of d c ∷ []) ds) [
      | inr (m, failed, any) ↦ inr (m, rw made failed, inr any)
      | inl (ss, pushed, are) ↦ inl (
        screen_of d c ∷ ss,
        rw made (pushed ∙ ap ok (append_assoc instances (screen_of d c ∷ []) ss)),
        ((c, made, refl), are),
      )
    ]
  ]

  -- Where the displays can be listed, `new_all` gives one screen for each of them, in order and with its
  -- size, or else it is an error, and one of them cannot be captured.
  pub new_all-AreOf :
      (ds : List Display)
      → scrap.all ≡ ok ds
      → ((ss : List Screen) × (new_all ≡ ok ss) × AreOf ds ss)
        ⊎ ((m : String) × (new_all ≡ err m) × AnyFails ds)
  unfolding new_all
  new_all-AreOf ds listed =
      let start = ap (λ r. map_err no_displays r >>= push_all []) listed in
      elim (push_all-cases [] ds) [
        | inl (ss, pushed, are) ↦ inl (ss, start ∙ pushed, are)
        | inr (m, failed, any) ↦ inr (m, start ∙ failed, any)
      ]
