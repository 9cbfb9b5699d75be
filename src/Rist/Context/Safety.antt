-- ===== src/Rist/Context/Safety.antt =====
-- rist (wolf/src/stream/rist.rs) and the heap, and what a context's profile decides.
use Prim.Native.String.{◌++◌ as ◌<>◌}
use wolf_engine.Base.{
  ℕ, ◌≤◌, ◌≡◌, ◌∙◌, inl, inr, ap, refl, Bool, true, false, ◌||◌, none, some, List, ◌∷◌, String, ok,
  err, if◌then◌else◌, arith, Option-cases, Bool-cases,
}
use wolf_engine.Base.Int.{ℤ, pos, negsuc}
use wolf_engine.Rist.Store.{Ptr, Heap, World, write, calloc, free, owner, remove, empty, run}
use wolf_engine.Rist.Store.Owners.{count, owner-live, and_lost}
use wolf_engine.Rist.Store.Sound.{
  blocks_at, at_most, IsSound, owner_pos, calloc-IsSound, free-IsSound, leak-IsSound, empty-IsSound,
  run-kept,
}
use wolf_engine.Rist.Levels.{CtxMode, Profile, simple, main, advanced, LogLevel, profile_as_i32}
use wolf_engine.Rist.Context
use wolf_engine.Rist.Context.{
  Context, Init, Rist, Command, create, clone, call, leave, step, init, new, created, is_zero,
  is_minus_one,
}
use wolf_engine.Stream.Loops.{All}

abbrev pub copies_nothing : Command → Bool
copies_nothing (create i mode profile loss level) = true
copies_nothing (clone i) = false
copies_nothing (call i) = true
copies_nothing (leave i) = true

module _ (lost : Ptr → ℕ) (w : World Context) (sound : IsSound lost w) where
  leave_kept : (i : ℕ) → (w' : World Context) × (step w (leave i) ≡ some w') × IsSound lost w'
  unfolding step Context.on_leave Context.drop Context.dropped free
  leave_kept i = elim (Option-cases (owner i w.owners)) [
    | inl e ↦ (w, rw (e) refl, sound)
    | inr (p, e) ↦
        let pos_p = owner_pos lost w sound i p e in
        let (c, cell) = owner-live lost w i p sound.is_owned e pos_p in
        (
          record { heap = write w.heap p none; owners = remove i w.owners },
          ground (arith, e, pos_p, cell),
          free-IsSound lost w sound i p e,
        )
  ]

  call_kept : (i : ℕ) → step w (call i) ≡ some w
  unfolding step Context.on_call Context.called
  call_kept i = elim (Option-cases (owner i w.owners)) [
    | inl e ↦ rw (e) refl
    | inr (p, e) ↦
        let (c, cell) = owner-live lost w i p sound.is_owned e (owner_pos lost w sound i p e) in
        ground (arith, e, cell)
  ]

  create_kept :
      (i : Init) (mode : CtxMode) (profile : Profile) (loss : ℕ) (level : LogLevel)
      → (lost' : Ptr → ℕ) × (w' : World Context) × (step w (create i mode profile loss level)
          ≡ some w')
        × IsSound lost' w'
  unfolding step Context.enter new Context.after_init Context.drop init calloc free
  create_kept i mode profile loss level =
      let c : Context = record { profile = profile_as_i32 profile; loss_percentage = loss } in
      let full : Heap Context = (calloc true c w.heap).1 in
      elim (Bool-cases i.memory) [
        | inr no_memory ↦ (lost, w, ground (arith, no_memory), sound)
        | inl memory ↦ elim (Bool-cases (is_zero i.logging)) [
          | inr no_log ↦ (
            and_lost w.heap.next lost,
            record w { heap = full },
            ground (arith, memory, no_log),
            leak-IsSound lost w sound c,
          )
          | inl log ↦ elim (Bool-cases (is_zero (created i mode))) [
            | inr failed ↦ (
              and_lost w.heap.next lost,
              record w { heap = full },
              ground (arith, memory, log, failed),
              leak-IsSound lost w sound c,
            )
            | inl made ↦ (
              lost,
              record { heap = full; owners = w.heap.next ∷ w.owners },
              ground (arith, memory, log, made),
              calloc-IsSound lost w sound c,
            )
          ]
        ]
      ]

kept :
    (w : World Context) (k : Command)
    → copies_nothing k ≡ true
    → ((lost : Ptr → ℕ) × IsSound lost w)
    → (w' : World Context) × (step w k ≡ some w') × ((lost : Ptr → ℕ) × IsSound lost w')
kept w (create i mode profile loss level) good (lost, h) =
    let (lost', w', e, h') = create_kept lost w h i mode profile loss level in (w', e, (lost', h'))
kept w (clone i) good h = absurd (ground arith)
kept w (call i) good (lost, h) = (w, call_kept lost w h i, (lost, h))
kept w (leave i) good (lost, h) = let (w', e, h') = leave_kept lost w h i in (w', e, (lost, h'))

-- A program that makes contexts, whatever librist answers, calls their methods and drops them, but
-- clones none, runs to its end without undefined behaviour, and at its end every wrapper in scope has
-- a context of its own.
pub contexts-owned_once :
    (ks : List Command)
    → All (λ k. copies_nothing k ≡ true) ks
    → (w : World Context) × (run step (some empty) ks ≡ some w)
      × ((p : Ptr) → count p w.owners ≤ blocks_at w.heap p)
contexts-owned_once ks good =
    let (w, e, (lost, sound)) =
      run-kept step copies_nothing (λ w. (lost : Ptr → ℕ) × IsSound lost w) kept ks empty good
        ((λ a. 0), empty-IsSound) in
    (w, e, (λ p. at_most lost w sound p))

abbrev oob_text : String
oob_text = "could not set out of band callback for "

abbrev is_simple : Profile → Bool
is_simple simple = true
is_simple main = false
is_simple advanced = false

new-made :
    (i : Init) (mode : CtxMode) (profile : Profile) (loss : ℕ) (level : LogLevel)
    (h h' : Heap Context) (r : Rist)
    → new i mode profile loss level h ≡ some (h', ok r)
    → (h'.cell r.ctx ≡ some (record { profile = profile_as_i32 profile; loss_percentage = loss }))
      × (r.url ≡ "")
unfolding new Context.after_init Context.drop init calloc free write
new-made i mode profile loss level h h' r e = elim (Bool-cases i.memory) [
  | inr no_memory ↦ absurd (ground (arith, no_memory))
  | inl memory ↦ elim (Bool-cases (is_zero i.logging)) [
    | inr no_log ↦ absurd (ground (arith, memory, no_log))
    | inl log ↦ elim (Bool-cases (is_zero (created i mode))) [
      | inr failed ↦ absurd (ground (arith, memory, log, failed))
      | inl made ↦ ground (arith, memory, log, made)
    ]
  ]
]

oob_of :
    (h : Heap Context) (r : Rist) (answer : ℤ) (c : Context)
    → h.cell r.ctx ≡ some c
    → r.url ≡ ""
    → Context.set_out_of_band_callback h r answer
      ≡ some (Context.checked oob_text (Context.out_of_band_ret h r answer c))
unfolding Context.set_out_of_band_callback
oob_of h r answer c cell url =
    ap
      (λ o. elim o [
        | none ↦ none
        | some c ↦ some (Context.checked (oob_text <> r.url) (Context.out_of_band_ret h r answer c))
      ])
      cell
    ∙ ap (λ u. some (Context.checked (oob_text <> u) (Context.out_of_band_ret h r answer c))) url

checked_if :
    (b : Bool) (text : String)
    → Context.checked text (if b then negsuc 0 else pos 0) ≡ (if b then err text else ok tt)
checked_if true text = refl
checked_if false text = refl

-- On a context that `new` has made, the callback for out-of-band data is refused if the profile is the
-- simple one, and otherwise exactly if librist answers -1.
pub new-set_out_of_band :
    (i : Init) (mode : CtxMode) (profile : Profile) (loss : ℕ) (level : LogLevel)
    (h h' : Heap Context) (r : Rist) (answer : ℤ)
    → new i mode profile loss level h ≡ some (h', ok r)
    → Context.set_out_of_band_callback h' r answer
      ≡ some (if is_simple profile || is_minus_one answer then err oob_text else ok tt)
unfolding Context.set_out_of_band_callback Context.out_of_band_ret profile_as_i32
new-set_out_of_band i mode simple loss level h h' r answer e =
    let (cell, url) = new-made i mode simple loss level h h' r e in oob_of h' r answer _ cell url
new-set_out_of_band i mode main loss level h h' r answer e =
    let (cell, url) = new-made i mode main loss level h h' r e in
    oob_of h' r answer _ cell url ∙ ap some (checked_if (is_minus_one answer) oob_text)
new-set_out_of_band i mode advanced loss level h h' r answer e =
    let (cell, url) = new-made i mode advanced loss level h h' r e in
    oob_of h' r answer _ cell url ∙ ap some (checked_if (is_minus_one answer) oob_text)
