-- ===== src/Rist/Store.antt =====
-- The C heap that the wrappers of wolf/src/stream/rist.rs point into, and who owns what of it.
pub mod Owners
pub mod Sound
use wolf_engine.Base.{
  ℕ, zero, suc, ◌+◌, Bool, true, false, Option, none, some, List, [], ◌∷◌, ◌==◌, if◌then◌else◌,
}

-- 0 is `std::ptr::null_mut()`.
abbrev pub Ptr : Type 0
Ptr = ℕ

-- Addresses from `next` on have not been handed out yet.
pub record Heap (C : Type 0) : Type 0 where
  pub next : Ptr
  pub cell : Ptr → Option C

module _ {C : Type 0} where
  unfoldable pub write : Heap C → Ptr → Option C → Heap C
  write h p c = record h { cell = λ a. if a == p then c else h.cell a }

  -- `calloc`, which the flag says whether it gives memory
  unfoldable pub calloc : Bool → C → Heap C → Ptr × Heap C
  unfolding write
  calloc false c h = (0, h)
  calloc true c h = (h.next, record (write h h.next (some c)) { next = suc h.next })

  -- `free` of what is no block of the heap is undefined: `none`.
  unfoldable pub free : Heap C → Ptr → Option (Heap C)
  unfolding write
  free h p =
      if p == 0 then some h else elim (h.cell p) [ none ↦ none | some c ↦ some (write h p none) ]

-- The variables of a program that hold a wrapper: the one that came last is number 0.
unfoldable pub owner : ℕ → List Ptr → Option Ptr
owner i [] = none
owner zero (p ∷ ps) = some p
owner (suc i) (p ∷ ps) = owner i ps

unfoldable pub remove : ℕ → List Ptr → List Ptr
remove i [] = []
remove zero (p ∷ ps) = ps
remove (suc i) (p ∷ ps) = p ∷ remove i ps

unfoldable pub replace : ℕ → Ptr → List Ptr → List Ptr
replace i q [] = []
replace zero q (p ∷ ps) = q ∷ ps
replace (suc i) q (p ∷ ps) = p ∷ replace i q ps

pub record World (C : Type 0) : Type 0 where
  pub heap : Heap C
  pub owners : List Ptr

unfoldable pub empty : {C : Type 0} → World C
empty = record { heap = record { next = 1; cell = λ a. none }; owners = [] }

-- A program: `none` is undefined behaviour, from which there is no way back.
unfoldable pub run :
    {C K : Type 0} → (World C → K → Option (World C)) → Option (World C) → List K → Option (World C)
run step none ks = none
run step (some w) [] = some w
run step (some w) (k ∷ ks) = run step (step w k) ks
