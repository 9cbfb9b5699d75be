-- ===== src/Rist/Store/Sound.antt =====
-- What the wrappers of wolf/src/stream/rist.rs keep of the C heap: no variable is null, every block is owned at most once.
use wolf_engine.Base.{
  ℕ, zero, suc, ◌≤◌, ◌<◌, ◌≡◌, ◌∙◌, ap, refl, Bool, true, Option, none, some, List, [], ◌∷◌, ◌==◌,
  if◌then◌else◌, arith,
}
use wolf_engine.Rist.Store.{Ptr, Heap, World, write, calloc, empty, owner, remove, run}
use wolf_engine.Rist.Store.Owners.{
  count, live, IsOwned, count-remove, calloc-IsOwned, write-IsOwned, free-IsOwned, and_lost,
  leak-IsOwned,
}
use wolf_engine.Stream.Loops.{All}

-- No variable is null, and every block has at most one owner.
pub record IsSound {C : Type 0} (lost : Ptr → ℕ) (w : World C) : Type 0 where
  pub is_owned : IsOwned lost w
  pub no_null : count 0 w.owners ≡ 0

module _ {C : Type 0} (lost : Ptr → ℕ) (w : World C) (ok : IsSound lost w) where
  pub owner_pos : (i : ℕ) (p : Ptr) → owner i w.owners ≡ some p → 0 < p
  owner_pos i zero e = grind (arith, ok.no_null, count-remove 0 i w.owners 0 e)
  owner_pos i (suc p) e = omega arith

  pub calloc-IsSound :
      (c : C)
      → IsSound lost (record { heap = (calloc true c w.heap).1; owners = w.heap.next ∷ w.owners })
  calloc-IsSound c = record {
    is_owned = calloc-IsOwned lost w c ok.is_owned;
    no_null = grind (arith, ok.no_null, ok.is_owned.not_null);
  }

  pub write-IsSound :
      (p : Ptr) (c c' : C)
      → w.heap.cell p ≡ some c
      → IsSound lost (record w { heap = write w.heap p (some c') })
  write-IsSound p c c' e = record {
    is_owned = write-IsOwned lost w p c c' e ok.is_owned;
    no_null = ok.no_null;
  }

  pub free-IsSound :
      (i : ℕ) (p : Ptr)
      → owner i w.owners ≡ some p
      → IsSound lost (record { heap = write w.heap p none; owners = remove i w.owners })
  free-IsSound i p e = record {
    is_owned = free-IsOwned lost w i p e (owner_pos i p e) ok.is_owned;
    no_null = grind (arith, ok.no_null, count-remove 0 i w.owners p e);
  }

  pub leak-IsSound :
      (c : C) → IsSound (and_lost w.heap.next lost) (record w { heap = (calloc true c w.heap).1 })
  leak-IsSound c = record { is_owned = leak-IsOwned lost w c ok.is_owned; no_null = ok.no_null }

-- The blocks at an address: none at null.
abbrev pub blocks_at : {C : Type 0} → Heap C → Ptr → ℕ
blocks_at h p = if p == 0 then 0 else live (h.cell p)

pub at_most :
    {C : Type 0} (lost : Ptr → ℕ) (w : World C)
    → IsSound lost w
    → (p : Ptr) → count p w.owners ≤ blocks_at w.heap p
at_most lost w ok zero = grind (arith, ok.no_null)
at_most lost w ok (suc p) = grind (arith, ok.is_owned.owned (suc p) (omega arith))

pub exactly :
    {C : Type 0} (w : World C)
    → IsSound (λ a. 0) w
    → (p : Ptr) → count p w.owners ≡ blocks_at w.heap p
exactly w ok zero = grind (arith, ok.no_null)
exactly w ok (suc p) = grind (arith, ok.is_owned.owned (suc p) (omega arith))

pub empty-IsSound : {C : Type 0} → IsSound {C = C} (λ a. 0) empty
unfolding empty
empty-IsSound = record {
  is_owned = record { not_null = omega arith; unused = λ a h. refl; owned = λ a h. refl };
  no_null = refl;
}

-- What every command of a kind keeps, a run of such commands keeps, and it does not fault.
pub run-kept :
    {C K : Type 0} (step : World C → K → Option (World C)) (good : K → Bool) (P : World C → Type 0)
    → ((w : World C) (k : K) → good k ≡ true → P w → (w' : World C) × (step w k ≡ some w') × P w')
    → (ks : List K) (w : World C) → All (λ k. good k ≡ true) ks
    → P w
    → (w' : World C) × (run step (some w) ks ≡ some w') × P w'
unfolding run
run-kept step good P keep [] w hs h = (w, refl, h)
run-kept step good P keep (k ∷ ks) w (hk, hs) h =
    let (w1, e1, h1) = keep w k hk h in
    let (w2, e2, h2) = run-kept step good P keep ks w1 hs h1 in
    (w2, ap (λ o. run step o ks) e1 ∙ e2, h2)
