-- ===== src/Rist/Store/Owners.antt =====
-- How often a block of the C heap is owned: the invariant of the wrappers of wolf/src/stream/rist.rs.
use wolf_engine.Base.{
  ℕ, zero, suc, ◌+◌, ◌≤◌, ◌<◌, ◌≡◌, refl, true, Option, none, some, List, [], ◌∷◌, ◌==◌,
  if◌then◌else◌, arith,
}
use wolf_engine.Rist.Store.{Ptr, World, write, calloc, owner, remove}

abbrev pub count : Ptr → List Ptr → ℕ
count a [] = 0
count a (p ∷ ps) = (if p == a then 1 else 0) + count a ps

abbrev pub live {ℓ} : {C : Type ℓ} → Option C → ℕ
live none = 0
live (some c) = 1

live_le {ℓ} : {C : Type ℓ} (o : Option C) → live o ≤ 1
live_le none = omega arith
live_le (some c) = omega arith

-- Every block is owned once, or is one of those that `lost` counts, which nobody will free.
pub record IsOwned {C : Type 0} (lost : Ptr → ℕ) (w : World C) : Type 0 where
  pub not_null : 0 < w.heap.next
  pub unused : (a : Ptr) → w.heap.next ≤ a → w.heap.cell a ≡ none
  pub owned : (a : Ptr) → 0 < a → count a w.owners + lost a ≡ live (w.heap.cell a)

pub count-remove :
    (a : Ptr) (i : ℕ) (ps : List Ptr) (p : Ptr)
    → owner i ps ≡ some p
    → count a (remove i ps) + (if p == a then 1 else 0) ≡ count a ps
unfolding owner remove
count-remove a i [] p e = ground arith
count-remove a zero (q ∷ ps) p e = grind arith
count-remove a (suc i) (q ∷ ps) p e = omega (arith, count-remove a i ps p e)

module _ {C : Type 0} (lost : Ptr → ℕ) where
  -- What a variable points to is a block, or it is null.
  pub owner-live :
      (w : World C) (i : ℕ) (p : Ptr)
      → IsOwned lost w
      → owner i w.owners ≡ some p
      → 0 < p
      → (c : C) × (w.heap.cell p ≡ some c)
  owner-live w i p ok e pos =
      live-some (w.heap.cell p) (ground (arith, ok.owned p pos, count-remove p i w.owners p e))
    where
      live-some : (o : Option C) → 0 < live o → (c : C) × (o ≡ some c)
      live-some none h = absurd (omega arith)
      live-some (some c) h = (c, refl)

  -- A new block with an owner.
  pub calloc-IsOwned :
      (w : World C) (c : C)
      → IsOwned lost w
      → IsOwned lost (record { heap = (calloc true c w.heap).1; owners = w.heap.next ∷ w.owners })
  unfolding calloc write
  calloc-IsOwned w c ok = record {
    not_null = omega arith;
    unused = λ a h. grind (arith, ok.unused a);
    owned = λ a h. grind (arith, ok.owned a h, ok.unused a);
  }

  -- A block's content changes.
  pub write-IsOwned :
      (w : World C) (p : Ptr) (c c' : C)
      → w.heap.cell p ≡ some c
      → IsOwned lost w
      → IsOwned lost (record w { heap = write w.heap p (some c') })
  unfolding write
  write-IsOwned w p c c' e ok = record {
    not_null = ok.not_null;
    unused = λ a h. grind (arith, ok.unused a h);
    owned = λ a h. grind (arith, ok.owned a h);
  }

  -- An owner goes out of scope, and the block with it.
  pub free-IsOwned :
      (w : World C) (i : ℕ) (p : Ptr)
      → owner i w.owners ≡ some p
      → 0 < p
      → IsOwned lost w
      → IsOwned lost (record { heap = write w.heap p none; owners = remove i w.owners })
  unfolding write
  free-IsOwned w i p e pos ok = record {
    not_null = ok.not_null;
    unused = λ a h. grind (arith, ok.unused a h);
    owned = λ a h. grind (
      arith,
      ok.owned a h,
      ok.owned p pos,
      live_le (w.heap.cell p),
      count-remove a i w.owners p e,
      count-remove p i w.owners p e,
    );
  }

-- `lost` with one block more in it.
abbrev pub and_lost : Ptr → (Ptr → ℕ) → Ptr → ℕ
and_lost p lost a = lost a + (if p == a then 1 else 0)

module _ {C : Type 0} (lost : Ptr → ℕ) where
  -- A new block without an owner is lost.
  pub leak-IsOwned :
      (w : World C) (c : C)
      → IsOwned lost w
      → IsOwned (and_lost w.heap.next lost) (record w { heap = (calloc true c w.heap).1 })
  unfolding calloc write
  leak-IsOwned w c ok = record {
    not_null = omega arith;
    unused = λ a h. grind (arith, ok.unused a);
    owned = λ a h. grind (arith, ok.owned a h, ok.unused a);
  }
