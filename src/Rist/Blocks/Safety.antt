-- ===== src/Rist/Blocks/Safety.antt =====
-- rist_data_block (wolf/src/stream/rist.rs) and the heap: no double free, no use after free, no leak.
use wolf_engine.Base.{ℕ, ◌<◌, ◌≡◌, ◌∙◌, ap, refl, Bool, true, false, none, some, List, ◌∷◌, arith}
use wolf_engine.Rist.Store.{Ptr, Heap, World, write, calloc, free, owner, remove, run}
use wolf_engine.Rist.Store.Owners.{count}
use wolf_engine.Rist.Blocks
use wolf_engine.Rist.Blocks.{
  Block, Librist, Command, default, make, make_from, clone, set_data, read_data, receive, leave,
  drop, step,
}

-- What the code relies on in librist: freeing a block frees it and clears the pointer, and freeing what
-- is no block, and not null, is undefined.
pub record IsLibrist (lib : Librist) : Type 0 where
  pub frees :
      (h : Heap Block) (p : Ptr) (b : Block)
      → h.cell p ≡ some b
      → lib.free2 h p ≡ some (write h p none, 0)
  pub undefined : (h : Heap Block) (p : Ptr) → h.cell p ≡ none → 0 < p → lib.free2 h p ≡ none

-- `new`, `set`, `read` and `drop`.
abbrev pub is_plain : Command → Bool
is_plain default = false
is_plain (make memory) = true
is_plain (make_from p memory) = false
is_plain (clone i) = false
is_plain (set_data i payload len) = true
is_plain (read_data i) = true
is_plain (receive i timeout) = false
is_plain (leave i) = true

module _ (lib : Librist) (spec : IsLibrist lib) where
  drop_live :
      (h : Heap Block) (p : Ptr) (b : Block)
      → 0 < p
      → h.cell p ≡ some b
      → drop lib h p ≡ some (write h p none)
  unfolding drop Blocks.free_data_block Blocks.after_free2 free
  drop_live h p b pos cell = ground (arith, spec.frees h p b cell)

  drop_dead : (h : Heap Block) (p : Ptr) → 0 < p → drop lib (write h p none) p ≡ none
  unfolding drop Blocks.free_data_block Blocks.after_free2 write
  drop_dead h p pos = ground (arith, spec.undefined (write h p none) p (ground arith) pos)

  -- A wrapper that was cloned frees its block, and its clone frees it again: undefined behaviour.
  pub clone-double_free :
      (w : World Block) (i : ℕ) (p : Ptr) (b : Block) (ks : List Command)
      → owner i w.owners ≡ some p
      → 0 < p
      → w.heap.cell p ≡ some b
      → run (step lib) (some w) (clone i ∷ leave 0 ∷ leave i ∷ ks) ≡ none
  unfolding run step Blocks.on_clone Blocks.on_leave Blocks.with_heap owner remove
  clone-double_free w i p b ks o pos cell =
      let freed : World Block = record w { heap = write w.heap p none } in
      ap (λ q. run (step lib) (Blocks.on_clone lib w q) (leave 0 ∷ leave i ∷ ks)) o
      ∙ (ap (λ h. run (step lib) (Blocks.with_heap w.owners h) (leave i ∷ ks))
            (drop_live w.heap p b pos cell)
          ∙ (ap (λ q. run (step lib) (Blocks.on_leave lib freed i q) ks) o
              ∙ ap (λ h. run (step lib) (Blocks.with_heap (remove i w.owners) h) ks)
                  (drop_dead w.heap p pos)))

module _ (lib : Librist) where
  -- `from`, called on a pointer to an allocated block and given the memory for a new one, loses the
  -- block: that stays allocated as it is, and no wrapper comes into scope that points to it.
  pub from-loses_block :
      (w : World Block) (p : Ptr) (b : Block)
      → w.heap.cell p ≡ some b
      → p < w.heap.next
      → (w' : World Block) × (step lib w (make_from p true) ≡ some w')
        × (w'.heap.cell p ≡ some b)
        × (count p w'.owners ≡ count p w.owners)
  unfolding step Blocks.from Blocks.init_data_block Blocks.settle Blocks.enter calloc write
  from-loses_block w p b cell old = (
    record {
      heap = (calloc true (record { payload = 0; payload_len = 0 }) w.heap).1;
      owners = w.heap.next ∷ w.owners;
    },
    refl,
    ground (arith, cell),
    ground arith,
  )
