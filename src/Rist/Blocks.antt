-- ===== src/Rist/Blocks.antt =====
-- rist_data_block of wolf/src/stream/rist.rs, over the functions of rist_data_block.cpp.
pub mod Safety
use wolf_engine.Base.{
  ℕ, Bool, true, false, Option, none, some, List, [], ◌∷◌, String, Result, ok, err, ltb, ◌==◌,
  if◌then◌else◌,
}
use wolf_engine.Base.Int.{ℤ}
use wolf_engine.Rist.Store.{Ptr, Heap, World, write, calloc, free, owner, remove, replace}

pub record Block : Type 0 where
  pub payload : Ptr
  pub payload_len : ℕ

-- `rist_receiver_data_block_free2` and `rist_receiver_data_read2` of librist, over a pointer that they
-- may change: the first is `none` where it is undefined, and the second returns a count as well, and
-- leaves any pointer, also null where there is nothing to read.
pub record Librist : Type 0 where
  pub free2 : Heap Block → Ptr → Option (Heap Block × Ptr)
  pub read2 : ℤ → Heap Block → Ptr → ℤ × Heap Block × Ptr

-- w_rist_init_data_block: whether it returns 0, and what the pointer is then
unfoldable pub init_data_block : Bool → Heap Block → Ptr → Bool × Heap Block × Ptr
unfolding calloc
init_data_block false h p = (false, h, p)
init_data_block true h p =
    let (q, h') = calloc true (record { payload = 0; payload_len = 0 }) h in (true, h', q)

module _ (lib : Librist) where
  unfoldable pub after_free2 : Option (Heap Block × Ptr) → Option (Heap Block)
  unfolding free
  after_free2 none = none
  after_free2 (some (h, p)) = free h p

  -- w_rist_free_data_block
  unfoldable pub free_data_block : Heap Block → Ptr → Option (Heap Block)
  unfolding after_free2
  free_data_block h p = after_free2 (lib.free2 h p)

  -- `drop` of rist_data_block
  unfoldable pub drop : Heap Block → Ptr → Option (Heap Block)
  unfolding free_data_block
  drop h p = if p == 0 then some h else free_data_block h p

  -- What a constructor leaves: a wrapper, or its error, with the wrapper that it had begun dropped.
  unfoldable pub settle : Bool × Heap Block × Ptr → Option (Heap Block × Result String Ptr)
  unfolding drop
  settle (true, h, p) = some (h, ok p)
  settle (false, h, p) = elim (drop h p) [
    | none ↦ none
    | some h' ↦ some (h', err "could not allocate memory for rist_data_block")
  ]

  -- rist_data_block::new and rist_data_block::from
  unfoldable pub new : Bool → Heap Block → Option (Heap Block × Result String Ptr)
  unfolding settle init_data_block
  new memory h = settle (init_data_block memory h 0)

  -- The pointer that is given may point to a block of the heap; `calloc` takes its place.
  unfoldable pub from : Ptr → Bool → Heap Block → Option (Heap Block × Result String Ptr)
  unfolding settle init_data_block
  from p memory h = settle (init_data_block memory h p)

-- rist_data_block::read: a slice by its address and its length
unfoldable pub slice : Block → Result String (Ptr × ℕ)
slice b =
    if ltb 0 b.payload_len
    then ok (b.payload, b.payload_len)
    else err "invalid len size. trace info rist::read"

unfoldable pub read : Heap Block → Ptr → Option (Result String (Ptr × ℕ))
unfolding slice
read h p = elim (h.cell p) [ none ↦ none | some b ↦ some (slice b) ]

-- rist_data_block::set: the block keeps the address of the caller's slice.
unfoldable pub set : Ptr → ℕ → Heap Block → Ptr → Option (Heap Block)
unfolding write
set payload len h p = elim (h.cell p) [
  | none ↦ none
  | some b ↦ some (write h p (some (record { payload = payload; payload_len = len })))
]

-- The operations on the wrappers in scope. The flags are whether `calloc` gives memory, `receive` is
-- rist::read into a wrapper, and a number names the wrapper.
pub data Command : Type 0 where
  default : Command
  make : Bool → Command
  make_from : Ptr → Bool → Command
  clone : ℕ → Command
  set_data : ℕ → Ptr → ℕ → Command
  read_data : ℕ → Command
  receive : ℕ → ℤ → Command
  leave : ℕ → Command

-- A constructor's wrapper comes into scope.
unfoldable pub enter : List Ptr → Option (Heap Block × Result String Ptr) → Option (World Block)
enter ps none = none
enter ps (some (h, err e)) = some (record { heap = h; owners = ps })
enter ps (some (h, ok p)) = some (record { heap = h; owners = p ∷ ps })

unfoldable pub with_heap : List Ptr → Option (Heap Block) → Option (World Block)
with_heap ps none = none
with_heap ps (some h) = some (record { heap = h; owners = ps })

module _ (lib : Librist) where
  -- The operations that a wrapper is named for; there is no wrapper of a name that is not in scope.
  unfoldable pub on_clone : World Block → Option Ptr → Option (World Block)
  on_clone w none = some w
  on_clone w (some p) = some (record w { owners = p ∷ w.owners })

  unfoldable pub on_set : World Block → Ptr → ℕ → Option Ptr → Option (World Block)
  unfolding with_heap set
  on_set w payload len none = some w
  on_set w payload len (some p) = with_heap w.owners (set payload len w.heap p)

  unfoldable pub on_read : World Block → Option Ptr → Option (World Block)
  unfolding read
  on_read w none = some w
  on_read w (some p) = elim (read w.heap p) [ none ↦ none | some r ↦ some w ]

  -- The wrapper's pointer is what librist leaves in it: where that is null, `read` and `set` fault.
  unfoldable pub received : World Block → ℕ → ℤ × Heap Block × Ptr → World Block
  unfolding replace
  received w i (count, h, p) = record { heap = h; owners = replace i p w.owners }

  unfoldable pub on_receive : World Block → ℕ → ℤ → Option Ptr → Option (World Block)
  unfolding received
  on_receive w i timeout none = some w
  on_receive w i timeout (some p) = some (received w i (lib.read2 timeout w.heap p))

  unfoldable pub on_leave : World Block → ℕ → Option Ptr → Option (World Block)
  unfolding with_heap drop remove
  on_leave w i none = some w
  on_leave w i (some p) = with_heap (remove i w.owners) (drop lib w.heap p)

  unfoldable pub step : World Block → Command → Option (World Block)
  unfolding enter new from on_clone on_set on_read on_receive on_leave owner
  step w default = some (record w { owners = 0 ∷ w.owners })
  step w (make memory) = enter w.owners (new lib memory w.heap)
  step w (make_from p memory) = enter w.owners (from lib p memory w.heap)
  step w (clone i) = on_clone w (owner i w.owners)
  step w (set_data i payload len) = on_set w payload len (owner i w.owners)
  step w (read_data i) = on_read w (owner i w.owners)
  step w (receive i timeout) = on_receive w i timeout (owner i w.owners)
  step w (leave i) = on_leave w i (owner i w.owners)
