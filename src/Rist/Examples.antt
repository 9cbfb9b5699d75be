-- ===== src/Rist/Examples.antt =====
-- Runs and witnesses for the modules of wolf/src/stream/rist.rs.
use wolf_engine.Base.{◌≡◌, ap, refl, true, false, Option, none, some, List, [], ◌∷◌, arith}
use wolf_engine.Base.Int.{pos, negsuc}
use wolf_engine.Rist.Store.{Ptr, Heap, World, write, calloc, owner, empty, run}
use wolf_engine.Rist.Store.Owners.{count}
use wolf_engine.Rist.Levels.{sender_mode, simple, info}
use wolf_engine.Rist.Blocks
use wolf_engine.Rist.Blocks.{
  Block, Librist, Command, make, make_from, clone, set_data, read_data, receive, leave,
}
use wolf_engine.Rist.Blocks.Safety.{IsLibrist, from-loses_block, clone-double_free}
use wolf_engine.Rist.Context
use wolf_engine.Rist.Context.{Context, Init, Rist}

abbrev free2 : Heap Block → Ptr → Option (Heap Block × Ptr)
free2 h p = elim (h.cell p) [ none ↦ none | some b ↦ some (write h p none, 0) ]

-- Every read gives a block of two bytes.
abbrev two_bytes : Block
two_bytes = record { payload = 100; payload_len = 2 }

abbrev lib : Librist
lib = record { free2 = free2; read2 = λ timeout h p. (pos 1, (calloc true two_bytes h).1, h.next) }

lib-IsLibrist : IsLibrist lib
lib-IsLibrist = record {
  frees = λ h p b e. ap (λ o. elim o [ none ↦ none | some b ↦ some (write h p none, 0) ]) e;
  undefined = λ h p e pos_p. ap (λ o. elim o [ none ↦ none | some b ↦ some (write h p none, 0) ]) e;
}

abbrev quiet_program : List Command
quiet_program = make true ∷ make false ∷ make true ∷ set_data 1 50 3 ∷ read_data 1 ∷ leave 0 ∷ []

abbrev one_block : World Block
one_block = record { heap = (calloc true two_bytes empty.heap).1; owners = 1 ∷ [] }

clone-double_free_example :
    run (Blocks.step lib) (some one_block) (clone 0 ∷ leave 0 ∷ leave 0 ∷ []) ≡ none
unfolding owner calloc empty write
clone-double_free_example =
    clone-double_free lib lib-IsLibrist one_block 0 1 two_bytes [] refl (omega arith) refl

from-loses_block_example :
    (w' : World Block) × (Blocks.step lib one_block (make_from 1 true) ≡ some w')
    × (w'.heap.cell 1 ≡ some two_bytes)
    × (count 1 w'.owners ≡ count 1 one_block.owners)
unfolding calloc empty write
from-loses_block_example = from-loses_block lib one_block 1 two_bytes refl (omega arith)

abbrev working : Init
working = record { memory = true; logging = pos 0; sender = pos 0; receiver = pos 0 }

abbrev without_log : Init
without_log = record working { logging = negsuc 0 }

abbrev context_program : List Context.Command
context_program =
    Context.create working sender_mode simple 0 info
    ∷ Context.create without_log sender_mode simple 0 info
    ∷ Context.call 0
    ∷ Context.leave 0
    ∷ []

-- What `new` leaves where nothing fails.
abbrev made : Heap Context
made = (calloc true (record { profile = pos 0; loss_percentage = 0 }) (empty {C = Context}).heap).1

abbrev sender : Rist
sender = record {
  ctx = 1;
  url = "";
  mode = sender_mode;
  profile = simple;
  loss_percentage = 0;
  log_level = info;
}
