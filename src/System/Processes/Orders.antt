-- ===== src/System/Processes/Orders.antt =====
-- The queries of wolf/src/system/os/system.rs do not depend on the order of the table.

use mathlib.Core.Quot
use mathlib.Core.Quot.{Quot}
use native.Mathlib.Nat.{ℕ_set}
use text.Mathlib.Text.{◌==◌ as ◌is◌}
use wolf_engine.Base.{
  ℕ, suc, ◌+◌, ◌≡◌, ◌∙◌, ap, refl, List, [], ◌∷◌, String, ◌==◌, ltb, if◌then◌else◌, arith,
}
use wolf_engine.System.Processes
use wolf_engine.System.Processes.{Process, SysInfo, count_name, has_pid, has_name}

-- The same entries in another order.
pub data Reordered : List Process → List Process → Type 0 where
  same : (ps : List Process) → Reordered ps ps
  keep : (p : Process) {ps qs : List Process} → Reordered ps qs → Reordered (p ∷ ps) (p ∷ qs)
  swap : (p q : Process) (ps : List Process) → Reordered (p ∷ q ∷ ps) (q ∷ p ∷ ps)
  trans : {ps qs rs : List Process} → Reordered ps qs → Reordered qs rs → Reordered ps rs

-- A table that forgets the order.
abbrev pub Table : Type 0
Table = Quot Reordered

-- How many have the name, and how many have the id.
abbrev pub named : String → List Process → ℕ
named name [] = 0
named name (p ∷ ps) = (if p.name is name then 1 else 0) + named name ps

abbrev pub with_pid : ℕ → List Process → ℕ
with_pid pid [] = 0
with_pid pid (p ∷ ps) = (if p.pid == pid then 1 else 0) + with_pid pid ps

count_name-named :
    (num : ℕ) (name : String) (ps : List Process) → count_name num name ps ≡ num + named name ps
unfolding count_name
count_name-named num name [] = omega arith
count_name-named num name (p ∷ ps) =
    grind (arith, count_name-named (if p.name is name then suc num else num) name ps)

all-named : (name : String) (ps : List Process) → count_name 0 name ps ≡ named name ps
all-named name ps = omega (arith, count_name-named 0 name ps)

has_name-named : (name : String) (ps : List Process) → has_name name ps ≡ ltb 0 (named name ps)
unfolding has_name
has_name-named name [] = refl
has_name-named name (p ∷ ps) = grind (arith, has_name-named name ps)

has_pid-with_pid : (pid : ℕ) (ps : List Process) → has_pid pid ps ≡ ltb 0 (with_pid pid ps)
unfolding has_pid
has_pid-with_pid pid [] = refl
has_pid-with_pid pid (p ∷ ps) = grind (arith, has_pid-with_pid pid ps)

named-Reordered :
    (name : String) {ps qs : List Process} → Reordered ps qs → named name ps ≡ named name qs
named-Reordered name (same ps) = refl
named-Reordered name (keep p r) = omega (arith, named-Reordered name r)
named-Reordered name (swap p q ps) = omega arith
named-Reordered name (trans r r') = named-Reordered name r ∙ named-Reordered name r'

with_pid-Reordered :
    (pid : ℕ) {ps qs : List Process} → Reordered ps qs → with_pid pid ps ≡ with_pid pid qs
with_pid-Reordered pid (same ps) = refl
with_pid-Reordered pid (keep p r) = omega (arith, with_pid-Reordered pid r)
with_pid-Reordered pid (swap p q ps) = omega arith
with_pid-Reordered pid (trans r r') = with_pid-Reordered pid r ∙ with_pid-Reordered pid r'

-- The abstract table: how often a name and an id are in it.
pub instances : String → Table → ℕ
instances name = Quot.lift ℕ_set (named name) (λ ps qs r. named-Reordered name r)

pub entries : ℕ → Table → ℕ
entries pid = Quot.lift ℕ_set (with_pid pid) (λ ps qs r. with_pid-Reordered pid r)

-- Each query answers by the table alone, whatever order the map goes over it in: the number of the
-- processes of a name, whether it is above 0, and whether the id is in the table.
pub queries-by_table :
    (os : SysInfo) (sys : os.Sys) (table : Table) (name : String) (pid : ℕ)
    → Quot.mk (os.processes sys) ≡ table
    → (Processes.number_of_process_instances os sys name ≡ instances name table)
      × (Processes.is_process_running_by_name os sys name ≡ ltb 0 (instances name table))
      × (Processes.is_process_running_by_pid os sys pid ≡ ltb 0 (entries pid table))
unfolding Processes.number_of_process_instances Processes.is_process_running_by_name
    Processes.is_process_running_by_pid instances entries
queries-by_table os sys table name pid e =
    let ps = os.processes sys in
    (
      all-named name ps ∙ ap (instances name) e,
      has_name-named name ps ∙ ap (λ t. ltb 0 (instances name t)) e,
      has_pid-with_pid pid ps ∙ ap (λ t. ltb 0 (entries pid t)) e,
    )
