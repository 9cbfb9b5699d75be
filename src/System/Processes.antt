-- ===== src/System/Processes.antt =====
-- wolf/src/system/os/system.rs: the processes and the memory, and `create_process`.
--
-- sysinfo is the parameter `SysInfo`. Its table of processes is a `HashMap`, which goes over its entries
-- in no order that it promises: `processes` is one such order.
pub mod Orders
use Prim.Native.String.{◌++◌ as ◌<>◌}
use text.Mathlib.Text.{◌==◌ as ◌is◌}
use wolf_engine.Base.{
  ℕ, suc, Bool, true, false, List, [], ◌∷◌, String, Result, ok, err, ◌==◌, if◌then◌else◌, ◌>>=◌,
}

-- A pid is the 32 bits of the i32 of sysinfo.
pub record Process : Type 0 where
  pub pid : ℕ
  pub name : String

pub record SysInfo : Type 1 where
  pub Sys : Type 0
  pub new_all : Sys
  pub refresh_all : Sys → Sys
  pub refresh_system : Sys → Sys
  pub refresh_processes : Sys → Sys
  pub refresh_disks : Sys → Sys
  pub refresh_networks : Sys → Sys
  pub processes : Sys → List Process
  pub used_memory : Sys → ℕ
  pub total_memory : Sys → ℕ
  pub used_swap : Sys → ℕ
  pub total_swap : Sys → ℕ

-- The loops over the table
unfoldable pub count_name : ℕ → String → List Process → ℕ
count_name num name [] = num
count_name num name (p ∷ ps) = count_name (if p.name is name then suc num else num) name ps

unfoldable pub has_pid : ℕ → List Process → Bool
has_pid pid [] = false
has_pid pid (p ∷ ps) = let rest = has_pid pid ps in if p.pid == pid then true else rest

unfoldable pub has_name : String → List Process → Bool
has_name name [] = false
has_name name (p ∷ ps) = let rest = has_name name ps in if p.name is name then true else rest

module _ (os : SysInfo) where
  open os use {Sys}

  -- System::new
  unfoldable pub new : Sys
  new = os.refresh_all os.new_all

  abbrev pub refresh_all : Sys → Sys
  refresh_all sys = os.refresh_all sys

  abbrev pub refresh_system : Sys → Sys
  refresh_system sys = os.refresh_system sys

  abbrev pub refresh_processes : Sys → Sys
  refresh_processes sys = os.refresh_processes sys

  abbrev pub refresh_disks : Sys → Sys
  refresh_disks sys = os.refresh_disks sys

  abbrev pub refresh_networks : Sys → Sys
  refresh_networks sys = os.refresh_networks sys

  abbrev pub used_memory_in_kb : Sys → ℕ
  used_memory_in_kb sys = os.used_memory sys

  abbrev pub total_memory_in_kb : Sys → ℕ
  total_memory_in_kb sys = os.total_memory sys

  abbrev pub used_swap_in_kb : Sys → ℕ
  used_swap_in_kb sys = os.used_swap sys

  abbrev pub total_swap_in_kb : Sys → ℕ
  total_swap_in_kb sys = os.total_swap sys

  unfoldable pub number_of_process_instances : Sys → String → ℕ
  unfolding count_name
  number_of_process_instances sys name = count_name 0 name (os.processes sys)

  unfoldable pub is_process_running_by_pid : Sys → ℕ → Bool
  unfolding has_pid
  is_process_running_by_pid sys pid = has_pid pid (os.processes sys)

  unfoldable pub is_process_running_by_name : Sys → String → Bool
  unfolding has_name
  is_process_running_by_name sys name = has_name name (os.processes sys)

-- `create_process`, by what the metadata of the path and the spawn give.
module _ {Failure Child : Type 0} (bail : String → Failure) where
  unfoldable pub spawn_file : String → Result Failure Child → Bool → Result Failure Child
  spawn_file path spawned is_file =
      if is_file then spawned else err (bail ("Process " <> (path <> " is not a valid file")))

  unfoldable pub create_process :
      String → Result Failure Bool → Result Failure Child → Result Failure Child
  unfolding spawn_file
  create_process path metadata spawned = metadata >>= spawn_file path spawned
