-- ===== src/System/Examples.antt =====
-- Runs and witnesses for the queries of the operating system.
use mathlib.Core.Quot
use wolf_engine.Base.{ℕ, ◌≡◌, refl, [], ◌∷◌, ok, err, ltb, if◌then◌else◌, ◌==◌}
use wolf_engine.System.Processes
use wolf_engine.System.Processes.{Process, SysInfo}
use wolf_engine.System.Processes.Orders.{instances, entries, queries-by_table}
use wolf_engine.System.Screens.{Scrap}

-- A system of three processes, two of which have one name.
abbrev os : SysInfo
os = record {
  Sys = Unit {0};
  new_all = tt;
  refresh_all = λ s. s;
  refresh_system = λ s. s;
  refresh_processes = λ s. s;
  refresh_disks = λ s. s;
  refresh_networks = λ s. s;
  processes = λ s.
      record { pid = 1; name = "init" }
      ∷ record { pid = 7; name = "wolf" }
      ∷ record { pid = 9; name = "wolf" }
      ∷ [];
  used_memory = λ s. 0;
  total_memory = λ s. 0;
  used_swap = λ s. 0;
  total_swap = λ s. 0;
}

two_wolves : Processes.number_of_process_instances os tt "wolf" ≡ 2
unfolding Processes.number_of_process_instances
two_wolves = refl

queries-by_table_example :
    (Processes.number_of_process_instances os tt "wolf"
      ≡ instances "wolf" (Quot.mk (os.processes tt)))
    × (Processes.is_process_running_by_name os tt "wolf"
        ≡ ltb 0 (instances "wolf" (Quot.mk (os.processes tt))))
    × (Processes.is_process_running_by_pid os tt 9 ≡ ltb 0 (entries 9 (Quot.mk (os.processes tt))))
queries-by_table_example = queries-by_table os tt (Quot.mk (os.processes tt)) "wolf" 9 refl

-- Two displays, of which the second cannot be captured.
abbrev scrap : Scrap
scrap = record {
  Display = ℕ;
  Capturer = ℕ;
  Frame = Unit {0};
  IoError = Unit {0};
  show_error = λ e. "busy";
  primary = ok 3;
  all = ok (3 ∷ 4 ∷ []);
  width = λ d. 800;
  height = λ d. 600;
  new = λ d. if d == 3 then ok d else err tt;
  frame = λ c. (c, ok tt);
}
