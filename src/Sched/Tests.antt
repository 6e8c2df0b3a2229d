-- ===== src/Sched/Tests.antt =====
-- The scheduler at concrete queues.
use luminary.Base.{ℕ, ◌≡◌, refl, false, Option, none, some, List, [], ◌∷◌, ◌++◌, arith}
use mathlib.Core.List.{Perm}
use luminary.Base.Int.{ℤ, pos, negsuc, pos_part}
use luminary.Sched.{Task, Sched, ok, sched, scan, insert_task}
use luminary.Sched.Scan.{IsIdle, Users, credit, budget, In}
use luminary.Sched.Tasks.{Distinct, Fresh}
use luminary.Sched.Liveness.{Slice, epoch, sched-Slice}
use luminary.Sched.Epoch.{run, runs, run_fair, scan_tie}
use luminary.Sched.Insert.{IsOrdered, insert_task_lem}

abbrev task : ℕ → ℤ → ℤ → Task
task pid prio_s prio_d = record {
  pid = pid;
  prio_s = prio_s;
  prio_d = prio_d;
  ticks = 0;
  ticks_window = 0;
  cpu_pct = 0;
  blocking = false;
}

abbrev idle : Task
idle = task 0 (negsuc 0) (negsuc 0)

abbrev users : List Task
users = task 1 (pos 3) (pos 3) ∷ task 2 (pos 2) (pos 2) ∷ []

abbrev start : Sched
start = record {
  queue = users ++ (idle ∷ []);
  running_task = some 0;
  prev_task = none;
  total_ticks = 998;
}

users-Users : Users users
users-Users = ground arith

idle-IsIdle : IsIdle idle
idle-IsIdle = record { idle_pid = refl; idle_static = refl; idle_dynamic = refl }

users-Distinct : Distinct users
users-Distinct = ground arith

sched-Slice_example : Slice (epoch users) (sched start)
sched-Slice_example =
    sched-Slice start users idle refl users-Users users-Distinct idle-IsIdle (omega arith)

run_fair_example :
    (end : Sched) × (trace : List (Option ℕ)) × (rest : List Task) × (idle' : Task) × (run
        (budget users)
        start
      ≡ ok (end, trace))
    × ((t : Task) → In t users → runs t.pid trace ≡ credit t)
    × ((q : ℕ) → Fresh q users → runs q trace ≡ 0)
    × (end.queue ≡ rest ++ (idle' ∷ []))
    × (budget rest ≡ 0)
run_fair_example = run_fair start users idle refl users-Users users-Distinct idle-IsIdle

-- A lower task of a higher dynamic priority waits behind a tie.
scan_tie_example :
    (picked : Task) × (scan none
        (task 1 (pos 10) (pos 3) ∷ task 2 (pos 7) (pos 3) ∷ (task 3 (pos 4) (pos 4) ∷ idle ∷ []))
      ≡ some (task 1 (pos 10) (pos 3), picked))
    × (pos_part picked.prio_d ≡ 3)
scan_tie_example =
    scan_tie none (task 1 (pos 10) (pos 3)) (task 2 (pos 7) (pos 3))
      (task 3 (pos 4) (pos 4) ∷ idle ∷ []) (omega arith) refl refl

insert_task_lem_example :
    IsOrdered (insert_task (task 3 (pos 2) (pos 2)) (users ++ (idle ∷ [])))
    × Perm
        (insert_task (task 3 (pos 2) (pos 2)) (users ++ (idle ∷ [])))
        (task 3 (pos 2) (pos 2) ∷ (users ++ (idle ∷ [])))
insert_task_lem_example =
    insert_task_lem (task 3 (pos 2) (pos 2)) (users ++ (idle ∷ [])) (omega arith)
