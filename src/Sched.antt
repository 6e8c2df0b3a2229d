-- ===== src/Sched.antt =====
-- The priority scheduler, src/kernel/sched.c, and the ordered insertion into its queue from
-- src/kernel/task.c. The queue is the list that the `next` pointers make from `sched_queue` on; a
-- task carries the fields that the scheduler reads or writes. A task pointer (`running_task`,
-- `prev_task`) is the pid of the task: pids are handed out once each (`++last_pid`).
-- `goto pick` runs on fuel; Sched.Liveness proves that two rounds are enough.
pub mod Scan
pub mod Tasks
pub mod Liveness
pub mod Epoch
pub mod Insert
mod Tests
use luminary.Base.{
  ℕ, zero, suc, ◌+◌, ◌/◌, ◌%◌, ◌^◌, Bool, true, false, not, ◌&&◌, Option, none, some, List, [], ◌∷◌,
  map, ltb, ◌==◌, if◌then◌else◌,
}
use luminary.Base.Int.{ℤ, pos, negsuc, ◌-ℤ◌, ltb_ℤ, eq_ℤ}

pub record Task : Type 0 where
  pub pid : ℕ
  pub prio_s : ℤ
  pub prio_d : ℤ
  pub ticks : ℕ
  pub ticks_window : ℕ
  pub cpu_pct : ℕ
  pub blocking : Bool

pub record Sched : Type 0 where
  pub queue : List Task
  pub running_task : Option ℕ
  pub prev_task : Option ℕ
  pub total_ticks : ℕ

abbrev pub pid_idle : ℕ
pid_idle = 0

abbrev pub level_susp : ℤ
level_susp = pos 0

abbrev pub u32 : ℕ
u32 = 2 ^ 32

pub data Panic : Type 0 where
  no_queue no_task out_of_fuel : Panic

pub data Outcome (A : Type 0) : Type 0 where
  ok : A → Outcome A
  panic : Panic → Outcome A

-- `running_task == t`
abbrev pub is_pid : Option ℕ → ℕ → Bool
is_pid none pid = false
is_pid (some p) pid = p == pid

abbrev pub is_task : Option ℕ → Task → Bool
is_task running t = is_pid running t.pid

-- The tick is charged to the running task, unless it waits in a `hlt` loop.
pub charge : Option ℕ → Task → Task
charge running t =
    if is_task running t && not t.blocking
    then record t { ticks = (t.ticks + 1) % u32; ticks_window = (t.ticks_window + 1) % u32 }
    else t

-- Once in 1000 ticks the window of each task becomes its CPU percentage.
pub roll_window : Task → Task
roll_window t = record t { cpu_pct = t.ticks_window / 10; ticks_window = 0 }

-- The accounting at the head of `sched`.
pub account : Sched → Sched
account s =
    let ticks' = (s.total_ticks + 1) % u32 in
    let charged = map (charge s.running_task) s.queue in
    record s {
      total_ticks = ticks';
      queue = if ticks' % 1000 == 0 then map roll_window charged else charged;
      prev_task = none;
    }

pub data Against : Type 0 where
  above level below : Against

-- The dynamic priority of `t` against that of the next task; the last task is above.
pub against : Task → List Task → Against
against t [] = Against.above
against t (n ∷ rest) =
    if ltb_ℤ n.prio_d t.prio_d
    then Against.above
    else if eq_ℤ t.prio_d n.prio_d
    then Against.level
    else Against.below

-- The walk over the tied group: the running task if it is in it, and otherwise `first`.
pub tied : Option ℕ → ℤ → (first : Task) → List Task → Task
tied running prio first [] = first
tied running prio first (g ∷ rest) = elim (eq_ℤ g.prio_d prio) [
  | true ↦ elim (is_task running g) [ true ↦ g | false ↦ tied running prio first rest ]
  | false ↦ first
]

-- The loop under `pick`: the task where it stopped, and the one that it picked.
pub scan : Option ℕ → List Task → Option (Task × Task)
scan running [] = none
scan running (t ∷ rest) =
    let later = scan running rest in
    if eq_ℤ t.prio_d level_susp then later else elim (against t rest) [
      | Against.above ↦ some (t, t)
      | Against.level ↦ some (t, tied running t.prio_d t (t ∷ rest))
      | Against.below ↦ later
    ]

-- `reset_all_priorities`: up to the idle task, with the number of tasks reset.
pub reset_all_priorities : List Task → ℕ × List Task
reset_all_priorities [] = (0, [])
reset_all_priorities (t ∷ rest) =
    let (r, rest') = reset_all_priorities rest in
    if t.pid == pid_idle then (0, t ∷ rest) else (suc r, record t { prio_d = t.prio_s } ∷ rest')

-- `if (picked->prio_d > 0) picked->prio_d--;`
pub age : ℕ → Task → Task
age picked t =
    if t.pid == picked && ltb_ℤ (pos 0) t.prio_d then record t { prio_d = t.prio_d -ℤ pos 1 } else t

-- From the label `pick` to the choice: the queue after ageing or reset, and the pid picked.
pub pick : ℕ → Option ℕ → List Task → Outcome (List Task × ℕ)
pick zero running queue = panic out_of_fuel
pick (suc fuel) running queue = elim (scan running queue) [
  | none ↦ panic no_task
  | some (t, picked) ↦
      let (r, queue') = reset_all_priorities queue in
      let again = pick fuel running queue' in
      if t.pid == pid_idle
      then (if ltb 0 r then again else ok (queue', picked.pid))
      else ok (map (age picked.pid) queue, picked.pid)
]

-- The end of `sched`: a switch is due if another task was picked.
pub switch_to : Sched → List Task → ℕ → Sched
switch_to s queue picked =
    let s' = record s { queue = queue } in
    if is_pid s.running_task picked
    then s'
    else record s' { prev_task = s.running_task; running_task = some picked }

-- `sched` after its accounting: the check for a missing queue, the choice, the switch.
pub choose : ℕ → Sched → List Task → Outcome Sched
choose fuel s [] = panic no_queue
choose fuel s (t ∷ rest) = elim (pick fuel s.running_task (t ∷ rest)) [
  | ok (queue, picked) ↦ ok (switch_to s queue picked)
  | panic e ↦ panic e
]

pub sched_with : ℕ → Sched → Outcome Sched
sched_with fuel s = let s' = account s in choose fuel s' s'.queue

-- `sched`, with fuel for two rounds of `pick`.
pub sched : Sched → Outcome Sched
sched = sched_with 2

-- The search of `create_task` for its place: before the first task of no higher static priority,
-- else at the end.
pub insert_task : Task → List Task → List Task
insert_task t [] = t ∷ []
insert_task t (before ∷ rest) =
    if ltb_ℤ t.prio_s before.prio_s then before ∷ insert_task t rest else t ∷ before ∷ rest
