-- ===== src/Sched/Liveness.antt =====
-- One timer tick: `sched` neither panics nor loops, charges one slice to one user task, and starts
-- a new epoch only when no slice is left.
use luminary.Base.{
  ℕ, suc, ◌<◌, ◌≡◌, ◌≢◌, refl, ap, ◌∙◌, inl, inr, Option, some, List, [], ◌∷◌, ◌++◌, map, arith,
  ◌==◌, if◌then◌else◌, length, length-append, Bool-cases,
}
use mathlib.Core.List.{map-append}
use luminary.Sched.{
  Task, Sched, Outcome, ok, account, age, pick, switch_to, choose, sched_with, sched, pid_idle,
}
use luminary.Sched.Scan.{IsIdle, Users, budget, In, scan_awake, scan_asleep}
use luminary.Sched.Tasks.{
  Distinct, slices, tally, tally-SameTask, account-queue, Aged, map-age-Aged, restore,
  restore-Users, restore-Distinct, reset_lem, Users-map, Distinct-map, slices-map, budget-map,
  SameTask, slices-restore-map, budget-restore-map, length-map-tasks,
}

-- One slice of the epoch that `us` has the slices of: the outcome of a tick, its queue, the task
-- that runs after it, and what it paid.
pub record Slice (us : List Task) (r : Outcome Sched) : Type 0 where
  pub next : Sched
  pub rest : List Task
  pub idle : Task
  pub picked : ℕ
  pub result : r ≡ ok next
  pub queue : next.queue ≡ rest ++ (idle ∷ [])
  pub runs : next.running_task ≡ some picked
  pub not_idle : picked ≢ pid_idle
  pub is_idle : IsIdle idle
  pub aged : Aged us rest picked

record Picks (us : List Task) (idle : Task) (r : Outcome (List Task × ℕ)) : Type 0 where
  rest : List Task
  picked : ℕ
  result : r ≡ ok (rest ++ (idle ∷ []), picked)
  not_idle : picked ≢ pid_idle
  aged : Aged us rest picked

In-user : (t : Task) (us : List Task) → Users us → In t us → t.pid ≢ pid_idle
In-user t [] users mem = absurd mem
In-user t (u ∷ us) users (inl e) = rw e users.0.not_idle
In-user t (u ∷ us) users (inr mem) = In-user t us users.1 mem

age-idle : (p : ℕ) (idle : Task) → IsIdle idle → age p idle ≡ idle
unfolding age
age-idle p idle is = ground arith

pick_awake :
    (fuel : ℕ) (running : Option ℕ) (us : List Task) (idle : Task)
    → Users us
    → Distinct us
    → IsIdle idle
    → 0 < budget us
    → Picks us idle (pick (suc fuel) running (us ++ (idle ∷ [])))
unfolding pick
pick_awake fuel running us idle users distinct is left =
    let (t, picked, found, user, mem, has) = scan_awake running idle us users is left in
    let aged : map (age picked.pid) (us ++ (idle ∷ [])) ≡ map (age picked.pid) us ++ (idle ∷ []) =
      map-append (age picked.pid) us (idle ∷ [])
      ∙ ap (λ i. map (age picked.pid) us ++ (i ∷ [])) (age-idle picked.pid idle is) in
    record {
      rest = map (age picked.pid) us;
      picked = picked.pid;
      result = rw (found, pick) (ground (arith, aged));
      not_idle = In-user picked us users mem;
      aged = map-age-Aged picked us users distinct mem has;
    }

restored-budget : (us : List Task) → Users us → 0 < length us → 0 < budget (map restore us)
unfolding restore
restored-budget [] users some_task = absurd (omega arith)
restored-budget (u ∷ us) users some_task = ground arith

pick_reset :
    (running : Option ℕ) (us : List Task) (idle : Task)
    → Users us
    → IsIdle idle
    → budget us ≡ 0
    → 0 < length us
    → pick 2 running (us ++ (idle ∷ [])) ≡ pick 1 running (map restore us ++ (idle ∷ []))
unfolding pick
pick_reset running us idle users is spent some_task =
    rw (scan_asleep running idle us users is spent, pick)
      (ground (arith, reset_lem us idle users is))

-- When no slice is left the second round runs over the reset queue.
pick_asleep :
    (running : Option ℕ) (us : List Task) (idle : Task)
    → Users us
    → Distinct us
    → IsIdle idle
    → budget us ≡ 0
    → 0 < length us
    → Picks (map restore us) idle (pick 2 running (us ++ (idle ∷ [])))
pick_asleep running us idle users distinct is spent some_task =
    let again =
      pick_awake 0 running (map restore us) idle (restore-Users us users)
        (restore-Distinct us distinct) is (restored-budget us users some_task) in
    record {
      rest = again.rest;
      picked = again.picked;
      result = pick_reset running us idle users is spent some_task ∙ again.result;
      not_idle = again.not_idle;
      aged = again.aged;
    }

-- The queue of the epoch that the next slice comes from.
abbrev pub epoch : List Task → List Task
epoch us = if budget us == 0 then map restore us else us

pick-Picks :
    (running : Option ℕ) (us : List Task) (idle : Task)
    → Users us
    → Distinct us
    → IsIdle idle
    → 0 < length us
    → Picks (epoch us) idle (pick 2 running (us ++ (idle ∷ [])))
pick-Picks running us idle users distinct is some_task = elim (Bool-cases (budget us == 0)) [
  | inl spent ↦ rw spent (pick_asleep running us idle users distinct is (ground arith) some_task)
  | inr left ↦ rw left (pick_awake 1 running us idle users distinct is (ground arith))
]

same_Aged :
    (us vs rest : List Task) (p : ℕ)
    → budget vs ≡ budget us
    → ((q : ℕ) → slices q vs ≡ slices q us)
    → Aged vs rest p
    → Aged us rest p
same_Aged us vs rest p b sl aged = record {
  users = aged.users;
  distinct = aged.distinct;
  spent = omega (arith, aged.spent);
  paid = λ q. omega (arith, aged.paid q, sl q);
}

-- The tick accounting does not change which epoch it is.
module _ (f : Task → Task) (same : SameTask f) (us : List Task) where
  slices-epoch-map : (q : ℕ) → slices q (epoch (map f us)) ≡ slices q (epoch us)
  slices-epoch-map q =
      ground (arith, budget-map f same us, slices-map f same q us, slices-restore-map f same q us)

  budget-epoch-map : budget (epoch (map f us)) ≡ budget (epoch us)
  budget-epoch-map = ground (arith, budget-map f same us, budget-restore-map f same us)

  IsIdle-same : (idle : Task) → IsIdle idle → IsIdle (f idle)
  IsIdle-same idle is = ground (arith, same idle)

  queue-map : (idle : Task) → map f (us ++ (idle ∷ [])) ≡ map f us ++ (f idle ∷ [])
  queue-map idle = map-append f us (idle ∷ [])

running-account : (s : Sched) → (account s).running_task ≡ s.running_task
unfolding account
running-account s = refl

choose_ok :
    (s : Sched) (queue us : List Task) (picked : ℕ)
    → 0 < length us
    → pick 2 s.running_task us ≡ ok (queue, picked)
    → choose 2 s us ≡ ok (switch_to s queue picked)
unfolding choose
choose_ok s queue [] picked some_task chosen = absurd (omega arith)
choose_ok s queue (u ∷ us) picked some_task chosen = rw (chosen, choose)

sched_ok :
    (s : Sched) (queue us : List Task) (picked : ℕ)
    → (account s).queue ≡ us
    → 0 < length us
    → pick 2 s.running_task us ≡ ok (queue, picked)
    → sched s ≡ ok (switch_to (account s) queue picked)
unfolding sched sched_with
sched_ok s queue us picked e some_task chosen =
    ap (choose 2 (account s)) e
    ∙ choose_ok (account s) queue us picked some_task (rw (running-account s) chosen)

switch_to-runs :
    (s : Sched) (q : List Task) (picked : ℕ) → (switch_to s q picked).running_task ≡ some picked
unfolding switch_to
switch_to-runs s q picked = ground arith

switch_to-queue : (s : Sched) (q : List Task) (picked : ℕ) → (switch_to s q picked).queue ≡ q
unfolding switch_to
switch_to-queue s q picked = ground arith

-- Over a queue of at least one user task, with distinct pids, that ends with the idle task, a tick
-- returns: no panic, no endless `goto pick`. The task that runs next is a user task, it pays one
-- slice, no other task pays, and the slices are those at hand or, exactly if none was left, those
-- of the static priorities.
pub sched-Slice :
    (s : Sched) (us : List Task) (idle : Task)
    → s.queue ≡ us ++ (idle ∷ [])
    → Users us
    → Distinct us
    → IsIdle idle
    → 0 < length us
    → Slice (epoch us) (sched s)
sched-Slice s us idle e users distinct is some_task =
    let f = tally s in
    let same = tally-SameTask s in
    let counted : (account s).queue ≡ map f us ++ (f idle ∷ []) =
      account-queue s ∙ ap (map f) e ∙ queue-map f same us idle in
    let filled : 0 < length (map f us) = rw (length-map-tasks f same us) some_task in
    let picks =
      pick-Picks s.running_task (map f us) (f idle) (Users-map f same us users)
        (Distinct-map f same us distinct) (IsIdle-same f same us idle is) filled in
    record {
      next = switch_to (account s) (picks.rest ++ (f idle ∷ [])) picks.picked;
      rest = picks.rest;
      idle = f idle;
      picked = picks.picked;
      result =
          sched_ok s (picks.rest ++ (f idle ∷ [])) (map f us ++ (f idle ∷ [])) picks.picked counted
            (rw (length-append (map f us) (f idle ∷ [])) (omega arith)) picks.result;
      queue = switch_to-queue (account s) (picks.rest ++ (f idle ∷ [])) picks.picked;
      runs = switch_to-runs (account s) (picks.rest ++ (f idle ∷ [])) picks.picked;
      not_idle = picks.not_idle;
      is_idle = IsIdle-same f same us idle is;
      aged =
          same_Aged (epoch us) (epoch (map f us)) picks.rest picks.picked
            (budget-epoch-map f same us) (slices-epoch-map f same us) picks.aged;
    }
