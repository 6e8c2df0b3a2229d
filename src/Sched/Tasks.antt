-- ===== src/Sched/Tasks.antt =====
-- Queues of tasks with distinct pids, the slices they have left, and what the tick accounting,
-- ageing and the reset of priorities do to both.
use luminary.Base.{
  ℕ, suc, ◌+◌, ◌%◌, ◌<◌, ◌≡◌, ◌≢◌, refl, sym, subst, ap, ap₂, inl, inr, Bool, true, false, Option,
  List, [], ◌∷◌, ◌++◌, map, arith, ◌==◌, if◌then◌else◌, length,
}
use luminary.Base.Int.{◌-ℤ◌}
use luminary.Sched.{Task, Sched, charge, roll_window, account, reset_all_priorities, age, u32}
use luminary.Sched.Scan.{IsUser, IsIdle, Users, credit, budget, In}

-- No two tasks share a pid.
abbrev pub Fresh : ℕ → List Task → Type 0
Fresh p [] = Unit {0}
Fresh p (t ∷ ts) = (p ≢ t.pid) × Fresh p ts

abbrev pub Distinct : List Task → Type 0
Distinct [] = Unit {0}
Distinct (t ∷ ts) = Fresh t.pid ts × Distinct ts

-- The slices that the task with a given pid has left.
abbrev pub slices : ℕ → List Task → ℕ
slices q [] = 0
slices q (t ∷ ts) = (if t.pid == q then credit t else 0) + slices q ts

abbrev pub hit : ℕ → ℕ → ℕ
hit q p = if q == p then 1 else 0

-- A change to each task that leaves pid and priorities alone.
abbrev pub SameTask : (Task → Task) → Type 0
SameTask f =
    (t : Task) → ((f t).pid ≡ t.pid) × ((f t).prio_s ≡ t.prio_s) × ((f t).prio_d ≡ t.prio_d)

charge-SameTask : (running : Option ℕ) → SameTask (charge running)
unfolding charge
charge-SameTask running t = ground arith

roll_window-SameTask : SameTask roll_window
unfolding roll_window
roll_window-SameTask t = (refl, refl, refl)

module _ (f : Task → Task) (same : SameTask f) where
  pub Users-map : (us : List Task) → Users us → Users (map f us)
  Users-map [] users = tt
  Users-map (u ∷ us) users = (ground (arith, same u), Users-map us users.1)

  pub Fresh-map : (p : ℕ) (us : List Task) → Fresh p us → Fresh p (map f us)
  Fresh-map p [] fresh = tt
  Fresh-map p (u ∷ us) fresh = (ground (arith, same u), Fresh-map p us fresh.1)

  pub Distinct-map : (us : List Task) → Distinct us → Distinct (map f us)
  Distinct-map [] distinct = tt
  Distinct-map (u ∷ us) distinct = (
    let e : (f u).pid ≡ u.pid = (same u).0 in rw e (Fresh-map u.pid us distinct.0),
    Distinct-map us distinct.1,
  )

  pub slices-map : (q : ℕ) (us : List Task) → slices q (map f us) ≡ slices q us
  slices-map q [] = refl
  slices-map q (u ∷ us) = ground (arith, same u, slices-map q us)

  pub budget-map : (us : List Task) → budget (map f us) ≡ budget us
  budget-map [] = refl
  budget-map (u ∷ us) = ground (arith, same u, budget-map us)

-- The accounting is a change of that kind to every task of the queue.
pub tally : Sched → Task → Task
unfolding charge roll_window
tally s t =
    if (s.total_ticks + 1) % u32 % 1000 == 0
    then roll_window (charge s.running_task t)
    else charge s.running_task t

pub tally-SameTask : (s : Sched) → SameTask (tally s)
unfolding tally
tally-SameTask s t =
    ground (arith, charge-SameTask s.running_task t, roll_window-SameTask (charge s.running_task t))

map-map : (f g : Task → Task) (us : List Task) → map f (map g us) ≡ map (λ t. f (g t)) us
map-map f g [] = refl
map-map f g (u ∷ us) = ap (◌∷◌ (f (g u))) (map-map f g us)

account_by :
    (roll : Bool) (running : Option ℕ) (us : List Task)
    → (if roll then map roll_window (map (charge running) us) else map (charge running) us)
      ≡ map (λ t. if roll then roll_window (charge running t) else charge running t) us
account_by true running us = map-map roll_window (charge running) us
account_by false running us = refl

pub account-queue : (s : Sched) → (account s).queue ≡ map (tally s) s.queue
unfolding account tally
account-queue s = account_by ((s.total_ticks + 1) % u32 % 1000 == 0) s.running_task s.queue

age_other : (p : ℕ) (t : Task) → p ≢ t.pid → age p t ≡ t
unfolding age
age_other p t ne = ground arith

age_picked :
    (t : Task)
    → IsUser t
    → 0 < credit t
    → IsUser (age t.pid t) × (suc (credit (age t.pid t)) ≡ credit t) × ((age t.pid t).pid ≡ t.pid)
unfolding age ◌-ℤ◌
age_picked t user left = ground arith

map-age_other : (p : ℕ) (us : List Task) → Fresh p us → map (age p) us ≡ us
map-age_other p [] fresh = refl
map-age_other p (u ∷ us) fresh = ap₂ ◌∷◌ (age_other p u fresh.0) (map-age_other p us fresh.1)

-- Ageing the task picked takes one slice from it and nothing from the others.
pub record Aged (us us' : List Task) (p : ℕ) : Type 0 where
  pub users : Users us'
  pub distinct : Distinct us'
  pub spent : budget us ≡ suc (budget us')
  pub paid : (q : ℕ) → slices q us' + hit q p ≡ slices q us

pub Fresh-In : (p : ℕ) (t : Task) (us : List Task) → Fresh p us → In t us → p ≢ t.pid
Fresh-In p t [] fresh mem = absurd mem
Fresh-In p t (u ∷ us) fresh (inl e) = rw e fresh.0
Fresh-In p t (u ∷ us) fresh (inr mem) = Fresh-In p t us fresh.1 mem

Fresh-age : (p q : ℕ) (us : List Task) → Fresh p us → Fresh p (map (age q) us)
unfolding age
Fresh-age p q [] fresh = tt
Fresh-age p q (u ∷ us) fresh = (ground arith, Fresh-age p q us fresh.1)

pub slices-Fresh : (p : ℕ) (us : List Task) → Fresh p us → slices p us ≡ 0
slices-Fresh p [] fresh = refl
slices-Fresh p (u ∷ us) fresh = ground (arith, slices-Fresh p us)

Aged-head :
    (u : Task) (us : List Task)
    → Users (u ∷ us)
    → Distinct (u ∷ us)
    → 0 < credit u
    → Aged (u ∷ us) (age u.pid u ∷ us) u.pid
Aged-head u us users distinct left =
    let aged = age_picked u users.0 left in
    record {
      users = (aged.0, users.1);
      distinct = (rw (aged.2) distinct.0, distinct.1);
      spent = omega (arith, aged.1);
      paid = λ q. ground (arith, aged.1, aged.2);
    }

pub map-age-Aged :
    (t : Task) (us : List Task)
    → Users us
    → Distinct us
    → In t us
    → 0 < credit t
    → Aged us (map (age t.pid) us) t.pid
map-age-Aged t [] users distinct mem left = absurd mem
map-age-Aged t (u ∷ us) users distinct (inl e) left =
    subst (λ x. 0 < credit x → Aged (u ∷ us) (map (age x.pid) (u ∷ us)) x.pid) (sym e)
      (λ has. rw (map-age_other u.pid us distinct.0) (Aged-head u us users distinct has)) left
map-age-Aged t (u ∷ us) users distinct (inr mem) left =
    let rest = map-age-Aged t us users.1 distinct.1 mem left in
    let other = Fresh-In u.pid t us distinct.0 mem in
    let same : age t.pid u ≡ u = age_other t.pid u (λ e. other (sym e)) in
    rw same (record {
      users = (users.0, rest.users);
      distinct = (Fresh-age u.pid t.pid us distinct.0, rest.distinct);
      spent = omega (arith, rest.spent);
      paid = λ q. omega (arith, rest.paid q);
    })

-- `t->prio_d = t->prio_s`
unfoldable pub restore : Task → Task
restore t = record t { prio_d = t.prio_s }

pub restore-Users : (us : List Task) → Users us → Users (map restore us)
unfolding restore
restore-Users [] users = tt
restore-Users (u ∷ us) users = (ground arith, restore-Users us users.1)

Fresh-restore : (p : ℕ) (us : List Task) → Fresh p us → Fresh p (map restore us)
unfolding restore
Fresh-restore p [] fresh = tt
Fresh-restore p (u ∷ us) fresh = (fresh.0, Fresh-restore p us fresh.1)

pub restore-Distinct : (us : List Task) → Distinct us → Distinct (map restore us)
unfolding restore
restore-Distinct [] distinct = tt
restore-Distinct (u ∷ us) distinct =
    (Fresh-restore u.pid us distinct.0, restore-Distinct us distinct.1)

-- The reset stops at the idle task.
pub reset_lem :
    (us : List Task) (idle : Task)
    → Users us
    → IsIdle idle
    → reset_all_priorities (us ++ (idle ∷ [])) ≡ (length us, map restore us ++ (idle ∷ []))
unfolding reset_all_priorities restore
reset_lem [] idle users is = ground arith
reset_lem (u ∷ us) idle users is = ground (arith, reset_lem us idle users.1 is)

-- The reset forgets what a change of that kind could not touch.
module _ (f : Task → Task) (same : SameTask f) where
  pub slices-restore-map :
      (q : ℕ) (us : List Task) → slices q (map restore (map f us)) ≡ slices q (map restore us)
  unfolding restore
  slices-restore-map q [] = refl
  slices-restore-map q (u ∷ us) = ground (arith, same u, slices-restore-map q us)

  pub budget-restore-map :
      (us : List Task) → budget (map restore (map f us)) ≡ budget (map restore us)
  unfolding restore
  budget-restore-map [] = refl
  budget-restore-map (u ∷ us) = ground (arith, same u, budget-restore-map us)

  pub length-map-tasks : (us : List Task) → length (map f us) ≡ length us
  length-map-tasks [] = refl
  length-map-tasks (u ∷ us) = ap suc (length-map-tasks us)
