-- ===== src/Sched/Epoch.antt =====
-- A whole scheduling cycle: the timer ticks until no slice is left.
use luminary.Base.{
  ℕ, zero, suc, ◌+◌, ◌<◌, ◌≡◌, refl, sym, ap, ◌∙◌, inl, inr, Option, some, List, [], ◌∷◌, ◌++◌,
  arith, if◌then◌else◌, length, subst,
}
use luminary.Base.Int.{ℤ, pos_part, neg_part}
use luminary.Sched.{Task, Sched, Outcome, ok, panic, sched, is_pid, scan, tied, against}
use luminary.Sched.Scan.{IsIdle, Users, credit, budget, In}
use luminary.Sched.Tasks.{Fresh, Distinct, slices, Fresh-In, slices-Fresh}
use luminary.Sched.Liveness.{Slice, sched-Slice, epoch}

-- `n` timer interrupts, with the task that runs after each.
pub run : ℕ → Sched → Outcome (Sched × List (Option ℕ))
run zero s = ok (s, [])
run (suc n) s = elim (sched s) [
  | panic e ↦ panic e
  | ok s' ↦ elim (run n s') [
    | panic e ↦ panic e
    | ok (end, trace) ↦ ok (end, s'.running_task ∷ trace)
  ]
]

-- How often the task with pid `q` ran.
abbrev pub runs : ℕ → List (Option ℕ) → ℕ
runs q [] = 0
runs q (p ∷ trace) = (if is_pid p q then 1 else 0) + runs q trace

-- The outcome of a whole epoch.
pub record Done (us : List Task) (r : Outcome (Sched × List (Option ℕ))) : Type 0 where
  pub end : Sched
  pub trace : List (Option ℕ)
  pub rest : List Task
  pub idle : Task
  pub result : r ≡ ok (end, trace)
  pub queue : end.queue ≡ rest ++ (idle ∷ [])
  pub exhausted : budget rest ≡ 0
  pub shares : (q : ℕ) → runs q trace ≡ slices q us

nonempty : (us : List Task) → 0 < budget us → 0 < length us
nonempty [] left = absurd (omega arith)
nonempty (u ∷ us) left = omega arith

slices_spent : (q : ℕ) (us : List Task) → budget us ≡ 0 → slices q us ≡ 0
slices_spent q [] spent = refl
slices_spent q (u ∷ us) spent = ground (arith, slices_spent q us)

same_epoch : (us : List Task) → 0 < budget us → epoch us ≡ us
same_epoch us left = ground arith

Done-next :
    (n : ℕ) (s : Sched) (us : List Task) (slice : Slice us (sched s))
    → Done slice.rest (run n slice.next)
    → Done us (run (suc n) s)
unfolding run
Done-next n s us slice later = record {
  end = later.end;
  trace = slice.next.running_task ∷ later.trace;
  rest = later.rest;
  idle = later.idle;
  result = rw (slice.result, run) (rw (later.result, run));
  queue = later.queue;
  exhausted = later.exhausted;
  shares = λ q. ground (arith, later.shares q, slice.aged.paid q, slice.runs);
}

run-Done :
    (n : ℕ) (s : Sched) (us : List Task) (idle : Task)
    → s.queue ≡ us ++ (idle ∷ [])
    → Users us
    → Distinct us
    → IsIdle idle
    → budget us ≡ n
    → Done us (run n s)
unfolding run
run-Done zero s us idle e users distinct is b = record {
  end = s;
  trace = [];
  rest = us;
  idle = idle;
  result = refl;
  queue = e;
  exhausted = b;
  shares = λ q. sym (slices_spent q us b);
}
run-Done (suc n) s us idle e users distinct is b =
    let slice =
      subst (λ x. Slice x (sched s)) (same_epoch us (omega arith))
        (sched-Slice s us idle e users distinct is (nonempty us (omega arith))) in
    Done-next n s us slice (
      run-Done n slice.next slice.rest slice.idle slice.queue slice.aged.users slice.aged.distinct
        slice.is_idle (omega (arith, slice.aged.spent)))

-- Of a task in a queue with distinct pids.
slices-In : (t : Task) (us : List Task) → Distinct us → In t us → slices t.pid us ≡ credit t
slices-In t [] distinct mem = absurd mem
slices-In t (u ∷ us) distinct (inl e) =
    subst (λ x. slices x.pid (u ∷ us) ≡ credit x) (sym e)
      (ground (arith, slices-Fresh u.pid us distinct.0))
slices-In t (u ∷ us) distinct (inr mem) =
    ground (arith, slices-In t us distinct.1 mem, Fresh-In u.pid t us distinct.0 mem)

-- A scheduling cycle is fair. Let the queue hold user tasks with distinct pids before the idle
-- task, and let `budget us` be the sum of their dynamic priorities. That many ticks all return;
-- each task runs exactly as often as its dynamic priority says (its static one, at the start of an
-- epoch), a pid outside the queue never, and afterwards no task has a slice left.
pub run_fair :
    (s : Sched) (us : List Task) (idle : Task)
    → s.queue ≡ us ++ (idle ∷ [])
    → Users us
    → Distinct us
    → IsIdle idle
    → (end : Sched) × (trace : List (Option ℕ)) × (rest : List Task) × (idle' : Task) × (run
          (budget us)
          s
        ≡ ok (end, trace))
      × ((t : Task) → In t us → runs t.pid trace ≡ credit t)
      × ((q : ℕ) → Fresh q us → runs q trace ≡ 0)
      × (end.queue ≡ rest ++ (idle' ∷ []))
      × (budget rest ≡ 0)
run_fair s us idle e users distinct is =
    let done = run-Done (budget us) s us idle e users distinct is refl in
    (
      done.end,
      done.trace,
      done.rest,
      done.idle,
      done.result,
      λ t mem. done.shares t.pid ∙ slices-In t us distinct mem,
      λ q fresh. done.shares q ∙ slices-Fresh q us fresh,
      done.queue,
      done.exhausted,
    )

tied_level :
    (running : Option ℕ) (prio : ℤ) (first : Task) (group : List Task)
    → first.prio_d ≡ prio
    → pos_part (tied running prio first group).prio_d ≡ pos_part prio
unfolding tied
tied_level running prio first [] e = ap pos_part e
tied_level running prio first (g ∷ group) e = ground (arith, tied_level running prio first group e)

-- A tie ends the scan. When the first two tasks of the queue are level, and not suspended, the
-- task picked is of that priority, whatever stands behind them, a higher priority included.
pub scan_tie :
    (running : Option ℕ) (a b : Task) (rest : List Task)
    → 0 < credit a
    → neg_part a.prio_d ≡ 0
    → b.prio_d ≡ a.prio_d
    → (picked : Task) × (scan running (a ∷ b ∷ rest) ≡ some (a, picked))
      × (pos_part picked.prio_d ≡ credit a)
unfolding scan against
scan_tie running a b rest left sign level = (
  tied running a.prio_d a (a ∷ b ∷ rest),
  ground arith,
  tied_level running a.prio_d a (a ∷ b ∷ rest) refl,
)
