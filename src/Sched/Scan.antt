-- ===== src/Sched/Scan.antt =====
-- What the scan under `pick` finds in a queue of user tasks that ends with the idle task.
use luminary.Base.{
  ℕ, ◌+◌, ◌≤◌, ◌<◌, ◌≡◌, ◌≢◌, refl, ◌∙◌, ◌⊎◌, inl, inr, Option, some, List, [], ◌∷◌, ◌++◌, arith,
  Bool-cases,
}
use luminary.Base.Int.{negsuc, pos_part, neg_part, eq_ℤ}
use luminary.Sched.{Task, Against, against, tied, scan, pid_idle, level_susp}

-- A task made by `create_task`: a static priority from 1 on, and a dynamic one from 0 up to it.
pub record IsUser (t : Task) : Type 0 where
  pub not_idle : t.pid ≢ pid_idle
  pub static_sign : neg_part t.prio_s ≡ 0
  pub static_pos : 1 ≤ pos_part t.prio_s
  pub dynamic_sign : neg_part t.prio_d ≡ 0
  pub dynamic_le : pos_part t.prio_d ≤ pos_part t.prio_s

-- The idle task as `init_task` makes it: both priorities are SCHED_LEVEL_IDLE.
pub record IsIdle (t : Task) : Type 0 where
  pub idle_pid : t.pid ≡ pid_idle
  pub idle_static : t.prio_s ≡ negsuc 0
  pub idle_dynamic : t.prio_d ≡ negsuc 0

abbrev pub Users : List Task → Type 0
Users [] = Unit {0}
Users (t ∷ ts) = IsUser t × Users ts

-- The slices that a task has left, and those of the whole queue.
abbrev pub credit : Task → ℕ
credit t = pos_part t.prio_d

abbrev pub budget : List Task → ℕ
budget [] = 0
budget (t ∷ ts) = credit t + budget ts

abbrev pub In : Task → List Task → Type 0
In t [] = ⊥
In t (u ∷ us) = (t ≡ u) ⊎ In t us

tied-In :
    (running : Option ℕ) (first idle : Task) (us : List Task)
    → Users us
    → IsIdle idle
    → neg_part first.prio_d ≡ 0
    → let r = tied running first.prio_d first (us ++ (idle ∷ [])) in
      (r ≡ first) ⊎ (In r us × (pos_part r.prio_d ≡ pos_part first.prio_d))
unfolding tied
tied-In running first idle [] users is sign = ground arith
tied-In running first idle (u ∷ us) users is sign =
    ground (arith, tied-In running first idle us users.1 is sign)

-- The scan stops at a user task and picks one that has slices left.
abbrev pub Chooses : List Task → Option (Task × Task) → Type 0
Chooses us r =
    (t : Task) × (picked : Task) × (r ≡ some (t, picked))
    × (t.pid ≢ pid_idle)
    × In picked us
    × (0 < credit picked)

Against-cases : (a : Against) → (a ≡ Against.above) ⊎ ((a ≡ Against.level) ⊎ (a ≡ Against.below))
Against-cases Against.above = inl refl
Against-cases Against.level = inr (inl refl)
Against-cases Against.below = inr (inr refl)

-- A task below the next one is followed by a user task with slices left.
below-budget :
    (u idle : Task) (us : List Task)
    → IsUser u
    → Users us
    → IsIdle idle
    → against u (us ++ (idle ∷ [])) ≡ Against.below
    → 0 < budget us
unfolding against
below-budget u idle [] user users is e = ground arith
below-budget u idle (v ∷ us) user users is e = ground arith

Chooses-later :
    (u : Task) (us : List Task) (r r' : Option (Task × Task))
    → Chooses us r
    → r' ≡ r
    → Chooses (u ∷ us) r'
Chooses-later u us r r' (t, picked, e, user, mem, left) same =
    (t, picked, same ∙ e, user, inr mem, left)

pub scan_awake :
    (running : Option ℕ) (idle : Task) (us : List Task)
    → Users us
    → IsIdle idle
    → 0 < budget us
    → Chooses us (scan running (us ++ (idle ∷ [])))
unfolding scan
scan_awake running idle [] users is some_left = absurd (omega arith)
scan_awake running idle (u ∷ us) users is some_left = elim (Bool-cases (eq_ℤ u.prio_d level_susp)) [
  | inl spent ↦
      Chooses-later u us _ _ (scan_awake running idle us users.1 is (ground arith)) (rw spent)
  | inr left ↦ elim (Against-cases (against u (us ++ (idle ∷ [])))) [
    | inl above ↦ (u, u, rw (left, above), users.0.not_idle, inl refl, ground arith)
    | inr (inl level) ↦
        let found = tied-In running u idle (u ∷ us) users is users.0.dynamic_sign in
        (
          u,
          tied running u.prio_d u (u ∷ (us ++ (idle ∷ []))),
          rw (left, level),
          users.0.not_idle,
          ground (arith, found),
          ground (arith, found),
        )
    | inr (inr below) ↦
        Chooses-later u us _ _
          (scan_awake running idle us users.1 is (below-budget u idle us users.0 users.1 is below))
          (rw (left, below))
  ]
]

-- With no slice left anywhere the scan comes to the idle task.
pub scan_asleep :
    (running : Option ℕ) (idle : Task) (us : List Task)
    → Users us
    → IsIdle idle
    → budget us ≡ 0
    → scan running (us ++ (idle ∷ [])) ≡ some (idle, idle)
unfolding scan against
scan_asleep running idle [] users is spent = ground arith
scan_asleep running idle (u ∷ us) users is spent =
    ground (arith, scan_asleep running idle us users.1 is)
