-- ===== src/Sched/Insert.antt =====
-- The insertion of `create_task` keeps the queue in order of static priority.
use luminary.Base.{inl, inr, List, [], ◌∷◌, arith, Bool-cases}
use mathlib.Core.List.{Perm}
use mathlib.Core.List.Perm
use luminary.Base.Int.{ltb_ℤ, ◌≤ℤ◌, ℤ}
use luminary.Sched.{Task, insert_task}

-- Static priorities do not rise along the queue.
abbrev pub AtMost : ℤ → List Task → Type 0
AtMost p [] = Unit {0}
AtMost p (t ∷ ts) = (t.prio_s ≤ℤ p) × AtMost p ts

abbrev pub IsOrdered : List Task → Type 0
IsOrdered [] = Unit {0}
IsOrdered (t ∷ ts) = AtMost t.prio_s ts × IsOrdered ts

AtMost-mono : (p q : ℤ) (ts : List Task) → p ≤ℤ q → AtMost p ts → AtMost q ts
AtMost-mono p q [] h below = tt
AtMost-mono p q (t ∷ ts) h below = (omega arith, AtMost-mono p q ts h below.1)

AtMost-insert :
    (p : ℤ) (t : Task) (ts : List Task) → t.prio_s ≤ℤ p → AtMost p ts → AtMost p (insert_task t ts)
unfolding insert_task
AtMost-insert p t [] h below = (h, tt)
AtMost-insert p t (u ∷ ts) h below = ground (arith, AtMost-insert p t ts h)

insert_task-IsOrdered :
    (t : Task) (queue : List Task) → IsOrdered queue → IsOrdered (insert_task t queue)
unfolding insert_task
insert_task-IsOrdered t [] ordered = (tt, tt)
insert_task-IsOrdered t (u ∷ queue) ordered = ground (
  arith,
  insert_task-IsOrdered t queue ordered.1,
  AtMost-insert u.prio_s t queue,
  AtMost-mono u.prio_s t.prio_s queue,
)

insert_task-perm : (t : Task) (queue : List Task) → Perm (insert_task t queue) (t ∷ queue)
unfolding insert_task
insert_task-perm t [] = Perm.refl (t ∷ [])
insert_task-perm t (u ∷ queue) = elim (Bool-cases (ltb_ℤ t.prio_s u.prio_s)) [
  | inl later ↦ rw later (Perm.trans (Perm.cons u (insert_task-perm t queue)) (Perm.swap t u queue))
  | inr here ↦ rw here (Perm.refl (t ∷ u ∷ queue))
]

-- `create_task` puts the new task into the queue without losing or repeating any other, and a
-- queue whose static priorities do not rise stays such a queue.
pub insert_task_lem :
    (t : Task) (queue : List Task)
    → IsOrdered queue
    → IsOrdered (insert_task t queue) × Perm (insert_task t queue) (t ∷ queue)
insert_task_lem t queue ordered = (insert_task-IsOrdered t queue ordered, insert_task-perm t queue)
