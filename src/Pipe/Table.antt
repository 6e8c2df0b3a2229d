-- ===== src/Pipe/Table.antt =====
-- The slot table of src/kernel/pipe.c: creating a pipe and counting the descriptors on its two
-- ends. A `vfs_node *` is a number, 0 for NULL. Whether `kmalloc` and `vfs_alloc_node` succeed is an
-- argument; what is given back (`kfree` of the ring, `vfs_free_node`) is part of the result.
pub mod Refs
pub mod Close
pub mod Create
use luminary.Base.{
  ℕ, zero, suc, ◌+◌, ◌-◌, ◌*◌, ◌%◌, Bool, true, false, not, ◌&&◌, ◌||◌, Option, none, some, List,
  [], ◌∷◌, ltb, ◌==◌, if◌then◌else◌,
}
use luminary.Pipe.{Pipe}

-- `struct pipe_entry`; `none` is a NULL `p`.
pub record PipeEntry : Type 0 where
  pub ring : Option Pipe
  pub read_node : ℕ
  pub write_node : ℕ

abbrev pub PipeTable : Type 0
PipeTable = List PipeEntry

pub data Effect : Type 0 where
  kfree : Pipe → Effect
  free_node : ℕ → Effect

abbrev pub no_pipe : PipeEntry
no_pipe = record { ring = none; read_node = 0; write_node = 0 }

-- When neither end is held any more the slot is emptied and the ring and both nodes are freed.
pub release : PipeEntry → Pipe → PipeEntry × List Effect
release e p =
    if p.read_refs == 0 && p.write_refs == 0
    then (no_pipe, kfree p ∷ free_node e.read_node ∷ free_node e.write_node ∷ [])
    else (record e { ring = some p }, [])

abbrev pub drop_ref : ℕ → ℕ
drop_ref n = if ltb 0 n then n - 1 else n

-- The loop of `pipe_notify_close`: the first live slot with this node.
pub pipe_notify_close : ℕ → PipeTable → PipeTable × List Effect
unfolding release
pipe_notify_close node [] = ([], [])
pipe_notify_close node (e ∷ es) =
    let (es', effects) = pipe_notify_close node es in
    elim e.ring [
      | none ↦ (e ∷ es', effects)
      | some p ↦
          if node == e.read_node
          then (let (e', freed) = release e (record p { read_refs = drop_ref p.read_refs }) in
              (e' ∷ es, freed))
          else if node == e.write_node
          then (let (e', freed) = release e (record p { write_refs = drop_ref p.write_refs }) in
              (e' ∷ es, freed))
          else (e ∷ es', effects)
    ]

-- The counts are bytes.
abbrev pub add_ref : ℕ → ℕ
add_ref n = (n + 1) % 256

pub pipe_fork_fd : ℕ → PipeTable → PipeTable
pipe_fork_fd node [] = []
pipe_fork_fd node (e ∷ es) =
    let es' = pipe_fork_fd node es in
    elim e.ring [
      | none ↦ e ∷ es'
      | some p ↦
          if node == e.read_node
          then record e { ring = some (record p { read_refs = add_ref p.read_refs }) } ∷ es
          else if node == e.write_node
          then record e { ring = some (record p { write_refs = add_ref p.write_refs }) } ∷ es
          else e ∷ es'
    ]

-- The pipe that a node is an end of.
pub pipe_get_struct : ℕ → PipeTable → Option Pipe
pipe_get_struct node [] = none
pipe_get_struct node (e ∷ es) =
    let later = pipe_get_struct node es in
    elim e.ring [
      | none ↦ later
      | some p ↦ if node == e.read_node || node == e.write_node then some p else later
    ]

-- The search of `pipe_create` for a slot whose `p` is NULL.
pub free_slot : PipeTable → Option ℕ
free_slot [] = none
free_slot (e ∷ es) =
    let later = free_slot es in
    elim e.ring [ none ↦ some 0 | some p ↦ elim later [ none ↦ none | some i ↦ some (suc i) ] ]

pub set_slot : PipeTable → ℕ → PipeEntry → PipeTable
set_slot [] i e = []
set_slot (x ∷ xs) zero e = e ∷ xs
set_slot (x ∷ xs) (suc i) e = x ∷ set_slot xs i e

-- `memset(p, 0, …)` and one descriptor on each end.
abbrev pub new_pipe : Pipe
new_pipe = record { buf = λ i. 0; head = 0; tail = 0; write_refs = 1; read_refs = 1 }

pub record Created : Type 0 where
  pub nodes : Option (ℕ × ℕ)
  pub table : PipeTable
  pub effects : List Effect

-- `kmalloc_ok`: the ring was allocated; `rnode`, `wnode`: the results of the two `vfs_alloc_node`
-- calls, which are made only after that. `nodes` is `none` for the return value -1.
pub pipe_create : (kmalloc_ok : Bool) → (rnode wnode : ℕ) → PipeTable → Created
unfolding free_slot set_slot
pipe_create kmalloc_ok rnode wnode table = elim (free_slot table) [
  | none ↦ record { nodes = none; table = table; effects = [] }
  | some slot ↦
      if not kmalloc_ok
      then record { nodes = none; table = table; effects = [] }
      else if rnode == 0 || wnode == 0
      then record { nodes = none; table = table; effects = kfree new_pipe ∷ [] }
      else record {
        nodes = some (rnode, wnode);
        table =
            set_slot table slot
              (record { ring = some new_pipe; read_node = rnode; write_node = wnode });
        effects = [];
      }
]
