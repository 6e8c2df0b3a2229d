-- ===== src/Pipe/Table/Create.antt =====
-- Creating a pipe: which slot is taken, and when it fails.
use luminary.Base.{
  ℕ, suc, ◌<◌, ◌≤◌, ◌≡◌, refl, Bool, true, false, not, ◌&&◌, ◌||◌, Option, none, some, [], ◌∷◌,
  arith, ltb, ◌==◌, if◌then◌else◌, length, Bool-cases, inl, inr, ◌⊎◌,
}
use luminary.Pipe.{Pipe}
use luminary.Pipe.Table.{PipeEntry, PipeTable, free_slot, set_slot, new_pipe, pipe_create}
use luminary.Pipe.Table.Refs.{FewRefs, live}

abbrev opened : ℕ → ℕ → PipeEntry
opened r w = record { ring = some new_pipe; read_node = r; write_node = w }

-- A free slot, and what filling it does.
record IsFree (table : PipeTable) (i : ℕ) : Type 0 where
  found : free_slot table ≡ some i
  space : live table < length table
  filled : (r w : ℕ) → live (set_slot table i (opened r w)) ≡ suc (live table)
  few : (r w : ℕ) → FewRefs table → FewRefs (set_slot table i (opened r w))

in_use_bound : (ring : Option Pipe) → (elim ring [ none ↦ 0 | some p ↦ 1 ]) ≤ 1
in_use_bound none = omega arith
in_use_bound (some p) = omega arith

live-length : (table : PipeTable) → live table ≤ length table
unfolding live
live-length [] = omega arith
live-length (e ∷ es) = omega (arith, live-length es, in_use_bound e.ring)

abbrev Searched : PipeTable → Type 0
Searched table =
    ((free_slot table ≡ none) × (live table ≡ length table)) ⊎ ((i : ℕ) × IsFree table i)

Searched-cons :
    (ring : Option Pipe) (a b : ℕ) (es : PipeTable)
    → Searched es
    → Searched (record { ring = ring; read_node = a; write_node = b } ∷ es)
unfolding live set_slot FewRefs free_slot
Searched-cons none a b es later = inr (
  0,
  record {
    found = refl;
    space = omega (arith, live-length es);
    filled = λ r w. omega arith;
    few = λ r w few. ((omega arith, omega arith, omega arith), few.1);
  },
)
Searched-cons (some p) a b es (inl (none_free, all_live)) =
    inl (rw none_free refl, omega (arith, all_live))
Searched-cons (some p) a b es (inr (i, free)) = inr (
  suc i,
  record {
    found = rw (free.found) refl;
    space = omega (arith, free.space);
    filled = λ r w. omega (arith, free.filled r w);
    few = λ r w few. (few.0, free.few r w few.1);
  },
)

search_lem : (table : PipeTable) → Searched table
unfolding live free_slot
search_lem [] = inl (refl, refl)
search_lem (e ∷ es) = Searched-cons e.ring e.read_node e.write_node es (search_lem es)

abbrev pub Creates : Bool → ℕ → ℕ → PipeTable → Type 0
Creates kmalloc_ok rnode wnode table =
    let ok = ltb (live table) (length table) && kmalloc_ok && not (rnode == 0 || wnode == 0) in
    let created = pipe_create kmalloc_ok rnode wnode table in
    (created.nodes ≡ (if ok then some (rnode, wnode) else none))
    × (if ok then live created.table ≡ suc (live table) else created.table ≡ table)
    × FewRefs created.table

create_in :
    (kmalloc_ok : Bool) (rnode wnode : ℕ) (table : PipeTable) (i : ℕ)
    → FewRefs table
    → IsFree table i
    → Creates kmalloc_ok rnode wnode table
unfolding pipe_create
create_in false rnode wnode table i few free =
    let space : ltb (live table) (length table) ≡ true = ground (arith, free.space) in
    rw (pipe_create, free.found, space) (refl, refl, few)
create_in true rnode wnode table i few free =
    let space : ltb (live table) (length table) ≡ true = ground (arith, free.space) in
    elim (Bool-cases (rnode == 0 || wnode == 0)) [
      | inl short ↦ rw (pipe_create, free.found, space, short) (refl, refl, few)
      | inr both ↦
          rw (pipe_create, free.found, space, both)
            (refl, free.filled rnode wnode, free.few rnode wnode few)
    ]

-- `pipe_create` returns the two nodes exactly when the ring and both nodes were allocated and some
-- slot is free. It then takes one slot more; otherwise the table is as before.
pipe_create_lem :
    (kmalloc_ok : Bool) (rnode wnode : ℕ) (table : PipeTable)
    → FewRefs table
    → Creates kmalloc_ok rnode wnode table
unfolding pipe_create
pipe_create_lem kmalloc_ok rnode wnode table few = elim (search_lem table) [
  | inl (none_free, all_live) ↦
      let full : ltb (live table) (length table) ≡ false = ground arith in
      rw (pipe_create, none_free, full) (refl, refl, few)
  | inr (i, free) ↦ create_in kmalloc_ok rnode wnode table i few free
]
