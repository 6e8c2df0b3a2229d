-- ===== src/Pipe/Table/Refs.antt =====
-- The descriptors on the two ends of a pipe.
use luminary.Base.{
  ℕ, ◌+◌, ◌<◌, ◌≡◌, refl, false, ◌&&◌, Option, none, some, [], ◌∷◌, arith, ◌==◌, Bool-cases, inl,
  inr,
}
use luminary.Pipe.{Pipe}
use luminary.Pipe.Table.{PipeTable, drop_ref, add_ref, pipe_notify_close, pipe_fork_fd}

abbrev pub Few : Option Pipe → Type 0
Few none = Unit
Few (some p) = (0 < p.read_refs + p.write_refs) × (p.read_refs < 255) × (p.write_refs < 255)

-- A live slot has a descriptor on some end, and fewer than 255 on each.
unfoldable pub FewRefs : PipeTable → Type 0
FewRefs [] = Unit
FewRefs (e ∷ es) = Few e.ring × FewRefs es

drop-add : (n : ℕ) → n < 255 → drop_ref (add_ref n) ≡ n
drop-add n few = ground arith

fork-close-slot :
    (node : ℕ) (ring : Option Pipe) (r w : ℕ) (es : PipeTable)
    → Few ring
    → pipe_notify_close node (pipe_fork_fd node es) ≡ (es, [])
    → let table = record { ring = ring; read_node = r; write_node = w } ∷ es in
      pipe_notify_close node (pipe_fork_fd node table) ≡ (table, [])
unfolding pipe_notify_close pipe_fork_fd
fork-close-slot node none r w es few later = rw later refl
fork-close-slot node (some p) r w es few later =
    let (some_refs, few_read, few_write) = few in
    let in_use : (p.read_refs == 0 && p.write_refs == 0) ≡ false = ground arith in
    elim (Bool-cases (node == r)) [
      | inl read_end ↦ rw read_end (rw read_end (rw (drop-add p.read_refs few_read, in_use) refl))
      | inr other ↦ elim (Bool-cases (node == w)) [
        | inl write_end ↦
            rw (other, write_end)
              (rw (other, write_end) (rw (drop-add p.write_refs few_write, in_use) refl))
        | inr neither ↦ rw (other, neither) (rw (other, neither, later) refl)
      ]
    ]

-- Forking a descriptor of a pipe and closing the copy leaves every slot as it was, and frees
-- nothing, as long as each live slot has a descriptor and no end of a pipe has 255.
fork-close :
    (node : ℕ) (table : PipeTable)
    → FewRefs table
    → pipe_notify_close node (pipe_fork_fd node table) ≡ (table, [])
unfolding FewRefs pipe_notify_close pipe_fork_fd
fork-close node [] few = refl
fork-close node (e ∷ es) (few, rest) =
    fork-close-slot node e.ring e.read_node e.write_node es few (fork-close node es rest)

-- How many slots are in use.
unfoldable pub live : PipeTable → ℕ
live [] = 0
live (e ∷ es) = (elim e.ring [ none ↦ 0 | some p ↦ 1 ]) + live es
