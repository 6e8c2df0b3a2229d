-- ===== src/Pipe/Table/Close.antt =====
-- What closing an end of a pipe frees and keeps, pipe_notify_close of src/kernel/pipe.c.
use luminary.Base.{
  ℕ, suc, ◌+◌, ◌<◌, ◌≤◌, ◌≡◌, refl, sym, ap, ◌∙◌, length, min, if◌then◌else◌, ◌&&◌, Option, none,
  some, List, [], ◌∷◌, arith, ◌==◌, Bool-cases, inl, inr,
}
use luminary.Pipe.{Pipe}
use luminary.Pipe.Table.{
  PipeEntry, PipeTable, Effect, kfree, free_node, release, drop_ref, pipe_notify_close,
}
use luminary.Pipe.Table.Refs.{Few, FewRefs}

-- The slots that were in use and are not any more.
pub emptied : (before after : PipeTable) → List PipeEntry
emptied [] after = []
emptied (e ∷ es) [] = []
emptied (e ∷ es) (e' ∷ es') =
    let rest = emptied es es' in
    elim e.ring [ none ↦ rest | some p ↦ elim e'.ring [ none ↦ e ∷ rest | some p' ↦ rest ] ]

-- The nodes of the two ends of each slot.
pub ends : List PipeEntry → List ℕ
ends [] = []
ends (e ∷ es) = e.read_node ∷ e.write_node ∷ ends es

pub freed_nodes : List Effect → List ℕ
freed_nodes [] = []
freed_nodes (kfree p ∷ effects) = freed_nodes effects
freed_nodes (free_node n ∷ effects) = n ∷ freed_nodes effects

pub kfrees : List Effect → ℕ
kfrees [] = 0
kfrees (kfree p ∷ effects) = suc (kfrees effects)
kfrees (free_node n ∷ effects) = kfrees effects

-- How many descriptors a close takes from the pipe that the node is an end of: one, if that end has any.
pub held : (node : ℕ) → PipeTable → ℕ
held node [] = 0
held node (e ∷ es) =
    let later = held node es in
    elim e.ring [
      | none ↦ later
      | some p ↦
          if node == e.read_node
          then min p.read_refs 1
          else if node == e.write_node
          then min p.write_refs 1
          else later
    ]

abbrev refs_of : Option Pipe → ℕ
refs_of none = 0
refs_of (some p) = p.read_refs + p.write_refs

-- How many descriptors there are on the ends of all pipes.
unfoldable pub refs : PipeTable → ℕ
refs [] = 0
refs (e ∷ es) = refs_of e.ring + refs es

-- A ring that stays in use has the bytes it had, and no more descriptors on either end.
abbrev SameBytes : (before after : Option Pipe) → Type 0
SameBytes before none = Unit
SameBytes none (some p') = ⊥
SameBytes (some p) (some p') =
    (p'.buf ≡ p.buf)
    × (p'.head ≡ p.head)
    × (p'.tail ≡ p.tail)
    × (p'.read_refs ≤ p.read_refs)
    × (p'.write_refs ≤ p.write_refs)

abbrev SameEnds : (before after : PipeEntry) → Option Pipe → Type 0
SameEnds e e' none = Unit
SameEnds e e' (some p) = (e'.read_node ≡ e.read_node) × (e'.write_node ≡ e.write_node)

-- The slots that are in use afterwards were so before, with the same nodes and bytes.
pub Keeps : (before after : PipeTable) → Type 0
Keeps [] [] = Unit
Keeps [] (e' ∷ es') = ⊥
Keeps (e ∷ es) [] = ⊥
Keeps (e ∷ es) (e' ∷ es') = SameBytes e.ring e'.ring × SameEnds e e' e'.ring × Keeps es es'

SameBytes-refl : (r : Option Pipe) → SameBytes r r
SameBytes-refl none = tt
SameBytes-refl (some p) = (refl, refl, refl, omega arith, omega arith)

SameEnds-refl : (e : PipeEntry) (r : Option Pipe) → SameEnds e e r
SameEnds-refl e none = tt
SameEnds-refl e (some p) = (refl, refl)

Keeps-refl : (es : PipeTable) → Keeps es es
unfolding Keeps
Keeps-refl [] = tt
Keeps-refl (e ∷ es) = (SameBytes-refl e.ring, SameEnds-refl e e.ring, Keeps-refl es)

emptied-slot :
    (ring : Option Pipe) (r w r' w' : ℕ) (es es' : PipeTable)
    → emptied
        (record { ring = ring; read_node = r; write_node = w } ∷ es)
        (record { ring = ring; read_node = r'; write_node = w' } ∷ es')
      ≡ emptied es es'
unfolding emptied
emptied-slot none r w r' w' es es' = refl
emptied-slot (some p) r w r' w' es es' = refl

emptied_refl : (es : PipeTable) → emptied es es ≡ []
unfolding emptied
emptied_refl [] = refl
emptied_refl (e ∷ es) =
    emptied-slot e.ring e.read_node e.write_node e.read_node e.write_node es es ∙ emptied_refl es

-- What a close may do.
record Closes (taken : ℕ) (table : PipeTable) (out : PipeTable × List Effect) : Type 0 where
  rings : kfrees out.1 ≡ length (emptied table out.0)
  nodes : freed_nodes out.1 ≡ ends (emptied table out.0)
  kept : Keeps table out.0
  count : refs table ≡ refs out.0 + taken
  few : FewRefs out.0

release-Closes :
    (r w a b taken : ℕ) (p : Pipe) (es : PipeTable)
    → p.read_refs < 255
    → p.write_refs < 255
    → a ≤ p.read_refs
    → b ≤ p.write_refs
    → p.read_refs + p.write_refs ≡ a + b + taken
    → FewRefs es
    → let e : PipeEntry = record { ring = some p; read_node = r; write_node = w } in
      let (e', freed) = release e (record p { read_refs = a; write_refs = b }) in
      Closes taken (e ∷ es) (e' ∷ es, freed)
unfolding release emptied ends kfrees freed_nodes FewRefs refs Keeps
release-Closes r w a b taken p es few_read few_write fewer_read fewer_write one few =
    let same = emptied_refl es in
    elim (Bool-cases (a == 0 && b == 0)) [
      | inl last ↦ rw last (record {
        rings = ap (λ xs. suc (length xs)) (sym same);
        nodes = ap (λ xs. r ∷ w ∷ ends xs) (sym same);
        kept = (tt, tt, Keeps-refl es);
        count = ground (arith, last, one);
        few = (tt, few);
      })
      | inr kept ↦ rw kept (record {
        rings = ap length (sym same);
        nodes = ap ends (sym same);
        kept = ((refl, refl, refl, fewer_read, fewer_write), (refl, refl), Keeps-refl es);
        count = omega (arith, one);
        few = (
          (
            ground arith,
            omega (arith, fewer_read, few_read),
            omega (arith, fewer_write, few_write),
          ),
          few,
        );
      })
    ]

keep-Closes :
    (taken : ℕ) (ring : Option Pipe) (r w : ℕ) (es : PipeTable) (out : PipeTable × List Effect)
    → Few ring
    → Closes taken es out
    → let e : PipeEntry = record { ring = ring; read_node = r; write_node = w } in
      Closes taken (e ∷ es) (e ∷ out.0, out.1)
unfolding FewRefs refs Keeps
keep-Closes taken ring r w es out few closes =
    let e : PipeEntry = record { ring = ring; read_node = r; write_node = w } in
    let same = emptied-slot ring r w r w es out.0 in
    record {
      rings = closes.rings ∙ ap length (sym same);
      nodes = closes.nodes ∙ ap ends (sym same);
      kept = (SameBytes-refl ring, SameEnds-refl e ring, closes.kept);
      count = omega (arith, closes.count);
      few = (few, closes.few);
    }

close-slot :
    (node : ℕ) (ring : Option Pipe) (r w : ℕ) (es : PipeTable)
    → Few ring
    → FewRefs es
    → Closes (held node es) es (pipe_notify_close node es)
    → let table = record { ring = ring; read_node = r; write_node = w } ∷ es in
      Closes (held node table) table (pipe_notify_close node table)
unfolding pipe_notify_close held
close-slot node none r w es few rest later = keep-Closes (held node es) none r w es _ few later
close-slot node (some p) r w es few rest later =
    let (some_refs, few_read, few_write) = few in
    elim (Bool-cases (node == r)) [
      | inl read_end ↦ rw read_end (
          release-Closes r w (drop_ref p.read_refs) p.write_refs (min p.read_refs 1) p es few_read
            few_write (ground arith) (omega arith) (ground arith) rest)
      | inr other ↦ elim (Bool-cases (node == w)) [
        | inl write_end ↦
            rw (other, write_end)
              (release-Closes r w p.read_refs (drop_ref p.write_refs) (min p.write_refs 1) p es
                few_read few_write (omega arith) (ground arith) (ground arith) rest)
        | inr neither ↦ rw (other, neither) (keep-Closes (held node es) (some p) r w es _ few later)
      ]
    ]

pipe_notify_close-Closes :
    (node : ℕ) (table : PipeTable)
    → FewRefs table
    → Closes (held node table) table (pipe_notify_close node table)
unfolding FewRefs pipe_notify_close emptied ends kfrees freed_nodes refs Keeps held
pipe_notify_close-Closes node [] few = record {
  rings = refl;
  nodes = refl;
  kept = tt;
  count = omega arith;
  few = few;
}
pipe_notify_close-Closes node (e ∷ es) (few, rest) =
    close-slot node e.ring e.read_node e.write_node es few rest
      (pipe_notify_close-Closes node es rest)

-- Closing a node frees as many rings as it empties slots, and exactly the read node and the write
-- node of each slot that it empties. A slot that stays in use keeps its nodes and its bytes. On all
-- pipes there is one descriptor fewer if the end of the node had any, and as many as before if not;
-- each slot in use still has one, and fewer than 255 on each end, as long as that was so before.
pub pipe_notify_close_lem :
    (node : ℕ) (table : PipeTable)
    → FewRefs table
    → let (table', effects) = pipe_notify_close node table in
      (kfrees effects ≡ length (emptied table table'))
      × (freed_nodes effects ≡ ends (emptied table table'))
      × Keeps table table'
      × (refs table ≡ refs table' + held node table)
      × FewRefs table'
pipe_notify_close_lem node table few =
    let c = pipe_notify_close-Closes node table few in (c.rings, c.nodes, c.kept, c.count, c.few)
