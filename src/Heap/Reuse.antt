-- ===== src/Heap/Reuse.antt =====
-- A large block given back and asked for again.
use luminary.Base.{
  ℕ, ◌<◌, ◌≡◌, ◌≢◌, refl, subst, true, false, Option, none, some, List, [], ◌∷◌, ◌++◌, arith, ltb,
  ◌==◌, length, Bool-cases, inl, inr,
}
use luminary.Heap.{
  Heap, LargeEntry, slab_sizes, find_class, frames_of, fill_overflow, take_cached, move_last,
  large_alloc, kmalloc, large_cache_max,
}
use luminary.Heap.Free.{freed, take_overflow, push_cached, kfree}

-- No cached block has this many frames.
unfoldable pub Lacks : ℕ → List LargeEntry → Type 0
Lacks nframes [] = Unit
Lacks nframes (e ∷ es) = (e.nframes ≢ nframes) × Lacks nframes es

take_cached-append :
    (virt nframes : ℕ) (cache : List LargeEntry)
    → Lacks nframes cache
    → take_cached nframes (cache ++ (record { virt = virt; nframes = nframes } ∷ []))
      ≡ (virt, cache)
unfolding take_cached move_last Lacks
take_cached-append virt nframes [] lacks = ground arith
take_cached-append virt nframes (e ∷ es) (other, lacks) =
    let differs : (e.nframes == nframes) ≡ false = ground arith in
    rw (take_cached, differs, take_cached-append virt nframes es lacks) refl

-- The entry given back leaves room in the table.
abbrev Refills : LargeEntry → Option (ℕ × List LargeEntry) → Type 0
Refills entry none = Unit
Refills entry (some (nframes, table)) =
    (filled : List LargeEntry) × (fill_overflow table entry ≡ some filled)

Refills-cons :
    (e entry : LargeEntry) (later : Option (ℕ × List LargeEntry))
    → Refills entry later
    → Refills entry (elim later [ none ↦ none | some (nframes, es') ↦ some (nframes, e ∷ es') ])
unfolding fill_overflow
Refills-cons e entry none refills = tt
Refills-cons e entry (some (nframes, table)) (filled, fits) = elim (Bool-cases (e.virt == 0)) [
  | inl empty ↦ (entry ∷ table, rw (fill_overflow, empty) refl)
  | inr in_use ↦ (e ∷ filled, rw (fill_overflow, in_use, fits) refl)
]

take_overflow-Refills :
    (addr : ℕ) (table : List LargeEntry) (entry : LargeEntry)
    → Refills entry (take_overflow addr table)
unfolding take_overflow fill_overflow
take_overflow-Refills addr [] entry = tt
take_overflow-Refills addr (e ∷ es) entry = elim (Bool-cases (e.virt == addr)) [
  | inl here ↦ rw (take_overflow, here) (entry ∷ es, refl)
  | inr later ↦
      rw (take_overflow, later)
        (Refills-cons e entry (take_overflow addr es) (take_overflow-Refills addr es entry))
]

fill-take :
    (addr nframes : ℕ) (table table' : List LargeEntry) (entry : LargeEntry)
    → take_overflow addr table ≡ some (nframes, table')
    → (filled : List LargeEntry) × (fill_overflow table' entry ≡ some filled)
fill-take addr nframes table table' entry e =
    subst (Refills entry) e (take_overflow-Refills addr table entry)

large_class : (size : ℕ) → 4096 < size → find_class size slab_sizes ≡ 8
unfolding find_class
large_class size large = ground arith

-- A block of more than 4096 bytes that `kfree` puts into the large-object cache, where there is
-- room and no block of as many frames, is the one that the next `kmalloc` of as many frames returns,
-- whatever `vmm_alloc_pages` would have mapped.
pub kmalloc-kfree :
    (h : Heap) (addr mapped size : ℕ) (table : List LargeEntry)
    → 0 < addr
    → take_overflow addr h.overflow_table ≡ some (frames_of size, table)
    → length h.large_cache < 8
    → Lacks (frames_of size) h.large_cache
    → 4096 < size
    → (h' : Heap) × (kfree addr h ≡ freed (h', [])) × ((kmalloc mapped size h').0 ≡ addr)
unfolding kfree kmalloc push_cached large_alloc
kmalloc-kfree h addr mapped size table some_addr held room lacks large =
    let not_null : (addr == 0) ≡ false = ground arith in
    let not_zero : (size == 0) ≡ false = ground arith in
    let space : ltb (length h.large_cache) large_cache_max ≡ true = ground arith in
    let cached = take_cached-append addr (frames_of size) h.large_cache lacks in
    let (filled, fits) =
      fill-take addr (frames_of size) h.overflow_table table
        (record { virt = addr; nframes = frames_of size }) held in
    (
      record h {
        overflow_table = table;
        large_cache = h.large_cache ++ (record { virt = addr; nframes = frames_of size } ∷ []);
      },
      rw (not_null, held, space) refl,
      rw (kmalloc, not_zero, large_class size large, large_alloc, cached, not_null, fits)
          (rw (cached, not_null) (rw not_null refl)),
    )
