-- ===== src/Heap/Free.antt =====
-- `kfree` and `init_kernel_heap` of src/kernel/heap.c.
use luminary.Base.{
  ℕ, zero, suc, ◌+◌, ◌-◌, ◌*◌, ◌/◌, ◌%◌, false, not, ◌||◌, Option, none, some, List, [], ◌∷◌, ◌++◌,
  map, length, ltb, leb, ◌==◌, if◌then◌else◌,
}
use luminary.Heap.{
  Heap, SlabClass, SlabPage, LargeEntry, page_size, u32, slab_sizes, large_cache_max, word_set,
  move_last,
}

-- What a search for the address comes to; `misaligned` and `double_free` are panics.
pub data Freed (A : Type 0) : Type 0 where
  absent misaligned double_free : Freed A
  freed : A → Freed A

abbrev pub map_freed : {A B : Type 0} → (A → B) → Freed A → Freed B
map_freed f absent = absent
map_freed f misaligned = misaligned
map_freed f double_free = double_free
map_freed f (freed x) = freed (f x)

-- `sp->bitmap[w] &= ~(1u << bit); sp->n_free++;`
unfoldable pub clear_slot : SlabPage → ℕ → SlabPage
clear_slot sp slot = record sp {
  bitmap = word_set sp.bitmap (slot / 32) (slot % 32) false;
  n_free = (sp.n_free + 1) % u32;
}

-- The body of the loop of `kfree` over the pages of a class.
unfoldable pub free_in_page : (addr obj_size : ℕ) → SlabPage → Freed SlabPage
free_in_page addr obj_size sp =
    let slot = (addr - sp.phys) / obj_size in
    if ltb addr sp.phys || leb ((sp.phys + page_size) % u32) addr
    then absent
    else if not ((sp.phys + slot * obj_size) % u32 == addr)
    then misaligned
    else if not (sp.bitmap (slot / 32) (slot % 32))
    then double_free
    else freed (clear_slot sp slot)

unfoldable pub free_in_pages : (addr obj_size : ℕ) → List SlabPage → Freed (List SlabPage)
free_in_pages addr obj_size [] = absent
free_in_pages addr obj_size (sp ∷ rest) =
    let later = free_in_pages addr obj_size rest in
    elim (free_in_page addr obj_size sp) [
      | absent ↦ map_freed (λ rest'. sp ∷ rest') later
      | misaligned ↦ misaligned
      | double_free ↦ double_free
      | freed sp' ↦ freed (sp' ∷ rest)
    ]

unfoldable pub free_in_classes : (addr : ℕ) → List SlabClass → Freed (List SlabClass)
free_in_classes addr [] = absent
free_in_classes addr (cls ∷ rest) =
    let later = free_in_classes addr rest in
    elim (free_in_pages addr cls.obj_size cls.pages) [
      | absent ↦ map_freed (λ rest'. cls ∷ rest') later
      | misaligned ↦ misaligned
      | double_free ↦ double_free
      | freed pages ↦ freed (record cls { pages = pages } ∷ rest)
    ]

-- The first entry of the overflow table at the address: its frames, and the table with it cleared.
unfoldable pub take_overflow : (addr : ℕ) → List LargeEntry → Option (ℕ × List LargeEntry)
take_overflow addr [] = none
take_overflow addr (e ∷ es) =
    let later = take_overflow addr es in
    if e.virt == addr
    then some (e.nframes, record { virt = 0; nframes = 0 } ∷ es)
    else elim later [ none ↦ none | some (nframes, es') ↦ some (nframes, e ∷ es') ]

-- The last entry moved over the one at index 0, which is given back, and `entry` put last.
unfoldable pub evict : LargeEntry → List LargeEntry → List LargeEntry × List LargeEntry
evict entry [] = (entry ∷ [], [])
evict entry (e ∷ es) = (move_last es ++ (entry ∷ []), e ∷ [])

-- The push onto the large-object cache: the cache, and what goes to `vmm_free_pages`.
unfoldable pub push_cached : LargeEntry → List LargeEntry → List LargeEntry × List LargeEntry
unfolding evict
push_cached entry cache =
    if ltb (length cache) large_cache_max then (cache ++ (entry ∷ []), []) else evict entry cache

-- The heap, and the ranges given to `vmm_free_pages`. `absent` is the panic "not found".
unfoldable pub kfree : (addr : ℕ) → Heap → Freed (Heap × List LargeEntry)
unfolding take_overflow push_cached free_in_classes
kfree addr h = if addr == 0 then freed (h, []) else elim (take_overflow addr h.overflow_table) [
  | some (nframes, table) ↦
      let (cache, given_back) =
        push_cached (record { virt = addr; nframes = nframes }) h.large_cache in
      freed (record h { overflow_table = table; large_cache = cache }, given_back)
  | none ↦
      map_freed (λ classes. (record h { classes = classes }, [])) (free_in_classes addr h.classes)
]

abbrev replicate : ℕ → LargeEntry → List LargeEntry
replicate zero e = []
replicate (suc n) e = e ∷ replicate n e

-- The state of the large-object cache is that of the statics, empty.
pub init_kernel_heap : Heap
init_kernel_heap = record {
  classes = map (λ size. record { obj_size = size; pages = [] }) slab_sizes;
  overflow_table = replicate 128 (record { virt = 0; nframes = 0 });
  large_cache = [];
}
