-- ===== src/Heap/Tests.antt =====
-- The heap at concrete states: the witnesses.
use luminary.Base.{ℕ, ◌*◌, ◌≤◌, ◌≡◌, refl, some, List, [], ◌∷◌, ◌++◌, arith}
use luminary.Heap.{
  Heap, kmalloc, SlabPage, LargeEntry, new_page, take_slot, word_set, slab_page_alloc,
  alloc_in_pages,
}
use luminary.Heap.Page.{IsValid, IsHandedOut, slab_page_alloc_lem}
use luminary.Heap.Free.{kfree, take_overflow, free_in_pages, freed, double_free, push_cached}
use luminary.Heap.Roundtrip.{Apart, ArePages, free_in_pages-alloc_in_pages}
use luminary.Heap.Reuse.{Lacks, kmalloc-kfree}
use luminary.Heap.Cache.{push_cached_order}

-- A page of 64-byte slots, with the first one taken.
abbrev page : SlabPage
page = take_slot (new_page 8192 64) 0

page-IsValid : IsValid page
unfolding take_slot
page-IsValid = record { bits = omega arith; bound = omega arith }

slots_fit : page.n_slots * 64 ≤ 4096
unfolding take_slot
slots_fit = omega arith

slab_page_alloc_lem_example : IsHandedOut page 64 (slab_page_alloc page 64)
slab_page_alloc_lem_example = slab_page_alloc_lem page 64 page-IsValid slots_fit (omega arith)

pages-ArePages : ArePages 64 (page ∷ [])
unfolding ArePages Apart take_slot
pages-ArePages = (record { valid = page-IsValid; fits = slots_fit; count = omega arith }, tt, tt)

second_slot : alloc_in_pages (page ∷ []) 64 ≡ some (8256, take_slot page 1 ∷ [])
unfolding alloc_in_pages word_set
second_slot = refl

free_in_pages-alloc_in_pages_example :
    (free_in_pages 8256 64 (take_slot page 1 ∷ []) ≡ freed (page ∷ []))
    × (free_in_pages 8256 64 (page ∷ []) ≡ double_free)
free_in_pages-alloc_in_pages_example =
    free_in_pages-alloc_in_pages 64 (page ∷ []) 8256 (take_slot page 1 ∷ []) (omega arith)
      pages-ArePages second_slot

abbrev block : ℕ → LargeEntry
block n = record { virt = n * 65536; nframes = 2 }

abbrev six : List LargeEntry
six = block 2 ∷ block 3 ∷ block 4 ∷ block 5 ∷ block 6 ∷ block 7 ∷ []

push_cached_order_example :
    let (cache, first_back) = push_cached (block 9) (block 1 ∷ six ++ (block 8 ∷ [])) in
    (first_back ≡ block 1 ∷ []) × ((push_cached (block 10) cache).1 ≡ block 8 ∷ [])
push_cached_order_example = push_cached_order (block 1) (block 8) (block 9) (block 10) six refl

-- Two frames in use at 0x10000, and an empty cache.
abbrev heap : Heap
heap = record { classes = []; overflow_table = block 1 ∷ []; large_cache = [] }

held : take_overflow 65536 heap.overflow_table ≡ some (2, record { virt = 0; nframes = 0 } ∷ [])
unfolding take_overflow
held = refl

heap-Lacks : Lacks 2 heap.large_cache
unfolding Lacks
heap-Lacks = tt

kmalloc-kfree_example :
    (h' : Heap) × (kfree 65536 heap ≡ freed (h', [])) × ((kmalloc 0 5000 h').0 ≡ 65536)
kmalloc-kfree_example =
    kmalloc-kfree heap 65536 0 5000 (record { virt = 0; nframes = 0 } ∷ []) (omega arith) held
      (omega arith) heap-Lacks (omega arith)
