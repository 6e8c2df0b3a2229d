-- ===== src/Heap.antt =====
-- The slab allocator, src/kernel/heap.c. An address is a number, 0 for NULL. A bitmap is a function
-- of the word and the bit; an array with a count is the list of its entries. The address that
-- `vmm_alloc_pages` returns, if `kmalloc` calls it, is the argument `mapped`; the ranges given to
-- `vmm_free_pages` are part of the result.
pub mod Free
pub mod Page
pub mod Cache
pub mod Reuse
mod Tests
pub mod Roundtrip
use luminary.Base.{
  ℕ, zero, suc, ◌+◌, ◌-◌, ◌*◌, ◌/◌, ◌%◌, ◌^◌, Bool, true, false, not, ◌&&◌, ◌||◌, Option, none,
  some, List, [], ◌∷◌, ◌++◌, length, ltb, leb, ◌==◌, if◌then◌else◌,
}

abbrev pub page_size : ℕ
page_size = 4096

abbrev pub u32 : ℕ
u32 = 2 ^ 32

abbrev pub slab_sizes : List ℕ
slab_sizes = 32 ∷ 64 ∷ 128 ∷ 256 ∷ 512 ∷ 1024 ∷ 2048 ∷ 4096 ∷ []

abbrev pub slab_bitmap_words : ℕ
slab_bitmap_words = 4

pub record SlabPage : Type 0 where
  pub phys : ℕ
  pub n_slots : ℕ
  pub n_free : ℕ
  pub bitmap : ℕ → ℕ → Bool

abbrev pub max_slabs_per_class : ℕ
max_slabs_per_class = 64

-- `n_pages` is the length of `pages`.
pub record SlabClass : Type 0 where
  pub obj_size : ℕ
  pub pages : List SlabPage

-- `struct overflow_entry`, which `struct large_cache_entry` repeats.
pub record LargeEntry : Type 0 where
  pub virt : ℕ
  pub nframes : ℕ

abbrev pub large_cache_max : ℕ
large_cache_max = 8

-- `large_cache_count` is the length of `large_cache`.
pub record Heap : Type 0 where
  pub classes : List SlabClass
  pub overflow_table : List LargeEntry
  pub large_cache : List LargeEntry

-- The index in the classes, or their number if none fits.
pub find_class : ℕ → List ℕ → ℕ
find_class size [] = 0
find_class size (s ∷ sizes) = if leb size s then 0 else suc (find_class size sizes)

pub word_set : (ℕ → ℕ → Bool) → ℕ → ℕ → Bool → (ℕ → ℕ → Bool)
word_set bitmap w bit b w' bit' = if w' == w && bit' == bit then b else bitmap w' bit'

-- `__builtin_ctz(~word)`: the first clear bit among the `left` bits from `bit` on. None is the word
-- 0xFFFFFFFF, which the source tests for first.
pub first_clear : (left : ℕ) → (ℕ → Bool) → (bit : ℕ) → Option ℕ
first_clear zero word bit = none
first_clear (suc left) word bit =
    let later = first_clear left word (bit + 1) in if not (word bit) then some bit else later

-- The loop of `slab_page_alloc` over the `left` words from `w` on: the slot that it settles on.
pub free_slot_in : (left : ℕ) → SlabPage → (w : ℕ) → Option ℕ
unfolding first_clear
free_slot_in zero sp w = none
free_slot_in (suc left) sp w =
    let later = free_slot_in left sp (w + 1) in
    elim (first_clear 32 (sp.bitmap w) 0) [
      | none ↦ later
      | some bit ↦ if leb sp.n_slots (w * 32 + bit) then later else some (w * 32 + bit)
    ]

-- `sp->bitmap[w] |= 1u << bit; sp->n_free--;`
pub take_slot : SlabPage → ℕ → SlabPage
take_slot sp slot = record sp {
  bitmap = word_set sp.bitmap (slot / 32) (slot % 32) true;
  n_free = (sp.n_free + u32 - 1) % u32;
}

-- The address of the slot, and the page.
pub slab_page_alloc : SlabPage → (obj_size : ℕ) → Option (ℕ × SlabPage)
unfolding free_slot_in take_slot
slab_page_alloc sp obj_size = elim (free_slot_in slab_bitmap_words sp 0) [
  | none ↦ none
  | some slot ↦ some ((sp.phys + slot * obj_size) % u32, take_slot sp slot)
]

abbrev pub new_page : (virt obj_size : ℕ) → SlabPage
new_page virt obj_size = record {
  phys = virt;
  n_slots = page_size / obj_size;
  n_free = page_size / obj_size;
  bitmap = λ w bit. false;
}

-- `none` is the return value 0.
pub slab_grow : (mapped : ℕ) → SlabClass → Option SlabClass
slab_grow mapped cls =
    if leb max_slabs_per_class (length cls.pages) || mapped == 0
    then none
    else some (record cls { pages = cls.pages ++ (new_page mapped cls.obj_size ∷ []) })

-- The loop of `kmalloc` over the pages of the class.
pub alloc_in_pages : List SlabPage → (obj_size : ℕ) → Option (ℕ × List SlabPage)
unfolding slab_page_alloc
alloc_in_pages [] obj_size = none
alloc_in_pages (sp ∷ rest) obj_size =
    let later : Option (ℕ × List SlabPage) = (elim (alloc_in_pages rest obj_size) [
      | none ↦ none
      | some (addr, rest') ↦ some (addr, sp ∷ rest')
    ]) in
    if sp.n_free == 0 then later else elim (slab_page_alloc sp obj_size) [
      | none ↦ later
      | some (addr, sp') ↦ some (addr, sp' ∷ rest)
    ]

-- `slab_page_alloc` on the last page.
pub alloc_last : List SlabPage → (obj_size : ℕ) → ℕ × List SlabPage
unfolding slab_page_alloc
alloc_last [] obj_size = (0, [])
alloc_last (sp ∷ []) obj_size = elim (slab_page_alloc sp obj_size) [
  | none ↦ (0, sp ∷ [])
  | some (addr, sp') ↦ (addr, sp' ∷ [])
]
alloc_last (sp ∷ sp₂ ∷ rest) obj_size =
    let (addr, rest') = alloc_last (sp₂ ∷ rest) obj_size in (addr, sp ∷ rest')

-- The slab path of `kmalloc`, in its class.
pub class_alloc : (mapped : ℕ) → SlabClass → ℕ × SlabClass
unfolding alloc_in_pages slab_grow alloc_last
class_alloc mapped cls = elim (alloc_in_pages cls.pages cls.obj_size) [
  | some (addr, pages) ↦ (addr, record cls { pages = pages })
  | none ↦ elim (slab_grow mapped cls) [
    | none ↦ (0, cls)
    | some grown ↦
        let (addr, pages) = alloc_last grown.pages grown.obj_size in
        (addr, record grown { pages = pages })
  ]
]

-- The first free entry of the overflow table, filled; `none` if the table is full.
pub fill_overflow : List LargeEntry → LargeEntry → Option (List LargeEntry)
fill_overflow [] entry = none
fill_overflow (e ∷ es) entry =
    let later = fill_overflow es entry in
    if e.virt == 0
    then some (entry ∷ es)
    else elim later [ none ↦ none | some es' ↦ some (e ∷ es') ]

-- The last entry moved into the place of the one before `es`.
pub move_last : List LargeEntry → List LargeEntry
move_last [] = []
move_last (e ∷ []) = e ∷ []
move_last (e ∷ e₂ ∷ es) = elim (move_last (e₂ ∷ es)) [ [] ↦ [] | last ∷ before ↦ last ∷ e ∷ before ]

-- The search of the large-object cache: the address found, or 0, and the cache without it.
pub take_cached : ℕ → List LargeEntry → ℕ × List LargeEntry
unfolding move_last
take_cached nframes [] = (0, [])
take_cached nframes (e ∷ es) =
    let (virt, es') = take_cached nframes es in
    if e.nframes == nframes then (e.virt, move_last es) else (virt, e ∷ es')

abbrev pub frames_of : ℕ → ℕ
frames_of size = (size + page_size - 1) % u32 / page_size

-- The path of `kmalloc` for more than 4096 bytes. That the table has room is tested first.
pub large_alloc : (mapped size : ℕ) → Heap → ℕ × Heap
unfolding take_cached fill_overflow
large_alloc mapped size h =
    let nframes = frames_of size in
    let (cached, cache) = take_cached nframes h.large_cache in
    let virt = if cached == 0 then mapped else cached in
    elim (fill_overflow h.overflow_table (record { virt = virt; nframes = nframes })) [
      | none ↦ (0, h)
      | some table ↦
          if virt == 0
          then (0, record h { large_cache = cache })
          else (virt, record h { overflow_table = table; large_cache = cache })
    ]

-- The class at an index, and the operation on it.
pub class_at : (mapped : ℕ) → ℕ → List SlabClass → ℕ × List SlabClass
unfolding class_alloc
class_at mapped ci [] = (0, [])
class_at mapped zero (cls ∷ rest) = let (addr, cls') = class_alloc mapped cls in (addr, cls' ∷ rest)
class_at mapped (suc ci) (cls ∷ rest) =
    let (addr, rest') = class_at mapped ci rest in (addr, cls ∷ rest')

-- The address, 0 for failure, and the heap.
pub kmalloc : (mapped size : ℕ) → Heap → ℕ × Heap
unfolding find_class large_alloc class_at
kmalloc mapped size h =
    let ci = find_class size slab_sizes in
    if size == 0
    then (0, h)
    else if ci == length slab_sizes
    then large_alloc mapped size h
    else (let (addr, classes) = class_at mapped ci h.classes in
        (addr, record h { classes = classes }))
