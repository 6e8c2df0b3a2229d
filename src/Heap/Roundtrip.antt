-- ===== src/Heap/Roundtrip.antt =====
-- Freeing what was just allocated.
use luminary.Base.{
  ℕ, ◌+◌, ◌-◌, ◌*◌, ◌/◌, ◌%◌, ◌≤◌, ◌<◌, ◌≡◌, refl, sym, ap, ap₂, subst, fun_ext, ◌∙◌, Bool, true,
  false, not, ◌&&◌, ◌||◌, ◌⊎◌, Option, none, some, List, [], ◌∷◌, arith, leb, ltb, ◌==◌,
  if◌then◌else◌, Bool-cases, inl, inr,
}
use native.Mathlib.Nat.{div-eq_of_eq-mul_left}
use luminary.Base.Search.{IsLowest}
use luminary.Heap.{
  SlabPage, word_set, take_slot, slab_page_alloc, free_slot_in, alloc_in_pages, page_size, u32,
}
use luminary.Heap.Page.{IsValid, taken, free_slot_in-Lowest, slot_bound}
use luminary.Heap.Free.{absent, double_free, freed, clear_slot, free_in_page, free_in_pages}

-- The slot of an address.
slot_of_addr :
    (phys obj_size slot addr : ℕ)
    → 0 < obj_size
    → addr ≡ phys + slot * obj_size
    → (addr - phys) / obj_size ≡ slot
slot_of_addr phys obj_size slot addr some_size e = div-eq_of_eq-mul_left some_size (omega arith)

word_set-back :
    (bitmap : ℕ → ℕ → Bool) (w bit : ℕ) (b : Bool)
    → bitmap w bit ≡ b
    → word_set (word_set bitmap w bit true) w bit b ≡ bitmap
unfolding word_set
word_set-back bitmap w bit b e = fun_ext (λ w'. fun_ext (λ bit'.
    elim (Bool-cases (w' == w && bit' == bit)) [
      | inl same ↦
          let w_same : w ≡ w' = ground arith in
          let bit_same : bit ≡ bit' = ground arith in
          rw same (sym (rw (sym w_same, sym bit_same) e))
      | inr other ↦ rw other refl
    ]))

clear-take :
    (sp : SlabPage) (slot : ℕ)
    → taken sp slot ≡ false
    → sp.n_free < u32
    → clear_slot (take_slot sp slot) slot ≡ sp
unfolding clear_slot take_slot
clear-take sp slot free small =
    ap₂ (λ bitmap n. record sp { bitmap = bitmap; n_free = n })
      (word_set-back sp.bitmap (slot / 32) (slot % 32) false free) (omega arith)

if_not : {A : Type 0} (b : Bool) (x y : A) → (if not b then y else x) ≡ (if b then x else y)
if_not true x y = refl
if_not false x y = refl

-- The address of a slot of a page, in the three tests of `kfree`.
free_in_page-at :
    (sp : SlabPage) (obj_size slot addr : ℕ)
    → sp.phys + page_size < u32
    → 0 < obj_size
    → addr ≡ sp.phys + slot * obj_size
    → slot * obj_size + obj_size ≤ page_size
    → free_in_page addr obj_size sp
      ≡ (if taken sp slot then freed (clear_slot sp slot) else double_free)
unfolding free_in_page
free_in_page-at sp obj_size slot addr bound some_size e within =
    let here : (ltb addr sp.phys || leb ((sp.phys + page_size) % u32) addr) ≡ false =
      ground arith in
    let aligned : ((sp.phys + slot * obj_size) % u32 == addr) ≡ true = ground arith in
    rw (slot_of_addr sp.phys obj_size slot addr some_size e, here, aligned)
      (if_not (taken sp slot) (freed (clear_slot sp slot)) double_free)

taken-here : (sp : SlabPage) (slot : ℕ) → taken (take_slot sp slot) slot ≡ true
unfolding take_slot word_set
taken-here sp slot = ground arith

free_in_page-taken :
    (sp : SlabPage) (obj_size slot addr : ℕ)
    → sp.phys + page_size < u32
    → sp.n_free < u32
    → 0 < obj_size
    → addr ≡ sp.phys + slot * obj_size
    → slot * obj_size + obj_size ≤ page_size
    → taken sp slot ≡ false
    → free_in_page addr obj_size (take_slot sp slot) ≡ freed sp
unfolding take_slot
free_in_page-taken sp obj_size slot addr bound small some_size e within free =
    free_in_page-at (take_slot sp slot) obj_size slot addr bound some_size e within
    ∙ ap (λ b. if b then freed (clear_slot (take_slot sp slot) slot) else double_free)
        (taken-here sp slot)
    ∙ ap freed (clear-take sp slot free small)

-- A page that `kmalloc` can use: it is in order, and its slots fit the 4096 bytes.
pub record IsUsable (obj_size : ℕ) (sp : SlabPage) : Type 0 where
  pub valid : IsValid sp
  pub fits : sp.n_slots * obj_size ≤ page_size
  pub count : sp.n_free < u32

-- No page of the list overlaps the one at the address.
unfoldable pub Apart : ℕ → List SlabPage → Type 0
Apart a [] = Unit
Apart a (sp ∷ rest) = ((a + page_size ≤ sp.phys) ⊎ (sp.phys + page_size ≤ a)) × Apart a rest

-- The pages of a class: usable, and no two overlap.
unfoldable pub ArePages : ℕ → List SlabPage → Type 0
ArePages obj_size [] = Unit
ArePages obj_size (sp ∷ rest) = IsUsable obj_size sp × Apart sp.phys rest × ArePages obj_size rest

-- An address that lies in a page of the list lies in none that is apart from all of them.
abbrev pub Inside : ℕ → List SlabPage → Type 0
Inside addr pages = (a : ℕ) → Apart a pages → (addr < a) ⊎ (a + page_size ≤ addr)

pub Returns : ℕ → List SlabPage → Option (ℕ × List SlabPage) → Type 0
Returns obj_size pages none = Unit
Returns obj_size pages (some (addr, pages')) =
    (free_in_pages addr obj_size pages' ≡ freed pages)
    × (free_in_pages addr obj_size pages ≡ double_free)
    × Inside addr pages

outside_page :
    (sp : SlabPage) (obj_size addr : ℕ)
    → sp.phys + page_size < u32
    → (addr < sp.phys) ⊎ (sp.phys + page_size ≤ addr)
    → free_in_page addr obj_size sp ≡ absent
unfolding free_in_page
outside_page sp obj_size addr bound outside =
    let past : (ltb addr sp.phys || leb ((sp.phys + page_size) % u32) addr) ≡ true = ground arith in
    rw past refl

Returns-later :
    (obj_size : ℕ) (sp : SlabPage) (rest : List SlabPage) (found : Option (ℕ × List SlabPage))
    → IsUsable obj_size sp
    → Apart sp.phys rest
    → Returns obj_size rest found
    → Returns obj_size
        (sp ∷ rest)
        (elim found [ none ↦ none | some (addr, rest') ↦ some (addr, sp ∷ rest') ])
unfolding Returns free_in_pages Apart
Returns-later obj_size sp rest none ok apart returns = tt
Returns-later obj_size sp rest (some (addr, rest')) ok apart (back, twice, inside) =
    let outside = outside_page sp obj_size addr ok.valid.bound (inside sp.phys apart) in
    (
      rw (free_in_pages, outside, back) refl,
      rw (free_in_pages, outside, twice) refl,
      λ a away. inside a away.1,
    )

apart_of :
    (phys addr a : ℕ)
    → phys ≤ addr
    → addr < phys + page_size
    → (a + page_size ≤ phys) ⊎ (phys + page_size ≤ a)
    → (addr < a) ⊎ (a + page_size ≤ addr)
apart_of phys addr a low high (inl before) = inr (omega arith)
apart_of phys addr a low high (inr after) = inl (omega arith)

-- The slot that `slab_page_alloc` takes, freed again, and freed twice.
Returns-slot :
    (obj_size : ℕ) (sp : SlabPage) (rest : List SlabPage) (slot : ℕ)
    → 0 < obj_size
    → IsUsable obj_size sp
    → IsLowest (taken sp) 0 sp.n_slots (some slot)
    → Returns obj_size
        (sp ∷ rest)
        (some ((sp.phys + slot * obj_size) % u32, take_slot sp slot ∷ rest))
unfolding Returns free_in_pages Apart
Returns-slot obj_size sp rest slot some_size ok (_, below, free, _) =
    let within = slot_bound sp.n_slots obj_size slot ok.fits below in
    let e : (sp.phys + slot * obj_size) % u32 ≡ sp.phys + slot * obj_size =
      omega (arith, within, ok.valid.bound) in
    let back =
      free_in_page-taken sp obj_size slot _ ok.valid.bound ok.count some_size e within free in
    let twice = free_in_page-at sp obj_size slot _ ok.valid.bound some_size e within in
    (
      rw (free_in_pages, back) refl,
      rw (free_in_pages, twice, free) refl,
      λ a away. apart_of sp.phys _ a (omega arith) (omega arith) away.0,
    )

Returns-page :
    (obj_size : ℕ) (sp : SlabPage) (rest : List SlabPage) (later : Option (ℕ × List SlabPage))
    (found : Option ℕ)
    → 0 < obj_size
    → IsUsable obj_size sp
    → IsLowest (taken sp) 0 sp.n_slots found
    → Returns obj_size (sp ∷ rest) later
    → Returns obj_size
        (sp ∷ rest)
        (elim (elim found as (λ x. Option (ℕ × SlabPage)) [
          | none ↦ none
          | some slot ↦ some ((sp.phys + slot * obj_size) % u32, take_slot sp slot)
        ]) [ none ↦ later | some (addr, sp') ↦ some (addr, sp' ∷ rest) ])
Returns-page obj_size sp rest later none some_size ok lowest returns = returns
Returns-page obj_size sp rest later (some slot) some_size ok lowest returns =
    Returns-slot obj_size sp rest slot some_size ok lowest

alloc_in_pages-Returns :
    (obj_size : ℕ) (pages : List SlabPage)
    → 0 < obj_size
    → ArePages obj_size pages
    → Returns obj_size pages (alloc_in_pages pages obj_size)
unfolding alloc_in_pages slab_page_alloc ArePages Returns
alloc_in_pages-Returns obj_size [] some_size are = tt
alloc_in_pages-Returns obj_size (sp ∷ rest) some_size (ok, apart, are) =
    let later =
      Returns-later obj_size sp rest (alloc_in_pages rest obj_size) ok apart
        (alloc_in_pages-Returns obj_size rest some_size are) in
    elim (Bool-cases (sp.n_free == 0)) [
      | inl none_free ↦ rw (alloc_in_pages, none_free) later
      | inr some_free ↦
          rw (alloc_in_pages, some_free)
            (Returns-page obj_size sp rest _ (free_slot_in 4 sp 0) some_size ok
              (free_slot_in-Lowest 4 sp 0 (omega (arith, ok.valid.bits))) later)
    ]

-- In the pages of a class (usable, no two overlapping), the address that the search of `kmalloc`
-- hands out is one that `kfree` takes back: freeing it restores every page as it was, and freeing
-- it once more is the panic on a double free.
pub free_in_pages-alloc_in_pages :
    (obj_size : ℕ) (pages : List SlabPage) (addr : ℕ) (pages' : List SlabPage)
    → 0 < obj_size
    → ArePages obj_size pages
    → alloc_in_pages pages obj_size ≡ some (addr, pages')
    → (free_in_pages addr obj_size pages' ≡ freed pages)
      × (free_in_pages addr obj_size pages ≡ double_free)
unfolding Returns
free_in_pages-alloc_in_pages obj_size pages addr pages' some_size are found =
    let (back, twice, _) : Returns obj_size pages (some (addr, pages')) =
      subst (Returns obj_size pages) found (alloc_in_pages-Returns obj_size pages some_size are) in
    (back, twice)
