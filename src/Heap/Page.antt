-- ===== src/Heap/Page.antt =====
-- One page of slots: what `slab_page_alloc` hands out.
use luminary.Base.{
  ℕ, zero, suc, ◌+◌, ◌*◌, ◌/◌, ◌%◌, ◌≤◌, ◌<◌, ◌≡◌, subst, Bool, true, false, Option, none, some,
  arith, leb, ◌==◌, if◌then◌else◌, Bool-cases, inl, inr,
}
use luminary.Base.Search.{AllSet, IsLowest, AllSet-one, IsLowest-skip}
use luminary.Heap.{
  SlabPage, word_set, first_clear, free_slot_in, take_slot, slab_page_alloc, slab_bitmap_words,
  page_size, u32,
}

-- Whether a slot is allocated.
abbrev pub taken : SlabPage → ℕ → Bool
taken sp slot = sp.bitmap (slot / 32) (slot % 32)

first_clear-Lowest :
    (left : ℕ) (word : ℕ → Bool) (bit : ℕ)
    → IsLowest word bit (bit + left) (first_clear left word bit)
unfolding first_clear
first_clear-Lowest zero word bit = λ j h h'. absurd (omega arith)
first_clear-Lowest (suc left) word bit = elim (Bool-cases (word bit)) [
  | inr clear ↦ rw clear (omega arith, omega arith, clear, λ j h h'. absurd (omega arith))
  | inl set ↦ rw set (
      IsLowest-skip word bit (bit + 1) (bit + suc left) _ (omega arith) (AllSet-one word bit set) (
        subst (λ hi. IsLowest word (bit + 1) hi (first_clear left word (bit + 1))) (omega arith)
          (first_clear-Lowest left word (bit + 1))))
]

-- The bits of a word are the slots from `w * 32` on.
word_taken :
    (sp : SlabPage) (w bit : ℕ)
    → bit ≤ 32
    → AllSet (sp.bitmap w) 0 bit
    → AllSet (taken sp) (w * 32) (w * 32 + bit)
word_taken sp w bit small set j h h' =
    let e : j / 32 ≡ w = omega arith in rw (taken, e) (set (j % 32) (omega arith) (omega arith))

taken_at :
    (sp : SlabPage) (w bit : ℕ)
    → bit < 32
    → sp.bitmap w bit ≡ false
    → taken sp (w * 32 + bit) ≡ false
taken_at sp w bit small clear =
    let word : (w * 32 + bit) / 32 ≡ w = omega arith in
    let place : (w * 32 + bit) % 32 ≡ bit = omega arith in rw (taken, word, place) clear

-- The first clear bit lies past the last slot: then no later word has a slot either.
past_end :
    (sp : SlabPage) (w bit : ℕ) (later : Option ℕ)
    → bit < 32
    → sp.n_slots ≤ w * 32 + bit
    → AllSet (sp.bitmap w) 0 bit
    → IsLowest (taken sp) ((w + 1) * 32) sp.n_slots later
    → IsLowest (taken sp) (w * 32) sp.n_slots later
past_end sp w bit none small past set rest =
    λ j h h'. word_taken sp w bit (omega arith) set j h (omega arith)
past_end sp w bit (some i) small past set rest = absurd (omega (arith, rest.0, rest.1))

pub free_slot_in-Lowest :
    (left : ℕ) (sp : SlabPage) (w : ℕ)
    → sp.n_slots ≤ (w + left) * 32
    → IsLowest (taken sp) (w * 32) sp.n_slots (free_slot_in left sp w)
unfolding free_slot_in
free_slot_in-Lowest zero sp w fits = λ j h h'. absurd (omega arith)
free_slot_in-Lowest (suc left) sp w fits =
    let later = free_slot_in-Lowest left sp (w + 1) (omega arith) in
    search_word sp w (first_clear 32 (sp.bitmap w) 0) (free_slot_in left sp (w + 1))
      (first_clear-Lowest 32 (sp.bitmap w) 0) later
  where
    search_word :
        (sp : SlabPage) (w : ℕ) (found later : Option ℕ)
        → IsLowest (sp.bitmap w) 0 32 found
        → IsLowest (taken sp) ((w + 1) * 32) sp.n_slots later
        → IsLowest (taken sp) (w * 32) sp.n_slots (elim found [
          | none ↦ later
          | some bit ↦ if leb sp.n_slots (w * 32 + bit) then later else some (w * 32 + bit)
        ])
    search_word sp w none later full rest =
        IsLowest-skip (taken sp) (w * 32) ((w + 1) * 32) sp.n_slots later (omega arith)
          (subst (AllSet (taken sp) (w * 32)) (omega arith) (word_taken sp w 32 (omega arith) full))
          rest
    search_word sp w (some bit) later (h, small, clear, set) rest =
        elim (Bool-cases (leb sp.n_slots (w * 32 + bit))) [
          | inl past ↦ rw past (past_end sp w bit later small (ground arith) set rest)
          | inr within ↦ rw within (
            omega arith,
            ground arith,
            taken_at sp w bit small clear,
            word_taken sp w bit (omega arith) set,
          )
        ]

-- The slots of a page fit its bitmap, and it ends before the address space does.
pub record IsValid (sp : SlabPage) : Type 0 where
  pub bits : sp.n_slots ≤ 128
  pub bound : sp.phys + page_size < u32

-- What is handed out: the address of the lowest free slot, which becomes taken.
pub IsHandedOut : SlabPage → ℕ → Option (ℕ × SlabPage) → Type 0
IsHandedOut sp obj_size none = AllSet (taken sp) 0 sp.n_slots
IsHandedOut sp obj_size (some (addr, sp')) =
    (slot : ℕ) × (IsLowest (taken sp) 0 sp.n_slots (some slot))
    × (addr ≡ sp.phys + slot * obj_size)
    × (sp.phys ≤ addr)
    × (addr + obj_size ≤ sp.phys + page_size)
    × ((j : ℕ) → taken sp' j ≡ (if j == slot then true else taken sp j))

taken-take :
    (sp : SlabPage) (slot j : ℕ)
    → taken (take_slot sp slot) j ≡ (if j == slot then true else taken sp j)
unfolding take_slot word_set
taken-take sp slot j = ground arith

pub slot_bound :
    (n obj_size slot : ℕ)
    → n * obj_size ≤ page_size
    → slot < n
    → slot * obj_size + obj_size ≤ page_size
slot_bound n obj_size slot fits below = grind arith

-- `slab_page_alloc`, on a page whose slots fit it, returns nothing exactly when all slots are taken;
-- otherwise it returns the lowest free one, whose object lies wholly inside the page, and marks
-- this slot and no other taken.
pub slab_page_alloc_lem :
    (sp : SlabPage) (obj_size : ℕ)
    → IsValid sp
    → sp.n_slots * obj_size ≤ page_size
    → 0 < obj_size
    → IsHandedOut sp obj_size (slab_page_alloc sp obj_size)
unfolding IsHandedOut slab_page_alloc
slab_page_alloc_lem sp obj_size v fits some_size =
    hand_out (free_slot_in slab_bitmap_words sp 0)
      (free_slot_in-Lowest 4 sp 0 (omega (arith, v.bits)))
  where
    hand_out :
        (found : Option ℕ)
        → IsLowest (taken sp) 0 sp.n_slots found
        → IsHandedOut sp obj_size (elim found [
          | none ↦ none
          | some slot ↦ some ((sp.phys + slot * obj_size) % u32, take_slot sp slot)
        ])
    hand_out none full = full
    hand_out (some slot) lowest =
        let within = slot_bound sp.n_slots obj_size slot fits lowest.1 in
        let addr : (sp.phys + slot * obj_size) % u32 ≡ sp.phys + slot * obj_size =
          omega (arith, within, v.bound) in
        (
          slot,
          lowest,
          addr,
          omega (arith, within, v.bound),
          omega (arith, within, v.bound),
          taken-take sp slot,
        )
