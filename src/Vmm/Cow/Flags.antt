-- ===== src/Vmm/Cow/Flags.antt =====
-- The flags of a page table's entries, in src/kernel/vmm.c.
use luminary.Base.{
  ℕ, ◌+◌, ◌-◌, ◌*◌, ◌/◌, ◌%◌, ◌<◌, ◌≡◌, inl, inr, refl, ap, ◌∙◌, true, false, ◌==◌, if◌then◌else◌,
  arith, Bool-cases,
}
use luminary.Pmm.{page_size}
use luminary.Vmm.{frame_of, flags_of, is_present, is_write, is_user, is_cow}
use luminary.Vmm.Cow.{writable, protected}

-- The bits of a word that is a frame with some flags.
pub word_bits :
    (frame flags : ℕ)
    → flags < page_size
    → ((frame * page_size + flags) / page_size ≡ frame)
      × ((frame * page_size + flags) % 2 ≡ flags % 2)
      × ((frame * page_size + flags) / 2 % 2 ≡ flags / 2 % 2)
      × ((frame * page_size + flags) / 4 % 2 ≡ flags / 4 % 2)
      × ((frame * page_size + flags) / 512 % 2 ≡ flags / 512 % 2)
word_bits frame flags small = (omega arith, omega arith, omega arith, omega arith, omega arith)

pub page_bits :
    (page : ℕ)
    → (flags_of page % 2 ≡ page % 2)
      × (flags_of page / 2 % 2 ≡ page / 2 % 2)
      × (flags_of page / 4 % 2 ≡ page / 4 % 2)
      × (flags_of page / 512 % 2 ≡ page / 512 % 2)
page_bits page = (omega arith, omega arith, omega arith, omega arith)

-- Clearing bit 9 leaves the other bits, and setting bit 1 does.
clear_cow :
    (flags : ℕ)
    → flags < page_size
    → let bare = if is_cow flags then flags - 512 else flags in
      (bare < page_size)
      × (bare % 2 ≡ flags % 2)
      × (bare / 4 % 2 ≡ flags / 4 % 2)
      × (bare / 512 % 2 ≡ 0)
clear_cow flags small = elim (Bool-cases (is_cow flags)) [
  | inl cow ↦
      (let bit : flags / 512 % 2 ≡ 1 = ground (arith, cow) in
        rw cow (omega arith, omega (arith, bit), omega (arith, bit), omega (arith, bit)))
  | inr bare ↦
      (let bit : flags / 512 % 2 ≡ 0 = ground (arith, bare) in rw bare (small, refl, refl, bit))
]

set_write :
    (bare : ℕ)
    → bare < page_size
    → let flags = if is_write bare then bare else bare + 2 in
      (flags < page_size)
      × (flags % 2 ≡ bare % 2)
      × (flags / 2 % 2 ≡ 1)
      × (flags / 4 % 2 ≡ bare / 4 % 2)
      × (flags / 512 % 2 ≡ bare / 512 % 2)
set_write bare small = elim (Bool-cases (is_write bare)) [
  | inl set ↦
      (let bit : bare / 2 % 2 ≡ 1 = ground (arith, set) in rw set (small, refl, bit, refl, refl))
  | inr clear ↦
      (let bit : bare / 2 % 2 ≡ 0 = ground (arith, clear) in
        rw clear (
          omega (arith, bit),
          omega arith,
          omega (arith, bit),
          omega (arith, bit),
          omega (arith, bit),
        ))
]

-- A page that is written from now on: the flags but for PTE_WRITE and PTE_COW.
pub writable_lem :
    (frame page : ℕ)
    → let word = frame * page_size + writable (flags_of page) in
      (frame_of word ≡ frame)
      × (is_present word ≡ is_present page)
      × (is_write word ≡ true)
      × (is_cow word ≡ false)
      × (is_user word ≡ is_user page)
writable_lem frame page =
    let flags = flags_of page in
    let bare = if is_cow flags then flags - 512 else flags in
    let set = if is_write bare then bare else bare + 2 in
    let (small, p, u, c) = clear_cow flags (omega arith) in
    let (small', p', w', u', c') = set_write bare small in
    let (frame', p'', w'', u'', c'') = word_bits frame set small' in
    let (q, _, q', _) = page_bits page in
    (
      frame',
      ap (λ b. b == 1) (p'' ∙ p' ∙ p ∙ q),
      ap (λ b. b == 1) (w'' ∙ w'),
      ap (λ b. b == 1) (c'' ∙ c' ∙ c),
      ap (λ b. b == 1) (u'' ∙ u' ∙ u ∙ q'),
    )

clear_write :
    (flags : ℕ)
    → flags < page_size
    → let bare = if is_write flags then flags - 2 else flags in
      (bare < page_size) × (bare % 2 ≡ flags % 2) × (bare / 2 % 2 ≡ 0)
clear_write flags small = elim (Bool-cases (is_write flags)) [
  | inl write ↦
      (let bit : flags / 2 % 2 ≡ 1 = ground (arith, write) in
        rw write (omega arith, omega (arith, bit), omega (arith, bit)))
  | inr bare ↦ (let bit : flags / 2 % 2 ≡ 0 = ground (arith, bare) in rw bare (small, refl, bit))
]

set_cow :
    (bare : ℕ)
    → bare < page_size
    → let flags = if is_cow bare then bare else bare + 512 in
      (flags < page_size)
      × (flags % 2 ≡ bare % 2)
      × (flags / 2 % 2 ≡ bare / 2 % 2)
      × (flags / 512 % 2 ≡ 1)
set_cow bare small = elim (Bool-cases (is_cow bare)) [
  | inl set ↦
      (let bit : bare / 512 % 2 ≡ 1 = ground (arith, set) in rw set (small, refl, refl, bit))
  | inr clear ↦
      (let bit : bare / 512 % 2 ≡ 0 = ground (arith, clear) in
        rw clear (omega (arith, bit), omega arith, omega arith, omega (arith, bit)))
]

-- A page that is shared from now on: the flags but for PTE_WRITE and PTE_COW.
pub protected_lem :
    (frame page : ℕ)
    → let word = frame * page_size + protected (flags_of page) in
      (frame_of word ≡ frame)
      × (is_present word ≡ is_present page)
      × (is_write word ≡ false)
      × (is_cow word ≡ true)
protected_lem frame page =
    let flags = flags_of page in
    let bare = if is_write flags then flags - 2 else flags in
    let set = if is_cow bare then bare else bare + 512 in
    let (small, p, w) = clear_write flags (omega arith) in
    let (small', p', w', c') = set_cow bare small in
    let (frame', p'', w'', _, c'') = word_bits frame set small' in
    let (q, _, _, _) = page_bits page in
    (
      frame',
      ap (λ b. b == 1) (p'' ∙ p' ∙ p ∙ q),
      ap (λ b. b == 1) (w'' ∙ w' ∙ w),
      ap (λ b. b == 1) (c'' ∙ c'),
    )
