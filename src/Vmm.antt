-- ===== src/Vmm.antt =====
-- Virtual memory, src/kernel/vmm.c: page directories and page tables here, the kernel's virtual
-- ranges in Ranges, copy-on-write in Cow.
pub mod Ranges
pub mod Table
pub mod Rights
pub mod Paging
pub mod Spaces
pub mod Isolation
pub mod Unmap
pub mod Cow
pub mod Pages
pub mod Clone
mod Tests
use luminary.Base.{
  ℕ, ◌+◌, ◌-◌, ◌*◌, ◌/◌, ◌%◌, ◌^◌, Bool, true, false, not, ◌&&◌, Option, none, some, ltb, leb, ◌==◌,
  if◌then◌else◌, update,
}
use luminary.Pmm.{Pmm, Zone, page_size, pmm_alloc_frame_zone}

-- Physical memory: the 32-bit words of each frame, by the frame's number and the word's index.
abbrev pub Memory : Type 0
Memory = ℕ → ℕ → ℕ

pub record Vmm : Type 0 where
  pub pmm : Pmm
  pub mem : Memory

-- `entry & 0xFFFFF000` is the address of this frame, and `entry & 0xFFF` are its flags.
abbrev pub frame_of : ℕ → ℕ
frame_of entry = entry / page_size

abbrev pub flags_of : ℕ → ℕ
flags_of entry = entry % page_size

-- The tests of PTE_PRESENT, PTE_WRITE, PTE_USER and PTE_COW.
abbrev pub is_present : ℕ → Bool
is_present entry = entry % 2 == 1

abbrev pub is_write : ℕ → Bool
is_write entry = entry / 2 % 2 == 1

abbrev pub is_user : ℕ → Bool
is_user entry = entry / 4 % 2 == 1

abbrev pub is_cow : ℕ → Bool
is_cow entry = entry / 512 % 2 == 1

-- `flags & PTE_USER`
abbrev pub user_bit : ℕ → ℕ
user_bit flags = if is_user flags then 4 else 0

-- `virt >> 22` and `(virt >> 12) & 0x3FF`
abbrev pub pd_index : ℕ → ℕ
pd_index virt = virt / 4194304

abbrev pub pt_index : ℕ → ℕ
pt_index virt = virt / page_size % 1024

abbrev pub set_word : Memory → (frame index word : ℕ) → Memory
set_word mem frame index word = update mem frame (update (mem frame) index word)

-- `memset(frame, 0, PAGE_SIZE)` and `memcpy(to, from, PAGE_SIZE)`
abbrev pub zero_frame : Memory → ℕ → Memory
zero_frame mem frame = update mem frame (λ i. 0)

abbrev pub copy_frame : Memory → (to from : ℕ) → Memory
copy_frame mem to from = update mem to (mem from)

-- A new table in ZONE_LOW, filled by `fill`, entered into a directory; `none` is the panic.
pub new_table : (fill : Memory → ℕ → Memory) → (dir pdi flags : ℕ) → Vmm → Option Vmm
new_table fill dir pdi flags s = elim (pmm_alloc_frame_zone Zone.zone_low s.pmm) [
  | none ↦ none
  | some (pt_frame, pmm) ↦ some (record {
    pmm = pmm;
    mem = set_word (fill s.mem (frame_of pt_frame)) dir pdi (pt_frame + 3 + user_bit flags);
  })
]

-- The address of the static `page_directory`.
module _ (page_directory : ℕ) where
  -- The table that an entry of `vmm_map_page_in` goes to; `dir` is the directory's frame.
  pub own_table : (dir pdi flags : ℕ) → Vmm → Option Vmm
  unfolding new_table
  own_table dir pdi flags s =
      let entry = s.mem dir pdi in
      if not (is_present entry)
      then new_table zero_frame dir pdi flags s
      else if not (dir == frame_of page_directory)
          && frame_of entry == frame_of (s.mem (frame_of page_directory) pdi)
      then new_table (λ mem to. copy_frame mem to (frame_of entry)) dir pdi flags s
      else if is_user flags && not (is_user entry)
      then some (record s { mem = set_word s.mem dir pdi (entry + 4) })
      else some s

  pub vmm_map_page_in : (dir_phys virt phys flags : ℕ) → Vmm → Option Vmm
  unfolding own_table
  vmm_map_page_in dir_phys virt phys flags s =
      elim (own_table (frame_of dir_phys) (pd_index virt) flags s) [
        | none ↦ none
        | some s' ↦ some (record s' {
          mem =
              set_word s'.mem (frame_of (s'.mem (frame_of dir_phys) (pd_index virt)))
                (pt_index virt) (phys / page_size * page_size + flags % page_size);
        })
      ]

  -- The translation buffer has no state here.
  pub vmm_unmap_page_in : (dir_phys virt : ℕ) → Vmm → Vmm
  vmm_unmap_page_in dir_phys virt s =
      let entry = s.mem (frame_of dir_phys) (pd_index virt) in
      if not (is_present entry)
      then s
      else record s { mem = set_word s.mem (frame_of entry) (pt_index virt) 0 }

  pub vmm_map_page : (virt phys flags : ℕ) → Vmm → Option Vmm
  unfolding vmm_map_page_in
  vmm_map_page virt phys flags s = vmm_map_page_in page_directory virt phys flags s

  pub vmm_unmap_page : (virt : ℕ) → Vmm → Vmm
  unfolding vmm_unmap_page_in
  vmm_unmap_page virt s = vmm_unmap_page_in page_directory virt s

  -- 0 if nothing is mapped there.
  pub vmm_get_phys : Vmm → (virt : ℕ) → ℕ
  vmm_get_phys s virt =
      let entry = s.mem (frame_of page_directory) (pd_index virt) in
      let page = s.mem (frame_of entry) (pt_index virt) in
      if not (is_present entry)
      then 0
      else if not (is_present page)
      then 0
      else page / page_size * page_size + virt % page_size

-- What the processor translates by a directory: the entry for a page, if it is present. What the
-- entry of the directory lets through is apart from that, in Rights.
pub walk : Memory → (dir virt : ℕ) → Option ℕ
walk mem dir virt =
    let entry = mem dir (pd_index virt) in
    let page = mem (frame_of entry) (pt_index virt) in
    if not (is_present entry) then none else if not (is_present page) then none else some page
