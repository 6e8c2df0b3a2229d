-- ===== src/Vmm/Cow.antt =====
-- Copy-on-write of src/kernel/vmm.c: the window of temporary mappings, the clone of a directory
-- and the fault on a shared page.
pub mod Copy
pub mod Flags
pub mod Fault
use luminary.Base.{
  ℕ, zero, suc, ◌+◌, ◌-◌, ◌*◌, ◌/◌, ◌%◌, ◌^◌, Bool, true, false, not, ◌&&◌, Option, none, some, ltb,
  leb, ◌==◌, if◌then◌else◌, update,
}
use luminary.Pmm.{
  Pmm, Zone, page_size, u32, pmm_alloc_frame, pmm_alloc_frame_zone, pmm_refcount_get,
  pmm_refcount_inc, pmm_refcount_dec,
}
use luminary.Vmm.{
  Memory, Vmm, frame_of, flags_of, is_present, is_write, is_user, is_cow, pd_index, pt_index,
  set_word, zero_frame, copy_frame, vmm_map_page_in, vmm_unmap_page_in, walk,
}

abbrev pub kmap_base : ℕ
kmap_base = 0xCFF00000

abbrev pub kmap_slots : ℕ
kmap_slots = 16

-- The machine with `kmap_used`, bit by bit.
pub record Kmap : Type 0 where
  pub vmm : Vmm
  pub kmap_used : ℕ → Bool

-- The first clear bit of the last `left` slots.
pub free_slot : (left : ℕ) → (ℕ → Bool) → Option ℕ
free_slot zero used = none
free_slot (suc left) used =
    let later = free_slot left used in
    if not (used (kmap_slots - suc left)) then some (kmap_slots - suc left) else later

-- `memcpy(to, from, PAGE_SIZE)` through the directory that is loaded; `none` is a page fault.
pub memcpy_page : (cr3 to from : ℕ) → Memory → Option Memory
unfolding walk
memcpy_page cr3 to from mem = elim (walk mem (frame_of cr3) from) [
  | none ↦ none
  | some source ↦ elim (walk mem (frame_of cr3) to) [
    | none ↦ none
    | some target ↦ some (copy_frame mem (frame_of target) (frame_of source))
  ]
]

-- `(flags & ~PTE_COW) | PTE_WRITE`
abbrev pub writable : ℕ → ℕ
writable flags =
    let bare = if is_cow flags then flags - 512 else flags in
    if is_write bare then bare else bare + 2

-- `(flags & ~PTE_WRITE) | PTE_COW`
abbrev pub protected : ℕ → ℕ
protected flags =
    let bare = if is_write flags then flags - 2 else flags in
    if is_cow bare then bare else bare + 512

module _ (page_directory : ℕ) where
  -- Each panic is `none`.
  pub vmm_kmap : (cr3 phys : ℕ) → Kmap → Option (ℕ × Kmap)
  unfolding free_slot vmm_map_page_in
  vmm_kmap cr3 phys s = elim (free_slot kmap_slots s.kmap_used) [
    | none ↦ none
    | some i ↦
        let virt = kmap_base + i * page_size in
        elim (vmm_map_page_in page_directory cr3 virt phys 3 s.vmm) [
          | none ↦ none
          | some vmm ↦ some (virt, record { vmm = vmm; kmap_used = update s.kmap_used i true })
        ]
  ]

  pub vmm_kunmap : (cr3 v : ℕ) → Kmap → Option Kmap
  unfolding vmm_unmap_page_in
  vmm_kunmap cr3 v s =
      let slot = (v + u32 - kmap_base) % u32 / page_size in
      if leb kmap_slots slot
      then none
      else some (record {
        vmm = vmm_unmap_page_in page_directory cr3 v s.vmm;
        kmap_used = update s.kmap_used slot false;
      })

  -- The copy of `old_frame` into `new_frame` through two temporary mappings.
  pub copy_mapped : (cr3 old_frame new_frame : ℕ) → Kmap → Option Kmap
  unfolding vmm_kmap memcpy_page vmm_kunmap
  copy_mapped cr3 old_frame new_frame s = elim (vmm_kmap cr3 old_frame s) [
    | none ↦ none
    | some (old_kp, s1) ↦ elim (vmm_kmap cr3 new_frame s1) [
      | none ↦ none
      | some (new_kp, s2) ↦ elim (memcpy_page cr3 new_kp old_kp s2.vmm.mem) [
        | none ↦ none
        | some mem ↦
            elim (vmm_kunmap cr3 new_kp
              (record s2 { vmm = record { pmm = s2.vmm.pmm; mem = mem } })) [
                | none ↦ none
                | some s3 ↦ vmm_kunmap cr3 old_kp s3
              ]
      ]
    ]
  ]

  -- The branch of a frame with other owners: the new frame, and the machine after the copy.
  pub copy_shared : (cr3 old_frame : ℕ) → Kmap → Option (ℕ × Kmap)
  unfolding copy_mapped
  copy_shared cr3 old_frame s = elim (pmm_alloc_frame s.vmm.pmm) [
    | none ↦ none
    | some (new_frame, pmm) ↦
        elim (copy_mapped cr3 old_frame new_frame
          (record s { vmm = record { pmm = pmm; mem = s.vmm.mem } })) [
            | none ↦ none
            | some s' ↦
                let (left, dropped) = pmm_refcount_dec s'.vmm.pmm old_frame in
                some (new_frame, record s' { vmm = record { pmm = dropped; mem = s'.vmm.mem } })
          ]
  ]

  -- Whether it was a copy-on-write fault that is resolved now.
  pub vmm_cow_fault : (cr3 dir_phys fault_addr : ℕ) → Kmap → Option (Bool × Kmap)
  unfolding copy_shared
  vmm_cow_fault cr3 dir_phys fault_addr s =
      let entry = s.vmm.mem (frame_of dir_phys) (pd_index fault_addr) in
      let table = frame_of entry in
      let page = s.vmm.mem table (pt_index fault_addr) in
      let old_frame = page / page_size * page_size in
      let store : ℕ → Kmap → Kmap = λ frame t. record t {
        vmm = record {
          pmm = t.vmm.pmm;
          mem = set_word t.vmm.mem table (pt_index fault_addr) (frame + writable (flags_of page));
        };
      } in
      if not (is_present entry)
      then some (false, s)
      else if not (is_present page)
      then some (false, s)
      else if not (is_cow page)
      then some (false, s)
      else if pmm_refcount_get s.vmm.pmm old_frame == 1
      then some (true, store old_frame s)
      else elim (copy_shared cr3 old_frame s) [
        | none ↦ none
        | some (new_frame, s') ↦ some (true, store new_frame s')
      ]
