-- ===== src/Vmm/Clone.antt =====
-- The directories of tasks: vmm_create_page_dir, vmm_clone_page_dir and vmm_destroy_page_dir of
-- src/kernel/vmm.c.
pub mod Tables
pub mod Entries
pub mod Rounds
pub mod Share
use luminary.Base.{
  ℕ, zero, suc, ◌+◌, ◌-◌, ◌*◌, ◌/◌, not, ◌&&◌, Option, none, some, ◌==◌, if◌then◌else◌,
}
use luminary.Pmm.{
  Zone, page_size, pmm_alloc_frame_zone, pmm_free_frame, pmm_refcount_inc, pmm_refcount_dec,
}
use luminary.Vmm.{
  Vmm, frame_of, flags_of, is_present, is_write, is_user, set_word, zero_frame, copy_frame,
}
use luminary.Vmm.Cow.{protected}

-- `USER_SPACE_START >> 22` and `USER_SPACE_END >> 22`
abbrev pub user_pde_start : ℕ
user_pde_start = 4

abbrev pub user_pde_end : ℕ
user_pde_end = 768

-- The word of a page that two directories share.
abbrev pub shared_word : ℕ → ℕ
shared_word page =
    let frame = page / page_size * page_size in
    if is_write page then frame + protected (flags_of page) else frame + flags_of page

-- One round of the loop over a table.
pub clone_page : (src_pt new_pt pti : ℕ) → Vmm → Vmm
clone_page src_pt new_pt pti s =
    let page = s.mem src_pt pti in
    let mem = if is_write page then set_word s.mem src_pt pti (shared_word page) else s.mem in
    if not (is_present page) then s else record {
      pmm = pmm_refcount_inc s.pmm (page / page_size * page_size);
      mem = set_word mem new_pt pti (shared_word page);
    }

-- The rounds for `n` entries from one on.
pub clone_pages : (n src_pt new_pt pti : ℕ) → Vmm → Vmm
unfolding clone_page
clone_pages zero src_pt new_pt pti s = s
clone_pages (suc n) src_pt new_pt pti s =
    clone_pages n src_pt new_pt (pti + 1) (clone_page src_pt new_pt pti s)

-- One round of the loop over the directory; `none` is the panic.
pub clone_entry : (src_dir new_dir pdi : ℕ) → Vmm → Option Vmm
clone_entry src_dir new_dir pdi s =
    let entry = s.mem src_dir pdi in
    if not (is_present entry)
    then some s
    else if not (is_user entry)
    then some s
    else elim (pmm_alloc_frame_zone Zone.zone_low s.pmm) [
      | none ↦ none
      | some (new_pt_phys, pmm) ↦
          let cleared : Vmm = record { pmm = pmm; mem = zero_frame s.mem (frame_of new_pt_phys) } in
          let s' = clone_pages 1024 (frame_of entry) (frame_of new_pt_phys) 0 cleared in
          some (record s' {
            mem = set_word s'.mem new_dir pdi (new_pt_phys + flags_of (s'.mem src_dir pdi));
          })
    ]

pub clone_entries : (n src_dir new_dir pdi : ℕ) → Vmm → Option Vmm
unfolding clone_entry
clone_entries zero src_dir new_dir pdi s = some s
clone_entries (suc n) src_dir new_dir pdi s = elim (clone_entry src_dir new_dir pdi s) [
  | none ↦ none
  | some s' ↦ clone_entries n src_dir new_dir (pdi + 1) s'
]

-- One entry of a table that `vmm_destroy_page_dir` goes through.
pub release_page : (pt pti : ℕ) → Vmm → Vmm
release_page pt pti s =
    let page = s.mem pt pti in
    let frame = page / page_size * page_size in
    let (left, pmm) = pmm_refcount_dec s.pmm frame in
    if is_present page && is_user page
    then record s { pmm = if left == 0 then pmm_free_frame pmm frame else pmm }
    else s

pub release_pages : (n pt pti : ℕ) → Vmm → Vmm
unfolding release_page
release_pages zero pt pti s = s
release_pages (suc n) pt pti s = release_pages n pt (pti + 1) (release_page pt pti s)

module _ (page_directory : ℕ) where
  pub vmm_create_page_dir : Vmm → Option (ℕ × Vmm)
  vmm_create_page_dir s = elim (pmm_alloc_frame_zone Zone.zone_low s.pmm) [
    | none ↦ none
    | some (dir_frame, pmm) ↦ some (
      dir_frame,
      record { pmm = pmm; mem = copy_frame s.mem (frame_of dir_frame) (frame_of page_directory) },
    )
  ]

  pub vmm_clone_page_dir : (src_dir_phys : ℕ) → Vmm → Option (ℕ × Vmm)
  unfolding vmm_create_page_dir
  vmm_clone_page_dir src_dir_phys s = elim (vmm_create_page_dir s) [
    | none ↦ none
    | some (new_dir_phys, s1) ↦
        elim (clone_entries (user_pde_end - user_pde_start) (frame_of src_dir_phys)
          (frame_of new_dir_phys) user_pde_start s1) [
            | none ↦ none
            | some s2 ↦ some (new_dir_phys, s2)
          ]
  ]

  -- One entry of the directory that is destroyed. A table that is not the kernel's is freed.
  pub destroy_entry : (dir i : ℕ) → Vmm → Vmm
  destroy_entry dir i s =
      let entry = s.mem dir i in
      let kernel = s.mem (frame_of page_directory) i in
      let released = release_pages 1024 (frame_of entry) 0 s in
      if not (is_present entry)
      then s
      else if entry == kernel
      then s
      else if is_present kernel && frame_of entry == frame_of kernel
      then released
      else record released { pmm = pmm_free_frame released.pmm (entry / page_size * page_size) }

  pub destroy_entries : (n dir i : ℕ) → Vmm → Vmm
  unfolding destroy_entry
  destroy_entries zero dir i s = s
  destroy_entries (suc n) dir i s = destroy_entries n dir (i + 1) (destroy_entry dir i s)

  -- `none` is the panic on the kernel's directory.
  pub vmm_destroy_page_dir : (dir_phys : ℕ) → Vmm → Option Vmm
  vmm_destroy_page_dir dir_phys s =
      if dir_phys == page_directory
      then none
      else (let s' = destroy_entries 1024 (frame_of dir_phys) 0 s in
          some (record s' { pmm = pmm_free_frame s'.pmm dir_phys }))
