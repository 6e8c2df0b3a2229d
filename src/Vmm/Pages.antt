-- ===== src/Vmm/Pages.antt =====
-- Runs of mapped pages: vmm_alloc_pages, vmm_free_pages, vmm_describe_addr and the identity
-- mapping of src/kernel/vmm.c.
use luminary.Base.{
  ℕ, zero, suc, ◌+◌, ◌-◌, ◌*◌, ◌/◌, ◌%◌, Bool, true, false, not, ◌&&◌, Option, none, some, List, [],
  ◌∷◌, ltb, leb, ◌==◌, if◌then◌else◌,
}
use luminary.Pmm.{
  Zone, page_size, u32, pmm_alloc_frame, pmm_alloc_frame_zone, pmm_free_frame, pmm_total_frames,
}
use luminary.Vmm.{
  Vmm, frame_of, is_present, set_word, zero_frame, vmm_map_page, vmm_unmap_page, vmm_get_phys,
}
use luminary.Vmm.Ranges.{VirtRange, Kvirt, kvirt_base, take_range, give_range}
use luminary.Vmm.Cow.{kmap_base, kmap_slots}

-- Which of the kernel's regions an address is in; the sentence that names it is not modelled.
pub data Region : Type 0 where
  user_physical : Region
  kmap_slot : (slot : ℕ) → Region
  kvirt_free : (base end : ℕ) → Region
  kvirt_alloc kvirt_unalloc : Region

-- The first entry that contains the address.
pub free_region : (addr : ℕ) → List VirtRange → Option Region
free_region addr [] = none
free_region addr (r ∷ rs) =
    let later = free_region addr rs in
    let end = (r.base + r.npages * page_size) % u32 in
    if leb r.base addr && ltb addr end then some (Region.kvirt_free r.base end) else later

pub vmm_describe_addr : (addr : ℕ) → Kvirt → Region
unfolding free_region
vmm_describe_addr addr k =
    if ltb addr kvirt_base
    then Region.user_physical
    else if leb kmap_base addr && ltb addr (kmap_base + kmap_slots * page_size)
    then Region.kmap_slot ((addr - kmap_base) / page_size)
    else elim (free_region addr k.kvirt_free) [
      | some region ↦ region
      | none ↦ if ltb addr k.kvirt_next then Region.kvirt_alloc else Region.kvirt_unalloc
    ]

module _ (page_directory : ℕ) where
  -- The loop that maps `n` pages; false when it met the frame 0.
  pub map_pages : (n virt : ℕ) → Vmm → Option (Bool × Vmm)
  unfolding vmm_map_page
  map_pages zero virt s = some (true, s)
  map_pages (suc n) virt s = elim (pmm_alloc_frame s.pmm) [
    | none ↦ none
    | some (frame, pmm) ↦
        if frame == 0
        then some (false, record s { pmm = pmm })
        else elim (vmm_map_page page_directory virt frame 3 (record s { pmm = pmm })) [
          | none ↦ none
          | some s' ↦ map_pages n ((virt + page_size) % u32) s'
        ]
  ]

  -- The address, 0 for NULL; `none` is a panic.
  pub vmm_alloc_pages : (n : ℕ) → Vmm → Kvirt → Option (ℕ × Vmm × Kvirt)
  unfolding map_pages take_range
  vmm_alloc_pages n s k =
      if n == 0
      then some (0, s, k)
      else (let (virt_base, k') = take_range n k in
          elim (map_pages n virt_base s) [
            | none ↦ none
            | some (ok, s') ↦ some (if ok then virt_base else 0, s', k')
          ])

  -- The loop that unmaps `n` pages and frees their frames.
  pub unmap_pages : (n virt : ℕ) → Vmm → Vmm
  unfolding vmm_get_phys vmm_unmap_page
  unmap_pages zero virt s = s
  unmap_pages (suc n) virt s =
      let phys = vmm_get_phys page_directory s virt in
      let s' : Vmm = if phys == 0 then s else record s { pmm = pmm_free_frame s.pmm phys } in
      unmap_pages n ((virt + page_size) % u32) (vmm_unmap_page page_directory virt s')

  pub vmm_free_pages : (virt_base n : ℕ) → Vmm → Kvirt → Vmm × Kvirt
  unfolding unmap_pages give_range
  vmm_free_pages virt_base n s k =
      (unmap_pages n virt_base s, give_range (record { base = virt_base; npages = n }) k)

  -- The loop of `identity_map_range` over `pages` pages.
  pub identity_pages : (pages addr flags : ℕ) → Vmm → Option Vmm
  unfolding vmm_map_page
  identity_pages zero addr flags s = some s
  identity_pages (suc pages) addr flags s = elim (vmm_map_page page_directory addr addr flags s) [
    | none ↦ none
    | some s' ↦ identity_pages pages (addr + page_size) flags s'
  ]

  -- The end wraps at 4 GiB, as the source's does.
  pub identity_map_range : (start end flags : ℕ) → Vmm → Option Vmm
  unfolding identity_pages
  identity_map_range start end flags s =
      let first = start / page_size in
      let last = (end + page_size - 1) % u32 / page_size in
      identity_pages (last - first) (first * page_size) flags s

  pub prealloc_pt : (pd_index : ℕ) → Vmm → Option Vmm
  unfolding vmm_map_page
  prealloc_pt pd_index s =
      if not (is_present (s.mem (frame_of page_directory) pd_index))
      then elim (pmm_alloc_frame_zone Zone.zone_low s.pmm) [
        | none ↦ none
        | some (pt_frame, pmm) ↦ vmm_map_page page_directory pt_frame pt_frame 3 (record {
          pmm = pmm;
          mem =
              set_word (zero_frame s.mem (frame_of pt_frame)) (frame_of page_directory) pd_index
                (pt_frame + 3);
        })
      ]
      else some s

  -- The tables of `n` entries from one on.
  pub prealloc_pts : (n pd_index : ℕ) → Vmm → Option Vmm
  unfolding prealloc_pt
  prealloc_pts zero pd_index s = some s
  prealloc_pts (suc n) pd_index s = elim (prealloc_pt pd_index s) [
    | none ↦ none
    | some s' ↦ prealloc_pts n (pd_index + 1) s'
  ]

  -- The framebuffer of the boot information, if there is one, is a start and a size in bytes.
  pub map_framebuffer : Option (ℕ × ℕ) → Vmm → Option Vmm
  unfolding identity_map_range
  map_framebuffer none s = some s
  map_framebuffer (some (fb_start, fb_bytes)) s =
      let fb_size = if fb_bytes == 0 then 4194304 else fb_bytes in
      if fb_start == 0 then some s else identity_map_range fb_start ((fb_start + fb_size) % u32) 7 s

  -- The tables that `init_vmm` builds; the switch to paging is not modelled.
  pub init_vmm : Option (ℕ × ℕ) → Vmm → Option Vmm
  unfolding identity_map_range map_framebuffer prealloc_pts
  init_vmm framebuffer s =
      elim (identity_map_range 0 0x01000000 3
        (record s { mem = zero_frame s.mem (frame_of page_directory) })) [
          | none ↦ none
          | some s1 ↦ elim (map_framebuffer framebuffer s1) [
            | none ↦ none
            | some s2 ↦
                let phys_top = pmm_total_frames s2.pmm * page_size % u32 in
                elim (prealloc_pts ((phys_top + 4194303) / 4194304) 0 s2) [
                  | none ↦ none
                  | some s3 ↦ prealloc_pts 64 768 s3
                ]
          ]
        ]
