-- ===== src/Vmm/Cow/Copy.antt =====
-- The copy of a frame through the window of temporary mappings, in src/kernel/vmm.c.
use luminary.Base.{
  ℕ, ◌+◌, ◌-◌, ◌*◌, ◌/◌, ◌%◌, ◌≡◌, ◌≢◌, ◌⊎◌, inl, inr, refl, sym, ap, ap₂, ◌∙◌, Bool, true, false,
  not, ◌&&◌, Option, none, some, leb, ◌==◌, update, update_ne, update_self, arith,
}
use luminary.Pmm.{page_size, u32}
use luminary.Vmm.{
  Memory, Vmm, frame_of, is_present, pd_index, pt_index, set_word, copy_frame, own_table,
  vmm_map_page_in, vmm_unmap_page_in, walk,
}
use luminary.Vmm.Paging.{walk_page}
use luminary.Vmm.Cow.{
  Kmap, kmap_base, kmap_slots, free_slot, memcpy_page, vmm_kmap, vmm_kunmap, copy_mapped,
}

pub set_word_ne :
    (mem : Memory) (frame i word f : ℕ) → frame ≢ f → set_word mem frame i word f ≡ mem f
set_word_ne mem frame i word f ne = update_ne mem _ ne

pub set_word_at :
    (mem : Memory) (frame i word j : ℕ)
    → set_word mem frame i word frame j ≡ update (mem frame) i word j
set_word_at mem frame i word j = ap (λ h. h j) (update_self mem frame _)

-- The directory has a page table of its own for the window, which is neither directory.
pub record HasWindow (page_directory : ℕ) (mem : Memory) (dir table : ℕ) : Type 0 where
  pub present : is_present (mem dir (pd_index kmap_base)) ≡ true
  pub entry : frame_of (mem dir (pd_index kmap_base)) ≡ table
  pub not_dir : table ≢ dir
  pub not_kernel : table ≢ frame_of page_directory
  pub own :
      (dir ≡ frame_of page_directory)
      ⊎ (table ≢ frame_of (mem (frame_of page_directory) (pd_index kmap_base)))

-- Writing neither directory leaves the window.
pub HasWindow-same :
    (page_directory : ℕ) (mem mem' : Memory) (dir table : ℕ)
    → mem' dir ≡ mem dir
    → mem' (frame_of page_directory) ≡ mem (frame_of page_directory)
    → HasWindow page_directory mem dir table
    → HasWindow page_directory mem' dir table
HasWindow-same page_directory mem mem' dir table e e' w = record {
  present = ap (λ h. is_present (h (pd_index kmap_base))) e ∙ w.present;
  entry = ap (λ h. frame_of (h (pd_index kmap_base))) e ∙ w.entry;
  not_dir = w.not_dir;
  not_kernel = w.not_kernel;
  own = elim w.own [
    | inl kernel ↦ inl kernel
    | inr ne ↦ inr (λ q. ne (q ∙ ap (λ h. frame_of (h (pd_index kmap_base))) e'))
  ];
}

-- `own_table` finds the table of the window, and takes no frame.
own_table_window :
    (page_directory dir table : ℕ) (s : Vmm)
    → HasWindow page_directory s.mem dir table
    → own_table page_directory dir (pd_index kmap_base) 3 s ≡ some s
unfolding own_table
own_table_window page_directory dir table s w =
    let private : (not (dir == frame_of page_directory)
          && frame_of (s.mem dir (pd_index kmap_base))
            == frame_of (s.mem (frame_of page_directory) (pd_index kmap_base)))
        ≡ false =
      elim w.own [
        | inl kernel ↦ ground (arith, kernel)
        | inr ne ↦ (let e = w.entry in ground (arith, ne, e))
      ] in
    rw (own_table, w.present, private) refl

-- The machine after a temporary mapping in a slot.
abbrev pub with_slot : (table index phys i : ℕ) → Kmap → Kmap
with_slot table index phys i s = record {
  vmm = record {
    pmm = s.vmm.pmm;
    mem = set_word s.vmm.mem table index (phys / page_size * page_size + 3);
  };
  kmap_used = update s.kmap_used i true;
}

-- A slot of the window is word `768 + i` of its table.
kmap_window :
    (page_directory cr3 phys table i : ℕ) (s : Kmap)
    → HasWindow page_directory s.vmm.mem (frame_of cr3) table
    → free_slot kmap_slots s.kmap_used ≡ some i
    → pd_index (kmap_base + i * page_size) ≡ pd_index kmap_base
    → pt_index (kmap_base + i * page_size) ≡ 768 + i
    → vmm_kmap page_directory cr3 phys s
      ≡ some (kmap_base + i * page_size, with_slot table (768 + i) phys i s)
unfolding vmm_kmap vmm_map_page_in
kmap_window page_directory cr3 phys table i s w free at_dir at_table =
    rw
      (
        vmm_kmap,
        free,
        vmm_map_page_in,
        at_dir,
        own_table_window page_directory (frame_of cr3) table s.vmm w,
        at_dir,
        w.entry,
        at_table,
      )
      refl

kunmap_window :
    (page_directory cr3 table i : ℕ) (s : Kmap)
    → HasWindow page_directory s.vmm.mem (frame_of cr3) table
    → pd_index (kmap_base + i * page_size) ≡ pd_index kmap_base
    → pt_index (kmap_base + i * page_size) ≡ 768 + i
    → (kmap_base + i * page_size + u32 - kmap_base) % u32 / page_size ≡ i
    → leb kmap_slots i ≡ false
    → vmm_kunmap page_directory cr3 (kmap_base + i * page_size) s
      ≡ some (record {
        vmm = record { pmm = s.vmm.pmm; mem = set_word s.vmm.mem table (768 + i) 0 };
        kmap_used = update s.kmap_used i false;
      })
unfolding vmm_kunmap vmm_unmap_page_in
kunmap_window page_directory cr3 table i s w at_dir at_table slot low =
    rw (slot, low, at_dir, at_table, w.present, w.entry) refl

-- A page of the window translates to what its word says.
walk_window :
    (page_directory dir table i word : ℕ) (mem : Memory)
    → HasWindow page_directory mem dir table
    → pd_index (kmap_base + i * page_size) ≡ pd_index kmap_base
    → pt_index (kmap_base + i * page_size) ≡ 768 + i
    → mem table (768 + i) ≡ word
    → is_present word ≡ true
    → walk mem dir (kmap_base + i * page_size) ≡ some word
walk_window page_directory dir table i word mem w at_dir at_table at present =
    walk_page mem dir (kmap_base + i * page_size) _ word (ap (mem dir) at_dir) w.present (
      ap (λ q. mem (frame_of (mem dir (pd_index kmap_base))) q) at_table
      ∙ ap (λ f. mem f (768 + i)) w.entry
      ∙ at)
    ∙ rw present refl

first_slot : (used : ℕ → Bool) → used 0 ≡ false → free_slot kmap_slots used ≡ some 0
unfolding free_slot
first_slot used free = rw free refl

second_slot :
    (used : ℕ → Bool) → used 1 ≡ false → free_slot kmap_slots (update used 0 true) ≡ some 1
unfolding free_slot
second_slot used free = rw free refl

-- The memory before the copy, and after it when the two slots are given back.
abbrev pub window_open : (table old new : ℕ) → Memory → Memory
window_open table old new mem =
    set_word (set_word mem table 768 (old / page_size * page_size + 3)) table 769
      (new / page_size * page_size + 3)

abbrev pub window_closed : (table : ℕ) → Memory → Memory
window_closed table mem = set_word (set_word mem table 769 0) table 768 0

window_open_other :
    (table old new : ℕ) (mem : Memory) (f : ℕ) → table ≢ f → window_open table old new mem f ≡ mem f
window_open_other table old new mem f ne =
    let word = old / page_size * page_size + 3 in
    set_word_ne (set_word mem table 768 word) table 769 (new / page_size * page_size + 3) f ne
    ∙ set_word_ne mem table 768 word f ne

window_closed_other :
    (table : ℕ) (mem : Memory) (f : ℕ) → table ≢ f → window_closed table mem f ≡ mem f
window_closed_other table mem f ne =
    set_word_ne (set_word mem table 769 0) table 768 0 f ne ∙ set_word_ne mem table 769 0 f ne

-- The memory that the copy leaves.
abbrev pub copied : (table old new : ℕ) → Memory → Memory
copied table old new mem =
    window_closed table (copy_frame (window_open table old new mem) (frame_of new) (frame_of old))

-- The slots that are in use after the copy.
abbrev pub slots_after : (ℕ → Bool) → ℕ → Bool
slots_after used = update (update (update (update used 0 true) 1 true) 1 false) 0 false

module _ (page_directory cr3 old new table : ℕ) (s : Kmap)
    (w : HasWindow page_directory s.vmm.mem (frame_of cr3) table) (apart_old : table ≢ frame_of old)
    (apart_new : table ≢ frame_of new) (new_dir : frame_of new ≢ frame_of cr3)
    (new_kernel : frame_of new ≢ frame_of page_directory) where
  -- Words in the window's table leave the window.
  window_kept :
      (mem : Memory) (i word : ℕ)
      → HasWindow page_directory mem (frame_of cr3) table
      → HasWindow page_directory (set_word mem table i word) (frame_of cr3) table
  window_kept mem i word v =
      HasWindow-same page_directory mem _ (frame_of cr3) table
        (set_word_ne mem table i word _ v.not_dir) (set_word_ne mem table i word _ v.not_kernel) v

  copy_kept :
      (mem : Memory)
      → HasWindow page_directory mem (frame_of cr3) table
      → HasWindow page_directory (copy_frame mem (frame_of new) (frame_of old)) (frame_of cr3) table
  copy_kept mem v =
      HasWindow-same page_directory mem _ (frame_of cr3) table (update_ne mem _ new_dir)
        (update_ne mem _ new_kernel) v

  -- The copy reads the old frame and writes the new one.
  memcpy_window :
      (mem : Memory)
      → HasWindow page_directory mem (frame_of cr3) table
      → mem table 768 ≡ old / page_size * page_size + 3
      → mem table 769 ≡ new / page_size * page_size + 3
      → memcpy_page cr3 (kmap_base + 1 * page_size) (kmap_base + 0 * page_size) mem
        ≡ some (copy_frame mem (frame_of new) (frame_of old))
  unfolding memcpy_page
  memcpy_window mem v at_old at_new =
      let source =
        walk_window page_directory (frame_of cr3) table 0 _ mem v refl refl at_old (ground arith) in
      let target =
        walk_window page_directory (frame_of cr3) table 1 _ mem v refl refl at_new (ground arith) in
      let old_frame : (old / page_size * page_size + 3) / page_size ≡ old / page_size =
        omega arith in
      let new_frame : (new / page_size * page_size + 3) / page_size ≡ new / page_size =
        omega arith in
      rw (memcpy_page, source, target) (ap₂ (λ a b. some (copy_frame mem a b)) new_frame old_frame)

  -- The second of the two calls that close the window.
  after_kunmap : Option Kmap → Option Kmap
  unfolding vmm_kunmap
  after_kunmap r = elim r [
    | none ↦ none
    | some t ↦ vmm_kunmap page_directory cr3 (kmap_base + 0 * page_size) t
  ]

  pub copy_mapped_lem :
      s.kmap_used 0 ≡ false
      → s.kmap_used 1 ≡ false
      → copy_mapped page_directory cr3 old new s
        ≡ some (record {
          vmm = record { pmm = s.vmm.pmm; mem = copied table old new s.vmm.mem };
          kmap_used = slots_after s.kmap_used;
        })
  unfolding copy_mapped after_kunmap
  copy_mapped_lem free free' =
      let opened = window_open table old new s.vmm.mem in
      let w1 = window_kept s.vmm.mem 768 (old / page_size * page_size + 3) w in
      let w2 = window_kept _ 769 (new / page_size * page_size + 3) w1 in
      let w3 = copy_kept opened w2 in
      let w4 = window_kept _ 769 0 w3 in
      let s2 = with_slot table (768 + 1) new 1 (with_slot table 768 old 0 s) in
      let s3 : Kmap = record {
        vmm = record { pmm = s2.vmm.pmm; mem = copy_frame opened (frame_of new) (frame_of old) };
        kmap_used = s2.kmap_used;
      } in
      let s4 : Kmap = record {
        vmm = record { pmm = s3.vmm.pmm; mem = set_word s3.vmm.mem table 769 0 };
        kmap_used = update s3.kmap_used 1 false;
      } in
      let first = set_word s.vmm.mem table 768 (old / page_size * page_size + 3) in
      let word = new / page_size * page_size + 3 in
      let at_old : opened table 768 ≡ old / page_size * page_size + 3 =
        set_word_at first table 769 word 768
        ∙ update_ne (first table) {i = 769} {j = 768} word (λ q. ground (arith, q))
        ∙ set_word_at s.vmm.mem table 768 _ 768
        ∙ update_self (s.vmm.mem table) 768 _ in
      let at_new : opened table 769 ≡ word =
        set_word_at first table 769 word 769 ∙ update_self (first table) 769 word in
      let opens : copy_mapped page_directory cr3 old new s
          ≡ after_kunmap (vmm_kunmap page_directory cr3 (kmap_base + 1 * page_size) s3) =
        rw
          (
            copy_mapped,
            kmap_window page_directory cr3 old table 0 s w (first_slot s.kmap_used free) refl refl,
            kmap_window page_directory cr3 new table 1 (with_slot table 768 old 0 s) w1
                (second_slot s.kmap_used free') refl refl,
            memcpy_window opened w2 at_old at_new,
          )
          refl in
      opens
      ∙ ap (after_kunmap) (kunmap_window page_directory cr3 table 1 s3 w3 refl refl refl refl)
      ∙ kunmap_window page_directory cr3 table 0 s4 w4 refl refl refl refl

  -- What the copy leaves: the new frame is as the old one was, and no other but the table of the window has changed.
  pub copied_new : copied table old new s.vmm.mem (frame_of new) ≡ s.vmm.mem (frame_of old)
  copied_new =
      let opened = window_open table old new s.vmm.mem in
      window_closed_other table (copy_frame opened (frame_of new) (frame_of old)) (frame_of new)
        apart_new
      ∙ update_self opened (frame_of new) (opened (frame_of old))
      ∙ window_open_other table old new s.vmm.mem (frame_of old) apart_old

  pub copied_other :
      (f : ℕ) → f ≢ table → f ≢ frame_of new → copied table old new s.vmm.mem f ≡ s.vmm.mem f
  copied_other f ne ne' =
      let opened = window_open table old new s.vmm.mem in
      let apart : table ≢ f = λ q. ne (sym q) in
      window_closed_other table (copy_frame opened (frame_of new) (frame_of old)) f apart
      ∙ update_ne opened (opened (frame_of old)) (λ q. ne' (sym q))
      ∙ window_open_other table old new s.vmm.mem f apart
