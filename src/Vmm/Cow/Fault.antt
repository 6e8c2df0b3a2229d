-- ===== src/Vmm/Cow/Fault.antt =====
-- The fault on a shared page, vmm_cow_fault of src/kernel/vmm.c.
use luminary.Base.{
  ℕ, ◌+◌, ◌-◌, ◌*◌, ◌/◌, ◌<◌, ◌≡◌, ◌≢◌, ◌⊎◌, inl, inr, refl, sym, ap, subst, ◌∙◌, Bool, true, false,
  Option, none, some, ◌==◌, if◌then◌else◌, update, update_ne, update_self, arith, Bool-cases,
}
use mathlib.Core.Option.{some-injective, none-ne-some}
use native.Mathlib.Decide.{ℕ_discrete}
use luminary.Pmm.{Pmm, page_size, frame_test, pmm_alloc_frame, pmm_refcount_get, pmm_refcount_dec}
use luminary.Pmm.Fit.{IsAnyFit}
use luminary.Pmm.Alloc.{Allocates, any-lt, pmm_alloc_frame_lem}
use luminary.Pmm.Refcount.{dec_shared, get_same}
use luminary.Vmm.{
  Memory, frame_of, flags_of, is_present, is_write, is_user, is_cow, pd_index, pt_index, set_word,
  walk,
}
use luminary.Vmm.Paging.{IsSpace, walk_page, walk_same, walk_absent}
use luminary.Vmm.Spaces.{IsData}
use luminary.Vmm.Cow.{Kmap, kmap_base, writable, copy_shared, vmm_cow_fault}
use luminary.Vmm.Cow.Copy.{
  HasWindow, set_word_ne, set_word_at, copied, slots_after, copy_mapped_lem, copied_new,
  copied_other,
}
use luminary.Vmm.Cow.Flags.{writable_lem}

some-walk :
    (mem : Memory) (dir v page : ℕ)
    → walk mem dir v ≡ some page
    → (is_present (mem dir (pd_index v)) ≡ true)
      × (mem (frame_of (mem dir (pd_index v))) (pt_index v) ≡ page)
      × (is_present page ≡ true)
unfolding walk
some-walk mem dir v page e = elim (Bool-cases (is_present (mem dir (pd_index v)))) [
  | inr absent ↦ absurd (none-ne-some page (sym (walk_absent mem dir v absent) ∙ e))
  | inl present ↦
      let there = mem (frame_of (mem dir (pd_index v))) (pt_index v) in
      let shows = walk_page mem dir v _ there refl present refl in
      elim (Bool-cases (is_present there)) [
        | inr absent ↦ absurd (none-ne-some page (sym (shows ∙ rw absent refl) ∙ e))
        | inl present' ↦
            let same : there ≡ page = some-injective _ _ (sym (shows ∙ rw present' refl) ∙ e) in
            (present, same, ap is_present (sym same) ∙ present')
      ]
]

-- A page with other owners, and a machine on which it can be copied: two free slots in a window that the directory
-- has for itself.
pub record CanCopy (page_directory dir old table : ℕ) (s : Kmap) : Type 0 where
  pub space : IsSpace s.vmm dir
  pub window : HasWindow page_directory s.vmm.mem dir table
  pub kernel_used : frame_test s.vmm.pmm.bitmap (frame_of page_directory) ≡ true
  pub data_frame : IsData s.vmm dir old
  pub first_free : s.kmap_used 0 ≡ false
  pub second_free : s.kmap_used 1 ≡ false

-- The page is a frame of its own with the same bytes, and can be written; the old frame is as it was and has lost an owner.
pub record Copies (dir fault_addr page new word : ℕ) (s s' : Kmap) : Type 0 where
  pub fresh : frame_test s.vmm.pmm.bitmap new ≡ false
  pub translates : walk s'.vmm.mem dir fault_addr ≡ some word
  pub frame : frame_of word ≡ new
  pub can_write : (is_write word ≡ true) × (is_cow word ≡ false) × (is_user word ≡ is_user page)
  pub bytes : s'.vmm.mem new ≡ s.vmm.mem (frame_of page)
  pub kept : s'.vmm.mem (frame_of page) ≡ s.vmm.mem (frame_of page)
  pub others :
      (v : ℕ)
      → v / page_size ≢ fault_addr / page_size
      → pd_index v ≢ pd_index kmap_base
      → walk s'.vmm.mem dir v ≡ walk s.vmm.mem dir v
  pub owners :
      (s'.vmm.pmm.refcounts new ≡ 1)
      × (s'.vmm.pmm.refcounts (frame_of page) ≡ s.vmm.pmm.refcounts (frame_of page) - 1)
  pub slots : (i : ℕ) → s'.kmap_used i ≡ s.kmap_used i

slots_same :
    (used : ℕ → Bool) → used 0 ≡ false → used 1 ≡ false → (i : ℕ) → slots_after used i ≡ used i
slots_same used free free' i = elim (ℕ_discrete i 0) [
  | yes first ↦ rw first (sym free)
  | no ne ↦ elim (ℕ_discrete i 1) [
    | yes second ↦ rw second (sym free')
    | no ne' ↦ ground (arith, ne, ne')
  ]
]

module _ (page_directory dir_phys fault_addr page table new : ℕ) (s : Kmap)
    (c : CanCopy page_directory (frame_of dir_phys) (frame_of page) table s)
    (there : walk s.vmm.mem (frame_of dir_phys) fault_addr ≡ some page)
    (outside : pd_index fault_addr ≢ pd_index kmap_base)
    (free : frame_test s.vmm.pmm.bitmap new ≡ false) where
  -- A frame in use is not the new one.
  not_new : (f : ℕ) → frame_test s.vmm.pmm.bitmap f ≡ true → f ≢ new
  not_new f used e = ground (arith, used, free, ap (frame_test s.vmm.pmm.bitmap) e)

  -- The window's table is used, and is no table of another entry.
  window_used : frame_test s.vmm.pmm.bitmap table ≡ true
  window_used =
      (let (_, used) = c.space.tables (pd_index kmap_base) c.window.present in
        ap (frame_test s.vmm.pmm.bitmap) (sym c.window.entry) ∙ used)

  not_window :
      (i : ℕ)
      → i ≢ pd_index kmap_base
      → is_present (s.vmm.mem (frame_of dir_phys) i) ≡ true
      → frame_of (s.vmm.mem (frame_of dir_phys) i) ≢ table
  not_window i other present e =
      other (c.space.apart i (pd_index kmap_base) present c.window.present (e ∙ sym c.window.entry))

  old_frame : frame_of (page / page_size * page_size) ≡ frame_of page
  old_frame = omega arith

  new_frame : frame_of (new * page_size) ≡ new
  new_frame = omega arith

  table_old : table ≢ frame_of (page / page_size * page_size)
  table_old e =
      c.data_frame.not_table (pd_index kmap_base) c.window.present
        (sym (e ∙ old_frame) ∙ sym c.window.entry)

  table_new : table ≢ frame_of (new * page_size)
  table_new e = not_new table window_used (e ∙ new_frame)

  new_dir : frame_of (new * page_size) ≢ frame_of dir_phys
  new_dir e = not_new (frame_of dir_phys) c.space.used (sym e ∙ new_frame)

  new_kernel : frame_of (new * page_size) ≢ frame_of page_directory
  new_kernel e = not_new (frame_of page_directory) c.kernel_used (sym e ∙ new_frame)

  -- The memory after the copy.
  abbrev memory : Memory
  memory = copied table (page / page_size * page_size) (new * page_size) s.vmm.mem

  memory_new : memory new ≡ s.vmm.mem (frame_of page)
  memory_new =
      ap memory (sym new_frame)
      ∙ copied_new page_directory dir_phys (page / page_size * page_size) (new * page_size) table s
          c.window table_old table_new new_dir new_kernel
      ∙ ap s.vmm.mem old_frame

  memory_other : (f : ℕ) → f ≢ table → f ≢ new → memory f ≡ s.vmm.mem f
  memory_other f ne ne' =
      copied_other page_directory dir_phys (page / page_size * page_size) (new * page_size) table s
        c.window table_old table_new new_dir new_kernel f ne (λ e. ne' (e ∙ new_frame))

  -- The entry of the page's table, and the table.
  abbrev entry : ℕ
  entry = s.vmm.mem (frame_of dir_phys) (pd_index fault_addr)

  entry_present : is_present entry ≡ true
  entry_present =
      (let (present, _, _) = some-walk s.vmm.mem (frame_of dir_phys) fault_addr page there in
        present)

  -- The memory after the fault: the copy, and the new word.
  abbrev resolved : Memory
  resolved =
      set_word memory (frame_of entry) (pt_index fault_addr)
        (new * page_size + writable (flags_of page))

  resolved_other : (f : ℕ) → f ≢ table → f ≢ new → f ≢ frame_of entry → resolved f ≡ s.vmm.mem f
  resolved_other f ne ne' apart =
      set_word_ne memory (frame_of entry) (pt_index fault_addr) _ f (λ e. apart (sym e))
      ∙ memory_other f ne ne'

  resolved_table :
      (i : ℕ)
      → resolved (frame_of entry) i
        ≡ update
            (s.vmm.mem (frame_of entry))
            (pt_index fault_addr)
            (new * page_size + writable (flags_of page))
            i
  resolved_table i =
      let (_, used) = c.space.tables (pd_index fault_addr) entry_present in
      set_word_at memory (frame_of entry) (pt_index fault_addr) _ i
      ∙ ap (λ h. update h (pt_index fault_addr) (new * page_size + writable (flags_of page)) i)
          (memory_other (frame_of entry) (not_window (pd_index fault_addr) outside entry_present)
            (not_new _ used))

  resolved_dir : resolved (frame_of dir_phys) ≡ s.vmm.mem (frame_of dir_phys)
  resolved_dir =
      let (not_dir, _) = c.space.tables (pd_index fault_addr) entry_present in
      resolved_other (frame_of dir_phys) (λ e. c.window.not_dir (sym e)) (not_new _ c.space.used)
        (λ e. not_dir (sym e))

  resolved_page :
      walk resolved (frame_of dir_phys) fault_addr
      ≡ some (new * page_size + writable (flags_of page))
  resolved_page =
      let (_, _, present) = some-walk s.vmm.mem (frame_of dir_phys) fault_addr page there in
      let (_, present', _, _, _) = writable_lem new page in
      let word = new * page_size + writable (flags_of page) in
      let shows =
        walk_page resolved (frame_of dir_phys) fault_addr entry word
          (ap (λ h. h (pd_index fault_addr)) resolved_dir) entry_present
          (resolved_table (pt_index fault_addr)
            ∙ update_self (s.vmm.mem (frame_of entry)) (pt_index fault_addr) word) in
      shows ∙ rw (present' ∙ present) refl

  resolved_others :
      (v : ℕ)
      → v / page_size ≢ fault_addr / page_size
      → pd_index v ≢ pd_index kmap_base
      → walk resolved (frame_of dir_phys) v ≡ walk s.vmm.mem (frame_of dir_phys) v
  resolved_others v other ordinary =
      walk_same s.vmm.mem resolved (frame_of dir_phys) (frame_of dir_phys) v
        (ap (λ h. h (pd_index v)) resolved_dir)
        λ present.
          let f = frame_of (s.vmm.mem (frame_of dir_phys) (pd_index v)) in
          let (_, used) = c.space.tables (pd_index v) present in
          elim (ℕ_discrete f (frame_of entry)) [
            | no apart ↦
                ap (λ h. h (pt_index v))
                  (resolved_other f (not_window (pd_index v) ordinary present) (not_new f used)
                    apart)
            | yes same ↦
                let here : pd_index v ≡ pd_index fault_addr =
                  c.space.apart (pd_index v) (pd_index fault_addr) present entry_present same in
                let ne : pt_index fault_addr ≢ pt_index v = λ e. other (omega (arith, here, e)) in
                subst (λ g. resolved g (pt_index v) ≡ s.vmm.mem g (pt_index v)) (sym same)
                  (resolved_table (pt_index v) ∙ update_ne (s.vmm.mem (frame_of entry)) _ ne)
          ]

  -- The machine after the copy.
  abbrev copy_made : Pmm → Kmap
  copy_made p' = record {
    vmm = record { pmm = (pmm_refcount_dec p' (page / page_size * page_size)).1; mem = memory };
    kmap_used = slots_after s.kmap_used;
  }

  copy_shared_lem :
      (p' : Pmm)
      → pmm_alloc_frame s.vmm.pmm ≡ some (new * page_size, p')
      → copy_shared page_directory dir_phys (page / page_size * page_size) s
        ≡ some (new * page_size, copy_made p')
  unfolding copy_shared
  copy_shared_lem p' made =
      let t : Kmap = record {
        vmm = record { pmm = p'; mem = s.vmm.mem };
        kmap_used = s.kmap_used;
      } in
      let copy =
        copy_mapped_lem page_directory dir_phys (page / page_size * page_size) (new * page_size)
          table t c.window table_old table_new new_dir new_kernel c.first_free c.second_free in
      rw (copy_shared, made, copy) refl

  resolved-Copies :
      (p' : Pmm)
      → 1 < pmm_refcount_get s.vmm.pmm (page / page_size * page_size)
      → ((j : ℕ) → p'.refcounts j ≡ (if new == j then 1 else s.vmm.pmm.refcounts j))
      → p'.nframes ≡ s.vmm.pmm.nframes
      → Copies
          (frame_of dir_phys)
          fault_addr
          page
          new
          (new * page_size + writable (flags_of page))
          s
          (record {
            vmm = record { pmm = (copy_made p').vmm.pmm; mem = resolved };
            kmap_used = slots_after s.kmap_used;
          })
  resolved-Copies p' shared owned same_size =
      let (frame, _, write, cow, user) = writable_lem new page in
      let (_, table_used) = c.space.tables (pd_index fault_addr) entry_present in
      let old_new : frame_of page ≢ new = not_new (frame_of page) c.data_frame.used in
      let old_table : frame_of page ≢ table = λ e.
        c.data_frame.not_table (pd_index kmap_base) c.window.present (e ∙ sym c.window.entry) in
      let at = frame_of (page / page_size * page_size) in
      let apart : new ≢ frame_of (page / page_size * page_size) =
        λ e. old_new (sym (e ∙ old_frame)) in
      let off : (new == at) ≡ false = ground (arith, apart) in
      let self : (new == new) ≡ true = ground arith in
      let count : p'.refcounts (frame_of (page / page_size * page_size))
          ≡ s.vmm.pmm.refcounts (frame_of (page / page_size * page_size)) =
        owned at ∙ ap (λ b. if b then 1 else s.vmm.pmm.refcounts at) off in
      let dec =
        dec_shared p' (page / page_size * page_size)
          (subst (λ x. 1 < x) (sym (get_same s.vmm.pmm p' _ same_size count)) shared) in
      record {
        fresh = free;
        translates = resolved_page;
        frame = frame;
        can_write = (write, cow, user);
        bytes =
            set_word_ne memory (frame_of entry) (pt_index fault_addr) _ new (not_new _ table_used)
            ∙ memory_new;
        kept =
            resolved_other (frame_of page) old_table old_new
              (λ e. c.data_frame.not_table (pd_index fault_addr) entry_present e);
        others = resolved_others;
        owners = (
          ap (λ q. q.refcounts new) dec
              ∙ update_ne p'.refcounts _ (λ e. apart (sym e))
              ∙ owned new
              ∙ ap (λ b. if b then 1 else s.vmm.pmm.refcounts new) self,
          ap (λ q. q.refcounts (frame_of page)) dec
              ∙ ap (update p'.refcounts at (p'.refcounts at - 1)) (sym old_frame)
              ∙ update_self p'.refcounts at (p'.refcounts at - 1)
              ∙ ap (λ n. n - 1) (count ∙ ap s.vmm.pmm.refcounts old_frame),
        );
        slots = slots_same s.kmap_used c.first_free c.second_free;
      }

module _ (page_directory dir_phys fault_addr : ℕ) (s : Kmap) where
  abbrev word_of : ℕ
  word_of =
      s.vmm.mem (frame_of (s.vmm.mem (frame_of dir_phys) (pd_index fault_addr)))
        (pt_index fault_addr)

  -- What the fault makes of the copy.
  after_copy : (page : ℕ) → Option (ℕ × Kmap) → Option (Bool × Kmap)
  after_copy page r = elim r [
    | none ↦ none
    | some (new_frame, t) ↦ some (
      true,
      record t {
        vmm = record {
          pmm = t.vmm.pmm;
          mem =
              set_word t.vmm.mem (frame_of (s.vmm.mem (frame_of dir_phys) (pd_index fault_addr)))
                (pt_index fault_addr) (new_frame + writable (flags_of page));
        };
      },
    )
  ]

  -- The guards let the fault on a shared page through.
  IsShared : ℕ → Type 0
  IsShared page =
      is_present page ≡ true
      → is_cow page ≡ true
      → 1 < pmm_refcount_get s.vmm.pmm (page / page_size * page_size)
      → vmm_cow_fault page_directory dir_phys dir_phys fault_addr s
        ≡ after_copy page (copy_shared page_directory dir_phys (page / page_size * page_size) s)

  word_copies :
      is_present (s.vmm.mem (frame_of dir_phys) (pd_index fault_addr)) ≡ true → IsShared word_of
  unfolding vmm_cow_fault after_copy IsShared
  word_copies present present' cow shared =
      let others : (pmm_refcount_get s.vmm.pmm (word_of / page_size * page_size) == 1) ≡ false =
        ground (arith, shared) in
      rw (present, present', cow, others) refl

  fault_copies :
      (page : ℕ) → walk s.vmm.mem (frame_of dir_phys) fault_addr ≡ some page → IsShared page
  fault_copies page there =
      let (present, at, _) = some-walk s.vmm.mem (frame_of dir_phys) fault_addr page there in
      subst IsShared at (word_copies present)

no_copy :
    (page_directory cr3 old : ℕ) (s : Kmap)
    → pmm_alloc_frame s.vmm.pmm ≡ none
    → copy_shared page_directory cr3 old s ≡ none
unfolding copy_shared
no_copy page_directory cr3 old s made = rw (copy_shared, made) refl

-- A fault on a shared page that other owners have, on a machine where it can be copied: either no frame is free,
-- which is the panic, or the page becomes a copy.
pub vmm_cow_fault_lem :
    (page_directory dir_phys fault_addr page table : ℕ) (s : Kmap)
    → CanCopy page_directory (frame_of dir_phys) (frame_of page) table s
    → walk s.vmm.mem (frame_of dir_phys) fault_addr ≡ some page
    → is_cow page ≡ true
    → pd_index fault_addr ≢ pd_index kmap_base
    → 1 < pmm_refcount_get s.vmm.pmm (page / page_size * page_size)
    → ((vmm_cow_fault page_directory dir_phys dir_phys fault_addr s ≡ none)
        × IsAnyFit s.vmm.pmm none)
      ⊎ ((new : ℕ) × (word : ℕ) × (s' : Kmap) × (vmm_cow_fault page_directory dir_phys dir_phys
              fault_addr s
            ≡ some (true, s'))
          × Copies (frame_of dir_phys) fault_addr page new word s s')
unfolding after_copy IsShared
vmm_cow_fault_lem page_directory dir_phys fault_addr page table s c there cow outside shared =
    let (found, fit, made) = pmm_alloc_frame_lem s.vmm.pmm in
    let (_, _, present) = some-walk s.vmm.mem (frame_of dir_phys) fault_addr page there in
    from (fault_copies page_directory dir_phys fault_addr s page there present cow shared) found fit
      made
  where
    from :
        vmm_cow_fault page_directory dir_phys dir_phys fault_addr s
          ≡ after_copy page_directory dir_phys fault_addr s page
              (copy_shared page_directory dir_phys (page / page_size * page_size) s)
        → (found : Option ℕ) → IsAnyFit s.vmm.pmm found
        → Allocates s.vmm.pmm found (pmm_alloc_frame s.vmm.pmm)
        → ((vmm_cow_fault page_directory dir_phys dir_phys fault_addr s ≡ none)
            × IsAnyFit s.vmm.pmm none)
          ⊎ ((new : ℕ) × (word : ℕ) × (s' : Kmap) × (vmm_cow_fault page_directory dir_phys dir_phys
                  fault_addr s
                ≡ some (true, s'))
              × Copies (frame_of dir_phys) fault_addr page new word s s')
    from shares none full made = inl (
      shares
          ∙ ap (after_copy page_directory dir_phys fault_addr s page)
              (no_copy page_directory dir_phys (page / page_size * page_size) s made),
      full,
    )
    from shares (some new) fit (p', made, marked, owned, same_size) =
        let (_, free) = any-lt s.vmm.pmm new fit in
        inr (
          new,
          new * page_size + writable (flags_of page),
          _,
          shares
              ∙ ap (after_copy page_directory dir_phys fault_addr s page) (
                  copy_shared_lem page_directory dir_phys fault_addr page table new s c there
                    outside free p' made),
          resolved-Copies page_directory dir_phys fault_addr page table new s c there outside free
              p' shared owned same_size,
        )
