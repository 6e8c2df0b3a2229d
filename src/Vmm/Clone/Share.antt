-- ===== src/Vmm/Clone/Share.antt =====
-- The whole of vmm_clone_page_dir, src/kernel/vmm.c.
use luminary.Base.{
  ℕ, ◌*◌, ◌≤◌, ◌<◌, ◌≡◌, ◌≢◌, ◌⊎◌, refl, sym, ap, ◌∙◌, true, false, some, if◌then◌else◌, update_ne,
  update_self, arith,
}
use luminary.Pmm.{page_size, frame_test}
use luminary.Pmm.Room.{free_low}
use luminary.Vmm.{
  Vmm, frame_of, is_present, is_write, is_user, is_cow, pd_index, pt_index, copy_frame, walk,
}
use luminary.Vmm.Table.{HasMemory}
use luminary.Vmm.Paging.{IsSpace, walk_same}
use luminary.Vmm.Spaces.{IsSpace-kept}
use luminary.Vmm.Clone.{shared_word, vmm_create_page_dir, vmm_clone_page_dir}
use luminary.Vmm.Clone.Rounds.{alloc_room, CanClone, clone_entries_lem}
use luminary.Vmm.Clone.Entries.{shares, shared_word_lem}

-- With 765 free frames in ZONE_LOW, as many as a directory and its tables can take, the clone succeeds. Its
-- directory is a frame that was free, with the kernel's entries outside user space. At every address of user space whose
-- table is the user's, the clone and the source translate to the page that the source had, which neither can write from now on.
-- No frame in use but the tables of the source has changed.
pub vmm_clone_page_dir_lem :
    (page_directory src_dir_phys : ℕ) (s : Vmm)
    → HasMemory s.pmm
    → IsSpace s (frame_of src_dir_phys)
    → 765 ≤ free_low s.pmm
    → (new_dir_phys : ℕ) × (s' : Vmm) × (vmm_clone_page_dir page_directory src_dir_phys s
        ≡ some (new_dir_phys, s'))
      × (frame_test s.pmm.bitmap (frame_of new_dir_phys) ≡ false)
      × ((i : ℕ)
          → (i < 4) ⊎ (768 ≤ i)
          → s'.mem (frame_of new_dir_phys) i ≡ s.mem (frame_of page_directory) i)
      × ((v : ℕ)
          → 0x01000000 ≤ v
          → v < 0xC0000000
          → is_present (s.mem (frame_of src_dir_phys) (pd_index v)) ≡ true
          → is_user (s.mem (frame_of src_dir_phys) (pd_index v)) ≡ true
          → (walk s'.mem (frame_of new_dir_phys) v ≡ shares (walk s.mem (frame_of src_dir_phys) v))
            × (walk s'.mem (frame_of src_dir_phys) v
                ≡ shares (walk s.mem (frame_of src_dir_phys) v)))
      × ((f : ℕ)
          → frame_test s.pmm.bitmap f ≡ true
          → ((i : ℕ)
              → is_present (s.mem (frame_of src_dir_phys) i) ≡ true
              → f ≢ frame_of (s.mem (frame_of src_dir_phys) i))
          → s'.mem f ≡ s.mem f)
      × ((page : ℕ)
          → (frame_of (shared_word page) ≡ frame_of page)
            × (is_present (shared_word page) ≡ is_present page)
            × (is_write (shared_word page) ≡ false)
            × (is_cow (shared_word page) ≡ (if is_write page then true else is_cow page)))
unfolding vmm_clone_page_dir vmm_create_page_dir
vmm_clone_page_dir_lem page_directory src_dir_phys s m space room =
    let src = frame_of src_dir_phys in
    let (t, p', made, takes, left) = alloc_room s.pmm m (omega (arith, room)) in
    let new = frame_of (t * page_size) in
    let at : new ≡ t = omega arith in
    let s₁ : Vmm = record { pmm = p'; mem = copy_frame s.mem new (frame_of page_directory) } in
    let ne : (f : ℕ) → frame_test s.pmm.bitmap f ≡ true → new ≢ f = λ f used e.
      (let free = takes.free in
        ground (arith, used, free, ap (frame_test s.pmm.bitmap) (sym at ∙ e))) in
    let same : (f : ℕ) → frame_test s.pmm.bitmap f ≡ true → s₁.mem f ≡ s.mem f =
      λ f used. update_ne s.mem _ (ne f used) in
    let marked = takes.marked in
    let mono : (f : ℕ) → frame_test s.pmm.bitmap f ≡ true → frame_test p'.bitmap f ≡ true =
      λ f used. (let b = marked f in ground (arith, b, used)) in
    let e = same src space.used in
    let there : (i : ℕ) → is_present (s₁.mem src i) ≡ true → is_present (s.mem src i) ≡ true =
      λ i p. ap (λ h. is_present (h i)) (sym e) ∙ p in
    let size = takes.same_size in
    let some_frames = m.some_frames in
    let limit = m.limit in
    let g : CanClone src new s₁ = record {
      memory = record {
        some_frames = omega (arith, size, some_frames);
        limit = omega (arith, size, limit);
      };
      space = IsSpace-kept s s₁ src e mono space;
      used = (let b = marked new in ground (arith, b, at));
      apart = ne src space.used;
      no_table = λ i p q.
          let (_, used) = space.tables i (there i p) in
          ne (frame_of (s.mem src i)) used (q ∙ ap (λ h. frame_of (h i)) e);
    } in
    let (s₂, made', c) = clone_entries_lem 764 src new 4 s₁ g (omega (arith, left, room)) in
    let walks : (v : ℕ) → walk s₁.mem src v ≡ walk s.mem src v = λ v.
      walk_same s.mem s₁.mem src src v (ap (λ h. h (pd_index v)) e) (λ p.
        let (_, used) = space.tables (pd_index v) p in ap (λ h. h (pt_index v)) (same _ used)) in
    (
      t * page_size,
      s₂,
      rw (vmm_clone_page_dir, made, made') refl,
      ap (frame_test s.pmm.bitmap) at ∙ takes.free,
      λ i out. c.entries i out ∙ ap (λ h. h i) (update_self s.mem new _),
      λ v from to p user.
          let lo : 4 ≤ pd_index v = omega (arith, from) in
          let hi : pd_index v < 768 = omega (arith, to) in
          let p' = ap (λ h. is_present (h (pd_index v))) e ∙ p in
          let user' = ap (λ h. is_user (h (pd_index v))) e ∙ user in
          (
            c.child v lo hi p' user' ∙ ap shares (walks v),
            c.parent v lo hi p' user' ∙ ap shares (walks v),
          ),
      λ f used others.
          c.kept f (mono f used) (λ q. ne f used (sym q))
            (λ i from to p q. others i (there i p) (q ∙ ap (λ h. frame_of (h i)) e))
          ∙ same f used,
      shared_word_lem,
    )
