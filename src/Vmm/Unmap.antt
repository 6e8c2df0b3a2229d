-- ===== src/Vmm/Unmap.antt =====
-- vmm_unmap_page_in of src/kernel/vmm.c, seen through the translations of its directory.
use luminary.Base.{
  ℕ, ◌/◌, ◌≡◌, ◌≢◌, refl, ap, sym, subst, ◌∙◌, inl, inr, true, none, update, update_ne, update_self,
  arith, Bool-cases,
}
use native.Mathlib.Decide.{ℕ_discrete}
use luminary.Pmm.{page_size}
use luminary.Vmm.{
  Memory, Vmm, frame_of, is_present, pd_index, pt_index, set_word, vmm_unmap_page_in, walk,
}
use luminary.Vmm.Paging.{IsSpace, walk_same, walk_page, walk_absent}
use luminary.Vmm.Spaces.{IsSpace-same, IsData}

module _ (dir virt : ℕ) (s : Vmm) (space : IsSpace s dir)
    (present : is_present (s.mem dir (pd_index virt)) ≡ true) where
  -- The table that the page's word is cleared in.
  table_of : ℕ
  table_of = frame_of (s.mem dir (pd_index virt))

  cleared : Memory
  unfolding table_of
  cleared = set_word s.mem table_of (pt_index virt) 0

  cleared_dir : cleared dir ≡ s.mem dir
  unfolding table_of cleared
  cleared_dir =
      (let (not_dir, _) = space.tables (pd_index virt) present in update_ne s.mem _ not_dir)

  cleared_word : (i : ℕ) → cleared table_of i ≡ update (s.mem table_of) (pt_index virt) 0 i
  unfolding table_of cleared
  cleared_word i = ap (λ h. h i) (update_self s.mem table_of _)

  walk-cleared : walk cleared dir virt ≡ none
  unfolding table_of
  walk-cleared =
      walk_page cleared dir virt (s.mem dir (pd_index virt)) 0
        (ap (λ h. h (pd_index virt)) cleared_dir) present
        (cleared_word (pt_index virt) ∙ update_self (s.mem table_of) (pt_index virt) 0)
      ∙ refl

  walk-cleared_elsewhere :
      (v : ℕ) → v / page_size ≢ virt / page_size → walk cleared dir v ≡ walk s.mem dir v
  unfolding table_of cleared
  walk-cleared_elsewhere v other =
      walk_same s.mem cleared dir dir v (ap (λ h. h (pd_index v)) cleared_dir) λ there.
        elim (ℕ_discrete table_of (frame_of (s.mem dir (pd_index v)))) [
          | no apart ↦ ap (λ h. h (pt_index v)) (update_ne s.mem _ apart)
          | yes same ↦
              let here : pd_index v ≡ pd_index virt =
                space.apart (pd_index v) (pd_index virt) there present (sym same) in
              let ne : pt_index virt ≢ pt_index v = λ e. other (omega (arith, here, e)) in
              subst (λ f. cleared f (pt_index v) ≡ s.mem f (pt_index v)) same
                (cleared_word (pt_index v) ∙ update_ne (s.mem table_of) 0 ne)
        ]

-- What a call that unmaps a page of a directory leaves.
pub record Unmaps (dir virt : ℕ) (s s' : Vmm) : Type 0 where
  pub page : walk s'.mem dir virt ≡ none
  pub others : (v : ℕ) → v / page_size ≢ virt / page_size → walk s'.mem dir v ≡ walk s.mem dir v
  pub space : IsSpace s' dir
  pub data_frames : (f : ℕ) → IsData s dir f → (s'.mem f ≡ s.mem f) × IsData s' dir f
  pub entries : s'.mem dir ≡ s.mem dir
  pub same_pmm : s'.pmm ≡ s.pmm

IsData-same :
    (s : Vmm) (mem : Memory) (dir f : ℕ)
    → mem dir ≡ s.mem dir
    → IsData s dir f
    → IsData (record s { mem = mem }) dir f
IsData-same s mem dir f e d = record {
  used = d.used;
  not_dir = d.not_dir;
  not_table = λ i there q.
      d.not_table i (ap (λ h. is_present (h i)) (sym e) ∙ there) (q ∙ ap (λ h. frame_of (h i)) e);
}

pub vmm_unmap_page_in-Unmaps :
    (page_directory dir_phys virt : ℕ) (s : Vmm)
    → IsSpace s (frame_of dir_phys)
    → Unmaps (frame_of dir_phys) virt s (vmm_unmap_page_in page_directory dir_phys virt s)
unfolding vmm_unmap_page_in table_of cleared
vmm_unmap_page_in-Unmaps page_directory dir_phys virt s space =
    let dir = frame_of dir_phys in
    elim (Bool-cases (is_present (s.mem dir (pd_index virt)))) [
      | inr absent ↦ rw absent (record {
        page = walk_absent s.mem dir virt absent;
        others = λ v other. refl;
        space = space;
        data_frames = λ f d. (refl, d);
        entries = refl;
        same_pmm = refl;
      })
      | inl present ↦
          let mem = cleared dir virt s space present in
          let same = cleared_dir dir virt s space present in
          rw present (record {
            page = walk-cleared dir virt s space present;
            others = walk-cleared_elsewhere dir virt s space present;
            space = IsSpace-same s mem dir same space;
            data_frames = λ f d. (
              update_ne s.mem _ (λ q. d.not_table (pd_index virt) present (sym q)),
              IsData-same s mem dir f same d,
            );
            entries = same;
            same_pmm = refl;
          })
    ]

-- After the call the page has no translation, every other page of the directory translates as before, and
-- the directory is a space still.
pub vmm_unmap_page_in_lem :
    (page_directory dir_phys virt : ℕ) (s : Vmm)
    → IsSpace s (frame_of dir_phys)
    → (walk (vmm_unmap_page_in page_directory dir_phys virt s).mem (frame_of dir_phys) virt ≡ none)
      × ((v : ℕ)
          → v / page_size ≢ virt / page_size
          → walk (vmm_unmap_page_in page_directory dir_phys virt s).mem (frame_of dir_phys) v
            ≡ walk s.mem (frame_of dir_phys) v)
      × IsSpace (vmm_unmap_page_in page_directory dir_phys virt s) (frame_of dir_phys)
vmm_unmap_page_in_lem page_directory dir_phys virt s space =
    let u = vmm_unmap_page_in-Unmaps page_directory dir_phys virt s space in
    (u.page, u.others, u.space)
