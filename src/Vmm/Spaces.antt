-- ===== src/Vmm/Spaces.antt =====
-- vmm_map_page_in and vmm_unmap_page_in of src/kernel/vmm.c, seen through the translations of
-- the directory they change and of the others.
use luminary.Base.{
  ℕ, ◌+◌, ◌*◌, ◌/◌, ◌%◌, ◌≡◌, ◌≢◌, refl, ap, sym, ◌∙◌, inl, inr, ◌⊎◌, true, none, some, arith,
  subst,
}
use native.Mathlib.Decide.{ℕ_discrete}
use luminary.Pmm.{page_size, frame_test}
use luminary.Vmm.{Memory, Vmm, frame_of, is_present, pd_index, own_table, vmm_map_page_in, walk}
use luminary.Vmm.Rights.{Grants, own_table-Grants}
use luminary.Vmm.Table.{HasMemory, IsFull, Owns, own_table-Owns}
use luminary.Vmm.Paging.{
  IsSpace, own_table-IsSpace, mapped, page_word, walk_mapped, walk_elsewhere, off_table, in_dir,
}

-- A directory is as it was, and what was in use is: the space is one still.
pub IsSpace-kept :
    (s s' : Vmm) (dir : ℕ)
    → s'.mem dir ≡ s.mem dir
    → ((f : ℕ) → frame_test s.pmm.bitmap f ≡ true → frame_test s'.pmm.bitmap f ≡ true)
    → IsSpace s dir
    → IsSpace s' dir
IsSpace-kept s s' dir e mono space = record {
  used = mono dir space.used;
  tables = λ i there.
      let (ne, used) = space.tables i (ap (λ h. is_present (h i)) (sym e) ∙ there) in
      rw e (ne, mono (frame_of (s.mem dir i)) used);
  apart = λ i j there there' same.
      space.apart i j (ap (λ h. is_present (h i)) (sym e) ∙ there)
        (ap (λ h. is_present (h j)) (sym e) ∙ there')
        (ap (λ h. frame_of (h i)) (sym e) ∙ same ∙ ap (λ h. frame_of (h j)) e);
}

pub IsSpace-same :
    (s : Vmm) (mem : Memory) (dir : ℕ)
    → mem dir ≡ s.mem dir
    → IsSpace s dir
    → IsSpace (record s { mem = mem }) dir
IsSpace-same s mem dir e space =
    IsSpace-kept s (record s { mem = mem }) dir e (λ f used. used) space

page_word_present :
    (phys flags : ℕ) → is_present flags ≡ true → is_present (page_word phys flags) ≡ true
page_word_present phys flags present =
    let bit : flags % 2 ≡ 1 = ground (arith, present) in
    let odd : (phys / page_size * page_size + flags % page_size) % 2 ≡ 1 = omega (arith, bit) in
    ground (arith, odd)

-- A call either panics, with ZONE_LOW full, or it is `own_table` and a store.
pub map_cases :
    (page_directory dir_phys virt phys flags : ℕ) (s : Vmm)
    → HasMemory s.pmm
    → IsSpace s (frame_of dir_phys)
    → ((vmm_map_page_in page_directory dir_phys virt phys flags s ≡ none) × IsFull s.pmm)
      ⊎ ((s' : Vmm) × (vmm_map_page_in page_directory dir_phys virt phys flags s
            ≡ some (record s' { mem = mapped (frame_of dir_phys) virt (page_word phys flags) s' }))
          × Owns page_directory (frame_of dir_phys) (pd_index virt) s s'
          × (own_table page_directory (frame_of dir_phys) (pd_index virt) flags s ≡ some s'))
unfolding vmm_map_page_in
map_cases page_directory dir_phys virt phys flags s m space =
    elim (own_table-Owns page_directory (frame_of dir_phys) (pd_index virt) flags s m space.used
      (space.tables (pd_index virt))) [
        | inl (panics, full) ↦ inl (rw (vmm_map_page_in, panics) refl, full)
        | inr (s', made, o) ↦ inr (s', rw (vmm_map_page_in, made) refl, o, made)
      ]

-- A frame that is in use and is no part of a directory.
pub record IsData (s : Vmm) (dir f : ℕ) : Type 0 where
  pub used : frame_test s.pmm.bitmap f ≡ true
  pub not_dir : f ≢ dir
  pub not_table : (i : ℕ) → is_present (s.mem dir i) ≡ true → f ≢ frame_of (s.mem dir i)

-- What a call that maps a page in a directory leaves.
pub record Maps (dir virt word : ℕ) (s s' : Vmm) : Type 0 where
  pub page : walk s'.mem dir virt ≡ some word
  pub others : (v : ℕ) → v / page_size ≢ virt / page_size → walk s'.mem dir v ≡ walk s.mem dir v
  pub space : IsSpace s' dir
  pub data_frames : (f : ℕ) → IsData s dir f → (s'.mem f ≡ s.mem f) × IsData s' dir f
  pub entries : (i : ℕ) → i ≢ pd_index virt → s'.mem dir i ≡ s.mem dir i
  pub used : (f : ℕ) → frame_test s.pmm.bitmap f ≡ true → frame_test s'.pmm.bitmap f ≡ true
  pub counts : (f : ℕ) → frame_test s.pmm.bitmap f ≡ true → s'.pmm.refcounts f ≡ s.pmm.refcounts f
  pub same_size : s'.pmm.nframes ≡ s.pmm.nframes

module _ (page_directory dir virt word : ℕ) (s s' : Vmm) (space : IsSpace s dir)
    (o : Owns page_directory dir (pd_index virt) s s') where
  -- The table that is written is no frame of data.
  data_table : (f : ℕ) → IsData s dir f → f ≢ o.table
  data_table f d e = elim o.own [
    | inl free ↦ ground (arith, d.used, free, ap (frame_test s.pmm.bitmap) e)
    | inr (present, same, _) ↦ d.not_table (pd_index virt) present (e ∙ same)
  ]

  mapped_entry : (i : ℕ) → mapped dir virt word s' dir i ≡ s'.mem dir i
  mapped_entry i = in_dir page_directory dir virt word s s' space o i

  IsData-kept :
      (f : ℕ) → IsData s dir f → IsData (record s' { mem = mapped dir virt word s' }) dir f
  IsData-kept f d = record {
    used = o.used f d.used;
    not_dir = d.not_dir;
    not_table = λ i there e. elim (ℕ_discrete i (pd_index virt)) [
      | yes here ↦
          data_table f d
            (e ∙ ap frame_of (mapped_entry i) ∙ ap (λ q. frame_of (s'.mem dir q)) here ∙ o.entry)
      | no other ↦
          let same = mapped_entry i ∙ o.entries i other in
          d.not_table i (ap is_present (sym same) ∙ there) (e ∙ ap frame_of same)
    ];
  }

  mapped-Maps :
      is_present word ≡ true → Maps dir virt word s (record s' { mem = mapped dir virt word s' })
  mapped-Maps present = record {
    page = walk_mapped page_directory dir virt word s s' space o present;
    others = walk_elsewhere page_directory dir virt word s s' space o;
    space =
        IsSpace-same s' _ dir
          (off_table page_directory dir virt word s s' space o dir (λ q. o.not_dir (sym q)))
          (own_table-IsSpace page_directory dir (pd_index virt) s s' space o);
    data_frames = λ f d. (
      off_table page_directory dir virt word s s' space o f (data_table f d)
          ∙ o.elsewhere f d.not_dir (data_table f d),
      IsData-kept f d,
    );
    entries = λ i other. mapped_entry i ∙ o.entries i other;
    used = o.used;
    counts = o.counts;
    same_size = o.same_size;
  }

pub vmm_map_page_in-Maps :
    (page_directory dir_phys virt phys flags : ℕ) (s : Vmm)
    → HasMemory s.pmm
    → IsSpace s (frame_of dir_phys)
    → is_present flags ≡ true
    → ((vmm_map_page_in page_directory dir_phys virt phys flags s ≡ none) × IsFull s.pmm)
      ⊎ ((s' : Vmm) × (vmm_map_page_in page_directory dir_phys virt phys flags s ≡ some s')
          × Maps (frame_of dir_phys) virt (page_word phys flags) s s')
vmm_map_page_in-Maps page_directory dir_phys virt phys flags s m space present =
    elim (map_cases page_directory dir_phys virt phys flags s m space) [
      | inl panics ↦ inl panics
      | inr (s', made, o, _) ↦ inr (
        _,
        made,
        mapped-Maps page_directory (frame_of dir_phys) virt (page_word phys flags) s s' space o
            (page_word_present phys flags present),
      )
    ]

-- What the entry of the directory lets through after a call.
vmm_map_page_in-Grants :
    (page_directory dir_phys virt phys flags : ℕ) (s s'' : Vmm)
    → HasMemory s.pmm
    → IsSpace s (frame_of dir_phys)
    → vmm_map_page_in page_directory dir_phys virt phys flags s ≡ some s''
    → Grants flags
        (s.mem (frame_of dir_phys) (pd_index virt))
        (s''.mem (frame_of dir_phys) (pd_index virt))
vmm_map_page_in-Grants page_directory dir_phys virt phys flags s s'' m space done =
    let dir = frame_of dir_phys in
    elim (map_cases page_directory dir_phys virt phys flags s m space) [
      | inl (panics, _) ↦ absurd cc
      | inr (s', made, o, own) ↦
          let after = record s' { mem = mapped dir virt (page_word phys flags) s' } in
          let it : after ≡ s'' = cc in
          let same : after.mem dir (pd_index virt) ≡ s'.mem dir (pd_index virt) =
            in_dir page_directory dir virt (page_word phys flags) s s' space o (pd_index virt) in
          subst (Grants flags (s.mem dir (pd_index virt)))
            (sym same ∙ ap (λ v. v.mem dir (pd_index virt)) it)
            (own_table-Grants page_directory dir (pd_index virt) flags s s' m own)
    ]

-- After the call the page translates to the given frame with the given flags, the entry of the directory
-- lets the user through if the flags do, and writes unless it was there without, every other page of
-- the directory translates as before, and the directory is a space still. The call panics only
-- with ZONE_LOW full.
pub vmm_map_page_in_lem :
    (page_directory dir_phys virt phys flags : ℕ) (s : Vmm)
    → HasMemory s.pmm
    → IsSpace s (frame_of dir_phys)
    → is_present flags ≡ true
    → ((vmm_map_page_in page_directory dir_phys virt phys flags s ≡ none) × IsFull s.pmm)
      ⊎ ((s' : Vmm) × (vmm_map_page_in page_directory dir_phys virt phys flags s ≡ some s')
          × (walk s'.mem (frame_of dir_phys) virt ≡ some (page_word phys flags))
          × Grants flags
              (s.mem (frame_of dir_phys) (pd_index virt))
              (s'.mem (frame_of dir_phys) (pd_index virt))
          × ((v : ℕ)
              → v / page_size ≢ virt / page_size
              → walk s'.mem (frame_of dir_phys) v ≡ walk s.mem (frame_of dir_phys) v)
          × IsSpace s' (frame_of dir_phys))
vmm_map_page_in_lem page_directory dir_phys virt phys flags s m space present =
    elim (vmm_map_page_in-Maps page_directory dir_phys virt phys flags s m space present) [
      | inl panics ↦ inl panics
      | inr (s', made, p) ↦ inr (
        s',
        made,
        p.page,
        vmm_map_page_in-Grants page_directory dir_phys virt phys flags s s' m space made,
        p.others,
        p.space,
      )
    ]
