-- ===== src/Vmm/Isolation.antt =====
-- vmm_map_page_in of src/kernel/vmm.c, seen from the other directories.
use luminary.Base.{ℕ, ◌≡◌, ◌≢◌, ap, sym, subst, ◌∙◌, inl, inr, true, some, arith}
use mathlib.Core.Option.{some-injective, none-ne-some}
use luminary.Pmm.{frame_test}
use luminary.Vmm.{Memory, Vmm, frame_of, is_present, pd_index, pt_index, vmm_map_page_in, walk}
use luminary.Vmm.Table.{HasMemory, Owns}
use luminary.Vmm.Paging.{IsSpace, mapped, page_word, walk_same, off_table}
use luminary.Vmm.Spaces.{map_cases}

-- Two directories that share the kernel's tables and no others.
pub record Shares (page_directory : ℕ) (mem : Memory) (dir other : ℕ) : Type 0 where
  pub apart : other ≢ dir
  pub not_dir : (j : ℕ) → is_present (mem other j) ≡ true → frame_of (mem other j) ≢ dir
  pub not_table : (i : ℕ) → is_present (mem dir i) ≡ true → frame_of (mem dir i) ≢ other
  pub kernel :
      (i j : ℕ)
      → is_present (mem dir i) ≡ true
      → is_present (mem other j) ≡ true
      → frame_of (mem dir i) ≡ frame_of (mem other j)
      → frame_of (mem dir i) ≡ frame_of (mem (frame_of page_directory) i)

-- The table that is written is none that the other directory has.
not_shared :
    (page_directory dir other pdi : ℕ) (s s' : Vmm)
    → IsSpace s other
    → Shares page_directory s.mem dir other
    → dir ≢ frame_of page_directory
    → (o : Owns page_directory dir pdi s s')
    → (other ≢ o.table)
      × ((j : ℕ) → is_present (s.mem other j) ≡ true → frame_of (s.mem other j) ≢ o.table)
not_shared page_directory dir other pdi s s' space sh task o = elim o.own [
  | inl free ↦ (
    λ e. ground (arith, space.used, free, ap (frame_test s.pmm.bitmap) e),
    λ j there e.
        (let (_, used) = space.tables j there in
          ground (arith, used, free, ap (frame_test s.pmm.bitmap) e)),
  )
  | inr (present, same, own) ↦ (
    λ e. sh.not_table pdi present (sym (e ∙ same)),
    λ j there e. elim own [
      | inl kernel ↦ task kernel
      | inr ne ↦ ne (same ∙ sh.kernel pdi j present there (sym (e ∙ same)))
    ],
  )
]

-- A mapping made in a task's directory does not change what another directory translates, where the two
-- share only tables of the kernel.
pub vmm_map_page_in-other :
    (page_directory dir_phys other virt phys flags : ℕ) (s s' : Vmm)
    → HasMemory s.pmm
    → IsSpace s (frame_of dir_phys)
    → IsSpace s other
    → Shares page_directory s.mem (frame_of dir_phys) other
    → frame_of dir_phys ≢ frame_of page_directory
    → vmm_map_page_in page_directory dir_phys virt phys flags s ≡ some s'
    → (v : ℕ) → walk s'.mem other v ≡ walk s.mem other v
vmm_map_page_in-other page_directory dir_phys other virt phys flags s s' m space space2 sh task
      returns v =
    let dir = frame_of dir_phys in
    let word = page_word phys flags in
    elim (map_cases page_directory dir_phys virt phys flags s m space) [
      | inl (panics, _) ↦ absurd (none-ne-some s' (sym panics ∙ returns))
      | inr (s1, made, o, _) ↦
          let (apart, tables) =
            not_shared page_directory dir other (pd_index virt) s s1 space2 sh task o in
          let kept : (f : ℕ) → f ≢ dir → f ≢ o.table → mapped dir virt word s1 f ≡ s.mem f =
            λ f not_dir ne.
              off_table page_directory dir virt word s s1 space o f ne ∙ o.elsewhere f not_dir ne in
          let same : some (record s1 { mem = mapped dir virt word s1 }) ≡ some s' =
            sym made ∙ returns in
          subst (λ t. walk t.mem other v ≡ walk s.mem other v) (some-injective _ _ same)
            (walk_same s.mem (mapped dir virt word s1) other other v
              (ap (λ h. h (pd_index v)) (kept other sh.apart apart))
              (λ there.
                ap (λ h. h (pt_index v))
                  (kept _ (sh.not_dir (pd_index v) there) (tables (pd_index v) there))))
    ]
