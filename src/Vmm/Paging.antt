-- ===== src/Vmm/Paging.antt =====
-- What a mapping does to the translations of its own directory and of the others.
use luminary.Base.{
  ℕ, ◌+◌, ◌*◌, ◌/◌, ◌%◌, ◌≡◌, ◌≢◌, refl, ap, sym, ◌∙◌, inl, inr, true, false, not, Option, none,
  some, if◌then◌else◌, update, update_ne, update_self, arith, Bool-cases,
}
use native.Mathlib.Decide.{ℕ_discrete}
use luminary.Pmm.{page_size, frame_test}
use luminary.Vmm.{Memory, Vmm, frame_of, is_present, pd_index, pt_index, set_word, walk}
use luminary.Vmm.Table.{Owns}

-- A directory whose frame and tables are in use, with a table for each entry and none in common.
pub record IsSpace (s : Vmm) (dir : ℕ) : Type 0 where
  pub used : frame_test s.pmm.bitmap dir ≡ true
  pub tables :
      (i : ℕ)
      → is_present (s.mem dir i) ≡ true
      → (frame_of (s.mem dir i) ≢ dir) × (frame_test s.pmm.bitmap (frame_of (s.mem dir i)) ≡ true)
  pub apart :
      (i j : ℕ)
      → is_present (s.mem dir i) ≡ true
      → is_present (s.mem dir j) ≡ true
      → frame_of (s.mem dir i) ≡ frame_of (s.mem dir j)
      → i ≡ j

module _ (page_directory dir pdi : ℕ) (s s' : Vmm) (space : IsSpace s dir)
    (o : Owns page_directory dir pdi s s') where
  -- The table of another entry is another one, and is as it was.
  other_table :
      (i : ℕ)
      → i ≢ pdi
      → is_present (s.mem dir i) ≡ true
      → (frame_of (s.mem dir i) ≢ o.table)
        × (s'.mem (frame_of (s.mem dir i)) ≡ s.mem (frame_of (s.mem dir i)))
  other_table i other there =
      let (not_dir, used) = space.tables i there in
      let ne : frame_of (s.mem dir i) ≢ o.table = λ e. elim o.own [
        | inl free ↦ ground (arith, used, free, ap (frame_test s.pmm.bitmap) e)
        | inr (present, same, _) ↦ other (space.apart i pdi there present (e ∙ same))
      ] in
      (ne, o.elsewhere (frame_of (s.mem dir i)) not_dir ne)

  -- No other entry leads to the table that `own_table` leaves.
  at_table :
      (i j : ℕ)
      → i ≡ pdi
      → j ≢ pdi
      → is_present (s'.mem dir j) ≡ true
      → frame_of (s'.mem dir i) ≡ frame_of (s'.mem dir j)
      → i ≡ j
  at_table i j at_i not_j there same =
      let e = o.entries j not_j in
      let (ne, _) = other_table j not_j (ap is_present (sym e) ∙ there) in
      absurd
        (ne (ap frame_of (sym e) ∙ sym same ∙ ap (λ q. frame_of (s'.mem dir q)) at_i ∙ o.entry))

  pub own_table-IsSpace : IsSpace s' dir
  own_table-IsSpace = record {
    used = o.used dir space.used;
    tables = λ i there. elim (ℕ_discrete i pdi) [
      | yes here ↦ rw (here, o.entry) (o.not_dir, o.table_used)
      | no other ↦
          let e = o.entries i other in
          let (not_dir, used) = space.tables i (ap is_present (sym e) ∙ there) in
          rw e (not_dir, o.used (frame_of (s.mem dir i)) used)
    ];
    apart = λ i j there there' same. elim (ℕ_discrete i pdi) [
      | yes at_i ↦ elim (ℕ_discrete j pdi) [
        | yes at_j ↦ at_i ∙ sym at_j
        | no not_j ↦ at_table i j at_i not_j there' same
      ]
      | no not_i ↦ elim (ℕ_discrete j pdi) [
        | yes at_j ↦ sym (at_table j i at_j not_i there (sym same))
        | no not_j ↦
            let e = o.entries i not_i in
            let e' = o.entries j not_j in
            space.apart i j (ap is_present (sym e) ∙ there) (ap is_present (sym e') ∙ there')
              (ap frame_of (sym e) ∙ same ∙ ap frame_of e')
      ]
    ];
  }

-- A translation reads one entry of the directory and, if it is present, one of a table.
pub walk_same :
    (mem mem' : Memory) (dir dir' v : ℕ)
    → mem' dir' (pd_index v) ≡ mem dir (pd_index v)
    → (is_present (mem dir (pd_index v)) ≡ true
        → mem' (frame_of (mem dir (pd_index v))) (pt_index v)
          ≡ mem (frame_of (mem dir (pd_index v))) (pt_index v))
    → walk mem' dir' v ≡ walk mem dir v
unfolding walk
walk_same mem mem' dir dir' v e h = elim (Bool-cases (is_present (mem dir (pd_index v)))) [
  | inr absent ↦ rw (e, absent) refl
  | inl present ↦ rw (e, present, h present) refl
]

-- What is shown of a page's entry.
abbrev shown : ℕ → Option ℕ
shown page = if not (is_present page) then none else some page

pub shown_present : (page : ℕ) → is_present page ≡ true → shown page ≡ some page
shown_present page present = rw present refl

pub walk_page :
    (mem : Memory) (dir v entry page : ℕ)
    → mem dir (pd_index v) ≡ entry
    → is_present entry ≡ true
    → mem (frame_of entry) (pt_index v) ≡ page
    → walk mem dir v ≡ shown page
unfolding walk
walk_page mem dir v entry page e present h = rw (e, present, h) refl

pub walk_absent :
    (mem : Memory) (dir v : ℕ) → is_present (mem dir (pd_index v)) ≡ false → walk mem dir v ≡ none
unfolding walk
walk_absent mem dir v absent = rw absent refl

-- The word of a mapping.
abbrev pub page_word : (phys flags : ℕ) → ℕ
page_word phys flags = phys / page_size * page_size + flags % page_size

-- The memory after `own_table` and the store of the word.
abbrev pub mapped : (dir virt word : ℕ) → Vmm → Memory
mapped dir virt word s' =
    set_word s'.mem (frame_of (s'.mem dir (pd_index virt))) (pt_index virt) word

module _ (page_directory dir virt word : ℕ) (s s' : Vmm) (space : IsSpace s dir)
    (o : Owns page_directory dir (pd_index virt) s s') where
  table_word :
      (i : ℕ) → mapped dir virt word s' o.table i ≡ update (s'.mem o.table) (pt_index virt) word i
  table_word i = rw o.entry (ap (λ h. h i) (update_self s'.mem o.table _))

  pub off_table : (f : ℕ) → f ≢ o.table → mapped dir virt word s' f ≡ s'.mem f
  off_table f ne = rw o.entry (update_ne s'.mem _ (λ q. ne (sym q)))

  pub in_dir : (i : ℕ) → mapped dir virt word s' dir i ≡ s'.mem dir i
  in_dir i = ap (λ h. h i) (off_table dir (λ q. o.not_dir (sym q)))

  pub walk_mapped : is_present word ≡ true → walk (mapped dir virt word s') dir virt ≡ some word
  walk_mapped present =
      walk_page (mapped dir virt word s') dir virt _ word (in_dir (pd_index virt)) o.present (
        ap (λ f. mapped dir virt word s' f (pt_index virt)) o.entry
        ∙ table_word (pt_index virt)
        ∙ update_self (s'.mem o.table) (pt_index virt) word)
      ∙ shown_present word present

  -- A word of the table that the store does not change.
  table_other :
      (v : ℕ)
      → pd_index v ≡ pd_index virt
      → pt_index v ≢ pt_index virt
      → mapped dir virt word s' (frame_of (s'.mem dir (pd_index v))) (pt_index v) ≡ (
          if is_present (s.mem dir (pd_index virt))
          then s.mem (frame_of (s.mem dir (pd_index virt))) (pt_index v)
          else 0)
  table_other v here other =
      ap (λ q. mapped dir virt word s' (frame_of (s'.mem dir q)) (pt_index v)) here
      ∙ ap (λ f. mapped dir virt word s' f (pt_index v)) o.entry
      ∙ table_word (pt_index v)
      ∙ update_ne (s'.mem o.table) word (λ q. other (sym q))
      ∙ o.words (pt_index v)

  walk_same_table :
      (v : ℕ)
      → pd_index v ≡ pd_index virt
      → pt_index v ≢ pt_index virt
      → walk (mapped dir virt word s') dir v ≡ walk s.mem dir v
  walk_same_table v here other =
      walk_page (mapped dir virt word s') dir v _ _ (in_dir (pd_index v))
        (ap (λ q. is_present (s'.mem dir q)) here ∙ o.present) (table_other v here other)
      ∙ elim (Bool-cases (is_present (s.mem dir (pd_index virt)))) [
        | inl present ↦ rw present (
            sym (
              walk_page s.mem dir v (s.mem dir (pd_index virt)) _ (ap (s.mem dir) here) present
                refl))
        | inr absent ↦
            rw absent
              (sym (walk_absent s.mem dir v (ap (λ q. is_present (s.mem dir q)) here ∙ absent)))
      ]

  walk_other_table :
      (v : ℕ) → pd_index v ≢ pd_index virt → walk (mapped dir virt word s') dir v ≡ walk s.mem dir v
  walk_other_table v other =
      walk_same s.mem (mapped dir virt word s') dir dir v
        (in_dir (pd_index v) ∙ o.entries (pd_index v) other)
        λ present.
          let (ne, e) =
            other_table page_directory dir (pd_index virt) s s' space o (pd_index v) other
              present in
          ap (λ h. h (pt_index v)) (off_table (frame_of (s.mem dir (pd_index v))) ne ∙ e)

  pub walk_elsewhere :
      (v : ℕ)
      → v / page_size ≢ virt / page_size
      → walk (mapped dir virt word s') dir v ≡ walk s.mem dir v
  walk_elsewhere v other = elim (ℕ_discrete (pd_index v) (pd_index virt)) [
    | no apart ↦ walk_other_table v apart
    | yes here ↦ walk_same_table v here λ same. other (omega (arith, here, same))
  ]
