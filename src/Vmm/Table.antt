-- ===== src/Vmm/Table.antt =====
-- The page table that an entry goes to, `own_table` of src/kernel/vmm.c's vmm_map_page_in.
use luminary.Base.{
  ℕ, ◌+◌, ◌*◌, ◌/◌, ◌%◌, ◌≤◌, ◌<◌, ◌≡◌, ◌≢◌, refl, ap, fun_ext, sym, subst, ◌∙◌, inl, inr, ◌⊎◌,
  true, false, not, ◌&&◌, Option, none, some, ◌==◌, if◌then◌else◌, update, update_ne, update_self,
  arith, Bool-cases,
}
use native.Mathlib.Decide.{ℕ_discrete}
use luminary.Pmm.{
  Pmm, Zone, page_size, max_frames, zone_low_start, low_end, frame_test, pmm_alloc_frame_zone,
}
use luminary.Pmm.Fit.{AllUsed, IsLastFree}
use luminary.Pmm.Alloc.{Allocates, pmm_alloc_low_lem}
use luminary.Vmm.{
  Memory, Vmm, frame_of, is_present, is_user, user_bit, set_word, zero_frame, copy_frame, new_table,
  own_table,
}

-- A machine with memory, not more than the arrays have frames for.
pub record HasMemory (p : Pmm) : Type 0 where
  pub some_frames : 0 < p.nframes
  pub limit : p.nframes ≤ max_frames

-- A frame taken from ZONE_LOW: it was free, and it is the only one that is used now and was not.
pub record Takes (p p' : Pmm) (frame : ℕ) : Type 0 where
  pub low : zone_low_start ≤ frame
  pub high : frame < low_end p
  pub free : frame_test p.bitmap frame ≡ false
  pub marked :
      (j : ℕ) → frame_test p'.bitmap j ≡ (if frame == j then true else frame_test p.bitmap j)
  pub counts : (j : ℕ) → frame_test p.bitmap j ≡ true → p'.refcounts j ≡ p.refcounts j
  pub same_size : p'.nframes ≡ p.nframes

-- A panic needs a full ZONE_LOW.
abbrev pub IsFull : Pmm → Type 0
IsFull p = AllUsed p.bitmap zone_low_start (low_end p)

pub alloc-Takes :
    (p : Pmm)
    → HasMemory p
    → ((pmm_alloc_frame_zone Zone.zone_low p ≡ none) × IsFull p)
      ⊎ ((frame : ℕ) × (p' : Pmm) × (pmm_alloc_frame_zone Zone.zone_low p
            ≡ some (frame * page_size, p'))
          × Takes p p' frame)
alloc-Takes p m =
    let (found, last, made) = pmm_alloc_low_lem p m.some_frames m.limit in from found last made
  where
    from :
        (found : Option ℕ)
        → IsLastFree p.bitmap zone_low_start (low_end p) found
        → Allocates p found (pmm_alloc_frame_zone Zone.zone_low p)
        → ((pmm_alloc_frame_zone Zone.zone_low p ≡ none) × IsFull p)
          ⊎ ((frame : ℕ) × (p' : Pmm) × (pmm_alloc_frame_zone Zone.zone_low p
                ≡ some (frame * page_size, p'))
              × Takes p p' frame)
    from none full made = inl (made, full)
    from (some i) (low, high, free, rest) (p', result, marked, owned, same_size) = inr (
      i,
      p',
      result,
      record {
        low = low;
        high = high;
        free = free;
        marked = marked;
        counts = λ j used. ground (arith, owned j, used, free);
        same_size = same_size;
      },
    )

-- What `own_table` leaves: the entry of the directory leads to a table that no other entry of the directory
-- leads to unless it did before, with the same words as the table that was there, or
-- with 0 where there was none.
pub record Owns (page_directory : ℕ) (dir pdi : ℕ) (s s' : Vmm) : Type 0 where
  pub table : ℕ
  pub entry : frame_of (s'.mem dir pdi) ≡ table
  pub present : is_present (s'.mem dir pdi) ≡ true
  pub not_dir : table ≢ dir
  pub entries : (i : ℕ) → i ≢ pdi → s'.mem dir i ≡ s.mem dir i
  pub words :
      (i : ℕ)
      → s'.mem table i
        ≡ (if is_present (s.mem dir pdi) then s.mem (frame_of (s.mem dir pdi)) i else 0)
  pub elsewhere : (f : ℕ) → f ≢ dir → f ≢ table → s'.mem f ≡ s.mem f
  pub own :
      (frame_test s.pmm.bitmap table ≡ false)
      ⊎ ((is_present (s.mem dir pdi) ≡ true)
          × (table ≡ frame_of (s.mem dir pdi))
          × ((dir ≡ frame_of page_directory)
              ⊎ (table ≢ frame_of (s.mem (frame_of page_directory) pdi))))
  pub used : (f : ℕ) → frame_test s.pmm.bitmap f ≡ true → frame_test s'.pmm.bitmap f ≡ true
  pub table_used : frame_test s'.pmm.bitmap table ≡ true
  pub counts : (f : ℕ) → frame_test s.pmm.bitmap f ≡ true → s'.pmm.refcounts f ≡ s.pmm.refcounts f
  pub same_size : s'.pmm.nframes ≡ s.pmm.nframes

entry_lem :
    (frame flags : ℕ)
    → (frame_of (frame * page_size + 3 + user_bit flags) ≡ frame)
      × (is_present (frame * page_size + 3 + user_bit flags) ≡ true)
entry_lem frame flags = (ground arith, ground arith)

-- A fresh table with the words `g`.
fresh-Owns :
    (page_directory dir pdi flags : ℕ) (s : Vmm) (frame : ℕ) (p' : Pmm) (g : ℕ → ℕ)
    → frame_test s.pmm.bitmap dir ≡ true
    → Takes s.pmm p' frame
    → ((i : ℕ)
        → g i ≡ (if is_present (s.mem dir pdi) then s.mem (frame_of (s.mem dir pdi)) i else 0))
    → Owns page_directory dir pdi s (record {
      pmm = p';
      mem = set_word (update s.mem frame g) dir pdi (frame * page_size + 3 + user_bit flags);
    })
fresh-Owns page_directory dir pdi flags s frame p' g used t same =
    let ne : frame ≢ dir = λ e. ground (arith, t.free, used, ap (frame_test s.pmm.bitmap) e) in
    let (at, there) = entry_lem frame flags in
    let e = frame * page_size + 3 + user_bit flags in
    let mem = update s.mem frame g in
    let in_dir : (i : ℕ) → set_word mem dir pdi e dir i ≡ update (s.mem dir) pdi e i = λ i.
      ap (λ h. h i) (update_self mem dir _) ∙ ap (λ h. update h pdi e i) (update_ne s.mem g ne) in
    let word : set_word mem dir pdi e dir pdi ≡ e = in_dir pdi ∙ update_self (s.mem dir) pdi e in
    record {
      table = frame;
      entry = ap frame_of word ∙ at;
      present = ap is_present word ∙ there;
      not_dir = ne;
      entries = λ i other. in_dir i ∙ update_ne (s.mem dir) e (λ q. other (sym q));
      words = λ i.
          ap (λ h. h i) (update_ne mem _ (λ q. ne (sym q)) ∙ update_self s.mem frame g) ∙ same i;
      elsewhere = λ f not_dir other.
          update_ne mem _ (λ q. not_dir (sym q)) ∙ update_ne s.mem g (λ q. other (sym q));
      own = inl t.free;
      used = λ f was. (let m = t.marked f in ground (arith, m, was));
      table_used = (let m = t.marked frame in ground (arith, m));
      counts = t.counts;
      same_size = t.same_size;
    }

-- The table that was there, with an entry that leads to it as before.
kept-Owns :
    (page_directory dir pdi e : ℕ) (s : Vmm)
    → is_present (s.mem dir pdi) ≡ true
    → frame_of (s.mem dir pdi) ≢ dir
    → (dir ≡ frame_of page_directory)
      ⊎ (frame_of (s.mem dir pdi) ≢ frame_of (s.mem (frame_of page_directory) pdi))
    → frame_of e ≡ frame_of (s.mem dir pdi)
    → is_present e ≡ true
    → frame_test s.pmm.bitmap (frame_of (s.mem dir pdi)) ≡ true
    → Owns page_directory dir pdi s (record s { mem = set_word s.mem dir pdi e })
kept-Owns page_directory dir pdi e s there ne own same present used =
    let in_dir : (i : ℕ) → set_word s.mem dir pdi e dir i ≡ update (s.mem dir) pdi e i =
      λ i. ap (λ h. h i) (update_self s.mem dir _) in
    let word : set_word s.mem dir pdi e dir pdi ≡ e = in_dir pdi ∙ update_self (s.mem dir) pdi e in
    let table = frame_of (s.mem dir pdi) in
    record {
      table = table;
      entry = ap frame_of word ∙ same;
      present = ap is_present word ∙ present;
      not_dir = ne;
      entries = λ i other. in_dir i ∙ update_ne (s.mem dir) e (λ q. other (sym q));
      words = λ i.
          ap (λ h. h i) (update_ne s.mem _ (λ q. ne (sym q)))
          ∙ ap (λ b. if b then s.mem table i else 0) (sym there);
      elsewhere = λ f not_dir other. update_ne s.mem _ (λ q. not_dir (sym q));
      own = inr (there, refl, own);
      used = λ f was. was;
      table_used = used;
      counts = λ f was. refl;
      same_size = refl;
    }

-- Writing the word that is there changes nothing.
pub set_word_same : (mem : Memory) (dir pdi : ℕ) → set_word mem dir pdi (mem dir pdi) ≡ mem
set_word_same mem dir pdi = fun_ext λ f. fun_ext λ i. inner f i
  where
    inner : (f i : ℕ) → set_word mem dir pdi (mem dir pdi) f i ≡ mem f i
    inner f i = elim (ℕ_discrete dir f) [
      | no apart ↦ ap (λ h. h i) (update_ne mem _ apart)
      | yes here ↦
          subst (λ d. set_word mem dir pdi (mem dir pdi) d i ≡ mem d i) here
            (ap (λ h. h i) (update_self mem dir _) ∙ elim (ℕ_discrete pdi i) [
              | no other ↦ update_ne (mem dir) (mem dir pdi) other
              | yes at ↦
                  subst (λ j. update (mem dir) pdi (mem dir pdi) j ≡ mem dir j) at
                    (update_self (mem dir) pdi _)
            ])
    ]

new_table-Owns :
    (page_directory dir pdi flags : ℕ) (s : Vmm) (fill : Memory → ℕ → Memory) (g : ℕ → ℕ)
    → HasMemory s.pmm
    → frame_test s.pmm.bitmap dir ≡ true
    → ((f : ℕ) → fill s.mem f ≡ update s.mem f g)
    → ((i : ℕ)
        → g i ≡ (if is_present (s.mem dir pdi) then s.mem (frame_of (s.mem dir pdi)) i else 0))
    → ((new_table fill dir pdi flags s ≡ none) × IsFull s.pmm)
      ⊎ ((s' : Vmm) × (new_table fill dir pdi flags s ≡ some s') × Owns page_directory dir pdi s s')
unfolding new_table
new_table-Owns page_directory dir pdi flags s fill g m used filled same =
    elim (alloc-Takes s.pmm m) [
      | inl (panics, full) ↦ inl (rw (new_table, panics) refl, full)
      | inr (frame, p', got, t) ↦
          let at : frame_of (frame * page_size) ≡ frame = ground arith in
          inr (
            _,
            rw (new_table, got) refl,
            subst
                (λ mem. Owns page_directory dir pdi s (record {
                  pmm = p';
                  mem = set_word mem dir pdi (frame * page_size + 3 + user_bit flags);
                }))
                (sym (ap (fill s.mem) at ∙ filled frame))
                (fresh-Owns page_directory dir pdi flags s frame p' g used t same),
          )
    ]

user_entry :
    (e : ℕ)
    → is_user e ≡ false
    → (frame_of (e + 4) ≡ frame_of e) × (is_present (e + 4) ≡ is_present e)
user_entry e off =
    let zero_bit : e / 4 % 2 ≡ 0 = ground (arith, off) in
    let parity : (e + 4) % 2 ≡ e % 2 = omega arith in
    (omega (arith, zero_bit), ap (λ r. r == 1) parity)

pub own_table-Owns :
    (page_directory dir pdi flags : ℕ) (s : Vmm)
    → HasMemory s.pmm
    → frame_test s.pmm.bitmap dir ≡ true
    → (is_present (s.mem dir pdi) ≡ true
        → (frame_of (s.mem dir pdi) ≢ dir)
          × (frame_test s.pmm.bitmap (frame_of (s.mem dir pdi)) ≡ true))
    → ((own_table page_directory dir pdi flags s ≡ none) × IsFull s.pmm)
      ⊎ ((s' : Vmm) × (own_table page_directory dir pdi flags s ≡ some s')
          × Owns page_directory dir pdi s s')
unfolding own_table
own_table-Owns page_directory dir pdi flags s m used there =
    elim (Bool-cases (is_present (s.mem dir pdi))) [
      | inr absent ↦
          let h : (i : ℕ)
              → 0 ≡ (if is_present (s.mem dir pdi) then s.mem (frame_of (s.mem dir pdi)) i else 0) =
            λ i. ap (λ b. if b then s.mem (frame_of (s.mem dir pdi)) i else 0) (sym absent) in
          rw (own_table, absent)
            (new_table-Owns page_directory dir pdi flags s zero_frame (λ i. 0) m used (λ f. refl) h)
      | inl present ↦
          let (ne, kept) = there present in
          let h : (i : ℕ)
              → s.mem (frame_of (s.mem dir pdi)) i
                ≡ (if is_present (s.mem dir pdi) then s.mem (frame_of (s.mem dir pdi)) i else 0) =
            λ i. ap (λ b. if b then s.mem (frame_of (s.mem dir pdi)) i else 0) (sym present) in
          elim (Bool-cases (
            not (dir == frame_of page_directory)
            && frame_of (s.mem dir pdi) == frame_of (s.mem (frame_of page_directory) pdi))) [
              | inl shared ↦
                  rw (own_table, present, shared)
                    (new_table-Owns page_directory dir pdi flags s
                      (λ mem to. copy_frame mem to (frame_of (s.mem dir pdi)))
                      (s.mem (frame_of (s.mem dir pdi))) m used (λ f. refl) h)
              | inr private ↦
                  let own : (dir ≡ frame_of page_directory)
                      ⊎ (frame_of (s.mem dir pdi)
                          ≢ frame_of (s.mem (frame_of page_directory) pdi)) =
                    elim (ℕ_discrete dir (frame_of page_directory)) [
                      | yes kernel ↦ inl kernel
                      | no task ↦ inr (λ q. ground (arith, private, task, q))
                    ] in
                  elim (Bool-cases (is_user flags && not (is_user (s.mem dir pdi)))) [
                    | inl lacks ↦
                        let (same, present') = user_entry (s.mem dir pdi) (ground (arith, lacks)) in
                        rw (own_table, present, private, lacks)
                          (inr (
                            _,
                            refl,
                            kept-Owns page_directory dir pdi (s.mem dir pdi + 4) s present ne own
                                same (present' ∙ present) kept,
                          ))
                    | inr fine ↦
                        rw (own_table, present, private, fine)
                          (inr (
                            s,
                            refl,
                            subst (λ mem. Owns page_directory dir pdi s (record s { mem = mem }))
                                (set_word_same s.mem dir pdi)
                                (kept-Owns page_directory dir pdi (s.mem dir pdi) s present ne own
                                  refl present kept),
                          ))
                  ]
            ]
    ]
