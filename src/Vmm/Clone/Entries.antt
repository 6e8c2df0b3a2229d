-- ===== src/Vmm/Clone/Entries.antt =====
-- One round of the loop of src/kernel/vmm.c's vmm_clone_page_dir over the directory.
use luminary.Base.{
  ℕ, ◌+◌, ◌*◌, ◌/◌, ◌≤◌, ◌<◌, ◌≡◌, ◌≢◌, ◌⊎◌, inl, inr, refl, sym, ap, ap₂, ◌∙◌, true, false, not,
  ◌&&◌, Option, none, some, ltb, leb, ◌==◌, if◌then◌else◌, update, update_ne, update_self, arith,
  Bool-cases,
}
use luminary.Pmm.{Pmm, page_size, frame_test}
use luminary.Vmm.{
  Memory, Vmm, frame_of, flags_of, is_present, is_write, is_user, is_cow, pd_index, pt_index,
  set_word, zero_frame, walk,
}
use luminary.Vmm.Table.{Takes}
use luminary.Vmm.Paging.{IsSpace, walk_page}
use luminary.Vmm.Cow.Flags.{word_bits, page_bits, protected_lem}
use luminary.Vmm.Cow.Copy.{set_word_ne, set_word_at}
use luminary.Vmm.Clone.{shared_word}
use luminary.Vmm.Clone.Tables.{ClonesTable, protect, inherit, read_only_same}

-- What a translation becomes when the page is shared.
abbrev pub shares : Option ℕ → Option ℕ
shares none = none
shares (some page) = some (shared_word page)

-- A shared page has the frame that it had, and cannot be written; one that could be is marked.
pub shared_word_lem :
    (page : ℕ)
    → (frame_of (shared_word page) ≡ frame_of page)
      × (is_present (shared_word page) ≡ is_present page)
      × (is_write (shared_word page) ≡ false)
      × (is_cow (shared_word page) ≡ (if is_write page then true else is_cow page))
shared_word_lem page = elim (Bool-cases (is_write page)) [
  | inl write ↦ rw write (protected_lem (page / page_size) page)
  | inr read_only ↦
      let same = read_only_same page read_only in
      (
        ap frame_of same,
        ap is_present same,
        ap is_write same ∙ read_only,
        ap is_cow same ∙ ap (λ b. if b then true else is_cow page) (sym read_only),
      )
]

shared_word-present : (page : ℕ) → is_present (shared_word page) ≡ is_present page
shared_word-present page = (let (_, same, _, _) = shared_word_lem page in same)

shown_inherit :
    (page : ℕ)
    → (if not (is_present (inherit 0 page)) then none else some (inherit 0 page))
      ≡ shares (if not (is_present page) then none else some page)
shown_inherit page = elim (Bool-cases (is_present page)) [
  | inl present ↦ rw (present, shared_word-present page, present) refl
  | inr absent ↦ rw absent refl
]

shown_protect :
    (page : ℕ)
    → (if not (is_present (protect page)) then none else some (protect page))
      ≡ shares (if not (is_present page) then none else some page)
shown_protect page = elim (Bool-cases (is_present page)) [
  | inl present ↦ rw (present, shared_word-present page, present) refl
  | inr absent ↦ rw (absent, absent) refl
]

-- What the rounds over the entries from `lo` up to `hi` leave.
pub record Clones (src new lo hi : ℕ) (s s' : Vmm) : Type 0 where
  pub source : s'.mem src ≡ s.mem src
  pub entries : (i : ℕ) → (i < lo) ⊎ (hi ≤ i) → s'.mem new i ≡ s.mem new i
  pub kept :
      (f : ℕ)
      → frame_test s.pmm.bitmap f ≡ true
      → f ≢ new
      → ((i : ℕ) → lo ≤ i → i < hi → is_present (s.mem src i) ≡ true → f ≢ frame_of (s.mem src i))
      → s'.mem f ≡ s.mem f
  pub used : (f : ℕ) → frame_test s.pmm.bitmap f ≡ true → frame_test s'.pmm.bitmap f ≡ true
  pub fresh :
      (i : ℕ)
      → lo ≤ i
      → i < hi
      → is_present (s.mem src i) ≡ true
      → is_user (s.mem src i) ≡ true
      → (frame_test s.pmm.bitmap (frame_of (s'.mem new i)) ≡ false)
        × (frame_test s'.pmm.bitmap (frame_of (s'.mem new i)) ≡ true)
  pub child :
      (v : ℕ)
      → lo ≤ pd_index v
      → pd_index v < hi
      → is_present (s.mem src (pd_index v)) ≡ true
      → is_user (s.mem src (pd_index v)) ≡ true
      → walk s'.mem new v ≡ shares (walk s.mem src v)
  pub parent :
      (v : ℕ)
      → lo ≤ pd_index v
      → pd_index v < hi
      → is_present (s.mem src (pd_index v)) ≡ true
      → is_user (s.mem src (pd_index v)) ≡ true
      → walk s'.mem src v ≡ shares (walk s.mem src v)
  pub same_size : s'.pmm.nframes ≡ s.pmm.nframes

-- Rounds that change nothing.
pub skip-Clones :
    (src new lo hi : ℕ) (s : Vmm)
    → ((i : ℕ)
        → lo ≤ i
        → i < hi
        → is_present (s.mem src i) ≡ true
        → is_user (s.mem src i) ≡ true
        → 1 ≤ 0)
    → Clones src new lo hi s s
skip-Clones src new lo hi s none_there = record {
  source = refl;
  entries = λ i out. refl;
  kept = λ f used ne other. refl;
  used = λ f was. was;
  fresh = λ i from to there user. absurd (omega (arith, none_there i from to there user));
  child =
      λ v from to there user. absurd (omega (arith, none_there (pd_index v) from to there user));
  parent =
      λ v from to there user. absurd (omega (arith, none_there (pd_index v) from to there user));
  same_size = refl;
}

-- The round that clones a table, into the frame `t`.
module _ (src new pdi t : ℕ) (s s₁ : Vmm) (p' : Pmm) (space : IsSpace s src)
    (new_used : frame_test s.pmm.bitmap new ≡ true) (new_src : new ≢ src)
    (new_table : (i : ℕ) → is_present (s.mem src i) ≡ true → new ≢ frame_of (s.mem src i))
    (there : is_present (s.mem src pdi) ≡ true) (takes : Takes s.pmm p' t)
    (c : ClonesTable
      (frame_of (s.mem src pdi))
      t
      0
      1024
      (record { pmm = p'; mem = zero_frame s.mem t })
      s₁) where
  abbrev table : ℕ
  table = frame_of (s.mem src pdi)

  not_fresh : (f : ℕ) → frame_test s.pmm.bitmap f ≡ true → f ≢ t
  not_fresh f used e =
      (let free = takes.free in ground (arith, used, free, ap (frame_test s.pmm.bitmap) e))

  -- A frame in use that is not the table is as before the last store.
  before_store : (f : ℕ) → frame_test s.pmm.bitmap f ≡ true → f ≢ table → s₁.mem f ≡ s.mem f
  before_store f used ne =
      let apart = not_fresh f used in
      c.elsewhere f ne apart ∙ update_ne s.mem _ (λ e. apart (sym e))

  table_used : frame_test s.pmm.bitmap table ≡ true
  table_used = (let (_, used) = space.tables pdi there in used)

  src_table : src ≢ table
  src_table e = (let (ne, _) = space.tables pdi there in ne (sym e))

  source_kept : s₁.mem src ≡ s.mem src
  source_kept = before_store src space.used src_table

  abbrev word : ℕ
  word = t * page_size + flags_of (s₁.mem src pdi)

  abbrev after : Memory
  after = set_word s₁.mem new pdi word

  after_other : (f : ℕ) → f ≢ new → after f ≡ s₁.mem f
  after_other f ne = set_word_ne s₁.mem new pdi word f (λ e. ne (sym e))

  after_new : (i : ℕ) → after new i ≡ update (s.mem new) pdi word i
  after_new i =
      set_word_at s₁.mem new pdi word i
      ∙ ap (λ h. update h pdi word i) (before_store new new_used (new_table pdi there))

  word_lem : (frame_of word ≡ t) × (is_present word ≡ true)
  word_lem =
      let (frame, odd, _, _, _) = word_bits t (flags_of (s₁.mem src pdi)) (omega arith) in
      let (odd', _, _, _) = page_bits (s₁.mem src pdi) in
      (frame, ap (λ b. b == 1) (odd ∙ odd') ∙ ap (λ h. is_present (h pdi)) source_kept ∙ there)

  table_word : (i : ℕ) → i < 1024 → s₁.mem table i ≡ protect (s.mem table i)
  table_word i small =
      let off : (leb 0 i && ltb i 1024) ≡ true = ground (arith, small) in
      let was : zero_frame s.mem t table i ≡ s.mem table i =
        ap (λ h. h i) (update_ne s.mem _ (λ e. not_fresh table table_used (sym e))) in
      c.source i
      ∙ ap (λ b. if b then protect (zero_frame s.mem t table i) else zero_frame s.mem t table i) off
      ∙ ap protect was

  fresh_word : (i : ℕ) → i < 1024 → s₁.mem t i ≡ inherit 0 (s.mem table i)
  fresh_word i small =
      let off : (leb 0 i && ltb i 1024) ≡ true = ground (arith, small) in
      let was : zero_frame s.mem t table i ≡ s.mem table i =
        ap (λ h. h i) (update_ne s.mem _ (λ e. not_fresh table table_used (sym e))) in
      let zeroed : zero_frame s.mem t t i ≡ 0 = ap (λ h. h i) (update_self s.mem t _) in
      c.copy i
      ∙ ap
          (λ b.
            if b
            then inherit (zero_frame s.mem t t i) (zero_frame s.mem t table i)
            else zero_frame s.mem t t i)
          off
      ∙ ap₂ inherit zeroed was

  walk_table :
      (v : ℕ)
      → pd_index v ≡ pdi
      → walk s.mem src v ≡ (
          if not (is_present (s.mem table (pt_index v)))
          then none
          else some (s.mem table (pt_index v)))
  walk_table v here =
      walk_page s.mem src v (s.mem src pdi) (s.mem table (pt_index v)) (ap (s.mem src) here) there
        refl

  walk_child : (v : ℕ) → pd_index v ≡ pdi → walk after new v ≡ shares (walk s.mem src v)
  walk_child v here =
      let (frame, present) = word_lem in
      let at : after new (pd_index v) ≡ word =
        ap (after new) here ∙ after_new pdi ∙ update_self (s.mem new) pdi word in
      let page : after (frame_of word) (pt_index v) ≡ inherit 0 (s.mem table (pt_index v)) =
        ap (λ f. after f (pt_index v)) frame
        ∙ ap (λ h. h (pt_index v)) (after_other t (λ e. not_fresh new new_used (sym e)))
        ∙ fresh_word (pt_index v) (omega arith) in
      walk_page after new v word _ at present page
      ∙ shown_inherit (s.mem table (pt_index v))
      ∙ ap shares (sym (walk_table v here))

  walk_parent : (v : ℕ) → pd_index v ≡ pdi → walk after src v ≡ shares (walk s.mem src v)
  walk_parent v here =
      let at : after src (pd_index v) ≡ s.mem src pdi =
        ap (after src) here
        ∙ ap (λ h. h pdi) (after_other src (λ e. new_src (sym e)) ∙ source_kept) in
      let page : after table (pt_index v) ≡ protect (s.mem table (pt_index v)) =
        ap (λ h. h (pt_index v)) (after_other table (λ e. new_table pdi there (sym e)))
        ∙ table_word (pt_index v) (omega arith) in
      walk_page after src v (s.mem src pdi) _ at there page
      ∙ shown_protect (s.mem table (pt_index v))
      ∙ ap shares (sym (walk_table v here))

  only_one : (i : ℕ) → pdi ≤ i → i < pdi + 1 → i ≡ pdi
  only_one i from to = omega arith

  pub entry-Clones : Clones src new pdi (pdi + 1) s (record s₁ { mem = after })
  entry-Clones =
      let (frame, _) = word_lem in
      let at : after new pdi ≡ word = after_new pdi ∙ update_self (s.mem new) pdi word in
      let marked = takes.marked in
      let bit : (f : ℕ)
          → frame_test s₁.pmm.bitmap f ≡ (if t == f then true else frame_test s.pmm.bitmap f) =
        λ f. ap (λ b. frame_test b f) c.bitmap ∙ marked f in
      record {
        source = after_other src (λ e. new_src (sym e)) ∙ source_kept;
        entries = λ i out. after_new i ∙ update_ne (s.mem new) word (λ e. ground (arith, out, e));
        kept = λ f used ne others.
            after_other f ne ∙ before_store f used (others pdi (omega arith) (omega arith) there);
        used = λ f was. (let b = bit f in ground (arith, b, was));
        fresh = λ i from to present user.
            let same : frame_of (after new i) ≡ t =
              ap (λ j. frame_of (after new j)) (only_one i from to) ∙ ap frame_of at ∙ frame in
            let b = bit t in
            (
              ap (frame_test s.pmm.bitmap) same ∙ takes.free,
              ap (frame_test s₁.pmm.bitmap) same ∙ ground (arith, b),
            );
        child = λ v from to present user. walk_child v (only_one (pd_index v) from to);
        parent = λ v from to present user. walk_parent v (only_one (pd_index v) from to);
        same_size = c.same_size ∙ takes.same_size;
      }
