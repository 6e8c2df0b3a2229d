-- ===== src/Vmm/Clone/Tables.antt =====
-- The loop of src/kernel/vmm.c's vmm_clone_page_dir over a page table.
use luminary.Base.{
  ℕ, zero, suc, ◌+◌, ◌*◌, ◌/◌, ◌≡◌, ◌≢◌, inl, inr, refl, sym, ap, ap₂, ◌∙◌, true, false, ◌&&◌, ltb,
  leb, if◌then◌else◌, update, update_ne, update_self, arith, Bool-cases,
}
use native.Mathlib.Decide.{ℕ_discrete}
use luminary.Pmm.{page_size, pmm_refcount_inc}
use luminary.Pmm.Refcount.{inc_kept}
use luminary.Vmm.Table.{set_word_same}
use luminary.Vmm.{Memory, Vmm, flags_of, is_present, is_write, set_word}
use luminary.Vmm.Cow.Copy.{set_word_ne, set_word_at}
use luminary.Vmm.Clone.{shared_word, clone_page, clone_pages}

-- What a table's word becomes when its page is shared.
abbrev pub protect : ℕ → ℕ
protect page = if is_present page then shared_word page else page

-- What a table of the clone gets for it.
abbrev pub inherit : (was page : ℕ) → ℕ
inherit was page = if is_present page then shared_word page else was

pub read_only_same : (page : ℕ) → is_write page ≡ false → shared_word page ≡ page
read_only_same page off =
    let whole : page / page_size * page_size + flags_of page ≡ page = omega arith in rw off whole

-- What rounds over the entries from `lo` up to `hi` leave.
pub record ClonesTable (src_pt new_pt lo hi : ℕ) (s s' : Vmm) : Type 0 where
  pub source :
      (j : ℕ)
      → s'.mem src_pt j
        ≡ (if leb lo j && ltb j hi then protect (s.mem src_pt j) else s.mem src_pt j)
  pub copy :
      (j : ℕ)
      → s'.mem new_pt j ≡ (
          if leb lo j && ltb j hi
          then inherit (s.mem new_pt j) (s.mem src_pt j)
          else s.mem new_pt j)
  pub elsewhere : (f : ℕ) → f ≢ src_pt → f ≢ new_pt → s'.mem f ≡ s.mem f
  pub bitmap : s'.pmm.bitmap ≡ s.pmm.bitmap
  pub same_size : s'.pmm.nframes ≡ s.pmm.nframes

-- A function that differs at one place only.
at_one :
    (pti : ℕ) (new k old : ℕ → ℕ)
    → new pti ≡ k pti
    → ((j : ℕ) → pti ≢ j → new j ≡ old j)
    → (j : ℕ) → new j ≡ (if leb pti j && ltb j (pti + 1) then k j else old j)
at_one pti new k old here there j = elim (ℕ_discrete pti j) [
  | yes same ↦
      let on : (leb pti j && ltb j (pti + 1)) ≡ true = ground (arith, same) in
      rw on (ap new (sym same) ∙ here ∙ ap k same)
  | no ne ↦
      (let off : (leb pti j && ltb j (pti + 1)) ≡ false = ground (arith, ne) in rw off (there j ne))
]

-- One round, in a table that has the page.
module _ (src_pt new_pt pti : ℕ) (s : Vmm) (apart : src_pt ≢ new_pt) where
  clone_page-absent : is_present (s.mem src_pt pti) ≡ false → clone_page src_pt new_pt pti s ≡ s
  unfolding clone_page
  clone_page-absent absent = rw absent refl

  -- The memory with the source's word changed, if it is.
  abbrev weakened : Memory
  weakened = set_word s.mem src_pt pti (shared_word (s.mem src_pt pti))

  clone_page-mem :
      is_present (s.mem src_pt pti) ≡ true
      → clone_page src_pt new_pt pti s ≡ record {
        pmm = pmm_refcount_inc s.pmm (s.mem src_pt pti / page_size * page_size);
        mem = set_word weakened new_pt pti (shared_word (s.mem src_pt pti));
      }
  unfolding clone_page
  clone_page-mem present =
      let page = s.mem src_pt pti in
      elim (Bool-cases (is_write page)) [
        | inl write ↦ rw (present, write) refl
        | inr read_only ↦
            let same : s.mem ≡ weakened = sym (
              ap (set_word s.mem src_pt pti) (read_only_same page read_only)
              ∙ set_word_same s.mem src_pt pti) in
            let reads : clone_page src_pt new_pt pti s ≡ record {
              pmm = pmm_refcount_inc s.pmm (page / page_size * page_size);
              mem = set_word s.mem new_pt pti (shared_word page);
            } =
              rw (clone_page, present, read_only) refl in
            reads
            ∙ ap
                (λ m. record {
                  pmm = pmm_refcount_inc s.pmm (page / page_size * page_size);
                  mem = set_word m new_pt pti (shared_word page);
                })
                same
      ]

  clone_page-ClonesTable :
      ClonesTable src_pt new_pt pti (pti + 1) s (clone_page src_pt new_pt pti s)
  clone_page-ClonesTable = elim (Bool-cases (is_present (s.mem src_pt pti))) [
    | inr absent ↦ rw (clone_page-absent absent) (record {
      source =
          at_one pti (s.mem src_pt) (λ j. protect (s.mem src_pt j)) (s.mem src_pt) (rw absent refl)
            (λ j ne. refl);
      copy =
          at_one pti (s.mem new_pt) (λ j. inherit (s.mem new_pt j) (s.mem src_pt j)) (s.mem new_pt)
            (rw absent refl) (λ j ne. refl);
      elsewhere = λ f ne ne'. refl;
      bitmap = refl;
      same_size = refl;
    })
    | inl present ↦
        let (bitmap, size) = inc_kept s.pmm (s.mem src_pt pti / page_size * page_size) in
        let word = shared_word (s.mem src_pt pti) in
        let changed = set_word weakened new_pt pti word in
        let in_source : (j : ℕ) → changed src_pt j ≡ update (s.mem src_pt) pti word j = λ j.
          ap (λ h. h j) (set_word_ne weakened new_pt pti word src_pt (λ e. apart (sym e)))
          ∙ set_word_at s.mem src_pt pti word j in
        let in_copy : (j : ℕ) → changed new_pt j ≡ update (s.mem new_pt) pti word j = λ j.
          set_word_at weakened new_pt pti word j
          ∙ ap (λ h. update h pti word j) (set_word_ne s.mem src_pt pti word new_pt apart) in
        rw (clone_page-mem present) (record {
          source =
              at_one pti (changed src_pt) (λ j. protect (s.mem src_pt j)) (s.mem src_pt)
                (in_source pti ∙ update_self (s.mem src_pt) pti word ∙ rw present refl)
                (λ j ne. in_source j ∙ update_ne (s.mem src_pt) word ne);
          copy =
              at_one pti (changed new_pt) (λ j. inherit (s.mem new_pt j) (s.mem src_pt j))
                (s.mem new_pt) (in_copy pti ∙ update_self (s.mem new_pt) pti word ∙ rw present refl)
                (λ j ne. in_copy j ∙ update_ne (s.mem new_pt) word ne);
          elsewhere = λ f ne ne'.
              set_word_ne weakened new_pt pti word f (λ e. ne' (sym e))
              ∙ set_word_ne s.mem src_pt pti word f (λ e. ne (sym e));
          bitmap = bitmap;
          same_size = size;
        })
  ]

-- One round and those behind it.
and_then :
    (lo n j x a a₁ m₁ m₂ : ℕ)
    → m₁ ≡ (if leb lo j && ltb j (lo + 1) then a else x)
    → m₂ ≡ (if leb (lo + 1) j && ltb j (lo + 1 + n) then a₁ else m₁)
    → ((leb lo j && ltb j (lo + 1)) ≡ false → a₁ ≡ a)
    → m₂ ≡ (if leb lo j && ltb j (lo + suc n) then a else x)
and_then lo n j x a a₁ m₁ m₂ first rest same = elim (Bool-cases (leb lo j && ltb j (lo + 1))) [
  | inl on ↦
      let off : (leb (lo + 1) j && ltb j (lo + 1 + n)) ≡ false = ground (arith, on) in
      let both : (leb lo j && ltb j (lo + suc n)) ≡ true = ground (arith, on) in
      rw both (rest ∙ ap (λ b. if b then a₁ else m₁) off ∙ first ∙ ap (λ b. if b then a else x) on)
  | inr off ↦
      let both : (leb lo j && ltb j (lo + suc n)) ≡ (leb (lo + 1) j && ltb j (lo + 1 + n)) =
        ground (arith, off) in
      rw both (
        rest
        ∙ ap₂ (λ u v. if leb (lo + 1) j && ltb j (lo + 1 + n) then u else v) (same off)
            (first ∙ ap (λ b. if b then a else x) off))
]

pub clone_pages-ClonesTable :
    (n src_pt new_pt pti : ℕ) (s : Vmm)
    → src_pt ≢ new_pt
    → ClonesTable src_pt new_pt pti (pti + n) s (clone_pages n src_pt new_pt pti s)
unfolding clone_pages
clone_pages-ClonesTable zero src_pt new_pt pti s apart = record {
  source = λ j. ground arith;
  copy = λ j. ground arith;
  elsewhere = λ f ne ne'. refl;
  bitmap = refl;
  same_size = refl;
}
clone_pages-ClonesTable (suc n) src_pt new_pt pti s apart =
    let first = clone_page-ClonesTable src_pt new_pt pti s apart in
    let rest =
      clone_pages-ClonesTable n src_pt new_pt (pti + 1) (clone_page src_pt new_pt pti s) apart in
    record {
      source = λ j.
          and_then pti n j (s.mem src_pt j) (protect (s.mem src_pt j)) _ _ _ (first.source j)
            (rest.source j)
            (λ off. ap protect (
              first.source j
              ∙ ap (λ b. if b then protect (s.mem src_pt j) else s.mem src_pt j) off));
      copy = λ j.
          and_then pti n j (s.mem new_pt j) (inherit (s.mem new_pt j) (s.mem src_pt j)) _ _ _
            (first.copy j) (rest.copy j)
            (λ off.
              ap₂ inherit
                (first.copy j
                  ∙ ap
                      (λ b. if b then inherit (s.mem new_pt j) (s.mem src_pt j) else s.mem new_pt j)
                      off)
                (first.source j
                  ∙ ap (λ b. if b then protect (s.mem src_pt j) else s.mem src_pt j) off));
      elsewhere = λ f ne ne'. rest.elsewhere f ne ne' ∙ first.elsewhere f ne ne';
      bitmap = rest.bitmap ∙ first.bitmap;
      same_size = rest.same_size ∙ first.same_size;
    }
