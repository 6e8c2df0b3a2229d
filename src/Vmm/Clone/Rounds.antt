-- ===== src/Vmm/Clone/Rounds.antt =====
-- The rounds of src/kernel/vmm.c's vmm_clone_page_dir over the directory.
use luminary.Base.{
  ℕ, zero, suc, ◌+◌, ◌-◌, ◌*◌, ◌≤◌, ◌<◌, ◌≡◌, ◌≢◌, ◌⊎◌, inl, inr, refl, sym, ap, ap₂, subst, ◌∙◌,
  true, false, some, ltb, if◌then◌else◌, arith, Bool-cases,
}
use luminary.Pmm.{
  Pmm, Zone, page_size, frame_test, pmm_alloc_frame_zone, zone_low_start, zone_low_end, low_end,
}
use luminary.Pmm.Room.{free_low, free_low_full, free_frames, free_frames_mark}
use luminary.Vmm.{Vmm, frame_of, is_present, is_user, pd_index, pt_index, zero_frame, walk}
use luminary.Vmm.Table.{HasMemory, Takes, alloc-Takes}
use luminary.Vmm.Paging.{IsSpace, walk_same}
use luminary.Vmm.Spaces.{IsSpace-kept}
use luminary.Vmm.Clone.{clone_pages, clone_entry, clone_entries}
use luminary.Vmm.Clone.Tables.{ClonesTable, clone_pages-ClonesTable}
use luminary.Vmm.Clone.Entries.{Clones, shares, skip-Clones, entry-Clones}

-- With a free frame in ZONE_LOW an allocation takes one, and no other.
pub alloc_room :
    (p : Pmm)
    → HasMemory p
    → 0 < free_low p
    → (t : ℕ) × (p' : Pmm) × (pmm_alloc_frame_zone Zone.zone_low p ≡ some (t * page_size, p'))
      × Takes p p' t
      × (free_low p' + 1 ≡ free_low p)
alloc_room p m room = elim (alloc-Takes p m) [
  | inl (_, full) ↦ (let empty = free_low_full p full in absurd (omega (arith, empty, room)))
  | inr (t, p', made, takes) ↦ (
    t,
    p',
    made,
    takes,
    (let ends : low_end p' ≡ low_end p =
          ap (λ n. if ltb zone_low_end n then zone_low_end else n) takes.same_size in
        let low = takes.low in
        let high = takes.high in
        ap (λ n. free_frames (n - zone_low_start) zone_low_start p'.bitmap + 1) ends
        ∙ free_frames_mark p.bitmap p'.bitmap t takes.marked (low_end p - zone_low_start)
            zone_low_start takes.free low (omega (arith, low, high))),
  )
]

-- A directory that can be cloned, and the frame of its clone.
pub record CanClone (src new : ℕ) (s : Vmm) : Type 0 where
  pub memory : HasMemory s.pmm
  pub space : IsSpace s src
  pub used : frame_test s.pmm.bitmap new ≡ true
  pub apart : new ≢ src
  pub no_table : (i : ℕ) → is_present (s.mem src i) ≡ true → new ≢ frame_of (s.mem src i)

Clones-CanClone :
    (src new lo hi : ℕ) (s s' : Vmm)
    → CanClone src new s
    → Clones src new lo hi s s'
    → CanClone src new s'
Clones-CanClone src new lo hi s s' g c = record {
  memory = record {
    some_frames =
        (let size = c.same_size in
          let some_frames = g.memory.some_frames in omega (arith, size, some_frames));
    limit = (let size = c.same_size in let limit = g.memory.limit in omega (arith, size, limit));
  };
  space = IsSpace-kept s s' src c.source c.used g.space;
  used = c.used new g.used;
  apart = g.apart;
  no_table = λ i there e.
      g.no_table i (ap (λ h. is_present (h i)) (sym c.source) ∙ there)
        (e ∙ ap (λ h. frame_of (h i)) c.source);
}

only_one : (pdi i : ℕ) → pdi ≤ i → i < pdi + 1 → i ≡ pdi
only_one pdi i from to = omega arith

-- One round takes one frame at most.
clone_entry_lem :
    (src new pdi : ℕ) (s : Vmm)
    → CanClone src new s
    → 0 < free_low s.pmm
    → (s' : Vmm) × (clone_entry src new pdi s ≡ some s')
      × Clones src new pdi (pdi + 1) s s'
      × (free_low s.pmm ≤ free_low s'.pmm + 1)
unfolding clone_entry
clone_entry_lem src new pdi s g room = elim (Bool-cases (is_present (s.mem src pdi))) [
  | inr absent ↦ (
    s,
    rw (clone_entry, absent) refl,
    skip-Clones src new pdi (pdi + 1) s (λ i from to there user.
        let same : s.mem src i ≡ s.mem src pdi = ap (s.mem src) (only_one pdi i from to) in
        absurd (ground (arith, same, absent, there))),
    omega arith,
  )
  | inl present ↦ elim (Bool-cases (is_user (s.mem src pdi))) [
    | inr kernel ↦ (
      s,
      rw (clone_entry, present, kernel) refl,
      skip-Clones src new pdi (pdi + 1) s (λ i from to there user.
          let same : s.mem src i ≡ s.mem src pdi = ap (s.mem src) (only_one pdi i from to) in
          absurd (ground (arith, same, kernel, user))),
      omega arith,
    )
    | inl user ↦
        let (t, p', made, takes, left) = alloc_room s.pmm g.memory room in
        let x = frame_of (t * page_size) in
        let at : x ≡ t = omega arith in
        let table = frame_of (s.mem src pdi) in
        let cleared : Vmm = record { pmm = p'; mem = zero_frame s.mem x } in
        let s₁ = clone_pages 1024 table x 0 cleared in
        let (_, table_used) = g.space.tables pdi present in
        let free = takes.free in
        let ne : table ≢ x =
          λ e. ground (arith, table_used, free, ap (frame_test s.pmm.bitmap) (e ∙ at)) in
        let c =
          subst (λ y. ClonesTable table y 0 1024 (record { pmm = p'; mem = zero_frame s.mem y }) s₁)
            at (clone_pages-ClonesTable 1024 table x 0 cleared ne) in
        let size : free_low s₁.pmm ≡ free_low p' =
          ap₂
            (λ n b.
              free_frames ((if ltb zone_low_end n then zone_low_end else n) - zone_low_start)
                zone_low_start b)
            c.same_size c.bitmap in
        (
          _,
          rw (clone_entry, present, user, made) refl,
          entry-Clones src new pdi t s s₁ p' g.space g.used g.apart g.no_table present takes c,
          omega (arith, size, left),
        )
  ]
]

-- Pages of other entries translate as before.
Clones-walk :
    (src new lo hi : ℕ) (s s' : Vmm)
    → CanClone src new s
    → Clones src new lo hi s s'
    → (v : ℕ) → (pd_index v < lo) ⊎ (hi ≤ pd_index v)
    → walk s'.mem src v ≡ walk s.mem src v
Clones-walk src new lo hi s s' g c v out =
    walk_same s.mem s'.mem src src v (ap (λ h. h (pd_index v)) c.source) λ present.
      let (_, used) = g.space.tables (pd_index v) present in
      ap (λ h. h (pt_index v))
        (c.kept (frame_of (s.mem src (pd_index v))) used
          (λ e. g.no_table (pd_index v) present (sym e))
          (λ i from to there e.
            (let same = g.space.apart (pd_index v) i present there e in ground (arith, same, out))))

module _ (src new lo mid hi : ℕ) (s s₁ s₂ : Vmm) (up : lo ≤ mid) (up' : mid ≤ hi)
    (g : CanClone src new s) (first : Clones src new lo mid s s₁)
    (rest : Clones src new mid hi s₁ s₂) where
  -- An entry of the source between the two.
  source_same : (i : ℕ) → s₁.mem src i ≡ s.mem src i
  source_same i = ap (λ h. h i) first.source

  -- A table that the first rounds made is none that the others write.
  first_kept :
      (i : ℕ)
      → lo ≤ i
      → i < mid
      → is_present (s.mem src i) ≡ true
      → is_user (s.mem src i) ≡ true
      → s₂.mem (frame_of (s₁.mem new i)) ≡ s₁.mem (frame_of (s₁.mem new i))
  first_kept i from to there user =
      let (free, used) = first.fresh i from to there user in
      let f = frame_of (s₁.mem new i) in
      let not_used : (q : ℕ) → frame_test s.pmm.bitmap q ≡ true → f ≢ q =
        λ q taken e. ground (arith, free, taken, ap (frame_test s.pmm.bitmap) e) in
      rest.kept f used (not_used new g.used) (λ j from' to' present e.
        let (_, taken) = g.space.tables j (ap is_present (sym (source_same j)) ∙ present) in
        not_used (frame_of (s.mem src j)) taken (e ∙ ap frame_of (source_same j)))

  first_child :
      (v : ℕ)
      → lo ≤ pd_index v
      → pd_index v < mid
      → is_present (s.mem src (pd_index v)) ≡ true
      → is_user (s.mem src (pd_index v)) ≡ true
      → walk s₂.mem new v ≡ walk s₁.mem new v
  first_child v from to there user =
      walk_same s₁.mem s₂.mem new new v (rest.entries (pd_index v) (inl to))
        (λ present. ap (λ h. h (pt_index v)) (first_kept (pd_index v) from to there user))

  still_free : (f : ℕ) → frame_test s₁.pmm.bitmap f ≡ false → frame_test s.pmm.bitmap f ≡ false
  still_free f free = elim (Bool-cases (frame_test s.pmm.bitmap f)) [
    | inr was ↦ was
    | inl taken ↦ (let later = first.used f taken in ground (arith, later, free))
  ]

  Clones-join : Clones src new lo hi s s₂
  Clones-join = record {
    source = rest.source ∙ first.source;
    entries = λ i out.
        rest.entries i (elim out [ inl b ↦ inl (omega arith) | inr a ↦ inr a ])
        ∙ first.entries i (elim out [ inl b ↦ inl b | inr a ↦ inr (omega arith) ]);
    kept = λ f used ne others.
        rest.kept f (first.used f used) ne (λ i from to there e.
          others i (omega arith) to (ap is_present (sym (source_same i)) ∙ there)
            (e ∙ ap frame_of (source_same i)))
        ∙ first.kept f used ne (λ i from to. others i from (omega arith));
    used = λ f was. rest.used f (first.used f was);
    fresh = λ i from to there user. elim (Bool-cases (ltb i mid)) [
      | inl below ↦
          let (free, used) = first.fresh i from (ground (arith, below)) there user in
          let same = ap frame_of (rest.entries i (inl (ground (arith, below)))) in
          (
            ap (frame_test s.pmm.bitmap) same ∙ free,
            ap (frame_test s₂.pmm.bitmap) same ∙ rest.used _ used,
          )
      | inr above ↦
          let e = source_same i in
          let (free, used) =
            rest.fresh i (ground (arith, above)) to (ap is_present e ∙ there)
              (ap is_user e ∙ user) in
          (still_free _ free, used)
    ];
    child = λ v from to there user. elim (Bool-cases (ltb (pd_index v) mid)) [
      | inl below ↦
          let small : pd_index v < mid = ground (arith, below) in
          first_child v from small there user ∙ first.child v from small there user
      | inr above ↦
          let large : mid ≤ pd_index v = ground (arith, above) in
          let e = source_same (pd_index v) in
          rest.child v large to (ap is_present e ∙ there) (ap is_user e ∙ user)
          ∙ ap shares (Clones-walk src new lo mid s s₁ g first v (inr large))
    ];
    parent = λ v from to there user. elim (Bool-cases (ltb (pd_index v) mid)) [
      | inl below ↦
          let small : pd_index v < mid = ground (arith, below) in
          Clones-walk src new mid hi s₁ s₂ (Clones-CanClone src new lo mid s s₁ g first) rest v
            (inl small)
          ∙ first.parent v from small there user
      | inr above ↦
          let large : mid ≤ pd_index v = ground (arith, above) in
          let e = source_same (pd_index v) in
          rest.parent v large to (ap is_present e ∙ there) (ap is_user e ∙ user)
          ∙ ap shares (Clones-walk src new lo mid s s₁ g first v (inr large))
    ];
    same_size = rest.same_size ∙ first.same_size;
  }

pub clone_entries_lem :
    (n src new pdi : ℕ) (s : Vmm)
    → CanClone src new s
    → n ≤ free_low s.pmm
    → (s' : Vmm) × (clone_entries n src new pdi s ≡ some s') × Clones src new pdi (pdi + n) s s'
unfolding clone_entries
clone_entries_lem zero src new pdi s g room =
    (s, refl, skip-Clones src new pdi (pdi + 0) s (λ i from to there user. absurd (omega arith)))
clone_entries_lem (suc n) src new pdi s g room =
    let (s₁, made, first, left) = clone_entry_lem src new pdi s g (omega arith) in
    let (s₂, made', rest) =
      clone_entries_lem n src new (pdi + 1) s₁ (Clones-CanClone src new pdi (pdi + 1) s s₁ g first)
        (omega (arith, left, room)) in
    let all =
      Clones-join src new pdi (pdi + 1) (pdi + 1 + n) s s₁ s₂ (omega arith) (omega arith) g first
        rest in
    let end : pdi + 1 + n ≡ pdi + suc n = omega arith in
    (s₂, rw (clone_entries, made) made', subst (λ hi. Clones src new pdi hi s s₂) end all)
