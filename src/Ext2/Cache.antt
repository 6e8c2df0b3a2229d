-- ===== src/Ext2/Cache.antt =====
-- The cached block map, `ext2_blk_lookup` of src/fs/ext2.c, against `ext2_file_block`.
use luminary.Base.{
  ℕ, ◌+◌, ◌-◌, ◌*◌, ◌/◌, ◌%◌, ◌<◌, ◌≡◌, ◌≢◌, refl, ap, ◌∙◌, inl, inr, ◌⊎◌, Bool, true, false,
  Option, none, some, ltb, ◌==◌, if◌then◌else◌, Bool-cases, arith,
}
use luminary.Ext2.{
  Inode, Table, IndCache, ext2_file_block, pointers, ptrs_per_block, load, at, lookup_l2,
  lookup_ind1, lookup_ind2, ext2_blk_lookup,
}

module _ (disk : ℕ → ℕ) (g_block_size : ℕ) where
  abbrev words : ℕ → (ℕ → ℕ)
  words = pointers disk g_block_size

  -- A table is empty or holds the pointers of its block.
  abbrev pub IsLoaded : Table → Type 0
  IsLoaded t = (t.phys ≡ 0) ⊎ (t.buf ≡ some (words t.phys))

  pub record IsCoherent (c : IndCache) : Type 0 where
    pub ind1 : IsLoaded c.ind1
    pub ind2l1 : IsLoaded c.ind2l1
    pub ind2l2 : IsLoaded c.ind2l2

  module _ (kmalloc : ℕ → Bool) (memory : (n : ℕ) → kmalloc n ≡ true) where
    load_parts :
        (ind : ℕ) (buf : Option (ℕ → ℕ)) (phys asked : ℕ)
        → ind ≢ 0
        → IsLoaded (record { buf = buf; phys = phys })
        → let (got, t, asked') =
            load disk g_block_size kmalloc ind (record { buf = buf; phys = phys }) asked in
          (got ≡ some (words ind)) × IsLoaded t
    unfolding load
    load_parts ind buf phys asked some_block loaded = elim (Bool-cases (ind == phys)) [
      | inl here ↦ elim loaded [
        | inl empty ↦ absurd (ground (arith, here, empty))
        | inr kept ↦
            rw (load, here) (kept ∙ ap (λ p. some (words p)) (ground (arith, here)), inr kept)
      ]
      | inr other ↦ load_other buf other
    ]
      where
        load_other :
            (b : Option (ℕ → ℕ))
            → (ind == phys) ≡ false
            → let (got, t, asked') =
                load disk g_block_size kmalloc ind (record { buf = b; phys = phys }) asked in
              (got ≡ some (words ind)) × IsLoaded t
        load_other none other = rw (load, other, memory asked) (refl, inr refl)
        load_other (some old) other = rw (load, other) (refl, inr refl)

    load_lem :
        (ind : ℕ) (t : Table) (asked : ℕ)
        → ind ≢ 0
        → IsLoaded t
        → let (got, t', asked') = load disk g_block_size kmalloc ind t asked in
          (got ≡ some (words ind)) × IsLoaded t'
    load_lem ind t asked = load_parts ind t.buf t.phys asked

    abbrev ppb : ℕ
    ppb = ptrs_per_block disk g_block_size

    at-some :
        (got : Option (ℕ → ℕ)) (w : ℕ → ℕ) (i : ℕ)
        → got ≡ some w
        → at disk g_block_size kmalloc got i ≡ w i
    at-some got w i e = ap (λ g. at disk g_block_size kmalloc g i) e

    -- The doubly indirect blocks, by the uncached map.
    abbrev two_levels : ℕ → ℕ → ℕ
    two_levels ind idx =
        let l1 = words ind (idx / ppb) in if l1 == 0 then 0 else words l1 (idx % ppb)

    -- What a lookup comes to: the number, and a coherent cache.
    abbrev Looks : ℕ → ℕ × IndCache → Type 0
    Looks n r = (r.0 ≡ n) × IsCoherent r.1

    lookup_l2_lem :
        (l2 : ℕ) (c : IndCache) (i : ℕ)
        → IsCoherent c
        → Looks (if l2 == 0 then 0 else words l2 i) (lookup_l2 disk g_block_size kmalloc l2 c i)
    unfolding lookup_l2
    lookup_l2_lem l2 c i coherent = elim (Bool-cases (l2 == 0)) [
      | inl hole ↦ rw (lookup_l2, hole) (refl, coherent)
      | inr there ↦
          let (got, loaded) =
            load_lem l2 c.ind2l2 c.asked (ground (arith, there)) coherent.ind2l2 in
          rw (lookup_l2, there)
            (
              at-some _ (words l2) i got,
              record { ind1 = coherent.ind1; ind2l1 = coherent.ind2l1; ind2l2 = loaded },
            )
    ]

    lookup_ind2_lem :
        (ind : ℕ) (c : IndCache) (idx : ℕ)
        → ind ≢ 0
        → IsCoherent c
        → Looks (two_levels ind idx) (lookup_ind2 disk g_block_size kmalloc ind c idx)
    unfolding lookup_ind2
    lookup_ind2_lem ind c idx some_block coherent =
        let (got, loaded) = load_lem ind c.ind2l1 c.asked some_block coherent.ind2l1 in
        let l1 = at-some _ (words ind) (idx / ppb) got in
        let (n, kept) =
          lookup_l2_lem _ _ (idx % ppb)
            (record { ind1 = coherent.ind1; ind2l1 = loaded; ind2l2 = coherent.ind2l2 }) in
        (n ∙ ap (λ l. if l == 0 then 0 else words l (idx % ppb)) l1, kept)

    lookup_ind1_lem :
        (ind : ℕ) (c : IndCache) (idx : ℕ)
        → ind ≢ 0
        → IsCoherent c
        → Looks (words ind idx) (lookup_ind1 disk g_block_size kmalloc ind c idx)
    unfolding lookup_ind1
    lookup_ind1_lem ind c idx some_block coherent =
        let (got, loaded) = load_lem ind c.ind1 c.asked some_block coherent.ind1 in
        (
          at-some _ (words ind) idx got,
          record { ind1 = loaded; ind2l1 = coherent.ind2l1; ind2l2 = coherent.ind2l2 },
        )

    -- With memory for the tables, and below the triply indirect blocks, the block that a read looks up
    -- in its cache is the one that the map of the inode names; the cache stays coherent.
    pub ext2_blk_lookup-ext2_file_block :
        (inode : Inode) (c : IndCache) (blk_idx : ℕ)
        → IsCoherent c
        → blk_idx < 12 + ppb + ppb * ppb
        → let (phys, c') = ext2_blk_lookup disk g_block_size kmalloc inode c blk_idx in
          (phys ≡ ext2_file_block disk g_block_size true inode blk_idx) × IsCoherent c'
    unfolding ext2_blk_lookup ext2_file_block
    ext2_blk_lookup-ext2_file_block inode c blk_idx coherent inside =
        elim (Bool-cases (ltb blk_idx 12)) [
          | inl direct ↦ rw (ext2_blk_lookup, ext2_file_block, direct) (refl, coherent)
          | inr past ↦ elim (Bool-cases (ltb blk_idx (12 + ppb))) [
            | inl single ↦
                let single' : ltb (blk_idx - 12) ppb ≡ true = ground (arith, single, past) in
                elim (Bool-cases (inode.i_block 12 == 0)) [
                  | inl hole ↦
                      rw (ext2_blk_lookup, ext2_file_block, past, single, single', hole)
                        (refl, coherent)
                  | inr there ↦
                      rw (ext2_blk_lookup, ext2_file_block, past, single, single', there)
                        (lookup_ind1_lem (inode.i_block 12) c (blk_idx - 12) (ground (arith, there))
                          coherent)
                ]
            | inr double ↦
                let double' : ltb (blk_idx - 12) ppb ≡ false = ground (arith, double, past) in
                let inside' : ltb (blk_idx - 12 - ppb) (ppb * ppb) ≡ true =
                  ground (arith, double, past) in
                elim (Bool-cases (inode.i_block 13 == 0)) [
                  | inl hole ↦
                      rw (ext2_blk_lookup, ext2_file_block, past, double, double', inside', hole)
                        (refl, coherent)
                  | inr there ↦
                      rw (ext2_blk_lookup, ext2_file_block, past, double, double', inside', there)
                        (lookup_ind2_lem (inode.i_block 13) c (blk_idx - 12 - ppb)
                          (ground (arith, there)) coherent)
                ]
          ]
        ]
