-- ===== src/Ext2/Disk/Loops.antt =====
-- The searches of ext2_dir_add_entry and ext2_dir_remove_entry over the blocks of a directory, src/fs/ext2.c.
use luminary.Base.{
  ℕ, zero, suc, ◌+◌, ◌%◌, ◌≤◌, ◌<◌, ◌≡◌, ◌≢◌, inl, inr, refl, ap, ap₂, sym, subst, ◌∙◌, Bool, true,
  false, none, some, List, [], ◌∷◌, ◌++◌, length, take, take-fits, ◌==◌, arith, update, update_self,
  update_ne, Bool-cases, Option-cases,
}
use native.Mathlib.Nat.{mod-eq_of_lt}
use luminary.Vfs.{u32}
use luminary.Vfs.File.{copy_in}
use luminary.Ext2.Dir.{Buffer, Dirent, dirent_at, dirent_bytes, add_in_block, remove_in_block}
use luminary.Ext2.Dir.Tiles.{Tiles}
use luminary.Ext2.Dir.Store.{stored_dirent}
use luminary.Ext2.Dir.Remove.{Leaves, removed, remove_in_block_refines}
use luminary.Ext2.Disk.{direct_blocks, empty_index, add_loop, remove_loop, new_dir_block}
use luminary.Ext2.Disk.Blocks.{
  IsNew, Distinct, Holds, NoneHave, Holds-update, remove_in_block-none, remove_in_block-again,
}

direct_blocks-none :
    (left bi : ℕ) (i_block : ℕ → ℕ)
    → (0 < left → i_block bi ≡ 0)
    → direct_blocks left bi i_block ≡ []
unfolding direct_blocks
direct_blocks-none zero bi i_block end = refl
direct_blocks-none (suc left) bi i_block end =
    let free : (i_block bi == 0) ≡ true = (let e = end (omega arith) in ground (arith, e)) in
    rw free refl

-- A directory with one block more has it behind the others.
pub direct_blocks-update :
    (left bi : ℕ) (i_block : ℕ → ℕ) (slot block : ℕ)
    → block ≢ 0
    → empty_index left bi i_block ≡ some slot
    → ((i : ℕ) → slot < i → i < bi + left → i_block i ≡ 0)
    → (bi ≤ slot)
      × (direct_blocks left bi (update i_block slot block)
          ≡ direct_blocks left bi i_block ++ (block ∷ []))
unfolding direct_blocks empty_index
direct_blocks-update zero bi i_block slot block some_block found tight = absurd cc
direct_blocks-update (suc left) bi i_block slot block some_block found tight =
    elim (Bool-cases (i_block bi == 0)) [
      | inl free ↦
          let off : (i_block bi == 0) ≡ true = free in
          let here : some bi ≡ some slot = sym (rw off refl) ∙ found in
          let it : bi ≡ slot = cc in
          let taken : update i_block slot block bi ≡ block =
            ap (update i_block slot block) it ∙ update_self i_block slot block in
          let on : (update i_block slot block bi == 0) ≡ false =
            ground (arith, taken, some_block) in
          let rest : direct_blocks left (bi + 1) (update i_block slot block) ≡ [] =
            direct_blocks-none left (bi + 1) (update i_block slot block) (λ more.
              update_ne i_block block (λ e. absurd (omega (arith, e, it)))
              ∙ tight (bi + 1) (omega (arith, it)) (omega (arith, more))) in
          (omega (arith, it), (rw (off, on, rest) (ap (λ b. b ∷ []) taken)))
      | inr used ↦
          let found' : empty_index left (bi + 1) i_block ≡ some slot = sym (rw used refl) ∙ found in
          let (after_bi, rest) =
            direct_blocks-update left (bi + 1) i_block slot block some_block found'
              (λ i above below. tight i above (omega (arith, below))) in
          let same : update i_block slot block bi ≡ i_block bi =
            update_ne i_block block (λ e. absurd (omega (arith, e, after_bi))) in
          let on : (update i_block slot block bi == 0) ≡ false = ap (λ n. n == 0) same ∙ used in
          (omega (arith, after_bi), (rw (used, on) (ap₂ ◌∷◌ same rest)))
    ]

module _ (g_block_size : ℕ) (kmalloc_ok : ℕ → Bool) (child_ino : ℕ) (name : List ℕ) (file_type : ℕ)
    (large : 264 ≤ g_block_size) (small : g_block_size < 65536) (ino : child_ino < u32)
    (short : length name < 256) where
  add_loop-full :
      (blocks : ℕ → Buffer) (p : ℕ) (ps : List ℕ)
      → add_in_block g_block_size (blocks p) child_ino name file_type ≡ none
      → add_loop g_block_size kmalloc_ok (p ∷ ps) child_ino name file_type blocks
        ≡ add_loop g_block_size kmalloc_ok ps child_ino name file_type blocks
  unfolding add_loop
  add_loop-full blocks p ps full = rw (add_loop, full) refl

  add_loop-takes :
      (blocks : ℕ → Buffer) (p : ℕ) (ps : List ℕ) (bbuf : Buffer)
      → add_in_block g_block_size (blocks p) child_ino name file_type ≡ some bbuf
      → add_loop g_block_size kmalloc_ok (p ∷ ps) child_ino name file_type blocks ≡ some (p, bbuf)
  unfolding add_loop
  add_loop-takes blocks p ps bbuf made = rw (add_loop, made) refl

  -- The block that takes an entry is one of those given.
  add_loop-ne :
      (blocks : ℕ → Buffer) (p : ℕ) (ps : List ℕ) (phys : ℕ) (bbuf : Buffer)
      → IsNew p ps
      → add_loop g_block_size kmalloc_ok ps child_ino name file_type blocks ≡ some (phys, bbuf)
      → phys ≢ p
  unfolding add_loop
  add_loop-ne blocks p [] phys bbuf new found = absurd cc
  add_loop-ne blocks p (q ∷ ps) phys bbuf (other, new) found =
      elim (Option-cases (add_in_block g_block_size (blocks q) child_ino name file_type)) [
        | inl full ↦
            add_loop-ne blocks p ps phys bbuf new (sym (add_loop-full blocks q ps full) ∙ found)
        | inr (b, made) ↦
            let here : some (q, b) ≡ some (phys, bbuf) =
              sym (add_loop-takes blocks q ps b made) ∙ found in
            λ same. other (sym same ∙ sym cc)
      ]

  -- An entry that went into the slack of a block comes out of that block.
  pub remove_loop-again :
      (blocks : ℕ → Buffer) (ps : List ℕ) (ess : List (List Dirent)) (phys : ℕ) (bbuf : Buffer)
      → Distinct ps
      → Holds g_block_size blocks ps ess
      → NoneHave child_ino ess
      → add_loop g_block_size kmalloc_ok ps child_ino name file_type blocks ≡ some (phys, bbuf)
      → (bbuf' : Buffer) × (remove_loop g_block_size kmalloc_ok ps child_ino
            (update blocks phys bbuf)
          ≡ some (phys, bbuf'))
        × Holds g_block_size (update (update blocks phys bbuf) phys bbuf') ps ess
  unfolding add_loop remove_loop
  remove_loop-again blocks [] ess phys bbuf apart h lacks found = absurd cc
  remove_loop-again blocks (p ∷ ps) [] phys bbuf apart h lacks found = absurd h
  remove_loop-again blocks (p ∷ ps) (es ∷ ess) phys bbuf (new, apart) (t, h) (lacks, later) found =
      let after_add = update blocks phys bbuf in
      elim (Option-cases (add_in_block g_block_size (blocks p) child_ino name file_type)) [
        | inr (b, made) ↦
            let here : some (p, b) ≡ some (phys, bbuf) =
              sym (add_loop-takes blocks p ps b made) ∙ found in
            let pair : ◌≡◌ {A = ℕ × Buffer} (p, b) (phys, bbuf) = cc in
            let (bbuf', gone, t') =
              remove_in_block-again g_block_size child_ino name file_type (blocks p) b es
                (omega (arith, large)) small ino short t lacks made in
            let gone' : remove_in_block g_block_size g_block_size (update blocks p b p) child_ino 0
                  none
                ≡ some bbuf' =
              subst (λ c. remove_in_block g_block_size g_block_size c child_ino 0 none ≡ some bbuf')
                (sym (update_self blocks p b)) gone in
            subst
              (λ q.
                (bbuf' : Buffer) × (remove_loop g_block_size kmalloc_ok (p ∷ ps) child_ino
                    (update blocks q.0 q.1)
                  ≡ some (q.0, bbuf'))
                × Holds g_block_size (update (update blocks q.0 q.1) q.0 bbuf') (p ∷ ps) (es ∷ ess))
              pair
              (
                bbuf',
                rw (remove_loop, gone') refl,
                (
                  subst (λ c. Tiles c 0 es g_block_size)
                      (sym (update_self (update blocks p b) p bbuf')) t',
                  Holds-update g_block_size (update blocks p b) p bbuf' ps ess new
                      (Holds-update g_block_size blocks p b ps ess new h),
                ),
              )
        | inl full ↦
            let found' = sym (add_loop-full blocks p ps full) ∙ found in
            let ne = add_loop-ne blocks p ps phys bbuf new found' in
            let (bbuf', gone, h') =
              remove_loop-again blocks ps ess phys bbuf apart h later found' in
            let kept : update blocks phys bbuf p ≡ blocks p = update_ne blocks bbuf ne in
            let passed : remove_in_block g_block_size g_block_size (update blocks phys bbuf p)
                  child_ino 0 none
                ≡ none =
              ap (λ c. remove_in_block g_block_size g_block_size c child_ino 0 none) kept
              ∙ remove_in_block-none g_block_size child_ino (blocks p) es small t lacks in
            (
              bbuf',
              rw (remove_loop, passed) gone,
              (
                subst (λ c. Tiles c 0 es g_block_size)
                    (sym (update_ne (update blocks phys bbuf) bbuf' ne ∙ kept)) t,
                h',
              ),
            )
      ]

  -- A block that none of the entries is in is searched in vain.
  pub remove_loop-last :
      (blocks : ℕ → Buffer) (ps : List ℕ) (ess : List (List Dirent)) (p : ℕ) (bbuf' : Buffer)
      → Holds g_block_size blocks ps ess
      → NoneHave child_ino ess
      → remove_in_block g_block_size g_block_size (blocks p) child_ino 0 none ≡ some bbuf'
      → remove_loop g_block_size kmalloc_ok (ps ++ (p ∷ [])) child_ino blocks ≡ some (p, bbuf')
  unfolding remove_loop
  remove_loop-last blocks [] ess p bbuf' h lacks gone = rw (remove_loop, gone) refl
  remove_loop-last blocks (q ∷ ps) [] p bbuf' h lacks gone = absurd h
  remove_loop-last blocks (q ∷ ps) (es ∷ ess) p bbuf' (t, h) (lacks, later) gone =
      let passed = remove_in_block-none g_block_size child_ino (blocks q) es small t lacks in
      rw (remove_loop, passed) (remove_loop-last blocks ps ess p bbuf' h later gone)

  abbrev pub only : Dirent
  only = record {
    inode = child_ino;
    rec_len = g_block_size;
    name_len = length name;
    file_type = file_type;
    name = name;
  }

  -- The block of a directory that is new has one entry, and none in use when that is taken out.
  pub new_dir_block-removed :
      (bbuf' : Buffer) × (remove_in_block g_block_size g_block_size
          (new_dir_block g_block_size kmalloc_ok child_ino name file_type)
          child_ino
          0
          none
        ≡ some bbuf')
      × Tiles bbuf' 0 (record only { inode = 0 } ∷ []) g_block_size
  unfolding new_dir_block removed
  new_dir_block-removed =
      let len : length name % 256 ≡ length name = mod-eq_of_lt short in
      let size : g_block_size % 65536 ≡ g_block_size = mod-eq_of_lt small in
      let whole : take (length name) name ≡ name = take-fits name (length name) (omega arith) in
      let start = new_dir_block g_block_size kmalloc_ok child_ino name file_type in
      let bytes : start ≡ copy_in (λ i. 0) 0 (dirent_bytes only) =
        rw (new_dir_block, len, size, whole) refl in
      let here : dirent_at start 0 ≡ only =
        ap (λ b. dirent_at b 0) bytes ∙ stored_dirent (λ i. 0) 0 only ino small refl in
      let it : (child_ino == child_ino) ≡ true = ground arith in
      let spec : removed child_ino (only ∷ []) ≡ some (record only { inode = 0 } ∷ []) =
        rw (removed, it) refl in
      let (bbuf', gone, t, _) =
        subst
          (λ r.
            Leaves g_block_size start 0 r
              (remove_in_block g_block_size g_block_size start child_ino 0 none))
          spec
          (remove_in_block_refines g_block_size child_ino small start (only ∷ [])
            (here, omega (arith, large, short), omega arith)) in
      (bbuf', gone, t)
