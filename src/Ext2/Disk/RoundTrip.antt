-- ===== src/Ext2/Disk/RoundTrip.antt =====
-- An entry that is added to a directory and removed again, src/fs/ext2.c.
use luminary.Base.{
  ℕ, ◌+◌, ◌≤◌, ◌<◌, ◌≡◌, ◌≢◌, inl, inr, refl, ap, sym, subst, ◌∙◌, Bool, true, false, none, some,
  List, [], ◌∷◌, ◌++◌, length, ◌==◌, arith, update, update_self, Bool-cases, Option-cases,
}
use luminary.Vfs.{u32}
use luminary.Ext2.Dir.{Buffer, Dirent, remove_in_block}
use luminary.Ext2.Dir.Tiles.{Tiles}
use luminary.Ext2.Disk.{
  Disk, direct_blocks, empty_index, add_loop, remove_loop, new_dir_block, with_block, walk_direct,
  alloc_block, ext2_dir_add_entry, ext2_dir_remove_entry,
}
use luminary.Ext2.Disk.Blocks.{
  Holds-append, unused-listed, all_listed-append, IsNew, Distinct, Holds, NoneHave, all_listed,
  Holds-update, Holds-walk_direct,
}
use luminary.Ext2.Disk.Loops.{
  direct_blocks-update, remove_loop-again, remove_loop-last, only, new_dir_block-removed,
}

-- A directory and the entries of its direct blocks: the blocks are apart, and behind the first index without
-- one there is none.
pub record IsDirectory (g_block_size : ℕ) (i_block : ℕ → ℕ) (blocks : ℕ → Buffer)
    (ess : List (List Dirent)) : Type 0 where
  pub apart : Distinct (direct_blocks 12 0 i_block)
  pub holds : Holds g_block_size blocks (direct_blocks 12 0 i_block) ess
  pub tight :
      (slot : ℕ)
      → empty_index 12 0 i_block ≡ some slot
      → (i : ℕ) → slot < i
      → i < 12
      → i_block i ≡ 0

-- What a directory lists.
abbrev pub children :
    (g_block_size : ℕ) (kmalloc_ok : ℕ → Bool) (dir_ino : ℕ) → Disk → List (ℕ × List ℕ)
children g_block_size kmalloc_ok dir_ino s =
    walk_direct g_block_size kmalloc_ok (direct_blocks 12 0 (s.inodes dir_ino).i_block) s.blocks

module _ (g_block_size : ℕ) (kmalloc_ok : ℕ → Bool) (memory : (n : ℕ) → kmalloc_ok n ≡ true)
    (s : Disk) (dir_ino child_ino : ℕ) (name : List ℕ) (file_type : ℕ)
    (ess : List (List Dirent)) where
  abbrev ps : List ℕ
  ps = direct_blocks 12 0 (s.inodes dir_ino).i_block

  abbrev added_to : Bool × Disk
  added_to = ext2_dir_add_entry g_block_size kmalloc_ok dir_ino child_ino name file_type s

  abbrev new_block : ℕ
  new_block = (alloc_block g_block_size kmalloc_ok (record s { requests = s.requests + 1 })).0

  add-slack :
      (phys : ℕ) (bbuf : Buffer)
      → add_loop g_block_size kmalloc_ok ps child_ino name file_type s.blocks ≡ some (phys, bbuf)
      → added_to
        ≡ (true, record s { blocks = update s.blocks phys bbuf; requests = s.requests + 1 })
  unfolding ext2_dir_add_entry
  add-slack phys bbuf found = rw (ext2_dir_add_entry, memory s.requests, found) refl

  -- The device with one block more in the directory.
  abbrev grown : (slot : ℕ) → Disk
  grown slot =
      let s2 = (alloc_block g_block_size kmalloc_ok (record s { requests = s.requests + 1 })).1 in
      record s2 {
        blocks =
            update s2.blocks new_block
              (new_dir_block g_block_size kmalloc_ok child_ino name file_type);
        inodes =
            update s2.inodes dir_ino
              (with_block g_block_size kmalloc_ok (s.inodes dir_ino) slot new_block);
      }

  add-grown :
      add_loop g_block_size kmalloc_ok ps child_ino name file_type s.blocks ≡ none
      → added_to.0 ≡ true
      → (slot : ℕ) × (new_block ≢ 0)
        × (empty_index 12 0 (s.inodes dir_ino).i_block ≡ some slot)
        × (added_to ≡ (true, grown slot))
  unfolding ext2_dir_add_entry
  add-grown full done = elim (Bool-cases (new_block == 0)) [
    | inl out ↦
        let stopped : added_to.0 ≡ false =
          rw (ext2_dir_add_entry, memory s.requests, full, out) refl in
        absurd cc
    | inr got ↦ elim (Option-cases (empty_index 12 0 (s.inodes dir_ino).i_block)) [
      | inl all_used ↦
          let stopped : added_to.0 ≡ false =
            rw (ext2_dir_add_entry, memory s.requests, full, got, all_used) refl in
          absurd cc
      | inr (slot, free) ↦ (
        slot,
        ground (arith, got),
        free,
        rw (ext2_dir_add_entry, memory s.requests, full, got, free) refl,
      )
    ]
  ]

  remove-found :
      (s' : Disk) (phys : ℕ) (bbuf : Buffer)
      → remove_loop g_block_size kmalloc_ok
          (direct_blocks 12 0 (s'.inodes dir_ino).i_block)
          child_ino
          s'.blocks
        ≡ some (phys, bbuf)
      → ext2_dir_remove_entry g_block_size kmalloc_ok dir_ino child_ino s'
        ≡ (true, record s' { blocks = update s'.blocks phys bbuf; requests = s'.requests + 1 })
  unfolding ext2_dir_remove_entry
  remove-found s' phys bbuf found = rw (ext2_dir_remove_entry, memory s'.requests, found) refl

  grown-direct_blocks :
      (slot : ℕ)
      → new_block ≢ 0
      → empty_index 12 0 (s.inodes dir_ino).i_block ≡ some slot
      → ((i : ℕ) → slot < i → i < 12 → (s.inodes dir_ino).i_block i ≡ 0)
      → direct_blocks 12 0 ((grown slot).inodes dir_ino).i_block ≡ ps ++ (new_block ∷ [])
  unfolding with_block alloc_block
  grown-direct_blocks slot some_block free tight =
      ap (λ n. direct_blocks 12 0 n.i_block)
        (update_self s.inodes dir_ino
          (with_block g_block_size kmalloc_ok (s.inodes dir_ino) slot new_block))
      ∙ (direct_blocks-update 12 0 (s.inodes dir_ino).i_block slot new_block some_block free
          (λ i above below. tight i above (omega (arith, below)))).1

  abbrev Restores : Bool × Disk → Type 0
  Restores r =
      (r.0 ≡ true)
      × (children g_block_size kmalloc_ok dir_ino r.1 ≡ children g_block_size kmalloc_ok dir_ino s)

  -- It is enough that the entry is found, and that the blocks hold what lists the same.
  restored :
      (s' : Disk) (phys : ℕ) (bbuf : Buffer) (ess' : List (List Dirent))
      → Holds g_block_size s.blocks ps ess
      → remove_loop g_block_size kmalloc_ok
          (direct_blocks 12 0 (s'.inodes dir_ino).i_block)
          child_ino
          s'.blocks
        ≡ some (phys, bbuf)
      → Holds g_block_size
          (update s'.blocks phys bbuf)
          (direct_blocks 12 0 (s'.inodes dir_ino).i_block)
          ess'
      → all_listed ess' ≡ all_listed ess
      → added_to ≡ (true, s')
      → Restores (ext2_dir_remove_entry g_block_size kmalloc_ok dir_ino child_ino added_to.1)
  restored s' phys bbuf ess' before gone holds same made =
      let walked =
        Holds-walk_direct g_block_size kmalloc_ok (update s'.blocks phys bbuf)
          (direct_blocks 12 0 (s'.inodes dir_ino).i_block) ess' holds
        ∙ same
        ∙ sym (Holds-walk_direct g_block_size kmalloc_ok s.blocks ps ess before) in
      subst (λ a. Restores (ext2_dir_remove_entry g_block_size kmalloc_ok dir_ino child_ino a.1))
        (sym made) (subst Restores (sym (remove-found s' phys bbuf gone)) (refl, walked))

  -- With memory, an entry that was added to a directory is found and taken out again, and the directory then
  -- lists what it did before, whether the entry went into the slack of a block or into a new one. The blocks of
  -- the directory are apart, of 264 bytes to less than 64 KiB, their entries lie one behind the other, none has
  -- that inode, and behind the first direct pointer that is 0 all are; the name has at most 255 bytes, and a
  -- block that is new to the directory is none of its own.
  pub ext2_dir_remove_entry-ext2_dir_add_entry :
      264 ≤ g_block_size
      → g_block_size < 65536
      → child_ino < u32
      → length name < 256
      → IsDirectory g_block_size (s.inodes dir_ino).i_block s.blocks ess
      → NoneHave child_ino ess
      → IsNew new_block ps
      → added_to.0 ≡ true
      → let (gone, s') =
          ext2_dir_remove_entry g_block_size kmalloc_ok dir_ino child_ino added_to.1 in
        (gone ≡ true)
        × (children g_block_size kmalloc_ok dir_ino s' ≡ children g_block_size kmalloc_ok dir_ino s)
  unfolding alloc_block
  ext2_dir_remove_entry-ext2_dir_add_entry large small ino short d lacks new done =
      elim (Option-cases (add_loop g_block_size kmalloc_ok ps child_ino name file_type s.blocks)) [
        | inr ((phys, bbuf), found) ↦
            let (bbuf', gone, holds) =
              remove_loop-again g_block_size kmalloc_ok child_ino name file_type large small ino
                short s.blocks ps ess phys bbuf d.apart d.holds lacks found in
            restored (record s { blocks = update s.blocks phys bbuf; requests = s.requests + 1 })
              phys bbuf' ess d.holds gone holds refl (add-slack phys bbuf found)
        | inl full ↦
            let (slot, some_block, free, made) = add-grown full done in
            let start = new_dir_block g_block_size kmalloc_ok child_ino name file_type in
            let (bbuf', gone, t) =
              new_dir_block-removed g_block_size kmalloc_ok child_ino name file_type large small ino
                short in
            let first = update s.blocks new_block start in
            let newest =
              only g_block_size kmalloc_ok child_ino name file_type large small ino short in
            let dead : List Dirent = record newest { inode = 0 } ∷ [] in
            let pointers = grown-direct_blocks slot some_block free (d.tight slot free) in
            let found =
              remove_loop-last g_block_size kmalloc_ok child_ino name file_type large small ino
                short first ps ess new_block bbuf'
                (Holds-update g_block_size s.blocks new_block start ps ess new d.holds) lacks
                (subst
                  (λ c. remove_in_block g_block_size g_block_size c child_ino 0 none ≡ some bbuf')
                  (sym (update_self s.blocks new_block start)) gone) in
            let holds =
              Holds-append g_block_size (update first new_block bbuf') ps ess new_block dead
                (Holds-update g_block_size first new_block bbuf' ps ess new
                  (Holds-update g_block_size s.blocks new_block start ps ess new d.holds))
                (subst (λ c. Tiles c 0 dead g_block_size) (sym (update_self first new_block bbuf'))
                  t) in
            restored (grown slot) new_block bbuf' (ess ++ (dead ∷ [])) d.holds
              (subst
                (λ qs.
                  remove_loop g_block_size kmalloc_ok qs child_ino first ≡ some (new_block, bbuf'))
                (sym pointers) found)
              (subst
                (λ qs. Holds g_block_size (update first new_block bbuf') qs (ess ++ (dead ∷ [])))
                (sym pointers) holds)
              (all_listed-append ess dead (unused-listed newest)) made
      ]
