-- ===== src/Ext2/Disk/Files/Lifecycle.antt =====
-- A file that is created and unlinked, src/fs/ext2.c.
use luminary.Base.{
  ℕ, ◌+◌, ◌≤◌, ◌<◌, ◌≡◌, ◌≢◌, inl, inr, refl, ap, sym, subst, ◌∙◌, Bool, true, Option, none, some,
  List, length, ◌==◌, update_self, update_ne, Bool-cases, Option-cases,
}
use luminary.Vfs.{u32}
use luminary.Ext2.{Inode}
use luminary.Ext2.Dir.{Buffer, Dirent}
use luminary.Ext2.Disk.{
  Slot, Disk, direct_blocks, empty_index, add_loop, remove_loop, alloc_block, alloc_inode,
  free_block, free_inode, ext2_dir_add_entry, ext2_dir_remove_entry, walk_direct,
}
use luminary.Ext2.Disk.Files.{
  ext2_imode_file, zero_inode, write_inode, release_slot, ext2_alloc_slot, free_direct,
  ext2_free_inode_blocks, ext2_create, ext2_unlink,
}
use luminary.Ext2.Disk.Blocks.{IsNew, NoneHave}
use luminary.Ext2.Disk.RoundTrip.{IsDirectory, children, ext2_dir_remove_entry-ext2_dir_add_entry}

-- The inode of a file that is new.
abbrev pub new_inode : Inode
new_inode = record zero_inode { i_mode = ext2_imode_file + 420; i_links_count = 1 }

-- The inode of a file that is gone.
abbrev pub dead_inode : Inode
dead_inode = record zero_inode { i_mode = ext2_imode_file + 420; i_dtime = 1 }

module _ (g_block_size : ℕ) (kmalloc_ok : ℕ → Bool) where
  -- An inode without blocks frees none.
  ext2_free_inode_blocks-none :
      (links : ℕ) (s : Disk)
      → ext2_free_inode_blocks g_block_size kmalloc_ok
          (record zero_inode { i_mode = ext2_imode_file + 420; i_links_count = links })
          s
        ≡ (
          record zero_inode { i_mode = ext2_imode_file + 420; i_links_count = links },
          record s { requests = s.requests + 1 },
        )
  unfolding ext2_free_inode_blocks free_direct
  ext2_free_inode_blocks-none links s = refl

  module _ (dir_ino child_ino : ℕ) where
    -- Adding an entry writes no inode but that of the directory.
    add-inodes :
        (name : List ℕ) (file_type : ℕ) (s : Disk) (i : ℕ)
        → dir_ino ≢ i
        → (ext2_dir_add_entry g_block_size kmalloc_ok dir_ino child_ino name file_type s).1.inodes i
          ≡ s.inodes i
    unfolding ext2_dir_add_entry alloc_block free_block
    add-inodes name file_type s i other = elim (Bool-cases (kmalloc_ok s.requests)) [
      | inr lacking ↦ rw (ext2_dir_add_entry, lacking) refl
      | inl there ↦
          elim (Option-cases (
            add_loop g_block_size kmalloc_ok (direct_blocks 12 0 (s.inodes dir_ino).i_block)
              child_ino name file_type s.blocks)) [
                | inr (_, found) ↦ rw (ext2_dir_add_entry, there, found) refl
                | inl full ↦
                    elim (Bool-cases (
                      (alloc_block g_block_size kmalloc_ok
                        (record s { requests = s.requests + 1 })).0
                      == 0)) [
                        | inl out ↦ rw (ext2_dir_add_entry, there, full, out) refl
                        | inr got ↦
                            elim (Option-cases (empty_index 12 0 (s.inodes dir_ino).i_block)) [
                              | inl all_used ↦
                                  rw (ext2_dir_add_entry, there, full, got, all_used) refl
                              | inr (slot, free) ↦
                                  rw (ext2_dir_add_entry, there, full, got, free)
                                    (update_ne s.inodes _ other)
                            ]
                      ]
              ]
    ]

    remove-inodes :
        (s : Disk)
        → (ext2_dir_remove_entry g_block_size kmalloc_ok dir_ino child_ino s).1.inodes ≡ s.inodes
    unfolding ext2_dir_remove_entry
    remove-inodes s = elim (Bool-cases (kmalloc_ok s.requests)) [
      | inr lacking ↦ rw (ext2_dir_remove_entry, lacking) refl
      | inl there ↦
          elim (Option-cases (
            remove_loop g_block_size kmalloc_ok (direct_blocks 12 0 (s.inodes dir_ino).i_block)
              child_ino s.blocks)) [
                | inr (_, found) ↦ rw (ext2_dir_remove_entry, there, found) refl
                | inl in_vain ↦ rw (ext2_dir_remove_entry, there, in_vain) refl
              ]
    ]

    -- Removing an entry has nothing to do with the open files.
    remove-slots :
        (s : Disk) (slots : List Slot)
        → let r = ext2_dir_remove_entry g_block_size kmalloc_ok dir_ino child_ino s in
          ext2_dir_remove_entry g_block_size kmalloc_ok dir_ino child_ino
            (record s { slots = slots })
          ≡ (r.0, record r.1 { slots = slots })
    unfolding ext2_dir_remove_entry
    remove-slots s slots = elim (Bool-cases (kmalloc_ok s.requests)) [
      | inr lacking ↦ rw (ext2_dir_remove_entry, lacking) refl
      | inl there ↦
          elim (Option-cases (
            remove_loop g_block_size kmalloc_ok (direct_blocks 12 0 (s.inodes dir_ino).i_block)
              child_ino s.blocks)) [
                | inr (_, found) ↦ rw (ext2_dir_remove_entry, there, found) refl
                | inl in_vain ↦ rw (ext2_dir_remove_entry, there, in_vain) refl
              ]
    ]

    -- The last name of a file without blocks is taken away.
    ext2_unlink-last :
        (s : Disk)
        → (ext2_dir_remove_entry g_block_size kmalloc_ok dir_ino child_ino s).0 ≡ true
        → s.inodes child_ino ≡ new_inode
        → let r = ext2_dir_remove_entry g_block_size kmalloc_ok dir_ino child_ino s in
          ext2_unlink g_block_size kmalloc_ok dir_ino child_ino s ≡ (
            true,
            record (free_inode g_block_size kmalloc_ok child_ino
                (write_inode child_ino dead_inode (record r.1 { requests = r.1.requests + 1 }))) {
                  slots = release_slot child_ino r.1.slots;
                },
          )
    unfolding ext2_unlink free_inode write_inode
    ext2_unlink-last s gone same =
        let it : (ext2_dir_remove_entry g_block_size kmalloc_ok dir_ino child_ino s).1.inodes
              child_ino
            ≡ new_inode =
          ap (λ f. f child_ino) (remove-inodes s) ∙ same in
        let none_freed =
          ext2_free_inode_blocks-none 0
            (ext2_dir_remove_entry g_block_size kmalloc_ok dir_ino child_ino s).1 in
        rw (ext2_unlink, gone, it, none_freed) refl

  -- The device with an inode for a new file.
  abbrev pub with_inode : Disk → Disk
  with_inode s =
      let (ino, s') = alloc_inode g_block_size kmalloc_ok s in write_inode ino new_inode s'

  module _ (node_ok : Bool) (dir_ino : ℕ) (name : List ℕ) (s : Disk) where
    abbrev ino : ℕ
    ino = (alloc_inode g_block_size kmalloc_ok s).0

    abbrev entered : Bool × Disk
    entered = ext2_dir_add_entry g_block_size kmalloc_ok dir_ino ino name 1 (with_inode s)

    abbrev created : Option ℕ × Disk
    created = ext2_create g_block_size kmalloc_ok node_ok dir_ino none name s

    -- A file that was created has an entry and a slot.
    created_lem :
        (i : ℕ)
        → created.0 ≡ some i
        → (slots : List Slot) × (entered.0 ≡ true)
          × (created ≡ (some ino, record entered.1 { slots = slots }))
    unfolding ext2_create
    created_lem i done = elim (Bool-cases (ino == 0)) [
      | inl out ↦ let stopped : created.0 ≡ none = rw (ext2_create, out) refl in absurd cc
      | inr got ↦ elim (Bool-cases entered.0) [
        | inr full ↦ let stopped : created.0 ≡ none = rw (ext2_create, got, full) refl in absurd cc
        | inl there ↦ elim (Bool-cases node_ok) [
          | inr lacking ↦
              let stopped : created.0 ≡ none = rw (ext2_create, got, there, lacking) refl in
              absurd cc
          | inl node ↦ elim (Option-cases (ext2_alloc_slot ino new_inode entered.1.slots)) [
            | inl in_use ↦
                let stopped : created.0 ≡ none = rw (ext2_create, got, there, node, in_use) refl in
                absurd cc
            | inr (slots, free) ↦ (slots, there, rw (ext2_create, got, there, node, free) refl)
          ]
        ]
      ]
    ]

    -- The directory lists what it did, and the inode is dead.
    abbrev Gone : Bool × Disk → Type 0
    Gone r =
        (r.0 ≡ true)
        × (children g_block_size kmalloc_ok dir_ino r.1
            ≡ children g_block_size kmalloc_ok dir_ino s)
        × (r.1.inodes ino ≡ dead_inode)

    -- With memory, a file that ext2_create makes in a directory and ext2_unlink takes away again
    -- leaves a directory that lists what it did before, whether the entry went into the slack of a
    -- block or into a new one, and an inode that is marked deleted, without links and blocks. The
    -- blocks of the directory are apart, of 264 bytes to less than 64 KiB, their entries lie one
    -- behind the other, none has the new inode, and behind the first direct pointer that is 0 all
    -- are; the name has at most 255 bytes, the inode is not the directory's, and a block that is
    -- new to the directory is none of its own.
    pub ext2_unlink-ext2_create :
        (ess : List (List Dirent))
        → ((n : ℕ) → kmalloc_ok n ≡ true)
        → 264 ≤ g_block_size
        → g_block_size < 65536
        → length name < 256
        → ino < u32
        → ino ≢ dir_ino
        → IsDirectory g_block_size (s.inodes dir_ino).i_block s.blocks ess
        → NoneHave ino ess
        → IsNew
            (alloc_block g_block_size kmalloc_ok
              (record (with_inode s) { requests = (with_inode s).requests + 1 })).0
            (direct_blocks 12 0 (s.inodes dir_ino).i_block)
        → created.0 ≡ some ino
        → let (gone, s') = ext2_unlink g_block_size kmalloc_ok dir_ino ino created.1 in
          (gone ≡ true)
          × (children g_block_size kmalloc_ok dir_ino s'
              ≡ children g_block_size kmalloc_ok dir_ino s)
          × (s'.inodes ino ≡ dead_inode)
    unfolding alloc_inode write_inode free_inode
    ext2_unlink-ext2_create ess memory large small short ino_small other d lacks new done =
        let (slots, there, made) = created_lem ino done in
        let s1 = with_inode s in
        let kept : s1.inodes dir_ino ≡ s.inodes dir_ino = update_ne s.inodes new_inode other in
        let (gone, walked) =
          ext2_dir_remove_entry-ext2_dir_add_entry g_block_size kmalloc_ok memory s1 dir_ino ino
            name 1 ess large small ino_small short
            (subst (λ n. IsDirectory g_block_size n.i_block s.blocks ess) (sym kept) d) lacks
            (subst
              (λ n.
                IsNew
                  (alloc_block g_block_size kmalloc_ok (record s1 { requests = s1.requests + 1 })).0
                  (direct_blocks 12 0 n.i_block))
              (sym kept) new)
            there in
        let s3 = record entered.1 { slots = slots } in
        let same_slots = remove-slots dir_ino ino entered.1 slots in
        let file : s3.inodes ino ≡ new_inode =
          add-inodes dir_ino ino name 1 s1 ino (λ e. other (sym e))
          ∙ update_self s.inodes ino new_inode in
        let removed_at = ext2_dir_remove_entry g_block_size kmalloc_ok dir_ino ino s3 in
        let last = ext2_unlink-last dir_ino ino s3 (ap (λ r. r.0) same_slots ∙ gone) file in
        let lists = λ (n : Inode) (b : ℕ → Buffer).
          walk_direct g_block_size kmalloc_ok (direct_blocks 12 0 n.i_block) b in
        let listing =
          ap (λ n. lists n removed_at.1.blocks) (update_ne removed_at.1.inodes dead_inode other)
          ∙ ap (λ r. children g_block_size kmalloc_ok dir_ino r.1) same_slots
          ∙ walked
          ∙ ap (λ n. lists n s.blocks) kept in
        subst (λ c. Gone (ext2_unlink g_block_size kmalloc_ok dir_ino ino c.1)) (sym made)
          (subst Gone (sym last) (refl, listing, update_self removed_at.1.inodes ino dead_inode))
