-- ===== src/Ext2/Disk.antt =====
-- Files and directories on the device, src/fs/ext2.c: the entries of a directory over its direct blocks, and
-- what creating a file or directory and unlinking one do to them. The bitmaps, the inodes and the other
-- blocks of the device are kept apart; the request number n for memory is answered by `kmalloc_ok n`.
pub mod Files
pub mod Blocks
pub mod Loops
pub mod RoundTrip
mod Tests
use luminary.Base.{
  ℕ, zero, suc, ◌+◌, ◌-◌, ◌*◌, ◌/◌, ◌%◌, Bool, true, false, not, ◌&&◌, ◌||◌, Option, none, some,
  List, [], ◌∷◌, ◌++◌, length, take, ltb, leb, ◌==◌, if◌then◌else◌, update,
}
use luminary.Vfs.{u32}
use luminary.Vfs.File.{copy_in}
use luminary.Ext2.{Inode, blkdev_sector_size}
use luminary.Ext2.Alloc.{
  Volume, ext2_alloc_block, ext2_alloc_inode, ext2_free_block, ext2_free_inode,
}
use luminary.Ext2.Dir.{Buffer, Dirent, le32, dirent_bytes, entries, add_in_block, remove_in_block}

-- `struct ext2_slot`, of an open file.
pub record Slot : Type 0 where
  pub used : Bool
  pub ino : ℕ
  pub inode : Inode

pub record Disk : Type 0 where
  pub volume : Volume
  pub inodes : ℕ → Inode
  pub blocks : ℕ → Buffer
  pub slots : List Slot
  pub requests : ℕ

-- The direct blocks of a directory, up to the first that it has not.
unfoldable pub direct_blocks : (left bi : ℕ) → (i_block : ℕ → ℕ) → List ℕ
direct_blocks zero bi i_block = []
direct_blocks (suc left) bi i_block =
    let rest = direct_blocks left (bi + 1) i_block in
    if i_block bi == 0 then [] else i_block bi ∷ rest

-- The first index without a block.
unfoldable pub empty_index : (left bi : ℕ) → (i_block : ℕ → ℕ) → Option ℕ
empty_index zero bi i_block = none
empty_index (suc left) bi i_block =
    let rest = empty_index left (bi + 1) i_block in if i_block bi == 0 then some bi else rest

abbrev pub all_dots : List ℕ → Bool
all_dots [] = true
all_dots (c ∷ cs) = (c == 46) && all_dots cs

-- The entries that ext2_walk_dir makes nodes for: those in use, but for "." and "..".
pub listed : List Dirent → List (ℕ × List ℕ)
listed [] = []
listed (e ∷ es) =
    let rest = listed es in
    let is_dot = (e.name_len == 1) && all_dots e.name in
    let is_dotdot = (e.name_len == 2) && all_dots e.name in
    if (e.inode == 0) || (e.name_len == 0)
    then rest
    else if is_dot || is_dotdot
    then rest
    else (e.inode, e.name) ∷ rest

module _ (g_block_size : ℕ) (kmalloc_ok : ℕ → Bool) where
  -- The loop of ext2_walk_dir over the direct blocks.
  pub walk_direct : List ℕ → (ℕ → Buffer) → List (ℕ × List ℕ)
  walk_direct [] blocks = []
  walk_direct (phys ∷ more) blocks =
      listed (entries g_block_size g_block_size (blocks phys) 0) ++ walk_direct more blocks

  -- The first block that takes the entry, and its bytes then.
  unfoldable pub add_loop :
      List ℕ
      → (child_ino : ℕ) → (name : List ℕ) → (file_type : ℕ) → (ℕ → Buffer)
      → Option (ℕ × Buffer)
  add_loop [] child_ino name file_type blocks = none
  add_loop (phys ∷ more) child_ino name file_type blocks =
      elim (add_in_block g_block_size (blocks phys) child_ino name file_type) [
        | some bbuf ↦ some (phys, bbuf)
        | none ↦ add_loop more child_ino name file_type blocks
      ]

  pub remove_loop : List ℕ → (child_ino : ℕ) → (ℕ → Buffer) → Option (ℕ × Buffer)
  remove_loop [] child_ino blocks = none
  remove_loop (phys ∷ more) child_ino blocks =
      elim (remove_in_block g_block_size g_block_size (blocks phys) child_ino 0 none) [
        | some bbuf ↦ some (phys, bbuf)
        | none ↦ remove_loop more child_ino blocks
      ]

  unfoldable pub alloc_block : Disk → ℕ × Disk
  alloc_block s =
      let (block, volume) =
        ext2_alloc_block (kmalloc_ok s.requests) (kmalloc_ok (s.requests + 1)) s.volume in
      (block, record s { volume = volume; requests = s.requests + 2 })

  unfoldable pub alloc_inode : Disk → ℕ × Disk
  alloc_inode s =
      let (ino, volume) =
        ext2_alloc_inode (kmalloc_ok s.requests) (kmalloc_ok (s.requests + 1)) s.volume in
      (ino, record s { volume = volume; requests = s.requests + 2 })

  pub free_block : (block : ℕ) → Disk → Disk
  free_block block s = record s {
    volume = ext2_free_block (kmalloc_ok s.requests) (kmalloc_ok (s.requests + 1)) block s.volume;
    requests = s.requests + 2;
  }

  pub free_inode : (ino : ℕ) → Disk → Disk
  free_inode ino s = record s {
    volume = ext2_free_inode (kmalloc_ok s.requests) (kmalloc_ok (s.requests + 1)) ino s.volume;
    requests = s.requests + 2;
  }

  -- The block of a directory that has one entry only.
  pub new_dir_block : (child_ino : ℕ) → (name : List ℕ) → (file_type : ℕ) → Buffer
  new_dir_block child_ino name file_type =
      let namelen = length name % 256 in
      let new : Dirent = record {
        inode = child_ino;
        rec_len = g_block_size % 65536;
        name_len = namelen;
        file_type = file_type;
        name = take namelen name;
      } in
      copy_in (λ i. 0) 0 (dirent_bytes new)

  -- A directory with one block more.
  pub with_block : Inode → (slot new_block : ℕ) → Inode
  with_block inode slot new_block = record inode {
    i_size = (inode.i_size + g_block_size) % u32;
    i_blocks = (inode.i_blocks + g_block_size / blkdev_sector_size) % u32;
    i_block = update inode.i_block slot new_block;
  }

  -- Whether it returns 0, and the device.
  unfoldable pub ext2_dir_add_entry :
      (dir_ino child_ino : ℕ) → (name : List ℕ) → (file_type : ℕ) → Disk → Bool × Disk
  ext2_dir_add_entry dir_ino child_ino name file_type s =
      let inode = s.inodes dir_ino in
      let asked = record s { requests = s.requests + 1 } in
      let (new_block, s2) = alloc_block asked in
      let grown : Bool × Disk = elim (empty_index 12 0 inode.i_block) [
        | none ↦ (false, free_block new_block s2)
        | some slot ↦ (
          true,
          record s2 {
            blocks = update s2.blocks new_block (new_dir_block child_ino name file_type);
            inodes = update s2.inodes dir_ino (with_block inode slot new_block);
          },
        )
      ] in
      if not (kmalloc_ok s.requests)
      then (false, asked)
      else elim (add_loop (direct_blocks 12 0 inode.i_block) child_ino name file_type s.blocks) [
        | some (phys, bbuf) ↦ (true, record asked { blocks = update s.blocks phys bbuf })
        | none ↦ if new_block == 0 then (false, s2) else grown
      ]

  pub ext2_dir_remove_entry : (dir_ino child_ino : ℕ) → Disk → Bool × Disk
  ext2_dir_remove_entry dir_ino child_ino s =
      let asked = record s { requests = s.requests + 1 } in
      if not (kmalloc_ok s.requests)
      then (false, asked)
      else elim (remove_loop (direct_blocks 12 0 (s.inodes dir_ino).i_block) child_ino s.blocks) [
        | some (phys, bbuf) ↦ (true, record asked { blocks = update s.blocks phys bbuf })
        | none ↦ (false, asked)
      ]
