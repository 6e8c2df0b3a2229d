-- ===== src/Ext2/Disk/Files.antt =====
-- ext2_create, ext2_mkdir_op and ext2_unlink of src/fs/ext2.c, and the freeing of a file's blocks. The nodes
-- of the tree are the caller's: an operation takes what it reads of them and returns the inode of the node
-- that it makes.
pub mod Lifecycle
use luminary.Base.{
  ℕ, zero, suc, ◌+◌, ◌-◌, ◌*◌, ◌/◌, ◌%◌, Bool, true, false, not, ◌&&◌, Option, none, some, List, [],
  ◌∷◌, ◌==◌, if◌then◌else◌, update,
}
use luminary.Vfs.File.{copy_in}
use luminary.Ext2.{Inode, blkdev_sector_size}
use luminary.Ext2.Dir.{Buffer, Dirent, le32, dirent_bytes}
use luminary.Ext2.Disk.{
  Slot, Disk, alloc_block, alloc_inode, free_block, free_inode, ext2_dir_add_entry,
  ext2_dir_remove_entry,
}

abbrev pub ext2_imode_file : ℕ
ext2_imode_file = 0x8000

abbrev pub ext2_imode_dir : ℕ
ext2_imode_dir = 0x4000

-- An inode after `memset`.
abbrev pub zero_inode : Inode
zero_inode = record {
  i_mode = 0;
  i_size = 0;
  i_dtime = 0;
  i_links_count = 0;
  i_blocks = 0;
  i_block = λ i. 0;
}

-- The pointers of an indirect block.
pub pointers_of : (left i : ℕ) → Buffer → List ℕ
pointers_of zero i buf = []
pointers_of (suc left) i buf = le32 buf (4 * i) ∷ pointers_of left (i + 1) buf

unfoldable pub write_inode : (ino : ℕ) → Inode → Disk → Disk
write_inode ino inode s = record s { inodes = update s.inodes ino inode }

-- The slot of an open file gets the inode.
pub sync_slot : (ino : ℕ) → Inode → List Slot → List Slot
sync_slot ino inode [] = []
sync_slot ino inode (s ∷ more) =
    let rest = sync_slot ino inode more in
    if s.used && (s.ino == ino) then record s { inode = inode } ∷ more else s ∷ rest

pub release_slot : (ino : ℕ) → List Slot → List Slot
release_slot ino [] = []
release_slot ino (s ∷ more) =
    let rest = release_slot ino more in
    if s.used && (s.ino == ino) then record s { used = false } ∷ more else s ∷ rest

-- The slots with one taken, none when all are in use.
unfoldable pub ext2_alloc_slot : (ino : ℕ) → Inode → List Slot → Option (List Slot)
ext2_alloc_slot ino inode [] = none
ext2_alloc_slot ino inode (s ∷ more) =
    let taken : Slot = record { used = true; ino = ino; inode = inode } in
    let rest : Option (List Slot) = elim (ext2_alloc_slot ino inode more) [
      | none ↦ none
      | some later ↦ some (s ∷ later)
    ] in
    if not s.used then some (taken ∷ more) else rest

module _ (g_block_size : ℕ) (kmalloc_ok : ℕ → Bool) where
  -- The first blocks of an inode, each freed and its pointer cleared.
  pub free_direct : (left bi : ℕ) → (i_block : ℕ → ℕ) → Disk → (ℕ → ℕ) × Disk
  free_direct zero bi i_block s = (i_block, s)
  free_direct (suc left) bi i_block s =
      let next : (ℕ → ℕ) × Disk =
        (if i_block bi == 0
          then (i_block, s)
          else (update i_block bi 0, free_block g_block_size kmalloc_ok (i_block bi) s)) in
      let (cleared, freed) = next in free_direct left (bi + 1) cleared freed

  pub free_listed : List ℕ → Disk → Disk
  free_listed [] s = s
  free_listed (p ∷ ps) s =
      free_listed ps (if p == 0 then s else free_block g_block_size kmalloc_ok p s)

  pub free_listed2 : (l2_ok : Bool) → List ℕ → Disk → Disk
  free_listed2 l2_ok [] s = s
  free_listed2 l2_ok (p ∷ ps) s =
      let below =
        (if l2_ok then free_listed (pointers_of (g_block_size / 4) 0 (s.blocks p)) s else s) in
      free_listed2 l2_ok ps (if p == 0 then s else free_block g_block_size kmalloc_ok p below)

  pub free_indirect : (ibuf_ok : Bool) → (block : ℕ) → Disk → Disk
  free_indirect ibuf_ok block s =
      let below =
        (if ibuf_ok
          then free_listed (pointers_of (g_block_size / 4) 0 (s.blocks block)) s
          else s) in
      free_block g_block_size kmalloc_ok block below

  pub free_indirect2 : (ibuf_ok : Bool) → (block : ℕ) → Disk → Disk
  free_indirect2 ibuf_ok block s =
      let asked = record s { requests = s.requests + 1 } in
      let below =
        (if ibuf_ok
          then free_listed2 (kmalloc_ok s.requests)
              (pointers_of (g_block_size / 4) 0 (s.blocks block)) asked
          else asked) in
      free_block g_block_size kmalloc_ok block below

  pub ext2_free_inode_blocks : Inode → Disk → Inode × Disk
  ext2_free_inode_blocks inode s =
      let ibuf_ok = kmalloc_ok s.requests in
      let (b, s1) = free_direct 12 0 inode.i_block (record s { requests = s.requests + 1 }) in
      let once : (ℕ → ℕ) × Disk =
        (if b 12 == 0 then (b, s1) else (update b 12 0, free_indirect ibuf_ok (b 12) s1)) in
      let (b', s2) = once in
      let twice : (ℕ → ℕ) × Disk =
        (if b' 13 == 0 then (b', s2) else (update b' 13 0, free_indirect2 ibuf_ok (b' 13) s2)) in
      let (b'', s3) = twice in (record inode { i_blocks = 0; i_block = b'' }, s3)

  -- Whether it returns 0, and the device.
  pub ext2_unlink : (parent_ino ino : ℕ) → Disk → Bool × Disk
  ext2_unlink parent_ino ino s =
      let (gone, s1) = ext2_dir_remove_entry g_block_size kmalloc_ok parent_ino ino s in
      let inode = record (s1.inodes ino) { i_links_count = (s1.inodes ino).i_links_count - 1 } in
      let (freed, s2) = ext2_free_inode_blocks inode s1 in
      let dead = record freed { i_size = 0; i_dtime = 1 } in
      let written =
        (if inode.i_links_count == 0
          then free_inode g_block_size kmalloc_ok ino (write_inode ino dead s2)
          else write_inode ino inode s1) in
      if not gone
      then (false, s1)
      else (true, record written { slots = release_slot ino written.slots })

  -- `existing` is the inode of the child of that name that is no directory; `node_ok` whether there is
  -- memory for a node.
  unfoldable pub ext2_create :
      (node_ok : Bool)
      → (parent_ino : ℕ) → (existing : Option ℕ) → (name : List ℕ) → Disk
      → Option ℕ × Disk
  ext2_create node_ok parent_ino (some ino) name s =
      let (freed, s1) = ext2_free_inode_blocks (s.inodes ino) s in
      let inode = record freed { i_size = 0 } in
      (some ino, record (write_inode ino inode s1) { slots = sync_slot ino inode s1.slots })
  ext2_create node_ok parent_ino none name s =
      let (ino, s1) = alloc_inode g_block_size kmalloc_ok s in
      let inode = record zero_inode { i_mode = ext2_imode_file + 420; i_links_count = 1 } in
      let (entered, s2) =
        ext2_dir_add_entry g_block_size kmalloc_ok parent_ino ino name 1
          (write_inode ino inode s1) in
      let made : Option ℕ × Disk = elim (ext2_alloc_slot ino inode s2.slots) [
        | none ↦ (none, s2)
        | some slots ↦ (some ino, record s2 { slots = slots })
      ] in
      if ino == 0
      then (none, s1)
      else if not entered
      then (none, free_inode g_block_size kmalloc_ok ino s2)
      else if not node_ok
      then (none, s2)
      else made

  -- The entries "." and "..".
  pub dir_block : (ino parent_ino : ℕ) → Buffer
  dir_block ino parent_ino =
      let dot : Dirent = record {
        inode = ino;
        rec_len = 12;
        name_len = 1;
        file_type = 2;
        name = 46 ∷ [];
      } in
      let dotdot : Dirent = record {
        inode = parent_ino;
        rec_len = (g_block_size - 12) % 65536;
        name_len = 2;
        file_type = 2;
        name = 46 ∷ 46 ∷ [];
      } in
      copy_in (copy_in (λ i. 0) 0 (dirent_bytes dot)) 12 (dirent_bytes dotdot)

  pub dir_inode : (block : ℕ) → Inode
  dir_inode block = record {
    i_mode = ext2_imode_dir + 493;
    i_size = g_block_size;
    i_dtime = 0;
    i_links_count = 2;
    i_blocks = g_block_size / blkdev_sector_size;
    i_block = update (λ i. 0) 0 block;
  }

  pub one_link_more : Inode → Inode
  one_link_more inode = record inode { i_links_count = (inode.i_links_count + 1) % 65536 }

  pub ext2_mkdir_op : (node_ok : Bool) → (parent_ino : ℕ) → (name : List ℕ) → Disk → Option ℕ × Disk
  ext2_mkdir_op node_ok parent_ino name s =
      let (ino, s1) = alloc_inode g_block_size kmalloc_ok s in
      let (block, s2) = alloc_block g_block_size kmalloc_ok s1 in
      let asked = record s2 { requests = s2.requests + 1 } in
      let s3 = record asked {
        blocks = update asked.blocks block (dir_block ino parent_ino);
        inodes = update asked.inodes ino (dir_inode block);
      } in
      let (entered, s4) = ext2_dir_add_entry g_block_size kmalloc_ok parent_ino ino name 2 s3 in
      let s5 = write_inode parent_ino (one_link_more (s4.inodes parent_ino)) s4 in
      let undo = λ (s' : Disk).
        free_inode g_block_size kmalloc_ok ino (free_block g_block_size kmalloc_ok block s') in
      if ino == 0
      then (none, s1)
      else if block == 0
      then (none, free_inode g_block_size kmalloc_ok ino s2)
      else if not (kmalloc_ok s2.requests)
      then (none, undo asked)
      else if not entered
      then (none, undo s4)
      else (if node_ok then some ino else none, s5)
