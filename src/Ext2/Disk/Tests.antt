-- ===== src/Ext2/Disk/Tests.antt =====
-- Directories and files of src/fs/ext2.c at a concrete device: the witnesses.
use luminary.Base.{
  ℕ, ◌+◌, ◌<◌, ◌≤◌, ◌⊎◌, ◌∷◌, [], List, ◌≡◌, refl, true, none, some, arith, ltb, ◌==◌,
  if◌then◌else◌, ◌≢◌, false,
}
use luminary.Vfs.File.{copy_in, copy_out}
use luminary.Ext2.Dir.{
  Dirent, dirent_at, dirent_bytes, entry_size, add_in_block, last_entry, remove_in_block,
}
use luminary.Ext2.Dir.Tiles.{Tiles}
use luminary.Ext2.Dir.Add.{shrunk, slack_of, added, add_in_block_lem}
use luminary.Ext2.Dir.Remove.{merged, removed, removed_behind, Leaves, remove_in_block_refines}
use luminary.Ext2.Alloc.{first_clear, find_in, find_inode, ext2_alloc_block, ext2_alloc_inode}
use luminary.Ext2.Disk.{
  Disk, alloc_inode, direct_blocks, empty_index, add_loop, alloc_block, ext2_dir_add_entry,
}
use luminary.Ext2.Disk.Files.{ext2_create, ext2_unlink, ext2_alloc_slot, write_inode}
use luminary.Ext2.Disk.Files.Lifecycle.{with_inode, dead_inode, ext2_unlink-ext2_create}
use luminary.Ext2.Disk.RoundTrip.{IsDirectory, children}
use luminary.Ext2.{Inode}
use luminary.Ext2.Tests.{always, volume}

-- The block that ext2_mkdir_op writes for directory 11 below directory 2.
abbrev dot : Dirent
dot = record { inode = 11; rec_len = 12; name_len = 1; file_type = 2; name = 46 ∷ [] }

abbrev dotdot : Dirent
dotdot = record { inode = 2; rec_len = 1012; name_len = 2; file_type = 2; name = 46 ∷ 46 ∷ [] }

abbrev empty_dir : ℕ → ℕ
empty_dir = copy_in (copy_in (λ i. 0) 0 (dirent_bytes dot)) 12 (dirent_bytes dotdot)

empty_dir-Tiles : Tiles empty_dir 0 (dot ∷ dotdot ∷ []) 1024
unfolding dirent_at copy_in copy_out
empty_dir-Tiles = (refl, omega arith, (refl, omega arith, refl))

abbrev file_name : List ℕ
file_name = 97 ∷ 46 ∷ 99 ∷ []

add_in_block_lem_example :
    ((entry_size 3 ≤ slack_of dotdot)
      × ((buf' : ℕ → ℕ) × (add_in_block 1024 empty_dir 12 file_name 1 ≡ some buf')
          × Tiles buf' 0 (dot ∷ shrunk dotdot ∷ added dotdot 12 file_name 1 ∷ []) 1024
          × ((i : ℕ) → 1024 ≤ i → buf' i ≡ empty_dir i)))
    ⊎ ((slack_of dotdot < entry_size 3) × (add_in_block 1024 empty_dir 12 file_name 1 ≡ none))
add_in_block_lem_example =
    add_in_block_lem 1024 empty_dir 12 file_name 1 (dot ∷ []) dotdot empty_dir-Tiles (omega arith)
      (omega arith) (omega arith)

remove_in_block_refines_example :
    Leaves 1024 empty_dir 0
      (some (merged dot dotdot ∷ []))
      (remove_in_block 1024 1024 empty_dir 2 0 none)
unfolding removed removed_behind
remove_in_block_refines_example =
    remove_in_block_refines 1024 2 (omega arith) empty_dir (dot ∷ dotdot ∷ []) empty_dir-Tiles

-- Directory 2, in block 60.
abbrev dir : Inode
dir = record {
  i_mode = 0x41ed;
  i_size = 1024;
  i_dtime = 0;
  i_links_count = 2;
  i_blocks = 2;
  i_block = λ i. if i == 0 then 60 else 0;
}

abbrev device : Disk
device = record {
  volume = volume;
  inodes = λ i. dir;
  blocks = λ i. empty_dir;
  slots = [];
  requests = 0;
}

dir-IsDirectory : IsDirectory 1024 dir.i_block device.blocks ((dot ∷ dotdot ∷ []) ∷ [])
unfolding direct_blocks empty_index
dir-IsDirectory = record {
  apart = (tt, tt);
  holds = (empty_dir-Tiles, tt);
  tight =
      λ slot found i above below. let off : (i == 0) ≡ false = ground (arith, above) in rw off refl;
}

-- With free inodes, and a slot for a file that is open.
abbrev roomy : Disk
roomy = record device {
  volume = record volume { bits = λ block i. ltb i (if block == 3 then 50 else 11) };
  slots = record { used = false; ino = 0; inode = dir } ∷ [];
}

roomy_found : find_inode roomy.volume ≡ some (0, 11)
unfolding find_in first_clear
roomy_found = refl

roomy_ino : (alloc_inode 1024 always roomy).0 ≡ 12
unfolding alloc_inode ext2_alloc_inode
roomy_ino = refl

roomy_made :
    (ext2_create 1024 always true 2 none file_name roomy).0 ≡ some (alloc_inode 1024 always roomy).0
unfolding ext2_create ext2_alloc_slot ext2_dir_add_entry add_loop direct_blocks add_in_block
    last_entry dirent_at copy_in copy_out alloc_inode write_inode ext2_alloc_inode find_in
    first_clear
roomy_made = refl

roomy_other :
    (alloc_block 1024 always (record (with_inode 1024 always roomy) {
      requests = (with_inode 1024 always roomy).requests + 1;
    })).0
    ≢ 60
unfolding alloc_block alloc_inode write_inode ext2_alloc_inode ext2_alloc_block find_in first_clear
roomy_other e = absurd (omega (arith, e))

ext2_unlink-ext2_create_example :
    let ino = (alloc_inode 1024 always roomy).0 in
    let (gone, s') =
      ext2_unlink 1024 always 2 ino (ext2_create 1024 always true 2 none file_name roomy).1 in
    (gone ≡ true)
    × (children 1024 always 2 s' ≡ children 1024 always 2 roomy)
    × (s'.inodes ino ≡ dead_inode)
unfolding direct_blocks alloc_inode ext2_alloc_inode find_in first_clear
ext2_unlink-ext2_create_example =
    ext2_unlink-ext2_create 1024 always true 2 file_name roomy ((dot ∷ dotdot ∷ []) ∷ [])
      (λ n. refl) (omega arith) (omega arith) (omega arith) (omega (arith, roomy_ino))
      (λ e. absurd (omega (arith, e, roomy_ino))) dir-IsDirectory ((refl, (refl, tt)), tt)
      (roomy_other, tt) roomy_made
