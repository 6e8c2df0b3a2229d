-- ===== src/Vfs.antt =====
-- The virtual file system, src/kernel/vfs.c: nodes here, paths in Path, the contents of files in
-- File, the tree in Tree.
pub mod Path
pub mod File
pub mod Tree
pub mod Mount
pub mod Tmpfs
mod Tests
use luminary.Base.{ℕ, ◌/◌, ◌%◌, ◌^◌, Bool, Option, List, ◌==◌}

-- A C string is the list of its bytes before the NUL.
abbrev pub Bytes : Type 0
Bytes = List ℕ

abbrev pub vfs_path_max : ℕ
vfs_path_max = 256

abbrev pub vfs_name_max : ℕ
vfs_name_max = 128

abbrev pub u32 : ℕ
u32 = 2 ^ 32

-- The chain of `children` and `sibling` pointers is the list of the children; a node and a
-- driver are numbers, and `none` is NULL. A data buffer is a function of the offset. What a device
-- driver does is behind its operations.
pub record Node : Type 0 where
  pub name : Bytes
  pub inode : ℕ
  pub size : ℕ
  pub flags : ℕ
  pub buffer : Option (ℕ → ℕ)
  pub writable : Bool
  pub readonly : Bool
  pub heap_alloc : Bool
  pub buf_cap : ℕ
  pub read_op : Option ((offset len : ℕ) → ℕ × Bytes)
  pub write_op : Option ((offset : ℕ) → Bytes → ℕ)
  pub mounted_root : Option ℕ
  pub fs : Option ℕ
  pub children : List ℕ
  pub parent : Option ℕ

-- The tests of `flags` by VFS_FILE, VFS_DIR and VFS_CHARDEV.
abbrev pub is_file : Node → Bool
is_file n = n.flags % 2 == 1

abbrev pub is_dir : Node → Bool
is_dir n = n.flags / 2 % 2 == 1

abbrev pub is_chardev : Node → Bool
is_chardev n = n.flags / 4 % 2 == 1
