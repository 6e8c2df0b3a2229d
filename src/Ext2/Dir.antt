-- ===== src/Ext2/Dir.antt =====
-- The blocks of a directory, src/fs/ext2.c: the entries in the bytes of a block, and what ext2_dir_add_entry and
-- ext2_dir_remove_entry do to one block. Ext2/Disk has their loops over the blocks.
pub mod Tiles
pub mod Store
pub mod Add
pub mod Remove
pub mod RoundTrip
use luminary.Base.{
  ℕ, zero, suc, ◌+◌, ◌-◌, ◌*◌, ◌/◌, ◌%◌, ◌^◌, Bool, true, false, not, ◌&&◌, ◌||◌, Option, none,
  some, List, [], ◌∷◌, ◌++◌, length, take, ltb, leb, ◌==◌, if◌then◌else◌, update,
}
use luminary.Vfs.{u32}
use luminary.Vfs.File.{copy_out, copy_in}
use luminary.Ext2.{blkdev_sector_size}
use luminary.Ext2.Alloc.{Volume, ext2_alloc_block, ext2_free_block}

abbrev pub Buffer : Type 0
Buffer = ℕ → ℕ

-- `struct ext2_dirent`, with the `name_len` bytes of the name.
pub record Dirent : Type 0 where
  pub inode : ℕ
  pub rec_len : ℕ
  pub name_len : ℕ
  pub file_type : ℕ
  pub name : List ℕ

abbrev pub le16 : Buffer → ℕ → ℕ
le16 buf i = buf i + 256 * buf (i + 1)

abbrev pub le32 : Buffer → ℕ → ℕ
le32 buf i = le16 buf i + 65536 * le16 buf (i + 2)

-- `(struct ext2_dirent *)(bbuf + pos)`
unfoldable pub dirent_at : Buffer → (pos : ℕ) → Dirent
dirent_at buf pos = record {
  inode = le32 buf pos;
  rec_len = le16 buf (pos + 4);
  name_len = buf (pos + 6);
  file_type = buf (pos + 7);
  name = copy_out buf (pos + 8) (buf (pos + 6));
}

abbrev pub bytes16 : ℕ → List ℕ
bytes16 n = n % 256 ∷ n / 256 % 256 ∷ []

abbrev pub bytes32 : ℕ → List ℕ
bytes32 n = n % 256 ∷ n / 256 % 256 ∷ n / 65536 % 256 ∷ n / 16777216 % 256 ∷ []

-- The bytes of an entry, as its fields are stored.
abbrev pub dirent_bytes : Dirent → List ℕ
dirent_bytes e = bytes32 e.inode ++ bytes16 e.rec_len ++ (e.name_len ∷ e.file_type ∷ e.name)

-- `last->rec_len = value`
pub set_rec_len : Buffer → (pos value : ℕ) → Buffer
set_rec_len buf pos value = copy_in buf (pos + 4) (bytes16 value)

-- `(8 + name_len + 3) & ~3u`
abbrev pub entry_size : ℕ → ℕ
entry_size name_len = (8 + name_len + 3) / 4 * 4

module _ (g_block_size : ℕ) where
  -- The loops over the entries of a block end at its end or at a `rec_len` of 0; an entry moves on
  -- by a byte at least, so that as many rounds as bytes are enough.
  pub entries : (rounds : ℕ) → Buffer → (pos : ℕ) → List Dirent
  entries zero buf pos = []
  entries (suc rounds) buf pos =
      let de = dirent_at buf pos in
      let rest = entries rounds buf (pos + de.rec_len) in
      if not (ltb pos g_block_size) then [] else if de.rec_len == 0 then [] else de ∷ rest

  -- Where the last entry of a block starts.
  unfoldable pub last_entry : (rounds : ℕ) → Buffer → (pos : ℕ) → (last : Option ℕ) → Option ℕ
  last_entry zero buf pos last = last
  last_entry (suc rounds) buf pos last =
      let de = dirent_at buf pos in
      let rest = last_entry rounds buf (pos + de.rec_len) (some pos) in
      if not (ltb pos g_block_size) then last else if de.rec_len == 0 then last else rest

  -- The block with an entry in the slack of its last one, if it is large enough.
  unfoldable pub add_in_block :
      Buffer → (child_ino : ℕ) → (name : List ℕ) → (file_type : ℕ) → Option Buffer
  unfolding last_entry
  add_in_block bbuf child_ino name file_type = elim (last_entry g_block_size bbuf 0 none) [
    | none ↦ none
    | some at ↦
        let namelen = length name % 256 in
        let last = dirent_at bbuf at in
        let actual = entry_size last.name_len in
        let slack = (last.rec_len + u32 - actual) % u32 in
        let new : Dirent = record {
          inode = child_ino;
          rec_len = slack % 65536;
          name_len = namelen;
          file_type = file_type;
          name = take namelen name;
        } in
        if leb (entry_size namelen) slack
        then some (copy_in (set_rec_len bbuf at (actual % 65536)) (at + actual) (dirent_bytes new))
        else none
  ]

  -- The search for an entry by its inode, with the one before it; the block without that entry.
  pub remove_in_block :
      (rounds : ℕ) → Buffer → (child_ino pos : ℕ) → (prev : Option ℕ) → Option Buffer
  remove_in_block zero bbuf child_ino pos prev = none
  remove_in_block (suc rounds) bbuf child_ino pos prev =
      let de = dirent_at bbuf pos in
      let rest = remove_in_block rounds bbuf child_ino (pos + de.rec_len) (some pos) in
      let removed : Buffer = elim prev [
        | none ↦ copy_in bbuf pos (bytes32 0)
        | some p ↦ set_rec_len bbuf p (((dirent_at bbuf p).rec_len + de.rec_len) % 65536)
      ] in
      if not (ltb pos g_block_size)
      then none
      else if de.rec_len == 0
      then none
      else if de.inode == child_ino
      then some removed
      else rest
