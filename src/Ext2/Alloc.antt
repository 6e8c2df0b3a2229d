-- ===== src/Ext2/Alloc.antt =====
-- The allocation of blocks and inodes, src/fs/ext2.c: the bitmaps of the groups and the counts of what is free.
pub mod Search
pub mod RoundTrip
use luminary.Base.{
  ℕ, zero, suc, ◌+◌, ◌-◌, ◌*◌, ◌/◌, ◌%◌, ◌^◌, Bool, true, false, not, Option, none, some, ltb, leb,
  ◌==◌, if◌then◌else◌, update,
}

abbrev pub u32 : ℕ
u32 = 2 ^ 32

-- `struct ext2_bgd`
pub record Bgd : Type 0 where
  pub bg_block_bitmap : ℕ
  pub bg_inode_bitmap : ℕ
  pub bg_free_blocks_count : ℕ
  pub bg_free_inodes_count : ℕ

-- `struct ext2_superblock`, as it is on the device.
pub record Superblock : Type 0 where
  pub s_blocks_count : ℕ
  pub s_blocks_per_group : ℕ
  pub s_first_data_block : ℕ
  pub s_free_blocks_count : ℕ
  pub s_free_inodes_count : ℕ

-- The statics, the superblock, the bits of each bitmap block, and the group descriptors on the device.
pub record Volume : Type 0 where
  pub g_bg_count : ℕ
  pub g_inodes_per_group : ℕ
  pub g_bgds : ℕ → Bgd
  pub sb : Superblock
  pub bits : ℕ → ℕ → Bool
  pub disk_bgds : ℕ → Bgd

-- The first clear bit of `left` bits from one on.
unfoldable pub first_clear : (left i : ℕ) → (ℕ → Bool) → Option ℕ
first_clear zero i bitmap = none
first_clear (suc left) i bitmap =
    let later = first_clear left (i + 1) bitmap in if not (bitmap i) then some i else later

-- `blocks_in_group`
abbrev pub blocks_in_group : Superblock → (g : ℕ) → ℕ
blocks_in_group sb g =
    let remaining = (sb.s_blocks_count + u32 - g * sb.s_blocks_per_group % u32) % u32 in
    if ltb remaining sb.s_blocks_per_group then remaining else sb.s_blocks_per_group

-- The group and the bit that a search finds in groups with free entries, of `left` groups from one on.
unfoldable pub find_in :
    (free limit bitmap_of : ℕ → ℕ) → (ℕ → ℕ → Bool) → (left g : ℕ) → Option (ℕ × ℕ)
unfolding first_clear
find_in free limit bitmap_of bits zero g = none
find_in free limit bitmap_of bits (suc left) g =
    let later = find_in free limit bitmap_of bits left (g + 1) in
    elim (first_clear (limit g) 0 (bits (bitmap_of g))) [
      | none ↦ later
      | some i ↦ if free g == 0 then later else some (g, i)
    ]

abbrev pub find_block : Volume → Option (ℕ × ℕ)
find_block v =
    find_in (λ g. (v.g_bgds g).bg_free_blocks_count) (blocks_in_group v.sb)
      (λ g. (v.g_bgds g).bg_block_bitmap) v.bits v.g_bg_count 0

abbrev pub find_inode : Volume → Option (ℕ × ℕ)
find_inode v =
    find_in (λ g. (v.g_bgds g).bg_free_inodes_count) (λ g. v.g_inodes_per_group)
      (λ g. (v.g_bgds g).bg_inode_bitmap) v.bits v.g_bg_count 0

-- A bit of a bitmap block.
abbrev pub set_bit : (ℕ → ℕ → Bool) → (block i : ℕ) → Bool → ℕ → ℕ → Bool
set_bit bits block i b = update bits block (update (bits block) i b)

-- The descriptor of a group, written back to the device if there is memory for the table.
abbrev pub put_bgd : (table_ok : Bool) → (g : ℕ) → Bgd → Volume → Volume
put_bgd table_ok g d v =
    let bgds = update v.g_bgds g d in
    record v { g_bgds = bgds; disk_bgds = if table_ok then bgds else v.disk_bgds }

-- `if (count > 0) count--`
abbrev pub one_less : ℕ → ℕ
one_less count = count - 1

-- `bitmap_ok` and `table_ok` tell whether kmalloc gives memory for the bitmap and for the table; 0 is the failure.
unfoldable pub ext2_alloc_block : (bitmap_ok table_ok : Bool) → Volume → ℕ × Volume
unfolding find_in
ext2_alloc_block bitmap_ok table_ok v = if not bitmap_ok then (0, v) else elim (find_block v) [
  | none ↦ (0, v)
  | some (g, i) ↦
      let d = v.g_bgds g in
      let put =
        put_bgd table_ok g (record d { bg_free_blocks_count = d.bg_free_blocks_count - 1 }) v in
      (
        (g * v.sb.s_blocks_per_group + i + v.sb.s_first_data_block) % u32,
        record put {
          bits = set_bit v.bits d.bg_block_bitmap i true;
          sb = record v.sb { s_free_blocks_count = one_less v.sb.s_free_blocks_count };
        },
      )
]

unfoldable pub ext2_alloc_inode : (bitmap_ok table_ok : Bool) → Volume → ℕ × Volume
unfolding find_in
ext2_alloc_inode bitmap_ok table_ok v = if not bitmap_ok then (0, v) else elim (find_inode v) [
  | none ↦ (0, v)
  | some (g, i) ↦
      let d = v.g_bgds g in
      let put =
        put_bgd table_ok g (record d { bg_free_inodes_count = d.bg_free_inodes_count - 1 }) v in
      (
        (g * v.g_inodes_per_group + i + 1) % u32,
        record put {
          bits = set_bit v.bits d.bg_inode_bitmap i true;
          sb = record v.sb { s_free_inodes_count = one_less v.sb.s_free_inodes_count };
        },
      )
]

pub ext2_free_block : (bitmap_ok table_ok : Bool) → (block_no : ℕ) → Volume → Volume
ext2_free_block bitmap_ok table_ok block_no v =
    let at = (block_no + u32 - v.sb.s_first_data_block) % u32 in
    let group = at / v.sb.s_blocks_per_group in
    let idx = at % v.sb.s_blocks_per_group in
    let d = v.g_bgds group in
    let put =
      put_bgd table_ok group
        (record d { bg_free_blocks_count = (d.bg_free_blocks_count + 1) % 65536 }) v in
    if block_no == 0
    then v
    else if leb v.g_bg_count group
    then v
    else if not bitmap_ok
    then v
    else record put {
      bits = set_bit v.bits d.bg_block_bitmap idx false;
      sb = record v.sb { s_free_blocks_count = (v.sb.s_free_blocks_count + 1) % u32 };
    }

pub ext2_free_inode : (bitmap_ok table_ok : Bool) → (ino : ℕ) → Volume → Volume
ext2_free_inode bitmap_ok table_ok ino v =
    let at = (ino + u32 - 1) % u32 in
    let group = at / v.g_inodes_per_group in
    let idx = at % v.g_inodes_per_group in
    let d = v.g_bgds group in
    let put =
      put_bgd table_ok group
        (record d { bg_free_inodes_count = (d.bg_free_inodes_count + 1) % 65536 }) v in
    if ino == 0
    then v
    else if leb v.g_bg_count group
    then v
    else if not bitmap_ok
    then v
    else record put {
      bits = set_bit v.bits d.bg_inode_bitmap idx false;
      sb = record v.sb { s_free_inodes_count = (v.sb.s_free_inodes_count + 1) % u32 };
    }
