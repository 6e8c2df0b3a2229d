-- ===== src/Ext2.antt =====
-- The ext2 driver, src/fs/ext2.c: the block map of an inode, and reads.
pub mod Alloc
pub mod Dir
pub mod Cache
pub mod Bytes
pub mod Runs
pub mod Read
pub mod Disk
mod Tests
use luminary.Base.{
  ℕ, zero, suc, ◌+◌, ◌-◌, ◌*◌, ◌/◌, ◌%◌, ◌^◌, Bool, true, false, not, ◌||◌, Option, none, some,
  List, [], ◌++◌, ltb, leb, ◌==◌, if◌then◌else◌,
}
use luminary.Vfs.{u32}
use luminary.Vfs.File.{copy_out}

abbrev pub blkdev_sector_size : ℕ
blkdev_sector_size = 512

abbrev pub ext2_read_run_max : ℕ
ext2_read_run_max = 128

-- The fields of `struct ext2_inode` that the driver uses; the block pointers are a function of the index.
pub record Inode : Type 0 where
  pub i_mode : ℕ
  pub i_size : ℕ
  pub i_dtime : ℕ
  pub i_links_count : ℕ
  pub i_blocks : ℕ
  pub i_block : ℕ → ℕ

-- A buffer for the pointers of one block, and the number of that block.
pub record Table : Type 0 where
  pub buf : Option (ℕ → ℕ)
  pub phys : ℕ

-- `struct ext2_ind_cache` without `ptrs_per_block`, and how often memory was asked for.
pub record IndCache : Type 0 where
  pub ind1 : Table
  pub ind2l1 : Table
  pub ind2l2 : Table
  pub asked : ℕ

-- The bytes that the device holds from its start on, and `g_block_size`.
module _ (disk : ℕ → ℕ) (g_block_size : ℕ) where
  -- The first byte of the sector that a block is read from.
  abbrev pub block_start : ℕ → ℕ
  block_start block_no = block_no * g_block_size % u32 / blkdev_sector_size * blkdev_sector_size

  -- The sectors that are read into `buf`; what was in it stays behind them.
  pub ext2_read_blocks : (block_no run_len : ℕ) → (buf : ℕ → ℕ) → (ℕ → ℕ)
  ext2_read_blocks block_no run_len buf i =
      if ltb i (run_len * g_block_size % u32 / blkdev_sector_size * blkdev_sector_size)
      then disk (block_start block_no + i)
      else buf i

  -- `uint32_t *` over the bytes that `ext2_read_block` reads.
  pub pointers : (block_no : ℕ) → (ℕ → ℕ)
  pointers block_no i =
      let at = block_start block_no + 4 * i in
      disk at + 256 * disk (at + 1) + 65536 * disk (at + 2) + 16777216 * disk (at + 3)

  abbrev pub ptrs_per_block : ℕ
  ptrs_per_block = g_block_size / 4

  -- `memory` says whether `kmalloc` finds a block.
  unfoldable pub ext2_file_block : (memory : Bool) → Inode → (blk_idx : ℕ) → ℕ
  ext2_file_block memory inode blk_idx =
      let in_ind1 = blk_idx - 12 in
      let in_ind2 = in_ind1 - ptrs_per_block in
      if ltb blk_idx 12
      then inode.i_block blk_idx
      else if ltb in_ind1 ptrs_per_block
      then (if inode.i_block 12 == 0
          then 0
          else if memory
          then pointers (inode.i_block 12) in_ind1
          else 0)
      else if ltb in_ind2 (ptrs_per_block * ptrs_per_block)
      then (let l1 = pointers (inode.i_block 13) (in_ind2 / ptrs_per_block) in
          if inode.i_block 13 == 0
          then 0
          else if memory
          then (if l1 == 0 then 0 else pointers l1 (in_ind2 % ptrs_per_block))
          else 0)
      else 0

  -- `kmalloc n` says whether the n-th request is met.
  module _ (kmalloc : ℕ → Bool) where
    -- One level of `ext2_blk_lookup`: the buffer, if there is one, with the table and the requests
    -- made. A table that has the block has a buffer.
    pub load : (ind : ℕ) → Table → (asked : ℕ) → Option (ℕ → ℕ) × Table × ℕ
    load ind t asked =
        let fresh : Table = record { buf = some (pointers ind); phys = ind } in
        if ind == t.phys then (t.buf, t, asked) else elim t.buf [
          | none ↦
              if kmalloc asked
              then (some (pointers ind), fresh, asked + 1)
              else (none, t, asked + 1)
          | some old ↦ (some (pointers ind), fresh, asked)
        ]

    abbrev pub at : Option (ℕ → ℕ) → ℕ → ℕ
    at none i = 0
    at (some buf) i = buf i

    -- The second level of the doubly indirect blocks.
    pub lookup_l2 : (l2 : ℕ) → IndCache → (i : ℕ) → ℕ × IndCache
    lookup_l2 l2 c i =
        let (got, t, asked) = load l2 c.ind2l2 c.asked in
        if l2 == 0 then (0, c) else (at got i, record c { ind2l2 = t; asked = asked })

    -- The doubly indirect blocks of `ext2_blk_lookup`.
    pub lookup_ind2 : (ind : ℕ) → IndCache → (idx : ℕ) → ℕ × IndCache
    lookup_ind2 ind c idx =
        let (got, t, asked) = load ind c.ind2l1 c.asked in
        lookup_l2 (at got (idx / ptrs_per_block)) (record c { ind2l1 = t; asked = asked })
          (idx % ptrs_per_block)

    -- The singly indirect blocks.
    pub lookup_ind1 : (ind : ℕ) → IndCache → (idx : ℕ) → ℕ × IndCache
    lookup_ind1 ind c idx =
        let (got, t, asked) = load ind c.ind1 c.asked in
        (at got idx, record c { ind1 = t; asked = asked })

    pub ext2_blk_lookup : Inode → IndCache → (blk_idx : ℕ) → ℕ × IndCache
    ext2_blk_lookup inode c blk_idx =
        if ltb blk_idx 12
        then (inode.i_block blk_idx, c)
        else if ltb blk_idx (12 + ptrs_per_block)
        then (if inode.i_block 12 == 0
            then (0, c)
            else lookup_ind1 (inode.i_block 12) c (blk_idx - 12))
        else if inode.i_block 13 == 0
        then (0, c)
        else lookup_ind2 (inode.i_block 13) c (blk_idx - 12 - ptrs_per_block)

    -- The scan for consecutive blocks, in at most so many rounds.
    pub scan : (rounds : ℕ) → Inode → IndCache → (blk_idx phys0 run : ℕ) → ℕ × IndCache
    scan zero inode c blk_idx phys0 run = (run, c)
    scan (suc rounds) inode c blk_idx phys0 run =
        let (next, c') = ext2_blk_lookup inode c ((blk_idx + run) % u32) in
        let more = scan rounds inode c' blk_idx phys0 (run + 1) in
        if next == (phys0 + run) % u32 then more else (run, c')

    -- The length of the run to read, at least one block.
    pub run_of : Inode → IndCache → (blk_idx phys0 blk_off left : ℕ) → ℕ × IndCache
    run_of inode c blk_idx phys0 blk_off left =
        let blocks_left = (left + g_block_size - 1) % u32 / g_block_size in
        let max_run =
          if ltb blocks_left ext2_read_run_max then blocks_left else ext2_read_run_max in
        if blk_off == 0 then scan (max_run - 1) inode c blk_idx phys0 1 else (1, c)

    -- The loop of `ext2_do_read`: `out` holds the `done` bytes that were copied, and `rbuf` what was
    -- read last. Each round copies a byte at least, so that as many rounds as bytes are enough.
    pub read_loop :
        (rounds : ℕ)
        → Inode
        → (off len : ℕ) → (done : ℕ) → IndCache
        → (rbuf : ℕ → ℕ) → List ℕ
        → ℕ × List ℕ
    read_loop zero inode off len done c rbuf out = (done, out)
    read_loop (suc rounds) inode off len done c rbuf out =
        let pos = (off + done) % u32 in
        let blk_off = pos % g_block_size in
        let (phys0, c₁) = ext2_blk_lookup inode c (pos / g_block_size) in
        let (run, c₂) = run_of inode c₁ (pos / g_block_size) phys0 blk_off (len - done) in
        let rbuf' = ext2_read_blocks phys0 run rbuf in
        let run_bytes = run * g_block_size - blk_off in
        let to_copy = if ltb run_bytes (len - done) then run_bytes else len - done in
        let rest =
          read_loop rounds inode off len (done + to_copy) c₂ rbuf'
            (out ++ copy_out rbuf' blk_off to_copy) in
        if not (ltb done len) || phys0 == 0 then (done, out) else rest

    abbrev pub no_table : Table
    no_table = record { buf = none; phys = 0 }

    -- `rbuf` is what `kmalloc` returned for the run. The count, with the bytes.
    pub ext2_do_read : (rbuf : Option (ℕ → ℕ)) → Inode → (off len : ℕ) → ℕ × List ℕ
    ext2_do_read rbuf inode off len =
        let len' = if ltb inode.i_size ((off + len) % u32) then inode.i_size - off else len in
        elim rbuf [
          | none ↦ (0, [])
          | some memory ↦
              if leb inode.i_size off
              then (0, [])
              else read_loop len' inode off len' 0
                  (record { ind1 = no_table; ind2l1 = no_table; ind2l2 = no_table; asked = 0 })
                  memory []
        ]
