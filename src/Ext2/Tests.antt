-- ===== src/Ext2/Tests.antt =====
-- The ext2 driver at a concrete disk: the witnesses.
use luminary.Base.{
  ◌&&◌, if◌then◌else◌, ◌==◌, ℕ, ◌+◌, ◌/◌, ◌%◌, ◌<◌, ◌≡◌, refl, inl, true, Bool, none, some, arith,
  ltb,
}
use luminary.Ext2.Alloc.{Volume, ext2_alloc_block, ext2_free_block}
use luminary.Ext2.Alloc.RoundTrip.{SameFree, IsFirstFree, free-alloc_block}
use luminary.Ext2.{Inode, Table, IndCache, ext2_file_block, ext2_blk_lookup, ext2_do_read}
use luminary.Ext2.Cache.{IsCoherent, ext2_blk_lookup-ext2_file_block}
use luminary.Ext2.Bytes.{block_of, file_bytes, IsReadable}
use luminary.Ext2.Read.{ext2_do_read_lem}

-- A disk whose bytes count up, and a file of 3000 bytes in the blocks from 5 on.
abbrev disk : ℕ → ℕ
disk a = a % 256

abbrev file : Inode
file = record {
  i_mode = 0x81a4;
  i_size = 3000;
  i_dtime = 0;
  i_links_count = 1;
  i_blocks = 6;
  i_block = λ i. i + 5;
}

abbrev empty : Table
empty = record { buf = none; phys = 0 }

abbrev empty_cache : IndCache
empty_cache = record { ind1 = empty; ind2l1 = empty; ind2l2 = empty; asked = 0 }

abbrev pub always : ℕ → Bool
always n = true

empty-IsCoherent : IsCoherent disk 1024 empty_cache
empty-IsCoherent = record { ind1 = inl refl; ind2l1 = inl refl; ind2l2 = inl refl }

-- Block 20 is singly indirect.
ext2_blk_lookup-ext2_file_block_example :
    let (phys, c') = ext2_blk_lookup disk 1024 always file empty_cache 20 in
    (phys ≡ ext2_file_block disk 1024 true file 20) × IsCoherent disk 1024 c'
ext2_blk_lookup-ext2_file_block_example =
    ext2_blk_lookup-ext2_file_block disk 1024 always (λ n. refl) file empty_cache 20
      empty-IsCoherent (omega arith)

direct : (p : ℕ) → p < 3000 → (block_of disk 1024 file (p / 1024) ≡ p / 1024 + 5) × (p / 1024 < 3)
unfolding ext2_file_block
direct p inside =
    let near : p / 1024 < 3 = omega arith in
    let first : ltb (p / 1024) 12 ≡ true = ground (arith, near) in
    (rw (ext2_file_block, first) refl, near)

file-IsReadable : IsReadable disk 1024 file
file-IsReadable = record {
  sectors = 2;
  whole = refl;
  some_bytes = omega arith;
  small = omega arith;
  size = omega arith;
  there = λ p inside. (let d = direct p inside in omega (arith, d));
  near = λ p inside. (let d = direct p inside in omega (arith, d));
  mapped = λ p inside. (let d = direct p inside in omega (arith, d));
}

ext2_do_read_lem_example :
    ext2_do_read disk 1024 always (some (λ i. 0)) file 1000 5000
    ≡ (2000, file_bytes disk 1024 file 1000 2000)
ext2_do_read_lem_example =
    ext2_do_read_lem disk 1024 always (λ n. refl) file 1000 5000 (λ i. 0) file-IsReadable
      (omega arith)

-- One group of 100 blocks, of which the first 50 are in use.
abbrev pub volume : Volume
volume = record {
  g_bg_count = 1;
  g_inodes_per_group = 32;
  g_bgds = λ g. record {
    bg_block_bitmap = 3;
    bg_inode_bitmap = 4;
    bg_free_blocks_count = 49;
    bg_free_inodes_count = 20;
  };
  sb = record {
    s_blocks_count = 100;
    s_blocks_per_group = 8192;
    s_first_data_block = 1;
    s_free_blocks_count = 49;
    s_free_inodes_count = 20;
  };
  bits = λ block i. ltb i 50;
  disk_bgds = λ g. record {
    bg_block_bitmap = 3;
    bg_inode_bitmap = 4;
    bg_free_blocks_count = 49;
    bg_free_inodes_count = 20;
  };
}

volume-IsFirstFree : IsFirstFree volume 0 50
volume-IsFirstFree = record {
  group = omega arith;
  counted = λ e. ground (arith, e);
  inside = omega arith;
  clear = refl;
  before = λ j below. ground (arith, below);
  full = λ h below. absurd (omega (arith, below));
}

free-alloc_block_example :
    let (block_no, v') = ext2_alloc_block true true volume in
    (block_no ≡ 51)
    × ((b j : ℕ) → v'.bits b j ≡ (if b == 3 && j == 50 then true else volume.bits b j))
    × ((v'.g_bgds 0).bg_free_blocks_count + 1 ≡ 49)
    × (v'.sb.s_free_blocks_count + 1 ≡ 49)
    × SameFree (ext2_free_block true true block_no v') volume
free-alloc_block_example =
    free-alloc_block volume 0 50 (omega arith) volume-IsFirstFree (omega arith)
      (λ e. ground (arith, e)) (omega arith) (omega arith) (omega arith)
