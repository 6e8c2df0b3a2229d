-- ===== src/Ext2/Runs.antt =====
-- The scan for a run of blocks in `ext2_do_read` of src/fs/ext2.c.
use luminary.Base.{
  ℕ, zero, suc, ◌+◌, ◌-◌, ◌*◌, ◌/◌, ◌%◌, ◌<◌, ◌≤◌, ◌≡◌, ap, sym, ◌∙◌, inl, inr, Bool, true, ltb,
  ◌==◌, if◌then◌else◌, Bool-cases, arith,
}
use native.Mathlib.Nat.{mod-eq_of_lt, mul-le-mul, mul-le-mul_left}
use luminary.Vfs.{u32}
use luminary.Ext2.{
  Inode, IndCache, ext2_read_run_max, ptrs_per_block, ext2_blk_lookup, scan, run_of,
}
use luminary.Ext2.Cache.{IsCoherent, ext2_blk_lookup-ext2_file_block}
use luminary.Ext2.Bytes.{block_of, IsReadable, Runs, more-Runs, last_block}

module _ (disk : ℕ → ℕ) (g_block_size : ℕ) where
  abbrev ppb : ℕ
  ppb = ptrs_per_block disk g_block_size

  abbrev bs : ℕ
  bs = g_block_size

  module _ (kmalloc : ℕ → Bool) (memory : (n : ℕ) → kmalloc n ≡ true) where
    -- The scan stops with the blocks of a run.
    pub scan_lem :
        (rounds : ℕ) (inode : Inode) (c : IndCache) (blk_idx phys0 run : ℕ)
        → IsCoherent disk g_block_size c
        → 0 < run
        → Runs disk g_block_size inode phys0 blk_idx run
        → blk_idx + run + rounds ≤ 12 + ppb + ppb * ppb
        → 12 + ppb + ppb * ppb < u32
        → phys0 + run + rounds < u32
        → let (n, c') = scan disk g_block_size kmalloc rounds inode c blk_idx phys0 run in
          IsCoherent disk g_block_size c'
          × (0 < n)
          × (n ≤ run + rounds)
          × Runs disk g_block_size inode phys0 blk_idx n
    unfolding scan
    scan_lem zero inode c blk_idx phys0 run coherent positive runs room limit near =
        (coherent, positive, omega arith, runs)
    scan_lem (suc rounds) inode c blk_idx phys0 run coherent positive runs room limit near =
        let at : (blk_idx + run) % u32 ≡ blk_idx + run = mod-eq_of_lt (omega arith) in
        let wanted : (phys0 + run) % u32 ≡ phys0 + run = mod-eq_of_lt (omega arith) in
        let (found, coherent') =
          ext2_blk_lookup-ext2_file_block disk g_block_size kmalloc memory inode c (blk_idx + run)
            coherent (omega arith) in
        let r = ext2_blk_lookup disk g_block_size kmalloc inode c (blk_idx + run) in
        elim (Bool-cases (r.0 == phys0 + run)) [
          | inl more ↦
              rw (scan, at, wanted, more)
                (let (kept, some_left, bound, longer) =
                    scan_lem rounds inode r.1 blk_idx phys0 (run + 1) coherent' (omega arith)
                      (more-Runs disk g_block_size inode phys0 blk_idx run runs
                        (sym found ∙ ground (arith, more)))
                      (omega arith) limit (omega arith) in
                  (kept, some_left, omega (arith, bound), longer))
          | inr stop ↦ rw (scan, at, wanted, stop) (coherent', positive, omega arith, runs)
        ]

    pub one_run :
        (inode : Inode) (first : ℕ)
        → Runs disk g_block_size inode (block_of disk g_block_size inode first) first 1
    one_run inode first k below =
        let none : k ≡ 0 = omega arith in
        let here : first + 0 ≡ first = omega arith in
        let same : block_of disk g_block_size inode first
            ≡ block_of disk g_block_size inode first + 0 =
          omega arith in
        rw none (ap (block_of disk g_block_size inode) here ∙ same)

    pub run_of_lem :
        (inode : Inode) (c : IndCache) (pos left : ℕ)
        → IsReadable disk g_block_size inode
        → IsCoherent disk g_block_size c
        → 0 < left
        → pos + left ≤ inode.i_size
        → let (n, c') =
            run_of disk g_block_size kmalloc inode c
              (pos / bs)
              (block_of disk g_block_size inode (pos / bs))
              (pos % bs)
              left in
          IsCoherent disk g_block_size c'
          × (0 < n)
          × (n ≤ 128)
          × Runs disk g_block_size inode (block_of disk g_block_size inode (pos / bs)) (pos / bs) n
    unfolding run_of
    run_of_lem inode c pos left r coherent some_left inside = elim (Bool-cases (pos % bs == 0)) [
      | inr off_border ↦
          rw (run_of, off_border) (coherent, omega arith, omega arith, one_run inode (pos / bs))
      | inl border ↦
          let positive : 0 < bs = omega (arith, r.whole, r.some_bytes) in
          let last =
            last_block disk g_block_size pos left positive some_left (ground (arith, border)) in
          let mapped = r.mapped (pos + (left - 1)) (omega arith) in
          let few : ppb ≤ 16384 = omega (arith, r.small) in
          let square : ppb * ppb ≤ 16384 * 16384 = mul-le-mul few few in
          let near = r.near pos (omega arith) in
          let low : block_of disk g_block_size inode (pos / bs) * 512
              ≤ block_of disk g_block_size inode (pos / bs) * bs =
            mul-le-mul_left (block_of disk g_block_size inode (pos / bs))
              (omega (arith, r.whole, r.some_bytes)) in
          let blocks_left = (left + bs - 1) % u32 / bs in
          let max_run =
            if ltb blocks_left ext2_read_run_max then blocks_left else ext2_read_run_max in
          let fits : (max_run ≤ 128) × (max_run ≤ blocks_left) = (ground arith, ground arith) in
          let first = r.mapped pos (omega arith) in
          let (kept, some_run, bound, runs) =
            scan_lem (max_run - 1) inode c (pos / bs) (block_of disk g_block_size inode (pos / bs))
              1 coherent (omega arith) (one_run inode (pos / bs))
              (omega (arith, fits, last, mapped, first)) (omega (arith, few, square))
              (omega (arith, fits, low, near)) in
          rw (run_of, border) (kept, some_run, omega (arith, bound, fits), runs)
    ]
