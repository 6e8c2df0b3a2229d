-- ===== src/Ext2/Bytes.antt =====
-- The bytes of a file by its block map, and runs of blocks, for `ext2_do_read` of src/fs/ext2.c.
use luminary.Base.{
  ℕ, zero, suc, ◌+◌, ◌-◌, ◌*◌, ◌/◌, ◌%◌, ◌<◌, ◌≤◌, ◌≡◌, ◌≢◌, refl, ap, ap₂, sym, ◌∙◌, true, ltb,
  arith, List, [], ◌∷◌, ◌++◌,
}
use native.Mathlib.Nat.{
  mul-add-div_right, div-add-mod', div-lt_iff_lt-mul, mod-eq_of_lt, mul_assoc, add-div_right,
  mod-le, le-div_iff_mul-le, div-mul-le_self, mul-le-mul, add-mul, mul-add-mod_self_right,
}
use native.Mathlib.Decide.{ℕ_discrete}
use luminary.Vfs.{u32}
use luminary.Vfs.File.{copy_out}
use luminary.Ext2.{Inode, ext2_read_blocks, ext2_file_block, ptrs_per_block}

module _ (disk : ℕ → ℕ) (g_block_size : ℕ) where
  abbrev ppb : ℕ
  ppb = ptrs_per_block disk g_block_size

  abbrev bs : ℕ
  bs = g_block_size

  abbrev pub block_of : Inode → ℕ → ℕ
  block_of inode i = ext2_file_block disk g_block_size true inode i

  -- The byte of a file at a position, by the block map, and so many from there on.
  abbrev pub file_byte : Inode → ℕ → ℕ
  file_byte inode p = disk (block_of inode (p / g_block_size) * g_block_size + p % g_block_size)

  abbrev pub file_bytes : Inode → (p n : ℕ) → List ℕ
  file_bytes inode p zero = []
  file_bytes inode p (suc n) = file_byte inode p ∷ file_bytes inode (p + 1) n

  pub file_bytes-append :
      (inode : Inode) (p a b : ℕ)
      → file_bytes inode p (a + b) ≡ file_bytes inode p a ++ file_bytes inode (p + a) b
  file_bytes-append inode p zero b = ap₂ (file_bytes inode) (omega arith) (omega arith)
  file_bytes-append inode p (suc a) b =
      let total : suc a + b ≡ suc (a + b) = omega arith in
      let next : p + 1 + a ≡ p + suc a = omega arith in
      ap (file_bytes inode p) total
      ∙ ap (◌∷◌ (file_byte inode p)) (
          file_bytes-append inode (p + 1) a b
          ∙ ap (λ q. file_bytes inode (p + 1) a ++ file_bytes inode q b) next)

  pub copy_out-file_bytes :
      (inode : Inode) (buf : ℕ → ℕ) (i p n : ℕ)
      → ((j : ℕ) → j < n → buf (i + j) ≡ file_byte inode (p + j))
      → copy_out buf i n ≡ file_bytes inode p n
  unfolding copy_out
  copy_out-file_bytes inode buf i p zero same = refl
  copy_out-file_bytes inode buf i p (suc n) same =
      ap₂ ◌∷◌ (ap buf (omega arith) ∙ same 0 (omega arith) ∙ ap (file_byte inode) (omega arith)) (
        copy_out-file_bytes inode buf (i + 1) (p + 1) n (λ j below.
          ap buf (omega arith) ∙ same (1 + j) (omega arith) ∙ ap (file_byte inode) (omega arith)))

  -- The block size of a file system, and a file without holes that lies in the first 4 GiB of the
  -- device and has no triply indirect block.
  pub record IsReadable (inode : Inode) : Type 0 where
    pub sectors : ℕ
    pub whole : g_block_size ≡ sectors * 512
    pub some_bytes : 0 < sectors
    pub small : g_block_size ≤ 65536
    pub size : inode.i_size < u32
    pub there : (p : ℕ) → p < inode.i_size → block_of inode (p / g_block_size) ≢ 0
    pub near : (p : ℕ) → p < inode.i_size → block_of inode (p / g_block_size) * g_block_size < u32
    pub mapped : (p : ℕ) → p < inode.i_size → p / g_block_size < 12 + ppb + ppb * ppb

  -- Blocks of the file that lie one behind the other.
  abbrev pub Runs : Inode → (phys0 first n : ℕ) → Type 0
  Runs inode phys0 first n = (k : ℕ) → k < n → block_of inode (first + k) ≡ phys0 + k

  -- Whole sectors stay as they are.
  pub aligned :
      (inode : Inode) (k : ℕ) → IsReadable inode → k * bs < u32 → k * bs % u32 / 512 * 512 ≡ k * bs
  aligned inode k r fits =
      let sectors : k * bs ≡ k * r.sectors * 512 =
        ap (λ b. k * b) r.whole ∙ sym (mul_assoc k r.sectors 512) in
      ap (λ n. n / 512 * 512) (mod-eq_of_lt fits) ∙ omega (arith, sectors)

  pub byte_in_run :
      (inode : Inode) (phys0 q r j n : ℕ)
      → 0 < bs
      → r + j < n * bs
      → Runs inode phys0 q n
      → disk (phys0 * bs + (r + j)) ≡ file_byte inode (q * bs + r + j)
  byte_in_run inode phys0 q r j n positive inside runs =
      let t = r + j in
      let k = t / bs in
      let near : k < n = (div-lt_iff_lt-mul positive).1 inside in
      let pos : q * bs + r + j ≡ q * bs + t = omega arith in
      let block : (q * bs + t) / bs ≡ q + k = mul-add-div_right positive q t in
      let rest : (q * bs + t) % bs ≡ t % bs = mul-add-mod_self_right q bs t in
      let sum : (phys0 + k) * bs + t % bs ≡ phys0 * bs + t =
        omega (arith, add-mul phys0 k bs, div-add-mod' t bs) in
      sym (
        ap (file_byte inode) pos
        ∙ ap₂ (λ b m. disk (block_of inode b * bs + m)) block rest
        ∙ ap (λ b. disk (b * bs + t % bs)) (runs k near)
        ∙ ap disk sum)

  -- The bytes that a run brings into the buffer.
  pub run_bytes :
      (inode : Inode) (phys0 run : ℕ) (rbuf : ℕ → ℕ) (i : ℕ)
      → IsReadable inode
      → phys0 * bs < u32
      → run ≤ 128
      → i < run * bs
      → ext2_read_blocks disk g_block_size phys0 run rbuf i ≡ disk (phys0 * bs + i)
  unfolding ext2_read_blocks
  run_bytes inode phys0 run rbuf i r near few inside =
      let bound : run * bs ≤ 128 * 65536 = mul-le-mul few r.small in
      let all : run * bs % u32 / 512 * 512 ≡ run * bs =
        aligned inode run r (omega (arith, bound)) in
      let within : ltb i (run * bs % u32 / 512 * 512) ≡ true = ground (arith, all, inside) in
      rw (ext2_read_blocks, within) (ap (λ n. disk (n + i)) (aligned inode phys0 r near))

  pub more-Runs :
      (inode : Inode) (phys0 first n : ℕ)
      → Runs inode phys0 first n
      → block_of inode (first + n) ≡ phys0 + n
      → Runs inode phys0 first (n + 1)
  more-Runs inode phys0 first n runs last k below = elim (ℕ_discrete k n) [
    | yes here ↦ rw here last
    | no earlier ↦ runs k (omega arith)
  ]

  -- Where the last byte of a read stands, from a block border on.
  pub last_block :
      (pos left : ℕ)
      → 0 < bs
      → 0 < left
      → pos % bs ≡ 0
      → pos / bs + (left + bs - 1) % u32 / bs ≤ (pos + (left - 1)) / bs + 1
  last_block pos left positive some_left border =
      let last : (left - 1 + bs) / bs ≡ (left - 1) / bs + 1 = add-div_right (left - 1) positive in
      let short : (left + bs - 1) % u32 / bs ≤ (left - 1 + bs) / bs =
        (le-div_iff_mul-le positive).1
          (omega (arith, div-mul-le_self ((left + bs - 1) % u32) bs, mod-le (left + bs - 1) u32)) in
      let start : pos / bs * bs ≡ pos = omega (arith, div-add-mod' pos bs, border) in
      let sum : (pos / bs * bs + (left - 1)) / bs ≡ pos / bs + (left - 1) / bs =
        mul-add-div_right positive (pos / bs) (left - 1) in
      let sum' : (pos + (left - 1)) / bs ≡ pos / bs + (left - 1) / bs =
        ap (λ p. (p + (left - 1)) / bs) (sym start) ∙ sum in
      omega (arith, last, short, sum')
