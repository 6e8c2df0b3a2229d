-- ===== src/Ext2/Read.antt =====
-- The loop of `ext2_do_read` of src/fs/ext2.c against the bytes of the file.
use luminary.Base.{
  ℕ, zero, suc, ◌+◌, ◌-◌, ◌*◌, ◌/◌, ◌%◌, ◌<◌, ◌≤◌, ◌≡◌, refl, ap, ap₂, sym, ◌∙◌, inl, inr, Bool,
  true, false, some, ltb, leb, ◌==◌, if◌then◌else◌, Bool-cases, arith, List, [], ◌++◌, append-nil,
  append_assoc,
}
use native.Mathlib.Nat.{div-add-mod', mod-eq_of_lt, mod-lt, mul-le-mul_right}
use luminary.Vfs.{u32}
use luminary.Vfs.File.{copy_out}
use luminary.Ext2.{
  Inode, IndCache, ext2_read_blocks, ptrs_per_block, ext2_blk_lookup, run_of, read_loop,
  ext2_do_read, no_table,
}
use luminary.Ext2.Cache.{IsCoherent, ext2_blk_lookup-ext2_file_block}
use luminary.Ext2.Bytes.{
  block_of, file_byte, file_bytes, file_bytes-append, copy_out-file_bytes, IsReadable, Runs,
  byte_in_run, run_bytes,
}
use luminary.Ext2.Runs.{run_of_lem}

module _ (disk : ℕ → ℕ) (g_block_size : ℕ) where
  abbrev ppb : ℕ
  ppb = ptrs_per_block disk g_block_size

  abbrev bs : ℕ
  bs = g_block_size

  module _ (kmalloc : ℕ → Bool) (memory : (n : ℕ) → kmalloc n ≡ true) where
    -- What one round copies.
    round_bytes :
        (inode : Inode) (run : ℕ) (rbuf : ℕ → ℕ) (pos n : ℕ)
        → IsReadable disk g_block_size inode
        → pos < inode.i_size
        → run ≤ 128
        → Runs disk g_block_size inode (block_of disk g_block_size inode (pos / bs)) (pos / bs) run
        → n ≤ run * bs - pos % bs
        → copy_out
            (ext2_read_blocks disk g_block_size
              (block_of disk g_block_size inode (pos / bs))
              run
              rbuf)
            (pos % bs)
            n
          ≡ file_bytes disk g_block_size inode pos n
    round_bytes inode run rbuf pos n r inside few runs fits =
        copy_out-file_bytes disk g_block_size inode
          (ext2_read_blocks disk g_block_size (block_of disk g_block_size inode (pos / bs)) run
            rbuf)
          (pos % bs) pos n
          (λ j below.
            let within : pos % bs + j < run * bs = omega arith in
            let positive : 0 < bs = omega (arith, r.whole, r.some_bytes) in
            let split : pos / bs * bs + pos % bs + j ≡ pos + j =
              omega (arith, div-add-mod' pos bs) in
            run_bytes disk g_block_size inode (block_of disk g_block_size inode (pos / bs)) run rbuf
              (pos % bs + j) r (r.near pos inside) few within
            ∙ byte_in_run disk g_block_size inode (block_of disk g_block_size inode (pos / bs))
                (pos / bs) (pos % bs) j run positive within runs
            ∙ ap (file_byte disk g_block_size inode) split)

    -- All is read.
    all_read :
        (inode : Inode) (off len done : ℕ) (out : List ℕ)
        → done ≡ len
        → ◌≡◌ {A = ℕ × List ℕ}
            (done, out)
            (len, out ++ file_bytes disk g_block_size inode (off + done) (len - done))
    all_read inode off len done out e =
        let nothing : len - done ≡ 0 = omega arith in
        ap₂ {C = ℕ × List ℕ} (λ n bytes. (n, bytes)) e
          (sym (append-nil out)
            ∙ ap (λ n. out ++ file_bytes disk g_block_size inode (off + done) n) (sym nothing))

    -- What was copied and what is left, joined.
    joined :
        (inode : Inode) (out : List ℕ) (pos left n off len done : ℕ) {copied : List ℕ}
        → pos ≡ off + done
        → left ≡ len - done
        → n ≤ left
        → copied ≡ file_bytes disk g_block_size inode pos n
        → (out ++ copied)
            ++ file_bytes disk g_block_size inode (off + (done + n)) (len - (done + n))
          ≡ out ++ file_bytes disk g_block_size inode pos left
    joined inode out pos left n off len done {copied} at e fits same =
        let next : off + (done + n) ≡ pos + n = omega arith in
        let rest : len - (done + n) ≡ left - n = omega arith in
        let total : n + (left - n) ≡ left = omega arith in
        append_assoc out copied _
        ∙ ap (◌++◌ out) (
            ap₂ ◌++◌ same (ap₂ (file_bytes disk g_block_size inode) next rest)
            ∙ sym (file_bytes-append disk g_block_size inode pos n (left - n))
            ∙ ap (file_bytes disk g_block_size inode pos) total)

    read_loop_lem :
        (rounds : ℕ) (inode : Inode) (off len : ℕ) (done : ℕ) (c : IndCache) (rbuf : ℕ → ℕ)
        (out : List ℕ)
        → IsReadable disk g_block_size inode
        → IsCoherent disk g_block_size c
        → off + len ≤ inode.i_size
        → done ≤ len
        → len - done ≤ rounds
        → read_loop disk g_block_size kmalloc rounds inode off len done c rbuf out
          ≡ (len, out ++ file_bytes disk g_block_size inode (off + done) (len - done))
    unfolding read_loop
    read_loop_lem zero inode off len done c rbuf out r coherent inside below enough =
        all_read inode off len done out (omega arith)
    read_loop_lem (suc rounds) inode off len done c rbuf out r coherent inside below enough =
        elim (Bool-cases (ltb done len)) [
          | inr finished ↦
              rw (read_loop, finished) (all_read inode off len done out (ground (arith, finished)))
          | inl more ↦
              let pos = off + done in
              let left = len - done in
              let unread : pos < inode.i_size = ground (arith, more) in
              let at : (off + done) % u32 ≡ off + done =
                mod-eq_of_lt (omega (arith, r.size, unread)) in
              let (found, coherent₁) =
                ext2_blk_lookup-ext2_file_block disk g_block_size kmalloc memory inode c (pos / bs)
                  coherent (r.mapped pos unread) in
              let c₁ = (ext2_blk_lookup disk g_block_size kmalloc inode c (pos / bs)).1 in
              let (coherent₂, some_run, few, runs) =
                run_of_lem disk g_block_size kmalloc memory inode c₁ pos left r coherent₁
                  (ground (arith, more)) (ground (arith, more)) in
              let there : (block_of disk g_block_size inode (pos / bs) == 0) ≡ false =
                ground (arith, r.there pos unread) in
              let (run, c₂) =
                run_of disk g_block_size kmalloc inode c₁ (pos / bs)
                  (block_of disk g_block_size inode (pos / bs)) (pos % bs) left in
              let n = if ltb (run * bs - pos % bs) left then run * bs - pos % bs else left in
              let n_left : n ≤ left = ground arith in
              let n_run : n ≤ run * bs - pos % bs = ground arith in
              let one : 1 * bs ≤ run * bs = mul-le-mul_right bs some_run in
              let inner : pos % bs < bs = mod-lt pos (omega (arith, r.whole, r.some_bytes)) in
              let some_n : 0 < n = ground (arith, more, one, inner) in
              let rbuf' =
                ext2_read_blocks disk g_block_size (block_of disk g_block_size inode (pos / bs)) run
                  rbuf in
              rw (read_loop, at, found, more, there)
                (read_loop_lem rounds inode off len (done + n) c₂ rbuf'
                    (out ++ copy_out rbuf' (pos % bs) n) r coherent₂ inside
                    (omega (arith, n_left, below)) (omega (arith, some_n, enough))
                  ∙ ap (λ bytes. (len, bytes))
                      (joined inode out pos left n off len done refl refl n_left
                        (round_bytes inode run rbuf pos n r unread few runs n_run)))
        ]

    -- With memory, a read of a file without holes returns the bytes of the file from the offset on, as
    -- its block map gives them one by one, as many as were asked for and are there. The file lies in
    -- the first 4 GiB of the device and has no triply indirect block, a block is a number of sectors
    -- of at most 64 KiB together, and the offset and the length do not add up to 2^32.
    pub ext2_do_read_lem :
        (inode : Inode) (off len : ℕ) (rbuf : ℕ → ℕ)
        → IsReadable disk g_block_size inode
        → off + len < u32
        → let n = if ltb (inode.i_size - off) len then inode.i_size - off else len in
          ext2_do_read disk g_block_size kmalloc (some rbuf) inode off len
          ≡ (n, file_bytes disk g_block_size inode off n)
    unfolding ext2_do_read
    ext2_do_read_lem inode off len rbuf r bound =
        let n = if ltb (inode.i_size - off) len then inode.i_size - off else len in
        let n' = if ltb inode.i_size ((off + len) % u32) then inode.i_size - off else len in
        elim (Bool-cases (leb inode.i_size off)) [
          | inl behind ↦
              let none : 0 ≡ n = ground (arith, behind) in
              rw (ext2_do_read, behind)
                (ap {B = ℕ × List ℕ} (λ k. (k, file_bytes disk g_block_size inode off k)) none)
          | inr before ↦
              let sum : (off + len) % u32 ≡ off + len = mod-eq_of_lt bound in
              let same : n' ≡ n = ground (arith, sum, before) in
              let inside : off + n' ≤ inode.i_size = ground (arith, sum, before) in
              let at : off + 0 ≡ off = omega arith in
              let all : n' - 0 ≡ n' = omega arith in
              rw (ext2_do_read, before)
                (read_loop_lem n' inode off n' 0
                    (record {
                      ind1 = no_table disk g_block_size kmalloc;
                      ind2l1 = no_table disk g_block_size kmalloc;
                      ind2l2 = no_table disk g_block_size kmalloc;
                      asked = 0;
                    })
                    rbuf [] r (record { ind1 = inl refl; ind2l1 = inl refl; ind2l2 = inl refl })
                    inside (omega arith) (omega arith)
                  ∙ ap (λ bytes. (n', bytes)) (ap₂ (file_bytes disk g_block_size inode) at all)
                  ∙ ap {B = ℕ × List ℕ} (λ k. (k, file_bytes disk g_block_size inode off k)) same)
        ]
