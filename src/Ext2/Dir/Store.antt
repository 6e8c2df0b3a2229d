-- ===== src/Ext2/Dir/Store.antt =====
-- Stores to the entries of a block, src/fs/ext2.c.
use luminary.Base.{
  ℕ, ◌+◌, ◌*◌, ◌/◌, ◌%◌, ◌≤◌, ◌<◌, ◌≡◌, ◌⊎◌, inl, inr, ap, ap₂, ◌∙◌, List, ◌∷◌, length, arith,
}
use luminary.Vfs.{u32}
use luminary.Vfs.File.{copy_out, copy_in}
use luminary.Vfs.File.Contents.{copy_in_outside, copy_out-copy_in}
use luminary.Ext2.Dir.{
  Buffer, Dirent, le16, le32, bytes16, bytes32, dirent_bytes, dirent_at, set_rec_len,
}
use luminary.Ext2.Dir.Tiles.{dirent_of, copy_out-same}

-- The first eight bytes of what is stored, and the rest.
header :
    (buf : Buffer) (p b₀ b₁ b₂ b₃ b₄ b₅ b₆ b₇ : ℕ) (cs : List ℕ)
    → let buf' = copy_in buf p (b₀ ∷ b₁ ∷ b₂ ∷ b₃ ∷ b₄ ∷ b₅ ∷ b₆ ∷ b₇ ∷ cs) in
      (le32 buf' p ≡ b₀ + 256 * b₁ + 65536 * (b₂ + 256 * b₃))
      × (le16 buf' (p + 4) ≡ b₄ + 256 * b₅)
      × (buf' (p + 6) ≡ b₆)
      × (buf' (p + 7) ≡ b₇)
      × (copy_out buf' (p + 8) (length cs) ≡ cs)
unfolding copy_out
header buf p b₀ b₁ b₂ b₃ b₄ b₅ b₆ b₇ cs =
    let buf' = copy_in buf p (b₀ ∷ b₁ ∷ b₂ ∷ b₃ ∷ b₄ ∷ b₅ ∷ b₆ ∷ b₇ ∷ cs) in
    let all = copy_out-copy_in buf p (b₀ ∷ b₁ ∷ b₂ ∷ b₃ ∷ b₄ ∷ b₅ ∷ b₆ ∷ b₇ ∷ cs) in
    let at : (q q' : ℕ) → q ≡ q' → buf' q ≡ buf' q' = λ q q' e. ap buf' e in
    let e₀ : buf' p ≡ b₀ = cc in
    let e₁ : buf' (p + 1) ≡ b₁ = cc in
    let e₂ : buf' (p + 2) ≡ b₂ = at _ (p + 1 + 1) (omega arith) ∙ cc in
    let e₃ : buf' (p + 2 + 1) ≡ b₃ = at _ (p + 1 + 1 + 1) (omega arith) ∙ cc in
    let e₄ : buf' (p + 4) ≡ b₄ = at _ (p + 1 + 1 + 1 + 1) (omega arith) ∙ cc in
    let e₅ : buf' (p + 4 + 1) ≡ b₅ = at _ (p + 1 + 1 + 1 + 1 + 1) (omega arith) ∙ cc in
    let e₆ : buf' (p + 6) ≡ b₆ = at _ (p + 1 + 1 + 1 + 1 + 1 + 1) (omega arith) ∙ cc in
    let e₇ : buf' (p + 7) ≡ b₇ = at _ (p + 1 + 1 + 1 + 1 + 1 + 1 + 1) (omega arith) ∙ cc in
    let rest : copy_out buf' (p + 1 + 1 + 1 + 1 + 1 + 1 + 1 + 1) (length cs) ≡ cs = cc in
    (
      ap₂ (λ a b. a + 65536 * b) (ap₂ (λ a b. a + 256 * b) e₀ e₁) (ap₂ (λ a b. a + 256 * b) e₂ e₃),
      ap₂ (λ a b. a + 256 * b) e₄ e₅,
      e₆,
      e₇,
      ap (λ q. copy_out buf' q (length cs)) (omega arith) ∙ rest,
    )

pub stored_dirent :
    (buf : Buffer) (p : ℕ) (e : Dirent)
    → e.inode < u32
    → e.rec_len < 65536
    → e.name_len ≡ length e.name
    → dirent_at (copy_in buf p (dirent_bytes e)) p ≡ e
unfolding dirent_at
stored_dirent buf p e small short size =
    let (inode, len, n, t, name) =
      header buf p (e.inode % 256) (e.inode / 256 % 256) (e.inode / 65536 % 256)
        (e.inode / 16777216 % 256) (e.rec_len % 256) (e.rec_len / 256 % 256) e.name_len e.file_type
        e.name in
    dirent_of (inode ∙ omega (arith, small)) (len ∙ omega (arith, short)) n t
      (ap (copy_out (copy_in buf p (dirent_bytes e)) (p + 8)) (n ∙ size) ∙ name)

-- The two bytes of a length.
pub stored_rec_len :
    (buf : Buffer) (p v : ℕ)
    → v < 65536
    → dirent_at (set_rec_len buf p v) p ≡ record (dirent_at buf p) { rec_len = v }
unfolding dirent_at set_rec_len copy_out
stored_rec_len buf p v short =
    let buf' = copy_in buf (p + 4) (bytes16 v) in
    let all = copy_out-copy_in buf (p + 4) (bytes16 v) in
    let e₀ : buf' (p + 4) ≡ v % 256 = cc in
    let e₁ : buf' (p + 4 + 1) ≡ v / 256 % 256 = cc in
    let other : (i : ℕ) → (i < p + 4) ⊎ (p + 6 ≤ i) → buf' i ≡ buf i =
      λ i out. copy_in_outside buf (p + 4) (bytes16 v) i (ground (arith, out)) in
    let size = other (p + 6) (inr (omega arith)) in
    let name : copy_out buf' (p + 8) (buf' (p + 6)) ≡ copy_out buf (p + 8) (buf (p + 6)) =
      ap (copy_out buf' (p + 8)) size
      ∙ copy_out-same buf buf' (p + 8) (buf (p + 6))
          (λ i from to. other i (inr (omega (arith, from)))) in
    dirent_of
      (ap₂ (λ a b. a + 65536 * b)
        (ap₂ (λ a b. a + 256 * b) (other p (inl (omega arith))) (other (p + 1) (inl (omega arith))))
        (ap₂ (λ a b. a + 256 * b) (other (p + 2) (inl (omega arith)))
          (other (p + 2 + 1) (inl (omega arith)))))
      (ap₂ (λ a b. a + 256 * b) e₀ e₁ ∙ omega (arith, short)) size
      (other (p + 7) (inr (omega arith))) name

pub set_rec_len-outside :
    (buf : Buffer) (p v i : ℕ) → (i < p + 4) ⊎ (p + 6 ≤ i) → set_rec_len buf p v i ≡ buf i
unfolding set_rec_len
set_rec_len-outside buf p v i out = copy_in_outside buf (p + 4) (bytes16 v) i (ground (arith, out))

-- The four bytes of an inode number.
pub stored_inode :
    (buf : Buffer) (p : ℕ)
    → dirent_at (copy_in buf p (bytes32 0)) p ≡ record (dirent_at buf p) { inode = 0 }
unfolding dirent_at copy_out
stored_inode buf p =
    let buf' = copy_in buf p (bytes32 0) in
    let all = copy_out-copy_in buf p (bytes32 0) in
    let e₀ : buf' p ≡ 0 = cc in
    let e₁ : buf' (p + 1) ≡ 0 = cc in
    let e₂ : buf' (p + 1 + 1) ≡ 0 = cc in
    let e₃ : buf' (p + 1 + 1 + 1) ≡ 0 = cc in
    let e₂' : buf' (p + 2) ≡ 0 = ap buf' (omega arith) ∙ e₂ in
    let e₃' : buf' (p + 2 + 1) ≡ 0 = ap buf' (omega arith) ∙ e₃ in
    let other : (i : ℕ) → p + 4 ≤ i → buf' i ≡ buf i =
      λ i out. copy_in_outside buf p (bytes32 0) i (inr (omega (arith, out))) in
    let size = other (p + 6) (omega arith) in
    let name : copy_out buf' (p + 8) (buf' (p + 6)) ≡ copy_out buf (p + 8) (buf (p + 6)) =
      ap (copy_out buf' (p + 8)) size
      ∙ copy_out-same buf buf' (p + 8) (buf (p + 6)) (λ i from to. other i (omega (arith, from))) in
    dirent_of
      (ap₂ (λ a b. a + 65536 * b) (ap₂ (λ a b. a + 256 * b) e₀ e₁)
        (ap₂ (λ a b. a + 256 * b) e₂' e₃'))
      (ap₂ (λ a b. a + 256 * b) (other (p + 4) (omega arith)) (other (p + 4 + 1) (omega arith)))
      size (other (p + 7) (omega arith)) name
