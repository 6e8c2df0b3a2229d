-- ===== src/Ext2/Dir/Tiles.antt =====
-- Blocks of a directory of src/fs/ext2.c whose entries lie one behind the other.
use luminary.Base.{
  ℕ, zero, suc, ◌+◌, ◌*◌, ◌≤◌, ◌<◌, ◌≡◌, refl, ap, ap₂, sym, subst, ◌∙◌, true, false, Option, some,
  List, [], ◌∷◌, ◌++◌, ltb, ◌==◌, arith,
}
use luminary.Vfs.File.{copy_out}
use luminary.Ext2.Dir.{Buffer, Dirent, le16, entry_size, dirent_at, entries, last_entry}

-- The entries from one position up to another, each as long as its name needs, to a multiple of 4.
abbrev pub Tiles : Buffer → (pos : ℕ) → List Dirent → (end : ℕ) → Type 0
Tiles buf pos [] end = pos ≡ end
Tiles buf pos (e ∷ es) end =
    (dirent_at buf pos ≡ e)
    × (entry_size e.name_len ≤ e.rec_len)
    × Tiles buf (pos + e.rec_len) es end

pub Tiles-le :
    (buf : Buffer) (pos : ℕ) (es : List Dirent) (end : ℕ) → Tiles buf pos es end → pos ≤ end
Tiles-le buf pos [] end t = omega (arith, t)
Tiles-le buf pos (e ∷ es) end (at, fits, rest) =
    omega (arith, Tiles-le buf (pos + e.rec_len) es end rest)

pub Tiles-append :
    (buf : Buffer) (pos : ℕ) (xs ys : List Dirent) (mid end : ℕ)
    → Tiles buf pos xs mid
    → Tiles buf mid ys end
    → Tiles buf pos (xs ++ ys) end
Tiles-append buf pos [] ys mid end t t' = subst (λ p. Tiles buf p ys end) (sym t) t'
Tiles-append buf pos (e ∷ es) ys mid end (at, fits, rest) t' =
    (at, fits, Tiles-append buf (pos + e.rec_len) es ys mid end rest t')

pub Tiles-split :
    (buf : Buffer) (pos : ℕ) (xs ys : List Dirent) (end : ℕ)
    → Tiles buf pos (xs ++ ys) end
    → (mid : ℕ) × Tiles buf pos xs mid × Tiles buf mid ys end
Tiles-split buf pos [] ys end t = (pos, refl, t)
Tiles-split buf pos (e ∷ es) ys end (at, fits, rest) =
    let (mid, left, right) = Tiles-split buf (pos + e.rec_len) es ys end rest in
    (mid, (at, fits, left), right)

pub copy_out-same :
    (buf buf' : Buffer) (pos n : ℕ)
    → ((i : ℕ) → pos ≤ i → i < pos + n → buf' i ≡ buf i)
    → copy_out buf' pos n ≡ copy_out buf pos n
unfolding copy_out
copy_out-same buf buf' pos zero same = refl
copy_out-same buf buf' pos (suc n) same =
    ap₂ ◌∷◌ (same pos (omega arith) (omega arith))
      (copy_out-same buf buf' (pos + 1) n (λ i from to. same i (omega arith) (omega arith)))

abbrev pub dirent : (inode rec_len name_len file_type : ℕ) → List ℕ → Dirent
dirent i r n t cs = record { inode = i; rec_len = r; name_len = n; file_type = t; name = cs }

pub dirent_of :
    {i i' r r' n n' t t' : ℕ} {cs cs' : List ℕ}
    → i ≡ i'
    → r ≡ r'
    → n ≡ n'
    → t ≡ t'
    → cs ≡ cs'
    → dirent i r n t cs ≡ dirent i' r' n' t' cs'
dirent_of p q u v w = cc

-- An entry reads its header and its name.
pub dirent_at-same :
    (buf buf' : Buffer) (pos : ℕ)
    → ((i : ℕ) → pos ≤ i → i < pos + 8 + (dirent_at buf pos).name_len → buf' i ≡ buf i)
    → dirent_at buf' pos ≡ dirent_at buf pos
unfolding dirent_at
dirent_at-same buf buf' pos same =
    let byte : (k : ℕ) → k < 8 → buf' (pos + k) ≡ buf (pos + k) =
      λ k small. same (pos + k) (omega arith) (omega arith) in
    let zeroth : buf' pos ≡ buf pos = same pos (omega arith) (omega arith) in
    let low : le16 buf' pos ≡ le16 buf pos =
      ap₂ (λ a b. a + 256 * b) zeroth (byte 1 (omega arith)) in
    let high : le16 buf' (pos + 2) ≡ le16 buf (pos + 2) =
      ap₂ (λ a b. a + 256 * b) (byte 2 (omega arith))
        (ap buf' (omega arith) ∙ byte 3 (omega arith) ∙ ap buf (omega arith)) in
    let len : le16 buf' (pos + 4) ≡ le16 buf (pos + 4) =
      ap₂ (λ a b. a + 256 * b) (byte 4 (omega arith))
        (ap buf' (omega arith) ∙ byte 5 (omega arith) ∙ ap buf (omega arith)) in
    let size = byte 6 (omega arith) in
    let name : copy_out buf' (pos + 8) (buf' (pos + 6)) ≡ copy_out buf (pos + 8) (buf (pos + 6)) =
      ap (copy_out buf' (pos + 8)) size
      ∙ copy_out-same buf buf' (pos + 8) (buf (pos + 6))
          (λ i from to. same i (omega arith) (omega arith)) in
    dirent_of (ap₂ (λ a b. a + 65536 * b) low high) len size (byte 7 (omega arith)) name

pub Tiles-same :
    (buf buf' : Buffer) (pos : ℕ) (es : List Dirent) (end : ℕ)
    → ((i : ℕ) → pos ≤ i → i < end → buf' i ≡ buf i)
    → Tiles buf pos es end
    → Tiles buf' pos es end
Tiles-same buf buf' pos [] end same t = t
Tiles-same buf buf' pos (e ∷ es) end same (at, fits, rest) =
    let before = Tiles-le buf (pos + e.rec_len) es end rest in
    let size = ap (λ d. d.name_len) at in
    (
      dirent_at-same buf buf' pos (λ i from to. same i from (omega (arith, to, size, fits, before)))
          ∙ at,
      fits,
      Tiles-same buf buf' (pos + e.rec_len) es end (λ i from to. same i (omega arith) to) rest,
    )

module _ (g_block_size : ℕ) where
  pub entries-Tiles :
      (rounds : ℕ) (buf : Buffer) (pos : ℕ) (es : List Dirent)
      → Tiles buf pos es g_block_size
      → g_block_size ≤ pos + rounds
      → entries g_block_size rounds buf pos ≡ es
  unfolding entries
  entries-Tiles zero buf pos [] t fuel = refl
  entries-Tiles zero buf pos (e ∷ es) (at, fits, rest) fuel =
      absurd (omega (arith, Tiles-le buf (pos + e.rec_len) es g_block_size rest, fits, fuel))
  entries-Tiles (suc rounds) buf pos [] t fuel =
      let done : ltb pos g_block_size ≡ false = ground (arith, t) in rw done refl
  entries-Tiles (suc rounds) buf pos (e ∷ es) (at, fits, rest) fuel =
      let before = Tiles-le buf (pos + e.rec_len) es g_block_size rest in
      let size = ap (λ d. d.rec_len) at in
      let inside : ltb pos g_block_size ≡ true = ground (arith, before, fits) in
      let some_bytes : ((dirent_at buf pos).rec_len == 0) ≡ false = ground (arith, size, fits) in
      rw (inside, some_bytes)
        (ap₂ ◌∷◌ at (
          ap (λ n. entries g_block_size rounds buf (pos + n)) size
          ∙ entries-Tiles rounds buf (pos + e.rec_len) es rest (omega (arith, fits, fuel))))

  -- At the end of the block the search is over.
  stops :
      (rounds : ℕ) (buf : Buffer) (last : Option ℕ)
      → last_entry g_block_size rounds buf g_block_size last ≡ last
  unfolding last_entry
  stops zero buf last = refl
  stops (suc rounds) buf last =
      (let done : ltb g_block_size g_block_size ≡ false = ground arith in rw done refl)

  -- The last entry is found.
  pub last_entry-Tiles :
      (rounds : ℕ) (buf : Buffer) (pos : ℕ) (front : List Dirent) (e : Dirent) (at : ℕ)
      (last : Option ℕ)
      → Tiles buf pos front at
      → Tiles buf at (e ∷ []) g_block_size
      → g_block_size ≤ pos + rounds
      → last_entry g_block_size rounds buf pos last ≡ some at
  unfolding last_entry
  last_entry-Tiles zero buf pos front e at last t (here, fits, end) fuel =
      absurd (omega (arith, Tiles-le buf pos front at t, fits, end, fuel))
  last_entry-Tiles (suc rounds) buf pos [] e at last t (here, fits, end) fuel =
      let here' : dirent_at buf pos ≡ e = ap (dirent_at buf) t ∙ here in
      let size = ap (λ d. d.rec_len) here' in
      let inside : ltb pos g_block_size ≡ true = ground (arith, t, end, fits) in
      let some_bytes : ((dirent_at buf pos).rec_len == 0) ≡ false = ground (arith, size, fits) in
      let beyond : pos + (dirent_at buf pos).rec_len ≡ g_block_size = omega (arith, t, end, size) in
      rw (inside, some_bytes)
        (ap (λ p. last_entry g_block_size rounds buf p (some pos)) beyond
          ∙ stops rounds buf (some pos)
          ∙ ap some t)
  last_entry-Tiles (suc rounds) buf pos (d ∷ ds) e at last (there, fits, rest) t' fuel =
      let size = ap (λ x. x.rec_len) there in
      let (here, fits', end) = t' in
      let inside : ltb pos g_block_size ≡ true =
        ground (arith, Tiles-le buf (pos + d.rec_len) ds at rest, fits, fits', end) in
      let some_bytes : ((dirent_at buf pos).rec_len == 0) ≡ false = ground (arith, size, fits) in
      rw (inside, some_bytes)
        (ap (λ n. last_entry g_block_size rounds buf (pos + n) (some pos)) size
          ∙ last_entry-Tiles rounds buf (pos + d.rec_len) ds e at (some pos) rest t'
              (omega (arith, fits, fuel)))
