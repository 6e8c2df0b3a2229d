-- ===== src/Ext2/Dir/Remove.antt =====
-- An entry that is taken out of a block, ext2_dir_remove_entry of src/fs/ext2.c.
use luminary.Base.{
  ℕ, zero, suc, ◌+◌, ◌%◌, ◌≤◌, ◌<◌, ◌≡◌, ◌⊎◌, inl, inr, refl, ap, ap₂, sym, subst, ◌∙◌, true, false,
  Option, none, some, List, [], ◌∷◌, ltb, ◌==◌, if◌then◌else◌, arith, Bool-cases,
}
use native.Mathlib.Nat.{mod-eq_of_lt}
use luminary.Vfs.File.{copy_in}
use luminary.Vfs.File.Contents.{copy_in_outside}
use luminary.Ext2.Dir.{Buffer, Dirent, bytes32, dirent_at, set_rec_len, entry_size, remove_in_block}
use luminary.Ext2.Dir.Tiles.{Tiles, Tiles-le, Tiles-same, dirent_at-same}
use luminary.Ext2.Dir.Store.{stored_inode, stored_rec_len, set_rec_len-outside}

-- The entry before one that is taken out.
abbrev pub merged : (prev e : Dirent) → Dirent
merged prev e = record prev { rec_len = prev.rec_len + e.rec_len }

abbrev pub keep : Dirent → Option (List Dirent) → Option (List Dirent)
keep prev none = none
keep prev (some es) = some (prev ∷ es)

-- What is to become of a list of entries, behind one and at the start of a block.
unfoldable pub removed_behind :
    (child_ino : ℕ) → (prev : Dirent) → List Dirent → Option (List Dirent)
removed_behind child_ino prev [] = none
removed_behind child_ino prev (e ∷ es) =
    let rest = removed_behind child_ino e es in
    if e.inode == child_ino then some (merged prev e ∷ es) else keep prev rest

unfoldable pub removed : (child_ino : ℕ) → List Dirent → Option (List Dirent)
removed child_ino [] = none
removed child_ino (e ∷ es) =
    if e.inode == child_ino
    then some (record e { inode = 0 } ∷ es)
    else removed_behind child_ino e es

-- A block as it is after a removal: the entries are those given, and nothing before or behind them has changed.
abbrev pub Leaves :
    (g_block_size : ℕ) → Buffer → (pos : ℕ) → Option (List Dirent) → Option Buffer → Type 0
Leaves g_block_size buf pos none r = r ≡ none
Leaves g_block_size buf pos (some es) r =
    (buf' : Buffer) × (r ≡ some buf')
    × Tiles buf' pos es g_block_size
    × ((i : ℕ) → (i < pos) ⊎ (g_block_size ≤ i) → buf' i ≡ buf i)

module _ (g_block_size child_ino : ℕ) (small : g_block_size < 65536) where
  -- The entry at `pos` is the one.
  behind_here :
      (buf : Buffer) (pos p : ℕ) (prev e : Dirent) (es : List Dirent)
      → dirent_at buf p ≡ prev
      → entry_size prev.name_len ≤ prev.rec_len
      → p + prev.rec_len ≡ pos
      → Tiles buf pos (e ∷ es) g_block_size
      → Leaves g_block_size buf p
          (some (merged prev e ∷ es))
          (some (set_rec_len buf p (prev.rec_len + e.rec_len)))
  behind_here buf pos p prev e es at fits next (at', fits', rest) =
      let total = prev.rec_len + e.rec_len in
      let after = set_rec_len buf p total in
      let end = Tiles-le buf (pos + e.rec_len) es g_block_size rest in
      let stored : dirent_at after p ≡ merged prev e =
        stored_rec_len buf p total (omega (arith, next, end, small))
        ∙ ap {A = Dirent} {B = Dirent} (λ d. record d { rec_len = total }) at in
      let onward : p + total ≡ pos + e.rec_len = omega (arith, next) in
      (
        after,
        refl,
        (
          stored,
          omega (arith, fits),
          subst (λ q. Tiles after q es g_block_size) (sym onward)
              (Tiles-same buf after (pos + e.rec_len) es g_block_size
                (λ i from to.
                  set_rec_len-outside buf p total i (inr (omega (arith, from, next, fits))))
                rest),
        ),
        λ i out. set_rec_len-outside buf p total i (ground (arith, out, next, fits, end, fits')),
      )

  -- An entry that stays, before those that a removal leaves.
  keep-Leaves :
      (buf : Buffer) (pos p : ℕ) (prev : Dirent) (spec : Option (List Dirent)) (r : Option Buffer)
      → dirent_at buf p ≡ prev
      → entry_size prev.name_len ≤ prev.rec_len
      → p + prev.rec_len ≡ pos
      → pos ≤ g_block_size
      → Leaves g_block_size buf pos spec r
      → Leaves g_block_size buf p (keep prev spec) r
  keep-Leaves buf pos p prev none r at fits next inside l = l
  keep-Leaves buf pos p prev (some es) r at fits next inside (buf', made, t, same) =
      let width = ap (λ d. d.name_len) at in
      (
        buf',
        made,
        (
          dirent_at-same buf buf' p
                (λ i from to. same i (inl (omega (arith, to, width, fits, next))))
              ∙ at,
          fits,
          subst (λ q. Tiles buf' q es g_block_size) (sym next) t,
        ),
        λ i out. same i (ground (arith, out, next)),
      )

  behind_Leaves :
      (rounds : ℕ) (buf : Buffer) (pos p : ℕ) (prev : Dirent) (es : List Dirent)
      → dirent_at buf p ≡ prev
      → entry_size prev.name_len ≤ prev.rec_len
      → p + prev.rec_len ≡ pos
      → Tiles buf pos es g_block_size
      → g_block_size ≤ pos + rounds
      → Leaves g_block_size buf p
          (removed_behind child_ino prev es)
          (remove_in_block g_block_size rounds buf child_ino pos (some p))
  unfolding removed_behind remove_in_block
  behind_Leaves zero buf pos p prev [] at fits next t fuel = refl
  behind_Leaves zero buf pos p prev (e ∷ es) at fits next (at', fits', rest) fuel =
      absurd (omega (arith, Tiles-le buf (pos + e.rec_len) es g_block_size rest, fits', fuel))
  behind_Leaves (suc rounds) buf pos p prev [] at fits next t fuel =
      (let done : ltb pos g_block_size ≡ false = ground (arith, t) in rw done refl)
  behind_Leaves (suc rounds) buf pos p prev (e ∷ es) at fits next (at', fits', rest) fuel =
      let end = Tiles-le buf (pos + e.rec_len) es g_block_size rest in
      let size = ap (λ d. d.rec_len) at' in
      let size' = ap (λ d. d.rec_len) at in
      let ino = ap (λ d. d.inode) at' in
      let inside : ltb pos g_block_size ≡ true = ground (arith, end, fits') in
      let some_bytes : ((dirent_at buf pos).rec_len == 0) ≡ false = ground (arith, size, fits') in
      elim (Bool-cases (e.inode == child_ino)) [
        | inl it ↦
            let it' : ((dirent_at buf pos).inode == child_ino) ≡ true =
              ap (λ n. n == child_ino) ino ∙ it in
            let half : ((dirent_at buf p).rec_len + (dirent_at buf pos).rec_len) % 65536
                ≡ prev.rec_len + e.rec_len =
              ap₂ (λ a b. (a + b) % 65536) size' size
              ∙ mod-eq_of_lt (omega (arith, next, end, small)) in
            rw (inside, some_bytes, it', it, half)
              (behind_here buf pos p prev e es at fits next (at', fits', rest))
        | inr other ↦
            let other' : ((dirent_at buf pos).inode == child_ino) ≡ false =
              ap (λ n. n == child_ino) ino ∙ other in
            let later =
              behind_Leaves rounds buf (pos + e.rec_len) pos e es at' fits' refl rest
                (omega (arith, fits', fuel)) in
            rw (inside, some_bytes, other', other, size)
              (keep-Leaves buf pos p prev (removed_behind child_ino e es) _ at fits next
                (omega (arith, end)) later)
      ]

  -- The first entry is the one: it stays, without an inode.
  start_here :
      (buf : Buffer) (pos : ℕ) (e : Dirent) (es : List Dirent)
      → Tiles buf pos (e ∷ es) g_block_size
      → Leaves g_block_size buf pos
          (some (record e { inode = 0 } ∷ es))
          (some (copy_in buf pos (bytes32 0)))
  start_here buf pos e es (at, fits, rest) =
      let after = copy_in buf pos (bytes32 0) in
      let end = Tiles-le buf (pos + e.rec_len) es g_block_size rest in
      let outside : (i : ℕ) → (i < pos) ⊎ (pos + 4 ≤ i) → after i ≡ buf i =
        λ i out. copy_in_outside buf pos (bytes32 0) i out in
      (
        after,
        refl,
        (
          stored_inode buf pos ∙ ap {A = Dirent} {B = Dirent} (λ d. record d { inode = 0 }) at,
          fits,
          Tiles-same buf after (pos + e.rec_len) es g_block_size
              (λ i from to. outside i (inr (omega (arith, from, fits)))) rest,
        ),
        λ i out. outside i (ground (arith, out, end, fits)),
      )

  start_Leaves :
      (rounds : ℕ) (buf : Buffer) (pos : ℕ) (es : List Dirent)
      → Tiles buf pos es g_block_size
      → g_block_size ≤ pos + rounds
      → Leaves g_block_size buf pos
          (removed child_ino es)
          (remove_in_block g_block_size rounds buf child_ino pos none)
  unfolding remove_in_block removed
  start_Leaves zero buf pos [] t fuel = refl
  start_Leaves zero buf pos (e ∷ es) (at, fits, rest) fuel =
      absurd (omega (arith, Tiles-le buf (pos + e.rec_len) es g_block_size rest, fits, fuel))
  start_Leaves (suc rounds) buf pos [] t fuel =
      (let done : ltb pos g_block_size ≡ false = ground (arith, t) in rw done refl)
  start_Leaves (suc rounds) buf pos (e ∷ es) (at, fits, rest) fuel =
      let end = Tiles-le buf (pos + e.rec_len) es g_block_size rest in
      let size = ap (λ d. d.rec_len) at in
      let ino = ap (λ d. d.inode) at in
      let inside : ltb pos g_block_size ≡ true = ground (arith, end, fits) in
      let some_bytes : ((dirent_at buf pos).rec_len == 0) ≡ false = ground (arith, size, fits) in
      elim (Bool-cases (e.inode == child_ino)) [
        | inl it ↦
            let it' : ((dirent_at buf pos).inode == child_ino) ≡ true =
              ap (λ n. n == child_ino) ino ∙ it in
            rw (inside, some_bytes, it', it) (start_here buf pos e es (at, fits, rest))
        | inr other ↦
            let other' : ((dirent_at buf pos).inode == child_ino) ≡ false =
              ap (λ n. n == child_ino) ino ∙ other in
            rw (inside, some_bytes, other', other, size)
              (behind_Leaves rounds buf (pos + e.rec_len) pos e es at fits refl rest
                (omega (arith, fits, fuel)))
      ]

  -- Taking an entry out of a block of less than 64 KiB whose entries lie one behind the other leaves exactly
  -- the entries that the list operation leaves (the first entry with the inode joins the one before it, or
  -- gets the inode 0 when it is the first of the block), and fails exactly when that does; no byte behind
  -- the block is written.
  pub remove_in_block_refines :
      (buf : Buffer) (es : List Dirent)
      → Tiles buf 0 es g_block_size
      → Leaves g_block_size buf 0
          (removed child_ino es)
          (remove_in_block g_block_size g_block_size buf child_ino 0 none)
  remove_in_block_refines buf es t = start_Leaves g_block_size buf 0 es t (omega arith)
