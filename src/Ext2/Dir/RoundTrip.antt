-- ===== src/Ext2/Dir/RoundTrip.antt =====
-- An entry that is added to a block and taken out again, src/fs/ext2.c.
use luminary.Base.{
  ℕ, ◌≤◌, ◌<◌, ◌≡◌, inl, inr, refl, ap, subst, ◌∙◌, true, false, none, some, List, [], ◌∷◌, ◌++◌,
  length, ◌==◌, arith,
}
use luminary.Vfs.{u32}
use luminary.Ext2.Dir.{Buffer, Dirent, entry_size, remove_in_block, add_in_block}
use luminary.Ext2.Dir.Tiles.{Tiles, Tiles-split, dirent_of}
use luminary.Ext2.Dir.Remove.{
  merged, keep, removed_behind, removed, Leaves, remove_in_block_refines,
}
use luminary.Ext2.Dir.Add.{shrunk, slack_of, added, add_in_block_lem}

-- No entry has the inode.
abbrev pub HasNone : (child_ino : ℕ) → List Dirent → Type 0
HasNone child_ino [] = Unit
HasNone child_ino (e ∷ es) = ((e.inode == child_ino) ≡ false) × HasNone child_ino es

-- An entry of an inode that no entry before it has is merged into the one before it.
HasNone-shrunk :
    (child_ino : ℕ) (front : List Dirent) (e : Dirent)
    → HasNone child_ino (front ++ (e ∷ []))
    → HasNone child_ino (front ++ (shrunk e ∷ []))
HasNone-shrunk child_ino [] e h = h
HasNone-shrunk child_ino (d ∷ ds) e (other, rest) = (other, HasNone-shrunk child_ino ds e rest)

removed_behind-last :
    (child_ino : ℕ) (prev : Dirent) (front : List Dirent) (e new : Dirent)
    → HasNone child_ino (front ++ (e ∷ []))
    → new.inode ≡ child_ino
    → removed_behind child_ino prev (front ++ (e ∷ new ∷ []))
      ≡ some (prev ∷ (front ++ (merged e new ∷ [])))
unfolding removed_behind
removed_behind-last child_ino prev [] e new (other, _) same =
    let it : (new.inode == child_ino) ≡ true = ground (arith, same) in rw (other, it) refl
removed_behind-last child_ino prev (d ∷ ds) e new (other, rest) same =
    rw other (ap (keep prev) (removed_behind-last child_ino d ds e new rest same))

removed-last :
    (child_ino : ℕ) (front : List Dirent) (e new : Dirent)
    → HasNone child_ino (front ++ (e ∷ []))
    → new.inode ≡ child_ino
    → removed child_ino (front ++ (e ∷ new ∷ [])) ≡ some (front ++ (merged e new ∷ []))
unfolding removed removed_behind
removed-last child_ino [] e new (other, _) same =
    let it : (new.inode == child_ino) ≡ true = ground (arith, same) in rw (other, it) refl
removed-last child_ino (d ∷ ds) e new (other, rest) same =
    rw other (removed_behind-last child_ino d ds e new rest same)

-- The slack goes back to the entry that had it.
merged-shrunk :
    (e : Dirent) (child_ino : ℕ) (name : List ℕ) (file_type : ℕ)
    → entry_size e.name_len ≤ e.rec_len
    → merged (shrunk e) (added e child_ino name file_type) ≡ e
merged-shrunk e child_ino name file_type fits = dirent_of refl (omega (arith, fits)) refl refl refl

-- In a block of less than 64 KiB whose entries lie one behind the other, a new entry that fits into the
-- slack of the last one, taken out again by an inode that no other entry has, leaves exactly the entries
-- that the block had, each as long as it was.
pub remove-add_in_block :
    (g_block_size : ℕ) (buf : Buffer) (child_ino : ℕ) (name : List ℕ) (file_type : ℕ)
    (front : List Dirent) (e : Dirent)
    → Tiles buf 0 (front ++ (e ∷ [])) g_block_size
    → HasNone child_ino (front ++ (e ∷ []))
    → g_block_size < 65536
    → child_ino < u32
    → length name < 256
    → entry_size (length name) ≤ slack_of e
    → (buf' : Buffer) × (buf'' : Buffer) × (add_in_block g_block_size buf child_ino name file_type
        ≡ some buf')
      × (remove_in_block g_block_size g_block_size buf' child_ino 0 none ≡ some buf'')
      × Tiles buf'' 0 (front ++ (e ∷ [])) g_block_size
remove-add_in_block g_block_size buf child_ino name file_type front e t none_has small ino short
      room =
    let (at, before, (here, fits, end)) = Tiles-split buf 0 front (e ∷ []) g_block_size t in
    elim (add_in_block_lem g_block_size buf child_ino name file_type front e t small ino short) [
      | inr (full, _) ↦ absurd (omega (arith, full, room))
      | inl (_, (buf', made, t', _)) ↦
          let new = added e child_ino name file_type in
          let spec : removed child_ino (front ++ (shrunk e ∷ new ∷ [])) ≡ some (front ++ (e ∷ [])) =
            removed-last child_ino front (shrunk e) new (HasNone-shrunk child_ino front e none_has)
              refl
            ∙ ap (λ d. some (front ++ (d ∷ []))) (merged-shrunk e child_ino name file_type fits) in
          let (buf'', gone, t'', _) =
            subst
              (λ r.
                Leaves g_block_size buf' 0 r
                  (remove_in_block g_block_size g_block_size buf' child_ino 0 none))
              spec
              (remove_in_block_refines g_block_size child_ino small buf'
                (front ++ (shrunk e ∷ new ∷ [])) t') in
          (buf', buf'', made, gone, t'')
    ]
