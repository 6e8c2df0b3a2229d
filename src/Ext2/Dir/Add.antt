-- ===== src/Ext2/Dir/Add.antt =====
-- An entry that goes into the slack of a block's last one, ext2_dir_add_entry of src/fs/ext2.c.
use luminary.Base.{
  ℕ, ◌+◌, ◌-◌, ◌%◌, ◌≤◌, ◌<◌, ◌≡◌, ◌⊎◌, inl, inr, refl, ap, ◌∙◌, none, some, List, [], ◌∷◌, ◌++◌,
  length, take, take-fits, leb, if◌then◌else◌, arith, Bool-cases,
}
use native.Mathlib.Nat.{mod-eq_of_lt}
use luminary.Vfs.{u32}
use luminary.Vfs.File.{copy_in}
use luminary.Vfs.File.Contents.{copy_in_outside}
use luminary.Ext2.Dir.{
  Buffer, Dirent, dirent_at, dirent_bytes, set_rec_len, entry_size, add_in_block,
}
use luminary.Ext2.Dir.Tiles.{
  Tiles, Tiles-split, Tiles-append, Tiles-same, dirent_at-same, last_entry-Tiles,
}
use luminary.Ext2.Dir.Store.{stored_dirent, stored_rec_len, set_rec_len-outside}

-- The last entry without its slack, and the entry that takes the slack.
abbrev pub shrunk : Dirent → Dirent
shrunk e = record e { rec_len = entry_size e.name_len }

abbrev pub slack_of : Dirent → ℕ
slack_of e = e.rec_len - entry_size e.name_len

abbrev pub added : Dirent → (child_ino : ℕ) → (name : List ℕ) → (file_type : ℕ) → Dirent
added e child_ino name file_type = record {
  inode = child_ino;
  rec_len = slack_of e;
  name_len = length name;
  file_type = file_type;
  name = name;
}

module _ (g_block_size : ℕ) (buf : Buffer) (child_ino file_type at : ℕ) (name : List ℕ)
    (front : List Dirent) (e : Dirent) (before : Tiles buf 0 front at) (here : dirent_at buf at ≡ e)
    (fits : entry_size e.name_len ≤ e.rec_len) (end : at + e.rec_len ≡ g_block_size)
    (small : g_block_size < 65536) (ino : child_ino < u32) (short : length name < 256) where
  abbrev new_entry : Dirent
  new_entry = added e child_ino name file_type

  abbrev after_add : Buffer
  after_add =
      copy_in (set_rec_len buf at (entry_size e.name_len)) (at + entry_size e.name_len)
        (dirent_bytes new_entry)

  add_made :
      add_in_block g_block_size buf child_ino name file_type
      ≡ (if leb (entry_size (length name)) (slack_of e) then some after_add else none)
  unfolding add_in_block
  add_made =
      let found =
        last_entry-Tiles g_block_size g_block_size buf 0 front e at none before (here, fits, end)
          (omega arith) in
      let wraps : (e.rec_len + u32 - entry_size e.name_len) % u32 ≡ slack_of e =
        omega (arith, fits, end, small) in
      let len : length name % 256 ≡ length name = mod-eq_of_lt short in
      let whole : take (length name) name ≡ name = take-fits name (length name) (omega arith) in
      let half : entry_size e.name_len % 65536 ≡ entry_size e.name_len =
        mod-eq_of_lt (omega (arith, fits, end, small)) in
      let rest : slack_of e % 65536 ≡ slack_of e = mod-eq_of_lt (omega (arith, fits, end, small)) in
      let n = ap (λ d. d.name_len) here in
      let r = ap (λ d. d.rec_len) here in
      rw (add_in_block, found, n, r, wraps, len, whole, half, rest) refl

  length-dirent_bytes : length (dirent_bytes new_entry) ≡ 8 + length name
  length-dirent_bytes = omega arith

  after_add_outside :
      (i : ℕ)
      → (i < at + entry_size e.name_len) ⊎ (at + entry_size e.name_len + (8 + length name) ≤ i)
      → after_add i ≡ set_rec_len buf at (entry_size e.name_len) i
  after_add_outside i out =
      copy_in_outside _ (at + entry_size e.name_len) (dirent_bytes new_entry) i
        (ground (arith, out, length-dirent_bytes))

  after_add-Tiles :
      entry_size (length name) ≤ slack_of e
      → Tiles after_add 0 (front ++ (shrunk e ∷ new_entry ∷ [])) g_block_size
  after_add-Tiles room =
      let actual = entry_size e.name_len in
      let half : actual < 65536 = omega (arith, fits, end, small) in
      let size = ap (λ d. d.name_len) here in
      let old : (i : ℕ) → i < at → after_add i ≡ buf i = λ i below.
        after_add_outside i (inl (omega (arith, below)))
        ∙ set_rec_len-outside buf at actual i (inl (omega (arith, below))) in
      let rec_set : dirent_at (set_rec_len buf at actual) at ≡ shrunk e =
        stored_rec_len buf at actual half
        ∙ ap {A = Dirent} {B = Dirent} (λ d. record d { rec_len = actual }) here in
      let width = ap (λ d. d.name_len) rec_set in
      let last : dirent_at after_add at ≡ shrunk e =
        dirent_at-same (set_rec_len buf at actual) after_add at
          (λ i from to. after_add_outside i (inl (omega (arith, to, width))))
        ∙ rec_set in
      let made : dirent_at after_add (at + actual) ≡ new_entry =
        stored_dirent (set_rec_len buf at actual) (at + actual) new_entry ino
          (omega (arith, fits, end, small)) refl in
      Tiles-append after_add 0 front (shrunk e ∷ new_entry ∷ []) at g_block_size
        (Tiles-same buf after_add 0 front at (λ i from to. old i to) before)
        (last, omega arith, (made, room, omega (arith, fits, end)))

  -- No byte behind the block is written.
  after_add_inside :
      entry_size (length name) ≤ slack_of e → (i : ℕ) → g_block_size ≤ i → after_add i ≡ buf i
  after_add_inside room i from =
      after_add_outside i (inr (omega (arith, room, fits, end, from)))
      ∙ set_rec_len-outside buf at (entry_size e.name_len) i
          (inr (omega (arith, room, fits, end, from)))

-- In a block of less than 64 KiB whose entries lie one behind the other, a new entry with a name of at
-- most 255 bytes goes into the slack of the last one exactly when its name needs no more than that: the
-- last entry keeps what its own name needs, the new one takes the rest up to the end of the block, all
-- others stay, and no byte behind the block is written.
pub add_in_block_lem :
    (g_block_size : ℕ) (buf : Buffer) (child_ino : ℕ) (name : List ℕ) (file_type : ℕ)
    (front : List Dirent) (e : Dirent)
    → Tiles buf 0 (front ++ (e ∷ [])) g_block_size
    → g_block_size < 65536
    → child_ino < u32
    → length name < 256
    → ((entry_size (length name) ≤ slack_of e)
        × ((buf' : Buffer) × (add_in_block g_block_size buf child_ino name file_type ≡ some buf')
            × Tiles buf' 0
                (front ++ (shrunk e ∷ added e child_ino name file_type ∷ []))
                g_block_size
            × ((i : ℕ) → g_block_size ≤ i → buf' i ≡ buf i)))
      ⊎ ((slack_of e < entry_size (length name))
          × (add_in_block g_block_size buf child_ino name file_type ≡ none))
add_in_block_lem g_block_size buf child_ino name file_type front e t small ino short =
    let (at, before, (here, fits, end)) = Tiles-split buf 0 front (e ∷ []) g_block_size t in
    let made =
      add_made g_block_size buf child_ino file_type at name front e before here fits end small ino
        short in
    elim (Bool-cases (leb (entry_size (length name)) (slack_of e))) [
      | inl on ↦
          let room : entry_size (length name) ≤ slack_of e = ground (arith, on) in
          inl (
            room,
            (
              _,
              made ∙ rw on refl,
              after_add-Tiles g_block_size buf child_ino file_type at name front e before here fits
                  end small ino short room,
              after_add_inside g_block_size buf child_ino file_type at name front e before here fits
                  end small ino short room,
            ),
          )
      | inr off ↦ inr (ground (arith, off), made ∙ rw off refl)
    ]
