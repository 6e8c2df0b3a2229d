-- ===== src/Ext2/Alloc/RoundTrip.antt =====
-- A block that is allocated and freed again, src/fs/ext2.c.
use luminary.Base.{
  ℕ, ◌+◌, ◌-◌, ◌*◌, ◌/◌, ◌%◌, ◌<◌, ◌≡◌, ◌≢◌, refl, sym, ap, ap₂, subst, ◌∙◌, Bool, true, false,
  some, leb, ◌==◌, ◌≤◌, ◌⊎◌, ◌&&◌, inl, inr, min, if◌then◌else◌, update, update_self, update_ne,
  arith,
}
use native.Mathlib.Decide.{ℕ_discrete}
use native.Mathlib.Nat.{
  mod-eq_of_lt, mul-add-div_right, div-eq_of_lt, mod-eq-sub-div-mul, mul-le-mul_right,
}
use luminary.Ext2.Alloc.{
  Volume, Superblock, Bgd, u32, blocks_in_group, find_block, set_bit, ext2_alloc_block,
  ext2_free_block,
}
use luminary.Ext2.Alloc.Search.{find_in-here}

-- Setting a clear bit and clearing it again.
clear-set :
    (bits : ℕ → ℕ → Bool) (block i : ℕ)
    → bits block i ≡ false
    → (b j : ℕ) → set_bit (set_bit bits block i true) block i false b j ≡ bits b j
clear-set bits block i clear b j = ground (arith, clear)

-- Where the number of a block leads back to.
offset_back :
    (offset first : ℕ)
    → offset + first < u32
    → ((offset + first) % u32 + u32 - first) % u32 ≡ offset
offset_back offset first fits = omega arith

block_at : (g i per : ℕ) → i < per → ((g * per + i) / per ≡ g) × ((g * per + i) % per ≡ i)
block_at g i per small =
    let some_blocks : 0 < per = omega arith in
    let whole : (g * per + i) / per ≡ g =
      mul-add-div_right some_blocks g i ∙ ap (λ q. g + q) (div-eq_of_lt small) ∙ omega arith in
    (
      whole,
      mod-eq-sub-div-mul (g * per + i) per ∙ ap (λ q. g * per + i - q * per) whole ∙ omega arith,
    )

-- The volume after an allocation.
abbrev taken : Volume → (g i : ℕ) → Volume
taken v g i =
    let d = v.g_bgds g in
    let bgds = update v.g_bgds g (record d { bg_free_blocks_count = d.bg_free_blocks_count - 1 }) in
    record v {
      g_bgds = bgds;
      disk_bgds = bgds;
      bits = set_bit v.bits d.bg_block_bitmap i true;
      sb = record v.sb { s_free_blocks_count = v.sb.s_free_blocks_count - 1 };
    }

alloc_made :
    (v : Volume) (g i : ℕ)
    → find_block v ≡ some (g, i)
    → ext2_alloc_block true true v
      ≡ ((g * v.sb.s_blocks_per_group + i + v.sb.s_first_data_block) % u32, taken v g i)
unfolding ext2_alloc_block
alloc_made v g i found = rw (ext2_alloc_block, found) refl

-- The volume after the bit `idx` of a group is given back.
abbrev given : Volume → (group idx : ℕ) → Volume
given v group idx =
    let d = v.g_bgds group in
    let bgds =
      update v.g_bgds group
        (record d { bg_free_blocks_count = (d.bg_free_blocks_count + 1) % 65536 }) in
    record v {
      g_bgds = bgds;
      disk_bgds = bgds;
      bits = set_bit v.bits d.bg_block_bitmap idx false;
      sb = record v.sb { s_free_blocks_count = (v.sb.s_free_blocks_count + 1) % u32 };
    }

free_made :
    (v : Volume) (n : ℕ)
    → n ≢ 0
    → let at = (n + u32 - v.sb.s_first_data_block) % u32 in
      at / v.sb.s_blocks_per_group < v.g_bg_count
      → ext2_free_block true true n v
        ≡ given v (at / v.sb.s_blocks_per_group) (at % v.sb.s_blocks_per_group)
unfolding ext2_free_block
free_made v n nonzero inside =
    let some_block : (n == 0) ≡ false = ground (arith, nonzero) in
    let in_table : leb v.g_bg_count
          ((n + u32 - v.sb.s_first_data_block) % u32 / v.sb.s_blocks_per_group)
        ≡ false =
      ground (arith, inside) in
    rw (some_block, in_table) refl

-- What of a volume an allocation changes is the same.
abbrev pub SameFree : (w v : Volume) → Type 0
SameFree w v =
    ((b j : ℕ) → w.bits b j ≡ v.bits b j)
    × ((h : ℕ) → (w.g_bgds h).bg_free_blocks_count ≡ (v.g_bgds h).bg_free_blocks_count)
    × (w.sb.s_free_blocks_count ≡ v.sb.s_free_blocks_count)

given-taken :
    (v : Volume) (g i : ℕ)
    → v.bits (v.g_bgds g).bg_block_bitmap i ≡ false
    → (v.g_bgds g).bg_free_blocks_count ≢ 0
    → (v.g_bgds g).bg_free_blocks_count < 65536
    → 0 < v.sb.s_free_blocks_count
    → v.sb.s_free_blocks_count < u32
    → SameFree (given (taken v g i) g i) v
given-taken v g i clear some_free count sb_count sb_limit =
    let d = v.g_bgds g in
    let d' : Bgd = record d { bg_free_blocks_count = d.bg_free_blocks_count - 1 } in
    let bgds = update v.g_bgds g d' in
    let at = update_self v.g_bgds g d' in
    let back : (d.bg_free_blocks_count - 1 + 1) % 65536 ≡ d.bg_free_blocks_count =
      omega (arith, some_free, count) in
    (
      λ b j.
          ap (λ x. set_bit (taken v g i).bits x.bg_block_bitmap i false b j) at
          ∙ clear-set v.bits d.bg_block_bitmap i clear b j,
      λ h. elim (ℕ_discrete g h) [
        | yes here ↦
            ap (λ q. (((given (taken v g i) g i).g_bgds) q).bg_free_blocks_count) (sym here)
            ∙ ap (λ x. x.bg_free_blocks_count) (update_self bgds g _)
            ∙ ap (λ x. (x.bg_free_blocks_count + 1) % 65536) at
            ∙ back
            ∙ ap (λ q. (v.g_bgds q).bg_free_blocks_count) here
        | no other ↦
            ap (λ x. x.bg_free_blocks_count) (update_ne bgds _ other ∙ update_ne v.g_bgds d' other)
      ],
      omega (arith, sb_count, sb_limit),
    )

-- How many blocks the superblock gives a group.
abbrev pub blocks_of : Superblock → (g : ℕ) → ℕ
blocks_of sb g = min sb.s_blocks_per_group (sb.s_blocks_count - g * sb.s_blocks_per_group)

-- The first clear bit of the first group that counts a free block and has a clear bit.
pub record IsFirstFree (v : Volume) (g i : ℕ) : Type 0 where
  pub group : g < v.g_bg_count
  pub counted : (v.g_bgds g).bg_free_blocks_count ≢ 0
  pub inside : i < blocks_of v.sb g
  pub clear : v.bits (v.g_bgds g).bg_block_bitmap i ≡ false
  pub before : (j : ℕ) → j < i → v.bits (v.g_bgds g).bg_block_bitmap j ≡ true
  pub full :
      (h : ℕ)
      → h < g
      → ((v.g_bgds h).bg_free_blocks_count ≡ 0)
        ⊎ ((j : ℕ) → j < blocks_of v.sb h → v.bits (v.g_bgds h).bg_block_bitmap j ≡ true)

blocks_in_group_lem :
    (sb : Superblock) (g : ℕ)
    → sb.s_blocks_count < u32
    → g * sb.s_blocks_per_group ≤ sb.s_blocks_count
    → blocks_in_group sb g ≡ blocks_of sb g
blocks_in_group_lem sb g count from =
    let start = g * sb.s_blocks_per_group in
    let whole : start % u32 ≡ start = mod-eq_of_lt (omega (arith, count, from)) in
    let left : (sb.s_blocks_count + u32 - start % u32) % u32 ≡ sb.s_blocks_count - start =
      ap (λ q. (sb.s_blocks_count + u32 - q) % u32) whole ∙ omega (arith, count, from) in
    rw left (ground arith)

find_block-here :
    (v : Volume) (g i : ℕ)
    → v.sb.s_blocks_count < u32
    → IsFirstFree v g i
    → find_block v ≡ some (g, i)
find_block-here v g i count f =
    let inside = f.inside in
    let from : g * v.sb.s_blocks_per_group ≤ v.sb.s_blocks_count = omega (arith, inside) in
    find_in-here (λ h. (v.g_bgds h).bg_free_blocks_count) (blocks_in_group v.sb)
      (λ h. (v.g_bgds h).bg_block_bitmap) v.bits v.g_bg_count 0 g i (omega arith)
      (omega (arith, f.group)) f.counted
      (subst (λ n. i < n) (sym (blocks_in_group_lem v.sb g count from)) inside) f.clear f.before
      (λ h low high.
        (let earlier =
            mul-le-mul_right {m = h} {n = g} v.sb.s_blocks_per_group (omega (arith, high)) in
          elim (f.full h high) [
            | inl empty ↦ inl empty
            | inr set ↦ inr (λ j small. set j (
                subst (λ n. j < n) (blocks_in_group_lem v.sb h count (omega (arith, earlier, from)))
                  small))
          ]))

-- With memory, ext2_alloc_block returns the number of the first clear bit of the first group that counts a free block
-- and has a clear bit, sets that bit and no other, and counts one block less in that group and in the superblock.
-- Freeing that block gives back every bit of every bitmap, the count of every group and that of the superblock. The
-- number is neither 0 nor past 2^32, the counts fit their bits, and the superblock counts a free block.
pub free-alloc_block :
    (v : Volume) (g i : ℕ)
    → v.sb.s_blocks_count < u32
    → IsFirstFree v g i
    → g * v.sb.s_blocks_per_group + i + v.sb.s_first_data_block < u32
    → g * v.sb.s_blocks_per_group + i + v.sb.s_first_data_block ≢ 0
    → (v.g_bgds g).bg_free_blocks_count < 65536
    → 0 < v.sb.s_free_blocks_count
    → v.sb.s_free_blocks_count < u32
    → let (block_no, v') = ext2_alloc_block true true v in
      (block_no ≡ g * v.sb.s_blocks_per_group + i + v.sb.s_first_data_block)
      × ((b j : ℕ)
          → v'.bits b j
            ≡ (if b == (v.g_bgds g).bg_block_bitmap && j == i then true else v.bits b j))
      × ((v'.g_bgds g).bg_free_blocks_count + 1 ≡ (v.g_bgds g).bg_free_blocks_count)
      × (v'.sb.s_free_blocks_count + 1 ≡ v.sb.s_free_blocks_count)
      × SameFree (ext2_free_block true true block_no v') v
free-alloc_block v g i limit f fits nonzero count sb_count sb_limit =
    let per = v.sb.s_blocks_per_group in
    let first = v.sb.s_first_data_block in
    let d = v.g_bgds g in
    let number : (g * per + i + first) % u32 ≡ g * per + i + first = mod-eq_of_lt fits in
    let inside : i < per = omega (arith, f.inside) in
    let (whole, rest) = block_at g i per inside in
    let off = offset_back (g * per + i) first fits in
    let group = ap (λ q. q / per) off ∙ whole in
    let freed =
      free_made (taken v g i) ((g * per + i + first) % u32) (λ e. nonzero (sym number ∙ e))
        (subst (λ q. q < v.g_bg_count) (sym group) f.group)
      ∙ ap₂ (given (taken v g i)) group (ap (λ q. q % per) off ∙ rest) in
    subst
      (λ r.
        (r.0 ≡ g * per + i + first)
        × ((b j : ℕ)
            → r.1.bits b j ≡ (if b == d.bg_block_bitmap && j == i then true else v.bits b j))
        × ((r.1.g_bgds g).bg_free_blocks_count + 1 ≡ d.bg_free_blocks_count)
        × (r.1.sb.s_free_blocks_count + 1 ≡ v.sb.s_free_blocks_count)
        × SameFree (ext2_free_block true true r.0 r.1) v)
      (sym (alloc_made v g i (find_block-here v g i limit f)))
      (
        number,
        λ b j. ground arith,
        ap (λ e. e.bg_free_blocks_count + 1) (update_self v.g_bgds g _) ∙ omega (arith, f.counted),
        omega (arith, sb_count),
        subst (λ w. SameFree w v) (sym freed)
            (given-taken v g i f.clear f.counted count sb_count sb_limit),
      )
