-- ===== src/Ext2/Alloc/Search.antt =====
-- What the allocators of src/fs/ext2.c find.
use luminary.Base.{
  ℕ, zero, suc, ◌+◌, ◌≤◌, ◌<◌, ◌≡◌, ◌≢◌, ◌⊎◌, inl, inr, refl, ap, subst, ◌∙◌, Bool, true, false,
  none, some, ◌==◌, arith, Bool-cases, Option-cases,
}
use luminary.Ext2.Alloc.{first_clear, find_in}

first_clear-here :
    (left lo : ℕ) (b : ℕ → Bool) (i : ℕ)
    → lo ≤ i
    → i < lo + left
    → b i ≡ false
    → ((j : ℕ) → lo ≤ j → j < i → b j ≡ true)
    → first_clear left lo b ≡ some i
unfolding first_clear
first_clear-here zero lo b i low high clear before = absurd (omega arith)
first_clear-here (suc left) lo b i low high clear before = elim (Bool-cases (lo == i)) [
  | inl same ↦
      let e : lo ≡ i = ground (arith, same) in
      let here : b lo ≡ false = ap b e ∙ clear in rw here (ap (λ n. some n) e)
  | inr other ↦
      let set : b lo ≡ true = before lo (omega arith) (ground (arith, low, other)) in
      rw set (
        first_clear-here left (lo + 1) b i (ground (arith, low, other)) (omega arith) clear
          (λ j from to. before j (omega arith) to))
]

first_clear-none :
    (left lo : ℕ) (b : ℕ → Bool)
    → ((j : ℕ) → lo ≤ j → j < lo + left → b j ≡ true)
    → first_clear left lo b ≡ none
unfolding first_clear
first_clear-none zero lo b set = refl
first_clear-none (suc left) lo b set =
    rw (set lo (omega arith) (omega arith))
      (first_clear-none left (lo + 1) b (λ j from to. set j (omega arith) (omega arith)))

-- A group that counts no free entry, or whose bits are all set.
abbrev pub IsFull : (free limit bitmap_of : ℕ → ℕ) → (ℕ → ℕ → Bool) → ℕ → Type 0
IsFull free limit bitmap_of bits g =
    (free g ≡ 0) ⊎ ((j : ℕ) → j < limit g → bits (bitmap_of g) j ≡ true)

module _ (free limit bitmap_of : ℕ → ℕ) (bits : ℕ → ℕ → Bool) where
  find_in-skip :
      (left lo : ℕ)
      → IsFull free limit bitmap_of bits lo
      → find_in free limit bitmap_of bits (suc left) lo
        ≡ find_in free limit bitmap_of bits left (lo + 1)
  unfolding find_in
  find_in-skip left lo (inr set) =
      rw
        (
          find_in,
          first_clear-none (limit lo) 0 (bits (bitmap_of lo)) (λ j from to. set j (omega arith)),
        )
        refl
  find_in-skip left lo (inl empty) =
      let nothing : (free lo == 0) ≡ true = ground (arith, empty) in
      elim (Option-cases (first_clear (limit lo) 0 (bits (bitmap_of lo)))) [
        | inl vain ↦ rw (find_in, vain) refl
        | inr (i, found) ↦ rw (find_in, found, nothing) refl
      ]

  -- The search finds the first clear bit of the first group that is not full.
  pub find_in-here :
      (left lo g i : ℕ)
      → lo ≤ g
      → g < lo + left
      → free g ≢ 0
      → i < limit g
      → bits (bitmap_of g) i ≡ false
      → ((j : ℕ) → j < i → bits (bitmap_of g) j ≡ true)
      → ((h : ℕ) → lo ≤ h → h < g → IsFull free limit bitmap_of bits h)
      → find_in free limit bitmap_of bits left lo ≡ some (g, i)
  unfolding find_in
  find_in-here zero lo g i low high some_free small clear before full = absurd (omega arith)
  find_in-here (suc left) lo g i low high some_free small clear before full =
      elim (Bool-cases (lo == g)) [
        | inl same ↦
            let e : g ≡ lo = ground (arith, same) in
            let found =
              first_clear-here (limit g) 0 (bits (bitmap_of g)) i (omega arith) (omega arith) clear
                (λ j from to. before j to) in
            let fine : (free g == 0) ≡ false = ground (arith, some_free) in
            subst (λ x. find_in free limit bitmap_of bits (suc left) x ≡ some (g, i)) e
              (rw (find_in, found, fine) refl)
        | inr other ↦
            find_in-skip left lo (full lo (omega arith) (ground (arith, low, other)))
            ∙ find_in-here left (lo + 1) g i (ground (arith, low, other)) (omega arith) some_free
                small clear before (λ h from to. full h (omega arith) to)
      ]
