-- ===== src/Base/Search.antt =====
-- The lowest place where a Boolean array is false: what a first-fit search of a bitmap finds.
use luminary.Base.{
  ℕ, ◌+◌, ◌≤◌, ◌<◌, ◌≡◌, sym, Bool, true, false, Option, none, some, arith, ltb, Bool-cases, inl,
  inr,
}

abbrev pub AllSet : (ℕ → Bool) → ℕ → ℕ → Type 0
AllSet t lo hi = (j : ℕ) → lo ≤ j → j < hi → t j ≡ true

-- The lowest false place from `lo` up to `hi`, if there is one.
abbrev pub IsLowest : (ℕ → Bool) → ℕ → ℕ → Option ℕ → Type 0
IsLowest t lo hi none = AllSet t lo hi
IsLowest t lo hi (some i) = (lo ≤ i) × (i < hi) × (t i ≡ false) × AllSet t lo i

module _ (t : ℕ → Bool) where
  pub AllSet-join : (lo mid hi : ℕ) → AllSet t lo mid → AllSet t mid hi → AllSet t lo hi
  AllSet-join lo mid hi low high j h h' = elim (Bool-cases (ltb j mid)) [
    | inl below ↦ low j h (ground arith)
    | inr above ↦ high j (ground arith) h'
  ]

  pub AllSet-one : (i : ℕ) → t i ≡ true → AllSet t i (i + 1)
  AllSet-one i set j h h' = let same : i ≡ j = omega arith in rw (sym same) set

  pub IsLowest-skip :
      (lo mid hi : ℕ) (found : Option ℕ)
      → lo ≤ mid
      → AllSet t lo mid
      → IsLowest t mid hi found
      → IsLowest t lo hi found
  IsLowest-skip lo mid hi none h set lowest = AllSet-join lo mid hi set lowest
  IsLowest-skip lo mid hi (some i) h set lowest =
      (omega arith, lowest.1, lowest.2, AllSet-join lo mid i set lowest.3)
