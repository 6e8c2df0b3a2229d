-- ===== src/Vmm/Ranges/Cover.antt =====
-- The addresses that ranges cover, and what the list operations of the free list make of them.
use luminary.Base.{
  ℕ, ◌+◌, ◌*◌, ◌≤◌, ◌<◌, ◌≡◌, ◌≢◌, refl, inl, inr, true, ◌&&◌, ◌||◌, Option, none, some, List, [],
  ◌∷◌, ◌++◌, length, ltb, leb, ◌==◌, if◌then◌else◌, arith, Bool-cases,
}
use native.Mathlib.Nat.{mod-eq_of_lt}
use luminary.Pmm.{page_size, u32}
use luminary.Vmm.Ranges.{VirtRange, end_of, best_fit, unsnoc, swap_out, adjacent}

abbrev pub top_of : VirtRange → ℕ
top_of r = r.base + r.npages * page_size

-- 1 if the range has the address.
abbrev pub contains : VirtRange → ℕ → ℕ
contains r a = if leb r.base a && ltb a (top_of r) then 1 else 0

-- How many of the ranges have the address.
abbrev pub cover : List VirtRange → ℕ → ℕ
cover [] a = 0
cover (r ∷ rs) a = contains r a + cover rs a

-- No range of the list ends where this one starts, or starts where it ends.
abbrev pub IsApart : VirtRange → List VirtRange → Type 0
IsApart r [] = Unit
IsApart r (e ∷ es) = (top_of e ≢ r.base) × (top_of r ≢ e.base) × IsApart r es

-- No range reaches the end of the address space.
abbrev pub AreInside : List VirtRange → Type 0
AreInside [] = Unit
AreInside (r ∷ rs) = (top_of r < u32) × AreInside rs

pub end_of_inside : (r : VirtRange) → top_of r < u32 → end_of r ≡ top_of r
end_of_inside r inside = mod-eq_of_lt inside

pub cover-append : (rs ss : List VirtRange) (a : ℕ) → cover (rs ++ ss) a ≡ cover rs a + cover ss a
cover-append [] ss a = omega arith
cover-append (r ∷ rs) ss a = omega (arith, cover-append rs ss a)

pub AreInside-append : (rs ss : List VirtRange) → AreInside rs → AreInside ss → AreInside (rs ++ ss)
AreInside-append [] ss left right = right
AreInside-append (r ∷ rs) ss (inside, left) right = (inside, AreInside-append rs ss left right)

pub AreInside-split : (rs ss : List VirtRange) → AreInside (rs ++ ss) → AreInside rs × AreInside ss
AreInside-split [] ss all = (tt, all)
AreInside-split (r ∷ rs) ss (inside, all) =
    let (left, right) = AreInside-split rs ss all in ((inside, left), right)

unsnoc-cover :
    (r : VirtRange) (rs : List VirtRange) (a : ℕ)
    → contains (unsnoc r rs).1 a + cover (unsnoc r rs).0 a ≡ contains r a + cover rs a
unfolding unsnoc
unsnoc-cover r [] a = refl
unsnoc-cover r (s ∷ rs) a = omega (arith, unsnoc-cover s rs a)

unsnoc-AreInside :
    (r : VirtRange) (rs : List VirtRange)
    → AreInside (r ∷ rs)
    → (top_of (unsnoc r rs).1 < u32) × AreInside (unsnoc r rs).0
unfolding unsnoc
unsnoc-AreInside r [] (inside, all) = (inside, tt)
unsnoc-AreInside r (s ∷ rs) (inside, all) =
    let (last, front) = unsnoc-AreInside s rs all in (last, (inside, front))

pub swap_out-cover :
    (before after : List VirtRange) (a : ℕ)
    → cover (swap_out before after) a ≡ cover before a + cover after a
unfolding swap_out
swap_out-cover before [] a = omega arith
swap_out-cover before (r ∷ rs) a =
    omega (arith, cover-append before ((unsnoc r rs).1 ∷ (unsnoc r rs).0) a, unsnoc-cover r rs a)

pub swap_out-AreInside :
    (before after : List VirtRange)
    → AreInside before
    → AreInside after
    → AreInside (swap_out before after)
unfolding swap_out
swap_out-AreInside before [] left right = left
swap_out-AreInside before (r ∷ rs) left right =
    AreInside-append before ((unsnoc r rs).1 ∷ (unsnoc r rs).0) left (unsnoc-AreInside r rs right)

-- An entry between those before and behind it.
pub record Between (free : List VirtRange) (before : List VirtRange) (e : VirtRange)
    (after : List VirtRange) : Type 0 where
  pub total : (a : ℕ) → cover free a ≡ cover before a + contains e a + cover after a
  pub inside : AreInside free → AreInside before × (top_of e < u32) × AreInside after
  pub count : length free ≡ length before + length after + 1

Between-here : (r : VirtRange) (rs : List VirtRange) → Between (r ∷ rs) [] r rs
Between-here r rs = record {
  total = λ a. omega arith;
  inside = λ (top, all). (tt, top, all);
  count = omega arith;
}

Between-later :
    (r : VirtRange) {rs before : List VirtRange} {e : VirtRange} {after : List VirtRange}
    → Between rs before e after
    → Between (r ∷ rs) (r ∷ before) e after
Between-later r b = record {
  total = λ a. omega (arith, b.total a);
  inside = λ (top, all). (let (left, it, right) = b.inside all in ((top, left), it, right));
  count = omega (arith, b.count);
}

-- What a search for an entry found.
abbrev pub Found :
    List VirtRange
    → (VirtRange → Type 0)
    → Option (List VirtRange × VirtRange × List VirtRange)
    → Type 0
Found free P none = Unit
Found free P (some (before, e, after)) = Between free before e after × P e

pub best_fit-Found :
    (n : ℕ) (free : List VirtRange) → Found free (λ e. n ≤ e.npages) (best_fit n free)
unfolding best_fit
best_fit-Found n [] = tt
best_fit-Found n (r ∷ rs) = round (best_fit n rs) (best_fit-Found n rs)
  where
    round :
        (found : Option (List VirtRange × VirtRange × List VirtRange))
        → Found rs (λ e. n ≤ e.npages) found
        → Found
            (r ∷ rs)
            (λ e. n ≤ e.npages)
            (elim found [
              | none ↦ if leb n r.npages then some ([], r, rs) else none
              | some (before, best, after) ↦
                  if leb n r.npages && leb r.npages best.npages
                  then some ([], r, rs)
                  else some (r ∷ before, best, after)
            ])
    round none h = elim (Bool-cases (leb n r.npages)) [
      | inl fits ↦ rw fits (Between-here r rs, ground (arith, fits))
      | inr small ↦ rw small tt
    ]
    round (some (before, best, after)) (b, large) =
        elim (Bool-cases (leb n r.npages && leb r.npages best.npages)) [
          | inl fits ↦ rw fits (Between-here r rs, ground (arith, fits))
          | inr other ↦ rw other (Between-later r b, large)
        ]

abbrev pub Touches : VirtRange → VirtRange → Type 0
Touches new e = (end_of e == new.base || end_of new == e.base) ≡ true

pub adjacent-Found :
    (new : VirtRange) (free : List VirtRange) → Found free (Touches new) (adjacent new free)
unfolding adjacent
adjacent-Found new [] = tt
adjacent-Found new (r ∷ rs) = elim (Bool-cases (end_of r == new.base || end_of new == r.base)) [
  | inl here ↦ rw here (Between-here r rs, here)
  | inr apart ↦ rw apart (round (adjacent new rs) (adjacent-Found new rs))
]
  where
    round :
        (found : Option (List VirtRange × VirtRange × List VirtRange))
        → Found rs (Touches new) found
        → Found
            (r ∷ rs)
            (Touches new)
            (elim found as (λ x. Option (List VirtRange × VirtRange × List VirtRange)) [
              | none ↦ none
              | some (before, e, after) ↦ some (r ∷ before, e, after)
            ])
    round none h = tt
    round (some (before, e, after)) (b, touches) = (Between-later r b, touches)
