-- ===== src/Vmm/Ranges/Coalesce.antt =====
-- The merging of ranges that touch.
use luminary.Base.{
  ℕ, zero, suc, ◌+◌, ◌≤◌, ◌<◌, ◌≡◌, refl, inl, inr, Option, none, some, List, [], ◌∷◌, length, ◌||◌,
  Option-cases, length-append, ◌==◌, arith, Bool-cases,
}
use luminary.Pmm.{u32}
use luminary.Vmm.Ranges.{VirtRange, end_of, unsnoc, swap_out, adjacent, merge, coalesce}
use luminary.Vmm.Ranges.Cover.{
  top_of, contains, cover, AreInside, IsApart, end_of_inside, Between, Found, Touches,
  adjacent-Found, swap_out-cover, swap_out-AreInside,
}

-- Two ranges that touch make one.
merge-contains :
    (e new : VirtRange)
    → top_of e < u32
    → top_of new < u32
    → Touches new e
    → (top_of (merge e new) < u32)
      × ((a : ℕ) → contains (merge e new) a ≡ contains e a + contains new a)
merge-contains e new inside inside' touches =
    let low = end_of_inside e inside in
    let high = end_of_inside new inside' in
    elim (Bool-cases (end_of e == new.base)) [
      | inl before ↦
          let at : top_of e ≡ new.base = ground (arith, low, before) in
          rw before (omega (arith, at), λ a. ground (arith, at))
      | inr other ↦
          let at : top_of new ≡ e.base = ground (arith, high, other, touches) in
          rw other (omega (arith, at), λ a. ground (arith, at))
    ]

length-unsnoc : (r : VirtRange) (rs : List VirtRange) → length (unsnoc r rs).0 ≡ length rs
unfolding unsnoc
length-unsnoc r [] = refl
length-unsnoc r (s ∷ rs) = omega (arith, length-unsnoc s rs)

pub length-swap_out :
    (before after : List VirtRange) → length (swap_out before after) ≡ length before + length after
unfolding swap_out
length-swap_out before [] = omega arith
length-swap_out before (r ∷ rs) =
    omega (arith, length-append before ((unsnoc r rs).1 ∷ (unsnoc r rs).0), length-unsnoc r rs)

-- What the loop makes of a range and a list of ranges.
pub record Coalesced (new : VirtRange) (free : List VirtRange) (r : VirtRange)
    (free' : List VirtRange) : Type 0 where
  pub total : (a : ℕ) → contains r a + cover free' a ≡ contains new a + cover free a
  pub top : top_of r < u32
  pub inside : AreInside free'
  pub fewer : length free' ≤ length free
  pub has : (a : ℕ) → contains new a ≤ contains r a
  pub apart : IsApart r free'

coalesce-step :
    (new : VirtRange) (free before : List VirtRange) (e : VirtRange) (after : List VirtRange)
    (r : VirtRange) (free' : List VirtRange)
    → top_of new < u32
    → AreInside free
    → Between free before e after
    → Touches new e
    → Coalesced (merge e new) (swap_out before after) r free'
    → Coalesced new free r free'
coalesce-step new free before e after r free' top inside b touches c =
    let (left, it, right) = b.inside inside in
    let (_, both) = merge-contains e new it top touches in
    record {
      total = λ a. omega (arith, c.total a, both a, swap_out-cover before after a, b.total a);
      top = c.top;
      inside = c.inside;
      fewer = omega (arith, c.fewer, length-swap_out before after, b.count);
      has = λ a. omega (arith, c.has a, both a);
      apart = c.apart;
    }

-- Where the search finds nothing, nothing touches.
adjacent-IsApart :
    (new : VirtRange) (free : List VirtRange)
    → top_of new < u32
    → AreInside free
    → adjacent new free ≡ none
    → IsApart new free
unfolding adjacent
adjacent-IsApart new [] top inside vain = tt
adjacent-IsApart new (r ∷ rs) top (it, inside) vain =
    let low = end_of_inside r it in
    let high = end_of_inside new top in
    elim (Bool-cases (end_of r == new.base || end_of new == r.base)) [
      | inl here ↦
          let found : adjacent new (r ∷ rs) ≡ some ([], r, rs) = rw (adjacent, here) refl in
          absurd cc
      | inr other ↦ elim (Option-cases (adjacent new rs)) [
        | inl later ↦ (
          λ e. ground (arith, other, low, e),
          λ e. ground (arith, other, high, e),
          adjacent-IsApart new rs top inside later,
        )
        | inr ((before, e, after), later) ↦
            let found : adjacent new (r ∷ rs) ≡ some (r ∷ before, e, after) =
              rw (adjacent, other, later) refl in
            absurd cc
      ]
    ]

pub coalesce-Coalesced :
    (rounds : ℕ) (new : VirtRange) (free : List VirtRange)
    → top_of new < u32
    → AreInside free
    → length free ≤ rounds
    → let (r, free') = coalesce rounds new free in Coalesced new free r free'
unfolding coalesce
coalesce-Coalesced zero new [] top inside enough = record {
  total = λ a. refl;
  top = top;
  inside = tt;
  fewer = omega arith;
  has = λ a. omega arith;
  apart = tt;
}
coalesce-Coalesced zero new (r ∷ rs) top inside enough = absurd (omega arith)
coalesce-Coalesced (suc rounds) new free top inside enough =
    from (coalesce-Coalesced rounds) (adjacent new free) refl (adjacent-Found new free)
  where
    from :
        ((n : VirtRange) (l : List VirtRange)
          → top_of n < u32
          → AreInside l
          → length l ≤ rounds
          → let (r, l') = coalesce rounds n l in Coalesced n l r l')
        → (found : Option (List VirtRange × VirtRange × List VirtRange)) → adjacent new free ≡ found
        → Found free (Touches new) found
        → let (r, free') = elim found as (λ x. VirtRange × List VirtRange) [
          | none ↦ (new, free)
          | some (before, e, after) ↦ coalesce rounds (merge e new) (swap_out before after)
        ] in
          Coalesced new free r free'
    from again none none_left h = record {
      total = λ a. refl;
      top = top;
      inside = inside;
      fewer = omega arith;
      has = λ a. omega arith;
      apart = adjacent-IsApart new free top inside none_left;
    }
    from again (some (before, e, after)) found (b, touches) =
        let (left, it, right) = b.inside inside in
        let (top', _) = merge-contains e new it top touches in
        coalesce-step new free before e after _ _ top inside b touches (
          again (merge e new) (swap_out before after) top'
            (swap_out-AreInside before after left right)
            (omega (arith, length-swap_out before after, b.count)))
