-- ===== src/Vmm/Ranges/Safety.antt =====
-- The ranges that are in use against those on the free list.
use luminary.Base.{
  ℕ, ◌+◌, ◌-◌, ◌*◌, ◌%◌, ◌≤◌, ◌<◌, ◌≡◌, refl, inl, inr, true, Option, none, some, List, [], ◌∷◌,
  ◌++◌, length, length-append, ltb, ◌==◌, if◌then◌else◌, arith, Bool-cases,
}
use native.Mathlib.Nat.{mod-eq_of_lt}
use luminary.Pmm.{page_size, u32}
use luminary.Vmm.Ranges.{
  VirtRange, Kvirt, end_of, best_fit, swap_out, take_range, coalesce, give_range, kvirt_fl_max,
}
use luminary.Vmm.Ranges.Cover.{
  top_of, contains, cover, cover-append, AreInside, AreInside-append, IsApart, Found,
  best_fit-Found, swap_out-cover, swap_out-AreInside,
}
use luminary.Vmm.Ranges.Coalesce.{length-swap_out, coalesce-Coalesced}

-- No address is in two of the ranges that are free or in use, none lies from `kvirt_next` on, no free
-- range reaches the end of the address space, and the free ones fit into the array.
pub record IsValid (k : Kvirt) (live : List VirtRange) : Type 0 where
  pub inside : AreInside k.kvirt_free
  pub few : length k.kvirt_free ≤ kvirt_fl_max
  pub once : (a : ℕ) → cover k.kvirt_free a + cover live a ≤ 1
  pub below : (a : ℕ) → k.kvirt_next ≤ a → cover k.kvirt_free a + cover live a ≡ 0

-- A new range at `kvirt_next`.
bump-IsValid :
    (k : Kvirt) (live : List VirtRange) (n : ℕ)
    → IsValid k live
    → k.kvirt_next + n * page_size < u32
    → IsValid
        (record k { kvirt_next = (k.kvirt_next + n * page_size) % u32 })
        (record { base = k.kvirt_next; npages = n } ∷ live)
bump-IsValid k live n v room =
    let next = mod-eq_of_lt room in
    record {
      inside = v.inside;
      few = v.few;
      once = λ a. ground (arith, v.once a, v.below a);
      below = λ a from. ground (arith, v.below a, next, from);
    }

-- The front of a free range that is larger.
trim :
    (e : VirtRange) (n : ℕ)
    → n ≤ e.npages
    → top_of e < u32
    → let rest : VirtRange = record {
      base = (e.base + n * page_size) % u32;
      npages = e.npages - n;
    } in
      (top_of rest < u32)
      × ((a : ℕ)
          → contains (record { base = e.base; npages = n }) a + contains rest a ≡ contains e a)
trim e n fits top =
    let base : (e.base + n * page_size) % u32 ≡ e.base + n * page_size =
      mod-eq_of_lt (omega arith) in
    (omega (arith, base), λ a. ground (arith, base))

-- A range that was part of the free ones.
recycle-IsValid :
    (k : Kvirt) (live : List VirtRange) (r : VirtRange) (next : ℕ) (free : List VirtRange)
    → IsValid k live
    → AreInside free
    → k.kvirt_next ≤ next
    → length free ≤ length k.kvirt_free
    → ((a : ℕ) → contains r a + cover free a ≡ cover k.kvirt_free a)
    → IsValid (record { kvirt_next = next; kvirt_free = free }) (r ∷ live)
recycle-IsValid k live r next free v inside higher fewer same = record {
  inside = inside;
  few = omega (arith, v.few, fewer);
  once = λ a. omega (arith, v.once a, same a);
  below = λ a from. omega (arith, v.below a, same a, from, higher);
}

-- As long as the addresses do not run out at `kvirt_next`, a range that vmm_alloc_pages chooses has no
-- address in common with a range in use or with one that stays free: the free ranges and those in
-- use, the new one among them, lie apart as before.
pub take_range-IsValid :
    (k : Kvirt) (live : List VirtRange) (n : ℕ)
    → 0 < n
    → IsValid k live
    → k.kvirt_next + n * page_size < u32
    → let (base, k') = take_range n k in IsValid k' (record { base = base; npages = n } ∷ live)
unfolding take_range
take_range-IsValid k live n some_pages v room =
    from (best_fit n k.kvirt_free) (best_fit-Found n k.kvirt_free)
  where
    from :
        (found : Option (List VirtRange × VirtRange × List VirtRange))
        → Found k.kvirt_free (λ e. n ≤ e.npages) found
        → let (base, k') = elim found as (λ x. ℕ × Kvirt) [
          | none ↦ (k.kvirt_next, record k { kvirt_next = (k.kvirt_next + n * page_size) % u32 })
          | some (before, best, after) ↦ (
            best.base,
            record {
              kvirt_next = if ltb k.kvirt_next (end_of best) then end_of best else k.kvirt_next;
              kvirt_free =
                  if best.npages == n
                  then swap_out before after
                  else before
                    ++ (record {
                      base = (best.base + n * page_size) % u32;
                      npages = best.npages - n;
                    }
                        ∷ after);
            },
          )
        ] in
          IsValid k' (record { base = base; npages = n } ∷ live)
    from none h = bump-IsValid k live n v room
    from (some (before, best, after)) (b, fits) =
        let (left, it, right) = b.inside v.inside in
        let higher : k.kvirt_next
            ≤ (if ltb k.kvirt_next (end_of best) then end_of best else k.kvirt_next) =
          ground arith in
        elim (Bool-cases (best.npages == n)) [
          | inl exact ↦ rw exact (
              recycle-IsValid k live _ _ (swap_out before after) v
                (swap_out-AreInside before after left right) higher
                (omega (arith, length-swap_out before after, b.count))
                (λ a.
                  (let same : best.npages ≡ n = ground (arith, exact) in
                    ground (arith, same, swap_out-cover before after a, b.total a))))
          | inr larger ↦
              let (top, both) = trim best n fits it in
              rw larger (
                recycle-IsValid k live _ _ (before ++ (_ ∷ after)) v
                  (AreInside-append before (_ ∷ after) left (top, right)) higher
                  (omega (arith, length-append before (_ ∷ after), b.count))
                  (λ a. omega (arith, both a, cover-append before (_ ∷ after) a, b.total a)))
        ]

lt_of_ltb : (a b : ℕ) → ltb a b ≡ true → a < b
lt_of_ltb a b e = ground (arith, e)

-- Giving back a range that is in use leaves the ranges in use and the free ones apart from each other.
-- Unless the list was full, the free ones then have the addresses of the range and those that
-- they had, and no more, and the last of them has the whole range and touches no other: none ends
-- where it starts or starts where it ends. The range does not reach the end of the address space.
pub give_range-IsValid :
    (k : Kvirt) (live : List VirtRange) (r : VirtRange)
    → IsValid k (r ∷ live)
    → top_of r < u32
    → let k' = give_range r k in
      IsValid k' live
      × (length k.kvirt_free < kvirt_fl_max
          → ((a : ℕ) → cover k'.kvirt_free a ≡ cover k.kvirt_free a + contains r a)
            × ((new : VirtRange) × (rest : List VirtRange) × (k'.kvirt_free ≡ rest ++ (new ∷ []))
                × ((a : ℕ) → contains r a ≤ contains new a)
                × IsApart new rest))
unfolding give_range
give_range-IsValid k live r v top =
    let (new, free) = coalesce (length k.kvirt_free) r k.kvirt_free in
    let c = coalesce-Coalesced (length k.kvirt_free) r k.kvirt_free top v.inside (omega arith) in
    elim (Bool-cases (ltb (length free) kvirt_fl_max)) [
      | inl room ↦ rw room (
        record {
          inside = AreInside-append free (new ∷ []) c.inside (c.top, tt);
          few =
              omega
                (arith, length-append free (new ∷ []), lt_of_ltb (length free) kvirt_fl_max room);
          once = λ a. omega (arith, v.once a, c.total a, cover-append free (new ∷ []) a);
          below =
              λ a from. omega (arith, v.below a from, c.total a, cover-append free (new ∷ []) a);
        },
        λ few. (
          λ a. omega (arith, c.total a, cover-append free (new ∷ []) a),
          (new, free, refl, c.has, c.apart),
        ),
      )
      | inr full ↦ rw full (
        record {
          inside = c.inside;
          few = omega (arith, c.fewer, v.few);
          once = λ a. omega (arith, v.once a, c.total a);
          below = λ a from. omega (arith, v.below a from, c.total a);
        },
        λ few. absurd (ground (arith, c.fewer, few, full)),
      )
    ]
