-- ===== src/Vmm/Ranges.antt =====
-- The ranges of kernel addresses, `vmm_alloc_pages` and `vmm_free_pages` of src/kernel/vmm.c.
pub mod Cover
pub mod Coalesce
pub mod Safety
use luminary.Base.{
  ℕ, zero, suc, ◌+◌, ◌-◌, ◌*◌, ◌%◌, ◌^◌, Bool, true, false, ◌&&◌, ◌||◌, Option, none, some, List,
  [], ◌∷◌, ◌++◌, length, ltb, leb, ◌==◌, if◌then◌else◌,
}
use luminary.Pmm.{page_size, u32}

abbrev pub kvirt_base : ℕ
kvirt_base = 0xC0000000

abbrev pub kvirt_fl_max : ℕ
kvirt_fl_max = 64

-- `struct virt_range`
pub record VirtRange : Type 0 where
  pub base : ℕ
  pub npages : ℕ

-- `kvirt_next`, and the entries in use of `kvirt_free`.
pub record Kvirt : Type 0 where
  pub kvirt_next : ℕ
  pub kvirt_free : List VirtRange

-- `base + npages * PAGE_SIZE`
abbrev pub end_of : VirtRange → ℕ
end_of r = (r.base + r.npages * page_size) % u32

-- The search for the smallest entry with `n` pages: the entry, with those before and behind it. A
-- later entry wins only if it is smaller.
pub best_fit : (n : ℕ) → List VirtRange → Option (List VirtRange × VirtRange × List VirtRange)
best_fit n [] = none
best_fit n (r ∷ rs) = elim (best_fit n rs) [
  | none ↦ if leb n r.npages then some ([], r, rs) else none
  | some (before, best, after) ↦
      if leb n r.npages && leb r.npages best.npages
      then some ([], r, rs)
      else some (r ∷ before, best, after)
]

-- All but the last entry, and the last.
pub unsnoc : VirtRange → List VirtRange → List VirtRange × VirtRange
unsnoc r [] = ([], r)
unsnoc r (s ∷ rs) = let (front, last) = unsnoc s rs in (r ∷ front, last)

-- `kvirt_free[i] = kvirt_free[--kvirt_free_count]`, for the entry between `before` and `after`.
pub swap_out : (before after : List VirtRange) → List VirtRange
unfolding unsnoc
swap_out before [] = before
swap_out before (r ∷ rs) = let (front, last) = unsnoc r rs in before ++ (last ∷ front)

-- The address chosen for `n` pages, at least one.
unfoldable pub take_range : (n : ℕ) → Kvirt → ℕ × Kvirt
unfolding best_fit swap_out
take_range n k = elim (best_fit n k.kvirt_free) [
  | none ↦ (k.kvirt_next, record k { kvirt_next = (k.kvirt_next + n * page_size) % u32 })
  | some (before, best, after) ↦
      let rest : VirtRange = record {
        base = (best.base + n * page_size) % u32;
        npages = best.npages - n;
      } in
      (
        best.base,
        record {
          kvirt_next = if ltb k.kvirt_next (end_of best) then end_of best else k.kvirt_next;
          kvirt_free = if best.npages == n then swap_out before after else before ++ (rest ∷ after);
        },
      )
]

-- The first entry that ends where the range starts or starts where it ends, with those before and
-- behind it.
pub adjacent : VirtRange → List VirtRange → Option (List VirtRange × VirtRange × List VirtRange)
adjacent new [] = none
adjacent new (r ∷ rs) =
    let later : Option (List VirtRange × VirtRange × List VirtRange) = (elim (adjacent new rs) [
      | none ↦ none
      | some (before, e, after) ↦ some (r ∷ before, e, after)
    ]) in
    if end_of r == new.base || end_of new == r.base then some ([], r, rs) else later

-- The range that two adjacent ones make.
abbrev pub merge : (entry new : VirtRange) → VirtRange
merge entry new =
    if end_of entry == new.base
    then record { base = entry.base; npages = entry.npages + new.npages }
    else record { base = new.base; npages = new.npages + entry.npages }

-- The loop that restarts after each merge, in at most so many rounds.
pub coalesce : (rounds : ℕ) → VirtRange → List VirtRange → VirtRange × List VirtRange
unfolding adjacent swap_out
coalesce zero new free = (new, free)
coalesce (suc rounds) new free = elim (adjacent new free) [
  | none ↦ (new, free)
  | some (before, e, after) ↦ coalesce rounds (merge e new) (swap_out before after)
]

-- Each merge takes one entry. A list that is full loses the range.
unfoldable pub give_range : VirtRange → Kvirt → Kvirt
unfolding coalesce
give_range new k =
    let (r, free) = coalesce (length k.kvirt_free) new k.kvirt_free in
    record k { kvirt_free = if ltb (length free) kvirt_fl_max then free ++ (r ∷ []) else free }
