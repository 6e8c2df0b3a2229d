-- ===== src/Base/Ring.antt =====
-- Rings that keep one slot free: the array indices `head` (next write) and `tail` (next read),
-- equal when the ring is empty. The keyboard and the mouse driver hold their events so.
use luminary.Base.{
  ℕ, suc, ◌+◌, ◌-◌, ◌%◌, ◌<◌, ◌≡◌, ◌≢◌, sym, ap, ap₂, ◌∙◌, List, [], ◌∷◌, ◌++◌, arith, leb, ◌==◌,
  if◌then◌else◌, update, window, window-mod, window-update,
}
use native.Mathlib.Nat.{mod-eq_of_lt, mod_self, mod-mod, mod-eq-sub-mod}
use native.Mathlib.Decide.{ℕ_discrete}

-- How many entries stand between `tail` and `head`.
unfoldable pub used : (cap head tail : ℕ) → ℕ
used cap head tail = if leb tail head then head - tail else head + cap - tail

abbrev pub contents {ℓ} : {A : Type ℓ} → (ℕ → A) → (cap head tail : ℕ) → List A
contents a cap head tail = window a cap tail (used cap head tail)

-- `(i + 1) % cap` without the remainder.
pub next_index : (cap i : ℕ) → i < cap → (i + 1) % cap ≡ (if i + 1 == cap then 0 else i + 1)
next_index cap i h = elim (ℕ_discrete (i + 1) cap) [
  | yes e ↦ rw e (ground (arith, mod_self cap))
  | no n ↦ ground (arith, mod-eq_of_lt {n = i + 1} {m = cap})
]

module _ (cap head tail : ℕ) (h : head < cap) (t : tail < cap) where
  -- The slot that `head` would move to is the oldest one: one less than `cap` entries are held.
  pub used_full : (head + 1) % cap ≡ tail → used cap head tail + 1 ≡ cap
  unfolding used
  used_full e = ground (arith, next_index cap head h)

  pub used_room : (head + 1) % cap ≢ tail → used cap head tail + 1 < cap
  unfolding used
  used_room ne = ground (arith, next_index cap head h)

  pub used_step :
      (head + 1) % cap ≢ tail → used cap ((head + 1) % cap) tail ≡ suc (used cap head tail)
  unfolding used
  used_step ne = ground (arith, next_index cap head h)

  pub used_less : tail ≢ head → used cap head tail ≡ suc (used cap head ((tail + 1) % cap))
  unfolding used
  used_less ne = ground (arith, next_index cap tail t)

  pub head_is_end : head ≡ (tail + used cap head tail) % cap
  unfolding used
  head_is_end =
      ground (arith, mod-eq_of_lt h, mod-eq-sub-mod {n = tail + (head + cap - tail)} {m = cap})

module _ {ℓ} {A : Type ℓ} (a : ℕ → A) (cap head tail : ℕ) (h : head < cap) (t : tail < cap) where
  -- A write at `head` appends.
  pub contents-put :
      (x : A)
      → (head + 1) % cap ≢ tail
      → contents (update a head x) cap ((head + 1) % cap) tail
        ≡ contents a cap head tail ++ (x ∷ [])
  contents-put x ne =
      ap (window (update a head x) cap tail) (used_step cap head tail h t ne)
      ∙ window-update a cap tail (used cap head tail) head x
          (omega (arith, used_room cap head tail h t ne)) (head_is_end cap head tail h t)

  -- A read at `tail` takes the oldest entry.
  pub contents-get :
      tail ≢ head → contents a cap head tail ≡ a tail ∷ contents a cap head ((tail + 1) % cap)
  contents-get ne =
      ap (window a cap tail) (used_less cap head tail h t ne)
      ∙ ap₂ ◌∷◌ (ap a (mod-eq_of_lt t)) (
          window-mod a cap (tail + 1) ((tail + 1) % cap) (used cap head ((tail + 1) % cap))
            (sym (mod-mod (tail + 1) cap)))

gap_zero : (size head tail : ℕ) → tail ≡ head → used size head tail ≡ 0
unfolding used
gap_zero size head tail e = ground arith

pub contents_empty {ℓ} :
    {A : Type ℓ} (a : ℕ → A) (size head tail : ℕ) → tail ≡ head → contents a size head tail ≡ []
contents_empty a size head tail e = ap (window a size tail) (gap_zero size head tail e)
