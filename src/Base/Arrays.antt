-- ===== src/Base/Arrays.antt =====
-- C arrays as functions of the index, and the bytes that a ring over such an array holds.
use Prim.Native.Nat.{ℕ, zero, suc, ◌+◌, ◌-◌, ◌%◌, ◌<◌}
use mathlib.Core.Path.{◌≡◌, refl, ap, ap₂, sym, ◌∙◌}
use mathlib.Core.Logic.{◌≢◌}
use mathlib.Core.List.{List, [], ◌∷◌, ◌++◌}
use native.Mathlib.Nat.{mod-add-mod, mod-eq_of_lt, mod-eq-sub-mod, add-zero}
use native.Mathlib.Omega.{arith}
use luminary.Base.Tests.{ltb, ◌==◌, if◌then◌else◌}
use luminary.Base.Lists.{length}

module _ {ℓ} {A : Type ℓ} where
  -- `a[i] = x`
  abbrev pub update : (ℕ → A) → ℕ → A → ℕ → A
  update a i x j = if i == j then x else a j

  pub update_self : (a : ℕ → A) (i : ℕ) (x : A) → update a i x i ≡ x
  update_self a i x = ground arith

  pub update_ne : (a : ℕ → A) {i j : ℕ} (x : A) → i ≢ j → update a i x j ≡ a j
  update_ne a x h = ground arith

  -- The `n` entries from index `h` on, going round at `cap`.
  abbrev pub window : (ℕ → A) → ℕ → ℕ → ℕ → List A
  window a cap h zero = []
  window a cap h (suc n) = a (h % cap) ∷ window a cap (h + 1) n

  pub length-window : (a : ℕ → A) (cap h n : ℕ) → length (window a cap h n) ≡ n
  length-window a cap h zero = refl
  length-window a cap h (suc n) = ap suc (length-window a cap (h + 1) n)

-- Only the index modulo the capacity matters.
mod-add_one : (cap h k : ℕ) → h % cap ≡ k % cap → (h + 1) % cap ≡ (k + 1) % cap
mod-add_one cap h k e = sym (mod-add-mod h cap 1) ∙ ap (λ t. (t + 1) % cap) e ∙ mod-add-mod k cap 1

pub window-mod {ℓ} :
    {A : Type ℓ} (a : ℕ → A) (cap h k n : ℕ)
    → h % cap ≡ k % cap
    → window a cap h n ≡ window a cap k n
window-mod a cap h k zero e = refl
window-mod a cap h k (suc n) e =
    ap₂ ◌∷◌ (ap a e) (window-mod a cap (h + 1) (k + 1) n (mod-add_one cap h k e))

-- A sum of an index and a step below the capacity wraps at most once.
mod_once :
    (cap at step : ℕ)
    → at < cap
    → step < cap
    → (at + step) % cap ≡ (if ltb (at + step) cap then at + step else at + step - cap)
mod_once cap at step inside small = ground (
  arith,
  mod-eq_of_lt {n = at + step} {m = cap},
  mod-eq-sub-mod {n = at + step} {m = cap},
  mod-eq_of_lt {n = at + step - cap} {m = cap},
)

-- A short step round the ring does not come back to the start.
short_step : (cap at step : ℕ) → at < cap → 0 < step → step < cap → (at + step) % cap ≢ at
short_step cap at step inside moves small = ground (arith, mod_once cap at step inside small)

pub add-mod-ne : (cap h k : ℕ) → 0 < k → k < cap → (h + k) % cap ≢ h % cap
add-mod-ne cap h k moves small e =
    short_step cap (h % cap) k (omega arith) moves small (mod-add-mod h cap k ∙ e)

-- Writing just past a window extends it by the value written.
pub window-update {ℓ} :
    {A : Type ℓ} (a : ℕ → A) (cap h n i : ℕ) (x : A)
    → n < cap
    → i ≡ (h + n) % cap
    → window (update a i x) cap h (suc n) ≡ window a cap h n ++ (x ∷ [])
window-update a cap h zero i x small e =
    let same : i ≡ h % cap = e ∙ ap (λ t. t % cap) (add-zero h) in
    rw (← same) (rw (update_self a i x))
window-update a cap h (suc n) i x small e =
    ap₂ ◌∷◌ (update_ne a x (λ same. add-mod-ne cap h (suc n) (omega arith) small (sym e ∙ same)))
      (window-update a cap (h + 1) n i x (omega arith) (e ∙ ap (λ t. t % cap) (omega arith)))
