-- ===== src/Vfs/Path/Weight.antt =====
-- The length of the components of a path.
use luminary.Base.{ℕ, zero, suc, ◌+◌, ◌≤◌, ◌≡◌, List, [], ◌∷◌, arith, length}
use luminary.Vfs.{Bytes}
use luminary.Vfs.Path.{skip_slashes, component, after_component, components_in, components}
use luminary.Vfs.Path.Components.{round, Stops, after-Stops, weight}

-- The components of a path, with their slashes, take at most one byte more than it.
bytes_left : (p : Bytes) → length (skip_slashes p) ≤ length p
unfolding skip_slashes
bytes_left [] = omega arith
bytes_left (c ∷ cs) = ground (arith, bytes_left cs)

split_length : (p : Bytes) → length (component p) + length (after_component p) ≡ length p
unfolding component after_component
split_length [] = omega arith
split_length (c ∷ cs) = ground (arith, split_length cs)

-- ... and no more than it, where it starts with one.
abbrev Fits : (later : Bytes → List Bytes) → Bytes → Type 0
Fits later p = (weight (later p) ≤ length p + 1) × (Stops p → weight (later p) ≤ length p)

round-Fits :
    (later : Bytes → List Bytes) (rest : Bytes)
    → ((p : Bytes) → Fits later p)
    → weight (round later rest) ≤ length rest + 1
unfolding weight
round-Fits later [] fits = omega arith
round-Fits later (c ∷ cs) fits =
    let after = after_component (c ∷ cs) in
    omega (arith, split_length (c ∷ cs), (fits after).1 (after-Stops (c ∷ cs)))

round_strict :
    (later : Bytes → List Bytes) (p : Bytes)
    → ((q : Bytes) → Fits later q)
    → Stops p
    → weight (round later (skip_slashes p)) ≤ length p
unfolding skip_slashes weight
round_strict later [] fits stop = omega arith
round_strict later (c ∷ cs) fits stop =
    let skipped : length (skip_slashes (c ∷ cs)) ≤ length cs = ground (arith, bytes_left cs) in
    omega (arith, round-Fits later (skip_slashes (c ∷ cs)) fits, skipped)

components_in-Fits : (rounds : ℕ) (p : Bytes) → Fits (components_in rounds) p
unfolding components_in skip_slashes weight
components_in-Fits zero p = (omega arith, λ stop. omega arith)
components_in-Fits (suc rounds) p = (
  omega (
    arith,
    round-Fits (components_in rounds) (skip_slashes p) (components_in-Fits rounds),
    bytes_left p,
  ),
  λ stop. round_strict (components_in rounds) p (components_in-Fits rounds) stop,
)

pub weight-components : (p : Bytes) → weight (components p) ≤ length p + 1
unfolding components
weight-components p = (components_in-Fits (length p) p).0
