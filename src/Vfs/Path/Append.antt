-- ===== src/Vfs/Path/Append.antt =====
-- The components of a path with one name more at its end.
use luminary.Base.{
  ℕ, zero, suc, ◌≤◌, ◌<◌, ◌≡◌, ◌≢◌, refl, ap, ap₂, sym, ◌∙◌, ◌⊎◌, inl, inr, false, [], ◌∷◌, ◌++◌,
  append-nil, arith, length, length-append, ◌==◌, Bool-cases,
}
use luminary.Vfs.{Bytes}
use luminary.Vfs.Path.{slash, skip_slashes, component, after_component, components_in, components}
use luminary.Vfs.Path.Components.{IsName, components-join, round, name_ends, after_ends}

components_in-nil : (rounds : ℕ) → components_in rounds [] ≡ []
unfolding components_in skip_slashes
components_in-nil zero = refl
components_in-nil (suc rounds) = refl

skip_slash-name : (base : Bytes) → IsName base → skip_slashes (slash ∷ base) ≡ base
unfolding skip_slashes
skip_slash-name [] name = refl
skip_slash-name (c ∷ cs) (start, plain) = ground arith

-- The round that comes to a name at the end.
round-name :
    (rounds : ℕ) (base : Bytes) → IsName base → round (components_in rounds) base ≡ base ∷ []
round-name rounds [] name = absurd name
round-name rounds (c ∷ cs) name =
    ap₂ (λ s rest. s ∷ components_in rounds rest)
      (ap component (sym (append-nil (c ∷ cs))) ∙ name_ends (c ∷ cs) [] name tt)
      (ap after_component (sym (append-nil (c ∷ cs))) ∙ after_ends (c ∷ cs) [] name tt)
    ∙ ap (◌∷◌ (c ∷ cs)) (components_in-nil rounds)

pub components-nil : components [] ≡ []
unfolding components components_in
components-nil = refl

-- A path that is at its end.
no_bytes : (p : Bytes) → length p ≤ 0 → p ≡ []
no_bytes [] fits = refl
no_bytes (c ∷ cs) fits = absurd (omega arith)

module _ (base : Bytes) (name : IsName base) where
  abbrev tail : Bytes
  tail = slash ∷ base

  -- The slashes of a path that has nothing else, and of any other.
  skip-append :
      (p : Bytes)
      → ((skip_slashes p ≡ []) × (skip_slashes (p ++ tail) ≡ skip_slashes tail))
        ⊎ ((c : ℕ) × (cs : Bytes) × (c ≢ slash)
            × (length (c ∷ cs) ≤ length p)
            × (skip_slashes p ≡ c ∷ cs)
            × (skip_slashes (p ++ tail) ≡ (c ∷ cs) ++ tail))
  unfolding skip_slashes
  skip-append [] = inl (refl, refl)
  skip-append (c ∷ cs) = elim (Bool-cases (c == slash)) [
    | inl more ↦ elim (skip-append cs) [
      | inl (none, both) ↦ inl (rw more none, rw more both)
      | inr (d, ds, start, fits, left, both) ↦
          inr (d, ds, start, omega arith, rw more left, rw more both)
    ]
    | inr go ↦ inr (c, cs, ground arith, omega arith, rw go refl, rw go refl)
  ]

  component-append : (p : Bytes) → component (p ++ tail) ≡ component p
  unfolding component
  component-append [] = refl
  component-append (c ∷ cs) = rw (component-append cs) refl

  after-append : (p : Bytes) → after_component (p ++ tail) ≡ after_component p ++ tail
  unfolding after_component
  after-append [] = refl
  after-append (c ∷ cs) = elim (Bool-cases (c == slash)) [
    | inl stop ↦ rw stop refl
    | inr go ↦ rw go (after-append cs)
  ]

  after-length : (p : Bytes) → length (after_component p) ≤ length p
  unfolding after_component
  after-length [] = omega arith
  after-length (c ∷ cs) = elim (Bool-cases (c == slash)) [
    | inl stop ↦ rw stop (omega arith)
    | inr go ↦ rw go (omega (arith, after-length cs))
  ]

  after-shorter : (c : ℕ) (cs : Bytes) → c ≢ slash → length (after_component (c ∷ cs)) ≤ length cs
  unfolding after_component
  after-shorter c cs start = let go : (c == slash) ≡ false = ground arith in rw go (after-length cs)

  components_in-append :
      (rounds more : ℕ) (p : Bytes)
      → length p ≤ rounds
      → rounds < more
      → components_in more (p ++ tail) ≡ components_in rounds p ++ (base ∷ [])
  unfolding components_in
  components_in-append rounds zero p fits room = absurd (omega arith)
  components_in-append zero (suc more) p fits room =
      let nothing = no_bytes p fits in
      ap (λ q. components_in (suc more) (q ++ tail)) nothing
      ∙ ap (round (components_in more)) (skip_slash-name base name)
      ∙ round-name more base name
  components_in-append (suc rounds) (suc more) p fits room = elim (skip-append p) [
    | inl (nothing, both) ↦
        ap (round (components_in more)) (both ∙ skip_slash-name base name)
        ∙ round-name more base name
        ∙ ap (λ rest. round (components_in rounds) rest ++ (base ∷ [])) (sym nothing)
    | inr (c, cs, start, short, left, both) ↦
        let shorter : length (after_component (c ∷ cs)) ≤ rounds =
          omega (arith, after-shorter c cs start) in
        ap (round (components_in more)) both
        ∙ ap₂ (λ s rest. s ∷ components_in more rest) (component-append (c ∷ cs))
            (after-append (c ∷ cs))
        ∙ ap (◌∷◌ (component (c ∷ cs)))
            (components_in-append rounds more (after_component (c ∷ cs)) shorter (omega arith))
        ∙ ap (λ rest. round (components_in rounds) rest ++ (base ∷ [])) (sym left)
  ]

  pub components-append :
      (p : Bytes) → components (p ++ (slash ∷ base)) ≡ components p ++ (base ∷ [])
  unfolding components
  components-append p =
      components_in-append (length p) (length (p ++ tail)) p (omega arith)
        (omega (arith, length-append p tail))

  -- A path that is only a name.
  pub components-name : components base ≡ base ∷ []
  components-name = ap components (sym (append-nil base)) ∙ components-join (base ∷ []) (name, tt)
