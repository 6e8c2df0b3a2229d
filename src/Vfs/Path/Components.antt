-- ===== src/Vfs/Path/Components.antt =====
-- The components of a path, and the path that joins names by slashes.
use luminary.Base.{
  ℕ, zero, suc, ◌+◌, ◌-◌, ◌≤◌, ◌<◌, ◌≡◌, ◌≢◌, refl, ap, ap₂, ◌∙◌, inl, inr, false, List, [], ◌∷◌,
  ◌++◌, arith, length, length-append, ◌==◌, Bool-cases,
}
use luminary.Vfs.{Bytes}
use luminary.Vfs.Path.{slash, skip_slashes, component, after_component, components_in, components}

abbrev pub NoSlash : Bytes → Type 0
NoSlash [] = Unit
NoSlash (c ∷ cs) = (c ≢ slash) × NoSlash cs

-- A name is not empty and has no slash.
abbrev pub IsName : Bytes → Type 0
IsName [] = ⊥
IsName (c ∷ cs) = NoSlash (c ∷ cs)

abbrev pub AreNames : List Bytes → Type 0
AreNames [] = Unit
AreNames (s ∷ ss) = IsName s × AreNames ss

-- Names with a slash in front of each, and between them.
abbrev pub lead : List Bytes → Bytes
lead [] = []
lead (s ∷ ss) = slash ∷ (s ++ lead ss)

abbrev pub join : List Bytes → Bytes
join [] = []
join (s ∷ ss) = s ++ lead ss

component-NoSlash : (p : Bytes) → NoSlash (component p)
unfolding component
component-NoSlash [] = tt
component-NoSlash (c ∷ cs) = elim (Bool-cases (c == slash)) [
  | inl stop ↦ rw stop tt
  | inr go ↦ rw go (ground arith, component-NoSlash cs)
]

-- The rest of a path is empty or starts with a slash.
abbrev pub Stops : Bytes → Type 0
Stops [] = Unit
Stops (c ∷ cs) = c ≡ slash

pub after-Stops : (p : Bytes) → Stops (after_component p)
unfolding after_component
after-Stops [] = tt
after-Stops (c ∷ cs) = elim (Bool-cases (c == slash)) [
  | inl stop ↦ rw stop (ground arith)
  | inr go ↦ rw go (after-Stops cs)
]

-- What is left of a path after its slashes does not start with one.
abbrev Starts : Bytes → Type 0
Starts [] = Unit
Starts (c ∷ cs) = c ≢ slash

skip-Starts : (p : Bytes) → Starts (skip_slashes p)
unfolding skip_slashes
skip-Starts [] = tt
skip-Starts (c ∷ cs) = elim (Bool-cases (c == slash)) [
  | inl more ↦ rw more (skip-Starts cs)
  | inr go ↦ rw go (ground arith)
]

first-IsName : (c : ℕ) (cs : Bytes) → c ≢ slash → IsName (component (c ∷ cs))
unfolding component
first-IsName c cs start =
    let go : (c == slash) ≡ false = ground arith in rw go (start, component-NoSlash cs)

-- One round, on what is left after the slashes.
abbrev pub round : (later : Bytes → List Bytes) → Bytes → List Bytes
round later rest = elim rest [
  | [] ↦ []
  | c ∷ cs ↦ component (c ∷ cs) ∷ later (after_component (c ∷ cs))
]

round-AreNames :
    (later : Bytes → List Bytes) (rest : Bytes)
    → ((p : Bytes) → AreNames (later p))
    → Starts rest
    → AreNames (round later rest)
round-AreNames later [] names start = tt
round-AreNames later (c ∷ cs) names start =
    (first-IsName c cs start, names (after_component (c ∷ cs)))

pub components_in-AreNames : (rounds : ℕ) (p : Bytes) → AreNames (components_in rounds p)
unfolding components_in
components_in-AreNames zero p = tt
components_in-AreNames (suc rounds) p =
    round-AreNames (components_in rounds) (skip_slashes p) (components_in-AreNames rounds)
      (skip-Starts p)

pub name_ends : (s rest : Bytes) → NoSlash s → Stops rest → component (s ++ rest) ≡ s
unfolding component
name_ends [] [] plain stop = refl
name_ends [] (c ∷ cs) plain stop = ground arith
name_ends (c ∷ cs) rest (start, plain) stop =
    let go : (c == slash) ≡ false = ground arith in rw (go, name_ends cs rest plain stop) refl

pub after_ends : (s rest : Bytes) → NoSlash s → Stops rest → after_component (s ++ rest) ≡ rest
unfolding after_component
after_ends [] [] plain stop = refl
after_ends [] (c ∷ cs) plain stop = ground arith
after_ends (c ∷ cs) rest (start, plain) stop =
    let go : (c == slash) ≡ false = ground arith in rw (go) (after_ends cs rest plain stop)

lead-Stops : (ss : List Bytes) → Stops (lead ss)
lead-Stops [] = tt
lead-Stops (s ∷ ss) = refl

-- Slashes before a name are skipped.
components_in-slash :
    (rounds : ℕ) (p : Bytes) → components_in (suc rounds) (slash ∷ p) ≡ components_in (suc rounds) p
unfolding components_in skip_slashes
components_in-slash rounds p = refl

skip_none : (c : ℕ) (cs : Bytes) → c ≢ slash → skip_slashes (c ∷ cs) ≡ c ∷ cs
unfolding skip_slashes
skip_none c cs start = ground arith

components_in-name :
    (rounds : ℕ) (s rest : Bytes)
    → IsName s
    → Stops rest
    → components_in (suc rounds) (s ++ rest) ≡ s ∷ components_in rounds rest
unfolding components_in skip_slashes
components_in-name rounds [] rest name stop = absurd name
components_in-name rounds (c ∷ cs) rest name stop =
    ap (round (components_in rounds)) (skip_none c (cs ++ rest) name.0)
    ∙ ap₂ (λ s p. s ∷ components_in rounds p) (name_ends (c ∷ cs) rest name stop)
        (after_ends (c ∷ cs) rest name stop)

components_in-lead :
    (ss : List Bytes) (rounds : ℕ)
    → AreNames ss
    → length ss ≤ rounds
    → components_in rounds (lead ss) ≡ ss
unfolding components_in skip_slashes
components_in-lead [] zero names fits = refl
components_in-lead [] (suc rounds) names fits = refl
components_in-lead (s ∷ ss) zero names fits = absurd (omega arith)
components_in-lead (s ∷ ss) (suc rounds) (name, names) fits =
    components_in-slash rounds (s ++ lead ss)
    ∙ components_in-name rounds s (lead ss) name (lead-Stops ss)
    ∙ ap (◌∷◌ s) (components_in-lead ss rounds names (omega arith))

-- Bytes that names take, each with its slash.
unfoldable pub weight : List Bytes → ℕ
weight [] = 0
weight (s ∷ ss) = suc (length s) + weight ss

pub length-lead : (ss : List Bytes) → length (lead ss) ≡ weight ss
unfolding weight
length-lead [] = refl
length-lead (s ∷ ss) = omega (arith, length-append s (lead ss), length-lead ss)

pub length-le-weight : (ss : List Bytes) → length ss ≤ weight ss
unfolding weight
length-le-weight [] = omega arith
length-le-weight (s ∷ ss) = omega (arith, length-le-weight ss)

IsName-length : (s : Bytes) → IsName s → 0 < length s
IsName-length [] name = absurd name
IsName-length (c ∷ cs) name = omega arith

-- Names joined by slashes are the components of what was joined.
pub components-join : (ss : List Bytes) → AreNames ss → components (join ss) ≡ ss
unfolding components components_in
components-join [] names = refl
components-join (s ∷ ss) (name, names) =
    let n = length (s ++ lead ss) in
    let rest : length ss ≤ n - 1 = omega (
      arith,
      IsName-length s name,
      length-append s (lead ss),
      length-lead ss,
      length-le-weight ss,
    ) in
    let some_bytes : n ≡ suc (n - 1) =
      omega (arith, IsName-length s name, length-append s (lead ss)) in
    ap (λ rounds. components_in rounds (s ++ lead ss)) some_bytes
    ∙ components_in-name (n - 1) s (lead ss) name (lead-Stops ss)
    ∙ ap (◌∷◌ s) (components_in-lead ss (n - 1) names rest)

pub components-AreNames : (p : Bytes) → AreNames (components p)
unfolding components
components-AreNames p = components_in-AreNames (length p) p
