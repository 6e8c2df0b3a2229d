-- ===== src/Vfs/Tree/Split.antt =====
-- How a path falls into its directory and its last component.
use luminary.Base.{
  ℕ, suc, ◌+◌, ◌-◌, ◌≡◌, refl, ap, sym, ◌∙◌, inl, inr, true, false, List, [], ◌∷◌, ◌++◌, arith,
  length, length-append, take, leb, ◌==◌, if◌then◌else◌, Bool-cases, some,
}
use luminary.Vfs.{Bytes, vfs_path_max}
use luminary.Vfs.Path.{slash, components}
use luminary.Vfs.Path.Components.{IsName, NoSlash}
use luminary.Vfs.Path.Append.{components-append, components-nil, components-name}
use luminary.Vfs.Tree.{Vfs, vfs_lookup, descend, follow}
use luminary.Vfs.Tree.Change.{
  has_slash, basename, parent_len, parent_of, starts_with_slash, is_empty,
}

no_slash : (p : Bytes) → has_slash p ≡ false → NoSlash p
unfolding has_slash
no_slash [] e = tt
no_slash (c ∷ cs) e = elim (Bool-cases (c == slash)) [
  | inl stop ↦ absurd (ground (arith, e, stop))
  | inr go ↦ (ground (arith, go), no_slash cs (ground (arith, e, go)))
]

-- The part in front of the last slash, and the name behind it.
basename_split :
    (path : Bytes)
    → has_slash path ≡ true
    → (p : Bytes) × (path ≡ p ++ (slash ∷ basename path)) × (has_slash (basename path) ≡ false)
unfolding has_slash basename
basename_split [] e = absurd (ground (arith, e))
basename_split (c ∷ cs) e = elim (Bool-cases (has_slash cs)) [
  | inl more ↦
      let (p, whole, plain) = basename_split cs more in
      (c ∷ p, rw more (ap (◌∷◌ c) whole), rw more plain)
  | inr last ↦ elim (Bool-cases (c == slash)) [
    | inl stop ↦
        ([], rw (last, stop) (ap (λ d. d ∷ cs) (ground (arith, stop))), rw (last, stop) last)
    | inr go ↦ absurd (ground (arith, e, last, go))
  ]
]

has_slash-first : (path : Bytes) → starts_with_slash path ≡ true → has_slash path ≡ true
unfolding has_slash
has_slash-first [] e = absurd (ground (arith, e))
has_slash-first (c ∷ cs) e = rw e refl

basename-IsName : (base : Bytes) → is_empty base ≡ false → NoSlash base → IsName base
basename-IsName [] e plain = absurd (ground (arith, e))
basename-IsName (c ∷ cs) e plain = plain

take-length : (p rest : Bytes) → take (length p) (p ++ rest) ≡ p
take-length [] rest = refl
take-length (c ∷ cs) rest = ap (◌∷◌ c) (take-length cs rest)

-- What the length in front of the name comes to.
pub parent_len-lem :
    (p path : Bytes)
    → path ≡ p ++ (slash ∷ basename path)
    → parent_len path ≡ (if length p == 0 then 1 else length p)
parent_len-lem p path whole =
    let total : length path ≡ length p + suc (length (basename path)) =
      ap length whole ∙ length-append p (slash ∷ basename path) in
    let front : length path - length (basename path) ≡ suc (length p) = omega (arith, total) in
    ground (arith, front)

lookup_slash :
    (v : Vfs) (root : ℕ) (cs : Bytes)
    → v.vfs_root ≡ some root
    → vfs_lookup v (slash ∷ cs) ≡ descend v.node (components cs) (follow v.node root)
unfolding vfs_lookup
lookup_slash v root cs rooted = rw rooted refl

parent_of_found :
    (v : Vfs) (path : Bytes) (n parent : ℕ)
    → parent_len path ≡ suc n
    → parent_of v path ≡ some parent
    → vfs_lookup v (take (suc n) path) ≡ some parent
unfolding parent_of
parent_of_found v path n parent len found =
    let some_bytes : (suc n == 0) ≡ false = ground arith in
    elim (Bool-cases (leb vfs_path_max (suc n))) [
      | inl long ↦ absurd (ground (arith, rw (len, some_bytes, long) at found))
      | inr fits ↦ rw (len, some_bytes, fits) at found
    ]

module _ (v : Vfs) (root parent : ℕ) (rooted : v.vfs_root ≡ some root) where
  -- Names that lead from the root to the directory, and with the last one to the path.
  abbrev pub Leads : Bytes → Type 0
  Leads path =
      (ss : List Bytes) × (descend v.node ss (follow v.node root) ≡ some parent)
      × ((v' : Vfs)
          → v'.vfs_root ≡ some root
          → vfs_lookup v' path ≡ descend v'.node (ss ++ (basename path ∷ [])) (follow v'.node root))

  Leads-parts :
      (p path : Bytes)
      → IsName (basename path)
      → path ≡ p ++ (slash ∷ basename path)
      → starts_with_slash path ≡ true
      → parent_of v path ≡ some parent
      → Leads path
  unfolding vfs_lookup parent_of
  Leads-parts [] path name whole start found =
      let one : parent_len path ≡ 1 = parent_len-lem [] path whole in
      let parent_path : take 1 path ≡ slash ∷ [] = ap (take 1) whole in
      (
        [],
        ap (λ ss. descend v.node ss (follow v.node root)) (sym components-nil)
            ∙ sym (lookup_slash v root [] rooted)
            ∙ ap (vfs_lookup v) (sym parent_path)
            ∙ parent_of_found v path 0 parent one found,
        λ v' rooted'.
            ap (vfs_lookup v') whole
            ∙ lookup_slash v' root (basename path) rooted'
            ∙ ap (λ ss. descend v'.node ss (follow v'.node root))
                (components-name (basename path) name),
      )
  Leads-parts (c ∷ cs) path name whole start found =
      let len : parent_len path ≡ length (c ∷ cs) =
        parent_len-lem (c ∷ cs) path whole ∙ ground arith in
      let parent_path : take (length (c ∷ cs)) path ≡ c ∷ cs =
        ap (take (length (c ∷ cs))) whole ∙ take-length (c ∷ cs) (slash ∷ basename path) in
      let first : c ≡ slash = ground (arith, rw whole at start) in
      (
        components cs,
        sym (lookup_slash v root cs rooted)
            ∙ ap (λ d. vfs_lookup v (d ∷ cs)) (sym first)
            ∙ ap (vfs_lookup v) (sym parent_path)
            ∙ parent_of_found v path (length cs) parent len found,
        λ v' rooted'.
            ap (vfs_lookup v') whole
            ∙ ap (λ d. vfs_lookup v' (d ∷ (cs ++ (slash ∷ basename path)))) first
            ∙ lookup_slash v' root (cs ++ (slash ∷ basename path)) rooted'
            ∙ ap (λ ss. descend v'.node ss (follow v'.node root))
                (components-append (basename path) name cs),
      )

  pub path-Leads :
      (path : Bytes)
      → starts_with_slash path ≡ true
      → is_empty (basename path) ≡ false
      → parent_of v path ≡ some parent
      → Leads path
  path-Leads path start named found =
      let (p, whole, plain) = basename_split path (has_slash-first path start) in
      Leads-parts p path (basename-IsName (basename path) named (no_slash (basename path) plain))
        whole start found
