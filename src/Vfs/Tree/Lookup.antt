-- ===== src/Vfs/Tree/Lookup.antt =====
-- Lookups after a node was added.
use luminary.Base.{
  ℕ, ◌≡◌, ◌==◌, ◌≢◌, inl, inr, refl, ap, sym, ◌∙◌, true, none, some, List, [], ◌∷◌, ◌++◌, arith,
  Bool-cases, Option-cases,
}
use native.Mathlib.Decide.{ℕ_discrete}
use luminary.Vfs.{Bytes, Node, is_dir}
use luminary.Vfs.Tree.{same_bytes, dir_child, follow, descend}

pub same_bytes_self : (s : Bytes) → same_bytes s s ≡ true
unfolding same_bytes
same_bytes_self [] = refl
same_bytes_self (c ∷ cs) = let e : (c == c) ≡ true = ground arith in rw (e, same_bytes_self cs) refl

abbrev pub NotIn : ℕ → List ℕ → Type 0
NotIn n [] = Unit
NotIn n (c ∷ cs) = (c ≢ n) × NotIn n cs

-- Nothing points to the node on the way down.
pub record IsUnreferenced (node : ℕ → Node) (n : ℕ) : Type 0 where
  pub mounts : (m : ℕ) → (node m).mounted_root ≢ some n
  pub children : (m : ℕ) → NotIn n (node m).children

-- The node `n` became the last child of `parent`, and nothing else that a lookup reads changed.
pub record Adds (node node' : ℕ → Node) (parent n : ℕ) (base : Bytes) : Type 0 where
  pub name : (m : ℕ) → m ≢ n → (node' m).name ≡ (node m).name
  pub dir : (m : ℕ) → m ≢ n → is_dir (node' m) ≡ is_dir (node m)
  pub mount : (m : ℕ) → m ≢ n → (node' m).mounted_root ≡ (node m).mounted_root
  pub others : (m : ℕ) → m ≢ n → m ≢ parent → (node' m).children ≡ (node m).children
  pub last : (node' parent).children ≡ (node parent).children ++ (n ∷ [])
  pub new_name : (node' n).name ≡ base
  pub new_mount : (node' n).mounted_root ≡ none

pub descend_step :
    (node : ℕ → Node) (s : Bytes) (ss : List Bytes) (cur c : ℕ)
    → is_dir (node cur) ≡ true
    → dir_child node (node cur).children s ≡ some c
    → descend node (s ∷ ss) cur ≡ descend node ss (follow node c)
unfolding descend
descend_step node s ss cur c dir found = rw (descend, dir, found) refl

-- A walk of one component more went through a directory and a child of it.
pub descend_inv :
    (node : ℕ → Node) (s : Bytes) (ss : List Bytes) (cur m : ℕ)
    → descend node (s ∷ ss) cur ≡ some m
    → (is_dir (node cur) ≡ true)
      × ((c : ℕ) × (dir_child node (node cur).children s ≡ some c)
          × (descend node ss (follow node c) ≡ some m))
unfolding descend
descend_inv node s ss cur m e = elim (Bool-cases (is_dir (node cur))) [
  | inr no_dir ↦ absurd (ground (arith, e, no_dir))
  | inl dir ↦ elim (Option-cases (dir_child node (node cur).children s)) [
    | inl nothing ↦ absurd (ground (arith, e, dir, nothing))
    | inr (c, found) ↦ (dir, (c, found, sym (descend_step node s ss cur c dir found) ∙ e))
  ]
]

module _ (node : ℕ → Node) (n : ℕ) where
  -- A child of the old tree is another node.
  pub dir_child-ne :
      (cs : List ℕ) (s : Bytes) (c : ℕ) → NotIn n cs → dir_child node cs s ≡ some c → c ≢ n
  unfolding dir_child
  dir_child-ne [] s c new e = absurd (ground (arith, e))
  dir_child-ne (d ∷ ds) s c (ne, new) e = elim (Bool-cases (same_bytes (node d).name s)) [
    | inl here ↦ ground (arith, e, here, ne)
    | inr later ↦ dir_child-ne ds s c new (rw later at e)
  ]

  module _ (unreferenced : IsUnreferenced node n) where
    pub follow-ne : (c : ℕ) → c ≢ n → follow node c ≢ n
    follow-ne c ne = elim (Option-cases (node c).mounted_root) [
      | inl no_mount ↦ rw (follow, no_mount) ne
      | inr (root, mounted) ↦
          rw (follow, mounted) (λ e. unreferenced.mounts c (mounted ∙ ap some e))
    ]

    -- A walk does not come to the node.
    pub descend-ne : (ss : List Bytes) (cur m : ℕ) → cur ≢ n → descend node ss cur ≡ some m → m ≢ n
    unfolding descend
    descend-ne [] cur m ne e = ground (arith, e, ne)
    descend-ne (s ∷ ss) cur m ne e =
        let (dir, (c, found, rest)) = descend_inv node s ss cur m e in
        let c_ne = dir_child-ne (node cur).children s c (unreferenced.children cur) found in
        descend-ne ss (follow node c) m (follow-ne c c_ne) rest

module _ (node node' : ℕ → Node) (parent n : ℕ) (base : Bytes)
    (adds : Adds node node' parent n base) where
  dir_child-same :
      (cs : List ℕ) (s : Bytes) → NotIn n cs → dir_child node' cs s ≡ dir_child node cs s
  unfolding dir_child
  dir_child-same [] s new = refl
  dir_child-same (c ∷ cs) s (ne, new) = rw (dir_child, adds.name c ne, dir_child-same cs s new) refl

  -- A child that was found is found still.
  dir_child-append :
      (cs : List ℕ) (s : Bytes) (c : ℕ)
      → NotIn n cs
      → dir_child node cs s ≡ some c
      → dir_child node' (cs ++ (n ∷ [])) s ≡ some c
  unfolding dir_child
  dir_child-append [] s c new e = absurd (ground (arith, e))
  dir_child-append (d ∷ ds) s c (ne, new) e = elim (Bool-cases (same_bytes (node d).name s)) [
    | inl here ↦ rw (dir_child, adds.name d ne, here) (rw (here) at e)
    | inr later ↦
        rw (dir_child, adds.name d ne, later) (dir_child-append ds s c new (rw later at e))
  ]

  -- A name that was not there is found at the new node.
  dir_child-new :
      (cs : List ℕ)
      → NotIn n cs
      → dir_child node cs base ≡ none
      → same_bytes base base ≡ true
      → dir_child node' (cs ++ (n ∷ [])) base ≡ some n
  unfolding dir_child
  dir_child-new [] new e same = rw (dir_child, adds.new_name, same) refl
  dir_child-new (d ∷ ds) (ne, new) e same = elim (Bool-cases (same_bytes (node d).name base)) [
    | inl here ↦ absurd (ground (arith, e, here))
    | inr later ↦ rw (dir_child, adds.name d ne, later) (dir_child-new ds new (rw later at e) same)
  ]

  module _ (unreferenced : IsUnreferenced node n) where
    child-same :
        (cur : ℕ) (s : Bytes) (c : ℕ)
        → cur ≢ n
        → dir_child node (node cur).children s ≡ some c
        → dir_child node' (node' cur).children s ≡ some c
    child-same cur s c ne e = elim (ℕ_discrete cur parent) [
      | yes here ↦ rw here (
          rw adds.last (
            dir_child-append (node parent).children s c (unreferenced.children parent)
              (rw here at e)))
      | no other ↦
          rw (adds.others cur ne other)
            (dir_child-same (node cur).children s (unreferenced.children cur) ∙ e)
    ]

    pub follow-same : (c : ℕ) → c ≢ n → follow node' c ≡ follow node c
    follow-same c ne = rw (follow, adds.mount c ne) refl

    -- What a walk reached before, it reaches still.
    pub descend-same :
        (ss : List Bytes) (cur m : ℕ)
        → cur ≢ n
        → descend node ss cur ≡ some m
        → descend node' ss cur ≡ some m
    unfolding descend
    descend-same [] cur m ne e = e
    descend-same (s ∷ ss) cur m ne e =
        let (dir, (c, found, rest)) = descend_inv node s ss cur m e in
        let c_ne = dir_child-ne node n (node cur).children s c (unreferenced.children cur) found in
        descend_step node' s ss cur c (adds.dir cur ne ∙ dir) (child-same cur s c ne found)
        ∙ ap (descend node' ss) (follow-same c c_ne)
        ∙ descend-same ss (follow node c) m (follow-ne node n unreferenced c c_ne) rest

    -- A walk to the parent, and on by the new name, comes to the new node.
    pub descend-new :
        (ss : List Bytes) (cur : ℕ)
        → cur ≢ n
        → parent ≢ n
        → descend node ss cur ≡ some parent
        → is_dir (node parent) ≡ true
        → dir_child node (node parent).children base ≡ none
        → same_bytes base base ≡ true
        → descend node' (ss ++ (base ∷ [])) cur ≡ some n
    unfolding descend
    descend-new [] cur ne parent_ne e dir absent same =
        let here : cur ≡ parent = ground (arith, e) in
        rw here (
          descend_step node' base [] parent n (adds.dir parent parent_ne ∙ dir) (
            ap (λ cs. dir_child node' cs base) adds.last
            ∙ dir_child-new (node parent).children (unreferenced.children parent) absent same)
          ∙ rw (follow, adds.new_mount) refl)
    descend-new (s ∷ ss) cur ne parent_ne e dir absent same =
        let (dir', (c, found, rest)) = descend_inv node s ss cur parent e in
        let c_ne = dir_child-ne node n (node cur).children s c (unreferenced.children cur) found in
        descend_step node' s (ss ++ (base ∷ [])) cur c (adds.dir cur ne ∙ dir')
          (child-same cur s c ne found)
        ∙ ap (descend node' (ss ++ (base ∷ []))) (follow-same c c_ne)
        ∙ descend-new ss (follow node c) (follow-ne node n unreferenced c c_ne) parent_ne rest dir
            absent same
