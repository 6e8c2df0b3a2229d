-- ===== src/Vfs/Tree/Unlink.antt =====
-- Walks after a file was taken from its directory.
use luminary.Base.{
  ℕ, ◌≡◌, ◌≢◌, refl, ap, sym, subst, ◌∙◌, inl, inr, true, false, List, [], ◌∷◌, arith, Option-cases,
  none, some, Bool-cases, ◌==◌,
}
use native.Mathlib.Decide.{ℕ_discrete}
use luminary.Vfs.{Bytes, Node, is_dir}
use luminary.Vfs.Tree.{same_bytes, follow, dir_child, descend}
use luminary.Vfs.Tree.Remove.{remove_child}
use luminary.Vfs.Tree.Lookup.{NotIn, IsUnreferenced, descend_step, descend_inv, follow-ne}

-- The node `n` was taken from its directory, and nothing else that a lookup reads changed but at `n`.
pub record Removes (node node' : ℕ → Node) (parent n : ℕ) : Type 0 where
  pub name : (m : ℕ) → m ≢ n → (node' m).name ≡ (node m).name
  pub dir : (m : ℕ) → m ≢ n → is_dir (node' m) ≡ is_dir (node m)
  pub mount : (m : ℕ) → m ≢ n → (node' m).mounted_root ≡ (node m).mounted_root
  pub others : (m : ℕ) → m ≢ n → m ≢ parent → (node' m).children ≡ (node m).children
  pub removed : remove_child (node parent).children n ≡ some (node' parent).children
  pub no_dir : is_dir (node n) ≡ false
  pub no_mount : (node n).mounted_root ≡ none

some_inj : {A : Type 0} {x y : A} → some x ≡ some y → x ≡ y
some_inj {x = x} e = ap (λ o. elim o [ none ↦ x | some z ↦ z ]) e

module _ (node node' : ℕ → Node) (parent n : ℕ) (removes : Removes node node' parent n) where
  -- Another child that is found is found still, with or without the node in the list.
  dir_child-kept :
      (cs : List ℕ) (s : Bytes) (c : ℕ)
      → NotIn n cs
      → dir_child node cs s ≡ some c
      → dir_child node' cs s ≡ some c
  unfolding dir_child
  dir_child-kept [] s c new e = e
  dir_child-kept (d ∷ ds) s c (ne, new) e = elim (Bool-cases (same_bytes (node d).name s)) [
    | inl here ↦ rw (dir_child, removes.name d ne, here) (rw here at e)
    | inr later ↦
        rw (dir_child, removes.name d ne, later) (dir_child-kept ds s c new (rw later at e))
  ]

  dir_child-removed :
      (cs : List ℕ) (s : Bytes) (c : ℕ) (cs' : List ℕ)
      → remove_child cs n ≡ some cs'
      → NotIn n cs'
      → c ≢ n
      → dir_child node cs s ≡ some c
      → dir_child node' cs' s ≡ some c
  unfolding dir_child remove_child
  dir_child-removed [] s c cs' gone new ne e = absurd (ground (arith, e))
  dir_child-removed (d ∷ ds) s c cs' gone new ne e = elim (ℕ_discrete d n) [
    | yes here ↦
        let at : (d == n) ≡ true = ground (arith, here) in
        let same : ds ≡ cs' = some_inj (rw at at gone) in
        elim (Bool-cases (same_bytes (node d).name s)) [
          | inl found ↦ absurd (ne (ground (arith, rw found at e, here)))
          | inr later ↦
              subst (λ l. dir_child node' l s ≡ some c) same
                (dir_child-kept ds s c (subst (NotIn n) (sym same) new) (rw later at e))
        ]
    | no apart ↦
        let off : (d == n) ≡ false = ground (arith, apart) in
        elim (Option-cases (remove_child ds n)) [
          | inl nothing ↦ absurd (ground (arith, rw (off, nothing) at gone))
          | inr (ds', rest) ↦
              let same : d ∷ ds' ≡ cs' = some_inj (rw (off, rest) at gone) in
              let new' = subst (NotIn n) (sym same) new in
              subst (λ l. dir_child node' l s ≡ some c) same
                (elim (Bool-cases (same_bytes (node d).name s)) [
                  | inl found ↦ rw (dir_child, removes.name d apart, found) (rw found at e)
                  | inr later ↦
                      rw (dir_child, removes.name d apart, later)
                        (dir_child-removed ds s c ds' rest new'.1 ne (rw later at e))
                ])
        ]
  ]

  -- A file is no step on the way to another node.
  stuck : (ss : List Bytes) (m : ℕ) → m ≢ n → descend node ss n ≡ some m → ⊥
  unfolding descend
  stuck [] m other e = other (ground (arith, e))
  stuck (s ∷ ss) m other e = ground (arith, (descend_inv node s ss n m e).0, removes.no_dir)

  module _ (unreferenced : IsUnreferenced node' n) where
    -- Nothing else is lost.
    pub descend-removed :
        (ss : List Bytes) (cur m : ℕ)
        → cur ≢ n
        → m ≢ n
        → descend node ss cur ≡ some m
        → descend node' ss cur ≡ some m
    unfolding descend
    descend-removed [] cur m ne other e = e
    descend-removed (s ∷ ss) cur m ne other e =
        let (dir, (c, found, rest)) = descend_inv node s ss cur m e in
        elim (ℕ_discrete c n) [
          | yes here ↦ absurd (
              stuck ss m other (
                ap (descend node ss)
                  (sym (rw (follow, removes.no_mount) refl) ∙ ap (follow node) (sym here))
                ∙ rest))
          | no apart ↦
              let still : dir_child node' (node' cur).children s ≡ some c =
                elim (ℕ_discrete cur parent) [
                  | yes at ↦
                      subst (λ p. dir_child node' (node' p).children s ≡ some c) (sym at)
                        (dir_child-removed (node parent).children s c (node' parent).children
                          removes.removed (unreferenced.children parent) apart
                          (subst (λ p. dir_child node (node p).children s ≡ some c) at found))
                  | no elsewhere ↦
                      dir_child-kept (node' cur).children s c (unreferenced.children cur)
                        (ap (λ l. dir_child node l s) (removes.others cur ne elsewhere) ∙ found)
                ] in
              let same : follow node' c ≡ follow node c = rw (follow, removes.mount c apart) refl in
              descend_step node' s ss cur c (removes.dir cur ne ∙ dir) still
              ∙ ap (descend node' ss) same
              ∙ descend-removed ss (follow node c) m
                  (λ e'. follow-ne node' n unreferenced c apart (same ∙ e')) other rest
        ]
