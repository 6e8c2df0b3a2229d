-- ===== src/Vfs/Tree/Found.antt =====
-- Lookups after `new_child`.
use luminary.Base.{
  ℕ, ◌<◌, ◌≡◌, ◌≢◌, refl, ap, sym, ◌∙◌, inl, inr, Bool, true, false, not, [], ◌∷◌, ◌++◌, arith,
  length, ◌==◌, if◌then◌else◌, Bool-cases, Option-cases, Option, none, some, ◌||◌,
}
use luminary.Vfs.{Bytes, vfs_name_max, is_dir}
use luminary.Vfs.Path.{slash, components}
use luminary.Vfs.Tree.{Vfs, vfs_lookup, descend, follow, dir_child}
use luminary.Vfs.Tree.Change.{
  basename, parent_of, starts_with_slash, is_empty, open_parent, new_child,
}
use luminary.Vfs.Tree.Lookup.{
  same_bytes_self, Adds, IsUnreferenced, descend-same, descend-new, descend-ne, follow-ne,
  follow-same,
}
use luminary.Vfs.Tree.Split.{path-Leads}
use luminary.Vfs.Tree.Make.{made-Adds}

-- Nothing that a lookup reads points to the node.
pub record IsFresh (v : Vfs) (n : ℕ) : Type 0 where
  pub root : v.vfs_root ≢ some n
  pub unreferenced : IsUnreferenced v.node n

-- A lookup that found a node finds it still.
abbrev pub Keeps : Vfs → Vfs → Type 0
Keeps v v' = (path : Bytes) (m : ℕ) → vfs_lookup v path ≡ some m → vfs_lookup v' path ≡ some m

-- The directory that the checks let through.
pub record Opened (v : Vfs) (path : Bytes) (parent : ℕ) : Type 0 where
  root : ℕ
  rooted : v.vfs_root ≡ some root
  start : starts_with_slash path ≡ true
  named : is_empty (basename path) ≡ false
  found : parent_of v path ≡ some parent
  dir : is_dir (v.node parent) ≡ true

-- The checks after the one for a root.
abbrev checked : Vfs → Bytes → Option ℕ
checked v path =
    if not (starts_with_slash path) || is_empty (basename path)
    then none
    else elim (parent_of v path) [
      | none ↦ none
      | some parent ↦
          if not (is_dir (v.node parent)) || (v.node parent).readonly then none else some parent
    ]

open_parent_inv :
    (v : Vfs) (path : Bytes) (parent : ℕ)
    → open_parent v path ≡ some parent
    → (root : ℕ) × (v.vfs_root ≡ some root) × (checked v path ≡ some parent)
unfolding open_parent
open_parent_inv v path parent = from v.vfs_root
  where
    from :
        (got : Option ℕ)
        → elim got [ none ↦ none | some root ↦ checked v path ] ≡ some parent
        → (root : ℕ) × (got ≡ some root) × (checked v path ≡ some parent)
    from none e = absurd (ground (arith, e))
    from (some root) e = (root, refl, e)

pub open_parent-Opened :
    (v : Vfs) (path : Bytes) (parent : ℕ) → open_parent v path ≡ some parent → Opened v path parent
open_parent-Opened v path parent e =
    let (root, rooted, e') = open_parent_inv v path parent e in
    elim (Bool-cases (not (starts_with_slash path) || is_empty (basename path))) [
      | inl bad ↦ absurd (ground (arith, rw (bad) at e'))
      | inr good ↦ elim (Option-cases (parent_of v path)) [
        | inl nothing ↦ absurd (ground (arith, rw (good, nothing) at e'))
        | inr (p, found) ↦ elim (Bool-cases (not (is_dir (v.node p)) || (v.node p).readonly)) [
          | inl bad ↦ absurd (ground (arith, rw (good, found, bad) at e'))
          | inr fine ↦
              let same : p ≡ parent = ground (arith, rw (good, found, fine) at e') in
              record {
                root = root;
                rooted = rooted;
                start = ground (arith, good);
                named = ground (arith, good);
                found = found ∙ ap some same;
                dir = ap (λ m. is_dir (v.node m)) (sym same) ∙ ground (arith, fine);
              }
        ]
      ]
    ]

pub lookup_rooted :
    (v : Vfs) (root c : ℕ) (cs : Bytes)
    → v.vfs_root ≡ some root
    → vfs_lookup v (c ∷ cs)
      ≡ (if c == slash then descend v.node (components cs) (follow v.node root) else none)
unfolding vfs_lookup
lookup_rooted v root c cs rooted =
    ap
      (λ r. elim r as (λ x. Option ℕ) [
        | none ↦ none
        | some root ↦
            if c == slash then descend v.node (components cs) (follow v.node root) else none
      ])
      rooted

Adds-Keeps :
    (v v' : Vfs) (root parent n : ℕ) (base : Bytes)
    → v.vfs_root ≡ some root
    → v'.vfs_root ≡ some root
    → root ≢ n
    → IsUnreferenced v.node n
    → Adds v.node v'.node parent n base
    → Keeps v v'
unfolding vfs_lookup
Adds-Keeps v v' root parent n base rooted rooted' ne unreferenced adds [] m e =
    absurd (ground (arith, e))
Adds-Keeps v v' root parent n base rooted rooted' ne unreferenced adds (c ∷ cs) m e =
    elim (Bool-cases (c == slash)) [
      | inr bad ↦ absurd (ground (arith, lookup_rooted v root c cs rooted, bad, e))
      | inl good ↦
          let walked : descend v.node (components cs) (follow v.node root) ≡ some m =
            ground (arith, lookup_rooted v root c cs rooted, good, e) in
          lookup_rooted v' root c cs rooted'
          ∙ rw good (
              ap (descend v'.node (components cs))
                (follow-same v.node v'.node parent n base adds unreferenced root ne)
              ∙ descend-same v.node v'.node parent n base adds unreferenced (components cs)
                  (follow v.node root) m (follow-ne v.node n unreferenced root ne) walked)
    ]

module _ (kind : ℕ) (writable : Bool) (spare : Option ℕ) (v : Vfs) (path : Bytes)
    (parent n : ℕ) where
  abbrev made : Option ℕ × Vfs
  made = new_child kind writable spare parent (basename path) v

  pub new_child-found :
      Opened v path parent
      → dir_child v.node (v.node parent).children (basename path) ≡ none
      → length (basename path) < vfs_name_max
      → IsFresh v n
      → made.0 ≡ some n
      → (vfs_lookup made.1 path ≡ some n) × Keeps v made.1
  new_child-found opened absent short fresh got =
      let (ss, walked, looked) =
        path-Leads v opened.root parent opened.rooted path opened.start opened.named opened.found in
      let root_ne : opened.root ≢ n = λ e. fresh.root (opened.rooted ∙ ap some e) in
      let start_ne = follow-ne v.node n fresh.unreferenced opened.root root_ne in
      let parent_ne =
        descend-ne v.node n fresh.unreferenced ss (follow v.node opened.root) parent start_ne
          walked in
      let (adds, root) =
        made-Adds kind writable spare v parent n (basename path) got short parent_ne in
      let unreferenced = fresh.unreferenced in
      let rooted' = root ∙ opened.rooted in
      (
        looked made.1 rooted'
            ∙ ap (descend made.1.node (ss ++ (basename path ∷ []))) (
                follow-same v.node made.1.node parent n (basename path) adds unreferenced
                  opened.root root_ne)
            ∙ descend-new v.node made.1.node parent n (basename path) adds unreferenced ss
                (follow v.node opened.root) start_ne parent_ne walked opened.dir absent
                (same_bytes_self (basename path)),
        Adds-Keeps v made.1 opened.root parent n (basename path) opened.rooted rooted' root_ne
            unreferenced adds,
      )
