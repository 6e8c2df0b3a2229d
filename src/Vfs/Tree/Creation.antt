-- ===== src/Vfs/Tree/Creation.antt =====
-- Lookups after `vfs_mkdir` and `vfs_creat`, on top of `new_child`.
use luminary.Base.{
  ℕ, ◌<◌, ◌≡◌, refl, ap, sym, subst, ◌∙◌, inl, inr, true, false, length, arith, Option-cases,
  Option, none, some, Bool-cases,
}
use luminary.Vfs.{Bytes, vfs_name_max, is_file}
use luminary.Vfs.Tree.{Vfs, vfs_lookup, follow, dir_child}
use luminary.Vfs.Tree.Change.{
  Driver, driver_op, basename, open_parent, new_child, truncate, vfs_creat, vfs_mkdir,
}
use luminary.Vfs.Tree.Lookup.{dir_child-ne}
use luminary.Vfs.Tree.Found.{IsFresh, Keeps, open_parent-Opened, new_child-found}

-- No directory belongs to a driver.
abbrev pub NoDrivers : Vfs → Type 0
NoDrivers v = (m : ℕ) → (v.node m).fs ≡ none

module _ (drivers : ℕ → Driver) (spare : Option ℕ) (path : Bytes) (v : Vfs)
    (plain : NoDrivers v) where
  -- The part of `vfs_mkdir` behind the checks.
  abbrev mkdir_in : ℕ → Option ℕ × Vfs
  mkdir_in parent = elim (driver_op drivers (λ d. d.mkdir_op) (v.node (follow v.node parent)).fs) [
    | some mkdir ↦ mkdir (follow v.node parent) (basename path) v
    | none ↦ elim (dir_child v.node (v.node parent).children (basename path)) [
      | some n ↦ (none, v)
      | none ↦ new_child 2 false spare parent (basename path) v
    ]
  ]

  mkdir_in-none :
      (parent : ℕ)
      → dir_child v.node (v.node parent).children (basename path) ≡ none
      → mkdir_in parent ≡ new_child 2 false spare parent (basename path) v
  mkdir_in-none parent absent = rw (mkdir_in, driver_op, plain (follow v.node parent), absent) refl

  vfs_mkdir_inv :
      (n : ℕ)
      → (vfs_mkdir drivers spare path v).0 ≡ some n
      → (parent : ℕ) × (open_parent v path ≡ some parent)
        × (dir_child v.node (v.node parent).children (basename path) ≡ none)
        × (vfs_mkdir drivers spare path v ≡ new_child 2 false spare parent (basename path) v)
  unfolding vfs_mkdir
  vfs_mkdir_inv n made = elim (Option-cases (open_parent v path)) [
    | inl nothing ↦ absurd (ground (arith, rw (vfs_mkdir, nothing) at made))
    | inr (parent, opened) ↦
        elim (Option-cases (dir_child v.node (v.node parent).children (basename path))) [
          | inr (c, found) ↦ absurd (
              ground (
                arith,
                rw (vfs_mkdir, opened, driver_op, plain (follow v.node parent), found) at made,
              ))
          | inl absent ↦
              (parent, opened, absent, rw (vfs_mkdir, opened) (mkdir_in-none parent absent))
        ]
  ]

  -- When no directory belongs to a driver, a directory that vfs_mkdir made, by a last component of at
  -- most 127 bytes at a node that nothing pointed to, is found by its path, and every path that led to
  -- a node leads to it still.
  pub vfs_mkdir_lem :
      (n : ℕ)
      → length (basename path) < vfs_name_max
      → IsFresh v n
      → (vfs_mkdir drivers spare path v).0 ≡ some n
      → (vfs_lookup (vfs_mkdir drivers spare path v).1 path ≡ some n)
        × Keeps v (vfs_mkdir drivers spare path v).1
  vfs_mkdir_lem n short fresh made =
      let (parent, opened, absent, whole) = vfs_mkdir_inv n made in
      subst (λ r. (vfs_lookup r.1 path ≡ some n) × Keeps v r.1) (sym whole)
        (new_child-found 2 false spare v path parent n (open_parent-Opened v path parent opened)
          absent short fresh (ap (λ r. r.0) (sym whole) ∙ made))

  creat_in_none :
      (parent : ℕ)
      → dir_child v.node (v.node parent).children (basename path) ≡ none
      → open_parent v path ≡ some parent
      → vfs_creat drivers spare path v ≡ new_child 1 true spare parent (basename path) v
  unfolding vfs_creat
  creat_in_none parent absent opened =
      rw (vfs_creat, opened, driver_op, plain (follow v.node parent), absent) refl

  creat_in_found :
      (parent c : ℕ)
      → dir_child v.node (v.node parent).children (basename path) ≡ some c
      → open_parent v path ≡ some parent
      → vfs_creat drivers spare path v ≡ truncate c v
  unfolding vfs_creat
  creat_in_found parent c found opened =
      rw (vfs_creat, opened, driver_op, plain (follow v.node parent), found) refl

  truncate_same : (c n : ℕ) → (truncate c v).0 ≡ some n → c ≡ n
  unfolding truncate
  truncate_same c n e = elim (Bool-cases (is_file (v.node c))) [
    | inl file ↦ ground (arith, rw file at e)
    | inr other ↦ absurd (ground (arith, rw other at e))
  ]

  -- When no directory belongs to a driver, a file that vfs_creat made, by a last component of at
  -- most 127 bytes at a node that nothing pointed to, is found by its path, and every path that led to
  -- a node leads to it still.
  vfs_creat_lem :
      (n : ℕ)
      → length (basename path) < vfs_name_max
      → IsFresh v n
      → (vfs_creat drivers spare path v).0 ≡ some n
      → (vfs_lookup (vfs_creat drivers spare path v).1 path ≡ some n)
        × Keeps v (vfs_creat drivers spare path v).1
  unfolding vfs_creat
  vfs_creat_lem n short fresh made = elim (Option-cases (open_parent v path)) [
    | inl nothing ↦ absurd (ground (arith, rw (vfs_creat, nothing) at made))
    | inr (parent, opened) ↦
        elim (Option-cases (dir_child v.node (v.node parent).children (basename path))) [
          | inr (c, found) ↦
              let same =
                truncate_same c n
                  (ap (λ r. r.0) (sym (creat_in_found parent c found opened)) ∙ made) in
              absurd (
                dir_child-ne v.node n (v.node parent).children (basename path) c
                  (fresh.unreferenced.children parent) found same)
          | inl absent ↦
              let whole = creat_in_none parent absent opened in
              subst (λ r. (vfs_lookup r.1 path ≡ some n) × Keeps v r.1) (sym whole)
                (new_child-found 1 true spare v path parent n
                  (open_parent-Opened v path parent opened) absent short fresh
                  (ap (λ r. r.0) (sym whole) ∙ made))
        ]
  ]
