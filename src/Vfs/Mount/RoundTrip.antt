-- ===== src/Vfs/Mount/RoundTrip.antt =====
-- What stands in the table of mounts, and a mount followed by its unmount.
use luminary.Base.{
  ℕ, ◌<◌, ◌≡◌, refl, ap, sym, ◌∙◌, inl, inr, Bool, true, false, not, ◌&&◌, ◌||◌, some, List, [],
  ◌∷◌, ◌++◌, append-nil, length, take-fits, ◌-◌, arith, leb, ◌==◌, Bool-cases, Option-cases,
}
use luminary.Vfs.{Bytes, vfs_path_max, is_dir}
use luminary.Vfs.Tree.{Vfs, same_bytes, vfs_lookup}
use luminary.Vfs.Tree.Lookup.{same_bytes_self}
use luminary.Vfs.Mount.{
  Mount, Mounts, MountOps, vfs_mount_max, fs_lookup_ops, mounted, mount_at, vfs_do_mount,
  find_mount, is_nested, any_nested, umount_node, vfs_do_umount, is_dynamic,
}

-- A path is nested in itself.
pub is_nested-same : (a b : Bytes) → same_bytes a b ≡ true → is_nested b a ≡ true
unfolding same_bytes is_nested
is_nested-same [] [] e = refl
is_nested-same [] (d ∷ ds) e = absurd (ground (arith, e))
is_nested-same (c ∷ cs) [] e = absurd (ground (arith, e))
is_nested-same (c ∷ cs) (d ∷ ds) e =
    let heads : c ≡ d = ground (arith, e) in
    let heads' : (d == c) ≡ true = ground (arith, heads) in
    rw heads' (is_nested-same cs ds (ground (arith, e)))

pub any_nested-append :
    (path : Bytes) (es fs : List Mount)
    → any_nested path (es ++ fs) ≡ (any_nested path es || any_nested path fs)
unfolding any_nested
any_nested-append path [] fs = refl
any_nested-append path (e ∷ es) fs = ground (arith, any_nested-append path es fs)

or_left : (a b : Bool) → (a || b) ≡ false → a ≡ false
or_left a b e = ground (arith, e)

or_right : (a b : Bool) → (a || b) ≡ false → b ≡ false
or_right a b e = ground (arith, e)

-- An entry that is not nested is another one.
not_here :
    (path : Bytes) (d : Mount)
    → (is_dynamic d && is_nested path d.path) ≡ false
    → (is_dynamic d && same_bytes d.path path) ≡ false
not_here path d clear = elim (Bool-cases (same_bytes d.path path)) [
  | inl same ↦ let nested = is_nested-same d.path path same in ground (arith, same, nested, clear)
  | inr other ↦ ground (arith, other)
]

-- The entry at the end is the one that is found, when nothing stands at or below its path.
find_mount-last :
    (path : Bytes) (es : List Mount) (e : Mount)
    → any_nested path es ≡ false
    → is_dynamic e ≡ true
    → same_bytes e.path path ≡ true
    → find_mount path (es ++ (e ∷ [])) ≡ some (es, e, [])
unfolding find_mount any_nested
find_mount-last path [] e clear dynamic same = rw (dynamic, same) refl
find_mount-last path (d ∷ ds) e clear dynamic same =
    let apart : (is_dynamic d && same_bytes d.path path) ≡ false =
      not_here path d (or_left _ _ clear) in
    let later = or_right (is_dynamic d && is_nested path d.path) (any_nested path ds) clear in
    rw (find_mount, apart, find_mount-last path ds e later dynamic same) refl

-- What a mount that succeeded did.
mount_at-inv :
    (op : MountOps) (path fstype : Bytes) (device mp : ℕ) (v v' : Vfs) (m m' : Mounts)
    → mount_at op path fstype device mp v m ≡ (true, v', m')
    → (length m.mount_table < vfs_mount_max)
      × (m' ≡ record m { mount_table = m.mount_table ++ (mounted path fstype mp v' ∷ []) })
unfolding mount_at
mount_at-inv op path fstype device mp v v' m m' e = elim (Option-cases (v.node mp).mounted_root) [
  | inr (root, busy) ↦ absurd (ground (arith, ap (λ r. r.0) (rw (mount_at, busy) at e)))
  | inl free ↦
      elim (Bool-cases (not (is_dir (v.node mp)) || leb vfs_mount_max (length m.mount_table))) [
        | inl bad ↦ absurd (ground (arith, ap (λ r. r.0) (rw (mount_at, free, bad) at e)))
        | inr good ↦ elim (Bool-cases (op.mount mp device v).0) [
          | inr failed ↦
              absurd (ground (arith, ap (λ r. r.0) (rw (mount_at, free, good, failed) at e)))
          | inl fine ↦ (
            ground (arith, good),
            let e' = rw (mount_at, free, good, fine) at e in
                sym (ap (λ r. r.2) e')
                ∙ ap {B = Mounts}
                    (λ w. record m {
                      mount_table = m.mount_table ++ (mounted path fstype mp w ∷ []);
                    })
                    (ap (λ r. r.1) e'),
          )
        ]
      ]
]

vfs_do_mount-inv :
    (ops : ℕ → MountOps) (path fstype : Bytes) (device : ℕ) (v v' : Vfs) (m m' : Mounts)
    → vfs_do_mount ops path fstype device v m ≡ (true, v', m')
    → (mp : ℕ) × (vfs_lookup v path ≡ some mp)
      × (m' ≡ record m { mount_table = m.mount_table ++ (mounted path fstype mp v' ∷ []) })
unfolding vfs_do_mount
vfs_do_mount-inv ops path fstype device v v' m m' e =
    elim (Option-cases (fs_lookup_ops m.fs_registry fstype)) [
      | inl nothing ↦ absurd (ground (arith, ap (λ r. r.0) (rw (vfs_do_mount, nothing) at e)))
      | inr (op, known) ↦ elim (Option-cases (vfs_lookup v path)) [
        | inl nothing ↦
            absurd (ground (arith, ap (λ r. r.0) (rw (vfs_do_mount, known, nothing) at e)))
        | inr (mp, found) ↦ (
          mp,
          found,
          (mount_at-inv (ops op) path fstype device mp v v' m m'
              (rw (vfs_do_mount, known, found) at e)).1,
        )
      ]
    ]

umount_found :
    (ops : ℕ → MountOps) (path : Bytes) (v v' : Vfs) (m : Mounts) (before : List Mount) (e : Mount)
    (after : List Mount)
    → find_mount path m.mount_table ≡ some (before, e, after)
    → any_nested path (before ++ after) ≡ false
    → umount_node ops e.mountpoint v ≡ (true, v')
    → vfs_do_umount ops path v m ≡ (true, v', record m { mount_table = before ++ after })
unfolding vfs_do_umount
umount_found ops path v v' m before e after found clear undone =
    rw (vfs_do_umount, found, clear, undone) refl

-- The entry of a mount is at its path.
pub mounted-path :
    (path fstype : Bytes) (mp : ℕ) (v : Vfs)
    → length path < vfs_path_max
    → same_bytes (mounted path fstype mp v).path path ≡ true
mounted-path path fstype mp v short =
    ap (λ p. same_bytes p path) (take-fits path (vfs_path_max - 1) (omega arith))
    ∙ same_bytes_self path

module _ (ops : ℕ → MountOps) (path fstype : Bytes) (device : ℕ) (v v' v'' : Vfs)
    (m m' : Mounts) where
  -- When the table has no mount at or below a path of at most 255 bytes, a mount there that succeeds,
  -- followed by an unmount that the driver agrees to, leaves the table of mounts as it was.
  pub vfs_do_umount-vfs_do_mount :
      (mp : ℕ)
      → length path < vfs_path_max
      → any_nested path m.mount_table ≡ false
      → vfs_do_mount ops path fstype device v m ≡ (true, v', m')
      → vfs_lookup v path ≡ some mp
      → umount_node ops (some mp) v' ≡ (true, v'')
      → vfs_do_umount ops path v' m' ≡ (true, v'', m)
  unfolding vfs_do_umount
  vfs_do_umount-vfs_do_mount mp short clear done found undone =
      let (mp', found', table) = vfs_do_mount-inv ops path fstype device v v' m m' done in
      let same : mp' ≡ mp = ground (arith, found', found) in
      let e = mounted path fstype mp' v' in
      let found_last =
        find_mount-last path m.mount_table e clear refl (mounted-path path fstype mp' v' short) in
      ap (vfs_do_umount ops path v') table
      ∙ umount_found ops path v' v'' (record m { mount_table = m.mount_table ++ (e ∷ []) })
          m.mount_table e [] found_last (ap (any_nested path) (append-nil m.mount_table) ∙ clear)
          (ap (λ n. umount_node ops (some n) v') same ∙ undone)
      ∙ ap (λ t. (true, v'', record m { mount_table = t })) (append-nil m.mount_table)
