-- ===== src/Vfs/Mount/Stacked.antt =====
-- A mount on a path that is mounted already.
use luminary.Base.{
  ℕ, ◌<◌, ◌≡◌, refl, ap, sym, ◌∙◌, inl, inr, true, false, ◌&&◌, Option, none, some, List, [], ◌∷◌,
  ◌++◌, append_assoc, length, take, ◌-◌, arith, leb, Bool-cases, Option-cases,
}
use luminary.Vfs.{Bytes, vfs_path_max, is_dir}
use luminary.Vfs.Tree.{Vfs, same_bytes, vfs_lookup}
use luminary.Vfs.Mount.{
  Mount, Mounts, MountOps, vfs_mount_max, fs_lookup_ops, mounted, mount_at, vfs_do_mount,
  find_mount, is_nested, any_nested, vfs_do_umount, is_dynamic,
}
use luminary.Vfs.Mount.RoundTrip.{is_nested-same, any_nested-append, mounted-path}

abbrev extended :
    List Mount → Option (List Mount × Mount × List Mount) → Option (List Mount × Mount × List Mount)
extended fs r = elim r [ none ↦ none | some found ↦ some (found.0, found.1, found.2 ++ fs) ]

-- What is found first is found still.
find_mount-append :
    (path : Bytes) (es fs before after : List Mount) (e : Mount)
    → find_mount path es ≡ some (before, e, after)
    → find_mount path (es ++ fs) ≡ some (before, e, after ++ fs)
unfolding find_mount
find_mount-append path [] fs before after e found = absurd (ground (arith, found))
find_mount-append path (d ∷ ds) fs before after e found =
    elim (Bool-cases (is_dynamic d && same_bytes d.path path)) [
      | inl here ↦ rw (find_mount, here) (ap (extended fs) (rw (find_mount, here) at found))
      | inr apart ↦ elim (Option-cases (find_mount path ds)) [
        | inl nothing ↦ absurd (ground (arith, rw (find_mount, apart, nothing) at found))
        | inr ((b, x, a), later) ↦
            rw (find_mount, apart, find_mount-append path ds fs b a x later)
              (ap (extended fs) (rw (find_mount, apart, later) at found))
      ]
    ]

-- An unmount is refused when another mount is at its path or below.
umount_refused :
    (ops : ℕ → MountOps) (path : Bytes) (v : Vfs) (m : Mounts) (before : List Mount) (e : Mount)
    (after : List Mount)
    → find_mount path m.mount_table ≡ some (before, e, after)
    → any_nested path (before ++ after) ≡ true
    → vfs_do_umount ops path v m ≡ (false, v, m)
unfolding vfs_do_umount
umount_refused ops path v m before e after found nested = rw (vfs_do_umount, found, nested) refl

module _ (ops : ℕ → MountOps) (path fstype : Bytes) (device : ℕ) (v v' : Vfs) (m : Mounts)
    (op root : ℕ) where
  -- A path of at most 255 bytes that has a dynamic mount, and that lookups follow to a mounted root without
  -- a mount of its own, can be mounted again: the driver mounts at that root, and the table
  -- takes a second entry, while there is room. From then on, an unmount of that path is refused in
  -- every state of the tree.
  pub vfs_do_mount_again :
      (before : List Mount) (e : Mount) (after : List Mount)
      → length path < vfs_path_max
      → fs_lookup_ops m.fs_registry fstype ≡ some op
      → vfs_lookup v path ≡ some root
      → (v.node root).mounted_root ≡ none
      → is_dir (v.node root) ≡ true
      → length m.mount_table < vfs_mount_max
      → find_mount path m.mount_table ≡ some (before, e, after)
      → (ops op).mount root device v ≡ (true, v')
      → let m' : Mounts = record m {
        mount_table = m.mount_table ++ (mounted path fstype root v' ∷ []);
      } in
        (vfs_do_mount ops path fstype device v m ≡ (true, v', m'))
        × ((w : Vfs) → vfs_do_umount ops path w m' ≡ (false, w, m'))
  unfolding vfs_do_mount mount_at any_nested
  vfs_do_mount_again before e after short known found free dir room first done =
      let some_room : leb vfs_mount_max (length m.mount_table) ≡ false = ground arith in
      let top = mounted path fstype root v' in
      let m' : Mounts = record m { mount_table = m.mount_table ++ (top ∷ []) } in
      let top_nested : is_nested path (take (vfs_path_max - 1) path) ≡ true =
        is_nested-same top.path path (mounted-path path fstype root v' short) in
      let nested : any_nested path (before ++ (after ++ (top ∷ []))) ≡ true =
        ap (any_nested path) (sym (append_assoc before after (top ∷ [])))
        ∙ any_nested-append path (before ++ after) (top ∷ [])
        ∙ ground (arith, top_nested) in
      (
        rw (vfs_do_mount, known, found, mount_at, free, dir, some_room, done) refl,
        λ w.
            umount_refused ops path w m' before e (after ++ (top ∷ []))
              (find_mount-append path m.mount_table (top ∷ []) before after e first) nested,
      )
