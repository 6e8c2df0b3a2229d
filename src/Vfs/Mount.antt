-- ===== src/Vfs/Mount.antt =====
-- Mounts, `vfs_fs_register`, `vfs_mount`, `vfs_do_mount`, `vfs_do_umount` and `vfs_get_mounts` of
-- src/kernel/vfs.c. A driver's two operations are the argument `ops`; `true` is their 0.
pub mod RoundTrip
pub mod Stacked
use luminary.Base.{
  ℕ, ◌+◌, ◌-◌, Bool, true, false, not, ◌&&◌, ◌||◌, Option, none, some, List, [], ◌∷◌, ◌++◌, length,
  take, ltb, leb, ◌==◌, if◌then◌else◌, map,
}
use luminary.Base.Int.{ℤ, pos, ltb_ℤ, pos_part}
use luminary.Vfs.{Bytes, Node, vfs_path_max, is_dir}
use luminary.Vfs.Path.{slash}
use luminary.Vfs.Tree.{Vfs, same_bytes, vfs_lookup}

abbrev pub vfs_mount_max : ℕ
vfs_mount_max = 16

abbrev pub vfs_fs_max : ℕ
vfs_fs_max = 8

-- `struct vfs_mount`
pub record Mount : Type 0 where
  pub path : Bytes
  pub fstype : Bytes
  pub root : Option ℕ
  pub mountpoint : Option ℕ

-- The entries in use of `mount_table`, and those of `fs_registry`.
pub record Mounts : Type 0 where
  pub mount_table : List Mount
  pub fs_registry : List (Bytes × ℕ)

-- The mount and umount operations of `struct fs_ops`.
pub record MountOps : Type 0 where
  pub mount : (mountpoint device : ℕ) → Vfs → Bool × Vfs
  pub umount : Option (ℕ → Vfs → Bool × Vfs)

-- `strncpy` to an array of so many bytes, the last one NUL.
abbrev copied : (size : ℕ) → Bytes → Bytes
copied size s = take (size - 1) s

pub vfs_fs_register : Bytes → (ops : ℕ) → Mounts → Mounts
vfs_fs_register fstype ops m =
    if leb vfs_fs_max (length m.fs_registry)
    then m
    else record m { fs_registry = m.fs_registry ++ ((copied 16 fstype, ops) ∷ []) }

unfoldable pub fs_lookup_ops : List (Bytes × ℕ) → Bytes → Option ℕ
unfolding same_bytes
fs_lookup_ops [] fstype = none
fs_lookup_ops ((name, ops) ∷ es) fstype =
    let later = fs_lookup_ops es fstype in if same_bytes name fstype then some ops else later

pub vfs_mount : Bytes → Bytes → Option ℕ → Mounts → Mounts
vfs_mount path fstype root m = if leb vfs_mount_max (length m.mount_table) then m else record m {
  mount_table =
      m.mount_table
      ++ (record {
        path = copied vfs_path_max path;
        fstype = copied 16 fstype;
        root = root;
        mountpoint = none;
      }
          ∷ []);
}

-- The entry that `vfs_do_mount` appends.
abbrev pub mounted : Bytes → Bytes → (mp : ℕ) → Vfs → Mount
mounted path fstype mp v = record {
  path = copied vfs_path_max path;
  fstype = copied 16 fstype;
  root = (v.node mp).mounted_root;
  mountpoint = some mp;
}

-- From the node of the mount point on.
pub mount_at : MountOps → Bytes → Bytes → (device mp : ℕ) → Vfs → Mounts → Bool × Vfs × Mounts
mount_at op path fstype device mp v m = elim (v.node mp).mounted_root [
  | some root ↦ (false, v, m)
  | none ↦
      if not (is_dir (v.node mp)) || leb vfs_mount_max (length m.mount_table)
      then (false, v, m)
      else let (fine, v') = op.mount mp device v in
        if fine
        then (
          true,
          v',
          record m { mount_table = m.mount_table ++ (mounted path fstype mp v' ∷ []) },
        )
        else (false, v', m)
]

unfoldable pub vfs_do_mount :
    (ℕ → MountOps) → Bytes → Bytes → (device : ℕ) → Vfs → Mounts → Bool × Vfs × Mounts
unfolding fs_lookup_ops mount_at
vfs_do_mount ops path fstype device v m = elim (fs_lookup_ops m.fs_registry fstype) [
  | none ↦ (false, v, m)
  | some op ↦ elim (vfs_lookup v path) [
    | none ↦ (false, v, m)
    | some mp ↦ mount_at (ops op) path fstype device mp v m
  ]
]

abbrev pub is_dynamic : Mount → Bool
is_dynamic e = elim e.mountpoint [ none ↦ false | some mp ↦ true ]

-- The first dynamic mount with this path, and the entries before and behind it.
unfoldable pub find_mount : (path : Bytes) → List Mount → Option (List Mount × Mount × List Mount)
unfolding same_bytes
find_mount path [] = none
find_mount path (e ∷ es) =
    let later : Option (List Mount × Mount × List Mount) = (elim (find_mount path es) [
      | none ↦ none
      | some found ↦ some (e ∷ found.0, found.1, found.2)
    ]) in
    if is_dynamic e && same_bytes e.path path then some ([], e, es) else later

-- `strncmp(mp_path, path, plen) == 0 && (mp_path[plen] == '/' || mp_path[plen] == '\0')`
pub is_nested : (path mp_path : Bytes) → Bool
is_nested [] [] = true
is_nested [] (d ∷ ds) = d == slash
is_nested (c ∷ cs) [] = false
is_nested (c ∷ cs) (d ∷ ds) = c == d && is_nested cs ds

unfoldable pub any_nested : (path : Bytes) → List Mount → Bool
unfolding is_nested
any_nested path [] = false
any_nested path (e ∷ es) = is_dynamic e && is_nested path e.path || any_nested path es

-- The call of the driver that owns the mounted root.
unfoldable pub umount_node : (ℕ → MountOps) → (mp : Option ℕ) → Vfs → Bool × Vfs
umount_node ops none v = (false, v)
umount_node ops (some mp) v = elim (v.node mp).mounted_root [
  | none ↦ (false, v)
  | some root ↦ elim (v.node root).fs [
    | none ↦ (false, v)
    | some op ↦ elim (ops op).umount [ none ↦ (false, v) | some umount ↦ umount mp v ]
  ]
]

pub vfs_do_umount : (ℕ → MountOps) → Bytes → Vfs → Mounts → Bool × Vfs × Mounts
unfolding find_mount any_nested umount_node
vfs_do_umount ops path v m = elim (find_mount path m.mount_table) [
  | none ↦ (false, v, m)
  | some (before, e, after) ↦
      if any_nested path (before ++ after)
      then (false, v, m)
      else let (fine, v') = umount_node ops e.mountpoint v in
        if fine then (true, v', record m { mount_table = before ++ after }) else (false, v', m)
]

-- `struct vfs_mount_info`
pub record MountInfo : Type 0 where
  pub path : Bytes
  pub fstype : Bytes
  pub readonly : Bool

pub mount_info : Vfs → Mount → MountInfo
mount_info v e = record {
  path = e.path;
  fstype = e.fstype;
  readonly = elim e.root [ none ↦ false | some root ↦ (v.node root).readonly ];
}

-- The count returned, and what is stored to `out`.
pub vfs_get_mounts : Vfs → Mounts → (max : ℤ) → ℤ × List MountInfo
unfolding mount_info
vfs_get_mounts v m max =
    let count = pos (length m.mount_table) in
    let n = if ltb_ℤ count max then count else max in
    (n, map (mount_info v) (take (pos_part n) m.mount_table))
