-- ===== src/Vfs/Tests.antt =====
-- The virtual file system at concrete states: the witnesses.
use luminary.Base.{
  ℕ, ap, sym, subst, ◌+◌, ◌≡◌, ◌≢◌, ◌≤◌, refl, inl, inr, Bool-cases, Bool, true, false, none, some,
  List, [], ◌∷◌, ◌++◌, length, arith, update, ◌==◌, if◌then◌else◌,
}
use luminary.Vfs.{Bytes, Node}
use luminary.Vfs.Path.{
  slash, vfs_resolve, components, components_in, skip_slashes, component, after_component,
}
use luminary.Vfs.Path.Components.{join}
use luminary.Vfs.Path.Walk.{ArePlain}
use luminary.Vfs.Path.Resolve.{vfs_resolve_lem}
use luminary.Vfs.File.{wrote, endless, grow, vfs_write}
use luminary.Vfs.File.Contents.{IsWritable, Stores}
use luminary.Vfs.File.Write.{vfs_write_lem, vfs_write_endless}
use luminary.Vfs.Tree.{same_bytes, Vfs, cleared, vfs_lookup, vfs_alloc_node}
use luminary.Vfs.Tree.Change.{Driver, vfs_mkdir, open_parent, new_child}
use luminary.Vfs.Tree.Lookup.{NotIn}
use luminary.Vfs.Tree.Found.{IsFresh, Keeps}
use luminary.Vfs.Tree.Remove.{remove_child, vfs_unlink}
use luminary.Vfs.Tree.Unlinked.{Hangs, vfs_unlink_lem}
use luminary.Vfs.Tree.Creation.{NoDrivers, vfs_mkdir_lem}
use luminary.Vfs.Mount.{
  Mounts, MountOps, mounted, vfs_do_mount, vfs_do_umount, fs_lookup_ops, any_nested, find_mount,
  umount_node,
}
use luminary.Vfs.Mount.RoundTrip.{vfs_do_umount-vfs_do_mount}
use luminary.Vfs.Mount.Stacked.{vfs_do_mount_again}
use luminary.Vfs.Tmpfs.{tmpfs_mount, tmpfs_umount, tmpfs_umount-tmpfs_mount}

-- "/a" and "x/../b"
abbrev dir_a : Bytes
dir_a = 47 ∷ 97 ∷ []

abbrev up_b : Bytes
up_b = 120 ∷ 47 ∷ 46 ∷ 46 ∷ 47 ∷ 98 ∷ []

vfs_resolve_lem_example :
    (names : List Bytes) × (vfs_resolve dir_a up_b ≡ some (slash ∷ join names))
    × ArePlain names
    × (length names ≤ 64)
    × (length (slash ∷ join names) ≤ 255)
    × (vfs_resolve [] (slash ∷ join names) ≡ some (slash ∷ join names))
vfs_resolve_lem_example = vfs_resolve_lem dir_a up_b []

-- A new file.
abbrev empty_file : Node
empty_file = record cleared { flags = 1; writable = true }

empty_file-IsWritable : IsWritable empty_file
empty_file-IsWritable = record {
  regular = refl;
  no_device = refl;
  open_for_writing = refl;
  within = omega arith;
  capacity = inl (refl, refl);
}

vfs_write_lem_example :
    (n' : Node) × (vfs_write false (some (λ i. 0)) (some empty_file) 3 (7 ∷ 8 ∷ []) ≡ wrote 2 n')
    × Stores empty_file 3 (7 ∷ 8 ∷ []) n'
vfs_write_lem_example =
    vfs_write_lem empty_file (λ i. 0) 3 (7 ∷ 8 ∷ []) empty_file-IsWritable (omega arith)

vfs_write_endless_example :
    (vfs_write false none (some empty_file) 2147483648 (7 ∷ []) ≡ endless)
    × (grow 40 (if empty_file.buf_cap == 0 then 64 else empty_file.buf_cap) 2147483649 ≡ none)
vfs_write_endless_example =
    vfs_write_endless empty_file none 2147483648 (7 ∷ []) 40 empty_file-IsWritable (omega arith)
      (omega arith)

-- A tree of the root alone, node 1.
abbrev root_node : Node
root_node = record cleared { flags = 2 }

abbrev tree : Vfs
tree = record {
  node = update (λ n. cleared) 1 root_node;
  vfs_root = some 1;
  free_list = [];
  pool_used = 1;
  next_inode = 1000;
}

abbrev no_driver : ℕ → Driver
no_driver d = record { create = none; mkdir_op = none; unlink = none }

tree_all {ℓ} :
    {A : Type ℓ} (f : Node → A) (a : A)
    → f cleared ≡ a
    → f root_node ≡ a
    → (m : ℕ) → f (tree.node m) ≡ a
tree_all f a e e' m = elim (Bool-cases (1 == m)) [ inl here ↦ rw here e' | inr other ↦ rw other e ]

tree-NoDrivers : NoDrivers tree
tree-NoDrivers = tree_all (λ n. n.fs) none refl refl

not_in : (n : ℕ) (cs : List ℕ) → cs ≡ [] → NotIn n cs
not_in n [] e = tt
not_in n (c ∷ cs) e = absurd (ground (arith, e))

tree-IsFresh : IsFresh tree 2
tree-IsFresh = record {
  root = ground arith;
  unreferenced = record {
    mounts = λ m e. ground (arith, tree_all (λ n. n.mounted_root) none refl refl m, e);
    children = λ m. not_in 2 (tree.node m).children (tree_all (λ n. n.children) [] refl refl m);
  };
}

vfs_mkdir_lem_example :
    (vfs_lookup (vfs_mkdir no_driver none dir_a tree).1 dir_a ≡ some 2)
    × Keeps tree (vfs_mkdir no_driver none dir_a tree).1
unfolding components vfs_lookup vfs_mkdir open_parent new_child
vfs_mkdir_lem_example =
    vfs_mkdir_lem no_driver none dir_a tree tree-NoDrivers 2 (omega arith) tree-IsFresh refl

tmpfs_umount-tmpfs_mount_example :
    (v' : Vfs) × (tmpfs_umount 1 1 (tmpfs_mount 0 none 1 tree).1 ≡ some (true, v'))
    × ((m : ℕ) → m ≢ 2 → v'.node m ≡ tree.node m)
    × (v'.node 2 ≡ cleared)
    × (v'.vfs_root ≡ tree.vfs_root)
unfolding vfs_alloc_node
tmpfs_umount-tmpfs_mount_example =
    tmpfs_umount-tmpfs_mount 0 none 1 2 0 tree refl (omega arith) refl

-- A driver that mounts node 5, and another one that mounts node 6.
abbrev mount_as : ℕ → ℕ → ℕ → Vfs → Bool × Vfs
mount_as root mp device v = (
  true,
  record v {
    node =
        update (update v.node mp (record (v.node mp) { mounted_root = some root })) root
          (record root_node { fs = some 0 });
  },
)

abbrev mount_ops : ℕ → MountOps
mount_ops d = record { mount = mount_as (5 + d); umount = some (λ mp v. (true, v)) }

-- "m" is driver 0 and "n" driver 1; "/" is the path of the mounts.
abbrev registered : Mounts
registered = record { mount_table = []; fs_registry = ((109 ∷ []), 0) ∷ ((110 ∷ []), 1) ∷ [] }

abbrev mounted_tree : Vfs
mounted_tree = (mount_as 5 1 0 tree).1

abbrev mounted_table : Mounts
mounted_table = record registered { mount_table = mounted (47 ∷ []) (109 ∷ []) 1 mounted_tree ∷ [] }

vfs_do_umount-vfs_do_mount_example :
    vfs_do_umount mount_ops (47 ∷ []) mounted_tree mounted_table ≡ (true, mounted_tree, registered)
unfolding components vfs_do_mount vfs_lookup any_nested umount_node
vfs_do_umount-vfs_do_mount_example =
    vfs_do_umount-vfs_do_mount mount_ops (47 ∷ []) (109 ∷ []) 0 tree mounted_tree mounted_tree
      registered mounted_table 1 (omega arith) refl refl refl refl

vfs_do_mount_again_example :
    let again : Vfs = (mount_as 6 5 0 mounted_tree).1 in
    let m' : Mounts = record mounted_table {
      mount_table = mounted_table.mount_table ++ (mounted (47 ∷ []) (110 ∷ []) 5 again ∷ []);
    } in
    (vfs_do_mount mount_ops (47 ∷ []) (110 ∷ []) 0 mounted_tree mounted_table ≡ (true, again, m'))
    × ((w : Vfs) → vfs_do_umount mount_ops (47 ∷ []) w m' ≡ (false, w, m'))
unfolding components vfs_lookup fs_lookup_ops find_mount
vfs_do_mount_again_example =
    vfs_do_mount_again mount_ops (47 ∷ []) (110 ∷ []) 0 mounted_tree (mount_as 6 5 0 mounted_tree).1
      mounted_table 1 5 [] (mounted (47 ∷ []) (109 ∷ []) 1 mounted_tree) [] (omega arith) refl refl
      refl refl (omega arith) refl refl

-- The tree with a file "/a", node 2.
abbrev file_a : Node
file_a = record empty_file { name = 97 ∷ []; parent = some 1 }

abbrev tree_a : Vfs
tree_a = record tree {
  node = update (update (λ n. cleared) 1 (record root_node { children = 2 ∷ [] })) 2 file_a;
  pool_used = 2;
}

tree_a_all {ℓ} :
    {A : Type ℓ} (f : Node → A) (a : A)
    → f cleared ≡ a
    → f (record root_node { children = 2 ∷ [] }) ≡ a
    → f file_a ≡ a
    → (m : ℕ) → f (tree_a.node m) ≡ a
tree_a_all f a e e' e'' m = elim (Bool-cases (2 == m)) [
  | inl here ↦ rw here e''
  | inr other ↦ elim (Bool-cases (1 == m)) [
    | inl here ↦ rw (other, here) e'
    | inr none_of ↦ rw (other, none_of) e
  ]
]

no_children : (m : ℕ) → m ≢ 1 → (tree_a.node m).children ≡ []
no_children m other =
    let apart : (1 == m) ≡ false = ground (arith, other) in
    elim (Bool-cases (2 == m)) [ inl here ↦ rw here refl | inr none_of ↦ rw (none_of, apart) refl ]

once_in :
    (m : ℕ) (cs : List ℕ) → m ≡ 1 → remove_child (tree_a.node m).children 2 ≡ some cs → cs ≡ []
unfolding remove_child
once_in m cs at gone =
    let gone' : remove_child (tree_a.node 1).children 2 ≡ some cs =
      subst (λ k. remove_child (tree_a.node k).children 2 ≡ some cs) at gone in
    ap (λ o. elim o [ none ↦ [] | some l ↦ l ]) (sym gone')

file_a-Hangs : Hangs tree_a 2
file_a-Hangs = record {
  root = 1;
  rooted = refl;
  root_ne = omega arith;
  no_mount = refl;
  mounts = λ m e. ground (arith, tree_a_all (λ n. n.mounted_root) none refl refl refl m, e);
  self = ground arith;
  others =
      λ m other. not_in 2 (tree_a.node m).children (no_children m (λ e. other (ap some (sym e))));
  once = λ m cs under gone.
      (let at : m ≡ 1 = ground (arith, under) in not_in 2 cs (once_in m cs at gone));
}

vfs_unlink_lem_example :
    ((q : Bytes) → vfs_lookup (vfs_unlink no_driver dir_a tree_a).1 q ≢ some 2)
    × ((q : Bytes) (m : ℕ)
        → m ≢ 2
        → vfs_lookup tree_a q ≡ some m
        → vfs_lookup (vfs_unlink no_driver dir_a tree_a).1 q ≡ some m)
unfolding components components_in skip_slashes component after_component vfs_lookup same_bytes
    vfs_unlink remove_child
vfs_unlink_lem_example =
    vfs_unlink_lem no_driver dir_a tree_a 2 (tree_a_all (λ n. n.fs) none refl refl refl)
      file_a-Hangs refl refl
