-- ===== src/Vfs/Tmpfs.antt =====
-- The file system in memory, src/kernel/tmpfs.c.
use luminary.Base.{
  ℕ, zero, suc, ◌≡◌, ◌≢◌, refl, ap, sym, ◌∙◌, Bool, true, false, Option, none, some, List, [], ◌∷◌,
  take, update, update_ne, update_self, ◌-◌,
}
use native.Mathlib.Decide.{ℕ_discrete}
use luminary.Vfs.{Node, vfs_name_max}
use luminary.Vfs.Tree.{Vfs, set_node, cleared, vfs_alloc_node, vfs_free_node}
use luminary.Vfs.Tree.Unlinked.{vfs_free_node-node, vfs_free_node-root}
use luminary.Vfs.Tree.Make.{vfs_alloc_node-Takes}

-- The loop of `tmpfs_free_tree` over the children.
pub free_children : (free : ℕ → Vfs → Option Vfs) → List ℕ → Vfs → Option Vfs
free_children free [] v = some v
free_children free (c ∷ cs) v = elim (free c v) [ none ↦ none | some v' ↦ free_children free cs v' ]

-- `none` if the tree has more levels than so many.
pub tmpfs_free_tree : (levels n : ℕ) → Vfs → Option Vfs
unfolding free_children vfs_free_node
tmpfs_free_tree zero n v = none
tmpfs_free_tree (suc levels) n v =
    elim (free_children (tmpfs_free_tree levels) (v.node n).children v) [
      | none ↦ none
      | some v' ↦ some (vfs_free_node n v')
    ]

-- `tmpfs_ops` is the number of this driver.
pub tmpfs_mount : (tmpfs_ops : ℕ) → (spare : Option ℕ) → (mountpoint : ℕ) → Vfs → Bool × Vfs
tmpfs_mount tmpfs_ops spare mountpoint v =
    let (got, v') = vfs_alloc_node spare v in
    elim got [
      | none ↦ (false, v')
      | some root ↦
          let v'' = set_node v' root (record (v'.node root) {
            name = take (vfs_name_max - 1) (v'.node mountpoint).name;
            flags = 2;
            readonly = false;
            parent = (v'.node mountpoint).parent;
            fs = some tmpfs_ops;
          }) in
          (
            true,
            set_node v'' mountpoint (record (v''.node mountpoint) { mounted_root = some root }),
          )
    ]

pub tmpfs_umount : (levels mountpoint : ℕ) → Vfs → Option (Bool × Vfs)
unfolding tmpfs_free_tree
tmpfs_umount levels mountpoint v = elim (v.node mountpoint).mounted_root [
  | none ↦ some (false, v)
  | some root ↦ elim (tmpfs_free_tree levels root v) [
    | none ↦ none
    | some v' ↦
        some (true, set_node v' mountpoint (record (v'.node mountpoint) { mounted_root = none }))
  ]
]

-- An empty file system is unmounted.
module _ (mountpoint root levels : ℕ) (w : Vfs) (x y : Node) (ne : root ≢ mountpoint) where
  abbrev with_root : Vfs
  with_root = set_node (set_node w root x) mountpoint y

  abbrev freed : Vfs
  freed = vfs_free_node root with_root

  abbrev unmounted : Vfs
  unmounted = set_node freed mountpoint (record (freed.node mountpoint) { mounted_root = none })

  at_mountpoint : with_root.node mountpoint ≡ y
  at_mountpoint = update_self (update w.node root x) mountpoint y

  at_root : with_root.node root ≡ x
  at_root = update_ne (update w.node root x) y (λ e. ne (sym e)) ∙ update_self w.node root x

  tmpfs_umount_empty :
      x.children ≡ []
      → y.mounted_root ≡ some root
      → tmpfs_umount (suc levels) mountpoint with_root ≡ some (true, unmounted)
  unfolding tmpfs_umount tmpfs_free_tree
  tmpfs_umount_empty childless on =
      let here : (with_root.node mountpoint).mounted_root ≡ some root =
        ap (λ n. n.mounted_root) at_mountpoint ∙ on in
      let empty : (with_root.node root).children ≡ [] = ap (λ n. n.children) at_root ∙ childless in
      rw (tmpfs_umount, here, tmpfs_free_tree, empty) refl

  unmounted_elsewhere : (m : ℕ) → m ≢ root → m ≢ mountpoint → unmounted.node m ≡ w.node m
  unmounted_elsewhere m not_root apart =
      update_ne freed.node _ (λ e. apart (sym e))
      ∙ ap (λ a. a m) (vfs_free_node-node root with_root)
      ∙ update_ne with_root.node cleared (λ e. not_root (sym e))
      ∙ update_ne (update w.node root x) y (λ e. apart (sym e))
      ∙ update_ne w.node x (λ e. not_root (sym e))

  unmounted_root : unmounted.node root ≡ cleared
  unmounted_root =
      update_ne freed.node _ (λ e. ne (sym e))
      ∙ ap (λ a. a root) (vfs_free_node-node root with_root)
      ∙ update_self with_root.node root cleared

  unmounted_mountpoint : unmounted.node mountpoint ≡ record y { mounted_root = none }
  unmounted_mountpoint =
      update_self freed.node mountpoint _
      ∙ ap {A = Node} (λ n. record n { mounted_root = none })
          (ap (λ a. a mountpoint) (vfs_free_node-node root with_root)
            ∙ update_ne with_root.node cleared ne
            ∙ at_mountpoint)

module _ (tmpfs_ops : ℕ) (spare : Option ℕ) (mountpoint root levels : ℕ) (v : Vfs) where
  tmpfs_mount_lem :
      (vfs_alloc_node spare v).0 ≡ some root
      → (root ≢ mountpoint)
      → (x : Node) × (y : Node) × (tmpfs_mount tmpfs_ops spare mountpoint v
          ≡ (true, set_node (set_node (vfs_alloc_node spare v).1 root x) mountpoint y))
        × (y.mounted_root ≡ some root)
        × (record y { mounted_root = none } ≡ record (v.node mountpoint) { mounted_root = none })
        × (x.children ≡ [])
  unfolding tmpfs_mount
  tmpfs_mount_lem got ne =
      let v' = (vfs_alloc_node spare v).1 in
      let x : Node = record (v'.node root) {
        name = take (vfs_name_max - 1) (v'.node mountpoint).name;
        flags = 2;
        readonly = false;
        parent = (v'.node mountpoint).parent;
        fs = some tmpfs_ops;
      } in
      let y : Node = record ((set_node v' root x).node mountpoint) { mounted_root = some root } in
      let takes = vfs_alloc_node-Takes spare v root got in
      (
        x,
        y,
        rw (tmpfs_mount, got) refl,
        refl,
        ap {A = Node} (λ n. record n { mounted_root = none })
            (update_ne v'.node x ne
              ∙ ap (λ a. a mountpoint) takes.node
              ∙ update_ne v.node takes.x ne),
        ap (λ a. (a root).children) takes.node
            ∙ ap (λ n. n.children) (update_self v.node root takes.x)
            ∙ takes.no_children,
      )

  -- A tmpfs mounted on a node without a mount and unmounted while it is empty leaves every node as it was,
  -- but for the node that was its root, which is cleared.
  pub tmpfs_umount-tmpfs_mount :
      (vfs_alloc_node spare v).0 ≡ some root
      → (root ≢ mountpoint)
      → (v.node mountpoint).mounted_root ≡ none
      → (v' : Vfs) × (tmpfs_umount
            (suc levels)
            mountpoint
            (tmpfs_mount tmpfs_ops spare mountpoint v).1
          ≡ some (true, v'))
        × ((m : ℕ) → m ≢ root → v'.node m ≡ v.node m)
        × (v'.node root ≡ cleared)
        × (v'.vfs_root ≡ v.vfs_root)
  tmpfs_umount-tmpfs_mount got ne free =
      let (x, y, done, on, same, childless) = tmpfs_mount_lem got ne in
      let w = (vfs_alloc_node spare v).1 in
      let takes = vfs_alloc_node-Takes spare v root got in
      (
        unmounted mountpoint root levels w x y ne,
        ap (λ r. tmpfs_umount (suc levels) mountpoint r.1) done
            ∙ tmpfs_umount_empty mountpoint root levels w x y ne childless on,
        λ m other. elim (ℕ_discrete m mountpoint) [
          | yes here ↦ rw here (
              unmounted_mountpoint mountpoint root levels w x y ne
              ∙ same
              ∙ ap {B = Node} (λ r. record (v.node mountpoint) { mounted_root = r }) (sym free))
          | no apart ↦
              unmounted_elsewhere mountpoint root levels w x y ne m other apart
              ∙ ap (λ a. a m) takes.node
              ∙ update_ne v.node takes.x (λ e. other (sym e))
        ],
        unmounted_root mountpoint root levels w x y ne,
        vfs_free_node-root root (set_node (set_node w root x) mountpoint y) ∙ takes.root,
      )
