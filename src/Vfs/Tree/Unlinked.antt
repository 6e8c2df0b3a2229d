-- ===== src/Vfs/Tree/Unlinked.antt =====
-- Lookups after `vfs_unlink` of src/kernel/vfs.c.
use luminary.Base.{
  ℕ, ◌≡◌, ◌≢◌, refl, ap, sym, subst, ◌∙◌, inl, inr, true, false, ◌||◌, List, [], ◌∷◌, arith,
  Option-cases, none, some, Bool-cases, update, update_ne, update_self, ◌==◌,
}
use native.Mathlib.Decide.{ℕ_discrete}
use luminary.Vfs.{Bytes, Node, is_dir, is_chardev}
use luminary.Vfs.Path.{slash, components}
use luminary.Vfs.Tree.{Vfs, cleared, vfs_lookup, follow, descend, vfs_free_node}
use luminary.Vfs.Tree.Change.{Driver, driver_op}
use luminary.Vfs.Tree.Remove.{remove_child, set_children, unlink_node, vfs_unlink}
use luminary.Vfs.Tree.Lookup.{NotIn, IsUnreferenced, follow-ne, descend-ne}
use luminary.Vfs.Tree.Found.{lookup_rooted}
use luminary.Vfs.Tree.Creation.{NoDrivers}
use luminary.Vfs.Tree.Unlink.{Removes, descend-removed}

pub vfs_free_node-node : (n : ℕ) (v : Vfs) → (vfs_free_node n v).node ≡ update v.node n cleared
unfolding vfs_free_node
vfs_free_node-node n v = elim (Bool-cases (v.node n).heap_alloc) [
  | inl heap ↦ rw heap refl
  | inr pool ↦ rw pool refl
]

pub vfs_free_node-root : (n : ℕ) (v : Vfs) → (vfs_free_node n v).vfs_root ≡ v.vfs_root
unfolding vfs_free_node
vfs_free_node-root n v = elim (Bool-cases (v.node n).heap_alloc) [
  | inl heap ↦ rw heap refl
  | inr pool ↦ rw pool refl
]

-- How a file hangs in the tree: in the list of its parent, once, and nowhere else.
pub record Hangs (v : Vfs) (n : ℕ) : Type 0 where
  pub root : ℕ
  pub rooted : v.vfs_root ≡ some root
  pub root_ne : root ≢ n
  pub no_mount : (v.node n).mounted_root ≡ none
  pub mounts : (m : ℕ) → (v.node m).mounted_root ≢ some n
  pub self : (v.node n).parent ≢ some n
  pub others : (m : ℕ) → (v.node n).parent ≢ some m → NotIn n (v.node m).children
  pub once :
      (m : ℕ) (cs : List ℕ)
      → (v.node n).parent ≡ some m
      → remove_child (v.node m).children n ≡ some cs
      → NotIn n cs

unlink_node_inv :
    (parent n : ℕ) (v : Vfs)
    → (unlink_node parent n v).0 ≡ true
    → (cs : List ℕ) × (remove_child (v.node parent).children n ≡ some cs)
      × (unlink_node parent n v ≡ (true, vfs_free_node n (set_children parent cs v)))
unfolding unlink_node
unlink_node_inv parent n v done = elim (Option-cases (remove_child (v.node parent).children n)) [
  | inl nothing ↦ absurd (ground (arith, rw (unlink_node, nothing) at done))
  | inr (cs, removed) ↦ (cs, removed, rw (unlink_node, removed) refl)
]

vfs_unlink_inv :
    (drivers : ℕ → Driver) (path : Bytes) (v : Vfs) (n : ℕ)
    → NoDrivers v
    → vfs_lookup v path ≡ some n
    → (vfs_unlink drivers path v).0 ≡ true
    → (parent : ℕ) × ((v.node n).parent ≡ some parent)
      × (is_dir (v.node n) ≡ false)
      × (vfs_unlink drivers path v ≡ unlink_node parent n v)
unfolding vfs_unlink
vfs_unlink_inv drivers path v n plain found done =
    elim (Bool-cases (is_dir (v.node n) || is_chardev (v.node n))) [
      | inl bad ↦ absurd (ground (arith, rw (vfs_unlink, found, bad) at done))
      | inr file ↦ elim (Option-cases (v.node n).parent) [
        | inl nothing ↦ absurd (ground (arith, rw (vfs_unlink, found, file, nothing) at done))
        | inr (parent, under) ↦ elim (Bool-cases (v.node parent).readonly) [
          | inl locked ↦
              absurd (ground (arith, rw (vfs_unlink, found, file, under, locked) at done))
          | inr open_dir ↦ (
            parent,
            under,
            ground (arith, file),
            rw (vfs_unlink, found, file, under, open_dir, driver_op, plain parent) refl,
          )
        ]
      ]
    ]

-- The tree after an unlink.
module _ (v : Vfs) (parent n : ℕ) (cs : List ℕ) (hangs : Hangs v n)
    (under : (v.node n).parent ≡ some parent) where
  abbrev after : Vfs
  after = vfs_free_node n (set_children parent cs v)

  apart : parent ≢ n
  apart e = hangs.self (under ∙ ap some e)

  at_node : after.node n ≡ cleared
  at_node =
      ap (λ a. a n) (vfs_free_node-node n (set_children parent cs v))
      ∙ update_self (set_children parent cs v).node n cleared

  at_other : (m : ℕ) → m ≢ n → after.node m ≡ (set_children parent cs v).node m
  at_other m other =
      ap (λ a. a m) (vfs_free_node-node n (set_children parent cs v))
      ∙ update_ne (set_children parent cs v).node cleared (λ e. other (sym e))

  at_parent : after.node parent ≡ record (v.node parent) { children = cs }
  at_parent = at_other parent apart ∙ update_self v.node parent _

  elsewhere : (m : ℕ) → m ≢ n → m ≢ parent → after.node m ≡ v.node m
  elsewhere m other not_parent = at_other m other ∙ update_ne v.node _ (λ e. not_parent (sym e))

  -- What does not depend on the children is kept.
  kept {ℓ} :
      {B : Type ℓ} (f : Node → B)
      → ((x : Node) (l : List ℕ) → f (record x { children = l }) ≡ f x)
      → (m : ℕ) → m ≢ n
      → f (after.node m) ≡ f (v.node m)
  kept f blind m other = elim (ℕ_discrete m parent) [
    | yes here ↦ rw here (ap f at_parent ∙ blind (v.node parent) cs)
    | no not_parent ↦ ap f (elsewhere m other not_parent)
  ]

  after-Removes :
      is_dir (v.node n) ≡ false
      → remove_child (v.node parent).children n ≡ some cs
      → Removes v.node after.node parent n
  after-Removes file removed = record {
    name = kept (λ x. x.name) (λ x l. refl);
    dir = kept is_dir (λ x l. refl);
    mount = kept (λ x. x.mounted_root) (λ x l. refl);
    others = λ m other not_parent. ap (λ x. x.children) (elsewhere m other not_parent);
    removed = removed ∙ ap (λ x. some x.children) (sym at_parent);
    no_dir = file;
    no_mount = hangs.no_mount;
  }

  after-IsUnreferenced :
      remove_child (v.node parent).children n ≡ some cs → IsUnreferenced after.node n
  after-IsUnreferenced removed = record {
    mounts = λ m. elim (ℕ_discrete m n) [
      | yes here ↦ rw here (λ e.
          (let none_there = ap (λ x. x.mounted_root) at_node in ground (arith, none_there, e)))
      | no other ↦ λ e. hangs.mounts m (sym (kept (λ x. x.mounted_root) (λ x l. refl) m other) ∙ e)
    ];
    children = λ m. elim (ℕ_discrete m n) [
      | yes here ↦ rw here (subst (λ x. NotIn n x.children) (sym at_node) tt)
      | no other ↦ elim (ℕ_discrete m parent) [
        | yes dir ↦
            rw dir
              (subst (λ x. NotIn n x.children) (sym at_parent) (hangs.once parent cs under removed))
        | no not_parent ↦
            subst (λ x. NotIn n x.children) (sym (elsewhere m other not_parent))
              (hangs.others m (λ e. not_parent (ground (arith, e, under))))
      ]
    ];
  }

  after-root : after.vfs_root ≡ some hangs.root
  after-root = vfs_free_node-root n (set_children parent cs v) ∙ hangs.rooted

  after-lookup :
      Removes v.node after.node parent n
      → IsUnreferenced after.node n
      → (q : Bytes) (m : ℕ) → m ≢ n
      → vfs_lookup v q ≡ some m
      → vfs_lookup after q ≡ some m
  unfolding vfs_lookup
  after-lookup removes unreferenced [] m other e = absurd (ground (arith, e))
  after-lookup removes unreferenced (d ∷ ds) m other e = elim (Bool-cases (d == slash)) [
    | inr bad ↦ absurd (ground (arith, lookup_rooted v hangs.root d ds hangs.rooted, bad, e))
    | inl good ↦
        let walked : descend v.node (components ds) (follow v.node hangs.root) ≡ some m =
          ground (arith, lookup_rooted v hangs.root d ds hangs.rooted, good, e) in
        let same : follow after.node hangs.root ≡ follow v.node hangs.root =
          rw (follow, removes.mount hangs.root hangs.root_ne) refl in
        let start : follow v.node hangs.root ≢ n =
          λ e'. follow-ne after.node n unreferenced hangs.root hangs.root_ne (same ∙ e') in
        lookup_rooted after hangs.root d ds after-root
        ∙ rw good (
            ap (descend after.node (components ds)) same
            ∙ descend-removed v.node after.node parent n removes unreferenced (components ds)
                (follow v.node hangs.root) m start other walked)
  ]

  after-gone : IsUnreferenced after.node n → (q : Bytes) → vfs_lookup after q ≢ some n
  unfolding vfs_lookup
  after-gone unreferenced [] e = ground (arith, e)
  after-gone unreferenced (d ∷ ds) e = elim (Bool-cases (d == slash)) [
    | inr bad ↦ ground (arith, lookup_rooted after hangs.root d ds after-root, bad, e)
    | inl good ↦
        let walked : descend after.node (components ds) (follow after.node hangs.root) ≡ some n =
          ground (arith, lookup_rooted after hangs.root d ds after-root, good, e) in
        descend-ne after.node n unreferenced (components ds) (follow after.node hangs.root) n
          (follow-ne after.node n unreferenced hangs.root hangs.root_ne) walked refl
  ]

-- When no directory belongs to a driver, an unlink that succeeds, of a file that hangs once in the tree
-- and has nothing to do with a mount, leaves no path that leads to the file, and every path that
-- led to another node leads to it still.
pub vfs_unlink_lem :
    (drivers : ℕ → Driver) (path : Bytes) (v : Vfs) (n : ℕ)
    → NoDrivers v
    → Hangs v n
    → vfs_lookup v path ≡ some n
    → (vfs_unlink drivers path v).0 ≡ true
    → ((q : Bytes) → vfs_lookup (vfs_unlink drivers path v).1 q ≢ some n)
      × ((q : Bytes) (m : ℕ)
          → m ≢ n
          → vfs_lookup v q ≡ some m
          → vfs_lookup (vfs_unlink drivers path v).1 q ≡ some m)
vfs_unlink_lem drivers path v n plain hangs found done =
    let (parent, under, file, reached) = vfs_unlink_inv drivers path v n plain found done in
    let (cs, removed, result) = unlink_node_inv parent n v (ap (λ r. r.0) (sym reached) ∙ done) in
    let removes = after-Removes v parent n cs hangs under file removed in
    let unreferenced = after-IsUnreferenced v parent n cs hangs under removed in
    subst
      (λ r.
        ((q : Bytes) → vfs_lookup r.1 q ≢ some n)
        × ((q : Bytes) (m : ℕ) → m ≢ n → vfs_lookup v q ≡ some m → vfs_lookup r.1 q ≡ some m))
      (sym (reached ∙ result))
      (
        after-gone v parent n cs hangs under unreferenced,
        after-lookup v parent n cs hangs under removes unreferenced,
      )
