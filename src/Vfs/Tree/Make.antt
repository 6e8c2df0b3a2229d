-- ===== src/Vfs/Tree/Make.antt =====
-- What `new_child` does to the tree, as far as a lookup reads it.
use luminary.Base.{
  ℕ, ◌+◌, ◌-◌, ◌%◌, ◌<◌, ◌≡◌, ◌≢◌, refl, ap, ap₂, sym, subst, ◌∙◌, ◌⊎◌, inl, inr, Bool, true, false,
  List, [], ◌∷◌, ◌++◌, arith, length, take, take-fits, ltb, if◌then◌else◌, Bool-cases, Option-cases,
  Option, none, some, update, update_ne, update_self,
}
use native.Mathlib.Decide.{ℕ_discrete}
use luminary.Vfs.{Bytes, u32, vfs_name_max, Node, is_dir}
use luminary.Vfs.Tree.{Vfs, vfs_alloc_node, cleared, set_node, vfs_node_pool_size}
use luminary.Vfs.Tree.Change.{new_child, vfs_add_child}
use luminary.Vfs.Tree.Lookup.{Adds}

-- A node that has nothing in it was put at `n`, and nothing else that a lookup reads changed.
pub record Takes (v v' : Vfs) (n : ℕ) : Type 0 where
  pub x : Node
  pub node : v'.node ≡ update v.node n x
  pub no_children : x.children ≡ []
  pub no_mount : x.mounted_root ≡ none
  pub root : v'.vfs_root ≡ v.vfs_root

abbrev taken : Vfs → Option ℕ → List ℕ → Option ℕ × Vfs
taken v spare free = elim free [
  | n ∷ rest ↦ (some n, set_node (record v { free_list = rest }) n cleared)
  | [] ↦
      if ltb v.pool_used vfs_node_pool_size
      then (
        some (v.pool_used + 1),
        set_node (record v { pool_used = v.pool_used + 1 }) (v.pool_used + 1) cleared,
      )
      else elim spare [
        | none ↦ (none, v)
        | some n ↦ (some n, set_node v n (record cleared { heap_alloc = true }))
      ]
]

taken_pool :
    (v : Vfs) (spare : Option ℕ)
    → ltb v.pool_used vfs_node_pool_size ≡ true
    → taken v spare [] ≡ (
      some (v.pool_used + 1),
      set_node (record v { pool_used = v.pool_used + 1 }) (v.pool_used + 1) cleared,
    )
taken_pool v spare room = rw room refl

taken_heap :
    (v : Vfs) (m : ℕ)
    → ltb v.pool_used vfs_node_pool_size ≡ false
    → taken v (some m) [] ≡ (some m, set_node v m (record cleared { heap_alloc = true }))
taken_heap v m full = rw full refl

set_node-Takes :
    (v v' : Vfs) (m n : ℕ) (x : Node)
    → v'.node ≡ v.node
    → v'.vfs_root ≡ v.vfs_root
    → x.children ≡ []
    → x.mounted_root ≡ none
    → some m ≡ some n
    → Takes v (set_node v' m x) n
set_node-Takes v v' m n x nodes root no_children no_mount same =
    let e : m ≡ n = ground (arith, same) in
    record {
      x = x;
      node = ap₂ (λ a i. update a i x) nodes e;
      no_children = no_children;
      no_mount = no_mount;
      root = root;
    }

pub vfs_alloc_node-Takes :
    (spare : Option ℕ) (v : Vfs) (n : ℕ)
    → (vfs_alloc_node spare v).0 ≡ some n
    → Takes v (vfs_alloc_node spare v).1 n
unfolding vfs_alloc_node
vfs_alloc_node-Takes spare v n =
    from v.free_list spare (Bool-cases (ltb v.pool_used vfs_node_pool_size))
  where
    from :
        (free : List ℕ) (spare : Option ℕ)
        → (ltb v.pool_used vfs_node_pool_size ≡ true) ⊎ (ltb v.pool_used vfs_node_pool_size ≡ false)
        → (taken v spare free).0 ≡ some n
        → Takes v (taken v spare free).1 n
    from (m ∷ rest) spare room =
        set_node-Takes v (record v { free_list = rest }) m n cleared refl refl refl refl
    from [] spare (inl room) =
        subst (λ r. r.0 ≡ some n → Takes v r.1 n) (sym (taken_pool v spare room))
          (set_node-Takes v (record v { pool_used = v.pool_used + 1 }) (v.pool_used + 1) n cleared
            refl refl refl refl)
    from [] (some m) (inr full) =
        subst (λ r. r.0 ≡ some n → Takes v r.1 n) (sym (taken_heap v m full))
          (set_node-Takes v v m n (record cleared { heap_alloc = true }) refl refl refl refl)
    from [] none (inr full) = λ got. absurd (ground (arith, rw full at got))

-- A named node put under a directory.
module _ (v v' : Vfs) (parent n next : ℕ) (base : Bytes) (y : Node) (ne : parent ≢ n)
    (takes : Takes v v' n) where
  abbrev named : Vfs
  named = set_node (record v' { next_inode = next }) n y

  named-other : (m : ℕ) → m ≢ n → named.node m ≡ v.node m
  named-other m other =
      update_ne v'.node y (λ e. other (sym e))
      ∙ ap (λ a. a m) takes.node
      ∙ update_ne v.node takes.x (λ e. other (sym e))

  abbrev child : Node
  child = record y { parent = some parent }

  at_parent :
      (vfs_add_child parent n named).node parent
      ≡ record (v.node parent) { children = (v.node parent).children ++ (n ∷ []) }
  unfolding vfs_add_child
  at_parent =
      let before : update named.node n (record (named.node n) { parent = some parent }) parent
          ≡ v.node parent =
        update_ne named.node (record (named.node n) { parent = some parent }) (λ e. ne (sym e))
        ∙ named-other parent ne in
      update_self (update named.node n (record (named.node n) { parent = some parent })) parent _
      ∙ ap {A = Node} (λ x. record x { children = x.children ++ (n ∷ []) }) before

  at_child : (vfs_add_child parent n named).node n ≡ child
  unfolding vfs_add_child
  at_child =
      update_ne (update named.node n (record (named.node n) { parent = some parent })) _ ne
      ∙ update_self named.node n (record (named.node n) { parent = some parent })
      ∙ ap {A = Node} (λ x. record x { parent = some parent }) (update_self v'.node n y)

  elsewhere : (m : ℕ) → m ≢ n → m ≢ parent → (vfs_add_child parent n named).node m ≡ v.node m
  unfolding vfs_add_child
  elsewhere m other apart =
      update_ne (update named.node n (record (named.node n) { parent = some parent })) _
        (λ e. apart (sym e))
      ∙ update_ne named.node (record (named.node n) { parent = some parent }) (λ e. other (sym e))
      ∙ named-other m other

  -- What does not depend on the children is kept.
  kept {ℓ} :
      {B : Type ℓ} (f : Node → B)
      → ((x : Node) (cs : List ℕ) → f (record x { children = cs }) ≡ f x)
      → (m : ℕ) → m ≢ n
      → f ((vfs_add_child parent n named).node m) ≡ f (v.node m)
  kept f blind m other = elim (ℕ_discrete m parent) [
    | yes here ↦
        rw here (ap f at_parent ∙ blind (v.node parent) ((v.node parent).children ++ (n ∷ [])))
    | no apart ↦ ap f (elsewhere m other apart)
  ]

  vfs_add_child-Adds :
      y.name ≡ base
      → y.mounted_root ≡ none
      → Adds v.node (vfs_add_child parent n named).node parent n base
  vfs_add_child-Adds name mount = record {
    name = kept (λ x. x.name) (λ x cs. refl);
    dir = kept is_dir (λ x cs. refl);
    mount = kept (λ x. x.mounted_root) (λ x cs. refl);
    others = λ m other apart. ap (λ x. x.children) (elsewhere m other apart);
    last = ap (λ x. x.children) at_parent;
    new_name = ap (λ x. x.name) at_child ∙ name;
    new_mount = ap (λ x. x.mounted_root) at_child ∙ mount;
  }

module _ (kind : ℕ) (writable : Bool) (spare : Option ℕ) (v : Vfs) (parent n : ℕ)
    (base : Bytes) where
  abbrev made : Option ℕ × Vfs
  made = new_child kind writable spare parent base v

  -- The node put under the directory.
  made_lem :
      made.0 ≡ some n
      → (y : Node) × (y.name ≡ take (vfs_name_max - 1) base)
        × (y.mounted_root ≡ none)
        × (next : ℕ) × ((vfs_alloc_node spare v).0 ≡ some n)
        × (made.1
            ≡ vfs_add_child parent n
                (set_node (record (vfs_alloc_node spare v).1 { next_inode = next }) n y))
  unfolding new_child
  made_lem got = elim (Option-cases (vfs_alloc_node spare v).0) [
    | inl nothing ↦ absurd (ground (arith, rw (new_child, nothing) at got))
    | inr (m, taken) ↦
        let e : m ≡ n = ground (arith, rw (new_child, taken) at got) in
        let v' = (vfs_alloc_node spare v).1 in
        (
          record (v'.node n) {
            name = take (vfs_name_max - 1) base;
            inode = v'.next_inode;
            flags = kind;
            writable = writable;
          },
          refl,
          (let takes = vfs_alloc_node-Takes spare v n (taken ∙ ap some e) in
              ap (λ a. (a n).mounted_root) takes.node
              ∙ ap (λ x. x.mounted_root) (update_self v.node n takes.x)
              ∙ takes.no_mount),
          (v'.next_inode + 1) % u32,
          taken ∙ ap some e,
          rw (new_child, taken) (rw e refl),
        )
  ]

  pub made-Adds :
      made.0 ≡ some n
      → length base < vfs_name_max
      → parent ≢ n
      → Adds v.node made.1.node parent n base × (made.1.vfs_root ≡ v.vfs_root)
  unfolding vfs_add_child
  made-Adds got short ne =
      let (y, name, mount, next, taken, whole) = made_lem got in
      let takes = vfs_alloc_node-Takes spare v n taken in
      (
        subst (λ v'. Adds v.node v'.node parent n base) (sym whole)
            (vfs_add_child-Adds v (vfs_alloc_node spare v).1 parent n next base y ne takes
              (name ∙ take-fits base (vfs_name_max - 1) (omega arith)) mount),
        ap (λ v'. v'.vfs_root) whole ∙ takes.root,
      )
