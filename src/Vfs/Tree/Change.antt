-- ===== src/Vfs/Tree/Change.antt =====
-- The operations that change the tree.
use luminary.Base.{
  ℕ, ◌+◌, ◌-◌, ◌%◌, Bool, true, false, not, ◌||◌, Option, none, some, [], ◌∷◌, ◌++◌, length, take,
  ltb, leb, ◌==◌, if◌then◌else◌,
}
use luminary.Vfs.{Bytes, vfs_path_max, vfs_name_max, u32, is_file, is_dir}
use luminary.Vfs.Path.{slash}
use luminary.Vfs.Tree.{Vfs, set_node, vfs_alloc_node, dir_child, follow, vfs_lookup}

-- `struct fs_ops`, as far as the tree calls it: an operation that is there takes the node that is the
-- directory. The node returned, or whether the file was removed, with the state after the call.
pub record Driver : Type 0 where
  pub create : Option (ℕ → Bytes → Vfs → Option ℕ × Vfs)
  pub mkdir_op : Option (ℕ → Bytes → Vfs → Option ℕ × Vfs)
  pub unlink : Option (ℕ → ℕ → Vfs → Bool × Vfs)

unfoldable pub has_slash : Bytes → Bool
has_slash [] = false
has_slash (c ∷ cs) = c == slash || has_slash cs

-- `base`: what follows the last slash.
unfoldable pub basename : Bytes → Bytes
unfolding has_slash
basename [] = []
basename (c ∷ cs) =
    let later = basename cs in if has_slash cs then later else if c == slash then cs else c ∷ cs

-- `parent_len`, without the slash in front of `base`.
abbrev pub parent_len : Bytes → ℕ
parent_len path = let n = length path - length (basename path) in if ltb 1 n then n - 1 else n

-- The directory that a path names its last component in.
unfoldable pub parent_of : Vfs → Bytes → Option ℕ
parent_of v path =
    if parent_len path == 0
    then v.vfs_root
    else if leb vfs_path_max (parent_len path)
    then none
    else vfs_lookup v (take (parent_len path) path)

abbrev pub starts_with_slash : Bytes → Bool
starts_with_slash [] = false
starts_with_slash (c ∷ cs) = c == slash

abbrev pub is_empty : Bytes → Bool
is_empty [] = true
is_empty (c ∷ cs) = false

-- The checks that `vfs_creat` and `vfs_mkdir` begin with.
unfoldable pub open_parent : Vfs → Bytes → Option ℕ
unfolding parent_of basename
open_parent v path = elim v.vfs_root [
  | none ↦ none
  | some root ↦
      if not (starts_with_slash path) || is_empty (basename path)
      then none
      else elim (parent_of v path) [
        | none ↦ none
        | some parent ↦
            if not (is_dir (v.node parent)) || (v.node parent).readonly then none else some parent
      ]
]

unfoldable pub vfs_add_child : (parent child : ℕ) → Vfs → Vfs
vfs_add_child parent child v =
    let v' = set_node v child (record (v.node child) { parent = some parent }) in
    set_node v' parent
      (record (v'.node parent) { children = (v'.node parent).children ++ (child ∷ []) })

-- A new node with a name of at most 127 bytes, under its parent.
unfoldable pub new_child :
    (kind : ℕ)
    → (writable : Bool) → (spare : Option ℕ) → (parent : ℕ) → Bytes
    → Vfs
    → Option ℕ × Vfs
unfolding vfs_add_child vfs_alloc_node
new_child kind writable spare parent base v =
    let (got, v') = vfs_alloc_node spare v in
    elim got [
      | none ↦ (none, v')
      | some n ↦ (
        some n,
        vfs_add_child parent n (
            set_node (record v' { next_inode = (v'.next_inode + 1) % u32 }) n
              (record (v'.node n) {
                name = take (vfs_name_max - 1) base;
                inode = v'.next_inode;
                flags = kind;
                writable = writable;
              })),
      )
    ]

-- `vfs_creat` of a file that is there.
unfoldable pub truncate : ℕ → Vfs → Option ℕ × Vfs
truncate n v = if not (is_file (v.node n)) then (none, v) else (
  some n,
  set_node v n (record (v.node n) { buffer = none; buf_cap = 0; size = 0; writable = true }),
)

-- The operation of the driver that owns a directory, if it has one.
abbrev pub driver_op {ℓ} : {A : Type ℓ} → (ℕ → Driver) → (Driver → Option A) → Option ℕ → Option A
driver_op drivers op none = none
driver_op drivers op (some d) = op (drivers d)

module _ (drivers : ℕ → Driver) where
  unfoldable pub vfs_creat : (spare : Option ℕ) → Bytes → Vfs → Option ℕ × Vfs
  unfolding open_parent basename new_child truncate
  vfs_creat spare path v = elim (open_parent v path) [
    | none ↦ (none, v)
    | some parent ↦
        let dir = follow v.node parent in
        elim (driver_op drivers (λ d. d.create) (v.node dir).fs) [
          | some create ↦ create dir (basename path) v
          | none ↦ elim (dir_child v.node (v.node parent).children (basename path)) [
            | some n ↦ truncate n v
            | none ↦ new_child 1 true spare parent (basename path) v
          ]
        ]
  ]

  unfoldable pub vfs_mkdir : (spare : Option ℕ) → Bytes → Vfs → Option ℕ × Vfs
  unfolding open_parent basename new_child
  vfs_mkdir spare path v = elim (open_parent v path) [
    | none ↦ (none, v)
    | some parent ↦
        let dir = follow v.node parent in
        elim (driver_op drivers (λ d. d.mkdir_op) (v.node dir).fs) [
          | some mkdir ↦ mkdir dir (basename path) v
          | none ↦ elim (dir_child v.node (v.node parent).children (basename path)) [
            | some n ↦ (none, v)
            | none ↦ new_child 2 false spare parent (basename path) v
          ]
        ]
  ]
