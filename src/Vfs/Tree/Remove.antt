-- ===== src/Vfs/Tree/Remove.antt =====
-- Removing and renaming nodes, and the operations that inspect the tree.
use luminary.Base.{
  ℕ, ◌+◌, ◌-◌, ◌%◌, Bool, true, false, not, ◌&&◌, ◌||◌, Option, none, some, List, [], ◌∷◌, take,
  get_elem?, ◌==◌, if◌then◌else◌,
}
use luminary.Vfs.{Bytes, Node, vfs_name_max, u32, is_dir, is_chardev}
use luminary.Vfs.Path.{slash}
use luminary.Vfs.Tree.{Vfs, set_node, vfs_alloc_node, vfs_free_node, same_bytes, follow, vfs_lookup}
use luminary.Vfs.Tree.Change.{Driver, driver_op, basename, is_empty, parent_of, vfs_add_child}

-- The walk along the chain to the pointer at `n`, which then skips it; `none` if it is not there.
unfoldable pub remove_child : List ℕ → ℕ → Option (List ℕ)
remove_child [] n = none
remove_child (c ∷ cs) n =
    let later : Option (List ℕ) = (elim (remove_child cs n) [
      | none ↦ none
      | some cs' ↦ some (c ∷ cs')
    ]) in
    if c == n then some cs else later

abbrev pub set_children : ℕ → List ℕ → Vfs → Vfs
set_children parent cs v = set_node v parent (record (v.node parent) { children = cs })

-- The end of `vfs_unlink`, after the driver.
unfoldable pub unlink_node : (parent n : ℕ) → Vfs → Bool × Vfs
unfolding remove_child vfs_free_node
unlink_node parent n v = elim (remove_child (v.node parent).children n) [
  | none ↦ (false, v)
  | some cs ↦ (true, vfs_free_node n (set_children parent cs v))
]

-- `false` is the return value -1.
unfoldable pub vfs_unlink : (ℕ → Driver) → Bytes → Vfs → Bool × Vfs
unfolding unlink_node
vfs_unlink drivers path v = elim (vfs_lookup v path) [
  | none ↦ (false, v)
  | some n ↦
      if is_dir (v.node n) || is_chardev (v.node n) then (false, v) else elim (v.node n).parent [
        | none ↦ (false, v)
        | some parent ↦
            if (v.node parent).readonly
            then (false, v)
            else elim (driver_op drivers (λ d. d.unlink) (v.node parent).fs) [
              | none ↦ unlink_node parent n v
              | some unlink ↦
                  let (removed, v') = unlink parent n v in
                  if removed then unlink_node parent n v' else (false, v')
            ]
      ]
]

-- `vfs_detach_child`: a child that is not there is passed over.
unfoldable pub vfs_detach_child : (parent child : ℕ) → Vfs → Vfs
unfolding remove_child
vfs_detach_child parent child v =
    let v' = elim (remove_child (v.node parent).children child) as (λ x. Vfs) [
      | none ↦ v
      | some cs ↦ set_children parent cs v
    ] in
    set_node v' child (record (v'.node child) { parent = none })

-- `strncmp(new_path, old_path, old_len) == 0 && new_path[old_len] == '/'`
pub is_under : (old_path new_path : Bytes) → Bool
is_under [] [] = false
is_under [] (d ∷ ds) = d == slash
is_under (c ∷ cs) [] = false
is_under (c ∷ cs) (d ∷ ds) = c == d && is_under cs ds

-- A return value, or the read of `children` through a NULL parent.
pub data Renamed : Type 0 where
  renamed : Vfs → Renamed
  unchanged failed null_parent : Renamed

-- The node taken from its directory, named and put into the new one.
unfoldable pub reattach : (old new_parent : ℕ) → (new_base : Bytes) → Vfs → Renamed
unfolding vfs_detach_child vfs_add_child
reattach old new_parent new_base v = elim (v.node old).parent [
  | none ↦ null_parent
  | some parent ↦
      let v' = vfs_detach_child parent old v in
      renamed (
        vfs_add_child new_parent old
          (set_node v' old (record (v'.node old) { name = take (vfs_name_max - 1) new_base })))
]

abbrev has_children : Node → Bool
has_children n = elim n.children [ [] ↦ false | c ∷ cs ↦ true ]

abbrev same_kind : Node → Node → Bool
same_kind a b = if is_dir a then is_dir b else not (is_dir b)

-- What stands at the new path is freed first.
unfoldable pub replace : (old new_parent : ℕ) → (new_base : Bytes) → Option ℕ → Vfs → Renamed
unfolding reattach vfs_detach_child vfs_free_node
replace old new_parent new_base none v = reattach old new_parent new_base v
replace old new_parent new_base (some target) v =
    if is_chardev (v.node target)
      || not (same_kind (v.node old) (v.node target))
      || (is_dir (v.node target) && has_children (v.node target))
    then failed
    else reattach old new_parent new_base
        (vfs_free_node target (vfs_detach_child new_parent target v))

-- From the new path's directory on.
unfoldable pub rename_into : (old parent : ℕ) → (new_path : Bytes) → Vfs → Renamed
unfolding basename parent_of replace
rename_into old parent new_path v = elim (parent_of v new_path) [
  | none ↦ failed
  | some new_parent ↦
      if is_empty (basename new_path)
        || not (is_dir (v.node new_parent))
        || (v.node new_parent).readonly
        || (v.node parent).readonly
      then failed
      else replace old new_parent (basename new_path) (vfs_lookup v new_path) v
]

unfoldable pub vfs_rename : (old_path new_path : Bytes) → Vfs → Renamed
unfolding rename_into same_bytes is_under
vfs_rename old_path new_path v = elim (vfs_lookup v old_path) [
  | none ↦ failed
  | some old ↦ elim (v.node old).parent [
    | none ↦ failed
    | some parent ↦
        if parent == old
        then failed
        else if same_bytes old_path new_path
        then unchanged
        else if is_dir (v.node old) && is_under old_path new_path
        then failed
        else rename_into old parent new_path v
  ]
]

pub vfs_get_root : Vfs → Option ℕ
vfs_get_root v = elim v.vfs_root [ none ↦ none | some root ↦ some (follow v.node root) ]

pub vfs_readdir : Vfs → Option ℕ → (index : ℕ) → Option ℕ
vfs_readdir v none index = none
vfs_readdir v (some n) index =
    if is_dir (v.node n) then get_elem? (v.node n).children index else none

-- `struct vfs_stat`
pub record Stat : Type 0 where
  pub size : ℕ
  pub kind : ℕ
  pub inode : ℕ

pub vfs_fstat : Vfs → Option ℕ → Option Stat
vfs_fstat v none = none
vfs_fstat v (some n) =
    let x = v.node n in some (record { size = x.size; kind = x.flags; inode = x.inode })

pub vfs_stat : Vfs → Bytes → Option Stat
unfolding vfs_fstat
vfs_stat v path = vfs_fstat v (vfs_lookup v path)

-- "/dev"
abbrev dev_path : Bytes
dev_path = 47 ∷ 100 ∷ 101 ∷ 118 ∷ []

unfoldable pub vfs_register_dev :
    (spare : Option ℕ)
    → (name : Bytes) → (inode : ℕ) → Option ((offset len : ℕ) → ℕ × Bytes)
    → Option ((offset : ℕ) → Bytes → ℕ)
    → Vfs
    → Option ℕ × Vfs
unfolding vfs_alloc_node vfs_add_child
vfs_register_dev spare name inode read_op write_op v = elim (vfs_lookup v dev_path) [
  | none ↦ (none, v)
  | some dev_dir ↦
      let (got, v') = vfs_alloc_node spare v in
      elim got [
        | none ↦ (none, v')
        | some n ↦ (
          some n,
          vfs_add_child dev_dir n (
              set_node
                (record v' {
                  next_inode = if inode == 0 then (v'.next_inode + 1) % u32 else v'.next_inode;
                })
                n
                (record (v'.node n) {
                  name = take (vfs_name_max - 1) name;
                  flags = 5;
                  inode = if inode == 0 then v'.next_inode else inode;
                  read_op = read_op;
                  write_op = write_op;
                })),
        )
      ]
]
