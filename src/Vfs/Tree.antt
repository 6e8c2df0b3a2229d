-- ===== src/Vfs/Tree.antt =====
-- The tree of nodes, src/kernel/vfs.c: the node pool, the walk from the root, and the operations that
-- make, remove, rename and inspect nodes. A driver's operations are the argument `drivers`; what
-- `kmalloc` returns for a node is the argument `spare`. Memory given back is not followed further.
pub mod Change
pub mod Remove
pub mod Lookup
pub mod Split
pub mod Make
pub mod Found
pub mod Creation
pub mod Unlink
pub mod Unlinked
use luminary.Base.{
  ℕ, zero, suc, ◌+◌, ◌-◌, ◌%◌, Bool, true, false, not, ◌&&◌, ◌||◌, Option, none, some, List, [],
  ◌∷◌, ◌++◌, length, take, drop, ltb, leb, ◌==◌, if◌then◌else◌, update,
}
use luminary.Vfs.{Bytes, Node, vfs_path_max, vfs_name_max, u32, is_file, is_dir, is_chardev}
use luminary.Vfs.Path.{slash, components}

-- The statics of vfs.c but for the tables of mounts and drivers.
pub record Vfs : Type 0 where
  pub node : ℕ → Node
  pub vfs_root : Option ℕ
  pub free_list : List ℕ
  pub pool_used : ℕ
  pub next_inode : ℕ

abbrev pub vfs_node_pool_size : ℕ
vfs_node_pool_size = 512

-- `memset(n, 0, sizeof(*n))`
abbrev pub cleared : Node
cleared = record {
  name = [];
  inode = 0;
  size = 0;
  flags = 0;
  buffer = none;
  writable = false;
  readonly = false;
  heap_alloc = false;
  buf_cap = 0;
  read_op = none;
  write_op = none;
  mounted_root = none;
  fs = none;
  children = [];
  parent = none;
}

abbrev pub set_node : Vfs → ℕ → Node → Vfs
set_node v n x = record v { node = update v.node n x }

-- The free list first, then the pool, whose nodes are numbered from 1, then `kmalloc`.
unfoldable pub vfs_alloc_node : (spare : Option ℕ) → Vfs → Option ℕ × Vfs
vfs_alloc_node spare v = elim v.free_list [
  | n ∷ rest ↦ (some n, set_node (record v { free_list = rest }) n cleared)
  | [] ↦
      if ltb v.pool_used vfs_node_pool_size
      then (
        some (v.pool_used + 1),
        set_node (record v { pool_used = v.pool_used + 1 }) (v.pool_used + 1) cleared,
      )
      else elim spare [
        | none ↦ (none, v)
        | some n ↦ (some n, set_node v n (record cleared { heap_alloc = true }))
      ]
]

-- A node of the heap goes to `kfree`.
unfoldable pub vfs_free_node : ℕ → Vfs → Vfs
vfs_free_node n v =
    let v' = set_node v n cleared in
    if (v.node n).heap_alloc then v' else record v' { free_list = n ∷ v.free_list }

pub vfs_set_root : Option ℕ → Vfs → Vfs
vfs_set_root root v = record v { vfs_root = root }

unfoldable pub same_bytes : Bytes → Bytes → Bool
same_bytes [] [] = true
same_bytes [] (d ∷ ds) = false
same_bytes (c ∷ cs) [] = false
same_bytes (c ∷ cs) (d ∷ ds) = c == d && same_bytes cs ds

-- `dir_child`, over the children from one on.
pub dir_child : (ℕ → Node) → List ℕ → (name : Bytes) → Option ℕ
unfolding same_bytes
dir_child node [] name = none
dir_child node (c ∷ cs) name =
    let later = dir_child node cs name in if same_bytes (node c).name name then some c else later

-- `if (cur->mounted_root) cur = cur->mounted_root;`
abbrev pub follow : (ℕ → Node) → ℕ → ℕ
follow node n = elim (node n).mounted_root [ none ↦ n | some root ↦ root ]

-- The loop of `vfs_lookup` over the components.
pub descend : (ℕ → Node) → List Bytes → (cur : ℕ) → Option ℕ
unfolding dir_child
descend node [] cur = some cur
descend node (s ∷ ss) cur =
    if not (is_dir (node cur)) then none else elim (dir_child node (node cur).children s) [
      | none ↦ none
      | some c ↦ descend node ss (follow node c)
    ]

unfoldable pub vfs_lookup : Vfs → Bytes → Option ℕ
unfolding descend
vfs_lookup v [] = none
vfs_lookup v (c ∷ cs) = elim v.vfs_root [
  | none ↦ none
  | some root ↦ if c == slash then descend v.node (components cs) (follow v.node root) else none
]
