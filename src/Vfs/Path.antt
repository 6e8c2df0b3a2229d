-- ===== src/Vfs/Path.antt =====
-- Paths, `vfs_resolve` of src/kernel/vfs.c and the walk over components that it shares with
-- `vfs_lookup`. `raw` is written from the start on each call; it is never empty, because a working
-- directory starts with a slash.
pub mod Components
pub mod Append
pub mod Weight
pub mod Walk
pub mod Resolve
use luminary.Base.{
  ℕ, zero, suc, ◌+◌, ◌-◌, Bool, true, false, not, ◌&&◌, ◌||◌, Option, none, some, List, [], ◌∷◌,
  ◌++◌, length, take, drop, ltb, ◌==◌, if◌then◌else◌,
}
use mathlib.Core.List.{reverse}
use luminary.Vfs.{Bytes, vfs_path_max}

abbrev pub slash : ℕ
slash = 47

abbrev pub dot : ℕ
dot = 46

-- `while (*p == '/') p++;`
unfoldable pub skip_slashes : Bytes → Bytes
skip_slashes [] = []
skip_slashes (c ∷ cs) = if c == slash then skip_slashes cs else c ∷ cs

-- The bytes from `p` to `end`, the next slash or the end of the string.
unfoldable pub component : Bytes → Bytes
component [] = []
component (c ∷ cs) = let rest = component cs in if c == slash then [] else c ∷ rest

-- The string from `end` on.
unfoldable pub after_component : Bytes → Bytes
after_component [] = []
after_component (c ∷ cs) = if c == slash then c ∷ cs else after_component cs

-- The components that the loop comes to, in at most so many rounds.
unfoldable pub components_in : (rounds : ℕ) → Bytes → List Bytes
components_in zero p = []
components_in (suc rounds) p = elim (skip_slashes p) [
  | [] ↦ []
  | c ∷ cs ↦ component (c ∷ cs) ∷ components_in rounds (after_component (c ∷ cs))
]

-- Each round takes at least one byte.
unfoldable pub components : Bytes → List Bytes
unfolding components_in
components p = components_in (length p) p

-- The last byte; `raw[ri-1]`.
pub last_byte : Bytes → ℕ
last_byte [] = 0
last_byte (c ∷ []) = c
last_byte (c ∷ c₂ ∷ cs) = last_byte (c₂ ∷ cs)

-- A bounded append to a buffer of `VFS_PATH_MAX` bytes: what does not fit is dropped.
pub append_bounded : Bytes → Bytes → Bytes
append_bounded raw s = raw ++ take (vfs_path_max - 1 - length raw) s

-- The working directory in `raw`, with a slash behind it.
pub directory : (cwd : Bytes) → Bytes
unfolding last_byte append_bounded
directory cwd =
    let raw = append_bounded [] cwd in
    if ltb 1 (length raw) && not (last_byte raw == slash)
    then append_bounded raw (slash ∷ [])
    else raw

pub raw_path : (cwd path : Bytes) → Bytes
unfolding directory append_bounded
raw_path cwd [] = directory cwd
raw_path cwd (c ∷ cs) =
    if c == slash then append_bounded [] (c ∷ cs) else append_bounded (directory cwd) (c ∷ cs)

abbrev pub is_dot : Bytes → Bool
is_dot (a ∷ []) = a == dot
is_dot _ = false

abbrev pub is_dot_dot : Bytes → Bool
is_dot_dot (a ∷ b ∷ []) = a == dot && b == dot
is_dot_dot _ = false

-- `if (nseg > 0) nseg--;` on the kept segments, the last one first.
abbrev pub drop_last : List Bytes → List Bytes
drop_last [] = []
drop_last (s ∷ segs) = segs

-- The body of the walk.
pub keep : Bytes → List Bytes → List Bytes
keep s segs =
    if is_dot s
    then segs
    else if is_dot_dot s
    then drop_last segs
    else if ltb (length segs) 64
    then s ∷ segs
    else segs

pub walk : List Bytes → List Bytes → List Bytes
unfolding keep
walk [] segs = segs
walk (s ∷ ss) segs = walk ss (keep s segs)

-- One segment into `out_buf`: `none` is the return of NULL when it is full.
pub emit_bytes : Bytes → (out : Bytes) → Option Bytes
emit_bytes [] out = some out
emit_bytes (c ∷ cs) out =
    let more = emit_bytes cs (out ++ (c ∷ [])) in
    if ltb (length out) (vfs_path_max - 1) then more else none

-- The slash in front of every segment but the first; it is dropped when the buffer is full.
abbrev pub emit_slash : (first : Bool) → Bytes → Bytes
emit_slash true out = out
emit_slash false out = if ltb (length out) (vfs_path_max - 1) then out ++ (slash ∷ []) else out

pub emit : (first : Bool) → List Bytes → (out : Bytes) → Option Bytes
unfolding emit_bytes
emit first [] out = some out
emit first (s ∷ segs) out = elim (emit_bytes s (emit_slash first out)) [
  | none ↦ none
  | some out' ↦ emit false segs out'
]

-- The path written to `out_buf`.
pub vfs_resolve : (cwd path : Bytes) → Option Bytes
unfolding raw_path components walk emit
vfs_resolve cwd path =
    emit true (reverse (walk (components (drop 1 (raw_path cwd path))) [])) (slash ∷ [])
