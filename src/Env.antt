-- ===== src/Env.antt =====
-- The environment device, src/kernel/env_dev.c. A C string is the list of its bytes before the NUL.
-- The table of a task is the list of its `environ_count` entries; the argument of the request is a
-- record, next to the address that `user_access_ok` tests.
pub mod Find
pub mod Control
pub mod Table
mod Tests
use luminary.Base.{
  ℕ, zero, suc, ◌+◌, ◌-◌, Bool, true, false, not, ◌&&◌, ◌||◌, Option, none, some, List, [], ◌∷◌,
  ◌++◌, length, take, ltb, leb, ◌==◌, if◌then◌else◌,
}
use luminary.Base.Int.{ℤ, pos, negsuc}

abbrev pub task_environ_max : ℕ
task_environ_max = 32

abbrev pub task_environ_len : ℕ
task_environ_len = 128

abbrev pub user_space_start : ℕ
user_space_start = 0x01000000

abbrev pub user_space_end : ℕ
user_space_end = 0xC0000000

-- `'='`
abbrev pub equals : ℕ
equals = 61

pub record EnvOp : Type 0 where
  pub index : ℤ
  pub overwrite : ℕ
  pub name : List ℕ
  pub val : List ℕ

abbrev pub Environ : Type 0
Environ = List (List ℕ)

pub user_access_ok : (addr len : ℕ) → Bool
user_access_ok addr len =
    leb user_space_start addr
    && ltb addr user_space_end
    && not (ltb 1 len && ltb (user_space_end - addr) len)

-- The body of the loop of `environ_find`, `nlen` bytes into the entry.
pub entry_fits : (nlen : ℕ) → List ℕ → Bool
entry_fits nlen [] = false
entry_fits zero (c ∷ cs) = c == equals
entry_fits (suc nlen) (c ∷ cs) =
    let later = entry_fits nlen cs in if c == equals then false else later

pub find_from : (nlen : ℕ) → Environ → Option ℕ
find_from nlen [] = none
find_from nlen (e ∷ es) =
    let later = find_from nlen es in
    if entry_fits nlen e then some 0 else elim later [ none ↦ none | some i ↦ some (suc i) ]

-- `none` is -1.
pub environ_find : Environ → (name : List ℕ) → Option ℕ
unfolding find_from
environ_find environ name = find_from (length name) environ

-- `while (*e && *e != '=') e++; if (*e == '=') e++;`
pub after_equals : List ℕ → List ℕ
after_equals [] = []
after_equals (c ∷ cs) = let later = after_equals cs in if c == equals then cs else later

-- `t->environ[i]`
pub entry : Environ → ℕ → List ℕ
entry [] i = []
entry (e ∷ es) zero = e
entry (e ∷ es) (suc i) = entry es i

pub set_entry : Environ → ℕ → List ℕ → Environ
set_entry [] i e = []
set_entry (x ∷ xs) zero e = e ∷ xs
set_entry (x ∷ xs) (suc i) e = x ∷ set_entry xs i e

-- The shift down over the entry at `i`.
pub remove_entry : Environ → ℕ → Environ
remove_entry [] i = []
remove_entry (x ∷ xs) zero = xs
remove_entry (x ∷ xs) (suc i) = x ∷ remove_entry xs i

pub has_equals : List ℕ → Bool
has_equals [] = false
has_equals (c ∷ cs) = c == equals || has_equals cs

-- The bytes that ENV_SET writes into its entry.
pub new_entry : (name val : List ℕ) → List ℕ
new_entry name val =
    let head = take (task_environ_len - 2) name ++ (equals ∷ []) in
    head ++ take (task_environ_len - 1 - length head) val

-- The return value, with the string written to `op->val`.
pub data Reply : Type 0 where
  failed done : Reply
  value : List ℕ → Reply

-- What `strncpy(op->val, e, sizeof(op->val) - 1)` leaves.
abbrev pub copied : List ℕ → List ℕ
copied e = take 127 e

pub env_get : Environ → EnvOp → Reply
unfolding environ_find after_equals entry
env_get environ op = elim (environ_find environ op.name) [
  | none ↦ failed
  | some i ↦ value (copied (after_equals (entry environ i)))
]

pub env_set : Environ → EnvOp → Reply × Environ
unfolding environ_find set_entry has_equals new_entry
env_set environ op =
    if has_equals op.name then (failed, environ) else elim (environ_find environ op.name) [
      | some i ↦
          if op.overwrite == 0
          then (done, environ)
          else (done, set_entry environ i (new_entry op.name op.val))
      | none ↦
          if leb task_environ_max (length environ)
          then (failed, environ)
          else (done, environ ++ (new_entry op.name op.val ∷ []))
    ]

pub env_unset : Environ → EnvOp → Reply × Environ
unfolding environ_find remove_entry
env_unset environ op = elim (environ_find environ op.name) [
  | none ↦ (done, environ)
  | some i ↦ (done, remove_entry environ i)
]

pub env_get_idx : Environ → ℤ → Reply
unfolding entry
env_get_idx environ (negsuc i) = failed
env_get_idx environ (pos i) =
    if leb (length environ) i then failed else value (copied (entry environ i))

-- The requests by number; `sizeof(struct env_op)` is 200.
pub env_control_op : (request addr : ℕ) → EnvOp → Environ → Reply × Environ
unfolding user_access_ok env_get env_set env_unset env_get_idx
env_control_op request addr op environ =
    if not (user_access_ok addr 200)
    then (failed, environ)
    else if request == 1
    then (env_get environ op, environ)
    else if request == 2
    then env_set environ op
    else if request == 3
    then env_unset environ op
    else if request == 4
    then (env_get_idx environ op.index, environ)
    else (failed, environ)
