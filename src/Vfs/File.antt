-- ===== src/Vfs/File.antt =====
-- `vfs_read` and `vfs_write` of src/kernel/vfs.c.
pub mod Grow
pub mod Contents
pub mod Write
use luminary.Base.{
  ℕ, zero, suc, ◌+◌, ◌-◌, ◌*◌, ◌%◌, Bool, true, false, not, ◌||◌, Option, none, some, List, [], ◌∷◌,
  length, ltb, leb, ◌==◌, if◌then◌else◌, update,
}
use luminary.Vfs.{Node, u32, is_file, is_chardev}

-- The `len` bytes of a buffer from an offset on.
unfoldable pub copy_out : (ℕ → ℕ) → (offset len : ℕ) → List ℕ
copy_out buffer offset zero = []
copy_out buffer offset (suc len) = buffer offset ∷ copy_out buffer (offset + 1) len

-- `memcpy(data + offset, buf, len)`
unfoldable pub copy_in : (ℕ → ℕ) → (offset : ℕ) → List ℕ → (ℕ → ℕ)
copy_in buffer offset [] = buffer
copy_in buffer offset (c ∷ cs) = copy_in (update buffer offset c) (offset + 1) cs

abbrev pub read_file : Node → (offset len : ℕ) → ℕ × List ℕ
read_file n offset len = elim n.buffer [
  | none ↦ (0, [])
  | some buffer ↦
      let avail = n.size - offset in
      let len' = if ltb avail len then avail else len in
      if not (is_file n) || leb n.size offset then (0, []) else (len', copy_out buffer offset len')
]

-- The count returned, with the bytes copied to `buf`.
pub vfs_read : Option Node → (offset len : ℕ) → ℕ × List ℕ
unfolding copy_out
vfs_read none offset len = (0, [])
vfs_read (some n) offset len =
    if is_chardev n
    then elim n.read_op [ none ↦ (0, []) | some read ↦ read offset len ]
    else read_file n offset len

-- `while (newcap < end) newcap *= 2;`; `none` if it has not ended after so many rounds.
pub grow : (rounds newcap end : ℕ) → Option ℕ
grow zero newcap end = none
grow (suc rounds) newcap end =
    let more = grow rounds (newcap * 2 % u32) end in if ltb newcap end then more else some newcap

-- What `vfs_write` comes to: the return value and the node; 0 with nothing changed; or the loop above
-- without an end.
pub data Written : Type 0 where
  wrote : ℕ → Node → Written
  refused endless : Written

-- The copy and the new size.
pub store : Node → (ℕ → ℕ) → (offset : ℕ) → List ℕ → Node
unfolding copy_in
store n buffer offset bytes =
    let end = (offset + length bytes) % u32 in
    record n {
      buffer = some (copy_in buffer offset bytes);
      size = if ltb n.size end then end else n.size;
    }

-- The new buffer: `memory` is what `kmalloc` returned, with what was in it before.
abbrev pub grown : Node → (memory : ℕ → ℕ) → (ℕ → ℕ)
grown n memory = elim n.buffer [
  | none ↦ memory
  | some old ↦ λ i. if ltb i n.size then old i else memory i
]

-- 32 rounds are enough wherever the loop ends: Grow.
pub write_grown : Node → (memory : Option (ℕ → ℕ)) → (offset : ℕ) → List ℕ → Written
unfolding grow store
write_grown n memory offset bytes =
    let end = (offset + length bytes) % u32 in
    elim (grow 32 (if n.buf_cap == 0 then 64 else n.buf_cap) end) [
      | none ↦ endless
      | some newcap ↦ elim memory [
        | none ↦ refused
        | some fresh ↦
            wrote (length bytes)
              (store (record n { buf_cap = newcap }) (grown n fresh) offset bytes)
      ]
    ]

-- A write that needs no growth. A NULL buffer has capacity 0 and takes no byte.
abbrev pub write_in_place : Node → (offset : ℕ) → List ℕ → Written
write_in_place n offset bytes = elim n.buffer [
  | none ↦ wrote (length bytes) n
  | some buffer ↦ wrote (length bytes) (store n buffer offset bytes)
]

-- `locked` is `node->parent && node->parent->readonly`.
pub vfs_write :
    (locked : Bool) → (memory : Option (ℕ → ℕ)) → Option Node → (offset : ℕ) → List ℕ → Written
unfolding write_grown store
vfs_write locked memory none offset bytes = refused
vfs_write locked memory (some n) offset bytes =
    let end = (offset + length bytes) % u32 in
    if is_chardev n
    then elim n.write_op [ none ↦ refused | some write ↦ wrote (write offset bytes) n ]
    else if not (is_file n) || not n.writable || locked || ltb end offset
    then refused
    else if ltb n.buf_cap end
    then write_grown n memory offset bytes
    else write_in_place n offset bytes
