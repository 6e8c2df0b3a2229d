-- ===== src/Keyboard/Ring.antt =====
-- The keyboard's ring against a bounded queue of characters.
use luminary.Base.{
  ℕ, zero, suc, ◌+◌, ◌%◌, ◌<◌, ◌≡◌, refl, List, [], ◌∷◌, ◌++◌, min, arith, ltb, if◌then◌else◌,
  length, take, drop, length-take, length-window,
}
use luminary.Base.Ring
use luminary.Base.Ring.{used}
use luminary.Keyboard.{Kb, kb_buffer_size, init_keyboard, kb_buf_put, read_loop, keyboard_read}

-- Both indices stay inside the array.
pub record IsValid (kb : Kb) : Type 0 where
  pub head_in : kb.head < kb_buffer_size
  pub tail_in : kb.tail < kb_buffer_size

-- The characters that wait to be read, oldest first.
abbrev pub contents : Kb → List ℕ
contents kb = Ring.contents kb.chars kb_buffer_size kb.head kb.tail

pub length-contents : (kb : Kb) → length (contents kb) ≡ used kb_buffer_size kb.head kb.tail
length-contents kb =
    length-window kb.chars kb_buffer_size kb.tail (used kb_buffer_size kb.head kb.tail)

pub init_keyboard-IsValid :
    (kb : Kb) → IsValid (init_keyboard kb) × (contents (init_keyboard kb) ≡ [])
unfolding init_keyboard
init_keyboard-IsValid kb = (omega arith, Ring.contents_empty kb.chars kb_buffer_size 0 0 refl)

pub kb_buf_put-IsValid : {kb : Kb} (c : ℕ) → IsValid kb → IsValid (kb_buf_put kb c)
unfolding kb_buf_put
kb_buf_put-IsValid c v = ground arith

-- `kb_buf_put` appends the character while fewer than 255 wait, and drops it otherwise.
pub kb_buf_put_refines :
    {kb : Kb} (c : ℕ)
    → IsValid kb
    → contents (kb_buf_put kb c)
      ≡ (if ltb (length (contents kb)) 255 then contents kb ++ (c ∷ []) else contents kb)
unfolding kb_buf_put
kb_buf_put_refines {kb} c v = ground (
  arith,
  length-contents kb,
  Ring.used_full kb_buffer_size kb.head kb.tail,
  Ring.used_room kb_buffer_size kb.head kb.tail,
  Ring.contents-put kb.chars kb_buffer_size kb.head kb.tail v.head_in v.tail_in c,
)

record Reads (room : ℕ) (kb : Kb) (out : List ℕ × Kb) : Type 0 where
  bytes : out.0 ≡ take room (contents kb)
  left : contents out.1 ≡ drop room (contents kb)
  valid : IsValid out.1

read_loop-Reads : (room : ℕ) {kb : Kb} → IsValid kb → Reads room kb (read_loop room kb)
unfolding read_loop
read_loop-Reads zero v = record { bytes = refl; left = refl; valid = v }
read_loop-Reads (suc room) {kb} v =
    let popped : Kb = record kb { tail = (kb.tail + 1) % kb_buffer_size } in
    ground (
      arith,
      read_loop-Reads room {kb = popped} (record { head_in = v.head_in; tail_in = omega arith }),
      Ring.contents_empty kb.chars kb_buffer_size kb.head kb.tail,
      Ring.contents-get kb.chars kb_buffer_size kb.head kb.tail v.head_in v.tail_in,
    )

-- `keyboard_read` hands over the oldest `len` waiting characters, or all if there are fewer,
-- returns how many, and leaves the rest waiting.
pub keyboard_read_refines :
    (len : ℕ) {kb : Kb}
    → IsValid kb
    → let (count, bytes, kb') = keyboard_read len kb in
      (count ≡ min len (length (contents kb)))
      × (bytes ≡ take len (contents kb))
      × (contents kb' ≡ drop len (contents kb))
      × IsValid kb'
unfolding keyboard_read
keyboard_read_refines len {kb} v =
    ground (arith, read_loop-Reads len v, length-take len (contents kb))
