-- ===== src/Mouse/Ring.antt =====
-- The ring of mouse events against a bounded queue.
use luminary.Base.{
  ◌<◌, ◌≡◌, refl, Option, none, some, List, [], ◌∷◌, ◌++◌, arith, ltb, ◌==◌, if◌then◌else◌, length,
  length-window, Bool-cases, inl, inr,
}
use luminary.Base.Ring
use luminary.Base.Ring.{used}
use luminary.Mouse.{Mouse, MouseEvent, mouse_buf_size, mouse_buf_put, mouse_read}

-- Both indices stay inside the array.
pub record RingIsValid (m : Mouse) : Type 0 where
  pub head_in : m.head < mouse_buf_size
  pub tail_in : m.tail < mouse_buf_size

-- The events that wait to be read, oldest first.
abbrev pub waiting : Mouse → List MouseEvent
waiting m = Ring.contents m.events mouse_buf_size m.head m.tail

length-waiting : (m : Mouse) → length (waiting m) ≡ used mouse_buf_size m.head m.tail
length-waiting m = length-window m.events mouse_buf_size m.tail (used mouse_buf_size m.head m.tail)

pub mouse_buf_put-RingIsValid :
    (m : Mouse) (ev : MouseEvent) → RingIsValid m → RingIsValid (mouse_buf_put m ev)
unfolding mouse_buf_put
mouse_buf_put-RingIsValid m ev v = ground arith

-- An event is appended while fewer than 63 wait, and dropped otherwise.
pub waiting-put :
    (m : Mouse) (ev : MouseEvent)
    → RingIsValid m
    → waiting (mouse_buf_put m ev)
      ≡ (if ltb (length (waiting m)) 63 then waiting m ++ (ev ∷ []) else waiting m)
unfolding mouse_buf_put
waiting-put m ev v = ground (
  arith,
  length-waiting m,
  Ring.used_full mouse_buf_size m.head m.tail,
  Ring.used_room mouse_buf_size m.head m.tail,
  Ring.contents-put m.events mouse_buf_size m.head m.tail v.head_in v.tail_in ev,
)

-- What a read takes.
abbrev pub Takes : Mouse → Option MouseEvent → Mouse → Type 0
Takes m none m' = (waiting m ≡ []) × (m' ≡ m)
Takes m (some ev) m' = waiting m ≡ ev ∷ waiting m'

-- `mouse_read` on a valid ring: either no event waits and it changes nothing, or it takes the
-- oldest one. The ring stays valid.
mouse_read_lem :
    (m : Mouse)
    → RingIsValid m
    → let (found, m') = mouse_read m in Takes m found m' × RingIsValid m'
unfolding mouse_read
mouse_read_lem m v = elim (Bool-cases (m.tail == m.head)) [
  | inl empty ↦
      rw empty ((Ring.contents_empty m.events mouse_buf_size m.head m.tail (ground arith), refl), v)
  | inr some_left ↦ rw some_left (
    Ring.contents-get m.events mouse_buf_size m.head m.tail v.head_in v.tail_in (ground arith),
    record { head_in = v.head_in; tail_in = omega arith },
  )
]
