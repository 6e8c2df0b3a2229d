-- ===== src/Mouse/Tests.antt =====
-- The mouse driver at concrete states: the witnesses.
use luminary.Base.{◌≡◌, refl, [], ◌∷◌, ◌++◌, arith, ltb, if◌then◌else◌, length}
use luminary.Base.Int.{pos, negsuc, ◌≤ℤ◌}
use luminary.Mouse.{Mouse, MouseEvent, mouse_irq_handler}
use luminary.Mouse.Ring.{RingIsValid, waiting}
use luminary.Mouse.Packet.{
  IsValid, event_of, three_bytes, mouse_irq_handler-IsValid, packet_in_step,
}

abbrev click : MouseEvent
click = record { dx = pos 4; dy = negsuc 1; buttons = 1 }

-- One event waits, across the end of the ring.
abbrev desk : Mouse
desk = record {
  mouse_x = 1020;
  mouse_y = 10;
  mouse_buttons = 0;
  screen_w = 1024;
  screen_h = 768;
  packet = λ i. 0;
  packet_idx = 0;
  events = λ i. click;
  head = 0;
  tail = 63;
}

desk-RingIsValid : RingIsValid desk
desk-RingIsValid = record { head_in = omega arith; tail_in = omega arith }

desk-IsValid : IsValid desk
desk-IsValid = record {
  ring = desk-RingIsValid;
  partial_packet = omega arith;
  width = omega arith;
  height = omega arith;
  x_on = omega arith;
  y_on = omega arith;
}

mouse_irq_handler-IsValid_example : IsValid (mouse_irq_handler desk 9)
mouse_irq_handler-IsValid_example = mouse_irq_handler-IsValid desk 9 desk-IsValid

packet_in_step_example :
    let ev = event_of 9 20 5 in
    let m' = three_bytes desk 9 20 5 in
    (waiting m'
      ≡ (if ltb (length (waiting desk)) 63 then waiting desk ++ (ev ∷ []) else waiting desk))
    × (m'.packet_idx ≡ 0)
    × (m'.mouse_buttons ≡ 1)
    × (negsuc 63 ≤ℤ ev.dx)
    × (ev.dx ≤ℤ pos 64)
    × (negsuc 63 ≤ℤ ev.dy)
    × (ev.dy ≤ℤ pos 64)
packet_in_step_example = packet_in_step desk 9 20 5 desk-IsValid refl refl refl refl
