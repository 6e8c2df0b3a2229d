-- ===== src/Mouse.antt =====
-- The PS/2 mouse driver, src/drivers/mouse.c: packet assembly, the cursor position and the ring of
-- decoded events. The byte read from the port is an argument; the handshake of `init_mouse` with
-- the controller and the call of `gui_wake` are not modelled. Positions stay below 2^31, where the
-- source's conversions to `int32_t` keep the value.
pub mod Ring
pub mod Packet
mod Tests
use luminary.Base.{
  ℕ, zero, suc, ◌+◌, ◌-◌, ◌*◌, ◌/◌, ◌%◌, ◌^◌, Bool, true, false, not, ◌&&◌, ◌||◌, Option, none,
  some, ltb, leb, ◌==◌, if◌then◌else◌, update,
}
use luminary.Base.Int.{ℤ, pos, negsuc, pos_part, ◌+ℤ◌, ◌-ℤ◌, ltb_ℤ}

abbrev pub mouse_buf_size : ℕ
mouse_buf_size = 64

abbrev pub u32 : ℕ
u32 = 2 ^ 32

pub record MouseEvent : Type 0 where
  pub dx : ℤ
  pub dy : ℤ
  pub buttons : ℕ

-- The statics of the driver; `data`, `head` and `tail` are `mouse_buf`.
pub record Mouse : Type 0 where
  pub mouse_x : ℕ
  pub mouse_y : ℕ
  pub mouse_buttons : ℕ
  pub screen_w : ℕ
  pub screen_h : ℕ
  pub packet : ℕ → ℕ
  pub packet_idx : ℕ
  pub events : ℕ → MouseEvent
  pub head : ℕ
  pub tail : ℕ

-- The state that `init_mouse` sets.
pub init_mouse : (w h : ℕ) → Mouse → Mouse
init_mouse w h m = record m {
  screen_w = w;
  screen_h = h;
  head = 0;
  tail = 0;
  packet_idx = 0;
  mouse_x = w / 2;
  mouse_y = h / 2;
}

pub mouse_buf_put : Mouse → MouseEvent → Mouse
mouse_buf_put m ev =
    let next = (m.head + 1) % mouse_buf_size in
    if next == m.tail then m else record m { events = update m.events m.head ev; head = next }

-- `byte & (1 << n)`
abbrev pub bit : ℕ → ℕ → Bool
bit n byte = byte / 2 ^ n % 2 == 1

-- `packet[packet_idx++] = byte;`
pub store : Mouse → ℕ → Mouse
store m byte = record m {
  packet = update m.packet m.packet_idx byte;
  packet_idx = m.packet_idx + 1;
}

-- The shift of a packet that does not start with a flags byte.
pub realign : Mouse → Mouse
realign m =
    if bit 3 (m.packet 1)
    then record m {
      packet = update (update m.packet 0 (m.packet 1)) 1 (m.packet 2);
      packet_idx = 2;
    }
    else if bit 3 (m.packet 2)
    then record m { packet = update m.packet 0 (m.packet 2); packet_idx = 1 }
    else m

-- The nine-bit delta whose sign bit is in the flags.
pub delta : (negative : Bool) → ℕ → ℤ
delta negative byte = pos byte -ℤ (if negative then pos 256 else pos 0)

-- The two tests that keep a delta between -32 and 32.
pub clamp : ℤ → ℤ
clamp d =
    let d' = if ltb_ℤ (pos 32) d then pos 32 else d in
    if ltb_ℤ d' (negsuc 31) then negsuc 31 else d'

-- `d * 2`
pub double : ℤ → ℤ
double d = d +ℤ d

-- The position after a move, clamped to the screen.
pub move : (screen position : ℕ) → ℤ → ℕ
move screen position d =
    let n = pos position +ℤ d in
    let n' = if ltb_ℤ n (pos 0) then 0 else pos_part n in
    if leb screen n' then (screen + u32 - 1) % u32 else n'

-- From the decoding of the deltas to the end of the handler.
pub moved : Mouse → Mouse
unfolding delta clamp double move mouse_buf_put
moved m =
    let flags = m.packet 0 in
    let dx = double (clamp (delta (bit 4 flags) (m.packet 1))) in
    let dy = double (clamp (pos 0 -ℤ delta (bit 5 flags) (m.packet 2))) in
    let ev : MouseEvent = record { dx = dx; dy = dy; buttons = flags % 8 } in
    mouse_buf_put
      (record m {
        mouse_x = move m.screen_w m.mouse_x dx;
        mouse_y = move m.screen_h m.mouse_y dy;
        mouse_buttons = flags % 8;
      })
      ev

-- The handler from the test for a whole packet on. The second test is `flags & 0xC0`.
pub packet_done : Mouse → Mouse
unfolding realign moved
packet_done m =
    let whole : Mouse = record m { packet_idx = 0 } in
    if ltb m.packet_idx 3
    then m
    else if not (bit 3 (m.packet 0))
    then realign whole
    else if bit 6 (m.packet 0) || bit 7 (m.packet 0)
    then whole
    else moved whole

pub mouse_irq_handler : Mouse → ℕ → Mouse
unfolding store packet_done
mouse_irq_handler m byte = packet_done (store m byte)

-- The event, or none, and the state.
pub mouse_read : Mouse → Option MouseEvent × Mouse
mouse_read m =
    if m.tail == m.head
    then (none, m)
    else (some (m.events m.tail), record m { tail = (m.tail + 1) % mouse_buf_size })
