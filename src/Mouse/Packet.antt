-- ===== src/Mouse/Packet.antt =====
-- The packets of the mouse: the handler keeps its state in order, and three bytes in step are one
-- event.
use luminary.Base.{
  ℕ, ◌+◌, ◌%◌, ◌^◌, ◌<◌, ◌≡◌, refl, ap, ◌∙◌, true, false, not, ◌||◌, [], ◌∷◌, ◌++◌, arith, ltb,
  if◌then◌else◌, length, update, Bool-cases, inl, inr, ◌⊎◌,
}
use luminary.Base.Int.{ℤ, pos, negsuc, ◌+ℤ◌, ◌-ℤ◌, ◌≤ℤ◌}
use luminary.Mouse.{
  Mouse, MouseEvent, bit, store, realign, delta, clamp, double, move, moved, packet_done,
  mouse_irq_handler, mouse_buf_put,
}
use luminary.Mouse.Ring.{RingIsValid, waiting, waiting-put}

-- The ring is in order, a packet is never whole between two bytes, and the cursor is on the screen.
pub record IsValid (m : Mouse) : Type 0 where
  pub ring : RingIsValid m
  pub partial_packet : m.packet_idx < 3
  pub width : m.screen_w < 2 ^ 31
  pub height : m.screen_h < 2 ^ 31
  pub x_on : m.mouse_x < m.screen_w
  pub y_on : m.mouse_y < m.screen_h

move_bound :
    (screen position : ℕ) (d : ℤ) → 0 < screen → screen < 2 ^ 31 → move screen position d < screen
unfolding move ◌+ℤ◌
move_bound screen position d some_screen small = ground arith

put-IsValid : (m : Mouse) (ev : MouseEvent) → IsValid m → IsValid (mouse_buf_put m ev)
unfolding mouse_buf_put
put-IsValid m ev v = ground arith

shift-IsValid :
    (m : Mouse) (x y buttons : ℕ)
    → IsValid m
    → x < m.screen_w
    → y < m.screen_h
    → IsValid (record m { mouse_x = x; mouse_y = y; mouse_buttons = buttons })
shift-IsValid m x y buttons v x_on y_on = ground arith

moved-IsValid : (m : Mouse) → IsValid m → IsValid (moved m)
unfolding moved
moved-IsValid m v = put-IsValid _ _ (
    shift-IsValid m _ _ _ v (move_bound m.screen_w m.mouse_x _ (omega (arith, v.x_on)) v.width)
      (move_bound m.screen_h m.mouse_y _ (omega (arith, v.y_on)) v.height))

realign-IsValid : (m : Mouse) → IsValid m → IsValid (realign m)
unfolding realign
realign-IsValid m v = ground arith

packet_done-IsValid :
    (m : Mouse) → IsValid (record m { packet_idx = 0 }) → m.packet_idx < 4 → IsValid (packet_done m)
unfolding packet_done
packet_done-IsValid m v idx =
    let whole : Mouse = record m { packet_idx = 0 } in
    ground (arith, realign-IsValid whole v, moved-IsValid whole v)

store-IsValid :
    (m : Mouse) (byte : ℕ) → IsValid m → IsValid (record (store m byte) { packet_idx = 0 })
unfolding store
store-IsValid m byte v = ground arith

store-idx : (m : Mouse) (byte : ℕ) → (store m byte).packet_idx ≡ m.packet_idx + 1
unfolding store
store-idx m byte = refl

-- Whatever byte arrives, the handler keeps the ring in order, leaves at most two bytes of a packet
-- pending and keeps the cursor on the screen, for a screen of less than 2^31 in each direction.
pub mouse_irq_handler-IsValid :
    (m : Mouse) (byte : ℕ) → IsValid m → IsValid (mouse_irq_handler m byte)
unfolding mouse_irq_handler
mouse_irq_handler-IsValid m byte v =
    packet_done-IsValid (store m byte) (store-IsValid m byte v)
      (omega (arith, v.partial_packet, store-idx m byte))

-- The event of a packet.
abbrev pub event_of : (flags b₁ b₂ : ℕ) → MouseEvent
event_of flags b₁ b₂ = record {
  dx = double (clamp (delta (bit 4 flags) b₁));
  dy = double (clamp (pos 0 -ℤ delta (bit 5 flags) b₂));
  buttons = flags % 8;
}

double-clamp : (d : ℤ) → (negsuc 63 ≤ℤ double (clamp d)) × (double (clamp d) ≤ℤ pos 64)
unfolding double clamp ◌+ℤ◌
double-clamp d = ground arith

-- Three bytes from the start of a packet on.
abbrev pub three_bytes : Mouse → (flags b₁ b₂ : ℕ) → Mouse
three_bytes m flags b₁ b₂ = mouse_irq_handler (mouse_irq_handler (mouse_irq_handler m flags) b₁) b₂

waits_for_more : (m : Mouse) (byte : ℕ) → m.packet_idx < 2 → mouse_irq_handler m byte ≡ store m byte
unfolding mouse_irq_handler packet_done store
waits_for_more m byte early = ground arith

-- The state with a whole packet in it.
abbrev whole : Mouse → (flags b₁ b₂ : ℕ) → Mouse
whole m flags b₁ b₂ = record m {
  packet = update (update (update m.packet 0 flags) 1 b₁) 2 b₂;
  packet_idx = 0;
}

third_byte :
    (m : Mouse) (byte : ℕ)
    → m.packet_idx ≡ 2
    → let full : Mouse = record (store m byte) { packet_idx = 0 } in
      mouse_irq_handler m byte ≡ (
        if not (bit 3 (full.packet 0))
        then realign full
        else if bit 6 (full.packet 0) || bit 7 (full.packet 0)
        then full
        else moved full)
unfolding mouse_irq_handler packet_done store
third_byte m byte last = let past : ltb (m.packet_idx + 1) 3 ≡ false = ground arith in rw past refl

stored :
    (m : Mouse) (flags b₁ b₂ : ℕ)
    → m.packet_idx ≡ 0
    → record (store (store (store m flags) b₁) b₂) { packet_idx = 0 } ≡ whole m flags b₁ b₂
unfolding store
stored m flags b₁ b₂ start = rw start refl

three_bytes_lem :
    (m : Mouse) (flags b₁ b₂ : ℕ)
    → m.packet_idx ≡ 0
    → three_bytes m flags b₁ b₂ ≡ (
        if not (bit 3 flags)
        then realign (whole m flags b₁ b₂)
        else if bit 6 flags || bit 7 flags
        then whole m flags b₁ b₂
        else moved (whole m flags b₁ b₂))
unfolding store
three_bytes_lem m flags b₁ b₂ start =
    ap (λ s. mouse_irq_handler (mouse_irq_handler s b₁) b₂)
      (waits_for_more m flags (omega (arith, start)))
    ∙ ap (λ s. mouse_irq_handler s b₂) (waits_for_more (store m flags) b₁ (omega (arith, start)))
    ∙ third_byte (store (store m flags) b₁) b₂ (omega (arith, start))
    ∙ rw start refl

moved_lem :
    (m : Mouse)
    → RingIsValid m
    → (waiting (moved m) ≡ (
        if ltb (length (waiting m)) 63
        then waiting m ++ (event_of (m.packet 0) (m.packet 1) (m.packet 2) ∷ [])
        else waiting m))
      × ((moved m).packet_idx ≡ m.packet_idx)
      × ((moved m).mouse_buttons ≡ m.packet 0 % 8)
unfolding moved mouse_buf_put
moved_lem m v = (
  waiting-put _ _ (record { head_in = v.head_in; tail_in = v.tail_in }),
  ground arith,
  ground arith,
)

realign_lem :
    (m : Mouse)
    → m.packet_idx ≡ 0
    → (waiting (realign m) ≡ waiting m)
      × ((realign m).mouse_x ≡ m.mouse_x)
      × ((realign m).mouse_y ≡ m.mouse_y)
      × (((realign m).packet_idx ≡ 0) ⊎ (bit 3 ((realign m).packet 0) ≡ true))
unfolding realign
realign_lem m start = elim (Bool-cases (bit 3 (m.packet 1))) [
  | inl second ↦ rw second (refl, refl, refl, inr second)
  | inr no_second ↦ elim (Bool-cases (bit 3 (m.packet 2))) [
    | inl third ↦ rw (no_second, third) (refl, refl, refl, inr third)
    | inr no_third ↦ rw (no_second, no_third) (refl, refl, refl, inl start)
  ]
]

-- A packet in step (bit 3 of its flags is set, and neither overflow bit) is one event: its buttons
-- are the low three bits of the flags, its moves lie between -64 and 64, it is appended to the
-- events that wait unless 63 of them do, and the handler is at the start of a packet again.
pub packet_in_step :
    (m : Mouse) (flags b₁ b₂ : ℕ)
    → IsValid m
    → m.packet_idx ≡ 0
    → bit 3 flags ≡ true
    → bit 6 flags ≡ false
    → bit 7 flags ≡ false
    → let ev = event_of flags b₁ b₂ in
      let m' = three_bytes m flags b₁ b₂ in
      (waiting m' ≡ (if ltb (length (waiting m)) 63 then waiting m ++ (ev ∷ []) else waiting m))
      × (m'.packet_idx ≡ 0)
      × (m'.mouse_buttons ≡ flags % 8)
      × (negsuc 63 ≤ℤ ev.dx)
      × (ev.dx ≤ℤ pos 64)
      × (negsuc 63 ≤ℤ ev.dy)
      × (ev.dy ≤ℤ pos 64)
packet_in_step m flags b₁ b₂ v start sync x_fits y_fits =
    let e : three_bytes m flags b₁ b₂ ≡ moved (whole m flags b₁ b₂) =
      three_bytes_lem m flags b₁ b₂ start ∙ rw (sync, x_fits, y_fits) refl in
    let (events, idx, buttons) =
      moved_lem (whole m flags b₁ b₂)
        (record { head_in = v.ring.head_in; tail_in = v.ring.tail_in }) in
    let x = double-clamp (delta (bit 4 flags) b₁) in
    let y = double-clamp (pos 0 -ℤ delta (bit 5 flags) b₂) in
    (
      ap waiting e ∙ events,
      ap (λ s. s.packet_idx) e ∙ idx,
      ap (λ s. s.mouse_buttons) e ∙ buttons,
      x.0,
      x.1,
      y.0,
      y.1,
    )

-- Three bytes of which the first is no flags byte type no event and do not move the cursor; what
-- the handler keeps of them is nothing, or starts with a byte that has bit 3 set.
packet_out_of_step :
    (m : Mouse) (flags b₁ b₂ : ℕ)
    → m.packet_idx ≡ 0
    → bit 3 flags ≡ false
    → let m' = three_bytes m flags b₁ b₂ in
      (waiting m' ≡ waiting m)
      × (m'.mouse_x ≡ m.mouse_x)
      × (m'.mouse_y ≡ m.mouse_y)
      × ((m'.packet_idx ≡ 0) ⊎ (bit 3 (m'.packet 0) ≡ true))
packet_out_of_step m flags b₁ b₂ start no_sync =
    let e : three_bytes m flags b₁ b₂ ≡ realign (whole m flags b₁ b₂) =
      three_bytes_lem m flags b₁ b₂ start ∙ rw no_sync refl in
    rw e (realign_lem (whole m flags b₁ b₂) refl)
