-- ===== src/Keyboard.antt =====
-- The PS/2 keyboard driver, src/drivers/keyboard.c: the scancode state machine that runs on each
-- IRQ1, and the character ring between it and `keyboard_read`. `inb(KB_DATA_PORT)` is the argument
-- `scancode` of the handler. The ring's array is a function of the index; `IsValid` of Ring says
-- that no index leaves it. Characters are bytes (the tables hold none above 0x7f).
pub mod Ring
pub mod Decode
mod Tests
use luminary.Base.{
  ℕ, zero, suc, ◌+◌, ◌-◌, ◌%◌, Bool, true, false, not, ◌&&◌, ◌||◌, List, [], ◌∷◌, leb, ◌==◌,
  if◌then◌else◌, get_or, length, update,
}

abbrev pub kb_buffer_size : ℕ
kb_buffer_size = 256

-- Scancode set 1, unshifted.
abbrev pub scancode_unshifted : List ℕ
scancode_unshifted =
    0 ∷ 0x1b ∷ b'1' ∷ b'2' ∷ b'3' ∷ b'4' ∷ b'5' ∷ b'6' ∷ b'7' ∷ b'8' ∷ b'9' ∷ b'0' ∷ b'-' ∷ b'=' ∷ 8
    ∷ b' ' ∷ b'q' ∷ b'w' ∷ b'e' ∷ b'r' ∷ b't' ∷ b'y' ∷ b'u' ∷ b'i' ∷ b'o' ∷ b'p' ∷ b'[' ∷ b']' ∷ 10
    ∷ 0 ∷ b'a' ∷ b's' ∷ b'd' ∷ b'f' ∷ b'g' ∷ b'h' ∷ b'j' ∷ b'k' ∷ b'l' ∷ b';' ∷ 39 ∷ b'`' ∷ 0 ∷ 92
    ∷ b'z' ∷ b'x' ∷ b'c' ∷ b'v' ∷ b'b' ∷ b'n' ∷ b'm' ∷ b',' ∷ b'.' ∷ b'/' ∷ 0 ∷ b'*' ∷ 0 ∷ b' ' ∷ 0
    ∷ 0 ∷ 0 ∷ 0 ∷ 0 ∷ 0 ∷ 0 ∷ 0 ∷ 0 ∷ 0 ∷ 0 ∷ 0 ∷ 0 ∷ b'7' ∷ b'8' ∷ b'9' ∷ b'-' ∷ b'4' ∷ b'5' ∷ b'6'
    ∷ b'+' ∷ b'1' ∷ b'2' ∷ b'3' ∷ b'0' ∷ b'.' ∷ 0 ∷ 0 ∷ 0 ∷ 0 ∷ []

-- Scancode set 1, shifted.
abbrev pub scancode_shifted : List ℕ
scancode_shifted =
    0 ∷ 0x1b ∷ b'!' ∷ b'@' ∷ b'#' ∷ b'$' ∷ b'%' ∷ b'^' ∷ b'&' ∷ b'*' ∷ b'(' ∷ b')' ∷ b'_' ∷ b'+' ∷ 8
    ∷ b' ' ∷ b'Q' ∷ b'W' ∷ b'E' ∷ b'R' ∷ b'T' ∷ b'Y' ∷ b'U' ∷ b'I' ∷ b'O' ∷ b'P' ∷ b'{' ∷ b'}' ∷ 10
    ∷ 0 ∷ b'A' ∷ b'S' ∷ b'D' ∷ b'F' ∷ b'G' ∷ b'H' ∷ b'J' ∷ b'K' ∷ b'L' ∷ b':' ∷ 34 ∷ b'~' ∷ 0 ∷ b'|'
    ∷ b'Z' ∷ b'X' ∷ b'C' ∷ b'V' ∷ b'B' ∷ b'N' ∷ b'M' ∷ b'<' ∷ b'>' ∷ b'?' ∷ 0 ∷ b'*' ∷ 0 ∷ b' ' ∷ 0
    ∷ 0 ∷ 0 ∷ 0 ∷ 0 ∷ 0 ∷ 0 ∷ 0 ∷ 0 ∷ 0 ∷ 0 ∷ 0 ∷ 0 ∷ b'7' ∷ b'8' ∷ b'9' ∷ b'-' ∷ b'4' ∷ b'5' ∷ b'6'
    ∷ b'+' ∷ b'1' ∷ b'2' ∷ b'3' ∷ b'0' ∷ b'.' ∷ 0 ∷ 0 ∷ 0 ∷ 0 ∷ []

-- `static struct { … } kb`; the array `data` is `chars` here.
pub record Kb : Type 0 where
  pub chars : ℕ → ℕ
  pub head : ℕ
  pub tail : ℕ
  pub shift : Bool
  pub ctrl : Bool
  pub alt : Bool
  pub caps : Bool
  pub extended : Bool

-- The array keeps what it held.
pub init_keyboard : Kb → Kb
init_keyboard kb = record {
  chars = kb.chars;
  head = 0;
  tail = 0;
  shift = false;
  ctrl = false;
  alt = false;
  caps = false;
  extended = false;
}

-- A full ring drops the keystroke.
pub kb_buf_put : Kb → ℕ → Kb
kb_buf_put kb c =
    let next = (kb.head + 1) % kb_buffer_size in
    if next == kb.tail then kb else record kb { chars = update kb.chars kb.head c; head = next }

-- The branch of the handler after an 0xE0 prefix, which is already cleared.
pub extended_key : Kb → ℕ → Kb
extended_key kb scancode =
    if scancode == 0x49
    then kb_buf_put kb 0x01
    else if scancode == 0x51
    then kb_buf_put kb 0x02
    else if scancode == 0x48
    then kb_buf_put kb 0x10
    else if scancode == 0x50
    then kb_buf_put kb 0x11
    else if scancode == 0x4b
    then kb_buf_put kb 0x12
    else if scancode == 0x4d
    then kb_buf_put kb 0x13
    else if scancode == 0x47
    then kb_buf_put kb 0x14
    else if scancode == 0x4f
    then kb_buf_put kb 0x15
    else if scancode == 0x53
    then kb_buf_put kb 0x16
    else if scancode == 0x1d
    then record kb { ctrl = true }
    else if scancode == 0x9d
    then record kb { ctrl = false }
    else kb

abbrev pub is_lower : ℕ → Bool
is_lower c = leb b'a' c && leb c b'z'

abbrev pub is_upper : ℕ → Bool
is_upper c = leb b'A' c && leb c b'Z'

-- Caps lock flips the case of letters.
abbrev pub apply_caps : Bool → ℕ → ℕ
apply_caps caps c =
    if caps then (if is_lower c then c - 32 else if is_upper c then c + 32 else c) else c

-- The table lookup; `scancode` is below 88.
pub scancode_char : Bool → ℕ → ℕ
scancode_char shift scancode =
    get_or (if shift then scancode_shifted else scancode_unshifted) scancode 0

-- The end of the handler, from the character on: ctrl and caps lock.
pub type_char : Kb → ℕ → Kb
type_char kb c =
    if c == 0
    then kb
    else if kb.ctrl && is_lower c
    then kb_buf_put kb (c - b'a' + 1)
    else if kb.ctrl && is_upper c
    then kb_buf_put kb (c - b'A' + 1)
    else kb_buf_put kb (apply_caps kb.caps c)

-- The lookup, for a scancode below 88.
pub ascii_key : Kb → ℕ → Kb
unfolding type_char
ascii_key kb scancode = type_char kb (scancode_char kb.shift scancode)

-- The branch of the handler with no prefix pending.
pub plain_key : Kb → ℕ → Kb
plain_key kb scancode =
    if scancode == 0x2a || scancode == 0x36
    then record kb { shift = true }
    else if scancode == 0xaa || scancode == 0xb6
    then record kb { shift = false }
    else if scancode == 0x1d
    then record kb { ctrl = true }
    else if scancode == 0x9d
    then record kb { ctrl = false }
    else if scancode == 0x38
    then record kb { alt = true }
    else if scancode == 0xb8
    then record kb { alt = false }
    else if kb.alt && scancode == 0x3e
    then kb_buf_put kb 0x17
    else if scancode == 0x3a
    then record kb { caps = not kb.caps }
    else if leb 0x80 scancode
    then kb
    else if leb 88 scancode
    then kb
    else ascii_key kb scancode

-- A scancode is a byte, so its bit 0x80 is set exactly from 0x80 on.
pub keyboard_irq_handler : Kb → ℕ → Kb
keyboard_irq_handler kb scancode =
    if scancode == 0xe0
    then record kb { extended = true }
    else if kb.extended
    then extended_key (record kb { extended = false }) scancode
    else plain_key kb scancode

-- The loop of `keyboard_read`, over the room that is left in `buf`: what it stores, in order.
pub read_loop : ℕ → Kb → List ℕ × Kb
read_loop zero kb = ([], kb)
read_loop (suc room) kb = elim (kb.tail == kb.head) [
  | true ↦ ([], kb)
  | false ↦
      let (rest, kb') = read_loop room (record kb { tail = (kb.tail + 1) % kb_buffer_size }) in
      (kb.chars kb.tail ∷ rest, kb')
]

-- The count that it returns, what it stores into `buf`, and the ring after it.
pub keyboard_read : ℕ → Kb → ℕ × List ℕ × Kb
unfolding read_loop
keyboard_read len kb = let (bytes, kb') = read_loop len kb in (length bytes, bytes, kb')
