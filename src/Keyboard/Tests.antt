-- ===== src/Keyboard/Tests.antt =====
-- The keyboard driver at concrete states.
use luminary.Base.{
  refl, ltb, if◌then◌else◌, ◌++◌, ◌∷◌, [], ◌≡◌, true, false, arith, min, length, take, drop,
}
use luminary.Keyboard.{Kb, keyboard_irq_handler, keyboard_read, scancode_char}
use luminary.Keyboard.Ring.{IsValid, contents, keyboard_read_refines}
use luminary.Keyboard.Decode.{SameKeys, letter, letter_key}

-- Two characters wait, round the end of the array; shift and ctrl are down.
abbrev wrapped : Kb
wrapped = record {
  chars = λ i. i;
  head = 1;
  tail = 255;
  shift = true;
  ctrl = true;
  alt = false;
  caps = false;
  extended = false;
}

wrapped-IsValid : IsValid wrapped
wrapped-IsValid = omega arith

keyboard_read_refines_example :
    let (count, bytes, kb') = keyboard_read 1 wrapped in
    (count ≡ min 1 (length (contents wrapped)))
    × (bytes ≡ take 1 (contents wrapped))
    × (contents kb' ≡ drop 1 (contents wrapped))
    × IsValid kb'
keyboard_read_refines_example = keyboard_read_refines 1 wrapped-IsValid

letter_key_example :
    let kb' = keyboard_irq_handler wrapped 0x1e in
    let c = letter true true false (scancode_char false 0x1e) in
    (contents kb' ≡ (
      if ltb (length (contents wrapped)) 255
      then contents wrapped ++ (c ∷ [])
      else contents wrapped))
    × SameKeys wrapped kb'
    × IsValid kb'
unfolding scancode_char
letter_key_example = letter_key wrapped 0x1e wrapped-IsValid (omega arith) refl refl
