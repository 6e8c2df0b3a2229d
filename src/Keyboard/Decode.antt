-- ===== src/Keyboard/Decode.antt =====
-- What the scancode state machine of the keyboard handler types, and what it only remembers.
use luminary.Base.{
  ℕ, ap, sym, subst, ◌∙◌, length, ltb, ◌++◌, ◌∷◌, [], zero, suc, ◌+◌, ◌-◌, ◌≤◌, ◌<◌, ◌≡◌, refl,
  Bool, true, false, not, ◌&&◌, ◌||◌, arith, ◌==◌, if◌then◌else◌,
}
use luminary.Keyboard.{
  Kb, scancode_char, kb_buf_put, extended_key, ascii_key, plain_key, keyboard_irq_handler, is_lower,
}
use luminary.Keyboard.Ring.{IsValid, contents, kb_buf_put-IsValid, kb_buf_put_refines}

extended_key-IsValid : {kb : Kb} (scancode : ℕ) → IsValid kb → IsValid (extended_key kb scancode)
unfolding extended_key
extended_key-IsValid {kb} scancode v = grind (arith, kb_buf_put-IsValid)

ascii_key-IsValid : {kb : Kb} (scancode : ℕ) → IsValid kb → IsValid (ascii_key kb scancode)
unfolding ascii_key
ascii_key-IsValid {kb} scancode v = grind (arith, kb_buf_put-IsValid)

plain_key-IsValid : {kb : Kb} (scancode : ℕ) → IsValid kb → IsValid (plain_key kb scancode)
unfolding plain_key
plain_key-IsValid {kb} scancode v =
    ground (arith, kb_buf_put-IsValid 0x17 v, ascii_key-IsValid scancode v)

-- The handler keeps both ring indices inside the array, whatever byte arrives in whatever state.
keyboard_irq_handler-IsValid :
    {kb : Kb} (scancode : ℕ) → IsValid kb → IsValid (keyboard_irq_handler kb scancode)
unfolding keyboard_irq_handler
keyboard_irq_handler-IsValid {kb} scancode v =
    let ready : IsValid (record kb { extended = false }) = omega arith in
    ground (arith, extended_key-IsValid scancode ready, plain_key-IsValid scancode v)

-- A key release types nothing: no byte from 0x80 on, prefixed or not, changes the ring.
release-silent :
    (kb : Kb) (scancode : ℕ)
    → 0x80 ≤ scancode
    → contents (keyboard_irq_handler kb scancode) ≡ contents kb
unfolding keyboard_irq_handler extended_key plain_key
release-silent kb scancode h = ground arith

-- What the two tables say of a letter key, checked row by row: the shifted character is the
-- capital, and the key is none of those that the handler treats apart.
row_fits : ℕ → Bool
row_fits s =
    let base = scancode_char false s in
    if is_lower base
    then scancode_char true s + 32 == base
      && not (s == 0x2a || s == 0x36 || s == 0x1d || s == 0x38 || s == 0x3e || s == 0x3a)
    else true

-- A test of the first rows of a table, one by one.
rows_pass : (ℕ → Bool) → (rows : ℕ) → Bool
rows_pass test zero = true
rows_pass test (suc last) = rows_pass test last && test last

row-rows_pass :
    (test : ℕ → Bool) (rows row : ℕ) → row < rows → rows_pass test rows ≡ true → test row ≡ true
unfolding rows_pass
row-rows_pass test zero row inside pass = absurd (omega arith)
row-rows_pass test (suc last) row inside pass = ground (arith, row-rows_pass test last row)

letter_table : rows_pass row_fits 88 ≡ true
unfolding rows_pass row_fits scancode_char
letter_table = refl

record LetterRow (s : ℕ) : Type 0 where
  low : 97 ≤ scancode_char false s
  high : scancode_char false s ≤ 122
  capital : scancode_char true s + 32 ≡ scancode_char false s
  apart : (s == 0x2a || s == 0x36 || s == 0x1d || s == 0x38 || s == 0x3e || s == 0x3a) ≡ false

row_fits-LetterRow : (s : ℕ) → s < 88 → is_lower (scancode_char false s) ≡ true → LetterRow s
unfolding row_fits
row_fits-LetterRow s row is =
    let checked = row-rows_pass row_fits 88 s row letter_table in
    record {
      low = ground arith;
      high = ground arith;
      capital = ground (arith, checked);
      apart = ground (arith, checked);
    }

-- The character that a letter key stands for, by the three modifiers.
abbrev pub letter : (ctrl shift caps : Bool) → ℕ → ℕ
letter ctrl shift caps base =
    if ctrl then base - 96 else if (if shift then not caps else caps) then base - 32 else base

ascii_letter :
    (kb : Kb) (s : ℕ) (shift : Bool)
    → LetterRow s
    → kb.shift ≡ shift
    → ascii_key kb s ≡ kb_buf_put kb (letter kb.ctrl kb.shift kb.caps (scancode_char false s))
unfolding ascii_key
ascii_letter kb s true row e = ground (arith, ap (λ b. scancode_char b s) e)
ascii_letter kb s false row e = ground (arith, ap (λ b. scancode_char b s) e)

letter_key-put :
    (kb : Kb) (scancode : ℕ)
    → scancode < 88
    → is_lower (scancode_char false scancode) ≡ true
    → kb.extended ≡ false
    → keyboard_irq_handler kb scancode
      ≡ kb_buf_put kb (letter kb.ctrl kb.shift kb.caps (scancode_char false scancode))
unfolding keyboard_irq_handler plain_key
letter_key-put kb scancode row is plain =
    let facts = row_fits-LetterRow scancode row is in
    ground (arith, facts.apart, ascii_letter kb scancode kb.shift facts refl)

-- What a character that is put into the ring leaves of the rest.
pub SameKeys : (kb kb' : Kb) → Type 0
SameKeys kb kb' =
    (kb'.shift ≡ kb.shift)
    × (kb'.ctrl ≡ kb.ctrl)
    × (kb'.alt ≡ kb.alt)
    × (kb'.caps ≡ kb.caps)
    × (kb'.extended ≡ kb.extended)

kb_buf_put-SameKeys : (kb : Kb) (c : ℕ) → SameKeys kb (kb_buf_put kb c)
unfolding kb_buf_put SameKeys
kb_buf_put-SameKeys kb c = ground arith

-- A letter key (a row whose unshifted character is a lower-case letter), with no prefix pending,
-- appends one character to those that wait, while they are fewer than 255, and is dropped
-- otherwise: the control character 1 to 26 under ctrl, and otherwise the capital exactly when one
-- of shift and caps lock is on. The modifiers stay, and both ring indices stay inside the array.
pub letter_key :
    (kb : Kb) (scancode : ℕ)
    → IsValid kb
    → scancode < 88
    → is_lower (scancode_char false scancode) ≡ true
    → kb.extended ≡ false
    → let kb' = keyboard_irq_handler kb scancode in
      let c = letter kb.ctrl kb.shift kb.caps (scancode_char false scancode) in
      (contents kb'
        ≡ (if ltb (length (contents kb)) 255 then contents kb ++ (c ∷ []) else contents kb))
      × SameKeys kb kb'
      × IsValid kb'
letter_key kb scancode v row is plain =
    let c = letter kb.ctrl kb.shift kb.caps (scancode_char false scancode) in
    let put = letter_key-put kb scancode row is plain in
    (
      ap contents put ∙ kb_buf_put_refines c v,
      subst (SameKeys kb) (sym put) (kb_buf_put-SameKeys kb c),
      keyboard_irq_handler-IsValid scancode v,
    )
