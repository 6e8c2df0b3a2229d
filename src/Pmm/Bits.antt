-- ===== src/Pmm/Bits.antt =====
-- The bitmap as a set of frames.
use luminary.Base.{ℕ, zero, suc, ◌/◌, ◌%◌, ◌<◌, ◌≡◌, Bool, true, false, arith, ◌==◌, if◌then◌else◌}
use luminary.Pmm.{Bitmap, frame_set, frame_clear, frame_test, ones, word_full}

module _ (bitmap : Bitmap) (i j : ℕ) where
  pub frame_test-set :
      frame_test (frame_set bitmap i) j ≡ (if i == j then true else frame_test bitmap j)
  unfolding frame_test frame_set
  frame_test-set = ground arith

  pub frame_test-clear :
      frame_test (frame_clear bitmap i) j ≡ (if i == j then false else frame_test bitmap j)
  unfolding frame_test frame_clear
  frame_test-clear = ground arith

ones_sound : (n : ℕ) (word : ℕ → Bool) (k : ℕ) → ones n word ≡ true → k < n → word k ≡ true
unfolding ones
ones_sound zero word k full h = absurd (omega arith)
ones_sound (suc n) word k full h = ground (arith, ones_sound n word k)

-- A full word has no free frame.
pub word_full-test :
    (bitmap : Bitmap) (j : ℕ) → word_full bitmap (j / 32) ≡ true → frame_test bitmap j ≡ true
unfolding word_full frame_test
word_full-test bitmap j full = ones_sound 32 (bitmap (j / 32)) (j % 32) full (omega arith)
