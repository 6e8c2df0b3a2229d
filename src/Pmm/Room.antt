-- ===== src/Pmm/Room.antt =====
-- How many frames of ZONE_LOW in src/kernel/pmm.c are free.
use luminary.Base.{
  ℕ, zero, suc, ◌+◌, ◌-◌, ◌≤◌, ◌<◌, ◌≡◌, sym, ap, ◌∙◌, true, false, ◌==◌, if◌then◌else◌, arith,
}
use native.Mathlib.Decide.{ℕ_discrete}
use luminary.Pmm.{Pmm, Bitmap, frame_test, zone_low_start, low_end}
use luminary.Pmm.Fit.{AllUsed}

-- The free frames among the `n` from `lo` on.
unfoldable pub free_frames : (n lo : ℕ) → Bitmap → ℕ
free_frames zero lo b = 0
free_frames (suc n) lo b = (if frame_test b lo then 0 else 1) + free_frames n (lo + 1) b

abbrev pub free_low : Pmm → ℕ
free_low p = free_frames (low_end p - zone_low_start) zone_low_start p.bitmap

module _ (b b' : Bitmap) (i : ℕ)
    (marked : (j : ℕ) → frame_test b' j ≡ (if i == j then true else frame_test b j)) where
  free_frames_before : (n lo : ℕ) → i < lo → free_frames n lo b' ≡ free_frames n lo b
  unfolding free_frames
  free_frames_before zero lo below = omega arith
  free_frames_before (suc n) lo below =
      ground (arith, marked lo, free_frames_before n (lo + 1) (omega arith))

  -- Marking a free frame takes one.
  pub free_frames_mark :
      (n lo : ℕ)
      → frame_test b i ≡ false
      → lo ≤ i
      → i < lo + n
      → free_frames n lo b' + 1 ≡ free_frames n lo b
  unfolding free_frames
  free_frames_mark zero lo free from to = absurd (omega arith)
  free_frames_mark (suc n) lo free from to = elim (ℕ_discrete i lo) [
    | yes here ↦
        let was : frame_test b lo ≡ false = ap (frame_test b) (sym here) ∙ free in
        ground (arith, marked lo, was, free_frames_before n (lo + 1) (omega arith))
    | no ne ↦
        let rest = free_frames_mark n (lo + 1) free (omega (arith, ne)) (omega arith) in
        ground (arith, marked lo, rest, ne)
  ]

free_frames_full : (n lo : ℕ) (b : Bitmap) → AllUsed b lo (lo + n) → free_frames n lo b ≡ 0
unfolding free_frames
free_frames_full zero lo b used = omega arith
free_frames_full (suc n) lo b used =
    let rest = free_frames_full n (lo + 1) b (λ j h h'. used j (omega arith) (omega arith)) in
    let here = used lo (omega arith) (omega arith) in ground (arith, rest, here)

pub free_low_full : (p : Pmm) → AllUsed p.bitmap zone_low_start (low_end p) → free_low p ≡ 0
free_low_full p used =
    free_frames_full (low_end p - zone_low_start) zone_low_start p.bitmap
      (λ j h h'. used j h (omega arith))
