-- ===== src/Pmm/Fit.antt =====
-- The searches of the frame allocators: first fit above 16 MB with a fallback, and last fit below.
use luminary.Base.{
  ℕ, zero, suc, ◌+◌, ◌-◌, ◌*◌, ◌/◌, ◌≤◌, ◌<◌, ◌≡◌, ◌≢◌, sym, true, false, Option, none, some, arith,
  leb, ltb, ◌==◌, Bool-cases, inl, inr, ◌⊎◌,
}
use luminary.Pmm.{
  Pmm, Bitmap, Zone, frame_test, word_full, low_loop, any_loop, fit_loop, find_frame, low_end,
  zone_low_start, zone_low_end, zone_any_start, max_frames,
}
use luminary.Pmm.Bits.{word_full-test}

-- All frames from `lo` up to `hi` are used.
abbrev pub AllUsed : Bitmap → ℕ → ℕ → Type 0
AllUsed b lo hi = (j : ℕ) → lo ≤ j → j < hi → frame_test b j ≡ true

-- The lowest free frame from `lo` up to `hi`, if there is one.
abbrev pub IsFirstFree : Bitmap → ℕ → ℕ → Option ℕ → Type 0
IsFirstFree b lo hi none = AllUsed b lo hi
IsFirstFree b lo hi (some i) = (lo ≤ i) × (i < hi) × (frame_test b i ≡ false) × AllUsed b lo i

-- The highest one.
abbrev pub IsLastFree : Bitmap → ℕ → ℕ → Option ℕ → Type 0
IsLastFree b lo hi none = AllUsed b lo hi
IsLastFree b lo hi (some i) = (lo ≤ i) × (i < hi) × (frame_test b i ≡ false) × AllUsed b (i + 1) hi

AllUsed-join : (b : Bitmap) (lo mid hi : ℕ) → AllUsed b lo mid → AllUsed b mid hi → AllUsed b lo hi
AllUsed-join b lo mid hi p q j h h' = elim (Bool-cases (ltb j mid)) [
  | inl below ↦ p j h (ground arith)
  | inr above ↦ q j (ground arith) h'
]

AllUsed-one : (b : Bitmap) (i : ℕ) → frame_test b i ≡ true → AllUsed b i (i + 1)
AllUsed-one b i used j h h' = let e : i ≡ j = omega arith in rw (sym e) used

IsFirstFree-skip :
    (b : Bitmap) (lo mid hi : ℕ) (r : Option ℕ)
    → lo ≤ mid
    → AllUsed b lo mid
    → IsFirstFree b mid hi r
    → IsFirstFree b lo hi r
IsFirstFree-skip b lo mid hi none h used first = AllUsed-join b lo mid hi used first
IsFirstFree-skip b lo mid hi (some i) h used first =
    (omega arith, first.1, first.2, AllUsed-join b lo mid i used first.3)

any_loop-First :
    (fuel : ℕ) (b : Bitmap) (i hi : ℕ) → hi ≤ i + fuel → IsFirstFree b i hi (any_loop fuel b i hi)
unfolding any_loop
any_loop-First zero b i hi fits = λ j h h'. absurd (omega arith)
any_loop-First (suc fuel) b i hi fits = elim (Bool-cases (ltb i hi)) [
  | inr past ↦ rw past (λ j h h'. absurd (ground arith))
  | inl within ↦ rw within (elim (Bool-cases (word_full b (i / 32))) [
    | inl full ↦ rw full (
        IsFirstFree-skip b i ((i / 32 + 1) * 32) hi _ (omega arith)
          (λ j h h'. word_full-test b j (let e : i / 32 ≡ j / 32 = omega arith in rw (sym e) full))
          (any_loop-First fuel b ((i / 32 + 1) * 32) hi (omega arith)))
    | inr room ↦ rw room (elim (Bool-cases (frame_test b i)) [
      | inl used ↦ rw used (
          IsFirstFree-skip b i (i + 1) hi _ (omega arith) (AllUsed-one b i used)
            (any_loop-First fuel b (i + 1) hi (omega arith)))
      | inr free ↦ rw free (omega arith, ground arith, free, λ j h h'. absurd (omega arith))
    ])
  ])
]

fit_loop-First : (n : ℕ) (b : Bitmap) (i hi : ℕ) → i + n ≡ hi → IsFirstFree b i hi (fit_loop n b i)
unfolding fit_loop
fit_loop-First zero b i hi e = λ j h h'. absurd (omega arith)
fit_loop-First (suc n) b i hi e = elim (Bool-cases (frame_test b i)) [
  | inl used ↦ rw used (
      IsFirstFree-skip b i (i + 1) hi _ (omega arith) (AllUsed-one b i used)
        (fit_loop-First n b (i + 1) hi (omega arith)))
  | inr free ↦ rw free (omega arith, omega arith, free, λ j h h'. absurd (omega arith))
]

IsLastFree-skip :
    (b : Bitmap) (lo mid hi : ℕ) (r : Option ℕ)
    → mid ≤ hi
    → AllUsed b mid hi
    → IsLastFree b lo mid r
    → IsLastFree b lo hi r
IsLastFree-skip b lo mid hi none h used last = AllUsed-join b lo mid hi last used
IsLastFree-skip b lo mid hi (some i) h used last =
    (last.0, omega arith, last.2, AllUsed-join b (i + 1) mid hi last.3 used)

low_loop-Last :
    (fuel : ℕ) (b : Bitmap) (start i hi : ℕ)
    → i < start + fuel
    → i + 1 ≡ hi
    → IsLastFree b start hi (low_loop fuel b start i)
unfolding low_loop
low_loop-Last zero b start i hi fits e = λ j h h'. absurd (omega arith)
low_loop-Last (suc fuel) b start i hi fits e = elim (Bool-cases (leb start i)) [
  | inr under ↦ rw under (λ j h h'. absurd (ground arith))
  | inl within ↦ rw within (elim (Bool-cases (frame_test b i)) [
    | inr free ↦ rw free (ground arith, omega arith, free, λ j h h'. absurd (omega arith))
    | inl used ↦ rw used (elim (Bool-cases (i == start)) [
      | inl last ↦ rw last (λ j h h'. let same : i ≡ j = ground arith in rw (sym same) used)
      | inr more ↦ rw more (
          IsLastFree-skip b start i hi _ (omega arith)
            (λ j h h'. let same : i ≡ j = omega arith in rw (sym same) used)
            (low_loop-Last fuel b start (i - 1) i (ground arith) (ground arith)))
    ])
  ])
]

-- ZONE_LOW, where there is memory: the highest free frame of the zone.
pub find_low :
    (p : Pmm)
    → 0 < p.nframes
    → p.nframes ≤ max_frames
    → IsLastFree p.bitmap zone_low_start (low_end p) (find_frame Zone.zone_low p)
unfolding find_frame
find_low p some_memory limit =
    low_loop-Last zone_low_end p.bitmap zone_low_start _ (low_end p) (ground arith) (ground arith)

-- ZONE_ANY: the lowest free frame from 16 MB up; only if there is none, the lowest one below.
abbrev pub IsAnyFit : Pmm → Option ℕ → Type 0
IsAnyFit p r =
    (IsFirstFree p.bitmap zone_any_start p.nframes r × (r ≢ none))
    ⊎ (AllUsed p.bitmap zone_any_start p.nframes
        × IsFirstFree p.bitmap zone_low_start (low_end p) r)

fit_between : (b : Bitmap) (lo hi : ℕ) → IsFirstFree b lo hi (fit_loop (hi - lo) b lo)
unfolding fit_loop
fit_between b lo hi = elim (Bool-cases (leb lo hi)) [
  | inl up ↦ fit_loop-First (hi - lo) b lo hi (ground arith)
  | inr down ↦
      let none_left : hi - lo ≡ 0 = ground arith in rw none_left (λ j h h'. absurd (ground arith))
]

find_any_by :
    (p : Pmm) (upper : Option ℕ)
    → IsFirstFree p.bitmap zone_any_start p.nframes upper
    → IsAnyFit p (elim upper [
      | some i ↦ some i
      | none ↦ fit_loop (low_end p - zone_low_start) p.bitmap zone_low_start
    ])
find_any_by p none used = inr (used, fit_between p.bitmap zone_low_start (low_end p))
find_any_by p (some i) first = inl (first, λ e. cc)

pub find_any : (p : Pmm) → IsAnyFit p (find_frame Zone.zone_any p)
unfolding find_frame
find_any p =
    find_any_by p (any_loop p.nframes p.bitmap zone_any_start p.nframes)
      (any_loop-First p.nframes p.bitmap zone_any_start p.nframes (omega arith))
