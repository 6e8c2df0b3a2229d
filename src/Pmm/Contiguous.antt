-- ===== src/Pmm/Contiguous.antt =====
-- `pmm_alloc_contiguous` against its description: the lowest run of free frames in ZONE_LOW.
use luminary.Base.{
  ℕ, zero, suc, ◌+◌, ◌-◌, ◌*◌, ◌≤◌, ◌<◌, ◌≡◌, ◌≢◌, refl, sym, ◌∙◌, ◌⊎◌, inl, inr, true, false, ◌&&◌,
  Option, none, some, arith, leb, ltb, ◌==◌, if◌then◌else◌, Bool-cases,
}
use luminary.Pmm.{
  Pmm, Bitmap, frame_test, run_loop, take_run, take_frame, low_end, pmm_alloc_contiguous, page_size,
  zone_low_start,
}
use luminary.Pmm.Alloc.{take_frame-test, take_frame-refcounts, take_frame-nframes}

abbrev pub AllFree : Bitmap → ℕ → ℕ → Type 0
AllFree b lo hi = (j : ℕ) → lo ≤ j → j < hi → frame_test b j ≡ false

-- No run of `n` free frames starts at or after `lo` and ends by `hi`.
abbrev pub NoRun : Bitmap → (n lo hi : ℕ) → Type 0
NoRun b n lo hi = (s : ℕ) → lo ≤ s → s + n ≤ hi → ¬ AllFree b s (s + n)

-- The lowest run of `n` free frames from `lo` to `hi`, if there is one.
abbrev pub IsFirstRun : Bitmap → (n lo hi : ℕ) → Option ℕ → Type 0
IsFirstRun b n lo hi none = NoRun b n lo hi
IsFirstRun b n lo hi (some s) =
    (lo ≤ s)
    × (s + n ≤ hi)
    × AllFree b s (s + n)
    × ((t : ℕ) → lo ≤ t → t < s → ¬ AllFree b t (t + n))

-- The loop at frame `i`: `run_len` free frames end there, and no more.
record Inv (b : Bitmap) (n lo i run_start run_len : ℕ) : Type 0 where
  short : run_len < n
  begun : lo + run_len ≤ i
  start : (run_len ≡ 0) ⊎ (run_start + run_len ≡ i)
  free : AllFree b (i - run_len) i
  edge : (lo + run_len ≡ i) ⊎ (frame_test b (i - run_len - 1) ≡ true)
  past : NoRun b n lo i

free≢used : (b : Bitmap) (j : ℕ) → frame_test b j ≡ false → frame_test b j ≡ true → ⊥
free≢used b j free used = cc

-- A used frame ends every run.
past_used :
    (b : Bitmap) (n lo i run_start run_len : ℕ)
    → Inv b n lo i run_start run_len
    → frame_test b i ≡ true
    → NoRun b n lo (i + 1)
past_used b n lo i run_start run_len inv used s h fits all = elim (Bool-cases (leb (s + n) i)) [
  | inl before ↦ inv.past s h (ground arith) all
  | inr ends ↦ free≢used b i (all i (ground (arith, inv.short)) (ground arith)) used
]

past_free :
    (b : Bitmap) (n lo i run_start run_len : ℕ)
    → Inv b n lo i run_start run_len
    → run_len + 1 ≢ n
    → NoRun b n lo (i + 1)
past_free b n lo i run_start run_len inv short s h fits all = elim (Bool-cases (leb (s + n) i)) [
  | inl before ↦ inv.past s h (ground arith) all
  | inr ends ↦ elim inv.edge [
    | inl whole ↦ absurd (ground (arith, inv.short))
    | inr wall ↦
        free≢used b (i - run_len - 1)
          (all (i - run_len - 1) (ground (arith, inv.short, inv.begun))
            (ground (arith, inv.short, inv.begun)))
          wall
  ]
]

AllFree-more :
    (b : Bitmap) (lo i : ℕ) → AllFree b lo i → frame_test b i ≡ false → AllFree b lo (i + 1)
AllFree-more b lo i all free j h h' = elim (Bool-cases (ltb j i)) [
  | inl before ↦ all j h (ground arith)
  | inr at ↦ let e : i ≡ j = ground arith in rw (sym e) free
]

-- Where the run that reaches frame `i` starts.
module _ (b : Bitmap) (n lo i hi run_start run_len start : ℕ) (inv : Inv b n lo i run_start run_len)
    (from : start + run_len ≡ i) (free : frame_test b i ≡ false) where
  run_free : AllFree b start (i + 1)
  run_free = AllFree-more b start i (λ j h h'. inv.free j (omega (arith, inv.begun)) h') free

  full_run : run_len + 1 ≡ n → i < hi → IsFirstRun b n lo hi (some start)
  full_run full within = (
    omega (arith, inv.begun),
    omega arith,
    λ j h h'. run_free j h (omega arith),
    λ t h h' all. inv.past t h (omega arith) all,
  )

  longer_run : run_len + 1 ≢ n → Inv b n lo (i + 1) start (run_len + 1)
  longer_run more = record {
    short = ground (arith, inv.short);
    begun = omega (arith, inv.begun);
    start = inr (omega arith);
    free = λ j h h'. run_free j (omega arith) h';
    edge = edge_moves;
    past = past_free b n lo i run_start run_len inv more;
  }
    where
      edge_moves : (lo + (run_len + 1) ≡ i + 1) ⊎ (frame_test b (i + 1 - (run_len + 1) - 1) ≡ true)
      edge_moves = elim inv.edge [
        | inl whole ↦ inl (omega arith)
        | inr wall ↦
            inr (let at : i + 1 - (run_len + 1) - 1 ≡ i - run_len - 1 = omega arith in rw at wall)
      ]

run_loop-First :
    (left : ℕ) (b : Bitmap) (n lo i hi run_start run_len : ℕ)
    → i + left ≡ hi
    → Inv b n lo i run_start run_len
    → IsFirstRun b n lo hi (run_loop left b n i run_start run_len)
unfolding run_loop
run_loop-First zero b n lo i hi run_start run_len e inv = λ s h fits. inv.past s h (omega arith)
run_loop-First (suc left) b n lo i hi run_start run_len e inv = elim (Bool-cases (frame_test b i)) [
  | inl used ↦ rw used (
      run_loop-First left b n lo (i + 1) hi run_start 0 (omega arith) (record {
        short = omega (arith, inv.short);
        begun = omega (arith, inv.begun);
        start = inl refl;
        free = λ j h h'. absurd (omega arith);
        edge = inr (let at : i + 1 - 0 - 1 ≡ i = omega arith in rw at used);
        past = past_used b n lo i run_start run_len inv used;
      }))
  | inr free ↦
      let start : ℕ = if run_len == 0 then i else run_start in
      let from : start + run_len ≡ i = ground (arith, inv.start) in
      rw free (elim (Bool-cases (run_len + 1 == n)) [
        | inl full ↦ rw full (
            full_run b n lo i hi run_start run_len start inv from free (ground arith) (omega arith))
        | inr more ↦ rw more (
            run_loop-First left b n lo (i + 1) hi start (run_len + 1) (omega arith)
              (longer_run b n lo i hi run_start run_len start inv from free (ground arith)))
      ])
]

-- The frames from `s` on, `n` of them, become used with one owner each; nothing else changes.
pub record TakesRun (p : Pmm) (s n : ℕ) (p' : Pmm) : Type 0 where
  pub bits :
      (j : ℕ)
      → frame_test p'.bitmap j ≡ (if leb s j && ltb j (s + n) then true else frame_test p.bitmap j)
  pub counts : (j : ℕ) → p'.refcounts j ≡ (if leb s j && ltb j (s + n) then 1 else p.refcounts j)
  pub size : p'.nframes ≡ p.nframes

take_run-TakesRun : (n : ℕ) (p : Pmm) (s : ℕ) → TakesRun p s n (take_run n p s)
unfolding take_run
take_run-TakesRun zero p s = record {
  bits = λ j. ground arith;
  counts = λ j. ground arith;
  size = refl;
}
take_run-TakesRun (suc n) p s =
    let rest = take_run-TakesRun n (take_frame p s) (s + 1) in
    record {
      bits = λ j. ground (arith, rest.bits j, take_frame-test p s j);
      counts = λ j. ground (arith, rest.counts j, take_frame-refcounts p s j);
      size = rest.size ∙ take_frame-nframes p s;
    }

abbrev pub Takes : Pmm → ℕ → Option ℕ → ℕ × Pmm → Type 0
Takes p n none r = r ≡ (0, p)
Takes p n (some s) r = (r.0 ≡ s * page_size) × TakesRun p s n r.1

contiguous_by :
    (p : Pmm) (n : ℕ) (found : Option ℕ)
    → Takes p n found
        (elim found [ some start ↦ (start * page_size, take_run n p start) | none ↦ (0, p) ])
contiguous_by p n none = refl
contiguous_by p n (some s) = (refl, take_run-TakesRun n p s)

-- For `n` of at least 1, on a machine that has all of ZONE_LOW's first megabyte,
-- `pmm_alloc_contiguous` finds the lowest run of `n` free frames of ZONE_LOW and marks exactly these
-- frames used, with one owner each; it returns 0 and changes nothing exactly when there is no run.
pub pmm_alloc_contiguous_lem :
    (p : Pmm) (n : ℕ)
    → 0 < n
    → zone_low_start ≤ p.nframes
    → (found : Option ℕ) × IsFirstRun p.bitmap n zone_low_start (low_end p) found
      × Takes p n found (pmm_alloc_contiguous n p)
unfolding pmm_alloc_contiguous
pmm_alloc_contiguous_lem p n some_frames memory =
    let found = run_loop (low_end p - zone_low_start) p.bitmap n zone_low_start 0 0 in
    let first =
      run_loop-First (low_end p - zone_low_start) p.bitmap n zone_low_start zone_low_start
        (low_end p) 0 0 (ground arith)
        (record {
          short = some_frames;
          begun = omega arith;
          start = inl refl;
          free = λ j h h'. absurd (omega arith);
          edge = inl (omega arith);
          past = λ s h fits all. absurd (omega arith);
        }) in
    let request : (n == 0) ≡ false = ground arith in
    (found, first, rw request (contiguous_by p n found))
