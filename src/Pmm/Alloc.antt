-- ===== src/Pmm/Alloc.antt =====
-- The frame allocators: what they hand out, and what that changes.
use luminary.Base.{
  ℕ, ◌*◌, ◌/◌, ◌≤◌, ◌<◌, ◌≡◌, refl, subst, true, false, Option, none, some, arith, ◌==◌,
  if◌then◌else◌, inl, inr, lt→ltb,
}
use luminary.Pmm.{
  Pmm, Zone, frame_test, find_frame, low_end, take_frame, pmm_alloc_frame_zone, pmm_alloc_frame,
  pmm_free_frame, page_size, zone_low_start, max_frames,
}
use luminary.Pmm.Fit.{IsLastFree, IsAnyFit, find_low, find_any}
use luminary.Pmm.Bits.{frame_test-set, frame_test-clear}

module _ (p : Pmm) (i j : ℕ) where
  pub take_frame-test :
      frame_test (take_frame p i).bitmap j ≡ (if i == j then true else frame_test p.bitmap j)
  unfolding take_frame
  take_frame-test = frame_test-set p.bitmap i j

  pub take_frame-refcounts : (take_frame p i).refcounts j ≡ (if i == j then 1 else p.refcounts j)
  unfolding take_frame
  take_frame-refcounts = refl

pub take_frame-nframes : (p : Pmm) (i : ℕ) → (take_frame p i).nframes ≡ p.nframes
unfolding take_frame
take_frame-nframes p i = refl

-- What an allocation makes of the frame that it settled on.
abbrev pub Allocates : Pmm → Option ℕ → Option (ℕ × Pmm) → Type 0
Allocates p none r = r ≡ none
Allocates p (some i) r =
    (p' : Pmm) × (r ≡ some (i * page_size, p'))
    × ((j : ℕ) → frame_test p'.bitmap j ≡ (if i == j then true else frame_test p.bitmap j))
    × ((j : ℕ) → p'.refcounts j ≡ (if i == j then 1 else p.refcounts j))
    × (p'.nframes ≡ p.nframes)

allocates :
    (zone : Zone) (p : Pmm) (found : Option ℕ)
    → find_frame zone p ≡ found
    → Allocates p found (pmm_alloc_frame_zone zone p)
unfolding pmm_alloc_frame_zone
allocates zone p none e = rw (e, pmm_alloc_frame_zone)
allocates zone p (some i) e = (
  take_frame p i,
  rw (e, pmm_alloc_frame_zone),
  λ j. take_frame-test p i j,
  λ j. take_frame-refcounts p i j,
  take_frame-nframes p i,
)

pub pmm_alloc_frame_lem :
    (p : Pmm) → (found : Option ℕ) × IsAnyFit p found × Allocates p found (pmm_alloc_frame p)
unfolding pmm_alloc_frame
pmm_alloc_frame_lem p = (find_frame Zone.zone_any p, find_any p, allocates Zone.zone_any p _ refl)

-- `pmm_alloc_frame_zone(PMM_ZONE_LOW)`, on a machine with memory, hands out the highest free frame
-- of ZONE_LOW and panics exactly when that zone is full; nothing else changes.
pub pmm_alloc_low_lem :
    (p : Pmm)
    → 0 < p.nframes
    → p.nframes ≤ max_frames
    → (found : Option ℕ) × IsLastFree p.bitmap zone_low_start (low_end p) found
      × Allocates p found (pmm_alloc_frame_zone Zone.zone_low p)
pmm_alloc_low_lem p some_memory limit =
    (find_frame Zone.zone_low p, find_low p some_memory limit, allocates Zone.zone_low p _ refl)

pub any-lt :
    (p : Pmm) (i : ℕ) → IsAnyFit p (some i) → (i < p.nframes) × (frame_test p.bitmap i ≡ false)
any-lt p i (inl first) = (first.0.1, first.0.2)
any-lt p i (inr fallback) = (ground (arith, fallback.1), fallback.1.2)

free_taken :
    (p p' : Pmm) (i : ℕ)
    → i < p.nframes
    → frame_test p.bitmap i ≡ false
    → ((j : ℕ) → frame_test p'.bitmap j ≡ (if i == j then true else frame_test p.bitmap j))
    → ((j : ℕ) → p'.refcounts j ≡ (if i == j then 1 else p.refcounts j))
    → p'.nframes ≡ p.nframes
    → let q = pmm_free_frame p' (i * page_size) in
      ((j : ℕ) → frame_test q.bitmap j ≡ frame_test p.bitmap j)
      × ((j : ℕ) → q.refcounts j ≡ (if i * page_size / page_size == j then 0 else p.refcounts j))
unfolding pmm_free_frame
free_taken p p' i within free marked owned same_size =
    let same : i * page_size / page_size ≡ i = omega arith in
    let inside : i < p'.nframes = omega arith in
    rw same (
      rw (lt→ltb i p'.nframes inside) (
        λ j. ground (arith, frame_test-clear p'.bitmap i j, marked j),
        λ j. ground (arith, owned j),
      ))

free_found :
    (p p' : Pmm) (addr : ℕ) (found : Option ℕ)
    → IsAnyFit p found
    → Allocates p found (some (addr, p'))
    → let q = pmm_free_frame p' addr in
      ((j : ℕ) → frame_test q.bitmap j ≡ frame_test p.bitmap j)
      × ((j : ℕ) → q.refcounts j ≡ (if addr / page_size == j then 0 else p.refcounts j))
free_found p p' addr none fit made = absurd (cc)
free_found p p' addr (some i) fit (p'', result, marked, owned, same_size) =
    let (within, free) = any-lt p i fit in
    let at : addr ≡ i * page_size = cc in
    let same : p' ≡ p'' = cc in
    rw (at, same) (free_taken p p'' i within free marked owned same_size)

-- Freeing the frame just allocated gives back the bitmap as it was, frame by frame, and leaves the
-- frame without an owner.
free-alloc :
    (p p' : Pmm) (addr : ℕ)
    → pmm_alloc_frame p ≡ some (addr, p')
    → let q = pmm_free_frame p' addr in
      ((j : ℕ) → frame_test q.bitmap j ≡ frame_test p.bitmap j)
      × ((j : ℕ) → q.refcounts j ≡ (if addr / page_size == j then 0 else p.refcounts j))
free-alloc p p' addr e =
    let (found, fit, made) = pmm_alloc_frame_lem p in
    free_found p p' addr found fit (subst (Allocates p found) e made)
