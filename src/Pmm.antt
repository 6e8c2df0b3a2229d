-- ===== src/Pmm.antt =====
-- The physical memory manager, src/kernel/pmm.c: a bitmap of 4 KB frames, in 32-bit words, with a
-- reference count for each frame. A word is the function of its 32 bits. The static arrays have
-- 2^20 frames; `nframes` is at most that after `init_pmm`, so no address computed here wraps.
pub mod Bits
pub mod Fit
pub mod Alloc
pub mod Contiguous
pub mod Boot
pub mod Refcount
pub mod Room
mod Tests
use luminary.Base.{
  ℕ, zero, suc, ◌+◌, ◌-◌, ◌*◌, ◌/◌, ◌%◌, ◌^◌, Bool, true, false, not, ◌&&◌, Option, none, some,
  List, [], ◌∷◌, leb, ltb, ◌==◌, if◌then◌else◌, update,
}

abbrev pub page_size : ℕ
page_size = 4096

abbrev pub max_frames : ℕ
max_frames = 1024 * 1024

abbrev pub zone_low_start : ℕ
zone_low_start = 256

abbrev pub zone_low_end : ℕ
zone_low_end = 4096

abbrev pub zone_any_start : ℕ
zone_any_start = 4096

abbrev pub u32 : ℕ
u32 = 2 ^ 32

abbrev pub Bitmap : Type 0
Bitmap = ℕ → ℕ → Bool

pub record Pmm : Type 0 where
  pub bitmap : Bitmap
  pub nframes : ℕ
  pub refcounts : ℕ → ℕ

pub frame_set : Bitmap → ℕ → Bitmap
frame_set bitmap index = update bitmap (index / 32) (update (bitmap (index / 32)) (index % 32) true)

pub frame_clear : Bitmap → ℕ → Bitmap
frame_clear bitmap index =
    update bitmap (index / 32) (update (bitmap (index / 32)) (index % 32) false)

unfoldable pub frame_test : Bitmap → ℕ → Bool
frame_test bitmap index = bitmap (index / 32) (index % 32)

pub ones : ℕ → (ℕ → Bool) → Bool
ones zero word = true
ones (suc n) word = word n && ones n word

-- `bitmap[w] == 0xFFFFFFFF`
pub word_full : Bitmap → ℕ → Bool
unfolding ones
word_full bitmap w = ones 32 (bitmap w)

pub pmm_total_frames : Pmm → ℕ
pmm_total_frames p = p.nframes

pub pmm_mark_used : Pmm → ℕ → Pmm
pmm_mark_used p addr =
    let index = addr / page_size in
    if ltb index p.nframes then record p { bitmap = frame_set p.bitmap index } else p

pub pmm_free_frame : Pmm → ℕ → Pmm
pmm_free_frame p addr =
    let index = addr / page_size in
    if ltb index p.nframes
    then record p { bitmap = frame_clear p.bitmap index; refcounts = update p.refcounts index 0 }
    else p

-- Mark a frame used with one owner.
unfoldable pub take_frame : Pmm → ℕ → Pmm
take_frame p i = record p { bitmap = frame_set p.bitmap i; refcounts = update p.refcounts i 1 }

-- The downward loop over ZONE_LOW: from `i` to `start`, which ends it before `i` wraps.
unfoldable pub low_loop : ℕ → Bitmap → (start i : ℕ) → Option ℕ
low_loop zero bitmap start i = none
low_loop (suc fuel) bitmap start i =
    let lower = low_loop fuel bitmap start (i - 1) in
    if leb start i
    then (if not (frame_test bitmap i) then some i else if i == start then none else lower)
    else none

-- The upward loop of ZONE_ANY, which steps over a full word at once.
pub any_loop : ℕ → Bitmap → (i end : ℕ) → Option ℕ
any_loop zero bitmap i end = none
any_loop (suc fuel) bitmap i end =
    let skip = any_loop fuel bitmap ((i / 32 + 1) * 32) end in
    let next = any_loop fuel bitmap (i + 1) end in
    if ltb i end
    then (if word_full bitmap (i / 32)
        then skip
        else if not (frame_test bitmap i)
        then some i
        else next)
    else none

-- The upward loop of the fallback, frame by frame, over the `n` frames from `i` on.
pub fit_loop : ℕ → Bitmap → (i : ℕ) → Option ℕ
fit_loop zero bitmap i = none
fit_loop (suc n) bitmap i =
    let next = fit_loop n bitmap (i + 1) in if not (frame_test bitmap i) then some i else next

-- `ZONE_LOW_END` or the end of memory, whichever is first.
abbrev pub low_end : Pmm → ℕ
low_end p = if ltb zone_low_end p.nframes then zone_low_end else p.nframes

pub data Zone : Type 0 where
  zone_low zone_any : Zone

-- The frame that each branch of `pmm_alloc_frame_zone` settles on. `end - 1` wraps at no memory.
unfoldable pub find_frame : Zone → Pmm → Option ℕ
unfolding low_loop any_loop fit_loop
find_frame Zone.zone_low p =
    low_loop zone_low_end p.bitmap zone_low_start ((low_end p + u32 - 1) % u32)
find_frame Zone.zone_any p = elim (any_loop p.nframes p.bitmap zone_any_start p.nframes) [
  | some i ↦ some i
  | none ↦ fit_loop (low_end p - zone_low_start) p.bitmap zone_low_start
]

-- `none` is the panic "out of frames".
unfoldable pub pmm_alloc_frame_zone : Zone → Pmm → Option (ℕ × Pmm)
unfolding find_frame take_frame
pmm_alloc_frame_zone zone p = elim (find_frame zone p) [
  | some i ↦ some (i * page_size, take_frame p i)
  | none ↦ none
]

pub pmm_alloc_frame : Pmm → Option (ℕ × Pmm)
unfolding pmm_alloc_frame_zone
pmm_alloc_frame = pmm_alloc_frame_zone Zone.zone_any

-- The search of `pmm_alloc_contiguous` over the frames that are left from `i` on.
pub run_loop : (left : ℕ) → Bitmap → (n i run_start run_len : ℕ) → Option ℕ
run_loop zero bitmap n i run_start run_len = none
run_loop (suc left) bitmap n i run_start run_len =
    let start = if run_len == 0 then i else run_start in
    let longer = run_loop left bitmap n (i + 1) start (run_len + 1) in
    let broken = run_loop left bitmap n (i + 1) run_start 0 in
    if not (frame_test bitmap i) then (if run_len + 1 == n then some start else longer) else broken

-- The loop that marks the run, over the `n` frames from `j` on.
pub take_run : ℕ → Pmm → ℕ → Pmm
take_run zero p j = p
take_run (suc n) p j = take_run n (take_frame p j) (j + 1)

-- Address 0 is the failure.
pub pmm_alloc_contiguous : ℕ → Pmm → ℕ × Pmm
unfolding run_loop take_run take_frame
pmm_alloc_contiguous n p =
    if n == 0
    then (0, p)
    else elim (run_loop (low_end p - zone_low_start) p.bitmap n zone_low_start 0 0) [
      | some start ↦ (start * page_size, take_run n p start)
      | none ↦ (0, p)
    ]

pub pmm_refcount_inc : Pmm → ℕ → Pmm
pmm_refcount_inc p addr =
    let i = addr / page_size in
    if ltb i p.nframes && ltb (p.refcounts i) 0xffff
    then record p { refcounts = update p.refcounts i (p.refcounts i + 1) }
    else p

unfoldable pub pmm_refcount_get : Pmm → ℕ → ℕ
pmm_refcount_get p addr = let i = addr / page_size in if ltb i p.nframes then p.refcounts i else 0

pub pmm_refcount_dec : Pmm → ℕ → ℕ × Pmm
unfolding pmm_refcount_get
pmm_refcount_dec p addr =
    let i = addr / page_size in
    let p' =
      if ltb i p.nframes && ltb 0 (p.refcounts i)
      then record p { refcounts = update p.refcounts i (p.refcounts i - 1) }
      else p in
    (pmm_refcount_get p' addr, p')
