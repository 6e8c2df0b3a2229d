-- ===== src/Pmm/Boot/Init.antt =====
-- Which frames are free after `init_pmm`.
use luminary.Base.{
  ℕ, zero, suc, ◌+◌, ◌-◌, ◌*◌, ◌/◌, ◌%◌, ◌^◌, ◌≤◌, ◌<◌, ◌≡◌, refl, Bool, true, false, not, ◌&&◌,
  ◌||◌, List, [], ◌∷◌, arith, leb, ltb, ◌==◌, if◌then◌else◌, Bool-cases, inl, inr,
}
use luminary.Pmm.{Pmm, Bitmap, frame_test, frame_set, frame_clear, max_frames, page_size, u32}
use luminary.Pmm.Bits.{frame_test-set, frame_test-clear}
use luminary.Pmm.Boot.{
  MemoryMap, ModEntry, MultibootInfo, entries, is_ram, rounds, clear_range, set_range, frame_start,
  frame_end, free_ram, mod_first, mod_last, reserve_mods, low_frames, reserved_frames, boot_bitmap,
  init_pmm,
}

abbrev pub between : (lo hi j : ℕ) → Bool
between lo hi j = leb lo j && ltb j hi

-- Every byte of a frame lies in one RAM region below 4 GiB.
pub in_ram : List MemoryMap → (frame : ℕ) → Bool
in_ram [] j = false
in_ram (m ∷ rest) j =
    m.kind == 1
      && m.base_addr_high == 0
      && leb m.base_addr_low (j * 4096)
      && leb (j * 4096 + 4096) (m.base_addr_low + m.length_low)
    || in_ram rest j

-- Some byte of a frame belongs to a boot module, of the bytes from `mod_start` to before `mod_end`.
pub in_mods : List ModEntry → (frame : ℕ) → Bool
in_mods [] j = false
in_mods (m ∷ rest) j =
    ltb m.mod_start (j * 4096 + 4096) && ltb (j * 4096) m.mod_end || in_mods rest j

-- A frame that must stay reserved: of the first megabyte, with a byte below `reserved_top`, or of a module.
pub reserved : MultibootInfo → (reserved_top frame : ℕ) → Bool
reserved mb reserved_top j =
    ltb (j * 4096) 0x100000 || ltb (j * 4096) reserved_top || in_mods (entries mb.mods) j

-- The RAM regions end before 4 GiB, and start before the last frame of the address space.
unfoldable pub RamFits : List MemoryMap → Type 0
RamFits [] = Unit
RamFits (m ∷ rest) =
    (is_ram m ≡ true
      → (m.base_addr_low + 4095 < 2 ^ 32) × (m.base_addr_low + m.length_low < 2 ^ 32))
    × RamFits rest

-- The modules end before the last frame of the address space.
unfoldable pub ModsFit : List ModEntry → Type 0
ModsFit [] = Unit
ModsFit (m ∷ rest) = (m.mod_end + 4095 < 2 ^ 32) × ModsFit rest

-- The rounding of the source, against bytes.
between-bytes :
    (j first last : ℕ)
    → last + 4095 < u32
    → between (first / 4096) ((last + page_size - 1) % u32 / page_size) j
      ≡ (ltb first (j * 4096 + 4096) && ltb (j * 4096) last)
between-bytes j first last fits = ground (arith, fits)

ram-bytes :
    (j : ℕ) (m : MemoryMap)
    → m.base_addr_low + 4095 < u32
    → m.base_addr_low + m.length_low < u32
    → between (frame_start m) (frame_end m) j
      ≡ (leb m.base_addr_low (j * 4096) && leb (j * 4096 + 4096) (m.base_addr_low + m.length_low))
ram-bytes j m low high = ground (arith, low, high)

set_range-test :
    (n : ℕ) (b : Bitmap) (i j : ℕ)
    → frame_test (set_range n b i) j ≡ (between i (i + n) j || frame_test b j)
unfolding set_range
set_range-test zero b i j = ground arith
set_range-test (suc n) b i j =
    ground (arith, set_range-test n (frame_set b i) (i + 1) j, frame_test-set b i j)

clear_range-test :
    (n : ℕ) (b : Bitmap) (i j : ℕ)
    → frame_test (clear_range n b i) j ≡ (not (between i (i + n) j) && frame_test b j)
unfolding clear_range
clear_range-test zero b i j = ground arith
clear_range-test (suc n) b i j =
    ground (arith, clear_range-test n (frame_clear b i) (i + 1) j, frame_test-clear b i j)

free_ram-test :
    (nframes : ℕ) (b : Bitmap) (ms : List MemoryMap) (j : ℕ)
    → j < nframes
    → RamFits ms
    → frame_test (free_ram nframes b ms) j ≡ (not (in_ram ms j) && frame_test b j)
unfolding free_ram in_ram RamFits
free_ram-test nframes b [] j within fits = refl
free_ram-test nframes b (m ∷ rest) j within (fits_m, fits) =
    let freed = clear_range (rounds (frame_start m) (frame_end m) nframes) b (frame_start m) in
    elim (Bool-cases (is_ram m)) [
      | inl ram ↦
          let (low, high) = fits_m ram in
          ground (
            arith,
            ram,
            free_ram-test nframes (if is_ram m then freed else b) rest j within fits,
            clear_range-test (rounds (frame_start m) (frame_end m) nframes) b (frame_start m) j,
            ram-bytes j m low high,
          )
      | inr other ↦
          ground
            (arith, other, free_ram-test nframes (if is_ram m then freed else b) rest j within fits)
    ]

reserve_mods-test :
    (nframes : ℕ) (b : Bitmap) (ms : List ModEntry) (j : ℕ)
    → j < nframes
    → ModsFit ms
    → frame_test (reserve_mods nframes b ms) j ≡ (in_mods ms j || frame_test b j)
unfolding reserve_mods in_mods ModsFit
reserve_mods-test nframes b [] j within fits = refl
reserve_mods-test nframes b (m ∷ rest) j within (fits_m, fits) = ground (
  arith,
  reserve_mods-test nframes (set_range (rounds (mod_first m) (mod_last m) nframes) b (mod_first m))
      rest j within fits,
  between-bytes j m.mod_start m.mod_end fits_m,
  set_range-test (rounds (mod_first m) (mod_last m) nframes) b (mod_first m) j,
)

all_used : (j : ℕ) → frame_test (λ w bit. true) j ≡ true
unfolding frame_test
all_used j = refl

module _ (nframes : ℕ) (mb : MultibootInfo) (reserved_top j : ℕ) (within : j < nframes)
    (ram_fits : RamFits (entries mb.mmap)) (mods_fit : ModsFit (entries mb.mods))
    (top_fits : reserved_top + 4095 < 2 ^ 32) where
  after_ram :
      frame_test (free_ram nframes (λ w bit. true) (entries mb.mmap)) j
      ≡ not (in_ram (entries mb.mmap) j)
  after_ram =
      ground (
        arith,
        free_ram-test nframes (λ w bit. true) (entries mb.mmap) j within ram_fits,
        all_used j,
      )

  -- One of the ranges that the boot code reserves.
  after_range :
      (b : Bitmap) (from to : ℕ)
      → frame_test (set_range (rounds from to nframes) b from) j
        ≡ (between from to j || frame_test b j)
  after_range b from to = ground (arith, set_range-test (rounds from to nframes) b from j)

  low-bytes : between 0 low_frames j ≡ ltb (j * 4096) 0x100000
  low-bytes = ground arith

  kernel-bytes :
      (reserved_top == 0) ≡ false
      → (between low_frames (reserved_frames reserved_top) j || between 0 low_frames j)
        ≡ (ltb (j * 4096) 0x100000 || ltb (j * 4096) reserved_top)
  kernel-bytes kernel = ground (arith, top_fits, kernel)

  boot_bitmap-test :
      frame_test (boot_bitmap nframes mb reserved_top) j
      ≡ (reserved mb reserved_top j || not (in_ram (entries mb.mmap) j))
  unfolding boot_bitmap reserved
  boot_bitmap-test = elim (Bool-cases (reserved_top == 0)) [
    | inl no_kernel ↦ rw no_kernel (
        rw
          (
            reserve_mods-test nframes _ (entries mb.mods) j within mods_fit,
            after_range _ 0 low_frames,
            after_ram,
          )
          (ground (arith, low-bytes, no_kernel)))
    | inr kernel ↦ rw kernel (
        rw
          (
            reserve_mods-test nframes _ (entries mb.mods) j within mods_fit,
            after_range _ low_frames (reserved_frames reserved_top),
            after_range _ 0 low_frames,
            after_ram,
          )
          (ground (arith, kernel-bytes kernel)))
  ]

-- After `init_pmm` a managed frame is free exactly when each of its bytes lies in one RAM region of
-- the memory map, it lies past the first megabyte and no byte of it is below `reserved_top` or in a
-- boot module. There are at most 2^20 managed frames. The RAM regions end before 4 GiB, and they
-- start and the modules and the reserved memory end a frame before that.
pub init_pmm_lem :
    (mb : MultibootInfo) (reserved_top : ℕ) (p : Pmm)
    → RamFits (entries mb.mmap)
    → ModsFit (entries mb.mods)
    → reserved_top + 4095 < 2 ^ 32
    → let q = init_pmm mb reserved_top p in
      (q.nframes ≤ max_frames)
      × ((j : ℕ)
          → j < q.nframes
          → frame_test q.bitmap j
            ≡ (reserved mb reserved_top j || not (in_ram (entries mb.mmap) j)))
unfolding init_pmm
init_pmm_lem mb reserved_top p ram_fits mods_fit top_fits = (
  ground arith,
  λ j within. boot_bitmap-test _ mb reserved_top j within ram_fits mods_fit top_fits,
)
