-- ===== src/Pmm/Tests.antt =====
-- The frame allocator at concrete memories.
use luminary.Base.{
  ℕ, ◌+◌, ◌*◌, ◌^◌, ◌≤◌, ◌/◌, ◌≡◌, ◌<◌, true, false, not, ◌||◌, Option, some, [], ◌∷◌, arith, ◌==◌,
  if◌then◌else◌,
}
use luminary.Pmm.{Pmm, frame_test, pmm_alloc_contiguous, low_end, zone_low_start, max_frames}
use luminary.Pmm.Contiguous.{IsFirstRun, Takes, pmm_alloc_contiguous_lem}
use luminary.Pmm.Boot.{MultibootInfo, init_pmm, entries}
use luminary.Pmm.Boot.Init.{init_pmm_lem, reserved, in_ram, RamFits, ModsFit}

-- 5000 frames; the words of an even number are full.
abbrev memory : Pmm
memory = record {
  bitmap = λ w bit. if w == w / 2 + w / 2 then true else false;
  nframes = 5000;
  refcounts = λ i. 1;
}

pmm_alloc_contiguous_lem_example :
    (found : Option ℕ) × IsFirstRun memory.bitmap 40 zone_low_start (low_end memory) found
    × Takes memory 40 found (pmm_alloc_contiguous 40 memory)
pmm_alloc_contiguous_lem_example = pmm_alloc_contiguous_lem memory 40 (omega arith) (omega arith)

-- The first free frame above 16 MB stands in word 129.
abbrev addr : ℕ
addr = 4128 * 4096

-- 64 MB of RAM from 1 MB on, with a module at 8 MB and the kernel below 2 MB.
abbrev boot_info : MultibootInfo
boot_info = record {
  mem_upper = 0;
  mmap =
      some
        (record { base_addr_low = 2 ^ 20; base_addr_high = 0; length_low = 2 ^ 26; kind = 1 } ∷ []);
  mods = some (record { mod_start = 2 ^ 23; mod_end = 2 ^ 23 + 100 } ∷ []);
}

boot_ram : RamFits (entries boot_info.mmap)
unfolding RamFits
boot_ram = (λ ram. (omega arith, omega arith), tt)

boot_mods : ModsFit (entries boot_info.mods)
unfolding ModsFit
boot_mods = (omega arith, tt)

init_pmm_lem_example :
    let q = init_pmm boot_info (2 ^ 21) memory in
    (q.nframes ≤ max_frames)
    × ((j : ℕ)
        → j < q.nframes
        → frame_test q.bitmap j
          ≡ (reserved boot_info (2 ^ 21) j || not (in_ram (entries boot_info.mmap) j)))
init_pmm_lem_example = init_pmm_lem boot_info (2 ^ 21) memory boot_ram boot_mods (omega arith)
