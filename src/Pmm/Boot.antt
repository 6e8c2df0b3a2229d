-- ===== src/Pmm/Boot.antt =====
-- `init_pmm` of src/kernel/pmm.c. What the boot loader leaves in memory is an argument: the memory
-- map and the module table as lists (`none` where their bit of `flags` is clear). The words of an
-- entry are 32 bits wide, and the sums wrap as they do in the source. `printk` is left out.
pub mod Init
use luminary.Base.{
  ℕ, zero, suc, ◌+◌, ◌-◌, ◌*◌, ◌/◌, ◌%◌, ◌^◌, Bool, true, false, ◌&&◌, Option, none, some, List, [],
  ◌∷◌, ltb, ◌==◌, if◌then◌else◌,
}
use luminary.Pmm.{Pmm, Bitmap, frame_set, frame_clear, page_size, max_frames, u32}

-- `struct multiboot_memory_map`
pub record MemoryMap : Type 0 where
  pub base_addr_low : ℕ
  pub base_addr_high : ℕ
  pub length_low : ℕ
  pub kind : ℕ

-- `struct multiboot_mod_entry`
pub record ModEntry : Type 0 where
  pub mod_start : ℕ
  pub mod_end : ℕ

pub record MultibootInfo : Type 0 where
  pub mem_upper : ℕ
  pub mmap : Option (List MemoryMap)
  pub mods : Option (List ModEntry)

abbrev pub entries {ℓ} : {A : Type ℓ} → Option (List A) → List A
entries none = []
entries (some xs) = xs

-- `mmap->type == MEMORY_TYPE_RAM && mmap->base_addr_high == 0`
abbrev pub is_ram : MemoryMap → Bool
is_ram m = m.kind == 1 && m.base_addr_high == 0

-- The first walk over the map: the highest end of a RAM region.
pub highest_ram : ℕ → List MemoryMap → ℕ
highest_ram highest [] = highest
highest_ram highest (m ∷ rest) =
    let top = (m.base_addr_low + m.length_low) % u32 in
    highest_ram (if is_ram m && ltb highest top then top else highest) rest

-- `for (i = from; i < to && i < nframes; i++)`: how many rounds there are.
abbrev pub rounds : (from to nframes : ℕ) → ℕ
rounds from to nframes = (if ltb to nframes then to else nframes) - from

pub clear_range : ℕ → Bitmap → ℕ → Bitmap
clear_range zero b i = b
clear_range (suc n) b i = clear_range n (frame_clear b i) (i + 1)

pub set_range : ℕ → Bitmap → ℕ → Bitmap
set_range zero b i = b
set_range (suc n) b i = set_range n (frame_set b i) (i + 1)

-- The whole frames of a region.
abbrev pub frame_start : MemoryMap → ℕ
frame_start m = (m.base_addr_low + page_size - 1) % u32 / page_size

abbrev pub frame_end : MemoryMap → ℕ
frame_end m = (m.base_addr_low + m.length_low) % u32 / page_size

-- The second walk: free the frames of the RAM regions.
pub free_ram : ℕ → Bitmap → List MemoryMap → Bitmap
free_ram nframes b [] = b
free_ram nframes b (m ∷ rest) =
    let freed = clear_range (rounds (frame_start m) (frame_end m) nframes) b (frame_start m) in
    free_ram nframes (if is_ram m then freed else b) rest

abbrev pub mod_first : ModEntry → ℕ
mod_first m = m.mod_start / page_size

abbrev pub mod_last : ModEntry → ℕ
mod_last m = (m.mod_end + page_size - 1) % u32 / page_size

pub reserve_mods : ℕ → Bitmap → List ModEntry → Bitmap
reserve_mods nframes b [] = b
reserve_mods nframes b (m ∷ rest) =
    reserve_mods nframes (set_range (rounds (mod_first m) (mod_last m) nframes) b (mod_first m))
      rest

abbrev pub low_frames : ℕ
low_frames = 256

abbrev pub reserved_frames : ℕ → ℕ
reserved_frames reserved_top = (reserved_top + page_size - 1) % u32 / page_size

-- The highest usable address, with the fallback to `mem_upper`.
pub memory_top : MultibootInfo → ℕ
unfolding highest_ram
memory_top mb =
    let highest = highest_ram 0 (entries mb.mmap) in
    if highest == 0 then (mb.mem_upper + 1024) % u32 * 1024 % u32 else highest

-- The steps that build the bitmap, in order.
pub boot_bitmap : ℕ → MultibootInfo → (reserved_top : ℕ) → Bitmap
unfolding free_ram set_range reserve_mods
boot_bitmap nframes mb reserved_top =
    let freed = free_ram nframes (λ w bit. true) (entries mb.mmap) in
    let low = set_range (rounds 0 low_frames nframes) freed 0 in
    let kernel =
      if reserved_top == 0
      then low
      else set_range (rounds low_frames (reserved_frames reserved_top) nframes) low low_frames in
    reserve_mods nframes kernel (entries mb.mods)

pub init_pmm : MultibootInfo → (reserved_top : ℕ) → Pmm → Pmm
unfolding memory_top boot_bitmap
init_pmm mb reserved_top p =
    let frames = memory_top mb / page_size in
    let nframes = if ltb max_frames frames then max_frames else frames in
    record p { nframes = nframes; bitmap = boot_bitmap nframes mb reserved_top }
