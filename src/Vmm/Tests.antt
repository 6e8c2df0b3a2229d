-- ===== src/Vmm/Tests.antt =====
-- The virtual memory manager at concrete memories.
use luminary.Base.{
  ◌≤◌, ℕ, ◌+◌, ◌*◌, ◌/◌, ◌<◌, ◌≡◌, ◌≢◌, ◌⊎◌, inr, refl, true, false, none, some, List, [], ◌∷◌,
  ◌++◌, length, ltb, ◌==◌, if◌then◌else◌, arith,
}
use luminary.Pmm.{Pmm, page_size, frame_test, pmm_refcount_get}
use luminary.Pmm.Fit.{IsAnyFit}
use luminary.Pmm.Room.{free_low, free_frames}
use luminary.Vmm.{
  Memory, Vmm, frame_of, is_cow, is_present, is_user, is_write, own_table, pd_index, set_word,
  vmm_map_page_in, vmm_unmap_page_in, walk,
}
use luminary.Vmm.Ranges.{VirtRange, Kvirt, take_range, give_range, kvirt_fl_max}
use luminary.Vmm.Ranges.Cover.{contains, cover, IsApart}
use luminary.Vmm.Ranges.Safety.{IsValid, take_range-IsValid, give_range-IsValid}
use luminary.Vmm.Table.{HasMemory, IsFull}
use luminary.Vmm.Paging.{IsSpace, page_word}
use luminary.Vmm.Rights.{Grants}
use luminary.Vmm.Spaces.{vmm_map_page_in_lem}
use luminary.Vmm.Isolation.{Shares, vmm_map_page_in-other}
use luminary.Vmm.Unmap.{vmm_unmap_page_in_lem}
use luminary.Vmm.Clone.{shared_word, vmm_clone_page_dir}
use luminary.Vmm.Clone.Entries.{shares}
use luminary.Vmm.Clone.Share.{vmm_clone_page_dir_lem}
use luminary.Vmm.Cow.{Kmap, vmm_cow_fault}
use luminary.Vmm.Cow.Fault.{CanCopy, Copies, vmm_cow_fault_lem}

-- The kernel's directory is frame 2, a task's frame 3. They share table 4; the task has table 6
-- for its pages and each has a table for the window of temporary mappings.
abbrev kernel_entries : ℕ → ℕ
kernel_entries i = if i == 0 then 16387 else if i == 831 then 20483 else 0

abbrev task_entries : ℕ → ℕ
task_entries i = if i == 0 then 16387 else if i == 4 then 24583 else if i == 831 then 28675 else 0

-- Page 5 of the task's table is frame 300, shared and copied on a write.
abbrev page : ℕ
page = 300 * 4096 + 517

abbrev memory : Memory
memory f i =
    if f == 2
    then kernel_entries i
    else if f == 3
    then task_entries i
    else if f == 6
    then (if i == 5 then page else 0)
    else 0

abbrev page_directory : ℕ
page_directory = 2 * 4096

abbrev task_dir : ℕ
task_dir = 3 * 4096

abbrev virt : ℕ
virt = 4 * 4194304 + 5 * 4096

-- 5000 frames, of which the first 512 are in use.
abbrev frames : Pmm
frames = record { bitmap = λ w bit. ltb w 16; nframes = 5000; refcounts = λ i. 2 }

abbrev machine : Vmm
machine = record { pmm = frames; mem = memory }

frames-HasMemory : HasMemory frames
frames-HasMemory = record { some_frames = omega arith; limit = omega arith }

task-IsSpace : IsSpace machine 3
unfolding frame_test
task-IsSpace = record {
  used = refl;
  tables = λ i there. ground arith;
  apart = λ i j there there' same. ground arith;
}

kernel-IsSpace : IsSpace machine 2
unfolding frame_test
kernel-IsSpace = record {
  used = refl;
  tables = λ i there. ground arith;
  apart = λ i j there there' same. ground arith;
}

task-Shares : Shares page_directory memory 3 2
task-Shares = record {
  apart = λ e. ground (arith, e);
  not_dir = λ j there e. ground arith;
  not_table = λ i there e. ground arith;
  kernel = λ i j there there' same. ground arith;
}

vmm_map_page_in_lem_example :
    ((vmm_map_page_in page_directory task_dir (virt + 4096) 1228800 7 machine ≡ none)
      × IsFull frames)
    ⊎ ((s' : Vmm) × (vmm_map_page_in page_directory task_dir (virt + 4096) 1228800 7 machine
          ≡ some s')
        × (walk s'.mem 3 (virt + 4096) ≡ some (page_word 1228800 7))
        × Grants 7 (memory 3 (pd_index (virt + 4096))) (s'.mem 3 (pd_index (virt + 4096)))
        × ((v : ℕ) → v / page_size ≢ (virt + 4096) / page_size → walk s'.mem 3 v ≡ walk memory 3 v)
        × IsSpace s' 3)
vmm_map_page_in_lem_example =
    vmm_map_page_in_lem page_directory task_dir (virt + 4096) 1228800 7 machine frames-HasMemory
      task-IsSpace refl

vmm_unmap_page_in_lem_example :
    (walk (vmm_unmap_page_in page_directory task_dir virt machine).mem 3 virt ≡ none)
    × ((v : ℕ)
        → v / page_size ≢ virt / page_size
        → walk (vmm_unmap_page_in page_directory task_dir virt machine).mem 3 v ≡ walk memory 3 v)
    × IsSpace (vmm_unmap_page_in page_directory task_dir virt machine) 3
vmm_unmap_page_in_lem_example =
    vmm_unmap_page_in_lem page_directory task_dir virt machine task-IsSpace

-- The task maps page 6 in a table that it has.
abbrev after : Vmm
after = record { pmm = frames; mem = set_word memory 6 6 1228807 }

vmm_map_page_in-other_example : walk after.mem 2 (virt + 4096) ≡ walk memory 2 (virt + 4096)
unfolding vmm_map_page_in own_table
vmm_map_page_in-other_example =
    vmm_map_page_in-other page_directory task_dir 2 (virt + 4096) 1228800 7 machine after
      frames-HasMemory task-IsSpace kernel-IsSpace task-Shares (λ e. ground (arith, e)) refl
      (virt + 4096)

-- The machine at rest.
abbrev at_rest : Kmap
at_rest = record { vmm = machine; kmap_used = λ i. false }

page-CanCopy : CanCopy page_directory 3 300 7 at_rest
unfolding frame_test
page-CanCopy = record {
  space = task-IsSpace;
  window = record {
    present = refl;
    entry = refl;
    not_dir = λ e. ground (arith, e);
    not_kernel = λ e. ground (arith, e);
    own = inr (λ e. ground (arith, e));
  };
  kernel_used = refl;
  data_frame = record {
    used = refl;
    not_dir = λ e. ground (arith, e);
    not_table = λ i there e. ground arith;
  };
  first_free = refl;
  second_free = refl;
}

vmm_cow_fault_lem_example :
    ((vmm_cow_fault page_directory task_dir task_dir virt at_rest ≡ none) × IsAnyFit frames none)
    ⊎ ((new : ℕ) × (word : ℕ) × (s' : Kmap) × (vmm_cow_fault page_directory task_dir task_dir virt
            at_rest
          ≡ some (true, s'))
        × Copies 3 virt page new word at_rest s')
unfolding walk pmm_refcount_get
vmm_cow_fault_lem_example =
    vmm_cow_fault_lem page_directory task_dir virt page 7 at_rest page-CanCopy refl refl
      (λ e. ground (arith, e)) (omega arith)

-- One range in use, one free, and one in use behind it.
abbrev in_use : VirtRange
in_use = record { base = 0xC0000000; npages = 4 }

abbrev last_used : VirtRange
last_used = record { base = 0xC0008000; npages = 2 }

abbrev ranges : Kvirt
ranges = record {
  kvirt_next = 0xC000A000;
  kvirt_free = record { base = 0xC0004000; npages = 4 } ∷ [];
}

ranges-IsValid : IsValid ranges (in_use ∷ last_used ∷ [])
ranges-IsValid = record {
  inside = (omega arith, tt);
  few = omega arith;
  once = λ a. ground arith;
  below = λ a from. ground arith;
}

take_range-IsValid_example :
    let (base, k') = take_range 3 ranges in
    IsValid k' (record { base = base; npages = 3 } ∷ in_use ∷ last_used ∷ [])
take_range-IsValid_example =
    take_range-IsValid ranges (in_use ∷ last_used ∷ []) 3 (omega arith) ranges-IsValid (omega arith)

give_range-IsValid_example :
    let k' = give_range in_use ranges in
    IsValid k' (last_used ∷ [])
    × (length ranges.kvirt_free < kvirt_fl_max
        → ((a : ℕ) → cover k'.kvirt_free a ≡ cover ranges.kvirt_free a + contains in_use a)
          × ((new : VirtRange) × (rest : List VirtRange) × (k'.kvirt_free ≡ rest ++ (new ∷ []))
              × ((a : ℕ) → contains in_use a ≤ contains new a)
              × IsApart new rest))
give_range-IsValid_example =
    give_range-IsValid ranges (last_used ∷ []) in_use ranges-IsValid (omega arith)

-- 1280 frames, of which the first 512 are in use.
abbrev small_frames : Pmm
small_frames = record { bitmap = λ w bit. ltb w 16; nframes = 1280; refcounts = λ i. 2 }

abbrev small_machine : Vmm
small_machine = record { pmm = small_frames; mem = memory }

small-IsSpace : IsSpace small_machine 3
unfolding frame_test
small-IsSpace = record {
  used = refl;
  tables = λ i there. ground arith;
  apart = λ i j there there' same. ground arith;
}

enough_room : free_low small_frames ≡ 768
unfolding free_frames frame_test
enough_room = refl

vmm_clone_page_dir_lem_example :
    (new_dir_phys : ℕ) × (s' : Vmm) × (vmm_clone_page_dir page_directory task_dir small_machine
      ≡ some (new_dir_phys, s'))
    × (frame_test small_frames.bitmap (frame_of new_dir_phys) ≡ false)
    × ((i : ℕ) → (i < 4) ⊎ (768 ≤ i) → s'.mem (frame_of new_dir_phys) i ≡ memory 2 i)
    × ((v : ℕ)
        → 0x01000000 ≤ v
        → v < 0xC0000000
        → is_present (memory 3 (pd_index v)) ≡ true
        → is_user (memory 3 (pd_index v)) ≡ true
        → (walk s'.mem (frame_of new_dir_phys) v ≡ shares (walk memory 3 v))
          × (walk s'.mem 3 v ≡ shares (walk memory 3 v)))
    × ((f : ℕ)
        → frame_test small_frames.bitmap f ≡ true
        → ((i : ℕ) → is_present (memory 3 i) ≡ true → f ≢ frame_of (memory 3 i))
        → s'.mem f ≡ memory f)
    × ((p : ℕ)
        → (frame_of (shared_word p) ≡ frame_of p)
          × (is_present (shared_word p) ≡ is_present p)
          × (is_write (shared_word p) ≡ false)
          × (is_cow (shared_word p) ≡ (if is_write p then true else is_cow p)))
vmm_clone_page_dir_lem_example =
    vmm_clone_page_dir_lem page_directory task_dir small_machine
      (record { some_frames = omega arith; limit = omega arith }) small-IsSpace
      (omega (arith, enough_room))
