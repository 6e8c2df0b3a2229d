-- ===== src/Lib.antt =====
-- Luminary, a small IA-32 operating system in C: the parts of its kernel that are algorithms over
-- state of their own, as definitions that run, with the theorems that make them correct.
--
-- Paths are those of the repository. A module of this library models one C file, its functions keep
-- the source's names, and its children prove what their names say.
--   Keyboard  src/drivers/keyboard.c    scancode state machine and character ring
--   Mouse     src/drivers/mouse.c       packet assembly, cursor and event ring
--   Sched     src/kernel/sched.c        priority scheduler; the queue insertion of src/kernel/task.c
--   Pmm       src/kernel/pmm.c          bitmap allocator of physical frames, its boot in Pmm/Boot
--   Vmm       src/kernel/vmm.c          page tables, kernel ranges in Vmm/Ranges, copy-on-write in Vmm/Cow,
--                                       clone and destroy in Vmm/Clone, page runs and boot in Vmm/Pages
--   Heap      src/kernel/heap.c         slab allocator; kfree in Heap/Free
--   Env       src/kernel/env_dev.c      the environment table and its requests
--   Vfs       src/kernel/vfs.c          paths, files, tree, mounts; src/kernel/tmpfs.c in Vfs/Tmpfs
--   Ext2      src/fs/ext2.c             block map of an inode, its cache, reads; allocation in Ext2/Alloc,
--                                       directory blocks in Ext2/Dir, directories, create, mkdir and
--                                       unlink in Ext2/Disk
--   Pipe      src/kernel/pipe.c         pipe rings, blocking reads and writes; the slots in Pipe/Table
--   Base                                shared helpers: lists, arrays, rings, integers
--
-- How the state corresponds: a struct or a group of statics is a record; an array is a function of
-- the index or a list; a pointer to a task is its pid; `uint32_t` arithmetic that can wrap has its
-- `% 2 ^ 32` written out, and `int` values that can be negative are integers. A function that
-- changes state returns the new state. A panic is a value (`none`, or `panic`). Port reads, the
-- boot loader's tables and interrupts are arguments.
--
-- Bounds and fuel: `sched` has fuel for two rounds of `goto pick`, and Sched.Liveness proves that it
-- does not run out; the upward frame search has `nframes` rounds, and the downward one 4096, which
-- Pmm.Fit proves to be enough. The doubling of a file's capacity has 32 rounds, which Vfs.File.Grow
-- proves to be enough wherever it ends; the walk over a path has as many rounds as bytes, and so has
-- a read from ext2, of which each copies a byte at least. A tmpfs is freed down to a given number of
-- levels. A search through a directory's block has as many rounds as bytes, since an entry is not
-- empty; Ext2.Dir.Tiles proves that the last entry is reached. All other loops recur on the rounds left or on a list.
--
-- In Vmm physical memory is the words of each frame; a page table is reached by its physical address,
-- and `walk` is what the processor translates. Coalescing has as many rounds as entries, since each
-- merge takes one.
--
-- In Ext2 a read sees the bytes of the device; allocation sees the bits of the bitmaps, and Ext2/Disk
-- the bytes of each block, with the inodes and bitmaps kept apart from them.
--
-- Not modelled: file writes and the mount of the on-disk file system, the task life cycle past the
-- queue insertion, system calls, ELF loading, the window system and the user programs; assembly and
-- interrupt entry, port I/O and paging hardware have no state of their own here.
pub mod Base
pub mod Env
pub mod Ext2
pub mod Heap
pub mod Keyboard
pub mod Mouse
pub mod Pipe
pub mod Pmm
pub mod Sched
pub mod Vfs
pub mod Vmm
