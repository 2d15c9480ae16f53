-- ===== src/Lib.antt =====
-- The physical memory manager of an operating-systems lab (kernel/src/pmm.c) and its C
-- library (abstract-machine/klib/src), modelled over an explicit memory.
--
-- The program. `pmm_init` makes the whole heap one free node. Requests of up to 16 KiB are rounded up
-- to a power of two from 32 on, and served from pages of 64 KiB that belong to the CPU and hold
-- blocks of one size: `kalloc` takes the first free block of a fitting page, and gets a new page from
-- the heap by `allockpage` where there is none. Larger requests, up to 16 MiB, are cut off the end of
-- a heap region by `kallocHugeMemory`, with a header below the block. `kfree` finds the page that
-- holds the address, or else the header, and joins the block with its free neighbours. Each CPU has a
-- spin lock for its pages, and the heap has one.
--
-- The model.
-- - Base: Boolean tests, lists, and machine words (`int` as a 32-bit pattern, 64-bit addresses).
-- - Machine: the memory, the global variables of pmm.c, and commands with faults. A memory has one
--   number for each address at which a field stands; the structures of kernel/include/common.h all
--   have 16 bytes with fields at 0, 8 and 12, and stand at addresses 16 bytes apart, so that no
--   access overlaps another in part. An access through NULL, a failed `assert`, and a spin on a lock
--   that is held stop a run.
-- - Pmm/Lock: `lock`, `unlock`, `lockinit`; Pmm/Lock/Spin has them as steps of any number of CPUs.
-- - Pmm/FreeList and Pmm/FreeHeap: the regions that a chain of nodes stands for, and a well-formed
--   free list.
-- - Pmm/PageAlloc: `allockpage`. Pmm/Huge: `kallocHugeMemory`. Pmm/SizeClass: the rounding loop.
--   Pmm/Kalloc: `kalloc`. Pmm/Kfree: `kfree`. Pmm/Init: `pmm_init`. Their proofs are in modules below
--   them.
-- - Pmm/Slab: a page and its runs of free blocks, and the fast path of `kalloc` on it.
-- - Pmm/Pages: the pages of a CPU and the allocator as the CPU sees it; below it, `kalloc` of a small
--   block on each of its paths, and `kfree` of one with the search in the pages of all CPUs.
-- - Klib: string.c, stdio.c and stdlib.c, with one byte at each address. Klib/Copy has the memory
--   functions and Klib/Text those on strings; the allocator uses `memset`. Klib/Stdio has the
--   conversions of `printf`, Klib/Stdio/Signed the text of an `int`, Klib/Stdio/Sprintf and Klib/Stdio/Printf the functions on formats, and
--   Klib/Numeral the digits of a number. What `putch` is given is a list.
-- - Os: kernel/src/os.c, which prints addresses that the allocator returns.
-- - Am: the machine layer below the kernel (abstract-machine/am/src/x86), for 64-bit x86 on QEMU. Am/Gate
--   has the descriptors of x86.h, Am/Cte the interrupts and contexts of qemu/cte.c, and Am/Vme the page
--   tables of qemu/vme.c, with the words of memory and the pages that `pgalloc` returns as its state.
--   Am/Io has the serial port, the clock and the keyboard of qemu/ioe.c, and Am/Gpu its frame buffer:
--   rectangles with coordinates that are `int`s, and canvases, with coordinates that are not negative. The kernel's handler of interrupts and the devices behind `in` and
--   `out` are parameters, and a canvas in video memory is a tree.
-- - Am/Examples, Am/IoExamples, Am/VmeExamples, Klib/Examples, Klib/StdioExamples, Os/Runs, Pmm/Examples,
--   Pmm/PageExamples, Pmm/ServeExamples, Pmm/LockExamples and Pmm/Runs: the theorems at concrete states, and a run of the
--   allocator.
--
-- Fuel. Each walk over a linked list or a string takes fuel; one round more than it has nodes or
-- characters is enough. The rounding loop has 20 rounds, for sizes
-- up to 16 MiB.
--
-- Not modelled: the output of `pmm_init`; the build with TEST, which uses pthread mutexes; the rest of
-- the abstract machine (abstract-machine/am: boot, disk, APICs, other platforms), of which `cpu_current`, `cpu_count` and the bounds of the
-- heap are arguments and `atomic_xchg` one step; libco, and of klib the copy of LLVM's int64.c. `kalloc`
-- and `kfree` run here without interleaving; only the lock is modelled with it.
pub mod Base
pub mod Machine
pub mod Pmm
pub mod Klib
pub mod Os
pub mod Am
