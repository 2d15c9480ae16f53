-- ===== src/Pmm.antt =====
-- kernel/src/pmm.c
pub mod Lock
pub mod PageAlloc
pub mod Huge
pub mod SizeClass
pub mod FreeList
pub mod FreeHeap
pub mod Kalloc
pub mod Kfree
pub mod Init
pub mod Runs
mod Examples
mod PageExamples
mod ServeExamples
mod LockExamples
pub mod Slab
pub mod Pages
