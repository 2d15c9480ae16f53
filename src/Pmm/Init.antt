-- ===== src/Pmm/Init.antt =====
-- `pmm_init` of kernel/src/pmm.c: one free node over the whole heap, no pages, all locks free.
pub mod Laws
use njuoslab_l1_kmalloc_kfre.Base.{ℕ, zero, suc, ◌+◌, ◌==◌, not}
use njuoslab_l1_kmalloc_kfre.Base.Words.{sub64}
use njuoslab_l1_kmalloc_kfre.Machine.{
  Cmd, pure, check, ◌>>◌, set_head, set_next, set_size, set_page_head,
}
use njuoslab_l1_kmalloc_kfre.Pmm.Lock.{heap, cpu, lockinit}

-- The loop over the CPUs, `left` of them from `i` on.
unfoldable pub init_cpus : (left i : ℕ) → Cmd (Unit {0})
init_cpus zero i = pure tt
init_cpus (suc left) i = do set_page_head i 0; lockinit (cpu i); init_cpus left (i + 1)

-- `start` and `end` are the bounds of the abstract machine's `heap`.
unfoldable pub pmm_init : (start end ncpu : ℕ) → Cmd (Unit {0})
pmm_init start end ncpu = do
  set_head start
  check (not (start == 0))
  set_size start (sub64 end start)
  set_next start 0
  lockinit heap
  init_cpus ncpu 0
  lockinit heap
