-- ===== src/Pmm/Lock.antt =====
-- The locks of kernel/src/pmm.c as one CPU sees them while no other CPU runs: `atomic_xchg` on a
-- global variable, and a spin that then never ends.
pub mod Spin
use njuoslab_l1_kmalloc_kfre.Base.{ℕ, ◌==◌, if◌then◌else◌}
use njuoslab_l1_kmalloc_kfre.Machine.{State, Fault, ok, Cmd, fail, check, ◌>>=◌, pure, update}

-- `heap_lock` and `cpupagelist[i].lock`.
pub data LockName : Type 0 where
  heap : LockName
  cpu : (i : ℕ) → LockName

-- NOPE and YES
abbrev pub nope : ℕ
nope = 1

abbrev pub free_value : ℕ
free_value = 0

abbrev pub lock_of : LockName → State → ℕ
lock_of heap s = s.heap_lock
lock_of (cpu i) s = s.page_lock i

abbrev pub with_lock : LockName → ℕ → State → State
with_lock heap v s = record s { heap_lock = v }
with_lock (cpu i) v s = record s { page_lock = update s.page_lock i v }

abbrev pub atomic_xchg : LockName → ℕ → Cmd ℕ
atomic_xchg l v s = ok (lock_of l s) (with_lock l v s)

unfoldable pub lock : LockName → Cmd (Unit {0})
lock l = do
  old ← atomic_xchg l nope
  if old == free_value then (λ s. check (lock_of l s == nope) s) else fail Fault.deadlock

unfoldable pub unlock : LockName → Cmd (Unit {0})
unlock l = do _ ← atomic_xchg l free_value; pure tt

unfoldable pub lockinit : LockName → Cmd (Unit {0})
lockinit l s = ok tt (with_lock l free_value s)
