-- ===== src/Pmm/FreeHeap.antt =====
-- The heap of kernel/src/pmm.c between two calls: its free list and its lock.
use njuoslab_l1_kmalloc_kfre.Base.{◌≡◌, List}
use njuoslab_l1_kmalloc_kfre.Machine.{State}
use njuoslab_l1_kmalloc_kfre.Pmm.FreeList.{Region, Separate, Links}

-- The variables of the page lists stay.
pub record SamePages (s s' : State) : Type 0 where
  pub heads : s'.page_head ≡ s.page_head
  pub locks : s'.page_lock ≡ s.page_lock

-- The free list `gs` in the memory, with the heap's lock free.
pub record FreeHeap (gs : List Region) (s : State) : Type 0 where
  pub links : Links s.mem s.head gs 0
  pub separate : Separate gs
  pub unlocked : s.heap_lock ≡ 0

-- Only the lock has been written, and it is free again.
pub record Unchanged (s s' : State) : Type 0 where
  pub mem : s'.mem ≡ s.mem
  pub head : s'.head ≡ s.head
  pub unlocked : s'.heap_lock ≡ 0
  pub pages : SamePages s s'
