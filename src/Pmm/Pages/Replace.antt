-- ===== src/Pmm/Pages/Replace.antt =====
-- The allocator after one page has changed.
use njuoslab_l1_kmalloc_kfre.Base.{ℕ, ◌≡◌, List, [], ◌∷◌, ◌++◌, All, ◌∙◌}
use njuoslab_l1_kmalloc_kfre.Machine.{State}
use njuoslab_l1_kmalloc_kfre.Machine.Memory.{Mem}
use njuoslab_l1_kmalloc_kfre.Pmm.FreeList.{
  Region, Outside, Apart, Links-same, Separate-IsRegion, Apart-SameNodes,
}
use njuoslab_l1_kmalloc_kfre.Pmm.Pages.{Page, addr_of, place, IsPage, Chain, Allocator}
use njuoslab_l1_kmalloc_kfre.Pmm.Pages.Same.{
  Chain-replace, Disjoint-replace, All-replace, OffHeap-middle,
}

pub Chain-middle :
    (m : Mem) (p : ℕ) (ps : List Page) (pg : Page) (qs : List Page)
    → Chain m p (ps ++ (pg ∷ qs))
    → IsPage m pg
Chain-middle m p [] pg qs (e, h, c) = h
Chain-middle m p (x ∷ ps) pg qs (e, h, c) = Chain-middle m (m (addr_of x)) ps pg qs c

-- A state that differs in the memory of one page, and in locks of pages.
pub record OnlyPage (pg : Page) (s s' : State) : Type 0 where
  pub mem : (b : ℕ) → Outside b (place pg) → s'.mem b ≡ s.mem b
  pub next : s'.mem (addr_of pg) ≡ s.mem (addr_of pg)
  pub head : s'.head ≡ s.head
  pub heap_lock : s'.heap_lock ≡ s.heap_lock
  pub page_head : s'.page_head ≡ s.page_head

pub Allocator-replace :
    (i : ℕ) (ps : List Page) (pg pg' : Page) (qs : List Page) (gs : List Region) (s s' : State)
    → Allocator i (ps ++ (pg ∷ qs)) gs s
    → addr_of pg' ≡ addr_of pg
    → OnlyPage pg s s'
    → IsPage s'.mem pg'
    → s'.page_lock i ≡ 0
    → Allocator i (ps ++ (pg' ∷ qs)) gs s'
Allocator-replace i ps pg pg' qs gs s s' a at only new unlocked =
    let free = a.heap in
    record {
      heap = record {
        links = rw only.head (
            Links-same s.mem s'.mem s.head 0 gs
              (Apart-SameNodes s.mem s'.mem (place pg) gs only.mem
                (Separate-IsRegion gs free.separate) (OffHeap-middle gs ps pg qs a.off_heap))
              free.links);
        separate = free.separate;
        unlocked = only.heap_lock ∙ free.unlocked;
      };
      chain = rw only.page_head (
          Chain-replace s.mem s'.mem (s.page_head i) ps pg pg' qs at only.mem only.next new
            a.disjoint a.chain);
      disjoint = Disjoint-replace ps pg pg' qs at a.disjoint;
      off_heap = All-replace (λ r. All (Apart r) gs) ps pg pg' qs at a.off_heap;
      unlocked = unlocked;
    }
