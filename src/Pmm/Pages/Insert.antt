-- ===== src/Pmm/Pages/Insert.antt =====
-- The slow path of `kalloc` where a new page becomes the first of the CPU's list.
use njuoslab_l1_kmalloc_kfre.Base.{ℕ, ◌+◌, ◌≡◌, List, [], ◌∷◌, All, arith, ap, ◌∙◌}
use njuoslab_l1_kmalloc_kfre.Machine.{State, update}
use njuoslab_l1_kmalloc_kfre.Machine.Memory.{Mem, write, write-same, write-other}
use njuoslab_l1_kmalloc_kfre.Pmm.Lock.{cpu, with_lock}
use njuoslab_l1_kmalloc_kfre.Pmm.FreeList.{
  Region, Apart, Outside, Links-same, Separate-IsRegion, Apart-SameNodes,
}
use njuoslab_l1_kmalloc_kfre.Pmm.FreeList.Splice.{All-map}
use njuoslab_l1_kmalloc_kfre.Pmm.PageAlloc.Refinement.{page_at, PageTaken}
use njuoslab_l1_kmalloc_kfre.Pmm.Pages.{Page, slab, addr_of, place, Chain, OffHeap, Allocator}
use njuoslab_l1_kmalloc_kfre.Pmm.Pages.Same.{SamePage, Chain-same}
use njuoslab_l1_kmalloc_kfre.Pmm.Pages.Open.{IsClass, IsFresh, Opened, tail_run}
use njuoslab_l1_kmalloc_kfre.Pmm.Pages.Given.{Given}
use njuoslab_l1_kmalloc_kfre.Pmm.Pages.Reuse.{fresh-InUse}
use njuoslab_l1_kmalloc_kfre.Pmm.Pages.Room.{Room}

-- The pages are apart from the new one, and from what remains of the free list.
pub Room-pages :
    (gs : List Region) (a : ℕ) (gs' : List Region) (pages : List Page)
    → Room gs a gs'
    → OffHeap gs pages
    → All (λ pg. Apart (page_at a) (place pg)) pages × OffHeap gs' pages
Room-pages gs a gs' [] r o = (tt, tt)
Room-pages gs a gs' (pg ∷ pages) r (o, os) =
    let (near, far) = r.apart (place pg) o in
    let (nears, fars) = Room-pages gs a gs' pages r os in ((omega arith, nears), (far, fars))

-- A memory that differs only in free regions has the same pages.
pub OffHeap-SamePage :
    (m m' : Mem) (gs : List Region) (pages : List Page)
    → ((b : ℕ) → All (Outside b) gs → m' b ≡ m b)
    → OffHeap gs pages
    → All (λ pg. SamePage m m' (addr_of pg)) pages
OffHeap-SamePage m m' gs [] same o = tt
OffHeap-SamePage m m' gs (pg ∷ pages) same (o, os) = (
  (λ b lo hi. same b (All-map (Apart (place pg)) (Outside b) gs (λ r h. omega arith) o)),
  OffHeap-SamePage m m' gs pages same os,
)

module _ (i size : ℕ) (pages : List Page) (gs : List Region) (s : State)
    (a : Allocator i pages gs s) (c : IsClass size) (page : ℕ) (gs' : List Region)
    (room : Room gs page gs') (s1 : State)
    (t : PageTaken (with_lock (cpu i) 1 s) gs page gs' s1) where
  -- The new page's header has been written, and the list begins at it.
  abbrev pub inserted : State
  inserted = record s1 {
    mem = write (write (write s1.mem page (s1.page_head i)) (page + 8) size) (page + 12) 1;
    page_head = update s1.page_head i page;
  }

  inserted-kept : (b : ℕ) → Outside b (page_at page) → inserted.mem b ≡ s1.mem b
  inserted-kept b o =
      write-other (write (write s1.mem page (s1.page_head i)) (page + 8) size) (page + 12) 1 b
        (omega arith)
      ∙ write-other (write s1.mem page (s1.page_head i)) (page + 8) size b (omega arith)
      ∙ write-other s1.mem page (s1.page_head i) b (omega arith)

  inserted-next : inserted.mem page ≡ s.page_head i
  inserted-next =
      write-other (write (write s1.mem page (s1.page_head i)) (page + 8) size) (page + 12) 1 page
        (omega arith)
      ∙ write-other (write s1.mem page (s1.page_head i)) (page + 8) size page (omega arith)
      ∙ write-same s1.mem page (s1.page_head i)
      ∙ ap (λ (f : ℕ → ℕ). f i) t.pages.heads

  pub inserted-IsFresh : IsFresh inserted.mem page size
  inserted-IsFresh = record {
    ne_null = room.ne_null;
    reach = room.reach;
    size_field =
        write-other (write (write s1.mem page (s1.page_head i)) (page + 8) size) (page + 12) 1
          (page + 8) (omega arith)
        ∙ write-same (write s1.mem page (s1.page_head i)) (page + 8) size;
    index = write-same (write (write s1.mem page (s1.page_head i)) (page + 8) size) (page + 12) 1;
  }

  module _ (p : ℕ) (s' : State) (o : Opened inserted i size page p s') where
    all_kept : (b : ℕ) → All (Outside b) gs → s'.mem b ≡ s.mem b
    all_kept b out =
        let (near, _) = room.outside b out in o.kept b near ∙ inserted-kept b near ∙ t.kept b out

    inserted-Allocator : Allocator i (slab page size (tail_run page size ∷ []) ∷ pages) gs' s'
    inserted-Allocator =
        let (apart, off) = Room-pages gs page gs' pages room a.off_heap in
        let same : (b : ℕ) → Outside b (page_at page) → s'.mem b ≡ s1.mem b =
          λ b out. o.kept b out ∙ inserted-kept b out in
        let head : s'.page_head i ≡ page = ap (λ (f : ℕ → ℕ). f i) o.heap.2 ∙ ground arith in
        let next : s'.mem page ≡ s.page_head i = o.next ∙ inserted-next in
        let free = t.heap in
        let rest : Chain s'.mem (s.page_head i) pages =
          Chain-same s.mem s'.mem (s.page_head i) pages
            (OffHeap-SamePage s.mem s'.mem gs pages all_kept a.off_heap) a.chain in
        record {
          heap = record {
            links = rw o.heap.0 (
                Links-same s1.mem s'.mem s1.head 0 gs'
                  (Apart-SameNodes s1.mem s'.mem (page_at page) gs' same
                    (Separate-IsRegion gs' free.separate) t.apart)
                  free.links);
            separate = free.separate;
            unlocked = o.heap.1 ∙ free.unlocked;
          };
          chain = (head, o.slab, rw next rest);
          disjoint = (apart, a.disjoint);
          off_heap = (t.apart, off);
          unlocked = o.unlocked;
        }

    pub inserted-Given : Given i size pages gs s p s'
    inserted-Given =
        let at = o.address in
        let least = c.least in
        let most = c.most in
        record {
          ps = [];
          ph = page;
          runs = tail_run page size ∷ [];
          qs = pages;
          gs' = gs';
          allocator = inserted-Allocator;
          in_use = fresh-InUse s'.mem page size p at o.slab;
          was_free = λ b lo hi ow. let (near, _) = room.outside b ow.1 in omega arith;
          zeroed = o.zeroed;
          kept = λ b ow. all_kept b ow.1;
          others = λ j ne. (
            ap (λ (f : ℕ → ℕ). f j) o.heap.2
                ∙ ground (arith, ap (λ (f : ℕ → ℕ). f j) t.pages.heads),
            o.others j ne ∙ ap (λ (f : ℕ → ℕ). f j) t.pages.locks ∙ ground arith,
          );
        }
