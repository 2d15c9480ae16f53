-- ===== src/Pmm/Pages.antt =====
-- The pages of one CPU (`cpupagelist[i].pagehead` of kernel/src/pmm.c): a list of pages of blocks and of
-- empty pages, apart from each other and from the free list of the heap.
pub mod Same
pub mod Search
pub mod Open
pub mod Replace
pub mod Given
pub mod Reuse
pub mod Room
pub mod Insert
pub mod New
pub mod Small
pub mod FirstPage
pub mod Serve
pub mod Freed
pub mod Both
pub mod Sides
pub mod Back
pub mod Owner
pub mod Free
use njuoslab_l1_kmalloc_kfre.Base.{
  ℕ, zero, suc, ◌+◌, ◌^◌, ◌≤◌, ◌<◌, ◌≡◌, List, [], ◌∷◌, ◌++◌, All, ◌==◌, Bool, true, false,
}
use njuoslab_l1_kmalloc_kfre.Machine.{State}
use njuoslab_l1_kmalloc_kfre.Machine.Memory.{Mem}
use njuoslab_l1_kmalloc_kfre.Pmm.FreeList.{Region, region, Apart}
use njuoslab_l1_kmalloc_kfre.Pmm.FreeHeap.{FreeHeap}
use njuoslab_l1_kmalloc_kfre.Pmm.PageAlloc.{page_size}
use njuoslab_l1_kmalloc_kfre.Pmm.PageAlloc.Refinement.{page_at}
use njuoslab_l1_kmalloc_kfre.Pmm.Slab.{IsSlab}

-- A page of blocks of one size with its free runs, or a page that the size 0 marks as empty.
pub data Page : Type 0 where
  slab : (ph size : ℕ) → List Region → Page
  empty : (ph : ℕ) → Page

abbrev pub addr_of : Page → ℕ
addr_of (slab ph size gs) = ph
addr_of (empty ph) = ph

abbrev pub place : Page → Region
place pg = page_at (addr_of pg)

pub record IsEmpty (m : Mem) (ph : ℕ) : Type 0 where
  pub ne_null : 0 < ph
  pub reach : ph + page_size ≤ 2 ^ 63
  pub size_field : m (ph + 8) ≡ 0
  pub index : m (ph + 12) ≡ 1

abbrev pub IsPage : Mem → Page → Type 0
IsPage m (slab ph size gs) = IsSlab m ph size gs
IsPage m (empty ph) = IsEmpty m ph

-- From `p` the `next` fields of the headers lead through the pages to NULL.
abbrev pub Chain : Mem → ℕ → List Page → Type 0
Chain m p [] = p ≡ 0
Chain m p (pg ∷ pages) = (p ≡ addr_of pg) × IsPage m pg × Chain m (m (addr_of pg)) pages

abbrev pub Disjoint : List Page → Type 0
Disjoint [] = Unit
Disjoint (pg ∷ pages) = All (λ k. Apart (place pg) (place k)) pages × Disjoint pages

-- No page overlaps a free region of the heap.
abbrev pub OffHeap : List Region → List Page → Type 0
OffHeap gs pages = All (λ pg. All (Apart (place pg)) gs) pages

-- The allocator as CPU `i` sees it between two calls: its pages, the heap's free list and the locks.
pub record Allocator (i : ℕ) (pages : List Page) (gs : List Region) (s : State) : Type 0 where
  pub heap : FreeHeap gs s
  pub chain : Chain s.mem (s.page_head i) pages
  pub disjoint : Disjoint pages
  pub off_heap : OffHeap gs pages
  pub unlocked : s.page_lock i ≡ 0

-- A free block of this size can be taken from the page.
abbrev pub fits : ℕ → Page → Bool
fits size (slab ph n []) = false
fits size (slab ph n (g ∷ gs)) = n == size
fits size (empty ph) = false

abbrev pub vacant : Page → Bool
vacant (slab ph n gs) = false
vacant (empty ph) = true
