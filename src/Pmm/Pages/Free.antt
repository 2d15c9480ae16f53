-- ===== src/Pmm/Pages/Free.antt =====
-- `kfree` of a small block, with the pages of all CPUs.
use njuoslab_l1_kmalloc_kfre.Base.{
  ℕ, suc, ◌+◌, ◌≤◌, ◌<◌, ◌≡◌, ◌≢◌, refl, List, [], ◌∷◌, ◌++◌, arith, ap, length, ne→==, eq→==,
}
use njuoslab_l1_kmalloc_kfre.Machine.{State, ok, and_then}
use njuoslab_l1_kmalloc_kfre.Machine.Returns
use njuoslab_l1_kmalloc_kfre.Machine.Returns.{Returns, returns}
use njuoslab_l1_kmalloc_kfre.Pmm.Lock.{cpu, lock, unlock, with_lock}
use njuoslab_l1_kmalloc_kfre.Pmm.FreeList.{Region, region, Apart, Outside}
use njuoslab_l1_kmalloc_kfre.Pmm.FreeList.Splice.{All-split, All-map}
use njuoslab_l1_kmalloc_kfre.Pmm.PageAlloc.{page_size}
use njuoslab_l1_kmalloc_kfre.Pmm.PageAlloc.Refinement.{page_at}
use njuoslab_l1_kmalloc_kfre.Pmm.Kfree.{kfree, free_block}
use njuoslab_l1_kmalloc_kfre.Pmm.Kfree.Push.{InUse}
use njuoslab_l1_kmalloc_kfre.Pmm.Slab.{IsRun}
use njuoslab_l1_kmalloc_kfre.Pmm.Pages.{Page, slab, addr_of, place, Chain, Disjoint, Allocator}
use njuoslab_l1_kmalloc_kfre.Pmm.Pages.Given.{NotFree, Owned}
use njuoslab_l1_kmalloc_kfre.Pmm.Pages.Replace.{OnlyPage, Allocator-replace}
use njuoslab_l1_kmalloc_kfre.Pmm.Pages.Freed.{Refreed, PageFreed, runs-Outside}
use njuoslab_l1_kmalloc_kfre.Pmm.Pages.Back.{Joinable, free_block-PageFreed}
use njuoslab_l1_kmalloc_kfre.Pmm.Pages.Owner.{NoneHolds, Elsewhere, find_owners-some}

Disjoint-NoneHolds :
    (ptr : ℕ) (ps : List Page) (pg : Page) (qs : List Page)
    → Disjoint (ps ++ (pg ∷ qs))
    → addr_of pg < ptr
    → ptr < addr_of pg + page_size
    → NoneHolds ptr ps
Disjoint-NoneHolds ptr [] pg qs d lo hi = tt
Disjoint-NoneHolds ptr (x ∷ ps) pg qs (a, d) lo hi =
    let (_, near, _) = All-split (λ k. Apart (place x) (place k)) ps pg qs a in
    (omega arith, Disjoint-NoneHolds ptr ps pg qs d lo hi)

length-front : (ps : List Page) (pg : Page) (qs : List Page) → length ps ≤ length (ps ++ (pg ∷ qs))
length-front [] pg qs = omega arith
length-front (x ∷ ps) pg qs = omega (arith, length-front ps pg qs)

-- CPU `i` has freed the block `ptr` of a page of CPU `c`: in the allocator as `c` sees it, that page has
-- the block among its free bytes and all else is as it was.
pub record Freed (i c : ℕ) (ps : List Page) (ph size : ℕ) (gs : List Region) (qs : List Page)
    (hs : List Region) (s : State) (ptr : ℕ) (s' : State) : Type 0 where
  pub pg : Page
  pub bytes : Refreed ph size gs ptr pg
  pub allocator : Allocator c (ps ++ (pg ∷ qs)) hs s'
  pub kept :
      (b : ℕ)
      → Outside b (region ptr size)
      → Owned (ps ++ (slab ph size gs ∷ qs)) hs b
      → b ≢ ph + 8
      → s'.mem b ≡ s.mem b
  pub lists : s'.page_head ≡ s.page_head
  pub unlocked : s'.page_lock i ≡ 0
  pub others : (j : ℕ) → j ≢ i → s'.page_lock j ≡ s.page_lock j

module _ (fuel i c after ptr : ℕ) (lists : ℕ → List Page) (ps : List Page) (ph size : ℕ)
    (g : Region) (gs : List Region) (qs : List Page) (hs : List Region) (s : State)
    (a : Allocator c (ps ++ (slab ph size (g ∷ gs) ∷ qs)) hs s) (free : s.page_lock i ≡ 0)
    (u : InUse s.mem ph size (g ∷ gs) ptr) (other : Elsewhere s fuel ptr lists c 0)
    (f : length (ps ++ (slab ph size (g ∷ gs) ∷ qs)) < fuel) where
  abbrev locked : State
  locked = with_lock (cpu i) 1 s

  abbrev pg : Page
  pg = slab ph size (g ∷ gs)

  -- `kfree` up to the page's own free list.
  kfree-block :
      kfree fuel i (c + suc after) ptr s
      ≡ and_then (free_block fuel ph ptr locked) (λ _ t. ok tt (with_lock (cpu i) 0 t))
  unfolding kfree lock unlock
  kfree-block =
      let r = u.run in
      let lo : ph < ptr = omega (arith, r.behind_header, u.slab.least) in
      let hi : ptr < ph + page_size = omega (arith, r.in_page, u.block.room) in
      let here : c + 0 ≡ c = omega arith in
      let chain : Chain s.mem (s.page_head (c + 0)) (ps ++ (pg ∷ qs)) = rw here a.chain in
      let found =
        find_owners-some locked fuel ptr lists c after 0 ps pg qs other chain
          (Disjoint-NoneHolds ptr ps pg qs a.disjoint lo hi) lo hi
          (omega (arith, length-front ps pg qs)) in
      rw (
        ne→== ptr 0 (omega arith),
        free,
        eq→== i i refl,
        found,
        ne→== ph 0 (omega (arith, u.slab.ne_null)),
      )

  block-Freed :
      (t : State)
      → PageFreed locked ph size (g ∷ gs) ptr t
      → Freed i c ps ph size (g ∷ gs) qs hs s ptr (with_lock (cpu i) 0 t)
  block-Freed t r =
      let run = u.run in
      let least = u.slab.least in
      let far : (b : ℕ) → Outside b (page_at ph) → Outside b (region ptr size) × NotFree b pg =
        λ b o. (
          omega (arith, run.behind_header, run.in_page),
          (runs-Outside ph size b (g ∷ gs) o u.slab.runs, omega arith),
        ) in
      let header : NotFree ph pg = (
        All-map (IsRun ph size) (Outside ph) (g ∷ gs) (λ k n. omega (arith, n.behind_header))
            u.slab.runs,
        omega arith,
      ) in
      let only : OnlyPage pg s (with_lock (cpu i) 0 t) = record {
        mem = λ b o. let (near, n) = far b o in r.kept b near n (omega arith);
        next = r.kept ph (omega (arith, run.behind_header)) header (omega arith);
        head = r.heap.0;
        heap_lock = r.heap.1;
        page_head = r.pages.0;
      } in
      record {
        pg = r.pg;
        bytes = r.bytes;
        allocator =
            Allocator-replace c ps pg r.pg qs hs s (with_lock (cpu i) 0 t) a r.bytes.at only r.page
              (ground (arith, ap (λ (k : ℕ → ℕ). k c) r.pages.1, a.unlocked));
        kept = λ b o ow ne. let (_, n, _) = All-split (NotFree b) ps pg qs ow.0 in r.kept b o n ne;
        lists = r.pages.0;
        unlocked = ground arith;
        others = λ j ne. ground (arith, ap (λ (k : ℕ → ℕ). k j) r.pages.1);
      }

  kfree_run-Freed :
      Joinable ptr size (g ∷ gs)
      → length (g ∷ gs) < fuel
      → Returns
          (λ _. Freed i c ps ph size (g ∷ gs) qs hs s ptr)
          (kfree fuel i (c + suc after) ptr s)
  kfree_run-Freed side enough = rw kfree-block (
      Returns.bind (free_block-PageFreed fuel locked ph size ptr g gs u side enough)
        λ _ t r. returns (block-Freed t r))

-- CPU `i` frees a block in use of a page of CPU `c`, which is among the CPUs that `kfree` searches. Let the
-- allocator be well formed as `c` sees it, the lists of the CPUs before `c` be well formed and their pages
-- not hold the block, the lock of `i` be free, the page be not full and not have both a free run that ends
-- where the block begins and, as the first of its list, one that begins where the block ends, and the fuel
-- be enough for each list. Then `kfree` returns: the page has as free bytes those that it had and those of
-- the block, and behind its header no others, or it is marked as empty, with all of its blocks free; the
-- allocator is well formed with it, the page in its place in the list of `c` and the free list of the heap as
-- before, so that no page is given back to the heap; and nothing that was in use and is not in the block
-- has changed but the page's size.
pub kfree-Freed :
    (fuel i c after ptr : ℕ) (lists : ℕ → List Page) (ps : List Page) (ph size : ℕ) (g : Region)
    (gs : List Region) (qs : List Page) (hs : List Region) (s : State)
    → Allocator c (ps ++ (slab ph size (g ∷ gs) ∷ qs)) hs s
    → InUse s.mem ph size (g ∷ gs) ptr
    → Elsewhere s fuel ptr lists c 0
    → s.page_lock i ≡ 0
    → Joinable ptr size (g ∷ gs)
    → length (ps ++ (slab ph size (g ∷ gs) ∷ qs)) < fuel
    → length (g ∷ gs) < fuel
    → Returns (λ _. Freed i c ps ph size (g ∷ gs) qs hs s ptr) (kfree fuel i (c + suc after) ptr s)
kfree-Freed fuel i c after ptr lists ps ph size g gs qs hs s a u other free side f enough =
    kfree_run-Freed fuel i c after ptr lists ps ph size g gs qs hs s a free u other f side enough
