-- ===== src/Pmm/Pages/Freed.antt =====
-- A page of blocks after `kfree` of one of them.
use njuoslab_l1_kmalloc_kfre.Base.{
  ℕ, ◌+◌, ◌-◌, ◌≤◌, ◌≡◌, ◌≢◌, refl, List, [], ◌∷◌, ◌++◌, arith, All,
}
use njuoslab_l1_kmalloc_kfre.Machine.{State}
use njuoslab_l1_kmalloc_kfre.Pmm.FreeList.{Region, region, Outside}
use njuoslab_l1_kmalloc_kfre.Pmm.FreeList.Splice.{All-split, All-join, All-map}
use njuoslab_l1_kmalloc_kfre.Pmm.PageAlloc.{page_size}
use njuoslab_l1_kmalloc_kfre.Pmm.PageAlloc.Refinement.{page_at}
use njuoslab_l1_kmalloc_kfre.Pmm.Kfree.Merged.{merge_of}
use njuoslab_l1_kmalloc_kfre.Pmm.Kfree.Before.{widen}
use njuoslab_l1_kmalloc_kfre.Pmm.Slab.{IsRun}
use njuoslab_l1_kmalloc_kfre.Pmm.Pages.{Page, slab, empty, addr_of, IsPage}
use njuoslab_l1_kmalloc_kfre.Pmm.Pages.Given.{NotFree}

-- What `kfree` of the block makes of the page and its free bytes: those that were free and those of the
-- block are free, and of those behind the header no others.
pub record Refreed (ph size : ℕ) (gs : List Region) (ptr : ℕ) (pg : Page) : Type 0 where
  pub at : addr_of pg ≡ ph
  pub gives : (b : ℕ) → NotFree b pg → Outside b (region ptr size) × NotFree b (slab ph size gs)
  pub only :
      (b : ℕ)
      → ph + size ≤ b
      → Outside b (region ptr size)
      → NotFree b (slab ph size gs)
      → NotFree b pg

-- The block of the page has been freed, and nothing else that was in use has changed, the page's size
-- excepted.
pub record PageFreed (s : State) (ph size : ℕ) (gs : List Region) (ptr : ℕ) (s' : State)
    : Type 0 where
  pub pg : Page
  pub page : IsPage s'.mem pg
  pub bytes : Refreed ph size gs ptr pg
  pub kept :
      (b : ℕ)
      → Outside b (region ptr size)
      → NotFree b (slab ph size gs)
      → b ≢ ph + 8
      → s'.mem b ≡ s.mem b
  pub heap : (s'.head ≡ s.head) × (s'.heap_lock ≡ s.heap_lock)
  pub pages : (s'.page_head ≡ s.page_head) × (s'.page_lock ≡ s.page_lock)

pub All-parts : (P : Region → Type 0) (xs ys : List Region) → All P (xs ++ ys) → All P xs × All P ys
All-parts P [] ys a = (tt, a)
All-parts P (x ∷ xs) ys (a, as') = let (b, c) = All-parts P xs ys as' in ((a, b), c)

pub runs-Outside :
    (ph size b : ℕ) (gs : List Region)
    → Outside b (page_at ph)
    → All (IsRun ph size) gs
    → All (Outside b) gs
runs-Outside ph size b gs o runs =
    All-map (IsRun ph size) (Outside b) gs (λ g r. omega (arith, r.behind_header, r.in_page)) runs

-- The page is empty: the run `r`, of the block and what was free, is all of its blocks.
pub empty-Refreed :
    (ph size : ℕ) (gs : List Region) (ptr : ℕ) (r : Region)
    → All (IsRun ph size) gs
    → IsRun ph size (region ptr size)
    → IsRun ph size r
    → r.size ≡ page_size - size
    → size ≤ 16384
    → ((b : ℕ) → Outside b (region ptr size) → All (Outside b) gs → Outside b r)
    → Refreed ph size gs ptr (empty ph)
empty-Refreed ph size gs ptr r runs block whole full most cover = record {
  at = refl;
  gives = λ b o. (
    omega (arith, block.behind_header, block.in_page),
    (runs-Outside ph size b gs o runs, omega arith),
  );
  only = λ b lo o n. omega (arith, cover b o n.0, whole.behind_header, whole.in_page);
}

-- The block is a run of its own.
pub pushed-Refreed :
    (ph size : ℕ) (gs : List Region) (ptr : ℕ)
    → Refreed ph size gs ptr (slab ph size (region ptr size ∷ gs))
pushed-Refreed ph size gs ptr = record {
  at = refl;
  gives = λ b n. (n.0.0, (n.0.1, n.1));
  only = λ b lo o n. ((o, n.0), n.1);
}

-- The block and the run `a` behind it are one run.
pub merged-Refreed :
    (ph size : ℕ) (xs : List Region) (a : Region) (ys : List Region) (ptr : ℕ)
    → a.addr ≡ ptr + size
    → Refreed ph size (xs ++ (a ∷ ys)) ptr (slab ph size (merge_of ptr size a ∷ (xs ++ ys)))
merged-Refreed ph size xs a ys ptr next_to = record {
  at = refl;
  gives = λ b n.
      let ((o, os), ne) = n in
      let (ox, oy) = All-parts (Outside b) xs ys os in
      (omega arith, (All-join (Outside b) xs (a ∷ ys) ox (omega arith, oy), ne));
  only = λ b lo o n.
      let (ox, oa, oy) = All-split (Outside b) xs a ys n.0 in
      ((omega arith, All-join (Outside b) xs ys ox oy), n.1);
}

-- The run `g` before the block has it at its end.
pub widened-Refreed :
    (ph size : ℕ) (xs : List Region) (g : Region) (ys : List Region) (ptr : ℕ)
    → g.addr + g.size ≡ ptr
    → Refreed ph size (xs ++ (g ∷ ys)) ptr (slab ph size (xs ++ (widen size g ∷ ys)))
widened-Refreed ph size xs g ys ptr ends = record {
  at = refl;
  gives = λ b n.
      let (ox, o, oy) = All-split (Outside b) xs (widen size g) ys n.0 in
      (omega arith, (All-join (Outside b) xs (g ∷ ys) ox (omega arith, oy), n.1));
  only = λ b lo o n.
      let (ox, og, oy) = All-split (Outside b) xs g ys n.0 in
      (All-join (Outside b) xs (widen size g ∷ ys) ox (omega arith, oy), n.1);
}
