-- ===== src/Pmm/Pages/Given.antt =====
-- What `kalloc` promises for a small block, and the path on which a page has a free block of the size.
use njuoslab_l1_kmalloc_kfre.Base.{
  ℕ, ◌+◌, ◌≤◌, ◌<◌, ◌≡◌, ◌≢◌, refl, List, ◌∷◌, ◌++◌, All, arith, ap, ◌∙◌, eq→==, ne→==,
}
use native.Mathlib.Decide.{ℕ_discrete}
use njuoslab_l1_kmalloc_kfre.Machine.{State}
use njuoslab_l1_kmalloc_kfre.Machine.Memory.{Mem}
use njuoslab_l1_kmalloc_kfre.Machine.Returns
use njuoslab_l1_kmalloc_kfre.Machine.Returns.{Returns}
use njuoslab_l1_kmalloc_kfre.Pmm.Lock.{cpu, with_lock}
use njuoslab_l1_kmalloc_kfre.Pmm.FreeList.{Region, region, Apart, Outside}
use njuoslab_l1_kmalloc_kfre.Pmm.FreeList.Splice.{All-split, All-map}
use njuoslab_l1_kmalloc_kfre.Pmm.PageAlloc.Refinement.{page_at}
use njuoslab_l1_kmalloc_kfre.Pmm.Kalloc.{take_block}
use njuoslab_l1_kmalloc_kfre.Pmm.Kfree.Push.{InUse}
use njuoslab_l1_kmalloc_kfre.Pmm.Slab.{IsSlab}
use njuoslab_l1_kmalloc_kfre.Pmm.Slab.After.{run-le}
use njuoslab_l1_kmalloc_kfre.Pmm.Slab.Take.{rest_blocks, BlockTaken, take_block_lem}
use njuoslab_l1_kmalloc_kfre.Pmm.Pages.{Page, slab, empty, Allocator}
use njuoslab_l1_kmalloc_kfre.Pmm.Pages.Replace.{OnlyPage, Allocator-replace, Chain-middle}

-- `b` is no address of a free run of the page, nor of its index; an empty page is free as a whole.
abbrev pub NotFree : ℕ → Page → Type 0
NotFree b (slab ph size runs) = All (Outside b) runs × (b ≢ ph + 12)
NotFree b (empty ph) = Outside b (page_at ph)

-- `b` belongs to nothing that the allocator may give.
abbrev pub Owned : List Page → List Region → ℕ → Type 0
Owned pages gs b = All (NotFree b) pages × All (Outside b) gs

-- The block `p` has been given: every byte of it was free, it reads as zeros, it is a block in use of
-- one of the pages, the allocator is well formed, and all that was in use is as before.
pub record Given (i size : ℕ) (pages : List Page) (gs : List Region) (s : State) (p : ℕ)
    (s' : State) : Type 0 where
  pub ps : List Page
  pub ph : ℕ
  pub runs : List Region
  pub qs : List Page
  pub gs' : List Region
  pub allocator : Allocator i (ps ++ (slab ph size runs ∷ qs)) gs' s'
  pub in_use : InUse s'.mem ph size runs p
  pub was_free : (b : ℕ) → p ≤ b → b < p + size → Owned pages gs b → ⊥
  pub zeroed : (b : ℕ) → p ≤ b → b < p + size → s'.mem b ≡ 0
  pub kept : (b : ℕ) → Owned pages gs b → s'.mem b ≡ s.mem b
  pub others : (j : ℕ) → j ≢ i → (s'.page_head j ≡ s.page_head j) × (s'.page_lock j ≡ s.page_lock j)

-- The first block of a run is a block in use of the page that is left.
taken-InUse :
    (m : Mem) (ph size : ℕ) (g : Region) (runs : List Region) (m' : Mem)
    → IsSlab m ph size (g ∷ runs)
    → IsSlab m' ph size (rest_blocks size g runs)
    → InUse m' ph size (rest_blocks size g runs) g.addr
taken-InUse m ph size g runs m' before after =
    let (v, apart, _) = before.separate in
    let r = before.runs.0 in
    let le = run-le g v r in
    let near : All (Apart (region g.addr size)) runs =
      All-map (Apart g) (Apart (region g.addr size)) runs (λ k o. omega arith) apart in
    record {
      slab = after;
      run = record {
        first = r.first;
        at = r.at;
        count = 1;
        long = omega arith;
        behind_header = r.behind_header;
        in_page = omega (arith, r.in_page);
      };
      block = omega (arith, v, before.least, before.unit, before.most);
      apart = elim (ℕ_discrete g.size size) [
        | yes whole ↦ rw (eq→== g.size size whole) near
        | no more ↦ rw (ne→== g.size size more) (omega arith, near)
      ];
    }

module _ (i size : ℕ) (ps : List Page) (ph : ℕ) (g : Region) (runs : List Region) (qs : List Page)
    (gs : List Region) (s : State)
    (a : Allocator i (ps ++ (slab ph size (g ∷ runs) ∷ qs)) gs s) where
  abbrev locked : State
  locked = with_lock (cpu i) 1 s

  page-IsSlab : IsSlab s.mem ph size (g ∷ runs)
  page-IsSlab = Chain-middle s.mem (s.page_head i) ps (slab ph size (g ∷ runs)) qs a.chain

  taken-Given :
      (p : ℕ) (s' : State)
      → BlockTaken locked i ph size g runs p s'
      → Given i size (ps ++ (slab ph size (g ∷ runs) ∷ qs)) gs s p s'
  taken-Given p s' t =
      let before = page-IsSlab in
      let (v, _, _) = before.separate in
      let r = before.runs.0 in
      let least = before.least in
      let le = run-le g v r in
      let at = t.address in
      let only : OnlyPage (slab ph size (g ∷ runs)) s s' = record {
        mem = λ b o. t.kept b (omega (arith, r.behind_header, r.in_page)) (omega arith);
        next = t.kept ph (omega (arith, r.behind_header)) (omega arith);
        head = t.heap.0;
        heap_lock = t.heap.1;
        page_head = t.heap.2;
      } in
      record {
        ps = ps;
        ph = ph;
        runs = rest_blocks size g runs;
        qs = qs;
        gs' = gs;
        allocator =
            Allocator-replace i ps (slab ph size (g ∷ runs))
              (slab ph size (rest_blocks size g runs)) qs gs s s' a refl only t.slab t.unlocked;
        in_use = rw at (taken-InUse s.mem ph size g runs s'.mem before t.slab);
        was_free = λ b lo hi o.
            let ((out, _), _) = (All-split (NotFree b) ps (slab ph size (g ∷ runs)) qs o.0).1 in
            omega arith;
        zeroed = t.zeroed;
        kept = λ b o.
            let ((out, _), ne) = (All-split (NotFree b) ps (slab ph size (g ∷ runs)) qs o.0).1 in
            t.kept b out ne;
        others = λ j ne. (ap (λ (f : ℕ → ℕ). f j) t.heap.2, t.others j ne ∙ ground arith);
      }

  pub take_block-Given :
      Returns
        (Given i size (ps ++ (slab ph size (g ∷ runs) ∷ qs)) gs s)
        (take_block i size ph locked)
  take_block-Given =
      Returns.mono (take_block_lem locked i ph size g runs page-IsSlab) λ p s' t. taken-Given p s' t
