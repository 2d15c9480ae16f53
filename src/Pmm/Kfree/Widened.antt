-- ===== src/Pmm/Kfree/Widened.antt =====
-- `kfree` of a block where a free run ends at it and none begins where it ends.
use njuoslab_l1_kmalloc_kfre.Base.{
  ℕ, ◌+◌, ◌-◌, ◌<◌, ◌≡◌, ◌≢◌, ◌⊎◌, inl, inr, refl, List, [], ◌∷◌, ◌++◌, arith, All, ◌∙◌, sym,
  length, eq→==, ne→==,
}
use native.Mathlib.Decide.{ℕ_discrete}
use njuoslab_l1_kmalloc_kfre.Machine.{State}
use njuoslab_l1_kmalloc_kfre.Machine.Memory.{Mem, write-same, write-other}
use njuoslab_l1_kmalloc_kfre.Machine.Returns.{Returns, returns}
use njuoslab_l1_kmalloc_kfre.Pmm.FreeList.{Region, IsRegion, Apart, Outside, Separate-IsRegion}
use njuoslab_l1_kmalloc_kfre.Pmm.FreeList.Splice.{All-split}
use njuoslab_l1_kmalloc_kfre.Pmm.PageAlloc.{page_size}
use njuoslab_l1_kmalloc_kfre.Pmm.Kfree.{free_block}
use njuoslab_l1_kmalloc_kfre.Pmm.Kfree.Push.{InUse}
use njuoslab_l1_kmalloc_kfre.Pmm.Kfree.Neighbours.{after_of}
use njuoslab_l1_kmalloc_kfre.Pmm.Kfree.Behind.{factor-one, mark_empty-eq}
use njuoslab_l1_kmalloc_kfre.Pmm.Kfree.HugeInUse.{after_of-ne}
use njuoslab_l1_kmalloc_kfre.Pmm.Kfree.Before.{
  widen, widened, widened-IsSlab, widened-kept, free_block-joining,
}
use njuoslab_l1_kmalloc_kfre.Pmm.Slab.{IsRun, IsSlab}

-- A run of all blocks of the page is the only one, and the first block of it is behind the header.
pub full-index :
    (m : Mem) (ph size : ℕ) (xs : List Region) (r : Region) (ys : List Region)
    → IsSlab m ph size (xs ++ (r ∷ ys))
    → r.size ≡ page_size - size
    → m (ph + 12) ≡ 1
full-index m ph size [] r ys slab full =
    let run = slab.runs.0 in
    let least = slab.least in
    factor-one (m (ph + 12)) size (omega arith)
      (omega (arith, slab.start.0, run.behind_header, run.in_page, slab.most))
full-index m ph size (x ∷ xs) r ys slab full =
    let (_, run, _) = All-split (IsRun ph size) (x ∷ xs) r ys slab.runs in
    let (_, apart, _) = All-split (Apart x) xs r ys slab.separate.1 in
    absurd (
      omega (
        arith, run.behind_header, run.in_page, slab.runs.0.behind_header, slab.runs.0.in_page,
        slab.separate.0.room, slab.most,
      ))

-- The page after the block has joined the run: well formed, or marked as empty, with all of its blocks in
-- that run.
abbrev pub Grown : (ph size : ℕ) → List Region → Region → List Region → State → Type 0
Grown ph size xs r ys s' =
    ((r.size ≢ page_size - size) × IsSlab s'.mem ph size (xs ++ (r ∷ ys)))
    ⊎ ((r.size ≡ page_size - size) × (s'.mem (ph + 8) ≡ 0) × (s'.mem (ph + 12) ≡ 1))

pub record Widened (s : State) (ph size : ℕ) (xs : List Region) (b : Region) (ys : List Region)
    (s' : State) : Type 0 where
  pub page : Grown ph size xs (widen size b) ys s'
  pub kept : (a : ℕ) → Outside a (widen size b) → a ≢ ph + 8 → s'.mem a ≡ s.mem a
  pub heap : (s'.head ≡ s.head) × (s'.heap_lock ≡ s.heap_lock)
  pub pages : (s'.page_head ≡ s.page_head) × (s'.page_lock ≡ s.page_lock)

-- A block in use of a page, with a free run that ends where it begins and none that begins where it
-- ends, is freed: with fuel for one more round than the free list has nodes, `free_block` returns. The
-- run has the block at its end, in its old place in the list, and the page is well formed; or, if these
-- are all of the page's blocks, the page is marked as empty. Nothing is written but the run with the
-- block and the page's size, and the heap, the page lists and the locks stay.
pub free_block_widen :
    (fuel : ℕ) (s : State) (ph size : ℕ) (xs : List Region) (b : Region) (ys : List Region)
    (ptr : ℕ)
    → InUse s.mem ph size (xs ++ (b ∷ ys)) ptr
    → b.addr + b.size ≡ ptr
    → All (λ g. g.addr ≢ ptr + size) (xs ++ (b ∷ ys))
    → length (xs ++ (b ∷ ys)) < fuel
    → Returns (λ _. Widened s ph size xs b ys) (free_block fuel ph ptr s)
free_block_widen fuel s ph size xs b ys ptr u ends alone enough =
    let w = widened s ph size xs b ys ptr u ends in
    let slab = widened-IsSlab s ph size xs b ys ptr u ends in
    let far : ptr + size ≢ after_of ptr 0 (xs ++ (b ∷ ys)) = λ e.
      after_of-ne ptr (ptr + size) (xs ++ (b ∷ ys)) (omega (arith, u.slab.least)) alone (sym e) in
    let v = (All-split IsRegion xs b ys (Separate-IsRegion (xs ++ (b ∷ ys)) u.slab.separate)).1 in
    let marked =
      mark_empty-eq w ph b.addr (b.size + size) size u.slab.ne_null v.ne_null
        (write-same _ (b.addr + 8) (b.size + size)) slab.size_field (omega (arith, u.slab.most)) in
    let index = full-index w.mem ph size xs (widen size b) ys slab in
    rw
      (
        free_block-joining s ph size xs b ys ptr u ends fuel enough,
        ne→== (ptr + size) _ far,
        marked,
      )
      (elim (ℕ_discrete (b.size + size) (page_size - size)) [
        | yes full ↦ rw (eq→== (b.size + size) (page_size - size) full) (
            returns (record {
              page = inr (
                full,
                write-same w.mem (ph + 8) 0,
                write-other w.mem (ph + 8) 0 (ph + 12) (omega arith) ∙ index full,
              );
              kept = λ a o ne.
                  write-other w.mem (ph + 8) 0 a ne ∙ widened-kept s ph size xs b ys ptr u ends a o;
              heap = (refl, refl);
              pages = (refl, refl);
            }))
        | no some_used ↦ rw (ne→== (b.size + size) (page_size - size) some_used) (
            returns (record {
              page = inl (some_used, slab);
              kept = λ a o ne. widened-kept s ph size xs b ys ptr u ends a o;
              heap = (refl, refl);
              pages = (refl, refl);
            }))
      ])
