-- ===== src/Pmm/Kfree/Isolated.antt =====
-- `kfree` of a block of a page when no free run touches the block.
use njuoslab_l1_kmalloc_kfre.Base.{
  ℕ, ◌+◌, ◌<◌, ◌≡◌, ◌≢◌, refl, List, [], ◌∷◌, arith, All, length, ◌∙◌, ne→==,
}
use njuoslab_l1_kmalloc_kfre.Machine.{State}
use njuoslab_l1_kmalloc_kfre.Machine.Memory.{clear-outside}
use njuoslab_l1_kmalloc_kfre.Machine.Returns.{Returns, returns}
use njuoslab_l1_kmalloc_kfre.Pmm.FreeList.{Region, region}
use njuoslab_l1_kmalloc_kfre.Pmm.Kfree.{free_block, push_block}
use njuoslab_l1_kmalloc_kfre.Pmm.Kfree.Neighbours.{after_of, after_of-from}
use njuoslab_l1_kmalloc_kfre.Pmm.FreeList.Splice.{All-map}
use njuoslab_l1_kmalloc_kfre.Pmm.Kfree.Cleared.{
  cleared, cleared-InUse, free_block-step, slab-Begins, EndsElsewhere,
}
use njuoslab_l1_kmalloc_kfre.Pmm.Kfree.Push.{
  InUse, pushed_lem, pushed-Touches, push_block-pushed, NotAdjacent, BlockFreed,
}

runs-ClearAfter :
    (ptr size : ℕ) (gs : List Region)
    → All (NotAdjacent ptr size) gs
    → All (λ g. ptr + size ≢ g.addr) gs
runs-ClearAfter ptr size [] a = tt
runs-ClearAfter ptr size (g ∷ gs) (a, rest) = (a.1, runs-ClearAfter ptr size gs rest)

module _ (s : State) (ph size : ℕ) (g : Region) (gs : List Region) (ptr : ℕ)
    (u : InUse s.mem ph size (g ∷ gs) ptr) where
  module _ (fuel : ℕ) (far : All (NotAdjacent ptr size) (g ∷ gs))
      (enough : length (g ∷ gs) < fuel) where
    after : ℕ
    after = after_of ptr 0 (g ∷ gs)

    after_clear : ptr + size ≢ after
    unfolding after
    after_clear =
        after_of-from (λ a. ptr + size ≢ a) ptr 0 (g ∷ gs) (omega (arith, u.slab.least))
          (runs-ClearAfter ptr size (g ∷ gs) far)

    free_block-push :
        free_block fuel ph ptr s ≡ push_block ph ptr (cleared s ph size (g ∷ gs) ptr u)
    unfolding after
    free_block-push =
        free_block-step s ph size (g ∷ gs) ptr u fuel (slab-Begins s.mem ph size [] g gs u.slab)
          (All-map (NotAdjacent ptr size) (EndsElsewhere ptr) (g ∷ gs) (λ x p. p.0) far) enough
        ∙ rw (ne→== (ptr + size) after after_clear)

    isolated-BlockFreed :
        Returns
          (λ _. BlockFreed s ph size (region ptr size ∷ g ∷ gs) ptr)
          (free_block fuel ph ptr s)
    isolated-BlockFreed =
        let c = cleared-InUse s ph size (g ∷ gs) ptr u in
        let t = cleared s ph size (g ∷ gs) ptr u in
        rw (free_block-push, push_block-pushed t ph size g gs ptr c)
          (returns (record {
            slab = pushed_lem t ph size g gs ptr c;
            kept = λ b o ne.
                pushed-Touches t ph size g gs ptr c b o ne ∙ clear-outside s.mem ptr size b o;
            heap = (refl, refl);
            pages = (refl, refl);
          }))

-- A block in use of a page that is not full, with no free run ending or beginning at it, is freed:
-- with fuel for one more round than the free list has nodes, `free_block` returns, the page is well
-- formed with the block as the first run of its free list, nothing is written but the block and the
-- index in the page's header, and the heap, the page lists and the locks stay.
pub free_block_isolated :
    (fuel : ℕ) (s : State) (ph size : ℕ) (g : Region) (gs : List Region) (ptr : ℕ)
    → InUse s.mem ph size (g ∷ gs) ptr
    → All (NotAdjacent ptr size) (g ∷ gs)
    → length (g ∷ gs) < fuel
    → Returns (λ _. BlockFreed s ph size (region ptr size ∷ g ∷ gs) ptr) (free_block fuel ph ptr s)
free_block_isolated fuel s ph size g gs ptr u far enough =
    isolated-BlockFreed s ph size g gs ptr u fuel far enough
