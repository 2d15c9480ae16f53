-- ===== src/Pmm/Kfree/Coalesce.antt =====
-- `kfree` of a block joins it with the free run behind it; and it undoes the fast path of `kalloc`.
use njuoslab_l1_kmalloc_kfre.Base.{
  ℕ, ◌+◌, ◌≤◌, ◌<◌, ◌≡◌, ◌⊎◌, inl, refl, List, [], ◌∷◌, ◌++◌, arith, All, length, ◌∙◌, eq→==, sym,
}
use njuoslab_l1_kmalloc_kfre.Machine.{State}
use njuoslab_l1_kmalloc_kfre.Machine.Memory.{clear-outside}
use njuoslab_l1_kmalloc_kfre.Machine.Returns
use njuoslab_l1_kmalloc_kfre.Machine.Returns.{Returns}
use njuoslab_l1_kmalloc_kfre.Pmm.FreeList.{Region, region, IsRegion, Apart, Separate-IsRegion}
use njuoslab_l1_kmalloc_kfre.Pmm.FreeList.Splice.{All-split}
use njuoslab_l1_kmalloc_kfre.Pmm.Kfree.{free_block}
use njuoslab_l1_kmalloc_kfre.Pmm.Kfree.Neighbours.{
  after_of, after_of-from, after_of-lt, after_of-NotNearer, NotNearer,
}
use njuoslab_l1_kmalloc_kfre.Pmm.Kfree.Cleared.{
  cleared, cleared-InUse, free_block-step, slab-Begins, EndsElsewhere,
}
use njuoslab_l1_kmalloc_kfre.Pmm.Kfree.Push.{InUse}
use njuoslab_l1_kmalloc_kfre.Pmm.Kfree.Behind.{MergedAfter, merge_after-MergedAfter}

-- An address that is no nearer behind the block than its end.
abbrev Beyond : (ptr size p : ℕ) → Type 0
Beyond ptr size p = (p ≡ 0) ⊎ ((p ≤ ptr) ⊎ (ptr + size ≤ p))

apart-Beyond :
    (ptr size : ℕ) (gs : List Region)
    → All IsRegion gs
    → All (Apart (region ptr size)) gs
    → All (λ g. Beyond ptr size g.addr) gs
apart-Beyond ptr size [] v a = tt
apart-Beyond ptr size (g ∷ gs) (v, vs) (a, rest) =
    (omega (arith, v.room), apart-Beyond ptr size gs vs rest)

module _ (s : State) (ph size : ℕ) (xs : List Region) (a : Region) (ys : List Region) (ptr : ℕ)
    (u : InUse s.mem ph size (xs ++ (a ∷ ys)) ptr) (next_to : a.addr ≡ ptr + size) where
  abbrev whole : List Region
  whole = xs ++ (a ∷ ys)

  pub after-end : after_of ptr 0 whole ≡ ptr + size
  after-end =
      let v = Separate-IsRegion whole u.slab.separate in
      let beyond =
        after_of-from (Beyond ptr size) ptr 0 whole (inl refl)
          (apart-Beyond ptr size whole v u.apart) in
      let (_, near, _) =
        All-split (NotNearer ptr (after_of ptr 0 whole)) xs a ys
          (after_of-NotNearer ptr 0 whole v) in
      let above = after_of-side in omega (arith, beyond, near, u.slab.least, above)
    where
      after_of-side : (after_of ptr 0 whole ≡ 0) ⊎ (ptr < after_of ptr 0 whole)
      after_of-side = after_of-lt ptr 0 whole (inl refl)

  coalesce-MergedAfter :
      (fuel : ℕ)
      → All (EndsElsewhere ptr) whole
      → length whole < fuel
      → Returns (λ _. MergedAfter s ph size xs a ys ptr) (free_block fuel ph ptr s)
  coalesce-MergedAfter fuel far enough =
      let t = cleared s ph size whole ptr u in
      let c = cleared-InUse s ph size whole ptr u in
      rw
        (
          free_block-step s ph size whole ptr u fuel (slab-Begins s.mem ph size xs a ys u.slab) far
              enough,
          after-end ∙ sym next_to,
          eq→== (ptr + size) a.addr (sym next_to),
        )
        (Returns.mono (merge_after-MergedAfter t ph size xs a ys ptr c next_to fuel enough)
          λ _ s' r. record {
            page = r.page;
            kept = λ b o os ne8 ne12. r.kept b o os ne8 ne12 ∙ clear-outside s.mem ptr size b o;
            heap = r.heap;
            pages = r.pages;
          })

-- A block in use of a page, with a free run that begins where it ends and none that ends where it
-- begins, is freed: with fuel for one more round than the free list has nodes, `free_block` returns.
-- The block and that run are one run, the first of the list, and the page is well formed; or, if
-- they are all of the page's blocks, the page is marked as empty. Nothing outside the block and the
-- free runs is written but the page's header, and the heap, the page lists and the locks stay.
pub free_block_coalesce :
    (fuel : ℕ) (s : State) (ph size : ℕ) (xs : List Region) (a : Region) (ys : List Region)
    (ptr : ℕ)
    → InUse s.mem ph size (xs ++ (a ∷ ys)) ptr
    → a.addr ≡ ptr + size
    → All (EndsElsewhere ptr) (xs ++ (a ∷ ys))
    → length (xs ++ (a ∷ ys)) < fuel
    → Returns (λ _. MergedAfter s ph size xs a ys ptr) (free_block fuel ph ptr s)
free_block_coalesce fuel s ph size xs a ys ptr u next_to far enough =
    coalesce-MergedAfter s ph size xs a ys ptr u next_to fuel far enough
