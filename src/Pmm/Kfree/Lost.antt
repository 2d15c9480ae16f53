-- ===== src/Pmm/Kfree/Lost.antt =====
-- What is left of the free list where `kfree` joins a block with the first run of the list.
use njuoslab_l1_kmalloc_kfre.Base.{
  ℕ, ◌+◌, ◌-◌, ◌<◌, ◌≡◌, ◌≢◌, inl, inr, List, [], ◌∷◌, ◌++◌, arith, All, ◌∙◌, sym, length, eq→==,
  ne→==,
}
use native.Mathlib.Decide.{ℕ_discrete}
use njuoslab_l1_kmalloc_kfre.Machine.{State}
use njuoslab_l1_kmalloc_kfre.Machine.Memory.{write-same, write-other}
use njuoslab_l1_kmalloc_kfre.Machine.Returns.{Returns, returns}
use njuoslab_l1_kmalloc_kfre.Pmm.FreeList.{Region, Apart, Outside}
use njuoslab_l1_kmalloc_kfre.Pmm.PageAlloc.{page_size}
use njuoslab_l1_kmalloc_kfre.Pmm.Kfree.{free_block}
use njuoslab_l1_kmalloc_kfre.Pmm.Kfree.Push.{InUse}
use njuoslab_l1_kmalloc_kfre.Pmm.Kfree.Coalesce.{after-end}
use njuoslab_l1_kmalloc_kfre.Pmm.Kfree.Neighbours.{after_of}
use njuoslab_l1_kmalloc_kfre.Pmm.Kfree.Behind.{mark_empty-eq}
use njuoslab_l1_kmalloc_kfre.Pmm.Kfree.Before.{widened-kept, free_block-joining}
use njuoslab_l1_kmalloc_kfre.Pmm.Kfree.Widened.{full-index}
use njuoslab_l1_kmalloc_kfre.Pmm.Kfree.HeadLost.{
  HeadLost, joined_run, w3, w3-other, w3-field, parts, run-apart, run-Fits, joined-IsSlab,
  join_after-run,
}

module _ (s : State) (ph size : ℕ) (a : Region) (xs : List Region) (b : Region) (ys : List Region)
    (ptr : ℕ) (u : InUse s.mem ph size ((a ∷ xs) ++ (b ∷ ys)) ptr) (ends : b.addr + b.size ≡ ptr)
    (next_to : a.addr ≡ ptr + size) where
  abbrev done : State
  done = w3 s ph size a xs b ys ptr u ends next_to

  done-kept : (c : ℕ) → Outside c (joined_run size a b) → c ≢ ph + 12 → done.mem c ≡ s.mem c
  done-kept c o ne =
      let v = (parts s ph size a xs b ys ptr u ends next_to).here in
      w3-other s ph size a xs b ys ptr u ends next_to c (omega (arith, v.room)) ne
      ∙ widened-kept s ph size (a ∷ xs) b ys ptr u ends c (omega arith)

  lost-runs : All (Apart (joined_run size a b)) xs × All (λ x. All (Apart x) ys) xs
  lost-runs = (
    run-apart s ph size a xs b ys ptr u ends next_to,
    (parts s ph size a xs b ys ptr u ends next_to).across.1,
  )

-- A block in use of a page, between a free run `b` that ends where it begins and the first run `a` of
-- the list, which begins where it ends, is freed: with fuel for one more round than the list has nodes,
-- `free_block` returns. The block and both runs are one run, which is the first of the list that is
-- left, or the page is marked as empty if that run is all of its blocks. The runs `xs`, which stood
-- between the two in the list, are in no run of that list any more: their blocks are lost.
pub free_block-HeadLost :
    (fuel : ℕ) (s : State) (ph size : ℕ) (a : Region) (xs : List Region) (b : Region)
    (ys : List Region) (ptr : ℕ)
    → InUse s.mem ph size ((a ∷ xs) ++ (b ∷ ys)) ptr
    → b.addr + b.size ≡ ptr
    → a.addr ≡ ptr + size
    → length ((a ∷ xs) ++ (b ∷ ys)) < fuel
    → Returns (λ _. HeadLost s ph size a xs b ys) (free_block fuel ph ptr s)
free_block-HeadLost fuel s ph size a xs b ys ptr u ends next_to enough =
    let t = w3 s ph size a xs b ys ptr u ends next_to in
    let slab = joined-IsSlab s ph size a xs b ys ptr u ends next_to in
    let f = run-Fits s ph size a xs b ys ptr u ends next_to in
    let total = b.size + size + a.size in
    let after : after_of ptr 0 ((a ∷ xs) ++ (b ∷ ys)) ≡ a.addr =
      after-end s ph size [] a (xs ++ (b ∷ ys)) ptr u next_to ∙ sym next_to in
    let marked =
      mark_empty-eq t ph b.addr total size u.slab.ne_null f.block.ne_null
        (w3-field s ph size a xs b ys ptr u ends next_to) slab.size_field
        (omega (arith, u.slab.most)) in
    let index = full-index t.mem ph size [] (joined_run size a b) ys slab in
    rw
      (
        free_block-joining s ph size (a ∷ xs) b ys ptr u ends fuel enough,
        after,
        eq→== (ptr + size) a.addr (sym next_to),
        join_after-run s ph size a xs b ys ptr u ends next_to fuel enough,
        marked,
      )
      (elim (ℕ_discrete total (page_size - size)) [
        | yes full ↦ rw (eq→== total (page_size - size) full) (
            returns (record {
              page = inr (
                full,
                write-same t.mem (ph + 8) 0,
                write-other t.mem (ph + 8) 0 (ph + 12) (omega arith) ∙ index full,
              );
              lost = lost-runs s ph size a xs b ys ptr u ends next_to;
              kept = λ c o ne8 ne12.
                  write-other t.mem (ph + 8) 0 c ne8
                  ∙ done-kept s ph size a xs b ys ptr u ends next_to c o ne12;
            }))
        | no some_used ↦ rw (ne→== total (page_size - size) some_used) (
            returns (record {
              page = inl (some_used, slab);
              lost = lost-runs s ph size a xs b ys ptr u ends next_to;
              kept = λ c o ne8 ne12. done-kept s ph size a xs b ys ptr u ends next_to c o ne12;
            }))
      ])
