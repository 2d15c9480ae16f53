-- ===== src/Pmm/Pages/Back.antt =====
-- `kfree` of a block gives its page what it should, whichever free runs touch the block.
use njuoslab_l1_kmalloc_kfre.Base.{
  ℕ, ◌+◌, ◌<◌, ◌≡◌, ◌≢◌, ◌⊎◌, inl, inr, List, [], ◌∷◌, ◌++◌, arith, All, sym, length,
}
use mathlib.Core.Path.{subst}
use njuoslab_l1_kmalloc_kfre.Machine.{State}
use njuoslab_l1_kmalloc_kfre.Machine.Returns
use njuoslab_l1_kmalloc_kfre.Machine.Returns.{Returns}
use njuoslab_l1_kmalloc_kfre.Pmm.FreeList.{Region}
use njuoslab_l1_kmalloc_kfre.Pmm.FreeList.Splice.{All-join, All-split}
use njuoslab_l1_kmalloc_kfre.Pmm.Kfree.{free_block}
use njuoslab_l1_kmalloc_kfre.Pmm.Kfree.Push.{InUse}
use njuoslab_l1_kmalloc_kfre.Pmm.Kfree.Isolated.{free_block_isolated}
use njuoslab_l1_kmalloc_kfre.Pmm.Kfree.Cleared.{EndsElsewhere}
use njuoslab_l1_kmalloc_kfre.Pmm.Kfree.Coalesce.{free_block_coalesce}
use njuoslab_l1_kmalloc_kfre.Pmm.Kfree.Widened.{free_block_widen}
use njuoslab_l1_kmalloc_kfre.Pmm.Kfree.Between.{Order}
use njuoslab_l1_kmalloc_kfre.Pmm.Kfree.Joined.{free_block-Joined}
use njuoslab_l1_kmalloc_kfre.Pmm.Pages.Both.{Order-before, Order-behind, Joined-PageFreed}
use njuoslab_l1_kmalloc_kfre.Pmm.Pages.Freed.{PageFreed}
use njuoslab_l1_kmalloc_kfre.Pmm.Pages.Sides.{
  Found-cases, both-NotAdjacent, isolated-PageFreed, coalesced-PageFreed, before-PageFreed,
}

-- The list does not begin with a run at this address.
abbrev pub HeadElsewhere : ℕ → List Region → Type 0
HeadElsewhere t [] = Unit
HeadElsewhere t (k ∷ ks) = k.addr ≢ t

-- Not both a run that ends where the block begins and, as the first of the list, one that begins where it
-- ends.
abbrev pub Joinable : (ptr size : ℕ) → List Region → Type 0
Joinable ptr size gs = All (EndsElsewhere ptr) gs ⊎ HeadElsewhere (ptr + size) gs

module _ (fuel : ℕ) (s : State) (ph size ptr : ℕ) (us : List Region) (b : Region) (vs : List Region)
    (u : InUse s.mem ph size (us ++ (b ∷ vs)) ptr) (ends : b.addr + b.size ≡ ptr)
    (enough : length (us ++ (b ∷ vs)) < fuel) where
  joined_at :
      (a : Region)
      → Order size us b vs a
      → a.addr ≡ ptr + size
      → Returns (λ _. PageFreed s ph size (us ++ (b ∷ vs)) ptr) (free_block fuel ph ptr s)
  joined_at a o next_to =
      Returns.mono (free_block-Joined fuel s ph size us b vs a ptr o u ends next_to enough)
        λ _ s' r. Joined-PageFreed ph size us b vs a ptr o ends next_to s s' u r

  -- No run begins where the block ends.
  alone_at :
      All (λ g. g.addr ≢ ptr + size) us
      → All (λ g. g.addr ≢ ptr + size) vs
      → Returns (λ _. PageFreed s ph size (us ++ (b ∷ vs)) ptr) (free_block fuel ph ptr s)
  alone_at nu nv =
      let alone = All-join (λ g. g.addr ≢ ptr + size) us (b ∷ vs) nu (omega arith, nv) in
      Returns.mono (free_block_widen fuel s ph size us b vs ptr u ends alone enough)
        λ _ s' m. before-PageFreed s ph size ptr us b vs s' u ends m

-- The run that begins where the block ends stands before `b` in the list.
front_at :
    (fuel : ℕ) (s : State) (ph size ptr : ℕ) (xs : List Region) (a : Region) (zs : List Region)
    (b : Region) (vs : List Region)
    → InUse s.mem ph size ((xs ++ (a ∷ zs)) ++ (b ∷ vs)) ptr
    → b.addr + b.size ≡ ptr
    → a.addr ≡ ptr + size
    → HeadElsewhere (ptr + size) ((xs ++ (a ∷ zs)) ++ (b ∷ vs))
    → length ((xs ++ (a ∷ zs)) ++ (b ∷ vs)) < fuel
    → Returns
        (λ _. PageFreed s ph size ((xs ++ (a ∷ zs)) ++ (b ∷ vs)) ptr)
        (free_block fuel ph ptr s)
front_at fuel s ph size ptr [] a zs b vs u ends next_to head enough = absurd (head next_to)
front_at fuel s ph size ptr (x ∷ xs) a zs b vs u ends next_to head enough =
    joined_at fuel s ph size ptr ((x ∷ xs) ++ (a ∷ zs)) b vs u ends enough a
      (Order-before size x xs a zs b vs) next_to

ended_at :
    (fuel : ℕ) (s : State) (ph size ptr : ℕ) (us : List Region) (b : Region) (vs : List Region)
    → InUse s.mem ph size (us ++ (b ∷ vs)) ptr
    → b.addr + b.size ≡ ptr
    → Joinable ptr size (us ++ (b ∷ vs))
    → length (us ++ (b ∷ vs)) < fuel
    → Returns (λ _. PageFreed s ph size (us ++ (b ∷ vs)) ptr) (free_block fuel ph ptr s)
ended_at fuel s ph size ptr us b vs u ends (inl far) enough =
    absurd ((All-split (EndsElsewhere ptr) us b vs far).1 ends)
ended_at fuel s ph size ptr us b vs u ends (inr head) enough =
    elim (Found-cases (λ g. g.addr) (ptr + size) us) [
      | inr f ↦
          let e = f.split in
          subst
            (λ l. Returns (λ _. PageFreed s ph size (l ++ (b ∷ vs)) ptr) (free_block fuel ph ptr s))
            (sym e)
            (front_at fuel s ph size ptr f.xs f.at f.ys b vs
              (subst (λ l. InUse s.mem ph size (l ++ (b ∷ vs)) ptr) e u) ends f.equal
              (subst (λ l. HeadElsewhere (ptr + size) (l ++ (b ∷ vs))) e head)
              (subst (λ (l : List Region). length (l ++ (b ∷ vs)) < fuel) e enough))
      | inl not_front ↦ elim (Found-cases (λ g. g.addr) (ptr + size) vs) [
        | inr f ↦
            joined_at fuel s ph size ptr us b vs u ends enough f.at
              (subst (λ l. Order size us b l f.at) (sym f.split)
                (Order-behind size us b f.xs f.at f.ys))
              f.equal
        | inl not_back ↦ alone_at fuel s ph size ptr us b vs u ends enough not_front not_back
      ]
    ]

coalesced_at :
    (fuel : ℕ) (s : State) (ph size ptr : ℕ) (gs xs : List Region) (a : Region) (ys : List Region)
    → gs ≡ xs ++ (a ∷ ys)
    → InUse s.mem ph size gs ptr
    → a.addr ≡ ptr + size
    → All (EndsElsewhere ptr) gs
    → length gs < fuel
    → Returns (λ _. PageFreed s ph size gs ptr) (free_block fuel ph ptr s)
coalesced_at fuel s ph size ptr gs xs a ys e u next_to far enough =
    let u' = subst (λ l. InUse s.mem ph size l ptr) e u in
    let r =
      free_block_coalesce fuel s ph size xs a ys ptr u' next_to
        (subst (All (EndsElsewhere ptr)) e far)
        (subst (λ (l : List Region). length l < fuel) e enough) in
    Returns.mono r λ _ s' m.
      subst (λ l. PageFreed s ph size l ptr s') (sym e)
        (coalesced-PageFreed s ph size ptr xs a ys s' u' next_to m)

pub free_block-PageFreed :
    (fuel : ℕ) (s : State) (ph size ptr : ℕ) (k : Region) (ks : List Region)
    → InUse s.mem ph size (k ∷ ks) ptr
    → Joinable ptr size (k ∷ ks)
    → length (k ∷ ks) < fuel
    → Returns (λ _. PageFreed s ph size (k ∷ ks) ptr) (free_block fuel ph ptr s)
free_block-PageFreed fuel s ph size ptr k ks u side enough =
    let gs = k ∷ ks in
    elim (Found-cases (λ g. g.addr + g.size) ptr gs) [
      | inr f ↦
          let e = f.split in
          subst (λ l. Returns (λ _. PageFreed s ph size l ptr) (free_block fuel ph ptr s)) (sym e)
            (ended_at fuel s ph size ptr f.xs f.at f.ys (subst (λ l. InUse s.mem ph size l ptr) e u)
              f.equal (subst (Joinable ptr size) e side)
              (subst (λ (l : List Region). length l < fuel) e enough))
      | inl far ↦ elim (Found-cases (λ g. g.addr) (ptr + size) gs) [
        | inr f ↦ coalesced_at fuel s ph size ptr gs f.xs f.at f.ys f.split u f.equal far enough
        | inl alone ↦
            Returns.mono
              (free_block_isolated fuel s ph size k ks ptr u
                (both-NotAdjacent ptr size gs far alone) enough)
              λ _ s' r. isolated-PageFreed s ph size ptr gs s' r
      ]
    ]
