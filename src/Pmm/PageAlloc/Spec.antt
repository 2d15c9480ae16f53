-- ===== src/Pmm/PageAlloc/Spec.antt =====
-- What first fit keeps: every byte of the free list is in the page or still free.
use njuoslab_l1_kmalloc_kfre.Base.{
  ℕ, ◌+◌, ◌≡◌, inl, inr, some, List, [], ◌∷◌, ◌++◌, All, arith, if◌then◌else◌, ltb, Option-cases,
}
use njuoslab_l1_kmalloc_kfre.Pmm.FreeList.{Region, region}
use njuoslab_l1_kmalloc_kfre.Machine.{State}
use njuoslab_l1_kmalloc_kfre.Machine.Returns
use njuoslab_l1_kmalloc_kfre.Machine.Returns.{Returns}
use njuoslab_l1_kmalloc_kfre.Pmm.FreeHeap.{FreeHeap, Unchanged}
use njuoslab_l1_kmalloc_kfre.Pmm.PageAlloc.{page_size, allockpage}
use njuoslab_l1_kmalloc_kfre.Pmm.PageAlloc.Refinement.{Outcome, allockpage-first_fit}
use njuoslab_l1_kmalloc_kfre.Base.{◌<◌, ◌⊎◌, length, none}
use njuoslab_l1_kmalloc_kfre.Pmm.PageAlloc.FirstFit.{first_fit, first_fit-cases, Fit, remainder}
use njuoslab_l1_kmalloc_kfre.Pmm.PageAlloc.Search.{TooSmall}
use mathlib.Core.Path.{subst}

-- The bytes of the regions together.
pub total : List Region → ℕ
total [] = 0
total (g ∷ gs) = g.size + total gs

-- How often an address is free: 0 or 1 in a list of separate regions.
pub covers : ℕ → List Region → ℕ
covers b [] = 0
covers b (g ∷ gs) =
    (if ltb b g.addr then 0 else if ltb b (g.addr + g.size) then 1 else 0) + covers b gs

-- If first fit finds a page, it is at the address of some region, and each address is counted in
-- the page and the remaining list together as often as in the old list; so no byte is lost, none
-- is given twice, and the total falls by the size of a page.
first_fit-covers :
    (b : ℕ) (gs : List Region) {a : ℕ} {gs' : List Region}
    → first_fit gs ≡ some (a, gs')
    → (covers b (region a page_size ∷ gs') ≡ covers b gs) × (total gs' + page_size ≡ total gs)
unfolding first_fit covers total
first_fit-covers b [] e = ground arith
first_fit-covers b (g ∷ gs) {a} {gs'} e = elim (Option-cases (first_fit gs)) [
  | inl n ↦ ground arith
  | inr ((p, r), q) ↦ ground (arith, first_fit-covers b gs q)
]

-- What the caller sees of the free list's bytes, in either case.
abbrev pub Conserved : State → List Region → ℕ → State → Type 0
Conserved s gs p s' =
    ((p ≡ 0) × All TooSmall gs × Unchanged s s')
    ⊎ ((gs' : List Region) × FreeHeap gs' s'
        × ((b : ℕ) → covers b (region p page_size ∷ gs') ≡ covers b gs)
        × (total gs' + page_size ≡ total gs))

-- `allockpage` neither loses a byte nor gives one twice. Where it returns NULL, no region holds a page, the
-- memory, the free list and the page lists are as before, and the lock is free. Else each address is counted
-- in the page and the free list that is left together as often as it was in the old free list, the new one
-- is well formed, and its total is smaller by a page.
pub allockpage-Conserved :
    (fuel : ℕ) (s : State) (gs : List Region)
    → FreeHeap gs s
    → length gs < fuel
    → Returns (Conserved s gs) (allockpage fuel s)
allockpage-Conserved fuel s gs h f =
    Returns.mono (allockpage-first_fit fuel s gs h f) λ p s' r. go (first_fit-cases gs) p s' r
  where
    go :
        (All TooSmall gs × (first_fit gs ≡ none)) ⊎ Fit gs
        → (p : ℕ) (s' : State) → Outcome s gs (first_fit gs) p s'
        → Conserved s gs p s'
    go (inl (small, e)) p s' r =
        let (null, same) = subst (λ o. Outcome s gs o p s') e r in inl (null, small, same)
    go (inr fit) p s' r =
        let (at, taken) = subst (λ o. Outcome s gs o p s') fit.chosen r in
        let covered = first_fit-covers 0 gs fit.chosen in
        inr (
          fit.xs ++ remainder fit.at fit.ys,
          taken.heap,
          (λ b. rw at (first_fit-covers b gs fit.chosen).0),
          covered.1,
        )
