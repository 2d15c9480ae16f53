-- ===== src/Pmm/Pages/Sides.antt =====
-- A page of blocks after `kfree` of one with a free run on one side, or on none.
use njuoslab_l1_kmalloc_kfre.Base.{
  ℕ, ◌+◌, ◌≡◌, ◌≢◌, ◌⊎◌, inl, inr, refl, List, [], ◌∷◌, ◌++◌, arith, All, ap, sym,
}
use native.Mathlib.Decide.{ℕ_discrete}
use njuoslab_l1_kmalloc_kfre.Machine.{State}
use njuoslab_l1_kmalloc_kfre.Pmm.FreeList.{Region, region, Outside}
use njuoslab_l1_kmalloc_kfre.Pmm.FreeList.Splice.{All-split}
use njuoslab_l1_kmalloc_kfre.Pmm.Kfree.Push.{InUse, BlockFreed, NotAdjacent}
use njuoslab_l1_kmalloc_kfre.Pmm.Kfree.Cleared.{EndsElsewhere}
use njuoslab_l1_kmalloc_kfre.Pmm.Kfree.Merged.{merge_of, merged-IsRun}
use njuoslab_l1_kmalloc_kfre.Pmm.Kfree.Behind.{MergedAfter}
use njuoslab_l1_kmalloc_kfre.Pmm.Kfree.Before.{widen, widen-Fits}
use njuoslab_l1_kmalloc_kfre.Pmm.Kfree.Widened.{Widened}
use njuoslab_l1_kmalloc_kfre.Pmm.Pages.{slab, empty, IsEmpty}
use njuoslab_l1_kmalloc_kfre.Pmm.Pages.Freed.{
  PageFreed, empty-Refreed, pushed-Refreed, merged-Refreed, widened-Refreed,
}

-- The region for which the number is `t`, if there is one.
pub record Found (f : Region → ℕ) (t : ℕ) (gs : List Region) : Type 0 where
  pub xs : List Region
  pub at : Region
  pub ys : List Region
  pub split : gs ≡ xs ++ (at ∷ ys)
  pub equal : f at ≡ t

pub Found-cases : (f : Region → ℕ) (t : ℕ) (gs : List Region) → All (λ g. f g ≢ t) gs ⊎ Found f t gs
Found-cases f t [] = inl tt
Found-cases f t (g ∷ gs) = elim (ℕ_discrete (f g) t) [
  | yes here ↦ inr (record { xs = []; at = g; ys = gs; split = refl; equal = here })
  | no not_here ↦
      (let r : All (λ k. f k ≢ t) (g ∷ gs) ⊎ Found f t (g ∷ gs) = elim (Found-cases f t gs) [
        | inl none_there ↦ inl (not_here, none_there)
        | inr e ↦ inr (record {
          xs = g ∷ e.xs;
          at = e.at;
          ys = e.ys;
          split = ap (λ l. g ∷ l) e.split;
          equal = e.equal;
        })
      ] in
        r)
]

pub both-NotAdjacent :
    (ptr size : ℕ) (gs : List Region)
    → All (EndsElsewhere ptr) gs
    → All (λ g. g.addr ≢ ptr + size) gs
    → All (NotAdjacent ptr size) gs
both-NotAdjacent ptr size [] a b = tt
both-NotAdjacent ptr size (g ∷ gs) (a, as') (b, bs) =
    ((a, (λ e. b (sym e))), both-NotAdjacent ptr size gs as' bs)

module _ (s : State) (ph size ptr : ℕ) where
  IsEmpty-of :
      (gs : List Region) (s' : State)
      → InUse s.mem ph size gs ptr
      → (s'.mem (ph + 8) ≡ 0)
      → (s'.mem (ph + 12) ≡ 1)
      → IsEmpty s'.mem ph
  IsEmpty-of gs s' u e8 e12 = record {
    ne_null = u.slab.ne_null;
    reach = u.slab.reach;
    size_field = e8;
    index = e12;
  }

  pub isolated-PageFreed :
      (gs : List Region) (s' : State)
      → BlockFreed s ph size (region ptr size ∷ gs) ptr s'
      → PageFreed s ph size gs ptr s'
  isolated-PageFreed gs s' r = record {
    pg = slab ph size (region ptr size ∷ gs);
    page = r.slab;
    bytes = pushed-Refreed ph size gs ptr;
    kept = λ b o n ne. r.kept b o n.1;
    heap = r.heap;
    pages = r.pages;
  }

  pub coalesced-PageFreed :
      (xs : List Region) (a : Region) (ys : List Region) (s' : State)
      → InUse s.mem ph size (xs ++ (a ∷ ys)) ptr
      → a.addr ≡ ptr + size
      → MergedAfter s ph size xs a ys ptr s'
      → PageFreed s ph size (xs ++ (a ∷ ys)) ptr s'
  coalesced-PageFreed xs a ys s' u next_to r = elim r.page [
    | inl (_, page) ↦ record {
      pg = slab ph size (merge_of ptr size a ∷ (xs ++ ys));
      page = page;
      bytes = merged-Refreed ph size xs a ys ptr next_to;
      kept = λ b o n ne. r.kept b o n.0 ne n.1;
      heap = r.heap;
      pages = r.pages;
    }
    | inr (full, e8, e12) ↦ record {
      pg = empty ph;
      page = IsEmpty-of (xs ++ (a ∷ ys)) s' u e8 e12;
      bytes =
          empty-Refreed ph size (xs ++ (a ∷ ys)) ptr (merge_of ptr size a) u.slab.runs u.run
            (merged-IsRun s.mem ph size xs a ys ptr u next_to) full u.slab.most
            λ b o os. let (_, oa, _) = All-split (Outside b) xs a ys os in omega arith;
      kept = λ b o n ne. r.kept b o n.0 ne n.1;
      heap = r.heap;
      pages = r.pages;
    }
  ]

  pub before-PageFreed :
      (xs : List Region) (g : Region) (ys : List Region) (s' : State)
      → InUse s.mem ph size (xs ++ (g ∷ ys)) ptr
      → g.addr + g.size ≡ ptr
      → Widened s ph size xs g ys s'
      → PageFreed s ph size (xs ++ (g ∷ ys)) ptr s'
  before-PageFreed xs g ys s' u ends r =
      let cover : (b : ℕ)
          → Outside b (region ptr size)
          → All (Outside b) (xs ++ (g ∷ ys))
          → Outside b (widen size g) =
        λ b o os. let (_, og, _) = All-split (Outside b) xs g ys os in omega arith in
      elim r.page [
        | inl (_, page) ↦ record {
          pg = slab ph size (xs ++ (widen size g ∷ ys));
          page = page;
          bytes = widened-Refreed ph size xs g ys ptr ends;
          kept = λ b o n ne. r.kept b (cover b o n.0) ne;
          heap = r.heap;
          pages = r.pages;
        }
        | inr (full, e8, e12) ↦ record {
          pg = empty ph;
          page = IsEmpty-of (xs ++ (g ∷ ys)) s' u e8 e12;
          bytes =
              empty-Refreed ph size (xs ++ (g ∷ ys)) ptr (widen size g) u.slab.runs u.run
                (widen-Fits s ph size xs g ys ptr u ends).run full u.slab.most cover;
          kept = λ b o n ne. r.kept b (cover b o n.0) ne;
          heap = r.heap;
          pages = r.pages;
        }
      ]
