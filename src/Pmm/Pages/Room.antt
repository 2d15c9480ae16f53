-- ===== src/Pmm/Pages/Room.antt =====
-- The page that first fit cuts off a free list, as what is apart from that list sees it.
use njuoslab_l1_kmalloc_kfre.Base.{
  ℕ, ◌+◌, ◌^◌, ◌≤◌, ◌<◌, ◌≡◌, ◌⊎◌, inl, inr, Bool-cases, List, [], ◌∷◌, ◌++◌, All, arith, length,
  ◌==◌, some, none,
}
use mathlib.Core.Path.{subst}
use njuoslab_l1_kmalloc_kfre.Machine.{State}
use njuoslab_l1_kmalloc_kfre.Machine.Returns
use njuoslab_l1_kmalloc_kfre.Machine.Returns.{Returns}
use njuoslab_l1_kmalloc_kfre.Pmm.FreeList.{Region, Apart, Outside, Separate}
use njuoslab_l1_kmalloc_kfre.Pmm.FreeList.Splice.{All-split, All-join, Separate-Parts}
use njuoslab_l1_kmalloc_kfre.Pmm.FreeHeap.{FreeHeap, Unchanged}
use njuoslab_l1_kmalloc_kfre.Pmm.PageAlloc.{page_size, allockpage}
use njuoslab_l1_kmalloc_kfre.Pmm.PageAlloc.Search.{TooSmall}
use njuoslab_l1_kmalloc_kfre.Pmm.PageAlloc.FirstFit.{first_fit-cases, Fit, remainder, rest_of}
use njuoslab_l1_kmalloc_kfre.Pmm.PageAlloc.Refinement.{
  page_at, PageTaken, Outcome, allockpage-first_fit,
}

-- The page `a` has been cut off `gs`, which leaves `gs'`: what is apart from `gs` is apart from both.
pub record Room (gs : List Region) (a : ℕ) (gs' : List Region) : Type 0 where
  pub ne_null : 0 < a
  pub reach : a + page_size ≤ 2 ^ 63
  pub apart : (r : Region) → All (Apart r) gs → Apart r (page_at a) × All (Apart r) gs'
  pub outside : (b : ℕ) → All (Outside b) gs → Outside b (page_at a) × All (Outside b) gs'
  pub no_longer : length gs' ≤ length gs
  pub some_large : All TooSmall gs → ⊥

-- A property of what remains, from the property of the region that was cut.
All-remainder :
    (P : Region → Type 0) (g : Region) (ys : List Region)
    → P (rest_of g)
    → All P ys
    → All P (remainder g ys)
All-remainder P g ys p q = elim (Bool-cases (g.size == page_size)) [
  | inl same ↦ rw same q
  | inr differ ↦ rw differ (p, q)
]

length-remainder :
    (xs : List Region) (g : Region) (ys : List Region)
    → length (xs ++ remainder g ys) ≤ length (xs ++ (g ∷ ys))
length-remainder [] g ys = elim (Bool-cases (g.size == page_size)) [
  | inl same ↦ rw same (omega arith)
  | inr differ ↦ rw differ (omega arith)
]
length-remainder (x ∷ xs) g ys = omega (arith, length-remainder xs g ys)

Fit-Room :
    (gs : List Region) (f : Fit gs) → Separate gs → Room gs f.at.addr (f.xs ++ remainder f.at f.ys)
Fit-Room gs f sep =
    let v = (Separate-Parts f.xs f.at f.ys (subst Separate f.split sep)).here in
    let large = f.large in
    record {
      ne_null = v.ne_null;
      reach = omega (arith, v.reach);
      apart = λ r o.
          let (x, g, y) = All-split (Apart r) f.xs f.at f.ys (subst (All (Apart r)) f.split o) in
          (
            omega arith,
            All-join (Apart r) f.xs (remainder f.at f.ys) x
                (All-remainder (Apart r) f.at f.ys (omega arith) y),
          );
      outside = λ b o.
          let (x, g, y) =
            All-split (Outside b) f.xs f.at f.ys (subst (All (Outside b)) f.split o) in
          (
            omega arith,
            All-join (Outside b) f.xs (remainder f.at f.ys) x
                (All-remainder (Outside b) f.at f.ys (omega arith) y),
          );
      no_longer = rw f.split (length-remainder f.xs f.at f.ys);
      some_large = λ small.
          let (_, g, _) = All-split TooSmall f.xs f.at f.ys (subst (All TooSmall) f.split small) in
          omega arith;
    }

-- What `allockpage` returns: NULL, with all as before, if no region holds a page; else a page.
abbrev pub PageOrNull : List Region → State → ℕ → State → Type 0
PageOrNull gs s p s' =
    ((p ≡ 0) × All TooSmall gs × Unchanged s s')
    ⊎ ((gs' : List Region) × Room gs p gs' × PageTaken s gs p gs' s')

pub allockpage-Room :
    (fuel : ℕ) (s : State) (gs : List Region)
    → FreeHeap gs s
    → length gs < fuel
    → Returns (PageOrNull gs s) (allockpage fuel s)
allockpage-Room fuel s gs h f = elim (first_fit-cases gs) [
  | inl (t, e) ↦
      let r : Returns (Outcome s gs none) (allockpage fuel s) =
        subst (λ o. Returns (Outcome s gs o) (allockpage fuel s)) e
          (allockpage-first_fit fuel s gs h f) in
      Returns.mono r λ p s' o. inl (o.0, t, o.1)
  | inr fit ↦
      let gs' = fit.xs ++ remainder fit.at fit.ys in
      let r : Returns (Outcome s gs (some (fit.at.addr, gs'))) (allockpage fuel s) =
        subst (λ o. Returns (Outcome s gs o) (allockpage fuel s)) fit.chosen
          (allockpage-first_fit fuel s gs h f) in
      Returns.mono r λ p s' o.
        (let got : (gs' : List Region) × Room gs p gs' × PageTaken s gs p gs' s' =
            (gs', rw o.0 (Fit-Room gs fit h.separate), rw o.0 o.1) in
          inr got)
]
