-- ===== src/Pmm/PageAlloc/FirstFit.antt =====
-- First fit on lists of regions: what `allockpage` promises.
use njuoslab_l1_kmalloc_kfre.Base.{
  ℕ, ◌+◌, ◌-◌, ◌≤◌, ◌≡◌, ◌⊎◌, inl, inr, refl, Bool-cases, Option, none, some, List, [], ◌∷◌, ◌++◌,
  All, ltb, ◌==◌, if◌then◌else◌, ap, ltb→le, ltb→lt,
}
use njuoslab_l1_kmalloc_kfre.Pmm.FreeList.{Region, region}
use njuoslab_l1_kmalloc_kfre.Pmm.PageAlloc.{page_size}
use njuoslab_l1_kmalloc_kfre.Pmm.PageAlloc.Search.{TooSmall}

abbrev pub rest_of : Region → Region
rest_of g = region (g.addr + page_size) (g.size - page_size)

-- What is left where a page has been cut off the front of `g`.
abbrev pub remainder : Region → List Region → List Region
remainder g ys = if g.size == page_size then ys else rest_of g ∷ ys

abbrev pub behind : Region → Option (ℕ × List Region) → Option (ℕ × List Region)
behind g none = none
behind g (some (a, gs)) = some (a, g ∷ gs)

-- The page's address and the free list that is left.
unfoldable pub first_fit : List Region → Option (ℕ × List Region)
first_fit [] = none
first_fit (g ∷ gs) =
    if ltb g.size page_size then behind g (first_fit gs) else some (g.addr, remainder g gs)

-- The list split at the region that first fit chooses.
pub record Fit (gs : List Region) : Type 0 where
  pub xs : List Region
  pub at : Region
  pub ys : List Region
  pub split : gs ≡ xs ++ (at ∷ ys)
  pub skipped : All TooSmall xs
  pub large : page_size ≤ at.size
  pub chosen : first_fit gs ≡ some (at.addr, xs ++ remainder at ys)

pub first_fit-cases : (gs : List Region) → (All TooSmall gs × (first_fit gs ≡ none)) ⊎ Fit gs
unfolding first_fit
first_fit-cases [] = inl (tt, refl)
first_fit-cases (g ∷ gs) = elim (Bool-cases (ltb g.size page_size)) [
  | inl small ↦
      (let r : (All TooSmall (g ∷ gs) × (first_fit (g ∷ gs) ≡ none)) ⊎ Fit (g ∷ gs) =
          elim (first_fit-cases gs) [
            | inl (a, e) ↦ inl ((ltb→lt _ _ small, a), rw (small, e))
            | inr f ↦ inr (record {
              xs = g ∷ f.xs;
              at = f.at;
              ys = f.ys;
              split = ap (λ l. g ∷ l) f.split;
              skipped = (ltb→lt _ _ small, f.skipped);
              large = f.large;
              chosen = rw (small, f.chosen);
            })
          ] in
        r)
  | inr large ↦ inr (record {
    xs = [];
    at = g;
    ys = gs;
    split = refl;
    skipped = tt;
    large = ltb→le _ _ large;
    chosen = rw large;
  })
]
