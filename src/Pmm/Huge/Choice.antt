-- ===== src/Pmm/Huge/Choice.antt =====
-- The node that `kallocHugeMemory` chooses: of those that can hold the request, the highest.
use njuoslab_l1_kmalloc_kfre.Base.{
  ℕ, zero, suc, ◌≤◌, ◌<◌, ◌≡◌, ◌⊎◌, inl, inr, refl, List, [], ◌∷◌, ◌++◌, arith, All, length,
  if◌then◌else◌, leb, ap, Bool-cases, ne→==, leb→le,
}
use njuoslab_l1_kmalloc_kfre.Base.Words.{sext-small}
use njuoslab_l1_kmalloc_kfre.Machine.{State, ok}
use njuoslab_l1_kmalloc_kfre.Machine.Fields.{get_next-ok, get_size-ok}
use njuoslab_l1_kmalloc_kfre.Pmm.FreeList.{Region, IsRegion, Links}
use njuoslab_l1_kmalloc_kfre.Pmm.Huge.{higher, find_highest}

-- The traversal on the list of regions.
unfoldable pub best : (size highnode : ℕ) → List Region → ℕ
best size hi [] = hi
best size hi (g ∷ gs) = best size (if leb size g.size then higher hi g.addr else hi) gs

pub find_highest-best :
    (s : State) (k size hi h : ℕ) (gs : List Region)
    → Links s.mem h gs 0
    → All IsRegion gs
    → length gs < k
    → find_highest k size hi h s ≡ ok (best size hi gs) s
unfolding find_highest best
find_highest-best s zero size hi h gs c v f = absurd (omega arith)
find_highest-best s (suc k) size hi h [] c v f = rw c
find_highest-best s (suc k) size hi h (g ∷ gs) (e, n, c) (v, vs) f = rw e (
    rw
      (
        ne→== g.addr 0 (omega (arith, v.ne_null)),
        get_size-ok g.addr s v.ne_null,
        get_next-ok g.addr s v.ne_null,
        n,
        sext-small g.size v.small,
      )
      (find_highest-best s k size (if leb size g.size then higher hi g.addr else hi) (s.mem g.addr)
        gs c vs (omega arith)))

abbrev pub CannotHold : ℕ → Region → Type 0
CannotHold size g = g.size < size

-- `g` is chosen: it can hold the request, and stands above every other that can.
pub record Chosen (size : ℕ) (gs : List Region) (p : ℕ) : Type 0 where
  pub xs : List Region
  pub at : Region
  pub ys : List Region
  pub split : gs ≡ xs ++ (at ∷ ys)
  pub address : p ≡ at.addr
  pub holds : size ≤ at.size

pub best-ge : (size hi : ℕ) (gs : List Region) → hi ≤ best size hi gs
unfolding best
best-ge size hi [] = omega arith
best-ge size hi (g ∷ gs) = ground (arith, best-ge size hi gs, best-ge size (higher hi g.addr) gs)

-- Nothing that can hold the request stands above the result.
abbrev pub NotAbove : ℕ → ℕ → Region → Type 0
NotAbove size p g = (g.size < size) ⊎ (g.addr ≤ p)

pub best-NotAbove : (size hi : ℕ) (gs : List Region) → All (NotAbove size (best size hi gs)) gs
unfolding best
best-NotAbove size hi [] = tt
best-NotAbove size hi (g ∷ gs) = (
  elim (Bool-cases (leb size g.size)) [
    | inl fits ↦ rw fits (ground (arith, best-ge size (higher hi g.addr) gs))
    | inr small ↦ ground arith
  ],
  best-NotAbove size (if leb size g.size then higher hi g.addr else hi) gs,
)

higher-cases : (hi a : ℕ) → (higher hi a ≡ hi) ⊎ (higher hi a ≡ a)
higher-cases hi a = ground arith

Chosen-cons :
    (size : ℕ) (g : Region) (gs : List Region) (p : ℕ) → Chosen size gs p → Chosen size (g ∷ gs) p
Chosen-cons size g gs p c = record {
  xs = g ∷ c.xs;
  at = c.at;
  ys = c.ys;
  split = ap (λ l. g ∷ l) c.split;
  address = c.address;
  holds = c.holds;
}

-- The result is what the traversal had, or a region that can hold the request.
pub best-cases :
    (size hi : ℕ) (gs : List Region) → (best size hi gs ≡ hi) ⊎ Chosen size gs (best size hi gs)
unfolding best
best-cases size hi [] = inl refl
best-cases size hi (g ∷ gs) = elim (Bool-cases (leb size g.size)) [
  | inl fits ↦ rw fits (elim (higher-cases hi g.addr) [
    | inl old ↦ rw old (later hi (best-cases size hi gs))
    | inr new ↦ rw new (elim (best-cases size g.addr gs) [
      | inl same ↦ inr (record {
        xs = [];
        at = g;
        ys = gs;
        split = refl;
        address = same;
        holds = leb→le _ _ fits;
      })
      | inr c ↦ inr (Chosen-cons size g gs (best size g.addr gs) c)
    ])
  ])
  | inr small ↦ rw small (later hi (best-cases size hi gs))
]
  where
    later :
        (k : ℕ)
        → (best size k gs ≡ k) ⊎ Chosen size gs (best size k gs)
        → (best size k gs ≡ k) ⊎ Chosen size (g ∷ gs) (best size k gs)
    later k (inl e) = inl e
    later k (inr c) = inr (Chosen-cons size g gs (best size k gs) c)

-- The result NULL means that no region can hold the request.
pub best-null :
    (size p : ℕ) (gs : List Region)
    → All IsRegion gs
    → All (NotAbove size p) gs
    → p ≡ 0
    → All (CannotHold size) gs
best-null size p [] v a e = tt
best-null size p (g ∷ gs) (v, vs) (a, rest) e =
    (omega (arith, v.ne_null), best-null size p gs vs rest e)
