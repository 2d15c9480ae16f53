-- ===== src/Pmm/Kfree/Neighbours.antt =====
-- The neighbours that `kfree` finds for an address in a list of free nodes.
use njuoslab_l1_kmalloc_kfre.Base.{
  ℕ, zero, suc, ◌≤◌, ◌<◌, ◌≡◌, ◌⊎◌, inl, inr, List, [], ◌∷◌, arith, All, length, ltb, ne→==,
  Bool-cases,
}
use njuoslab_l1_kmalloc_kfre.Machine.{State, ok}
use njuoslab_l1_kmalloc_kfre.Machine.Fields.{get_next-ok}
use njuoslab_l1_kmalloc_kfre.Pmm.FreeList.{Region, IsRegion, Links}
use njuoslab_l1_kmalloc_kfre.Pmm.Kfree.{neighbours, nearer_after, nearer_before}

-- The traversal on the list of regions.
pub after_of : (at after : ℕ) → List Region → ℕ
after_of at after [] = after
after_of at after (g ∷ gs) = after_of at (nearer_after at after g.addr) gs

pub before_of : (at before : ℕ) → List Region → ℕ
before_of at before [] = before
before_of at before (g ∷ gs) = before_of at (nearer_before at before g.addr) gs

pub neighbours-of :
    (s : State) (k at after before h : ℕ) (gs : List Region)
    → Links s.mem h gs 0
    → All IsRegion gs
    → length gs < k
    → neighbours k at after before h s ≡ ok (after_of at after gs, before_of at before gs) s
unfolding neighbours after_of before_of
neighbours-of s zero at after before h gs c v f = absurd (omega arith)
neighbours-of s (suc k) at after before h [] c v f = rw c
neighbours-of s (suc k) at after before h (g ∷ gs) (e, n, c) (v, vs) f = rw e (
    rw (ne→== g.addr 0 (omega (arith, v.ne_null)), get_next-ok g.addr s v.ne_null)
      (neighbours-of s k at (nearer_after at after g.addr) (nearer_before at before g.addr)
        (s.mem g.addr) gs c vs (omega arith)))

-- A property of what the traversal starts with and of all addresses holds of its results.
module _ (P : ℕ → Type 0) (at : ℕ) where
  pub after_of-from :
      (a : ℕ) (gs : List Region) → P a → All (λ g. P g.addr) gs → P (after_of at a gs)
  unfolding after_of
  after_of-from a [] p all = p
  after_of-from a (g ∷ gs) p (q, all) =
      after_of-from (nearer_after at a g.addr) gs
        (elim (nearer_after-cases a g.addr) [ inl e ↦ rw e p | inr e ↦ rw e q ]) all
    where
      nearer_after-cases : (a h : ℕ) → (nearer_after at a h ≡ a) ⊎ (nearer_after at a h ≡ h)
      nearer_after-cases a h = ground arith

  pub before_of-from :
      (b : ℕ) (gs : List Region) → P b → All (λ g. P g.addr) gs → P (before_of at b gs)
  unfolding before_of
  before_of-from b [] p all = p
  before_of-from b (g ∷ gs) p (q, all) =
      before_of-from (nearer_before at b g.addr) gs
        (elim (nearer_before-cases b g.addr) [ inl e ↦ rw e p | inr e ↦ rw e q ]) all
    where
      nearer_before-cases : (b h : ℕ) → (nearer_before at b h ≡ b) ⊎ (nearer_before at b h ≡ h)
      nearer_before-cases b h = ground arith

-- The results are on their side of `at`, unless they are NULL.
pub after_of-lt :
    (at a : ℕ) (gs : List Region)
    → (a ≡ 0) ⊎ (at < a)
    → (after_of at a gs ≡ 0) ⊎ (at < after_of at a gs)
unfolding after_of
after_of-lt at a [] h = h
after_of-lt at a (g ∷ gs) h = after_of-lt at (nearer_after at a g.addr) gs (ground arith)

pub before_of-lt :
    (at b : ℕ) (gs : List Region)
    → (b ≡ 0) ⊎ (b < at)
    → (before_of at b gs ≡ 0) ⊎ (before_of at b gs < at)
unfolding before_of
before_of-lt at b [] h = h
before_of-lt at b (g ∷ gs) h = before_of-lt at (nearer_before at b g.addr) gs (ground arith)

-- Nothing lies between `at` and the results.
abbrev pub NotNearer : (at after : ℕ) → Region → Type 0
NotNearer at after g = (g.addr ≤ at) ⊎ ((0 < after) × (after ≤ g.addr))

pub after_of-le :
    (at a b : ℕ) (gs : List Region)
    → at < b
    → (0 < a) × (a ≤ b)
    → (0 < after_of at a gs) × (after_of at a gs ≤ b)
unfolding after_of
after_of-le at a b [] lt h = h
after_of-le at a b (g ∷ gs) lt h = after_of-le at (nearer_after at a g.addr) b gs lt (ground arith)

pub after_of-NotNearer :
    (at a : ℕ) (gs : List Region) → All IsRegion gs → All (NotNearer at (after_of at a gs)) gs
unfolding after_of
after_of-NotNearer at a [] v = tt
after_of-NotNearer at a (g ∷ gs) (v, vs) = (
  elim (Bool-cases (ltb at g.addr)) [
    | inl above ↦ inr (
        after_of-le at (nearer_after at a g.addr) g.addr gs (ground arith)
          (ground (arith, v.ne_null)))
    | inr not_above ↦ inl (ground arith)
  ],
  after_of-NotNearer at (nearer_after at a g.addr) gs vs,
)

pub before_of-ge : (at b c : ℕ) (gs : List Region) → c ≤ b → b < at → c ≤ before_of at b gs
unfolding before_of
before_of-ge at b c [] h lt = h
before_of-ge at b c (g ∷ gs) h lt =
    before_of-ge at (nearer_before at b g.addr) c gs (ground arith) (ground arith)

abbrev pub NotLower : (at before : ℕ) → Region → Type 0
NotLower at before g = (at ≤ g.addr) ⊎ (g.addr ≤ before)

pub before_of-NotLower :
    (at b : ℕ) (gs : List Region) → (b < at) ⊎ (at ≡ 0) → All (NotLower at (before_of at b gs)) gs
unfolding before_of
before_of-NotLower at b [] h = tt
before_of-NotLower at b (g ∷ gs) h = (
  elim (Bool-cases (ltb g.addr at)) [
    | inl below ↦
        inr (before_of-ge at (nearer_before at b g.addr) g.addr gs (ground arith) (ground arith))
    | inr not_below ↦ inl (ground arith)
  ],
  before_of-NotLower at (nearer_before at b g.addr) gs (ground arith),
)
