-- ===== src/Pmm/FreeList.antt =====
-- What a chain of free nodes (`freenode_t`, `pagefreenode_t`) stands for: the free regions that its
-- nodes describe, in the order of the links.
pub mod Splice
use njuoslab_l1_kmalloc_kfre.Base.{
  ℕ, ◌+◌, ◌%◌, ◌^◌, ◌≤◌, ◌<◌, ◌≡◌, ◌≢◌, ◌⊎◌, refl, List, [], ◌∷◌, ◌++◌, arith, All, ◌∙◌,
}
use njuoslab_l1_kmalloc_kfre.Machine.Memory.{Mem, write, write-other, write-same}

pub record Region : Type 0 where
  pub addr : ℕ
  pub size : ℕ

abbrev pub region : ℕ → ℕ → Region
region a n = record { addr = a; size = n }

-- From `p` the links lead through nodes for the regions `gs` to `q`.
abbrev pub Links : Mem → ℕ → List Region → ℕ → Type 0
Links m p [] q = p ≡ q
Links m p (g ∷ gs) q = (p ≡ g.addr) × (m (g.addr + 8) ≡ g.size) × Links m (m g.addr) gs q

-- A region that can hold a node, in the units that the allocator cuts.
pub record IsRegion (g : Region) : Type 0 where
  pub ne_null : 0 < g.addr
  pub room : 16 ≤ g.size
  pub unit : g.size % 16 ≡ 0
  pub small : g.size < 2 ^ 31
  pub reach : g.addr + g.size ≤ 2 ^ 63

-- No address is in both.
abbrev pub Apart : Region → Region → Type 0
Apart g k = (g.addr + g.size ≤ k.addr) ⊎ (k.addr + k.size ≤ g.addr)

-- `a` is no address of the node of `g`.
abbrev pub OffNode : ℕ → Region → Type 0
OffNode a g = (a < g.addr) ⊎ (g.addr + 16 ≤ a)

-- `a` is no address of `g`.
abbrev pub Outside : ℕ → Region → Type 0
Outside a g = (a < g.addr) ⊎ (g.addr + g.size ≤ a)

-- The regions of a free list: each holds a node, and no two overlap.
abbrev pub Separate : List Region → Type 0
Separate [] = Unit
Separate (g ∷ gs) = IsRegion g × All (Apart g) gs × Separate gs

-- The address of the last node, and `d` where there is none.
abbrev pub last_addr : ℕ → List Region → ℕ
last_addr d [] = d
last_addr d (g ∷ gs) = last_addr g.addr gs

-- Two memories that agree on the fields of the nodes.
abbrev pub SameNodes : Mem → Mem → List Region → Type 0
SameNodes m m' gs = All (λ g. (m' g.addr ≡ m g.addr) × (m' (g.addr + 8) ≡ m (g.addr + 8))) gs

pub Links-same :
    (m m' : Mem) (p q : ℕ) (gs : List Region) → SameNodes m m' gs → Links m p gs q → Links m' p gs q
Links-same m m' p q [] same c = c
Links-same m m' p q (g ∷ gs) (s, t) (e, n, c) =
    (e, s.1 ∙ n, let r : Links m' (m g.addr) gs q = Links-same m m' (m g.addr) q gs t c in rw s.0 r)

pub write-SameNodes :
    (m : Mem) (a v : ℕ) (gs : List Region) → All (OffNode a) gs → SameNodes m (write m a v) gs
write-SameNodes m a v [] h = tt
write-SameNodes m a v (g ∷ gs) (o, h) = (
  (write-other m a v g.addr (omega arith), write-other m a v (g.addr + 8) (omega arith)),
  write-SameNodes m a v gs h,
)

-- A write off the nodes leaves the path.
pub Links-write :
    (m : Mem) (p q a v : ℕ) (gs : List Region)
    → All (OffNode a) gs
    → Links m p gs q
    → Links (write m a v) p gs q
Links-write m p q a v gs o = Links-same m (write m a v) p q gs (write-SameNodes m a v gs o)

-- Paths join, and come apart.
pub Links-append :
    (m : Mem) (p q r : ℕ) (xs ys : List Region)
    → Links m p xs q
    → Links m q ys r
    → Links m p (xs ++ ys) r
Links-append m p q r [] ys c d = rw c d
Links-append m p q r (g ∷ xs) ys (e, n, c) d = (e, n, Links-append m (m g.addr) q r xs ys c d)

pub Links-split :
    (m : Mem) (p r : ℕ) (xs : List Region) (g : Region) (ys : List Region)
    → Links m p (xs ++ (g ∷ ys)) r
    → Links m p xs g.addr × Links m g.addr (g ∷ ys) r
Links-split m p r [] g ys (e, n, c) = (e, (refl, n, c))
Links-split m p r (x ∷ xs) g ys (e, n, c) =
    let (a, b) = Links-split m (m x.addr) r xs g ys c in ((e, n, a), b)

-- An address of a region is on no node of the regions apart from it.
pub Apart-OffNode :
    (g : Region) (a : ℕ) (gs : List Region)
    → g.addr ≤ a
    → a < g.addr + g.size
    → All IsRegion gs
    → All (Apart g) gs
    → All (OffNode a) gs
Apart-OffNode g a [] lo hi v h = tt
Apart-OffNode g a (k ∷ gs) lo hi (v, vs) (h, rest) =
    (omega arith, Apart-OffNode g a gs lo hi vs rest)

pub Separate-IsRegion : (gs : List Region) → Separate gs → All IsRegion gs
Separate-IsRegion [] s = tt
Separate-IsRegion (g ∷ gs) (v, a, s) = (v, Separate-IsRegion gs s)

-- A region apart from all the others is the last node's neighbour only.
last-OffNode :
    (x g : Region) (gs : List Region)
    → IsRegion x
    → All (Apart x) (g ∷ gs)
    → All IsRegion (g ∷ gs)
    → OffNode (last_addr g.addr gs) x × (last_addr g.addr gs ≢ 0)
last-OffNode x g [] v (a, _) (w, _) = (omega arith, omega arith)
last-OffNode x g (k ∷ gs) v (_, a) (_, w) = last-OffNode x k gs v a w

-- A write to the last link redirects the path.
pub Links-redirect :
    (m : Mem) (p q r : ℕ) (g : Region) (gs : List Region)
    → Separate (g ∷ gs)
    → Links m p (g ∷ gs) q
    → Links (write m (last_addr g.addr gs) r) p (g ∷ gs) r
Links-redirect m p q r g [] s (e, n, c) =
    (e, write-other m g.addr r (g.addr + 8) (omega arith) ∙ n, write-same m g.addr r)
Links-redirect m p q r g (k ∷ gs) (v, a, s) (e, n, c) =
    let w = Separate-IsRegion (k ∷ gs) s in
    let off = last-OffNode g k gs v a w in
    let at = last_addr k.addr gs in
    let tail : Links (write m at r) (m g.addr) (k ∷ gs) r =
      Links-redirect m (m g.addr) q r k gs s c in
    (
      e,
      write-other m at r (g.addr + 8) (omega (arith, off.0)) ∙ n,
      rw (write-other m at r g.addr (omega (arith, off.0))) tail,
    )

-- A memory that differs only inside `g` has the same nodes apart from `g`.
pub Apart-SameNodes :
    (m m' : Mem) (g : Region) (gs : List Region)
    → ((b : ℕ) → Outside b g → m' b ≡ m b)
    → All IsRegion gs
    → All (Apart g) gs
    → SameNodes m m' gs
Apart-SameNodes m m' g [] same v a = tt
Apart-SameNodes m m' g (k ∷ gs) same (v, vs) (a, rest) = (
  (same k.addr (omega arith), same (k.addr + 8) (omega arith)),
  Apart-SameNodes m m' g gs same vs rest,
)
