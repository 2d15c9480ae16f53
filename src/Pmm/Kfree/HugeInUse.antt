-- ===== src/Pmm/Kfree/HugeInUse.antt =====
-- A large block that `kfree` is given: its header, its place between the free regions of the heap, and
-- the heap once `kfree` has zeroed it.
use njuoslab_l1_kmalloc_kfre.Base.{
  ℕ, ◌+◌, ◌-◌, ◌≤◌, ◌≡◌, ◌≢◌, ◌⊎◌, inl, inr, refl, List, [], ◌∷◌, ◌++◌, arith, All, sym,
}
use njuoslab_l1_kmalloc_kfre.Machine.{State}
use njuoslab_l1_kmalloc_kfre.Machine.Memory.{Mem, clear, clear-outside}
use njuoslab_l1_kmalloc_kfre.Pmm.FreeList.{
  Region, IsRegion, Apart, Outside, Separate, Links, Links-same, Separate-IsRegion, Apart-SameNodes,
}
use njuoslab_l1_kmalloc_kfre.Pmm.FreeList.Splice.{All-join, Separate-Parts}
use njuoslab_l1_kmalloc_kfre.Pmm.FreeHeap.{FreeHeap}
use njuoslab_l1_kmalloc_kfre.Pmm.Huge.{huge_magic}
use njuoslab_l1_kmalloc_kfre.Pmm.Huge.Refinement.{block_of}
use njuoslab_l1_kmalloc_kfre.Pmm.Kfree.Neighbours.{
  after_of, before_of, after_of-from, before_of-from, before_of-lt, before_of-NotLower, NotLower,
}

-- The block `p` with its header is in use, apart from the free regions `gs`.
pub record HugeInUse (m : Mem) (gs : List Region) (size p : ℕ) : Type 0 where
  pub block : IsRegion (block_of size p)
  pub apart : All (Apart (block_of size p)) gs
  pub size_field : m (p - 16 + 8) ≡ size
  pub magic_field : m (p - 16 + 12) ≡ huge_magic

-- The heap with the lock held, after the `memset`.
abbrev pub zeroed : State → (size p : ℕ) → State
zeroed s size p = record s { mem = clear s.mem (p - 16) (size + 16); heap_lock = 1 }

pub zeroed-Outside :
    (s : State) (size p b : ℕ) → Outside b (block_of size p) → (zeroed s size p).mem b ≡ s.mem b
zeroed-Outside s size p b o = clear-outside s.mem (p - 16) (size + 16) b o

pub zeroed-Links :
    (s : State) (gs : List Region) (size p : ℕ)
    → FreeHeap gs s
    → HugeInUse s.mem gs size p
    → Links (zeroed s size p).mem s.head gs 0
zeroed-Links s gs size p h u =
    Links-same s.mem (zeroed s size p).mem s.head 0 gs
      (Apart-SameNodes s.mem (zeroed s size p).mem (block_of size p) gs (zeroed-Outside s size p)
        (Separate-IsRegion gs h.separate) u.apart)
      h.links

-- Of the addresses below the header, the region that ends there is the highest.
abbrev Nearest : (low at t : ℕ) → Type 0
Nearest low at t = (t ≡ 0) ⊎ (t ≤ low) ⊎ (at ≤ t)

apart-Nearest :
    (b : Region) (gs : List Region)
    → All IsRegion gs
    → All (Apart b) gs
    → All (λ g. Nearest b.addr (b.addr + b.size) g.addr) gs
apart-Nearest b [] v a = tt
apart-Nearest b (g ∷ gs) (v, vs) (a, as') = (omega (arith, v.room), apart-Nearest b gs vs as')

NotLower-at :
    (at t : ℕ) (xs : List Region) (g : Region) (ys : List Region)
    → All (NotLower at t) (xs ++ (g ∷ ys))
    → NotLower at t g
NotLower-at at t [] g ys (a, _) = a
NotLower-at at t (x ∷ xs) g ys (_, a) = NotLower-at at t xs g ys a

pub before_of-end :
    (xs : List Region) (b : Region) (ys : List Region)
    → Separate (xs ++ (b ∷ ys))
    → before_of (b.addr + b.size) 0 (xs ++ (b ∷ ys)) ≡ b.addr
before_of-end xs b ys sep =
    let gs = xs ++ (b ∷ ys) in
    let at = b.addr + b.size in
    let p = Separate-Parts xs b ys sep in
    let v = p.here in
    let near : Nearest b.addr at (before_of at 0 gs) =
      before_of-from (Nearest b.addr at) at 0 gs (inl refl) (
        All-join (λ g. Nearest b.addr at g.addr) xs (b ∷ ys)
          (apart-Nearest b xs (Separate-IsRegion xs p.front) p.before)
          (inr (inl (omega arith)), apart-Nearest b ys (Separate-IsRegion ys p.back) p.behind)) in
    let below = before_of-lt at 0 gs (inl refl) in
    let high =
      NotLower-at at (before_of at 0 gs) xs b ys
        (before_of-NotLower at 0 gs (inl (omega (arith, v.ne_null)))) in
    omega (arith, v.ne_null, v.room)

-- No region begins at an address: the nearest behind does not either.
pub after_of-ne :
    (at t : ℕ) (gs : List Region) → t ≢ 0 → All (λ g. g.addr ≢ t) gs → after_of at 0 gs ≢ t
after_of-ne at t gs ne all = after_of-from (λ a. a ≢ t) at 0 gs (λ e. ne (sym e)) all
