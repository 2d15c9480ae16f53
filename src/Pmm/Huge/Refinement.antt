-- ===== src/Pmm/Huge/Refinement.antt =====
-- What `kallocHugeMemory` promises.
use njuoslab_l1_kmalloc_kfre.Base.{
  ℕ, ◌+◌, ◌-◌, ◌%◌, ◌≤◌, ◌<◌, ◌≡◌, ◌⊎◌, inl, inr, refl, sym, List, ◌∷◌, ◌++◌, arith, All, length,
  ne→==,
}
use mathlib.Core.Path.{subst}
use njuoslab_l1_kmalloc_kfre.Machine.{State}
use njuoslab_l1_kmalloc_kfre.Machine.Returns.{Returns, returns}
use njuoslab_l1_kmalloc_kfre.Pmm.Lock.{lock, unlock}
use njuoslab_l1_kmalloc_kfre.Pmm.FreeList.{
  Region, region, IsRegion, Apart, Outside, Separate, Links, Links-same, Links-split, Links-append,
  Separate-IsRegion, Apart-SameNodes,
}
use njuoslab_l1_kmalloc_kfre.Pmm.FreeList.Splice.{
  All-split, All-join, All-map, Separate-Parts, Parts-Separate, Parts-shrink, Parts,
}
use njuoslab_l1_kmalloc_kfre.Pmm.FreeHeap.{FreeHeap, SamePages, Unchanged}
use njuoslab_l1_kmalloc_kfre.Pmm.Huge.{kalloc_huge_memory, huge_magic}
use njuoslab_l1_kmalloc_kfre.Pmm.Huge.Choice.{
  best, find_highest-best, best-cases, best-null, best-NotAbove, NotAbove, CannotHold, Chosen,
}
use njuoslab_l1_kmalloc_kfre.Pmm.Huge.Carve.{
  header_at, front_of, carved, carve-carved, carved-Outside, carved-header, carved-node,
}

-- The block with its header.
abbrev pub block_of : (size p : ℕ) → Region
block_of size p = region (p - 16) (size + 16)

-- The block `p` has been cut off the end of the region `at`, the highest that can hold it.
pub record HugeTaken (s : State) (size : ℕ) (gs : List Region) (p : ℕ) (s' : State) : Type 0 where
  pub xs : List Region
  pub at : Region
  pub ys : List Region
  pub split : gs ≡ xs ++ (at ∷ ys)
  pub highest : All (NotAbove size at.addr) gs
  pub address : p + size ≡ at.addr + at.size
  pub heap : FreeHeap (xs ++ (front_of size at ∷ ys)) s'
  pub apart : All (Apart (block_of size p)) (xs ++ (front_of size at ∷ ys))
  pub size_field : s'.mem (p - 16 + 8) ≡ size
  pub magic_field : s'.mem (p - 16 + 12) ≡ huge_magic
  pub kept : (b : ℕ) → Outside b at → s'.mem b ≡ s.mem b
  pub pages : SamePages s s'

abbrev pub Outcome : State → ℕ → List Region → ℕ → State → Type 0
Outcome s size gs p s' =
    ((p ≡ 0) × All (CannotHold size) gs × Unchanged s s') ⊎ HugeTaken s size gs p s'

-- A region that cannot hold the request, or can hold it with its header and a free node before it.
abbrev pub HasRoom : ℕ → Region → Type 0
HasRoom size g = (g.size < size) ⊎ (size + 32 ≤ g.size)

module _ (s : State) (size : ℕ) (unit : size % 16 ≡ 0) where
  module _ (xs : List Region) (g : Region) (ys : List Region) (room : size + 32 ≤ g.size)
      (p : Parts xs g ys) where
    front-IsRegion : IsRegion (front_of size g)
    front-IsRegion = omega (arith, p.here)

    front-Parts : Parts xs (front_of size g) ys
    front-Parts =
        Parts-shrink xs g (front_of size g) ys p front-IsRegion (omega arith) (omega arith)

    block-apart :
        All (Apart (block_of size (g.addr + g.size - size))) (xs ++ (front_of size g ∷ ys))
    block-apart =
        let block = block_of size (g.addr + g.size - size) in
        All-join (Apart block) xs (front_of size g ∷ ys)
          (All-map (Apart g) (Apart block) xs (λ x a. omega arith) p.before)
          (omega arith, All-map (Apart g) (Apart block) ys (λ x a. omega arith) p.behind)

    carved-Links :
        (h : ℕ)
        → Links s.mem h (xs ++ (g ∷ ys)) 0
        → Links (carved s size g).mem h (xs ++ (front_of size g ∷ ys)) 0
    carved-Links h links =
        let m = (carved s size g).mem in
        let (to, (_, e, from)) = Links-split s.mem h 0 xs g ys links in
        let v = p.here in
        let hold : size + 16 ≤ g.size = omega arith in
        let out = carved-Outside size g v hold s e in
        let (next, left) = carved-node size g v hold s e room in
        let same : (zs : List Region)
            → Separate zs
            → All (Apart g) zs
            → (a b : ℕ) → Links s.mem a zs b
            → Links m a zs b =
          λ zs sep apart a b.
            Links-same s.mem m a b zs
              (Apart-SameNodes s.mem m g zs out (Separate-IsRegion zs sep) apart) in
        let back : Links m (m g.addr) ys 0 =
          rw next (same ys p.back p.behind (s.mem g.addr) 0 from) in
        Links-append m h g.addr 0 xs (front_of size g ∷ ys) (same xs p.front p.before h g.addr to)
          (refl, left, back)

  module _ (fuel : ℕ) where
    abbrev locked : State
    locked = record s { heap_lock = 1 }

    huge-some :
        (xs : List Region) (g : Region) (ys : List Region)
        → FreeHeap (xs ++ (g ∷ ys)) s
        → size + 32 ≤ g.size
        → best size 0 (xs ++ (g ∷ ys)) ≡ g.addr
        → length (xs ++ (g ∷ ys)) < fuel
        → Returns (Outcome s size (xs ++ (g ∷ ys))) (kalloc_huge_memory fuel size s)
    unfolding kalloc_huge_memory lock unlock
    huge-some xs g ys h room b f =
        let gs = xs ++ (g ∷ ys) in
        let p = Separate-Parts xs g ys h.separate in
        let v = p.here in
        let hold : size + 16 ≤ g.size = omega arith in
        let (to, (_, e, from)) = Links-split s.mem s.head 0 xs g ys h.links in
        let (size_field, magic_field) = carved-header size g v hold s e in
        let ret = g.addr + g.size - size in
        let at_header : ret - 16 ≡ header_at size g = omega arith in
        let above : All (NotAbove size g.addr) gs =
          subst (λ a. All (NotAbove size a) gs) b (best-NotAbove size 0 gs) in
        rw
          (
            h.unlocked,
            find_highest-best locked fuel size 0 s.head gs h.links (Separate-IsRegion gs h.separate)
                f,
            b,
            ne→== g.addr 0 (omega (arith, v.ne_null)),
            carve-carved size g v hold locked e,
          )
          (returns (
            inr (record {
              xs = xs;
              at = g;
              ys = ys;
              split = refl;
              highest = above;
              address = omega arith;
              heap = record {
                links = carved-Links xs g ys room p s.head h.links;
                separate = Parts-Separate xs (front_of size g) ys (front-Parts xs g ys room p);
                unlocked = refl;
              };
              apart = block-apart xs g ys room p;
              size_field = rw at_header size_field;
              magic_field = rw at_header magic_field;
              kept = carved-Outside size g v hold s e;
              pages = record { heads = refl; locks = refl };
            })))

    huge-none :
        (gs : List Region)
        → FreeHeap gs s
        → best size 0 gs ≡ 0
        → length gs < fuel
        → Returns (Outcome s size gs) (kalloc_huge_memory fuel size s)
    unfolding kalloc_huge_memory lock unlock
    huge-none gs h b f =
        let v = Separate-IsRegion gs h.separate in
        rw (h.unlocked, find_highest-best locked fuel size 0 s.head gs h.links v f, b)
          (returns (
            inl (
              refl,
              best-null size (best size 0 gs) gs v (best-NotAbove size 0 gs) b,
              record {
                mem = refl;
                head = refl;
                unlocked = refl;
                pages = record { heads = refl; locks = refl };
              },
            )))

    huge-Chosen :
        (gs : List Region)
        → FreeHeap gs s
        → All (HasRoom size) gs
        → length gs < fuel
        → Chosen size gs (best size 0 gs)
        → Returns (Outcome s size gs) (kalloc_huge_memory fuel size s)
    huge-Chosen gs h room f c =
        let whole = c.xs ++ (c.at ∷ c.ys) in
        let (_, r, _) =
          All-split (HasRoom size) c.xs c.at c.ys (subst (All (HasRoom size)) c.split room) in
        let holds = c.holds in
        subst (λ l. Returns (Outcome s size l) (kalloc_huge_memory fuel size s)) (sym c.split)
          (huge-some c.xs c.at c.ys (subst (λ l. FreeHeap l s) c.split h) (omega arith)
            (subst (λ l. best size 0 l ≡ c.at.addr) c.split c.address)
            (subst (λ (l : List Region). length l < fuel) c.split f))

-- With a well-formed free list, the lock free, a request that is a multiple of 16, every region
-- either too small or with 32 bytes to spare, and fuel for one more round than the list has nodes,
-- `kallocHugeMemory` returns. Either no region can hold the request, and it returns NULL and changes
-- nothing; or it cuts the block off the end of a region above all others that can hold it, below it
-- stands a header with the size and the magic number, block and header are apart from the free list
-- that is left, which is well formed, nothing outside that region is written, and the lock is free.
pub kalloc_huge_memory_lem :
    (fuel : ℕ) (s : State) (size : ℕ) (gs : List Region)
    → FreeHeap gs s
    → size % 16 ≡ 0
    → All (HasRoom size) gs
    → length gs < fuel
    → Returns (Outcome s size gs) (kalloc_huge_memory fuel size s)
kalloc_huge_memory_lem fuel s size gs h unit room f = elim (best-cases size 0 gs) [
  | inl none_found ↦ huge-none s size unit fuel gs h none_found f
  | inr c ↦ huge-Chosen s size unit fuel gs h room f c
]
