-- ===== src/Pmm/Pages/Same.antt =====
-- Pages in a memory that has changed elsewhere, and one page of a list in the place of another.
use njuoslab_l1_kmalloc_kfre.Base.{
  ℕ, ◌+◌, ◌*◌, ◌≤◌, ◌<◌, ◌≡◌, List, [], ◌∷◌, ◌++◌, All, arith, ap, ◌∙◌, sym,
}
use njuoslab_l1_kmalloc_kfre.Machine.Memory.{Mem}
use njuoslab_l1_kmalloc_kfre.Pmm.FreeList.{
  Region, IsRegion, Apart, Outside, SameNodes, Links-same, Separate-IsRegion,
}
use njuoslab_l1_kmalloc_kfre.Pmm.FreeList.Splice.{All-split}
use njuoslab_l1_kmalloc_kfre.Pmm.PageAlloc.{page_size}
use njuoslab_l1_kmalloc_kfre.Pmm.Slab.{IsRun, IsSlab, StartsAt, HasMagic}
use njuoslab_l1_kmalloc_kfre.Pmm.Pages.{
  Page, slab, empty, addr_of, place, IsPage, Chain, Disjoint, OffHeap,
}

-- Two memories that agree on a page.
abbrev pub SamePage : Mem → Mem → ℕ → Type 0
SamePage m m' ph = (b : ℕ) → ph ≤ b → b < ph + page_size → m' b ≡ m b

module _ (m m' : Mem) (ph size : ℕ) (same : SamePage m m' ph) where
  runs-SameNodes : (gs : List Region) → All IsRegion gs → All (IsRun ph size) gs → SameNodes m m' gs
  runs-SameNodes [] v r = tt
  runs-SameNodes (g ∷ gs) (v, vs) (r, rs) = (
    (
      same g.addr (omega (arith, r.behind_header)) (omega (arith, r.in_page, v.room)),
      same (g.addr + 8) (omega (arith, r.behind_header)) (omega (arith, r.in_page, v.room)),
    ),
    runs-SameNodes gs vs rs,
  )

  runs-HasMagic :
      (gs : List Region)
      → All IsRegion gs
      → All (IsRun ph size) gs
      → All (HasMagic m) gs
      → All (HasMagic m') gs
  runs-HasMagic [] v r h = tt
  runs-HasMagic (g ∷ gs) (v, vs) (r, rs) (h, hs) = (
    same (g.addr + 12) (omega (arith, r.behind_header)) (omega (arith, r.in_page, v.room)) ∙ h,
    runs-HasMagic gs vs rs hs,
  )

  starts-same :
      (gs : List Region)
      → All IsRegion gs
      → All (IsRun ph size) gs
      → StartsAt m ph size gs
      → StartsAt m' ph size gs
  starts-same [] v r e = same (ph + 12) (omega arith) (omega arith) ∙ e
  starts-same (g ∷ gs) v r (e, c) = (
    ap (λ (t : ℕ). ph + t * size) (same (ph + 12) (omega arith) (omega arith)) ∙ e,
    Links-same m m' g.addr 0 (g ∷ gs) (runs-SameNodes (g ∷ gs) v r) c,
  )

  slab-same : (gs : List Region) → IsSlab m ph size gs → IsSlab m' ph size gs
  slab-same gs h =
      let v = Separate-IsRegion gs h.separate in
      record {
        ne_null = h.ne_null;
        reach = h.reach;
        least = h.least;
        most = h.most;
        unit = h.unit;
        size_field = same (ph + 8) (omega arith) (omega arith) ∙ h.size_field;
        start = starts-same gs v h.runs h.start;
        separate = h.separate;
        runs = h.runs;
        magics = runs-HasMagic gs v h.runs h.magics;
      }

pub IsPage-same : (m m' : Mem) (pg : Page) → SamePage m m' (addr_of pg) → IsPage m pg → IsPage m' pg
IsPage-same m m' (slab ph size gs) same h = slab-same m m' ph size same gs h
IsPage-same m m' (empty ph) same h = record {
  ne_null = h.ne_null;
  reach = h.reach;
  size_field = same (ph + 8) (omega arith) (omega arith) ∙ h.size_field;
  index = same (ph + 12) (omega arith) (omega arith) ∙ h.index;
}

-- A chain of pages of which each is as before.
pub Chain-same :
    (m m' : Mem) (p : ℕ) (pages : List Page)
    → All (λ pg. SamePage m m' (addr_of pg)) pages
    → Chain m p pages
    → Chain m' p pages
Chain-same m m' p [] same c = c
Chain-same m m' p (pg ∷ pages) (same, rest) (e, h, c) =
    let next : m' (addr_of pg) ≡ m (addr_of pg) = same (addr_of pg) (omega arith) (omega arith) in
    (e, IsPage-same m m' pg same h, rw next (Chain-same m m' (m (addr_of pg)) pages rest c))

-- Memories that agree outside a region agree on the pages apart from it.
pub Apart-SamePage :
    (m m' : Mem) (r : Region) (pages : List Page)
    → ((b : ℕ) → Outside b r → m' b ≡ m b)
    → All (λ k. Apart r (place k)) pages
    → All (λ pg. SamePage m m' (addr_of pg)) pages
Apart-SamePage m m' r [] same a = tt
Apart-SamePage m m' r (pg ∷ pages) same (a, rest) =
    ((λ b lo hi. same b (omega arith)), Apart-SamePage m m' r pages same rest)

-- One page has become another at the same place.
pub Chain-replace :
    (m m' : Mem) (p : ℕ) (ps : List Page) (pg pg' : Page) (qs : List Page)
    → addr_of pg' ≡ addr_of pg
    → ((b : ℕ) → Outside b (place pg) → m' b ≡ m b)
    → m' (addr_of pg) ≡ m (addr_of pg)
    → IsPage m' pg'
    → Disjoint (ps ++ (pg ∷ qs))
    → Chain m p (ps ++ (pg ∷ qs))
    → Chain m' p (ps ++ (pg' ∷ qs))
Chain-replace m m' p [] pg pg' qs at same next new (a, _) (e, _, c) = (
  e ∙ sym at,
  new,
  let rest : Chain m' (m (addr_of pg)) qs =
        Chain-same m m' (m (addr_of pg)) qs (Apart-SamePage m m' (place pg) qs same a) c in
      rw (at, next) rest,
)
Chain-replace m m' p (x ∷ ps) pg pg' qs at same next new (a, d) (e, h, c) =
    let (_, near, _) = All-split (λ k. Apart (place x) (place k)) ps pg qs a in
    let kept : SamePage m m' (addr_of x) = λ b lo hi. same b (omega arith) in
    let link : m' (addr_of x) ≡ m (addr_of x) = kept (addr_of x) (omega arith) (omega arith) in
    (
      e,
      IsPage-same m m' x kept h,
      rw link (Chain-replace m m' (m (addr_of x)) ps pg pg' qs at same next new d c),
    )

pub All-replace :
    (P : Region → Type 0) (ps : List Page) (pg pg' : Page) (qs : List Page)
    → addr_of pg' ≡ addr_of pg
    → All (λ k. P (place k)) (ps ++ (pg ∷ qs))
    → All (λ k. P (place k)) (ps ++ (pg' ∷ qs))
All-replace P [] pg pg' qs at (a, as') = (rw at a, as')
All-replace P (x ∷ ps) pg pg' qs at (a, as') = (a, All-replace P ps pg pg' qs at as')

pub Disjoint-replace :
    (ps : List Page) (pg pg' : Page) (qs : List Page)
    → addr_of pg' ≡ addr_of pg
    → Disjoint (ps ++ (pg ∷ qs))
    → Disjoint (ps ++ (pg' ∷ qs))
Disjoint-replace [] pg pg' qs at (a, d) = (rw at a, d)
Disjoint-replace (x ∷ ps) pg pg' qs at (a, d) =
    (All-replace (Apart (place x)) ps pg pg' qs at a, Disjoint-replace ps pg pg' qs at d)

-- The page in the middle is apart from the free regions.
pub OffHeap-middle :
    (gs : List Region) (ps : List Page) (pg : Page) (qs : List Page)
    → OffHeap gs (ps ++ (pg ∷ qs))
    → All (Apart (place pg)) gs
OffHeap-middle gs ps pg qs o = (All-split (λ k. All (Apart (place k)) gs) ps pg qs o).1
