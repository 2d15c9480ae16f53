-- ===== src/Pmm/Kfree/Merged.antt =====
-- A block in use with a free run behind it: the two as one run, in the place of that run.
use njuoslab_l1_kmalloc_kfre.Base.{
  ℕ, zero, suc, ◌+◌, ◌-◌, ◌*◌, ◌%◌, ◌≤◌, ◌≡◌, refl, List, [], ◌∷◌, ◌++◌, arith, All, ◌∙◌,
}
use njuoslab_l1_kmalloc_kfre.Machine.Memory.{Mem, write, write-other}
use njuoslab_l1_kmalloc_kfre.Pmm.FreeList.{
  Region, region, IsRegion, Apart, Separate, Links, last_addr, Separate-IsRegion, Links-split,
  Links-redirect, Links-write, Links-append,
}
use njuoslab_l1_kmalloc_kfre.Pmm.FreeList.Splice.{
  All-split, All-join, Parts, Separate-Parts, Separate-remove, last-OffNodes, last-from,
}
use njuoslab_l1_kmalloc_kfre.Pmm.Kfree.Push.{InUse}
use njuoslab_l1_kmalloc_kfre.Pmm.Slab.{IsRun, HasMagic}

-- The addresses at which blocks of a page begin: behind the header, in units of 16 bytes.
abbrev pub OnGrid : (ph a : ℕ) → Type 0
OnGrid ph a = (ph + 32 ≤ a) × ((a - ph) % 16 ≡ 0)

times_unit : (k n : ℕ) → n % 16 ≡ 0 → (k * n) % 16 ≡ 0
times_unit zero n h = omega arith
times_unit (suc k) n h = omega (arith, times_unit k n h)

pub run-OnGrid :
    {ph size : ℕ} (g : Region) → 32 ≤ size → size % 16 ≡ 0 → IsRun ph size g → OnGrid ph g.addr
run-OnGrid {size} g least unit r =
    (omega (arith, r.behind_header), omega (arith, r.at, times_unit r.first size unit))

pub runs-OnGrid :
    (ph size : ℕ) (gs : List Region)
    → 32 ≤ size
    → size % 16 ≡ 0
    → All (IsRun ph size) gs
    → All (λ g. OnGrid ph g.addr) gs
runs-OnGrid ph size [] least unit r = tt
runs-OnGrid ph size (g ∷ gs) least unit (r, rs) =
    (run-OnGrid g least unit r, runs-OnGrid ph size gs least unit rs)

-- A link that is written keeps the magic numbers.
pub link-HasMagic :
    (m : Mem) (ph a v : ℕ) (gs : List Region)
    → OnGrid ph a
    → All (λ g. OnGrid ph g.addr) gs
    → All (HasMagic m) gs
    → All (HasMagic (write m a v)) gs
link-HasMagic m ph a v [] o p h = tt
link-HasMagic m ph a v (g ∷ gs) o (p, ps) (h, hs) =
    (write-other m a v (g.addr + 12) (omega arith) ∙ h, link-HasMagic m ph a v gs o ps hs)

abbrev pub merge_of : (ptr size : ℕ) → Region → Region
merge_of ptr size a = region ptr (size + a.size)

pub apart-merge :
    (ptr size : ℕ) (a : Region) (gs : List Region)
    → a.addr ≡ ptr + size
    → All IsRegion gs
    → All (Apart (region ptr size)) gs
    → All (Apart a) gs
    → All (Apart (merge_of ptr size a)) gs
apart-merge ptr size a [] e v b c = tt
apart-merge ptr size a (g ∷ gs) e (v, vs) (b, bs) (c, cs) =
    (omega (arith, v.room), apart-merge ptr size a gs e vs bs cs)

module _ (m : Mem) (ph size : ℕ) (xs : List Region) (a : Region) (ys : List Region) (ptr : ℕ)
    (u : InUse m ph size (xs ++ (a ∷ ys)) ptr) (next_to : a.addr ≡ ptr + size) where
  abbrev pub merged : Region
  merged = merge_of ptr size a

  pub parts : Parts xs a ys
  parts = Separate-Parts xs a ys u.slab.separate

  pub part-IsRun : IsRun ph size a
  part-IsRun = (All-split (IsRun ph size) xs a ys u.slab.runs).1

  pub merged-IsRun : IsRun ph size merged
  merged-IsRun = record {
    first = u.run.first;
    at = u.run.at;
    count = part-IsRun.count + 1;
    long = omega (arith, part-IsRun.long);
    behind_header = u.run.behind_header;
    in_page = omega (arith, part-IsRun.in_page);
  }

  pub merged-IsRegion : IsRegion merged
  merged-IsRegion =
      omega (arith, u.block, parts.here, part-IsRun.in_page, u.run.behind_header, u.slab.unit)

  merged-apart : All (Apart merged) xs × All (Apart merged) ys
  merged-apart =
      let (bx, _, by') = All-split (Apart (region ptr size)) xs a ys u.apart in
      (
        apart-merge ptr size a xs next_to (Separate-IsRegion xs parts.front) bx parts.before,
        apart-merge ptr size a ys next_to (Separate-IsRegion ys parts.back) by' parts.behind,
      )

  pub merged-Separate : Separate (merged ∷ (xs ++ ys))
  merged-Separate = (
    merged-IsRegion,
    All-join (Apart merged) xs ys merged-apart.0 merged-apart.1,
    Separate-remove xs a ys parts,
  )

  -- The node that `find_pred` finds: the last one before `a`, in the list that begins at `ptr`.
  abbrev pub pred : ℕ
  pred = last_addr ptr xs

  pub pred-OnGrid : OnGrid ph pred
  pred-OnGrid =
      let (rx, _, _) = All-split (IsRun ph size) xs a ys u.slab.runs in
      last-from (OnGrid ph) ptr xs (run-OnGrid (region ptr size) u.slab.least u.slab.unit u.run)
        (runs-OnGrid ph size xs u.slab.least u.slab.unit rx)

  -- The list with `merged` in front, from which `a` is unlinked.
  pub unlinked-Links :
      (t : Mem) (first : ℕ)
      → Links t first (xs ++ (a ∷ ys)) 0
      → t ptr ≡ first
      → t (ptr + 8) ≡ size + a.size
      → Links (write t pred (t a.addr)) ptr (merged ∷ (xs ++ ys)) 0
  unlinked-Links t first links next field =
      let (front, (_, _, back)) = Links-split t first 0 xs a ys links in
      let q = t a.addr in
      let sep : Separate (merged ∷ xs) = (merged-IsRegion, merged-apart.0, parts.front) in
      let head : Links t ptr (merged ∷ xs) a.addr = (refl, field, rw next front) in
      let regions = Separate-IsRegion (merged ∷ xs) sep in
      let off =
        last-OffNodes merged xs ys regions (Separate-IsRegion ys parts.back)
          (merged-apart.1, parts.across) in
      Links-append (write t pred q) ptr q 0 (merged ∷ xs) ys
        (Links-redirect t ptr a.addr q merged xs sep head) (Links-write t q 0 pred q ys off back)
