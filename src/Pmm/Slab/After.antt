-- ===== src/Pmm/Slab/After.antt =====
-- A page after its first free block has gone: it is again a page of blocks.
use njuoslab_l1_kmalloc_kfre.Base.{
  ℕ, zero, suc, ◌+◌, ◌-◌, ◌*◌, ◌≤◌, ◌<◌, ◌≡◌, ◌≢◌, refl, List, [], ◌∷◌, arith, All, ap, sym, ◌∙◌,
}
use njuoslab_l1_kmalloc_kfre.Machine.Memory.{Mem}
use njuoslab_l1_kmalloc_kfre.Pmm.FreeList.{
  Region, region, IsRegion, Apart, Outside, Links, Links-same, Separate-IsRegion,
}
use njuoslab_l1_kmalloc_kfre.Pmm.FreeList.Splice.{All-map}
use njuoslab_l1_kmalloc_kfre.Pmm.Kalloc.{page_magic}
use njuoslab_l1_kmalloc_kfre.Pmm.Slab.{
  IsRun, IsSlab, StartsAt, HasMagic, agree-SameNodes, agree-HasMagic,
}
use njuoslab_l1_kmalloc_kfre.Pmm.Slab.Head.{number}

-- Only the region `g` and the index in the page's header may have changed.
abbrev pub Touches : Mem → Mem → ℕ → Region → Type 0
Touches m m' ph g = (b : ℕ) → Outside b g → b ≢ ph + 12 → m' b ≡ m b

pred_mul : (c n : ℕ) → c * n - n ≡ (c - 1) * n
pred_mul zero n = omega arith
pred_mul (suc c) n = let e : suc c - 1 ≡ c = omega arith in rw e (omega arith)

-- A run that is not one block is two blocks or more.
two_blocks : (c n : ℕ) → 0 < c * n → c * n ≢ n → 2 * n ≤ c * n
two_blocks zero n pos ne = absurd (omega arith)
two_blocks (suc zero) n pos ne = absurd (ne (omega arith))
two_blocks (suc (suc c)) n pos ne = omega arith

one_block : (c n : ℕ) → 0 < c * n → n ≤ c * n
one_block zero n pos = absurd (omega arith)
one_block (suc c) n pos = omega arith

pub run-le : {ph size : ℕ} (g : Region) → IsRegion g → IsRun ph size g → size ≤ g.size
run-le {size} g v r = omega (arith, one_block r.count size, r.long, v.room)

pub run-two :
    {ph size : ℕ} (g : Region) → IsRegion g → IsRun ph size g → g.size ≢ size → 2 * size ≤ g.size
run-two {size} g v r ne =
    omega (
      arith,
      r.long,
      two_blocks r.count size (omega (arith, r.long, v.room)) (λ e. ne (r.long ∙ e)),
    )

-- The run behind the first block of `g`.
abbrev pub rest_block : ℕ → Region → Region
rest_block size g = region (g.addr + size) (g.size - size)

module _ (m m' : Mem) (ph size : ℕ) (g : Region) (gs : List Region)
    (slab : IsSlab m ph size (g ∷ gs)) (same : Touches m m' ph g) where
  same_page : (b : ℕ) → Outside b g → ph + 32 ≤ b → m' b ≡ m b
  same_page b o far = same b o (omega arith)

  size_kept : m' (ph + 8) ≡ size
  size_kept =
      same (ph + 8) (omega (arith, slab.runs.0.behind_header, slab.least)) (omega arith)
      ∙ slab.size_field

  Links-kept : (p : ℕ) → Links m p gs 0 → Links m' p gs 0
  Links-kept p =
      let (v, apart, sep) = slab.separate in
      Links-same m m' p 0 gs (
        agree-SameNodes m m' ph size g gs slab.least same_page (Separate-IsRegion gs sep)
          slab.runs.1 apart)

  magics_kept : All (HasMagic m') gs
  magics_kept =
      let (v, apart, sep) = slab.separate in
      agree-HasMagic m m' ph size g gs slab.least same_page (Separate-IsRegion gs sep) slab.runs.1
        apart slab.magics.1

  rest-Links : Links m (m g.addr) gs 0
  rest-Links = slab.start.1.2

  -- The whole run has gone.
  pub whole-IsSlab : m' (ph + 12) ≡ number ph size gs slab.runs.1 → IsSlab m' ph size gs
  whole-IsSlab index = record {
    ne_null = slab.ne_null;
    reach = slab.reach;
    least = slab.least;
    most = slab.most;
    unit = slab.unit;
    size_field = size_kept;
    start = starts gs slab.runs.1 index (Links-kept (m g.addr) rest-Links);
    separate = slab.separate.2;
    runs = slab.runs.1;
    magics = magics_kept;
  }
    where
      starts :
          (ks : List Region) (r : All (IsRun ph size) ks)
          → m' (ph + 12) ≡ number ph size ks r
          → Links m' (m g.addr) ks 0
          → StartsAt m' ph size ks
      starts [] r e c = e
      starts (k ∷ ks) (r, rs) e (_, n, c) =
          (ap (λ (t : ℕ). ph + t * size) e ∙ sym r.at, (refl, n, c))

  -- The first block of the run has gone.
  pub cut-IsSlab :
      g.size ≢ size
      → m' (ph + 12) ≡ m (ph + 12) + 1
      → m' (g.addr + size) ≡ m g.addr
      → m' (g.addr + size + 8) ≡ g.size - size
      → m' (g.addr + size + 12) ≡ page_magic
      → IsSlab m' ph size (rest_block size g ∷ gs)
  cut-IsSlab ne index next left magic =
      let (v, apart, sep) = slab.separate in
      let r = slab.runs.0 in
      let two = run-two g v r ne in
      record {
        ne_null = slab.ne_null;
        reach = slab.reach;
        least = slab.least;
        most = slab.most;
        unit = slab.unit;
        size_field = size_kept;
        start = (
          ap (λ (t : ℕ). ph + t * size) index ∙ omega (arith, slab.start.0),
          (refl, left, rw next (Links-kept (m g.addr) rest-Links)),
        );
        separate = (
          omega (arith, v, slab.least, slab.unit),
          All-map (Apart g) (Apart (rest_block size g)) gs (λ k a. omega arith) apart,
          sep,
        );
        runs = (
          record {
            first = r.first + 1;
            at = omega (arith, r.at);
            count = r.count - 1;
            long = ap (λ (t : ℕ). t - size) r.long ∙ pred_mul r.count size;
            behind_header = omega (arith, r.behind_header);
            in_page = omega (arith, r.in_page);
          },
          slab.runs.1,
        );
        magics = (magic, magics_kept);
      }
