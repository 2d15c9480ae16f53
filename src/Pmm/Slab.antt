-- ===== src/Pmm/Slab.antt =====
-- A page of equal blocks, as kernel/src/pmm.c keeps it for one CPU: the header `pageheader_t` in the
-- first block, and the free blocks as a list of runs.
pub mod Index
pub mod Head
pub mod After
pub mod Take
use njuoslab_l1_kmalloc_kfre.Base.{
  ℕ, ◌+◌, ◌*◌, ◌%◌, ◌^◌, ◌≤◌, ◌<◌, ◌≡◌, List, [], ◌∷◌, arith, All, ◌∙◌,
}
use njuoslab_l1_kmalloc_kfre.Machine.Memory.{Mem}
use njuoslab_l1_kmalloc_kfre.Pmm.FreeList.{
  Region, IsRegion, Apart, Outside, Separate, SameNodes, Links,
}
use njuoslab_l1_kmalloc_kfre.Pmm.PageAlloc.{page_size}
use njuoslab_l1_kmalloc_kfre.Pmm.Kalloc.{page_magic}

-- Consecutive blocks of the page, behind its first block.
pub record IsRun (ph size : ℕ) (g : Region) : Type 0 where
  pub first : ℕ
  pub at : g.addr ≡ ph + first * size
  pub count : ℕ
  pub long : g.size ≡ count * size
  pub behind_header : ph + size ≤ g.addr
  pub in_page : g.addr + g.size ≤ ph + page_size

-- `pagefreehead_index` is the number of the list's first block, or 0 where the page is full.
abbrev pub StartsAt : Mem → (ph size : ℕ) → List Region → Type 0
StartsAt m ph size [] = m (ph + 12) ≡ 0
StartsAt m ph size (g ∷ gs) = (ph + m (ph + 12) * size ≡ g.addr) × Links m g.addr (g ∷ gs) 0

abbrev pub HasMagic : Mem → Region → Type 0
HasMagic m g = m (g.addr + 12) ≡ page_magic

-- The page `ph` has blocks of `size` bytes, and its free blocks are those of `gs`.
pub record IsSlab (m : Mem) (ph size : ℕ) (gs : List Region) : Type 0 where
  pub ne_null : 0 < ph
  pub reach : ph + page_size ≤ 2 ^ 63
  pub least : 32 ≤ size
  pub most : size ≤ 16384
  pub unit : size % 16 ≡ 0
  pub size_field : m (ph + 8) ≡ size
  pub start : StartsAt m ph size gs
  pub separate : Separate gs
  pub runs : All (IsRun ph size) gs
  pub magics : All (HasMagic m) gs

-- Memories that agree on the page outside `g` and outside its header have the same nodes there.
pub agree-SameNodes :
    (m m' : Mem) (ph size : ℕ) (g : Region) (gs : List Region)
    → 32 ≤ size
    → ((b : ℕ) → Outside b g → ph + 32 ≤ b → m' b ≡ m b)
    → All IsRegion gs
    → All (IsRun ph size) gs
    → All (Apart g) gs
    → SameNodes m m' gs
agree-SameNodes m m' ph size g [] l same v r a = tt
agree-SameNodes m m' ph size g (k ∷ gs) l same (v, vs) (r, rs) (a, rest) = (
  (
    same k.addr (omega (arith, r.behind_header)) (omega (arith, r.behind_header)),
    same (k.addr + 8) (omega (arith, r.behind_header)) (omega (arith, r.behind_header)),
  ),
  agree-SameNodes m m' ph size g gs l same vs rs rest,
)

pub agree-HasMagic :
    (m m' : Mem) (ph size : ℕ) (g : Region) (gs : List Region)
    → 32 ≤ size
    → ((b : ℕ) → Outside b g → ph + 32 ≤ b → m' b ≡ m b)
    → All IsRegion gs
    → All (IsRun ph size) gs
    → All (Apart g) gs
    → All (HasMagic m) gs
    → All (HasMagic m') gs
agree-HasMagic m m' ph size g [] l same v r a h = tt
agree-HasMagic m m' ph size g (k ∷ gs) l same (v, vs) (r, rs) (a, rest) (h, hs) = (
  same (k.addr + 12) (omega (arith, r.behind_header)) (omega (arith, r.behind_header)) ∙ h,
  agree-HasMagic m m' ph size g gs l same vs rs rest hs,
)
