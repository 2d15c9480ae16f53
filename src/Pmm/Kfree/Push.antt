-- ===== src/Pmm/Kfree/Push.antt =====
-- `kfree` of a block with no free neighbour: it becomes the first node of its page's free list.
use njuoslab_l1_kmalloc_kfre.Base.{
  ℕ, zero, suc, ◌+◌, ◌*◌, ◌/◌, ◌^◌, ◌≤◌, ◌<◌, ◌≡◌, ◌≢◌, ◌⊎◌, refl, List, ◌∷◌, arith, All, ap, sym,
  ◌∙◌, ltb, lt→ltb, true,
}
use njuoslab_l1_kmalloc_kfre.Base.Words.{u32, sub64, add64, sext, sext-small}
use njuoslab_l1_kmalloc_kfre.Machine.{State, ok}
use njuoslab_l1_kmalloc_kfre.Machine.Memory.{
  Mem, write, clear, write-same, write-other, clear-outside,
}
use njuoslab_l1_kmalloc_kfre.Machine.Fields.{
  get_size-ok, get_word-ok, set_next-ok, set_size-ok, set_word-ok,
}
use njuoslab_l1_kmalloc_kfre.Pmm.FreeList.{
  Region, region, IsRegion, Apart, Outside, Links, Links-same, Separate-IsRegion,
}
use njuoslab_l1_kmalloc_kfre.Pmm.PageAlloc.{page_size}
use njuoslab_l1_kmalloc_kfre.Pmm.Kalloc.{page_magic}
use njuoslab_l1_kmalloc_kfre.Pmm.Kfree.{first_free, set_first_free, push_block}
use njuoslab_l1_kmalloc_kfre.Pmm.Slab.{IsRun, IsSlab, HasMagic, agree-SameNodes, agree-HasMagic}
use njuoslab_l1_kmalloc_kfre.Pmm.Slab.Index.{number_of}
use njuoslab_l1_kmalloc_kfre.Pmm.Slab.After.{Touches}

-- `ptr` is a block in use of the page `ph`, whose free runs are `gs`.
pub record InUse (m : Mem) (ph size : ℕ) (gs : List Region) (ptr : ℕ) : Type 0 where
  pub slab : IsSlab m ph size gs
  pub run : IsRun ph size (region ptr size)
  pub block : IsRegion (region ptr size)
  pub apart : All (Apart (region ptr size)) gs

pub factor-pos : (k n : ℕ) → 0 < k * n → 0 < k
factor-pos zero n h = absurd (omega arith)
factor-pos (suc k) n h = omega arith

-- The page's links and magic numbers in a memory that differs at the block and the index only.
module _ (m m' : Mem) (ph size : ℕ) (gs : List Region) (ptr : ℕ) (u : InUse m ph size gs ptr)
    (same : Touches m m' ph (region ptr size)) where
  same_page : (b : ℕ) → Outside b (region ptr size) → ph + 32 ≤ b → m' b ≡ m b
  same_page b o far = same b o (omega arith)

  pub kept-Links : (p : ℕ) → Links m p gs 0 → Links m' p gs 0
  kept-Links p = Links-same m m' p 0 gs (
      agree-SameNodes m m' ph size (region ptr size) gs u.slab.least same_page
        (Separate-IsRegion gs u.slab.separate) u.slab.runs u.apart)

  pub kept-HasMagic : All (HasMagic m') gs
  kept-HasMagic =
      agree-HasMagic m m' ph size (region ptr size) gs u.slab.least same_page
        (Separate-IsRegion gs u.slab.separate) u.slab.runs u.apart u.slab.magics

  pub kept-size : m' (ph + 8) ≡ size
  kept-size =
      same (ph + 8) (omega (arith, u.run.behind_header, u.slab.least)) (omega arith)
      ∙ u.slab.size_field

  -- With the block as its first node the page is well formed again.
  pub pushed-IsSlab :
      {first : ℕ}
      → Links m first gs 0
      → m' (ph + 12) ≡ u.run.first
      → m' ptr ≡ first
      → m' (ptr + 8) ≡ size
      → m' (ptr + 12) ≡ page_magic
      → IsSlab m' ph size (region ptr size ∷ gs)
  pushed-IsSlab {first} links index next field magic = record {
    ne_null = u.slab.ne_null;
    reach = u.slab.reach;
    least = u.slab.least;
    most = u.slab.most;
    unit = u.slab.unit;
    size_field = kept-size;
    start = (
      ap (λ (t : ℕ). ph + t * size) index ∙ sym u.run.at,
      (refl, field, rw next (kept-Links first links)),
    );
    separate = (u.block, u.apart, u.slab.separate);
    runs = (u.run, u.slab.runs);
    magics = (magic, kept-HasMagic);
  }

-- `(void *)ph + ph->pagefreehead_index * ph->size` is the node with that number.
pub first_free-at :
    (s : State) (ph size k node : ℕ)
    → 0 < ph
    → ph + page_size ≤ 2 ^ 63
    → s.mem (ph + 8) ≡ size
    → s.mem (ph + 12) ≡ k
    → ph + k * size ≡ node
    → node < ph + page_size
    → first_free ph s ≡ ok node s
unfolding first_free
first_free-at s ph size k node pos reach field index at within =
    let a : add64 ph (u32 (k * size)) ≡ node = omega arith in
    rw (get_word-ok ph s pos, get_size-ok ph s pos, field, index, a)

pub first_free-head :
    (s : State) (ph size : ℕ) (g : Region) (gs : List Region)
    → IsSlab s.mem ph size (g ∷ gs)
    → first_free ph s ≡ ok g.addr s
first_free-head s ph size g gs slab =
    first_free-at s ph size (s.mem (ph + 12)) g.addr slab.ne_null slab.reach slab.size_field refl
      slab.start.0 (omega (arith, slab.runs.0.in_page, slab.separate.0.room))

module _ (s : State) (ph size : ℕ) (g : Region) (gs : List Region) (ptr : ℕ)
    (u : InUse s.mem ph size (g ∷ gs) ptr) where
  abbrev pub block : Region
  block = region ptr size

  -- The block as the list's first node.
  abbrev pub pushed : State
  pushed = record s {
    mem =
        write (write (write (write s.mem (ptr + 12) page_magic) (ptr + 8) size) ptr g.addr)
          (ph + 12) u.run.first;
  }

  header_below : ph + 32 ≤ ptr
  header_below = omega (arith, u.run.behind_header, u.slab.least)

  pub pushed-Touches : Touches s.mem pushed.mem ph block
  pushed-Touches b o ne =
      write-other _ (ph + 12) u.run.first b ne
      ∙ write-other _ ptr g.addr b (omega (arith, u.block.room))
      ∙ write-other _ (ptr + 8) size b (omega (arith, u.block.room))
      ∙ write-other s.mem (ptr + 12) page_magic b (omega (arith, u.block.room))

  pub pushed_lem : IsSlab pushed.mem ph size (block ∷ g ∷ gs)
  pushed_lem =
      let low = header_below in
      let w1 =
        write-other (write (write (write s.mem (ptr + 12) page_magic) (ptr + 8) size) ptr g.addr)
          (ph + 12) u.run.first in
      let w2 = write-other (write (write s.mem (ptr + 12) page_magic) (ptr + 8) size) ptr g.addr in
      let w3 = write-other (write s.mem (ptr + 12) page_magic) (ptr + 8) size in
      pushed-IsSlab s.mem pushed.mem ph size (g ∷ gs) ptr u pushed-Touches u.slab.start.1
        (write-same _ (ph + 12) u.run.first) (w1 ptr (omega arith) ∙ write-same _ ptr g.addr)
        (w1 (ptr + 8) (omega arith) ∙ w2 (ptr + 8) (omega arith) ∙ write-same _ (ptr + 8) size)
        (w1 (ptr + 12) (omega arith)
          ∙ w2 (ptr + 12) (omega arith)
          ∙ w3 (ptr + 12) (omega arith)
          ∙ write-same s.mem (ptr + 12) page_magic)

  pub push_block-pushed : push_block ph ptr s ≡ ok tt pushed
  unfolding push_block set_first_free
  push_block-pushed =
      let slab = u.slab in
      let r = u.run in
      let low = header_below in
      let ne : 0 < ptr = u.block.ne_null in
      let k = s.mem (ph + 12) in
      let s1 : State = record s { mem = write s.mem (ptr + 12) page_magic } in
      let s2 : State = record s { mem = write s1.mem (ptr + 8) size } in
      let s3 : State = record s { mem = write s2.mem ptr g.addr } in
      let size1 : s1.mem (ph + 8) ≡ size =
        write-other s.mem (ptr + 12) page_magic (ph + 8) (omega arith) ∙ slab.size_field in
      let size2 : s2.mem (ph + 8) ≡ size =
        write-other s1.mem (ptr + 8) size (ph + 8) (omega arith) ∙ size1 in
      let size3 : s3.mem (ph + 8) ≡ size =
        write-other s2.mem ptr g.addr (ph + 8) (omega arith) ∙ size2 in
      let index2 : s2.mem (ph + 12) ≡ k =
        write-other s1.mem (ptr + 8) size (ph + 12) (omega arith)
        ∙ write-other s.mem (ptr + 12) page_magic (ph + 12) (omega arith) in
      let head =
        first_free-at s2 ph size k g.addr slab.ne_null slab.reach size2 index2 slab.start.0
          (omega (arith, slab.runs.0.in_page, slab.separate.0.room)) in
      let word : u32 size ≡ size = omega (arith, slab.most) in
      let same_size : sext size ≡ size = sext-small size (omega (arith, slab.most)) in
      let number =
        number_of ph size r.first slab.least ptr r.at (omega (arith, r.in_page, u.block.room))
          slab.reach in
      let some_block : ltb 0 r.first ≡ true =
        lt→ltb 0 r.first
          (factor-pos r.first size (omega (arith, r.at, r.behind_header, slab.least))) in
      rw (
        set_word-ok ptr s ne page_magic,
        get_size-ok ph s1 slab.ne_null,
        size1,
        set_size-ok ptr s1 ne size,
        word,
        head,
        set_next-ok ptr s2 ne g.addr,
        get_size-ok ph s3 slab.ne_null,
        size3,
        same_size,
        set_word-ok ph s3 slab.ne_null (sub64 ptr ph / size),
        number,
        get_word-ok ph pushed slab.ne_null,
        write-same s3.mem (ph + 12) r.first,
        some_block,
      )

-- Zeroing the block leaves the page and its free list.
pub cleared-Touches :
    (m : Mem) (ph size ptr : ℕ) → Touches m (clear m ptr size) ph (region ptr size)
cleared-Touches m ph size ptr b o ne = clear-outside m ptr size b o

-- No free run ends where the block begins, and none begins where it ends.
abbrev pub NotAdjacent : (ptr size : ℕ) → Region → Type 0
NotAdjacent ptr size g = (g.addr + g.size ≢ ptr) × (ptr + size ≢ g.addr)

-- The block has joined the page's free list, as its first run.
pub record BlockFreed (s : State) (ph size : ℕ) (gs : List Region) (ptr : ℕ) (s' : State)
    : Type 0 where
  pub slab : IsSlab s'.mem ph size gs
  pub kept : (b : ℕ) → (b < ptr) ⊎ (ptr + size ≤ b) → b ≢ ph + 12 → s'.mem b ≡ s.mem b
  pub heap : (s'.head ≡ s.head) × (s'.heap_lock ≡ s.heap_lock)
  pub pages : (s'.page_head ≡ s.page_head) × (s'.page_lock ≡ s.page_lock)
