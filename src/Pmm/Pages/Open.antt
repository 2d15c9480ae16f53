-- ===== src/Pmm/Pages/Open.antt =====
-- `kalloc` on a page that has just been given to a size: its first block, and all others as one run.
use njuoslab_l1_kmalloc_kfre.Base.{
  ℕ, zero, suc, ◌+◌, ◌-◌, ◌*◌, ◌%◌, ◌^◌, ◌≤◌, ◌<◌, ◌≡◌, ◌≢◌, refl, [], ◌∷◌, arith, ap, sym, ◌∙◌,
  ◌==◌, eq→==, true,
}
use njuoslab_l1_kmalloc_kfre.Base.Words.{u32, sub64}
use njuoslab_l1_kmalloc_kfre.Machine.{State, ok, zero_range}
use njuoslab_l1_kmalloc_kfre.Machine.Memory.{
  Mem, write, clear, write-same, write-other, clear-inside, clear-outside,
}
use njuoslab_l1_kmalloc_kfre.Machine.Fields.{get_word-ok, set_next-ok, set_size-ok, set_word-ok}
use njuoslab_l1_kmalloc_kfre.Machine.Returns.{Returns, returns}
use njuoslab_l1_kmalloc_kfre.Pmm.Lock.{cpu, unlock, with_lock}
use njuoslab_l1_kmalloc_kfre.Pmm.FreeList.{Region, region, Outside}
use njuoslab_l1_kmalloc_kfre.Pmm.PageAlloc.{page_size}
use njuoslab_l1_kmalloc_kfre.Pmm.PageAlloc.Refinement.{page_at}
use njuoslab_l1_kmalloc_kfre.Pmm.Kalloc.{page_magic, block_at, open_page}
use njuoslab_l1_kmalloc_kfre.Pmm.Slab.Index.{block_at-eq}
use njuoslab_l1_kmalloc_kfre.Pmm.Slab.{IsSlab}

-- A size of blocks: a page is a whole number of them.
pub record IsClass (size : ℕ) : Type 0 where
  pub least : 32 ≤ size
  pub most : size ≤ 16384
  pub unit : size % 16 ≡ 0
  pub blocks : ℕ
  pub whole : blocks * size ≡ page_size

-- The header of a page that belongs to the size and has not given a block.
pub record IsFresh (m : Mem) (ph size : ℕ) : Type 0 where
  pub ne_null : 0 < ph
  pub reach : ph + page_size ≤ 2 ^ 63
  pub size_field : m (ph + 8) ≡ size
  pub index : m (ph + 12) ≡ 1

-- All blocks of the page but the header's and the first.
abbrev pub tail_run : (ph size : ℕ) → Region
tail_run ph size = region (ph + size + size) (page_size - 2 * size)

pub record Opened (t : State) (i size ph p : ℕ) (s' : State) : Type 0 where
  pub address : p ≡ ph + size
  pub slab : IsSlab s'.mem ph size (tail_run ph size ∷ [])
  pub zeroed : (b : ℕ) → p ≤ b → b < p + size → s'.mem b ≡ 0
  pub kept : (b : ℕ) → Outside b (page_at ph) → s'.mem b ≡ t.mem b
  pub next : s'.mem ph ≡ t.mem ph
  pub unlocked : s'.page_lock i ≡ 0
  pub others : (j : ℕ) → j ≢ i → s'.page_lock j ≡ t.page_lock j
  pub heap : (s'.head ≡ t.head) × (s'.heap_lock ≡ t.heap_lock) × (s'.page_head ≡ t.page_head)

two_less : (k n : ℕ) → k * n - 2 * n ≡ (k - 2) * n
two_less zero n = omega arith
two_less (suc zero) n = let e : suc zero - 2 ≡ 0 = omega arith in rw e (omega arith)
two_less (suc (suc k)) n = let e : suc (suc k) - 2 ≡ k = omega arith in rw e (omega arith)

module _ (t : State) (i size ph : ℕ) (c : IsClass size) (f : IsFresh t.mem ph size) where
  abbrev node : ℕ
  node = ph + size + size

  abbrev left : ℕ
  left = page_size - 2 * size

  abbrev w1 : Mem
  w1 = write t.mem (node + 12) page_magic

  abbrev w2 : Mem
  w2 = write w1 node 0

  abbrev w3 : Mem
  w3 = write w2 (ph + 12) 2

  abbrev w4 : Mem
  w4 = write w3 (node + 8) left

  abbrev opened : State
  opened = with_lock (cpu i) 0 (record t { mem = clear w4 (ph + size) size })

  open_page-opened : open_page i size ph t ≡ ok (ph + size) opened
  unfolding open_page unlock zero_range
  open_page-opened =
      let least = c.least in
      let most = c.most in
      let reach = f.reach in
      let one = block_at-eq ph 1 size (ph + size) (omega arith) (omega arith) in
      let two : u32 (1 + 1) ≡ 2 = omega arith in
      let word : u32 page_magic ≡ page_magic = omega arith in
      let here : (block_at ph 2 size == node) ≡ true =
        eq→== (block_at ph 2 size) node (block_at-eq ph 2 size node (omega arith) (omega arith)) in
      let rest : u32 (sub64 page_size (2 * size)) ≡ left = omega arith in
      let pos : 0 < node = omega (arith, f.ne_null) in
      let s1 : State = record t { mem = w1 } in
      let s2 : State = record t { mem = w2 } in
      let s3 : State = record t { mem = w3 } in
      let index3 : w3 (ph + 12) ≡ 2 = write-same w2 (ph + 12) 2 in
      rw (
        get_word-ok ph t f.ne_null,
        f.index,
        one,
        set_word-ok node t pos page_magic,
        word,
        set_next-ok node s1 pos 0,
        set_word-ok ph s2 f.ne_null (1 + 1),
        two,
        get_word-ok ph s3 f.ne_null,
        index3,
        set_size-ok node s3 pos (sub64 page_size (2 * size)),
        rest,
        here,
      )

  opened-kept : (b : ℕ) → Outside b (page_at ph) → opened.mem b ≡ t.mem b
  opened-kept b o =
      let least = c.least in
      let most = c.most in
      clear-outside w4 (ph + size) size b (omega arith)
      ∙ write-other w3 (node + 8) left b (omega arith)
      ∙ write-other w2 (ph + 12) 2 b (omega arith)
      ∙ write-other w1 node 0 b (omega arith)
      ∙ write-other t.mem (node + 12) page_magic b (omega arith)

  opened-next : opened.mem ph ≡ t.mem ph
  opened-next =
      let least = c.least in
      clear-outside w4 (ph + size) size ph (omega arith)
      ∙ write-other w3 (node + 8) left ph (omega arith)
      ∙ write-other w2 (ph + 12) 2 ph (omega arith)
      ∙ write-other w1 node 0 ph (omega arith)
      ∙ write-other t.mem (node + 12) page_magic ph (omega arith)

  opened-size : opened.mem (ph + 8) ≡ size
  opened-size =
      let least = c.least in
      clear-outside w4 (ph + size) size (ph + 8) (omega arith)
      ∙ write-other w3 (node + 8) left (ph + 8) (omega arith)
      ∙ write-other w2 (ph + 12) 2 (ph + 8) (omega arith)
      ∙ write-other w1 node 0 (ph + 8) (omega arith)
      ∙ write-other t.mem (node + 12) page_magic (ph + 8) (omega arith)
      ∙ f.size_field

  opened-index : opened.mem (ph + 12) ≡ 2
  opened-index =
      let least = c.least in
      clear-outside w4 (ph + size) size (ph + 12) (omega arith)
      ∙ write-other w3 (node + 8) left (ph + 12) (omega arith)
      ∙ write-same w2 (ph + 12) 2

  opened_node :
      (opened.mem node ≡ 0) × (opened.mem (node + 8) ≡ left) × (opened.mem (node + 12) ≡ page_magic)
  opened_node =
      let least = c.least in
      (
        clear-outside w4 (ph + size) size node (omega arith)
            ∙ write-other w3 (node + 8) left node (omega arith)
            ∙ write-other w2 (ph + 12) 2 node (omega arith)
            ∙ write-same w1 node 0,
        clear-outside w4 (ph + size) size (node + 8) (omega arith) ∙ write-same w3 (node + 8) left,
        clear-outside w4 (ph + size) size (node + 12) (omega arith)
            ∙ write-other w3 (node + 8) left (node + 12) (omega arith)
            ∙ write-other w2 (ph + 12) 2 (node + 12) (omega arith)
            ∙ write-other w1 node 0 (node + 12) (omega arith)
            ∙ write-same t.mem (node + 12) page_magic,
      )

  opened-IsSlab : IsSlab opened.mem ph size (tail_run ph size ∷ [])
  opened-IsSlab =
      let least = c.least in
      let most = c.most in
      let unit = c.unit in
      let pos = f.ne_null in
      let reach = f.reach in
      let (next, field, magic) = opened_node in
      record {
        ne_null = pos;
        reach = reach;
        least = least;
        most = most;
        unit = unit;
        size_field = opened-size;
        start = (ap (λ (k : ℕ). ph + k * size) opened-index ∙ omega arith, (refl, field, next));
        separate = (omega arith, tt, tt);
        runs = (
          record {
            first = 2;
            at = omega arith;
            count = c.blocks - 2;
            long = ap (λ (n : ℕ). n - 2 * size) (sym c.whole) ∙ two_less c.blocks size;
            behind_header = omega arith;
            in_page = omega arith;
          },
          tt,
        );
        magics = (magic, tt);
      }

  -- The page gives its first block.
  pub open_page-Opened : Returns (Opened t i size ph) (open_page i size ph t)
  open_page-Opened = rw open_page-opened (
      returns (record {
        address = refl;
        slab = opened-IsSlab;
        zeroed = λ b lo hi. clear-inside w4 (ph + size) size b lo hi;
        kept = opened-kept;
        next = opened-next;
        unlocked = ground arith;
        others = λ j ne. ground arith;
        heap = (refl, refl, refl);
      }))
