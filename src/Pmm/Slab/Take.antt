-- ===== src/Pmm/Slab/Take.antt =====
-- The fast path of `kalloc`: it gives the first block of the page's first run.
use njuoslab_l1_kmalloc_kfre.Base.{
  ℕ, ◌+◌, ◌-◌, ◌≤◌, ◌<◌, ◌≡◌, ◌≢◌, ◌⊎◌, inl, inr, refl, List, [], ◌∷◌, arith, All, ◌∙◌, ◌==◌,
  if◌then◌else◌, eq→==, ne→==, le→leb,
}
use native.Mathlib.Decide.{ℕ_discrete}
use njuoslab_l1_kmalloc_kfre.Base.Words.{u32, sub32, sext-small}
use njuoslab_l1_kmalloc_kfre.Machine.{State, ok, and_then, zero_range}
use njuoslab_l1_kmalloc_kfre.Machine.Memory.{
  write, clear, write-same, write-other, clear-inside, clear-outside,
}
use njuoslab_l1_kmalloc_kfre.Machine.Fields.{get_size-ok, get_word-ok, set_size-ok}
use njuoslab_l1_kmalloc_kfre.Machine.Returns.{Returns, returns}
use njuoslab_l1_kmalloc_kfre.Pmm.Lock.{cpu, unlock, with_lock}
use njuoslab_l1_kmalloc_kfre.Pmm.FreeList.{Region, Separate, Links}
use njuoslab_l1_kmalloc_kfre.Pmm.Kalloc.{page_magic, take_block, next_node, advance_node}
use njuoslab_l1_kmalloc_kfre.Pmm.Slab.{IsRun, IsSlab}
use njuoslab_l1_kmalloc_kfre.Pmm.Slab.Head.{
  number, indexed, advanced, next_node-last, next_node-more, advance_node-advanced,
}
use njuoslab_l1_kmalloc_kfre.Pmm.Slab.Index.{block_at-eq}
use njuoslab_l1_kmalloc_kfre.Pmm.Slab.After.{
  Touches, rest_block, run-le, run-two, whole-IsSlab, cut-IsSlab,
}

-- The free blocks that are left.
abbrev pub rest_blocks : (size : ℕ) → Region → List Region → List Region
rest_blocks size g gs = if g.size == size then gs else rest_block size g ∷ gs

-- The block `p` has been taken from the page's first run `g`, behind which are `gs`.
pub record BlockTaken (s : State) (i ph size : ℕ) (g : Region) (gs : List Region) (p : ℕ)
    (s' : State) : Type 0 where
  pub address : p ≡ g.addr
  pub slab : IsSlab s'.mem ph size (rest_blocks size g gs)
  pub zeroed : (b : ℕ) → p ≤ b → b < p + size → s'.mem b ≡ 0
  pub kept : (b : ℕ) → (b < g.addr) ⊎ (g.addr + g.size ≤ b) → b ≢ ph + 12 → s'.mem b ≡ s.mem b
  pub unlocked : s'.page_lock i ≡ 0
  pub others : (j : ℕ) → j ≢ i → s'.page_lock j ≡ s.page_lock j
  pub heap : (s'.head ≡ s.head) × (s'.heap_lock ≡ s.heap_lock) × (s'.page_head ≡ s.page_head)

module _ (s : State) (i ph size : ℕ) (g : Region) (gs : List Region)
    (slab : IsSlab s.mem ph size (g ∷ gs)) where
  abbrev shrunk : State
  shrunk = record s { mem = write s.mem (g.addr + 8) (g.size - size) }

  -- What the head's update leaves, with the lock released and the block zeroed.
  abbrev finished : State → State
  finished t = record (with_lock (cpu i) 0 t) { mem = clear t.mem g.addr size }

  left_word : u32 (sub32 g.size size) ≡ g.size - size
  left_word = let v = slab.separate.0 in omega (arith, run-le g v slab.runs.0, v.small, slab.most)

  -- `take_block` up to the update of the list's head.
  take_block-step :
      take_block i size ph s
      ≡ and_then
          ((if (g.size - size) == 0 then next_node ph g.addr size else advance_node ph g.addr size)
            shrunk)
          (λ _ t. ok g.addr (finished t))
  unfolding take_block unlock zero_range
  take_block-step =
      let v = slab.separate.0 in
      rw (
        get_size-ok ph s slab.ne_null,
        slab.size_field,
        sext-small size (omega (arith, slab.most)),
        eq→== size size refl,
        get_word-ok ph s slab.ne_null,
        block_at-eq ph (s.mem (ph + 12)) size g.addr slab.start.0 (omega (arith, v.reach)),
        get_size-ok g.addr s v.ne_null,
        slab.start.1.1,
        sext-small g.size v.small,
        le→leb size g.size (run-le g v slab.runs.0),
        set_size-ok g.addr s v.ne_null (sub32 g.size size),
        left_word,
        get_size-ok g.addr shrunk v.ne_null,
        write-same s.mem (g.addr + 8) (g.size - size),
      )

  take_block-whole :
      (t : State)
      → g.size ≡ size
      → next_node ph g.addr size shrunk ≡ ok tt t
      → take_block i size ph s ≡ ok g.addr (finished t)
  take_block-whole t e step = take_block-step ∙ rw (eq→== (g.size - size) 0 (omega arith), step)

  take_block-cut :
      (t : State)
      → g.size ≢ size
      → advance_node ph g.addr size shrunk ≡ ok tt t
      → take_block i size ph s ≡ ok g.addr (finished t)
  take_block-cut t ne step =
      let more = run-two g slab.separate.0 slab.runs.0 ne in
      take_block-step ∙ rw (ne→== (g.size - size) 0 (omega (arith, slab.least)), step)

  -- What does not depend on how the head is updated.
  finished-BlockTaken :
      (t : State)
      → take_block i size ph s ≡ ok g.addr (finished t)
      → IsSlab (finished t).mem ph size (rest_blocks size g gs)
      → Touches s.mem t.mem ph g
      → t.page_lock ≡ s.page_lock
      → (t.head ≡ s.head) × (t.heap_lock ≡ s.heap_lock) × (t.page_head ≡ s.page_head)
      → Returns (BlockTaken s i ph size g gs) (take_block i size ph s)
  finished-BlockTaken t run after same locks heap =
      let v = slab.separate.0 in
      rw run (
        returns (record {
          address = refl;
          slab = after;
          zeroed = λ b lo hi. clear-inside t.mem g.addr size b lo hi;
          kept = λ b o ne.
              clear-outside t.mem g.addr size b (omega (arith, run-le g v slab.runs.0))
              ∙ same b o ne;
          unlocked = ground arith;
          others = λ j ne. rw locks (ground arith);
          heap = heap;
        }))

  finished-Touches : (t : State) → Touches s.mem t.mem ph g → Touches s.mem (finished t).mem ph g
  finished-Touches t same b o ne =
      clear-outside t.mem g.addr size b (omega (arith, run-le g slab.separate.0 slab.runs.0))
      ∙ same b o ne

  finished-below : (t : State) (b : ℕ) → b < g.addr → (finished t).mem b ≡ t.mem b
  finished-below t b h = clear-outside t.mem g.addr size b (inl h)

  finished-above : (t : State) (b : ℕ) → g.addr + size ≤ b → (finished t).mem b ≡ t.mem b
  finished-above t b h = clear-outside t.mem g.addr size b (inr h)

  header_below : ph + 32 ≤ g.addr
  header_below = omega (arith, slab.runs.0.behind_header, slab.least)

  shrunk-Touches : (k : ℕ) → Touches s.mem (indexed shrunk ph k).mem ph g
  shrunk-Touches k b o ne =
      write-other shrunk.mem (ph + 12) k b ne
      ∙ write-other s.mem (g.addr + 8) (g.size - size) b (omega (arith, slab.separate.0.room))

  shrunk-magic : shrunk.mem (g.addr + 12) ≡ page_magic
  shrunk-magic =
      write-other s.mem (g.addr + 8) (g.size - size) (g.addr + 12) (omega arith) ∙ slab.magics.0

  shrunk-next : shrunk.mem g.addr ≡ s.mem g.addr
  shrunk-next = write-other s.mem (g.addr + 8) (g.size - size) g.addr (omega arith)

  next_node-number :
      (ks : List Region) (r : All (IsRun ph size) ks)
      → Separate ks
      → Links s.mem (s.mem g.addr) ks 0
      → next_node ph g.addr size shrunk ≡ ok tt (indexed shrunk ph (number ph size ks r))
  next_node-number [] r sep c =
      next_node-last ph size slab.ne_null slab.reach slab.least shrunk g.addr
        slab.separate.0.ne_null shrunk-magic (shrunk-next ∙ c)
  next_node-number (k ∷ ks) (r, rs) (v, _, _) (e, _, _) =
      next_node-more ph size slab.ne_null slab.reach slab.least shrunk g.addr
        slab.separate.0.ne_null shrunk-magic k v r (shrunk-next ∙ e)

  take_block-all : g.size ≡ size → Returns (BlockTaken s i ph size g gs) (take_block i size ph s)
  take_block-all e =
      let n = number ph size gs slab.runs.1 in
      let t = indexed shrunk ph n in
      let run =
        take_block-whole t e (next_node-number gs slab.runs.1 slab.separate.2 slab.start.1.2) in
      let same = shrunk-Touches n in
      let index : (finished t).mem (ph + 12) ≡ n =
        finished-below t (ph + 12) (omega (arith, header_below))
        ∙ write-same shrunk.mem (ph + 12) n in
      let after =
        whole-IsSlab s.mem (finished t).mem ph size g gs slab (finished-Touches t same) index in
      finished-BlockTaken t run (rw (eq→== g.size size e) after) same refl (refl, refl, refl)

  take_block-first : g.size ≢ size → Returns (BlockTaken s i ph size g gs) (take_block i size ph s)
  take_block-first ne =
      let (v, _, _) = slab.separate in
      let r = slab.runs.0 in
      let two = run-two g v r ne in
      let k = s.mem (ph + 12) in
      let left = g.size - size in
      let grown = advanced ph size slab.ne_null slab.reach slab.least shrunk g.addr left in
      let t = indexed grown ph (k + 1) in
      let node = g.addr + size in
      let low = header_below in
      let step =
        advance_node-advanced ph size slab.ne_null slab.reach slab.least shrunk g.addr k left
          slab.start.0 r.behind_header (omega (arith, r.in_page)) slab.most
          (write-other s.mem (g.addr + 8) left (ph + 8) (omega arith) ∙ slab.size_field)
          (write-other s.mem (g.addr + 8) left (ph + 12) (omega arith))
          (write-same s.mem (g.addr + 8) left) (omega (arith, v.small)) in
      let same : Touches s.mem t.mem ph g = λ b o ne'.
        write-other grown.mem (ph + 12) (k + 1) b ne'
        ∙ write-other _ (node + 8) left b (omega (arith, slab.least))
        ∙ write-other _ node (shrunk.mem g.addr) b (omega (arith, slab.least))
        ∙ write-other shrunk.mem (node + 12) page_magic b (omega (arith, slab.least))
        ∙ write-other s.mem (g.addr + 8) left b (omega (arith, v.room)) in
      let after =
        cut-IsSlab s.mem (finished t).mem ph size g gs slab (finished-Touches t same) ne
          (finished-below t (ph + 12) (omega arith) ∙ write-same grown.mem (ph + 12) (k + 1))
          (finished-above t node (omega arith)
            ∙ write-other grown.mem (ph + 12) (k + 1) node (omega arith)
            ∙ write-other _ (node + 8) left node (omega arith)
            ∙ write-same _ node (shrunk.mem g.addr)
            ∙ shrunk-next)
          (finished-above t (node + 8) (omega arith)
            ∙ write-other grown.mem (ph + 12) (k + 1) (node + 8) (omega arith)
            ∙ write-same _ (node + 8) left)
          (finished-above t (node + 12) (omega arith)
            ∙ write-other grown.mem (ph + 12) (k + 1) (node + 12) (omega arith)
            ∙ write-other _ (node + 8) left (node + 12) (omega arith)
            ∙ write-other _ node (shrunk.mem g.addr) (node + 12) (omega arith)
            ∙ write-same shrunk.mem (node + 12) page_magic) in
      finished-BlockTaken t (take_block-cut t ne step) (rw (ne→== g.size size ne) after) same refl
        (refl, refl, refl)

-- The fast path of `kalloc` on a page whose free list is not empty returns the first block of the
-- first run. The page is then again well formed, with that block out of its free list; the block
-- reads as zeros; nothing else is written but nodes in the run and the index in the page's header;
-- and the CPU's lock is released, and with the heap and the other locks stays as it was.
pub take_block_lem :
    (s : State) (i ph size : ℕ) (g : Region) (gs : List Region)
    → IsSlab s.mem ph size (g ∷ gs)
    → Returns (BlockTaken s i ph size g gs) (take_block i size ph s)
take_block_lem s i ph size g gs slab = elim (ℕ_discrete g.size size) [
  | yes e ↦ take_block-all s i ph size g gs slab e
  | no ne ↦ take_block-first s i ph size g gs slab ne
]
