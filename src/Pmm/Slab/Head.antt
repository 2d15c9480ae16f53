-- ===== src/Pmm/Slab/Head.antt =====
-- The fast path of `kalloc` moves the head of a page's free list: to the node behind it, or to what
-- is left of the node when its first block has gone.
use njuoslab_l1_kmalloc_kfre.Base.{
  ℕ, ◌+◌, ◌*◌, ◌/◌, ◌^◌, ◌≤◌, ◌<◌, ◌≡◌, refl, List, [], ◌∷◌, arith, All, ap, sym, ◌∙◌, ne→==, eq→==,
}
use njuoslab_l1_kmalloc_kfre.Base.Words.{u32, sub64, sext-small}
use njuoslab_l1_kmalloc_kfre.Machine.{State, ok}
use njuoslab_l1_kmalloc_kfre.Machine.Memory.{write, write-same, write-other}
use njuoslab_l1_kmalloc_kfre.Machine.Fields.{
  get_next-ok, get_size-ok, get_word-ok, set_next-ok, set_size-ok, set_word-ok,
}
use njuoslab_l1_kmalloc_kfre.Pmm.FreeList.{Region, IsRegion}
use njuoslab_l1_kmalloc_kfre.Pmm.PageAlloc.{page_size}
use njuoslab_l1_kmalloc_kfre.Pmm.Kalloc.{page_magic, block_at, next_node, advance_node}
use njuoslab_l1_kmalloc_kfre.Pmm.Slab.{IsRun}
use njuoslab_l1_kmalloc_kfre.Pmm.Slab.Index.{block_at-eq, number_of, number-small, number-in_page}

-- `pagefreehead_index` has been set.
abbrev pub indexed : State → (ph k : ℕ) → State
indexed s ph k = record s { mem = write s.mem (ph + 12) k }

-- The number of the first block of a list of runs, 0 if it is empty.
abbrev pub number : (ph size : ℕ) (gs : List Region) → All (IsRun ph size) gs → ℕ
number ph size [] r = 0
number ph size (g ∷ gs) (r, rs) = r.first

module _ (ph size : ℕ) (pos : 0 < ph) (reach : ph + page_size ≤ 2 ^ 63) (least : 32 ≤ size)
    (s : State) where
  module _ (fd : ℕ) (ne : 0 < fd) (magic : s.mem (fd + 12) ≡ page_magic) where
    pub next_node-last : s.mem fd ≡ 0 → next_node ph fd size s ≡ ok tt (indexed s ph 0)
    unfolding next_node
    next_node-last e =
        rw (get_word-ok fd s ne, magic, get_next-ok fd s ne, e, set_word-ok ph s pos 0)

    pub next_node-more :
        (g : Region) (v : IsRegion g) (r : IsRun ph size g)
        → s.mem fd ≡ g.addr
        → next_node ph fd size s ≡ ok tt (indexed s ph r.first)
    unfolding next_node
    next_node-more g v r e =
        let index =
          number_of ph size r.first least g.addr r.at (omega (arith, r.in_page, v.room)) reach in
        let s' = indexed s ph r.first in
        let back : block_at ph (s'.mem (ph + 12)) size ≡ g.addr =
          block_at-eq ph (s'.mem (ph + 12)) size g.addr
            (ap (λ (t : ℕ). ph + t * size) (write-same s.mem (ph + 12) r.first) ∙ sym r.at)
            (omega (arith, v.reach)) in
        rw (
          get_word-ok fd s ne,
          magic,
          get_next-ok fd s ne,
          e,
          ne→== g.addr 0 (omega (arith, v.ne_null)),
          set_word-ok ph s pos (sub64 g.addr ph / size),
          index,
          get_word-ok ph s' pos,
          eq→== (block_at ph (s'.mem (ph + 12)) size) g.addr back,
        )

  -- The node behind the first block has been written, with what is `left` of the run.
  abbrev pub advanced : (fd left : ℕ) → State
  advanced fd left = record s {
    mem =
        write (write (write s.mem (fd + size + 12) page_magic) (fd + size) (s.mem fd))
          (fd + size + 8) left;
  }

  module _ (fd k left : ℕ) (at : ph + k * size ≡ fd) (first : ph + size ≤ fd)
      (room : fd + size + size ≤ ph + page_size) where
    advanced-number : (advanced fd left).mem (ph + 12) ≡ s.mem (ph + 12)
    advanced-number =
        write-other _ (fd + size + 8) left (ph + 12) (omega arith)
        ∙ write-other _ (fd + size) (s.mem fd) (ph + 12) (omega arith)
        ∙ write-other s.mem (fd + size + 12) page_magic (ph + 12) (omega arith)

    pub advance_node-advanced :
        size ≤ 16384
        → s.mem (ph + 8) ≡ size
        → s.mem (ph + 12) ≡ k
        → s.mem (fd + 8) ≡ left
        → left < 2 ^ 32
        → advance_node ph fd size s ≡ ok tt (indexed (advanced fd left) ph (k + 1))
    unfolding advance_node
    advance_node-advanced most size_field index left_field small =
        let node = fd + size in
        let ne : 0 < node = omega arith in
        let s1 : State = record s { mem = write s.mem (node + 12) page_magic } in
        let s2 : State = record s { mem = write s1.mem node (s.mem fd) } in
        let s3 = advanced fd left in
        let s4 = indexed s3 ph (k + 1) in
        let next1 : s1.mem fd ≡ s.mem fd =
          write-other s.mem (node + 12) page_magic fd (omega arith) in
        let left2 : s2.mem (fd + 8) ≡ left =
          write-other s1.mem node (s.mem fd) (fd + 8) (omega arith)
          ∙ write-other s.mem (node + 12) page_magic (fd + 8) (omega arith)
          ∙ left_field in
        let left_word : u32 left ≡ left = omega arith in
        let e : (k + 1) * size ≡ k * size + size = omega arith in
        let within : k * size + size + size ≤ page_size = omega arith in
        let index_word : u32 (k + 1) ≡ k + 1 =
          omega (arith, number-small ph size k least (omega arith)) in
        let index4 : s4.mem (ph + 12) ≡ k + 1 = write-same s3.mem (ph + 12) (k + 1) in
        let back = block_at-eq ph (k + 1) size node (omega arith) (omega arith) in
        rw (
          get_size-ok ph s pos,
          size_field,
          sext-small size (omega arith),
          eq→== size size refl,
          set_word-ok node s ne page_magic,
          get_next-ok fd s1 (omega arith),
          next1,
          set_next-ok node s1 ne (s.mem fd),
          get_size-ok fd s2 (omega arith),
          left2,
          set_size-ok node s2 ne left,
          left_word,
          get_word-ok ph s3 pos,
          advanced-number ∙ index,
          set_word-ok ph s3 pos (k + 1),
          index_word,
          get_word-ok ph s4 pos,
          index4,
          eq→== (block_at ph (k + 1) size) node back,
          number-in_page ph size (k + 1) least (omega arith),
        )
