-- ===== src/Pmm/Pages/FirstPage.antt =====
-- `kalloc` of a small block for a CPU that has no page yet.
use njuoslab_l1_kmalloc_kfre.Base.{
  ℕ, zero, suc, ◌+◌, ◌-◌, ◌*◌, ◌^◌, ◌≤◌, ◌<◌, ◌≡◌, ◌≢◌, refl, List, [], ◌∷◌, arith, ap, ◌∙◌, sym,
  ne→==, eq→==,
}
use njuoslab_l1_kmalloc_kfre.Base.Words.{u32, sub64}
use njuoslab_l1_kmalloc_kfre.Machine.{State, ok, update}
use njuoslab_l1_kmalloc_kfre.Machine.Memory.{Mem, write, write-same, write-other}
use njuoslab_l1_kmalloc_kfre.Machine.Fields.{set_next-ok, set_size-ok, set_word-ok}
use njuoslab_l1_kmalloc_kfre.Pmm.Lock.{cpu, lock, unlock, with_lock}
use njuoslab_l1_kmalloc_kfre.Pmm.FreeList.{
  Region, region, Outside, Links-same, Separate-IsRegion, Apart-SameNodes,
}
use njuoslab_l1_kmalloc_kfre.Pmm.PageAlloc.{page_size, allockpage}
use njuoslab_l1_kmalloc_kfre.Pmm.PageAlloc.Refinement.{page_at, PageTaken}
use njuoslab_l1_kmalloc_kfre.Pmm.Kalloc.{page_magic, first_page}
use njuoslab_l1_kmalloc_kfre.Pmm.Slab.{IsSlab}
use njuoslab_l1_kmalloc_kfre.Pmm.Pages.{slab, Allocator}
use njuoslab_l1_kmalloc_kfre.Pmm.Pages.Open.{IsClass}
use njuoslab_l1_kmalloc_kfre.Pmm.Pages.Given.{Owned}
use njuoslab_l1_kmalloc_kfre.Pmm.Pages.Room.{Room}

-- All blocks of the page but the header's.
abbrev pub blocks_run : (page size : ℕ) → Region
blocks_run page size = region (page + size) (page_size - size)

less_one : (k n : ℕ) → k * n - n ≡ (k - 1) * n
less_one zero n = omega arith
less_one (suc k) n = let e : suc k - 1 ≡ k = omega arith in rw e (omega arith)

module _ (i size page : ℕ) (s1 : State) (c : IsClass size) where
  abbrev node : ℕ
  node = page + size

  abbrev left : ℕ
  left = page_size - size

  abbrev w1 : Mem
  w1 = write s1.mem page 0

  abbrev w2 : Mem
  w2 = write w1 (page + 8) size

  abbrev w3 : Mem
  w3 = write w2 (page + 12) 1

  abbrev w4 : Mem
  w4 = write w3 (node + 12) page_magic

  abbrev w5 : Mem
  w5 = write w4 node 0

  abbrev w6 : Mem
  w6 = write w5 (node + 8) left

  -- The state with the first page.
  abbrev pub begun : State
  begun = with_lock (cpu i) 0 (record s1 { mem = w6; page_head = update s1.page_head i page })

  pub first_page-begun :
      (fuel : ℕ) (s : State)
      → s.page_lock i ≡ 0
      → 0 < page
      → allockpage fuel (with_lock (cpu i) 1 s) ≡ ok page s1
      → first_page fuel i size s ≡ ok tt begun
  unfolding first_page lock unlock
  first_page-begun fuel s free pos e =
      let most = c.most in
      let word : u32 size ≡ size = omega (arith, c.most) in
      let magic : u32 page_magic ≡ page_magic = omega arith in
      let rest : u32 (sub64 page_size size) ≡ left = omega arith in
      let pos' : 0 < node = omega arith in
      let s2 : State = record s1 { page_head = update s1.page_head i page } in
      rw (
        free,
        eq→== i i refl,
        e,
        ne→== page 0 (omega arith),
        set_next-ok page s2 pos 0,
        set_size-ok page (record s2 { mem = w1 }) pos size,
        word,
        set_word-ok page (record s2 { mem = w2 }) pos 1,
        set_word-ok node (record s2 { mem = w3 }) pos' page_magic,
        magic,
        set_next-ok node (record s2 { mem = w4 }) pos' 0,
        set_size-ok node (record s2 { mem = w5 }) pos' (sub64 page_size size),
        rest,
      )

  begun-kept : (b : ℕ) → Outside b (page_at page) → begun.mem b ≡ s1.mem b
  begun-kept b o =
      let least = c.least in
      let most = c.most in
      write-other w5 (node + 8) left b (omega arith)
      ∙ write-other w4 node 0 b (omega arith)
      ∙ write-other w3 (node + 12) page_magic b (omega arith)
      ∙ write-other w2 (page + 12) 1 b (omega arith)
      ∙ write-other w1 (page + 8) size b (omega arith)
      ∙ write-other s1.mem page 0 b (omega arith)

  -- The three fields of the header, and those of the node.
  begun_header : (begun.mem page ≡ 0) × (begun.mem (page + 8) ≡ size) × (begun.mem (page + 12) ≡ 1)
  begun_header =
      let least = c.least in
      let behind : (b : ℕ) → b < page + 16 → begun.mem b ≡ w3 b = λ b lt.
        write-other w5 (node + 8) left b (omega arith)
        ∙ write-other w4 node 0 b (omega arith)
        ∙ write-other w3 (node + 12) page_magic b (omega arith) in
      (
        behind page (omega arith)
            ∙ write-other w2 (page + 12) 1 page (omega arith)
            ∙ write-other w1 (page + 8) size page (omega arith)
            ∙ write-same s1.mem page 0,
        behind (page + 8) (omega arith)
            ∙ write-other w2 (page + 12) 1 (page + 8) (omega arith)
            ∙ write-same w1 (page + 8) size,
        behind (page + 12) (omega arith) ∙ write-same w2 (page + 12) 1,
      )

  begun_node :
      (begun.mem node ≡ 0) × (begun.mem (node + 8) ≡ left) × (begun.mem (node + 12) ≡ page_magic)
  begun_node = (
    write-other w5 (node + 8) left node (omega arith) ∙ write-same w4 node 0,
    write-same w5 (node + 8) left,
    write-other w5 (node + 8) left (node + 12) (omega arith)
        ∙ write-other w4 node 0 (node + 12) (omega arith)
        ∙ write-same w3 (node + 12) page_magic,
  )

  begun-IsSlab :
      0 < page → page + page_size ≤ 2 ^ 63 → IsSlab begun.mem page size (blocks_run page size ∷ [])
  begun-IsSlab pos reach =
      let least = c.least in
      let most = c.most in
      let unit = c.unit in
      let (_, size_field, index) = begun_header in
      let (next, field, magic) = begun_node in
      record {
        ne_null = pos;
        reach = reach;
        least = least;
        most = most;
        unit = unit;
        size_field = size_field;
        start = (ap (λ (k : ℕ). page + k * size) index ∙ omega arith, (refl, field, next));
        separate = (omega arith, tt, tt);
        runs = (
          record {
            first = 1;
            at = omega arith;
            count = c.blocks - 1;
            long = ap (λ (n : ℕ). n - size) (sym c.whole) ∙ less_one c.blocks size;
            behind_header = omega arith;
            in_page = omega arith;
          },
          tt,
        );
        magics = (magic, tt);
      }

  module _ (gs gs' : List Region) (s : State) (room : Room gs page gs')
      (t : PageTaken (with_lock (cpu i) 1 s) gs page gs' s1) where
    pub begun-Allocator : Allocator i (slab page size (blocks_run page size ∷ []) ∷ []) gs' begun
    begun-Allocator =
        let free = t.heap in
        let (next, _, _) = begun_header in
        record {
          heap = record {
            links =
                Links-same s1.mem begun.mem s1.head 0 gs'
                  (Apart-SameNodes s1.mem begun.mem (page_at page) gs' begun-kept
                    (Separate-IsRegion gs' free.separate) t.apart)
                  free.links;
            separate = free.separate;
            unlocked = free.unlocked;
          };
          chain = (ground arith, begun-IsSlab room.ne_null room.reach, next);
          disjoint = (tt, tt);
          off_heap = (t.apart, tt);
          unlocked = ground arith;
        }

    -- What was in use before is in use now, and as it was.
    pub begun-Owned :
        (b : ℕ)
        → Owned [] gs b
        → Owned (slab page size (blocks_run page size ∷ []) ∷ []) gs' b × (begun.mem b ≡ s.mem b)
    begun-Owned b ow =
        let most = c.most in
        let (near, far) = room.outside b ow.1 in
        (((((omega arith, tt), omega arith), tt), far), begun-kept b near ∙ t.kept b ow.1)

    pub begun_others :
        (j : ℕ) → j ≢ i → (begun.page_head j ≡ s.page_head j) × (begun.page_lock j ≡ s.page_lock j)
    begun_others j ne = (
      ground (arith, ap (λ (f : ℕ → ℕ). f j) t.pages.heads),
      ground (arith, ap (λ (f : ℕ → ℕ). f j) t.pages.locks),
    )
