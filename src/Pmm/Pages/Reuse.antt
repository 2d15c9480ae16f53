-- ===== src/Pmm/Pages/Reuse.antt =====
-- The slow path of `kalloc` where an empty page is given to the size.
use njuoslab_l1_kmalloc_kfre.Base.{
  ℕ, ◌+◌, ◌<◌, ◌≡◌, refl, List, [], ◌∷◌, ◌++◌, arith, ap, ◌∙◌, length, ne→==,
}
use njuoslab_l1_kmalloc_kfre.Machine.{State}
use njuoslab_l1_kmalloc_kfre.Machine.Memory.{Mem, write, write-same, write-other}
use njuoslab_l1_kmalloc_kfre.Machine.Returns
use njuoslab_l1_kmalloc_kfre.Machine.Returns.{Returns}
use njuoslab_l1_kmalloc_kfre.Pmm.Lock.{cpu, with_lock}
use njuoslab_l1_kmalloc_kfre.Pmm.FreeList.{Region}
use njuoslab_l1_kmalloc_kfre.Pmm.FreeList.Splice.{All-split}
use njuoslab_l1_kmalloc_kfre.Pmm.Kalloc.{new_block}
use njuoslab_l1_kmalloc_kfre.Pmm.Kfree.Push.{InUse}
use njuoslab_l1_kmalloc_kfre.Pmm.Slab.{IsSlab}
use njuoslab_l1_kmalloc_kfre.Pmm.Pages.{Page, slab, empty, IsEmpty, Allocator, vacant}
use njuoslab_l1_kmalloc_kfre.Pmm.Pages.Open.{IsClass, IsFresh, Opened, open_page-Opened, tail_run}
use njuoslab_l1_kmalloc_kfre.Pmm.Pages.Replace.{OnlyPage, Allocator-replace, Chain-middle}
use njuoslab_l1_kmalloc_kfre.Pmm.Pages.Search.{NoneOf, reuse_page-first}
use njuoslab_l1_kmalloc_kfre.Pmm.Pages.Given.{NotFree, Given}

-- The first block of a page that has just been opened is in use.
pub fresh-InUse :
    (m : Mem) (ph size p : ℕ)
    → p ≡ ph + size
    → IsSlab m ph size (tail_run ph size ∷ [])
    → InUse m ph size (tail_run ph size ∷ []) p
fresh-InUse m ph size p at h =
    let least = h.least in
    let most = h.most in
    record {
      slab = h;
      run = record {
        first = 1;
        at = omega arith;
        count = 1;
        long = omega arith;
        behind_header = omega arith;
        in_page = omega arith;
      };
      block = omega (arith, h.ne_null, h.reach, h.unit);
      apart = omega arith;
    }

module _ (i size : ℕ) (ps : List Page) (ph : ℕ) (qs : List Page) (gs : List Region) (s : State)
    (a : Allocator i (ps ++ (empty ph ∷ qs)) gs s) (c : IsClass size) where
  abbrev claimed : State
  claimed = record (with_lock (cpu i) 1 s) { mem = write s.mem (ph + 8) size }

  page-IsEmpty : IsEmpty s.mem ph
  page-IsEmpty = Chain-middle s.mem (s.page_head i) ps (empty ph) qs a.chain

  claimed-IsFresh : IsFresh claimed.mem ph size
  claimed-IsFresh =
      let h = page-IsEmpty in
      record {
        ne_null = h.ne_null;
        reach = h.reach;
        size_field = write-same s.mem (ph + 8) size;
        index = write-other s.mem (ph + 8) size (ph + 12) (omega arith) ∙ h.index;
      }

  open_page-Given :
      (p : ℕ) (s' : State)
      → Opened claimed i size ph p s'
      → Given i size (ps ++ (empty ph ∷ qs)) gs s p s'
  open_page-Given p s' o =
      let least = c.least in
      let most = c.most in
      let at = o.address in
      let only : OnlyPage (empty ph) s s' = record {
        mem = λ b out. o.kept b out ∙ write-other s.mem (ph + 8) size b (omega arith);
        next = o.next ∙ write-other s.mem (ph + 8) size ph (omega arith);
        head = o.heap.0;
        heap_lock = o.heap.1;
        page_head = o.heap.2;
      } in
      record {
        ps = ps;
        ph = ph;
        runs = tail_run ph size ∷ [];
        qs = qs;
        gs' = gs;
        allocator =
            Allocator-replace i ps (empty ph) (slab ph size (tail_run ph size ∷ [])) qs gs s s' a
              refl only o.slab o.unlocked;
        in_use = fresh-InUse s'.mem ph size p at o.slab;
        was_free = λ b lo hi ow.
            let (_, out, _) = All-split (NotFree b) ps (empty ph) qs ow.0 in omega arith;
        zeroed = o.zeroed;
        kept =
            λ b ow. let (_, out, _) = All-split (NotFree b) ps (empty ph) qs ow.0 in only.mem b out;
        others = λ j ne. (ap (λ (f : ℕ → ℕ). f j) o.heap.2, o.others j ne ∙ ground arith);
      }

  pub new_block-reused :
      (fuel : ℕ)
      → NoneOf vacant ps
      → length ps < fuel
      → Returns
          (Given i size (ps ++ (empty ph ∷ qs)) gs s)
          (new_block fuel i size (with_lock (cpu i) 1 s))
  unfolding new_block
  new_block-reused fuel n f =
      let h = page-IsEmpty in
      rw
        (
          reuse_page-first (with_lock (cpu i) 1 s) fuel size (s.page_head i) ps ph qs c.most n
              a.chain f,
          ne→== ph 0 (omega (arith, h.ne_null)),
          ne→== ph 0 (omega (arith, h.ne_null)),
        )
        (Returns.mono (open_page-Opened claimed i size ph c claimed-IsFresh)
          λ p s' o. open_page-Given p s' o)
