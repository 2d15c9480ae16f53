-- ===== src/Pmm/Pages/Small.antt =====
-- `kalloc` of a small block for a CPU that has a page.
use njuoslab_l1_kmalloc_kfre.Base.{
  ℕ, ◌<◌, ◌≡◌, ◌≢◌, inl, inr, refl, List, [], ◌∷◌, ◌++◌, arith, ap, ◌∙◌, sym, ne→==, eq→==, length,
  true, leb, ◌==◌, if◌then◌else◌,
}
use mathlib.Core.Path.{subst}
use njuoslab_l1_kmalloc_kfre.Machine.{State, Run, and_then}
use njuoslab_l1_kmalloc_kfre.Machine.Returns
use njuoslab_l1_kmalloc_kfre.Machine.Returns.{Returns}
use njuoslab_l1_kmalloc_kfre.Pmm.Lock.{cpu, lock, with_lock}
use njuoslab_l1_kmalloc_kfre.Pmm.FreeList.{Region}
use njuoslab_l1_kmalloc_kfre.Pmm.Kalloc.{kalloc_small, find_page, new_block, take_block}
use njuoslab_l1_kmalloc_kfre.Pmm.Pages.{Page, slab, empty, addr_of, Allocator, fits}
use njuoslab_l1_kmalloc_kfre.Pmm.Pages.Search.{
  First-cases, find_page-first, first_addr, first_addr-none, first_addr-split, page-ne_null,
}
use njuoslab_l1_kmalloc_kfre.Pmm.Pages.Open.{IsClass}
use njuoslab_l1_kmalloc_kfre.Pmm.Pages.Given.{Given, take_block-Given}
use njuoslab_l1_kmalloc_kfre.Pmm.Pages.Replace.{Chain-middle}
use njuoslab_l1_kmalloc_kfre.Pmm.Pages.New.{Served, new_block-Served}

-- The calls behind the search.
abbrev serve : (fuel i size ph : ℕ) → State → Run ℕ
serve fuel i size ph t = (if ph == 0 then new_block fuel i size else take_block i size ph) t

kalloc_small-find :
    (fuel i ncpu size : ℕ) (s : State)
    → leb i ncpu ≡ true
    → s.page_lock i ≡ 0
    → s.page_head i ≢ 0
    → kalloc_small fuel i ncpu size s
      ≡ and_then (find_page fuel size (s.page_head i) (with_lock (cpu i) 1 s)) (serve fuel i size)
unfolding kalloc_small lock
kalloc_small-find fuel i ncpu size s cpus free some_page =
    rw (cpus, ne→== (s.page_head i) 0 some_page, free, eq→== i i refl)

found-Given :
    (i size : ℕ) (ps : List Page) (pg : Page) (qs : List Page) (gs : List Region) (s : State)
    → Allocator i (ps ++ (pg ∷ qs)) gs s
    → fits size pg ≡ true
    → Returns
        (Given i size (ps ++ (pg ∷ qs)) gs s)
        (take_block i size (addr_of pg) (with_lock (cpu i) 1 s))
found-Given i size ps (empty ph) qs gs s a ok_size = absurd (ground arith)
found-Given i size ps (slab ph n []) qs gs s a ok_size = absurd (ground arith)
found-Given i size ps (slab ph n (g ∷ runs)) qs gs s a ok_size =
    let e : n ≡ size = ground arith in
    subst
      (λ k.
        Returns (Given i size (ps ++ (slab ph k (g ∷ runs) ∷ qs)) gs s)
          (take_block i size ph (with_lock (cpu i) 1 s)))
      (sym e)
      (take_block-Given i size ps ph g runs qs gs s
        (subst (λ k. Allocator i (ps ++ (slab ph k (g ∷ runs) ∷ qs)) gs s) e a))

-- With a well-formed allocator that has a page, and fuel for the walks, `kalloc` of a small class returns.
pub kalloc_small-Served :
    (fuel i ncpu size : ℕ) (pages : List Page) (gs : List Region) (s : State)
    → Allocator i pages gs s
    → IsClass size
    → leb i ncpu ≡ true
    → s.page_head i ≢ 0
    → length pages < fuel
    → length gs < fuel
    → Returns (Served i size pages gs s) (kalloc_small fuel i ncpu size s)
kalloc_small-Served fuel i ncpu size pages gs s a c cpus some_page f f' =
    let start = kalloc_small-find fuel i ncpu size s cpus a.unlocked some_page in
    let found =
      find_page-first (with_lock (cpu i) 1 s) fuel size (s.page_head i) pages c.least a.chain f in
    elim (First-cases (fits size) pages) [
      | inl n ↦
          rw (start, found, first_addr-none (fits size) pages n)
            (new_block-Served fuel i size pages gs s a c f f' n)
      | inr first ↦
          let e = first.split in
          let a' = subst (λ l. Allocator i l gs s) e a in
          let pos =
            page-ne_null s.mem first.at
              (Chain-middle s.mem (s.page_head i) first.ps first.at first.qs a'.chain) in
          let at : first_addr (fits size) pages ≡ addr_of first.at =
            ap (first_addr (fits size)) e
            ∙ first_addr-split (fits size) first.ps first.at first.qs first.before first.passes in
          rw (start, found, at, ne→== (addr_of first.at) 0 (omega arith))
            (Returns.mono (found-Given i size first.ps first.at first.qs gs s a' first.passes)
              λ p s' g. inr (subst (λ l. Given i size l gs s p s') (sym e) g))
    ]
