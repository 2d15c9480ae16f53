-- ===== src/Pmm/Pages/New.antt =====
-- The slow path of `kalloc`: no page has a free block of the size.
use njuoslab_l1_kmalloc_kfre.Base.{
  ℕ, ◌+◌, ◌≤◌, ◌<◌, ◌≡◌, ◌⊎◌, inl, inr, refl, List, [], ◌∷◌, ◌++◌, All, arith, ap, ◌∙◌, sym, ne→==,
  length, true, ◌==◌, if◌then◌else◌,
}
use mathlib.Core.Path.{subst}
use njuoslab_l1_kmalloc_kfre.Base.Words.{u32}
use njuoslab_l1_kmalloc_kfre.Machine.{State, ok, and_then, pure, ◌>>◌}
use njuoslab_l1_kmalloc_kfre.Machine.Memory.{write}
use njuoslab_l1_kmalloc_kfre.Machine.Fields.{set_next-ok, set_size-ok, set_word-ok}
use njuoslab_l1_kmalloc_kfre.Machine.Returns
use njuoslab_l1_kmalloc_kfre.Machine.Returns.{Returns, returns}
use njuoslab_l1_kmalloc_kfre.Pmm.Lock.{cpu, unlock, with_lock}
use njuoslab_l1_kmalloc_kfre.Pmm.FreeList.{Region}
use njuoslab_l1_kmalloc_kfre.Pmm.FreeHeap.{FreeHeap, Unchanged}
use njuoslab_l1_kmalloc_kfre.Pmm.PageAlloc.{allockpage}
use njuoslab_l1_kmalloc_kfre.Pmm.PageAlloc.Search.{TooSmall}
use njuoslab_l1_kmalloc_kfre.Pmm.PageAlloc.Refinement.{PageTaken}
use njuoslab_l1_kmalloc_kfre.Pmm.Kalloc.{new_block, insert_page, open_page}
use njuoslab_l1_kmalloc_kfre.Pmm.Pages.{Page, slab, empty, Allocator, fits, vacant}
use njuoslab_l1_kmalloc_kfre.Pmm.Pages.Search.{NoneOf, First-cases, reuse_page-none}
use njuoslab_l1_kmalloc_kfre.Pmm.Pages.Open.{IsClass, open_page-Opened}
use njuoslab_l1_kmalloc_kfre.Pmm.Pages.Given.{Given}
use njuoslab_l1_kmalloc_kfre.Pmm.Pages.Reuse.{new_block-reused}
use njuoslab_l1_kmalloc_kfre.Pmm.Pages.Room.{Room, allockpage-Room}
use njuoslab_l1_kmalloc_kfre.Pmm.Pages.Insert.{inserted, inserted-IsFresh, inserted-Given}

-- NULL has been returned: no page has a block of the size or is empty, no free region holds a page, and
-- all is as before.
pub record NoMemory (i size : ℕ) (pages : List Page) (gs : List Region) (s : State) (p : ℕ)
    (s' : State) : Type 0 where
  pub null : p ≡ 0
  pub none_fits : NoneOf (fits size) pages
  pub none_vacant : NoneOf vacant pages
  pub too_small : All TooSmall gs
  pub allocator : Allocator i pages gs s'
  pub same : s'.mem ≡ s.mem

abbrev pub Served : ℕ → ℕ → List Page → List Region → State → ℕ → State → Type 0
Served i size pages gs s p s' = NoMemory i size pages gs s p s' ⊎ Given i size pages gs s p s'

module _ (fuel i size : ℕ) (pages : List Page) (gs : List Region) (s : State)
    (a : Allocator i pages gs s) (c : IsClass size) (f : length pages < fuel)
    (f' : length gs < fuel) where
  abbrev locked : State
  locked = with_lock (cpu i) 1 s

  locked-FreeHeap : FreeHeap gs locked
  locked-FreeHeap = record {
    links = a.heap.links;
    separate = a.heap.separate;
    unlocked = a.heap.unlocked;
  }

  -- The list has no empty page, so a page is taken from the heap.
  new_block-insert :
      NoneOf vacant pages
      → new_block fuel i size locked
        ≡ and_then
            (insert_page fuel i size locked)
            λ page. (if page == 0 then (unlock (cpu i) >> pure 0) else open_page i size page)
  unfolding new_block
  new_block-insert n = rw (reuse_page-none locked fuel size (s.page_head i) pages n a.chain f)

  insert_page-null :
      (s1 : State) → allockpage fuel locked ≡ ok 0 s1 → insert_page fuel i size locked ≡ ok 0 s1
  unfolding insert_page
  insert_page-null s1 e = rw e

  insert_page-some :
      (page : ℕ) (gs' : List Region) (room : Room gs page gs') (s1 : State)
      (t : PageTaken locked gs page gs' s1)
      → allockpage fuel locked ≡ ok page s1
      → insert_page fuel i size locked ≡ ok page (inserted i size pages gs s a c page gs' room s1 t)
  unfolding insert_page
  insert_page-some page gs' room s1 t e =
      let word : u32 size ≡ size = omega (arith, c.most) in
      let pos = room.ne_null in
      let s2 : State = record s1 { mem = write s1.mem page (s1.page_head i) } in
      let s3 : State = record s1 { mem = write s2.mem (page + 8) size } in
      rw (
        e,
        ne→== page 0 (omega arith),
        set_next-ok page s1 pos (s1.page_head i),
        set_size-ok page s2 pos size,
        word,
        set_word-ok page s3 pos 1,
      )

  null-NoMemory :
      (s1 : State)
      → NoneOf (fits size) pages
      → NoneOf vacant pages
      → All TooSmall gs
      → Unchanged locked s1
      → NoMemory i size pages gs s 0 (with_lock (cpu i) 0 s1)
  null-NoMemory s1 n n' t u = record {
    null = refl;
    none_fits = n;
    none_vacant = n';
    too_small = t;
    allocator = record {
      heap = record {
        links = rw (u.mem, u.head) a.heap.links;
        separate = a.heap.separate;
        unlocked = u.unlocked;
      };
      chain = rw (u.mem, u.pages.heads) a.chain;
      disjoint = a.disjoint;
      off_heap = a.off_heap;
      unlocked = ground arith;
    };
    same = u.mem;
  }

  new_block-taken :
      NoneOf (fits size) pages
      → NoneOf vacant pages
      → Returns (Served i size pages gs s) (new_block fuel i size locked)
  unfolding unlock
  new_block-taken n n' =
      let (page, (s1, e, o)) = Returns.result (allockpage-Room fuel locked gs locked-FreeHeap f') in
      elim o [
        | inl (null, small, same) ↦
            let e' : allockpage fuel locked ≡ ok 0 s1 = e ∙ ap (λ (k : ℕ). ok k s1) null in
            rw (new_block-insert n', insert_page-null s1 e')
              (returns (inl (null-NoMemory s1 n n' small same)))
        | inr (gs', room, t) ↦
            rw
              (
                new_block-insert n',
                insert_page-some page gs' room s1 t e,
                ne→== page 0 (omega (arith, room.ne_null)),
              )
              (Returns.mono
                (open_page-Opened (inserted i size pages gs s a c page gs' room s1 t) i size page c
                  (inserted-IsFresh i size pages gs s a c page gs' room s1 t))
                λ p s' r. inr (inserted-Given i size pages gs s a c page gs' room s1 t p s' r))
      ]

length-front : (ps : List Page) (pg : Page) (qs : List Page) → length ps ≤ length (ps ++ (pg ∷ qs))
length-front [] pg qs = omega arith
length-front (x ∷ ps) pg qs = omega (arith, length-front ps pg qs)

reused-Given :
    (fuel i size : ℕ) (ps : List Page) (pg : Page) (qs : List Page) (gs : List Region) (s : State)
    → Allocator i (ps ++ (pg ∷ qs)) gs s
    → IsClass size
    → vacant pg ≡ true
    → NoneOf vacant ps
    → length (ps ++ (pg ∷ qs)) < fuel
    → Returns (Given i size (ps ++ (pg ∷ qs)) gs s) (new_block fuel i size (with_lock (cpu i) 1 s))
reused-Given fuel i size ps (slab ph k runs) qs gs s a c yes_vacant n f = absurd (ground arith)
reused-Given fuel i size ps (empty ph) qs gs s a c yes_vacant n f =
    new_block-reused i size ps ph qs gs s a c fuel n (omega (arith, length-front ps (empty ph) qs))

-- The slow path: the first empty page, else a page of the heap, else NULL.
pub new_block-Served :
    (fuel i size : ℕ) (pages : List Page) (gs : List Region) (s : State)
    → Allocator i pages gs s
    → IsClass size
    → length pages < fuel
    → length gs < fuel
    → NoneOf (fits size) pages
    → Returns (Served i size pages gs s) (new_block fuel i size (with_lock (cpu i) 1 s))
new_block-Served fuel i size pages gs s a c f f' n = elim (First-cases vacant pages) [
  | inl n' ↦ new_block-taken fuel i size pages gs s a c f f' n n'
  | inr first ↦
      let e = first.split in
      let r : Returns (Given i size pages gs s) (new_block fuel i size (with_lock (cpu i) 1 s)) =
        subst (λ l. Returns (Given i size l gs s) (new_block fuel i size (with_lock (cpu i) 1 s)))
          (sym e)
          (reused-Given fuel i size first.ps first.at first.qs gs s
            (subst (λ l. Allocator i l gs s) e a) c first.passes first.before
            (subst (λ (l : List Page). length l < fuel) e f)) in
      Returns.mono r λ p s' g. inr g
]
