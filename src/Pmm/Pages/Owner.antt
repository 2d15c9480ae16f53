-- ===== src/Pmm/Pages/Owner.antt =====
-- The search of `kfree` for the page that holds a block, in the lists of all CPUs.
use njuoslab_l1_kmalloc_kfre.Base.{
  ◌^◌, ℕ, zero, suc, ◌+◌, ◌<◌, ◌≤◌, ◌≡◌, List, [], ◌∷◌, ◌++◌, arith, All, length, ltb, ◌&&◌, false,
  lt→ltb, ne→==,
}
use njuoslab_l1_kmalloc_kfre.Base.Words.{add64}
use njuoslab_l1_kmalloc_kfre.Machine.{State, ok}
use njuoslab_l1_kmalloc_kfre.Machine.Memory.{Mem}
use njuoslab_l1_kmalloc_kfre.Machine.Fields.{get_next-ok}
use njuoslab_l1_kmalloc_kfre.Pmm.FreeList.{Outside}
use njuoslab_l1_kmalloc_kfre.Pmm.PageAlloc.{page_size}
use njuoslab_l1_kmalloc_kfre.Pmm.PageAlloc.Refinement.{page_at}
use njuoslab_l1_kmalloc_kfre.Pmm.Kfree.{find_owner, find_owners}
use njuoslab_l1_kmalloc_kfre.Pmm.Pages.{Page, IsPage, slab, empty, addr_of, place, Chain}
use njuoslab_l1_kmalloc_kfre.Pmm.Pages.Search.{page-ne_null}

-- The address is in none of the pages.
abbrev pub NoneHolds : ℕ → List Page → Type 0
NoneHolds ptr pages = All (λ pg. Outside ptr (place pg)) pages

Outside-test :
    (ptr ph : ℕ)
    → ph + page_size ≤ 2 ^ 63
    → Outside ptr (page_at ph)
    → (ltb ph ptr && ltb ptr (add64 ph page_size)) ≡ false
Outside-test ptr ph reach o =
    let end : add64 ph page_size ≡ ph + page_size = omega arith in rw end (ground arith)

page-reach : (m : Mem) (pg : Page) → IsPage m pg → addr_of pg + page_size ≤ 2 ^ 63
page-reach m (slab ph size gs) h = h.reach
page-reach m (empty ph) h = h.reach

find_owner-none :
    (s : State) (k ptr p : ℕ) (pages : List Page)
    → Chain s.mem p pages
    → NoneHolds ptr pages
    → length pages < k
    → find_owner k ptr p s ≡ ok 0 s
unfolding find_owner
find_owner-none s zero ptr p pages c n f = absurd (omega arith)
find_owner-none s (suc k) ptr p [] c n f = rw c
find_owner-none s (suc k) ptr p (pg ∷ pages) (e, h, c) (n, ns) f =
    let pos = page-ne_null s.mem pg h in
    rw e (
      rw
        (
          ne→== (addr_of pg) 0 (omega arith),
          Outside-test ptr (addr_of pg) (page-reach s.mem pg h) n,
          get_next-ok (addr_of pg) s pos,
        )
        (find_owner-none s k ptr (s.mem (addr_of pg)) pages c ns (omega arith)))

find_owner-some :
    (s : State) (k ptr p : ℕ) (ps : List Page) (pg : Page) (qs : List Page)
    → Chain s.mem p (ps ++ (pg ∷ qs))
    → NoneHolds ptr ps
    → addr_of pg < ptr
    → ptr < addr_of pg + page_size
    → length ps < k
    → find_owner k ptr p s ≡ ok (addr_of pg) s
unfolding find_owner
find_owner-some s zero ptr p ps pg qs c n lo hi f = absurd (omega arith)
find_owner-some s (suc k) ptr p [] pg qs (e, h, c) n lo hi f =
    let pos = page-ne_null s.mem pg h in
    rw e (
      rw (
        ne→== (addr_of pg) 0 (omega arith),
        lt→ltb (addr_of pg) ptr lo,
        lt→ltb ptr (add64 (addr_of pg) page_size) (omega (arith, page-reach s.mem pg h)),
      ))
find_owner-some s (suc k) ptr p (x ∷ ps) pg qs (e, h, c) (n, ns) lo hi f =
    let pos = page-ne_null s.mem x h in
    rw e (
      rw
        (
          ne→== (addr_of x) 0 (omega arith),
          Outside-test ptr (addr_of x) (page-reach s.mem x h) n,
          get_next-ok (addr_of x) s pos,
        )
        (find_owner-some s k ptr (s.mem (addr_of x)) ps pg qs c ns lo hi (omega arith)))

-- The lists of the CPUs from `i` on, `left` of them: well formed, walked within the fuel, and without the
-- address.
abbrev pub Elsewhere : State → (fuel ptr : ℕ) → (ℕ → List Page) → (left i : ℕ) → Type 0
Elsewhere s fuel ptr lists zero i = Unit
Elsewhere s fuel ptr lists (suc left) i =
    Chain s.mem (s.page_head i) (lists i)
    × NoneHolds ptr (lists i)
    × (length (lists i) < fuel)
    × Elsewhere s fuel ptr lists left (suc i)

-- The page that holds the address is found, in the list of the CPU behind the first `before`.
pub find_owners-some :
    (s : State) (fuel ptr : ℕ) (lists : ℕ → List Page) (before after i : ℕ) (ps : List Page)
    (pg : Page) (qs : List Page)
    → Elsewhere s fuel ptr lists before i
    → Chain s.mem (s.page_head (before + i)) (ps ++ (pg ∷ qs))
    → NoneHolds ptr ps
    → addr_of pg < ptr
    → ptr < addr_of pg + page_size
    → length ps < fuel
    → find_owners fuel (before + suc after) i ptr s ≡ ok (addr_of pg) s
unfolding find_owners
find_owners-some s fuel ptr lists zero after i ps pg qs other c n lo hi f =
    let e : zero + i ≡ i = omega arith in
    let e' : zero + suc after ≡ suc after = omega arith in
    let c' : Chain s.mem (s.page_head i) (ps ++ (pg ∷ qs)) = rw e at c in
    let ne : 0 < addr_of pg = found-pos ps (s.page_head i) c' in
    rw e' (
      rw (
        find_owner-some s fuel ptr (s.page_head i) ps pg qs c' n lo hi f,
        ne→== (addr_of pg) 0 (omega arith),
      ))
  where
    found-pos : (ps : List Page) (p : ℕ) → Chain s.mem p (ps ++ (pg ∷ qs)) → 0 < addr_of pg
    found-pos [] p (e, h, c) = page-ne_null s.mem pg h
    found-pos (x ∷ ps) p (e, h, c) = found-pos ps (s.mem (addr_of x)) c
find_owners-some s fuel ptr lists (suc before) after i ps pg qs (c', n', f', other) c n lo hi f =
    let e : suc before + i ≡ before + suc i = omega arith in
    let e' : suc before + suc after ≡ suc (before + suc after) = omega arith in
    let e'' : i + 1 ≡ suc i = omega arith in
    let c'' : Chain s.mem (s.page_head (before + suc i)) (ps ++ (pg ∷ qs)) = rw e at c in
    rw e' (
      rw (find_owner-none s fuel ptr (s.page_head i) (lists i) c' n' f', e'')
        (find_owners-some s fuel ptr lists before after (suc i) ps pg qs other c'' n lo hi f))
