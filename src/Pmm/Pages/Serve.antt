-- ===== src/Pmm/Pages/Serve.antt =====
-- `kalloc` of a small block, for a CPU with or without pages.
use njuoslab_l1_kmalloc_kfre.Base.{
  ℕ, zero, suc, ◌+◌, ◌-◌, ◌*◌, ◌^◌, ◌≤◌, ◌<◌, ◌≡◌, ◌≢◌, inl, inr, refl, List, [], ◌∷◌, All, arith,
  ap, ◌∙◌, ne→==, eq→==, length, true, leb,
}
use native.Mathlib.Nat.{pow-suc, pow-le-pow_right}
use native.Mathlib.Decide.{dec_le}
use njuoslab_l1_kmalloc_kfre.Machine.{State, Fault, ok, stop}
use njuoslab_l1_kmalloc_kfre.Machine.Returns
use njuoslab_l1_kmalloc_kfre.Machine.Returns.{Returns}
use njuoslab_l1_kmalloc_kfre.Pmm.Lock.{cpu, lock, with_lock}
use njuoslab_l1_kmalloc_kfre.Pmm.FreeList.{Region}
use njuoslab_l1_kmalloc_kfre.Pmm.PageAlloc.{allockpage}
use njuoslab_l1_kmalloc_kfre.Pmm.PageAlloc.Search.{TooSmall}
use njuoslab_l1_kmalloc_kfre.Pmm.PageAlloc.Refinement.{PageTaken}
use njuoslab_l1_kmalloc_kfre.Pmm.Kalloc.{kalloc, kalloc_small, first_page}
use njuoslab_l1_kmalloc_kfre.Pmm.Kalloc.Dispatch.{ClassOf, kalloc-cases}
use njuoslab_l1_kmalloc_kfre.Pmm.Pages.{Page, slab, Allocator}
use njuoslab_l1_kmalloc_kfre.Pmm.Pages.Search.{page-ne_null}
use njuoslab_l1_kmalloc_kfre.Pmm.Pages.Open.{IsClass}
use njuoslab_l1_kmalloc_kfre.Pmm.Pages.Given.{Owned, Given}
use njuoslab_l1_kmalloc_kfre.Pmm.Pages.Room.{Room, PageOrNull, allockpage-Room}
use njuoslab_l1_kmalloc_kfre.Pmm.Pages.FirstPage.{
  blocks_run, begun, first_page-begun, begun-Allocator, begun-Owned, begun_others,
}
use njuoslab_l1_kmalloc_kfre.Pmm.Pages.New.{Served}
use njuoslab_l1_kmalloc_kfre.Pmm.Pages.Small.{kalloc_small-Served}

-- A block given after a step that keeps what is in use.
Given-after :
    (i size : ℕ) (pages pages' : List Page) (gs gs' : List Region) (s t : State) (p : ℕ)
    (s' : State)
    → ((b : ℕ) → Owned pages gs b → Owned pages' gs' b × (t.mem b ≡ s.mem b))
    → ((j : ℕ) → j ≢ i → (t.page_head j ≡ s.page_head j) × (t.page_lock j ≡ s.page_lock j))
    → Given i size pages' gs' t p s'
    → Given i size pages gs s p s'
Given-after i size pages pages' gs gs' s t p s' still other g = record {
  ps = g.ps;
  ph = g.ph;
  runs = g.runs;
  qs = g.qs;
  gs' = g.gs';
  allocator = g.allocator;
  in_use = g.in_use;
  was_free = λ b lo hi o. g.was_free b lo hi (still b o).0;
  zeroed = g.zeroed;
  kept = λ b o. let (o', same) = still b o in g.kept b o' ∙ same;
  others = λ j ne.
      let (head, lock') = other j ne in
      let (head', lock'') = g.others j ne in (head' ∙ head, lock'' ∙ lock');
}

module _ (fuel i ncpu size : ℕ) (gs : List Region) (s : State) (a : Allocator i [] gs s)
    (c : IsClass size) (cpus : leb i ncpu ≡ true) (f' : length gs < fuel) where
  abbrev locked : State
  locked = with_lock (cpu i) 1 s

  taken-page : Returns (PageOrNull gs locked) (allockpage fuel locked)
  taken-page =
      allockpage-Room fuel locked gs
        (record { links = a.heap.links; separate = a.heap.separate; unlocked = a.heap.unlocked }) f'

  first_page-refused :
      (s1 : State)
      → allockpage fuel locked ≡ ok 0 s1
      → first_page fuel i size s ≡ stop Fault.assertion
  unfolding first_page lock
  first_page-refused s1 e = rw (a.unlocked, eq→== i i refl, e)

  kalloc_small-refused :
      (s1 : State)
      → allockpage fuel locked ≡ ok 0 s1
      → kalloc_small fuel i ncpu size s ≡ stop Fault.assertion
  unfolding kalloc_small
  kalloc_small-refused s1 e = rw (cpus, a.chain, first_page-refused s1 e)

  kalloc_small-begun :
      (t : State)
      → first_page fuel i size s ≡ ok tt t
      → t.page_head i ≢ 0
      → kalloc_small fuel i ncpu size s ≡ kalloc_small fuel i ncpu size t
  unfolding kalloc_small
  kalloc_small-begun t e head = rw (cpus, a.chain, e, ne→== (t.page_head i) 0 head)

  begun-Given :
      (page : ℕ) (s1 : State) (gs' : List Region)
      → allockpage fuel locked ≡ ok page s1
      → Room gs page gs'
      → PageTaken locked gs page gs' s1
      → 1 < fuel
      → Returns (Given i size [] gs s) (kalloc_small fuel i ncpu size s)
  begun-Given page s1 gs' e room t f =
      let s2 = begun i size page s1 c in
      let pages = slab page size (blocks_run page size ∷ []) ∷ [] in
      let a' = begun-Allocator i size page s1 c gs gs' s room t in
      let start = first_page-begun i size page s1 c fuel s a.unlocked room.ne_null e in
      let head : s2.page_head i ≢ 0 = omega (arith, a'.chain.0, room.ne_null) in
      rw (kalloc_small-begun s2 start head) (
        Returns.mono
          (kalloc_small-Served fuel i ncpu size pages gs' s2 a' c cpus head f
            (omega (arith, room.no_longer)))
          λ p s' r. elim r [
            | inl none_left ↦ absurd (ground (arith, none_left.none_fits.0))
            | inr g ↦
                Given-after i size [] pages gs gs' s s2 p s'
                  (begun-Owned i size page s1 c gs gs' s room t)
                  (begun_others i size page s1 c gs gs' s room t) g
          ])

  first-Given :
      (All TooSmall gs → ⊥)
      → 1 < fuel
      → Returns (Given i size [] gs s) (kalloc_small fuel i ncpu size s)
  first-Given holds_page f =
      let (page, (s1, e, o)) = Returns.result taken-page in
      elim o [
        | inl (_, small, _) ↦ absurd (holds_page small)
        | inr (gs', room, t) ↦ begun-Given page s1 gs' e room t f
      ]

  first-refused : All TooSmall gs → kalloc_small fuel i ncpu size s ≡ stop Fault.assertion
  first-refused small =
      let (page, (s1, e, o)) = Returns.result taken-page in
      elim o [
        | inl (null, _, _) ↦ kalloc_small-refused s1 (e ∙ ap (λ (k : ℕ). ok k s1) null)
        | inr (gs', room, t) ↦ absurd (room.some_large small)
      ]

blocks_of : (j k : ℕ) → 2 ^ k * (32 * 2 ^ j) ≡ 32 * 2 ^ (j + k)
blocks_of j zero = let e : j + 0 ≡ j = omega arith in rw e (omega arith)
blocks_of j (suc k) =
    let e : j + suc k ≡ suc (j + k) = omega arith in
    rw (e, pow-suc 2 k, pow-suc 2 (j + k)) (omega (arith, blocks_of j k))

-- The classes up to 16 KiB are sizes of blocks.
ClassOf-IsClass : {request size : ℕ} → ClassOf request size → size ≤ 16384 → IsClass size
ClassOf-IsClass {request} {size} k most =
    let j = k.times in
    let power : size ≡ 32 * 2 ^ j = k.power in
    let one = pow-le-pow_right {n = 2} (omega arith) {i = 0} {j = j} (omega arith) in
    let nine : j ≤ 9 = elim (dec_le j 9) [
      | yes le ↦ le
      | no gt ↦
          absurd
            (omega (arith, pow-le-pow_right {n = 2} (omega arith) {i = 10} {j = j} (omega arith)))
    ] in
    let all : j + (11 - j) ≡ 11 = omega arith in
    record {
      least = omega arith;
      most = most;
      unit = omega arith;
      blocks = 2 ^ (11 - j);
      whole =
          ap (λ (n : ℕ). 2 ^ (11 - j) * n) power
          ∙ blocks_of j (11 - j)
          ∙ ap (λ (n : ℕ). 32 * 2 ^ n) all;
    }

-- A block of the least class that holds the request has been given, or NULL as `Served` says.
abbrev pub Answered : ℕ → ℕ → List Page → List Region → State → ℕ → State → Type 0
Answered i request pages gs s p s' =
    (size : ℕ) × ClassOf request size × Served i size pages gs s p s'

small-cases :
    (fuel i ncpu request : ℕ) (s : State)
    → request ≤ 16384
    → (size : ℕ) × ClassOf request size
      × (size ≤ 16384)
      × (kalloc fuel i ncpu request s ≡ kalloc_small fuel i ncpu size s)
small-cases fuel i ncpu request s le = elim (kalloc-cases fuel i ncpu request s) [
  | inl (_, r) ↦ r
  | inr (inl (gt, _, _)) ↦ absurd (omega arith)
  | inr (inr (gt, _)) ↦ absurd (omega arith)
]

-- With a well-formed allocator, fuel for one more round than the CPU has pages and the free list has
-- nodes, and not both no page yet and no free region that holds one, `kalloc` of at most 16 KiB
-- returns. Either it gives a block of the least class that holds the request: every byte of it was
-- free and reads as zero, it is a block in use of one of the CPU's pages, the allocator is well formed,
-- and every byte that was in use and the lists and locks of the other CPUs are as before. Or it
-- returns NULL and changes nothing: then no page has a free block of the class or is empty, and no
-- free region holds a page.
pub kalloc-Answered :
    (fuel i ncpu request : ℕ) (pages : List Page) (gs : List Region) (s : State)
    → Allocator i pages gs s
    → request ≤ 16384
    → leb i ncpu ≡ true
    → ((pages ≡ []) → All TooSmall gs → ⊥)
    → 1 + length pages < fuel
    → length gs < fuel
    → Returns (Answered i request pages gs s) (kalloc fuel i ncpu request s)
kalloc-Answered fuel i ncpu request [] gs s a le cpus holds f f' =
    let (size, k, most, e) = small-cases fuel i ncpu request s le in
    let c = ClassOf-IsClass k most in
    rw e (
      Returns.mono (first-Given fuel i ncpu size gs s a c cpus f' (holds refl) (omega arith))
        λ p s' g. (size, k, inr g))
kalloc-Answered fuel i ncpu request (pg ∷ pages) gs s a le cpus holds f f' =
    let (size, k, most, e) = small-cases fuel i ncpu request s le in
    let c = ClassOf-IsClass k most in
    let head : s.page_head i ≢ 0 = omega (arith, a.chain.0, page-ne_null s.mem pg a.chain.1) in
    rw e (
      Returns.mono
        (kalloc_small-Served fuel i ncpu size (pg ∷ pages) gs s a c cpus head (omega arith) f')
        λ p s' r. (size, k, r))

-- If the CPU has no page yet and no region of the well-formed free list holds one, `kalloc` of at most
-- 16 KiB does not return NULL: its assertion that there is a first page fails.
pub kalloc-no_first_page :
    (fuel i ncpu request : ℕ) (gs : List Region) (s : State)
    → Allocator i [] gs s
    → request ≤ 16384
    → leb i ncpu ≡ true
    → All TooSmall gs
    → length gs < fuel
    → kalloc fuel i ncpu request s ≡ stop Fault.assertion
kalloc-no_first_page fuel i ncpu request gs s a le cpus small f =
    let (size, k, most, e) = small-cases fuel i ncpu request s le in
    let c = ClassOf-IsClass k most in e ∙ first-refused fuel i ncpu size gs s a c cpus f small
