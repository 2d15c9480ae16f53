-- ===== src/Pmm/PageAlloc/Refinement.antt =====
-- `allockpage` is first fit.
use njuoslab_l1_kmalloc_kfre.Base.{
  ℕ, ◌+◌, ◌≤◌, ◌<◌, ◌≡◌, inl, inr, refl, sym, Option, none, some, List, [], ◌∷◌, ◌++◌, arith, All,
  ◌==◌, Bool-cases, length, ◌∙◌, ne→==,
}
use mathlib.Core.Path.{subst}
use njuoslab_l1_kmalloc_kfre.Machine.{State, zero_range}
use njuoslab_l1_kmalloc_kfre.Machine.Memory.{Mem, clear, clear-outside}
use njuoslab_l1_kmalloc_kfre.Machine.Returns.{Returns, returns}
use njuoslab_l1_kmalloc_kfre.Pmm.Lock.{lock, unlock}
use njuoslab_l1_kmalloc_kfre.Pmm.FreeList.{
  Region, region, IsRegion, Apart, Outside, SameNodes, Links-same, Links-split, Separate-IsRegion,
}
use njuoslab_l1_kmalloc_kfre.Pmm.FreeList.Splice.{
  All-split, All-join, All-map, Separate-Parts, Parts,
}
use njuoslab_l1_kmalloc_kfre.Pmm.PageAlloc.{page_size, allockpage}
use njuoslab_l1_kmalloc_kfre.Pmm.PageAlloc.Search.{TooSmall, find_first-none, find_first-some}
use njuoslab_l1_kmalloc_kfre.Pmm.PageAlloc.FirstFit.{first_fit, first_fit-cases, remainder, rest_of}
use njuoslab_l1_kmalloc_kfre.Pmm.FreeHeap.{FreeHeap, SamePages, Unchanged}
use njuoslab_l1_kmalloc_kfre.Pmm.PageAlloc.Take.{
  Around, taken, take_page-taken, taken-Links, taken-Separate, taken-Outside, taken-SamePages,
}

abbrev pub page_at : ℕ → Region
page_at a = region a page_size

-- The page `a` has been taken from the free list `gs`, which leaves `gs'`.
pub record PageTaken (s : State) (gs : List Region) (a : ℕ) (gs' : List Region) (s' : State)
    : Type 0 where
  pub heap : FreeHeap gs' s'
  pub apart : All (Apart (page_at a)) gs'
  pub kept : (b : ℕ) → All (Outside b) gs → s'.mem b ≡ s.mem b
  pub pages : SamePages s s'

abbrev pub Outcome : State → List Region → Option (ℕ × List Region) → ℕ → State → Type 0
Outcome s gs none p s' = (p ≡ 0) × Unchanged s s'
Outcome s gs (some (a, gs')) p s' = (p ≡ a) × PageTaken s gs a gs' s'

clear-SameNodes :
    (m : Mem) (a : ℕ) (gs : List Region)
    → All (Apart (page_at a)) gs
    → All IsRegion gs
    → SameNodes m (clear m a 16) gs
clear-SameNodes m a [] h v = tt
clear-SameNodes m a (g ∷ gs) (h, hs) (v, vs) = (
  (clear-outside m a 16 g.addr (omega arith), clear-outside m a 16 (g.addr + 8) (omega arith)),
  clear-SameNodes m a gs hs vs,
)

page-apart :
    (xs : List Region) (g : Region) (ys : List Region)
    → Parts xs g ys
    → page_size ≤ g.size
    → All (Apart (page_at g.addr)) (xs ++ remainder g ys)
page-apart xs g ys p large =
    let front = All-map (Apart g) (Apart (page_at g.addr)) xs (λ x a. omega arith) p.before in
    let back = All-map (Apart g) (Apart (page_at g.addr)) ys (λ x a. omega arith) p.behind in
    elim (Bool-cases (g.size == page_size)) [
      | inl same ↦ rw same (All-join (Apart (page_at g.addr)) xs ys front back)
      | inr differ ↦
          rw differ
            (All-join (Apart (page_at g.addr)) xs (rest_of g ∷ ys) front (omega arith, back))
    ]

module _ (fuel : ℕ) (s : State) where
  abbrev locked : State
  locked = record s { heap_lock = 1 }

  allockpage-none :
      (gs : List Region)
      → FreeHeap gs s
      → All TooSmall gs
      → length gs < fuel
      → Returns (Outcome s gs none) (allockpage fuel s)
  unfolding allockpage lock unlock
  allockpage-none gs h t f =
      rw
        (
          h.unlocked,
          find_first-none locked fuel 0 s.head gs h.links (Separate-IsRegion gs h.separate) t f,
        )
        (returns (
          refl,
          record {
            mem = refl;
            head = refl;
            unlocked = refl;
            pages = record { heads = refl; locks = refl };
          },
        ))

  allockpage-some :
      (xs : List Region) (g : Region) (ys : List Region)
      → FreeHeap (xs ++ (g ∷ ys)) s
      → All TooSmall xs
      → page_size ≤ g.size
      → length xs < fuel
      → Returns
          (Outcome s (xs ++ (g ∷ ys)) (some (g.addr, xs ++ remainder g ys)))
          (allockpage fuel s)
  unfolding allockpage lock unlock zero_range
  allockpage-some xs g ys h t large f =
      let p = Separate-Parts xs g ys h.separate in
      let (to, (_, size, from)) = Links-split s.mem s.head 0 xs g ys h.links in
      let around : Around locked xs g ys = record {
        to_node = to;
        size = size;
        from_node = from;
        parts = p;
      } in
      let sep = taken-Separate locked xs g ys around large in
      let apart = page-apart xs g ys p large in
      let same = taken-SamePages locked xs g ys around in
      let s' = taken locked xs g in
      rw
        (
          h.unlocked,
          find_first-some locked fuel 0 s.head xs g ys h.links
              (Separate-IsRegion (xs ++ (g ∷ ys)) h.separate) t large f,
          ne→== g.addr 0 (omega (arith, p.here.ne_null)),
          take_page-taken locked xs g ys around large,
        )
        (returns (
          refl,
          record {
            heap = record {
              links =
                  Links-same s'.mem (clear s'.mem g.addr 16) s'.head 0 (xs ++ remainder g ys)
                    (clear-SameNodes s'.mem g.addr (xs ++ remainder g ys) apart
                      (Separate-IsRegion _ sep))
                    (taken-Links locked xs g ys around large);
              separate = sep;
              unlocked = refl;
            };
            apart = apart;
            kept = λ b o.
                let (ox, og, _) = All-split (Outside b) xs g ys o in
                clear-outside s'.mem g.addr 16 b (omega arith)
                ∙ taken-Outside locked xs g ys around large b ox og;
            pages = record { heads = same.heads; locks = same.locks };
          },
        ))

length-xs : (xs : List Region) (g : Region) (ys : List Region) → length xs ≤ length (xs ++ (g ∷ ys))
length-xs [] g ys = omega arith
length-xs (x ∷ xs) g ys = omega (arith, length-xs xs g ys)

-- With a well-formed free list in memory, the heap's lock free and fuel for one more round than the
-- list has nodes, `allockpage` returns, and it is first fit: if no region holds a page it returns
-- NULL and changes nothing; else it returns the address that first fit chooses, the memory then
-- holds the list that first fit leaves, which is well formed and apart from the page, nothing
-- outside the old free regions is written, the page lists stay, and the lock is free again.
pub allockpage-first_fit :
    (fuel : ℕ) (s : State) (gs : List Region)
    → FreeHeap gs s
    → length gs < fuel
    → Returns (Outcome s gs (first_fit gs)) (allockpage fuel s)
allockpage-first_fit fuel s gs h f = elim (first_fit-cases gs) [
  | inl (t, e) ↦
      subst (λ o. Returns (Outcome s gs o) (allockpage fuel s)) (sym e)
        (allockpage-none fuel s gs h t f)
  | inr fit ↦
      let e = fit.split in
      let whole = fit.xs ++ (fit.at ∷ fit.ys) in
      let h' : FreeHeap whole s = subst (λ l. FreeHeap l s) e h in
      let f' : length whole < fuel = subst (λ (l : List Region). length l < fuel) e f in
      let r =
        allockpage-some fuel s fit.xs fit.at fit.ys h' fit.skipped fit.large
          (omega (arith, length-xs fit.xs fit.at fit.ys)) in
      let chosen : Option (ℕ × List Region) =
        some (fit.at.addr, fit.xs ++ remainder fit.at fit.ys) in
      subst (λ o. Returns (Outcome s gs o) (allockpage fuel s)) (sym fit.chosen)
        (subst (λ l. Returns (Outcome s l chosen) (allockpage fuel s)) (sym e) r)
]
