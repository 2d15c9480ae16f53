-- ===== src/Pmm/Pages/Search.antt =====
-- The two searches of `kalloc` in the pages of a CPU: for a page with a free block of the size, and for
-- an empty page.
use njuoslab_l1_kmalloc_kfre.Base.{
  ℕ, zero, suc, ◌+◌, ◌≤◌, ◌<◌, ◌≡◌, ◌⊎◌, inl, inr, refl, List, [], ◌∷◌, ◌++◌, All, arith, ap,
  length, ◌==◌, ◌&&◌, ltb, Bool, true, false, Bool-cases, ne→==, lt→ltb, if◌then◌else◌,
}
use njuoslab_l1_kmalloc_kfre.Base.Words.{sext, sext-small, u32}
use njuoslab_l1_kmalloc_kfre.Machine.{State, ok}
use njuoslab_l1_kmalloc_kfre.Machine.Memory.{Mem, write}
use njuoslab_l1_kmalloc_kfre.Machine.Fields.{get_next-ok, get_size-ok, get_word-ok, set_size-ok}
use njuoslab_l1_kmalloc_kfre.Pmm.Kalloc.{find_page, reuse_page}
use njuoslab_l1_kmalloc_kfre.Pmm.Kfree.Push.{factor-pos}
use njuoslab_l1_kmalloc_kfre.Pmm.Pages.{Page, slab, empty, addr_of, IsPage, Chain, fits, vacant}

pub page-ne_null : (m : Mem) (pg : Page) → IsPage m pg → 0 < addr_of pg
page-ne_null m (slab ph size gs) h = h.ne_null
page-ne_null m (empty ph) h = h.ne_null

-- What the searches test.
fits-test :
    (m : Mem) (size : ℕ) (pg : Page)
    → 32 ≤ size
    → IsPage m pg
    → ((sext (m (addr_of pg + 8)) == size) && ltb 0 (m (addr_of pg + 12))) ≡ fits size pg
fits-test m size (slab ph n []) least h = rw h.start (ground arith)
fits-test m size (slab ph n (g ∷ gs)) least h =
    let small = sext-small n (omega (arith, h.most)) in
    let some_block : ltb 0 (m (ph + 12)) ≡ true =
      lt→ltb 0 (m (ph + 12))
        (factor-pos (m (ph + 12)) n (omega (arith, h.start.0, h.runs.0.behind_header, h.least))) in
    rw (h.size_field, small, some_block) (ground arith)
fits-test m size (empty ph) least h = rw h.size_field (ground arith)

vacant-test :
    (m : Mem) (pg : Page)
    → IsPage m pg
    → ((m (addr_of pg + 8) == 0) && ltb 0 (m (addr_of pg + 12))) ≡ vacant pg
vacant-test m (slab ph n gs) h = rw (h.size_field, ne→== n 0 (omega (arith, h.least))) refl
vacant-test m (empty ph) h = rw (h.size_field, h.index) refl

-- The first page that passes the test.
pub record First (test : Page → Bool) (pages : List Page) : Type 0 where
  pub ps : List Page
  pub at : Page
  pub qs : List Page
  pub split : pages ≡ ps ++ (at ∷ qs)
  pub passes : test at ≡ true
  pub before : All (λ pg. test pg ≡ false) ps

abbrev pub NoneOf : (Page → Bool) → List Page → Type 0
NoneOf test pages = All (λ pg. test pg ≡ false) pages

pub First-cases : (test : Page → Bool) (pages : List Page) → NoneOf test pages ⊎ First test pages
First-cases test [] = inl tt
First-cases test (pg ∷ pages) = elim (Bool-cases (test pg)) [
  | inl yes_here ↦
      inr (record { ps = []; at = pg; qs = pages; split = refl; passes = yes_here; before = tt })
  | inr not_here ↦
      (let r : NoneOf test (pg ∷ pages) ⊎ First test (pg ∷ pages) = elim (First-cases test pages) [
        | inl n ↦ inl (not_here, n)
        | inr f ↦ inr (record {
          ps = pg ∷ f.ps;
          at = f.at;
          qs = f.qs;
          split = ap (λ l. pg ∷ l) f.split;
          passes = f.passes;
          before = (not_here, f.before);
        })
      ] in
        r)
]

-- The address of the first page that passes, NULL if none does.
pub first_addr : (Page → Bool) → List Page → ℕ
first_addr test [] = 0
first_addr test (pg ∷ pages) = if test pg then addr_of pg else first_addr test pages

pub first_addr-none :
    (test : Page → Bool) (pages : List Page) → NoneOf test pages → first_addr test pages ≡ 0
unfolding first_addr
first_addr-none test [] n = refl
first_addr-none test (pg ∷ pages) (n, rest) = rw n (first_addr-none test pages rest)

pub first_addr-split :
    (test : Page → Bool) (ps : List Page) (pg : Page) (qs : List Page)
    → NoneOf test ps
    → test pg ≡ true
    → first_addr test (ps ++ (pg ∷ qs)) ≡ addr_of pg
unfolding first_addr
first_addr-split test [] pg qs n h = rw h refl
first_addr-split test (x ∷ ps) pg qs (n, ns) h = rw n (first_addr-split test ps pg qs ns h)

pub find_page-first :
    (s : State) (k size p : ℕ) (pages : List Page)
    → 32 ≤ size
    → Chain s.mem p pages
    → length pages < k
    → find_page k size p s ≡ ok (first_addr (fits size) pages) s
unfolding find_page first_addr
find_page-first s zero size p pages least c f = absurd (omega arith)
find_page-first s (suc k) size p [] least c f = rw c
find_page-first s (suc k) size p (pg ∷ pages) least (e, h, c) f =
    let pos = page-ne_null s.mem pg h in
    let test = fits-test s.mem size pg least h in
    elim (Bool-cases (fits size pg)) [
      | inl good ↦ rw e (
          rw (
            ne→== (addr_of pg) 0 (omega arith),
            get_size-ok (addr_of pg) s pos,
            get_word-ok (addr_of pg) s pos,
            test,
            good,
          ))
      | inr bad ↦ rw e (
          rw
            (
              ne→== (addr_of pg) 0 (omega arith),
              get_size-ok (addr_of pg) s pos,
              get_word-ok (addr_of pg) s pos,
              test,
              bad,
              get_next-ok (addr_of pg) s pos,
            )
            (find_page-first s k size (s.mem (addr_of pg)) pages least c (omega arith)))
    ]

pub reuse_page-none :
    (s : State) (k size p : ℕ) (pages : List Page)
    → NoneOf vacant pages
    → Chain s.mem p pages
    → length pages < k
    → reuse_page k size p s ≡ ok 0 s
unfolding reuse_page
reuse_page-none s zero size p pages n c f = absurd (omega arith)
reuse_page-none s (suc k) size p [] n c f = rw c
reuse_page-none s (suc k) size p (pg ∷ pages) (n, ns) (e, h, c) f =
    let pos = page-ne_null s.mem pg h in
    rw e (
      rw
        (
          ne→== (addr_of pg) 0 (omega arith),
          get_size-ok (addr_of pg) s pos,
          get_word-ok (addr_of pg) s pos,
          vacant-test s.mem pg h,
          n,
          get_next-ok (addr_of pg) s pos,
        )
        (reuse_page-none s k size (s.mem (addr_of pg)) pages ns c (omega arith)))

-- The first empty page is given to the size.
pub reuse_page-first :
    (s : State) (k size p : ℕ) (ps : List Page) (ph : ℕ) (qs : List Page)
    → size ≤ 16384
    → NoneOf vacant ps
    → Chain s.mem p (ps ++ (empty ph ∷ qs))
    → length ps < k
    → reuse_page k size p s ≡ ok ph (record s { mem = write s.mem (ph + 8) size })
unfolding reuse_page
reuse_page-first s zero size p ps ph qs most n c f = absurd (omega arith)
reuse_page-first s (suc k) size p [] ph qs most n (e, h, c) f =
    let word : u32 size ≡ size = omega arith in
    rw e (
      rw (
        ne→== ph 0 (omega (arith, h.ne_null)),
        get_size-ok ph s h.ne_null,
        get_word-ok ph s h.ne_null,
        h.size_field,
        h.index,
        set_size-ok ph s h.ne_null size,
        word,
      ))
reuse_page-first s (suc k) size p (pg ∷ ps) ph qs most (n, ns) (e, h, c) f =
    let pos = page-ne_null s.mem pg h in
    rw e (
      rw
        (
          ne→== (addr_of pg) 0 (omega arith),
          get_size-ok (addr_of pg) s pos,
          get_word-ok (addr_of pg) s pos,
          vacant-test s.mem pg h,
          n,
          get_next-ok (addr_of pg) s pos,
        )
        (reuse_page-first s k size (s.mem (addr_of pg)) ps ph qs most ns c (omega arith)))
