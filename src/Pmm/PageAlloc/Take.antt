-- ===== src/Pmm/PageAlloc/Take.antt =====
-- `allockpage` once its node is found: the node goes, or moves behind the page.
use njuoslab_l1_kmalloc_kfre.Base.{
  ℕ, ◌+◌, ◌-◌, ◌≤◌, ◌<◌, ◌≡◌, inl, inr, refl, List, ◌∷◌, ◌++◌, arith, All, ◌==◌, if◌then◌else◌,
  Bool-cases, true, ◌∙◌,
}
use njuoslab_l1_kmalloc_kfre.Base.Words.{int_ge, u32, sub32}
use njuoslab_l1_kmalloc_kfre.Machine.{State, ok}
use njuoslab_l1_kmalloc_kfre.Machine.Memory.{write, write-other, write-same}
use njuoslab_l1_kmalloc_kfre.Machine.Fields.{get_next-ok, get_size-ok, set_next-ok, set_size-ok}
use njuoslab_l1_kmalloc_kfre.Pmm.FreeList.{
  Region, IsRegion, OffNode, Outside, Separate, Links, last_addr, Links-write, Separate-IsRegion,
  Apart-OffNode,
}
use njuoslab_l1_kmalloc_kfre.Pmm.FreeList.Splice.{
  Parts, Parts-Separate, Separate-remove, Parts-shrink, Parts-across,
}
use njuoslab_l1_kmalloc_kfre.Pmm.FreeHeap.{SamePages}
use njuoslab_l1_kmalloc_kfre.Pmm.PageAlloc.{page_size, take_page}
use njuoslab_l1_kmalloc_kfre.Pmm.PageAlloc.FirstFit.{rest_of, remainder}
use njuoslab_l1_kmalloc_kfre.Pmm.PageAlloc.Relink.{
  relinked, relink-relinked, relinked-Links, relinked-Outside, relinked-SamePages,
}

-- A free list in the memory, with the parts around the region `g`.
pub record Around (s : State) (xs : List Region) (g : Region) (ys : List Region) : Type 0 where
  pub to_node : Links s.mem s.head xs g.addr
  pub size : s.mem (g.addr + 8) ≡ g.size
  pub from_node : Links s.mem (s.mem g.addr) ys 0
  pub parts : Parts xs g ys

-- The node behind the page has been written.
abbrev pub cut : State → Region → State
cut s g = record s {
  mem =
      write (write s.mem (g.addr + page_size) (s.mem g.addr)) (g.addr + page_size + 8)
        (g.size - page_size);
}

abbrev pub taken : State → List Region → Region → State
taken s xs g =
    if g.size == page_size
    then relinked xs (s.mem g.addr) s
    else relinked xs (g.addr + page_size) (cut s g)

int_ge-above : (n : ℕ) → page_size < n → n < 2147483648 → int_ge n (page_size + 1) ≡ true
int_ge-above n h lt = ground arith

cut_word : (n : ℕ) → page_size < n → n < 2147483648 → u32 (sub32 n page_size) ≡ n - page_size
cut_word n h lt = omega arith

module _ (s : State) (xs : List Region) (g : Region) (ys : List Region) (a : Around s xs g ys) where
  off_before : (b : ℕ) → g.addr ≤ b → b < g.addr + g.size → All (OffNode b) xs
  off_before b lo hi =
      Apart-OffNode g b xs lo hi (Separate-IsRegion xs a.parts.front) a.parts.before

  off_behind : (b : ℕ) → g.addr ≤ b → b < g.addr + g.size → All (OffNode b) ys
  off_behind b lo hi = Apart-OffNode g b ys lo hi (Separate-IsRegion ys a.parts.back) a.parts.behind

  module _ (more : page_size < g.size) where
    cut-front : Links (cut s g).mem s.head xs g.addr
    cut-front =
        Links-write _ s.head g.addr (g.addr + page_size + 8) (g.size - page_size) xs
          (off_before _ (omega arith) (omega (arith, a.parts.here.unit)))
          (Links-write s.mem s.head g.addr (g.addr + page_size) (s.mem g.addr) xs
            (off_before _ (omega arith) (omega arith)) a.to_node)

    cut-back : Links (cut s g).mem (s.mem g.addr) ys 0
    cut-back =
        Links-write _ (s.mem g.addr) 0 (g.addr + page_size + 8) (g.size - page_size) ys
          (off_behind _ (omega arith) (omega (arith, a.parts.here.unit)))
          (Links-write s.mem (s.mem g.addr) 0 (g.addr + page_size) (s.mem g.addr) ys
            (off_behind _ (omega arith) (omega arith)) a.from_node)

    cut-rest : Links (cut s g).mem (g.addr + page_size) (rest_of g ∷ ys) 0
    cut-rest =
        let next : (cut s g).mem (g.addr + page_size) ≡ s.mem g.addr =
          write-other _ (g.addr + page_size + 8) _ (g.addr + page_size) (omega arith)
          ∙ write-same s.mem (g.addr + page_size) (s.mem g.addr) in
        (refl, write-same _ (g.addr + page_size + 8) (g.size - page_size), rw next cut-back)

    rest-IsRegion : IsRegion (rest_of g)
    rest-IsRegion = omega (arith, a.parts.here)

  pub take_page-taken :
      page_size ≤ g.size → take_page (last_addr 0 xs) g.addr s ≡ ok tt (taken s xs g)
  unfolding take_page
  take_page-taken large =
      let v = a.parts.here in
      elim (Bool-cases (g.size == page_size)) [
        | inl same ↦
            rw (get_size-ok g.addr s v.ne_null, a.size, same, get_next-ok g.addr s v.ne_null)
              (relink-relinked s xs g.addr (s.mem g.addr) a.to_node
                (Separate-IsRegion xs a.parts.front))
        | inr differ ↦
            let more : page_size < g.size = ground arith in
            let q = s.mem g.addr in
            let rest = g.addr + page_size in
            let s' : State = record s { mem = write s.mem rest q } in
            let pos : 0 < rest = omega arith in
            rw
              (
                get_size-ok g.addr s v.ne_null,
                a.size,
                differ,
                int_ge-above g.size more v.small,
                get_next-ok g.addr s v.ne_null,
                set_next-ok rest s pos q,
                set_size-ok rest s' pos (sub32 g.size page_size),
                cut_word g.size more v.small,
              )
              (relink-relinked (cut s g) xs g.addr rest (cut-front more)
                (Separate-IsRegion xs a.parts.front))
      ]

  -- The list that is left.
  pub taken-Links :
      page_size ≤ g.size → Links (taken s xs g).mem (taken s xs g).head (xs ++ remainder g ys) 0
  taken-Links large = elim (Bool-cases (g.size == page_size)) [
    | inl same ↦ rw same (
        relinked-Links s xs ys g.addr (s.mem g.addr) a.parts.front a.to_node a.from_node
          (Separate-IsRegion ys a.parts.back) a.parts.across)
    | inr differ ↦
        let more : page_size < g.size = ground arith in
        let p =
          Parts-shrink xs g (rest_of g) ys a.parts (rest-IsRegion more) (omega arith)
            (omega arith) in
        rw differ (
          relinked-Links (cut s g) xs (rest_of g ∷ ys) g.addr (g.addr + page_size) a.parts.front
            (cut-front more) (cut-rest more) (rest-IsRegion more, Separate-IsRegion ys a.parts.back)
            (Parts-across xs (rest_of g) ys p))
  ]

  pub taken-Separate : page_size ≤ g.size → Separate (xs ++ remainder g ys)
  taken-Separate large = elim (Bool-cases (g.size == page_size)) [
    | inl same ↦ rw same (Separate-remove xs g ys a.parts)
    | inr differ ↦
        let more : page_size < g.size = ground arith in
        rw differ (
          Parts-Separate xs (rest_of g) ys (
            Parts-shrink xs g (rest_of g) ys a.parts (rest-IsRegion more) (omega arith)
              (omega arith)))
  ]

  pub taken-Outside :
      page_size ≤ g.size
      → (b : ℕ) → All (Outside b) xs
      → Outside b g
      → (taken s xs g).mem b ≡ s.mem b
  taken-Outside large b o og =
      let v = Separate-IsRegion xs a.parts.front in
      elim (Bool-cases (g.size == page_size)) [
        | inl same ↦ rw same (relinked-Outside s xs (s.mem g.addr) b v o)
        | inr differ ↦
            let more : page_size < g.size = ground arith in
            let rest = g.addr + page_size in
            let unit = a.parts.here.unit in
            rw differ (
              relinked-Outside (cut s g) xs rest b v o
              ∙ write-other (write s.mem rest (s.mem g.addr)) (rest + 8) (g.size - page_size) b
                  (omega arith)
              ∙ write-other s.mem rest (s.mem g.addr) b (omega arith))
      ]

  pub taken-SamePages : SamePages s (taken s xs g)
  taken-SamePages = elim (Bool-cases (g.size == page_size)) [
    | inl same ↦ rw same (relinked-SamePages s xs (s.mem g.addr))
    | inr differ ↦
        let p = relinked-SamePages (cut s g) xs (g.addr + page_size) in
        rw differ (record { heads = p.heads; locks = p.locks })
  ]
