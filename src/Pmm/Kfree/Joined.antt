-- ===== src/Pmm/Kfree/Joined.antt =====
-- What `kfree` of a block between two free runs leaves, where the one behind it is not the first of the
-- list.
use njuoslab_l1_kmalloc_kfre.Base.{
  ℕ, suc, ◌+◌, ◌-◌, ◌≤◌, ◌<◌, ◌≡◌, ◌≢◌, inl, inr, refl, List, [], ◌∷◌, ◌++◌, arith, All, ◌∙◌, ap,
  sym, length, eq→==, ne→==,
}
use mathlib.Core.Path.{subst}
use native.Mathlib.Decide.{ℕ_discrete}
use njuoslab_l1_kmalloc_kfre.Base.Words.{u32}
use njuoslab_l1_kmalloc_kfre.Machine.{State, ok}
use njuoslab_l1_kmalloc_kfre.Machine.Memory.{write-same, write-other}
use njuoslab_l1_kmalloc_kfre.Machine.Fields.{get_next-ok, get_size-ok, set_size-ok, set_next-ok}
use njuoslab_l1_kmalloc_kfre.Machine.Returns.{Returns, returns}
use njuoslab_l1_kmalloc_kfre.Pmm.FreeList.{
  Region, Outside, Links-split, Separate-IsRegion, last_addr,
}
use njuoslab_l1_kmalloc_kfre.Pmm.FreeList.Splice.{
  All-split, All-join, All-map, Separate-Parts, last-from,
}
use njuoslab_l1_kmalloc_kfre.Pmm.PageAlloc.{page_size}
use njuoslab_l1_kmalloc_kfre.Pmm.Kfree.{free_block, find_pred, join_after}
use njuoslab_l1_kmalloc_kfre.Pmm.Kfree.Push.{InUse, first_free-at}
use njuoslab_l1_kmalloc_kfre.Pmm.Kfree.Merged.{OnGrid, runs-OnGrid}
use njuoslab_l1_kmalloc_kfre.Pmm.Kfree.MergeAfter.{apart-ne}
use njuoslab_l1_kmalloc_kfre.Pmm.Kfree.Coalesce.{after-end}
use njuoslab_l1_kmalloc_kfre.Pmm.Kfree.Neighbours.{after_of}
use njuoslab_l1_kmalloc_kfre.Pmm.Kfree.Behind.{mark_empty-eq, Outside-addrs}
use njuoslab_l1_kmalloc_kfre.Pmm.Kfree.Before.{widen, widened-kept, free_block-joining}
use njuoslab_l1_kmalloc_kfre.Pmm.Kfree.Widened.{Grown, full-index}
use njuoslab_l1_kmalloc_kfre.Pmm.Kfree.HeadLost.{joined_run}
use njuoslab_l1_kmalloc_kfre.Pmm.Kfree.Unlinked.{find_pred-some}
use njuoslab_l1_kmalloc_kfre.Pmm.Kfree.Between
use njuoslab_l1_kmalloc_kfre.Pmm.Kfree.Between.{Order}
use njuoslab_l1_kmalloc_kfre.Pmm.Slab.{IsRun, IsSlab}

-- The block and the two runs are one run, in the list that `o` says.
pub record Joined (s : State) (ph size : ℕ) (us : List Region) (b : Region) (vs : List Region)
    (a : Region) (o : Order size us b vs a) (s' : State) : Type 0 where
  pub page : Grown ph size o.front (joined_run size a b) o.back s'
  pub kept :
      (c : ℕ)
      → Outside c (joined_run size a b)
      → All (Outside c) (us ++ (b ∷ vs))
      → c ≢ ph + 8
      → s'.mem c ≡ s.mem c
  pub heap : (s'.head ≡ s.head) × (s'.heap_lock ≡ s.heap_lock)
  pub pages : (s'.page_head ≡ s.page_head) × (s'.page_lock ≡ s.page_lock)

module _ (s : State) (ph size : ℕ) (us : List Region) (b : Region) (vs : List Region) (a : Region)
    (ptr : ℕ) (u : InUse s.mem ph size (us ++ (b ∷ vs)) ptr) (ends : b.addr + b.size ≡ ptr)
    (next_to : a.addr ≡ ptr + size) (o : Order size us b vs a) where
  abbrev w : State
  w = Between.w s ph size us b vs a ptr u ends next_to o

  abbrev w2 : State
  w2 = Between.w2 s ph size us b vs a ptr u ends next_to o

  abbrev w3 : State
  w3 = Between.w3 s ph size us b vs a ptr u ends next_to o

  abbrev total : ℕ
  total = b.size + size + a.size

  abbrev pred : ℕ
  pred = last_addr o.x.addr o.xs

  slab : IsSlab w.mem ph size ((o.x ∷ o.xs) ++ (a ∷ o.ys))
  slab = Between.slab s ph size us b vs a ptr u ends next_to o

  grid : OnGrid ph pred × OnGrid ph a.addr × OnGrid ph b.addr
  grid = Between.grid s ph size us b vs a ptr u ends next_to o

  -- The node before `a` is found.
  found_pred :
      (fuel : ℕ) → length (us ++ (b ∷ vs)) < fuel → find_pred fuel a.addr o.x.addr w2 ≡ ok pred w2
  found_pred fuel enough =
      let (_, _, at_b) = grid in
      let p = Separate-Parts (o.x ∷ o.xs) a o.ys slab.separate in
      let vx = Separate-IsRegion (o.x ∷ o.xs) p.front in
      let (to, _) = Links-split w.mem o.x.addr 0 (o.x ∷ o.xs) a o.ys slab.start.1 in
      let (gx, _, _) = All-split (IsRun ph size) (o.x ∷ o.xs) a o.ys slab.runs in
      let same =
        All-map (λ g. OnGrid ph g.addr) (λ g. w2.mem g.addr ≡ w.mem g.addr) (o.x ∷ o.xs)
          (λ g at. write-other w.mem (b.addr + 8) total g.addr (omega arith))
          (runs-OnGrid ph size (o.x ∷ o.xs) slab.least slab.unit gx) in
      let far = apart-ne a (o.x ∷ o.xs) p.here vx p.before in
      find_pred-some w.mem w2 fuel a.addr o.x.addr o.x o.xs to vx same far.1 (
        omega (
          arith,
          length-front (o.x ∷ o.xs) a o.ys,
          ap (λ (l : List Region). length l) o.split,
          length-same us,
        ))
    where
      length-same :
          (zs : List Region) → length (zs ++ (widen size b ∷ vs)) ≡ length (zs ++ (b ∷ vs))
      length-same [] = refl
      length-same (z ∷ zs) = ap suc (length-same zs)

      length-front :
          (xs : List Region) (g : Region) (ys : List Region) → length xs ≤ length (xs ++ (g ∷ ys))
      length-front [] g ys = omega arith
      length-front (z ∷ zs) g ys = omega (arith, length-front zs g ys)

  join_after-run :
      (fuel : ℕ) → length (us ++ (b ∷ vs)) < fuel → join_after fuel ph b.addr a.addr w ≡ ok tt w3
  unfolding join_after
  join_after-run fuel enough =
      let (at_pred, at_a, at_b) = grid in
      let f = Between.run-Fits s ph size us b vs a ptr u ends next_to o in
      let (vx, _, _) = slab.separate in
      let (_, (_, more, _)) = Links-split w.mem o.x.addr 0 (o.x ∷ o.xs) a o.ys slab.start.1 in
      let have : w.mem (b.addr + 8) ≡ b.size + size = write-same _ (b.addr + 8) (b.size + size) in
      let word : u32 total ≡ total = omega (arith, f.block.small) in
      let field : w2.mem (ph + 8) ≡ size =
        write-other w.mem (b.addr + 8) total (ph + 8) (omega arith) ∙ slab.size_field in
      let index : w2.mem (ph + 12) ≡ w.mem (ph + 12) =
        write-other w.mem (b.addr + 8) total (ph + 12) (omega arith) in
      let first =
        first_free-at w2 ph size (w.mem (ph + 12)) o.x.addr slab.ne_null slab.reach field index
          slab.start.0 (omega (arith, slab.runs.0.in_page, vx.room)) in
      rw (
        get_size-ok b.addr w (omega arith),
        have,
        get_size-ok a.addr w (omega arith),
        more,
        set_size-ok b.addr w (omega arith) total,
        word,
        first,
        found_pred fuel enough,
        ne→== pred 0 (omega arith),
        get_next-ok a.addr w2 (omega arith),
        set_next-ok pred w2 (omega arith) (w2.mem a.addr),
      )

  joined_kept :
      (c : ℕ)
      → Outside c (joined_run size a b)
      → All (Outside c) (us ++ (b ∷ vs))
      → w3.mem c ≡ s.mem c
  joined_kept c out outs =
      let f = Between.run-Fits s ph size us b vs a ptr u ends next_to o in
      let (o1, _, o2) = All-split (Outside c) us b vs outs in
      let v = (Separate-Parts us b vs u.slab.separate).here in
      let all : All (Outside c) ((o.x ∷ o.xs) ++ (a ∷ o.ys)) =
        subst (All (Outside c)) o.split
          (All-join (Outside c) us (widen size b ∷ vs) o1 (omega arith, o2)) in
      let (ox, _, _) = All-split (Outside c) (o.x ∷ o.xs) a o.ys all in
      let p = Separate-Parts (o.x ∷ o.xs) a o.ys slab.separate in
      let (ne, nes) = Outside-addrs c (o.x ∷ o.xs) (Separate-IsRegion (o.x ∷ o.xs) p.front) ox in
      let far : c ≢ pred = last-from (λ t. c ≢ t) o.x.addr o.xs ne nes in
      write-other w2.mem pred (w2.mem a.addr) c far
      ∙ write-other w.mem (b.addr + 8) total c (omega (arith, v.room))
      ∙ widened-kept s ph size us b vs ptr u ends c (omega arith)

-- A block in use of a page, between a free run `b` that ends where it begins and a free run `a` that begins
-- where it ends and is not the first of the list, is freed: with fuel for one more round than the list has
-- nodes, `free_block` returns. The block and both runs are one run, in the place of `b`, and `a` is in the
-- list no more; or, if that run is all of the page's blocks, the page is marked as empty. Nothing is
-- written but that run, the nodes of the free runs and the page's size, and the heap, the page lists and
-- the locks stay.
pub free_block-Joined :
    (fuel : ℕ) (s : State) (ph size : ℕ) (us : List Region) (b : Region) (vs : List Region)
    (a : Region) (ptr : ℕ) (o : Order size us b vs a)
    → InUse s.mem ph size (us ++ (b ∷ vs)) ptr
    → b.addr + b.size ≡ ptr
    → a.addr ≡ ptr + size
    → length (us ++ (b ∷ vs)) < fuel
    → Returns (λ _. Joined s ph size us b vs a o) (free_block fuel ph ptr s)
free_block-Joined fuel s ph size us b vs a ptr o u ends next_to enough =
    let t = Between.w3 s ph size us b vs a ptr u ends next_to o in
    let page = Between.joined-IsSlab s ph size us b vs a ptr u ends next_to o in
    let f = Between.run-Fits s ph size us b vs a ptr u ends next_to o in
    let n = b.size + size + a.size in
    let u' = subst (λ l. InUse s.mem ph size l ptr) o.old u in
    let after : after_of ptr 0 (us ++ (b ∷ vs)) ≡ a.addr =
      ap (after_of ptr 0) o.old
      ∙ after-end s ph size o.old_front a o.old_back ptr u' next_to
      ∙ sym next_to in
    let marked =
      mark_empty-eq t ph b.addr n size u.slab.ne_null f.block.ne_null
        (Between.w3-field s ph size us b vs a ptr u ends next_to o) page.size_field
        (omega (arith, u.slab.most)) in
    let index = full-index t.mem ph size o.front (joined_run size a b) o.back page in
    rw
      (
        free_block-joining s ph size us b vs ptr u ends fuel enough,
        after,
        eq→== (ptr + size) a.addr (sym next_to),
        join_after-run s ph size us b vs a ptr u ends next_to o fuel enough,
        marked,
      )
      (elim (ℕ_discrete n (page_size - size)) [
        | yes full ↦ rw (eq→== n (page_size - size) full) (
            returns (record {
              page = inr (
                full,
                write-same t.mem (ph + 8) 0,
                write-other t.mem (ph + 8) 0 (ph + 12) (omega arith) ∙ index full,
              );
              kept = λ c out outs ne.
                  write-other t.mem (ph + 8) 0 c ne
                  ∙ joined_kept s ph size us b vs a ptr u ends next_to o c out outs;
              heap = (refl, refl);
              pages = (refl, refl);
            }))
        | no some_used ↦ rw (ne→== n (page_size - size) some_used) (
            returns (record {
              page = inl (some_used, page);
              kept =
                  λ c out outs ne. joined_kept s ph size us b vs a ptr u ends next_to o c out outs;
              heap = (refl, refl);
              pages = (refl, refl);
            }))
      ])
