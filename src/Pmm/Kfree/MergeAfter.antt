-- ===== src/Pmm/Kfree/MergeAfter.antt =====
-- `kfree` of a block with a free run behind it: the steps of `merge_after`.
use njuoslab_l1_kmalloc_kfre.Base.{
  ℕ, zero, suc, ◌+◌, ◌/◌, ◌≤◌, ◌<◌, ◌≡◌, ◌≢◌, refl, List, [], ◌∷◌, ◌++◌, arith, All, length, sym,
  ◌∙◌, ltb, lt→ltb, ne→==, eq→==, true,
}
use njuoslab_l1_kmalloc_kfre.Base.Words.{u32, sub64, sext, sext-small}
use njuoslab_l1_kmalloc_kfre.Machine.{State, ok}
use njuoslab_l1_kmalloc_kfre.Machine.Memory.{write, write-same, write-other}
use njuoslab_l1_kmalloc_kfre.Machine.Fields.{
  get_next-ok, get_size-ok, get_word-ok, set_next-ok, set_size-ok, set_word-ok,
}
use njuoslab_l1_kmalloc_kfre.Pmm.FreeList.{
  Region, region, IsRegion, Apart, Links, last_addr, Separate-IsRegion, Links-split,
}
use njuoslab_l1_kmalloc_kfre.Pmm.Kalloc.{page_magic}
use njuoslab_l1_kmalloc_kfre.Pmm.Kfree.{merge_after, mark_empty, set_first_free, find_pred}
use njuoslab_l1_kmalloc_kfre.Pmm.Kfree.Push.{InUse, first_free-at, factor-pos, kept-Links}
use njuoslab_l1_kmalloc_kfre.Pmm.Kfree.Cleared.{Begins, slab-Begins}
use njuoslab_l1_kmalloc_kfre.Pmm.Kfree.Merged.{merge_of, parts, merged-IsRegion, pred-OnGrid}
use njuoslab_l1_kmalloc_kfre.Pmm.Slab.Index.{number_of}
use njuoslab_l1_kmalloc_kfre.Pmm.Slab.After.{Touches}

pub find_pred-last :
    (s : State) (k target h : ℕ) (x : Region) (xs : List Region)
    → Links s.mem h (x ∷ xs) target
    → All IsRegion (x ∷ xs)
    → All (λ g. g.addr ≢ target) xs
    → length (x ∷ xs) ≤ k
    → find_pred k target h s ≡ ok (last_addr x.addr xs) s
unfolding find_pred
find_pred-last s zero target h x xs c v ne f = absurd (omega arith)
find_pred-last s (suc k) target h x [] (e, n, c) (v, vs) ne f = rw e (
    rw (
      ne→== x.addr 0 (omega (arith, v.ne_null)),
      get_next-ok x.addr s v.ne_null,
      eq→== (s.mem x.addr) target c,
    ))
find_pred-last s (suc k) target h x (y ∷ ys) (e, n, (e', n', c')) (v, vs) (ne, nes) f = rw e (
    rw
      (
        ne→== x.addr 0 (omega (arith, v.ne_null)),
        get_next-ok x.addr s v.ne_null,
        ne→== (s.mem x.addr) target (λ q. ne (sym e' ∙ q)),
      )
      (find_pred-last s k target (s.mem x.addr) y ys (e', n', c') vs nes (omega arith)))

pub apart-ne :
    (a : Region) (gs : List Region)
    → IsRegion a
    → All IsRegion gs
    → All (Apart a) gs
    → All (λ g. g.addr ≢ a.addr) gs
apart-ne a [] v vs h = tt
apart-ne a (g ∷ gs) v (w, ws) (h, hs) = (omega (arith, v.room, w.room), apart-ne a gs v ws hs)

length-front :
    (xs : List Region) (a : Region) (ys : List Region) → suc (length xs) ≤ length (xs ++ (a ∷ ys))
length-front [] a ys = omega arith
length-front (x ∷ xs) a ys = omega (arith, length-front xs a ys)

module _ (s : State) (ph size : ℕ) (xs : List Region) (a : Region) (ys : List Region) (ptr : ℕ)
    (u : InUse s.mem ph size (xs ++ (a ∷ ys)) ptr) (next_to : a.addr ≡ ptr + size) where
  pub begins : Begins s.mem ph size (xs ++ (a ∷ ys))
  begins = slab-Begins s.mem ph size xs a ys u.slab

  abbrev pub n : ℕ
  n = size + a.size

  -- The block as a node for itself and the run behind it.
  abbrev pub joined : State
  joined = record s {
    mem =
        write (write (write (write s.mem (ptr + 12) page_magic) (ptr + 8) n) ptr begins.first)
          (ph + 12) u.run.first;
  }

  header_below : ph + 32 ≤ ptr
  header_below = omega (arith, u.run.behind_header, u.slab.least)

  pub joined-Touches : Touches s.mem joined.mem ph (region ptr size)
  joined-Touches b o ne =
      write-other _ (ph + 12) u.run.first b ne
      ∙ write-other _ ptr begins.first b (omega (arith, u.block.room))
      ∙ write-other _ (ptr + 8) n b (omega (arith, u.block.room))
      ∙ write-other s.mem (ptr + 12) page_magic b (omega (arith, u.block.room))

  pub joined_fields :
      (joined.mem ptr ≡ begins.first)
      × (joined.mem (ptr + 8) ≡ n)
      × (joined.mem (ptr + 12) ≡ page_magic)
      × (joined.mem (ph + 12) ≡ u.run.first)
      × (joined.mem (ph + 8) ≡ size)
  joined_fields =
      let low = header_below in
      let w1 =
        write-other (write (write (write s.mem (ptr + 12) page_magic) (ptr + 8) n) ptr begins.first)
          (ph + 12) u.run.first in
      let w2 =
        write-other (write (write s.mem (ptr + 12) page_magic) (ptr + 8) n) ptr begins.first in
      let w3 = write-other (write s.mem (ptr + 12) page_magic) (ptr + 8) n in
      (
        w1 ptr (omega arith) ∙ write-same _ ptr begins.first,
        w1 (ptr + 8) (omega arith) ∙ w2 (ptr + 8) (omega arith) ∙ write-same _ (ptr + 8) n,
        w1 (ptr + 12) (omega arith)
            ∙ w2 (ptr + 12) (omega arith)
            ∙ w3 (ptr + 12) (omega arith)
            ∙ write-same s.mem (ptr + 12) page_magic,
        write-same _ (ph + 12) u.run.first,
        joined-Touches (ph + 8) (omega arith) (omega arith) ∙ u.slab.size_field,
      )

  -- `a` has left the list.
  abbrev pub unlinked : State
  unlinked = record joined { mem = write joined.mem (last_addr ptr xs) (joined.mem a.addr) }

  pub joined-Links : Links joined.mem begins.first (xs ++ (a ∷ ys)) 0
  joined-Links =
      kept-Links s.mem joined.mem ph size (xs ++ (a ∷ ys)) ptr u joined-Touches begins.first
        begins.links

  find_pred-joined :
      (fuel : ℕ)
      → length (xs ++ (a ∷ ys)) < fuel
      → find_pred fuel a.addr ptr joined ≡ ok (last_addr ptr xs) joined
  find_pred-joined fuel enough =
      let p = parts s.mem ph size xs a ys ptr u next_to in
      let (next, field, _, _, _) = joined_fields in
      let (front, _) = Links-split joined.mem begins.first 0 xs a ys joined-Links in
      let links : Links joined.mem ptr (merge_of ptr size a ∷ xs) a.addr =
        (refl, field, rw next front) in
      let regions = Separate-IsRegion xs p.front in
      find_pred-last joined fuel a.addr ptr (merge_of ptr size a) xs links
        (merged-IsRegion s.mem ph size xs a ys ptr u next_to, regions)
        (apart-ne a xs p.here regions p.before) (omega (arith, length-front xs a ys))

  -- `merge_after` up to the test whether the page is empty.
  pub merge_after-unlinked :
      (fuel : ℕ)
      → length (xs ++ (a ∷ ys)) < fuel
      → merge_after fuel ph ptr a.addr s ≡ mark_empty ph ptr unlinked
  unfolding merge_after set_first_free
  merge_after-unlinked fuel enough =
      let slab = u.slab in
      let r = u.run in
      let low = header_below in
      let ne : 0 < ptr = u.block.ne_null in
      let p = parts s.mem ph size xs a ys ptr u next_to in
      let v = p.here in
      let m = merged-IsRegion s.mem ph size xs a ys ptr u next_to in
      let k = s.mem (ph + 12) in
      let s1 : State = record s { mem = write s.mem (ptr + 12) page_magic } in
      let s2 : State = record s { mem = write s1.mem (ptr + 8) n } in
      let s3 : State = record s { mem = write s2.mem ptr begins.first } in
      let size1 : s1.mem (ph + 8) ≡ size =
        write-other s.mem (ptr + 12) page_magic (ph + 8) (omega arith) ∙ slab.size_field in
      let size2 : s2.mem (ph + 8) ≡ size =
        write-other s1.mem (ptr + 8) n (ph + 8) (omega arith) ∙ size1 in
      let size3 : s3.mem (ph + 8) ≡ size =
        write-other s2.mem ptr begins.first (ph + 8) (omega arith) ∙ size2 in
      let index2 : s2.mem (ph + 12) ≡ k =
        write-other s1.mem (ptr + 8) n (ph + 12) (omega arith)
        ∙ write-other s.mem (ptr + 12) page_magic (ph + 12) (omega arith) in
      let (_, (_, a_size, _)) = Links-split s.mem begins.first 0 xs a ys begins.links in
      let more1 : s1.mem (a.addr + 8) ≡ a.size =
        write-other s.mem (ptr + 12) page_magic (a.addr + 8) (omega (arith, slab.least)) ∙ a_size in
      let head =
        first_free-at s2 ph size k begins.first slab.ne_null slab.reach size2 index2 begins.at
          begins.within in
      let word : u32 n ≡ n = omega (arith, m.small) in
      let same_size : sext size ≡ size = sext-small size (omega (arith, slab.most)) in
      let number =
        number_of ph size r.first slab.least ptr r.at (omega (arith, r.in_page, u.block.room))
          slab.reach in
      let some_block : ltb 0 r.first ≡ true =
        lt→ltb 0 r.first
          (factor-pos r.first size (omega (arith, r.at, r.behind_header, slab.least))) in
      let (_, _, _, index4, size4) = joined_fields in
      let head4 =
        first_free-at joined ph size r.first ptr slab.ne_null slab.reach size4 index4 (sym r.at)
          (omega (arith, r.in_page, u.block.room)) in
      let last_pos : 0 < last_addr ptr xs =
        omega (arith, pred-OnGrid s.mem ph size xs a ys ptr u next_to) in
      rw (
        set_word-ok ptr s ne page_magic,
        get_size-ok ph s1 slab.ne_null,
        size1,
        get_size-ok a.addr s1 v.ne_null,
        more1,
        set_size-ok ptr s1 ne n,
        word,
        head,
        set_next-ok ptr s2 ne begins.first,
        get_size-ok ph s3 slab.ne_null,
        size3,
        same_size,
        set_word-ok ph s3 slab.ne_null (sub64 ptr ph / size),
        number,
        get_word-ok ph joined slab.ne_null,
        index4,
        some_block,
        head4,
        find_pred-joined fuel enough,
        get_next-ok a.addr joined v.ne_null,
        set_next-ok (last_addr ptr xs) joined last_pos (joined.mem a.addr),
      )
