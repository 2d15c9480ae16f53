-- ===== src/Pmm/Kfree/Before.antt =====
-- `kfree` of a block gives it to the free run that ends where it begins.
use njuoslab_l1_kmalloc_kfre.Base.{
  ℕ, ◌+◌, ◌<◌, ◌≡◌, ◌≢◌, refl, List, ◌∷◌, ◌++◌, arith, All, ◌∙◌, ap, sym, length, ◌==◌, eq→==,
  ne→==, if◌then◌else◌, true,
}
use njuoslab_l1_kmalloc_kfre.Base.Words.{u32, add64, sext, sext-small}
use njuoslab_l1_kmalloc_kfre.Machine.{State, Cmd, zero_range, ◌>>◌, pure}
use njuoslab_l1_kmalloc_kfre.Machine.Memory.{write, write-same, write-other, clear-outside}
use njuoslab_l1_kmalloc_kfre.Machine.Fields.{get_size-ok, set_size-ok}
use njuoslab_l1_kmalloc_kfre.Pmm.FreeList.{
  Region, region, IsRegion, Apart, Outside, Links-split, Separate-IsRegion,
}
use njuoslab_l1_kmalloc_kfre.Pmm.FreeList.Splice.{All-split, Parts, Separate-Parts}
use njuoslab_l1_kmalloc_kfre.Pmm.Kfree.{free_block, merge_before, join_after, mark_empty}
use njuoslab_l1_kmalloc_kfre.Pmm.Kfree.Push.{InUse, first_free-at, cleared-Touches, kept-Links}
use njuoslab_l1_kmalloc_kfre.Pmm.Kfree.Merged.{apart-merge}
use njuoslab_l1_kmalloc_kfre.Pmm.Kfree.Neighbours.{after_of, before_of, neighbours-of}
use njuoslab_l1_kmalloc_kfre.Pmm.Kfree.Cleared.{cleared, cleared-InUse, cleared-index, slab-Begins}
use njuoslab_l1_kmalloc_kfre.Pmm.Kfree.HugeInUse.{before_of-end}
use njuoslab_l1_kmalloc_kfre.Pmm.Kfree.Replaced.{Fits, Rewritten, replaced-IsSlab}
use njuoslab_l1_kmalloc_kfre.Pmm.Slab.{IsRun, IsSlab, HasMagic}

-- The free run with the block behind it.
abbrev pub widen : (size : ℕ) → Region → Region
widen size b = region b.addr (b.size + size)

module _ (s : State) (ph size : ℕ) (xs : List Region) (b : Region) (ys : List Region) (ptr : ℕ)
    (u : InUse s.mem ph size (xs ++ (b ∷ ys)) ptr) (ends : b.addr + b.size ≡ ptr) where
  abbrev whole : List Region
  whole = xs ++ (b ∷ ys)

  parts : Parts xs b ys
  parts = Separate-Parts xs b ys u.slab.separate

  pub part-IsRun : IsRun ph size b
  part-IsRun = (All-split (IsRun ph size) xs b ys u.slab.runs).1

  pub widen-before : All (Apart (widen size b)) xs
  widen-before =
      let p = parts in
      let (ax, _, _) = All-split (Apart (region ptr size)) xs b ys u.apart in
      apart-merge b.addr b.size (region ptr size) xs (sym ends) (Separate-IsRegion xs p.front)
        p.before ax

  pub widen-Fits : Fits ph size b ys (widen size b)
  widen-Fits =
      let p = parts in
      let r = part-IsRun in
      let in_page = u.run.in_page in
      let (_, _, ay) = All-split (Apart (region ptr size)) xs b ys u.apart in
      let block : IsRegion (widen size b) =
        omega (arith, p.here, u.block, u.slab.reach, r.behind_header) in
      record {
        address = refl;
        block = block;
        run = record {
          first = r.first;
          at = r.at;
          count = r.count + 1;
          long = omega (arith, r.long);
          behind_header = r.behind_header;
          in_page = omega arith;
        };
        behind =
            apart-merge b.addr b.size (region ptr size) ys (sym ends) (Separate-IsRegion ys p.back)
              p.behind ay;
      }

  -- The block has been zeroed, and the run's size is that of both.
  abbrev pub widened : State
  widened = record s {
    mem = write (cleared s ph size whole ptr u).mem (b.addr + 8) (b.size + size);
  }

  pub widened-kept : (a : ℕ) → Outside a (widen size b) → widened.mem a ≡ s.mem a
  widened-kept a o =
      let v = parts.here in
      write-other (cleared s ph size whole ptr u).mem (b.addr + 8) (b.size + size) a
        (omega (arith, v.room))
      ∙ clear-outside s.mem ptr size a (omega arith)

  -- The run's node but for its size is not touched.
  widened-node : (k : ℕ) → k < 16 → k ≢ 8 → widened.mem (b.addr + k) ≡ s.mem (b.addr + k)
  widened-node k lt ne =
      let v = parts.here in
      write-other (cleared s ph size whole ptr u).mem (b.addr + 8) (b.size + size) (b.addr + k)
        (omega arith)
      ∙ clear-outside s.mem ptr size (b.addr + k) (omega (arith, v.room))

  widened-Rewritten : Rewritten s.mem widened.mem ph size (widen size b)
  widened-Rewritten =
      let r = part-IsRun in
      let least = u.slab.least in
      let (_, magic, _) = All-split (HasMagic s.mem) xs b ys u.slab.magics in
      let zero_at : b.addr + 0 ≡ b.addr = omega arith in
      record {
        same = λ a o far. widened-kept a o;
        size_field = widened-kept (ph + 8) (omega (arith, r.behind_header)) ∙ u.slab.size_field;
        next =
            ap widened.mem (sym zero_at)
            ∙ widened-node 0 (omega arith) (omega arith)
            ∙ ap s.mem zero_at;
        field = write-same (cleared s ph size whole ptr u).mem (b.addr + 8) (b.size + size);
        magic = widened-node 12 (omega arith) (omega arith) ∙ magic;
      }

  pub widened-IsSlab : IsSlab widened.mem ph size (xs ++ (widen size b ∷ ys))
  widened-IsSlab =
      let r = part-IsRun in
      let least = u.slab.least in
      replaced-IsSlab s.mem widened.mem ph size xs b ys (widen size b) u.slab widen-Fits
        widened-Rewritten widen-before (widened-kept (ph + 12) (omega (arith, r.behind_header)))

  -- What follows on the run's growth.
  abbrev pub joining : (fuel : ℕ) → Cmd (Unit {0})
  joining fuel =
      (if (ptr + size) == after_of ptr 0 whole
        then join_after fuel ph b.addr (after_of ptr 0 whole)
        else pure tt)
      >> mark_empty ph b.addr

  pub cleared_fields :
      ((cleared s ph size whole ptr u).mem (b.addr + 8) ≡ b.size)
      × ((cleared s ph size whole ptr u).mem (ph + 8) ≡ size)
      × (widened.mem (ph + 8) ≡ size)
  cleared_fields =
      let v = parts.here in
      let c = cleared-InUse s ph size whole ptr u in
      let begins = slab-Begins s.mem ph size xs b ys u.slab in
      let (_, (_, field, _)) = Links-split s.mem begins.first 0 xs b ys begins.links in
      (
        clear-outside s.mem ptr size (b.addr + 8) (omega (arith, v.room)) ∙ field,
        c.slab.size_field,
        widened-Rewritten.size_field,
      )

  merge_before-joining :
      (fuel : ℕ)
      → merge_before fuel ph ptr b.addr (after_of ptr 0 whole) (cleared s ph size whole ptr u)
        ≡ joining fuel widened
  unfolding merge_before
  merge_before-joining fuel =
      let t = cleared s ph size whole ptr u in
      let v = parts.here in
      let f = widen-Fits in
      let (have, size_field, size_field') = cleared_fields in
      let word : u32 (b.size + size) ≡ b.size + size = omega (arith, f.block.small) in
      let end : add64 ptr (sext size) ≡ ptr + size =
        ap (λ (k : ℕ). add64 ptr k) (sext-small size (omega (arith, u.slab.most)))
        ∙ omega (arith, u.block.reach) in
      rw (
        get_size-ok b.addr t v.ne_null,
        have,
        get_size-ok ph t u.slab.ne_null,
        size_field,
        set_size-ok b.addr t v.ne_null (b.size + size),
        word,
        get_size-ok ph widened u.slab.ne_null,
        size_field',
        end,
      )

  -- `free_block` up to the test whether a run begins where the block ends.
  pub free_block-joining :
      (fuel : ℕ) → length whole < fuel → free_block fuel ph ptr s ≡ joining fuel widened
  unfolding free_block zero_range
  free_block-joining fuel enough =
      let t = cleared s ph size whole ptr u in
      let c = cleared-InUse s ph size whole ptr u in
      let v = parts.here in
      let (have, size_field, _) = cleared_fields in
      let begins = slab-Begins s.mem ph size xs b ys u.slab in
      let links =
        kept-Links s.mem t.mem ph size whole ptr u (cleared-Touches s.mem ph size ptr) begins.first
          begins.links in
      let near =
        neighbours-of t fuel ptr 0 0 begins.first whole links
          (Separate-IsRegion whole u.slab.separate) enough in
      let head =
        first_free-at t ph size (s.mem (ph + 12)) begins.first u.slab.ne_null u.slab.reach
          c.slab.size_field (cleared-index s ph size whole ptr u) begins.at begins.within in
      let before : before_of ptr 0 whole ≡ b.addr =
        ap (λ (k : ℕ). before_of k 0 whole) (sym ends) ∙ before_of-end xs b ys u.slab.separate in
      let touch : (add64 b.addr b.size == ptr) ≡ true =
        eq→== (add64 b.addr b.size) ptr (omega (arith, v.reach)) in
      rw (
        get_size-ok ph s u.slab.ne_null,
        u.slab.size_field,
        sext-small size (omega (arith, u.slab.most)),
        head,
        near,
        before,
        ne→== b.addr 0 (omega (arith, v.ne_null)),
        get_size-ok b.addr t v.ne_null,
        have,
        get_size-ok ph t u.slab.ne_null,
        size_field,
        sext-small b.size v.small,
        touch,
        merge_before-joining fuel,
      )
