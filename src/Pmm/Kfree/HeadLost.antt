-- ===== src/Pmm/Kfree/HeadLost.antt =====
-- `kfree` of a block between two free runs, of which the one behind the block is the first of the list.
use njuoslab_l1_kmalloc_kfre.Base.{
  ℕ, zero, suc, ◌+◌, ◌/◌, ◌≤◌, ◌<◌, ◌≡◌, ◌≢◌, refl, List, [], ◌∷◌, ◌++◌, arith, All, ◌∙◌, ap, sym,
  length, ne→==,
}
use njuoslab_l1_kmalloc_kfre.Base.Words.{u32, sub64, sext-small}
use njuoslab_l1_kmalloc_kfre.Machine.{State, ok}
use njuoslab_l1_kmalloc_kfre.Machine.Memory.{Mem, write, write-same, write-other}
use njuoslab_l1_kmalloc_kfre.Machine.Fields.{get_next-ok, get_size-ok, set_size-ok, set_word-ok}
use njuoslab_l1_kmalloc_kfre.Pmm.FreeList.{
  Region, region, IsRegion, Apart, Outside, Links, Separate-IsRegion,
}
use njuoslab_l1_kmalloc_kfre.Pmm.FreeList.Splice.{All-split, All-map, Parts, Separate-Parts}
use njuoslab_l1_kmalloc_kfre.Pmm.Kfree.{find_pred, join_after, set_first_free}
use njuoslab_l1_kmalloc_kfre.Pmm.Kfree.Push.{InUse, first_free-at}
use njuoslab_l1_kmalloc_kfre.Pmm.Kfree.Merged.{apart-merge, OnGrid, runs-OnGrid}
use njuoslab_l1_kmalloc_kfre.Pmm.Kfree.MergeAfter.{apart-ne}
use njuoslab_l1_kmalloc_kfre.Pmm.Kfree.Replaced.{Fits, Rewritten, dropped-IsSlab}
use njuoslab_l1_kmalloc_kfre.Pmm.Kfree.Before.{
  widen, widened, widened-IsSlab, widen-Fits, widen-before,
}
use njuoslab_l1_kmalloc_kfre.Pmm.Kfree.Widened.{Grown}
use njuoslab_l1_kmalloc_kfre.Pmm.Slab.{IsSlab, HasMagic}
use njuoslab_l1_kmalloc_kfre.Pmm.Slab.Index.{number_of}

-- No link leads to `target`.
find_pred-none :
    (m : Mem) (s : State) (k target h : ℕ) (x : Region) (xs : List Region)
    → Links m h (x ∷ xs) 0
    → All IsRegion (x ∷ xs)
    → All (λ g. s.mem g.addr ≡ m g.addr) (x ∷ xs)
    → 0 < target
    → All (λ g. g.addr ≢ target) xs
    → length (x ∷ xs) < k
    → find_pred k target h s ≡ ok 0 s
unfolding find_pred
find_pred-none m s zero target h x xs c v same pos ne f = absurd (omega arith)
find_pred-none m s (suc zero) target h x xs c v same pos ne f = absurd (omega arith)
find_pred-none m s (suc (suc k)) target h x [] (e, n, c) (v, vs) (same, _) pos ne f = rw e (
    rw (
      ne→== x.addr 0 (omega (arith, v.ne_null)),
      get_next-ok x.addr s v.ne_null,
      same ∙ c,
      ne→== 0 target (omega arith),
    ))
find_pred-none m s (suc k) target h x (y ∷ ys) (e, n, (e', n', c')) (v, vs) (same, sames) pos
      (ne, nes) f =
    rw e (
      rw
        (
          ne→== x.addr 0 (omega (arith, v.ne_null)),
          get_next-ok x.addr s v.ne_null,
          same,
          ne→== (m x.addr) target (λ q. ne (sym e' ∙ q)),
        )
        (find_pred-none m s k target (m x.addr) y ys (e', n', c') vs sames pos nes (omega arith)))

-- The three as one run.
abbrev pub joined_run : (size : ℕ) → (a b : Region) → Region
joined_run size a b = region b.addr (b.size + size + a.size)

-- What is left: the list begins at that run, and so the runs `xs` are in it no more.
pub record HeadLost (s : State) (ph size : ℕ) (a : Region) (xs : List Region) (b : Region)
    (ys : List Region) (s' : State) : Type 0 where
  pub page : Grown ph size [] (joined_run size a b) ys s'
  pub lost : All (Apart (joined_run size a b)) xs × All (λ x. All (Apart x) ys) xs
  pub kept :
      (c : ℕ) → Outside c (joined_run size a b) → c ≢ ph + 8 → c ≢ ph + 12 → s'.mem c ≡ s.mem c

module _ (s : State) (ph size : ℕ) (a : Region) (xs : List Region) (b : Region) (ys : List Region)
    (ptr : ℕ) (u : InUse s.mem ph size ((a ∷ xs) ++ (b ∷ ys)) ptr) (ends : b.addr + b.size ≡ ptr)
    (next_to : a.addr ≡ ptr + size) where
  abbrev w : State
  w = widened s ph size (a ∷ xs) b ys ptr u ends

  slab : IsSlab w.mem ph size ((a ∷ xs) ++ (widen size b ∷ ys))
  slab = widened-IsSlab s ph size (a ∷ xs) b ys ptr u ends

  abbrev run : Region
  run = joined_run size a b

  pub parts : Parts (a ∷ xs) b ys
  parts = Separate-Parts (a ∷ xs) b ys u.slab.separate

  a-apart : All (Apart a) xs × All (Apart a) ys
  a-apart = (parts.front.1, parts.across.0)

  pub run-Fits : Fits ph size (widen size b) ys run
  run-Fits =
      let f = widen-Fits s ph size (a ∷ xs) b ys ptr u ends in
      let (v, _, _) = u.slab.separate in
      let r = f.run in
      let ra = u.slab.runs.0 in
      record {
        address = refl;
        block = omega (arith, f.block, v, u.slab.reach, ra.behind_header, ra.in_page);
        run = record {
          first = r.first;
          at = r.at;
          count = r.count + ra.count;
          long = omega (arith, r.long, ra.long);
          behind_header = r.behind_header;
          in_page = omega (arith, ra.in_page);
        };
        behind =
            apart-merge b.addr (b.size + size) a ys (omega arith) (Separate-IsRegion ys parts.back)
              f.behind a-apart.1;
      }

  pub run-apart : All (Apart run) xs
  run-apart =
      let (_, near) = widen-before s ph size (a ∷ xs) b ys ptr u ends in
      apart-merge b.addr (b.size + size) a xs (omega arith) (Separate-IsRegion xs parts.front.2)
        near a-apart.0

  abbrev w2 : State
  w2 = record w { mem = write w.mem (b.addr + 8) (b.size + size + a.size) }

  abbrev pub w3 : State
  w3 = record w2 { mem = write w2.mem (ph + 12) run-Fits.run.first }

  low : ph + 32 ≤ b.addr
  low = omega (arith, run-Fits.run.behind_header, slab.least)

  -- A word that is not the size of the run, and not the page's index.
  pub w3-other : (c : ℕ) → c ≢ b.addr + 8 → c ≢ ph + 12 → w3.mem c ≡ w.mem c
  w3-other c ne ne' =
      write-other w2.mem (ph + 12) run-Fits.run.first c ne'
      ∙ write-other w.mem (b.addr + 8) (b.size + size + a.size) c ne

  pub w3-field : w3.mem (b.addr + 8) ≡ b.size + size + a.size
  w3-field =
      write-other w2.mem (ph + 12) run-Fits.run.first (b.addr + 8) (omega (arith, low))
      ∙ write-same w.mem (b.addr + 8) (b.size + size + a.size)

  run-Rewritten : Rewritten w.mem w3.mem ph size run
  run-Rewritten =
      let far = low in
      let v = run-Fits.block in
      let (_, magic, _) = All-split (HasMagic w.mem) (a ∷ xs) (widen size b) ys slab.magics in
      record {
        same = λ c o lo. w3-other c (omega (arith, v.room)) (omega arith);
        size_field = w3-other (ph + 8) (omega arith) (omega arith) ∙ slab.size_field;
        next = w3-other b.addr (omega arith) (omega arith);
        field = w3-field;
        magic = w3-other (b.addr + 12) (omega arith) (omega arith) ∙ magic;
      }

  pub joined-IsSlab : IsSlab w3.mem ph size (run ∷ ys)
  joined-IsSlab =
      dropped-IsSlab w.mem w3.mem ph size (a ∷ xs) (widen size b) ys run slab run-Fits run-Rewritten
        (write-same w2.mem (ph + 12) run-Fits.run.first)

  -- No node before the first leads to it.
  no_pred :
      (fuel : ℕ) → length ((a ∷ xs) ++ (b ∷ ys)) < fuel → find_pred fuel a.addr a.addr w2 ≡ ok 0 w2
  no_pred fuel enough =
      let (v, apart, sep) = slab.separate in
      let rest = xs ++ (widen size b ∷ ys) in
      let vs = Separate-IsRegion rest sep in
      let grid = runs-OnGrid ph size (a ∷ rest) slab.least slab.unit slab.runs in
      let (_, at_b, _) = All-split (λ g. OnGrid ph g.addr) (a ∷ xs) (widen size b) ys grid in
      let same =
        All-map (λ g. OnGrid ph g.addr) (λ g. w2.mem g.addr ≡ w.mem g.addr) (a ∷ rest)
          (λ g o. write-other w.mem (b.addr + 8) (b.size + size + a.size) g.addr (omega arith))
          grid in
      find_pred-none w.mem w2 fuel a.addr a.addr a rest slab.start.1 (v, vs) same v.ne_null
        (apart-ne a rest v vs apart) (omega (arith, length-same xs))
    where
      length-same :
          (zs : List Region) → length (zs ++ (widen size b ∷ ys)) ≡ length (zs ++ (b ∷ ys))
      length-same [] = refl
      length-same (z ∷ zs) = ap suc (length-same zs)

  set_first_free-run : set_first_free ph b.addr w2 ≡ ok tt w3
  unfolding set_first_free
  set_first_free-run =
      let far = low in
      let r = run-Fits.run in
      let field : w2.mem (ph + 8) ≡ size =
        write-other w.mem (b.addr + 8) (b.size + size + a.size) (ph + 8) (omega arith)
        ∙ slab.size_field in
      let number =
        number_of ph size r.first slab.least b.addr r.at
          (omega (arith, r.in_page, run-Fits.block.room)) slab.reach in
      rw (
        get_size-ok ph w2 slab.ne_null,
        field,
        sext-small size (omega (arith, slab.most)),
        set_word-ok ph w2 slab.ne_null (sub64 b.addr ph / size),
        number,
      )

  pub join_after-run :
      (fuel : ℕ)
      → length ((a ∷ xs) ++ (b ∷ ys)) < fuel
      → join_after fuel ph b.addr a.addr w ≡ ok tt w3
  unfolding join_after
  join_after-run fuel enough =
      let far = low in
      let (v, _, _) = slab.separate in
      let f = run-Fits in
      let ne : 0 < b.addr = f.block.ne_null in
      let have : w.mem (b.addr + 8) ≡ b.size + size = write-same _ (b.addr + 8) (b.size + size) in
      let more : w.mem (a.addr + 8) ≡ a.size = slab.start.1.1 in
      let word : u32 (b.size + size + a.size) ≡ b.size + size + a.size =
        omega (arith, f.block.small) in
      let field : w2.mem (ph + 8) ≡ size =
        write-other w.mem (b.addr + 8) (b.size + size + a.size) (ph + 8) (omega arith)
        ∙ slab.size_field in
      let index : w2.mem (ph + 12) ≡ w.mem (ph + 12) =
        write-other w.mem (b.addr + 8) (b.size + size + a.size) (ph + 12) (omega arith) in
      let first =
        first_free-at w2 ph size (w.mem (ph + 12)) a.addr slab.ne_null slab.reach field index
          slab.start.0 (omega (arith, slab.runs.0.in_page, v.room)) in
      rw (
        get_size-ok b.addr w ne,
        have,
        get_size-ok a.addr w v.ne_null,
        more,
        set_size-ok b.addr w ne (b.size + size + a.size),
        word,
        first,
        no_pred fuel enough,
        set_first_free-run,
      )
