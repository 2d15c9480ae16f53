-- ===== src/Pmm/Kfree/Replaced.antt =====
-- A page after one of its free runs has become another at the same address.
use njuoslab_l1_kmalloc_kfre.Base.{
  ℕ, ◌+◌, ◌*◌, ◌≤◌, ◌≡◌, refl, List, [], ◌∷◌, ◌++◌, arith, All, ◌∙◌, ap, sym,
}
use njuoslab_l1_kmalloc_kfre.Machine.Memory.{Mem}
use njuoslab_l1_kmalloc_kfre.Pmm.FreeList.{
  Region, IsRegion, Apart, Outside, Links, Links-same, Links-split, Links-append, Separate-IsRegion,
}
use njuoslab_l1_kmalloc_kfre.Pmm.FreeList.Splice.{
  All-split, All-join, Parts, Separate-Parts, Parts-Separate,
}
use njuoslab_l1_kmalloc_kfre.Pmm.Kalloc.{page_magic}
use njuoslab_l1_kmalloc_kfre.Pmm.Kfree.Cleared.{slab-Begins}
use njuoslab_l1_kmalloc_kfre.Pmm.Slab.{
  IsRun, IsSlab, StartsAt, HasMagic, agree-SameNodes, agree-HasMagic,
}

-- The run `r` can stand where `b` stands.
pub record Fits (ph size : ℕ) (b : Region) (ys : List Region) (r : Region) : Type 0 where
  pub address : r.addr ≡ b.addr
  pub block : IsRegion r
  pub run : IsRun ph size r
  pub behind : All (Apart r) ys

-- The memory has the node of `r` where the node of `b` was, and is the same in the rest of the page.
pub record Rewritten (m m' : Mem) (ph size : ℕ) (r : Region) : Type 0 where
  pub same : (b : ℕ) → Outside b r → ph + 32 ≤ b → m' b ≡ m b
  pub size_field : m' (ph + 8) ≡ size
  pub next : m' r.addr ≡ m r.addr
  pub field : m' (r.addr + 8) ≡ r.size
  pub magic : m' (r.addr + 12) ≡ page_magic

Links-StartsAt :
    (m : Mem) (ph size first : ℕ) (xs : List Region) (g : Region) (ys : List Region)
    → ph + m (ph + 12) * size ≡ first
    → Links m first (xs ++ (g ∷ ys)) 0
    → StartsAt m ph size (xs ++ (g ∷ ys))
Links-StartsAt m ph size first [] g ys at (e, n, c) = (at ∙ e, (refl, n, c))
Links-StartsAt m ph size first (x ∷ xs) g ys at (e, n, c) = (at ∙ e, (refl, n, c))

module _ (m m' : Mem) (ph size : ℕ) (xs : List Region) (b : Region) (ys : List Region) (r : Region)
    (slab : IsSlab m ph size (xs ++ (b ∷ ys))) (f : Fits ph size b ys r)
    (w : Rewritten m m' ph size r) where
  parts : Parts xs b ys
  parts = Separate-Parts xs b ys slab.separate

  -- The runs on either side are as before.
  side-Links :
      (zs : List Region)
      → All IsRegion zs
      → All (IsRun ph size) zs
      → All (Apart r) zs
      → (c d : ℕ) → Links m c zs d
      → Links m' c zs d
  side-Links zs v runs apart c d =
      Links-same m m' c d zs (agree-SameNodes m m' ph size r zs slab.least w.same v runs apart)

  back-Links : Links m' r.addr (r ∷ ys) 0
  back-Links =
      let p = parts in
      let (_, _, runs) = All-split (IsRun ph size) xs b ys slab.runs in
      let begins = slab-Begins m ph size xs b ys slab in
      let (_, (_, _, from)) = Links-split m begins.first 0 xs b ys begins.links in
      let next : m' r.addr ≡ m b.addr = w.next ∙ ap m f.address in
      let rest : Links m' (m b.addr) ys 0 =
        side-Links ys (Separate-IsRegion ys p.back) runs f.behind (m b.addr) 0 from in
      (refl, w.field, rw next rest)

  pub replaced-IsSlab :
      All (Apart r) xs → m' (ph + 12) ≡ m (ph + 12) → IsSlab m' ph size (xs ++ (r ∷ ys))
  replaced-IsSlab before index =
      let p = parts in
      let (rx, _, ry) = All-split (IsRun ph size) xs b ys slab.runs in
      let (mx, _, my) = All-split (HasMagic m) xs b ys slab.magics in
      let vx = Separate-IsRegion xs p.front in
      let vy = Separate-IsRegion ys p.back in
      let begins = slab-Begins m ph size xs b ys slab in
      let (to, _) = Links-split m begins.first 0 xs b ys begins.links in
      let at : ph + m' (ph + 12) * size ≡ begins.first =
        ap (λ (k : ℕ). ph + k * size) index ∙ begins.at in
      let back : Links m' b.addr (r ∷ ys) 0 = (sym f.address, back-Links.1, back-Links.2) in
      record {
        ne_null = slab.ne_null;
        reach = slab.reach;
        least = slab.least;
        most = slab.most;
        unit = slab.unit;
        size_field = w.size_field;
        start = Links-StartsAt m' ph size begins.first xs r ys at (
            Links-append m' begins.first b.addr 0 xs (r ∷ ys)
              (side-Links xs vx rx before begins.first b.addr to) back);
        separate = Parts-Separate xs r ys (record {
          front = p.front;
          here = f.block;
          back = p.back;
          before = before;
          behind = f.behind;
          across = p.across;
        });
        runs = All-join (IsRun ph size) xs (r ∷ ys) rx (f.run, ry);
        magics =
            All-join (HasMagic m') xs (r ∷ ys)
              (agree-HasMagic m m' ph size r xs slab.least w.same vx rx before mx)
              (w.magic, agree-HasMagic m m' ph size r ys slab.least w.same vy ry f.behind my);
      }

  -- The list begins at the new run: the runs before it are in it no more.
  pub dropped-IsSlab : m' (ph + 12) ≡ f.run.first → IsSlab m' ph size (r ∷ ys)
  dropped-IsSlab index =
      let p = parts in
      let (_, _, ry) = All-split (IsRun ph size) xs b ys slab.runs in
      let (_, _, my) = All-split (HasMagic m) xs b ys slab.magics in
      let run = f.run in
      record {
        ne_null = slab.ne_null;
        reach = slab.reach;
        least = slab.least;
        most = slab.most;
        unit = slab.unit;
        size_field = w.size_field;
        start = (ap (λ (k : ℕ). ph + k * size) index ∙ omega (arith, run.at), back-Links);
        separate = (f.block, f.behind, p.back);
        runs = (f.run, ry);
        magics = (
          w.magic,
          agree-HasMagic m m' ph size r ys slab.least w.same (Separate-IsRegion ys p.back) ry
              f.behind my,
        );
      }
