-- ===== src/Pmm/Kfree/Unlinked.antt =====
-- A page after a free run has left its list, and the search for the node before it.
use njuoslab_l1_kmalloc_kfre.Base.{
  ℕ, zero, suc, ◌+◌, ◌*◌, ◌≤◌, ◌≡◌, ◌≢◌, List, [], ◌∷◌, ◌++◌, arith, All, ◌∙◌, ap, sym, length,
  eq→==, ne→==,
}
use njuoslab_l1_kmalloc_kfre.Machine.{State, ok}
use njuoslab_l1_kmalloc_kfre.Machine.Memory.{Mem, write, write-other}
use njuoslab_l1_kmalloc_kfre.Machine.Fields.{get_next-ok}
use njuoslab_l1_kmalloc_kfre.Pmm.FreeList.{
  Region, IsRegion, Links, last_addr, Separate-IsRegion, Links-split, Links-redirect, Links-write,
  Links-append,
}
use njuoslab_l1_kmalloc_kfre.Pmm.FreeList.Splice.{
  All-split, All-join, Parts, Separate-Parts, Separate-remove, last-OffNodes, last-from,
}
use njuoslab_l1_kmalloc_kfre.Pmm.Kfree.{find_pred}
use njuoslab_l1_kmalloc_kfre.Pmm.Kfree.Merged.{OnGrid, runs-OnGrid, link-HasMagic}
use njuoslab_l1_kmalloc_kfre.Pmm.Slab.{IsRun, IsSlab, HasMagic}

-- The last link of a path leads to `target`, and no other does.
pub find_pred-some :
    (m : Mem) (s : State) (k target h : ℕ) (x : Region) (xs : List Region)
    → Links m h (x ∷ xs) target
    → All IsRegion (x ∷ xs)
    → All (λ g. s.mem g.addr ≡ m g.addr) (x ∷ xs)
    → All (λ g. g.addr ≢ target) xs
    → length (x ∷ xs) ≤ k
    → find_pred k target h s ≡ ok (last_addr x.addr xs) s
unfolding find_pred
find_pred-some m s zero target h x xs c v same ne f = absurd (omega arith)
find_pred-some m s (suc k) target h x [] (e, n, c) (v, vs) (same, _) ne f = rw e (
    rw (
      ne→== x.addr 0 (omega (arith, v.ne_null)),
      get_next-ok x.addr s v.ne_null,
      eq→== (s.mem x.addr) target (same ∙ c),
    ))
find_pred-some m s (suc k) target h x (y ∷ ys) (e, n, (e', n', c')) (v, vs) (same, sames) (ne, nes)
      f =
    rw e (
      rw
        (
          ne→== x.addr 0 (omega (arith, v.ne_null)),
          get_next-ok x.addr s v.ne_null,
          same,
          ne→== (m x.addr) target (λ q. ne (sym e' ∙ q)),
        )
        (find_pred-some m s k target (m x.addr) y ys (e', n', c') vs sames nes (omega arith)))

module _ (m : Mem) (ph size : ℕ) (x : Region) (xs : List Region) (a : Region) (ys : List Region)
    (slab : IsSlab m ph size ((x ∷ xs) ++ (a ∷ ys))) where
  abbrev pub pred : ℕ
  pred = last_addr x.addr xs

  abbrev pub cut : Mem
  cut = write m pred (m a.addr)

  parts : Parts (x ∷ xs) a ys
  parts = Separate-Parts (x ∷ xs) a ys slab.separate

  pub cut-OnGrid : OnGrid ph pred
  cut-OnGrid =
      let (gx, _, _) = All-split (IsRun ph size) (x ∷ xs) a ys slab.runs in
      let (at, rest) = runs-OnGrid ph size (x ∷ xs) slab.least slab.unit gx in
      last-from (OnGrid ph) x.addr xs at rest

  cut-Links : Links cut x.addr ((x ∷ xs) ++ ys) 0
  cut-Links =
      let p = parts in
      let (to, (_, _, from)) = Links-split m x.addr 0 (x ∷ xs) a ys slab.start.1 in
      let vx = Separate-IsRegion (x ∷ xs) p.front in
      let vy = Separate-IsRegion ys p.back in
      Links-append cut x.addr (m a.addr) 0 (x ∷ xs) ys
        (Links-redirect m x.addr a.addr (m a.addr) x xs p.front to)
        (Links-write m (m a.addr) 0 pred (m a.addr) ys (last-OffNodes x xs ys vx vy p.across) from)

  pub cut-IsSlab : IsSlab cut ph size ((x ∷ xs) ++ ys)
  cut-IsSlab =
      let p = parts in
      let grid = cut-OnGrid in
      let (gx, _, gy) = All-split (IsRun ph size) (x ∷ xs) a ys slab.runs in
      let (mx, _, my) = All-split (HasMagic m) (x ∷ xs) a ys slab.magics in
      let runs = All-join (IsRun ph size) (x ∷ xs) ys gx gy in
      let index : cut (ph + 12) ≡ m (ph + 12) =
        write-other m pred (m a.addr) (ph + 12) (omega arith) in
      record {
        ne_null = slab.ne_null;
        reach = slab.reach;
        least = slab.least;
        most = slab.most;
        unit = slab.unit;
        size_field = write-other m pred (m a.addr) (ph + 8) (omega arith) ∙ slab.size_field;
        start = (ap (λ (k : ℕ). ph + k * size) index ∙ slab.start.0, cut-Links);
        separate = Separate-remove (x ∷ xs) a ys p;
        runs = runs;
        magics =
            link-HasMagic m ph pred (m a.addr) ((x ∷ xs) ++ ys) grid
              (runs-OnGrid ph size ((x ∷ xs) ++ ys) slab.least slab.unit runs)
              (All-join (HasMagic m) (x ∷ xs) ys mx my);
      }
