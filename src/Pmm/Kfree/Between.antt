-- ===== src/Pmm/Kfree/Between.antt =====
-- `kfree` of a block between two free runs, of which the one behind it is not the first of the list.
use njuoslab_l1_kmalloc_kfre.Base.{
  ℕ, ◌+◌, ◌≡◌, ◌≢◌, refl, List, [], ◌∷◌, ◌++◌, arith, All, ◌∙◌, ap, sym,
}
use mathlib.Core.Path.{subst}
use native.Mathlib.Decide.{ℕ_discrete}
use njuoslab_l1_kmalloc_kfre.Machine.{State}
use njuoslab_l1_kmalloc_kfre.Machine.Memory.{Mem, write, write-same, write-other}
use njuoslab_l1_kmalloc_kfre.Pmm.FreeList.{Region, Apart, Separate-IsRegion, last_addr}
use njuoslab_l1_kmalloc_kfre.Pmm.FreeList.Splice.{All-split, All-join, Parts, Separate-Parts}
use njuoslab_l1_kmalloc_kfre.Pmm.Kfree.Push.{InUse}
use njuoslab_l1_kmalloc_kfre.Pmm.Kfree.Merged.{apart-merge, OnGrid, runs-OnGrid}
use njuoslab_l1_kmalloc_kfre.Pmm.Kfree.Replaced.{Fits, Rewritten, replaced-IsSlab}
use njuoslab_l1_kmalloc_kfre.Pmm.Kfree.Before.{widen, widened, widened-IsSlab}
use njuoslab_l1_kmalloc_kfre.Pmm.Kfree.HeadLost.{joined_run}
use njuoslab_l1_kmalloc_kfre.Pmm.Kfree.Unlinked
use njuoslab_l1_kmalloc_kfre.Pmm.Kfree.Unlinked.{find_pred-some, cut-IsSlab, cut-OnGrid}
use njuoslab_l1_kmalloc_kfre.Pmm.Slab.{IsRun, IsSlab, HasMagic}

-- Where the runs stand in the list: `a` behind `x` and `xs`, and with `a` gone and `b` grown, `b` between
-- `front` and `back`.
pub record Order (size : ℕ) (us : List Region) (b : Region) (vs : List Region) (a : Region)
    : Type 0 where
  pub old_front : List Region
  pub old_back : List Region
  pub old : us ++ (b ∷ vs) ≡ old_front ++ (a ∷ old_back)
  pub x : Region
  pub xs : List Region
  pub ys : List Region
  pub split : us ++ (widen size b ∷ vs) ≡ (x ∷ xs) ++ (a ∷ ys)
  pub front : List Region
  pub back : List Region
  pub left : (x ∷ xs) ++ ys ≡ front ++ (widen size b ∷ back)

module _ (s : State) (ph size : ℕ) (us : List Region) (b : Region) (vs : List Region) (a : Region)
    (ptr : ℕ) (u : InUse s.mem ph size (us ++ (b ∷ vs)) ptr) (ends : b.addr + b.size ≡ ptr)
    (next_to : a.addr ≡ ptr + size) (o : Order size us b vs a) where
  abbrev pub w : State
  w = widened s ph size us b vs ptr u ends

  abbrev run : Region
  run = joined_run size a b

  abbrev total : ℕ
  total = b.size + size + a.size

  pub slab : IsSlab w.mem ph size ((o.x ∷ o.xs) ++ (a ∷ o.ys))
  slab = subst (IsSlab w.mem ph size) o.split (widened-IsSlab s ph size us b vs ptr u ends)

  parts : Parts (o.x ∷ o.xs) a o.ys
  parts = Separate-Parts (o.x ∷ o.xs) a o.ys slab.separate

  pub a-IsRun : IsRun ph size a
  a-IsRun = (All-split (IsRun ph size) (o.x ∷ o.xs) a o.ys slab.runs).1

  -- The memory with `a` out of the list and the rest as it was.
  abbrev cut : Mem
  cut = Unlinked.cut w.mem ph size o.x o.xs a o.ys slab

  abbrev pred : ℕ
  pred = last_addr o.x.addr o.xs

  cut_slab : IsSlab cut ph size (o.front ++ (widen size b ∷ o.back))
  cut_slab = subst (IsSlab cut ph size) o.left (cut-IsSlab w.mem ph size o.x o.xs a o.ys slab)

  cut-Parts : Parts o.front (widen size b) o.back
  cut-Parts = Separate-Parts o.front (widen size b) o.back cut_slab.separate

  pub b-IsRun : IsRun ph size (widen size b)
  b-IsRun = (All-split (IsRun ph size) o.front (widen size b) o.back cut_slab.runs).1

  a-apart : All (Apart a) o.front × Apart a (widen size b) × All (Apart a) o.back
  a-apart = All-split (Apart a) o.front (widen size b) o.back (
      subst (All (Apart a)) o.left (All-join (Apart a) (o.x ∷ o.xs) o.ys parts.before parts.behind))

  pub run-apart : All (Apart run) o.front × All (Apart run) o.back
  run-apart =
      let (ax, _, ay) = a-apart in
      let p = cut-Parts in
      (
        apart-merge b.addr (b.size + size) a o.front (omega arith)
            (Separate-IsRegion o.front p.front) p.before ax,
        apart-merge b.addr (b.size + size) a o.back (omega arith) (Separate-IsRegion o.back p.back)
            p.behind ay,
      )

  pub run-Fits : Fits ph size (widen size b) o.back run
  run-Fits =
      let v = parts.here in
      let f = cut-Parts.here in
      let r = b-IsRun in
      let ra = a-IsRun in
      record {
        address = refl;
        block = omega (arith, f, v, u.slab.reach, ra.behind_header, ra.in_page);
        run = record {
          first = r.first;
          at = r.at;
          count = r.count + ra.count;
          long = omega (arith, r.long, ra.long);
          behind_header = r.behind_header;
          in_page = omega (arith, ra.in_page);
        };
        behind = run-apart.1;
      }

  abbrev pub w2 : State
  w2 = record w { mem = write w.mem (b.addr + 8) total }

  abbrev pub w3 : State
  w3 = record w2 { mem = write w2.mem pred (w2.mem a.addr) }

  -- The addresses that are written, in units of 16 bytes from the page on.
  pub grid : OnGrid ph pred × OnGrid ph a.addr × OnGrid ph b.addr
  grid =
      let ga = runs-OnGrid ph size (a ∷ []) slab.least slab.unit (a-IsRun, tt) in
      let gb = runs-OnGrid ph size (widen size b ∷ []) slab.least slab.unit (b-IsRun, tt) in
      (cut-OnGrid w.mem ph size o.x o.xs a o.ys slab, ga.0, gb.0)

  w3-cut : (c : ℕ) → c ≢ b.addr + 8 → w3.mem c ≡ cut c
  w3-cut c ne =
      let (_, at_a, at_b) = grid in
      let link : w2.mem a.addr ≡ w.mem a.addr =
        write-other w.mem (b.addr + 8) total a.addr (omega arith) in
      elim (ℕ_discrete c pred) [
        | yes here ↦
            ap w3.mem here
            ∙ write-same w2.mem pred (w2.mem a.addr)
            ∙ link
            ∙ sym (write-same w.mem pred (w.mem a.addr))
            ∙ ap cut (sym here)
        | no other ↦
            write-other w2.mem pred (w2.mem a.addr) c other
            ∙ write-other w.mem (b.addr + 8) total c ne
            ∙ sym (write-other w.mem pred (w.mem a.addr) c other)
      ]

  pub w3-field : w3.mem (b.addr + 8) ≡ total
  w3-field =
      let (at_pred, _, at_b) = grid in
      write-other w2.mem pred (w2.mem a.addr) (b.addr + 8) (omega arith)
      ∙ write-same w.mem (b.addr + 8) total

  run-Rewritten : Rewritten cut w3.mem ph size run
  run-Rewritten =
      let (_, _, at_b) = grid in
      let v = run-Fits.block in
      let (_, magic, _) = All-split (HasMagic cut) o.front (widen size b) o.back cut_slab.magics in
      record {
        same = λ c far lo. w3-cut c (omega (arith, v.room));
        size_field = w3-cut (ph + 8) (omega arith) ∙ cut_slab.size_field;
        next = w3-cut b.addr (omega arith);
        field = w3-field;
        magic = w3-cut (b.addr + 12) (omega arith) ∙ magic;
      }

  pub joined-IsSlab : IsSlab w3.mem ph size (o.front ++ (run ∷ o.back))
  joined-IsSlab =
      let (_, _, at_b) = grid in
      replaced-IsSlab cut w3.mem ph size o.front (widen size b) o.back run cut_slab run-Fits
        run-Rewritten run-apart.0 (w3-cut (ph + 12) (omega arith))
