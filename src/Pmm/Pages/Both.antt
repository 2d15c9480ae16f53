-- ===== src/Pmm/Pages/Both.antt =====
-- A page of blocks after `kfree` of one with a free run on either side.
use njuoslab_l1_kmalloc_kfre.Base.{
  ℕ, ◌+◌, ◌≡◌, inl, inr, refl, List, [], ◌∷◌, ◌++◌, arith, All, ap, sym,
}
use mathlib.Core.Path.{subst}
use njuoslab_l1_kmalloc_kfre.Machine.{State}
use njuoslab_l1_kmalloc_kfre.Pmm.FreeList.{Region, region, Outside}
use njuoslab_l1_kmalloc_kfre.Pmm.FreeList.Splice.{All-split, All-join}
use njuoslab_l1_kmalloc_kfre.Pmm.Kfree.Push.{InUse}
use njuoslab_l1_kmalloc_kfre.Pmm.Kfree.Before.{widen}
use njuoslab_l1_kmalloc_kfre.Pmm.Kfree.HeadLost.{joined_run}
use njuoslab_l1_kmalloc_kfre.Pmm.Kfree.Between
use njuoslab_l1_kmalloc_kfre.Pmm.Kfree.Between.{Order}
use njuoslab_l1_kmalloc_kfre.Pmm.Kfree.Joined.{Joined}
use njuoslab_l1_kmalloc_kfre.Pmm.Pages.{slab, empty}
use njuoslab_l1_kmalloc_kfre.Pmm.Pages.Freed.{PageFreed, empty-Refreed, All-parts}

append_assoc : (xs ys zs : List Region) → (xs ++ ys) ++ zs ≡ xs ++ (ys ++ zs)
append_assoc [] ys zs = refl
append_assoc (x ∷ xs) ys zs = ap (λ l. x ∷ l) (append_assoc xs ys zs)

-- `a` stands before `b` in the list.
pub Order-before :
    (size : ℕ) (x : Region) (xs : List Region) (a : Region) (zs : List Region) (b : Region)
    (vs : List Region)
    → Order size ((x ∷ xs) ++ (a ∷ zs)) b vs a
Order-before size x xs a zs b vs = record {
  old_front = x ∷ xs;
  old_back = zs ++ (b ∷ vs);
  old = append_assoc (x ∷ xs) (a ∷ zs) (b ∷ vs);
  x = x;
  xs = xs;
  ys = zs ++ (widen size b ∷ vs);
  split = append_assoc (x ∷ xs) (a ∷ zs) (widen size b ∷ vs);
  front = (x ∷ xs) ++ zs;
  back = vs;
  left = sym (append_assoc (x ∷ xs) zs (widen size b ∷ vs));
}

-- `b` stands before `a`.
pub Order-behind :
    (size : ℕ) (us : List Region) (b : Region) (zs : List Region) (a : Region) (ws : List Region)
    → Order size us b (zs ++ (a ∷ ws)) a
Order-behind size [] b zs a ws = record {
  old_front = b ∷ zs;
  old_back = ws;
  old = refl;
  x = widen size b;
  xs = zs;
  ys = ws;
  split = refl;
  front = [];
  back = zs ++ ws;
  left = refl;
}
Order-behind size (k ∷ us) b zs a ws = record {
  old_front = (k ∷ us) ++ (b ∷ zs);
  old_back = ws;
  old = sym (append_assoc (k ∷ us) (b ∷ zs) (a ∷ ws));
  x = k;
  xs = us ++ (widen size b ∷ zs);
  ys = ws;
  split = sym (append_assoc (k ∷ us) (widen size b ∷ zs) (a ∷ ws));
  front = k ∷ us;
  back = zs ++ ws;
  left = append_assoc (k ∷ us) (widen size b ∷ zs) ws;
}

module _ (ph size : ℕ) (us : List Region) (b : Region) (vs : List Region) (a : Region) (ptr : ℕ)
    (o : Order size us b vs a) (ends : b.addr + b.size ≡ ptr) (next_to : a.addr ≡ ptr + size) where
  cover :
      (c : ℕ)
      → Outside c (region ptr size)
      → All (Outside c) (us ++ (b ∷ vs))
      → Outside c (joined_run size a b)
  cover c out outs =
      let (_, ob, _) = All-split (Outside c) us b vs outs in
      let (_, oa, _) =
        All-split (Outside c) o.old_front a o.old_back (subst (All (Outside c)) o.old outs) in
      omega arith

  -- The lists before and after, of addresses that are free in neither.
  list_before :
      (c : ℕ)
      → All (Outside c) (o.front ++ (joined_run size a b ∷ o.back))
      → All (Outside c) (us ++ (b ∷ vs))
  list_before c outs =
      let (o1, out, o2) = All-split (Outside c) o.front (joined_run size a b) o.back outs in
      let wide : All (Outside c) (o.front ++ (widen size b ∷ o.back)) =
        All-join (Outside c) o.front (widen size b ∷ o.back) o1 (omega arith, o2) in
      let (ox, oy) =
        All-parts (Outside c) (o.x ∷ o.xs) o.ys (subst (All (Outside c)) (sym o.left) wide) in
      let whole : All (Outside c) (us ++ (widen size b ∷ vs)) =
        subst (All (Outside c)) (sym o.split)
          (All-join (Outside c) (o.x ∷ o.xs) (a ∷ o.ys) ox (omega arith, oy)) in
      let (ou, ob, ov) = All-split (Outside c) us (widen size b) vs whole in
      All-join (Outside c) us (b ∷ vs) ou (omega arith, ov)

  list_after :
      (c : ℕ)
      → Outside c (region ptr size)
      → All (Outside c) (us ++ (b ∷ vs))
      → All (Outside c) (o.front ++ (joined_run size a b ∷ o.back))
  list_after c out outs =
      let (ou, ob, ov) = All-split (Outside c) us b vs outs in
      let whole : All (Outside c) (us ++ (widen size b ∷ vs)) =
        All-join (Outside c) us (widen size b ∷ vs) ou (omega arith, ov) in
      let (ox, _, oy) =
        All-split (Outside c) (o.x ∷ o.xs) a o.ys (subst (All (Outside c)) o.split whole) in
      let left : All (Outside c) (o.front ++ (widen size b ∷ o.back)) =
        subst (All (Outside c)) o.left (All-join (Outside c) (o.x ∷ o.xs) o.ys ox oy) in
      let (o1, _, o2) = All-split (Outside c) o.front (widen size b) o.back left in
      All-join (Outside c) o.front (joined_run size a b ∷ o.back) o1 (cover c out outs, o2)

  pub Joined-PageFreed :
      (s s' : State)
      → InUse s.mem ph size (us ++ (b ∷ vs)) ptr
      → Joined s ph size us b vs a o s'
      → PageFreed s ph size (us ++ (b ∷ vs)) ptr s'
  Joined-PageFreed s s' u r = elim r.page [
    | inl (_, page) ↦ record {
      pg = slab ph size (o.front ++ (joined_run size a b ∷ o.back));
      page = page;
      bytes = record {
        at = refl;
        gives = λ c n.
            let (_, out, _) = All-split (Outside c) o.front (joined_run size a b) o.back n.0 in
            (omega arith, (list_before c n.0, n.1));
        only = λ c lo out n. (list_after c out n.0, n.1);
      };
      kept = λ c out n ne. r.kept c (cover c out n.0) n.0 ne;
      heap = r.heap;
      pages = r.pages;
    }
    | inr (full, e8, e12) ↦ record {
      pg = empty ph;
      page = record {
        ne_null = u.slab.ne_null;
        reach = u.slab.reach;
        size_field = e8;
        index = e12;
      };
      bytes =
          empty-Refreed ph size (us ++ (b ∷ vs)) ptr (joined_run size a b) u.slab.runs u.run
            (Between.run-Fits s ph size us b vs a ptr u ends next_to o).run full u.slab.most cover;
      kept = λ c out n ne. r.kept c (cover c out n.0) n.0 ne;
      heap = r.heap;
      pages = r.pages;
    }
  ]
