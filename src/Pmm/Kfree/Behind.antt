-- ===== src/Pmm/Kfree/Behind.antt =====
-- `kfree` of a block with a free run behind it and none that ends at it.
use njuoslab_l1_kmalloc_kfre.Base.{
  ℕ, zero, suc, ◌+◌, ◌-◌, ◌*◌, ◌≤◌, ◌<◌, ◌≡◌, ◌≢◌, ◌⊎◌, inl, inr, refl, List, [], ◌∷◌, ◌++◌, arith,
  All, length, ap, sym, ◌∙◌, ◌==◌, ne→==, eq→==, if◌then◌else◌, Bool-cases,
}
use native.Mathlib.Decide.{ℕ_discrete}
use njuoslab_l1_kmalloc_kfre.Base.Words.{sub32}
use njuoslab_l1_kmalloc_kfre.Machine.{State, ok}
use njuoslab_l1_kmalloc_kfre.Machine.Memory.{write, write-same, write-other}
use njuoslab_l1_kmalloc_kfre.Machine.Fields.{get_size-ok, set_size-ok}
use njuoslab_l1_kmalloc_kfre.Machine.Returns.{Returns, returns}
use njuoslab_l1_kmalloc_kfre.Pmm.FreeList.{
  Region, region, IsRegion, Outside, last_addr, Separate-IsRegion,
}
use njuoslab_l1_kmalloc_kfre.Pmm.FreeList.Splice.{All-split, All-join, last-from}
use njuoslab_l1_kmalloc_kfre.Pmm.PageAlloc.{page_size}
use njuoslab_l1_kmalloc_kfre.Pmm.Kfree.{mark_empty, merge_after}
use njuoslab_l1_kmalloc_kfre.Pmm.Kfree.Push.{InUse, kept-HasMagic}
use njuoslab_l1_kmalloc_kfre.Pmm.Kfree.Merged
use njuoslab_l1_kmalloc_kfre.Pmm.Kfree.Merged.{merge_of, OnGrid, runs-OnGrid, link-HasMagic}
use njuoslab_l1_kmalloc_kfre.Pmm.Kfree.MergeAfter
use njuoslab_l1_kmalloc_kfre.Pmm.Slab
use njuoslab_l1_kmalloc_kfre.Pmm.Slab.{IsRun, IsSlab}

-- The page after the merge: it has the merged run as the first of its list, or it has been marked as
-- empty, with all of its blocks in that run.
abbrev pub Page : (ph size ptr : ℕ) → List Region → Region → List Region → State → Type 0
Page ph size ptr xs a ys s' =
    ((size + a.size ≢ page_size - size) × IsSlab s'.mem ph size (merge_of ptr size a ∷ (xs ++ ys)))
    ⊎ ((size + a.size ≡ page_size - size) × (s'.mem (ph + 8) ≡ 0) × (s'.mem (ph + 12) ≡ 1))

pub record MergedAfter (s : State) (ph size : ℕ) (xs : List Region) (a : Region) (ys : List Region)
    (ptr : ℕ) (s' : State) : Type 0 where
  pub page : Page ph size ptr xs a ys s'
  pub kept :
      (b : ℕ)
      → Outside b (region ptr size)
      → All (Outside b) (xs ++ (a ∷ ys))
      → b ≢ ph + 8
      → b ≢ ph + 12
      → s'.mem b ≡ s.mem b
  pub heap : (s'.head ≡ s.head) × (s'.heap_lock ≡ s.heap_lock)
  pub pages : (s'.page_head ≡ s.page_head) × (s'.page_lock ≡ s.page_lock)

pub factor-one : (k n : ℕ) → 0 < n → k * n ≡ n → k ≡ 1
factor-one zero n pos e = absurd (omega arith)
factor-one (suc zero) n pos e = refl
factor-one (suc (suc k)) n pos e = absurd (omega arith)

pub mark_empty-eq :
    (t : State) (ph node have size : ℕ)
    → 0 < ph
    → 0 < node
    → t.mem (node + 8) ≡ have
    → t.mem (ph + 8) ≡ size
    → size ≤ page_size
    → mark_empty ph node t
      ≡ ok tt (if have == (page_size - size) then record t { mem = write t.mem (ph + 8) 0 } else t)
unfolding mark_empty
mark_empty-eq t ph node have size pos ne e f le =
    let w : sub32 page_size size ≡ page_size - size = omega arith in
    elim (Bool-cases (have == (page_size - size))) [
      | inl full ↦
          rw (get_size-ok node t ne, e, get_size-ok ph t pos, f, w, full, set_size-ok ph t pos 0)
      | inr some_used ↦ rw (get_size-ok node t ne, e, get_size-ok ph t pos, f, w, some_used)
    ]

pub Outside-addrs :
    (b : ℕ) (gs : List Region) → All IsRegion gs → All (Outside b) gs → All (λ g. b ≢ g.addr) gs
Outside-addrs b [] v o = tt
Outside-addrs b (g ∷ gs) (v, vs) (o, os) = (omega (arith, v.room), Outside-addrs b gs vs os)

module _ (s : State) (ph size : ℕ) (xs : List Region) (a : Region) (ys : List Region) (ptr : ℕ)
    (u : InUse s.mem ph size (xs ++ (a ∷ ys)) ptr) (next_to : a.addr ≡ ptr + size) where
  abbrev joined : State
  joined = MergeAfter.joined s ph size xs a ys ptr u next_to

  abbrev unlinked : State
  unlinked = MergeAfter.unlinked s ph size xs a ys ptr u next_to

  abbrev last : ℕ
  last = last_addr ptr xs

  on_grid : OnGrid ph last
  on_grid = Merged.pred-OnGrid s.mem ph size xs a ys ptr u next_to

  relink_keeps : (b : ℕ) → b ≢ last → unlinked.mem b ≡ joined.mem b
  relink_keeps b ne = write-other joined.mem last (joined.mem a.addr) b ne

  ptr-OnGrid : OnGrid ph ptr
  ptr-OnGrid = Merged.run-OnGrid (region ptr size) u.slab.least u.slab.unit u.run

  unlinked-IsSlab : IsSlab unlinked.mem ph size (merge_of ptr size a ∷ (xs ++ ys))
  unlinked-IsSlab =
      let (next, field, magic, index, size_field) =
        MergeAfter.joined_fields s ph size xs a ys ptr u next_to in
      let (gx, _, gy) = All-split (IsRun ph size) xs a ys u.slab.runs in
      let magics =
        kept-HasMagic s.mem joined.mem ph size (xs ++ (a ∷ ys)) ptr u
          (MergeAfter.joined-Touches s ph size xs a ys ptr u next_to) in
      let (mx, _, my) = All-split (Slab.HasMagic joined.mem) xs a ys magics in
      let runs = All-join (IsRun ph size) xs ys gx gy in
      let index' : unlinked.mem (ph + 12) ≡ u.run.first =
        relink_keeps (ph + 12) (omega (arith, on_grid)) ∙ index in
      record {
        ne_null = u.slab.ne_null;
        reach = u.slab.reach;
        least = u.slab.least;
        most = u.slab.most;
        unit = u.slab.unit;
        size_field = relink_keeps (ph + 8) (omega (arith, on_grid)) ∙ size_field;
        start = (
          ap (λ (t : ℕ). ph + t * size) index' ∙ sym u.run.at,
          Merged.unlinked-Links s.mem ph size xs a ys ptr u next_to joined.mem
              (MergeAfter.begins s ph size xs a ys ptr u next_to).first
              (MergeAfter.joined-Links s ph size xs a ys ptr u next_to) next field,
        );
        separate = Merged.merged-Separate s.mem ph size xs a ys ptr u next_to;
        runs = (Merged.merged-IsRun s.mem ph size xs a ys ptr u next_to, runs);
        magics = (
          relink_keeps (ptr + 12) (omega (arith, on_grid, ptr-OnGrid)) ∙ magic,
          link-HasMagic joined.mem ph last (joined.mem a.addr) (xs ++ ys) on_grid
              (runs-OnGrid ph size (xs ++ ys) u.slab.least u.slab.unit runs)
              (All-join (Slab.HasMagic joined.mem) xs ys mx my),
        );
      }

  unlinked-kept :
      (b : ℕ)
      → Outside b (region ptr size)
      → All (Outside b) (xs ++ (a ∷ ys))
      → b ≢ ph + 12
      → unlinked.mem b ≡ s.mem b
  unlinked-kept b o os ne =
      let p = Merged.parts s.mem ph size xs a ys ptr u next_to in
      let (ox, _, _) = All-split (Outside b) xs a ys os in
      let far : b ≢ last =
        last-from (λ t. b ≢ t) ptr xs (omega (arith, u.block.room))
          (Outside-addrs b xs (Separate-IsRegion xs p.front) ox) in
      relink_keeps b far ∙ MergeAfter.joined-Touches s ph size xs a ys ptr u next_to b o ne

  pub merge_after-MergedAfter :
      (fuel : ℕ)
      → length (xs ++ (a ∷ ys)) < fuel
      → Returns (λ _. MergedAfter s ph size xs a ys ptr) (merge_after fuel ph ptr a.addr s)
  merge_after-MergedAfter fuel enough =
      let slab = unlinked-IsSlab in
      let (_, field, _, index, _) = MergeAfter.joined_fields s ph size xs a ys ptr u next_to in
      let field' : unlinked.mem (ptr + 8) ≡ size + a.size =
        relink_keeps (ptr + 8) (omega (arith, on_grid, ptr-OnGrid)) ∙ field in
      let index' : unlinked.mem (ph + 12) ≡ u.run.first =
        relink_keeps (ph + 12) (omega (arith, on_grid)) ∙ index in
      let marked =
        mark_empty-eq unlinked ph ptr (size + a.size) size u.slab.ne_null u.block.ne_null field'
          slab.size_field (omega (arith, u.slab.most)) in
      let r = u.run in
      rw (MergeAfter.merge_after-unlinked s ph size xs a ys ptr u next_to fuel enough, marked)
        (elim (ℕ_discrete (size + a.size) (page_size - size)) [
          | yes full ↦
              let only : r.first ≡ 1 =
                factor-one r.first size (omega (arith, u.slab.least))
                  (omega (arith, r.at, r.behind_header, full, slab.runs.0.in_page, u.slab.most)) in
              rw (eq→== (size + a.size) (page_size - size) full) (
                returns (record {
                  page = inr (
                    full,
                    write-same unlinked.mem (ph + 8) 0,
                    write-other unlinked.mem (ph + 8) 0 (ph + 12) (omega arith) ∙ index' ∙ only,
                  );
                  kept = λ b o os ne8 ne12.
                      write-other unlinked.mem (ph + 8) 0 b ne8 ∙ unlinked-kept b o os ne12;
                  heap = (refl, refl);
                  pages = (refl, refl);
                }))
          | no some_used ↦ rw (ne→== (size + a.size) (page_size - size) some_used) (
              returns (record {
                page = inl (some_used, slab);
                kept = λ b o os _ ne12. unlinked-kept b o os ne12;
                heap = (refl, refl);
                pages = (refl, refl);
              }))
        ])
