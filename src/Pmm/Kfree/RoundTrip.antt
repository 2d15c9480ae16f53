-- ===== src/Pmm/Kfree/RoundTrip.antt =====
-- `kfree` undoes the fast path of `kalloc`.
use njuoslab_l1_kmalloc_kfre.Base.{
  ℕ, ◌+◌, ◌-◌, ◌<◌, ◌≡◌, ◌≢◌, ◌⊎◌, inl, inr, refl, List, [], ◌∷◌, arith, All, length, sym, ap,
  ne→==,
}
use mathlib.Core.Path.{subst}
use njuoslab_l1_kmalloc_kfre.Machine.{State, and_then}
use njuoslab_l1_kmalloc_kfre.Machine.Memory.{Mem}
use njuoslab_l1_kmalloc_kfre.Machine.Returns
use njuoslab_l1_kmalloc_kfre.Machine.Returns.{Returns}
use njuoslab_l1_kmalloc_kfre.Pmm.FreeList.{Region, region, Apart}
use njuoslab_l1_kmalloc_kfre.Pmm.FreeList.Splice.{All-map}
use njuoslab_l1_kmalloc_kfre.Pmm.PageAlloc.{page_size}
use njuoslab_l1_kmalloc_kfre.Pmm.Kalloc.{take_block}
use njuoslab_l1_kmalloc_kfre.Pmm.Kfree.{free_block}
use njuoslab_l1_kmalloc_kfre.Pmm.Kfree.Cleared.{EndsElsewhere}
use njuoslab_l1_kmalloc_kfre.Pmm.Kfree.Push.{InUse}
use njuoslab_l1_kmalloc_kfre.Pmm.Kfree.Merged.{merge_of}
use njuoslab_l1_kmalloc_kfre.Pmm.Kfree.Coalesce.{free_block_coalesce}
use njuoslab_l1_kmalloc_kfre.Pmm.Slab.{IsSlab}
use njuoslab_l1_kmalloc_kfre.Pmm.Slab.After.{rest_block, run-le, run-two}
use njuoslab_l1_kmalloc_kfre.Pmm.Slab.Take.{rest_blocks, take_block_lem}

-- The page as it was, or marked as empty where all of its blocks are free again.
abbrev pub Restored : (ph size : ℕ) → Region → List Region → State → Type 0
Restored ph size g gs s' =
    ((g.size ≢ page_size - size) × IsSlab s'.mem ph size (g ∷ gs))
    ⊎ ((g.size ≡ page_size - size) × (s'.mem (ph + 8) ≡ 0) × (s'.mem (ph + 12) ≡ 1))

module _ (s : State) (ph size : ℕ) (g : Region) (gs : List Region)
    (slab : IsSlab s.mem ph size (g ∷ gs)) (more : g.size ≢ size) where
  -- The block that the fast path returns is in use.
  taken-InUse :
      (m : Mem)
      → IsSlab m ph size (rest_blocks size g gs)
      → InUse m ph size (rest_block size g ∷ gs) g.addr
  taken-InUse m after =
      let (v, apart, _) = slab.separate in
      let r = slab.runs.0 in
      let two = run-two g v r more in
      record {
        slab = rw (ne→== g.size size more) at after;
        run = record {
          first = r.first;
          at = r.at;
          count = 1;
          long = omega arith;
          behind_header = r.behind_header;
          in_page = omega (arith, r.in_page);
        };
        block = omega (arith, v, slab.least, slab.unit, slab.most);
        apart = (
          omega arith,
          All-map (Apart g) (Apart (region g.addr size)) gs (λ k o. omega arith) apart,
        );
      }

  merged-same : merge_of g.addr size (rest_block size g) ≡ g
  merged-same =
      let le = run-le g slab.separate.0 slab.runs.0 in ap (λ (n : ℕ). region g.addr n) (omega arith)

  restored :
      (s' : State)
      → ((size + (g.size - size) ≢ page_size - size)
          × IsSlab s'.mem ph size (merge_of g.addr size (rest_block size g) ∷ gs))
        ⊎ ((size + (g.size - size) ≡ page_size - size)
            × (s'.mem (ph + 8) ≡ 0)
            × (s'.mem (ph + 12) ≡ 1))
      → Restored ph size g gs s'
  restored s' (inl (ne, page)) =
      let le = run-le g slab.separate.0 slab.runs.0 in
      inl (omega (arith, ne), subst (λ k. IsSlab s'.mem ph size (k ∷ gs)) merged-same page)
  restored s' (inr (e, m8, m12)) =
      let le = run-le g slab.separate.0 slab.runs.0 in inr (omega (arith, e), m8, m12)

-- On a well-formed page whose first free run is more than one block, and where no other free run
-- ends at it, the fast path of `kalloc` followed by `kfree` of the block that it returns, with fuel
-- for one more round than the free list has nodes, returns and restores the page's free list; a page
-- whose blocks are all free is marked as empty instead.
pub take_block-free_block :
    (fuel : ℕ) (s : State) (i ph size : ℕ) (g : Region) (gs : List Region)
    → IsSlab s.mem ph size (g ∷ gs)
    → g.size ≢ size
    → All (EndsElsewhere g.addr) gs
    → length (g ∷ gs) < fuel
    → Returns (λ _. Restored ph size g gs) (and_then (take_block i size ph s) (free_block fuel ph))
take_block-free_block fuel s i ph size g gs slab more far enough =
    let (v, apart, _) = slab.separate in
    let two = run-two g v slab.runs.0 more in
    Returns.bind (take_block_lem s i ph size g gs slab) λ p t taken.
      subst (λ q. Returns (λ _. Restored ph size g gs) (free_block fuel ph q t)) (sym taken.address)
        (Returns.mono
          (free_block_coalesce fuel t ph size [] (rest_block size g) gs g.addr
            (taken-InUse s ph size g gs slab more t.mem taken.slab) refl
            (omega (arith, slab.least), far) (omega arith))
          λ _ s' r. restored s ph size g gs slab more s' r.page)
