-- ===== src/Pmm/Slab/Index.antt =====
-- Block numbers: the address of a block divided by the size of the blocks, and back.
use njuoslab_l1_kmalloc_kfre.Base.{
  ℕ, suc, ◌+◌, ◌*◌, ◌/◌, ◌%◌, ◌^◌, ◌≤◌, ◌<◌, ◌≡◌, arith, ap, ◌∙◌, true, ltb, lt→ltb,
}
use njuoslab_l1_kmalloc_kfre.Base.Words.{u32, sub64}
use native.Mathlib.Nat.{mul-div_cancel, le-div_iff_mul-le}
use njuoslab_l1_kmalloc_kfre.Pmm.PageAlloc.{page_size}
use njuoslab_l1_kmalloc_kfre.Pmm.Kalloc.{block_at}

-- A block whose end is an address stands where its number says.
pub block_at-eq :
    (ph index size a : ℕ) → ph + index * size ≡ a → a < 2 ^ 64 → block_at ph index size ≡ a
block_at-eq ph index size a e lt = omega arith

module _ (ph size k : ℕ) (least : 32 ≤ size) where
  pub number-small : k * size < page_size → k < 2048
  number-small h = grind arith

  -- What `(node - ph) / size` stores for the block number `k`.
  pub number_of :
      (node : ℕ)
      → node ≡ ph + k * size
      → node < ph + page_size
      → ph + page_size ≤ 2 ^ 63
      → u32 (sub64 node ph / size) ≡ k
  number_of node at lt reach =
      let d : sub64 node ph ≡ k * size = omega arith in
      let q : sub64 node ph / size ≡ k =
        ap (λ (t : ℕ). t / size) d ∙ mul-div_cancel k (omega arith) in
      ap (λ (t : ℕ). t % 2 ^ 32) q ∙ omega (arith, number-small (omega arith))

  -- A block that lies in the page has a number below `64 * 1024 / size`.
  pub number-in_page : k * size + size ≤ page_size → ltb k (page_size / size) ≡ true
  number-in_page h =
      let e : suc k * size ≡ k * size + size = omega arith in
      lt→ltb k (page_size / size)
        ((le-div_iff_mul-le {k = size} {x = suc k} {y = page_size} (omega arith)).1 (omega arith))
