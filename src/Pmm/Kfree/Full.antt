-- ===== src/Pmm/Kfree/Full.antt =====
-- `kfree` of a block of a full page. `pagefreehead_index` is 0 there, so that the walk over the free
-- list begins at the page's own header.
use njuoslab_l1_kmalloc_kfre.Base.{ℕ, suc, ◌+◌, ◌*◌, ◌<◌, ◌≡◌, ◌≢◌, [], arith, ◌∙◌, ne→==, eq→==}
use njuoslab_l1_kmalloc_kfre.Base.Words.{add64, sub32, sext-small, u32}
use njuoslab_l1_kmalloc_kfre.Machine.{State, ok, zero_range}
use njuoslab_l1_kmalloc_kfre.Machine.Memory.{write, clear, clear-outside, write-same, write-other}
use njuoslab_l1_kmalloc_kfre.Machine.Fields.{get_size-ok, get_next-ok, set_size-ok}
use njuoslab_l1_kmalloc_kfre.Machine.Returns.{Returns, returns}
use njuoslab_l1_kmalloc_kfre.Pmm.PageAlloc.{page_size}
use njuoslab_l1_kmalloc_kfre.Pmm.Kfree.{free_block, merge_before, mark_empty, neighbours}
use njuoslab_l1_kmalloc_kfre.Pmm.Kfree.Push.{first_free-at}
use njuoslab_l1_kmalloc_kfre.Pmm.Slab.{IsSlab}

module _ (fuel : ℕ) (s : State) (ph size : ℕ) (slab : IsSlab s.mem ph size [])
    (last : s.mem ph ≡ 0) where
  abbrev ptr : ℕ
  ptr = ph + size

  abbrev cleared : State
  cleared = record s { mem = clear s.mem ptr size }

  abbrev doubled : State
  doubled = record cleared { mem = write cleared.mem (ph + 8) (size + size) }

  header_kept : (b : ℕ) → b < ptr → cleared.mem b ≡ s.mem b
  header_kept b h = clear-outside s.mem ptr size b (omega arith)

  header_found : neighbours (suc (suc fuel)) ptr 0 0 ph cleared ≡ ok (0, ph) cleared
  unfolding neighbours
  header_found =
      rw
        (
          ne→== ph 0 (omega (arith, slab.ne_null)),
          get_next-ok ph cleared slab.ne_null,
          header_kept ph (omega (arith, slab.least)) ∙ last,
        )
        (ground (arith, slab.ne_null, slab.least))

  free_first_block : size < 16384 → free_block (suc (suc fuel)) ph ptr s ≡ ok tt doubled
  unfolding free_block merge_before mark_empty zero_range
  free_first_block small =
      let pos = slab.ne_null in
      let least = slab.least in
      let reach = slab.reach in
      let field : cleared.mem (ph + 8) ≡ size =
        header_kept (ph + 8) (omega arith) ∙ slab.size_field in
      let index : cleared.mem (ph + 12) ≡ 0 = header_kept (ph + 12) (omega arith) ∙ slab.start in
      let same = sext-small size (omega arith) in
      let field' : doubled.mem (ph + 8) ≡ size + size =
        write-same cleared.mem (ph + 8) (size + size) in
      let word : u32 (size + size) ≡ size + size = omega arith in
      let joins : add64 ph size ≡ ptr = omega arith in
      let not_null : add64 ptr (size + size) ≢ 0 = omega arith in
      let not_empty : size + size ≢ sub32 page_size (size + size) = omega arith in
      rw (
        get_size-ok ph s pos,
        slab.size_field,
        same,
        first_free-at cleared ph size 0 ph pos reach field index (omega arith) (omega arith),
        header_found,
        ne→== ph 0 (omega arith),
        get_size-ok ph cleared pos,
        field,
        same,
        eq→== (add64 ph size) ptr joins,
        get_size-ok ph cleared pos,
        get_size-ok ph cleared pos,
        field,
        get_size-ok ph cleared pos,
        field,
        set_size-ok ph cleared pos (size + size),
        word,
        get_size-ok ph doubled pos,
        field',
        sext-small (size + size) (omega arith),
        ne→== (add64 ptr (size + size)) 0 not_null,
        get_size-ok ph doubled pos,
        get_size-ok ph doubled pos,
        field',
        ne→== (size + size) (sub32 page_size (size + size)) not_empty,
      )

-- The first block behind the header is freed in a full page of blocks of less than 16 KiB, which is
-- the last page of its list: no node is made for the block, the page's index stays 0, and the size
-- in the page's header becomes twice the size of its blocks.
pub free_block_full_page :
    (fuel : ℕ) (s : State) (ph size : ℕ)
    → IsSlab s.mem ph size []
    → s.mem ph ≡ 0
    → size < 16384
    → Returns
        (λ _ s'. (s'.mem (ph + 8) ≡ 2 * size) × (s'.mem (ph + 12) ≡ 0))
        (free_block (suc (suc fuel)) ph (ph + size) s)
free_block_full_page fuel s ph size slab last small =
    rw (free_first_block fuel s ph size slab last small) (
      returns (
        write-same (cleared fuel s ph size slab last).mem (ph + 8) (size + size) ∙ omega arith,
        write-other (cleared fuel s ph size slab last).mem (ph + 8) (size + size) (ph + 12)
              (omega arith)
            ∙ header_kept fuel s ph size slab last (ph + 12) (omega (arith, slab.least))
            ∙ slab.start,
      ))
