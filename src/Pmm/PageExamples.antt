-- ===== src/Pmm/PageExamples.antt =====
-- The theorems about the blocks of a page at concrete memories.
use njuoslab_l1_kmalloc_kfre.Base.{◌*◌, ◌≡◌, refl, [], ◌∷◌, arith, ◌==◌, if◌then◌else◌}
use njuoslab_l1_kmalloc_kfre.Machine.Memory.{Mem}
use njuoslab_l1_kmalloc_kfre.Machine.Returns.{Returns}
use njuoslab_l1_kmalloc_kfre.Pmm.FreeList.{region}
use njuoslab_l1_kmalloc_kfre.Pmm.Kalloc.{take_block}
use njuoslab_l1_kmalloc_kfre.Pmm.Slab.{IsSlab}
use njuoslab_l1_kmalloc_kfre.Pmm.Slab.Take.{BlockTaken, take_block_lem}
use njuoslab_l1_kmalloc_kfre.Pmm.Slab.{IsRun}
use njuoslab_l1_kmalloc_kfre.Pmm.Kfree.{free_block}
use njuoslab_l1_kmalloc_kfre.Pmm.Kfree.Push.{InUse}
use njuoslab_l1_kmalloc_kfre.Pmm.Kfree.Behind.{MergedAfter}
use njuoslab_l1_kmalloc_kfre.Pmm.Kfree.Coalesce.{free_block_coalesce}
use njuoslab_l1_kmalloc_kfre.Pmm.Kfree.RoundTrip.{Restored, take_block-free_block}
use njuoslab_l1_kmalloc_kfre.Pmm.Kfree.Full.{free_block_full_page}
use njuoslab_l1_kmalloc_kfre.Base.{◌*◌}
use njuoslab_l1_kmalloc_kfre.Machine.{and_then}
use njuoslab_l1_kmalloc_kfre.Pmm.Examples.{with_mem}

-- A page at 1 MiB of blocks of 8 KiB, of which the second is in use.
abbrev slab_mem : Mem
slab_mem b =
    if b == 0x100008
    then 8192
    else if b == 0x10000c
    then 2
    else if b == 0x104008
    then 0xc000
    else if b == 0x10400c
    then 1234567
    else 0

slab_mem-IsSlab : IsSlab slab_mem 0x100000 8192 (region 0x104000 0xc000 ∷ [])
slab_mem-IsSlab = record {
  ne_null = omega arith;
  reach = omega arith;
  least = omega arith;
  most = omega arith;
  unit = refl;
  size_field = refl;
  start = (refl, (refl, refl, refl));
  separate = omega arith;
  runs = (
    record {
      first = 2;
      at = refl;
      count = 6;
      long = refl;
      behind_header = omega arith;
      in_page = omega arith;
    },
    tt,
  );
  magics = (refl, tt);
}

take_block_lem_example :
    Returns
      (BlockTaken (with_mem slab_mem 0) 0 0x100000 8192 (region 0x104000 0xc000) [])
      (take_block 0 8192 0x100000 (with_mem slab_mem 0))
take_block_lem_example =
    take_block_lem (with_mem slab_mem 0) 0 0x100000 8192 (region 0x104000 0xc000) [] slab_mem-IsSlab

-- The same page after the first block of that run has been given away: two blocks are in use.
abbrev used_mem : Mem
used_mem b =
    if b == 0x100008
    then 8192
    else if b == 0x10000c
    then 3
    else if b == 0x106008
    then 0xa000
    else if b == 0x10600c
    then 1234567
    else 0

used-IsRun : IsRun 0x100000 8192 (region 0x106000 0xa000)
used-IsRun = record {
  first = 3;
  at = refl;
  count = 5;
  long = refl;
  behind_header = omega arith;
  in_page = omega arith;
}

used_mem-IsSlab : IsSlab used_mem 0x100000 8192 (region 0x106000 0xa000 ∷ [])
used_mem-IsSlab = record {
  ne_null = omega arith;
  reach = omega arith;
  least = omega arith;
  most = omega arith;
  unit = refl;
  size_field = refl;
  start = (refl, (refl, refl, refl));
  separate = omega arith;
  runs = (used-IsRun, tt);
  magics = (refl, tt);
}

second_block-InUse : InUse used_mem 0x100000 8192 (region 0x106000 0xa000 ∷ []) 0x104000
second_block-InUse = record {
  slab = used_mem-IsSlab;
  run = record {
    first = 2;
    at = refl;
    count = 1;
    long = refl;
    behind_header = omega arith;
    in_page = omega arith;
  };
  block = omega arith;
  apart = omega arith;
}

free_block_coalesce_example :
    Returns
      (λ _. MergedAfter (with_mem used_mem 0) 0x100000 8192 [] (region 0x106000 0xa000) [] 0x104000)
      (free_block 2 0x100000 0x104000 (with_mem used_mem 0))
free_block_coalesce_example =
    free_block_coalesce 2 (with_mem used_mem 0) 0x100000 8192 [] (region 0x106000 0xa000) []
      0x104000 second_block-InUse refl (omega arith) (omega arith)

take_block-free_block_example :
    Returns
      (λ _. Restored 0x100000 8192 (region 0x104000 0xc000) [])
      (and_then (take_block 0 8192 0x100000 (with_mem slab_mem 0)) (free_block 2 0x100000))
take_block-free_block_example =
    take_block-free_block 2 (with_mem slab_mem 0) 0 0x100000 8192 (region 0x104000 0xc000) []
      slab_mem-IsSlab (omega arith) tt (omega arith)

-- A full page of blocks of 8 KiB.
abbrev full_mem : Mem
full_mem b = if b == 0x100008 then 8192 else 0

full_mem-IsSlab : IsSlab full_mem 0x100000 8192 []
full_mem-IsSlab = record {
  ne_null = omega arith;
  reach = omega arith;
  least = omega arith;
  most = omega arith;
  unit = refl;
  size_field = refl;
  start = refl;
  separate = tt;
  runs = tt;
  magics = tt;
}

free_block_full_page_example :
    Returns
      (λ _ s'. (s'.mem 0x100008 ≡ 2 * 8192) × (s'.mem 0x10000c ≡ 0))
      (free_block 2 0x100000 0x102000 (with_mem full_mem 0))
free_block_full_page_example =
    free_block_full_page 0 (with_mem full_mem 0) 0x100000 8192 full_mem-IsSlab refl (omega arith)
