-- ===== src/Pmm/ServeExamples.antt =====
-- The theorems about `kalloc` of a CPU with pages, and about large blocks, at concrete memories.
use njuoslab_l1_kmalloc_kfre.Base.{
  ℕ, ◌+◌, ◌*◌, ◌≡◌, ◌<◌, inl, refl, List, [], ◌∷◌, arith, ◌==◌, if◌then◌else◌,
}
use njuoslab_l1_kmalloc_kfre.Machine.{State, Fault, stop}
use njuoslab_l1_kmalloc_kfre.Machine.Memory.{Mem, write, write-other}
use njuoslab_l1_kmalloc_kfre.Machine.Returns.{Returns}
use njuoslab_l1_kmalloc_kfre.Pmm.FreeList.{Region, region}
use njuoslab_l1_kmalloc_kfre.Pmm.FreeHeap.{FreeHeap}
use njuoslab_l1_kmalloc_kfre.Pmm.Kalloc.{kalloc}
use njuoslab_l1_kmalloc_kfre.Pmm.Kfree.{kfree, free_block, free_huge}
use njuoslab_l1_kmalloc_kfre.Pmm.Kfree.Push.{InUse}
use njuoslab_l1_kmalloc_kfre.Pmm.Kfree.HeadLost.{HeadLost}
use njuoslab_l1_kmalloc_kfre.Pmm.Kfree.Lost.{free_block-HeadLost}
use njuoslab_l1_kmalloc_kfre.Pmm.Slab.{IsRun}
use njuoslab_l1_kmalloc_kfre.Pmm.Pages.Free.{Freed, kfree-Freed}
use njuoslab_l1_kmalloc_kfre.Pmm.Kfree.HugeInUse.{HugeInUse}
use njuoslab_l1_kmalloc_kfre.Pmm.Kfree.HugePush.{HugePushed, free_huge-HugePushed}
use njuoslab_l1_kmalloc_kfre.Pmm.Kfree.HugeRoundTrip.{
  WritesBlock, Undone, use_huge, use_huge-Undone,
}
use njuoslab_l1_kmalloc_kfre.Pmm.Pages.{Page, slab, empty, Allocator}
use njuoslab_l1_kmalloc_kfre.Pmm.Pages.Serve.{Answered, kalloc-Answered, kalloc-no_first_page}
use njuoslab_l1_kmalloc_kfre.Pmm.Examples.{with_mem}

abbrev heap_region : Region
heap_region = region 0x200000 0x100000

-- CPU 1 has a page of blocks of 8 KiB at 1 MiB, of which the first is in use, and an empty page behind it.
abbrev paged : State
paged = record {
  mem = λ b.
      if b == 0x100000
      then 0x110000
      else if b == 0x100008
      then 8192
      else if b == 0x10000c
      then 2
      else if b == 0x104008
      then 0xc000
      else if b == 0x10400c
      then 1234567
      else if b == 0x11000c
      then 1
      else if b == 0x200008
      then 0x100000
      else 0;
  head = 0x200000;
  heap_lock = 0;
  page_head = λ j. if j == 1 then 0x100000 else 0;
  page_lock = λ _. 0;
}

abbrev two_pages : List Page
two_pages = slab 0x100000 8192 (region 0x104000 0xc000 ∷ []) ∷ empty 0x110000 ∷ []

paged-Allocator : Allocator 1 two_pages (heap_region ∷ []) paged
paged-Allocator = record {
  heap = record { links = (refl, refl, refl); separate = omega arith; unlocked = refl };
  chain = (
    refl,
    record {
      ne_null = omega arith;
      reach = omega arith;
      least = omega arith;
      most = omega arith;
      unit = refl;
      size_field = refl;
      start = (refl, (refl, refl, refl));
      separate = omega arith;
      runs = (
        record {
          first = 2;
          at = refl;
          count = 6;
          long = refl;
          behind_header = omega arith;
          in_page = omega arith;
        },
        tt,
      );
      magics = (refl, tt);
    },
    (
      refl,
      record { ne_null = omega arith; reach = omega arith; size_field = refl; index = refl },
      refl,
    ),
  );
  disjoint = omega arith;
  off_heap = omega arith;
  unlocked = refl;
}

kalloc-Answered_example :
    Returns (Answered 1 5000 two_pages (heap_region ∷ []) paged) (kalloc 4 1 2 5000 paged)
kalloc-Answered_example =
    kalloc-Answered 4 1 2 5000 two_pages (heap_region ∷ []) paged paged-Allocator (omega arith) refl
      (λ none_there small. omega (arith, small)) (omega arith) (omega arith)

-- One free region of 4 KiB, and CPU 0 without a page.
abbrev scarce : State
scarce = with_mem (λ b. if b == 0x100008 then 4096 else 0) 0x100000

scarce-Allocator : Allocator 0 [] (region 0x100000 4096 ∷ []) scarce
scarce-Allocator = record {
  heap = record { links = (refl, refl, refl); separate = omega arith; unlocked = refl };
  chain = refl;
  disjoint = tt;
  off_heap = tt;
  unlocked = refl;
}

kalloc-no_first_page_example : kalloc 2 0 1 100 scarce ≡ stop Fault.assertion
kalloc-no_first_page_example =
    kalloc-no_first_page 2 0 1 100 (region 0x100000 4096 ∷ []) scarce scarce-Allocator (omega arith)
      refl (omega arith) (omega arith)

-- The heap with a large block of 64 KiB in use, far from its free region.
abbrev lonely : State
lonely =
    with_mem
      (λ b.
        if b == 0x200008
        then 0x100000
        else if b == 0x400008
        then 0x10000
        else if b == 0x40000c
        then 7654321
        else 0)
      0x200000

lonely-FreeHeap : FreeHeap (heap_region ∷ []) lonely
lonely-FreeHeap = record { links = (refl, refl, refl); separate = omega arith; unlocked = refl }

lonely-HugeInUse : HugeInUse lonely.mem (heap_region ∷ []) 0x10000 0x400010
lonely-HugeInUse = record {
  block = omega arith;
  apart = omega arith;
  size_field = refl;
  magic_field = refl;
}

free_huge-HugePushed_example :
    Returns
      (λ _. HugePushed lonely 0x10000 (heap_region ∷ []) 0x400010)
      (free_huge 2 0x400010 lonely)
free_huge-HugePushed_example =
    free_huge-HugePushed 2 lonely 0x10000 0x400010 (heap_region ∷ []) lonely-FreeHeap
      lonely-HugeInUse (omega arith) (omega arith) (omega arith) (omega arith)

-- A client that writes one byte of its block.
abbrev scribble : ℕ → State → State
scribble p t = record t { mem = write t.mem (p + 100) 42 }

scribble-WritesBlock : (p : ℕ) (t : State) → WritesBlock 0x40000 p t (scribble p t)
scribble-WritesBlock p t = record {
  mem = λ a o. write-other t.mem (p + 100) 42 a (omega arith);
  head = refl;
  heap_lock = refl;
  pages = record { heads = refl; locks = refl };
}

use_huge-Undone_example :
    Returns (λ _. Undone lonely (heap_region ∷ [])) (use_huge 2 0x40000 scribble lonely)
use_huge-Undone_example =
    use_huge-Undone 2 lonely 0x40000 (heap_region ∷ []) scribble lonely-FreeHeap refl (omega arith)
      (omega arith) scribble-WritesBlock (omega arith)

-- The block of CPU 1 that is in use.
paged-InUse : InUse paged.mem 0x100000 8192 (region 0x104000 0xc000 ∷ []) 0x102000
paged-InUse = record {
  slab = paged-Allocator.chain.1;
  run = record {
    first = 1;
    at = refl;
    count = 1;
    long = refl;
    behind_header = omega arith;
    in_page = omega arith;
  };
  block = omega arith;
  apart = omega arith;
}

kfree-Freed_example :
    Returns
      (λ _.
        Freed 0 1 [] 0x100000 8192
          (region 0x104000 0xc000 ∷ [])
          (empty 0x110000 ∷ [])
          (heap_region ∷ [])
          paged
          0x102000)
      (kfree 4 0 2 0x102000 paged)
kfree-Freed_example =
    kfree-Freed 4 0 1 0 0x102000 (λ _. []) [] 0x100000 8192 (region 0x104000 0xc000) []
      (empty 0x110000 ∷ []) (heap_region ∷ []) paged paged-Allocator paged-InUse
      (refl, tt, omega arith, tt) refl (inl (omega arith)) (omega arith) (omega arith)

-- The page with the third, the fifth and the first block free, in this order.
abbrev scattered_mem : Mem
scattered_mem b =
    if b == 0x100008
    then 8192
    else if b == 0x10000c
    then 3
    else if b == 0x106000
    then 0x10a000
    else if b == 0x106008
    then 8192
    else if b == 0x10600c
    then 1234567
    else if b == 0x10a000
    then 0x102000
    else if b == 0x10a008
    then 8192
    else if b == 0x10a00c
    then 1234567
    else if b == 0x102008
    then 8192
    else if b == 0x10200c
    then 1234567
    else 0

abbrev block_at : ℕ → Region
block_at k = region (0x100000 + k * 8192) 8192

block-IsRun : (k : ℕ) → 0 < k → k < 8 → IsRun 0x100000 8192 (block_at k)
block-IsRun k lo hi = record {
  first = k;
  at = refl;
  count = 1;
  long = refl;
  behind_header = omega arith;
  in_page = omega arith;
}

scattered-InUse :
    InUse scattered_mem 0x100000 8192 (block_at 3 ∷ block_at 5 ∷ block_at 1 ∷ []) 0x104000
scattered-InUse = record {
  slab = record {
    ne_null = omega arith;
    reach = omega arith;
    least = omega arith;
    most = omega arith;
    unit = refl;
    size_field = refl;
    start = (refl, (refl, refl, (refl, refl, (refl, refl, refl))));
    separate = omega arith;
    runs = (
      block-IsRun 3 (omega arith) (omega arith),
      (block-IsRun 5 (omega arith) (omega arith), (block-IsRun 1 (omega arith) (omega arith), tt)),
    );
    magics = (refl, (refl, (refl, tt)));
  };
  run = block-IsRun 2 (omega arith) (omega arith);
  block = omega arith;
  apart = omega arith;
}

free_block-HeadLost_example :
    Returns
      (λ _.
        HeadLost
          (with_mem scattered_mem 0)
          0x100000
          8192
          (block_at 3)
          (block_at 5 ∷ [])
          (block_at 1)
          [])
      (free_block 4 0x100000 0x104000 (with_mem scattered_mem 0))
free_block-HeadLost_example =
    free_block-HeadLost 4 (with_mem scattered_mem 0) 0x100000 8192 (block_at 3) (block_at 5 ∷ [])
      (block_at 1) [] 0x104000 scattered-InUse refl refl (omega arith)
