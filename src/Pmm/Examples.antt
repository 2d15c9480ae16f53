-- ===== src/Pmm/Examples.antt =====
-- The theorems about the free regions of the heap, the sizes and the start at concrete memories.
use njuoslab_l1_kmalloc_kfre.Base.{
  ℕ, ◌*◌, ◌^◌, ◌≤◌, ◌<◌, ◌≡◌, refl, some, List, [], ◌∷◌, arith, ◌==◌, if◌then◌else◌,
}
use njuoslab_l1_kmalloc_kfre.Machine.{State}
use njuoslab_l1_kmalloc_kfre.Machine.Memory.{Mem}
use njuoslab_l1_kmalloc_kfre.Machine.Returns.{Returns}
use njuoslab_l1_kmalloc_kfre.Pmm.FreeList.{Region, region, Links}
use njuoslab_l1_kmalloc_kfre.Pmm.FreeHeap.{FreeHeap}
use njuoslab_l1_kmalloc_kfre.Pmm.PageAlloc.{allockpage}
use njuoslab_l1_kmalloc_kfre.Pmm.PageAlloc.FirstFit.{first_fit}
use njuoslab_l1_kmalloc_kfre.Pmm.PageAlloc.Refinement
use njuoslab_l1_kmalloc_kfre.Pmm.PageAlloc.Spec.{Conserved, allockpage-Conserved}
use njuoslab_l1_kmalloc_kfre.Pmm.Huge.{kalloc_huge_memory}
use njuoslab_l1_kmalloc_kfre.Pmm.Huge.Refinement as HugeRefinement
use njuoslab_l1_kmalloc_kfre.Pmm.Huge.Overlap.{kalloc_huge_memory_overlap}
use njuoslab_l1_kmalloc_kfre.Pmm.SizeClass.{powval_of}
use njuoslab_l1_kmalloc_kfre.Pmm.SizeClass.Bounds.{powval_of-Rounded}
use njuoslab_l1_kmalloc_kfre.Pmm.Init.{pmm_init}
use njuoslab_l1_kmalloc_kfre.Pmm.Init.Laws.{Started, pmm_init-Started}
use njuoslab_l1_kmalloc_kfre.Base.{◌*◌}

abbrev pub with_mem : Mem → ℕ → State
with_mem m head = record {
  mem = m;
  head = head;
  heap_lock = 0;
  page_head = λ _. 0;
  page_lock = λ _. 0;
}

-- Two free regions, the first too small for a page.
abbrev small_region : Region
small_region = region 0x100000 4096

abbrev large_region : Region
large_region = region 0x200000 0x100000

abbrev two_regions : List Region
two_regions = small_region ∷ large_region ∷ []

abbrev two_nodes : Mem
two_nodes b =
    if b == 0x100000
    then 0x200000
    else if b == 0x100008
    then 4096
    else if b == 0x200008
    then 0x100000
    else 0

two_regions-FreeHeap : FreeHeap two_regions (with_mem two_nodes 0x100000)
two_regions-FreeHeap = record {
  links = (refl, refl, (refl, refl, refl));
  separate = omega arith;
  unlocked = refl;
}

allockpage-first_fit_example :
    Returns
      (Refinement.Outcome (with_mem two_nodes 0x100000) two_regions (first_fit two_regions))
      (allockpage 3 (with_mem two_nodes 0x100000))
allockpage-first_fit_example =
    Refinement.allockpage-first_fit 3 (with_mem two_nodes 0x100000) two_regions two_regions-FreeHeap
      (omega arith)

allockpage-Conserved_example :
    Returns
      (Conserved (with_mem two_nodes 0x100000) two_regions)
      (allockpage 3 (with_mem two_nodes 0x100000))
allockpage-Conserved_example =
    allockpage-Conserved 3 (with_mem two_nodes 0x100000) two_regions two_regions-FreeHeap
      (omega arith)

kalloc_huge_memory_lem_example :
    Returns
      (HugeRefinement.Outcome (with_mem two_nodes 0x100000) 0x40000 two_regions)
      (kalloc_huge_memory 3 0x40000 (with_mem two_nodes 0x100000))
kalloc_huge_memory_lem_example =
    HugeRefinement.kalloc_huge_memory_lem 3 (with_mem two_nodes 0x100000) 0x40000 two_regions
      two_regions-FreeHeap refl (omega arith) (omega arith)

-- One region of 32 KiB and 16 bytes.
abbrev tight_node : Mem
tight_node b = if b == 0x100008 then 32784 else 0

tight-FreeHeap : FreeHeap (region 0x100000 32784 ∷ []) (with_mem tight_node 0x100000)
tight-FreeHeap = record { links = (refl, refl, refl); separate = omega arith; unlocked = refl }

kalloc_huge_memory_overlap_example :
    Returns
      (λ p s'. (p ≡ 0x100010) × Links s'.mem s'.head (region 0x100000 32768 ∷ []) 0)
      (kalloc_huge_memory 2 32768 (with_mem tight_node 0x100000))
kalloc_huge_memory_overlap_example =
    kalloc_huge_memory_overlap 2 (with_mem tight_node 0x100000) 32768 (region 0x100000 32784)
      tight-FreeHeap refl (omega arith)

powval_of-Rounded_example :
    (p j : ℕ) × (powval_of 5000 ≡ some p) × (5000 ≤ p) × (p < 2 * 5000) × (p ≡ 32 * 2 ^ j)
powval_of-Rounded_example = powval_of-Rounded 5000 (omega arith) (omega arith)

pmm_init-Started_example :
    Returns (λ _. Started 0x100000 0x200000 2) (pmm_init 0x100000 0x200000 2 (with_mem two_nodes 0))
pmm_init-Started_example =
    pmm_init-Started (with_mem two_nodes 0) 0x100000 0x200000 2 (omega arith) (omega arith)
