-- ===== src/Pmm/Runs.antt =====
-- The allocator run on a heap of 1 MiB: addresses that can be followed in kernel/src/pmm.c.
use njuoslab_l1_kmalloc_kfre.Base.{ℕ, ◌≡◌, refl, Option, none, some, List, [], ◌∷◌}
use njuoslab_l1_kmalloc_kfre.Machine.{
  State, Run, ok, stop, Cmd, pure, ◌>>=◌, ◌>>◌, get_head, get_next, get_size, get_word, set_next,
  set_size, set_word, zero_range,
}
use njuoslab_l1_kmalloc_kfre.Machine.Memory.{write, clear}
use njuoslab_l1_kmalloc_kfre.Pmm.Lock.{lock, unlock, lockinit}
use njuoslab_l1_kmalloc_kfre.Pmm.Init.{pmm_init, init_cpus}
use njuoslab_l1_kmalloc_kfre.Pmm.PageAlloc.{allockpage, find_first, take_page, relink}
use njuoslab_l1_kmalloc_kfre.Pmm.Huge.{kalloc_huge_memory, find_highest, carve}
use njuoslab_l1_kmalloc_kfre.Pmm.SizeClass.{powval_of}
use njuoslab_l1_kmalloc_kfre.Pmm.Kalloc.{
  kalloc, kalloc_small, first_page, find_page, take_block, new_block, open_page, insert_page,
  reuse_page, next_node, advance_node,
}
use njuoslab_l1_kmalloc_kfre.Pmm.Kfree.{
  kfree, find_owner, find_owners, free_block, free_huge, neighbours, find_pred, first_free,
  set_first_free, mark_empty, merge_before, merge_after, push_block, join_after, heap_merge_before,
  heap_join_after, heap_merge_after, heap_push,
}

abbrev blank : State
blank = record { mem = λ _. 0; head = 0; heap_lock = 0; page_head = λ _. 0; page_lock = λ _. 0 }

abbrev result : {A : Type 0} → Run A → Option A
result (ok a _) = some a
result (stop _) = none

abbrev run_all : Cmd (List ℕ)
run_all = do
  pmm_init 0x100000 0x200000 1
  a ← kalloc 20 0 1 5000
  b ← kalloc 20 0 1 5000
  c ← kalloc 20 0 1 20
  d ← kalloc 20 0 1 100000
  kfree 20 0 1 b
  kfree 20 0 1 d
  e ← kalloc 20 0 1 5000
  h ← get_head
  size ← get_size h
  pure (a ∷ b ∷ c ∷ d ∷ e ∷ h ∷ size ∷ [])

run_all_result :
    result (run_all blank)
    ≡ some (0x102000 ∷ 0x104000 ∷ 0x110020 ∷ 0x1e0000 ∷ 0x104000 ∷ 0x120000 ∷ 0xe0000 ∷ [])
unfolding pmm_init init_cpus lockinit lock unlock kalloc kalloc_small first_page find_page
    take_block new_block open_page insert_page reuse_page next_node advance_node allockpage
    find_first take_page relink kalloc_huge_memory find_highest carve powval_of kfree find_owner
    find_owners free_block free_huge neighbours find_pred first_free set_first_free mark_empty
    merge_before merge_after push_block join_after heap_merge_before heap_join_after
    heap_merge_after heap_push get_next get_size get_word set_next set_size set_word zero_range
    write clear
run_all_result = refl
