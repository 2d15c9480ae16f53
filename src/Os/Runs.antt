-- ===== src/Os/Runs.antt =====
-- kernel/src/os.c with a heap of 1 MiB and one CPU: what it prints, and its second test.
use njuoslab_l1_kmalloc_kfre.Base.{
  ℕ, ◌+◌, ◌≡◌, refl, arith, ◌==◌, not, ◌&&◌, ==→eq, if◌then◌else◌, Bool, true, false, List, [], ◌∷◌,
  ◌++◌,
}
use njuoslab_l1_kmalloc_kfre.Machine.{
  State, Run, ok, stop, get_next, get_size, get_word, set_next, get_int, set_int, set_size,
  set_word, zero_range,
}
use njuoslab_l1_kmalloc_kfre.Machine.Memory.{Mem, write, clear}
use njuoslab_l1_kmalloc_kfre.Klib.Bytes.{get_byte}
use njuoslab_l1_kmalloc_kfre.Klib.Text.Length.{IsString}
use njuoslab_l1_kmalloc_kfre.Klib.Stdio.{
  hexadecimal, hex_digits, digit_count, count_digits, m_pow_n, pow_loop,
}
use njuoslab_l1_kmalloc_kfre.Klib.Stdio.Printf.{printf, print_loop, print_char, print_conversion}
use njuoslab_l1_kmalloc_kfre.Pmm.Lock.{lock, unlock, lockinit}
use njuoslab_l1_kmalloc_kfre.Pmm.Init.{pmm_init, init_cpus}
use njuoslab_l1_kmalloc_kfre.Pmm.PageAlloc.{allockpage, find_first, take_page, relink}
use njuoslab_l1_kmalloc_kfre.Pmm.SizeClass.{powval_of}
use njuoslab_l1_kmalloc_kfre.Pmm.Kalloc.{
  kalloc, kalloc_small, first_page, find_page, take_block, new_block, open_page, insert_page,
  reuse_page, next_node, advance_node,
}
use njuoslab_l1_kmalloc_kfre.Pmm.Kfree.{
  kfree, find_owner, find_owners, free_block, free_huge, neighbours, find_pred, first_free,
  set_first_free, mark_empty, merge_before, merge_after, push_block, join_after,
}
use njuoslab_l1_kmalloc_kfre.Os.{
  Literals, hello_text, hex_format, os_init, os_run, os_run_test2, test_alloc, expect,
}
use njuoslab_l1_kmalloc_kfre.Os.Output.{greeting_start, hex_text, Allocates, os_run-text}

abbrev holding : ℕ → List ℕ → Mem → Mem
holding p [] m = m
holding p (c ∷ cs) m = λ b. if b == p then c else holding (p + 1) cs m b

-- All texts but the greeting are "%x\n".
abbrev literals : Literals
literals = record {
  hello = 16;
  hex_line = 64;
  add_null = 64;
  add_line = 64;
  add1_item = 64;
  add2_item = 64;
  add2_null = 64;
  add1_line = 64;
  add2_line = 64;
  add3_null = 64;
  add3_line = 64;
}

abbrev blank : State
blank = record {
  mem = holding 16 hello_text (holding 64 hex_format (λ _. 0));
  head = 0;
  heap_lock = 0;
  page_head = λ _. 0;
  page_lock = λ _. 0;
}

abbrev state_behind : {A : Type 0} → Run A → State
state_behind (ok a s) = s
state_behind (stop f) = blank

abbrev started : State
started = state_behind (os_init 0x100000 0x200000 1 blank)

abbrev state1 : State
state1 = state_behind (kalloc 30 0 1 5368 started)

abbrev state2 : State
state2 = state_behind (kalloc 30 0 1 4096 state1)

abbrev state3 : State
state3 = state_behind (kalloc 30 0 1 5368 state2)

abbrev state4 : State
state4 = state_behind (kalloc 30 0 1 4 state3)

allocates1 :
    Allocates 30 0 1 literals (omega arith) (omega arith) (omega arith) 5368 0x102000 started state1
unfolding os_init pmm_init init_cpus lockinit lock unlock kalloc kalloc_small first_page find_page
    take_block new_block open_page insert_page reuse_page next_node advance_node allockpage
    find_first take_page relink powval_of get_next get_size get_word set_next set_size set_word
    zero_range write clear
allocates1 = record {
  run = refl;
  format = (omega arith, refl, (omega arith, refl, (omega arith, refl, refl)));
}

allocates2 :
    Allocates 30 0 1 literals (omega arith) (omega arith) (omega arith) 4096 0x111000 state1 state2
unfolding os_init pmm_init init_cpus lockinit lock unlock kalloc kalloc_small first_page find_page
    take_block new_block open_page insert_page reuse_page next_node advance_node allockpage
    find_first take_page relink powval_of get_next get_size get_word set_next set_size set_word
    zero_range write clear
allocates2 = record {
  run = refl;
  format = (omega arith, refl, (omega arith, refl, (omega arith, refl, refl)));
}

allocates3 :
    Allocates 30 0 1 literals (omega arith) (omega arith) (omega arith) 5368 0x104000 state2 state3
unfolding os_init pmm_init init_cpus lockinit lock unlock kalloc kalloc_small first_page find_page
    take_block new_block open_page insert_page reuse_page next_node advance_node allockpage
    find_first take_page relink powval_of get_next get_size get_word set_next set_size set_word
    zero_range write clear
allocates3 = record {
  run = refl;
  format = (omega arith, refl, (omega arith, refl, (omega arith, refl, refl)));
}

allocates4 :
    Allocates 30 0 1 literals (omega arith) (omega arith) (omega arith) 4 0x120020 state3 state4
unfolding os_init pmm_init init_cpus lockinit lock unlock kalloc kalloc_small first_page find_page
    take_block new_block open_page insert_page reuse_page next_node advance_node allockpage
    find_first take_page relink powval_of get_next get_size get_word set_next set_size set_word
    zero_range write clear
allocates4 = record {
  run = refl;
  format = (omega arith, refl, (omega arith, refl, (omega arith, refl, refl)));
}

-- A test for a string that stands at `p`.
abbrev holds_text : Mem → ℕ → List ℕ → Bool
holds_text m p [] = m p == 0
holds_text m p (c ∷ cs) = not (c == 0) && (m p == c) && holds_text m (p + 1) cs

holds_text-IsString : (m : Mem) (p : ℕ) (cs : List ℕ) → holds_text m p cs ≡ true → IsString m p cs
holds_text-IsString m p [] h = ==→eq (m p) 0 h
holds_text-IsString m p (c ∷ cs) h =
    let next : holds_text m (p + 1) cs ≡ true = ground arith in
    (ground arith, ground arith, holds_text-IsString m (p + 1) cs next)

hello_text-IsString : IsString started.mem 16 hello_text
unfolding os_init pmm_init init_cpus lockinit lock unlock kalloc kalloc_small first_page find_page
    take_block new_block open_page insert_page reuse_page next_node advance_node allockpage
    find_first take_page relink powval_of get_next get_size get_word set_next set_size set_word
    zero_range write clear
hello_text-IsString = holds_text-IsString started.mem 16 hello_text refl

-- On CPU 0 of this machine.
os_run_prints :
    os_run 30 0 1 literals started
    ≡ ok
        ((greeting_start ++ (b'0' ∷ 10 ∷ []))
          ++ (hex_text 0x102000 ++ (hex_text 0x111000 ++ (hex_text 0x104000 ++ hex_text 0x120020))))
        state4
os_run_prints =
    os_run-text 30 0 1 literals (omega arith) (omega arith) (omega arith) 0x102000 0x111000 0x104000
      0x120020 started state1 state2 state3 state4 (omega arith) hello_text-IsString (omega arith)
      allocates1 allocates2 allocates3 allocates4

abbrev passes : {A : Type 0} → Run A → Bool
passes (ok a s) = true
passes (stop f) = false

test2_passes : passes (os_run_test2 30 0 1 literals started) ≡ true
unfolding os_run_test2 test_alloc expect get_int set_int printf print_loop print_char
    print_conversion hexadecimal hex_digits digit_count count_digits m_pow_n pow_loop get_byte
    os_init pmm_init init_cpus lockinit lock unlock kalloc kalloc_small first_page find_page
    take_block new_block open_page insert_page reuse_page next_node advance_node allockpage
    find_first take_page relink powval_of kfree find_owner find_owners free_block free_huge
    neighbours find_pred first_free set_first_free mark_empty merge_before merge_after push_block
    join_after get_next get_size get_word set_next set_size set_word zero_range write clear
test2_passes = refl
