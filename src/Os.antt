-- ===== src/Os.antt =====
-- kernel/src/os.c: what each CPU runs, and the tests of the allocator. `fuel` bounds the walks; `i` and
-- `ncpu` are what `cpu_current()` and `cpu_count()` return; a run returns what `putch` wrote.
pub mod Output
mod Runs
use njuoslab_l1_kmalloc_kfre.Base.{
  ℕ, zero, suc, ◌+◌, ◌*◌, ◌%◌, ◌==◌, not, if◌then◌else◌, List, [], ◌∷◌, ◌++◌,
}
use njuoslab_l1_kmalloc_kfre.Base.Words.{u32}
use njuoslab_l1_kmalloc_kfre.Machine.{Fault, Cmd, fail, pure, check, ◌>>=◌, ◌>>◌}
use njuoslab_l1_kmalloc_kfre.Klib.Bytes.{get_byte}
use njuoslab_l1_kmalloc_kfre.Klib.Stdio.Printf.{printf}
use njuoslab_l1_kmalloc_kfre.Machine.{get_int, set_int}
use njuoslab_l1_kmalloc_kfre.Pmm.Init.{pmm_init}
use njuoslab_l1_kmalloc_kfre.Pmm.Kalloc.{kalloc}
use njuoslab_l1_kmalloc_kfre.Pmm.Kfree.{kfree}

-- Where the string literals of os.c stand.
pub record Literals : Type 0 where
  pub hello : ℕ
  pub hex_line : ℕ
  pub add_null : ℕ
  pub add_line : ℕ
  pub add1_item : ℕ
  pub add2_item : ℕ
  pub add2_null : ℕ
  pub add1_line : ℕ
  pub add2_line : ℕ
  pub add3_null : ℕ
  pub add3_line : ℕ

-- The literals that `os_run` reads, "Hello World from CPU #*\n" and "%x\n".
abbrev pub hello_text : List ℕ
hello_text =
    b'H' ∷ b'e' ∷ b'l' ∷ b'l' ∷ b'o' ∷ b' ' ∷ b'W' ∷ b'o' ∷ b'r' ∷ b'l' ∷ b'd' ∷ b' ' ∷ b'f' ∷ b'r'
    ∷ b'o' ∷ b'm' ∷ b' ' ∷ b'C' ∷ b'P' ∷ b'U' ∷ b' ' ∷ b'#' ∷ b'*' ∷ 10 ∷ []

abbrev pub hex_format : List ℕ
hex_format = b'%' ∷ b'x' ∷ 10 ∷ []

pub os_init : (heap_start heap_end ncpu : ℕ) → Cmd (Unit {0})
os_init heap_start heap_end ncpu = pmm_init heap_start heap_end ncpu

-- `'0' + cpu_current()` for `*`.
abbrev pub greeting_char : (i c : ℕ) → ℕ
greeting_char i c = if c == b'*' then (b'0' + i) % 256 else c

pub greet : (fuel i s : ℕ) → Cmd (List ℕ)
greet zero i s = fail Fault.out_of_fuel
greet (suc k) i s = do
  c ← get_byte s
  if c == 0 then pure [] else do rest ← greet k i (s + 1); pure (greeting_char i c ∷ rest)

module _ (fuel i ncpu : ℕ) (texts : Literals) where
  -- `printf("%x\n", pmm->alloc(size))`
  pub print_alloc : (size : ℕ) → Cmd (List ℕ)
  print_alloc size = do
    add ← kalloc fuel i ncpu size
    (out, ret) ← printf fuel texts.hex_line (add ∷ [])
    pure out

  -- `os_run` without TEST, up to `while(true)`.
  pub os_run : Cmd (List ℕ)
  os_run = do
    hello ← greet fuel i texts.hello
    a ← print_alloc 5368
    b ← print_alloc 4096
    c ← print_alloc 5368
    d ← print_alloc 4
    pure (hello ++ (a ++ (b ++ (c ++ d))))

  -- An allocation of the tests: `halt(1)` behind a message where it fails, and else a message.
  pub test_alloc : (size null_text text : ℕ) (args : List ℕ) → Cmd ℕ
  test_alloc size null_text text args = do
    add ← kalloc fuel i ncpu size
    if add == 0
        then (do printf fuel null_text args; fail Fault.halted)
        else (do printf fuel text (args ++ (add ∷ [])); pure add)

  unfoldable pub os_run_test3 : Cmd (Unit {0})
  os_run_test3 = do
    add ← test_alloc (64 * 4096) texts.add_null texts.add_line []
    kfree fuel i ncpu add

  -- The first loop of `os_run_test1`, from `index` on, and the two arrays.
  unfoldable pub fill_arrays : (rounds index : ℕ) → Cmd (List (ℕ × ℕ))
  fill_arrays zero index = pure []
  fill_arrays (suc k) index = do
    add1 ← test_alloc 24 texts.add_null texts.add1_item (index ∷ [])
    set_int add1 9876
    set_int (add1 + 4 * 5) 114514
    add2 ← test_alloc 64 texts.add2_null texts.add2_item (index ∷ [])
    rest ← fill_arrays k (index + 1)
    pure ((add1, add2) ∷ rest)

  -- The second loop: the assertions assign, and so hold.
  unfoldable pub free_arrays : List (ℕ × ℕ) → Cmd (Unit {0})
  free_arrays [] = pure tt
  free_arrays ((add1, add2) ∷ rest) = do
    set_int add1 9876
    check (not (9876 == 0))
    set_int (add1 + 4 * 5) 114514
    check (not (114514 == 0))
    kfree fuel i ncpu add1
    kfree fuel i ncpu add2
    free_arrays rest

  unfoldable pub os_run_test1 : Cmd (Unit {0})
  os_run_test1 = do arrays ← fill_arrays 100 0; free_arrays arrays

  -- `assert(*p == value)`
  pub expect : (p value : ℕ) → Cmd (Unit {0})
  expect p value = do v ← get_int p; check (v == value)

  pub os_run_test2 : Cmd (Unit {0})
  os_run_test2 = do
    add1 ← test_alloc 1020 texts.add_null texts.add1_line []
    set_int add1 9876
    set_int (add1 + 4 * 254) 114514
    add2 ← test_alloc 510 texts.add3_null texts.add2_line []
    add3 ← test_alloc 800 texts.add3_null texts.add3_line []
    set_int add3 543210
    set_int (add3 + 4 * 199) 114514
    kfree fuel i ncpu add2
    expect add1 9876
    expect (add1 + 4 * 254) 114514
    expect add3 543210
    expect (add3 + 4 * 199) 114514
    kfree fuel i ncpu add1
    expect add3 543210
    expect (add3 + 4 * 199) 114514
    kfree fuel i ncpu add3
