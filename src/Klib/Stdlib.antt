-- ===== src/Klib/Stdlib.antt =====
-- abstract-machine/klib/src/stdlib.c. An `int` is a 32-bit pattern.
pub mod Atoi
use njuoslab_l1_kmalloc_kfre.Base.{
  ℕ, zero, suc, ◌+◌, ◌-◌, ◌*◌, ◌/◌, ◌%◌, ◌^◌, ◌==◌, ◌&&◌, leb, if◌then◌else◌,
}
use njuoslab_l1_kmalloc_kfre.Base.Words.{u32, sub32}
use njuoslab_l1_kmalloc_kfre.Machine.{Fault, Cmd, fail, pure, ◌>>=◌, ◌>>◌}
use njuoslab_l1_kmalloc_kfre.Klib.Bytes.{get_byte}

-- The variable `next` behind `rand()`, and its result.
unfoldable pub rand : (next : ℕ) → ℕ × ℕ
rand next = let next' = (next * 1103515245 + 12345) % 2 ^ 64 in (next', u32 (next' / 65536) % 32768)

-- The variable `next` behind `srand(seed)`.
unfoldable pub srand : (seed : ℕ) → ℕ
srand seed = u32 seed

unfoldable pub abs : ℕ → ℕ
abs x = if leb (2 ^ 31) x then sub32 0 x else x

-- `while (*nptr == ' ') nptr++;`
pub skip_spaces : (fuel nptr : ℕ) → Cmd ℕ
skip_spaces zero nptr = fail Fault.out_of_fuel
skip_spaces (suc k) nptr = do
  c ← get_byte nptr
  if c == b' ' then skip_spaces k (nptr + 1) else pure nptr

-- The loop over the digits. A `char` above 127 is negative, so it is no digit either way.
pub scan_digits : (fuel nptr x : ℕ) → Cmd ℕ
scan_digits zero nptr x = fail Fault.out_of_fuel
scan_digits (suc k) nptr x = do
  c ← get_byte nptr
  if leb b'0' c && leb c b'9'
      then scan_digits k (nptr + 1) (sub32 (u32 (u32 (x * 10) + c)) b'0')
      else pure x

pub atoi : (fuel nptr : ℕ) → Cmd ℕ
atoi fuel nptr = do start ← skip_spaces fuel nptr; scan_digits fuel start 0

-- The kernel's allocator is another: these two stand for the C library's.
abbrev pub malloc : (size : ℕ) → Cmd ℕ
malloc size = fail Fault.panic

abbrev pub free : (ptr : ℕ) → Cmd (Unit {0})
free ptr = pure tt
