-- ===== src/Klib/Stdio.antt =====
-- The conversions of abstract-machine/klib/src/stdio.c: what `%d`, `%b`, `%x` and `%c` print, and the
-- arguments that they take. An `int` is a 32-bit pattern and an `unsigned long` a 64-bit one.
pub mod Sprintf
pub mod Printf
pub mod Digits
pub mod Signed
pub mod Format
use njuoslab_l1_kmalloc_kfre.Base.{
  ℕ, zero, suc, ◌+◌, ◌-◌, ◌*◌, ◌/◌, ◌%◌, ◌^◌, ◌==◌, leb, if◌then◌else◌, List, [], ◌∷◌,
}
use njuoslab_l1_kmalloc_kfre.Base.Words.{u32, sext}
use njuoslab_l1_kmalloc_kfre.Machine.{Fault, Cmd, fail, pure}

-- The rounds that are left, and `ret`.
unfoldable pub pow_loop : (rounds m ret : ℕ) → ℕ
pow_loop zero m ret = ret
pow_loop (suc k) m ret = pow_loop k m (ret * m % 2 ^ 64)

unfoldable pub m_pow_n : ℕ → ℕ → ℕ
m_pow_n m n = pow_loop n m 1

-- `while (val_seg) { cnt++; val_seg /= base; }`; an `unsigned long` has at most 64 digits.
unfoldable pub count_digits : (rounds base val_seg cnt : ℕ) → ℕ
count_digits zero base val_seg cnt = cnt
count_digits (suc k) base val_seg cnt =
    let rest = count_digits k base (val_seg / base) (cnt + 1) in if val_seg == 0 then cnt else rest

-- The number 0 has one digit.
unfoldable pub digit_count : (base value : ℕ) → ℕ
digit_count base value = if value == 0 then 1 else count_digits 64 base value 0

-- The characters of `while (cnt)` on an `int`, which the division widens.
unfoldable pub int_digits : (base cnt value : ℕ) → List ℕ
int_digits base zero value = []
int_digits base (suc c) value =
    let power = m_pow_n base c in
    (sext value / power + b'0') % 256 ∷ int_digits base c (u32 (sext value % power))

-- The same on an `unsigned long` in base 16.
unfoldable pub hex_digits : (cnt value : ℕ) → List ℕ
hex_digits zero value = []
hex_digits (suc c) value =
    let power = m_pow_n 16 c in
    let val_seg = value / power in
    let digit = if leb val_seg 9 then val_seg + b'0' else val_seg % 256 + 256 - 10 + b'A' in
    digit % 256 ∷ hex_digits c (value % power)

-- `-ArgIntVal`
abbrev pub negated : ℕ → ℕ
negated value = u32 (2 ^ 32 - value)

unfoldable pub decimal : ℕ → List ℕ
decimal value =
    if leb (2 ^ 31) value
    then b'-' ∷ int_digits 10 (digit_count 10 (sext (negated value))) (negated value)
    else int_digits 10 (digit_count 10 (sext value)) value

unfoldable pub binary : ℕ → List ℕ
binary value = int_digits 2 (digit_count 2 (sext value)) value

unfoldable pub hexadecimal : ℕ → List ℕ
hexadecimal value = hex_digits (digit_count 16 value) value

-- `va_arg(ap, unsigned long)` or a pointer, and the arguments behind it.
abbrev pub next_arg : List ℕ → Cmd (ℕ × List ℕ)
next_arg [] = fail Fault.no_argument
next_arg (a ∷ args) = pure (a, args)
