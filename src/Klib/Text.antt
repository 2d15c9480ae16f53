-- ===== src/Klib/Text.antt =====
-- `strlen`, `strcpy`, `strncpy`, `strcat`, `strcmp` and `strncmp` of abstract-machine/klib/src/string.c. A
-- walk to the end of a string takes fuel. A `char` is signed on x86.
pub mod Length
pub mod Strcpy
pub mod Strncpy
pub mod Strcat
pub mod Order
pub mod Strncmp
use njuoslab_l1_kmalloc_kfre.Base.{
  ℕ, zero, suc, ◌+◌, ◌-◌, ◌%◌, ◌^◌, ◌==◌, ◌&&◌, ◌||◌, not, ltb, leb, if◌then◌else◌, Bool,
}
use njuoslab_l1_kmalloc_kfre.Base.Words.{add64, u32, sext}
use njuoslab_l1_kmalloc_kfre.Machine.{Fault, Cmd, fail, pure, check, ◌>>=◌, ◌>>◌}
use njuoslab_l1_kmalloc_kfre.Klib.Bytes.{get_byte, set_byte}

-- `for (; *s; s++) i++;`
pub count_chars : (fuel s i : ℕ) → Cmd ℕ
count_chars zero s i = fail Fault.out_of_fuel
count_chars (suc k) s i = do
  c ← get_byte s
  if c == 0 then pure i else count_chars k (s + 1) (add64 i 1)

pub strlen : (fuel s : ℕ) → Cmd ℕ
strlen fuel s = if s == 0 then pure 0 else count_chars fuel s 0

-- `for (; *_src != '\0'; _src++) *_dst++ = *_src;`, with the last `_dst`.
unfoldable pub copy_chars : (fuel dst src : ℕ) → Cmd ℕ
copy_chars zero dst src = fail Fault.out_of_fuel
copy_chars (suc k) dst src = do
  c ← get_byte src
  if c == 0 then pure dst else do set_byte dst c; copy_chars k (dst + 1) (src + 1)

pub strcpy : (fuel dst src : ℕ) → Cmd ℕ
strcpy fuel dst src = do
  check (not (dst == 0) && not (src == 0))
  last ← copy_chars fuel dst src
  set_byte last 0
  a ← strlen fuel dst
  b ← strlen fuel src
  check (a == b)
  pure dst

-- The loop of `strncpy`: the last `_dst` and `cnt`. The test reads the character before it looks at `n`.
pub copy_at_most : (fuel dst src n cnt : ℕ) → Cmd (ℕ × ℕ)
copy_at_most zero dst src n cnt = fail Fault.out_of_fuel
copy_at_most (suc k) dst src n cnt = do
  c ← get_byte src
  if not (c == 0) && leb (add64 cnt 1) n
      then (do set_byte dst c; copy_at_most k (dst + 1) (src + 1) n (add64 cnt 1))
      else pure (dst, cnt)

pub strncpy : (fuel dst src n : ℕ) → Cmd ℕ
strncpy fuel dst src n = do
  check (not (dst == 0) && not (src == 0))
  (last, cnt) ← copy_at_most fuel dst src n 0
  set_byte last 0
  a ← strlen fuel dst
  check (a == cnt)
  check (leb cnt n)
  pure dst

-- `while (*_dst != '\0') _dst++;`
pub find_end : (fuel dst : ℕ) → Cmd ℕ
find_end zero dst = fail Fault.out_of_fuel
find_end (suc k) dst = do c ← get_byte dst; if c == 0 then pure dst else find_end k (dst + 1)

-- `left` is an `int`.
pub strcat : (fuel dst src : ℕ) → Cmd ℕ
strcat fuel dst src = do
  check (not (dst == 0))
  len ← strlen fuel dst
  let left = u32 len
  tail ← find_end fuel dst
  c ← get_byte tail
  check (c == 0)
  if src == 0 then pure dst else do
    last ← copy_chars fuel tail src
    set_byte last 0
    a ← strlen fuel dst
    b ← strlen fuel src
    check (a == add64 b (sext left))
    pure dst

-- `<` on `char`.
abbrev pub char_lt : ℕ → ℕ → Bool
char_lt a b = ltb ((a + 128) % 256) ((b + 128) % 256)

abbrev pub minus_one : ℕ
minus_one = 2 ^ 32 - 1

-- What `strcmp` and `strncmp` return behind their loops.
pub compare_lengths : (fuel s1 s2 : ℕ) → Cmd ℕ
compare_lengths fuel s1 s2 = do
  a ← strlen fuel s2
  b ← strlen fuel s1
  if ltb b a then pure minus_one else if ltb a b then pure 1 else pure 0

-- The loop of `strcmp` and the comparison of what is left.
pub compare_from : (fuel rounds s1 s2 : ℕ) → Cmd ℕ
compare_from fuel zero s1 s2 = fail Fault.out_of_fuel
compare_from fuel (suc k) s1 s2 = do
  a ← get_byte s1
  if a == 0 then compare_lengths fuel s1 s2 else do
    b ← get_byte s2
    if b == 0
        then compare_lengths fuel s1 s2
        else if char_lt a b
        then pure minus_one
        else if char_lt b a
        then pure 1
        else (do check (a == b); compare_from fuel k (s1 + 1) (s2 + 1))

pub strcmp : (fuel s1 s2 : ℕ) → Cmd ℕ
strcmp fuel s1 s2 = do check (not (s1 == 0) && not (s2 == 0)); compare_from fuel fuel s1 s2

-- Behind the loop of `strncmp`; `cnt` is an `int`, which the comparison with `n` widens.
pub compare_rest : (fuel s1 s2 n cnt : ℕ) → Cmd ℕ
compare_rest fuel s1 s2 n cnt = if leb n (sext cnt) then pure 0 else compare_lengths fuel s1 s2

pub compare_at_most : (fuel rounds s1 s2 n cnt : ℕ) → Cmd ℕ
compare_at_most fuel zero s1 s2 n cnt = fail Fault.out_of_fuel
compare_at_most fuel (suc k) s1 s2 n cnt = do
  a ← get_byte s1
  if a == 0 then compare_rest fuel s1 s2 n cnt else do
    b ← get_byte s2
    if (b == 0) || leb n (sext cnt)
        then compare_rest fuel s1 s2 n cnt
        else if char_lt a b
        then pure minus_one
        else if char_lt b a
        then pure 1
        else (do check (a == b); compare_at_most fuel k (s1 + 1) (s2 + 1) n (u32 (cnt + 1)))

pub strncmp : (fuel s1 s2 n : ℕ) → Cmd ℕ
strncmp fuel s1 s2 n = do
  check (not (s1 == 0) && not (s2 == 0))
  compare_at_most fuel fuel s1 s2 n 0
