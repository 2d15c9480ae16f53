-- ===== src/Klib/Copy.antt =====
-- `memset`, `memmove`, `memcpy` and `memcmp` of abstract-machine/klib/src/string.c. `n--` as the test of
-- a loop is recursion on `n`.
pub mod Laws
pub mod Compare
use njuoslab_l1_kmalloc_kfre.Base.{ℕ, zero, suc, ◌+◌, ◌-◌, ◌%◌, ◌==◌, leb, if◌then◌else◌}
use njuoslab_l1_kmalloc_kfre.Base.Words.{sub32}
use njuoslab_l1_kmalloc_kfre.Machine.{Cmd, pure, ◌>>=◌, ◌>>◌}
use njuoslab_l1_kmalloc_kfre.Klib.Bytes.{get_byte, set_byte}

-- The rounds that are left, from `cnt` on.
pub fill : (rounds s c cnt : ℕ) → Cmd (Unit {0})
fill zero s c cnt = pure tt
fill (suc k) s c cnt = do set_byte (s + cnt) (c % 256); fill k s c (cnt + 1)

pub memset : (s c n : ℕ) → Cmd ℕ
memset s c n = do fill n s c 0; pure s

-- `while (n--) *d++ = *s++;`, with the last `d`.
pub copy_up : (n d s : ℕ) → Cmd ℕ
copy_up zero d s = pure d
copy_up (suc n) d s = do byte ← get_byte s; set_byte d byte; copy_up n (d + 1) (s + 1)

-- `while (n--) *--d = *--s;`
pub copy_down : (n d s : ℕ) → Cmd (Unit {0})
copy_down zero d s = pure tt
copy_down (suc n) d s = do
  byte ← get_byte (s - 1)
  set_byte (d - 1) byte
  copy_down n (d - 1) (s - 1)

pub memmove : (dst src n : ℕ) → Cmd ℕ
memmove dst src n =
    if leb dst src
    then (do copy_up n dst src; pure dst)
    else (do copy_down n (dst + n) (src + n); pure dst)

-- It returns the end of the copy, not `out`.
pub memcpy : (out from n : ℕ) → Cmd ℕ
memcpy out from n = copy_up n out from

-- The first difference that is not 0, as an `int`.
pub memcmp : (s1 s2 n : ℕ) → Cmd ℕ
memcmp s1 s2 zero = pure 0
memcmp s1 s2 (suc n) = do
  a ← get_byte s1
  b ← get_byte s2
  let res = sub32 a b
  if res == 0 then memcmp (s1 + 1) (s2 + 1) n else pure res
