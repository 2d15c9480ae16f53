-- ===== src/Base/Words.antt =====
-- The machine integers of the x86-64 build: `int` and `unsigned` as 32-bit patterns, `size_t` and
-- addresses as 64-bit ones.
use Prim.Native.Nat.{ℕ, ◌+◌, ◌-◌, ◌%◌, ◌^◌, ◌<◌}
use mathlib.Core.Path.{◌≡◌}
use mathlib.Core.Bool.{Bool, ◌&&◌}
use native.Mathlib.Omega.{arith}
use njuoslab_l1_kmalloc_kfre.Base.Tests.{ltb, leb, if◌then◌else◌}

-- What a store into an `int` or `unsigned` field keeps.
abbrev pub u32 : ℕ → ℕ
u32 n = n % 2 ^ 32

abbrev pub sub32 : ℕ → ℕ → ℕ
sub32 a b = (a + 2 ^ 32 - b % 2 ^ 32) % 2 ^ 32

abbrev pub add64 : ℕ → ℕ → ℕ
add64 a b = (a + b) % 2 ^ 64

abbrev pub sub64 : ℕ → ℕ → ℕ
sub64 a b = (a + 2 ^ 64 - b % 2 ^ 64) % 2 ^ 64

-- An `int` converted to a 64-bit type: sign extension.
abbrev pub sext : ℕ → ℕ
sext w = if ltb w (2 ^ 31) then w else w + (2 ^ 64 - 2 ^ 32)

-- `w >= k` on `int`, for a constant `k` that is not negative.
abbrev pub int_ge : ℕ → ℕ → Bool
int_ge w k = ltb w (2 ^ 31) && leb k w

pub sext-small : (n : ℕ) → n < 2147483648 → sext n ≡ n
sext-small n h = ground arith
