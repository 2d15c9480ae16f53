-- ===== src/Pmm/SizeClass.antt =====
-- The rounding of a request in `kalloc` of kernel/src/pmm.c: `powval` doubles from 32.
pub mod Bounds
use njuoslab_l1_kmalloc_kfre.Base.{ℕ, zero, suc, ◌*◌, Option, none, some, ltb, if◌then◌else◌}

-- `while (powval < size) powval *= 2;`
pub double_up : ℕ → (powval size : ℕ) → Option ℕ
double_up zero powval size = none
double_up (suc k) powval size =
    let rest = double_up k (powval * 2) size in if ltb powval size then rest else some powval

-- 16 * 1024 * 1024 is 32 doubled 19 times: 20 rounds reach every request that `kalloc` rounds.
abbrev pub rounds : ℕ
rounds = 20

unfoldable pub powval_of : ℕ → Option ℕ
unfolding double_up
powval_of size = double_up rounds 32 size
