-- ===== src/Am/Gpu/Scale.antt =====
-- Where `render` of abstract-machine/am/src/x86/qemu/ioe.c reads a local canvas.
use native.Mathlib.Nat.{
  div-lt_iff_lt-mul, mul_comm, mul-suc, mul-lt-mul_of_pos_right, mul-le-mul_left,
}
use njuoslab_l1_kmalloc_kfre.Base.{ℕ, ◌*◌, ◌/◌, ◌<◌, arith}
use njuoslab_l1_kmalloc_kfre.Am.Gpu.{Place, source_index}

scaled-lt : (i w w1 : ℕ) → i < w1 → 0 < w → i * w / w1 < w
scaled-lt i w w1 h p =
    (div-lt_iff_lt-mul (omega arith)).1 (rw (mul_comm w w1) (mul-lt-mul_of_pos_right h p))

-- For every pixel of the place on the screen, `render` reads a pixel of the local canvas.
pub source_index-lt :
    (w h i j : ℕ) (at : Place)
    → 0 < w
    → 0 < h
    → i < at.w1
    → j < at.h1
    → source_index w h at i j < w * h
unfolding source_index
source_index-lt w h i j at pw ph hi hj =
    let row = scaled-lt j h at.h1 hj ph in
    let column = scaled-lt i w at.w1 hi pw in
    let below = mul-le-mul_left w row in omega (arith, below, column, mul-suc w (j * h / at.h1))
