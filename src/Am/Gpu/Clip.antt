-- ===== src/Am/Gpu/Clip.antt =====
-- `gpu_fbdraw` of abstract-machine/am/src/x86/qemu/ioe.c draws its rectangle, clipped to the screen, as long
-- as no `int` in it overflows.
use native.Mathlib.Nat.{suc-mul, mul-le-mul_right, mul-le-mul_left}
use njuoslab_l1_kmalloc_kfre.Base.{
  ℕ, zero, suc, ◌+◌, ◌-◌, ◌*◌, ◌%◌, ◌^◌, ◌≤◌, ◌<◌, ◌≡◌, refl, arith, ltb, if◌then◌else◌, Bool-cases,
  inl, inr, ltb→lt,
}
use njuoslab_l1_kmalloc_kfre.Base.Words.{u32, add64, sext, sext-small}
use njuoslab_l1_kmalloc_kfre.Am.Gpu.{
  pixel_of, Frame, set_pixel, FbDraw, int_lt, rounds_to, draw_row, clipped, row_start, draw_rows,
  gpu_fbdraw,
}
use njuoslab_l1_kmalloc_kfre.Am.Gpu.Rectangle.{
  paint_row, cut, paint_rows, inside, paint_rows-inside,
}

-- No coordinate is negative, and none that the program computes on the screen leaves `int`.
pub record FitsInt (width height : ℕ) (draw : FbDraw) : Type 0 where
  pub columns : draw.x + draw.w < 2 ^ 31
  pub rows : draw.y + draw.h < 2 ^ 31
  pub pixels : draw.x + height * width < 2 ^ 31
  pub screen : (width < 2 ^ 31) × (height < 2 ^ 31)

int_lt-small : (a b : ℕ) → a < 2 ^ 31 → b < 2 ^ 31 → int_lt (u32 a) b ≡ ltb a b
int_lt-small a b ha hb =
    let e : (u32 a + 2147483648) % 4294967296 ≡ a + 2147483648 = omega arith in
    let f : (b + 2147483648) % 4294967296 ≡ b + 2147483648 = omega arith in rw (e, f) (ground arith)

draw_row-paint :
    (k i start row : ℕ) (pixels : ℕ → ℕ) (fb : Frame)
    → start + i + k < 2 ^ 64
    → row + i + k < 2 ^ 64
    → draw_row k i start row pixels fb ≡ paint_row k i start row pixels fb
unfolding draw_row paint_row
draw_row-paint zero i start row pixels fb h l = refl
draw_row-paint (suc k) i start row pixels fb h l =
    let at : add64 start i ≡ start + i = omega arith in
    let from : add64 row i ≡ row + i = omega arith in
    rw (at, from)
      (draw_row-paint k (i + 1) start row pixels
        (set_pixel fb (start + i) (pixel_of (pixels (row + i)))) (omega arith) (omega arith))

module _ (width height : ℕ) (draw : FbDraw) (f : FitsInt width height draw) where
  clipped-cut : rounds_to (clipped draw.x draw.w width) ≡ cut draw.x draw.w width
  clipped-cut =
      let columns = f.columns in
      let (narrow, _) = f.screen in
      let test = int_lt-small (draw.x + draw.w) width columns narrow in
      elim (Bool-cases (ltb (draw.x + draw.w) width)) [
        | inl within ↦ rw (test, within) (ground arith)
        | inr over ↦ rw (test, over) (ground arith)
      ]

  draw_rows-paint :
      (k j : ℕ) (fb : Frame)
      → j + k ≤ draw.h
      → draw_rows k j width height draw fb ≡ paint_rows k j width height draw fb
  unfolding draw_rows paint_rows
  draw_rows-paint zero j fb le = refl
  draw_rows-paint (suc k) j fb le =
      let columns = f.columns in
      let rows = f.rows in
      let pixels = f.pixels in
      let (narrow, low) = f.screen in
      let test = int_lt-small (draw.y + j) height (omega arith) low in
      let wide : sext draw.w ≡ draw.w = sext-small draw.w (omega arith) in
      let product : draw.w * j ≤ draw.w * 2147483648 = mul-le-mul_left draw.w (omega arith) in
      let row : sext draw.w * j % 2 ^ 64 ≡ draw.w * j = rw wide (omega arith) in
      elim (Bool-cases (ltb (draw.y + j) height)) [
        | inr off ↦ rw (test, off) (draw_rows-paint k (j + 1) fb (omega arith))
        | inl on ↦
            let above : suc (j + draw.y) ≤ height = omega (arith, ltb→lt (draw.y + j) height on) in
            let last = mul-le-mul_right width above in
            let next = suc-mul (j + draw.y) width in
            let index : (j + draw.y) * width + width ≤ height * width = omega arith in
            let narrow_row : u32 (j + draw.y) ≡ j + draw.y = omega arith in
            let start : row_start j width draw ≡ draw.x + (j + draw.y) * width =
              rw narrow_row (at_start ((j + draw.y) * width) (omega arith)) in
            let fewer : cut draw.x draw.w width ≤ draw.w = ground arith in
            let painted =
              draw_row-paint (cut draw.x draw.w width) 0 (draw.x + (j + draw.y) * width)
                (draw.w * j) draw.pixels fb (omega arith) (omega arith) in
            rw (test, on, clipped-cut, start, row, painted)
              (draw_rows-paint k (j + 1) _ (omega arith))
      ]
    where
      at_start : (n : ℕ) → draw.x + n < 2147483648 → sext (u32 (draw.x + u32 n)) ≡ draw.x + n
      at_start n h =
          let whole : u32 (draw.x + u32 n) ≡ draw.x + n = omega arith in
          rw whole (sext-small (draw.x + n) h)

  -- Where no coordinate is negative and no `int` that the program computes overflows, `gpu_fbdraw` gives a
  -- pixel of the screen the color of the rectangle where the rectangle covers it, and leaves it alone
  -- elsewhere; below the screen nothing is drawn. The column `X` is on the screen.
  pub gpu_fbdraw-at :
      (X Y : ℕ) (fb : Frame)
      → X < width
      → gpu_fbdraw width height draw fb (X + Y * width) ≡ (
          if inside height draw X Y
          then pixel_of (draw.pixels (draw.w * (Y - draw.y) + (X - draw.x)))
          else fb (X + Y * width))
  unfolding gpu_fbdraw
  gpu_fbdraw-at X Y fb h =
      let rows = f.rows in
      let count : rounds_to draw.h ≡ draw.h = ground arith in
      rw (count, draw_rows-paint draw.h 0 fb (omega arith))
        (paint_rows-inside width height draw X Y h fb)
