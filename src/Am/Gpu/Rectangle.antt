-- ===== src/Am/Gpu/Rectangle.antt =====
-- A rectangle drawn on a screen, with numbers that have no bounds: each row is cut at the right edge.
use native.Mathlib.Nat.{suc-mul, mul-le-mul_right}
use njuoslab_l1_kmalloc_kfre.Base.{
  ℕ, zero, suc, ◌+◌, ◌-◌, ◌*◌, ◌≤◌, ◌<◌, ◌≡◌, ◌≢◌, refl, sym, ap, ◌∙◌, arith, ◌==◌, ◌&&◌, ltb, leb,
  if◌then◌else◌, Bool-cases, inl, inr, ◌⊎◌, ltb→lt, ltb→le, ==→eq, Bool, true, false,
}
use njuoslab_l1_kmalloc_kfre.Am.Gpu.{Pixel, pixel_of, Frame, set_pixel, FbDraw}

unfoldable pub paint_row : (rounds i start row : ℕ) → (ℕ → ℕ) → Frame → Frame
paint_row zero i start row pixels fb = fb
paint_row (suc k) i start row pixels fb =
    paint_row k (i + 1) start row pixels (set_pixel fb (start + i) (pixel_of (pixels (row + i))))

-- The columns from `x` on that are on the screen, at most `w`.
abbrev pub cut : (x w width : ℕ) → ℕ
cut x w width = if leb width (x + w) then width - x else w

unfoldable pub paint_rows : (rounds j width height : ℕ) → FbDraw → Frame → Frame
paint_rows zero j width height draw fb = fb
paint_rows (suc k) j width height draw fb =
    let fb' =
      if ltb (draw.y + j) height
      then paint_row (cut draw.x draw.w width) 0 (draw.x + (j + draw.y) * width) (draw.w * j)
          draw.pixels fb
      else fb in
    paint_rows k (j + 1) width height draw fb'

paint_row-from :
    (k i start row : ℕ) (pixels : ℕ → ℕ) (fb : Frame) (a : ℕ)
    → paint_row k i start row pixels fb a ≡ (
        if leb (start + i) a && ltb a (start + i + k)
        then pixel_of (pixels (row + (a - start)))
        else fb a)
unfolding paint_row
paint_row-from zero i start row pixels fb a = ground arith
paint_row-from (suc k) i start row pixels fb a =
    paint_row-from k (i + 1) start row pixels
      (set_pixel fb (start + i) (pixel_of (pixels (row + i)))) a
    ∙ ground arith

paint_row-at :
    (k start row : ℕ) (pixels : ℕ → ℕ) (fb : Frame) (a : ℕ)
    → paint_row k 0 start row pixels fb a
      ≡ (if leb start a && ltb a (start + k) then pixel_of (pixels (row + (a - start))) else fb a)
paint_row-at k start row pixels fb a =
    let from_zero : start + 0 ≡ start = omega arith in
    paint_row-from k 0 start row pixels fb a ∙ rw from_zero refl

-- A pixel of the row that is drawn, and one of another row.
hit-same :
    (X x w width P : ℕ)
    → X < width
    → (leb (x + P) (X + P) && ltb (X + P) (x + P + cut x w width)) ≡ (leb x X && ltb X (x + w))
hit-same X x w width P h = ground arith

hit-other :
    (X x w width P Q : ℕ)
    → X < width
    → (P + width ≤ Q) ⊎ (Q + width ≤ P)
    → (leb (x + Q) (X + P) && ltb (X + P) (x + Q + cut x w width)) ≡ false
hit-other X x w width P Q h apart = ground arith

rows_apart :
    (Y Z width : ℕ) → Y ≢ Z → (Y * width + width ≤ Z * width) ⊎ (Z * width + width ≤ Y * width)
rows_apart Y Z width ne = elim (Bool-cases (ltb Y Z)) [
  | inl lt ↦ inl (omega (arith, suc-mul Y width, mul-le-mul_right width (ltb→lt Y Z lt)))
  | inr ge ↦
      let above : suc Z ≤ Y = omega (arith, ltb→le Y Z ge) in
      inr (omega (arith, suc-mul Z width, mul-le-mul_right width above))
]

-- The rectangle, on the screen.
abbrev pub inside : (height : ℕ) → FbDraw → (X Y : ℕ) → Bool
inside height draw X Y =
    (leb draw.x X && ltb X (draw.x + draw.w))
    && (leb draw.y Y && (ltb Y (draw.y + draw.h) && ltb Y height))

-- The rows from `j` on.
abbrev inside_rows : (j k height : ℕ) → FbDraw → (X Y : ℕ) → Bool
inside_rows j k height draw X Y =
    (leb draw.x X && ltb X (draw.x + draw.w))
    && (leb (draw.y + j) Y && (ltb Y (draw.y + j + k) && ltb Y height))

abbrev pub drawn : FbDraw → (X Y : ℕ) → Pixel
drawn draw X Y = pixel_of (draw.pixels (draw.w * (Y - draw.y) + (X - draw.x)))

module _ (width height : ℕ) (draw : FbDraw) (X Y : ℕ) (h : X < width) where
  -- One row, if it is on the screen.
  abbrev row_drawn : ℕ → Frame → Frame
  row_drawn j fb =
      if ltb (draw.y + j) height
      then paint_row (cut draw.x draw.w width) 0 (draw.x + (j + draw.y) * width) (draw.w * j)
          draw.pixels fb
      else fb

  in_columns : Bool
  in_columns = leb draw.x X && ltb X (draw.x + draw.w)

  inside-on :
      (j : ℕ)
      → ltb (draw.y + j) height ≡ true
      → Y ≡ j + draw.y
      → inside_rows j 1 height draw X Y ≡ in_columns
  unfolding in_columns
  inside-on j on e = ground arith

  inside-other : (j : ℕ) → Y ≢ j + draw.y → inside_rows j 1 height draw X Y ≡ false
  inside-other j ne = ground arith

  inside-off : (j : ℕ) → ltb (draw.y + j) height ≡ false → inside_rows j 1 height draw X Y ≡ false
  inside-off j off = ground arith

  same_row :
      (j : ℕ) (fb : Frame)
      → Y ≡ j + draw.y
      → paint_row
          (cut draw.x draw.w width)
          0
          (draw.x + (j + draw.y) * width)
          (draw.w * j)
          draw.pixels
          fb
          (X + Y * width)
        ≡ (if in_columns then drawn draw X Y else fb (X + Y * width))
  unfolding in_columns
  same_row j fb e =
      let row : (j + draw.y) * width ≡ Y * width = ap (λ y. y * width) (sym e) in
      let above : Y - draw.y ≡ j = omega arith in
      rw
        (
          row,
          paint_row-at (cut draw.x draw.w width) (draw.x + Y * width) (draw.w * j) draw.pixels fb
              (X + Y * width),
          hit-same X draw.x draw.w width (Y * width) h,
          above,
        )
        (elim (Bool-cases (leb draw.x X && ltb X (draw.x + draw.w))) [
          | inl hit ↦
              let offset : X + Y * width - (draw.x + Y * width) ≡ X - draw.x = ground arith in
              rw (hit, offset) refl
          | inr miss ↦ rw miss refl
        ])

  other_row :
      (j : ℕ) (fb : Frame)
      → Y ≢ j + draw.y
      → paint_row
          (cut draw.x draw.w width)
          0
          (draw.x + (j + draw.y) * width)
          (draw.w * j)
          draw.pixels
          fb
          (X + Y * width)
        ≡ fb (X + Y * width)
  other_row j fb ne =
      rw
        (
          paint_row-at (cut draw.x draw.w width) (draw.x + (j + draw.y) * width) (draw.w * j)
              draw.pixels fb (X + Y * width),
          hit-other X draw.x draw.w width (Y * width) ((j + draw.y) * width) h
              (rows_apart Y (j + draw.y) width ne),
        )
        refl

  row_drawn-at :
      (j : ℕ) (fb : Frame)
      → row_drawn j fb (X + Y * width)
        ≡ (if inside_rows j 1 height draw X Y then drawn draw X Y else fb (X + Y * width))
  row_drawn-at j fb = elim (Bool-cases (ltb (draw.y + j) height)) [
    | inl on ↦ elim (Bool-cases (Y == j + draw.y)) [
      | inl same ↦ let e = ==→eq Y (j + draw.y) same in rw (on, inside-on j on e) (same_row j fb e)
      | inr other ↦
          let ne : Y ≢ j + draw.y = ground arith in rw (on, inside-other j ne) (other_row j fb ne)
    ]
    | inr off ↦ rw (off, inside-off j off) refl
  ]

  rows_join :
      (j k : ℕ) (old new : Pixel)
      → (if inside_rows (j + 1) k height draw X Y
          then new
          else if inside_rows j 1 height draw X Y
          then new
          else old)
        ≡ (if inside_rows j (suc k) height draw X Y then new else old)
  rows_join j k old new = ground arith

  paint_rows-at :
      (k j : ℕ) (fb : Frame)
      → paint_rows k j width height draw fb (X + Y * width)
        ≡ (if inside_rows j k height draw X Y then drawn draw X Y else fb (X + Y * width))
  unfolding paint_rows
  paint_rows-at zero j fb =
      let outside : inside_rows j 0 height draw X Y ≡ false = ground arith in rw outside refl
  paint_rows-at (suc k) j fb =
      paint_rows-at k (j + 1) (row_drawn j fb)
      ∙ rw (row_drawn-at j fb) (rows_join j k (fb (X + Y * width)) (drawn draw X Y))

  -- All rows.
  pub paint_rows-inside :
      (fb : Frame)
      → paint_rows draw.h 0 width height draw fb (X + Y * width)
        ≡ (if inside height draw X Y then drawn draw X Y else fb (X + Y * width))
  paint_rows-inside fb =
      let from_zero : draw.y + 0 ≡ draw.y = omega arith in
      paint_rows-at draw.h 0 fb ∙ rw from_zero refl
