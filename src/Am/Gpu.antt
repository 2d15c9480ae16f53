-- ===== src/Am/Gpu.antt =====
-- The frame buffer of abstract-machine/am/src/x86/qemu/ioe.c, as a function of the index of a pixel. A canvas
-- in video memory is a tree, with the links followed, and a canvas lies in its parent, so that the buffers
-- of `render` are apart; its coordinates are not negative.
pub mod Rectangle
pub mod Clip
pub mod Scale
use njuoslab_l1_kmalloc_kfre.Base.{
  ℕ, zero, suc, ◌+◌, ◌-◌, ◌*◌, ◌/◌, ◌%◌, ◌^◌, ◌==◌, ltb, if◌then◌else◌, Bool, Option, none, some,
}
use njuoslab_l1_kmalloc_kfre.Base.Words.{u32, sub32, add64, sext}

pub record Pixel : Type 0 where
  pub b : ℕ
  pub g : ℕ
  pub r : ℕ

-- `R(p)`, `G(p)` and `B(p)`.
abbrev pub pixel_of : ℕ → Pixel
pixel_of p = record { b = p % 256; g = p / 2 ^ 8 % 256; r = p / 2 ^ 16 % 256 }

abbrev pub Frame : Type 0
Frame = ℕ → Pixel

abbrev pub set_pixel : Frame → ℕ → Pixel → Frame
set_pixel fb i p a = if a == i then p else fb a

-- `int` coordinates, as 32-bit patterns.
pub record FbDraw : Type 0 where
  pub x : ℕ
  pub y : ℕ
  pub w : ℕ
  pub h : ℕ
  pub pixels : ℕ → ℕ

-- `a < b` on `int`.
abbrev pub int_lt : ℕ → ℕ → Bool
int_lt a b = ltb ((a + 2 ^ 31) % 2 ^ 32) ((b + 2 ^ 31) % 2 ^ 32)

-- The rounds of a loop from 0 up to an `int`.
abbrev pub rounds_to : ℕ → ℕ
rounds_to n = if ltb n (2 ^ 31) then n else 0

-- The loop over `i`, with `px` at `start + i` and `pixels[i]` at `row + i`; an index is a 64-bit pattern.
pub draw_row : (rounds i start row : ℕ) → (ℕ → ℕ) → Frame → Frame
draw_row zero i start row pixels fb = fb
draw_row (suc k) i start row pixels fb =
    draw_row k (i + 1) start row pixels
      (set_pixel fb (add64 start i) (pixel_of (pixels (add64 row i))))

-- `(x + w >= W) ? W - x : w`
abbrev pub clipped : (x w width : ℕ) → ℕ
clipped x w width = if int_lt (u32 (x + w)) width then w else sub32 width x

-- `&fb[x + (j + y) * W]`
abbrev pub row_start : (j width : ℕ) → FbDraw → ℕ
row_start j width draw = sext (u32 (draw.x + u32 (u32 (j + draw.y) * width)))

-- The loop over `j`, which has passed `w` pixels in each round.
pub draw_rows : (rounds j width height : ℕ) → FbDraw → Frame → Frame
draw_rows zero j width height draw fb = fb
draw_rows (suc k) j width height draw fb =
    let fb' =
      if int_lt (u32 (draw.y + j)) height
      then draw_row (rounds_to (clipped draw.x draw.w width)) 0 (row_start j width draw)
          (sext draw.w * j % 2 ^ 64) draw.pixels fb
      else fb in
    draw_rows k (j + 1) width height draw fb'

pub gpu_fbdraw : (width height : ℕ) → FbDraw → Frame → Frame
gpu_fbdraw width height draw fb = draw_rows (rounds_to draw.h) 0 width height draw fb

-- Where a canvas stands in its parent, scaled to `w1` times `h1`.
pub record Place : Type 0 where
  pub x1 : ℕ
  pub y1 : ℕ
  pub w1 : ℕ
  pub h1 : ℕ

mutual
  pub data Canvas : Type 0 where
    texture : Place → (w h : ℕ) → Frame → Canvas
    subtree : Place → (w h : ℕ) → Canvases → Canvas

  pub data Canvases : Type 0 where
    none_left : Canvases
    sibling : Canvas → Canvases → Canvases

abbrev pub vmem_size : ℕ
vmem_size = 2 ^ 19

-- `vbuf_alloc(size)`: the new `vbuf_head`, from the start of the buffer, or the panic.
unfoldable pub vbuf_alloc : (head size : ℕ) → Option ℕ
vbuf_alloc head size = if ltb vmem_size (head + size) then none else some (head + size)

abbrev pub blank_pixel : Pixel
blank_pixel = record { b = 0; g = 0; r = 0 }

-- `w * (j * h / cv->h1) + (i * w / cv->w1)`
pub source_index : (w h : ℕ) → Place → (i j : ℕ) → ℕ
source_index w h at i j = w * (j * h / at.h1) + i * w / at.w1

-- The inner loop, over `j`, and the outer one, over `i`.
unfoldable pub scale_column : (rounds j i w h width : ℕ) → Place → (local px : Frame) → Frame
scale_column zero j i w h width at local px = px
scale_column (suc k) j i w h width at local px =
    scale_column k (j + 1) i w h width at local
      (set_pixel px (width * (at.y1 + j) + (at.x1 + i)) (local (source_index w h at i j)))

unfoldable pub scale_columns : (rounds i w h width : ℕ) → Place → (local px : Frame) → Frame
scale_columns zero i w h width at local px = px
scale_columns (suc k) i w h width at local px =
    scale_columns k (i + 1) w h width at local (scale_column at.h1 0 i w h width at local px)

mutual
  -- `render`, into `px` of a parent of this width; it passes `vbuf_head` on. A pixel has three bytes.
  pub render : Canvas → (width : ℕ) → Frame → (head : ℕ) → Option (Frame × ℕ)
  render (texture at w h local) width px head =
      some (scale_columns at.w1 0 w h width at local px, head)
  render (subtree at w h children) width px head = elim (vbuf_alloc head (w * h * 3)) [
    | none ↦ none
    | some head' ↦ elim (render_all children w (λ _. blank_pixel) head') [
      | none ↦ none
      | some drawn ↦ some (scale_columns at.w1 0 w h width at drawn.0 px, drawn.1)
    ]
  ]

  pub render_all : Canvases → (width : ℕ) → Frame → (head : ℕ) → Option (Frame × ℕ)
  render_all none_left width px head = some (px, head)
  render_all (sibling canvas rest) width px head = elim (render canvas width px head) [
    | none ↦ none
    | some drawn ↦ render_all rest width drawn.0 drawn.1
  ]

-- `gpu_render` starts with an empty buffer.
unfoldable pub gpu_render : Canvas → (width : ℕ) → Frame → Option (Frame × ℕ)
gpu_render root width fb = render root width fb 0
