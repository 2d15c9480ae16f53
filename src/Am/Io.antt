-- ===== src/Am/Io.antt =====
-- The serial port, the clock and the keyboard of abstract-machine/am/src/x86/qemu/ioe.c. The devices are
-- a parameter: a state, and what the instructions `in` and `out` do with it.
pub mod Clock
pub mod Keyboard
use njuoslab_l1_kmalloc_kfre.Base.{
  ℕ, zero, suc, ◌+◌, ◌*◌, ◌/◌, ◌%◌, ◌==◌, ltb, if◌then◌else◌, Bool, true, false, Option, none, some,
  List, [], ◌∷◌,
}

pub record Ports (D : Type 0) : Type 0 where
  pub inb : ℕ → D → ℕ × D
  pub outb : ℕ → ℕ → D → D

pub record Rtc : Type 0 where
  pub second : ℕ
  pub minute : ℕ
  pub hour : ℕ
  pub day : ℕ
  pub month : ℕ
  pub year : ℕ

pub data Key : Type 0 where
  key_none key_escape key_f1 key_f2 key_f3 key_f4 key_f5 : Key
  key_f6 key_f7 key_f8 key_f9 key_f10 key_f11 key_f12 : Key
  key_grave key_1 key_2 key_3 key_4 key_5 key_6 : Key
  key_7 key_8 key_9 key_0 key_minus key_equals key_backspace : Key
  key_tab key_q key_w key_e key_r key_t key_y : Key
  key_u key_i key_o key_p key_leftbracket key_rightbracket key_backslash : Key
  key_capslock key_a key_s key_d key_f key_g key_h : Key
  key_j key_k key_l key_semicolon key_apostrophe key_return key_lshift : Key
  key_z key_x key_c key_v key_b key_n key_m : Key
  key_comma key_period key_slash key_rshift key_lctrl key_application key_lalt : Key
  key_space key_ralt key_rctrl key_up key_down key_left key_right : Key
  key_insert key_delete key_home key_end key_pageup key_pagedown : Key

-- `[code] = key` for each of the list, where the last one counts.
unfoldable pub set_keys : List (ℕ × Key) → (ℕ → Key) → ℕ → Key
set_keys [] lut = lut
set_keys ((code, key) ∷ rest) lut = set_keys rest (λ i. if i == code then key else lut i)

unfoldable pub keylut : ℕ → Key
keylut =
    set_keys
      ((1, key_escape)
        ∷ (2, key_1)
        ∷ (3, key_2)
        ∷ (4, key_3)
        ∷ (5, key_4)
        ∷ (6, key_5)
        ∷ (7, key_6)
        ∷ (8, key_7)
        ∷ (9, key_8)
        ∷ (10, key_9)
        ∷ (11, key_0)
        ∷ (12, key_minus)
        ∷ (13, key_equals)
        ∷ (14, key_backspace)
        ∷ (15, key_tab)
        ∷ (16, key_q)
        ∷ (17, key_w)
        ∷ (18, key_e)
        ∷ (19, key_r)
        ∷ (20, key_t)
        ∷ (21, key_y)
        ∷ (22, key_u)
        ∷ (23, key_i)
        ∷ (24, key_o)
        ∷ (25, key_p)
        ∷ (26, key_leftbracket)
        ∷ (27, key_rightbracket)
        ∷ (28, key_return)
        ∷ (29, key_lctrl)
        ∷ (30, key_a)
        ∷ (31, key_s)
        ∷ (32, key_d)
        ∷ (33, key_f)
        ∷ (34, key_g)
        ∷ (35, key_h)
        ∷ (36, key_j)
        ∷ (37, key_k)
        ∷ (38, key_l)
        ∷ (39, key_semicolon)
        ∷ (40, key_apostrophe)
        ∷ (41, key_grave)
        ∷ (42, key_lshift)
        ∷ (43, key_backslash)
        ∷ (44, key_z)
        ∷ (45, key_x)
        ∷ (46, key_c)
        ∷ (47, key_v)
        ∷ (48, key_b)
        ∷ (49, key_n)
        ∷ (50, key_m)
        ∷ (51, key_comma)
        ∷ (52, key_period)
        ∷ (53, key_slash)
        ∷ (54, key_rshift)
        ∷ (56, key_lalt)
        ∷ (56, key_ralt)
        ∷ (57, key_space)
        ∷ (58, key_capslock)
        ∷ (59, key_f1)
        ∷ (60, key_f2)
        ∷ (61, key_f3)
        ∷ (62, key_f4)
        ∷ (63, key_f5)
        ∷ (64, key_f6)
        ∷ (65, key_f7)
        ∷ (66, key_f8)
        ∷ (67, key_f9)
        ∷ (68, key_f10)
        ∷ (72, key_insert)
        ∷ (75, key_home)
        ∷ (77, key_end)
        ∷ (80, key_delete)
        ∷ (87, key_f11)
        ∷ (88, key_f12)
        ∷ (91, key_application)
        ∷ [])
      (λ i. key_none)

pub record Keybrd : Type 0 where
  pub keydown : Bool
  pub keycode : Key

module _ {D : Type 0} (io : Ports D) where
  abbrev pub com1 : ℕ
  com1 = 0x3f8

  abbrev pub uart_init : D → D
  uart_init d =
      let d' = io.outb (com1 + 2) 0 d in
      let d' = io.outb (com1 + 3) 0x80 d' in
      let d' = io.outb com1 (115200 / 9600) d' in
      let d' = io.outb (com1 + 1) 0 d' in
      let d' = io.outb (com1 + 3) 0x03 d' in
      let d' = io.outb (com1 + 4) 0 d' in
      let d' = io.outb (com1 + 1) 0x01 d' in
      let (_, d') = io.inb (com1 + 2) d' in let (_, d') = io.inb com1 d' in d'

  abbrev pub uart_tx : ℕ → D → D
  uart_tx data_byte d = io.outb com1 data_byte d

  -- The byte, where -1 is 255.
  abbrev pub uart_rx : D → ℕ × D
  uart_rx d =
      let (status, d') = io.inb (com1 + 5) d in
      if status % 2 == 1 then io.inb com1 d' else (255, d')

  pub read_rtc : ℕ → D → ℕ × D
  read_rtc reg d =
      let (ret, d') = io.inb 0x71 (io.outb 0x70 reg d) in (ret % 16 + ret / 16 * 10, d')

  pub read_rtc_async : D → Rtc × D
  read_rtc_async d =
      let (s, d1) = read_rtc 0 d in
      let (mi, d2) = read_rtc 2 d1 in
      let (h, d3) = read_rtc 4 d2 in
      let (da, d4) = read_rtc 7 d3 in
      let (mo, d5) = read_rtc 8 d4 in
      let (y, d6) = read_rtc 9 d5 in
      (record { second = s; minute = mi; hour = h; day = da; month = mo; year = y + 2000 }, d6)

  -- The loop of `timer_rtc`, until the second did not change.
  pub timer_rtc : (fuel : ℕ) → D → Option (Rtc × D)
  timer_rtc zero d = none
  timer_rtc (suc k) d =
      let (rtc, d') = read_rtc_async d in
      let (tmp, d'') = read_rtc 0 d' in
      elim (tmp == rtc.second) [ true ↦ some (rtc, d'') | false ↦ timer_rtc k d'' ]

  unfoldable pub input_keybrd : D → Keybrd × D
  input_keybrd d =
      let (status, d') = io.inb 0x64 d in
      if status % 2 == 1
      then (let (scan, d'') = io.inb 0x60 d' in
          let code = scan % 256 in
          (record { keydown = ltb code 128; keycode = keylut (code % 128) }, d''))
      else (record { keydown = false; keycode = key_none }, d')
