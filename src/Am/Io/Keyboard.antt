-- ===== src/Am/Io/Keyboard.antt =====
-- Keys of abstract-machine/am/src/x86/qemu/ioe.c that are pressed and released.
use njuoslab_l1_kmalloc_kfre.Base.{
  ℕ, ◌+◌, ◌%◌, ◌<◌, ◌≡◌, refl, ap, ◌∙◌, arith, ltb, true, false, eq→==,
}
use njuoslab_l1_kmalloc_kfre.Am.Io.{Ports, keylut, input_keybrd}

-- The documented interface of the keyboard: bit 0 at port 0x64 tells that a scan code can be read at port
-- 0x60.
abbrev pub HasCode : {D : Type 0} → Ports D → D → ℕ → Type 0
HasCode io d code = ((io.inb 0x64 d).0 % 2 ≡ 1) × ((io.inb 0x60 (io.inb 0x64 d).1).0 ≡ code)

input_keybrd-code :
    {D : Type 0} (io : Ports D) (code : ℕ) (d : D)
    → code < 256
    → HasCode io d code
    → (input_keybrd io d).0 ≡ record { keydown = ltb code 128; keycode = keylut (code % 128) }
unfolding input_keybrd
input_keybrd-code io code d h (on, read) =
    let byte : code % 256 ≡ code = omega arith in
    rw (eq→== ((io.inb 0x64 d).0 % 2) 1 on, read, byte) refl

-- Where a key's scan code `c` is read before `c + 128`, `input_keybrd` reports that the key `keylut[c]`
-- is pressed, and then that the same key is released.
pub input_keybrd-released :
    {D : Type 0} (io : Ports D) (c : ℕ) (d : D)
    → c < 128
    → HasCode io d c
    → HasCode io (input_keybrd io d).1 (c + 128)
    → ((input_keybrd io d).0.keydown ≡ true)
      × ((input_keybrd io d).0.keycode ≡ keylut c)
      × ((input_keybrd io (input_keybrd io d).1).0.keydown ≡ false)
      × ((input_keybrd io (input_keybrd io d).1).0.keycode ≡ keylut c)
input_keybrd-released io c d h pressed released =
    let first = input_keybrd-code io c d (omega arith) pressed in
    let second = input_keybrd-code io (c + 128) (input_keybrd io d).1 (omega arith) released in
    let low : ltb c 128 ≡ true = ground arith in
    let high : ltb (c + 128) 128 ≡ false = ground arith in
    let same : c % 128 ≡ c = omega arith in
    let same' : (c + 128) % 128 ≡ c = omega arith in
    (
      ap (λ k. k.keydown) first ∙ low,
      ap (λ k. k.keycode) first ∙ ap keylut same,
      ap (λ k. k.keydown) second ∙ high,
      ap (λ k. k.keycode) second ∙ ap keylut same',
    )
