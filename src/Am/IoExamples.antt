-- ===== src/Am/IoExamples.antt =====
-- The theorems on devices with concrete devices.
use njuoslab_l1_kmalloc_kfre.Base.{
  ℕ, ◌≡◌, refl, arith, ◌==◌, if◌then◌else◌, true, false, List, [], ◌∷◌,
}
use njuoslab_l1_kmalloc_kfre.Am.Io.{Ports, keylut, set_keys, input_keybrd, key_a}
use njuoslab_l1_kmalloc_kfre.Am.Io.Clock.{bcd, IsClock}
use njuoslab_l1_kmalloc_kfre.Am.Io.Keyboard.{input_keybrd-released}

-- A clock that stands at 23:59:58 on the last day of 2022; its state is the register that is selected.
abbrev last_evening : ℕ → ℕ
last_evening reg =
    if reg == 0
    then 58
    else if reg == 2
    then 59
    else if reg == 4
    then 23
    else if reg == 7
    then 31
    else if reg == 8
    then 12
    else if reg == 9
    then 22
    else 0

abbrev clock_ports : Ports ℕ
clock_ports = record {
  inb = λ port reg. (bcd (last_evening reg), reg);
  outb = λ port value reg. if port == 0x70 then value else reg;
}

clock_ports-IsClock : IsClock clock_ports (λ _. last_evening)
clock_ports-IsClock = record {
  digits = λ d reg. ground arith;
  reads = λ d reg. refl;
  stands = λ d reg r. refl;
}

-- A keyboard that sends these scan codes.
abbrev next_code : List ℕ → ℕ × List ℕ
next_code [] = (0, [])
next_code (c ∷ cs) = (c, cs)

abbrev has_code : List ℕ → ℕ
has_code [] = 0
has_code (c ∷ cs) = 1

abbrev keyboard : Ports (List ℕ)
keyboard = record {
  inb = λ port codes. if port == 0x64 then (has_code codes, codes) else next_code codes;
  outb = λ port value codes. codes;
}

-- `A` is pressed and released.
input_keybrd-released_example :
    ((input_keybrd keyboard (0x1e ∷ 0x9e ∷ [])).0.keydown ≡ true)
    × ((input_keybrd keyboard (0x1e ∷ 0x9e ∷ [])).0.keycode ≡ keylut 0x1e)
    × ((input_keybrd keyboard (input_keybrd keyboard (0x1e ∷ 0x9e ∷ [])).1).0.keydown ≡ false)
    × ((input_keybrd keyboard (input_keybrd keyboard (0x1e ∷ 0x9e ∷ [])).1).0.keycode ≡ keylut 0x1e)
unfolding input_keybrd
input_keybrd-released_example =
    input_keybrd-released keyboard 0x1e (0x1e ∷ 0x9e ∷ []) (omega arith) (refl, refl) (refl, refl)

keylut_a : keylut 0x1e ≡ key_a
unfolding keylut set_keys
keylut_a = refl
