-- ===== src/Klib/Stdio/Signed.antt =====
-- The text of an `int`, stated without the loops of abstract-machine/klib/src/stdio.c, and that `%d` prints
-- it. The least `int` has the wrong text that the program prints.
use native.Mathlib.Nat.{pow-le-pow_right}
use native.Mathlib.Decide.{dec_le, ℕ_discrete}
use njuoslab_l1_kmalloc_kfre.Base.{
  ℕ, zero, suc, ◌-◌, ◌^◌, ◌≤◌, ◌<◌, ◌≡◌, ◌⊎◌, inl, inr, refl, sym, ap, ◌∙◌, arith, List, [], ◌∷◌,
  map, ◌==◌, leb, ltb, if◌then◌else◌, ne→==, lt→ltb, le→ltb, le→leb,
}
use njuoslab_l1_kmalloc_kfre.Base.Words.{sext, sext-small}
use njuoslab_l1_kmalloc_kfre.Klib.Numeral.{positional}
use njuoslab_l1_kmalloc_kfre.Klib.Stdio.{
  decimal, int_digits, digit_count, count_digits, m_pow_n, pow_loop, negated,
}
use njuoslab_l1_kmalloc_kfre.Klib.Stdio.Digits.{
  digit_char, int_digits-positional, digit_count-least, fits_long,
}
use njuoslab_l1_kmalloc_kfre.Klib.Text.Strncpy.{leb_over}

-- The number of decimal digits, if it is at most `k + 1`.
abbrev pub decimal_width : (k value : ℕ) → ℕ
decimal_width zero value = 1
decimal_width (suc k) value = if ltb value (10 ^ suc k) then decimal_width k value else suc (suc k)

-- The digits of a number below 10 ^ 10, by their place.
abbrev pub numeral_text : ℕ → List ℕ
numeral_text value = map digit_char (positional 10 (decimal_width 9 value) value)

-- What the program prints for -2 ^ 31, whose negation is no `int`.
abbrev pub least_int_text : List ℕ
least_int_text =
    b'-' ∷ b'1' ∷ b'B' ∷ b'0' ∷ b'0' ∷ b'0' ∷ b'0' ∷ b'0' ∷ b'0' ∷ b'0' ∷ b'0' ∷ b'0' ∷ b'8' ∷ b'2'
    ∷ b'3' ∷ b'1' ∷ b'3' ∷ b'2' ∷ b'1' ∷ b'6' ∷ b'0' ∷ []

-- The text of an `int`: a minus sign where it is negative, and the digits of its absolute value; the least
-- `int` has the text that the program gives it.
abbrev pub signed_text : ℕ → List ℕ
signed_text v =
    if v == 2 ^ 31
    then least_int_text
    else if leb (2 ^ 31) v
    then b'-' ∷ numeral_text (2 ^ 32 - v)
    else numeral_text v

width-least :
    (k value e : ℕ)
    → e ≤ k
    → value < 10 ^ suc e
    → (e ≡ 0) ⊎ (10 ^ e ≤ value)
    → decimal_width k value ≡ suc e
width-least zero value e le above least = omega arith
width-least (suc k) value e le above least = elim (ℕ_discrete e (suc k)) [
  | yes same ↦
      let reached : 10 ^ suc k ≤ value = elim least [
        | inl none_left ↦ absurd (omega arith)
        | inr r ↦ rw (sym same) r
      ] in
      rw (le→ltb value (10 ^ suc k) reached) (ap suc (sym same))
  | no less ↦
      let up = pow-le-pow_right {n = 10} (omega arith) {i = suc e} {j = suc k} (omega arith) in
      rw (lt→ltb value (10 ^ suc k) (omega arith)) (width-least k value e (omega arith) above least)
]

digits-numeral :
    (value : ℕ)
    → value < 2147483648
    → int_digits 10 (digit_count 10 (sext value)) value ≡ numeral_text value
digits-numeral value small =
    let (e, count, above, least) = digit_count-least 10 value (omega arith) (omega arith) in
    let reached : (e ≡ 0) ⊎ (10 ^ e ≤ value) = elim least [
      | inl (_, z) ↦ inl z
      | inr le ↦ inr le
    ] in
    let below : e ≤ 9 = elim (dec_le e 9) [
      | yes le ↦ le
      | no gt ↦
          let up = pow-le-pow_right {n = 10} (omega arith) {i = 10} {j = e} (omega arith) in
          absurd (omega (arith, reached))
    ] in
    rw (sext-small value small, count, width-least 9 value e below above reached)
      (int_digits-positional 10 (omega arith) (suc e) value small
        (fits_long 10 value e (omega arith) (omega arith) least))

decimal-least_int : decimal (2 ^ 31) ≡ least_int_text
unfolding decimal int_digits digit_count count_digits m_pow_n pow_loop
decimal-least_int = refl

-- `%d` of an `int` prints that text.
pub decimal-signed : (v : ℕ) → v < 2 ^ 32 → decimal v ≡ signed_text v
unfolding decimal
decimal-signed v w = elim (ℕ_discrete v (2 ^ 31)) [
  | yes least ↦ ap decimal least ∙ decimal-least_int ∙ ap signed_text (sym least)
  | no other ↦ elim (dec_le (2 ^ 31) v) [
    | yes minus ↦
        let n : negated v ≡ 2 ^ 32 - v = omega arith in
        rw (ne→== v (2 ^ 31) other, le→leb (2 ^ 31) v minus, n)
          (ap (λ (l : List ℕ). b'-' ∷ l) (digits-numeral (2 ^ 32 - v) (omega arith)))
    | no plus ↦
        rw (ne→== v (2 ^ 31) other, leb_over (2 ^ 31) v (omega arith))
          (digits-numeral v (omega arith))
  ]
]
