-- ===== src/Klib/Stdio/Digits.antt =====
-- The digits that the loops of abstract-machine/klib/src/stdio.c compute.
use native.Mathlib.Nat.{
  pow-zero, pow-suc, pow-le-pow_right, div-lt_iff_lt-mul, mod-le, mod-eq_of_lt,
}
use njuoslab_l1_kmalloc_kfre.Base.{
  ℕ, zero, suc, ◌+◌, ◌-◌, ◌*◌, ◌/◌, ◌%◌, ◌^◌, ◌≤◌, ◌<◌, ◌≡◌, refl, sym, ◌∙◌, arith, ◌==◌, ==→eq,
  if◌then◌else◌, leb, List, map, ◌⊎◌, inl, inr, Bool-cases,
}
use njuoslab_l1_kmalloc_kfre.Base.Words.{u32, sext-small}
use njuoslab_l1_kmalloc_kfre.Klib.Text.Strncpy.{leb_over}
use njuoslab_l1_kmalloc_kfre.Klib.Stdio.{
  pow_loop, m_pow_n, count_digits, digit_count, int_digits, hex_digits, decimal, hexadecimal,
}
use njuoslab_l1_kmalloc_kfre.Klib.Numeral.{
  IsNumeral, Least, le-mul, positional, positional-IsNumeral, power-le, power_pos, quotient-lt,
}

module _ (base : ℕ) (h : 2 ≤ base) where
  -- The number of digits is enough, and the least such.
  count_digits-Least :
      (rounds value cnt : ℕ)
      → value < base ^ rounds
      → (d : ℕ) × (count_digits rounds base value cnt ≡ cnt + d) × Least base value d
  unfolding count_digits
  count_digits-Least zero value cnt lt =
      (0, omega arith, (lt, inl (refl, omega (arith, pow-zero base))))
  count_digits-Least (suc k) value cnt lt =
      let (d, e, (above, least)) =
        count_digits-Least k (value / base) (cnt + 1) (quotient-lt base h k value lt) in
      elim (Bool-cases (value == 0)) [
        | inl zero_value ↦ (
          0,
          rw zero_value (omega arith),
          (
            omega (arith, pow-zero base, ==→eq value 0 zero_value),
            inl (refl, ==→eq value 0 zero_value),
          ),
        )
        | inr positive ↦ (
          suc d,
          rw positive (omega (arith, e)),
          (
            rw (pow-suc base d) ((div-lt_iff_lt-mul (omega arith)).0 above),
            inr (d, refl, power-le base h value d (ground arith) least),
          ),
        )
      ]

-- The characters of digits below 10, and of hexadecimal ones.
abbrev pub digit_char : ℕ → ℕ
digit_char d = (d + 48) % 256

abbrev pub hex_char : ℕ → ℕ
hex_char d = (if leb d 9 then d + 48 else d % 256 + 256 - 10 + 65) % 256

module _ (base : ℕ) (h : 2 ≤ base) where
  pow_loop-pow : (k ret : ℕ) → ret * base ^ k < 2 ^ 64 → pow_loop k base ret ≡ ret * base ^ k
  unfolding pow_loop
  pow_loop-pow zero ret lt = rw (pow-zero base) (omega arith)
  pow_loop-pow (suc k) ret lt =
      let product : ret * base ^ suc k ≡ ret * base * base ^ k =
        rw (pow-suc base k) (omega arith) in
      let small = le-mul (ret * base) (base ^ k) (power_pos base h k) in
      let whole : ret * base % 2 ^ 64 ≡ ret * base = mod-eq_of_lt (omega arith) in
      rw (whole, pow_loop-pow k (ret * base) (omega arith)) (sym product)

  pub m_pow_n-pow : (c : ℕ) → base ^ c < 2 ^ 64 → m_pow_n base c ≡ base ^ c
  unfolding m_pow_n
  m_pow_n-pow c lt = pow_loop-pow c 1 (omega arith) ∙ omega arith

  pub int_digits-positional :
      (cnt value : ℕ)
      → value < 2147483648
      → ((c : ℕ) → c < cnt → base ^ c < 2 ^ 64)
      → int_digits base cnt value ≡ map digit_char (positional base cnt value)
  unfolding int_digits
  int_digits-positional zero value small fits = refl
  int_digits-positional (suc c) value small fits =
      let left : value % base ^ c ≤ value = mod-le value (base ^ c) in
      let narrow : u32 (value % base ^ c) ≡ value % base ^ c = mod-eq_of_lt (omega arith) in
      rw
        (
          m_pow_n-pow c (fits c (omega arith)),
          sext-small value small,
          narrow,
          int_digits-positional c (value % base ^ c) (omega arith) (λ b l. fits b (omega arith)),
        )
        refl

hex_digits-positional :
    (cnt value : ℕ)
    → ((c : ℕ) → c < cnt → 16 ^ c < 2 ^ 64)
    → hex_digits cnt value ≡ map hex_char (positional 16 cnt value)
unfolding hex_digits
hex_digits-positional zero value fits = refl
hex_digits-positional (suc c) value fits =
    rw
      (
        m_pow_n-pow 16 (omega arith) c (fits c (omega arith)),
        hex_digits-positional c (value % 16 ^ c) (λ b l. fits b (omega arith)),
      )
      refl

-- What the program counts is the number of digits.
pub digit_count-least :
    (base value : ℕ)
    → 2 ≤ base
    → value < base ^ 64
    → (e : ℕ) × (digit_count base value ≡ suc e)
      × (value < base ^ suc e)
      × (((value ≡ 0) × (e ≡ 0)) ⊎ (base ^ e ≤ value))
unfolding digit_count
digit_count-least base value h lt =
    let (d, e, (above, least)) = count_digits-Least base h 64 value 0 lt in
    elim (Bool-cases (value == 0)) [
      | inl zero_value ↦ (
        0,
        rw zero_value refl,
        omega (arith, ==→eq value 0 zero_value, power_pos base h 1),
        inl (==→eq value 0 zero_value, refl),
      )
      | inr positive ↦ elim least [
        | inl (_, none) ↦ absurd (ground (arith, none))
        | inr (f, some, le) ↦
            (f, rw positive (e ∙ omega (arith, some)), rw (sym some) above, inr le)
      ]
    ]

pub fits_long :
    (base value e : ℕ)
    → 2 ≤ base
    → value < 2 ^ 64
    → ((value ≡ 0) × (e ≡ 0)) ⊎ (base ^ e ≤ value)
    → (c : ℕ) → c < suc e
    → base ^ c < 2 ^ 64
fits_long base value e h small (inr le) c lt =
    let up = pow-le-pow_right {n = base} (omega arith) {i = c} {j = e} (omega arith) in omega arith
fits_long base value e h small (inl (_, none)) c lt =
    let first : c ≡ 0 = omega arith in rw (first, pow-zero base) (omega arith)

weaken : {A B C : Type 0} → (A × B) ⊎ C → A ⊎ C
weaken (inl (a, _)) = inl a
weaken (inr c) = inr c

decimal-count :
    (value e : ℕ)
    → value < 2147483648
    → digit_count 10 value ≡ suc e
    → value < 10 ^ suc e
    → ((value ≡ 0) × (e ≡ 0)) ⊎ (10 ^ e ≤ value)
    → (ds : List ℕ) × (decimal value ≡ map digit_char ds) × IsNumeral 10 value ds
unfolding decimal
decimal-count value e small count above least = (
  positional 10 (suc e) value,
  rw (leb_over (2 ^ 31) value small, sext-small value small, count)
      (int_digits-positional 10 (omega arith) (suc e) value small
        (fits_long 10 value e (omega arith) (omega arith) least)),
  positional-IsNumeral 10 value e (omega arith) above (weaken least),
)

-- `%d` of a number that is not negative prints its decimal numeral.
pub decimal-IsNumeral :
    (value : ℕ)
    → value < 2147483648
    → (ds : List ℕ) × (decimal value ≡ map digit_char ds) × IsNumeral 10 value ds
decimal-IsNumeral value small =
    let (e, count, above, least) = digit_count-least 10 value (omega arith) (omega arith) in
    decimal-count value e small count above least

hexadecimal-count :
    (value e : ℕ)
    → value < 2 ^ 64
    → digit_count 16 value ≡ suc e
    → value < 16 ^ suc e
    → ((value ≡ 0) × (e ≡ 0)) ⊎ (16 ^ e ≤ value)
    → (ds : List ℕ) × (hexadecimal value ≡ map hex_char ds) × IsNumeral 16 value ds
unfolding hexadecimal
hexadecimal-count value e small count above least = (
  positional 16 (suc e) value,
  rw count (hex_digits-positional (suc e) value (fits_long 16 value e (omega arith) small least)),
  positional-IsNumeral 16 value e (omega arith) above (weaken least),
)

-- `%x` prints the numeral of an `unsigned long` in base 16, with no leading zeros.
pub hexadecimal-IsNumeral :
    (value : ℕ)
    → value < 2 ^ 64
    → (ds : List ℕ) × (hexadecimal value ≡ map hex_char ds) × IsNumeral 16 value ds
hexadecimal-IsNumeral value small =
    let (e, count, above, least) = digit_count-least 16 value (omega arith) (omega arith) in
    hexadecimal-count value e small count above least
