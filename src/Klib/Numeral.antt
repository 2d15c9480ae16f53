-- ===== src/Klib/Numeral.antt =====
-- Numbers as digits in a base.
use native.Mathlib.Nat.{
  pow-zero, pow-suc, one-le-pow, div-lt_iff_lt-mul, le-div_iff_mul-le, mod-lt, mul_comm, mul-suc,
  div-add-mod',
}
use njuoslab_l1_kmalloc_kfre.Base.{
  ℕ, zero, suc, ◌+◌, ◌-◌, ◌*◌, ◌/◌, ◌%◌, ◌^◌, ◌≤◌, ◌<◌, ◌≡◌, refl, sym, ap, ◌∙◌, arith, List, [],
  ◌∷◌, length, All, ◌⊎◌, inl, inr,
}

-- The `cnt` lowest digits of a number, the highest one first.
abbrev pub positional : (base cnt value : ℕ) → List ℕ
positional base zero value = []
positional base (suc c) value = value / base ^ c ∷ positional base c (value % base ^ c)

-- The number that these digits continue.
abbrev pub read_digits : (base : ℕ) → List ℕ → ℕ → ℕ
read_digits base [] x = x
read_digits base (d ∷ ds) x = read_digits base ds (x * base + d)

pub length-positional : (base cnt value : ℕ) → length (positional base cnt value) ≡ cnt
length-positional base zero value = refl
length-positional base (suc c) value = ap suc (length-positional base c (value % base ^ c))

-- No fewer than `d` digits hold the number.
abbrev pub Least : (base value d : ℕ) → Type 0
Least base value d =
    (value < base ^ d) × (((d ≡ 0) × (value ≡ 0)) ⊎ ((e : ℕ) × (d ≡ suc e) × (base ^ e ≤ value)))

module _ (base : ℕ) (h : 2 ≤ base) where
  pub power_pos : (c : ℕ) → 0 < base ^ c
  power_pos c = one-le-pow c base (omega arith)

  pub digit-lt : (c value : ℕ) → value < base ^ suc c → value / base ^ c < base
  digit-lt c value lt =
      (div-lt_iff_lt-mul (power_pos c)).1
        (rw (sym (mul_comm (base ^ c) base), sym (pow-suc base c)) lt)

  pub read-positional :
      (cnt value x : ℕ)
      → value < base ^ cnt
      → read_digits base (positional base cnt value) x ≡ x * base ^ cnt + value
  read-positional zero value x lt = rw (pow-zero base) (omega (arith, pow-zero base))
  read-positional (suc c) value x lt =
      read-positional c (value % base ^ c) (x * base + value / base ^ c)
        (mod-lt value (power_pos c))
      ∙ rw (pow-suc base c) (omega (arith, div-add-mod' value (base ^ c)))

  pub quotient-lt : (c value : ℕ) → value < base ^ suc c → value / base < base ^ c
  quotient-lt c value lt = (div-lt_iff_lt-mul (omega arith)).1 (rw (sym (pow-suc base c)) lt)

  pub power-le :
      (value d : ℕ)
      → 0 < value
      → ((d ≡ 0) × (value / base ≡ 0)) ⊎ ((e : ℕ) × (d ≡ suc e) × (base ^ e ≤ value / base))
      → base ^ d ≤ value
  power-le value d pos (inl (none, _)) = rw none (omega (arith, pow-zero base))
  power-le value d pos (inr (e, some, le)) =
      rw (some, pow-suc base e) ((le-div_iff_mul-le (omega arith)).0 le)

pub le-mul : (x p : ℕ) → 0 < p → x ≤ x * p
le-mul x zero h = elim h [ ]
le-mul x (suc q) h = rw (mul-suc x q) (omega arith)

pub positional-lt :
    (base cnt value : ℕ)
    → 2 ≤ base
    → value < base ^ cnt
    → All (λ d. d < base) (positional base cnt value)
positional-lt base zero value h lt = tt
positional-lt base (suc c) value h lt = (
  digit-lt base h c value lt,
  positional-lt base c (value % base ^ c) h (mod-lt value (power_pos base h c)),
)

-- A number in digits of a base: `ds` are the digits of `value`, without leading zeros.
pub record IsNumeral (base value : ℕ) (ds : List ℕ) : Type 0 where
  pub digits : All (λ d. d < base) ds
  pub reads : read_digits base ds 0 ≡ value
  pub some_digit : 0 < length ds
  pub least : (value ≡ 0) ⊎ (base ^ (length ds - 1) ≤ value)

pub positional-IsNumeral :
    (base value d : ℕ)
    → 2 ≤ base
    → value < base ^ suc d
    → (value ≡ 0) ⊎ (base ^ d ≤ value)
    → IsNumeral base value (positional base (suc d) value)
positional-IsNumeral base value d h above least =
    let len = length-positional base d (value % base ^ d) in
    let last : length (positional base (suc d) value) - 1 ≡ d = omega (arith, len) in
    record {
      digits = positional-lt base (suc d) value h above;
      reads = read-positional base h (suc d) value 0 above ∙ omega arith;
      some_digit = omega arith;
      least = elim least [ inl z ↦ inl z | inr le ↦ inr (rw last le) ];
    }
