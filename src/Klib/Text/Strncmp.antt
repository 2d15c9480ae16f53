-- ===== src/Klib/Text/Strncmp.antt =====
-- `strncmp` of abstract-machine/klib/src/string.c is the order of the first `n` characters.
use njuoslab_l1_kmalloc_kfre.Base.{
  ℕ, zero, suc, ◌+◌, ◌<◌, ◌≤◌, ◌≡◌, ◌^◌, List, [], ◌∷◌, length, arith, refl, ne→==, eq→==, le→leb,
  inl, inr, Bool-cases, All,
}
use njuoslab_l1_kmalloc_kfre.Base.Words.{u32, sext-small}
use njuoslab_l1_kmalloc_kfre.Machine.{State, ok}
use njuoslab_l1_kmalloc_kfre.Klib.Bytes.{get_byte-ok}
use njuoslab_l1_kmalloc_kfre.Klib.Text.{strncmp, compare_at_most, compare_rest, char_lt}
use njuoslab_l1_kmalloc_kfre.Klib.Text.Length.{IsString}
use njuoslab_l1_kmalloc_kfre.Klib.Text.Strncpy.{take, leb_over}
use njuoslab_l1_kmalloc_kfre.Klib.Text.Order.{
  order, IsByte, Measured, Measured-rest, first_empty, second_empty, char_eq,
}

module _ (fuel : ℕ) (st : State) where
  rest-none :
      (p q n cnt : ℕ) → cnt < 2147483648 → n ≡ cnt + 0 → compare_rest fuel p q n cnt st ≡ ok 0 st
  unfolding compare_rest
  rest-none p q n cnt small e = rw (sext-small cnt small, le→leb n cnt (omega arith)) refl

  rest-first :
      (p q n cnt r : ℕ) (ds : List ℕ)
      → cnt < 2147483648
      → n ≡ cnt + suc r
      → Measured fuel st p []
      → Measured fuel st q ds
      → compare_rest fuel p q n cnt st ≡ ok (order [] (take (suc r) ds)) st
  unfolding compare_rest
  rest-first p q n cnt r [] small e u v =
      rw (sext-small cnt small, leb_over n cnt (omega arith)) (first_empty fuel st p q [] u v)
  rest-first p q n cnt r (d ∷ ds) small e u v =
      rw (sext-small cnt small, leb_over n cnt (omega arith)) (first_empty fuel st p q (d ∷ ds) u v)

  rest-second :
      (p q n cnt r c : ℕ) (cs : List ℕ)
      → cnt < 2147483648
      → n ≡ cnt + suc r
      → Measured fuel st p (c ∷ cs)
      → Measured fuel st q []
      → compare_rest fuel p q n cnt st ≡ ok 1 st
  unfolding compare_rest
  rest-second p q n cnt r c cs small e u v =
      rw (sext-small cnt small, leb_over n cnt (omega arith)) (second_empty fuel st p q c cs u v)

  compare_at_most-order :
      (k p q n cnt r : ℕ) (cs ds : List ℕ)
      → Measured fuel st p cs
      → Measured fuel st q ds
      → length cs < k
      → cnt + length cs < 2147483648
      → n ≡ cnt + r
      → compare_at_most fuel k p q n cnt st ≡ ok (order (take r cs) (take r ds)) st
  unfolding compare_at_most
  compare_at_most-order zero p q n cnt r cs ds u v l small e = elim l [ ]
  compare_at_most-order (suc k) p q n cnt zero [] ds u v l small e =
      rw (get_byte-ok p st u.not_null, u.string) (rest-none p q n cnt (omega arith) e)
  compare_at_most-order (suc k) p q n cnt (suc r) [] ds u v l small e =
      rw (get_byte-ok p st u.not_null, u.string) (rest-first p q n cnt r ds (omega arith) e u v)
  compare_at_most-order (suc k) p q n cnt zero (c ∷ cs) [] u v l small e =
      rw
        (
          get_byte-ok p st u.not_null,
          u.string.1,
          ne→== c 0 u.string.0,
          get_byte-ok q st v.not_null,
          v.string,
        )
        (rest-none p q n cnt (omega arith) e)
  compare_at_most-order (suc k) p q n cnt (suc r) (c ∷ cs) [] u v l small e =
      rw
        (
          get_byte-ok p st u.not_null,
          u.string.1,
          ne→== c 0 u.string.0,
          get_byte-ok q st v.not_null,
          v.string,
        )
        (rest-second p q n cnt r c cs (omega arith) e u v)
  compare_at_most-order (suc k) p q n cnt zero (c ∷ cs) (d ∷ ds) u v l small e =
      rw
        (
          get_byte-ok p st u.not_null,
          u.string.1,
          ne→== c 0 u.string.0,
          get_byte-ok q st v.not_null,
          v.string.1,
          ne→== d 0 v.string.0,
          sext-small cnt (omega arith),
          le→leb n cnt (omega arith),
        )
        (rest-none p q n cnt (omega arith) e)
  compare_at_most-order (suc k) p q n cnt (suc r) (c ∷ cs) (d ∷ ds) u v l small e =
      let rest =
        compare_at_most-order k (p + 1) (q + 1) n (cnt + 1) r cs ds (Measured-rest fuel st p c cs u)
          (Measured-rest fuel st q d ds v) (omega arith) (omega arith) (omega arith) in
      let narrow : u32 (cnt + 1) ≡ cnt + 1 = omega arith in
      rw
        (
          get_byte-ok p st u.not_null,
          u.string.1,
          ne→== c 0 u.string.0,
          get_byte-ok q st v.not_null,
          v.string.1,
          ne→== d 0 v.string.0,
          sext-small cnt (omega arith),
          leb_over n cnt (omega arith),
        )
        (elim (Bool-cases (char_lt c d)) [
          | inl lt ↦ rw (lt) refl
          | inr ge ↦ rw (ge) (elim (Bool-cases (char_lt d c)) [
            | inl gt ↦ rw (gt) refl
            | inr le ↦
                rw (le, eq→== c d (char_eq fuel st c d u.bytes.0 v.bytes.0 ge le), narrow) rest
          ])
        ])

-- `strncmp` returns the order of the first `n` characters of the two strings, and its assertions hold,
-- where the pointers are not NULL, the characters are bytes, and the fuel exceeds the lengths and is at
-- most 2 ^ 31.
pub strncmp-order :
    (fuel p q n : ℕ) (cs ds : List ℕ) (st : State)
    → 0 < p
    → 0 < q
    → IsString st.mem p cs
    → IsString st.mem q ds
    → All IsByte cs
    → All IsByte ds
    → length cs < fuel
    → length ds < fuel
    → fuel ≤ 2 ^ 31
    → strncmp fuel p q n st ≡ ok (order (take n cs) (take n ds)) st
unfolding strncmp
strncmp-order fuel p q n cs ds st hp hq h k a b f g w =
    rw (ne→== p 0 (omega arith), ne→== q 0 (omega arith))
      (compare_at_most-order fuel st fuel p q n 0 n cs ds
        (record { not_null = hp; string = h; fuelled = f; fits = omega arith; bytes = a })
        (record { not_null = hq; string = k; fuelled = g; fits = omega arith; bytes = b }) f
        (omega arith) (omega arith))
