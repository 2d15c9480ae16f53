-- ===== src/Klib/Text/Order.antt =====
-- `strcmp` of abstract-machine/klib/src/string.c is the order of the two strings.
use njuoslab_l1_kmalloc_kfre.Base.{
  ℕ, zero, suc, ◌+◌, ◌<◌, ◌≤◌, ◌≡◌, ◌^◌, List, [], ◌∷◌, length, arith, refl, ne→==, eq→==, lt→ltb,
  le→ltb, inl, inr, if◌then◌else◌, Bool-cases, All, false,
}
use njuoslab_l1_kmalloc_kfre.Machine.{State, ok}
use njuoslab_l1_kmalloc_kfre.Klib.Bytes.{get_byte-ok}
use njuoslab_l1_kmalloc_kfre.Klib.Text.{
  strlen, strcmp, compare_from, compare_lengths, char_lt, minus_one,
}
use njuoslab_l1_kmalloc_kfre.Klib.Text.Length.{IsString, strlen-length}

-- The lexicographic order of two strings, by the signed value of their characters: -1, 0 or 1.
abbrev pub order : List ℕ → List ℕ → ℕ
order [] [] = 0
order [] (d ∷ ds) = minus_one
order (c ∷ cs) [] = 1
order (c ∷ cs) (d ∷ ds) =
    let rest = order cs ds in if char_lt c d then minus_one else if char_lt d c then 1 else rest

abbrev pub IsByte : ℕ → Type 0
IsByte c = c < 256

module _ (fuel : ℕ) (st : State) where
  -- A string that `strlen` can measure with this fuel, not at NULL.
  pub record Measured (p : ℕ) (cs : List ℕ) : Type 0 where
    pub not_null : 0 < p
    pub string : IsString st.mem p cs
    pub fuelled : length cs < fuel
    pub fits : length cs < 2 ^ 64
    pub bytes : All IsByte cs

  strlen-Measured : (p : ℕ) (cs : List ℕ) → Measured p cs → strlen fuel p st ≡ ok (length cs) st
  strlen-Measured p cs u = strlen-length fuel p cs st u.not_null u.string u.fuelled u.fits

  pub Measured-rest : (p c : ℕ) (cs : List ℕ) → Measured p (c ∷ cs) → Measured (p + 1) cs
  Measured-rest p c cs u = record {
    not_null = omega (arith, u.not_null);
    string = u.string.2;
    fuelled = omega (arith, u.fuelled);
    fits = omega (arith, u.fits);
    bytes = u.bytes.1;
  }

  pub first_empty :
      (p q : ℕ) (ds : List ℕ)
      → Measured p []
      → Measured q ds
      → compare_lengths fuel p q st ≡ ok (order [] ds) st
  unfolding compare_lengths
  first_empty p q [] u v = rw (strlen-Measured q [] v, strlen-Measured p [] u) refl
  first_empty p q (d ∷ ds) u v =
      rw
        (
          strlen-Measured q (d ∷ ds) v,
          strlen-Measured p [] u,
          lt→ltb 0 (suc (length ds)) (omega arith),
        )
        refl

  pub second_empty :
      (p q c : ℕ) (cs : List ℕ)
      → Measured p (c ∷ cs)
      → Measured q []
      → compare_lengths fuel p q st ≡ ok 1 st
  unfolding compare_lengths
  second_empty p q c cs u v =
      rw
        (
          strlen-Measured q [] v,
          strlen-Measured p (c ∷ cs) u,
          le→ltb (suc (length cs)) 0 (omega arith),
          lt→ltb 0 (suc (length cs)) (omega arith),
        )
        refl

  pub char_eq : (c d : ℕ) → IsByte c → IsByte d → char_lt c d ≡ false → char_lt d c ≡ false → c ≡ d
  char_eq c d hc hd l g = grind arith

  compare_from-order :
      (k p q : ℕ) (cs ds : List ℕ)
      → Measured p cs
      → Measured q ds
      → length cs < k
      → compare_from fuel k p q st ≡ ok (order cs ds) st
  unfolding compare_from
  compare_from-order zero p q cs ds u v l = elim l [ ]
  compare_from-order (suc k) p q [] ds u v l =
      rw (get_byte-ok p st u.not_null, u.string) (first_empty p q ds u v)
  compare_from-order (suc k) p q (c ∷ cs) [] u v l =
      rw
        (
          get_byte-ok p st u.not_null,
          u.string.1,
          ne→== c 0 u.string.0,
          get_byte-ok q st v.not_null,
          v.string,
        )
        (second_empty p q c cs u v)
  compare_from-order (suc k) p q (c ∷ cs) (d ∷ ds) u v l =
      let rest =
        compare_from-order k (p + 1) (q + 1) cs ds (Measured-rest p c cs u) (Measured-rest q d ds v)
          (omega arith) in
      rw
        (
          get_byte-ok p st u.not_null,
          u.string.1,
          ne→== c 0 u.string.0,
          get_byte-ok q st v.not_null,
          v.string.1,
          ne→== d 0 v.string.0,
        )
        (elim (Bool-cases (char_lt c d)) [
          | inl lt ↦ rw (lt) refl
          | inr ge ↦ rw (ge) (elim (Bool-cases (char_lt d c)) [
            | inl gt ↦ rw (gt) refl
            | inr le ↦ rw (le, eq→== c d (char_eq c d u.bytes.0 v.bytes.0 ge le)) rest
          ])
        ])

-- `strcmp` returns the order of the two strings, and its assertions hold, where the pointers are not
-- NULL, the characters are bytes, and the fuel exceeds the lengths and is at most 2 ^ 64.
pub strcmp-order :
    (fuel p q : ℕ) (cs ds : List ℕ) (st : State)
    → 0 < p
    → 0 < q
    → IsString st.mem p cs
    → IsString st.mem q ds
    → All IsByte cs
    → All IsByte ds
    → length cs < fuel
    → length ds < fuel
    → fuel ≤ 2 ^ 64
    → strcmp fuel p q st ≡ ok (order cs ds) st
unfolding strcmp
strcmp-order fuel p q cs ds st hp hq h k a b f g w =
    rw (ne→== p 0 (omega arith), ne→== q 0 (omega arith))
      (compare_from-order fuel st fuel p q cs ds
        (record { not_null = hp; string = h; fuelled = f; fits = omega arith; bytes = a })
        (record { not_null = hq; string = k; fuelled = g; fits = omega arith; bytes = b }) f)
