-- ===== src/Klib/Stdio/Sprintf/Pieces.antt =====
-- The pieces that `vsnprintf` of abstract-machine/klib/src/stdio.c writes with a bound.
use mathlib.Core.Bool.{Bool, true, false}
use njuoslab_l1_kmalloc_kfre.Base.{
  ℕ, zero, suc, ◌+◌, ◌-◌, ◌≤◌, ◌<◌, ◌≡◌, refl, sym, ap, ◌∙◌, arith, List, [], ◌∷◌, ◌++◌, length,
  ne→==, lt→ltb, le→ltb, leb, le→leb, if◌then◌else◌, length-++, Bool-cases, inl, inr, leb→le,
}
use njuoslab_l1_kmalloc_kfre.Base.Words.{u32, sext-small}
use njuoslab_l1_kmalloc_kfre.Machine.{State, Run, ok, and_then, pure}
use njuoslab_l1_kmalloc_kfre.Machine.Memory.{Mem}
use njuoslab_l1_kmalloc_kfre.Klib.Bytes.{get_byte-ok, set_byte-ok}
use njuoslab_l1_kmalloc_kfre.Klib.Copy.Laws.{with_bytes}
use njuoslab_l1_kmalloc_kfre.Klib.Text.Strncpy.{take, leb_over}
use njuoslab_l1_kmalloc_kfre.Klib.Stdio.Format.{StringApart, put}
use njuoslab_l1_kmalloc_kfre.Klib.Stdio.Sprintf.{is_full, put_at_most, put_text, finish_at_most}
use njuoslab_l1_kmalloc_kfre.Klib.Stdio.Sprintf.Put.{Agrees, write-Agrees, put-++}

-- With no character left the bound is met, and else it is not.
pub full-none : (n ret : ℕ) → ret < 2147483647 → n ≡ ret + 0 → is_full n ret ≡ true
full-none n ret w e =
    let narrow : u32 (ret + 1) ≡ ret + 1 = omega arith in
    rw (narrow, sext-small (ret + 1) (omega arith)) (lt→ltb n (ret + 1) (omega arith))

pub full-some : (n ret r : ℕ) → ret < 2147483647 → n ≡ ret + suc r → is_full n ret ≡ false
full-some n ret r w e =
    let narrow : u32 (ret + 1) ≡ ret + 1 = omega arith in
    rw (narrow, sext-small (ret + 1) (omega arith)) (le→ltb n (ret + 1) (omega arith))

pub take-++_long : (r : ℕ) (xs ys : List ℕ) → r < length xs → take r (xs ++ ys) ≡ take r xs
take-++_long zero xs ys h = refl
take-++_long (suc r) [] ys h = elim h [ ]
take-++_long (suc r) (x ∷ xs) ys h = ap (λ l. x ∷ l) (take-++_long r xs ys (omega arith))

pub take-++_short :
    (r q : ℕ) (xs ys : List ℕ) → r ≡ length xs + q → take r (xs ++ ys) ≡ xs ++ take q ys
take-++_short r q [] ys h = ap (λ i. take i ys) (omega arith)
take-++_short zero q (x ∷ xs) ys h = absurd (omega arith)
take-++_short (suc r) q (x ∷ xs) ys h = ap (λ l. x ∷ l) (take-++_short r q xs ys (omega arith))

abbrev pub written : State → ℕ → List ℕ → State
written st a cs = with_bytes st (put st.mem a cs)

-- A piece with `r` characters left: all of it, or its first `r` characters and the end.
abbrev pub piece_result : (r a ret : ℕ) → List ℕ → State → Run (Bool × ℕ × ℕ)
piece_result r a ret cs st =
    if leb (length cs) r
    then ok (false, a + length cs, ret + length cs) (written st a cs)
    else ok (true, a + r, ret + r) (written st a (take r cs))

pub piece_result-zero :
    (a ret c : ℕ) (cs : List ℕ) (st : State)
    → piece_result 0 a ret (c ∷ cs) st ≡ ok (true, a, ret) st
piece_result-zero a ret c cs st =
    let e : a + 0 ≡ a = omega arith in
    let f : ret + 0 ≡ ret = omega arith in
    rw (leb_over (suc (length cs)) 0 (omega arith), e, f) refl

pub piece_result-nil :
    (r a ret : ℕ) (st : State) → piece_result r a ret [] st ≡ ok (false, a, ret) st
piece_result-nil r a ret st =
    let e : a + 0 ≡ a = omega arith in
    let f : ret + 0 ≡ ret = omega arith in rw (le→leb 0 r (omega arith), e, f) refl

pub piece_result-suc :
    (r a ret c : ℕ) (cs : List ℕ) (st : State)
    → piece_result r (a + 1) (ret + 1) cs (written st a (c ∷ []))
      ≡ piece_result (suc r) a ret (c ∷ cs) st
piece_result-suc r a ret c cs st =
    let up : (x n : ℕ) → x + 1 + n ≡ x + suc n = λ x n. omega arith in
    let to : leb (suc (length cs)) (suc r) ≡ leb (length cs) r = ground arith in
    rw (up a (length cs), up ret (length cs), up a r, up ret r, to) refl

module _ (n : ℕ) where
  pub put_at_most-result :
      (r a ret : ℕ) (cs : List ℕ) (st : State)
      → 0 < a
      → n ≡ ret + r
      → ret + length cs < 2147483647
      → put_at_most n a ret cs st ≡ piece_result r a ret cs st
  unfolding put_at_most
  put_at_most-result r a ret [] st h e w = sym (piece_result-nil r a ret st)
  put_at_most-result zero a ret (c ∷ cs) st h e w =
      rw (full-none n ret (omega arith) e) (sym (piece_result-zero a ret c cs st))
  put_at_most-result (suc r) a ret (c ∷ cs) st h e w =
      let narrow : u32 (ret + 1) ≡ ret + 1 = omega arith in
      rw
        (
          full-some n ret r (omega arith) e,
          set_byte-ok a st h c,
          narrow,
          put_at_most-result r (a + 1) (ret + 1) cs (written st a (c ∷ [])) (omega arith)
              (omega arith) (omega arith),
        )
        (piece_result-suc r a ret c cs st)

  pub put_text-result :
      (m0 : Mem) (lo hi fuel r a ret p : ℕ) (cs : List ℕ) (st : State)
      → 0 < a
      → 0 < p
      → lo ≤ a
      → a + r < hi
      → Agrees st.mem m0 lo hi
      → StringApart m0 lo hi p cs
      → length cs < fuel
      → n ≡ ret + r
      → ret + length cs < 2147483647
      → put_text fuel n a ret p st ≡ piece_result r a ret cs st
  unfolding put_text
  put_text-result m0 lo hi zero r a ret p cs st ha hp l h same s f e w = elim f [ ]
  put_text-result m0 lo hi (suc k) r a ret p [] st ha hp l h same (apart, z) f e w =
      let read : st.mem p ≡ 0 = same p apart ∙ z in
      rw (get_byte-ok p st hp, read) (sym (piece_result-nil r a ret st))
  put_text-result m0 lo hi (suc k) zero a ret p (c ∷ cs) st ha hp l h same (apart, nz, at, s) f e
        w =
      let read : st.mem p ≡ c = same p apart ∙ at in
      rw (get_byte-ok p st hp, read, ne→== c 0 nz, full-none n ret (omega arith) e)
        (sym (piece_result-zero a ret c cs st))
  put_text-result m0 lo hi (suc k) (suc r) a ret p (c ∷ cs) st ha hp l h same (apart, nz, at, s) f e
        w =
      let read : st.mem p ≡ c = same p apart ∙ at in
      let narrow : u32 (ret + 1) ≡ ret + 1 = omega arith in
      rw
        (
          get_byte-ok p st hp,
          read,
          ne→== c 0 nz,
          full-some n ret r (omega arith) e,
          set_byte-ok a st ha c,
          narrow,
          put_text-result m0 lo hi k r (a + 1) (ret + 1) (p + 1) cs (written st a (c ∷ []))
              (omega arith) (omega arith) (omega arith) (omega arith)
              (write-Agrees st.mem m0 lo hi a c l (omega arith) same) s (omega arith) (omega arith)
              (omega arith),
        )
        (piece_result-suc r a ret c cs st)

-- The text with `r` characters left: all of it and the end of the string, or its first `r` characters.
abbrev pub result : (fuel n out r a ret : ℕ) → List ℕ → State → Run ℕ
result fuel n out r a ret cs st =
    if leb (length cs) r
    then finish_at_most fuel n out (a + length cs) (written st a cs)
    else ok (ret + r) (written st a (take r cs))

module _ (fuel n out : ℕ) where
  pub result-short :
      (r q a ret : ℕ) (cs rest : List ℕ) (st : State)
      → r ≡ length cs + q
      → result fuel n out q (a + length cs) (ret + length cs) rest (written st a cs)
        ≡ result fuel n out r a ret (cs ++ rest) st
  result-short r q a ret cs rest st e =
      let total = length-++ cs rest in
      let end : a + length cs + length rest ≡ a + length (cs ++ rest) = omega (arith, total) in
      let count : ret + length cs + q ≡ ret + r = omega arith in
      let test : leb (length (cs ++ rest)) r ≡ leb (length rest) q = ground (arith, total) in
      rw
        (
          end,
          count,
          sym (put-++ st.mem a cs rest),
          sym (put-++ st.mem a cs (take q rest)),
          take-++_short r q cs rest e,
          test,
        )
        refl

  pub result-long :
      (r a ret : ℕ) (cs rest : List ℕ) (st : State)
      → r < length cs
      → result fuel n out r a ret (cs ++ rest) st ≡ ok (ret + r) (written st a (take r cs))
  result-long r a ret cs rest st h =
      let total = length-++ cs rest in
      rw (leb_over (length (cs ++ rest)) r (omega arith), take-++_long r cs rest h) refl

  -- A piece and what comes behind it.
  pub after_piece :
      (r a ret : ℕ) (cs rest : List ℕ) (st : State) (run : Run (Bool × ℕ × ℕ))
      (loop : ℕ → ℕ → State → Run ℕ)
      → run ≡ piece_result r a ret cs st
      → ((q : ℕ)
          → r ≡ length cs + q
          → loop (a + length cs) (ret + length cs) (written st a cs)
            ≡ result fuel n out q (a + length cs) (ret + length cs) rest (written st a cs))
      → and_then run (λ (full, last, ret'). if full then pure ret' else loop last ret')
        ≡ result fuel n out r a ret (cs ++ rest) st
  after_piece r a ret cs rest st run loop e next = elim (Bool-cases (leb (length cs) r)) [
    | inl short ↦
        let split : r ≡ length cs + (r - length cs) = omega (arith, leb→le (length cs) r short) in
        rw (e, short)
          (next (r - length cs) split ∙ result-short r (r - length cs) a ret cs rest st split)
    | inr long ↦ rw (e, long) (sym (result-long r a ret cs rest st (ground arith)))
  ]
