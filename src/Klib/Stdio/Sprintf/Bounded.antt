-- ===== src/Klib/Stdio/Sprintf/Bounded.antt =====
-- `vsnprintf` of abstract-machine/klib/src/stdio.c writes at most `n` characters of what its format stands
-- for.
use native.Mathlib.Nat.{mod-eq_of_lt}
use native.Mathlib.Nat.{mod-lt}
use njuoslab_l1_kmalloc_kfre.Base.{
  ℕ, zero, suc, ◌+◌, ◌-◌, ◌%◌, ◌^◌, ◌≤◌, ◌<◌, ◌≡◌, ◌≢◌, refl, ap, ◌∙◌, arith, List, [], ◌∷◌, length,
  All, ne→==, leb, le→leb, if◌then◌else◌, length-++, Bool-cases, inl, inr, leb→le,
}
use njuoslab_l1_kmalloc_kfre.Base.Words.{u32, sext-small}
use njuoslab_l1_kmalloc_kfre.Machine.{State, ok}
use njuoslab_l1_kmalloc_kfre.Machine.Memory.{Mem}
use njuoslab_l1_kmalloc_kfre.Klib.Bytes.{get_byte-ok, set_byte-ok}
use njuoslab_l1_kmalloc_kfre.Klib.Copy.Laws.{with_bytes}
use njuoslab_l1_kmalloc_kfre.Klib.Text.Length.{strlen-length}
use njuoslab_l1_kmalloc_kfre.Klib.Text.Strncpy.{take, leb_over}
use njuoslab_l1_kmalloc_kfre.Klib.Stdio.{decimal}
use njuoslab_l1_kmalloc_kfre.Klib.Stdio.Signed.{signed_text, decimal-signed}
use njuoslab_l1_kmalloc_kfre.Klib.Stdio.Format.{
  Directive, literal, percent, number, character, string, render, Supplied, put,
}
use njuoslab_l1_kmalloc_kfre.Klib.Stdio.Sprintf.{
  convert, put_piece_at_most, finish, finish_at_most, snprintf_loop, vsnprintf,
}
use njuoslab_l1_kmalloc_kfre.Klib.Stdio.Sprintf.Put.{Agrees, put-Agrees, put-IsString}
use njuoslab_l1_kmalloc_kfre.Klib.Stdio.Sprintf.Whole.{ended_at}
use njuoslab_l1_kmalloc_kfre.Klib.Stdio.Sprintf.Pieces.{
  after_piece, full-none, full-some, put_at_most-result, put_text-result, result, result-short,
  written,
}

module _ (m0 : Mem) (lo hi fuel n out : ℕ) where
  snprintf_loop-result :
      (k r p a ret : ℕ) (ds : List Directive) (args : List ℕ) (st : State)
      → 0 < a
      → lo ≤ a
      → a + r < hi
      → Agrees st.mem m0 lo hi
      → Supplied m0 lo hi p ds args
      → length (render ds) < fuel
      → n ≡ ret + r
      → ret + length (render ds) < 2147483647
      → length ds < k
      → snprintf_loop fuel k n out p a ret args st ≡ result fuel n out r a ret (render ds) st
  unfolding snprintf_loop convert put_piece_at_most
  snprintf_loop-result zero r p a ret ds args st ha l h same s f v w i = elim i [ ]
  snprintf_loop-result (suc k) r p a ret [] args st ha l h same (hp, apart, z) f v w i =
      let read : st.mem p ≡ 0 = same p apart ∙ z in
      let end : a + 0 ≡ a = omega arith in
      rw (get_byte-ok p st hp, read, le→leb 0 r (omega arith), end) refl
  snprintf_loop-result (suc k) zero p a ret (literal c ∷ ds) args st ha l h same
        (hp, apart, nz, np, e, s) f v w i =
      let read : st.mem p ≡ c = same p apart ∙ e in
      let count : ret + 0 ≡ ret = omega arith in
      rw
        (
          get_byte-ok p st hp,
          read,
          ne→== c 0 nz,
          ne→== c b'%' np,
          full-none n ret (omega arith) v,
          leb_over (suc (length (render ds))) 0 (omega arith),
          count,
        )
        refl
  snprintf_loop-result (suc k) (suc r) p a ret (literal c ∷ ds) args st ha l h same
        (hp, apart, nz, np, e, s) f v w i =
      let read : st.mem p ≡ c = same p apart ∙ e in
      let narrow : u32 (ret + 1) ≡ ret + 1 = omega arith in
      rw
        (
          get_byte-ok p st hp,
          read,
          ne→== c 0 nz,
          ne→== c b'%' np,
          full-some n ret r (omega arith) v,
          set_byte-ok a st ha c,
          narrow,
          snprintf_loop-result k r (p + 1) (a + 1) (ret + 1) ds args (written st a (c ∷ []))
              (omega arith) (omega arith) (omega arith)
              (put-Agrees st.mem m0 lo hi a (c ∷ []) l (omega arith) same) s (omega arith)
              (omega arith) (omega arith) (omega arith),
        )
        (result-short fuel n out (suc r) r a ret (c ∷ []) (render ds) st (omega arith))
  snprintf_loop-result (suc k) r p a ret (percent ∷ ds) args st ha l h same
        ((hp, a0, a1, e0, e1), s) f v w i =
      let read0 : st.mem p ≡ b'%' = same p a0 ∙ e0 in
      let read1 = same (p + 1) a1 ∙ e1 in
      let cs : List ℕ = b'%' ∷ [] in
      let total = length-++ cs (render ds) in
      rw (get_byte-ok p st hp, read0, get_byte-ok (p + 1) st (omega arith), read1)
        (after_piece fuel n out r a ret cs (render ds) st _
          (λ last ret' st'. snprintf_loop fuel k n out (p + 2) last ret' args st')
          (put_at_most-result n r a ret cs st ha v (omega arith))
          (λ q split.
            snprintf_loop-result k q (p + 2) (a + length cs) (ret + length cs) ds args
              (written st a cs) (omega arith) (omega arith) (omega arith)
              (put-Agrees st.mem m0 lo hi a cs l (omega arith) same) s (omega arith) (omega arith)
              (omega arith) (omega arith)))
  snprintf_loop-result (suc k) r p a ret (number v' ∷ ds) (b ∷ args) st ha l h same
        ((hp, a0, a1, e0, e1), e, s) f v w i =
      let read0 : st.mem p ≡ b'%' = same p a0 ∙ e0 in
      let read1 = same (p + 1) a1 ∙ e1 in
      let cs : List ℕ = signed_text (u32 v') in
      let shown : decimal (u32 v') ≡ cs = decimal-signed (u32 v') (mod-lt v' (omega arith)) in
      let total = length-++ cs (render ds) in
      rw (get_byte-ok p st hp, read0, get_byte-ok (p + 1) st (omega arith), read1, e, shown)
        (after_piece fuel n out r a ret cs (render ds) st _
          (λ last ret' st'. snprintf_loop fuel k n out (p + 2) last ret' args st')
          (put_at_most-result n r a ret cs st ha v (omega arith))
          (λ q split.
            snprintf_loop-result k q (p + 2) (a + length cs) (ret + length cs) ds args
              (written st a cs) (omega arith) (omega arith) (omega arith)
              (put-Agrees st.mem m0 lo hi a cs l (omega arith) same) s (omega arith) (omega arith)
              (omega arith) (omega arith)))
  snprintf_loop-result (suc k) r p a ret (character v' ∷ ds) (b ∷ args) st ha l h same
        ((hp, a0, a1, e0, e1), e, s) f v w i =
      let read0 : st.mem p ≡ b'%' = same p a0 ∙ e0 in
      let read1 = same (p + 1) a1 ∙ e1 in
      let cs : List ℕ = v' % 256 ∷ [] in
      let total = length-++ cs (render ds) in
      rw (get_byte-ok p st hp, read0, get_byte-ok (p + 1) st (omega arith), read1, e)
        (after_piece fuel n out r a ret cs (render ds) st _
          (λ last ret' st'. snprintf_loop fuel k n out (p + 2) last ret' args st')
          (put_at_most-result n r a ret cs st ha v (omega arith))
          (λ q split.
            snprintf_loop-result k q (p + 2) (a + length cs) (ret + length cs) ds args
              (written st a cs) (omega arith) (omega arith) (omega arith)
              (put-Agrees st.mem m0 lo hi a cs l (omega arith) same) s (omega arith) (omega arith)
              (omega arith) (omega arith)))
  snprintf_loop-result (suc k) r p a ret (string text_chars ∷ ds) (b ∷ args) st ha l h same
        ((hp, a0, a1, e0, e1), pos, sa, s) f v w i =
      let read0 : st.mem p ≡ b'%' = same p a0 ∙ e0 in
      let read1 = same (p + 1) a1 ∙ e1 in
      let cs : List ℕ = text_chars in
      let total = length-++ cs (render ds) in
      rw (get_byte-ok p st hp, read0, get_byte-ok (p + 1) st (omega arith), read1)
        (after_piece fuel n out r a ret cs (render ds) st _
          (λ last ret' st'. snprintf_loop fuel k n out (p + 2) last ret' args st')
          (put_text-result n m0 lo hi fuel r a ret b cs st ha pos l h same sa (omega arith) v
            (omega arith))
          (λ q split.
            snprintf_loop-result k q (p + 2) (a + length cs) (ret + length cs) ds args
              (written st a cs) (omega arith) (omega arith) (omega arith)
              (put-Agrees st.mem m0 lo hi a cs l (omega arith) same) s (omega arith) (omega arith)
              (omega arith) (omega arith)))
  snprintf_loop-result (suc k) r p a ret (number v' ∷ ds) [] st ha l h same s f v w i = elim s [ ]
  snprintf_loop-result (suc k) r p a ret (character v' ∷ ds) [] st ha l h same s f v w i =
      elim s [ ]
  snprintf_loop-result (suc k) r p a ret (string text_chars ∷ ds) [] st ha l h same s f v w i =
      elim s [ ]

finish_at_most-ended :
    (fuel n out : ℕ) (cs : List ℕ) (st : State)
    → 0 < out
    → All (λ c. c ≢ 0) cs
    → 0 < length cs
    → length cs ≤ n
    → length cs < 2147483647
    → length cs < fuel
    → finish_at_most fuel n out (out + length cs) (written st out cs)
      ≡ ok (length cs) (with_bytes st (ended_at st.mem out cs))
unfolding finish_at_most finish
finish_at_most-ended fuel n out cs st ho nz some le w f =
    let narrow : u32 (length cs) ≡ length cs = mod-eq_of_lt (omega arith) in
    rw
      (
        set_byte-ok (out + length cs) (written st out cs) (omega arith) 0,
        strlen-length fuel out cs (with_bytes st (ended_at st.mem out cs)) ho
            (put-IsString st.mem out (out + length cs) cs refl nz) f (omega arith),
        narrow,
        ne→== (length cs) 0 (omega arith),
        sext-small (length cs) (omega arith),
        le→leb (length cs) n le,
      )
      refl

-- `vsnprintf` writes the text that its format stands for and a byte 0, and returns its length, if the text
-- has at most `n` characters; else it writes the first `n` characters with no byte 0 behind them, and
-- returns `n`. It changes no other byte, so none behind `out + n`. The format, its arguments and their
-- strings are apart from these `n + 1` bytes, the text is not empty, has no byte 0 and fits `int`, and the
-- fuel exceeds its length and the number of directives. `%d` stands for the sign and the digits of its
-- `int`, except for -2 ^ 31, whose text is the wrong one that the program prints.
pub vsnprintf-render :
    (fuel out n fmt : ℕ) (ds : List Directive) (args : List ℕ) (st : State)
    → 0 < out
    → 0 < fmt
    → Supplied st.mem out (out + n + 1) fmt ds args
    → All (λ c. c ≢ 0) (render ds)
    → 0 < length (render ds)
    → length (render ds) < 2 ^ 31 - 1
    → length (render ds) < fuel
    → length ds < fuel
    → vsnprintf fuel out n fmt args st ≡ (
        if leb (length (render ds)) n
        then ok (length (render ds)) (with_bytes st (ended_at st.mem out (render ds)))
        else ok n (with_bytes st (put st.mem out (take n (render ds)))))
unfolding vsnprintf
vsnprintf-render fuel out n fmt ds args st ho hf s nz some w f i =
    rw
      (
        ne→== fmt 0 (omega arith),
        snprintf_loop-result st.mem out (out + n + 1) fuel n out fuel n fmt out 0 ds args st ho
            (omega arith) (omega arith) (λ b apart. refl) s f (omega arith) (omega arith) i,
      )
      (elim (Bool-cases (leb (length (render ds)) n)) [
        | inl short ↦ rw short (
            finish_at_most-ended fuel n out (render ds) st ho nz some
              (leb→le (length (render ds)) n short) w f)
        | inr long ↦ rw long (ap (λ x. ok x (written st out (take n (render ds)))) (omega arith))
      ])
