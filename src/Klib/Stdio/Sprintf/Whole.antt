-- ===== src/Klib/Stdio/Sprintf/Whole.antt =====
-- `vsprintf` of abstract-machine/klib/src/stdio.c writes what its format stands for.
use native.Mathlib.Nat.{mod-eq_of_lt}
use native.Mathlib.Nat.{mod-lt}
use njuoslab_l1_kmalloc_kfre.Base.{
  ℕ, zero, suc, ◌+◌, ◌%◌, ◌^◌, ◌≤◌, ◌<◌, ◌≡◌, ◌≢◌, refl, sym, ap, ◌∙◌, arith, List, [], ◌∷◌, ◌++◌,
  length, All, ne→==, length-++,
}
use njuoslab_l1_kmalloc_kfre.Base.Words.{u32}
use njuoslab_l1_kmalloc_kfre.Machine.{State, ok}
use njuoslab_l1_kmalloc_kfre.Machine.Memory.{Mem, write}
use njuoslab_l1_kmalloc_kfre.Klib.Bytes.{get_byte-ok, set_byte-ok}
use njuoslab_l1_kmalloc_kfre.Klib.Copy.Laws.{with_bytes}
use njuoslab_l1_kmalloc_kfre.Klib.Text.Length.{strlen-length}
use njuoslab_l1_kmalloc_kfre.Klib.Stdio.{decimal}
use njuoslab_l1_kmalloc_kfre.Klib.Stdio.Signed.{signed_text, decimal-signed}
use njuoslab_l1_kmalloc_kfre.Klib.Stdio.Format.{
  StringApart, Directive, literal, percent, number, character, string, render, Supplied, put,
}
use njuoslab_l1_kmalloc_kfre.Klib.Stdio.Sprintf.{
  convert, chars, text, put_piece, finish, sprintf_loop, vsprintf,
}
use njuoslab_l1_kmalloc_kfre.Klib.Stdio.Sprintf.Put.{
  Agrees, put-Agrees, put-++, put-IsString, put_chars-put, StringApart-IsString, copy_chars-put,
}

module _ (m0 : Mem) (lo hi fuel : ℕ) where
  abbrev written : State → ℕ → List ℕ → State
  written st a cs = with_bytes st (put st.mem a cs)

  put_piece-chars :
      (a ret : ℕ) (cs : List ℕ) (st : State)
      → 0 < a
      → put_piece fuel a ret (chars cs) st
        ≡ ok (a + length cs, u32 (ret + length cs)) (written st a cs)
  unfolding put_piece
  put_piece-chars a ret cs st h = rw (put_chars-put a cs st h) refl

  put_piece-text :
      (a ret p : ℕ) (cs : List ℕ) (st : State)
      → 0 < a
      → 0 < p
      → lo ≤ a
      → a + length cs ≤ hi
      → Agrees st.mem m0 lo hi
      → StringApart m0 lo hi p cs
      → length cs < fuel
      → length cs < 2 ^ 64
      → put_piece fuel a ret (text p) st
        ≡ ok (a + length cs, u32 (ret + length cs)) (written st a cs)
  unfolding put_piece
  put_piece-text a ret p cs st ha hp l h same s f w =
      rw
        (
          strlen-length fuel p cs st hp (StringApart-IsString m0 lo hi st.mem p cs same s) f w,
          copy_chars-put m0 lo hi fuel a p cs st ha hp l h same s f,
        )
        refl

  joined :
      (out a : ℕ) (cs rest : List ℕ) (st : State)
      → finish fuel out
          (a + length cs + length rest)
          (written (written st a cs) (a + length cs) rest)
        ≡ finish fuel out (a + length (cs ++ rest)) (written st a (cs ++ rest))
  joined out a cs rest st =
      let end : a + length cs + length rest ≡ a + length (cs ++ rest) =
        omega (arith, length-++ cs rest) in
      let whole = put-++ st.mem a cs rest in
      λ i. finish fuel out (end i) (with_bytes st (sym whole i))

  -- The rest of the format from `p` on prints the rest of the text.
  sprintf_loop-render :
      (k out p a ret : ℕ) (ds : List Directive) (args : List ℕ) (st : State)
      → 0 < a
      → lo ≤ a
      → a + length (render ds) ≤ hi
      → Agrees st.mem m0 lo hi
      → Supplied m0 lo hi p ds args
      → length (render ds) < fuel
      → length (render ds) < 2 ^ 64
      → length ds < k
      → sprintf_loop fuel k out p a ret args st
        ≡ finish fuel out (a + length (render ds)) (written st a (render ds))
  unfolding sprintf_loop convert
  sprintf_loop-render zero out p a ret ds args st ha l h same s f w r = elim r [ ]
  sprintf_loop-render (suc k) out p a ret [] args st ha l h same (hp, apart, z) f w r =
      let read : st.mem p ≡ 0 = same p apart ∙ z in
      rw (get_byte-ok p st hp, read) (ap (λ x. finish fuel out x st) (omega arith))
  sprintf_loop-render (suc k) out p a ret (literal c ∷ ds) args st ha l h same
        (hp, apart, nz, np, e, s) f w r =
      let read : st.mem p ≡ c = same p apart ∙ e in
      rw
        (
          get_byte-ok p st hp,
          read,
          ne→== c 0 nz,
          ne→== c b'%' np,
          set_byte-ok a st ha c,
          sprintf_loop-render k out (p + 1) (a + 1) (u32 (ret + 1)) ds args (written st a (c ∷ []))
              (omega arith) (omega arith) (omega arith)
              (put-Agrees st.mem m0 lo hi a (c ∷ []) l (omega arith) same) s (omega arith)
              (omega arith) (omega arith),
        )
        (ap (λ x. finish fuel out x (written st a (c ∷ render ds))) (omega arith))
  sprintf_loop-render (suc k) out p a ret (percent ∷ ds) args st ha l h same
        ((hp, a0, a1, e0, e1), s) f w r =
      let read0 : st.mem p ≡ b'%' = same p a0 ∙ e0 in
      let read1 = same (p + 1) a1 ∙ e1 in
      let cs : List ℕ = b'%' ∷ [] in
      let total = length-++ cs (render ds) in
      rw
        (
          get_byte-ok p st hp,
          read0,
          get_byte-ok (p + 1) st (omega arith),
          read1,
          put_piece-chars a ret cs st ha,
          sprintf_loop-render k out (p + 2) (a + length cs) (u32 (ret + length cs)) ds args
              (written st a cs) (omega arith) (omega arith) (omega arith)
              (put-Agrees st.mem m0 lo hi a cs l (omega arith) same) s (omega arith) (omega arith)
              (omega arith),
        )
        (joined out a cs (render ds) st)
  sprintf_loop-render (suc k) out p a ret (number v ∷ ds) (b ∷ args) st ha l h same
        ((hp, a0, a1, e0, e1), e, s) f w r =
      let read0 : st.mem p ≡ b'%' = same p a0 ∙ e0 in
      let read1 = same (p + 1) a1 ∙ e1 in
      let cs : List ℕ = signed_text (u32 v) in
      let shown : decimal (u32 v) ≡ cs = decimal-signed (u32 v) (mod-lt v (omega arith)) in
      let total = length-++ cs (render ds) in
      rw
        (
          get_byte-ok p st hp,
          read0,
          get_byte-ok (p + 1) st (omega arith),
          read1,
          e,
          shown,
          put_piece-chars a ret cs st ha,
          sprintf_loop-render k out (p + 2) (a + length cs) (u32 (ret + length cs)) ds args
              (written st a cs) (omega arith) (omega arith) (omega arith)
              (put-Agrees st.mem m0 lo hi a cs l (omega arith) same) s (omega arith) (omega arith)
              (omega arith),
        )
        (joined out a cs (render ds) st)
  sprintf_loop-render (suc k) out p a ret (character v ∷ ds) (b ∷ args) st ha l h same
        ((hp, a0, a1, e0, e1), e, s) f w r =
      let read0 : st.mem p ≡ b'%' = same p a0 ∙ e0 in
      let read1 = same (p + 1) a1 ∙ e1 in
      let cs : List ℕ = v % 256 ∷ [] in
      let total = length-++ cs (render ds) in
      rw
        (
          get_byte-ok p st hp,
          read0,
          get_byte-ok (p + 1) st (omega arith),
          read1,
          e,
          put_piece-chars a ret cs st ha,
          sprintf_loop-render k out (p + 2) (a + length cs) (u32 (ret + length cs)) ds args
              (written st a cs) (omega arith) (omega arith) (omega arith)
              (put-Agrees st.mem m0 lo hi a cs l (omega arith) same) s (omega arith) (omega arith)
              (omega arith),
        )
        (joined out a cs (render ds) st)
  sprintf_loop-render (suc k) out p a ret (string text_chars ∷ ds) (b ∷ args) st ha l h same
        ((hp, a0, a1, e0, e1), pos, sa, s) f w r =
      let read0 : st.mem p ≡ b'%' = same p a0 ∙ e0 in
      let read1 = same (p + 1) a1 ∙ e1 in
      let cs : List ℕ = text_chars in
      let total = length-++ cs (render ds) in
      rw
        (
          get_byte-ok p st hp,
          read0,
          get_byte-ok (p + 1) st (omega arith),
          read1,
          put_piece-text a ret b cs st ha pos l (omega arith) same sa (omega arith) (omega arith),
          sprintf_loop-render k out (p + 2) (a + length cs) (u32 (ret + length cs)) ds args
              (written st a cs) (omega arith) (omega arith) (omega arith)
              (put-Agrees st.mem m0 lo hi a cs l (omega arith) same) s (omega arith) (omega arith)
              (omega arith),
        )
        (joined out a cs (render ds) st)
  sprintf_loop-render (suc k) out p a ret (number v ∷ ds) [] st ha l h same s f w r = elim s [ ]
  sprintf_loop-render (suc k) out p a ret (character v ∷ ds) [] st ha l h same s f w r = elim s [ ]
  sprintf_loop-render (suc k) out p a ret (string text_chars ∷ ds) [] st ha l h same s f w r =
      elim s [ ]

-- The text at `out`, ended by a byte 0, and as before elsewhere.
abbrev pub ended_at : Mem → ℕ → List ℕ → Mem
ended_at m out cs = write (put m out cs) (out + length cs) 0

-- `vsprintf` returns the length of the text that its format stands for, writes that text and a byte 0 at
-- `out`, and changes no other byte, where the format, its arguments and their strings are apart from
-- the output, the text is not empty and has no byte 0, its length is below 2 ^ 32, and the fuel exceeds it and
-- the number of directives. `%d` stands for a minus sign where its `int` is negative and the digits of the
-- absolute value, except for -2 ^ 31, whose text is the wrong one that the program prints.
pub vsprintf-render :
    (fuel out fmt : ℕ) (ds : List Directive) (args : List ℕ) (st : State)
    → 0 < out
    → Supplied st.mem out (out + length (render ds) + 1) fmt ds args
    → 0 < fmt
    → All (λ c. c ≢ 0) (render ds)
    → 0 < length (render ds)
    → length (render ds) < 2 ^ 32
    → length (render ds) < fuel
    → length ds < fuel
    → vsprintf fuel out fmt args st
      ≡ ok (length (render ds)) (with_bytes st (ended_at st.mem out (render ds)))
unfolding vsprintf finish
vsprintf-render fuel out fmt ds args st ho s hf nz some w f r =
    let len = length (render ds) in
    let narrow : u32 len ≡ len = mod-eq_of_lt w in
    rw
      (
        ne→== fmt 0 (omega arith),
        sprintf_loop-render st.mem out (out + len + 1) fuel fuel out fmt out 0 ds args st ho
            (omega arith) (omega arith) (λ b apart. refl) s f (omega arith) r,
        set_byte-ok (out + len) (with_bytes st (put st.mem out (render ds))) (omega arith) 0,
        strlen-length fuel out (render ds) (with_bytes st (ended_at st.mem out (render ds))) ho
            (put-IsString st.mem out (out + len) (render ds) refl nz) f (omega arith),
        narrow,
        ne→== len 0 (omega arith),
      )
      refl
