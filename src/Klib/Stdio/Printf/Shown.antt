-- ===== src/Klib/Stdio/Printf/Shown.antt =====
-- `printf` of abstract-machine/klib/src/stdio.c prints the items of its format.
use mathlib.Core.List.{append_assoc, append-nil}
use njuoslab_l1_kmalloc_kfre.Base.{
  ℕ, zero, suc, ◌+◌, ◌^◌, ◌≤◌, ◌<◌, ◌≡◌, refl, sym, ap, ◌∙◌, arith, List, [], ◌∷◌, ◌++◌, length,
  ne→==, ◌==◌, Bool-cases, inl, inr,
}
use njuoslab_l1_kmalloc_kfre.Base.Words.{u32}
use njuoslab_l1_kmalloc_kfre.Machine.{State, Run, ok}
use njuoslab_l1_kmalloc_kfre.Klib.Bytes.{get_byte-ok}
use njuoslab_l1_kmalloc_kfre.Klib.Text.Length.{IsString, strlen-length}
use njuoslab_l1_kmalloc_kfre.Klib.Stdio.{decimal}
use njuoslab_l1_kmalloc_kfre.Klib.Stdio.Printf.{
  Printed, printed, read_chars, print_conversion, print_char, print_loop, printf,
}
use njuoslab_l1_kmalloc_kfre.Klib.Stdio.Printf.Items.{
  Conversion, percent, character, hexadecimal_number, binary_number, decimal_number, string, Item,
  plain, converted, unknown, conversion_text, items_text, items_width, conversion_char, Takes,
  IsUnknown, Reads, ends, reads_plain, reads_converted, reads_unknown,
}

read_chars-string :
    (fuel p : ℕ) (cs : List ℕ) (st : State)
    → 0 < p
    → IsString st.mem p cs
    → length cs < fuel
    → read_chars fuel p st ≡ ok cs st
unfolding read_chars
read_chars-string zero p cs st hp h f = elim f [ ]
read_chars-string (suc k) p [] st hp z f = rw (get_byte-ok p st hp, z) refl
read_chars-string (suc k) p (c ∷ cs) st hp (nz, e, h) f =
    rw
      (
        get_byte-ok p st hp,
        e,
        ne→== c 0 nz,
        read_chars-string k (p + 1) cs st (omega arith) h (omega arith),
      )
      refl

module _ (fuel : ℕ) (st : State) where
  print_conversion-text :
      (k : Conversion) (p : ℕ) (s : Printed) (rest : List ℕ)
      → fuel ≤ 2 ^ 64
      → Takes st.mem fuel k s.args rest
      → print_conversion fuel (conversion_char k) p s st
        ≡ ok
            (
              printed (s.out ++ conversion_text k) (u32 (s.ret + length (conversion_text k))) rest,
              p + 1,
            )
            st
  unfolding print_conversion
  print_conversion-text percent p s rest w t =
      ap (λ l. ok (printed (s.out ++ (b'%' ∷ [])) (u32 (s.ret + 1)) l, p + 1) st) t
  print_conversion-text (character v) p s rest w t = rw t refl
  print_conversion-text (hexadecimal_number v) p s rest w t = rw t refl
  print_conversion-text (binary_number v) p s rest w t = rw t refl
  print_conversion-text (decimal_number v) p s rest w t = rw t refl
  print_conversion-text (string a cs) p s rest w (t, ha, h, f) =
      rw (t, strlen-length fuel a cs st ha h f (omega arith), read_chars-string fuel a cs st ha h f)
        refl

  print_conversion-unknown :
      (c p : ℕ) (s : Printed) → IsUnknown c → print_conversion fuel c p s st ≡ ok (s, p) st
  unfolding print_conversion
  print_conversion-unknown c p s (n0, n1, n2, n3, n4, n5) =
      rw
        (
          ne→== c b'%' n0,
          ne→== c b'c' n1,
          ne→== c b'x' n2,
          ne→== c b'b' n3,
          ne→== c b'd' n4,
          ne→== c b's' n5,
        )
        refl

  -- The run prints this text and adds this width.
  abbrev Shows : Run Printed → Printed → List ℕ → ℕ → Type 0
  Shows run s text width =
      (rest : List ℕ) × (run ≡ ok (printed (s.out ++ text) (u32 (s.ret + width)) rest) st)

  same_text :
      (run : Run Printed) (s : Printed) {t t' : List ℕ} {n n' : ℕ}
      → t ≡ t'
      → n ≡ n'
      → Shows run s t n
      → Shows run s t' n'
  same_text run s e f (rest, h) =
      (rest, h ∙ (λ i. ok (printed (s.out ++ e i) (u32 (s.ret + f i)) rest) st))

  behind_text :
      (run : Run Printed) (s : Printed) (first : List ℕ) (w : ℕ) (args text : List ℕ) (n : ℕ)
      → Shows run (printed (s.out ++ first) (u32 (s.ret + w)) args) text n
      → Shows run s (first ++ text) (w + n)
  behind_text run s first w args text n (rest, h) =
      let whole = append_assoc s.out first text in
      let sum : u32 (u32 (s.ret + w) + n) ≡ u32 (s.ret + (w + n)) = omega arith in
      (rest, h ∙ (λ i. ok (printed (whole i) (sum i) rest) st))

  print_loop-items :
      (k p : ℕ) (s : Printed) (is : List Item)
      → fuel ≤ 2 ^ 64
      → s.ret < 2 ^ 32
      → Reads st.mem fuel p is s.args
      → length is < k
      → Shows (print_loop fuel k p s st) s (items_text is) (items_width is)
  unfolding print_loop print_char
  print_loop-items zero p s is w r h f = elim f [ ]
  print_loop-items (suc k) p s [] w r (ends hp z) f =
      let none : u32 (s.ret + 0) ≡ s.ret = omega arith in
      (s.args, rw (get_byte-ok p st hp, z, none, append-nil s.out) refl)
  print_loop-items (suc k) p s (plain c ∷ is) w r (reads_plain hp e nz np h) f =
      elim (Bool-cases (c == 9)) [
        | inl tab ↦
            let next = printed (s.out ++ (c ∷ [])) (u32 (s.ret + 4)) s.args in
            rw (get_byte-ok p st hp, e, ne→== c 0 nz, tab)
              (behind_text (print_loop fuel k (p + 1) next st) s (c ∷ []) 4 s.args (items_text is)
                (items_width is)
                (print_loop-items k (p + 1) next is w (omega arith) h (omega arith)))
        | inr other ↦
            let next = printed (s.out ++ (c ∷ [])) (u32 (s.ret + 1)) s.args in
            rw (get_byte-ok p st hp, e, ne→== c 0 nz, other, ne→== c b'%' np)
              (behind_text (print_loop fuel k (p + 1) next st) s (c ∷ []) 1 s.args (items_text is)
                (items_width is)
                (print_loop-items k (p + 1) next is w (omega arith) h (omega arith)))
      ]
  print_loop-items (suc k) p s (converted v next ∷ is) w r
        (reads_converted {rest = rest} hp e0 e1 e2 t h) f =
      let text = conversion_text v in
      let after = printed (s.out ++ text) (u32 (s.ret + length text)) rest in
      let last = printed (after.out ++ (next ∷ [])) (u32 (after.ret + 1)) rest in
      let there : p + 1 + 1 ≡ p + 2 = omega arith in
      let beyond : p + 2 + 1 ≡ p + 3 = omega arith in
      let run = print_loop fuel k (p + 3) last st in
      rw
        (
          get_byte-ok p st hp,
          e0,
          get_byte-ok (p + 1) st (omega arith),
          e1,
          print_conversion-text v (p + 1) s rest w t,
          there,
          get_byte-ok (p + 2) st (omega arith),
          e2,
          beyond,
        )
        (same_text run s (sym (append_assoc text (next ∷ []) (items_text is))) (omega arith) (
          behind_text run s text (length text) rest ((next ∷ []) ++ items_text is)
            (1 + items_width is)
            (behind_text run after (next ∷ []) 1 rest (items_text is) (items_width is)
              (print_loop-items k (p + 3) last is w (omega arith) h (omega arith)))))
  print_loop-items (suc k) p s (unknown c ∷ is) w r (reads_unknown hp e0 e1 u h) f =
      let next = printed (s.out ++ (c ∷ [])) (u32 (s.ret + 1)) s.args in
      let there : p + 1 + 1 ≡ p + 2 = omega arith in
      rw
        (
          get_byte-ok p st hp,
          e0,
          get_byte-ok (p + 1) st (omega arith),
          e1,
          print_conversion-unknown c (p + 1) s u,
          get_byte-ok (p + 1) st (omega arith),
          e1,
          there,
        )
        (behind_text (print_loop fuel k (p + 2) next st) s (c ∷ []) 1 s.args (items_text is)
          (items_width is) (print_loop-items k (p + 2) next is w (omega arith) h (omega arith)))

-- `printf` prints the text of the items that it reads, with the character behind a conversion as it is,
-- and returns their width as an `int`, with four for a tab; it changes no memory. The fuel exceeds the
-- number of items and the lengths of the strings, and is at most 2 ^ 64.
pub printf-items :
    (fuel fmt : ℕ) (is : List Item) (args : List ℕ) (st : State)
    → 0 < fmt
    → fuel ≤ 2 ^ 64
    → Reads st.mem fuel fmt is args
    → length is < fuel
    → printf fuel fmt args st ≡ ok (items_text is, u32 (items_width is)) st
unfolding printf
printf-items fuel fmt is args st hf w h f =
    let (rest, run) =
      print_loop-items fuel st fuel fmt (printed [] 0 args) is w (omega arith) h f in
    let from_zero : u32 (0 + items_width is) ≡ u32 (items_width is) = omega arith in
    rw (ne→== fmt 0 (omega arith), run, from_zero) refl

-- A format that ends in `%d` is not the end of what is printed: the byte 0 behind it is printed, and
-- what stands behind that is read as the rest of the format. The conditions are those of the format's
-- items.
pub printf-overrun :
    (fuel fmt v : ℕ) (junk : List Item) (rest : List ℕ) (st : State)
    → 0 < fmt
    → fuel ≤ 2 ^ 64
    → IsString st.mem fmt (b'%' ∷ b'd' ∷ [])
    → Reads st.mem fuel (fmt + 3) junk rest
    → length junk + 1 < fuel
    → printf fuel fmt (v ∷ rest) st
      ≡ ok
          (
            decimal (u32 v) ++ (0 ∷ items_text junk),
            u32 (length (decimal (u32 v)) + 1 + items_width junk),
          )
          st
printf-overrun fuel fmt v junk rest st hf w (_, e0, (_, e1, e2)) h f =
    let end : st.mem (fmt + 2) ≡ 0 = ap st.mem (omega arith) ∙ e2 in
    printf-items fuel fmt (converted (decimal_number v) 0 ∷ junk) (v ∷ rest) st hf w
      (reads_converted hf e0 e1 end refl h) (omega arith)
    ∙ ap (λ t. ok (t, u32 (length (decimal (u32 v)) + 1 + items_width junk)) st)
        (append_assoc (decimal (u32 v)) (0 ∷ []) (items_text junk))
