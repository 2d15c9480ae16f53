-- ===== src/Klib/StdioExamples.antt =====
-- The theorems on stdio.c and stdlib.c at a short format and its arguments.
use njuoslab_l1_kmalloc_kfre.Base.{
  ℕ, ◌+◌, ◌≡◌, List, [], ◌∷◌, arith, refl, inl, inr, ◌==◌, if◌then◌else◌, map,
}
use njuoslab_l1_kmalloc_kfre.Machine.{State, ok}
use njuoslab_l1_kmalloc_kfre.Machine.Memory.{Mem}
use njuoslab_l1_kmalloc_kfre.Klib.Copy.Laws.{with_bytes}
use njuoslab_l1_kmalloc_kfre.Klib.Stdio.{
  decimal, hexadecimal, int_digits, digit_count, count_digits, m_pow_n, pow_loop,
}
use njuoslab_l1_kmalloc_kfre.Klib.Stdio.Digits.{hex_char, hexadecimal-IsNumeral}
use njuoslab_l1_kmalloc_kfre.Klib.Numeral.{IsNumeral}
use njuoslab_l1_kmalloc_kfre.Klib.Stdio.Format.{Directive, literal, number, string, Supplied}
use njuoslab_l1_kmalloc_kfre.Klib.Stdio.Sprintf.{vsprintf, vsnprintf}
use njuoslab_l1_kmalloc_kfre.Klib.Stdio.Sprintf.Whole.{ended_at, vsprintf-render}
use njuoslab_l1_kmalloc_kfre.Klib.Stdio.Sprintf.Bounded.{vsnprintf-render}
use njuoslab_l1_kmalloc_kfre.Klib.Stdio.Printf.{printf}
use njuoslab_l1_kmalloc_kfre.Klib.Stdio.Printf.Items.{
  plain, converted, decimal_number, string, ends, reads_plain, reads_converted,
}
use njuoslab_l1_kmalloc_kfre.Klib.Stdio.Printf.Shown.{printf-items, printf-overrun}
use njuoslab_l1_kmalloc_kfre.Klib.Stdlib.{atoi}
use njuoslab_l1_kmalloc_kfre.Klib.Stdlib.Atoi.{atoi-decimal}

-- These bytes from `p` on, and `m` elsewhere.
abbrev holding : ℕ → List ℕ → Mem → Mem
holding p [] m = m
holding p (c ∷ cs) m = λ b. if b == p then c else holding (p + 1) cs m b

-- "%s=%d", the string "ab", "42", and "%d" with "!" behind its end.
abbrev texts : State
texts = record {
  mem = holding 0x1000 (b'%' ∷ b's' ∷ b'=' ∷ b'%' ∷ b'd' ∷ []) (
      holding 0x3000 (b'a' ∷ b'b' ∷ []) (
        holding 0x4000 (b'4' ∷ b'2' ∷ []) (holding 0x5000 (b'%' ∷ b'd' ∷ 0 ∷ b'!' ∷ []) (λ _. 0))));
  head = 0;
  heap_lock = 0;
  page_head = λ _. 0;
  page_lock = λ _. 0;
}

abbrev directives : List Directive
directives = Directive.string (b'a' ∷ b'b' ∷ []) ∷ literal b'=' ∷ number 42 ∷ []

abbrev printed_text : List ℕ
printed_text = b'a' ∷ b'b' ∷ b'=' ∷ b'4' ∷ b'2' ∷ []

directives-Supplied :
    Supplied texts.mem 0x2000 (0x2000 + 5 + 1) 0x1000 directives (0x3000 ∷ 42 ∷ [])
directives-Supplied = (
  (omega arith, inl (omega arith), inl (omega arith), refl, refl),
  omega arith,
  (
    inr (omega arith),
    omega arith,
    refl,
    (inr (omega arith), omega arith, refl, (inr (omega arith), refl)),
  ),
  (
    omega arith,
    inl (omega arith),
    omega arith,
    omega arith,
    refl,
    (
      (omega arith, inl (omega arith), inl (omega arith), refl, refl),
      refl,
      (omega arith, inl (omega arith), refl),
    ),
  ),
)

vsprintf-render_example :
    vsprintf 10 0x2000 0x1000 (0x3000 ∷ 42 ∷ []) texts
    ≡ ok 5 (with_bytes texts (ended_at texts.mem 0x2000 printed_text))
unfolding decimal int_digits digit_count count_digits m_pow_n pow_loop
vsprintf-render_example =
    vsprintf-render 10 0x2000 0x1000 directives (0x3000 ∷ 42 ∷ []) texts (omega arith)
      directives-Supplied (omega arith)
      (omega arith, (omega arith, (omega arith, (omega arith, (omega arith, tt))))) (omega arith)
      (omega arith) (omega arith) (omega arith)

vsnprintf-render_example :
    vsnprintf 10 0x2000 5 0x1000 (0x3000 ∷ 42 ∷ []) texts
    ≡ ok 5 (with_bytes texts (ended_at texts.mem 0x2000 printed_text))
unfolding decimal int_digits digit_count count_digits m_pow_n pow_loop
vsnprintf-render_example =
    vsnprintf-render 10 0x2000 5 0x1000 directives (0x3000 ∷ 42 ∷ []) texts (omega arith)
      (omega arith) directives-Supplied
      (omega arith, (omega arith, (omega arith, (omega arith, (omega arith, tt))))) (omega arith)
      (omega arith) (omega arith) (omega arith)

printf-items_example :
    printf 10 0x1000 (0x3000 ∷ 42 ∷ []) texts
    ≡ ok (b'a' ∷ b'b' ∷ b'=' ∷ b'4' ∷ b'2' ∷ 0 ∷ [], 6) texts
unfolding decimal int_digits digit_count count_digits m_pow_n pow_loop
printf-items_example =
    printf-items 10 0x1000
      (converted (string 0x3000 (b'a' ∷ b'b' ∷ [])) b'=' ∷ converted (decimal_number 42) 0 ∷ [])
      (0x3000 ∷ 42 ∷ []) texts (omega arith) (omega arith)
      (reads_converted (omega arith) refl refl refl
        (refl, omega arith, (omega arith, refl, (omega arith, refl, refl)), omega arith)
        (reads_converted (omega arith) refl refl refl refl (ends (omega arith) refl)))
      (omega arith)

printf-overrun_example :
    printf 10 0x5000 (42 ∷ []) texts ≡ ok (b'4' ∷ b'2' ∷ 0 ∷ b'!' ∷ [], 4) texts
unfolding decimal int_digits digit_count count_digits m_pow_n pow_loop
printf-overrun_example =
    printf-overrun 10 0x5000 42 (plain b'!' ∷ []) [] texts (omega arith) (omega arith)
      (omega arith, refl, (omega arith, refl, refl))
      (reads_plain (omega arith) refl (omega arith) (omega arith) (ends (omega arith) refl))
      (omega arith)

hexadecimal-IsNumeral_example :
    (ds : List ℕ) × (hexadecimal 0x1f0 ≡ map hex_char ds) × IsNumeral 16 0x1f0 ds
hexadecimal-IsNumeral_example = hexadecimal-IsNumeral 0x1f0 (omega arith)

atoi-decimal_example : atoi 3 0x4000 texts ≡ ok 42 texts
unfolding decimal int_digits digit_count count_digits m_pow_n pow_loop
atoi-decimal_example =
    atoi-decimal 3 0x4000 42 texts (omega arith) (omega arith)
      (omega arith, refl, (omega arith, refl, refl)) (omega arith)
