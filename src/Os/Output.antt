-- ===== src/Os/Output.antt =====
-- What `os_run` of kernel/src/os.c prints.
use njuoslab_l1_kmalloc_kfre.Base.{
  ℕ, zero, suc, ◌+◌, ◌%◌, ◌^◌, ◌<◌, ◌≤◌, ◌≡◌, refl, ap, ◌∙◌, arith, ne→==, List, [], ◌∷◌, ◌++◌,
  length, map,
}
use mathlib.Core.List.{append-nil}
use njuoslab_l1_kmalloc_kfre.Base.Words.{u32}
use njuoslab_l1_kmalloc_kfre.Machine.{State, ok}
use njuoslab_l1_kmalloc_kfre.Klib.Bytes.{get_byte-ok}
use njuoslab_l1_kmalloc_kfre.Klib.Text.Length.{IsString}
use njuoslab_l1_kmalloc_kfre.Klib.Stdio.{hexadecimal}
use njuoslab_l1_kmalloc_kfre.Klib.Stdio.Printf.{printf}
use njuoslab_l1_kmalloc_kfre.Klib.Stdio.Printf.Items.{
  hexadecimal_number, converted, ends, reads_converted,
}
use njuoslab_l1_kmalloc_kfre.Klib.Stdio.Printf.Shown.{printf-items}
use njuoslab_l1_kmalloc_kfre.Pmm.Kalloc.{kalloc}
use njuoslab_l1_kmalloc_kfre.Os.{
  Literals, hello_text, hex_format, greeting_char, greet, print_alloc, os_run,
}

greet-text :
    (fuel i p : ℕ) (cs : List ℕ) (st : State)
    → 0 < p
    → IsString st.mem p cs
    → length cs < fuel
    → greet fuel i p st ≡ ok (map (greeting_char i) cs) st
unfolding greet
greet-text zero i p cs st hp h f = elim f [ ]
greet-text (suc k) i p [] st hp z f = rw (get_byte-ok p st hp, z) refl
greet-text (suc k) i p (c ∷ cs) st hp (nz, e, h) f =
    rw
      (
        get_byte-ok p st hp,
        e,
        ne→== c 0 nz,
        greet-text k i (p + 1) cs st (omega arith) h (omega arith),
      )
      refl

-- What is printed before the number of the CPU.
abbrev pub greeting_start : List ℕ
greeting_start =
    b'H' ∷ b'e' ∷ b'l' ∷ b'l' ∷ b'o' ∷ b' ' ∷ b'W' ∷ b'o' ∷ b'r' ∷ b'l' ∷ b'd' ∷ b' ' ∷ b'f' ∷ b'r'
    ∷ b'o' ∷ b'm' ∷ b' ' ∷ b'C' ∷ b'P' ∷ b'U' ∷ b' ' ∷ b'#' ∷ []

abbrev pub hex_text : ℕ → List ℕ
hex_text a = hexadecimal a ++ (10 ∷ [])

printf-hex :
    (fuel p a : ℕ) (st : State)
    → 0 < p
    → fuel ≤ 2 ^ 64
    → 1 < fuel
    → IsString st.mem p hex_format
    → printf fuel p (a ∷ []) st ≡ ok (hex_text a, u32 (length (hexadecimal a) + 1 + 0)) st
printf-hex fuel p a st hp w f (n0, e0, (n1, e1, (n2, e2, e3))) =
    let newline : st.mem (p + 2) ≡ 10 = ap st.mem (omega arith) ∙ e2 in
    let end : st.mem (p + 3) ≡ 0 = ap st.mem (omega arith) ∙ e3 in
    printf-items fuel p (converted (hexadecimal_number a) 10 ∷ []) (a ∷ []) st hp w
      (reads_converted hp e0 e1 newline refl (ends (omega arith) end)) f
    ∙ ap (λ t. ok (t, u32 (length (hexadecimal a) + 1 + 0)) st) (append-nil (hex_text a))

module _ (fuel i ncpu : ℕ) (texts : Literals) (hp : 0 < texts.hex_line) (w : fuel ≤ 2 ^ 64)
    (f : 1 < fuel) where
  -- The request returns this address, and leaves the format where it is.
  pub record Allocates (size a : ℕ) (s t : State) : Type 0 where
    pub run : kalloc fuel i ncpu size s ≡ ok a t
    pub format : IsString t.mem texts.hex_line hex_format

  print_alloc-text :
      (size a : ℕ) (s t : State)
      → Allocates size a s t
      → print_alloc fuel i ncpu texts size s ≡ ok (hex_text a) t
  unfolding print_alloc
  print_alloc-text size a s t u =
      rw (u.run, printf-hex fuel texts.hex_line a t hp w f u.format) refl

  -- `os_run` prints "Hello World from CPU #", the character for the number of the CPU and an end of line, and
  -- then the addresses of the four blocks that it requests, each in hexadecimal on a line of its own, where
  -- the requests return and leave the format as it is.
  pub os_run-text :
      (a b c d : ℕ) (s s1 s2 s3 s4 : State)
      → 0 < texts.hello
      → IsString s.mem texts.hello hello_text
      → 24 < fuel
      → Allocates 5368 a s s1
      → Allocates 4096 b s1 s2
      → Allocates 5368 c s2 s3
      → Allocates 4 d s3 s4
      → os_run fuel i ncpu texts s
        ≡ ok
            ((greeting_start ++ ((b'0' + i) % 256 ∷ 10 ∷ []))
              ++ (hex_text a ++ (hex_text b ++ (hex_text c ++ hex_text d))))
            s4
  unfolding os_run
  os_run-text a b c d s s1 s2 s3 s4 hh h g u1 u2 u3 u4 =
      rw
        (
          greet-text fuel i texts.hello hello_text s hh h g,
          print_alloc-text 5368 a s s1 u1,
          print_alloc-text 4096 b s1 s2 u2,
          print_alloc-text 5368 c s2 s3 u3,
          print_alloc-text 4 d s3 s4 u4,
        )
        refl
