-- ===== src/Klib/Stdio/Printf.antt =====
-- `printf` of abstract-machine/klib/src/stdio.c. `putch` writes to the serial port; what it wrote is a
-- list.
pub mod Items
pub mod Shown
use njuoslab_l1_kmalloc_kfre.Base.{
  ℕ, zero, suc, ◌+◌, ◌-◌, ◌%◌, ◌^◌, ◌==◌, if◌then◌else◌, List, [], ◌∷◌, ◌++◌, length,
}
use njuoslab_l1_kmalloc_kfre.Base.Words.{u32}
use njuoslab_l1_kmalloc_kfre.Machine.{Fault, Cmd, fail, pure, ◌>>=◌, ◌>>◌}
use njuoslab_l1_kmalloc_kfre.Klib.Bytes.{get_byte}
use njuoslab_l1_kmalloc_kfre.Klib.Text.{strlen}
use njuoslab_l1_kmalloc_kfre.Klib.Stdio.{decimal, binary, hexadecimal, next_arg}

-- What was written, `ret_num`, and the arguments that are left.
pub record Printed : Type 0 where
  pub out : List ℕ
  pub ret : ℕ
  pub args : List ℕ

abbrev pub printed : List ℕ → ℕ → List ℕ → Printed
printed out ret args = record { out = out; ret = ret; args = args }

-- `for (; *s != '\0'; s++) putch(*s);`
pub read_chars : (fuel s : ℕ) → Cmd (List ℕ)
read_chars zero s = fail Fault.out_of_fuel
read_chars (suc k) s = do
  c ← get_byte s
  if c == 0 then pure [] else do cs ← read_chars k (s + 1); pure (c ∷ cs)

-- The inner `switch`, and where it leaves `pStr`: on the character behind the conversion, or on a
-- character that is no conversion.
unfoldable pub print_conversion : (fuel c p : ℕ) → Printed → Cmd (Printed × ℕ)
print_conversion fuel c p s =
    if c == b'%'
    then pure (printed (s.out ++ (c ∷ [])) (u32 (s.ret + 1)) s.args, p + 1)
    else if c == b'c'
    then (do
      (a, rest) ← next_arg s.args
      pure (printed (s.out ++ (a % 256 ∷ [])) (u32 (s.ret + 1)) rest, p + 1))
    else if c == b'x'
    then (do
      (a, rest) ← next_arg s.args
      pure (printed (s.out ++ hexadecimal a) (u32 (s.ret + length (hexadecimal a))) rest, p + 1))
    else if c == b'b'
    then (do
      (a, rest) ← next_arg s.args
      let cs = binary (u32 a)
      pure (printed (s.out ++ cs) (u32 (s.ret + length cs)) rest, p + 1))
    else if c == b'd'
    then (do
      (a, rest) ← next_arg s.args
      let cs = decimal (u32 a)
      pure (printed (s.out ++ cs) (u32 (s.ret + length cs)) rest, p + 1))
    else if c == b's'
    then (do
      (a, rest) ← next_arg s.args
      len ← strlen fuel a
      cs ← read_chars fuel a
      pure (printed (s.out ++ cs) (u32 (s.ret + len)) rest, p + 1))
    else pure (s, p)

-- `putch(*pStr)`
unfoldable pub print_char : (c width : ℕ) → Printed → Printed
print_char c width s = printed (s.out ++ (c ∷ [])) (u32 (s.ret + width)) s.args

-- A conversion falls through to `default`, which prints the next character. The cases for '\r' and
-- '\n' do what `default` does.
unfoldable pub print_loop : (fuel rounds p : ℕ) → Printed → Cmd Printed
print_loop fuel zero p s = fail Fault.out_of_fuel
print_loop fuel (suc k) p s = do
  c ← get_byte p
  if c == 0
      then pure s
      else if c == 9
      then print_loop fuel k (p + 1) (print_char c 4 s)
      else if c == b'%'
      then (do
        conversion ← get_byte (p + 1)
        (s', q) ← print_conversion fuel conversion (p + 1) s
        d ← get_byte q
        print_loop fuel k (q + 1) (print_char d 1 s'))
      else print_loop fuel k (p + 1) (print_char c 1 s)

-- The output and the result; -1 stands for a format at NULL.
unfoldable pub printf : (fuel fmt : ℕ) → List ℕ → Cmd (List ℕ × ℕ)
printf fuel fmt args =
    if fmt == 0
    then pure ([], 2 ^ 32 - 1)
    else do s ← print_loop fuel fuel fmt (printed [] 0 args); pure (s.out, s.ret)
