-- ===== src/Klib/Stdio/Sprintf.antt =====
-- `vsprintf` and `vsnprintf` of abstract-machine/klib/src/stdio.c; `sprintf` and `snprintf` call them with
-- their arguments.
pub mod Put
pub mod Whole
pub mod Pieces
pub mod Bounded
use njuoslab_l1_kmalloc_kfre.Base.{
  ℕ, zero, suc, ◌+◌, ◌-◌, ◌%◌, ◌^◌, ◌==◌, not, ltb, leb, if◌then◌else◌, Bool, true, false, List, [],
  ◌∷◌, length,
}
use njuoslab_l1_kmalloc_kfre.Base.Words.{u32, sext}
use njuoslab_l1_kmalloc_kfre.Machine.{Fault, Cmd, fail, pure, check, ◌>>=◌, ◌>>◌}
use njuoslab_l1_kmalloc_kfre.Klib.Bytes.{get_byte, set_byte}
use njuoslab_l1_kmalloc_kfre.Klib.Text.{strlen, copy_chars}
use njuoslab_l1_kmalloc_kfre.Klib.Stdio.{decimal, next_arg}

-- What a conversion prints: characters that it computes, or the string at an address.
pub data Piece : Type 0 where
  chars : List ℕ → Piece
  text : ℕ → Piece

-- The inner `switch`.
pub convert : (c : ℕ) → List ℕ → Cmd (Piece × List ℕ)
convert c args =
    if c == b'%'
    then pure (chars (c ∷ []), args)
    else if c == b'd'
    then (do (a, rest) ← next_arg args; pure (chars (decimal (u32 a)), rest))
    else if c == b'c'
    then (do (a, rest) ← next_arg args; pure (chars (a % 256 ∷ []), rest))
    else if c == b's'
    then (do (a, rest) ← next_arg args; pure (text a, rest))
    else pure (chars [], args)

-- `*str_out++ = …` for each character, with the last `str_out`.
pub put_chars : (out : ℕ) → List ℕ → Cmd ℕ
put_chars out [] = pure out
put_chars out (c ∷ cs) = do set_byte out c; put_chars (out + 1) cs

-- The new `str_out` and `ret_num`.
pub put_piece : (fuel out ret : ℕ) → Piece → Cmd (ℕ × ℕ)
put_piece fuel out ret (chars cs) = do last ← put_chars out cs; pure (last, u32 (ret + length cs))
put_piece fuel out ret (text a) = do
  len ← strlen fuel a
  last ← copy_chars fuel out a
  pure (last, u32 (ret + len))

-- Behind the loop: the assertion assigns.
pub finish : (fuel out last : ℕ) → Cmd ℕ
finish fuel out last = do
  set_byte last 0
  len ← strlen fuel out
  check (not (u32 len == 0))
  pure (u32 len)

pub sprintf_loop : (fuel rounds out p str_out ret : ℕ) → List ℕ → Cmd ℕ
sprintf_loop fuel zero out p str_out ret args = fail Fault.out_of_fuel
sprintf_loop fuel (suc k) out p str_out ret args = do
  c ← get_byte p
  if c == 0
      then finish fuel out str_out
      else if c == b'%'
      then (do
        conversion ← get_byte (p + 1)
        (piece, rest) ← convert conversion args
        (last, ret') ← put_piece fuel str_out ret piece
        sprintf_loop fuel k out (p + 2) last ret' rest)
      else (do
        set_byte str_out c
        sprintf_loop fuel k out (p + 1) (str_out + 1) (u32 (ret + 1)) args)

-- The result -1 stands for a format at NULL.
pub vsprintf : (fuel out fmt : ℕ) → List ℕ → Cmd ℕ
vsprintf fuel out fmt args =
    if fmt == 0 then pure (2 ^ 32 - 1) else sprintf_loop fuel fuel out fmt out 0 args

-- `ret_num + 1 > n`
abbrev pub is_full : (n ret : ℕ) → Bool
is_full n ret = ltb n (sext (u32 (ret + 1)))

-- Whether the bound was met, the new `str_out` and `ret_num`.
pub put_at_most : (n out ret : ℕ) → List ℕ → Cmd (Bool × ℕ × ℕ)
put_at_most n out ret [] = pure (false, out, ret)
put_at_most n out ret (c ∷ cs) =
    if is_full n ret
    then pure (true, out, ret)
    else do set_byte out c; put_at_most n (out + 1) (u32 (ret + 1)) cs

pub put_text : (fuel n out ret a : ℕ) → Cmd (Bool × ℕ × ℕ)
put_text zero n out ret a = fail Fault.out_of_fuel
put_text (suc k) n out ret a = do
  c ← get_byte a
  if c == 0
      then pure (false, out, ret)
      else if is_full n ret
      then pure (true, out, ret)
      else do set_byte out c; put_text k n (out + 1) (u32 (ret + 1)) (a + 1)

pub put_piece_at_most : (fuel n out ret : ℕ) → Piece → Cmd (Bool × ℕ × ℕ)
put_piece_at_most fuel n out ret (chars cs) = put_at_most n out ret cs
put_piece_at_most fuel n out ret (text a) = put_text fuel n out ret a

pub finish_at_most : (fuel n out last : ℕ) → Cmd ℕ
finish_at_most fuel n out last = do ret ← finish fuel out last; check (leb (sext ret) n); pure ret

pub snprintf_loop : (fuel rounds n out p str_out ret : ℕ) → List ℕ → Cmd ℕ
snprintf_loop fuel zero n out p str_out ret args = fail Fault.out_of_fuel
snprintf_loop fuel (suc k) n out p str_out ret args = do
  c ← get_byte p
  if c == 0
      then finish_at_most fuel n out str_out
      else if c == b'%'
      then (do
        conversion ← get_byte (p + 1)
        (piece, rest) ← convert conversion args
        (full, last, ret') ← put_piece_at_most fuel n str_out ret piece
        if full then pure ret' else snprintf_loop fuel k n out (p + 2) last ret' rest)
      else if is_full n ret
      then pure ret
      else (do
        set_byte str_out c
        snprintf_loop fuel k n out (p + 1) (str_out + 1) (u32 (ret + 1)) args)

pub vsnprintf : (fuel out n fmt : ℕ) → List ℕ → Cmd ℕ
vsnprintf fuel out n fmt args =
    if fmt == 0 then pure (2 ^ 32 - 1) else snprintf_loop fuel fuel n out fmt out 0 args

abbrev pub sprintf : (fuel out fmt : ℕ) → List ℕ → Cmd ℕ
sprintf = vsprintf

abbrev pub snprintf : (fuel out n fmt : ℕ) → List ℕ → Cmd ℕ
snprintf = vsnprintf
