-- ===== src/Klib/Stdlib/Atoi.antt =====
-- `atoi` of abstract-machine/klib/src/stdlib.c reads what `%d` prints.
use njuoslab_l1_kmalloc_kfre.Base.{
  ℕ, zero, suc, ◌+◌, ◌*◌, ◌^◌, ◌≤◌, ◌<◌, ◌≡◌, ◌≢◌, refl, sym, ap, ◌∙◌, arith, ne→==, le→leb, List,
  [], ◌∷◌, length, map, All,
}
use njuoslab_l1_kmalloc_kfre.Base.Words.{u32, sub32}
use njuoslab_l1_kmalloc_kfre.Machine.{State, ok}
use njuoslab_l1_kmalloc_kfre.Machine.Memory.{Mem}
use njuoslab_l1_kmalloc_kfre.Klib.Bytes.{get_byte-ok}
use njuoslab_l1_kmalloc_kfre.Klib.Text.Length.{IsString}
use njuoslab_l1_kmalloc_kfre.Klib.Stdio.{decimal}
use njuoslab_l1_kmalloc_kfre.Klib.Numeral.{read_digits}
use njuoslab_l1_kmalloc_kfre.Klib.Stdio.Digits.{digit_char, decimal-IsNumeral}
use njuoslab_l1_kmalloc_kfre.Klib.Stdlib.{skip_spaces, scan_digits, atoi}

read_digits-ge : (ds : List ℕ) (x : ℕ) → x ≤ read_digits 10 ds x
read_digits-ge [] x = omega arith
read_digits-ge (d ∷ ds) x = omega (arith, read_digits-ge ds (x * 10 + d))

scan_digits-read :
    (fuel p x : ℕ) (ds : List ℕ) (st : State)
    → 0 < p
    → IsString st.mem p (map digit_char ds)
    → All (λ d. d < 10) ds
    → length ds < fuel
    → read_digits 10 ds x < 2147483648
    → scan_digits fuel p x st ≡ ok (read_digits 10 ds x) st
unfolding scan_digits
scan_digits-read zero p x ds st hp h small f lt = elim f [ ]
scan_digits-read (suc k) p x [] st hp z small f lt = rw (get_byte-ok p st hp, z) refl
scan_digits-read (suc k) p x (d ∷ ds) st hp (nz, e, h) (sd, small) f lt =
    let grows = read_digits-ge ds (x * 10 + d) in
    let char : digit_char d ≡ d + 48 = omega arith in
    let step : sub32 (u32 (u32 (x * 10) + (d + 48))) 48 ≡ x * 10 + d = omega arith in
    rw
      (
        get_byte-ok p st hp,
        e,
        char,
        le→leb 48 (d + 48) (omega arith),
        le→leb (d + 48) 57 (omega arith),
        step,
      )
      (scan_digits-read k (p + 1) (x * 10 + d) ds st (omega arith) h small (omega arith) lt)

skip_spaces-none :
    (fuel p : ℕ) (st : State) → 0 < p → 0 < fuel → st.mem p ≢ 32 → skip_spaces fuel p st ≡ ok p st
unfolding skip_spaces
skip_spaces-none zero p st hp f h = elim f [ ]
skip_spaces-none (suc k) p st hp f h = rw (get_byte-ok p st hp, ne→== (st.mem p) 32 h) refl

atoi-read :
    (fuel p : ℕ) (ds : List ℕ) (st : State)
    → 0 < p
    → IsString st.mem p (map digit_char ds)
    → All (λ d. d < 10) ds
    → length ds < fuel
    → read_digits 10 ds 0 < 2147483648
    → st.mem p ≢ 32
    → atoi fuel p st ≡ ok (read_digits 10 ds 0) st
unfolding atoi
atoi-read fuel p ds st hp h small f lt space =
    rw (skip_spaces-none fuel p st hp (omega arith) space)
      (scan_digits-read fuel p 0 ds st hp h small f lt)

first_char :
    (m : Mem) (p : ℕ) (ds : List ℕ)
    → IsString m p (map digit_char ds)
    → All (λ d. d < 10) ds
    → m p ≢ 32
first_char m p [] z small = omega arith
first_char m p (d ∷ ds) (nz, e, h) (sd, small) = omega arith

length-map : (ds : List ℕ) → length (map digit_char ds) ≡ length ds
length-map [] = refl
length-map (d ∷ ds) = ap suc (length-map ds)

-- `atoi` of the text that `%d` prints for an `int` that is not negative returns the number, where the
-- pointer is not NULL and the fuel exceeds the length of the text.
pub atoi-decimal :
    (fuel p value : ℕ) (st : State)
    → 0 < p
    → value < 2 ^ 31
    → IsString st.mem p (decimal value)
    → length (decimal value) < fuel
    → atoi fuel p st ≡ ok value st
atoi-decimal fuel p value st hp small h f =
    let (ds, text, numeral) = decimal-IsNumeral value small in
    let h' : IsString st.mem p (map digit_char ds) = rw (sym text) h in
    let len : length (decimal value) ≡ length ds = ap length text ∙ length-map ds in
    let reads = numeral.reads in
    atoi-read fuel p ds st hp h' numeral.digits (omega arith) (omega arith)
      (first_char st.mem p ds h' numeral.digits)
    ∙ ap (λ x. ok x st) reads
