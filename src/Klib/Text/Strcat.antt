-- ===== src/Klib/Text/Strcat.antt =====
-- `strcat` of abstract-machine/klib/src/string.c appends a string.
use njuoslab_l1_kmalloc_kfre.Base.{
  ℕ, zero, suc, ◌+◌, ◌<◌, ◌≡◌, ◌^◌, List, [], ◌∷◌, ◌++◌, length, length-++, arith, refl, sym, ap,
  ne→==, eq→==, ◌⊎◌, ◌∙◌,
}
use njuoslab_l1_kmalloc_kfre.Base.Words.{add64, u32, sext-small}
use njuoslab_l1_kmalloc_kfre.Machine.{State, ok}
use njuoslab_l1_kmalloc_kfre.Machine.Memory.{Mem}
use njuoslab_l1_kmalloc_kfre.Klib.Bytes.{get_byte-ok, set_byte-ok}
use njuoslab_l1_kmalloc_kfre.Klib.Copy.Laws.{copied, copied-outside, same_run, with_bytes}
use njuoslab_l1_kmalloc_kfre.Klib.Text.{strcat, find_end}
use njuoslab_l1_kmalloc_kfre.Klib.Text.Strcpy.{after, after-copied, after-IsString, kept-IsString}
use njuoslab_l1_kmalloc_kfre.Klib.Text.Length.{
  IsString, IsString-agree, IsString-end, Disjoint, copy_chars-copied, strlen-length,
}

find_end-tail :
    (fuel p : ℕ) (cs : List ℕ) (st : State)
    → 0 < p
    → IsString st.mem p cs
    → length cs < fuel
    → find_end fuel p st ≡ ok (p + length cs) st
unfolding find_end
find_end-tail zero p cs st hp h f = elim f [ ]
find_end-tail (suc k) p [] st hp z f = rw (get_byte-ok p st hp, z) (ap (λ x. ok x st) (omega arith))
find_end-tail (suc k) p (c ∷ cs) st hp (nz, e, h) f =
    rw
      (
        get_byte-ok p st hp,
        e,
        ne→== c 0 nz,
        find_end-tail k (p + 1) cs st (omega arith) h (omega arith),
      )
      (ap (λ x. ok x st) (omega arith))

-- The first string stays where its characters do, and the second begins at its end.
IsString-++ :
    (m m' : Mem) (p : ℕ) (ds cs : List ℕ)
    → ((i : ℕ) → i < length ds → m' (p + i) ≡ m (p + i))
    → IsString m p ds
    → IsString m' (p + length ds) cs
    → IsString m' p (ds ++ cs)
IsString-++ m m' p [] cs same h t = IsString-agree m' m' (p + 0) p cs (λ i l. ap m' (omega arith)) t
IsString-++ m m' p (d ∷ ds) cs same (nz, e, h) t = (
  nz,
  ap m' (omega arith) ∙ same 0 (omega arith) ∙ ap m (omega arith) ∙ e,
  IsString-++ m m' (p + 1) ds cs
      (λ i l. ap m' (omega arith) ∙ same (suc i) (omega arith) ∙ ap m (omega arith)) h
      (IsString-agree m' m' (p + suc (length ds)) (p + 1 + length ds) cs
        (λ i l. ap m' (omega arith)) t),
)

-- `strcat` returns `dst` with the second string and its end copied behind the first and no other byte
-- changed, so that the two in a row stand there, and its assertions hold, where the pointers are not
-- NULL, the source and the whole result have no byte in common, the first string fits `int`, the result
-- fits `size_t`, and the fuel exceeds the length of the result.
pub strcat-copied :
    (fuel dst src : ℕ) (ds cs : List ℕ) (st : State)
    → 0 < dst
    → 0 < src
    → IsString st.mem dst ds
    → IsString st.mem src cs
    → (dst + (length ds + length cs) < src) ⊎ (src + length cs < dst)
    → length ds + length cs < fuel
    → length ds < 2 ^ 31
    → length ds + length cs < 2 ^ 64
    → (strcat fuel dst src st
        ≡ ok dst (with_bytes st (copied st.mem (dst + length ds) src (suc (length cs)))))
      × IsString (copied st.mem (dst + length ds) src (suc (length cs))) dst (ds ++ cs)
unfolding strcat
strcat-copied fuel dst src ds cs st hd hs k h apart f small w =
    let tail = dst + length ds in
    let apart' : Disjoint tail src (length cs) = omega arith in
    let new = after tail src cs st apart' h in
    let final = with_bytes st new in
    let to_copied = after-copied tail src cs st apart' h in
    let both : IsString new dst (ds ++ cs) =
      IsString-++ st.mem new dst ds cs
        (λ i l.
          to_copied (dst + i)
          ∙ copied-outside st.mem tail src (suc (length cs)) (dst + i) (omega arith))
        k (after-IsString tail src cs st apart' h) in
    let total = length-++ ds cs in
    let left : u32 (length ds) ≡ length ds = omega arith in
    let wide = sext-small (length ds) small in
    let sum : add64 (length cs) (length ds) ≡ length ds + length cs = omega arith in
    (
      rw
          (
            ne→== dst 0 (omega arith),
            strlen-length fuel dst ds st hd k (omega arith) (omega arith),
            find_end-tail fuel dst ds st hd k (omega arith),
            get_byte-ok tail st (omega arith),
            IsString-end st.mem dst ds k,
            ne→== src 0 (omega arith),
            copy_chars-copied fuel tail src cs st (omega arith) hs apart' h (omega arith),
            set_byte-ok (tail + length cs) (with_bytes st (copied st.mem tail src (length cs)))
                (omega arith) 0,
            strlen-length fuel dst (ds ++ cs) final hd both (omega arith) (omega arith),
            strlen-length fuel src cs final hs (kept-IsString tail src cs st apart' h) (omega arith)
                (omega arith),
            left,
            wide,
            sum,
            eq→== (length (ds ++ cs)) (length ds + length cs) total,
          )
          (same_run st refl to_copied),
      IsString-agree new (copied st.mem tail src (suc (length cs))) dst dst (ds ++ cs)
          (λ i l. sym (to_copied (dst + i))) both,
    )
