-- ===== src/Klib/Text/Strncpy.antt =====
-- `strncpy` of abstract-machine/klib/src/string.c copies at most `n` characters, and ends the copy.
use njuoslab_l1_kmalloc_kfre.Base.{
  ℕ, zero, suc, ◌+◌, ◌<◌, ◌≤◌, ◌≡◌, ◌^◌, List, [], ◌∷◌, length, arith, refl, sym, ap, ne→==, eq→==,
  le→leb, leb, ◌∙◌, false,
}
use njuoslab_l1_kmalloc_kfre.Base.Words.{add64}
use njuoslab_l1_kmalloc_kfre.Machine.{State, Run, ok}
use njuoslab_l1_kmalloc_kfre.Machine.Memory.{Mem, write, write-other, write-same}
use njuoslab_l1_kmalloc_kfre.Klib.Bytes.{get_byte-ok, set_byte-ok}
use njuoslab_l1_kmalloc_kfre.Klib.Copy.Laws.{
  copied, copied-none, copied-first, copied-inside, same_run, with_bytes,
}
use njuoslab_l1_kmalloc_kfre.Klib.Text.{strncpy, copy_at_most}
use njuoslab_l1_kmalloc_kfre.Klib.Text.Length.{IsString, IsString-agree, Disjoint, strlen-length}

-- The first `n` characters.
abbrev pub take : ℕ → List ℕ → List ℕ
take zero cs = []
take (suc n) [] = []
take (suc n) (c ∷ cs) = c ∷ take n cs

length-take : (n : ℕ) (cs : List ℕ) → (length (take n cs) ≤ n) × (length (take n cs) ≤ length cs)
length-take zero cs = (omega arith, omega arith)
length-take (suc n) [] = (omega arith, omega arith)
length-take (suc n) (c ∷ cs) = let (a, b) = length-take n cs in (omega arith, omega arith)

pub leb_over : (a b : ℕ) → b < a → leb a b ≡ false
leb_over a b h = ground arith

both : {a b a' b' : ℕ} → a ≡ a' → b ≡ b' → ◌≡◌ {A = ℕ × ℕ} (a, b) (a', b')
both e f = λ i. (e i, f i)

nothing_copied :
    (dst src cnt : ℕ) (st : State)
    → ◌≡◌ {A = Run (ℕ × ℕ)}
        (ok (dst, cnt) st)
        (ok (dst + 0, cnt + 0) (with_bytes st (copied st.mem dst src 0)))
nothing_copied dst src cnt st =
    same_run st (both (omega arith) (omega arith)) (λ b. sym (copied-none st.mem dst src b))

copy_at_most-copied :
    (fuel dst src n cnt r : ℕ) (cs : List ℕ) (st : State)
    → 0 < dst
    → 0 < src
    → Disjoint dst src (length cs)
    → IsString st.mem src cs
    → length cs < fuel
    → cnt + length cs < 2 ^ 64
    → n ≡ cnt + r
    → copy_at_most fuel dst src n cnt st
      ≡ ok
          (dst + length (take r cs), cnt + length (take r cs))
          (with_bytes st (copied st.mem dst src (length (take r cs))))
unfolding copy_at_most
copy_at_most-copied zero dst src n cnt r cs st hd hs apart h f w e = elim f [ ]
copy_at_most-copied (suc k) dst src n cnt zero [] st hd hs apart z f w e =
    rw (get_byte-ok src st hs, z) (nothing_copied dst src cnt st)
copy_at_most-copied (suc k) dst src n cnt (suc r) [] st hd hs apart z f w e =
    rw (get_byte-ok src st hs, z) (nothing_copied dst src cnt st)
copy_at_most-copied (suc k) dst src n cnt zero (c ∷ cs) st hd hs apart (nz, at, h) f w e =
    let wrap : add64 cnt 1 ≡ cnt + 1 = omega arith in
    rw
      (
        get_byte-ok src st hs,
        ne→== (st.mem src) 0 (λ z. nz (sym at ∙ z)),
        wrap,
        leb_over (cnt + 1) n (omega arith),
      )
      (nothing_copied dst src cnt st)
copy_at_most-copied (suc k) dst src n cnt (suc r) (c ∷ cs) st hd hs apart (nz, at, h) f w e =
    let wrap : add64 cnt 1 ≡ cnt + 1 = omega arith in
    let next = write st.mem dst (st.mem src) in
    let h' : IsString next (src + 1) cs =
      IsString-agree st.mem next (src + 1) (src + 1) cs
        (λ i l. write-other st.mem dst (st.mem src) (src + 1 + i) (omega arith)) h in
    let (_, short) = length-take r cs in
    rw
      (
        get_byte-ok src st hs,
        ne→== (st.mem src) 0 (λ z. nz (sym at ∙ z)),
        wrap,
        le→leb (cnt + 1) n (omega arith),
        set_byte-ok dst st hd (st.mem src),
        copy_at_most-copied k (dst + 1) (src + 1) n (cnt + 1) r cs (with_bytes st next)
            (omega arith) (omega arith) (omega arith) h' (omega arith) (omega arith) (omega arith),
      )
      (same_run st (both (omega arith) (omega arith))
        (λ b. copied-first st.mem dst src (length (take r cs)) b (omega arith)))

-- Its prefix is where the copy stands.
IsString-take :
    (m m' : Mem) (p q n : ℕ) (cs : List ℕ)
    → ((i : ℕ) → i < length (take n cs) → m' (q + i) ≡ m (p + i))
    → m' (q + length (take n cs)) ≡ 0
    → IsString m p cs
    → IsString m' q (take n cs)
IsString-take m m' p q zero cs same z h = ap m' (omega arith) ∙ z
IsString-take m m' p q (suc n) [] same z h = ap m' (omega arith) ∙ z
IsString-take m m' p q (suc n) (c ∷ cs) same z (nz, at, h) = (
  nz,
  ap m' (omega arith) ∙ same 0 (omega arith) ∙ ap m (omega arith) ∙ at,
  IsString-take m m' (p + 1) (q + 1) n cs
      (λ i l. ap m' (omega arith) ∙ same (suc i) (omega arith) ∙ ap m (omega arith))
      (ap m' (omega arith) ∙ z) h,
)

-- The first `n` characters of `cs`, copied to `dst` and ended there.
abbrev pub ended : Mem → (dst src n : ℕ) → List ℕ → Mem
ended m dst src n cs = write (copied m dst src (length (take n cs))) (dst + length (take n cs)) 0

-- `strncpy` returns `dst` with the first `n` characters of the string there, or all where it is shorter,
-- and then a byte 0, with no other byte changed, and its assertions hold, where the pointers are not
-- NULL, the string and the destination have no byte in common, the string fits `size_t`, and the fuel
-- exceeds its length.
pub strncpy-ended :
    (fuel dst src n : ℕ) (cs : List ℕ) (st : State)
    → 0 < dst
    → 0 < src
    → Disjoint dst src (length cs)
    → IsString st.mem src cs
    → length cs < fuel
    → length cs < 2 ^ 64
    → (strncpy fuel dst src n st ≡ ok dst (with_bytes st (ended st.mem dst src n cs)))
      × IsString (ended st.mem dst src n cs) dst (take n cs)
unfolding strncpy
strncpy-ended fuel dst src n cs st hd hs apart h f w =
    let len = length (take n cs) in
    let (most, short) = length-take n cs in
    let text : IsString (ended st.mem dst src n cs) dst (take n cs) =
      IsString-take st.mem (ended st.mem dst src n cs) src dst n cs
        (λ i l.
          write-other (copied st.mem dst src len) (dst + len) 0 (dst + i) (omega arith)
          ∙ copied-inside st.mem dst src len i l)
        (write-same (copied st.mem dst src len) (dst + len) 0) h in
    let from_zero : 0 + len ≡ len = omega arith in
    (
      rw
          (
            ne→== dst 0 (omega arith),
            ne→== src 0 (omega arith),
            copy_at_most-copied fuel dst src n 0 n cs st hd hs apart h f (omega arith)
                (omega arith),
            set_byte-ok (dst + len) (with_bytes st (copied st.mem dst src len)) (omega arith) 0,
            strlen-length fuel dst (take n cs) (with_bytes st (ended st.mem dst src n cs)) hd text
                (omega arith) (omega arith),
            from_zero,
            eq→== len len refl,
            le→leb len n most,
          )
          refl,
      text,
    )
