-- ===== src/Klib/Text/Length.antt =====
-- Strings in memory, and the walks of string.c over one.
use njuoslab_l1_kmalloc_kfre.Base.{
  ℕ, zero, suc, ◌+◌, ◌<◌, ◌≤◌, ◌≡◌, ◌≢◌, ◌^◌, List, [], ◌∷◌, length, arith, sym, ap, ◌∙◌, ne→==,
  ◌⊎◌,
}
use njuoslab_l1_kmalloc_kfre.Base.Words.{add64}
use njuoslab_l1_kmalloc_kfre.Machine.{State, ok}
use njuoslab_l1_kmalloc_kfre.Machine.Memory.{Mem, write, write-other}
use njuoslab_l1_kmalloc_kfre.Klib.Bytes.{get_byte-ok, set_byte-ok}
use njuoslab_l1_kmalloc_kfre.Klib.Copy.Laws.{
  copied, copied-none, copied-first, same_run, with_bytes,
}
use njuoslab_l1_kmalloc_kfre.Klib.Text.{count_chars, strlen, copy_chars}

-- The string at `p` has the characters `cs`.
abbrev pub IsString : Mem → ℕ → List ℕ → Type 0
IsString m p [] = m p ≡ 0
IsString m p (c ∷ cs) = (c ≢ 0) × (m p ≡ c) × IsString m (p + 1) cs

-- The fuel is the walk's number of rounds at most.
count_chars-length :
    (fuel p i : ℕ) (cs : List ℕ) (st : State)
    → 0 < p
    → IsString st.mem p cs
    → length cs < fuel
    → i + length cs < 2 ^ 64
    → count_chars fuel p i st ≡ ok (i + length cs) st
unfolding count_chars
count_chars-length zero p i cs st hp z f w = elim f [ ]
count_chars-length (suc k) p i [] st hp z f w =
    rw (get_byte-ok p st hp, z) (ap (λ x. ok x st) (omega arith))
count_chars-length (suc k) p i (c ∷ cs) st hp (nz, e, h) f w =
    let wrap : add64 i 1 ≡ i + 1 = omega arith in
    rw
      (
        get_byte-ok p st hp,
        e,
        ne→== c 0 nz,
        wrap,
        count_chars-length k (p + 1) (i + 1) cs st (omega arith) h (omega arith) (omega arith),
      )
      (ap (λ x. ok x st) (omega arith))

-- `strlen` returns the number of characters before the end, with more fuel than that, where the pointer
-- is not NULL and the number fits `size_t`.
pub strlen-length :
    (fuel p : ℕ) (cs : List ℕ) (st : State)
    → 0 < p
    → IsString st.mem p cs
    → length cs < fuel
    → length cs < 2 ^ 64
    → strlen fuel p st ≡ ok (length cs) st
unfolding strlen
strlen-length fuel p cs st hp h f w =
    rw (ne→== p 0 (omega arith), count_chars-length fuel p 0 cs st hp h f (omega arith))
      (ap (λ x. ok x st) (omega arith))

pub IsString-agree :
    (m m' : Mem) (p q : ℕ) (cs : List ℕ)
    → ((i : ℕ) → i ≤ length cs → m' (q + i) ≡ m (p + i))
    → IsString m p cs
    → IsString m' q cs
IsString-agree m m' p q [] same z =
    ap m' (omega arith) ∙ same 0 (omega arith) ∙ ap m (omega arith) ∙ z
IsString-agree m m' p q (c ∷ cs) same (nz, e, h) = (
  nz,
  ap m' (omega arith) ∙ same 0 (omega arith) ∙ ap m (omega arith) ∙ e,
  IsString-agree m m' (p + 1) (q + 1) cs
      (λ i l. ap m' (omega arith) ∙ same (suc i) (omega arith) ∙ ap m (omega arith)) h,
)

pub IsString-end : (m : Mem) (p : ℕ) (cs : List ℕ) → IsString m p cs → m (p + length cs) ≡ 0
IsString-end m p [] z = ap m (omega arith) ∙ z
IsString-end m p (c ∷ cs) (nz, e, h) = ap m (omega arith) ∙ IsString-end m (p + 1) cs h

-- The two ranges have no byte in common, the ends of the strings included.
abbrev pub Disjoint : (dst src n : ℕ) → Type 0
Disjoint dst src n = (dst + n < src) ⊎ (src + n < dst)

pub copy_chars-copied :
    (fuel dst src : ℕ) (cs : List ℕ) (st : State)
    → 0 < dst
    → 0 < src
    → Disjoint dst src (length cs)
    → IsString st.mem src cs
    → length cs < fuel
    → copy_chars fuel dst src st
      ≡ ok (dst + length cs) (with_bytes st (copied st.mem dst src (length cs)))
unfolding copy_chars
copy_chars-copied zero dst src cs st hd hs apart h f = elim f [ ]
copy_chars-copied (suc k) dst src [] st hd hs apart z f =
    rw (get_byte-ok src st hs, z)
      (same_run st (omega arith) (λ b. sym (copied-none st.mem dst src b)))
copy_chars-copied (suc k) dst src (c ∷ cs) st hd hs apart (nz, e, h) f =
    let next = write st.mem dst (st.mem src) in
    let h' : IsString next (src + 1) cs =
      IsString-agree st.mem next (src + 1) (src + 1) cs
        (λ i l. write-other st.mem dst (st.mem src) (src + 1 + i) (omega arith)) h in
    rw
      (
        get_byte-ok src st hs,
        ne→== (st.mem src) 0 (λ z. nz (sym e ∙ z)),
        set_byte-ok dst st hd (st.mem src),
        copy_chars-copied k (dst + 1) (src + 1) cs (with_bytes st next) (omega arith) (omega arith)
            (omega arith) h' (omega arith),
      )
      (same_run st (omega arith) (λ b. copied-first st.mem dst src (length cs) b (omega arith)))
