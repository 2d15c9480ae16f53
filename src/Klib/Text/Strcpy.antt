-- ===== src/Klib/Text/Strcpy.antt =====
-- `strcpy` of abstract-machine/klib/src/string.c copies a string, and its assertion holds.
use njuoslab_l1_kmalloc_kfre.Base.{
  ℕ, suc, ◌+◌, ◌<◌, ◌≡◌, ◌^◌, List, length, arith, refl, ne→==, eq→==, ◌∙◌,
}
use njuoslab_l1_kmalloc_kfre.Machine.{State, ok}
use njuoslab_l1_kmalloc_kfre.Machine.Memory.{Mem, write}
use njuoslab_l1_kmalloc_kfre.Klib.Bytes.{set_byte-ok}
use njuoslab_l1_kmalloc_kfre.Klib.Copy.Laws.{
  copied, copied-inside, copied-outside, same_run, with_bytes,
}
use njuoslab_l1_kmalloc_kfre.Klib.Text.{strcpy}
use njuoslab_l1_kmalloc_kfre.Klib.Text.Length.{
  IsString, IsString-agree, IsString-end, Disjoint, copy_chars-copied, strlen-length,
}

-- The byte that ends the copy is the one that ends the string.
pub copied-end :
    (m : Mem) (d s n b : ℕ)
    → m (s + n) ≡ 0
    → write (copied m d s n) (d + n) 0 b ≡ copied m d s (suc n) b
unfolding copied write
copied-end m d s n b h = ground arith

module _ (dst src : ℕ) (cs : List ℕ) (st : State) (apart : Disjoint dst src (length cs))
    (h : IsString st.mem src cs) where
  abbrev pub after : Mem
  after = write (copied st.mem dst src (length cs)) (dst + length cs) 0

  pub after-copied : (b : ℕ) → after b ≡ copied st.mem dst src (suc (length cs)) b
  after-copied b = copied-end st.mem dst src (length cs) b (IsString-end st.mem src cs h)

  pub after-IsString : IsString after dst cs
  after-IsString =
      IsString-agree st.mem after src dst cs
        (λ i l.
          after-copied (dst + i) ∙ copied-inside st.mem dst src (suc (length cs)) i (omega arith))
        h

  pub kept-IsString : IsString after src cs
  kept-IsString =
      IsString-agree st.mem after src src cs
        (λ i l.
          after-copied (src + i)
          ∙ copied-outside st.mem dst src (suc (length cs)) (src + i) (omega arith))
        h

  -- `strcpy` returns `dst` with the string and its end copied there and no other byte changed, and its
  -- assertions hold, where the pointers are not NULL, the two ranges have no byte in common, the
  -- string fits `size_t`, and the fuel exceeds its length.
  pub strcpy-copied :
      (fuel : ℕ)
      → 0 < dst
      → 0 < src
      → length cs < fuel
      → length cs < 2 ^ 64
      → (strcpy fuel dst src st ≡ ok dst (with_bytes st (copied st.mem dst src (suc (length cs)))))
        × IsString (copied st.mem dst src (suc (length cs))) dst cs
  unfolding strcpy
  strcpy-copied fuel hd hs f w = (
    rw
        (
          ne→== dst 0 (omega arith),
          ne→== src 0 (omega arith),
          copy_chars-copied fuel dst src cs st hd hs apart h f,
          set_byte-ok (dst + length cs) (with_bytes st (copied st.mem dst src (length cs)))
              (omega arith) 0,
          strlen-length fuel dst cs (with_bytes st after) hd after-IsString f w,
          strlen-length fuel src cs (with_bytes st after) hs kept-IsString f w,
          eq→== (length cs) (length cs) refl,
        )
        (same_run st refl after-copied),
    IsString-agree st.mem (copied st.mem dst src (suc (length cs))) src dst cs
        (λ i l. copied-inside st.mem dst src (suc (length cs)) i (omega arith)) h,
  )
