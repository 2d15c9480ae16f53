-- ===== src/Klib/Stdio/Sprintf/Put.antt =====
-- What the loops of `vsprintf` in abstract-machine/klib/src/stdio.c write, while what they read stays.
use njuoslab_l1_kmalloc_kfre.Base.{
  ℕ, zero, suc, ◌+◌, ◌≤◌, ◌<◌, ◌≡◌, ◌≢◌, refl, ap, ◌∙◌, arith, List, [], ◌∷◌, ◌++◌, length, All,
  ne→==,
}
use njuoslab_l1_kmalloc_kfre.Machine.{State, ok}
use njuoslab_l1_kmalloc_kfre.Machine.Memory.{Mem, write, write-other, write-same}
use njuoslab_l1_kmalloc_kfre.Klib.Bytes.{get_byte-ok, set_byte-ok}
use njuoslab_l1_kmalloc_kfre.Klib.Copy.Laws.{with_bytes}
use njuoslab_l1_kmalloc_kfre.Klib.Text.{copy_chars}
use njuoslab_l1_kmalloc_kfre.Klib.Text.Length.{IsString}
use njuoslab_l1_kmalloc_kfre.Klib.Stdio.Format.{Apart, StringApart, put}
use njuoslab_l1_kmalloc_kfre.Klib.Stdio.Sprintf.{put_chars}

-- Two memories agree apart from the output.
abbrev pub Agrees : (m m0 : Mem) (lo hi : ℕ) → Type 0
Agrees m m0 lo hi = (b : ℕ) → Apart lo hi b → m b ≡ m0 b

pub write-Agrees :
    (m m0 : Mem) (lo hi a c : ℕ)
    → lo ≤ a
    → a < hi
    → Agrees m m0 lo hi
    → Agrees (write m a c) m0 lo hi
write-Agrees m m0 lo hi a c l h same b apart = write-other m a c b (omega arith) ∙ same b apart

pub put-Agrees :
    (m m0 : Mem) (lo hi a : ℕ) (cs : List ℕ)
    → lo ≤ a
    → a + length cs ≤ hi
    → Agrees m m0 lo hi
    → Agrees (put m a cs) m0 lo hi
put-Agrees m m0 lo hi a [] l h same = same
put-Agrees m m0 lo hi a (c ∷ cs) l h same =
    put-Agrees (write m a c) m0 lo hi (a + 1) cs (omega arith) (omega arith)
      (write-Agrees m m0 lo hi a c l (omega arith) same)

pub put-++ :
    (m : Mem) (a : ℕ) (xs ys : List ℕ) → put m a (xs ++ ys) ≡ put (put m a xs) (a + length xs) ys
put-++ m a [] ys = ap (λ x. put m x ys) (omega arith)
put-++ m a (x ∷ xs) ys =
    put-++ (write m a x) (a + 1) xs ys
    ∙ ap (λ b. put (put (write m a x) (a + 1) xs) b ys) (omega arith)

pub put-before : (m : Mem) (a b : ℕ) (cs : List ℕ) → b < a → put m a cs b ≡ m b
put-before m a b [] h = refl
put-before m a b (c ∷ cs) h =
    put-before (write m a c) (a + 1) b cs (omega arith) ∙ write-other m a c b (omega arith)

-- The characters, ended by a byte 0, are a string.
pub put-IsString :
    (m : Mem) (a last : ℕ) (cs : List ℕ)
    → last ≡ a + length cs
    → All (λ c. c ≢ 0) cs
    → IsString (write (put m a cs) last 0) a cs
put-IsString m a last [] e nz = ap (write m last 0) (omega arith) ∙ write-same m last 0
put-IsString m a last (c ∷ cs) e (n, nz) = (
  n,
  write-other (put (write m a c) (a + 1) cs) last 0 a (omega arith)
      ∙ put-before (write m a c) (a + 1) a cs (omega arith)
      ∙ write-same m a c,
  put-IsString (write m a c) (a + 1) last cs (omega arith) nz,
)

pub put_chars-put :
    (a : ℕ) (cs : List ℕ) (st : State)
    → 0 < a
    → put_chars a cs st ≡ ok (a + length cs) (with_bytes st (put st.mem a cs))
unfolding put_chars
put_chars-put a [] st h = ap (λ x. ok x st) (omega arith)
put_chars-put a (c ∷ cs) st h =
    rw
      (
        set_byte-ok a st h c,
        put_chars-put (a + 1) cs (with_bytes st (write st.mem a c)) (omega arith),
      )
      (ap (λ x. ok x (with_bytes st (put st.mem a (c ∷ cs)))) (omega arith))

module _ (m0 : Mem) (lo hi : ℕ) where
  pub StringApart-IsString :
      (m : Mem) (p : ℕ) (cs : List ℕ)
      → Agrees m m0 lo hi
      → StringApart m0 lo hi p cs
      → IsString m p cs
  StringApart-IsString m p [] same (apart, z) = same p apart ∙ z
  StringApart-IsString m p (c ∷ cs) same (apart, nz, e, h) =
      (nz, same p apart ∙ e, StringApart-IsString m (p + 1) cs same h)

  pub copy_chars-put :
      (fuel a p : ℕ) (cs : List ℕ) (st : State)
      → 0 < a
      → 0 < p
      → lo ≤ a
      → a + length cs ≤ hi
      → Agrees st.mem m0 lo hi
      → StringApart m0 lo hi p cs
      → length cs < fuel
      → copy_chars fuel a p st ≡ ok (a + length cs) (with_bytes st (put st.mem a cs))
  unfolding copy_chars
  copy_chars-put zero a p cs st ha hp l h same s f = elim f [ ]
  copy_chars-put (suc k) a p [] st ha hp l h same (apart, z) f =
      let read : st.mem p ≡ 0 = same p apart ∙ z in
      rw (get_byte-ok p st hp, read) (ap (λ x. ok x st) (omega arith))
  copy_chars-put (suc k) a p (c ∷ cs) st ha hp l h same (apart, nz, e, s) f =
      let read : st.mem p ≡ c = same p apart ∙ e in
      rw
        (
          get_byte-ok p st hp,
          read,
          ne→== c 0 nz,
          set_byte-ok a st ha c,
          copy_chars-put k (a + 1) (p + 1) cs (with_bytes st (write st.mem a c)) (omega arith)
              (omega arith) (omega arith) (omega arith)
              (write-Agrees st.mem m0 lo hi a c l (omega arith) same) s (omega arith),
        )
        (ap (λ x. ok x (with_bytes st (put st.mem a (c ∷ cs)))) (omega arith))
