-- ===== src/Klib/Copy/Compare.antt =====
-- `memcmp` of abstract-machine/klib/src/string.c finds the first difference.
use njuoslab_l1_kmalloc_kfre.Base.{
  ℕ, zero, suc, ◌+◌, ◌<◌, ◌≡◌, ◌≢◌, ◌⊎◌, inl, inr, arith, refl, sym, ap, ◌∙◌, ◌==◌, ==→eq,
  Bool-cases, false,
}
use njuoslab_l1_kmalloc_kfre.Base.Words.{sub32}
use njuoslab_l1_kmalloc_kfre.Machine.{State, ok}
use njuoslab_l1_kmalloc_kfre.Machine.Memory.{Mem}
use njuoslab_l1_kmalloc_kfre.Klib.Bytes.{get_byte-ok}
use njuoslab_l1_kmalloc_kfre.Klib.Copy.{memcmp}

abbrev pub SameBytes : Mem → (p q n : ℕ) → Type 0
SameBytes m p q n = (i : ℕ) → i < n → m (p + i) ≡ m (q + i)

-- The first difference of the `n` bytes at `p` and `q`, as an `int`, stands at offset `i`.
pub record DiffersAt (m : Mem) (p q n r i : ℕ) : Type 0 where
  pub within : i < n
  pub before : SameBytes m p q i
  pub differ : m (p + i) ≢ m (q + i)
  pub difference : r ≡ sub32 (m (p + i)) (m (q + i))
  pub not_zero : r ≢ 0

abbrev pub Compared : Mem → (p q n r : ℕ) → Type 0
Compared m p q n r = ((r ≡ 0) × SameBytes m p q n) ⊎ ((i : ℕ) × DiffersAt m p q n r i)

SameBytes-suc :
    (m : Mem) (p q n : ℕ) → m p ≡ m q → SameBytes m (p + 1) (q + 1) n → SameBytes m p q (suc n)
SameBytes-suc m p q n same rest zero l = ap m (omega arith) ∙ same ∙ ap m (omega arith)
SameBytes-suc m p q n same rest (suc i) l =
    ap m (omega arith) ∙ rest i (omega arith) ∙ ap m (omega arith)

Compared-later :
    (m : Mem) (p q n r : ℕ) → m p ≡ m q → Compared m (p + 1) (q + 1) n r → Compared m p q (suc n) r
Compared-later m p q n r same (inl (z, rest)) = inl (z, SameBytes-suc m p q n same rest)
Compared-later m p q n r same (inr (i, d)) =
    let at : (x : ℕ) → x + 1 + i ≡ x + suc i = λ x. omega arith in
    inr (
      suc i,
      record {
        within = omega (arith, d.within);
        before = SameBytes-suc m p q i same d.before;
        differ = λ e. d.differ (ap m (at p) ∙ e ∙ sym (ap m (at q)));
        difference =
            d.difference
            ∙ ap (λ x. sub32 (m x) (m (q + 1 + i))) (at p)
            ∙ ap (λ x. sub32 (m (p + suc i)) (m x)) (at q);
        not_zero = d.not_zero;
      },
    )

sub32-zero : (a b : ℕ) → a < 256 → b < 256 → sub32 a b ≡ 0 → a ≡ b
sub32-zero a b ha hb h = omega arith

sub32-not_zero : (a b : ℕ) → a < 256 → b < 256 → sub32 a b ≢ 0 → a ≢ b
sub32-not_zero a b ha hb h = omega arith

first_byte :
    (m : Mem) (p q n : ℕ)
    → m p < 256
    → m q < 256
    → (sub32 (m p) (m q) == 0) ≡ false
    → DiffersAt m p q (suc n) (sub32 (m p) (m q)) 0
first_byte m p q n hp hq other =
    let not_zero : sub32 (m p) (m q) ≢ 0 = ground arith in
    let start : (x : ℕ) → x + 0 ≡ x = λ x. omega arith in
    record {
      within = omega arith;
      before = λ i l. elim l [ ];
      differ = λ e.
          sub32-not_zero (m p) (m q) hp hq not_zero (sym (ap m (start p)) ∙ e ∙ ap m (start q));
      difference =
          ap (λ x. sub32 (m x) (m q)) (sym (start p))
          ∙ ap (λ x. sub32 (m (p + 0)) (m x)) (sym (start q));
      not_zero = not_zero;
    }

-- `memcmp` returns 0 where the `n` bytes agree, and else the difference of the first two bytes that do
-- not, as an `int` that is not 0; it changes nothing. The pointers are not NULL, and the memory holds
-- bytes.
pub memcmp-Compared :
    (p q n : ℕ) (st : State)
    → 0 < p
    → 0 < q
    → ((a : ℕ) → st.mem a < 256)
    → (r : ℕ) × (memcmp p q n st ≡ ok r st) × Compared st.mem p q n r
unfolding memcmp
memcmp-Compared p q zero st hp hq bytes = (0, refl, inl (refl, λ i l. elim l [ ]))
memcmp-Compared p q (suc n) st hp hq bytes =
    let (r, run, rest) = memcmp-Compared (p + 1) (q + 1) n st (omega arith) (omega arith) bytes in
    let res = sub32 (st.mem p) (st.mem q) in
    elim (Bool-cases (res == 0)) [
      | inl zero_res ↦ (
        r,
        rw (get_byte-ok p st hp, get_byte-ok q st hq, zero_res) run,
        Compared-later st.mem p q n r
            (sub32-zero (st.mem p) (st.mem q) (bytes p) (bytes q) (==→eq res 0 zero_res)) rest,
      )
      | inr other ↦ (
        res,
        rw (get_byte-ok p st hp, get_byte-ok q st hq, other) refl,
        inr (0, first_byte st.mem p q n (bytes p) (bytes q) other),
      )
    ]
