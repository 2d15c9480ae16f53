-- ===== src/Pmm/SizeClass/Bounds.antt =====
-- What the rounding of `kalloc` gives: the least power of two that is large enough, from 32 on.
use njuoslab_l1_kmalloc_kfre.Base.{
  ℕ, zero, suc, ◌*◌, ◌^◌, ◌≤◌, ◌<◌, ◌≡◌, ◌⊎◌, inl, inr, refl, some, Option, false, arith, ap,
  le→ltb, ltb, Bool-cases, ltb→lt, ltb→le,
}
use native.Mathlib.Nat.{pow-suc, pow-le-pow_right}
use native.Mathlib.Decide.{dec_le}
use njuoslab_l1_kmalloc_kfre.Pmm.SizeClass.{double_up, powval_of}

-- The result `q` of the loop from `p`: enough for `size`, and either `p` itself or not twice as
-- much as is needed; `p` has been doubled `j` times.
pub record Rounded (p size : ℕ) (r : Option ℕ) : Type 0 where
  pub value : ℕ
  pub result : r ≡ some value
  pub enough : size ≤ value
  pub tight : (value ≡ p) ⊎ (value < 2 * size)
  pub times : ℕ
  pub power : value ≡ p * 2 ^ times

done_at : (k p size : ℕ) → ltb p size ≡ false → Rounded p size (double_up (suc k) p size)
unfolding double_up
done_at k p size done = record {
  value = p;
  result = rw done;
  enough = ltb→le _ _ done;
  tight = inl refl;
  times = 0;
  power = omega arith;
}

pub double_up-Rounded :
    (k p size : ℕ) → size ≤ p * 2 ^ k → Rounded p size (double_up (suc k) p size)
unfolding double_up
double_up-Rounded zero p size h = done_at 0 p size (le→ltb _ _ (omega arith))
double_up-Rounded (suc k) p size h = elim (Bool-cases (ltb p size)) [
  | inr done ↦ done_at (suc k) p size done
  | inl more ↦
      let enough : size ≤ p * 2 * 2 ^ k = omega (arith, ap (λ (t : ℕ). p * t) (pow-suc 2 k)) in
      let r = double_up-Rounded k (p * 2) size enough in
      record {
        value = r.value;
        result = rw more r.result;
        enough = r.enough;
        tight = inr (omega (arith, r.tight, ltb→lt p size more));
        times = suc r.times;
        power = omega (arith, r.power, ap (λ (t : ℕ). p * t) (pow-suc 2 r.times));
      }
]

-- The loop of `kalloc` ends within its rounds for every request of more than 32 bytes and at most
-- 16 MiB. The result is 32 times a power of two, at least the request, and less than twice as much.
pub powval_of-Rounded :
    (size : ℕ)
    → 32 < size
    → size ≤ 16777216
    → (p j : ℕ) × (powval_of size ≡ some p) × (size ≤ p) × (p < 2 * size) × (p ≡ 32 * 2 ^ j)
unfolding powval_of
powval_of-Rounded size lo hi =
    let r = double_up-Rounded 19 32 size (omega arith) in
    (r.value, r.times, r.result, r.enough, omega (arith, r.tight, r.enough), r.power)

-- A power of two below twice another is at most that other.
pub pow-le : (j k : ℕ) → 2 ^ j < 2 ^ k * 2 → 2 ^ j ≤ 2 ^ k
pow-le j k h = elim (dec_le j k) [
  | yes le ↦ pow-le-pow_right {n = 2} (omega arith) le
  | no gt ↦ absurd (
      omega (
        arith,
        pow-suc 2 k,
        pow-le-pow_right {n = 2} (omega arith) {i = suc k} {j = j} (omega arith),
      ))
]
