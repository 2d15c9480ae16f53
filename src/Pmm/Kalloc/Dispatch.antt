-- ===== src/Pmm/Kalloc/Dispatch.antt =====
-- The three ways through `kalloc`.
use njuoslab_l1_kmalloc_kfre.Base.{
  ℕ, ◌*◌, ◌^◌, ◌≤◌, ◌<◌, ◌≡◌, ◌⊎◌, inl, inr, refl, arith, leb, lt→ltb, le→ltb, le→leb,
}
use native.Mathlib.Decide.{dec_le}
use mathlib.Core.Bool.{false}
use njuoslab_l1_kmalloc_kfre.Machine.{State, ok}
use njuoslab_l1_kmalloc_kfre.Pmm.SizeClass.Bounds.{powval_of-Rounded, pow-le}
use njuoslab_l1_kmalloc_kfre.Pmm.Huge.{kalloc_huge_memory}
use njuoslab_l1_kmalloc_kfre.Pmm.Kalloc.{kalloc, kalloc_small}

-- `p` is the least size of 32 * 2 ^ j bytes that holds the request.
pub record ClassOf (size p : ℕ) : Type 0 where
  pub enough : size ≤ p
  pub tight : (p ≡ 32) ⊎ (p < 2 * size)
  pub times : ℕ
  pub power : p ≡ 32 * 2 ^ times

leb-false : (a b : ℕ) → b < a → leb a b ≡ false
leb-false a b h = ground arith

-- `kalloc` serves a request from the pages of blocks of its class, if that is at most 16 KiB; from
-- the heap, with the class for its size, if it is at most 16 MiB; and else it returns NULL and
-- changes nothing.
pub kalloc-cases :
    (fuel i ncpu size : ℕ) (s : State)
    → ((size ≤ 16384)
        × ((p : ℕ) × ClassOf size p
            × (p ≤ 16384)
            × (kalloc fuel i ncpu size s ≡ kalloc_small fuel i ncpu p s)))
      ⊎ (((16384 < size)
            × (size ≤ 16777216)
            × ((p : ℕ) × ClassOf size p
                × (p ≤ 16777216)
                × (kalloc fuel i ncpu size s ≡ kalloc_huge_memory fuel p s)))
          ⊎ ((16777216 < size) × (kalloc fuel i ncpu size s ≡ ok 0 s)))
unfolding kalloc
kalloc-cases fuel i ncpu size s = elim (dec_le size 32) [
  | yes tiny ↦ inl (
    omega arith,
    (
      32,
      record { enough = tiny; tight = inl refl; times = 0; power = omega arith },
      omega arith,
      rw (le→leb _ _ tiny),
    ),
  )
  | no big ↦ elim (dec_le size 16384) [
    | yes small ↦
        let (p, j, e, enough, tight, power) = powval_of-Rounded size (omega arith) (omega arith) in
        inl (
          small,
          (
            p,
            record { enough = enough; tight = inr tight; times = j; power = power },
            omega (arith, pow-le j 9),
            rw (leb-false size 32 (omega arith), le→ltb 16384 size small, e),
          ),
        )
    | no large ↦ elim (dec_le size 16777216) [
      | yes fits ↦
          let (p, j, e, enough, tight, power) = powval_of-Rounded size (omega arith) fits in
          inr (
            inl (
              omega arith,
              fits,
              (
                p,
                record { enough = enough; tight = inr tight; times = j; power = power },
                omega (arith, pow-le j 19),
                rw (
                  leb-false size 32 (omega arith),
                  lt→ltb 16384 size (omega arith),
                  le→ltb 16777216 size fits,
                  e,
                ),
              ),
            ))
      | no over ↦ inr (
          inr (
            omega arith,
            rw (
              leb-false size 32 (omega arith),
              lt→ltb 16384 size (omega arith),
              lt→ltb 16777216 size (omega arith),
            ),
          ))
    ]
  ]
]
