-- ===== src/Machine/Memory.antt =====
-- A memory, its single write and the zeroing of a range.
use njuoslab_l1_kmalloc_kfre.Base.{
  ℕ, ◌+◌, ◌≤◌, ◌<◌, ◌≡◌, ◌≢◌, ◌⊎◌, ◌&&◌, arith, ltb, leb, ◌==◌, if◌then◌else◌,
}

abbrev pub Mem : Type 0
Mem = ℕ → ℕ

unfoldable pub write : Mem → ℕ → ℕ → Mem
write m a v b = if b == a then v else m b

-- Zero at the `n` addresses from `p`, as before elsewhere.
unfoldable pub clear : Mem → ℕ → ℕ → Mem
clear m p n b = if leb p b && ltb b (p + n) then 0 else m b

module _ (m : Mem) where
  pub write-same : (a v : ℕ) → write m a v a ≡ v
  unfolding write
  write-same a v = ground arith

  pub write-other : (a v b : ℕ) → b ≢ a → write m a v b ≡ m b
  unfolding write
  write-other a v b h = ground arith

  pub clear-inside : (p n b : ℕ) → p ≤ b → b < p + n → clear m p n b ≡ 0
  unfolding clear
  clear-inside p n b lo hi = ground arith

  pub clear-outside : (p n b : ℕ) → (b < p) ⊎ (p + n ≤ b) → clear m p n b ≡ m b
  unfolding clear
  clear-outside p n b h = ground arith
