-- ===== src/Machine/Fields.antt =====
-- Accesses to the fields of a structure that is not at NULL.
use njuoslab_l1_kmalloc_kfre.Base.{ℕ, ◌+◌, ◌<◌, ◌≡◌, arith, ne→==}
use njuoslab_l1_kmalloc_kfre.Base.Words.{u32}
use njuoslab_l1_kmalloc_kfre.Machine.{
  State, ok, get_next, get_size, get_word, set_next, set_size, set_word,
}
use njuoslab_l1_kmalloc_kfre.Machine.Memory.{write}

module _ (p : ℕ) (s : State) (h : 0 < p) where
  pub get_next-ok : get_next p s ≡ ok (s.mem p) s
  unfolding get_next
  get_next-ok = rw (ne→== p 0 (omega arith))

  pub get_size-ok : get_size p s ≡ ok (s.mem (p + 8)) s
  unfolding get_size
  get_size-ok = rw (ne→== p 0 (omega arith))

  pub get_word-ok : get_word p s ≡ ok (s.mem (p + 12)) s
  unfolding get_word
  get_word-ok = rw (ne→== p 0 (omega arith))

  pub set_next-ok : (v : ℕ) → set_next p v s ≡ ok tt (record s { mem = write s.mem p v })
  unfolding set_next
  set_next-ok v = rw (ne→== p 0 (omega arith))

  pub set_size-ok :
      (v : ℕ) → set_size p v s ≡ ok tt (record s { mem = write s.mem (p + 8) (u32 v) })
  unfolding set_size
  set_size-ok v = rw (ne→== p 0 (omega arith))

  pub set_word-ok :
      (v : ℕ) → set_word p v s ≡ ok tt (record s { mem = write s.mem (p + 12) (u32 v) })
  unfolding set_word
  set_word-ok v = rw (ne→== p 0 (omega arith))
