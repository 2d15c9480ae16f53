-- ===== src/Klib/Bytes.antt =====
-- Access to bytes through a pointer, as in abstract-machine/klib/src/string.c.
use njuoslab_l1_kmalloc_kfre.Base.{ℕ, ◌<◌, ◌≡◌, arith, ne→==}
use njuoslab_l1_kmalloc_kfre.Machine.{State, ok, Cmd, deref, load, store, ◌>>◌}
use njuoslab_l1_kmalloc_kfre.Machine.Memory.{write}

unfoldable pub get_byte : ℕ → Cmd ℕ
get_byte p = deref p >> load p

pub set_byte : ℕ → ℕ → Cmd (Unit {0})
set_byte p v = deref p >> store p v

module _ (p : ℕ) (s : State) (h : 0 < p) where
  pub get_byte-ok : get_byte p s ≡ ok (s.mem p) s
  unfolding get_byte
  get_byte-ok = rw (ne→== p 0 (omega arith))

  pub set_byte-ok : (v : ℕ) → set_byte p v s ≡ ok tt (record s { mem = write s.mem p v })
  unfolding set_byte
  set_byte-ok v = rw (ne→== p 0 (omega arith))
