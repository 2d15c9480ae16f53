-- ===== src/Pmm/LockExamples.antt =====
-- The theorems about the lock at two CPUs, one with the lock and one in its loop.
use njuoslab_l1_kmalloc_kfre.Base.{ℕ, ◌≡◌, refl}
use njuoslab_l1_kmalloc_kfre.Pmm.Lock.Spin.{
  System, Move, Reach, outside, spinning, entered, inside, halted, call, win, assert_holds, turn,
  start, later, moved, holds, lock_excludes, lock_available,
}
use njuoslab_l1_kmalloc_kfre.Base.{true, ◌≢◌, ◌⊎◌}

-- CPU 0 has taken the lock, and CPU 1 is in its loop.
abbrev contended : System
contended = record {
  word = 1;
  place = moved (moved (moved (moved (λ _. outside) 0 spinning) 0 entered) 0 inside) 1 spinning;
}

contended-Reach : Reach contended
contended-Reach =
    later
      (later (later (later start (turn 0 call)) (turn 0 (win refl))) (turn 0 (assert_holds refl)))
      (turn 1 call)

lock_excludes_example :
    ((i j : ℕ) → holds (contended.place i) ≡ true → holds (contended.place j) ≡ true → i ≡ j)
    × ((i : ℕ) → holds (contended.place i) ≡ true → contended.word ≡ 1)
    × ((i : ℕ) → contended.place i ≢ halted)
lock_excludes_example = lock_excludes contended-Reach

lock_available_example :
    ((k : ℕ) × (holds (contended.place k) ≡ true)) ⊎ Move contended.word spinning 1 entered
lock_available_example = lock_available contended-Reach 1 refl
