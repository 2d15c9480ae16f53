-- ===== src/Pmm/Lock/Spin.antt =====
-- The spin lock of kernel/src/pmm.c under any interleaving of any number of CPUs: `atomic_xchg` is
-- one step, and so is each access to the lock's word.
use njuoslab_l1_kmalloc_kfre.Base.{
  ℕ, ◌≡◌, ◌≢◌, ◌⊎◌, inl, inr, refl, arith, Bool, true, false, ◌==◌, if◌then◌else◌,
}
use njuoslab_l1_kmalloc_kfre.Pmm.Lock.{nope, free_value}

-- Where a CPU stands.
pub data Place : Type 0 where
  outside : Place  -- before the call of `lock`
  spinning : Place  -- in its loop
  entered : Place  -- behind the loop, before the assertion
  inside : Place  -- between `lock` and `unlock`
  halted : Place  -- the assertion has failed

-- One step of one CPU, which reads the word `w` and leaves `w'`.
pub data Move (w : ℕ) : Place → ℕ → Place → Type 0 where
  call : Move w outside w spinning
  busy : w ≢ free_value → Move w spinning nope spinning
  win : w ≡ free_value → Move w spinning nope entered
  assert_holds : w ≡ nope → Move w entered w inside
  assert_fails : w ≢ nope → Move w entered w halted
  release : Move w inside free_value outside

-- The CPU has taken the lock and not released it.
abbrev pub holds : Place → Bool
holds outside = false
holds spinning = false
holds _ = true

pub record System : Type 0 where
  pub word : ℕ
  pub place : ℕ → Place

abbrev pub moved : (ℕ → Place) → ℕ → Place → ℕ → Place
moved f i p j = if j == i then p else f j

pub data Step (s : System) : System → Type 0 where
  turn :
      (i : ℕ) {w : ℕ} {p : Place}
      → Move s.word (s.place i) w p
      → Step s (record { word = w; place = moved s.place i p })

-- From `lockinit` on, with no CPU in `lock` yet.
pub data Reach : System → Type 0 where
  start : Reach (record { word = free_value; place = λ _. outside })
  later : {s t : System} → Reach s → Step s t → Reach t

pub record Inv (s : System) : Type 0 where
  pub taken : (i : ℕ) → holds (s.place i) ≡ true → s.word ≡ nope
  pub only : (i j : ℕ) → holds (s.place i) ≡ true → holds (s.place j) ≡ true → i ≡ j
  pub running : (i : ℕ) → s.place i ≢ halted
  pub held : (s.word ≡ free_value) ⊎ ((k : ℕ) × (holds (s.place k) ≡ true))

Inv-start : Inv (record { word = free_value; place = λ _. outside })
Inv-start = record { taken = λ i h. cc; only = λ i j h k. cc; running = λ i e. cc; held = inl refl }

-- The mover's place is a variable here, so that the move can be matched.
module _ (s : System) (inv : Inv s) (i : ℕ) where
  Move-taken :
      {p p' : Place} {w : ℕ}
      → s.place i ≡ p
      → Move s.word p w p'
      → (j : ℕ) → holds (moved s.place i p' j) ≡ true
      → w ≡ nope
  Move-taken e call j h = ground (arith, inv.taken j)
  Move-taken e (busy g) j h = ground (arith, inv.taken j)
  Move-taken e (win g) j h = refl
  Move-taken e (assert_holds g) j h = g
  Move-taken e (assert_fails g) j h = ground (arith, inv.taken i)
  Move-taken e release j h = ground (arith, inv.only i j)

  Move-only :
      {p p' : Place} {w : ℕ}
      → s.place i ≡ p
      → Move s.word p w p'
      → (j k : ℕ) → holds (moved s.place i p' j) ≡ true
      → holds (moved s.place i p' k) ≡ true
      → j ≡ k
  Move-only e call j k h h' = ground (arith, inv.only j k)
  Move-only e (busy g) j k h h' = ground (arith, inv.only j k)
  Move-only e (win g) j k h h' = ground (arith, inv.taken j, inv.taken k)
  Move-only e (assert_holds g) j k h h' = ground (arith, inv.only j k)
  Move-only e (assert_fails g) j k h h' = ground (arith, inv.only j k)
  Move-only e release j k h h' = ground (arith, inv.only j k)

  Move-running :
      {p p' : Place} {w : ℕ}
      → s.place i ≡ p
      → Move s.word p w p'
      → (j : ℕ) → moved s.place i p' j ≢ halted
  Move-running e call j h = ground (arith, inv.running j)
  Move-running e (busy g) j h = ground (arith, inv.running j)
  Move-running e (win g) j h = ground (arith, inv.running j)
  Move-running e (assert_holds g) j h = ground (arith, inv.running j)
  Move-running e (assert_fails g) j h = ground (arith, inv.taken i)
  Move-running e release j h = ground (arith, inv.running j)

  Move-held :
      {p p' : Place} {w : ℕ}
      → s.place i ≡ p
      → Move s.word p w p'
      → (w ≡ free_value) ⊎ ((k : ℕ) × (holds (moved s.place i p' k) ≡ true))
  Move-held e call = elim inv.held [ inl f ↦ inl f | inr (k, h) ↦ inr (k, ground arith) ]
  Move-held e (busy g) = elim inv.held [ inl f ↦ absurd (g f) | inr (k, h) ↦ inr (k, ground arith) ]
  Move-held e (win g) = inr (i, ground arith)
  Move-held e (assert_holds g) = inr (i, ground arith)
  Move-held e (assert_fails g) = inr (i, ground arith)
  Move-held e release = inl refl

Step-Inv : {s t : System} → Step s t → Inv s → Inv t
Step-Inv {s} (turn i m) inv = record {
  taken = Move-taken s inv i refl m;
  only = Move-only s inv i refl m;
  running = Move-running s inv i refl m;
  held = Move-held s inv i refl m;
}

pub Reach-Inv : {s : System} → Reach s → Inv s
Reach-Inv start = Inv-start
Reach-Inv (later r st) = Step-Inv st (Reach-Inv r)

-- In every state that any number of CPUs reach from a free lock in any order of steps, at most one
-- CPU has taken the lock, the lock's word is NOPE while one has, and no CPU has failed the assertion
-- at the end of `lock`.
pub lock_excludes :
    {s : System}
    → Reach s
    → ((i j : ℕ) → holds (s.place i) ≡ true → holds (s.place j) ≡ true → i ≡ j)
      × ((i : ℕ) → holds (s.place i) ≡ true → s.word ≡ nope)
      × ((i : ℕ) → s.place i ≢ halted)
lock_excludes r = let inv = Reach-Inv r in (inv.only, inv.taken, inv.running)

-- In every reachable state, if a CPU is in the loop of `lock`, then some CPU has taken the lock, or
-- the next `atomic_xchg` of that CPU takes it: the lock is never left taken with no owner.
pub lock_available :
    {s : System}
    → Reach s
    → (i : ℕ) → s.place i ≡ spinning
    → ((k : ℕ) × (holds (s.place k) ≡ true)) ⊎ Move s.word spinning nope entered
lock_available r i e = elim (Reach-Inv r).held [ inl free ↦ inr (win free) | inr owner ↦ inl owner ]
