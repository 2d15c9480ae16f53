-- ===== src/Klib/Copy/Laws.antt =====
-- What the loops of `memset`, `memmove` and `memcpy` do with a memory.
use njuoslab_l1_kmalloc_kfre.Base.{
  ℕ, zero, suc, ◌+◌, ◌-◌, ◌<◌, ◌≤◌, ◌≡◌, ◌⊎◌, inl, inr, Bool-cases, leb→le, ◌&&◌, ◌%◌, refl, sym,
  arith, leb, ltb, if◌then◌else◌,
}
use njuoslab_l1_kmalloc_kfre.Machine.{State, ok, pure, zero_range, ◌>>◌}
use njuoslab_l1_kmalloc_kfre.Machine.Memory.{Mem, write, clear}
use njuoslab_l1_kmalloc_kfre.Klib.Bytes.{get_byte-ok, set_byte-ok}
use njuoslab_l1_kmalloc_kfre.Klib.Copy.{fill, memset, copy_up, copy_down, memmove, memcpy}

-- The `n` bytes from `s` at `d`, as before elsewhere.
unfoldable pub copied : Mem → (d s n : ℕ) → Mem
copied m d s n b = if leb d b && ltb b (d + n) then m (s + (b - d)) else m b

pub copied-none : (m : Mem) (d s b : ℕ) → copied m d s 0 b ≡ m b
unfolding copied
copied-none m d s b = ground arith

pub copied-inside : (m : Mem) (d s n i : ℕ) → i < n → copied m d s n (d + i) ≡ m (s + i)
unfolding copied
copied-inside m d s n i h = ground arith

pub copied-outside : (m : Mem) (d s n b : ℕ) → (b < d) ⊎ (d + n ≤ b) → copied m d s n b ≡ m b
unfolding copied
copied-outside m d s n b h = ground arith

pub copied-first :
    (m : Mem) (d s n b : ℕ)
    → (d ≤ s) ⊎ (s + suc n ≤ d)
    → copied (write m d (m s)) (d + 1) (s + 1) n b ≡ copied m d s (suc n) b
unfolding copied write
copied-first m d s n b h = ground arith

pub copied-last :
    (m : Mem) (d s n b : ℕ)
    → s < d
    → copied (write m (d + n) (m (s + n))) d s n b ≡ copied m d s (suc n) b
unfolding copied write
copied-last m d s n b h = ground arith

-- The byte `c` at the `n` addresses from `p`, as before elsewhere.
pub filled : Mem → (p c n : ℕ) → Mem
filled m p c n b = if leb p b && ltb b (p + n) then c else m b

filled-none : (m : Mem) (p c b : ℕ) → filled m p c 0 b ≡ m b
unfolding filled
filled-none m p c b = ground arith

filled-first :
    (m : Mem) (s cnt c n b : ℕ)
    → filled (write m (s + cnt) c) (s + (cnt + 1)) c n b ≡ filled m (s + cnt) c (suc n) b
unfolding filled write
filled-first m s cnt c n b = ground arith

-- The allocator's zeroing is the filling with 0.
filled-clear : (m : Mem) (p n b : ℕ) → filled m p 0 n b ≡ clear m p n b
unfolding filled clear
filled-clear m p n b = refl

abbrev pub with_bytes : State → Mem → State
with_bytes s m = record s { mem = m }

-- Equal results with memories that agree at every address are one outcome.
pub same_run :
    {A : Type 0} {a a' : A} (s : State) {m m' : Mem}
    → a ≡ a'
    → ((b : ℕ) → m b ≡ m' b)
    → ok a (with_bytes s m) ≡ ok a' (with_bytes s m')
same_run s e h = λ i. ok (e i) (with_bytes s (λ b. h b i))

pub copy_up-copied :
    (n d s : ℕ) (st : State)
    → 0 < d
    → 0 < s
    → (d ≤ s) ⊎ (s + n ≤ d)
    → copy_up n d s st ≡ ok (d + n) (with_bytes st (copied st.mem d s n))
unfolding copy_up
copy_up-copied zero d s st hd hs h = same_run st (omega arith) (λ b. sym (copied-none st.mem d s b))
copy_up-copied (suc n) d s st hd hs h =
    rw
      (
        get_byte-ok s st hs,
        set_byte-ok d st hd (st.mem s),
        copy_up-copied n (d + 1) (s + 1) (with_bytes st (write st.mem d (st.mem s))) (omega arith)
            (omega arith) (omega arith),
      )
      (same_run st (omega arith) (λ b. copied-first st.mem d s n b h))

copy_down-copied :
    (n d s : ℕ) (st : State)
    → 0 < s
    → s < d
    → copy_down n (d + n) (s + n) st ≡ ok tt (with_bytes st (copied st.mem d s n))
unfolding copy_down
copy_down-copied zero d s st hs h = same_run st refl (λ b. sym (copied-none st.mem d s b))
copy_down-copied (suc n) d s st hs h =
    let down : (x : ℕ) → x + suc n - 1 ≡ x + n = λ x. omega arith in
    rw
      (
        down s,
        get_byte-ok (s + n) st (omega arith),
        down d,
        set_byte-ok (d + n) st (omega arith) (st.mem (s + n)),
        copy_down-copied n d s (with_bytes st (write st.mem (d + n) (st.mem (s + n)))) hs h,
      )
      (same_run st refl (λ b. copied-last st.mem d s n b h))

fill-filled :
    (n s c cnt : ℕ) (st : State)
    → 0 < s
    → fill n s c cnt st ≡ ok tt (with_bytes st (filled st.mem (s + cnt) (c % 256) n))
unfolding fill
fill-filled zero s c cnt st hs =
    same_run st refl (λ b. sym (filled-none st.mem (s + cnt) (c % 256) b))
fill-filled (suc n) s c cnt st hs =
    rw
      (
        set_byte-ok (s + cnt) st (omega arith) (c % 256),
        fill-filled n s c (cnt + 1) (with_bytes st (write st.mem (s + cnt) (c % 256))) hs,
      )
      (same_run st refl (λ b. filled-first st.mem s cnt (c % 256) n b))

-- `memmove` leaves at `dst` the `n` bytes that stood at `src`, however the two ranges overlap, changes
-- no other byte, and returns `dst`, where neither pointer is NULL.
pub memmove-copied :
    (dst src n : ℕ) (st : State)
    → 0 < dst
    → 0 < src
    → memmove dst src n st ≡ ok dst (with_bytes st (copied st.mem dst src n))
unfolding memmove
memmove-copied dst src n st hd hs = elim (Bool-cases (leb dst src)) [
  | inl le ↦ rw (le, copy_up-copied n dst src st hd hs (inl (leb→le dst src le))) refl
  | inr gt ↦ rw (gt, copy_down-copied n dst src st hs (grind arith)) refl
]

-- `memcpy` copies in the same way where no byte is written before it is read, and returns the end of
-- the copy.
pub memcpy-copied :
    (out from n : ℕ) (st : State)
    → 0 < out
    → 0 < from
    → (out ≤ from) ⊎ (from + n ≤ out)
    → memcpy out from n st ≡ ok (out + n) (with_bytes st (copied st.mem out from n))
unfolding memcpy
memcpy-copied out from n st ho hf h = copy_up-copied n out from st ho hf h

-- `memset(s, 0, n)` is the zeroing that the allocator asks for, and returns `s`, where `s` is not NULL.
pub memset-zero_range :
    (s n : ℕ) (st : State) → 0 < s → memset s 0 n st ≡ (zero_range s n >> pure s) st
unfolding memset zero_range
memset-zero_range s n st hs =
    let start : s + 0 ≡ s = omega arith in
    rw (fill-filled n s 0 0 st hs, start) (same_run st refl (filled-clear st.mem s n))
