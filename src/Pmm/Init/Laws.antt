-- ===== src/Pmm/Init/Laws.antt =====
-- What `pmm_init` leaves for the first call of the allocator.
use njuoslab_l1_kmalloc_kfre.Base.{
  ℕ, zero, suc, ◌+◌, ◌-◌, ◌≤◌, ◌<◌, ◌≡◌, refl, [], ◌∷◌, arith, ◌∙◌, ne→==,
}
use native.Mathlib.Decide.{dec_le}
use njuoslab_l1_kmalloc_kfre.Base.Words.{u32, sub64}
use njuoslab_l1_kmalloc_kfre.Machine.{State}
use njuoslab_l1_kmalloc_kfre.Machine.Memory.{Mem, write, write-same, write-other}
use njuoslab_l1_kmalloc_kfre.Machine.Fields.{set_next-ok, set_size-ok}
use njuoslab_l1_kmalloc_kfre.Machine.Returns
use njuoslab_l1_kmalloc_kfre.Machine.Returns.{Returns, returns}
use njuoslab_l1_kmalloc_kfre.Pmm.Lock.{lockinit}
use njuoslab_l1_kmalloc_kfre.Pmm.FreeList.{region, IsRegion, Links}
use njuoslab_l1_kmalloc_kfre.Pmm.FreeHeap.{FreeHeap}
use njuoslab_l1_kmalloc_kfre.Pmm.Init.{init_cpus, pmm_init}

-- The CPUs from `i` up to `i + left` have no pages and free locks; the heap is as in `s`.
pub record Emptied (s : State) (left i : ℕ) (s' : State) : Type 0 where
  pub mem : s'.mem ≡ s.mem
  pub head : s'.head ≡ s.head
  pub lock : s'.heap_lock ≡ s.heap_lock
  pub no_pages : (j : ℕ) → i ≤ j → j < i + left → s'.page_head j ≡ 0
  pub unlocked : (j : ℕ) → i ≤ j → j < i + left → s'.page_lock j ≡ 0
  pub below : (j : ℕ) → j < i → (s'.page_head j ≡ s.page_head j) × (s'.page_lock j ≡ s.page_lock j)

init_cpus-Emptied : (left i : ℕ) (s : State) → Returns (λ _. Emptied s left i) (init_cpus left i s)
unfolding init_cpus lockinit
init_cpus-Emptied zero i s = returns (record {
  mem = refl;
  head = refl;
  lock = refl;
  no_pages = λ j lo hi. absurd (omega arith);
  unlocked = λ j lo hi. absurd (omega arith);
  below = λ j lt. (refl, refl);
})
init_cpus-Emptied (suc left) i s = Returns.mono (init_cpus-Emptied left (i + 1) _) λ _ s' e.
    record {
      mem = e.mem;
      head = e.head;
      lock = e.lock;
      no_pages = λ j lo hi. elim (dec_le (i + 1) j) [
        | yes more ↦ e.no_pages j more (omega arith)
        | no same ↦ (e.below j (omega arith)).0 ∙ ground arith
      ];
      unlocked = λ j lo hi. elim (dec_le (i + 1) j) [
        | yes more ↦ e.unlocked j more (omega arith)
        | no same ↦ (e.below j (omega arith)).1 ∙ ground arith
      ];
      below = λ j lt. let (h, l) = e.below j (omega arith) in (h ∙ ground arith, l ∙ ground arith);
    }

started-Links :
    (m m' : Mem) (start head size : ℕ)
    → m' ≡ m
    → head ≡ start
    → m (start + 8) ≡ size
    → m start ≡ 0
    → Links m' head (region start size ∷ []) 0
started-Links m m' start head size em eh field next = rw (em, eh) (refl, field, next)

-- What the kernel starts from: one free region, the whole heap, and for each CPU no page and a free
-- lock.
pub record Started (start end ncpu : ℕ) (s' : State) : Type 0 where
  pub heap : FreeHeap (region start (end - start) ∷ []) s'
  pub no_pages : (j : ℕ) → j < ncpu → s'.page_head j ≡ 0
  pub unlocked : (j : ℕ) → j < ncpu → s'.page_lock j ≡ 0

-- On a heap of less than 2 GiB, a multiple of 16 bytes, that does not begin at NULL, `pmm_init`
-- returns with the whole heap as the only free region, no pages, and every lock free.
pub pmm_init-Started :
    (s : State) (start end ncpu : ℕ)
    → start ≤ end
    → IsRegion (region start (end - start))
    → Returns (λ _. Started start end ncpu) (pmm_init start end ncpu s)
unfolding pmm_init lockinit
pmm_init-Started s start end ncpu order v =
    let s1 : State = record s { head = start } in
    let size = end - start in
    let word : u32 (sub64 end start) ≡ size = omega (arith, v.small, v.reach) in
    let s2 : State = record s1 { mem = write s1.mem (start + 8) size } in
    let s3 : State = record s2 { mem = write s2.mem start 0; heap_lock = 0 } in
    let field : s3.mem (start + 8) ≡ size =
      write-other s2.mem start 0 (start + 8) (omega arith) ∙ write-same s1.mem (start + 8) size in
    rw
      (
        ne→== start 0 (omega (arith, v.ne_null)),
        set_size-ok start s1 v.ne_null (sub64 end start),
        word,
        set_next-ok start s2 v.ne_null 0,
      )
      (Returns.bind (init_cpus-Emptied ncpu 0 s3) λ _ s' e. returns (record {
        heap = record {
          links =
              started-Links s3.mem s'.mem start s'.head size e.mem e.head field
                (write-same s2.mem start 0);
          separate = (v, tt, tt);
          unlocked = refl;
        };
        no_pages = λ j lt. e.no_pages j (omega arith) (omega arith);
        unlocked = λ j lt. e.unlocked j (omega arith) (omega arith);
      }))
