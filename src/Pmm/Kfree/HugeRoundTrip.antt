-- ===== src/Pmm/Kfree/HugeRoundTrip.antt =====
-- `kfree` undoes `kallocHugeMemory`.
use mathlib.Core.Path.{subst}
use njuoslab_l1_kmalloc_kfre.Base.{
  ℕ, ◌+◌, ◌-◌, ◌%◌, ◌<◌, ◌≡◌, ◌≢◌, inl, inr, List, ◌∷◌, ◌++◌, arith, All, length, length-++, sym,
  ap, ◌∙◌, ne→==, eq→==, ◌==◌, if◌then◌else◌,
}
use njuoslab_l1_kmalloc_kfre.Machine.{State, Cmd, ok, and_then}
use njuoslab_l1_kmalloc_kfre.Machine.Returns
use njuoslab_l1_kmalloc_kfre.Machine.Returns.{Returns, returns}
use njuoslab_l1_kmalloc_kfre.Pmm.FreeList.{
  Region, region, IsRegion, Outside, Separate, Links-same, Separate-IsRegion, Apart-SameNodes,
}
use njuoslab_l1_kmalloc_kfre.Pmm.FreeList.Splice.{All-split, All-join, Parts, Separate-Parts}
use njuoslab_l1_kmalloc_kfre.Pmm.FreeHeap.{FreeHeap, SamePages, Unchanged}
use njuoslab_l1_kmalloc_kfre.Pmm.Huge.{kalloc_huge_memory}
use njuoslab_l1_kmalloc_kfre.Pmm.Huge.Carve.{front_of}
use njuoslab_l1_kmalloc_kfre.Pmm.Huge.Refinement.{
  block_of, HugeTaken, HasRoom, kalloc_huge_memory_lem,
}
use njuoslab_l1_kmalloc_kfre.Pmm.Kfree.{free_huge}
use njuoslab_l1_kmalloc_kfre.Pmm.Kfree.HugeInUse.{HugeInUse}
use njuoslab_l1_kmalloc_kfre.Pmm.Kfree.HugeBefore.{grown, HugeReturned, free_huge-HugeReturned}

-- What a program does with its block `p` of `size` bytes: it writes there, and nowhere else.
pub record WritesBlock (size p : ℕ) (s s' : State) : Type 0 where
  pub mem : (a : ℕ) → Outside a (region p size) → s'.mem a ≡ s.mem a
  pub head : s'.head ≡ s.head
  pub heap_lock : s'.heap_lock ≡ s.heap_lock
  pub pages : SamePages s s'

-- No free region begins where another ends.
abbrev pub Coalesced : List Region → Type 0
Coalesced gs = All (λ g. All (λ k. k.addr ≢ g.addr + g.size) gs) gs

-- The free list is `gs` again, and nothing outside it has changed.
pub record Undone (s : State) (gs : List Region) (s' : State) : Type 0 where
  pub heap : FreeHeap gs s'
  pub kept : (a : ℕ) → All (Outside a) gs → s'.mem a ≡ s.mem a
  pub pages : SamePages s s'

-- `p = kalloc(size); use p; if (p) kfree(p);` for a large size.
abbrev pub use_huge : (fuel size : ℕ) → (ℕ → State → State) → Cmd (Unit {0})
use_huge fuel size client s =
    and_then (kalloc_huge_memory fuel size s)
      λ p t. if p == 0 then ok tt t else free_huge fuel p (client p t)

module _ (s : State) (size p : ℕ) (gs : List Region) (t t' : State)
    (taken : HugeTaken s size gs p t) (wrote : WritesBlock size p t t') (sep : Separate gs)
    (merged : Coalesced gs) (unit : size % 16 ≡ 0) where
  abbrev left : List Region
  left = taken.xs ++ (front_of size taken.at ∷ taken.ys)

  parts : Parts taken.xs taken.at taken.ys
  parts = Separate-Parts taken.xs taken.at taken.ys (subst Separate taken.split sep)

  front-IsRegion : IsRegion (front_of size taken.at)
  front-IsRegion =
      (Separate-Parts taken.xs (front_of size taken.at) taken.ys taken.heap.separate).here

  block-IsRegion : IsRegion (block_of size p)
  block-IsRegion = omega (arith, parts.here, front-IsRegion, taken.address)

  wrote-heap : FreeHeap left t'
  wrote-heap =
      let c = taken.heap in
      record {
        links = rw wrote.head (
            Links-same t.mem t'.mem t.head 0 left
              (Apart-SameNodes t.mem t'.mem (block_of size p) left
                (λ b o. wrote.mem b (omega (arith, block-IsRegion.room)))
                (Separate-IsRegion left c.separate) taken.apart)
              c.links);
        separate = c.separate;
        unlocked = wrote.heap_lock ∙ c.unlocked;
      }

  wrote-HugeInUse : HugeInUse t'.mem left size p
  wrote-HugeInUse =
      let v = block-IsRegion in
      record {
        block = v;
        apart = taken.apart;
        size_field = wrote.mem (p - 16 + 8) (omega (arith, v.ne_null)) ∙ taken.size_field;
        magic_field = wrote.mem (p - 16 + 12) (omega (arith, v.ne_null)) ∙ taken.magic_field;
      }

  alone : All (λ g. g.addr ≢ p + size) left
  alone =
      let whole : All (λ k. k.addr ≢ taken.at.addr + taken.at.size)
          (taken.xs ++ (taken.at ∷ taken.ys)) =
        (All-split (λ g. All (λ k. k.addr ≢ g.addr + g.size) (taken.xs ++ (taken.at ∷ taken.ys)))
          taken.xs taken.at taken.ys (subst Coalesced taken.split merged)).1 in
      let ends = taken.address in
      let (a, b, c) =
        All-split (λ k. k.addr ≢ p + size) taken.xs taken.at taken.ys (rw ends whole) in
      All-join (λ k. k.addr ≢ p + size) taken.xs (front_of size taken.at ∷ taken.ys) a (b, c)

  grown-at : grown size (front_of size taken.at) ≡ taken.at
  grown-at = ap (λ (n : ℕ). region taken.at.addr n) (omega (arith, front-IsRegion.room))

  returned-Undone :
      (s' : State)
      → HugeReturned t' size taken.xs (front_of size taken.at) taken.ys s'
      → Undone s gs s'
  returned-Undone s' r = record {
    heap =
        subst (λ l. FreeHeap l s') (sym taken.split)
          (subst (λ g. FreeHeap (taken.xs ++ (g ∷ taken.ys)) s') grown-at r.heap);
    kept = λ a o.
        let (_, out, _) =
          All-split (Outside a) taken.xs taken.at taken.ys
            (subst (All (Outside a)) taken.split o) in
        r.kept a (omega (arith, front-IsRegion.room))
        ∙ wrote.mem a (omega (arith, front-IsRegion.room, taken.address))
        ∙ taken.kept a out;
    pages = record {
      heads = r.pages.heads ∙ wrote.pages.heads ∙ taken.pages.heads;
      locks = r.pages.locks ∙ wrote.pages.locks ∙ taken.pages.locks;
    };
  }

  freed-Undone : (fuel : ℕ) → length gs < fuel → Returns (λ _. Undone s gs) (free_huge fuel p t')
  freed-Undone fuel enough =
      let front = front_of size taken.at in
      let long : length left ≡ length gs =
        length-++ taken.xs (front ∷ taken.ys)
        ∙ sym (ap length taken.split ∙ length-++ taken.xs (taken.at ∷ taken.ys)) in
      Returns.mono
        (free_huge-HugeReturned t' size p taken.xs front taken.ys wrote-heap wrote-HugeInUse
          (omega (arith, front-IsRegion.room, taken.address))
          (omega (arith, front-IsRegion.room, parts.here.small)) fuel (omega (arith, long)) alone)
        λ _ s' r. returned-Undone s' r

same-Undone :
    (s : State) (gs : List Region) (t : State) → FreeHeap gs s → Unchanged s t → Undone s gs t
same-Undone s gs t h same = record {
  heap = record {
    links = rw (same.mem, same.head) h.links;
    separate = h.separate;
    unlocked = same.unlocked;
  };
  kept = λ a o. ap (λ (m : ℕ → ℕ). m a) same.mem;
  pages = same.pages;
}

-- With a well-formed free list in which no region begins where another ends, the lock free, a request
-- that is a multiple of 16, every region either too small or with 32 bytes to spare, and fuel for one
-- more round than the list has nodes: `kallocHugeMemory`, a program that writes in its block and
-- nowhere else, and `kfree` of the block (where there is one) return, the free list is the same as
-- before, and the memory outside it, the page lists and their locks are as before.
pub use_huge-Undone :
    (fuel : ℕ) (s : State) (size : ℕ) (gs : List Region) (client : ℕ → State → State)
    → FreeHeap gs s
    → size % 16 ≡ 0
    → All (HasRoom size) gs
    → Coalesced gs
    → ((p : ℕ) (t : State) → WritesBlock size p t (client p t))
    → length gs < fuel
    → Returns (λ _. Undone s gs) (use_huge fuel size client s)
use_huge-Undone fuel s size gs client h unit room merged writes enough =
    Returns.bind (kalloc_huge_memory_lem fuel s size gs h unit room enough) λ p t outcome.
      elim outcome [
        | inl (none_left, _, same) ↦ rw (eq→== p 0 none_left) (returns (same-Undone s gs t h same))
        | inr taken ↦
            let v =
              block-IsRegion s size p gs t (client p t) taken (writes p t) h.separate merged unit in
            rw (ne→== p 0 (omega (arith, v.ne_null))) (
              freed-Undone s size p gs t (client p t) taken (writes p t) h.separate merged unit fuel
                enough)
      ]
