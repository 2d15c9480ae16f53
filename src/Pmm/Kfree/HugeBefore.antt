-- ===== src/Pmm/Kfree/HugeBefore.antt =====
-- `kfree` of a large block whose header stands at the end of a free region.
use njuoslab_l1_kmalloc_kfre.Base.{
  ℕ, ◌+◌, ◌-◌, ◌^◌, ◌<◌, ◌≡◌, ◌≢◌, refl, List, ◌∷◌, ◌++◌, arith, All, length, sym, ap, ◌∙◌, ne→==,
  eq→==, ◌==◌, true,
}
use njuoslab_l1_kmalloc_kfre.Base.Words.{u32, sext-small, add64, sub64}
use njuoslab_l1_kmalloc_kfre.Machine.{State, ok, zero_range}
use njuoslab_l1_kmalloc_kfre.Machine.Memory.{write, write-same, write-other, clear}
use njuoslab_l1_kmalloc_kfre.Machine.Fields.{get_size-ok, get_word-ok, set_size-ok}
use njuoslab_l1_kmalloc_kfre.Machine.Returns.{Returns, returns}
use njuoslab_l1_kmalloc_kfre.Pmm.Lock.{lock, unlock}
use njuoslab_l1_kmalloc_kfre.Pmm.FreeList.{
  Region, region, IsRegion, Apart, Outside, Separate, Links, Links-same, Links-split, Links-append,
  Separate-IsRegion, Apart-SameNodes,
}
use njuoslab_l1_kmalloc_kfre.Pmm.FreeList.Splice.{All-split, Parts, Separate-Parts, Parts-Separate}
use njuoslab_l1_kmalloc_kfre.Pmm.FreeHeap.{FreeHeap, SamePages}
use njuoslab_l1_kmalloc_kfre.Pmm.Huge.Refinement.{block_of}
use njuoslab_l1_kmalloc_kfre.Pmm.Kfree.{free_huge, heap_merge_before}
use njuoslab_l1_kmalloc_kfre.Pmm.Kfree.Merged.{apart-merge}
use njuoslab_l1_kmalloc_kfre.Pmm.Kfree.Neighbours.{after_of, before_of, neighbours-of}
use njuoslab_l1_kmalloc_kfre.Pmm.Kfree.HugeInUse.{
  HugeInUse, zeroed, zeroed-Outside, zeroed-Links, before_of-end, after_of-ne,
}

-- The free region with the header and the block behind it.
abbrev pub grown : (size : ℕ) → Region → Region
grown size b = region b.addr (b.size + (size + 16))

-- What `kfree` leaves: the free list with the grown region in its place.
pub record HugeReturned (s : State) (size : ℕ) (xs : List Region) (b : Region) (ys : List Region)
    (s' : State) : Type 0 where
  pub heap : FreeHeap (xs ++ (grown size b ∷ ys)) s'
  pub kept : (a : ℕ) → Outside a (grown size b) → s'.mem a ≡ s.mem a
  pub pages : SamePages s s'

module _ (s : State) (size p : ℕ) (xs : List Region) (b : Region) (ys : List Region)
    (h : FreeHeap (xs ++ (b ∷ ys)) s) (u : HugeInUse s.mem (xs ++ (b ∷ ys)) size p)
    (ends : b.addr + b.size ≡ p - 16) (small : b.size + size + 16 < 2 ^ 31) where
  parts : Parts xs b ys
  parts = Separate-Parts xs b ys h.separate

  grown-IsRegion : IsRegion (grown size b)
  grown-IsRegion = omega (arith, parts.here, u.block)

  grown-Parts : Parts xs (grown size b) ys
  grown-Parts =
      let (ax, _, ay) = All-split (Apart (block_of size p)) xs b ys u.apart in
      record {
        front = parts.front;
        here = grown-IsRegion;
        back = parts.back;
        before =
            apart-merge b.addr b.size (block_of size p) xs (sym ends)
              (Separate-IsRegion xs parts.front) parts.before ax;
        behind =
            apart-merge b.addr b.size (block_of size p) ys (sym ends)
              (Separate-IsRegion ys parts.back) parts.behind ay;
        across = parts.across;
      }

  abbrev merged : State
  merged = record s {
    mem = write (clear s.mem (p - 16) (size + 16)) (b.addr + 8) (b.size + (size + 16));
    heap_lock = 1;
  }

  merged-kept : (a : ℕ) → Outside a (grown size b) → merged.mem a ≡ s.mem a
  merged-kept a o =
      let v = parts.here in
      write-other (zeroed s size p).mem (b.addr + 8) (b.size + (size + 16)) a
        (omega (arith, v.room))
      ∙ zeroed-Outside s size p a (omega arith)

  merged-node :
      (merged.mem b.addr ≡ s.mem b.addr) × (merged.mem (b.addr + 8) ≡ b.size + (size + 16))
  merged-node =
      let v = parts.here in
      (
        write-other (zeroed s size p).mem (b.addr + 8) (b.size + (size + 16)) b.addr (omega arith)
            ∙ zeroed-Outside s size p b.addr (omega (arith, v.room)),
        write-same (zeroed s size p).mem (b.addr + 8) (b.size + (size + 16)),
      )

  merged-Links : Links merged.mem s.head (xs ++ (grown size b ∷ ys)) 0
  merged-Links =
      let m = merged.mem in
      let q = grown-Parts in
      let (next, field) = merged-node in
      let (to, (_, _, from)) = Links-split s.mem s.head 0 xs b ys h.links in
      let same : (zs : List Region)
          → Separate zs
          → All (Apart (grown size b)) zs
          → (c d : ℕ) → Links s.mem c zs d
          → Links m c zs d =
        λ zs sep apart c d. Links-same s.mem m c d zs (
          Apart-SameNodes s.mem m (grown size b) zs merged-kept (Separate-IsRegion zs sep) apart) in
      let back : Links m (m b.addr) ys 0 =
        rw next (same ys q.back q.behind (s.mem b.addr) 0 from) in
      Links-append m s.head b.addr 0 xs (grown size b ∷ ys)
        (same xs q.front q.before s.head b.addr to) (refl, field, back)

  module _ (fuel : ℕ) (enough : length (xs ++ (b ∷ ys)) < fuel)
      (alone : All (λ g. g.addr ≢ p + size) (xs ++ (b ∷ ys))) where
    after : ℕ
    after = after_of (p - 16) 0 (xs ++ (b ∷ ys))

    zeroed_size : (zeroed s size p).mem (b.addr + 8) ≡ b.size
    zeroed_size =
        let v = parts.here in
        let (_, (_, e, _)) = Links-split s.mem s.head 0 xs b ys h.links in
        zeroed-Outside s size p (b.addr + 8) (omega (arith, v.room)) ∙ e

    heap_merge_before-merged :
        heap_merge_before fuel p size b.addr after (zeroed s size p) ≡ ok tt merged
    unfolding heap_merge_before after
    heap_merge_before-merged =
        let v = parts.here in
        let z = zeroed s size p in
        let low : size < 2147483648 = omega (arith, u.block.small) in
        let total : add64 size 16 ≡ size + 16 = omega arith in
        let sum : u32 (add64 b.size (size + 16)) ≡ b.size + (size + 16) = omega arith in
        let end : add64 p size ≡ p + size = omega (arith, u.block.reach) in
        let far =
          ne→== (p + size) after
            (λ e. after_of-ne (p - 16) (p + size) (xs ++ (b ∷ ys)) (omega arith) alone (sym e)) in
        rw (
          get_size-ok b.addr z v.ne_null,
          zeroed_size,
          sext-small b.size v.small,
          sext-small size low,
          total,
          set_size-ok b.addr z v.ne_null (add64 b.size (size + 16)),
          sum,
          end,
          far,
        )

    free_huge-merged : free_huge fuel p s ≡ ok tt (record merged { heap_lock = 0 })
    unfolding free_huge zero_range lock unlock after
    free_huge-merged =
        let gs = xs ++ (b ∷ ys) in
        let v = parts.here in
        let z = zeroed s size p in
        let locked : State = record s { heap_lock = 1 } in
        let header : sub64 p 16 ≡ p - 16 = omega (arith, u.block) in
        let pos : 0 < p - 16 = u.block.ne_null in
        let low : size < 2147483648 = omega (arith, u.block.small) in
        let total : add64 size 16 ≡ size + 16 = omega arith in
        let near =
          neighbours-of z fuel (p - 16) 0 0 s.head gs (zeroed-Links s gs size p h u)
            (Separate-IsRegion gs h.separate) enough in
        let before : before_of (p - 16) 0 gs ≡ b.addr =
          ap (λ (t : ℕ). before_of t 0 gs) (sym ends) ∙ before_of-end xs b ys h.separate in
        let touch : (add64 b.addr b.size == (p - 16)) ≡ true =
          eq→== (add64 b.addr b.size) (p - 16) (omega (arith, v.reach)) in
        rw (
          h.unlocked,
          header,
          get_word-ok (p - 16) locked pos,
          u.magic_field,
          get_size-ok (p - 16) locked pos,
          u.size_field,
          sext-small size low,
          total,
          near,
          before,
          ne→== b.addr 0 (omega (arith, v.ne_null)),
          get_size-ok b.addr z v.ne_null,
          zeroed_size,
          sext-small b.size v.small,
          touch,
          heap_merge_before-merged,
        )

    pub free_huge-HugeReturned : Returns (λ _. HugeReturned s size xs b ys) (free_huge fuel p s)
    free_huge-HugeReturned = rw free_huge-merged (
        returns (record {
          heap = record {
            links = merged-Links;
            separate = Parts-Separate xs (grown size b) ys grown-Parts;
            unlocked = refl;
          };
          kept = merged-kept;
          pages = record { heads = refl; locks = refl };
        }))
