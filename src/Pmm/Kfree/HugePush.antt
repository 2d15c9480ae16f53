-- ===== src/Pmm/Kfree/HugePush.antt =====
-- `kfree` of a large block that touches no free region.
use njuoslab_l1_kmalloc_kfre.Base.{
  ℕ, ◌+◌, ◌-◌, ◌≤◌, ◌<◌, ◌≡◌, ◌≢◌, inl, inr, refl, List, ◌∷◌, arith, All, length, sym, ap, ◌∙◌,
  ne→==, eq→==,
}
use njuoslab_l1_kmalloc_kfre.Base.Words.{u32, sext, sext-small, add64, sub64}
use njuoslab_l1_kmalloc_kfre.Machine.{State, ok, zero_range}
use njuoslab_l1_kmalloc_kfre.Machine.Memory.{write, write-same, write-other, clear}
use njuoslab_l1_kmalloc_kfre.Machine.Fields.{get_size-ok, get_word-ok, set_size-ok, set_next-ok}
use njuoslab_l1_kmalloc_kfre.Machine.Returns.{Returns, returns}
use njuoslab_l1_kmalloc_kfre.Pmm.Lock.{lock, unlock}
use njuoslab_l1_kmalloc_kfre.Pmm.FreeList.{
  Region, region, Apart, Outside, Separate, Links, Links-same, Separate-IsRegion, Apart-SameNodes,
}
use njuoslab_l1_kmalloc_kfre.Pmm.FreeList.Splice.{All-map}
use njuoslab_l1_kmalloc_kfre.Pmm.FreeHeap.{FreeHeap, SamePages}
use njuoslab_l1_kmalloc_kfre.Pmm.Huge.Refinement.{block_of}
use njuoslab_l1_kmalloc_kfre.Pmm.Kfree.{free_huge, heap_push}
use njuoslab_l1_kmalloc_kfre.Pmm.Kfree.Neighbours.{
  after_of, before_of, before_of-from, neighbours-of,
}
use njuoslab_l1_kmalloc_kfre.Pmm.Kfree.Cleared.{EndsElsewhere, ClearBefore, runs-ClearBefore}
use njuoslab_l1_kmalloc_kfre.Pmm.Kfree.HugeInUse.{
  HugeInUse, zeroed, zeroed-Outside, zeroed-Links, after_of-ne,
}

-- The region that `kfree` makes of a block: from the header on, without the header's 16 bytes.
abbrev pub short_of : (size p : ℕ) → Region
short_of size p = region (p - 16) size

pub record HugePushed (s : State) (size : ℕ) (gs : List Region) (p : ℕ) (s' : State) : Type 0 where
  pub heap : FreeHeap (short_of size p ∷ gs) s'
  pub lost : (a : ℕ) → p - 16 + size ≤ a → a < p + size → All (Outside a) (short_of size p ∷ gs)
  pub kept : (a : ℕ) → Outside a (block_of size p) → s'.mem a ≡ s.mem a
  pub pages : SamePages s s'

Apart-Outside :
    (g : Region) (a : ℕ) (gs : List Region)
    → g.addr ≤ a
    → a < g.addr + g.size
    → All (Apart g) gs
    → All (Outside a) gs
Apart-Outside g a gs lo hi apart = All-map (Apart g) (Outside a) gs (λ k o. omega arith) apart

module _ (s : State) (size p : ℕ) (gs : List Region) (h : FreeHeap gs s)
    (u : HugeInUse s.mem gs size p) (room : 16 ≤ size) where
  abbrev pushed : State
  pushed = record s {
    mem = write (write (clear s.mem (p - 16) (size + 16)) (p - 16 + 8) size) (p - 16) s.head;
    head = p - 16;
    heap_lock = 1;
  }

  pushed-kept : (a : ℕ) → Outside a (block_of size p) → pushed.mem a ≡ s.mem a
  pushed-kept a o =
      write-other (write (zeroed s size p).mem (p - 16 + 8) size) (p - 16) s.head a (omega arith)
      ∙ write-other (zeroed s size p).mem (p - 16 + 8) size a (omega (arith, room))
      ∙ zeroed-Outside s size p a o

  pushed-node : (pushed.mem (p - 16) ≡ s.head) × (pushed.mem (p - 16 + 8) ≡ size)
  pushed-node = (
    write-same (write (zeroed s size p).mem (p - 16 + 8) size) (p - 16) s.head,
    write-other (write (zeroed s size p).mem (p - 16 + 8) size) (p - 16) s.head (p - 16 + 8)
          (omega arith)
        ∙ write-same (zeroed s size p).mem (p - 16 + 8) size,
  )

  pushed-Links : Links pushed.mem (p - 16) (short_of size p ∷ gs) 0
  pushed-Links =
      let (next, field) = pushed-node in
      let rest =
        Links-same s.mem pushed.mem s.head 0 gs
          (Apart-SameNodes s.mem pushed.mem (block_of size p) gs pushed-kept
            (Separate-IsRegion gs h.separate) u.apart)
          h.links in
      (refl, field, rw next rest)

  pushed-Separate : Separate (short_of size p ∷ gs)
  pushed-Separate = (
    omega (arith, u.block, room),
    All-map (Apart (block_of size p)) (Apart (short_of size p)) gs (λ k o. omega arith) u.apart,
    h.separate,
  )

  heap_push-pushed : heap_push (p - 16) size (zeroed s size p) ≡ ok tt pushed
  unfolding heap_push
  heap_push-pushed =
      let z = zeroed s size p in
      let pos : 0 < p - 16 = u.block.ne_null in
      let word : u32 size ≡ size = omega (arith, u.block.small) in
      let z1 : State = record z { mem = write z.mem (p - 16 + 8) size } in
      rw (set_size-ok (p - 16) z pos size, word, set_next-ok (p - 16) z1 pos s.head)

  module _ (fuel : ℕ) (enough : length gs < fuel) (far : All (EndsElsewhere (p - 16)) gs)
      (alone : All (λ g. g.addr ≢ p + size) gs) where
    before : ℕ
    before = before_of (p - 16) 0 gs

    before-ClearBefore : ClearBefore (zeroed s size p).mem (p - 16) before
    unfolding before
    before-ClearBefore =
        before_of-from (ClearBefore (zeroed s size p).mem (p - 16)) (p - 16) 0 gs (inl refl) (
          runs-ClearBefore (zeroed s size p).mem (p - 16) s.head gs (zeroed-Links s gs size p h u)
            (Separate-IsRegion gs h.separate) far)

    free_huge-pushed : free_huge fuel p s ≡ ok tt (record pushed { heap_lock = 0 })
    unfolding free_huge zero_range lock unlock before
    free_huge-pushed =
        let z = zeroed s size p in
        let locked : State = record s { heap_lock = 1 } in
        let header : sub64 p 16 ≡ p - 16 = omega (arith, u.block) in
        let pos : 0 < p - 16 = u.block.ne_null in
        let low : size < 2147483648 = omega (arith, u.block.small) in
        let total : add64 size 16 ≡ size + 16 = omega arith in
        let near =
          neighbours-of z fuel (p - 16) 0 0 s.head gs (zeroed-Links s gs size p h u)
            (Separate-IsRegion gs h.separate) enough in
        let end : add64 p size ≡ p + size = omega (arith, u.block.reach) in
        let clear_after =
          ne→== (p + size) (after_of (p - 16) 0 gs)
            (λ e. after_of-ne (p - 16) (p + size) gs (omega arith) alone (sym e)) in
        elim before-ClearBefore [
          | inl none_before ↦ rw (
            h.unlocked,
            header,
            get_word-ok (p - 16) locked pos,
            u.magic_field,
            get_size-ok (p - 16) locked pos,
            u.size_field,
            sext-small size low,
            total,
            near,
            eq→== before 0 none_before,
            end,
            clear_after,
            heap_push-pushed,
          )
          | inr (some_before, lt, fits, ne) ↦
              let sum : add64 before (sext (z.mem (before + 8))) ≢ p - 16 = λ q. ne (
                omega (
                  arith,
                  sym q,
                  ap (λ (t : ℕ). add64 before t) (sext-small (z.mem (before + 8)) lt),
                )) in
              rw (
                h.unlocked,
                header,
                get_word-ok (p - 16) locked pos,
                u.magic_field,
                get_size-ok (p - 16) locked pos,
                u.size_field,
                sext-small size low,
                total,
                near,
                ne→== before 0 (omega arith),
                get_size-ok before z some_before,
                ne→== _ (p - 16) sum,
                end,
                clear_after,
                heap_push-pushed,
              )
        ]

-- With a well-formed free list, the lock free, a large block in use that is apart from all free regions,
-- and fuel for one more round than the list has nodes: if no free region ends at the block's header or
-- begins at its end, `kfree` returns and puts the region of `size` bytes from the header on at the head
-- of the list. The last 16 bytes of the block are in no free region: they are lost.
pub free_huge-HugePushed :
    (fuel : ℕ) (s : State) (size p : ℕ) (gs : List Region)
    → FreeHeap gs s
    → HugeInUse s.mem gs size p
    → 16 ≤ size
    → All (EndsElsewhere (p - 16)) gs
    → All (λ g. g.addr ≢ p + size) gs
    → length gs < fuel
    → Returns (λ _. HugePushed s size gs p) (free_huge fuel p s)
free_huge-HugePushed fuel s size p gs h u room far alone enough =
    rw (free_huge-pushed s size p gs h u room fuel enough far alone) (
      returns (record {
        heap = record {
          links = pushed-Links s size p gs h u room;
          separate = pushed-Separate s size p gs h u room;
          unlocked = refl;
        };
        lost = λ a lo hi. (
          inr lo,
          Apart-Outside (block_of size p) a gs (omega arith) (omega (arith, u.block)) u.apart,
        );
        kept = pushed-kept s size p gs h u room;
        pages = record { heads = refl; locks = refl };
      }))
