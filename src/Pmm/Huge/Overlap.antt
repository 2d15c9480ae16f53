-- ===== src/Pmm/Huge/Overlap.antt =====
-- What `kallocHugeMemory` does with a free node that can hold the request but not its header.
use njuoslab_l1_kmalloc_kfre.Base.{ℕ, ◌+◌, ◌-◌, ◌≤◌, ◌<◌, ◌≡◌, ◌∷◌, [], arith, ◌∙◌, ap, sym, ne→==}
use njuoslab_l1_kmalloc_kfre.Machine.{State}
use njuoslab_l1_kmalloc_kfre.Machine.Memory.{write-other}
use njuoslab_l1_kmalloc_kfre.Machine.Returns.{Returns, returns}
use njuoslab_l1_kmalloc_kfre.Pmm.Lock.{lock, unlock}
use njuoslab_l1_kmalloc_kfre.Pmm.FreeList.{Region, region, Links}
use njuoslab_l1_kmalloc_kfre.Pmm.FreeHeap.{FreeHeap}
use njuoslab_l1_kmalloc_kfre.Pmm.Huge.{kalloc_huge_memory, huge_magic}
use njuoslab_l1_kmalloc_kfre.Pmm.Huge.Choice.{best, find_highest-best}
use njuoslab_l1_kmalloc_kfre.Pmm.Huge.Carve.{header_at, carved, carve-carved, carved-header}

-- A free list of one region that is larger than the request by the size of the header: the block is
-- returned, the free list still has a node at the header, and that node says that as many bytes as
-- were requested are free, among them all of the block but its last 16.
pub kalloc_huge_memory_overlap :
    (fuel : ℕ) (s : State) (size : ℕ) (g : Region)
    → FreeHeap (g ∷ []) s
    → g.size ≡ size + 16
    → 1 < fuel
    → Returns
        (λ p s'. (p ≡ g.addr + 16) × Links s'.mem s'.head (region g.addr size ∷ []) 0)
        (kalloc_huge_memory fuel size s)
unfolding kalloc_huge_memory lock unlock best
kalloc_huge_memory_overlap fuel s size g h e f =
    let v = h.separate.0 in
    let (at, n, stop) = h.links in
    let hold : size + 16 ≤ g.size = omega arith in
    let locked : State = record s { heap_lock = 1 } in
    let header : header_at size g ≡ g.addr = omega arith in
    let b : best size 0 (g ∷ []) ≡ g.addr = ground arith in
    let m = (carved s size g).mem in
    let next : m g.addr ≡ s.mem g.addr =
      write-other _ (header_at size g + 12) huge_magic g.addr (omega arith)
      ∙ write-other _ (header_at size g + 8) size g.addr (omega arith)
      ∙ write-other s.mem (g.addr + 8) (g.size - size - 16) g.addr (omega arith) in
    let (field, _) = carved-header size g v hold s n in
    let field' : m (g.addr + 8) ≡ size = ap (λ (b : ℕ). m (b + 8)) (sym header) ∙ field in
    rw
      (
        h.unlocked,
        find_highest-best locked fuel size 0 s.head (g ∷ []) h.links (v, tt) f,
        b,
        ne→== g.addr 0 (omega (arith, v.ne_null)),
        carve-carved size g v hold locked n,
      )
      (returns (omega arith, (at, field', next ∙ stop)))
