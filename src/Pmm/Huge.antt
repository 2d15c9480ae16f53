-- ===== src/Pmm/Huge.antt =====
-- `kallocHugeMemory` of kernel/src/pmm.c: the free node at the highest address that is large enough
-- gives its end, and a `header_t` stands below the block.
pub mod Choice
pub mod Carve
pub mod Refinement
pub mod Overlap
use njuoslab_l1_kmalloc_kfre.Base.{ℕ, zero, suc, ◌==◌, leb, ltb, if◌then◌else◌}
use njuoslab_l1_kmalloc_kfre.Base.Words.{sub32, sext, add64, sub64}
use njuoslab_l1_kmalloc_kfre.Machine.{
  Fault, Cmd, fail, pure, ◌>>=◌, ◌>>◌, get_head, get_next, get_size, set_size, set_word,
}
use njuoslab_l1_kmalloc_kfre.Pmm.Lock.{heap, lock, unlock}

abbrev pub huge_magic : ℕ
huge_magic = 7654321

-- The better of the node so far (NULL for none) and the node `h`, which can hold the request.
abbrev pub higher : (highnode h : ℕ) → ℕ
higher highnode h = if highnode == 0 then h else if ltb highnode h then h else highnode

unfoldable pub find_highest : ℕ → (size highnode h : ℕ) → Cmd ℕ
find_highest zero size highnode h = fail Fault.out_of_fuel
find_highest (suc k) size highnode h = if h == 0 then pure highnode else do
  n ← get_size h
  q ← get_next h
  find_highest k size (if leb size (sext n) then higher highnode h else highnode) q

-- The block at the end of `highnode`, and its header.
unfoldable pub carve : (size highnode : ℕ) → Cmd ℕ
carve size highnode = do
  n ← get_size highnode
  let ret = sub64 (add64 highnode (sext n)) size
  let header = sub64 ret 16
  set_size highnode (sub32 header highnode)
  set_size header size
  set_word header huge_magic
  pure ret

unfoldable pub kalloc_huge_memory : ℕ → (size : ℕ) → Cmd ℕ
kalloc_huge_memory fuel size = do
  lock heap
  h ← get_head
  highnode ← find_highest fuel size 0 h
  if highnode == 0
      then (do unlock heap; pure 0)
      else do ret ← carve size highnode; unlock heap; pure ret
