-- ===== src/Pmm/PageAlloc.antt =====
-- `allockpage` of kernel/src/pmm.c: the first free node that can hold a page of 64 KiB gives its
-- front. The page's address is returned where the source stores it into `*pagehead`.
pub mod Search
pub mod FirstFit
pub mod Relink
pub mod Take
pub mod Refinement
pub mod Spec
use njuoslab_l1_kmalloc_kfre.Base.{ℕ, zero, suc, ◌+◌, ◌==◌, if◌then◌else◌}
use njuoslab_l1_kmalloc_kfre.Base.Words.{sub32, int_ge}
use njuoslab_l1_kmalloc_kfre.Machine.{
  Fault, Cmd, fail, pure, check, ◌>>=◌, ◌>>◌, get_head, set_head, get_next, get_size, set_next,
  set_size, zero_range,
}
use njuoslab_l1_kmalloc_kfre.Pmm.Lock.{heap, lock, unlock}

-- 64 * 1024
abbrev pub page_size : ℕ
page_size = 65536

-- The traversal: `prenode` and `oldfreenode`, which is NULL when no node can hold a page.
unfoldable pub find_first : ℕ → (prenode h : ℕ) → Cmd (ℕ × ℕ)
find_first zero prenode h = fail Fault.out_of_fuel
find_first (suc k) prenode h = if h == 0 then pure (prenode, 0) else do
  size ← get_size h
  if int_ge size page_size then pure (prenode, h) else do q ← get_next h; find_first k h q

-- `prenode->next = q`, or `head = q` where there is no node before, after its assertion.
unfoldable pub relink : (prenode old q : ℕ) → Cmd (Unit {0})
relink prenode old q =
    if prenode == 0
    then (do first ← get_head; check (first == old); set_head q)
    else (do next ← get_next prenode; check (next == old); set_next prenode q)

-- The node is as large as a page, or is cut behind the page.
unfoldable pub take_page : (prenode old : ℕ) → Cmd (Unit {0})
take_page prenode old = do
  size ← get_size old
  if size == page_size then (do q ← get_next old; relink prenode old q) else do
    check (int_ge size (page_size + 1))
    q ← get_next old
    set_next (old + page_size) q
    set_size (old + page_size) (sub32 size page_size)
    relink prenode old (old + page_size)

unfoldable pub allockpage : ℕ → Cmd ℕ
allockpage fuel = do
  lock heap
  h ← get_head
  (prenode, old) ← find_first fuel 0 h
  if old == 0
      then (do unlock heap; pure 0)
      else do take_page prenode old; zero_range old 16; unlock heap; pure old
