-- ===== src/Pmm/Kfree.antt =====
-- `kfree` of kernel/src/pmm.c: the page that holds the block is looked for in the lists of all CPUs;
-- a block that lies in no page is one of `kalloc_huge_memory`.
pub mod Neighbours
pub mod Push
pub mod Isolated
pub mod Full
pub mod Merged
pub mod Cleared
pub mod Coalesce
pub mod RoundTrip
pub mod MergeAfter
pub mod Behind
pub mod Replaced
pub mod Before
pub mod Widened
pub mod Unlinked
pub mod HeadLost
pub mod Between
pub mod Joined
pub mod Lost
pub mod HugeInUse
pub mod HugeBefore
pub mod HugePush
pub mod HugeRoundTrip
use njuoslab_l1_kmalloc_kfre.Base.{ℕ, zero, suc, ◌+◌, ◌*◌, ◌/◌, ◌==◌, ◌&&◌, not, ltb, if◌then◌else◌}
use njuoslab_l1_kmalloc_kfre.Base.Words.{u32, sub32, add64, sub64, sext}
use njuoslab_l1_kmalloc_kfre.Machine.{
  Fault, Cmd, fail, pure, check, ◌>>=◌, ◌>>◌, get_head, set_head, get_page_head, get_next, get_size,
  get_word, set_next, set_size, set_word, zero_range,
}
use njuoslab_l1_kmalloc_kfre.Pmm.Lock.{heap, cpu, lock, unlock}
use njuoslab_l1_kmalloc_kfre.Pmm.PageAlloc.{page_size}
use njuoslab_l1_kmalloc_kfre.Pmm.Huge.{huge_magic}
use njuoslab_l1_kmalloc_kfre.Pmm.Kalloc.{page_magic}

-- The page of one CPU's list that holds `ptr`, or NULL.
unfoldable pub find_owner : ℕ → (ptr ph : ℕ) → Cmd ℕ
find_owner zero ptr ph = fail Fault.out_of_fuel
find_owner (suc k) ptr ph = if ph == 0 then pure 0 else do
  if ltb ph ptr && ltb ptr (add64 ph page_size)
      then pure ph
      else do q ← get_next ph; find_owner k ptr q

-- The search over the CPUs from `i` on, `left` of them.
unfoldable pub find_owners : (fuel left i ptr : ℕ) → Cmd ℕ
find_owners fuel zero i ptr = pure 0
find_owners fuel (suc left) i ptr = do
  first ← get_page_head i
  ph ← find_owner fuel ptr first
  if ph == 0 then find_owners fuel left (i + 1) ptr else pure ph

-- One round of the search for the neighbours of `at`, for `after` and for `before`.
abbrev pub nearer_after : (at after h : ℕ) → ℕ
nearer_after at after h =
    if ltb at h then (if after == 0 then h else if ltb h after then h else after) else after

abbrev pub nearer_before : (at before h : ℕ) → ℕ
nearer_before at before h =
    if ltb h at then (if before == 0 then h else if ltb before h then h else before) else before

-- The nearest nodes after and before `at` in the list from `h`, NULL where there is none.
unfoldable pub neighbours : ℕ → (at after before h : ℕ) → Cmd (ℕ × ℕ)
neighbours zero at after before h = fail Fault.out_of_fuel
neighbours (suc k) at after before h =
    if h == 0
    then pure (after, before)
    else do q ← get_next h; neighbours k at (nearer_after at after h) (nearer_before at before h) q

-- The node whose `next` is `target`, or NULL.
unfoldable pub find_pred : ℕ → (target h : ℕ) → Cmd ℕ
find_pred zero target h = fail Fault.out_of_fuel
find_pred (suc k) target h =
    if h == 0
    then pure 0
    else do q ← get_next h; if q == target then pure h else find_pred k target q

-- (void *)ph + ph->pagefreehead_index * ph->size
unfoldable pub first_free : (ph : ℕ) → Cmd ℕ
first_free ph = do index ← get_word ph; size ← get_size ph; pure (add64 ph (u32 (index * size)))

-- ph->pagefreehead_index = (node - ph) / ph->size
unfoldable pub set_first_free : (ph node : ℕ) → Cmd (Unit {0})
set_first_free ph node = do size ← get_size ph; set_word ph (sub64 node ph / sext size)

-- A page whose blocks are all free again is marked by the size 0.
unfoldable pub mark_empty : (ph node : ℕ) → Cmd (Unit {0})
mark_empty ph node = do
  have ← get_size node
  size ← get_size ph
  if have == sub32 page_size size then set_size ph 0 else pure tt

-- `after` goes into `before`, which has just been given the block.
unfoldable pub join_after : (fuel ph before after : ℕ) → Cmd (Unit {0})
join_after fuel ph before after = do
  have ← get_size before
  more ← get_size after
  set_size before (have + more)
  h ← first_free ph
  pred ← find_pred fuel after h
  if pred == 0 then set_first_free ph before else (do q ← get_next after; set_next pred q)

-- The block is given to the free node that ends where it begins.
unfoldable pub merge_before : (fuel ph ptr before after : ℕ) → Cmd (Unit {0})
merge_before fuel ph ptr before after = do
  have ← get_size before
  size ← get_size ph
  set_size before (have + size)
  size' ← get_size ph
  if add64 ptr (sext size') == after then join_after fuel ph before after else pure tt
  mark_empty ph before

-- The block becomes a free node at the head of the list, with `after` in it.
unfoldable pub merge_after : (fuel ph ptr after : ℕ) → Cmd (Unit {0})
merge_after fuel ph ptr after = do
  set_word ptr page_magic
  size ← get_size ph
  more ← get_size after
  set_size ptr (size + more)
  first ← first_free ph
  set_next ptr first
  set_first_free ph ptr
  index ← get_word ph
  check (ltb 0 index)
  h ← first_free ph
  pred ← find_pred fuel after h
  q ← get_next after
  set_next pred q
  mark_empty ph ptr

-- The block becomes a free node of its own at the head of the list.
unfoldable pub push_block : (ph ptr : ℕ) → Cmd (Unit {0})
push_block ph ptr = do
  set_word ptr page_magic
  size ← get_size ph
  set_size ptr size
  first ← first_free ph
  set_next ptr first
  set_first_free ph ptr
  index ← get_word ph
  check (ltb 0 index)

unfoldable pub free_block : (fuel ph ptr : ℕ) → Cmd (Unit {0})
free_block fuel ph ptr = do
  size ← get_size ph
  zero_range ptr (sext size)
  h ← first_free ph
  (after, before) ← neighbours fuel ptr 0 0 h
  have ← (if before == 0 then pure 0 else get_size before)
  size' ← get_size ph
  if not (before == 0) && (add64 before (sext have) == ptr)
      then merge_before fuel ph ptr before after
      else if add64 ptr (sext size') == after
      then merge_after fuel ph ptr after
      else push_block ph ptr

-- `after` goes into `before`, and out of the list.
unfoldable pub heap_join_after : (fuel before after : ℕ) → Cmd (Unit {0})
heap_join_after fuel before after = do
  have ← get_size before
  more ← get_size after
  set_size before (have + more)
  first ← get_head
  pred ← find_pred fuel after first
  if pred == 0
      then (do h ← get_head; q ← get_next h; set_head q)
      else (do q ← get_next after; set_next pred q)

-- The header and the block are given to the free node that ends where the header begins.
unfoldable pub heap_merge_before : (fuel ptr size before after : ℕ) → Cmd (Unit {0})
heap_merge_before fuel ptr size before after = do
  have ← get_size before
  set_size before (add64 (sext have) (add64 (sext size) 16))
  if add64 ptr (sext size) == after then heap_join_after fuel before after else pure tt

-- The header becomes a free node at the head of the list, with `after` in it.
unfoldable pub heap_merge_after : (fuel header size after : ℕ) → Cmd (Unit {0})
heap_merge_after fuel header size after = do
  more ← get_size after
  set_size header (size + more)
  first ← get_head
  set_next header first
  set_head header
  pred ← find_pred fuel after header
  q ← get_next after
  set_next pred q

unfoldable pub heap_push : (header size : ℕ) → Cmd (Unit {0})
heap_push header size = do
  set_size header size
  first ← get_head
  set_next header first
  set_head header

unfoldable pub free_huge : (fuel ptr : ℕ) → Cmd (Unit {0})
free_huge fuel ptr = do
  lock heap
  let header = sub64 ptr 16
  first ← get_head
  magic ← get_word header
  check (magic == huge_magic)
  size ← get_size header
  zero_range header (add64 (sext size) 16)
  (after, before) ← neighbours fuel header 0 0 first
  have ← (if before == 0 then pure 0 else get_size before)
  if not (before == 0) && (add64 before (sext have) == header)
      then heap_merge_before fuel ptr size before after
      else if add64 ptr (sext size) == after
      then heap_merge_after fuel header size after
      else heap_push header size
  unlock heap

unfoldable pub kfree : (fuel i ncpu ptr : ℕ) → Cmd (Unit {0})
kfree fuel i ncpu ptr = do
  check (not (ptr == 0))
  lock (cpu i)
  ph ← find_owners fuel ncpu 0 ptr
  if ph == 0
      then (do unlock (cpu i); free_huge fuel ptr)
      else (do free_block fuel ph ptr; unlock (cpu i))
