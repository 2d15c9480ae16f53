-- ===== src/Pmm/Kalloc.antt =====
-- `kalloc` of kernel/src/pmm.c. `fuel` bounds the walks over linked lists; `cpu` and `ncpu` are what
-- `cpu_current()` and `cpu_count()` of the abstract machine return.
pub mod Dispatch
use njuoslab_l1_kmalloc_kfre.Base.{
  ℕ, zero, suc, ◌+◌, ◌*◌, ◌/◌, ◌%◌, ◌^◌, ◌==◌, ◌&&◌, not, leb, ltb, if◌then◌else◌, Option, none,
  some,
}
use njuoslab_l1_kmalloc_kfre.Base.Words.{add64, sub32, sub64, sext}
use njuoslab_l1_kmalloc_kfre.Machine.{
  Fault, Cmd, fail, pure, check, ◌>>=◌, ◌>>◌, get_page_head, set_page_head, get_next, get_size,
  get_word, set_next, set_size, set_word, zero_range,
}
use njuoslab_l1_kmalloc_kfre.Pmm.Lock.{cpu, lock, unlock}
use njuoslab_l1_kmalloc_kfre.Pmm.PageAlloc.{page_size, allockpage}
use njuoslab_l1_kmalloc_kfre.Pmm.Huge.{kalloc_huge_memory}
use njuoslab_l1_kmalloc_kfre.Pmm.SizeClass.{powval_of}

abbrev pub page_magic : ℕ
page_magic = 1234567

-- The first page of a CPU, with all of it but its first block in one free node.
unfoldable pub first_page : (fuel i size : ℕ) → Cmd (Unit {0})
first_page fuel i size = do
  lock (cpu i)
  page ← allockpage fuel
  set_page_head i page
  check (not (page == 0))
  set_next page 0
  set_size page size
  set_word page 1
  set_word (page + size) page_magic
  set_next (page + size) 0
  set_size (page + size) (sub64 page_size size)
  unlock (cpu i)

-- The first page of the list whose blocks have this size and which is not full.
unfoldable pub find_page : ℕ → (size ph : ℕ) → Cmd ℕ
find_page zero size ph = fail Fault.out_of_fuel
find_page (suc k) size ph = if ph == 0 then pure 0 else do
  n ← get_size ph
  index ← get_word ph
  if (sext n == size) && ltb 0 index then pure ph else do q ← get_next ph; find_page k size q

-- `(void *)ph + ph->pagefreehead_index * size`, with the block size of 64 bits.
abbrev pub block_at : (ph index size : ℕ) → ℕ
block_at ph index size = add64 ph (index * size % 2 ^ 64)

-- The node at the head of the page's free list had this one block: the list goes on behind it.
unfoldable pub next_node : (ph fd size : ℕ) → Cmd (Unit {0})
next_node ph fd size = do
  magic ← get_word fd
  check (magic == page_magic)
  next ← get_next fd
  if next == 0 then set_word ph 0 else do
    set_word ph (sub64 next ph / size)
    index ← get_word ph
    check (block_at ph index size == next)

-- The node loses its first block, and goes on behind it.
unfoldable pub advance_node : (ph fd size : ℕ) → Cmd (Unit {0})
advance_node ph fd size = do
  n ← get_size ph
  check (sext n == size)
  set_word (fd + size) page_magic
  next ← get_next fd
  set_next (fd + size) next
  left ← get_size fd
  set_size (fd + size) left
  index ← get_word ph
  set_word ph (index + 1)
  index' ← get_word ph
  check (block_at ph index' size == (fd + size))
  check (ltb index' (page_size / size))

-- The fast path: the first block of the page's free list.
unfoldable pub take_block : (i size ph : ℕ) → Cmd ℕ
take_block i size ph = do
  n ← get_size ph
  check (sext n == size)
  index ← get_word ph
  let fd = block_at ph index size
  have ← get_size fd
  if leb size (sext have)
      then (do
        set_size fd (sub32 have size)
        left ← get_size fd
        if left == 0 then next_node ph fd size else advance_node ph fd size
        unlock (cpu i)
        zero_range fd size
        pure fd)
      else (do unlock (cpu i); fail Fault.panic)

-- An empty page, which the size 0 marks, is given to this size.
unfoldable pub reuse_page : ℕ → (size ph : ℕ) → Cmd ℕ
reuse_page zero size ph = fail Fault.out_of_fuel
reuse_page (suc k) size ph = if ph == 0 then pure 0 else do
  n ← get_size ph
  index ← get_word ph
  if (n == 0) && ltb 0 index
      then (do set_size ph size; pure ph)
      else do q ← get_next ph; reuse_page k size q

-- `allockpage(&pagehead)`, and the new page becomes the first of the CPU's list.
unfoldable pub insert_page : (fuel i size : ℕ) → Cmd ℕ
insert_page fuel i size = do
  page ← allockpage fuel
  if page == 0 then pure 0 else do
    first ← get_page_head i
    set_next page first
    set_size page size
    set_word page 1
    set_page_head i page
    pure page

-- The slow path behind the choice of a page: its first free block.
unfoldable pub open_page : (i size page : ℕ) → Cmd ℕ
open_page i size page = do
  index ← get_word page
  let ret = block_at page index size
  set_word (ret + size) page_magic
  set_next (ret + size) 0
  set_word page (index + 1)
  index' ← get_word page
  set_size (ret + size) (sub64 page_size (index' * size))
  check (block_at page index' size == (ret + size))
  zero_range ret size
  unlock (cpu i)
  pure ret

unfoldable pub new_block : (fuel i size : ℕ) → Cmd ℕ
new_block fuel i size = do
  first ← get_page_head i
  reused ← reuse_page fuel size first
  page ← (if reused == 0 then insert_page fuel i size else pure reused)
  if page == 0 then (do unlock (cpu i); pure 0) else open_page i size page

unfoldable pub kalloc_small : (fuel i ncpu size : ℕ) → Cmd ℕ
kalloc_small fuel i ncpu size = do
  check (leb i ncpu)
  first ← get_page_head i
  (if first == 0 then first_page fuel i size else pure tt)
  lock (cpu i)
  pages ← get_page_head i
  ph ← find_page fuel size pages
  if ph == 0 then new_block fuel i size else take_block i size ph

abbrev pub rounded : (ℕ → Cmd ℕ) → Option ℕ → Cmd ℕ
rounded k none = fail Fault.out_of_fuel
rounded k (some powval) = k powval

unfoldable pub kalloc : (fuel i ncpu size : ℕ) → Cmd ℕ
kalloc fuel i ncpu size =
    if leb size 32
    then kalloc_small fuel i ncpu 32
    else if ltb 16384 size
    then if ltb 16777216 size then pure 0 else rounded (kalloc_huge_memory fuel) (powval_of size)
    else rounded (kalloc_small fuel i ncpu) (powval_of size)
