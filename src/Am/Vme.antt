-- ===== src/Am/Vme.antt =====
-- Page tables (abstract-machine/am/src/x86/qemu/vme.c), with 64-bit words at each address. What `pgalloc`
-- returns is a list, in order, and NULL behind its end; `&as->ptr` is the address of a word.
pub mod Translate
pub mod Linked
pub mod Walked
pub mod Walk
pub mod Route
pub mod Map
pub mod Protect
use njuoslab_l1_kmalloc_kfre.Base.{
  ℕ, zero, suc, ◌+◌, ◌-◌, ◌*◌, ◌/◌, ◌%◌, ◌^◌, ◌==◌, ◌&&◌, ltb, leb, if◌then◌else◌, Bool, true,
  false, not, Option, none, some, List, [], ◌∷◌,
}
use njuoslab_l1_kmalloc_kfre.Am.Gate.{usel}
use njuoslab_l1_kmalloc_kfre.Am.Cte.{Context, zero_context, fl_if}

abbrev pub Words : Type 0
Words = ℕ → ℕ

pub record Vm : Type 0 where
  pub words : Words
  pub pool : List ℕ
  pub freed : List ℕ

abbrev pub set_entry : Words → ℕ → ℕ → Words
set_entry words a v x = if x == a then v else words x

abbrev pub pgsize : ℕ
pgsize = 4096

abbrev pub ptlevels : ℕ
ptlevels = 4

-- The mask of a level has `bits` ones above `shift`.
pub record PtInfo : Type 0 where
  pub shift : ℕ
  pub bits : ℕ

abbrev pub pgtables : ℕ → PtInfo
pgtables level =
    if level == 0
    then record { shift = 0; bits = 0 }
    else if level == 1
    then record { shift = 39; bits = 9 }
    else if level == 2
    then record { shift = 30; bits = 9 }
    else if level == 3
    then record { shift = 21; bits = 9 }
    else record { shift = 12; bits = 9 }

abbrev pub indexof : ℕ → PtInfo → ℕ
indexof addr info = addr / 2 ^ info.shift % 2 ^ info.bits

abbrev pub baseof : ℕ → ℕ
baseof addr = addr - addr % pgsize

-- `PTE_P`, `PTE_W` and `PTE_U` are the bits 0, 1 and 2.
abbrev pub present : ℕ → Bool
present entry = entry % 2 == 1

abbrev pub user : ℕ → Bool
user entry = entry / 4 % 2 == 1

abbrev pub or_bit : ℕ → ℕ → ℕ
or_bit b v = if v / 2 ^ b % 2 == 1 then v else v + 2 ^ b

pub or_bits : List ℕ → ℕ → ℕ
or_bits [] v = v
or_bits (b ∷ rest) v = or_bits rest (or_bit b v)

-- `pt[index]`
abbrev pub entry_at : (pt index : ℕ) → ℕ
entry_at pt index = pt + 8 * index

pub zero_words : (rounds i base : ℕ) → Words → Words
zero_words zero i base words = words
zero_words (suc k) i base words = zero_words k (i + 1) base (set_entry words (entry_at base i) 0)

pub pgallocz_from : List ℕ → Vm → Option (ℕ × Vm)
pgallocz_from [] s = none
pgallocz_from (base ∷ rest) s =
    if base == 0
    then none
    else some (base, record s { words = zero_words 512 0 base s.words; pool = rest })

-- `pgallocz`, or `none` for its panic.
abbrev pub pgallocz : Vm → Option (ℕ × Vm)
pgallocz s = pgallocz_from s.pool s

-- The loop of `ptwalk` from a level on, with the number of the levels below it.
pub walk : (below level cur addr : ℕ) → List ℕ → Vm → Option (ℕ × Vm)
walk zero level cur addr flags s = some (entry_at cur (indexof addr (pgtables level)), s)
walk (suc k) level cur addr flags s =
    let a = entry_at cur (indexof addr (pgtables level)) in
    elim (present (s.words a)) [
      | false ↦ elim (pgallocz s) [
        | none ↦ none
        | some got ↦
            walk k (level + 1) got.0 addr flags
              (record got.1 { words = set_entry got.1.words a (or_bits (0 ∷ flags) got.0) })
      ]
      | true ↦ walk k (level + 1) (baseof (s.words a)) addr flags s
    ]

abbrev pub ptwalk : (space addr : ℕ) → List ℕ → Vm → Option (ℕ × Vm)
ptwalk space addr flags s = walk ptlevels 0 space addr flags s

-- The loop of `teardown`, given what it does with a table below.
unfoldable pub visit_entries : (ℕ → Vm → Vm) → (rounds index pt : ℕ) → Vm → Vm
visit_entries visit zero index pt s = s
visit_entries visit (suc n) index pt s =
    let entry = s.words (entry_at pt index) in
    let s' = if present entry && user entry then visit (baseof entry) s else s in
    visit_entries visit n (index + 1) pt s'

-- `teardown`, with the number of levels from this one to the last.
unfoldable pub teardown : (levels level pt : ℕ) → Vm → Vm
teardown zero level pt s = s
teardown (suc k) level pt s =
    let s' = visit_entries (teardown k (level + 1)) (2 ^ (pgtables level).bits) 0 pt s in
    if leb 1 level then record s' { freed = pt ∷ s'.freed } else s'

abbrev pub unprotect : (space : ℕ) → Vm → Vm
unprotect space s = teardown (ptlevels + 1) 0 space s

pub record VmArea : Type 0 where
  pub start : ℕ
  pub end : ℕ
  pub kernel : Bool

abbrev pub uvm_area : VmArea
uvm_area = record { start = 0x100000000000; end = 0x108000000000; kernel = false }

abbrev pub vm_areas : List VmArea
vm_areas = uvm_area ∷ record { start = 0; end = 0x008000000000; kernel = true } ∷ []

-- The loop over `cur`, which shares the entries of an area.
pub share_entries : (rounds cur kpt upt : ℕ) → Words → Words
share_entries zero cur kpt upt words = words
share_entries (suc n) cur kpt upt words =
    let index = indexof cur (pgtables 1) in
    share_entries n (cur + 2 ^ (pgtables 1).shift) kpt upt
      (set_entry words (entry_at upt index) (words (entry_at kpt index)))

pub share_areas : List VmArea → (kpt upt : ℕ) → Words → Words
share_areas [] kpt upt words = words
share_areas (vma ∷ rest) kpt upt words = share_areas rest kpt upt (
    if vma.kernel
    then share_entries ((vma.end - vma.start) / 2 ^ (pgtables 1).shift) vma.start kpt upt words
    else words)

-- `protect`, with the address of `as->ptr`; `as->area` is always `uvm_area`.
pub protect : (kpt space : ℕ) → Vm → Option Vm
protect kpt space s = elim (pgallocz s) [
  | none ↦ none
  | some got ↦
      let words = share_areas vm_areas kpt got.0 got.1.words in
      some (record got.1 { words = set_entry words space (or_bits (0 ∷ 2 ∷ []) got.0) })
]

-- The entry that `map` stores, or `none` for a panic; `MMAP_NONE` is 0, and `MMAP_WRITE` the bit 1.
abbrev pub new_entry : (old pa prot : ℕ) → Option ℕ
new_entry old pa prot =
    if prot == 0
    then (if present old then some 0 else none)
    else if present old
    then none
    else some (or_bits (if prot / 2 % 2 == 1 then 0 ∷ 2 ∷ 1 ∷ [] else 0 ∷ 2 ∷ []) pa)

-- `map`, or `none` for a panic.
pub map : (space va pa prot : ℕ) → Vm → Option Vm
map space va pa prot s =
    elim ((leb uvm_area.start va && ltb va uvm_area.end) && (va == baseof va && pa == baseof pa)) [
      | false ↦ none
      | true ↦ elim (ptwalk space va (1 ∷ 2 ∷ []) s) [
        | none ↦ none
        | some got ↦ elim (new_entry (got.1.words got.0) pa prot) [
          | none ↦ none
          | some pte ↦
              elim (ptwalk space va (1 ∷ 2 ∷ [])
                (record got.1 { words = set_entry got.1.words got.0 pte })) [
                  | none ↦ none
                  | some again ↦ some again.1
                ]
        ]
      ]
    ]

abbrev pub pml4_addr : ℕ
pml4_addr = 0x1000

-- `vme_init` in the 64-bit build: `kpt`, which is also the new `cr3`, and the new `cr0`, or the panic.
abbrev pub vme_init : (cpu cr0 : ℕ) → Option (ℕ × ℕ)
vme_init cpu cr0 = if cpu == 0 then some (pml4_addr, or_bit 31 cr0) else none

-- `ucontext`; `root` is `as->ptr`.
unfoldable pub ucontext : (root stack_end entry : ℕ) → Context
ucontext root stack_end entry = record zero_context {
  cs = usel 3;
  ss = usel 4;
  rip = entry;
  rflags = fl_if;
  rsp = uvm_area.end;
  rsp0 = stack_end;
  cr3 = root;
}
