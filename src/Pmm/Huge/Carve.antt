-- ===== src/Pmm/Huge/Carve.antt =====
-- `kallocHugeMemory` once its node is chosen: the block at the node's end and the header below it.
use njuoslab_l1_kmalloc_kfre.Base.{ℕ, ◌+◌, ◌-◌, ◌≤◌, ◌<◌, ◌≡◌, arith, ◌∙◌}
use njuoslab_l1_kmalloc_kfre.Base.Words.{sext-small, u32, sub32, add64, sub64}
use njuoslab_l1_kmalloc_kfre.Machine.{State, ok}
use njuoslab_l1_kmalloc_kfre.Machine.Memory.{write, write-other, write-same}
use njuoslab_l1_kmalloc_kfre.Machine.Fields.{get_size-ok, set_size-ok, set_word-ok}
use njuoslab_l1_kmalloc_kfre.Pmm.FreeList.{Region, region, IsRegion, Outside}
use njuoslab_l1_kmalloc_kfre.Pmm.Huge.{carve, huge_magic}

-- The address of the header, and what is left of the region.
abbrev pub header_at : ℕ → Region → ℕ
header_at size g = g.addr + g.size - size - 16

abbrev pub front_of : ℕ → Region → Region
front_of size g = region g.addr (g.size - size - 16)

abbrev pub carved : State → ℕ → Region → State
carved s size g = record s {
  mem =
      write (write (write s.mem (g.addr + 8) (g.size - size - 16)) (header_at size g + 8) size)
        (header_at size g + 12) huge_magic;
}

module _ (size : ℕ) (g : Region) (v : IsRegion g) (holds : size + 16 ≤ g.size) where
  ret_word : sub64 (add64 g.addr g.size) size ≡ g.addr + g.size - size
  ret_word = omega arith

  header_word : sub64 (g.addr + g.size - size) 16 ≡ header_at size g
  header_word = omega arith

  size_word : u32 (sub32 (header_at size g) g.addr) ≡ g.size - size - 16
  size_word = omega arith

  request_word : u32 size ≡ size
  request_word = omega arith

  module _ (s : State) (e : s.mem (g.addr + 8) ≡ g.size) where
    pub carve-carved : carve size g.addr s ≡ ok (g.addr + g.size - size) (carved s size g)
    unfolding carve
    carve-carved =
        let header = header_at size g in
        let pos : 0 < header = omega (arith, v.ne_null) in
        let s1 : State = record s { mem = write s.mem (g.addr + 8) (g.size - size - 16) } in
        let s2 : State = record s { mem = write s1.mem (header + 8) size } in
        rw (
          get_size-ok g.addr s v.ne_null,
          e,
          sext-small g.size v.small,
          ret_word,
          header_word,
          set_size-ok g.addr s v.ne_null (sub32 header g.addr),
          size_word,
          set_size-ok header s1 pos size,
          request_word,
          set_word-ok header s2 pos huge_magic,
        )

    pub carved-Outside : (b : ℕ) → Outside b g → (carved s size g).mem b ≡ s.mem b
    carved-Outside b o =
        write-other _ (header_at size g + 12) huge_magic b (omega arith)
        ∙ write-other _ (header_at size g + 8) size b (omega arith)
        ∙ write-other s.mem (g.addr + 8) (g.size - size - 16) b (omega arith)

    pub carved-header :
        ((carved s size g).mem (header_at size g + 8) ≡ size)
        × ((carved s size g).mem (header_at size g + 12) ≡ huge_magic)
    carved-header = (
      write-other _ (header_at size g + 12) huge_magic (header_at size g + 8) (omega arith)
          ∙ write-same _ (header_at size g + 8) size,
      write-same _ (header_at size g + 12) huge_magic,
    )

    module _ (room : size + 32 ≤ g.size) where
      pub carved-node :
          ((carved s size g).mem g.addr ≡ s.mem g.addr)
          × ((carved s size g).mem (g.addr + 8) ≡ g.size - size - 16)
      carved-node = (
        write-other _ (header_at size g + 12) huge_magic g.addr (omega arith)
            ∙ write-other _ (header_at size g + 8) size g.addr (omega arith)
            ∙ write-other s.mem (g.addr + 8) (g.size - size - 16) g.addr (omega arith),
        write-other _ (header_at size g + 12) huge_magic (g.addr + 8) (omega arith)
            ∙ write-other _ (header_at size g + 8) size (g.addr + 8) (omega arith)
            ∙ write-same s.mem (g.addr + 8) (g.size - size - 16),
      )
