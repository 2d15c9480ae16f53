-- ===== src/Am/Vme/Protect.antt =====
-- `protect` of abstract-machine/am/src/x86/qemu/vme.c makes an empty address space.
use njuoslab_l1_kmalloc_kfre.Base.{
  ℕ, suc, ◌+◌, ◌%◌, ◌<◌, ◌≤◌, ◌≡◌, ◌≢◌, refl, sym, ap, ◌∙◌, arith, ◌==◌, none, some, List,
  Bool-cases, inl, inr, length, ==→eq, eq→==, ==→ne,
}
use njuoslab_l1_kmalloc_kfre.Am.Vme.{
  Words, Vm, set_entry, baseof, present, entry_at, zero_words, pgallocz_from, share_entries,
  share_areas, vm_areas, uvm_area, protect,
}
use njuoslab_l1_kmalloc_kfre.Am.Vme.Translate.{
  index_of, translate, Height, WellFormed, Fresh, set_height, Fresh-set_height, index_of-lt,
  baseof-entry_at, zero_words-outside, zero_words-inside,
}
use njuoslab_l1_kmalloc_kfre.Am.Vme.Linked.{set_height-kept, absent}
use njuoslab_l1_kmalloc_kfre.Am.Vme.Walked.{taken, pgallocz_from-first, translate-absent}
use njuoslab_l1_kmalloc_kfre.Am.Vme.Map.{IsSpace, lookup, readable}

share_areas-vm_areas :
    (kpt upt : ℕ) (words : Words)
    → share_areas vm_areas kpt upt words ≡ set_entry words (entry_at upt 0) (words (entry_at kpt 0))
unfolding share_areas share_entries
share_areas-vm_areas kpt upt words = refl

-- A new top table `p` with the kernel's entry `v`, and `as->ptr`.
abbrev protected : Words → (p v space : ℕ) → Words
protected words p v space =
    set_entry (set_entry (zero_words 512 0 p words) (entry_at p 0) v) space (p + 5)

module _ (ht : Height) (words : Words) (p v space : ℕ) (page : p % 4096 ≡ 0) (free : ht p ≡ 9)
    (apart : ht (baseof space) ≡ 8) where
  p_apart : baseof space ≢ p
  p_apart e = absurd (omega (arith, sym apart ∙ ap ht e ∙ free))

  protected-outside : (x : ℕ) → baseof x ≢ p → x ≢ space → protected words p v space x ≡ words x
  protected-outside x other ne =
      let same = zero_words-outside 512 0 p words x page (omega arith) other in ground arith

  protected-inside : (n : ℕ) → n < 512 → 0 < n → protected words p v space (entry_at p n) ≡ 0
  protected-inside n h pos =
      let zeroed = zero_words-inside p words n h in
      let base = baseof-entry_at p n page h in
      let ne : entry_at p n ≢ space = λ e. p_apart (ap baseof (sym e) ∙ base) in ground arith

  protected-WellFormed :
      WellFormed ht words → WellFormed (set_height ht p 3) (protected words p v space)
  protected-WellFormed wf j t n hj own (aligned, height) hn on =
      let base = baseof-entry_at t n aligned hn in
      elim (Bool-cases (t == p)) [
        | inl same ↦
            let at_p : entry_at t n ≡ entry_at p n = ap (λ q. entry_at q n) (==→eq t p same) in
            let top : 3 ≡ suc j = sym (rw same refl) ∙ height in
            absurd (
              absent (protected words p v space (entry_at t n))
                (ap (protected words p v space) at_p ∙ protected-inside n hn (omega arith)) on)
        | inr other ↦
            let old_height : ht t ≡ suc j = sym (rw other refl) ∙ height in
            let not_p : baseof (entry_at t n) ≢ p = λ e. ==→ne t p other (sym base ∙ e) in
            let ne : entry_at t n ≢ space = λ e. absurd (
              omega
                (arith, sym apart ∙ ap (λ x. ht (baseof x)) (sym e) ∙ ap ht base ∙ old_height)) in
            let same = protected-outside (entry_at t n) not_p ne in
            ap (λ x. set_height ht p 3 (baseof x)) same
            ∙ set_height-kept ht p 3 (baseof (words (entry_at t n))) j free
                (wf j t n hj own (aligned, old_height) hn (ap present (sym same) ∙ on))
                (omega arith)
      ]

protect-protected :
    (kpt space : ℕ) (s : Vm) (p : ℕ) (rest : List ℕ)
    → pgallocz_from s.pool s ≡ some (p, taken s p rest)
    → p % 4096 ≡ 0
    → protect kpt space s
      ≡ some (record s {
        words = protected s.words p (zero_words 512 0 p s.words (entry_at kpt 0)) space;
        pool = rest;
      })
unfolding protect
protect-protected kpt space s p rest takes page =
    rw (protect, takes, share_areas-vm_areas kpt p (zero_words 512 0 p s.words), readable p page)
      refl

-- With well-formed tables and a free page, `protect` returns an address space in which no address of the
-- user area has a translation.
pub protect-IsSpace :
    (kpt space : ℕ) (ht : Height) (s : Vm)
    → WellFormed ht s.words
    → Fresh ht s.pool
    → 1 ≤ length s.pool
    → ht (baseof space) ≡ 8
    → (ht' : Height) × (s' : Vm) × (protect kpt space s ≡ some s')
      × IsSpace ht' space s'
      × ((va : ℕ) → uvm_area.start ≤ va → va < uvm_area.end → lookup space s' va ≡ none)
protect-IsSpace kpt space ht s wf fresh enough apart =
    let (p, rest, takes, page, free, others_apart, others, left) =
      pgallocz_from-first ht s 0 s.pool fresh enough in
    let v = zero_words 512 0 p s.words (entry_at kpt 0) in
    let s' = record s { words = protected s.words p v space; pool = rest } in
    let at_space : s'.words space ≡ p + 5 = rw (eq→== space space refl) refl in
    let root : baseof (s'.words space) ≡ p = ap baseof at_space ∙ omega arith in
    let height : set_height ht p 3 p ≡ 3 = rw (eq→== p p refl) refl in
    (
      set_height ht p 3,
      s',
      protect-protected kpt space s p rest takes page,
      record {
        root_on = ap present at_space ∙ ground arith;
        root_apart = set_height-kept ht p 3 (baseof space) 8 free apart (omega arith);
        root_table = rw root (page, height);
        well_formed = protected-WellFormed ht s.words p v space page free apart wf;
        fresh = Fresh-set_height ht p 3 rest others_apart others;
      },
      λ va low high.
          ap (λ x. translate 3 x s'.words va) root
          ∙ translate-absent 3 p s'.words va (
              ap present (
                protected-inside ht s.words p v space page free apart (index_of 3 va)
                  (index_of-lt 3 va) (omega arith))),
    )
