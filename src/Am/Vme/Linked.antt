-- ===== src/Am/Vme/Linked.antt =====
-- A new page that `ptwalk` of abstract-machine/am/src/x86/qemu/vme.c takes for an entry.
use njuoslab_l1_kmalloc_kfre.Base.{
  ℕ, suc, ◌+◌, ◌%◌, ◌<◌, ◌≡◌, ◌≢◌, refl, sym, ap, ◌∙◌, arith, ◌==◌, true, Bool-cases, inl, inr,
  ==→eq, eq→==, ==→ne,
}
use njuoslab_l1_kmalloc_kfre.Am.Vme.{Words, set_entry, baseof, present, entry_at, zero_words}
use njuoslab_l1_kmalloc_kfre.Am.Vme.Translate.{
  Height, IsTable, WellFormed, set_height, baseof-entry_at, zero_words-outside, zero_words-inside,
}

-- A page `p` that is taken for the entry at `a`.
abbrev pub linked : Words → (p a : ℕ) → Words
linked words p a = set_entry (zero_words 512 0 p words) a (p + 7)

pub linked-outside :
    (words : Words) (p a x : ℕ) → p % 4096 ≡ 0 → baseof x ≢ p → x ≢ a → linked words p a x ≡ words x
linked-outside words p a x aligned other ne =
    let same = zero_words-outside 512 0 p words x aligned (omega arith) other in ground arith

pub linked-inside :
    (words : Words) (p a j : ℕ)
    → p % 4096 ≡ 0
    → baseof a ≢ p
    → j < 512
    → linked words p a (entry_at p j) ≡ 0
linked-inside words p a j aligned other h =
    let zeroed = zero_words-inside p words j h in
    let base = baseof-entry_at p j aligned h in ground arith

pub set_height-kept :
    (ht : Height) (p k q j : ℕ) → ht p ≡ 9 → ht q ≡ j → j ≢ 9 → set_height ht p k q ≡ j
set_height-kept ht p k q j free e ne = elim (Bool-cases (q == p)) [
  | inl same ↦ absurd (ne (sym e ∙ ap ht (==→eq q p same) ∙ free))
  | inr other ↦ rw other e
]

pub absent : (v : ℕ) → v ≡ 0 → present v ≡ true → ⊥
absent v e on = ground arith

pub baseof-linked : (p : ℕ) → p % 4096 ≡ 0 → baseof (p + 7) ≡ p
baseof-linked p aligned = omega arith

-- The new page keeps the tables well formed.
pub WellFormed-linked :
    (ht : Height) (words : Words) (k table i p : ℕ)
    → k < 3
    → WellFormed ht words
    → IsTable ht (suc k) table
    → i < 512
    → p % 4096 ≡ 0
    → ht p ≡ 9
    → WellFormed (set_height ht p k) (linked words p (entry_at table i))
WellFormed-linked ht words k table i p hk wf (aligned, height) hi page free j t n hj own
      (t_aligned, t_height) hn on =
    let base = baseof-entry_at table i aligned hi in
    let base_n = baseof-entry_at t n t_aligned hn in
    let apart : table ≢ p = λ e. absurd (omega (arith, sym height ∙ ap ht e ∙ free)) in
    elim (Bool-cases (t == p)) [
      | inl same ↦
          let inside =
            linked-inside words p (entry_at table i) n page (λ e. apart (sym base ∙ e)) hn in
          let at_p : entry_at t n ≡ entry_at p n = ap (λ q. entry_at q n) (==→eq t p same) in
          absurd (
            absent (linked words p (entry_at table i) (entry_at t n))
              (ap (linked words p (entry_at table i)) at_p ∙ inside) on)
      | inr other ↦ elim (Bool-cases (entry_at t n == entry_at table i)) [
        | inl here ↦
            let at_table : t ≡ table =
              sym base_n ∙ ap baseof (==→eq (entry_at t n) (entry_at table i) here) ∙ base in
            let same_height : suc j ≡ suc k = sym t_height ∙ rw other (ap ht at_table ∙ height) in
            let k_is : k ≡ j = omega (arith, same_height) in
            let itself : (p == p) ≡ true = eq→== p p refl in
            rw (here, baseof-linked p page, itself) k_is
        | inr there ↦
            let old_height : ht t ≡ suc j = sym (rw other refl) ∙ t_height in
            let ne : entry_at t n ≢ entry_at table i =
              ==→ne (entry_at t n) (entry_at table i) there in
            let not_p : baseof (entry_at t n) ≢ p = λ e. ==→ne t p other (sym base_n ∙ e) in
            let same = linked-outside words p (entry_at table i) (entry_at t n) page not_p ne in
            let old_on : present (words (entry_at t n)) ≡ true = ap present (sym same) ∙ on in
            ap (λ v. set_height ht p k (baseof v)) same
            ∙ set_height-kept ht p k (baseof (words (entry_at t n))) j free
                (wf j t n hj own (t_aligned, old_height) hn old_on) (omega arith)
      ]
    ]
