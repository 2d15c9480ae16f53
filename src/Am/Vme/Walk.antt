-- ===== src/Am/Vme/Walk.antt =====
-- `ptwalk` of abstract-machine/am/src/x86/qemu/vme.c on the tables of an address space.
use njuoslab_l1_kmalloc_kfre.Base.{
  ℕ, zero, suc, ◌+◌, ◌%◌, ◌<◌, ◌≤◌, ◌≡◌, refl, ap, ◌∙◌, arith, ◌==◌, true, false, some, List, [],
  ◌∷◌, Bool-cases, inl, inr, length, eq→==,
}
use njuoslab_l1_kmalloc_kfre.Am.Vme.{
  Vm, pgtables, indexof, baseof, present, entry_at, pgallocz_from, walk,
}
use njuoslab_l1_kmalloc_kfre.Am.Vme.Translate.{
  index_of, slot, Height, IsTable, WellFormed, Fresh, Route, set_height, Fresh-set_height,
  index_of-lt, baseof-aligned, or_bits-aligned, indexof-index_of,
}
use njuoslab_l1_kmalloc_kfre.Am.Vme.Linked.{linked, WellFormed-linked}
use njuoslab_l1_kmalloc_kfre.Am.Vme.Walked.{
  Walked-present, Walked-linked, WalkResult, translate-last, taken, pgallocz_from-first,
}

pub walk-last :
    (level table addr : ℕ) (flags : List ℕ) (s : Vm)
    → 1 ≤ level
    → level + 0 ≡ 4
    → walk zero level table addr flags s ≡ some (slot zero table addr, s)
unfolding walk
walk-last level table addr flags s h e = rw (indexof-index_of zero level addr h e) refl

pub walk-present :
    (k level table addr : ℕ) (flags : List ℕ) (s : Vm)
    → 1 ≤ level
    → level + suc k ≡ 4
    → present (s.words (slot (suc k) table addr)) ≡ true
    → walk (suc k) level table addr flags s
      ≡ walk k (level + 1) (baseof (s.words (slot (suc k) table addr))) addr flags s
unfolding walk
walk-present k level table addr flags s h e on =
    let at : entry_at table (indexof addr (pgtables level)) ≡ slot (suc k) table addr =
      ap (entry_at table) (indexof-index_of (suc k) level addr h e) in
    let raw : present (s.words (entry_at table (indexof addr (pgtables level)))) ≡ true =
      ap (λ a. present (s.words a)) at ∙ on in
    rw (walk, raw) (ap (λ a. walk k (level + 1) (baseof (s.words a)) addr flags s) at)

walk-absent :
    (k level table addr : ℕ) (s : Vm) (p : ℕ) (rest : List ℕ)
    → 1 ≤ level
    → level + suc k ≡ 4
    → present (s.words (slot (suc k) table addr)) ≡ false
    → p % 4096 ≡ 0
    → pgallocz_from s.pool s ≡ some (p, taken s p rest)
    → walk (suc k) level table addr (1 ∷ 2 ∷ []) s
      ≡ walk k
          (level + 1)
          p
          addr
          (1 ∷ 2 ∷ [])
          (record s { words = linked s.words p (slot (suc k) table addr); pool = rest })
unfolding walk
walk-absent k level table addr s p rest h e off page takes =
    let at : entry_at table (indexof addr (pgtables level)) ≡ slot (suc k) table addr =
      ap (entry_at table) (indexof-index_of (suc k) level addr h e) in
    let raw : present (s.words (entry_at table (indexof addr (pgtables level)))) ≡ false =
      ap (λ a. present (s.words a)) at ∙ off in
    rw (walk, raw, takes, or_bits-aligned p page)
      (ap
        (λ a.
          walk k (level + 1) p addr (1 ∷ 2 ∷ [])
            (record s { words = linked s.words p a; pool = rest }))
        at)

-- A user address goes by no entry of the kernel.
pub index_of-owned : (k addr : ℕ) → k < 3 → 0 < index_of 3 addr → k < index_of (suc k) addr + 2
index_of-owned zero addr h in_user = omega arith
index_of-owned (suc zero) addr h in_user = omega arith
index_of-owned (suc (suc zero)) addr h in_user = omega arith
index_of-owned (suc (suc (suc k))) addr h in_user = absurd (omega arith)

-- With well-formed tables and enough free pages, `ptwalk` returns from each table on.
pub walk-Walked :
    (k level table addr : ℕ) (ht : Height) (s : Vm)
    → 1 ≤ level
    → level + k ≡ 4
    → 0 < index_of 3 addr
    → IsTable ht k table
    → WellFormed ht s.words
    → Fresh ht s.pool
    → k ≤ length s.pool
    → WalkResult ht k level table addr s
unfolding Route
walk-Walked zero level table addr ht s h e in_user is_table wf fresh enough = (
  ht,
  slot zero table addr,
  s,
  walk-last level table addr (1 ∷ 2 ∷ []) s h e,
  record {
    path = (is_table, refl);
    well_formed = wf;
    fresh = fresh;
    above = λ x lt busy. refl;
    kept = λ q busy. refl;
    unused = translate-last table s.words addr;
  },
)
walk-Walked (suc k) level table addr ht s h e in_user is_table wf fresh enough =
    let a = slot (suc k) table addr in
    let hk : k < 3 = omega arith in
    elim (Bool-cases (present (s.words a))) [
      | inl on ↦
          let next =
            wf k table (index_of (suc k) addr) hk (index_of-owned k addr hk in_user) is_table
              (index_of-lt (suc k) addr) on in
          let (ht', entry, s', runs, w) =
            walk-Walked k (level + 1) (baseof (s.words a)) addr ht s (omega arith) (omega arith)
              in_user (baseof-aligned (s.words a), next) wf fresh (omega arith) in
          (
            ht',
            entry,
            s',
            walk-present k level table addr (1 ∷ 2 ∷ []) s h e on ∙ runs,
            Walked-present ht k table addr s ht' entry s' hk is_table on w,
          )
      | inr off ↦
          let (p, rest, takes, page, free, apart, others, left) =
            pgallocz_from-first ht s k s.pool fresh enough in
          let itself : (p == p) ≡ true = eq→== p p refl in
          let linked_s = record s { words = linked s.words p a; pool = rest } in
          let (ht', entry, s', runs, w) =
            walk-Walked k (level + 1) p addr (set_height ht p k) linked_s (omega arith)
              (omega arith) in_user (page, rw itself refl)
              (WellFormed-linked ht s.words k table (index_of (suc k) addr) p hk wf is_table
                (index_of-lt (suc k) addr) page free)
              (Fresh-set_height ht p k rest apart others) left in
          (
            ht',
            entry,
            s',
            walk-absent k level table addr s p rest h e off page takes ∙ runs,
            Walked-linked ht k table addr s p rest ht' entry s' hk is_table page free w,
          )
    ]
