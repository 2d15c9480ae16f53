-- ===== src/Am/Vme/Walked.antt =====
-- What `ptwalk` of abstract-machine/am/src/x86/qemu/vme.c leaves behind, level by level.
use njuoslab_l1_kmalloc_kfre.Base.{
  ℕ, zero, suc, ◌+◌, ◌%◌, ◌<◌, ◌≤◌, ◌≡◌, ◌≢◌, refl, sym, ap, ◌∙◌, arith, ◌==◌, true, false, none,
  some, List, [], ◌∷◌, Bool-cases, inl, inr, length, eq→==, ne→==,
}
use njuoslab_l1_kmalloc_kfre.Am.Vme.{Words, Vm, baseof, present, zero_words, pgallocz_from, walk}
use njuoslab_l1_kmalloc_kfre.Am.Vme.Translate.{
  index_of, slot, translate, Height, IsTable, WellFormed, Apart, Fresh, Route, set_height,
  index_of-lt, baseof-entry_at,
}
use njuoslab_l1_kmalloc_kfre.Am.Vme.Linked.{
  linked, linked-outside, linked-inside, set_height-kept, baseof-linked,
}

-- What `ptwalk` leaves behind from a table on: the path to its entry, well-formed tables, the words of
-- the tables above, and an entry that is not present if the address had no translation.
pub record Walked (ht : Height) (k table addr : ℕ) (s : Vm) (ht' : Height) (e : ℕ) (s' : Vm)
    : Type 0 where
  pub path : Route ht' k table s'.words addr e
  pub well_formed : WellFormed ht' s'.words
  pub fresh : Fresh ht' s'.pool
  pub above : (x : ℕ) → k < ht (baseof x) → ht (baseof x) ≢ 9 → s'.words x ≡ s.words x
  pub kept : (q : ℕ) → ht q ≢ 9 → ht' q ≡ ht q
  pub unused : translate k table s.words addr ≡ none → present (s'.words e) ≡ false

pub translate-absent :
    (k table : ℕ) (words : Words) (addr : ℕ)
    → present (words (slot k table addr)) ≡ false
    → translate k table words addr ≡ none
unfolding translate
translate-absent zero table words addr off = rw off refl
translate-absent (suc k) table words addr off = rw (translate, off) refl

pub translate-next :
    (k table : ℕ) (words : Words) (addr : ℕ)
    → present (words (slot (suc k) table addr)) ≡ true
    → translate (suc k) table words addr
      ≡ translate k (baseof (words (slot (suc k) table addr))) words addr
unfolding translate
translate-next k table words addr on = rw (translate, on) refl

pub translate-last :
    (table : ℕ) (words : Words) (addr : ℕ)
    → translate zero table words addr ≡ none
    → present (words (slot zero table addr)) ≡ false
unfolding translate
translate-last table words addr h = elim (Bool-cases (present (words (slot zero table addr)))) [
  | inl on ↦
      let found : some (baseof (words (slot zero table addr)) + addr % 4096) ≡ none =
        sym (rw on refl) ∙ h in
      absurd (ground arith)
  | inr off ↦ off
]

-- The first page of the pool.
abbrev pub taken : Vm → (p : ℕ) → List ℕ → Vm
taken s p rest = record s { words = zero_words 512 0 p s.words; pool = rest }

pub pgallocz_from-first :
    (ht : Height) (s : Vm) (k : ℕ) (pool : List ℕ)
    → Fresh ht pool
    → suc k ≤ length pool
    → (p : ℕ) × (rest : List ℕ) × (pgallocz_from pool s ≡ some (p, taken s p rest))
      × (p % 4096 ≡ 0)
      × (ht p ≡ 9)
      × Apart p rest
      × Fresh ht rest
      × (k ≤ length rest)
unfolding Fresh pgallocz_from
pgallocz_from-first ht s k [] fresh h = absurd (omega arith)
pgallocz_from-first ht s k (p ∷ rest) ((aligned, nonzero, free), apart, fresh) h =
    (p, rest, rw (ne→== p 0 nonzero) refl, aligned, free, apart, fresh, omega arith)

abbrev pub WalkResult : Height → (k level table addr : ℕ) → Vm → Type 0
WalkResult ht k level table addr s =
    (ht' : Height) × (e : ℕ) × (s' : Vm) × (walk k level table addr (1 ∷ 2 ∷ []) s ≡ some (e, s'))
    × Walked ht k table addr s ht' e s'

-- An entry that is present.
pub Walked-present :
    (ht : Height) (k table addr : ℕ) (s : Vm) (ht' : Height) (e : ℕ) (s' : Vm)
    → k < 3
    → IsTable ht (suc k) table
    → present (s.words (slot (suc k) table addr)) ≡ true
    → Walked ht k (baseof (s.words (slot (suc k) table addr))) addr s ht' e s'
    → Walked ht (suc k) table addr s ht' e s'
unfolding Route
Walked-present ht k table addr s ht' e s' hk (aligned, height) on w =
    let a = slot (suc k) table addr in
    let base : baseof a ≡ table =
      baseof-entry_at table (index_of (suc k) addr) aligned (index_of-lt (suc k) addr) in
    let at_a : ht (baseof a) ≡ suc k = ap ht base ∙ height in
    let same : s'.words a ≡ s.words a = w.above a (omega arith) (omega arith) in
    let ne : ht table ≢ 9 = omega arith in
    record {
      path = ((aligned, w.kept table ne ∙ height), ap present same ∙ on, rw same w.path);
      well_formed = w.well_formed;
      fresh = w.fresh;
      above = λ x lt free. w.above x (omega arith) free;
      kept = w.kept;
      unused = λ h. w.unused (sym (translate-next k table s.words addr on) ∙ h);
    }

-- An entry that gets a new page.
pub Walked-linked :
    (ht : Height) (k table addr : ℕ) (s : Vm) (p : ℕ) (rest : List ℕ) (ht' : Height) (e : ℕ)
    (s' : Vm)
    → k < 3
    → IsTable ht (suc k) table
    → p % 4096 ≡ 0
    → ht p ≡ 9
    → Walked
        (set_height ht p k)
        k
        p
        addr
        (record s { words = linked s.words p (slot (suc k) table addr); pool = rest })
        ht'
        e
        s'
    → Walked ht (suc k) table addr s ht' e s'
unfolding Route
Walked-linked ht k table addr s p rest ht' e s' hk (aligned, height) page free w =
    let a = slot (suc k) table addr in
    let base : baseof a ≡ table =
      baseof-entry_at table (index_of (suc k) addr) aligned (index_of-lt (suc k) addr) in
    let not_p : (q : ℕ) → ht q ≢ 9 → q ≢ p = λ q ne eq. ne (ap ht eq ∙ free) in
    let new_kept : (q : ℕ) → ht q ≢ 9 → set_height ht p k q ≡ ht q =
      λ q ne. set_height-kept ht p k q (ht q) free refl ne in
    let ne : ht table ≢ 9 = omega arith in
    let table_kept : set_height ht p k table ≡ suc k = new_kept table ne ∙ height in
    let at_a : set_height ht p k (baseof a) ≡ suc k = ap (set_height ht p k) base ∙ table_kept in
    let itself : (a == a) ≡ true = eq→== a a refl in
    let entry : s'.words a ≡ p + 7 = w.above a (omega arith) (omega arith) ∙ rw itself refl in
    let zero_entry =
      linked-inside s.words p a (index_of k addr) page (λ eq. not_p table ne (sym base ∙ eq))
        (index_of-lt k addr) in
    let next : baseof (s'.words a) ≡ p = ap baseof entry ∙ baseof-linked p page in
    record {
      path = (
        (aligned, w.kept table (omega arith) ∙ table_kept),
        ap present entry ∙ ground arith,
        rw next w.path,
      );
      well_formed = w.well_formed;
      fresh = w.fresh;
      above = λ x lt busy.
          let same = new_kept (baseof x) busy in
          let ht_a : ht (baseof a) ≡ suc k = ap ht base ∙ height in
          w.above x (omega arith) (omega arith)
          ∙ linked-outside s.words p a x page (not_p (baseof x) busy)
              (λ eq. absurd (omega (arith, ap (λ y. ht (baseof y)) eq)));
      kept = λ q busy. let same = new_kept q busy in w.kept q (omega arith) ∙ same;
      unused = λ h.
          w.unused (translate-absent k p (linked s.words p a) addr (ap present zero_entry ∙ refl));
    }
