-- ===== src/Am/Vme/Route.antt =====
-- The path of an address through the tables of abstract-machine/am/src/x86/qemu/vme.c.
use njuoslab_l1_kmalloc_kfre.Base.{
  ℕ, zero, suc, ◌+◌, ◌%◌, ◌<◌, ◌≤◌, ◌≡◌, ◌≢◌, refl, sym, ap, ◌∙◌, arith, if◌then◌else◌, true, none,
  some, List, Bool-cases, inl, inr, ne→==,
}
use njuoslab_l1_kmalloc_kfre.Am.Vme.{
  Words, Vm, set_entry, pgtables, indexof, baseof, present, entry_at, walk, ptwalk,
}
use njuoslab_l1_kmalloc_kfre.Am.Vme.Translate.{
  index_of, slot, translate, Height, IsTable, WellFormed, Route, index_of-lt, baseof-entry_at,
  baseof-aligned,
}
use njuoslab_l1_kmalloc_kfre.Am.Vme.Walk.{walk-present, walk-last, index_of-owned}
use njuoslab_l1_kmalloc_kfre.Am.Vme.Walked.{translate-next, translate-absent}

pub Route-end :
    (ht : Height) (k table : ℕ) (words : Words) (addr e : ℕ)
    → Route ht k table words addr e
    → ht (baseof e) ≡ 0
unfolding Route
Route-end ht zero table words addr e ((aligned, height), last) =
    ap (λ a. ht (baseof a)) last
    ∙ ap ht (baseof-entry_at table (index_of zero addr) aligned (index_of-lt zero addr))
    ∙ height
Route-end ht (suc k) table words addr e (is_table, on, rest) =
    Route-end ht k (baseof (words (slot (suc k) table addr))) words addr e rest

-- The entry at the end of a path is none of those on its way.
pub Route-set_entry :
    (ht : Height) (k table : ℕ) (words : Words) (addr e v : ℕ)
    → Route ht k table words addr e
    → Route ht k table (set_entry words e v) addr e
unfolding Route
Route-set_entry ht zero table words addr e v path = path
Route-set_entry ht (suc k) table words addr e v ((aligned, height), on, rest) =
    let a = slot (suc k) table addr in
    let at_a : ht (baseof a) ≡ suc k =
      ap ht (baseof-entry_at table (index_of (suc k) addr) aligned (index_of-lt (suc k) addr))
      ∙ height in
    let at_e = Route-end ht k (baseof (words a)) words addr e rest in
    let ne : a ≢ e = λ eq. absurd (omega (arith, sym at_a ∙ ap (λ x. ht (baseof x)) eq ∙ at_e)) in
    let other = ne→== a e ne in
    (
      (aligned, height),
      rw other on,
      rw other (Route-set_entry ht k (baseof (words a)) words addr e v rest),
    )

pub walk-Route :
    (ht : Height) (k level table addr e : ℕ) (flags : List ℕ) (s : Vm)
    → 1 ≤ level
    → level + k ≡ 4
    → Route ht k table s.words addr e
    → walk k level table addr flags s ≡ some (e, s)
unfolding Route
walk-Route ht zero level table addr e flags s h l (is_table, last) =
    walk-last level table addr flags s h l ∙ ap (λ a. some (a, s)) (sym last)
walk-Route ht (suc k) level table addr e flags s h l (is_table, on, rest) =
    walk-present k level table addr flags s h l on
    ∙ walk-Route ht k (level + 1) (baseof (s.words (slot (suc k) table addr))) addr e flags s
        (omega arith) (omega arith) rest

pub translate-Route :
    (ht : Height) (k table : ℕ) (words : Words) (addr e : ℕ)
    → Route ht k table words addr e
    → translate k table words addr
      ≡ (if present (words e) then some (baseof (words e) + addr % 4096) else none)
unfolding Route translate
translate-Route ht zero table words addr e (is_table, last) = rw last refl
translate-Route ht (suc k) table words addr e (is_table, on, rest) =
    translate-next k table words addr on
    ∙ translate-Route ht k (baseof (words (slot (suc k) table addr))) words addr e rest

pub translate-mapped :
    (ht : Height) (k table : ℕ) (words : Words) (addr e v pa : ℕ)
    → Route ht k table words addr e
    → words e ≡ v
    → present v ≡ true
    → baseof v ≡ pa
    → addr % 4096 ≡ 0
    → translate k table words addr ≡ some pa
translate-mapped ht k table words addr e v pa path at_e on base aligned =
    let no_offset : pa + 0 ≡ pa = omega arith in
    translate-Route ht k table words addr e path
    ∙ ap (λ x. if present x then some (baseof x + addr % 4096) else none) at_e
    ∙ rw (on, base, aligned, no_offset) refl

pub ptwalk-root :
    (space addr : ℕ) (flags : List ℕ) (s : Vm)
    → present (s.words space) ≡ true
    → ptwalk space addr flags s ≡ walk 3 1 (baseof (s.words space)) addr flags s
unfolding walk
ptwalk-root space addr flags s on =
    let at : entry_at space (indexof addr (pgtables 0)) ≡ space = omega arith in
    let raw : present (s.words (entry_at space (indexof addr (pgtables 0)))) ≡ true =
      ap (λ a. present (s.words a)) at ∙ on in
    rw (walk, raw) (ap (λ a. walk 3 1 (baseof (s.words a)) addr flags s) at)

nothing : {a : ℕ} → none ≡ some a → ⊥
nothing h = ground arith

-- An address that has a translation has a path.
pub found-Route :
    (ht : Height) (k table : ℕ) (words : Words) (addr pa : ℕ)
    → k < 4
    → 0 < index_of 3 addr
    → IsTable ht k table
    → WellFormed ht words
    → translate k table words addr ≡ some pa
    → (e : ℕ) × Route ht k table words addr e × (present (words e) ≡ true)
unfolding Route translate
found-Route ht zero table words addr pa lt in_user is_table wf found =
    elim (Bool-cases (present (words (slot zero table addr)))) [
      | inl on ↦ (slot zero table addr, (is_table, refl), on)
      | inr off ↦ absurd (nothing (sym (translate-absent zero table words addr off) ∙ found))
    ]
found-Route ht (suc k) table words addr pa lt in_user is_table wf found =
    elim (Bool-cases (present (words (slot (suc k) table addr)))) [
      | inl on ↦
          let next =
            wf k table (index_of (suc k) addr) (omega arith)
              (index_of-owned k addr (omega arith) in_user) is_table (index_of-lt (suc k) addr)
              on in
          let (e, path, last) =
            found-Route ht k (baseof (words (slot (suc k) table addr))) words addr pa (omega arith)
              in_user (baseof-aligned (words (slot (suc k) table addr)), next) wf
              (sym (translate-next k table words addr on) ∙ found) in
          (e, (is_table, on, path), last)
      | inr off ↦ absurd (nothing (sym (translate-absent (suc k) table words addr off) ∙ found))
    ]

pub WellFormed-set_entry :
    (ht : Height) (words : Words) (e v : ℕ)
    → ht (baseof e) ≡ 0
    → WellFormed ht words
    → WellFormed ht (set_entry words e v)
WellFormed-set_entry ht words e v last wf k table i hk own (aligned, height) hi on =
    let base = ap ht (baseof-entry_at table i aligned hi) in
    let ne : entry_at table i ≢ e =
      λ eq. absurd (omega (arith, sym (base ∙ height) ∙ ap (λ x. ht (baseof x)) eq ∙ last)) in
    let other = ne→== (entry_at table i) e ne in
    let same : set_entry words e v (entry_at table i) ≡ words (entry_at table i) = rw other refl in
    ap (λ x. ht (baseof x)) same
    ∙ wf k table i hk own (aligned, height) hi (ap present (sym same) ∙ on)

pub IsTable-kept :
    (ht ht' : Height) (k : ℕ) (old new : ℕ)
    → IsTable ht k (baseof old)
    → k < 9
    → ((q : ℕ) → ht q ≢ 9 → ht' q ≡ ht q)
    → new ≡ old
    → IsTable ht' k (baseof new)
IsTable-kept ht ht' k old new (aligned, height) lt kept same =
    rw same (aligned, kept (baseof old) (omega arith) ∙ height)
