-- ===== src/Am/Vme/Map.antt =====
-- `map` of abstract-machine/am/src/x86/qemu/vme.c, against the translation of the processor.
use njuoslab_l1_kmalloc_kfre.Base.{
  ℕ, ◌+◌, ◌/◌, ◌%◌, ◌<◌, ◌≤◌, ◌≡◌, ◌≢◌, refl, sym, ap, ◌∙◌, arith, ◌==◌, ◌&&◌, ltb, leb,
  if◌then◌else◌, true, false, Option, none, some, [], ◌∷◌, Bool-cases, inl, inr, length, eq→==,
  ne→==,
}
use njuoslab_l1_kmalloc_kfre.Am.Vme.{
  Vm, set_entry, baseof, present, or_bits, walk, ptwalk, new_entry, uvm_area, map,
}
use njuoslab_l1_kmalloc_kfre.Am.Vme.Translate.{translate, Height, IsTable, WellFormed, Fresh, Route}
use njuoslab_l1_kmalloc_kfre.Am.Vme.Walk.{walk-Walked}
use njuoslab_l1_kmalloc_kfre.Am.Vme.Route.{
  Route-end, Route-set_entry, walk-Route, translate-Route, translate-mapped, ptwalk-root,
  found-Route, WellFormed-set_entry, IsTable-kept,
}

writable : (pa : ℕ) → pa % 4096 ≡ 0 → or_bits (0 ∷ 2 ∷ 1 ∷ []) pa ≡ pa + 7
unfolding or_bits
writable pa aligned = ground arith

pub readable : (pa : ℕ) → pa % 4096 ≡ 0 → or_bits (0 ∷ 2 ∷ []) pa ≡ pa + 5
unfolding or_bits
readable pa aligned = ground arith

-- The entry that `map` stores is present and has the address.
abbrev Stored : (old pa prot : ℕ) → Type 0
Stored old pa prot =
    (v : ℕ) × (new_entry old pa prot ≡ some v) × (present v ≡ true) × (baseof v ≡ pa)

new_entry-Stored :
    (old pa prot : ℕ) → pa % 4096 ≡ 0 → prot ≢ 0 → present old ≡ false → Stored old pa prot
new_entry-Stored old pa prot aligned ne off =
    let mapped = ne→== prot 0 ne in
    elim (Bool-cases (prot / 2 % 2 == 1)) [
      | inl w ↦ (pa + 7, rw (mapped, off, w, writable pa aligned) refl, ground arith, omega arith)
      | inr r ↦ (pa + 5, rw (mapped, off, r, readable pa aligned) refl, ground arith, omega arith)
    ]

-- `map` stores the new entry at the end of the path that `ptwalk` makes.
map-stored :
    (space va pa prot : ℕ) (ht : Height) (s : Vm) (e : ℕ) (s' : Vm) (v : ℕ)
    → uvm_area.start ≤ va
    → va < uvm_area.end
    → va % 4096 ≡ 0
    → pa % 4096 ≡ 0
    → ptwalk space va (1 ∷ 2 ∷ []) s ≡ some (e, s')
    → new_entry (s'.words e) pa prot ≡ some v
    → ptwalk space va (1 ∷ 2 ∷ []) (record s' { words = set_entry s'.words e v })
      ≡ some (e, record s' { words = set_entry s'.words e v })
    → map space va pa prot s ≡ some (record s' { words = set_entry s'.words e v })
unfolding map
map-stored space va pa prot ht s e s' v low high va_aligned pa_aligned walks stored again =
    let valid : ((leb uvm_area.start va && ltb va uvm_area.end)
          && (va == baseof va && pa == baseof pa))
        ≡ true =
      ground arith in
    rw (map, valid, walks, stored, again) refl

-- An address space as `protect` makes it, and the pages that `pgalloc` has left.
pub record IsSpace (ht : Height) (space : ℕ) (s : Vm) : Type 0 where
  pub root_on : present (s.words space) ≡ true
  pub root_apart : ht (baseof space) ≡ 8
  pub root_table : IsTable ht 3 (baseof (s.words space))
  pub well_formed : WellFormed ht s.words
  pub fresh : Fresh ht s.pool

abbrev pub lookup : (space : ℕ) → Vm → (va : ℕ) → Option ℕ
lookup space s va = translate 3 (baseof (s.words space)) s.words va

-- In an address space with three free pages, `map` of a page that is not mapped returns, and the processor
-- then translates its address to the physical one, and the address space stays well formed; addresses are
-- aligned, and `va` is in the user area.
pub map-translated :
    (space va pa prot : ℕ) (ht : Height) (s : Vm)
    → IsSpace ht space s
    → uvm_area.start ≤ va
    → va < uvm_area.end
    → va % 4096 ≡ 0
    → pa % 4096 ≡ 0
    → prot ≢ 0
    → lookup space s va ≡ none
    → 3 ≤ length s.pool
    → (ht' : Height) × (s' : Vm) × (map space va pa prot s ≡ some s')
      × IsSpace ht' space s'
      × (lookup space s' va ≡ some pa)
map-translated space va pa prot ht s ok low high va_aligned pa_aligned mapped free enough =
    let root = baseof (s.words space) in
    let (ht', e, s1, runs, w) =
      walk-Walked 3 1 root va ht s (omega arith) refl (omega arith) ok.root_table ok.well_formed
        ok.fresh enough in
    let (v, stored, v_on, v_base) =
      new_entry-Stored (s1.words e) pa prot pa_aligned mapped (w.unused free) in
    let s2 = record s1 { words = set_entry s1.words e v } in
    let apart = ok.root_apart in
    let space_height : ht' (baseof space) ≡ 8 = w.kept (baseof space) (omega arith) ∙ apart in
    let end_height = Route-end ht' 3 root s1.words va e w.path in
    let ne : space ≢ e =
      λ eq. absurd (omega (arith, sym space_height ∙ ap (λ x. ht' (baseof x)) eq ∙ end_height)) in
    let same : s2.words space ≡ s.words space =
      rw (ne→== space e ne) (w.above space (omega arith) (omega arith)) in
    let path : Route ht' 3 root s2.words va e = Route-set_entry ht' 3 root s1.words va e v w.path in
    let root_on : present (s2.words space) ≡ true = ap present same ∙ ok.root_on in
    let again =
      ptwalk-root space va (1 ∷ 2 ∷ []) s2 root_on
      ∙ ap (λ x. walk 3 1 (baseof x) va (1 ∷ 2 ∷ []) s2) same
      ∙ walk-Route ht' 3 1 root va e (1 ∷ 2 ∷ []) s2 (omega arith) refl path in
    let at_e : s2.words e ≡ v = rw (eq→== e e refl) refl in
    (
      ht',
      s2,
      map-stored space va pa prot ht s e s1 v low high va_aligned pa_aligned
          (ptwalk-root space va (1 ∷ 2 ∷ []) s ok.root_on ∙ runs) stored again,
      record {
        root_on = root_on;
        root_apart = space_height;
        root_table =
            IsTable-kept ht ht' 3 (s.words space) (s2.words space) ok.root_table (omega arith)
              w.kept same;
        well_formed = WellFormed-set_entry ht' s1.words e v end_height w.well_formed;
        fresh = w.fresh;
      },
      ap (λ x. translate 3 (baseof x) s2.words va) same
          ∙ translate-mapped ht' 3 root s2.words va e v pa path at_e v_on v_base va_aligned,
    )

-- In an address space, `map` with `MMAP_NONE` of a page that is mapped returns, the address then has no
-- translation, and the address space stays well formed.
pub map-unmapped :
    (space va pa old : ℕ) (ht : Height) (s : Vm)
    → IsSpace ht space s
    → uvm_area.start ≤ va
    → va < uvm_area.end
    → va % 4096 ≡ 0
    → pa % 4096 ≡ 0
    → lookup space s va ≡ some old
    → (s' : Vm) × (map space va pa 0 s ≡ some s')
      × IsSpace ht space s'
      × (lookup space s' va ≡ none)
map-unmapped space va pa old ht s ok low high va_aligned pa_aligned found =
    let root = baseof (s.words space) in
    let (e, path, on) =
      found-Route ht 3 root s.words va old (omega arith) (omega arith) ok.root_table ok.well_formed
        found in
    let s' = record s { words = set_entry s.words e 0 } in
    let apart = ok.root_apart in
    let end_height = Route-end ht 3 root s.words va e path in
    let ne : space ≢ e =
      λ eq. absurd (omega (arith, sym apart ∙ ap (λ x. ht (baseof x)) eq ∙ end_height)) in
    let other = ne→== space e ne in
    let same : s'.words space ≡ s.words space = rw other refl in
    let root_on : present (s'.words space) ≡ true = ap present same ∙ ok.root_on in
    let after : Route ht 3 root s'.words va e = Route-set_entry ht 3 root s.words va e 0 path in
    let again =
      ptwalk-root space va (1 ∷ 2 ∷ []) s' root_on
      ∙ ap (λ x. walk 3 1 (baseof x) va (1 ∷ 2 ∷ []) s') same
      ∙ walk-Route ht 3 1 root va e (1 ∷ 2 ∷ []) s' (omega arith) refl after in
    let at_e : s'.words e ≡ 0 = rw (eq→== e e refl) refl in
    (
      s',
      map-stored space va pa 0 ht s e s 0 low high va_aligned pa_aligned
          (ptwalk-root space va (1 ∷ 2 ∷ []) s ok.root_on
            ∙ walk-Route ht 3 1 root va e (1 ∷ 2 ∷ []) s (omega arith) refl path)
          (rw on refl) again,
      record {
        root_on = root_on;
        root_apart = apart;
        root_table =
            IsTable-kept ht ht 3 (s.words space) (s'.words space) ok.root_table (omega arith)
              (λ q busy. refl) same;
        well_formed = WellFormed-set_entry ht s.words e 0 end_height ok.well_formed;
        fresh = ok.fresh;
      },
      ap (λ x. translate 3 (baseof x) s'.words va) same
          ∙ translate-Route ht 3 root s'.words va e after
          ∙ ap (λ x. if present x then some (baseof x + va % 4096) else none) at_e,
    )
