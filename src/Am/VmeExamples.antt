-- ===== src/Am/VmeExamples.antt =====
-- The theorems on page tables at concrete tables.
use njuoslab_l1_kmalloc_kfre.Base.{
  ℕ, ◌<◌, ◌≤◌, ◌≡◌, refl, arith, ◌==◌, if◌then◌else◌, none, some, [], ◌∷◌,
}
use njuoslab_l1_kmalloc_kfre.Am.Vme.{Vm, protect, map, uvm_area}
use njuoslab_l1_kmalloc_kfre.Am.Vme.Translate.{Height, WellFormed, Apart, Fresh, translate}
use njuoslab_l1_kmalloc_kfre.Am.Vme.Map.{IsSpace, lookup, map-translated, map-unmapped}
use njuoslab_l1_kmalloc_kfre.Am.Vme.Protect.{protect-IsSpace}

-- Four free pages, and no table.
abbrev no_tables : Vm
no_tables = record { words = λ _. 0; pool = 0x5000 ∷ 0x6000 ∷ 0x7000 ∷ 0x8000 ∷ []; freed = [] }

abbrev no_heights : Height
no_heights q = if q == 0 then 8 else 9

no_tables-WellFormed : WellFormed no_heights no_tables.words
no_tables-WellFormed k table i hk own is_table hi on = absurd (ground arith)

no_tables-Fresh : Fresh no_heights no_tables.pool
unfolding Fresh Apart
no_tables-Fresh = (
  (refl, omega arith, refl),
  (omega arith, (omega arith, (omega arith, record {}))),
  (
    (refl, omega arith, refl),
    (omega arith, (omega arith, record {})),
    (
      (refl, omega arith, refl),
      (omega arith, record {}),
      ((refl, omega arith, refl), record {}, record {}),
    ),
  ),
)

protect-IsSpace_example :
    (ht' : Height) × (s' : Vm) × (protect 0x1000 0x100 no_tables ≡ some s')
    × IsSpace ht' 0x100 s'
    × ((va : ℕ) → uvm_area.start ≤ va → va < uvm_area.end → lookup 0x100 s' va ≡ none)
protect-IsSpace_example =
    protect-IsSpace 0x1000 0x100 no_heights no_tables no_tables-WellFormed no_tables-Fresh
      (omega arith) refl

-- An empty address space.
abbrev empty_space : Vm
empty_space = record {
  words = λ x. if x == 0x100 then 0x5005 else 0;
  pool = 0x6000 ∷ 0x7000 ∷ 0x8000 ∷ [];
  freed = [];
}

abbrev top_height : Height
top_height q = if q == 0x5000 then 3 else if q == 0 then 8 else 9

empty_space-WellFormed : WellFormed top_height empty_space.words
empty_space-WellFormed k table i hk own (aligned, height) hi on = absurd (ground arith)

empty_space-Fresh : Fresh top_height empty_space.pool
unfolding Fresh Apart
empty_space-Fresh = (
  (refl, omega arith, refl),
  (omega arith, (omega arith, record {})),
  (
    (refl, omega arith, refl),
    (omega arith, record {}),
    ((refl, omega arith, refl), record {}, record {}),
  ),
)

empty_space-IsSpace : IsSpace top_height 0x100 empty_space
empty_space-IsSpace = record {
  root_on = refl;
  root_apart = refl;
  root_table = (refl, refl);
  well_formed = empty_space-WellFormed;
  fresh = empty_space-Fresh;
}

empty_space-lookup : lookup 0x100 empty_space 0x100000003000 ≡ none
unfolding translate
empty_space-lookup = refl

map-translated_example :
    (ht' : Height) × (s' : Vm) × (map 0x100 0x100000003000 0x9000 3 empty_space ≡ some s')
    × IsSpace ht' 0x100 s'
    × (lookup 0x100 s' 0x100000003000 ≡ some 0x9000)
map-translated_example =
    map-translated 0x100 0x100000003000 0x9000 3 top_height empty_space empty_space-IsSpace
      (omega arith) (omega arith) refl refl (omega arith) empty_space-lookup (omega arith)

-- An address space that maps one page.
abbrev one_page : Vm
one_page = record {
  words = λ x.
      if x == 0x100
      then 0x5005
      else if x == 0x5100
      then 0x6007
      else if x == 0x6000
      then 0x7007
      else if x == 0x7000
      then 0x8007
      else if x == 0x8018
      then 0x9007
      else 0;
  pool = [];
  freed = [];
}

abbrev heights : Height
heights q =
    if q == 0x5000
    then 3
    else if q == 0x6000
    then 2
    else if q == 0x7000
    then 1
    else if q == 0x8000
    then 0
    else if q == 0
    then 8
    else 9

one_page-WellFormed : WellFormed heights one_page.words
one_page-WellFormed k table i hk own (aligned, height) hi on = ground arith

one_page-Fresh : Fresh heights one_page.pool
unfolding Fresh
one_page-Fresh = record {}

one_page-IsSpace : IsSpace heights 0x100 one_page
one_page-IsSpace = record {
  root_on = refl;
  root_apart = refl;
  root_table = (refl, refl);
  well_formed = one_page-WellFormed;
  fresh = one_page-Fresh;
}

one_page-lookup : lookup 0x100 one_page 0x100000003000 ≡ some 0x9000
unfolding translate
one_page-lookup = refl

map-unmapped_example :
    (s' : Vm) × (map 0x100 0x100000003000 0 0 one_page ≡ some s')
    × IsSpace heights 0x100 s'
    × (lookup 0x100 s' 0x100000003000 ≡ none)
map-unmapped_example =
    map-unmapped 0x100 0x100000003000 0 0x9000 heights one_page one_page-IsSpace (omega arith)
      (omega arith) refl refl one_page-lookup
