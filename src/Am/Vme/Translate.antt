-- ===== src/Am/Vme/Translate.antt =====
-- The walk of the processor over the tables of abstract-machine/am/src/x86/qemu/vme.c, and which
-- words are tables.
use njuoslab_l1_kmalloc_kfre.Base.{
  ℕ, zero, suc, ◌+◌, ◌*◌, ◌/◌, ◌%◌, ◌^◌, ◌<◌, ◌≤◌, ◌≡◌, ◌≢◌, refl, ◌∙◌, arith, ◌==◌, ◌&&◌, ltb, leb,
  if◌then◌else◌, true, false, Option, none, some, List, [], ◌∷◌,
}
use njuoslab_l1_kmalloc_kfre.Am.Vme.{
  Words, set_entry, pgtables, indexof, baseof, present, or_bits, entry_at, zero_words,
}

-- The index of an address in a table with this number of levels below it.
abbrev pub index_of : (below addr : ℕ) → ℕ
index_of below addr = addr / 2 ^ (12 + 9 * below) % 512

abbrev pub slot : (below table addr : ℕ) → ℕ
slot below table addr = entry_at table (index_of below addr)

-- The processor's translation, from a table on.
unfoldable pub translate : (below table : ℕ) → Words → (addr : ℕ) → Option ℕ
translate zero table words addr =
    let entry = words (slot zero table addr) in
    if present entry then some (baseof entry + addr % 4096) else none
translate (suc k) table words addr =
    let entry = words (slot (suc k) table addr) in
    elim (present entry) [ false ↦ none | true ↦ translate k (baseof entry) words addr ]

-- The height of a page: the levels below it for a table, 8 for the page of `as->ptr`, and 9 for a page
-- that is still free.
abbrev pub Height : Type 0
Height = ℕ → ℕ

-- A table and its height.
abbrev pub IsTable : Height → (below table : ℕ) → Type 0
IsTable ht below table = (table % 4096 ≡ 0) × (ht table ≡ below)

-- An entry of a table leads to a table of the next height. The first entry of the top table, which all
-- address spaces share with the kernel, may lead anywhere.
abbrev pub WellFormed : Height → Words → Type 0
WellFormed ht words =
    (k table i : ℕ)
    → k < 3
    → k < i + 2
    → IsTable ht (suc k) table
    → i < 512
    → present (words (entry_at table i)) ≡ true
    → ht (baseof (words (entry_at table i))) ≡ k

unfoldable pub Apart : ℕ → List ℕ → Type 0
Apart p [] = Unit
Apart p (q ∷ rest) = (q ≢ p) × Apart p rest

-- The pages that `pgalloc` will return are different pages, and free.
unfoldable pub Fresh : Height → List ℕ → Type 0
Fresh ht [] = Unit
Fresh ht (p ∷ rest) = ((p % 4096 ≡ 0) × (p ≢ 0) × (ht p ≡ 9)) × Apart p rest × Fresh ht rest

-- The path of an address through present entries to its entry in the last table.
unfoldable pub Route : Height → (below table : ℕ) → Words → (addr e : ℕ) → Type 0
Route ht zero table words addr e = IsTable ht zero table × (e ≡ slot zero table addr)
Route ht (suc k) table words addr e =
    IsTable ht (suc k) table
    × (present (words (slot (suc k) table addr)) ≡ true)
    × Route ht k (baseof (words (slot (suc k) table addr))) words addr e

-- A page that is allocated gets a height.
abbrev pub set_height : Height → (p h : ℕ) → Height
set_height ht p h q = if q == p then h else ht q

pub Fresh-set_height :
    (ht : Height) (p h : ℕ) (pool : List ℕ)
    → Apart p pool
    → Fresh ht pool
    → Fresh (set_height ht p h) pool
unfolding Apart Fresh
Fresh-set_height ht p h [] apart fresh = fresh
Fresh-set_height ht p h (q ∷ rest) (ne, apart) ((aligned, nonzero, free), others, fresh) =
    let same : set_height ht p h q ≡ 9 = ground arith in
    ((aligned, nonzero, same), others, Fresh-set_height ht p h rest apart fresh)

pub index_of-lt : (below addr : ℕ) → index_of below addr < 512
index_of-lt below addr = omega arith

pub baseof-entry_at : (table i : ℕ) → table % 4096 ≡ 0 → i < 512 → baseof (entry_at table i) ≡ table
baseof-entry_at table i aligned h = omega arith

pub baseof-aligned : (v : ℕ) → baseof v % 4096 ≡ 0
baseof-aligned v = omega arith

pub or_bits-aligned : (p : ℕ) → p % 4096 ≡ 0 → or_bits (0 ∷ 1 ∷ 2 ∷ []) p ≡ p + 7
unfolding or_bits
or_bits-aligned p aligned = ground arith

-- The index that `ptwalk` computes.
pub indexof-index_of :
    (below level addr : ℕ)
    → 1 ≤ level
    → level + below ≡ 4
    → indexof addr (pgtables level) ≡ index_of below addr
indexof-index_of zero level addr h e = let four : level ≡ 4 = omega arith in rw four refl
indexof-index_of (suc zero) level addr h e = let three : level ≡ 3 = omega arith in rw three refl
indexof-index_of (suc (suc zero)) level addr h e = let two : level ≡ 2 = omega arith in rw two refl
indexof-index_of (suc (suc (suc zero))) level addr h e =
    let one : level ≡ 1 = omega arith in rw one refl
indexof-index_of (suc (suc (suc (suc k)))) level addr h e = absurd (omega arith)

pub zero_words-outside :
    (k i base : ℕ) (words : Words) (x : ℕ)
    → base % 4096 ≡ 0
    → i + k ≤ 512
    → baseof x ≢ base
    → zero_words k i base words x ≡ words x
unfolding zero_words
zero_words-outside zero i base words x aligned h ne = refl
zero_words-outside (suc k) i base words x aligned h ne =
    zero_words-outside k (i + 1) base (set_entry words (entry_at base i) 0) x aligned (omega arith)
      ne
    ∙ ground arith

zero_words-from :
    (k i base : ℕ) (words : Words) (j : ℕ)
    → zero_words k i base words (entry_at base j)
      ≡ (if leb i j && ltb j (i + k) then 0 else words (entry_at base j))
unfolding zero_words
zero_words-from zero i base words j = ground arith
zero_words-from (suc k) i base words j =
    zero_words-from k (i + 1) base (set_entry words (entry_at base i) 0) j ∙ ground arith

pub zero_words-inside :
    (base : ℕ) (words : Words) (j : ℕ) → j < 512 → zero_words 512 0 base words (entry_at base j) ≡ 0
zero_words-inside base words j h = zero_words-from 512 0 base words j ∙ ground arith
