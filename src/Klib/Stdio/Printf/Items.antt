-- ===== src/Klib/Stdio/Printf/Items.antt =====
-- Formats as `printf` of abstract-machine/klib/src/stdio.c reads them: behind a conversion the next
-- character is printed as it is.
use njuoslab_l1_kmalloc_kfre.Base.{
  ℕ, ◌+◌, ◌%◌, ◌<◌, ◌≡◌, ◌≢◌, ◌==◌, if◌then◌else◌, List, [], ◌∷◌, ◌++◌, length,
}
use njuoslab_l1_kmalloc_kfre.Base.Words.{u32}
use njuoslab_l1_kmalloc_kfre.Machine.Memory.{Mem}
use njuoslab_l1_kmalloc_kfre.Klib.Text.Length.{IsString}
use njuoslab_l1_kmalloc_kfre.Klib.Stdio.{decimal, binary, hexadecimal}

pub data Conversion : Type 0 where
  percent : Conversion
  character hexadecimal_number binary_number decimal_number : ℕ → Conversion
  string : ℕ → List ℕ → Conversion

-- A character, or a conversion with the character behind it, or `%` before a character that is no
-- conversion.
pub data Item : Type 0 where
  plain : ℕ → Item
  converted : Conversion → ℕ → Item
  unknown : ℕ → Item

abbrev pub conversion_text : Conversion → List ℕ
conversion_text percent = b'%' ∷ []
conversion_text (character v) = v % 256 ∷ []
conversion_text (hexadecimal_number v) = hexadecimal v
conversion_text (binary_number v) = binary (u32 v)
conversion_text (decimal_number v) = decimal (u32 v)
conversion_text (string a cs) = cs

abbrev pub item_text : Item → List ℕ
item_text (plain c) = c ∷ []
item_text (converted k next) = conversion_text k ++ (next ∷ [])
item_text (unknown c) = c ∷ []

-- What the item adds to the result: a tab counts four.
abbrev pub item_width : Item → ℕ
item_width (plain c) = if c == 9 then 4 else 1
item_width (converted k next) = length (conversion_text k) + 1
item_width (unknown c) = 1

abbrev pub items_text : List Item → List ℕ
items_text [] = []
items_text (i ∷ is) = item_text i ++ items_text is

abbrev pub items_width : List Item → ℕ
items_width [] = 0
items_width (i ∷ is) = item_width i + items_width is

-- The character of a conversion.
abbrev pub conversion_char : Conversion → ℕ
conversion_char percent = b'%'
conversion_char (character v) = b'c'
conversion_char (hexadecimal_number v) = b'x'
conversion_char (binary_number v) = b'b'
conversion_char (decimal_number v) = b'd'
conversion_char (string a cs) = b's'

abbrev pub Takes : Mem → (fuel : ℕ) → Conversion → (args rest : List ℕ) → Type 0
Takes m fuel percent args rest = args ≡ rest
Takes m fuel (character v) args rest = args ≡ (v ∷ rest)
Takes m fuel (hexadecimal_number v) args rest = args ≡ (v ∷ rest)
Takes m fuel (binary_number v) args rest = args ≡ (v ∷ rest)
Takes m fuel (decimal_number v) args rest = args ≡ (v ∷ rest)
Takes m fuel (string a cs) args rest =
    (args ≡ (a ∷ rest)) × (0 < a) × IsString m a cs × (length cs < fuel)

-- A character that begins no conversion.
abbrev pub IsUnknown : ℕ → Type 0
IsUnknown c = (c ≢ b'%') × (c ≢ b'c') × (c ≢ b'x') × (c ≢ b'b') × (c ≢ b'd') × (c ≢ b's')

-- The items stand at `p`, up to a byte 0 where `printf` looks for the next item.
pub data Reads (m : Mem) (fuel : ℕ) : (p : ℕ) → List Item → List ℕ → Type 0 where
  ends : {p : ℕ} {args : List ℕ} → 0 < p → m p ≡ 0 → Reads m fuel p [] args
  reads_plain :
      {p c : ℕ} {is : List Item} {args : List ℕ}
      → 0 < p
      → m p ≡ c
      → c ≢ 0
      → c ≢ b'%'
      → Reads m fuel (p + 1) is args
      → Reads m fuel p (plain c ∷ is) args
  reads_converted :
      {p next : ℕ} {k : Conversion} {is : List Item} {args rest : List ℕ}
      → 0 < p
      → m p ≡ b'%'
      → m (p + 1) ≡ conversion_char k
      → m (p + 2) ≡ next
      → Takes m fuel k args rest
      → Reads m fuel (p + 3) is rest
      → Reads m fuel p (converted k next ∷ is) args
  reads_unknown :
      {p c : ℕ} {is : List Item} {args : List ℕ}
      → 0 < p
      → m p ≡ b'%'
      → m (p + 1) ≡ c
      → IsUnknown c
      → Reads m fuel (p + 2) is args
      → Reads m fuel p (unknown c ∷ is) args
