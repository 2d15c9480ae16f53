-- ===== src/Klib/Examples.antt =====
-- The theorems on string.c at two short strings in memory.
use njuoslab_l1_kmalloc_kfre.Base.{
  ℕ, ◌+◌, ◌≡◌, ◌<◌, List, [], ◌∷◌, arith, refl, inr, ◌==◌, if◌then◌else◌,
}
use njuoslab_l1_kmalloc_kfre.Machine.{State, ok}
use njuoslab_l1_kmalloc_kfre.Machine.Memory.{Mem}
use njuoslab_l1_kmalloc_kfre.Klib.Copy.{memmove, memcpy, memcmp}
use njuoslab_l1_kmalloc_kfre.Klib.Copy.Laws.{copied, with_bytes, memmove-copied, memcpy-copied}
use njuoslab_l1_kmalloc_kfre.Klib.Text.{strcpy, strncpy, strcat, strcmp, strncmp, minus_one}
use njuoslab_l1_kmalloc_kfre.Klib.Text.Strncmp.{strncmp-order}
use njuoslab_l1_kmalloc_kfre.Klib.Copy.Compare.{Compared, memcmp-Compared}
use njuoslab_l1_kmalloc_kfre.Klib.Text.Strncpy.{ended, strncpy-ended}
use njuoslab_l1_kmalloc_kfre.Klib.Text.Strcat.{strcat-copied}
use njuoslab_l1_kmalloc_kfre.Klib.Text.Length.{IsString}
use njuoslab_l1_kmalloc_kfre.Klib.Text.Strcpy.{strcpy-copied}
use njuoslab_l1_kmalloc_kfre.Klib.Text.Order.{strcmp-order}

-- These bytes from `p` on, and `m` elsewhere.
abbrev holding : ℕ → List ℕ → Mem → Mem
holding p [] m = m
holding p (c ∷ cs) m = λ b. if b == p then c else holding (p + 1) cs m b

-- "abc" and "abd".
abbrev first_text : List ℕ
first_text = 97 ∷ 98 ∷ 99 ∷ []

abbrev second_text : List ℕ
second_text = 97 ∷ 98 ∷ 100 ∷ []

abbrev texts : State
texts = record {
  mem = holding 0x1000 first_text (holding 0x2000 second_text (λ _. 0));
  head = 0;
  heap_lock = 0;
  page_head = λ _. 0;
  page_lock = λ _. 0;
}

first_text-IsString : IsString texts.mem 0x1000 first_text
first_text-IsString = (omega arith, refl, (omega arith, refl, (omega arith, refl, refl)))

second_text-IsString : IsString texts.mem 0x2000 second_text
second_text-IsString = (omega arith, refl, (omega arith, refl, (omega arith, refl, refl)))

memmove-copied_example :
    memmove 0x1001 0x1000 2 texts ≡ ok 0x1001 (with_bytes texts (copied texts.mem 0x1001 0x1000 2))
memmove-copied_example = memmove-copied 0x1001 0x1000 2 texts (omega arith) (omega arith)

memcpy-copied_example :
    memcpy 0x2000 0x1000 3 texts
    ≡ ok (0x2000 + 3) (with_bytes texts (copied texts.mem 0x2000 0x1000 3))
memcpy-copied_example =
    memcpy-copied 0x2000 0x1000 3 texts (omega arith) (omega arith) (inr (omega arith))

strcpy-copied_example :
    (strcpy 4 0x2000 0x1000 texts ≡ ok 0x2000 (with_bytes texts (copied texts.mem 0x2000 0x1000 4)))
    × IsString (copied texts.mem 0x2000 0x1000 4) 0x2000 first_text
strcpy-copied_example =
    strcpy-copied 0x2000 0x1000 first_text texts (inr (omega arith)) first_text-IsString 4
      (omega arith) (omega arith) (omega arith) (omega arith)

strcmp-order_example : strcmp 4 0x1000 0x2000 texts ≡ ok minus_one texts
strcmp-order_example =
    strcmp-order 4 0x1000 0x2000 first_text second_text texts (omega arith) (omega arith)
      first_text-IsString second_text-IsString (omega arith, (omega arith, (omega arith, tt)))
      (omega arith, (omega arith, (omega arith, tt))) (omega arith) (omega arith) (omega arith)

texts_bytes : (a : ℕ) → texts.mem a < 256
texts_bytes a = ground arith

memcmp-Compared_example :
    (r : ℕ) × (memcmp 0x1000 0x2000 3 texts ≡ ok r texts) × Compared texts.mem 0x1000 0x2000 3 r
memcmp-Compared_example =
    memcmp-Compared 0x1000 0x2000 3 texts (omega arith) (omega arith) texts_bytes

strncpy-ended_example :
    (strncpy 4 0x2000 0x1000 2 texts
      ≡ ok 0x2000 (with_bytes texts (ended texts.mem 0x2000 0x1000 2 first_text)))
    × IsString (ended texts.mem 0x2000 0x1000 2 first_text) 0x2000 (97 ∷ 98 ∷ [])
strncpy-ended_example =
    strncpy-ended 4 0x2000 0x1000 2 first_text texts (omega arith) (omega arith) (inr (omega arith))
      first_text-IsString (omega arith) (omega arith)

strcat-copied_example :
    (strcat 7 0x2000 0x1000 texts
      ≡ ok 0x2000 (with_bytes texts (copied texts.mem (0x2000 + 3) 0x1000 4)))
    × IsString (copied texts.mem (0x2000 + 3) 0x1000 4) 0x2000 (97 ∷ 98 ∷ 100 ∷ 97 ∷ 98 ∷ 99 ∷ [])
strcat-copied_example =
    strcat-copied 7 0x2000 0x1000 second_text first_text texts (omega arith) (omega arith)
      second_text-IsString first_text-IsString (inr (omega arith)) (omega arith) (omega arith)
      (omega arith)

strncmp-order_example : strncmp 4 0x1000 0x2000 2 texts ≡ ok 0 texts
strncmp-order_example =
    strncmp-order 4 0x1000 0x2000 2 first_text second_text texts (omega arith) (omega arith)
      first_text-IsString second_text-IsString (omega arith, (omega arith, (omega arith, tt)))
      (omega arith, (omega arith, (omega arith, tt))) (omega arith) (omega arith) (omega arith)
