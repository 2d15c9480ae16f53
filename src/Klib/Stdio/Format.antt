-- ===== src/Klib/Stdio/Format.antt =====
-- Formats of stdio.c as lists of directives: how they stand in memory, and what they print.
use njuoslab_l1_kmalloc_kfre.Base.{ℕ, ◌+◌, ◌%◌, ◌≤◌, ◌<◌, ◌≡◌, ◌≢◌, ◌⊎◌, List, [], ◌∷◌, ◌++◌}
use njuoslab_l1_kmalloc_kfre.Base.Words.{u32}
use njuoslab_l1_kmalloc_kfre.Machine.Memory.{Mem, write}
use njuoslab_l1_kmalloc_kfre.Klib.Stdio.Signed.{signed_text}

pub data Directive : Type 0 where
  literal : ℕ → Directive
  percent : Directive
  number : ℕ → Directive
  character : ℕ → Directive
  string : List ℕ → Directive

-- What it stands for.
abbrev pub render_one : Directive → List ℕ
render_one (literal c) = c ∷ []
render_one percent = b'%' ∷ []
render_one (number v) = signed_text (u32 v)
render_one (character v) = v % 256 ∷ []
render_one (string cs) = cs

abbrev pub render : List Directive → List ℕ
render [] = []
render (d ∷ ds) = render_one d ++ render ds

-- The bytes of the output are `lo`, …, `hi - 1`; a byte that is read is none of them.
abbrev pub Apart : (lo hi p : ℕ) → Type 0
Apart lo hi p = (p < lo) ⊎ (hi ≤ p)

module _ (m : Mem) (lo hi : ℕ) where
  -- A string apart from the output.
  abbrev pub StringApart : ℕ → List ℕ → Type 0
  StringApart p [] = Apart lo hi p × (m p ≡ 0)
  StringApart p (c ∷ cs) = Apart lo hi p × (c ≢ 0) × (m p ≡ c) × StringApart (p + 1) cs

  -- `%` and the character of a conversion.
  abbrev pub Conversion : (p c : ℕ) → Type 0
  Conversion p c = (0 < p) × Apart lo hi p × Apart lo hi (p + 1) × (m p ≡ b'%') × (m (p + 1) ≡ c)

  -- The directives stand at `p` as a format, and the arguments are theirs.
  abbrev pub Supplied : ℕ → List Directive → List ℕ → Type 0
  Supplied p [] args = (0 < p) × Apart lo hi p × (m p ≡ 0)
  Supplied p (literal c ∷ ds) args =
      (0 < p) × Apart lo hi p × (c ≢ 0) × (c ≢ b'%') × (m p ≡ c) × Supplied (p + 1) ds args
  Supplied p (percent ∷ ds) args = Conversion p b'%' × Supplied (p + 2) ds args
  Supplied p (number v ∷ ds) [] = ⊥
  Supplied p (number v ∷ ds) (a ∷ args) = Conversion p b'd' × (a ≡ v) × Supplied (p + 2) ds args
  Supplied p (character v ∷ ds) [] = ⊥
  Supplied p (character v ∷ ds) (a ∷ args) = Conversion p b'c' × (a ≡ v) × Supplied (p + 2) ds args
  Supplied p (string cs ∷ ds) [] = ⊥
  Supplied p (string cs ∷ ds) (a ∷ args) =
      Conversion p b's' × (0 < a) × StringApart a cs × Supplied (p + 2) ds args

-- The characters at `a`, `a + 1`, …
abbrev pub put : Mem → ℕ → List ℕ → Mem
put m a [] = m
put m a (c ∷ cs) = put (write m a c) (a + 1) cs
