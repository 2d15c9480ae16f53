-- ===== src/Machine.antt =====
-- The machine that the kernel runs on: memory, the locks and page lists that pmm.c keeps in global
-- variables, and commands over them. A memory holds one number for each address at which the
-- allocator keeps a field; its structures are 16 bytes long, at offsets 0, 8 and 12, so that two
-- fields never overlap in part.
pub mod Memory
pub mod Fields
pub mod Returns
use njuoslab_l1_kmalloc_kfre.Base.{
  ℕ, ◌+◌, ◌<◌, ◌≡◌, Bool, true, false, ◌&&◌, ltb, leb, ◌==◌, if◌then◌else◌,
}
use njuoslab_l1_kmalloc_kfre.Base.Words.{u32}
use njuoslab_l1_kmalloc_kfre.Machine.Memory.{Mem, write, clear}

-- The global variables of pmm.c (`head`, `heap_lock`, `cpupagelist`) and the memory.
pub record State : Type 0 where
  pub mem : Mem
  pub head : ℕ
  pub heap_lock : ℕ
  pub page_head : ℕ → ℕ
  pub page_lock : ℕ → ℕ

-- Why a run stops: a failed `assert`, an access through NULL, a spin on a lock that nobody
-- releases, `panic_on`, `va_arg` behind the last argument, `halt`, and the model's own bound on loops.
pub data Fault : Type 0 where
  assertion null_access deadlock panic no_argument halted out_of_fuel : Fault

pub data Run (A : Type 0) : Type 0 where
  ok : A → State → Run A
  stop : Fault → Run A

abbrev pub Cmd : Type 0 → Type 0
Cmd A = State → Run A

abbrev pub pure : {A : Type 0} → A → Cmd A
pure = ok

module _ {A B : Type 0} where
  abbrev pub and_then : Run A → (A → Cmd B) → Run B
  and_then (ok a s) k = k a s
  and_then (stop f) k = stop f

  infixl 5 ◌>>=◌ ◌>>◌
  abbrev pub ◌>>=◌ : Cmd A → (A → Cmd B) → Cmd B
  m >>= k = λ s. and_then (m s) k

  abbrev pub ◌>>◌ : Cmd A → Cmd B → Cmd B
  m >> n = m >>= λ _. n

abbrev pub fail : {A : Type 0} → Fault → Cmd A
fail f s = stop f

-- `assert(cond)` of klib.h: without NDEBUG a false condition halts.
abbrev pub check : Bool → Cmd (Unit {0})
check true s = ok tt s
check false s = stop Fault.assertion

-- The address of an access, unless it goes through NULL.
abbrev pub deref : ℕ → Cmd (Unit {0})
deref p s = if p == 0 then stop Fault.null_access else ok tt s

abbrev pub load : ℕ → Cmd ℕ
load a s = ok (s.mem a) s

abbrev pub store : ℕ → ℕ → Cmd (Unit {0})
store a v s = ok tt (record s { mem = write s.mem a v })

-- The fields of the four structures of common.h, which have one layout: `next` (or `nothing`) at
-- 0, the `int size` at 8, and `magic` or `pagefreehead_index` at 12.
unfoldable pub get_next : ℕ → Cmd ℕ
get_next p = deref p >> load p

unfoldable pub get_size : ℕ → Cmd ℕ
get_size p = deref p >> load (p + 8)

unfoldable pub get_word : ℕ → Cmd ℕ
get_word p = deref p >> load (p + 12)

unfoldable pub set_next : ℕ → ℕ → Cmd (Unit {0})
set_next p v = deref p >> store p v

unfoldable pub set_size : ℕ → ℕ → Cmd (Unit {0})
set_size p v = deref p >> store (p + 8) (u32 v)

unfoldable pub set_word : ℕ → ℕ → Cmd (Unit {0})
set_word p v = deref p >> store (p + 12) (u32 v)

-- An `int` that a program keeps in its own block.
unfoldable pub get_int : ℕ → Cmd ℕ
get_int p = deref p >> load p

unfoldable pub set_int : ℕ → ℕ → Cmd (Unit {0})
set_int p v = deref p >> store p (u32 v)

-- `memset(p, 0, n)`: what the loop of string.c does with 0 (see Klib/Copy/Laws).
unfoldable pub zero_range : ℕ → ℕ → Cmd (Unit {0})
zero_range p n s = ok tt (record s { mem = clear s.mem p n })

abbrev pub get_head : Cmd ℕ
get_head s = ok s.head s

abbrev pub set_head : ℕ → Cmd (Unit {0})
set_head v s = ok tt (record s { head = v })

abbrev pub get_page_head : ℕ → Cmd ℕ
get_page_head i s = ok (s.page_head i) s

abbrev pub update : (ℕ → ℕ) → ℕ → ℕ → ℕ → ℕ
update f i v j = if j == i then v else f j

abbrev pub set_page_head : ℕ → ℕ → Cmd (Unit {0})
set_page_head i v s = ok tt (record s { page_head = update s.page_head i v })
