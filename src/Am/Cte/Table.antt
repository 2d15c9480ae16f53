-- ===== src/Am/Cte/Table.antt =====
-- The table of interrupts that `cte_init` of abstract-machine/am/src/x86/qemu/cte.c fills.
use njuoslab_l1_kmalloc_kfre.Base.{
  ℕ, zero, suc, ◌^◌, ◌<◌, ◌≡◌, refl, ap, ◌∙◌, arith, ◌==◌, ◌&&◌, ◌||◌, leb, if◌then◌else◌, Bool,
  true, false, Option, some, ==→eq,
}
use njuoslab_l1_kmalloc_kfre.Am.Gate.{
  GateDesc64, gate64, gate_offset, gate_offset-gate64, dpl_kern, dpl_user, ksel, sts_tg,
}
use njuoslab_l1_kmalloc_kfre.Am.Cte.{
  Context, Event, Entry, irqall, irq, vectors, set_entries, idt, cte_init,
}

-- Exceptions 0 to 16 and 19, the spurious interrupt 31, the sixteen interrupts of devices, and the two
-- that user programs may raise.
abbrev pub has_entry : ℕ → Bool
has_entry i = leb i 16 || (i == 19 || (leb 31 i && leb i 47 || (i == 128 || i == 129)))

abbrev pub entry_of : ℕ → Entry
entry_of i = if has_entry i then irq i else irqall

abbrev pub level_of : ℕ → ℕ
level_of i = if i == 128 || i == 129 then dpl_user else dpl_kern

-- Equal numbers mean equal entries.
code : Entry → ℕ
code irqall = 0
code (irq i) = suc i

code_injective : (a b : Entry) → code a ≡ code b → a ≡ b
unfolding code
code_injective irqall irqall e = refl
code_injective irqall (irq i) e = absurd (omega arith)
code_injective (irq i) irqall e = absurd (omega arith)
code_injective (irq i) (irq j) e = ap irq (omega arith)

agrees_at : ℕ → Bool
agrees_at i = (code (vectors i).entry == code (entry_of i)) && ((vectors i).dpl == level_of i)

all_below : ℕ → (ℕ → Bool) → Bool
all_below zero p = true
all_below (suc n) p = p n && all_below n p

all_below-at : (n : ℕ) (p : ℕ → Bool) (x : ℕ) → all_below n p ≡ true → x < n → p x ≡ true
unfolding all_below
all_below-at zero p x h lt = absurd (omega arith)
all_below-at (suc n) p x h lt = ground (arith, all_below-at n p x)

agrees_below : all_below 256 agrees_at ≡ true
unfolding all_below agrees_at code vectors set_entries
agrees_below = refl

both_true : (a b : Bool) → (a && b) ≡ true → (a ≡ true) × (b ≡ true)
both_true true b h = (refl, h)
both_true false b h = absurd (ground arith)

vectors-entry :
    (i : ℕ) → i < 256 → ((vectors i).entry ≡ entry_of i) × ((vectors i).dpl ≡ level_of i)
unfolding agrees_at
vectors-entry i h =
    let (same_entry, same_level) =
      both_true (code (vectors i).entry == code (entry_of i)) ((vectors i).dpl == level_of i)
        (all_below-at 256 agrees_at i agrees_below h) in
    (
      code_injective (vectors i).entry (entry_of i)
          (==→eq (code (vectors i).entry) (code (entry_of i)) same_entry),
      ==→eq (vectors i).dpl (level_of i) same_level,
    )

-- `cte_init` on the first CPU fills the table so that each interrupt below 256 leads to the entry of its
-- number, where it has one, and else to `__am_irqall`, at the level of the kernel but for 128 and 129,
-- where the addresses of the entries fit 64 bits; each is present, a trap gate, and in code segment 1.
pub cte_init-gates :
    (address : Entry → ℕ) (handler : Event → Context → Option Context) (i : ℕ)
    → ((e : Entry) → address e < 2 ^ 64)
    → i < 256
    → (table : ℕ → GateDesc64) × (cte_init address 0 (some handler) ≡ some (table, handler))
      × (gate_offset (table i) ≡ address (entry_of i))
      × ((table i).dpl ≡ level_of i)
      × ((table i).p ≡ 1)
      × ((table i).type ≡ 0xf)
      × ((table i).cs ≡ 8)
unfolding cte_init idt gate64
cte_init-gates address handler i fits h =
    let (e, l) = vectors-entry i h in
    (
      idt address,
      refl,
      gate_offset-gate64 sts_tg (ksel 1) (address (vectors i).entry) (vectors i).dpl
            (fits (vectors i).entry)
          ∙ ap address e,
      l,
      refl,
      refl,
      refl,
    )
