-- ===== src/Am/Gate.antt =====
-- Descriptors of abstract-machine/am/src/x86/x86.h: the fields that an address is split into, and the
-- table of interrupts.
use njuoslab_l1_kmalloc_kfre.Base.{ℕ, ◌+◌, ◌*◌, ◌/◌, ◌%◌, ◌^◌, ◌<◌, ◌≡◌, arith, List, [], ◌∷◌}

abbrev pub dpl_kern : ℕ
dpl_kern = 0

abbrev pub dpl_user : ℕ
dpl_user = 3

abbrev pub sts_tg : ℕ
sts_tg = 0xf

-- `(seg << 3) | DPL_KERN` and `(seg << 3) | DPL_USER`, which have no bit in common.
abbrev pub ksel : ℕ → ℕ
ksel seg = seg * 8 + dpl_kern

abbrev pub usel : ℕ → ℕ
usel seg = seg * 8 + dpl_user

-- `GateDesc64` without the fields that are always 0.
pub record GateDesc64 : Type 0 where
  pub off_15_0 : ℕ
  pub cs : ℕ
  pub type : ℕ
  pub dpl : ℕ
  pub p : ℕ
  pub off_31_16 : ℕ
  pub off_63_32 : ℕ

unfoldable pub gate64 : (type cs entry dpl : ℕ) → GateDesc64
gate64 type cs entry dpl = record {
  off_15_0 = entry % 2 ^ 16;
  cs = cs;
  type = type;
  dpl = dpl;
  p = 1;
  off_31_16 = entry / 2 ^ 16 % 2 ^ 16;
  off_63_32 = entry / 2 ^ 32 % 2 ^ 32;
}

-- The address that the processor puts together from a gate.
abbrev pub gate_offset : GateDesc64 → ℕ
gate_offset g = g.off_15_0 + g.off_31_16 * 2 ^ 16 + g.off_63_32 * 2 ^ 32

pub gate_offset-gate64 :
    (type cs entry dpl : ℕ) → entry < 2 ^ 64 → gate_offset (gate64 type cs entry dpl) ≡ entry
unfolding gate64
gate_offset-gate64 type cs entry dpl h = omega arith

-- `IRQS`: the number and the privilege level of each entry.
abbrev pub irqs : List (ℕ × ℕ)
irqs =
    (0, dpl_kern)
    ∷ (1, dpl_kern)
    ∷ (2, dpl_kern)
    ∷ (3, dpl_kern)
    ∷ (4, dpl_kern)
    ∷ (5, dpl_kern)
    ∷ (6, dpl_kern)
    ∷ (7, dpl_kern)
    ∷ (8, dpl_kern)
    ∷ (9, dpl_kern)
    ∷ (10, dpl_kern)
    ∷ (11, dpl_kern)
    ∷ (12, dpl_kern)
    ∷ (13, dpl_kern)
    ∷ (14, dpl_kern)
    ∷ (15, dpl_kern)
    ∷ (16, dpl_kern)
    ∷ (19, dpl_kern)
    ∷ (31, dpl_kern)
    ∷ (32, dpl_kern)
    ∷ (33, dpl_kern)
    ∷ (34, dpl_kern)
    ∷ (35, dpl_kern)
    ∷ (36, dpl_kern)
    ∷ (37, dpl_kern)
    ∷ (38, dpl_kern)
    ∷ (39, dpl_kern)
    ∷ (40, dpl_kern)
    ∷ (41, dpl_kern)
    ∷ (42, dpl_kern)
    ∷ (43, dpl_kern)
    ∷ (44, dpl_kern)
    ∷ (45, dpl_kern)
    ∷ (46, dpl_kern)
    ∷ (47, dpl_kern)
    ∷ (128, dpl_user)
    ∷ (129, dpl_user)
    ∷ []
