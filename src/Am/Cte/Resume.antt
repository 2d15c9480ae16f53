-- ===== src/Am/Cte/Resume.antt =====
-- An interrupt whose handler returns the context that it was given.
use njuoslab_l1_kmalloc_kfre.Base.{
  ◌+◌, ◌≤◌, ◌<◌, ◌≡◌, ◌⊎◌, inl, inr, refl, arith, ◌==◌, ltb, leb, true, some, Bool-cases, leb→le,
  ltb→lt, ltb→le,
}
use njuoslab_l1_kmalloc_kfre.Am.Cte.{
  Context, TrapFrame, Cpu, saved_of, lapic_eoi, acknowledge, irq_handle,
}

-- The interrupted program goes on where it was.
pub record Resumed (tf : TrapFrame) (cpu : Cpu) (ret : Context) (cpu' : Cpu) : Type 0 where
  pub rip : ret.rip ≡ tf.rip
  pub cs : ret.cs ≡ tf.cs
  pub rflags : ret.rflags ≡ tf.rflags
  pub rsp : ret.rsp ≡ tf.rsp
  pub ss : ret.ss ≡ tf.ss
  pub gpr : ret.gpr ≡ tf.saved_context.gpr
  pub cr2 : cpu'.cr2 ≡ cpu.cr2
  pub cr3 : cpu'.cr3 ≡ cpu.cr3
  pub rsp0 : cpu'.rsp0 ≡ cpu.rsp0

-- Which interrupts are acknowledged at the local APIC.
abbrev pub Acknowledged : TrapFrame → Cpu → Cpu → Type 0
Acknowledged tf cpu cpu' =
    (((32 ≤ tf.irq) × (tf.irq < 64) × (cpu'.eoi ≡ cpu.eoi + 1)))
    ⊎ ((tf.irq < 32) × (cpu'.eoi ≡ cpu.eoi))
    ⊎ ((64 ≤ tf.irq) × (cpu'.eoi ≡ cpu.eoi))

abbrev pub SameSpace : Cpu → Cpu → Type 0
SameSpace cpu cpu' = (cpu'.cr2 ≡ cpu.cr2) × (cpu'.cr3 ≡ cpu.cr3) × (cpu'.rsp0 ≡ cpu.rsp0)

acknowledge-Acknowledged :
    (tf : TrapFrame) (cpu : Cpu)
    → cpu.lapic ≡ true
    → SameSpace cpu (acknowledge tf.irq cpu) × Acknowledged tf cpu (acknowledge tf.irq cpu)
unfolding acknowledge lapic_eoi
acknowledge-Acknowledged tf cpu on = elim (Bool-cases (leb 32 tf.irq)) [
  | inl low ↦ elim (Bool-cases (ltb tf.irq 64)) [
    | inl high ↦
        rw (low, high, on)
          ((refl, refl, refl), inl (leb→le 32 tf.irq low, ltb→lt tf.irq 64 high, refl))
    | inr high ↦ rw (low, high) ((refl, refl, refl), inr (inr (ltb→le tf.irq 64 high, refl)))
  ]
  | inr low ↦ rw (low) ((refl, refl, refl), inr (inl (ground arith, refl)))
]

-- With a handler that returns the context that it is given, `__am_irq_handle` resumes the interrupted
-- program with its registers, its address space and its kernel stack, and acknowledges the interrupts
-- from 32 to 63 once and no other, where the local APIC is mapped.
pub irq_handle-Resumed :
    (tf : TrapFrame) (cpu : Cpu)
    → cpu.lapic ≡ true
    → (ret : Context) × (cpu' : Cpu) × (irq_handle (λ ev ctx. some ctx) tf cpu ≡ some (ret, cpu'))
      × Resumed tf cpu ret cpu'
      × Acknowledged tf cpu cpu'
unfolding irq_handle
irq_handle-Resumed tf cpu on =
    let ret = saved_of tf cpu in
    let ((same_cr2, same_cr3, same_rsp0), acknowledged) = acknowledge-Acknowledged tf cpu on in
    elim (Bool-cases (cpu.cr3 == 0)) [
      | inl none ↦ (
        ret,
        acknowledge tf.irq cpu,
        rw none refl,
        record {
          rip = refl;
          cs = refl;
          rflags = refl;
          rsp = refl;
          ss = refl;
          gpr = refl;
          cr2 = same_cr2;
          cr3 = same_cr3;
          rsp0 = same_rsp0;
        },
        acknowledged,
      )
      | inr some_cr3 ↦ (
        ret,
        record (acknowledge tf.irq cpu) { cr3 = cpu.cr3; rsp0 = cpu.rsp0 },
        rw some_cr3 refl,
        record {
          rip = refl;
          cs = refl;
          rflags = refl;
          rsp = refl;
          ss = refl;
          gpr = refl;
          cr2 = same_cr2;
          cr3 = refl;
          rsp0 = refl;
        },
        acknowledged,
      )
    ]
