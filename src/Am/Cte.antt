-- ===== src/Am/Cte.antt =====
-- Interrupts and contexts (abstract-machine/am/src/x86/qemu/cte.c). The handler of the kernel is a
-- parameter; NULL is `none`.
pub mod Resume
pub mod Table
use Prim.Native.String.{String}
use njuoslab_l1_kmalloc_kfre.Base.{
  ℕ, zero, suc, ◌+◌, ◌-◌, ◌/◌, ◌%◌, ◌==◌, ◌&&◌, ltb, leb, if◌then◌else◌, Bool, Option, none, some,
  List, [], ◌∷◌,
}
use njuoslab_l1_kmalloc_kfre.Am.Gate.{GateDesc64, gate64, ksel, usel, sts_tg, dpl_kern, irqs}

pub data EventKind : Type 0 where
  event_null event_yield event_syscall event_pagefault event_error event_irq_timer event_irq_iodev :
      EventKind

pub record Event : Type 0 where
  pub event : EventKind
  pub cause : ℕ
  pub ref : ℕ
  pub msg : String

-- A saved context, with the general registers by their number.
pub record Context : Type 0 where
  pub cr3 : ℕ
  pub gpr : ℕ → ℕ
  pub rip : ℕ
  pub cs : ℕ
  pub rflags : ℕ
  pub rsp : ℕ
  pub ss : ℕ
  pub rsp0 : ℕ

pub record TrapFrame : Type 0 where
  pub saved_context : Context
  pub irq : ℕ
  pub errcode : ℕ
  pub rip : ℕ
  pub cs : ℕ
  pub rflags : ℕ
  pub rsp : ℕ
  pub ss : ℕ

-- What the handler reads and writes of the processor: `cr2`, `cr3`, the field `rsp0` of its task state,
-- whether its local APIC is mapped, and the interrupts that were acknowledged there.
pub record Cpu : Type 0 where
  pub cr2 : ℕ
  pub cr3 : ℕ
  pub rsp0 : ℕ
  pub lapic : Bool
  pub eoi : ℕ

pub lapic_eoi : Cpu → Cpu
lapic_eoi cpu = if cpu.lapic then record cpu { eoi = cpu.eoi + 1 } else cpu

abbrev pub plain_event : EventKind → String → Event
plain_event kind msg = record { event = kind; cause = 0; ref = 0; msg = msg }

-- The bits 0 and 1 of the error code of a page fault. `MMAP_NONE` has no bit, `MMAP_READ` is 1 and
-- `MMAP_WRITE` is 2.
abbrev pub fault_cause : ℕ → ℕ
fault_cause errcode = if errcode / 2 % 2 == 1 then 2 else 1

-- The `switch` over `tf->irq`.
unfoldable pub event_of : (irq errcode cr2 : ℕ) → Event
event_of irq errcode cr2 =
    if irq == 32
    then plain_event event_irq_timer "timer interrupt (lapic)"
    else if irq == 33
    then plain_event event_irq_iodev "I/O device IRQ1 (keyboard)"
    else if irq == 36
    then plain_event event_irq_iodev "I/O device IRQ4 (COM1)"
    else if irq == 0x80
    then plain_event event_syscall "int $0x80 system call"
    else if irq == 0x81
    then plain_event event_yield "int $0x81 yield"
    else if irq == 0
    then plain_event event_error "DE #0 divide by zero"
    else if irq == 6
    then plain_event event_error "UD #6 invalid opcode"
    else if irq == 7
    then plain_event event_error "NM #7 coprocessor error"
    else if irq == 8
    then plain_event event_error "DF #8 double fault"
    else if irq == 10
    then plain_event event_error "TS #10 invalid TSS"
    else if irq == 11
    then plain_event event_error "NP #11 segment/gate not present"
    else if irq == 12
    then plain_event event_error "SS #12 stack fault"
    else if irq == 13
    then plain_event event_error "GP #13, general protection fault"
    else if irq == 14
    then record {
      event = event_pagefault;
      cause = fault_cause errcode;
      ref = cr2;
      msg = "PF #14, page fault, @cause: PROT_XXX";
    }
    else record {
      event = event_error;
      cause = errcode;
      ref = 0;
      msg = "unrecognized interrupt/exception";
    }

-- The registers that the processor pushed, and those that the entry code did not save.
abbrev pub saved_of : TrapFrame → Cpu → Context
saved_of tf cpu = record tf.saved_context {
  rip = tf.rip;
  cs = tf.cs;
  rflags = tf.rflags;
  rsp = tf.rsp;
  rsp0 = cpu.rsp0;
  ss = tf.ss;
  cr3 = cpu.cr3;
}

-- `if (IRQ 0 <= tf->irq && tf->irq < IRQ 32) __am_lapic_eoi();`
pub acknowledge : (irq : ℕ) → Cpu → Cpu
acknowledge irq cpu = if leb 32 irq && ltb irq 64 then lapic_eoi cpu else cpu

-- `__am_irq_handle`, with the context that `__am_iret` resumes, or `none` for the panic on NULL.
pub irq_handle : (Event → Context → Option Context) → TrapFrame → Cpu → Option (Context × Cpu)
irq_handle user_handler tf cpu =
    let cpu' = acknowledge tf.irq cpu in
    elim (user_handler (event_of tf.irq tf.errcode cpu.cr2) (saved_of tf cpu)) [
      | none ↦ none
      | some ret ↦
          some (ret, if ret.cr3 == 0 then cpu' else record cpu' { cr3 = ret.cr3; rsp0 = ret.rsp0 })
    ]

-- An entry of the table of interrupts: `__am_irqall`, or the entry of its number.
pub data Entry : Type 0 where
  irqall : Entry
  irq : ℕ → Entry

pub record Vector : Type 0 where
  pub entry : Entry
  pub dpl : ℕ

-- `IDT_ENTRY` for each of the list.
pub set_entries : List (ℕ × ℕ) → (ℕ → Vector) → ℕ → Vector
set_entries [] idt = idt
set_entries ((id, dpl) ∷ rest) idt =
    set_entries rest (λ i. if i == id then record { entry = irq id; dpl = dpl } else idt i)

pub vectors : ℕ → Vector
vectors = set_entries irqs (λ i. record { entry = irqall; dpl = dpl_kern })

-- The table that `cte_init` fills, given the addresses of the entries.
pub idt : (Entry → ℕ) → ℕ → GateDesc64
idt address i = gate64 sts_tg (ksel 1) (address (vectors i).entry) (vectors i).dpl

-- `cte_init`: it panics on another CPU than the first, and without a handler.
pub cte_init :
    (Entry → ℕ)
    → (cpu : ℕ) → Option (Event → Context → Option Context)
    → Option ((ℕ → GateDesc64) × (Event → Context → Option Context))
cte_init address cpu none = none
cte_init address cpu (some handler) = if cpu == 0 then some (idt address, handler) else none

abbrev pub zero_context : Context
zero_context = record {
  cr3 = 0;
  gpr = λ _. 0;
  rip = 0;
  cs = 0;
  rflags = 0;
  rsp = 0;
  ss = 0;
  rsp0 = 0;
}

abbrev pub fl_if : ℕ
fl_if = 0x200

-- `kcontext`; `start` is `__am_kcontext_start`, and `GPR1` and `GPR2` are the registers 1 and 2.
unfoldable pub kcontext : (start stack_end entry arg : ℕ) → Context
kcontext start stack_end entry arg = record zero_context {
  cs = ksel 1;
  rip = start;
  rflags = fl_if;
  rsp = stack_end;
  gpr = λ r. if r == 1 then arg else if r == 2 then entry else 0;
}
