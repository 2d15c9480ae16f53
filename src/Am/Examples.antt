-- ===== src/Am/Examples.antt =====
-- The theorems on the machine layer at concrete states.
use njuoslab_l1_kmalloc_kfre.Base.{ℕ, ◌+◌, ◌*◌, ◌%◌, ◌^◌, ◌<◌, ◌≡◌, refl, arith, true, Option, some}
use njuoslab_l1_kmalloc_kfre.Am.Gate.{GateDesc64, gate_offset}
use njuoslab_l1_kmalloc_kfre.Am.Cte.{
  Context, TrapFrame, Cpu, Event, Entry, irqall, irq, zero_context, irq_handle, cte_init,
}
use njuoslab_l1_kmalloc_kfre.Am.Cte.Resume.{Resumed, Acknowledged, irq_handle-Resumed}
use njuoslab_l1_kmalloc_kfre.Am.Cte.Table.{cte_init-gates}
use njuoslab_l1_kmalloc_kfre.Am.Gpu.{pixel_of, FbDraw, gpu_fbdraw}
use njuoslab_l1_kmalloc_kfre.Am.Gpu.Clip.{FitsInt, gpu_fbdraw-at}

-- A timer interrupt in user code.
abbrev timer_frame : TrapFrame
timer_frame = record {
  saved_context = zero_context;
  irq = 32;
  errcode = 0;
  rip = 0x100000001000;
  cs = 0x1b;
  rflags = 0x200;
  rsp = 0x107ffffff000;
  ss = 0x23;
}

abbrev user_cpu : Cpu
user_cpu = record { cr2 = 0; cr3 = 0x5007; rsp0 = 0x9000; lapic = true; eoi = 7 }

irq_handle-Resumed_example :
    (ret : Context) × (cpu' : Cpu) × (irq_handle (λ ev ctx. some ctx) timer_frame user_cpu
      ≡ some (ret, cpu'))
    × Resumed timer_frame user_cpu ret cpu'
    × Acknowledged timer_frame user_cpu cpu'
irq_handle-Resumed_example = irq_handle-Resumed timer_frame user_cpu refl

-- The entries stand 16 bytes apart.
abbrev address : Entry → ℕ
address irqall = 0x100000
address (irq i) = 0x100010 + i % 256 * 16

abbrev same_context : Event → Context → Option Context
same_context ev ctx = some ctx

address-lt : (e : Entry) → address e < 2 ^ 64
address-lt irqall = omega arith
address-lt (irq i) = omega arith

cte_init-gates_example :
    (table : ℕ → GateDesc64) × (cte_init address 0 (some same_context) ≡ some (table, same_context))
    × (gate_offset (table 0x80) ≡ 0x100810)
    × ((table 0x80).dpl ≡ 3)
    × ((table 0x80).p ≡ 1)
    × ((table 0x80).type ≡ 0xf)
    × ((table 0x80).cs ≡ 8)
cte_init-gates_example = cte_init-gates address same_context 0x80 address-lt (omega arith)

-- A rectangle of 2 times 2 that hangs over the right edge of a screen of 4 times 3.
abbrev square : FbDraw
square = record { x = 3; y = 1; w = 2; h = 2; pixels = λ i. 0x10203 + i }

square-FitsInt : FitsInt 4 3 square
square-FitsInt = omega arith

gpu_fbdraw-at_example : gpu_fbdraw 4 3 square (λ _. pixel_of 0) (3 + 2 * 4) ≡ pixel_of 0x10205
gpu_fbdraw-at_example = gpu_fbdraw-at 4 3 square square-FitsInt 3 2 (λ _. pixel_of 0) (omega arith)
