-- ===== src/Am.antt =====
-- The machine layer below the kernel (abstract-machine/am/src/x86), for 64-bit x86 on QEMU.
pub mod Gate
pub mod Cte
pub mod Gpu
pub mod Io
pub mod Vme
mod Examples
mod VmeExamples
mod IoExamples
