-- ===== src/Klib.antt =====
-- The C library that the kernel links (abstract-machine/klib/src): string.c over the memory of the
-- machine, with one byte at each address.
pub mod Bytes
pub mod Copy
pub mod Text
pub mod Numeral
pub mod Stdio
pub mod Stdlib
mod Examples
mod StdioExamples
