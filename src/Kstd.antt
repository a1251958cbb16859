-- ===== src/Kstd.antt =====
-- The kernel's standard library, src/kstdlib: copying in memory, comparing strings, numbers as
-- text.
pub mod Copy
pub mod Compare
pub mod Number
pub mod Print
