-- ===== src/Boot.antt =====
-- The boot of the kernel.
pub mod Cmdline
