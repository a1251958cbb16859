-- ===== src/Kernel.antt =====
-- The kernel's entry: src/kernel/kernel.c.
pub mod Tags
pub mod Walk
pub mod Chain
pub mod Main
pub mod Start
