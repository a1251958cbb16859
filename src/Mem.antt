-- ===== src/Mem.antt =====
-- Memory management, bottom up: page arithmetic, the physical page bitmap.
pub mod Page
pub mod Phys
pub mod Heap
pub mod Virt
