-- ===== src/Types.antt =====
-- Data structures of the kernel.
pub mod OrderedArray
