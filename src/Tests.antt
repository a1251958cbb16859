-- ===== src/Tests.antt =====
-- Runs of the code on small inputs, and the theorems applied to them.
pub mod Phys
pub mod Virt
pub mod Print
pub mod Timer
pub mod Kernel
pub mod Apic
pub mod Heap
pub mod OrderedArray
pub mod Cpu
pub mod Boot
pub mod Device
pub mod Acpi
pub mod Kstd
pub mod Start
