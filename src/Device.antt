-- ===== src/Device.antt =====
-- The drivers of devices behind x86 ports and memory-mapped registers. A device is a parameter:
-- its state and what reading and writing it do.
pub mod Port
pub mod Pic
pub mod Serial
pub mod IoApic
pub mod IoApicInit
pub mod Lapic
pub mod Framebuffer
pub mod Hpet
pub mod Printk
pub mod ApicInit
pub mod Panic
