-- ===== src/Cpu.antt =====
-- The tables of the processor: src/boot/gdt.c, src/kernel/isr/idt.c and src/kernel/isr/isr.c.
pub mod Log
pub mod Gdt
pub mod Idt
pub mod Isr
