-- ===== src/Lib.antt =====
-- A model of the twos kernel and what it guarantees.
--
-- The kernel boots with a memory map from the boot loader, sets up a bitmap of 2 MiB pages, a heap
-- with a list of its blocks, the tables of the processor, and the interrupt controllers that the
-- ACPI tables name, and prints to a serial port. Each part is modelled in a file of its own:
--
-- * Mem/Page, the arithmetic on pages: include/kernel/mem/page.h.
-- * Mem/Phys with its children, the page bitmap: src/kernel/mem/physmem.c. `physmem_init` is in
--   Mem/Phys/Init, `phys_malloc` in Mem/Phys/Alloc. The state is `Physmem`; the array `pmm` is a
--   list, and an access outside it, as a division by zero, is `none`. The list of map entries is
--   the `mmap_size` entries of the tag. The kernel's loops over addresses take as many rounds as
--   their bounds give, and are shown to be over by then.
-- * Mem/Phys/Spec, what that manager promises its clients, and Mem/Phys/Refine, the code against it.
-- * Mem/Virt with its children, the page tables: src/kernel/mem/virtmem.c. The state `Vmm` is memory as
--   the kernel's window shows it, the page bitmap and the current block of tables. Mem/Virt/Walk is the
--   processor's walk through the tables, as its manual has it.
-- * Types/OrderedArray, the array that keeps its elements in order: include/kernel/types/orderedarray.h.
-- * Mem/Heap, the allocator on blocks with a header and a footer: src/kernel/mem/kalloc.c. It keeps
--   its blocks in an ordered array; memory is a function from addresses to bytes. The array's own
--   bytes, in the heap's first page, are kept apart from that memory.
-- * Kstd, strings, memory and numbers: src/kstdlib/string.c and src/kstdlib/memory.c. `strlen` takes
--   fuel, the number of bytes that it looks at; more than the string's length is enough.
-- * Kstd/Print with its children, formatted output: src/kstdlib/print.c. The output is a parameter, as
--   it is in the source; Kstd/Print/Sprint is the one into a buffer, and the text that its caller hands
--   over stands at an address `scratch`. The loop takes as many rounds as the format has bytes.
-- * Cpu, the tables of the processor and the handlers: src/boot/gdt.c, src/kernel/isr/idt.c,
--   src/kernel/isr/isr.c and include/kernel/isr/isr_exceptions.h. Cpu/Gdt/Dump reads the descriptors from
--   memory and prints them, as labelled numbers; Cpu/Gdt/Load writes the TSS and its descriptor.
-- * Boot, the command line: src/boot/cmdline.c. The parser takes as many rounds as its text has bytes.
-- * Device, the drivers: src/kernel/apic/pic.c, src/kernel/apic/ioapic.c, src/kernel/apic/apic.c and
--   src/kernel/driver/serial/serialdriver.c. Hardware is a parameter, a type of states with what
--   reading and writing do; what the data sheets say of it is a hypothesis. The loop of
--   `serial_write` takes fuel, one for each poll, and more than the polls behind a byte is enough.
-- * Device/Hpet, the timer: src/kernel/timer/hpet.c. `usleep` takes fuel, one for each look at the
--   counter; for each tick of the time as many as the counter may take to go up, and as many more, are
--   enough. The code resets the counter while it is halted the first time only, and what a reset of a
--   running counter does is not known, so nothing is said of the rounds of the loop at the end.
-- * Device/Printk, messages to the serial port: src/kernel/printk.c; Device/Panic, those before the
--   processor halts: src/kernel/panic.c and src/kstdlib/kassert.c.
-- * Device/ApicInit, the local controller behind the tables: `apic_init` of src/kernel/apic/apic.c.
-- * Device/Framebuffer, the test patterns: include/kernel/driver/fb/framebuffer.h.
-- * Acpi, the search of a table and the loop over the MADT: src/kernel/acpi/acpi.c and
--   include/kernel/acpi. The loop takes fuel, and the number of entries is enough. Acpi/Init is
--   `acpi_init`, on page tables and on the heap; the tables of pointers stand in memory.
-- * Kernel, the entry: src/kernel/kernel.c. Kernel/Tags handles the boot loader's tags, which call the
--   parts above, and Kernel/Main goes on to the page tables. The loop takes fuel, one for each tag.
--   Kernel/Start is all of `kmain`: the processor's tables in front of that, and behind it the heap, the
--   test pattern, the firmware's tables, the interrupt controllers, the timer, and the loop at the end.
-- * Tests, the theorems on small inputs.
--
-- A word of w bits is a natural number with its wrap-around written out. Memory is a function from
-- virtual addresses to bytes; that two mappings may show the same byte is left out. The processor's walk
-- leaves out pages of 1 GiB and the upper 16 bits of an address. What the code
-- prints for debugging is left out, but for the dump of the segments, the registers and the causes of a
-- page fault. Not modelled are the unused constants of cpuid and the header include/kernel/acpi/madt.h,
-- which nothing includes; the header of the boot protocol is third-party. Assembly is outside the model.
pub mod Base
pub mod Mem
pub mod Types
pub mod Kstd
pub mod Cpu
pub mod Boot
pub mod Device
pub mod Acpi
pub mod Kernel
pub mod Tests
