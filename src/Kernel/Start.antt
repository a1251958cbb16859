-- ===== src/Kernel/Start.antt =====
-- `kmain` of src/kernel/kernel.c as a whole: the processor's tables, the boot loader's tags and the
-- memory managers, and behind them the heap, the test pattern, the tables of the firmware, the
-- interrupt controllers, the timer, and the loop at the end. What is printed is left out. `none`
-- stands for a panic, a failed assertion and for what the parts leave undefined.
pub mod First
pub mod Running
pub mod Tables
use twos.Base.{
  ℕ, zero, suc, ◌+◌, ◌*◌, ◌^◌, ◌==◌, ltb, leb, not, if◌then◌else◌, Bool, false, Option, none, some,
  ◌>>=◌, List, [], ◌∷◌, Memory, load, u8, u64,
}
use twos.Acpi.{Table, proc_apic, io_apic, ioso_apic}
use twos.Acpi.Alloc.{returned}
use twos.Acpi.Init.{Acpi, acpi_init}
use twos.Cpu.Gdt.Load.{init_gdt_tss}
use twos.Cpu.Idt.{Idt, idt_init}
use twos.Cpu.Isr.{
  Faults, Handled, Action, returns, panic, call, lapic_write, faults_at_boot, isr_handler,
  irq_handler, register_interupt_handler,
}
use twos.Device.ApicInit.{Apic, Lapic, apic_init}
use twos.Device.Framebuffer.{framebuffer_display_test_pattern, framebuffer_display_animated_pattern}
use twos.Device.Hpet.{Registers, Hpet, hpet_init, usleep}
use twos.Device.IoApic.{Window, IoApic, Override}
use twos.Device.IoApicInit.{kernel_vaddr_size, ioapic_init}
use twos.Device.Port.{Ports}
use twos.Device.Serial.{Serial, serial_init}
use twos.Kernel.Main.{kmain}
use twos.Kernel.Tags.{Boot, Fb}
use twos.Mem.Heap.{Heap, malloc, free, kalloc_init}
use twos.Mem.Virt.{Vmm, kernel_vaddr, virt_map_page, virt_current_pd, page_default}

-- What the program finds: registers and answers of the processor, and addresses of the linker.
pub record Machine : Type 0 where
  pub cr3 : ℕ
  pub cpuid_edx : ℕ
  pub gdt_tss_ptr : ℕ
  pub gdt_ptr : ℕ
  pub task_state_segment : ℕ
  pub kernel_stack : ℕ
  pub idt_address : ℕ
  pub isr_stub_table : ℕ → ℕ
  pub spurious_handler : ℕ
  pub test_handler : ℕ
  pub heap_slots : ℕ → ℕ

-- The state of the kernel behind the memory managers.
pub record Kernel (S : Type 0) : Type 0 where
  pub boot : Boot
  pub vmm : Vmm
  pub heap : Heap
  pub acpi : Acpi
  pub lapic : Lapic
  pub ioapic : IoApic
  pub hpet : Hpet
  pub handlers : ℕ → ℕ
  pub faults : Faults
  pub hardware : S

abbrev pub irq15 : ℕ
irq15 = 47

-- The heap, its list in the slots that memory holds, and the block that is taken and given back.
unfoldable pub start_heap : (ℕ → ℕ) → Memory → Option Heap
start_heap raw mem = returned (malloc 512 (kalloc_init raw mem)) >>= λ (malloc_test, heap).
    returned (free malloc_test heap)

-- The overrides that the table of the struct `acpi` names, from the `i`-th on, with `left` to go.
unfoldable pub overrides : ℕ → ℕ → ℕ → Memory → List Override
overrides zero i tbl mem = []
overrides (suc left) i tbl mem =
    let entry = load 8 (tbl + 8 * i) mem in
    record { irq = mem (entry + 3); gsi = load 4 (entry + 4) mem } ∷ overrides left (i + 1) tbl mem

-- What a handled interrupt leaves of the counters.
unfoldable pub survived : Handled → Option Faults
survived (returns faults) = some faults
survived panic = none

module _ {S : Type 0} (window : Window S) where
  -- `ioapic_init` on the struct `acpi`, with the assertion and the mapping before the first access.
  unfoldable pub start_ioapic : ℕ → Acpi → Vmm → S → Option (IoApic × Vmm × S)
  start_ioapic cr3 acpi vmm s =
      let io = load 8 (acpi.tbl io_apic) vmm.mem in
      let base = load 4 (io + 4) vmm.mem in
      let gsib = load 4 (io + 8) vmm.mem in
      let init = virt_map_page (virt_current_pd cr3) base base page_default vmm >>= λ (_, vmm').
      let list = overrides (acpi.idx ioso_apic) 0 (acpi.tbl ioso_apic) vmm'.mem in
      ioapic_init window base gsib list s >>= λ (ioapic, s'). some (ioapic, vmm', s') in
      if ltb (u64 (base + kernel_vaddr)) (kernel_vaddr + kernel_vaddr_size) then init else none

  -- What the handling of an interrupt does to the hardware; the handler `test_handler` only prints.
  unfoldable pub act : ℕ → List Action → S → S
  act base [] s = s
  act base (call handler ∷ actions) s = act base actions s
  act base (lapic_write reg word ∷ actions) s =
      act base actions (window.write32 (base + reg) word s)

module _ {S : Type 0} (ports : Ports S) (window : Window S) (registers : Registers S)
    (load_tss : Memory → Memory) where
  -- The interrupts at the end: a breakpoint, the handler of the line 15, and that interrupt.
  unfoldable pub test_interrupts :
      Machine → Boot → Heap → Acpi → Apic S → IoApic → Hpet × Vmm × S → Option (Kernel S)
  test_interrupts m b heap acpi apic ioapic (hpet, vmm, s) =
      survived (isr_handler 3 faults_at_boot) >>= λ faults.
      let handlers = register_interupt_handler irq15 m.test_handler apic.handlers in
      irq_handler irq15 handlers >>= λ actions. some (record {
        boot = b;
        vmm = vmm;
        heap = record heap { mem = vmm.mem };
        acpi = acpi;
        lapic = apic.lapic;
        ioapic = ioapic;
        hpet = hpet;
        handlers = handlers;
        faults = faults;
        hardware = act window apic.lapic.base actions s;
      })

  -- The interrupt controllers and the timer.
  unfoldable pub start_devices :
      Machine → (ℕ → ℕ) → S → Boot → Acpi × Vmm × Heap → Option (Kernel S)
  start_devices m handlers s b (acpi, vmm, heap) =
      let proc = load 8 (acpi.tbl proc_apic) vmm.mem ∷ [] in
      let before : Apic S = record {
        lapic = record { id = 0; base = 0 };
        vmm = vmm;
        handlers = handlers;
        hardware = s;
      } in
      apic_init ports window m.cpuid_edx m.cr3 acpi.madt proc m.spurious_handler before >>= λ apic.
      start_ioapic window m.cr3 acpi apic.vmm apic.hardware >>= λ (ioapic, vmm', s').
      hpet_init registers acpi.rsdt m.cr3 vmm' s' >>= test_interrupts m b heap acpi apic ioapic

  -- From `kalloc_init` to the loop at the end.
  unfoldable pub start : ℕ → Machine → (ℕ → ℕ) → S → Boot × Vmm → Option (Kernel S)
  start fuel m handlers s (b, vmm) = start_heap m.heap_slots vmm.mem >>= λ heap.
      let fb = b.kboot.fb in
      let drawn = framebuffer_display_test_pattern fb.ptr fb.w fb.h fb.pitch heap.mem in
      acpi_init fuel m.cr3 b.rsdp (record vmm { mem = drawn }) heap >>= start_devices m handlers s b

  -- All of `kmain` up to its loop.
  unfoldable pub kernel :
      (ℕ → ℕ) → ℕ → Machine → ℕ → ℕ → Memory → Idt → Serial S → Option (Kernel S)
  kernel wide fuel m header magic mem idt serial =
      let serial' = (serial_init ports serial).1 in
      let idt' = idt_init m.idt_address m.isr_stub_table idt in
      init_gdt_tss load_tss 0 m.gdt_tss_ptr m.gdt_ptr m.task_state_segment m.kernel_stack mem
      >>= λ (lines, mem'). kmain wide fuel m.cr3 header magic mem' >>= λ r.
          start fuel m idt'.handlers serial'.hardware r

module _ {S : Type 0} (registers : Registers S) where
  -- The loop at the end, `n` rounds of it, with the byte `cycle`: half a second of waiting, and then the
  -- animated pattern. The result is the memory, the next `cycle`, and the hardware.
  unfoldable pub main_loop : ℕ → ℕ → Hpet → Fb → Memory × ℕ × S → Option (Memory × ℕ × S)
  main_loop zero fuel hpet fb state = some state
  main_loop (suc n) fuel hpet fb state = main_loop n fuel hpet fb state >>= λ (mem, cycle, s).
      usleep registers fuel hpet (500 * 1000) s >>= λ s'.
      let mem' = framebuffer_display_animated_pattern fb.ptr fb.w fb.h fb.pitch cycle mem in
      let next = u8 (cycle + 1) in some (mem', if leb 255 next then 0 else next, s')
