-- ===== src/Kernel/Start/Running.antt =====
-- What holds of the kernel once it has come to its loop.
use twos.Base.{
  ℕ, ◌+◌, ◌<◌, ◌≡◌, ◌∙◌, refl, ap, ◌==◌, not, true, Option, none, some, >>=-eq-some, List, [], ◌∷◌,
  Memory, load, ◌>>>◌, get_elem?, some-injective, if-eq-some, unless-eq-some, update, update_ne,
  update_self, sym, subst, arith,
}
use twos.Acpi.{proc_apic, acpi_validate_rsdp, acpi_find_tbl, is_v2, is_root, root_address}
use twos.Acpi.Init.{Acpi, acpi_init, acpi_init_madt}
use twos.Cpu.Gdt.{init_gdt}
use twos.Cpu.Gdt.Load.{make_tss, init_gdt_tss}
use twos.Cpu.Log.{Line}
use twos.Cpu.Idt.{Idt}
use twos.Cpu.Isr.{
  Faults, faults_at_boot, isr_handler, handle_error_generic, irq_handler, register_interupt_handler,
}
use twos.Device.ApicInit.{Apic, apic_init, apic_is_available}
use twos.Device.Framebuffer.{framebuffer_display_test_pattern}
use twos.Device.Hpet.{Registers, Hpet, hpet_init, hpet_address_offset, capabilities_offset}
use twos.Device.IoApic.{Window, IoApic}
use twos.Device.Lapic.{spurious_int}
use twos.Device.Pic.{pic_remap}
use twos.Device.Port.{Ports}
use twos.Device.Serial.{Serial}
use twos.Kernel.Main.{kmain, IsReady, kmain_lem, multiboot2_bootloader_magic}
use twos.Kernel.Start.{
  Machine, Kernel, irq15, kernel, start, start_heap, start_devices, start_ioapic, test_interrupts,
  survived,
}
use twos.Kernel.Tags.{Boot}
use twos.Mem.Heap.{Heap}
use twos.Mem.Virt.{Vmm, virt_map_page}

abbrev period_of : {S : Type 0} → Option (Hpet × Vmm × S) → ℕ
period_of none = 0
period_of (some (hpet, vmm, s)) = hpet.f_per_tick

module _ {S : Type 0} (ports : Ports S) (window : Window S) (registers : Registers S) where
  apic_init-handlers :
      (edx cr3 madt : ℕ) (procs : List ℕ) (spurious : ℕ) (a a' : Apic S)
      → apic_init ports window edx cr3 madt procs spurious a ≡ some a'
      → (apic_is_available edx ≡ true) × (a'.handlers ≡ update a.handlers spurious_int spurious)
  unfolding apic_init register_interupt_handler
  apic_init-handlers edx cr3 madt procs spurious a a' h =
      let (available, init) = if-eq-some (apic_is_available edx) _ h in
      let (proc, first, rest) = >>=-eq-some (get_elem? procs 0) _ init in
      let (r, maps, rest₂) = >>=-eq-some (virt_map_page _ _ _ _ a.vmm) _ rest in
      let (s, remaps, made) = >>=-eq-some (pic_remap ports _ _ a.hardware) _ rest₂ in
      (available, cc made)

  hpet_init-period :
      (xsdt cr3 : ℕ) (vmm vmm' : Vmm) (s s' : S) (hpet : Hpet)
      → hpet_init registers xsdt cr3 vmm s ≡ some (hpet, vmm', s')
      → 0 < hpet.f_per_tick
  unfolding hpet_init
  hpet_init-period xsdt cr3 vmm vmm' s s' hpet h =
      let (sdt, found, rest) = >>=-eq-some (acpi_find_tbl _ xsdt vmm.mem) _ h in
      let (r, maps, rest₂) = >>=-eq-some (virt_map_page _ _ _ _ vmm) _ rest in
      let tbl = load 8 (sdt + hpet_address_offset) r.1.mem in
      let period = (registers.read64 (tbl + capabilities_offset) s).0 >>> 32 in
      let (nonzero, made) = unless-eq-some (period == 0) _ rest₂ in
      let same : period ≡ hpet.f_per_tick =
        ap (λ (o : Option (Hpet × Vmm × S)). period_of o) made in
      ground (arith, nonzero, same)

acpi_init-v2 :
    (fuel cr3 rsdp : ℕ) (vmm vmm' : Vmm) (heap heap' : Heap) (acpi : Acpi)
    → acpi_init fuel cr3 rsdp vmm heap ≡ some (acpi, vmm', heap')
    → (acpi.v2 ≡ true) × (acpi.rsdp ≡ rsdp)
unfolding acpi_init
acpi_init-v2 fuel cr3 rsdp vmm vmm' heap heap' acpi h =
    let (valid, mapped) = if-eq-some (acpi_validate_rsdp rsdp vmm.mem) _ h in
    let (r, maps, rest) = >>=-eq-some (virt_map_page _ _ _ _ vmm) _ mapped in
    let sdt = root_address rsdp vmm.mem in
    let (root, rest₂) = unless-eq-some (not (is_root (is_v2 rsdp vmm.mem) sdt r.1.mem)) _ rest in
    let (new, made) = if-eq-some (is_v2 rsdp vmm.mem) _ rest₂ in
    let (c, inits, is) = >>=-eq-some (acpi_init_madt fuel _ _) _ made in (cc (new, is), cc is)

-- The kernel in front of its loop: the magic number is right, and the boot state ready, over the memory
-- with the TSS; the firmware is of version 2; the timer has a period; the interrupts 47 and 0xff have
-- their handlers; and the breakpoint is the last exception that was counted.
pub record IsRunning {S : Type 0} (m : Machine) (k : Kernel S) : Type 0 where
  pub rsdp : k.acpi.rsdp ≡ k.boot.rsdp
  pub v2 : k.acpi.v2 ≡ true
  pub local_apic : apic_is_available m.cpuid_edx ≡ true
  pub period : 0 < k.hpet.f_per_tick
  pub test : k.handlers irq15 ≡ m.test_handler
  pub spurious : k.handlers spurious_int ≡ m.spurious_handler
  pub breakpoint : k.faults.last_num ≡ 3

abbrev counted_breakpoint : Faults
counted_breakpoint = record { last_num = 3; num_pfs = 0; num_gpfs = 0 }

breakpoint_survives : survived (isr_handler 3 faults_at_boot) ≡ some counted_breakpoint
unfolding survived isr_handler handle_error_generic
breakpoint_survives = refl

module _ {S : Type 0} (ports : Ports S) (window : Window S) (registers : Registers S)
    (load_tss : Memory → Memory) where
  test_interrupts-IsRunning :
      (m : Machine) (b : Boot) (heap : Heap) (acpi : Acpi) (apic : Apic S) (ioapic : IoApic)
      (hpet : Hpet) (vmm : Vmm) (s : S) (k : Kernel S)
      → (acpi.rsdp ≡ b.rsdp) × (acpi.v2 ≡ true)
      → (apic_is_available m.cpuid_edx ≡ true) × (apic.handlers spurious_int ≡ m.spurious_handler)
      → 0 < hpet.f_per_tick
      → test_interrupts ports window registers load_tss m b heap acpi apic ioapic (hpet, vmm, s)
        ≡ some k
      → IsRunning m k × (k.boot ≡ b)
  unfolding test_interrupts register_interupt_handler
  test_interrupts-IsRunning m b heap acpi apic ioapic hpet vmm s k (rsdp, v2) (available, set) pos
        h =
      let (faults, breaks, h₁) = >>=-eq-some (survived (isr_handler 3 faults_at_boot)) _ h in
      let counts : counted_breakpoint ≡ faults =
        some-injective (sym breakpoint_survives ∙ breaks) in
      let handlers = update apic.handlers irq15 m.test_handler in
      let (actions, acts, made) = >>=-eq-some (irq_handler irq15 handlers) _ h₁ in
      let same = some-injective made in
      let running : IsRunning m _ = record {
        rsdp = rsdp;
        v2 = v2;
        local_apic = available;
        period = pos;
        test = update_self apic.handlers irq15 irq15 m.test_handler refl;
        spurious = update_ne apic.handlers irq15 spurious_int m.test_handler (omega arith) ∙ set;
        breakpoint = ap (λ f. f.last_num) (sym counts);
      } in
      (subst (IsRunning m) same running, ap (λ k. k.boot) (sym same))

  start_devices-IsRunning :
      (m : Machine) (handlers : ℕ → ℕ) (s : S) (b : Boot) (acpi : Acpi) (vmm : Vmm) (heap : Heap)
      (k : Kernel S)
      → (acpi.rsdp ≡ b.rsdp) × (acpi.v2 ≡ true)
      → start_devices ports window registers load_tss m handlers s b (acpi, vmm, heap) ≡ some k
      → IsRunning m k × (k.boot ≡ b)
  unfolding start_devices
  start_devices-IsRunning m handlers s b acpi vmm heap k tables h =
      let proc = load 8 (acpi.tbl proc_apic) vmm.mem ∷ [] in
      let before : Apic S = record {
        lapic = record { id = 0; base = 0 };
        vmm = vmm;
        handlers = handlers;
        hardware = s;
      } in
      let (apic, enables, h₁) =
        >>=-eq-some
          (apic_init ports window m.cpuid_edx m.cr3 acpi.madt proc m.spurious_handler before) _ h in
      let ((ioapic, vmm₁, s₁), redirects, h₂) =
        >>=-eq-some (start_ioapic window m.cr3 acpi apic.vmm apic.hardware) _ h₁ in
      let ((hpet, vmm₂, s₂), times, h₃) =
        >>=-eq-some (hpet_init registers acpi.rsdt m.cr3 vmm₁ s₁) _ h₂ in
      let (available, set) =
        apic_init-handlers ports window registers m.cpuid_edx m.cr3 acpi.madt proc
          m.spurious_handler before apic enables in
      let there =
        ap (λ f. f spurious_int) set
        ∙ update_self handlers spurious_int spurious_int m.spurious_handler refl in
      let period =
        hpet_init-period ports window registers acpi.rsdt m.cr3 vmm₁ vmm₂ s₁ s₂ hpet times in
      test_interrupts-IsRunning m b heap acpi apic ioapic hpet vmm₂ s₂ k tables (available, there)
        period h₃

  start-IsRunning :
      (fuel : ℕ) (m : Machine) (handlers : ℕ → ℕ) (s : S) (b : Boot) (vmm : Vmm) (k : Kernel S)
      → start ports window registers load_tss fuel m handlers s (b, vmm) ≡ some k
      → IsRunning m k × (k.boot ≡ b)
  unfolding start
  start-IsRunning fuel m handlers s b vmm k h =
      let (heap, starts, h₁) = >>=-eq-some (start_heap m.heap_slots vmm.mem) _ h in
      let fb = b.kboot.fb in
      let drawn = framebuffer_display_test_pattern fb.ptr fb.w fb.h fb.pitch heap.mem in
      let vmm₁ : Vmm = record vmm { mem = drawn } in
      let ((acpi, vmm₂, heap₂), finds, h₂) =
        >>=-eq-some (acpi_init fuel m.cr3 b.rsdp vmm₁ heap) _ h₁ in
      let (v2, rsdp) = acpi_init-v2 fuel m.cr3 b.rsdp vmm₁ vmm₂ heap heap₂ acpi finds in
      start_devices-IsRunning m handlers s b acpi vmm₂ heap₂ k (rsdp, v2) h₂

  init_gdt_tss-memory :
      (dump gdt_tss_ptr gdt_ptr tss kernel_stack : ℕ) (mem : Memory) (r : List Line × Memory)
      → init_gdt_tss load_tss dump gdt_tss_ptr gdt_ptr tss kernel_stack mem ≡ some r
      → (init_gdt gdt_tss_ptr gdt_ptr ≡ true)
        × (r.1 ≡ load_tss (make_tss gdt_tss_ptr tss kernel_stack mem))
  unfolding init_gdt_tss
  init_gdt_tss-memory dump gdt_tss_ptr gdt_ptr tss kernel_stack mem r h =
      let (there, made) = if-eq-some (init_gdt gdt_tss_ptr gdt_ptr) _ h in
      (there, ap (λ r. r.1) (sym (some-injective made)))

  -- Whatever the machine is like and whatever the boot loader hands over: where `kmain` comes to its
  -- loop, the magic number is right and the TSS's descriptor has its place in the table. In the memory
  -- with the TSS, physical memory was found on a map, the framebuffer is usable or none and ends within
  -- four pages, and the root pointer has a right checksum or is null. The firmware's tables are of
  -- version 2 and were read from that root pointer, the processor has a local controller, the timer's
  -- period is not zero, the interrupts 47 and 0xff have their handlers, and the breakpoint was the last
  -- exception that was counted.
  pub kernel-IsRunning :
      (wide : ℕ → ℕ) (fuel : ℕ) (m : Machine) (header magic : ℕ) (mem : Memory) (idt : Idt)
      (serial : Serial S) (k : Kernel S)
      → kernel ports window registers load_tss wide fuel m header magic mem idt serial ≡ some k
      → let ready = load_tss (make_tss m.gdt_tss_ptr m.task_state_segment m.kernel_stack mem) in
        (magic ≡ multiboot2_bootloader_magic)
        × (init_gdt m.gdt_tss_ptr m.gdt_ptr ≡ true)
        × IsReady wide ready k.boot
        × IsRunning m k
  unfolding kernel
  kernel-IsRunning wide fuel m header magic mem idt serial k h =
      let (r, loads, h₁) =
        >>=-eq-some
          (init_gdt_tss load_tss 0 m.gdt_tss_ptr m.gdt_ptr m.task_state_segment m.kernel_stack mem)
          _ h in
      let (there, same_mem) =
        init_gdt_tss-memory 0 m.gdt_tss_ptr m.gdt_ptr m.task_state_segment m.kernel_stack mem r
          loads in
      let ((b, vmm), boots, h₂) = >>=-eq-some (kmain wide fuel m.cr3 header magic r.1) _ h₁ in
      let (right, ready) = kmain_lem wide fuel m.cr3 header magic r.1 b vmm boots in
      let (running, same) = start-IsRunning fuel m _ _ b vmm k h₂ in
      let ready' = subst (IsReady wide r.1) (sym same) ready in
      (right, there, subst (λ mem'. IsReady wide mem' k.boot) same_mem ready', running)
