-- ===== src/Tests/Apic.antt =====
-- `apic_init` with the usual address of the local controller.
use twos.Base.{
  Memory, load, store, store_outside, load-store_self, ℕ, ◌+◌, ◌*◌, ◌/◌, ◌%◌, ◌^◌, ◌≤◌, ◌≡◌, inl,
  some, [], ◌∷◌, arith,
}
use twos.Mem.Virt.{kernel_vaddr, idx_offset, virt_current_pd}
use twos.Mem.Virt.Level.{load-zero}
use twos.Mem.Virt.Way.{CanMap}
use twos.Mem.Virt.Walk.{translate}
use twos.Device.Port.{Ports}
use twos.Device.IoApic.{Window}
use twos.Device.Lapic.{spurious_int}
use twos.Device.ApicInit.{lapic_addr_offset, Apic, apic_init, apic_init_lem}

-- The table of processors is at 0x9000.
abbrev table_memory : Memory
table_memory = store 4 (0x9000 + lapic_addr_offset) 0xfee00000 (λ b. 0)

abbrev silent_ports : Ports ℕ
silent_ports = record { port_byte_in = λ port s. (0, s); port_byte_out = λ port v s. s }

abbrev silent_window : Window ℕ
silent_window = record { read32 = λ a s. (0, s); write32 = λ a v s. s }

abbrev before_apic : Apic ℕ
before_apic = record {
  lapic = record { id = 0; base = 0 };
  vmm = record {
    mem = table_memory;
    physmem = record { pmm = []; mmaps = []; size = 0; mm_end = 0; end_addr = 0; total_avail = 0 };
    cur = kernel_vaddr + 0x200000;
  };
  handlers = λ n. 0;
  hardware = 0;
}

high_zero : (b : ℕ) → 0x10000 ≤ b → table_memory b ≡ 0
high_zero b h =
    store_outside 4 (0x9000 + lapic_addr_offset) 0xfee00000 (λ b. 0) b (omega (arith, h))

high_load : (a : ℕ) → 0x10000 ≤ a → load 8 a table_memory ≡ 0
high_load a h = load-zero 8 a table_memory λ b p q. high_zero b (omega (arith, h, p))

lapic_address : load 4 (0x9000 + lapic_addr_offset) table_memory ≡ 0xfee00000
lapic_address = load-store_self 4 (0x9000 + lapic_addr_offset) 0xfee00000 (λ b. 0) (omega arith)

before_apic-CanMap :
    CanMap
      (virt_current_pd 0x1000)
      (load 4 (0x9000 + lapic_addr_offset) table_memory)
      before_apic.vmm
before_apic-CanMap =
    let base = load 4 (0x9000 + lapic_addr_offset) table_memory in
    let unused = high_load (kernel_vaddr + 0x200000 + idx_offset) (omega arith) in
    let slot = virt_current_pd 0x1000 + 8 * (base / 2 ^ 39 % 512) in
    (
      ground arith,
      record {
        from = omega arith;
        upto = omega arith;
        aligned = ground arith;
        room = omega (arith, unused);
        clear = λ b h h'. high_zero b (omega (arith, h));
      },
      inl (omega (arith, unused)),
      inl (omega (arith, high_load slot (omega arith))),
    )

apic_init_example :
    (a' : Apic ℕ) × (apic_init silent_ports silent_window 0x200 0x1000 0x9000
        (0x9100 ∷ [])
        77
        before_apic
      ≡ some a')
    × (a'.lapic.base ≡ load 4 (0x9000 + lapic_addr_offset) table_memory)
    × ((v : ℕ)
        → v / 2 ^ 21 ≡ a'.lapic.base / 2 ^ 21
        → translate a'.vmm.mem (virt_current_pd 0x1000) v ≡ some v)
    × (a'.handlers spurious_int ≡ 77)
apic_init_example =
    apic_init_lem silent_ports silent_window 0x200 0x1000 0x9000 0x9100 [] 77 before_apic
      (omega arith) (omega (arith, lapic_address)) before_apic-CanMap
