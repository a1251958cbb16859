-- ===== src/Tests/Cpu.antt =====
-- The tables and handlers of the processor on small inputs.
use twos.Base.{
  Memory, some, inr, ◌⊎◌, ◌↔◌, uint32_max, ℕ, ◌+◌, ◌*◌, ◌%◌, ◌≤◌, ◌<◌, ◌≡◌, refl, [], ◌∷◌, arith,
}
use twos.Cpu.Gdt.{tss_gdt_offset}
use twos.Cpu.Gdt.Load.{gdt_lines, init_gdt_tss, IsLoadable, init_gdt_tss_lem}
use twos.Cpu.Isr.Names.{alignment_check, number, text, of, printed_name, printed_name_iff}
use twos.Cpu.Isr.Report.{causes, filter, is_said, all_causes, causes_lem}
use twos.Cpu.Idt.{idt_entry_size, Idt, idt_init, gate_offset, idt_init_lem}
use twos.Cpu.Isr.{
  Faults, faults_at_boot, handle_error_generic, handle_pagefault, isr_handler, returns,
}
use twos.Cpu.Isr.Laws.{count, Reachable-bounded, boot, handled}

abbrev no_bytes : Memory
no_bytes a = 0

init_gdt_tss_example :
    (ready : Memory) × (init_gdt_tss
        (λ mem. mem)
        2
        (0x8000 + tss_gdt_offset)
        0x8000
        0xffffffff80123456
        0x9000
        no_bytes
      ≡ some (gdt_lines 2 0x8000 no_bytes ready, ready))
    × IsLoadable (0x8000 + tss_gdt_offset) 0xffffffff80123456 0x9000 no_bytes ready
    × ((i : ℕ) → i < tss_gdt_offset → ready (0x8000 + i) ≡ no_bytes (0x8000 + i))
init_gdt_tss_example =
    init_gdt_tss_lem (λ mem. mem) 2 0x8000 0xffffffff80123456 0x9000 no_bytes (omega arith)
      (omega arith) (omega arith) (inr (omega arith))

printed_name_example :
    (printed_name (number alignment_check) ≡ text (of alignment_check))
    ↔ ((number alignment_check < 16) ⊎ (21 < number alignment_check))
printed_name_example = printed_name_iff alignment_check

causes_example : causes 0b10111 ≡ filter (is_said 0b10111) all_causes
causes_example = causes_lem 0b10111

abbrev stubs : ℕ → ℕ
stubs vec = 0xffffffff80100000 + 16 * (vec % 48)

abbrev no_idt : Idt
no_idt = record {
  entries = λ vec. record {
    isr_low = 0;
    kernel_cs = 0;
    ist = 0;
    attributes = 0;
    isr_mid = 0;
    isr_high = 0;
    reserved = 0;
  };
  limit = 0;
  base = 0;
  handlers = λ n. 0;
}

abbrev new_idt : Idt
new_idt = idt_init 0xffffffff80200000 stubs no_idt

idt_init_example :
    ((vec : ℕ)
      → vec < 48
      → (gate_offset (new_idt.entries vec) ≡ stubs vec)
        × ((new_idt.entries vec).attributes ≡ 0x8E)
        × ((new_idt.entries vec).kernel_cs ≡ 8))
    × ((vec : ℕ) → 48 ≤ vec → (new_idt.entries vec).attributes ≡ 0)
    × (new_idt.limit + 1 ≡ idt_entry_size * 255)
idt_init_example = idt_init_lem 0xffffffff80200000 stubs no_idt (λ vec. omega arith)

abbrev one_fault : Faults
one_fault = record { last_num = uint32_max; num_pfs = 1; num_gpfs = 0 }

one_fault_handled : isr_handler 14 faults_at_boot ≡ returns one_fault
unfolding isr_handler handle_pagefault
one_fault_handled = refl

Reachable-bounded_example : (count 14 (14 ∷ []) ≤ 4) × (count 13 (14 ∷ []) ≤ 1)
Reachable-bounded_example =
    Reachable-bounded {done = 14 ∷ []} {s = one_fault}
      (handled [] faults_at_boot one_fault 14 boot one_fault_handled)

abbrev divided : Faults
divided = record { last_num = 0; num_pfs = 0; num_gpfs = 0 }

divided_handled : isr_handler 0 faults_at_boot ≡ returns divided
unfolding isr_handler handle_error_generic
divided_handled = refl

abbrev no_handlers : ℕ → ℕ
no_handlers n = 0

abbrev other_irq : ℕ
other_irq = 34
