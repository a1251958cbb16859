-- ===== src/Tests/Start.antt =====
-- A boot into the loop: 160 MiB of memory, no framebuffer, and the firmware's tables of version 2 with
-- a processor, an interrupt controller and a timer.
use twos.Base.{
  true, [], ◌∷◌, List, Memory, load, store, update, ℕ, ◌+◌, ◌*◌, ◌^◌, ◌≡◌, refl, ◌==◌,
  if◌then◌else◌, Option, none, some, u64,
}
use twos.Device.Port.{Ports}
use twos.Device.IoApic.{Window}
use twos.Device.Hpet.{Registers, Hpet, main_counter_offset}
use twos.Device.Serial.{Serial}
use twos.Cpu.Idt.{Idt}
use twos.Mem.Virt.{kernel_vaddr}
use twos.Kernel.Start.{Machine, Kernel}
use twos.Kernel.Start.Running.{IsRunning, kernel-IsRunning}
use twos.Kernel.Main.{IsReady, multiboot2_bootloader_magic}
use twos.Kernel.Start.{
  start_heap, overrides, survived, start_ioapic, act, test_interrupts, start_devices, start, kernel,
}
use twos.Kernel.Main.{init_virt, kmain}
use twos.Kernel.Tags.{
  set_cmdline, take_parsed, on_cmdline, on_framebuffer, mmap_entries, on_mmap, on_efi, on_acpi,
  on_tag, walk_tags,
}
use twos.Acpi.{
  sum_bytes, acpi_validate_rsdp, acpi_validate_checksum, string_at, acpi_validate_sig, find_entry,
  acpi_find_tbl, is_root, table_of, put_entry, walk_madt,
}
use twos.Acpi.Init.{acpi_init_madt, acpi_init}
use twos.Acpi.Alloc.{returned, alloc_tables}
use twos.Cpu.Gdt.{access_byte, make_tss_entry, init_gdt}
use twos.Cpu.Gdt.Load.{copy_entry, make_tss, init_gdt_tss}
use twos.Cpu.Idt.{idt_set_descriptor, set_descriptors, clear_entries, clear_handlers, idt_init}
use twos.Cpu.Isr.{
  handle_error_generic, handle_pagefault, handle_gpf, isr_handler, irq_handler,
  register_interupt_handler,
}
use twos.Device.ApicInit.{apic_init}
use twos.Device.Hpet.{hpet_init}
use twos.Device.IoApic.{
  ioapicredtbl, ioapic_read, ioapic_write, ioapic_read_redtbl_entry, ioapic_mask_gsi,
  ioapic_unmask_gsi, find_override, gsi_of, ioapic_mask, ioapic_unmask, mask_from, unmask_from,
  ioapic_mask_all, ioapic_unmask_all, ioapic_map_redtbl_entry,
}
use twos.Device.IoApicInit.{mask_entries, map_overrides, map_lines, ioapic_init}
use twos.Device.Lapic.{lapic_write, lapic_read, get_lapic_id, lapic_enable}
use twos.Device.Pic.{
  pic_send_eoi, pic_get_irq_req, pic_disable, pic_enable, pic_set_mask, pic_clear_mask, pic_remap,
}
use twos.Device.Serial.{
  serial_setup, serial_init, serial_write, serial_write_all, e9_all, serial_print, serial_println,
  serial_set_e9,
}
use twos.Device.Framebuffer.{
  region_rgb, hsv_to_rgb, rgb_color, draw_pixel, draw_row, draw_rows,
  framebuffer_display_test_pattern,
}
use twos.Mem.Heap.{
  get_total_block_size, get_heap_end, get_heap_use, get_heap_free, create_heap_header,
  create_heap_footer, create_heap_block, find_from, find_best_free_space, expand_heap,
  alloc_greater, list_block, malloc_new, malloc_reuse, malloc, free, kmalloc_bootstrap, kalloc_init,
}
use twos.Mem.Virt.{
  clear_dirs, alloc_pt_block, first_block, next_block, take_table, new_page_table,
  virt_get_next_map_level, virt_map_page, virt_unmap_page, map_framebuffer, virtmem_init,
}
use twos.Mem.Phys.{get_phys, int_one_shl, set_phys, set_range, physmem_markregion, phys_free}
use twos.Mem.Phys.Alloc.{
  extend, scan_bits, scan_word, scan_words, mark_pages, finish_malloc, phys_malloc,
}
use twos.Mem.Phys.Init.{
  survey_entry, survey, fill_used, region_use, probe, mark_map, mark_low, mark_and_probe,
  physmem_init,
}
use twos.Mem.Page.{round_up_to_page, calc_num_pages, page_align, is_page_aligned}
use twos.Types.OrderedArray.{
  oarray_init, shift_up, find_slot, oarray_insert, shift_down, oarray_remove, oarray_get,
}
use twos.Kstd.Compare.{char_lt, verdict, strcmp, match_bytes, strncmp}
use twos.Kstd.Copy.{memcpy, memset, strlen, strnlen, strcpy, strncpy, strcat, strncat}
use twos.Boot.Cmdline.{
  read_value, up_to_zero, write_arg, add_arg, parse_loop, cmdline_parse, find_arg, get_arg_idx,
  cmdline_hasarg, cmdline_getarg, cmdline_is_true,
}

-- A text of bytes at an address.
abbrev put : ℕ → List ℕ → Memory → Memory
put a [] mem = mem
put a (b ∷ bytes) mem = put (a + 1) bytes (update mem a b)

abbrev tags : Memory → Memory
tags mem = store 4 0x1008 6 (
    store 4 0x100c 40 (
      store 4 0x1010 24 (
        store 8 0x1020 0xa000000 (
          store 4 0x1028 1 (
            store 4 0x1030 15 (
              store 4 0x1034 44
                (store 1 0x1040 254 (store 1 0x1047 2 (store 8 0x1050 0x5000 mem)))))))))

abbrev page_tables : Memory → Memory
page_tables mem =
    store 8 (kernel_vaddr + 0x2000) 0x3003
      (store 8 (kernel_vaddr + 0x3000) 0x4003 (store 8 (kernel_vaddr + 0x3018) 0x4003 mem))

abbrev xsdt : Memory → Memory
xsdt mem =
    put 0x5000 (b'X' ∷ b'S' ∷ b'D' ∷ b'T' ∷ 52 ∷ [])
      (store 1 0x5009 185 (store 8 0x5024 0x6000 (store 8 0x502c 0x7000 mem)))

abbrev madt : Memory → Memory
madt mem = put 0x6000 (b'A' ∷ b'P' ∷ b'I' ∷ b'C' ∷ 64 ∷ []) (
    store 1 0x6009 242 (
      store 4 0x6024 0xfee00000
        (store 1 0x602d 8 (store 1 0x6034 1 (store 1 0x6035 12 (store 4 0x6038 0xfec00000 mem))))))

abbrev hpet_table : Memory → Memory
hpet_table mem =
    put 0x7000 (b'H' ∷ b'P' ∷ b'E' ∷ b'T' ∷ 56 ∷ [])
      (store 1 0x7009 201 (store 8 0x702c 0xfed00000 mem))

abbrev boot_memory : Memory
boot_memory = tags (page_tables (xsdt (madt (hpet_table (λ a. 0)))))

abbrev silent_ports : Ports ℕ
silent_ports = record { port_byte_in = λ port s. (0, s); port_byte_out = λ port v s. s }

abbrev silent_window : Window ℕ
silent_window = record { read32 = λ a s. (0, s); write32 = λ a v s. s }

-- A counter that every access moves on by one tick, of 10 ns.
abbrev ticking : Registers ℕ
ticking = record {
  read64 = λ a s. (if a == 0xfed00000 then 10000000 * 2 ^ 32 else u64 s, s + 1);
  write64 = λ a v s. if a == 0xfed00000 + main_counter_offset then v else s;
}

abbrev machine : Machine
machine = record {
  cr3 = 0x2000;
  cpuid_edx = 512;
  gdt_tss_ptr = 0x8028;
  gdt_ptr = 0x8000;
  task_state_segment = 0x8100;
  kernel_stack = 0x9000;
  idt_address = 0x8200;
  isr_stub_table = λ vec. 0xa000 + 16 * vec;
  spurious_handler = 0xb000;
  test_handler = 0xb100;
  heap_slots = λ i. 0;
}

abbrev no_idt : Idt
no_idt = record {
  entries = λ vec. record {
    isr_low = 0;
    kernel_cs = 0;
    ist = 0;
    attributes = 0;
    isr_mid = 0;
    isr_high = 0;
    reserved = 0;
  };
  limit = 0;
  base = 0;
  handlers = λ n. 0;
}

abbrev no_serial : Serial ℕ
no_serial = record { has_init = 0; use_e9 = 0; hardware = 0 }

abbrev shl_at_65 : ℕ → ℕ
shl_at_65 bit = 0

abbrev started : Option (Kernel ℕ)
started =
    kernel silent_ports silent_window ticking (λ mem. mem) shl_at_65 4 machine 0x1000 0x36d76289
      boot_memory no_idt no_serial

abbrev timer_of : Option (Kernel ℕ) → Option Hpet
timer_of none = none
timer_of (some k) = some (k.hpet)

timer_of-some :
    (o : Option (Kernel ℕ)) (t : Hpet)
    → timer_of o ≡ some t
    → (k : Kernel ℕ) × (o ≡ some k) × (k.hpet ≡ t)
timer_of-some none t h = absurd (cc h)
timer_of-some (some k) t h = (k, refl, cc h)

abbrev timer : Hpet
timer = record { tbl = 0xfed00000; f_per_tick = 10000000; tick_per_us = 100 }

started-timer : timer_of started ≡ some timer
unfolding start_heap overrides survived start_ioapic act test_interrupts start_devices start kernel
    init_virt kmain set_cmdline take_parsed on_cmdline on_framebuffer mmap_entries on_mmap on_efi
    on_acpi on_tag walk_tags sum_bytes acpi_validate_rsdp acpi_validate_checksum string_at
    acpi_validate_sig find_entry acpi_find_tbl is_root table_of put_entry walk_madt acpi_init_madt
    acpi_init returned alloc_tables access_byte make_tss_entry init_gdt copy_entry make_tss
    init_gdt_tss idt_set_descriptor set_descriptors clear_entries clear_handlers idt_init
    handle_error_generic handle_pagefault handle_gpf isr_handler irq_handler
    register_interupt_handler apic_init hpet_init ioapicredtbl ioapic_read ioapic_write
    ioapic_read_redtbl_entry ioapic_mask_gsi ioapic_unmask_gsi find_override gsi_of ioapic_mask
    ioapic_unmask mask_from unmask_from ioapic_mask_all ioapic_unmask_all ioapic_map_redtbl_entry
    mask_entries map_overrides map_lines ioapic_init lapic_write lapic_read get_lapic_id
    lapic_enable pic_send_eoi pic_get_irq_req pic_disable pic_enable pic_set_mask pic_clear_mask
    pic_remap serial_setup serial_init serial_write serial_write_all e9_all serial_print
    serial_println serial_set_e9 region_rgb hsv_to_rgb rgb_color draw_pixel draw_row draw_rows
    framebuffer_display_test_pattern get_total_block_size get_heap_end get_heap_use get_heap_free
    create_heap_header create_heap_footer create_heap_block find_from find_best_free_space
    expand_heap alloc_greater list_block malloc_new malloc_reuse malloc free kmalloc_bootstrap
    kalloc_init clear_dirs alloc_pt_block first_block next_block take_table new_page_table
    virt_get_next_map_level virt_map_page virt_unmap_page map_framebuffer virtmem_init get_phys
    int_one_shl set_phys set_range physmem_markregion phys_free extend scan_bits scan_word
    scan_words mark_pages finish_malloc phys_malloc survey_entry survey fill_used region_use probe
    mark_map mark_low mark_and_probe physmem_init round_up_to_page calc_num_pages page_align
    is_page_aligned oarray_init shift_up find_slot oarray_insert shift_down oarray_remove oarray_get
    char_lt verdict strcmp match_bytes strncmp memcpy memset strlen strnlen strcpy strncpy strcat
    strncat read_value up_to_zero write_arg add_arg parse_loop cmdline_parse find_arg get_arg_idx
    cmdline_hasarg cmdline_getarg cmdline_is_true load store
started-timer = refl

kernel_runs : (k : Kernel ℕ) × (started ≡ some k) × (k.hpet ≡ timer)
kernel_runs = timer_of-some started timer started-timer

kernel_example :
    (0x36d76289 ≡ multiboot2_bootloader_magic)
    × (init_gdt 0x8028 0x8000 ≡ true)
    × IsReady shl_at_65 (make_tss 0x8028 0x8100 0x9000 boot_memory) kernel_runs.0.boot
    × IsRunning machine kernel_runs.0
kernel_example =
    kernel-IsRunning silent_ports silent_window ticking (λ mem. mem) shl_at_65 4 machine 0x1000
      0x36d76289 boot_memory no_idt no_serial kernel_runs.0 kernel_runs.1
