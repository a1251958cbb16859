-- ===== src/Device/IoApicInit.antt =====
-- `ioapic_init` of src/kernel/apic/ioapic.c behind the mapping of its registers, which Kernel/Start has.
pub mod Masked
use twos.Base.{
  ℕ, zero, suc, ◌+◌, ◌*◌, ◌/◌, ◌^◌, ◌==◌, ◌||◌, not, ltb, if◌then◌else◌, Option, none, some, List,
  [], ◌∷◌, u8, u64, ◌>>>◌, update,
}
use twos.Mem.Virt.{kernel_vaddr}
use twos.Device.IoApic.{
  Window, IoApic, Override, ioapicver, num_irq, ioapic_read, ioapic_mask_gsi,
  ioapic_map_redtbl_entry,
}

-- `KERNEL_VADDR_SIZE` of include/kernel/kernel.h.
abbrev pub kernel_vaddr_size : ℕ
kernel_vaddr_size = 0x40000000

module _ {S : Type 0} (window : Window S) where
  -- `for (uint8_t i = 0; i < max_redir + 1; i++) ioapic_mask_gsi(i)`, with `left` rounds to go.
  unfoldable pub mask_entries : ℕ → ℕ → IoApic → S → S
  mask_entries zero i ioapic s = s
  mask_entries (suc left) i ioapic s =
      mask_entries left (i + 1) ioapic ((ioapic_mask_gsi window ioapic i s).1)

  -- The loop over the overrides, with `irq_map`.
  unfoldable pub map_overrides : List Override → IoApic → (ℕ → ℕ) × S → (ℕ → ℕ) × S
  map_overrides [] ioapic (irq_map, s) = (irq_map, s)
  map_overrides (o ∷ ioso_apic) ioapic (irq_map, s) =
      let s' = ioapic_map_redtbl_entry window ioapic (u8 (o.gsi)) (o.irq) s in
      let irq_map' = if ltb (o.gsi) num_irq then update irq_map (o.gsi) 1 else irq_map in
      map_overrides ioso_apic ioapic (irq_map', s')

  -- The loop over the lines that no override has taken, with `left` of them to go.
  unfoldable pub map_lines : ℕ → ℕ → IoApic → (ℕ → ℕ) → S → S
  map_lines zero i ioapic irq_map s = s
  map_lines (suc left) i ioapic irq_map s =
      let s' = if irq_map i == 0 then ioapic_map_redtbl_entry window ioapic i i s else s in
      map_lines left (i + 1) ioapic irq_map s'

  -- `none` where the assertion fails, or where the byte that counts the entries never reaches 256.
  unfoldable pub ioapic_init : ℕ → ℕ → List Override → S → Option (IoApic × S)
  ioapic_init io_apic_addr gsib ioso_apic s =
      let version = ioapic_read window io_apic_addr ioapicver s in
      let ioapic : IoApic = record {
        base = io_apic_addr;
        gsi_base = gsib;
        max_redir = u8 ((version.0 >>> 16) + 1);
      } in
      let masked = mask_entries (ioapic.max_redir + 1) 0 ioapic (version.1) in
      let overridden = map_overrides ioso_apic ioapic ((λ i. 0), masked) in
      if not (ltb (u64 (io_apic_addr + kernel_vaddr)) (kernel_vaddr + kernel_vaddr_size))
        || (ioapic.max_redir == 255)
      then none
      else some (ioapic, map_lines num_irq 0 ioapic (overridden.0) (overridden.1))
