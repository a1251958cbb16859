-- ===== src/Device/IoApic.antt =====
-- src/kernel/apic/ioapic.c: the I/O interrupt controller behind its two memory-mapped registers.
pub mod Mask
use twos.Base.{
  ℕ, zero, suc, ◌+◌, ◌-◌, ◌*◌, ◌/◌, ◌%◌, ◌^◌, ◌==◌, ◌||◌, not, ltb, leb, if◌then◌else◌, Bool, true,
  false, Option, none, some, List, [], ◌∷◌, u8, u16, u32, u64, ◌<<<◌, ◌>>>◌, bit_and, bit_or,
}

-- Hardware with states S: what reading a 32-bit word of its memory gives and does, and writing one.
pub record Window (S : Type 0) : Type 0 where
  pub read32 : ℕ → S → ℕ × S
  pub write32 : ℕ → ℕ → S → S

-- The struct `ioapic`; its `idx` is never used.
pub record IoApic : Type 0 where
  pub base : ℕ
  pub gsi_base : ℕ
  pub max_redir : ℕ

-- An interrupt source override of the MADT, `ioso_apic_t`.
pub record Override : Type 0 where
  pub irq : ℕ
  pub gsi : ℕ

abbrev pub ioapicver : ℕ
ioapicver = 0x01

abbrev pub idt_exceptions : ℕ
idt_exceptions = 32

abbrev pub num_irq : ℕ
num_irq = 16

-- `IOAPICREDTBL(n)` in a byte.
unfoldable pub ioapicredtbl : ℕ → ℕ
ioapicredtbl n = u8 (0x10 + 2 * u8 n)

module _ {S : Type 0} (window : Window S) where
  unfoldable pub ioapic_read : ℕ → ℕ → S → ℕ × S
  ioapic_read base reg s = window.read32 (base + 0x10) (window.write32 base reg s)

  unfoldable pub ioapic_write : ℕ → ℕ → ℕ → S → S
  ioapic_write base reg word s = window.write32 (base + 0x10) word (window.write32 base reg s)

  -- The upper half is a 32-bit word, shifted by 31 places.
  unfoldable pub ioapic_read_redtbl_entry : ℕ → ℕ → S → ℕ × S
  ioapic_read_redtbl_entry base entry s =
      let offset = ioapicredtbl entry in
      let lower = ioapic_read base offset s in
      let upper = ioapic_read base (offset + 1) (lower.1) in
      (bit_or (lower.0) (u32 (upper.0 * 2 ^ 31)), upper.1)

  unfoldable pub ioapic_mask_gsi : IoApic → ℕ → S → ℕ × S
  ioapic_mask_gsi ioapic idx s =
      let word = ioapic_read_redtbl_entry (ioapic.base) idx s in
      if ltb (ioapic.max_redir) idx then (1, word.1) else (
        0,
        ioapic_write (ioapic.base) (ioapicredtbl idx) (u32 (bit_or (word.0) (2 ^ 16))) (word.1),
      )

  unfoldable pub ioapic_unmask_gsi : IoApic → ℕ → S → ℕ × S
  ioapic_unmask_gsi ioapic idx s =
      let word = ioapic_read_redtbl_entry (ioapic.base) idx s in
      if ltb (ioapic.max_redir) idx then (1, word.1) else (
        0,
        ioapic_write (ioapic.base) (ioapicredtbl idx) (u32 (bit_and (word.0) (2 ^ 64 - 1 - 2 ^ 16)))
            (word.1),
      )

  -- The line that an override gives an interrupt, the first in the table; `none` where none does.
  unfoldable pub find_override : ℕ → List Override → Option ℕ
  find_override irq [] = none
  find_override irq (o ∷ ioso_apic) =
      let rest = find_override irq ioso_apic in if o.irq == irq then some (u8 (o.gsi)) else rest

  -- The line to mask: interrupt 0 is never overridden.
  unfoldable pub gsi_of : ℕ → List Override → ℕ
  gsi_of irq ioso_apic =
      if irq == 0 then irq else elim (find_override irq ioso_apic) [ none ↦ irq | some gsi ↦ gsi ]

  unfoldable pub ioapic_mask : IoApic → List Override → ℕ → S → S
  ioapic_mask ioapic ioso_apic irq s = (ioapic_mask_gsi ioapic (gsi_of irq ioso_apic) s).1

  unfoldable pub ioapic_unmask : IoApic → List Override → ℕ → S → S
  ioapic_unmask ioapic ioso_apic irq s = (ioapic_unmask_gsi ioapic (gsi_of irq ioso_apic) s).1

  -- The loops over `n` interrupts from `i`.
  unfoldable pub mask_from : ℕ → IoApic → List Override → ℕ → S → S
  mask_from zero ioapic ioso_apic i s = s
  mask_from (suc n) ioapic ioso_apic i s =
      mask_from n ioapic ioso_apic (i + 1) (ioapic_mask ioapic ioso_apic i s)

  unfoldable pub unmask_from : ℕ → IoApic → List Override → ℕ → S → S
  unmask_from zero ioapic ioso_apic i s = s
  unmask_from (suc n) ioapic ioso_apic i s =
      unmask_from n ioapic ioso_apic (i + 1) (ioapic_unmask ioapic ioso_apic i s)

  unfoldable pub ioapic_mask_all : IoApic → List Override → S → S
  ioapic_mask_all ioapic ioso_apic = mask_from num_irq ioapic ioso_apic idt_exceptions

  unfoldable pub ioapic_unmask_all : IoApic → List Override → S → S
  ioapic_unmask_all ioapic ioso_apic = unmask_from num_irq ioapic ioso_apic idt_exceptions

  -- The fields of the entry: vector in bits 0 to 7, mask in bit 16, destination in bits 56 to 63.
  abbrev pub redirect : ℕ → ℕ → ℕ
  redirect raw vector =
      bit_or (raw / 2 ^ 8 * 2 ^ 8 + u8 (vector + idt_exceptions)) (2 ^ 16) % 2 ^ 56

  unfoldable pub ioapic_map_redtbl_entry : IoApic → ℕ → ℕ → S → S
  ioapic_map_redtbl_entry ioapic entry vector s =
      let raw = ioapic_read_redtbl_entry (ioapic.base) entry s in
      let word = redirect (raw.0) vector in
      let offset = ioapicredtbl entry in
      let s1 = ioapic_write (ioapic.base) offset (word % 2 ^ 32) (raw.1) in
      ioapic_write (ioapic.base) (offset + 1) (word / 2 ^ 32) s1
