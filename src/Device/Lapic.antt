-- ===== src/Device/Lapic.antt =====
-- The register accesses of src/kernel/apic/apic.c: the local interrupt controller behind its
-- memory-mapped registers.
use twos.Base.{ℕ, ◌+◌, u8, bit_or}
use twos.Device.IoApic.{Window}

abbrev pub lapic_id_reg : ℕ
lapic_id_reg = 0x20

abbrev pub apic_spurious_vector_reg : ℕ
apic_spurious_vector_reg = 0xf0

abbrev pub apic_enable : ℕ
apic_enable = 0x100

abbrev pub spurious_int : ℕ
spurious_int = 0xff

-- The address `base` is the one of the struct `lapic`.
module _ {S : Type 0} (window : Window S) (base : ℕ) where
  unfoldable pub lapic_write : ℕ → ℕ → S → S
  lapic_write reg word s = window.write32 (base + reg) word s

  unfoldable pub lapic_read : ℕ → S → ℕ × S
  lapic_read reg s = window.read32 (base + reg) s

  unfoldable pub get_lapic_id : S → ℕ × S
  get_lapic_id s = let id = lapic_read lapic_id_reg s in (u8 (id.0), id.1)

  unfoldable pub lapic_enable : S → S
  lapic_enable s = lapic_write apic_spurious_vector_reg (bit_or apic_enable spurious_int) s
