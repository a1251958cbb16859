-- ===== src/Acpi/Init.antt =====
-- `acpi_init` and `acpi_init_madt` of src/kernel/acpi/acpi.c on the kernel's memory: page tables, heap
-- and the tables of the firmware. `none` stands for a panic, a failed assertion, and for what the
-- parts leave undefined.
use twos.Base.{ℕ, ◌+◌, not, if◌then◌else◌, Bool, Option, none, some, ◌>>=◌, [], ◌∷◌}
use twos.Acpi.{
  Table, Collected, sdt_length, acpi_validate_rsdp, is_v2, root_address, is_root, acpi_find_tbl,
  walk_madt,
}
use twos.Acpi.Alloc.{returned, alloc_tables, all_tables}
use twos.Acpi.Walk.{empty_tables}
use twos.Mem.Heap.{Heap}
use twos.Mem.Virt.{Vmm, virt_map_page, virt_current_pd, page_default}

-- The struct `acpi`: `rsdt` is `xsdt` too where `is_v2` holds.
pub record Acpi : Type 0 where
  pub rsdp : ℕ
  pub v2 : Bool
  pub rsdt : ℕ
  pub madt : ℕ
  pub idx : Table → ℕ
  pub tbl : Table → ℕ

-- Offset of `table` in `madt_t`.
abbrev pub madt_table_offset : ℕ
madt_table_offset = 44

-- On the heap `heap`, whose bytes are in memory with all the rest.
unfoldable pub acpi_init_madt : ℕ → ℕ → Heap → Option (ℕ × (Table → ℕ) × Collected × Heap)
acpi_init_madt fuel xsdt heap =
    acpi_find_tbl (b'A' ∷ b'P' ∷ b'I' ∷ b'C' ∷ []) xsdt heap.mem >>= λ madt.
    returned (alloc_tables all_tables (λ t. 0) heap) >>= λ (tbl, heap').
    let upto = madt + sdt_length madt heap'.mem in
    walk_madt tbl fuel (madt + madt_table_offset) upto (empty_tables heap'.mem) >>= λ c.
    let heap₂ : Heap = record heap' { mem = c.mem } in some (madt, tbl, c, heap₂)

unfoldable pub acpi_init : ℕ → ℕ → ℕ → Vmm → Heap → Option (Acpi × Vmm × Heap)
acpi_init fuel cr3 rsdp vmm heap =
    let v2 = is_v2 rsdp vmm.mem in
    let sdt = root_address rsdp vmm.mem in
    let mapped = virt_map_page (virt_current_pd cr3) sdt sdt page_default vmm >>= λ (_, vmm').
    let heap' : Heap = record heap { mem = vmm'.mem } in
    let made = acpi_init_madt fuel sdt heap' >>= λ (madt, tbl, c, heap₂). some (
      record { rsdp = rsdp; v2 = v2; rsdt = sdt; madt = madt; idx = c.idx; tbl = tbl },
      record vmm' { mem = c.mem },
      heap₂,
    ) in
    if not (is_root v2 sdt vmm'.mem) then none else if v2 then made else none in
    if acpi_validate_rsdp rsdp vmm.mem then mapped else none
