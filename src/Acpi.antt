-- ===== src/Acpi.antt =====
-- The tables of ACPI: src/kernel/acpi/acpi.c and include/kernel/acpi. A table is read from
-- memory at the offsets of its packed struct; the debug output is left out.
pub mod Tables
pub mod Madt
pub mod Walk
pub mod Alloc
pub mod Init
use twos.Base.{
  ℕ, zero, suc, ◌+◌, ◌-◌, ◌*◌, ◌/◌, ◌%◌, ◌^◌, ◌==◌, ◌&&◌, ◌||◌, not, ltb, leb, if◌then◌else◌, Bool,
  true, false, Option, none, some, List, [], ◌∷◌, ◌++◌, ◌>>=◌, Memory, load, store, u8, u64,
}
use twos.Kstd.Compare.{Sign, nil, minus, plus, strncmp}

-- `sizeof(acpi_sdt_header_t)`.
abbrev pub sdt_header_size : ℕ
sdt_header_size = 36

abbrev pub rsdp_revision : ℕ → Memory → ℕ
rsdp_revision rsdp mem = mem (rsdp + 15)

abbrev pub rsdp_rsdt_addr : ℕ → Memory → ℕ
rsdp_rsdt_addr rsdp mem = load 4 (rsdp + 16) mem

abbrev pub rsdp_xsdt_addr : ℕ → Memory → ℕ
rsdp_xsdt_addr rsdp mem = load 8 (rsdp + 24) mem

abbrev pub sdt_length : ℕ → Memory → ℕ
sdt_length header mem = load 4 (header + 4) mem

abbrev pub xsdt_entry : ℕ → ℕ → Memory → ℕ
xsdt_entry xsdt i mem = load 8 (xsdt + sdt_header_size + 8 * i) mem

-- `sum += p[i]` for the `n` bytes from `p`, in a byte.
unfoldable pub sum_bytes : ℕ → ℕ → Memory → ℕ → ℕ
sum_bytes zero p mem sum = sum
sum_bytes (suc n) p mem sum = sum_bytes n (p + 1) mem (u8 (sum + mem p))

unfoldable pub acpi_validate_rsdp : ℕ → Memory → Bool
acpi_validate_rsdp rsdp mem = not (rsdp == 0) && (sum_bytes 20 rsdp mem 0 == 0)

unfoldable pub acpi_validate_checksum : ℕ → Memory → Bool
acpi_validate_checksum header mem = sum_bytes (sdt_length header mem) header mem 0 == 0

-- The bytes from `p` up to a zero, at most `n`.
unfoldable pub string_at : ℕ → ℕ → Memory → List ℕ
string_at zero p mem = []
string_at (suc n) p mem =
    let rest = string_at n (p + 1) mem in if mem p == 0 then [] else mem p ∷ rest

abbrev pub is_nil : Sign → Bool
is_nil nil = true
is_nil minus = false
is_nil plus = false

-- `SDT_SIG_LEN` bytes are compared.
unfoldable pub acpi_validate_sig : ℕ → List ℕ → Memory → Bool
acpi_validate_sig header sig mem = is_nil (strncmp (string_at 4 header mem) sig 4)

-- The loop of `acpi_find_tbl` over the `n` entries from `i`.
unfoldable pub find_entry : ℕ → ℕ → List ℕ → ℕ → Memory → Option ℕ
find_entry zero i sig xsdt mem = none
find_entry (suc n) i sig xsdt mem =
    let entry = xsdt_entry xsdt i mem in
    let rest = find_entry n (i + 1) sig xsdt mem in
    if acpi_validate_sig entry sig mem && acpi_validate_checksum entry mem then some entry else rest

-- The number of entries, in 64-bit words.
abbrev pub num_entries : ℕ → Memory → ℕ
num_entries xsdt mem = u64 (sdt_length xsdt mem + 2 ^ 64 - sdt_header_size) / 8

-- `acpi_find_tbl` where `is_v2` holds; it panics otherwise. `none` is the null pointer.
unfoldable pub acpi_find_tbl : List ℕ → ℕ → Memory → Option ℕ
acpi_find_tbl sig xsdt mem = find_entry (num_entries xsdt mem) 0 sig xsdt mem

-- `acpi.is_v2`, and the address of the root table that goes with it.
abbrev pub is_v2 : ℕ → Memory → Bool
is_v2 rsdp mem = leb 2 (rsdp_revision rsdp mem)

abbrev pub root_address : ℕ → Memory → ℕ
root_address rsdp mem = if is_v2 rsdp mem then rsdp_xsdt_addr rsdp mem else rsdp_rsdt_addr rsdp mem

-- The checks of `acpi_init` on the root table.
unfoldable pub is_root : Bool → ℕ → Memory → Bool
is_root v2 sdt mem =
    let sig = if v2 then b'X' ∷ b'S' ∷ b'D' ∷ b'T' ∷ [] else b'R' ∷ b'S' ∷ b'D' ∷ b'T' ∷ [] in
    ltb (sdt_length sdt mem) 0x200000
    && (acpi_validate_checksum sdt mem && acpi_validate_sig sdt sig mem)

-- The tables of `acpi.tbl`, which `acpi.idx` counts.
pub data Table : Type 0 where
  proc_apic io_apic ioso_apic ionmi_apic nmi_lapic addro_lapic procx2_lapic : Table

-- The type of the entries that a table is for.
abbrev pub kind_of : Table → ℕ
kind_of proc_apic = 0
kind_of io_apic = 1
kind_of ioso_apic = 2
kind_of ionmi_apic = 3
kind_of nmi_lapic = 4
kind_of addro_lapic = 5
kind_of procx2_lapic = 9

-- The cases of the `switch`.
unfoldable pub table_of : ℕ → Option Table
table_of kind =
    if kind == 0
    then some proc_apic
    else if kind == 1
    then some io_apic
    else if kind == 2
    then some ioso_apic
    else if kind == 3
    then some ionmi_apic
    else if kind == 4
    then some nmi_lapic
    else if kind == 5
    then some addro_lapic
    else if kind == 9
    then some procx2_lapic
    else none

-- What the loop changes: the counts, and the memory of the tables.
pub record Collected : Type 0 where
  pub idx : Table → ℕ
  pub mem : Memory

abbrev pub counted : (Table → ℕ) → Table → Table → ℕ
counted idx t k = if kind_of k == kind_of t then u64 (idx t + 1) else idx k

module _ (tbl : Table → ℕ) where
  -- `acpi.tbl.…[acpi.idx.…++] = ptr`.
  unfoldable pub put_entry : Option Table → ℕ → Collected → Collected
  put_entry none ptr c = c
  put_entry (some t) ptr c = record {
    idx = counted c.idx t;
    mem = store 8 (tbl t + 8 * c.idx t) ptr c.mem;
  }

  -- The loop of `acpi_init_madt`, with fuel: `none` where it has not come to the end.
  unfoldable pub walk_madt : ℕ → ℕ → ℕ → Collected → Option Collected
  walk_madt zero ptr max_madt_addr c = if ltb ptr max_madt_addr then none else some c
  walk_madt (suc fuel) ptr max_madt_addr c =
      let c' = put_entry (table_of (c.mem ptr)) ptr c in
      let rest = walk_madt fuel (u64 (ptr + c'.mem (ptr + 1))) max_madt_addr c' in
      if ltb ptr max_madt_addr then rest else some c
