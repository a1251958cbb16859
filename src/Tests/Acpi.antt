-- ===== src/Tests/Acpi.antt =====
-- The tables of ACPI on small memories.
use twos.Base.{
  ◌==◌, if◌then◌else◌, Memory, load, inl, ℕ, ◌+◌, ◌*◌, ◌≤◌, length, ◌≡◌, refl, some, List, [], ◌∷◌,
  arith,
}
use twos.Kstd.Compare.{strncmp, match_bytes, char_lt}
use twos.Acpi.{
  sum_bytes, acpi_validate_checksum, string_at, acpi_validate_sig, find_entry, acpi_find_tbl, Table,
  kind_of, Collected, walk_madt,
}
use twos.Acpi.Tables.{IsFirstTable, acpi_find_tbl-IsFirstTable}
use twos.Acpi.Madt.{Entry, IsMadt, addresses, IsApart, IsTable, IsOutside}
use twos.Mem.Heap.{Heap}
use twos.Kernel.Start.First.{tables_after}
use twos.Kernel.Start.Tables.{HasEntries, start_tables_lem}
use twos.Acpi.Walk.{empty_tables, walk_madt_lem}

-- An XSDT at 1000 with one entry, which names the table at 2000: "APIC", 64 bytes, with two
-- interrupt controllers; its checksum is in byte 9.
abbrev machine : Memory
machine b =
    if b == 1004
    then 44
    else if b == 1036
    then 0xD0
    else if b == 1037
    then 7
    else if b == 2000
    then b'A'
    else if b == 2001
    then b'P'
    else if b == 2002
    then b'I'
    else if b == 2003
    then b'C'
    else if b == 2004
    then 64
    else if b == 2009
    then 142
    else if b == 2045
    then 8
    else if b == 2052
    then 1
    else if b == 2053
    then 12
    else 0

abbrev apic : List ℕ
apic = b'A' ∷ b'P' ∷ b'I' ∷ b'C' ∷ []

finds_madt : acpi_find_tbl apic 1000 machine ≡ some 2000
unfolding acpi_find_tbl find_entry acpi_validate_sig acpi_validate_checksum sum_bytes string_at load
    strncmp match_bytes char_lt
finds_madt = refl

machine_length : load 4 1004 machine ≡ 44
unfolding load
machine_length = refl

acpi_find_tbl_example :
    IsFirstTable b'A' b'P' b'I' b'C' 1000 machine 1 (acpi_find_tbl apic 1000 machine)
acpi_find_tbl_example =
    acpi_find_tbl-IsFirstTable b'A' b'P' b'I' b'C' 1000 1 machine (omega arith) (omega arith)
      (omega arith) (omega arith) machine_length (omega arith)

abbrev two_entries : List Entry
two_entries = record { kind = 0; size = 8 } ∷ record { kind = 1; size = 12 } ∷ []

two_entries-IsMadt : IsMadt machine 2044 two_entries 2064
unfolding IsMadt
two_entries-IsMadt =
    (refl, refl, omega arith, omega arith, (refl, refl, omega arith, omega arith, refl))

abbrev far_tables : Table → ℕ
far_tables t = 4096 + 256 * kind_of t

far_tables-IsApart : IsApart far_tables 2044 2064
far_tables-IsApart = record { tables = λ t k ne. omega (arith, ne); entries = λ t. omega arith }

two_entries_fit : (t : Table) → length (addresses (kind_of t) 2044 two_entries) ≤ 32
unfolding addresses
two_entries_fit t = ground arith

walk_madt_example :
    (c : Collected) × (walk_madt far_tables 2 2044 2064 (empty_tables machine) ≡ some c)
    × ((t : Table) → IsTable far_tables c t (addresses (kind_of t) 2044 two_entries))
    × ((a : ℕ) → IsOutside far_tables a → c.mem a ≡ machine a)
walk_madt_example =
    walk_madt_lem far_tables 2 2044 2064 two_entries machine far_tables-IsApart (omega arith)
      two_entries-IsMadt (omega arith) two_entries_fit

start_tables_example :
    (tbl : Table → ℕ) × (heap : Heap) × (c : Collected) × (tables_after (λ i. 0) machine
      ≡ some (tbl, heap))
    × (walk_madt tbl 2 2044 2064 (empty_tables heap.mem) ≡ some c)
    × HasEntries machine tbl 2044 two_entries c
start_tables_example =
    start_tables_lem (λ i. 0) 2 2044 2064 two_entries machine (inl (omega arith)) (omega arith)
      (omega arith) two_entries-IsMadt (omega arith) two_entries_fit
