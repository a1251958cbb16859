-- ===== src/Acpi/Alloc.antt =====
-- The tables that `acpi_init_madt` of src/kernel/acpi/acpi.c takes from the kernel heap.
use twos.Base.{ℕ, ◌==◌, if◌then◌else◌, Option, none, some, List, [], ◌∷◌}
use twos.Acpi.{
  Table, proc_apic, io_apic, ioso_apic, ionmi_apic, nmi_lapic, addro_lapic, procx2_lapic, kind_of,
}
use twos.Acpi.Madt.{acpi_apic_tbl_size}
use twos.Mem.Heap.{Heap, Outcome, done, panic, assert_failed, ◌>>=◌, malloc}

-- What a caller sees of a call that may stop the kernel.
unfoldable pub returned {ℓ} : {A : Type ℓ} → Outcome A → Option A
returned (done a) = some a
returned panic = none
returned assert_failed = none

-- The calls of `kmalloc`, in the order of the code.
unfoldable pub alloc_tables : List Table → (Table → ℕ) → Heap → Outcome ((Table → ℕ) × Heap)
alloc_tables [] tbl heap = done (tbl, heap)
alloc_tables (t ∷ tables) tbl heap = malloc acpi_apic_tbl_size heap >>= λ (p, heap').
    alloc_tables tables (λ k. if kind_of k == kind_of t then p else tbl k) heap'

abbrev pub all_tables : List Table
all_tables =
    proc_apic ∷ io_apic ∷ ioso_apic ∷ ionmi_apic ∷ nmi_lapic ∷ addro_lapic ∷ procx2_lapic ∷ []
