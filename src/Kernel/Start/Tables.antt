-- ===== src/Kernel/Start/Tables.antt =====
-- The tables of the MADT on the heap as `kmain` leaves it: the block of 512 bytes that it takes and
-- gives back is the one that the first table gets.
use twos.Base.{
  ℕ, ◌+◌, ◌^◌, ◌≤◌, ◌<◌, ◌≡◌, ◌⊎◌, ◌∙◌, some, ◌≢◌, ◌%◌, ap, load, get_elem?, List, length, Memory,
  arith,
}
use twos.Acpi.{Table, proc_apic, kind_of, Collected, walk_madt}
use twos.Acpi.Madt.{Entry, IsMadt, IsMadt-kept, addresses, IsTable}
use twos.Acpi.Walk.{empty_tables, walk_madt_lem}
use twos.Mem.Heap.{heap_virt, Heap, header_size, header_block_size}
use twos.Kernel.Start.First.{
  first_block, tables_after, start_heap-HasTables, place-IsApart, place-cases,
}

-- A word that is stored at 8 bytes behind the start of a header makes the size that the header gives
-- 2^24 at least, unless the word's low 40 bits are zero.
size_over :
    (mem : Memory) (p : ℕ)
    → load 8 (first_block + 8) mem ≡ p
    → p % 2 ^ 40 ≢ 0
    → 2 ^ 24 ≤ header_block_size first_block mem
unfolding load
size_over mem p e h = omega (arith, e, h)

-- What is left where the tables have been filled: each holds the addresses of its entries; the first
-- one starts 5 bytes before the end of a block's header, and its first pointer is then part of the
-- block's size; all that is written lies in the page of the heap's list or in the 2223 bytes behind it.
pub record HasEntries (mem : Memory) (tbl : Table → ℕ) (ptr : ℕ) (entries : List Entry)
    (c : Collected) : Type 0 where
  pub tables : (t : Table) → IsTable tbl c t (addresses (kind_of t) ptr entries)
  pub overlap : tbl proc_apic + 5 ≡ first_block + header_size
  pub corrupted :
      (p : ℕ)
      → get_elem? (addresses 0 ptr entries) 0 ≡ some p
      → p % 2 ^ 40 ≢ 0
      → 2 ^ 24 ≤ header_block_size first_block c.mem
  pub kept : (a : ℕ) → (a < heap_virt) ⊎ (first_block + 2223 ≤ a) → c.mem a ≡ mem a

-- Whatever memory holds: `kalloc_init`, the block of 512 bytes taken and given back, and then the seven
-- calls of `kmalloc` in `acpi_init_madt` succeed. Over a MADT of well-laid entries that lies outside the
-- page of the heap's list and the 2223 bytes behind it, ending below 2^64, with at most 32 entries of a type and with as much fuel as
-- entries, the loop that follows ends and the seven tables hold the addresses of their entries. The
-- first table stands 5 bytes before the end of its block's header: if there is a processor, the size
-- that the header gives for the block of 512 bytes has become 2^24 at least, unless the low 40 bits of
-- the processor's address are zero. Nothing is written outside that page and those 2223 bytes.
pub start_tables_lem :
    (raw : ℕ → ℕ) (fuel ptr upto : ℕ) (entries : List Entry) (mem : Memory)
    → (upto ≤ heap_virt) ⊎ (first_block + 2223 ≤ ptr)
    → upto < 2 ^ 64
    → ptr ≤ upto
    → IsMadt mem ptr entries upto
    → length entries ≤ fuel
    → ((t : Table) → length (addresses (kind_of t) ptr entries) ≤ 32)
    → (tbl : Table → ℕ) × (heap : Heap) × (c : Collected) × (tables_after raw mem
        ≡ some (tbl, heap))
      × (walk_madt tbl fuel ptr upto (empty_tables heap.mem) ≡ some c)
      × HasEntries mem tbl ptr entries c
start_tables_lem raw fuel ptr upto entries mem apart end order m hf room =
    let (tbl, heap, runs, h) = start_heap-HasTables raw mem in
    let m' =
      IsMadt-kept mem heap.mem ptr upto ptr entries (λ a l u. h.kept a (omega (arith, apart, l, u)))
        (omega arith) m in
    let away = place-IsApart tbl ptr upto h.placed (omega (arith, apart)) in
    let (c, walks, tables, kept) =
      walk_madt_lem tbl fuel ptr upto entries heap.mem away end m' hf room in
    (
      tbl,
      heap,
      c,
      runs,
      walks,
      record {
        tables = tables;
        overlap = omega (arith, h.placed proc_apic);
        corrupted = λ p e odd.
            size_over c.mem p
              (ap (λ a. load 8 a c.mem) (omega (arith, h.placed proc_apic))
                ∙ (tables proc_apic).slots 0 p e)
              odd;
        kept = λ a out.
            kept a (λ t. omega (arith, h.placed t, place-cases t, out))
            ∙ h.kept a (omega (arith, out));
      },
    )
