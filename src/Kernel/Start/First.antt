-- ===== src/Kernel/Start/First.antt =====
-- What the start of the heap leaves for the tables of the firmware.
use twos.Base.{
  ℕ, sym, ap, inl, inr, min, ◌-◌, zero, suc, ◌^◌, ◌∙◌, store_outside, ◌+◌, ◌*◌, ◌<◌, ◌≤◌, ◌⊎◌, ◌==◌,
  ◌&&◌, Bool, true, false, arith, ◌≡◌, refl, Option, none, some, ◌>>=◌, Memory, load, store,
}
use twos.Types.OrderedArray.{oarray_init, oarray_insert, oarray_get, find_slot, shift_up}
use twos.Mem.Heap.{
  Heap, heap_virt, head_in_use, head_available, footer_size, header_block_size, malloc, free,
  kalloc_init, malloc_new, malloc_reuse, find_best_free_space, find_from, get_total_block_size,
  get_heap_end, get_heap_free, create_heap_header, create_heap_footer, create_heap_block,
  expand_heap, alloc_greater, list_block, kmalloc_bootstrap,
}
use twos.Mem.Heap.Fresh.{block_memory, block_memory-outside}
use twos.Acpi.{
  Table, proc_apic, io_apic, ioso_apic, ionmi_apic, nmi_lapic, addro_lapic, procx2_lapic, kind_of,
}
use twos.Mem.Page.{page_size}
use twos.Acpi.Madt.{IsApart}
use twos.Acpi.Alloc.{returned, alloc_tables, all_tables}
use twos.Kernel.Start.{start_heap}

-- The first block of the heap stands behind the page of its list.
abbrev pub first_block : ℕ
first_block = heap_virt + page_size

abbrev memory_after : Option ((Table → ℕ) × Heap) → Memory
memory_after none = λ a. 0
memory_after (some (tbl, heap)) = heap.mem

abbrev pub tables_after : (ℕ → ℕ) → Memory → Option ((Table → ℕ) × Heap)
tables_after raw mem =
    start_heap raw mem >>= λ heap. returned (alloc_tables all_tables (λ t. 0) heap)

-- What a test of a result says where there is one.
abbrev on_result : {A : Type 0} → (A → Bool) → Option A → Bool
on_result test none = false
on_result test (some a) = test a

on_result-some :
    {A : Type 0} (test : A → Bool) (o : Option A)
    → on_result test o ≡ true
    → (a : A) × (o ≡ some a) × (test a ≡ true)
on_result-some test none h = absurd (cc h)
on_result-some test (some a) h = (a, refl, h)

-- Where the tables come to stand: the first in the block that was given back, at 8 bytes behind its
-- header's start, and the others in blocks of 281 bytes each behind that block of 537.
abbrev pub place : Table → ℕ
place proc_apic = first_block + 8
place io_apic = first_block + 537 + 13
place ioso_apic = first_block + 537 + 281 + 13
place ionmi_apic = first_block + 537 + 2 * 281 + 13
place nmi_lapic = first_block + 537 + 3 * 281 + 13
place addro_lapic = first_block + 537 + 4 * 281 + 13
place procx2_lapic = first_block + 537 + 5 * 281 + 13

abbrev is_placed : (Table → ℕ) → Table → Bool
is_placed tbl t = tbl t == place t

-- The first block as it is found in memory, and the end of the heap.
abbrev has_start : (Table → ℕ) × Heap → Bool
has_start (tbl, heap) =
    is_placed tbl proc_apic
    && is_placed tbl io_apic
    && is_placed tbl ioso_apic
    && is_placed tbl ionmi_apic
    && is_placed tbl nmi_lapic
    && is_placed tbl addro_lapic
    && is_placed tbl procx2_lapic
    && heap.addr == first_block + 537 + 6 * 281
    && header_block_size first_block heap.mem == 512 + footer_size

tables_after-start :
    (raw : ℕ → ℕ) (mem : Memory) → on_result has_start (tables_after raw mem) ≡ true
unfolding start_heap returned alloc_tables malloc free kalloc_init malloc_new malloc_reuse
    find_best_free_space find_from get_total_block_size get_heap_end get_heap_free
    create_heap_header create_heap_footer create_heap_block expand_heap alloc_greater list_block
    kmalloc_bootstrap oarray_init oarray_insert oarray_get find_slot shift_up load store
tables_after-start raw mem = refl

-- The writes: the first block, given back and taken again, and six more.
abbrev blocks_memory : ℕ → ℕ → Memory → Memory
blocks_memory zero addr mem = mem
blocks_memory (suc n) addr mem = blocks_memory n (addr + 281) (block_memory addr 256 mem)

abbrev left_memory : Memory → Memory
left_memory mem = blocks_memory 6 (first_block + 537) (
    store 1 (first_block + 4) head_in_use
      (store 1 (first_block + 4) head_available (block_memory first_block 512 mem)))

tables_after-memory :
    (raw : ℕ → ℕ) (mem : Memory) → memory_after (tables_after raw mem) ≡ left_memory mem
unfolding start_heap returned alloc_tables malloc free kalloc_init malloc_new malloc_reuse
    find_best_free_space find_from get_total_block_size get_heap_end get_heap_free
    create_heap_header create_heap_footer create_heap_block expand_heap alloc_greater list_block
    kmalloc_bootstrap oarray_init oarray_insert oarray_get find_slot shift_up load store
tables_after-memory raw mem = refl

blocks_memory-outside :
    (n addr : ℕ) (mem : Memory) (a : ℕ)
    → addr + n * 281 < 2 ^ 64
    → (a < addr) ⊎ (addr + n * 281 ≤ a)
    → blocks_memory n addr mem a ≡ mem a
blocks_memory-outside zero addr mem a fits h = refl
blocks_memory-outside (suc n) addr mem a fits h =
    blocks_memory-outside n (addr + 281) (block_memory addr 256 mem) a (omega arith) (omega arith)
    ∙ block_memory-outside addr 256 mem (omega arith) a (omega arith)

left_memory-outside :
    (mem : Memory) (a : ℕ)
    → (a < first_block) ⊎ (first_block + 537 + 6 * 281 ≤ a)
    → left_memory mem a ≡ mem a
left_memory-outside mem a h =
    blocks_memory-outside 6 (first_block + 537) _ a (omega arith) (omega arith)
    ∙ store_outside 1 (first_block + 4) head_in_use _ a (omega arith)
    ∙ store_outside 1 (first_block + 4) head_available _ a (omega arith)
    ∙ block_memory-outside first_block 512 mem (omega arith) a (omega arith)

-- What the heap holds as the loop over the MADT starts.
pub record HasTables (mem : Memory) (tbl : Table → ℕ) (heap : Heap) : Type 0 where
  pub placed : (t : Table) → tbl t ≡ place t
  pub end : heap.addr ≡ first_block + 537 + 6 * 281
  pub size : header_block_size first_block heap.mem ≡ 512 + footer_size
  pub kept : (a : ℕ) → (a < first_block) ⊎ (first_block + 537 + 6 * 281 ≤ a) → heap.mem a ≡ mem a

each-placed :
    (tbl : Table → ℕ) (heap : Heap)
    → has_start (tbl, heap) ≡ true
    → ((t : Table) → tbl t ≡ place t)
      × (heap.addr ≡ first_block + 537 + 6 * 281)
      × (header_block_size first_block heap.mem ≡ 512 + footer_size)
each-placed tbl heap h = (each, ground (arith, h), ground (arith, h))
  where
    each : (t : Table) → tbl t ≡ place t
    each proc_apic = ground (arith, h)
    each io_apic = ground (arith, h)
    each ioso_apic = ground (arith, h)
    each ionmi_apic = ground (arith, h)
    each nmi_lapic = ground (arith, h)
    each addro_lapic = ground (arith, h)
    each procx2_lapic = ground (arith, h)

pub start_heap-HasTables :
    (raw : ℕ → ℕ) (mem : Memory)
    → (tbl : Table → ℕ) × (heap : Heap) × (tables_after raw mem ≡ some (tbl, heap))
      × HasTables mem tbl heap
start_heap-HasTables raw mem =
    let ((tbl, heap), runs, test) =
      on_result-some has_start (tables_after raw mem) (tables_after-start raw mem) in
    let (placed, end, size) = each-placed tbl heap test in
    let same : heap.mem ≡ left_memory mem =
      sym (ap memory_after runs) ∙ tables_after-memory raw mem in
    (
      tbl,
      heap,
      runs,
      record {
        placed = placed;
        end = end;
        size = size;
        kept = λ a h. ap (λ m. m a) same ∙ left_memory-outside mem a h;
      },
    )

-- The first table stands 275 bytes at least before the next, and the others 281 from one another.
pub place-cases :
    (t : Table)
    → ((kind_of t ≡ 0) × (place t ≡ first_block + 8))
      ⊎ ((1 ≤ kind_of t)
          × (place t ≡ first_block + 537 + 13 + 281 * (min (kind_of t) 6 - 1))
          × ((kind_of t ≤ 5) ⊎ (kind_of t ≡ 9)))
place-cases proc_apic = inl (refl, refl)
place-cases io_apic = inr (omega arith, refl, omega arith)
place-cases ioso_apic = inr (omega arith, refl, omega arith)
place-cases ionmi_apic = inr (omega arith, refl, omega arith)
place-cases nmi_lapic = inr (omega arith, refl, omega arith)
place-cases addro_lapic = inr (omega arith, refl, omega arith)
place-cases procx2_lapic = inr (omega arith, refl, omega arith)

pub place-IsApart :
    (tbl : Table → ℕ) (from upto : ℕ)
    → ((t : Table) → tbl t ≡ place t)
    → (upto ≤ first_block) ⊎ (first_block + 537 + 6 * 281 ≤ from)
    → IsApart tbl from upto
place-IsApart tbl from upto placed h = record {
  tables = λ t k ne. omega (arith, ne, placed t, placed k, place-cases t, place-cases k);
  entries = λ t. omega (arith, h, placed t, place-cases t);
}
