-- ===== src/Mem/Heap.antt =====
-- The kernel heap of src/kernel/mem/kalloc.c. A block is a packed header (crc at 0, available at
-- 4, block_size at 5; 13 bytes), the client's bytes, and a packed footer (crc at 0, the header's
-- address at 4; 12 bytes), all in byte-addressed memory. The header and the slots of the list of blocks,
-- which the code keeps in the heap's first page, are a record and a function apart from that memory.
pub mod Fresh
pub mod Reuse
use twos.Base.{
  ℕ, zero, suc, ◌+◌, ◌-◌, ◌*◌, ◌/◌, ◌%◌, ◌^◌, Bool, true, false, ◌==◌, ◌&&◌, not, ltb, leb,
  if◌then◌else◌, u32, u64, Memory, load, store, uint32_max,
}
use twos.Mem.Page.{page_size}
use twos.Types.OrderedArray.{OArray, oarray_init, oarray_insert, oarray_get}

abbrev pub heap_crc : ℕ
heap_crc = 0xD515DEAD

abbrev pub head_available : ℕ
head_available = 0xff

abbrev pub head_in_use : ℕ
head_in_use = 0x00

abbrev pub header_size : ℕ
header_size = 13

abbrev pub footer_size : ℕ
footer_size = 12

abbrev pub heap_virt : ℕ
heap_virt = 0xffffffffc0000000 - page_size * 128

abbrev pub heap_size : ℕ
heap_size = 0x800000

abbrev pub free_space_none : ℕ
free_space_none = uint32_max

pub record Heap : Type 0 where
  pub addr : ℕ
  pub size : ℕ
  pub allocs : OArray
  pub mem : Memory

-- A call returns, or the kernel stops in `panic` or in a failed `ASSERT`.
pub data Outcome {ℓ} (A : Type ℓ) : Type ℓ where
  done : A → Outcome A
  panic assert_failed : Outcome A

infixl 5 ◌>>=◌
abbrev pub ◌>>=◌ {ℓ κ} : {A : Type ℓ} {B : Type κ} → Outcome A → (A → Outcome B) → Outcome B
done a >>= f = f a
panic >>= f = panic
assert_failed >>= f = assert_failed

-- The packed fields.
abbrev pub header_crc : ℕ → Memory → ℕ
header_crc h = load 4 h

abbrev pub header_available : ℕ → Memory → ℕ
header_available h = load 1 (h + 4)

abbrev pub header_block_size : ℕ → Memory → ℕ
header_block_size h = load 8 (h + 5)

abbrev pub footer_crc : ℕ → Memory → ℕ
footer_crc f = load 4 f

abbrev pub footer_header : ℕ → Memory → ℕ
footer_header f = load 8 (f + 4)

unfoldable pub get_total_block_size : ℕ → ℕ
get_total_block_size alloc_size = u64 (footer_size + header_size + alloc_size)

unfoldable pub get_heap_end : Heap → ℕ
get_heap_end heap = u64 (heap_virt + heap.size)

unfoldable pub get_heap_use : Heap → ℕ
get_heap_use heap = u64 (heap.addr + 2 ^ 64 - heap_virt)

unfoldable pub get_heap_free : Heap → ℕ
unfolding get_heap_end
get_heap_free heap = u64 (get_heap_end heap + 2 ^ 64 - heap.addr)

unfoldable pub create_heap_header : ℕ → Memory → Memory
create_heap_header header mem = store 1 (header + 4) head_in_use (store 4 header heap_crc mem)

unfoldable pub create_heap_footer : ℕ → ℕ → Memory → Memory
create_heap_footer footer header mem = store 8 (footer + 4) header (store 4 footer heap_crc mem)

-- The new end of the heap, and the memory.
unfoldable pub create_heap_block : Heap → ℕ → ℕ → Outcome (ℕ × Memory)
unfolding create_heap_header create_heap_footer get_heap_end
create_heap_block heap addr mem_size =
    let footer = u64 (addr + mem_size + header_size) in
    let mem₁ = create_heap_header addr heap.mem in
    let mem₂ = create_heap_footer footer addr mem₁ in
    if ltb footer (get_heap_end heap)
    then done (u64 (footer + footer_size), store 8 (addr + 5) (u64 (mem_size + footer_size)) mem₂)
    else assert_failed

-- The search from `itr` on, with `left` entries to go.
unfoldable pub find_from : ℕ → ℕ → ℕ → Heap → Outcome ℕ
find_from zero itr size heap = done free_space_none
find_from (suc left) itr size heap =
    let next = find_from left (itr + 1) size heap in
    let header = oarray_get heap.allocs itr in
    if header == 0
    then panic
    else if header_available header heap.mem == head_available
        && leb size (u64 (header_block_size header heap.mem + 2 ^ 64 - footer_size))
    then done itr
    else next

unfoldable pub find_best_free_space : ℕ → Heap → Outcome ℕ
find_best_free_space size heap =
    if heap.allocs.idx == 0 then done free_space_none else find_from heap.allocs.idx 0 size heap

-- It cannot grow.
unfoldable pub expand_heap : Heap → ℕ → ℕ
expand_heap heap size_to_add = 0

-- The function gives a byte that is 0 or 1. The list calls it through a pointer to a function that gives
-- a pointer, and tests that: here it is the test of the byte.
unfoldable pub alloc_greater : Memory → ℕ → ℕ → Bool
alloc_greater mem a b = ltb (header_block_size b mem) (header_block_size a mem)

-- The new header goes into the list, which orders by the sizes now in memory.
unfoldable pub list_block : Heap → ℕ × Memory → Outcome (ℕ × Heap)
list_block heap (new_end, mem') =
    let (returned, allocs') = oarray_insert (alloc_greater mem') heap.allocs heap.addr in
    if returned == heap.addr
    then done (
      u64 (heap.addr + header_size),
      record heap { addr = new_end; allocs = allocs'; mem = mem' },
    )
    else panic

-- The branch of `_malloc` that adds a block at the end.
unfoldable pub malloc_new : ℕ → Heap → Outcome (ℕ × Heap)
malloc_new size heap =
    let total_size = get_total_block_size size in
    let missing = u64 (total_size + 2 ^ 64 - get_heap_free heap) in
    if ltb (get_heap_free heap) total_size && expand_heap heap missing == 0
    then panic
    else create_heap_block heap heap.addr size >>= list_block heap

-- The branch that takes a block of the list. The pointer returned is `sizeof(header)` above the
-- header, and `header` is a pointer: 8 bytes.
unfoldable pub malloc_reuse : ℕ → Heap → Outcome (ℕ × Heap)
malloc_reuse space heap =
    let header = oarray_get heap.allocs space in
    if not (header == 0) && header_crc header heap.mem == heap_crc
    then done (u64 (header + 8), record heap { mem = store 1 (header + 4) head_in_use heap.mem })
    else assert_failed

unfoldable pub malloc : ℕ → Heap → Outcome (ℕ × Heap)
malloc size heap = find_best_free_space size heap >>= λ space.
    if space == free_space_none then malloc_new size heap else malloc_reuse space heap

unfoldable pub free : ℕ → Heap → Outcome Heap
free addr heap =
    let header = u64 (addr + 2 ^ 64 - header_size) in
    let footer = u64 (addr + header_block_size header heap.mem + 2 ^ 64 - footer_size) in
    if addr == 0
    then done heap
    else if header_crc header heap.mem == footer_crc footer heap.mem
        && header_crc header heap.mem == heap_crc
    then if footer_header footer heap.mem == header
      then done (record heap { mem = store 1 (header + 4) head_available heap.mem })
      else assert_failed
    else assert_failed

unfoldable pub kmalloc_bootstrap : ℕ → Heap → ℕ × Heap
kmalloc_bootstrap size heap = (heap.addr, record heap { addr = u64 (heap.addr + size) })

-- The allocation list takes the first page of the heap; `raw` is what its slots held.
unfoldable pub kalloc_init : (ℕ → ℕ) → Memory → Heap
unfolding kmalloc_bootstrap
kalloc_init raw mem =
    let empty : OArray = record { max_size_bytes = 0; max_elements = 0; idx = 0; items = raw } in
    let heap : Heap = record { addr = heap_virt; size = heap_size; allocs = empty; mem = mem } in
    let (list_addr, heap') = kmalloc_bootstrap page_size heap in
    record heap' { allocs = oarray_init page_size raw }
