-- ===== src/Mem/Heap/Fresh.antt =====
-- A block made at the end of the heap: what `_malloc` returns and writes, and that `_free` takes it
-- back.
use twos.Base.{
  ℕ, ◌+◌, ◌-◌, ◌^◌, ◌≤◌, ◌<◌, ◌≡◌, ◌≢◌, ◌⊎◌, ◌∙◌, true, false, ◌==◌, ltb, u64, Memory, store,
  store_outside, load-store_apart, load-store_self, arith, refl,
}
use twos.Types.OrderedArray.{find_slot, oarray_insert}
use twos.Types.OrderedArray.Order.{IsInserted, oarray_insert_lem}
use twos.Mem.Heap.{
  Heap, done, panic, heap_crc, head_available, head_in_use, header_size, footer_size, heap_virt,
  free_space_none, header_crc, header_available, header_block_size, footer_crc, footer_header,
  get_total_block_size, get_heap_free, create_heap_block, find_best_free_space, expand_heap,
  alloc_greater, list_block, malloc_new, malloc, free,
}

-- A block for `size` bytes whose header stands at `addr`, with the mark `available`.
pub record IsBlock (mem : Memory) (addr size available : ℕ) : Type 0 where
  pub head_crc : header_crc addr mem ≡ heap_crc
  pub mark : header_available addr mem ≡ available
  pub block_size : header_block_size addr mem ≡ size + footer_size
  pub foot_crc : footer_crc (addr + header_size + size) mem ≡ heap_crc
  pub foot_header : footer_header (addr + header_size + size) mem ≡ addr

-- The heap lies in its region, which ends below 2^64.
pub record HeapFits (heap : Heap) : Type 0 where
  pub from : heap_virt ≤ heap.addr
  pub upto : heap.addr ≤ heap_virt + heap.size
  pub bounded : heap_virt + heap.size < 2 ^ 64

-- The writes of a block, in the order of the code.
abbrev pub block_memory : ℕ → ℕ → Memory → Memory
block_memory addr size mem = store 8 (addr + 5) (size + footer_size) (
    store 8 (addr + header_size + size + 4) addr (
      store 4 (addr + header_size + size) heap_crc
        (store 1 (addr + 4) head_in_use (store 4 addr heap_crc mem))))

module _ (addr size : ℕ) (mem : Memory) (fits : addr + size + 25 < 2 ^ 64) where
  block_memory-IsBlock : IsBlock (block_memory addr size mem) addr size head_in_use
  block_memory-IsBlock = record {
    head_crc =
        load-store_apart 4 addr 8 (addr + 5) _ _ (omega arith)
        ∙ load-store_apart 4 addr 8 (addr + header_size + size + 4) _ _ (omega arith)
        ∙ load-store_apart 4 addr 4 (addr + header_size + size) _ _ (omega arith)
        ∙ load-store_apart 4 addr 1 (addr + 4) _ _ (omega arith)
        ∙ load-store_self 4 addr heap_crc mem (omega arith);
    mark =
        load-store_apart 1 (addr + 4) 8 (addr + 5) _ _ (omega arith)
        ∙ load-store_apart 1 (addr + 4) 8 (addr + header_size + size + 4) _ _ (omega arith)
        ∙ load-store_apart 1 (addr + 4) 4 (addr + header_size + size) _ _ (omega arith)
        ∙ load-store_self 1 (addr + 4) head_in_use _ (omega arith);
    block_size = load-store_self 8 (addr + 5) (size + footer_size) _ (omega arith);
    foot_crc =
        load-store_apart 4 (addr + header_size + size) 8 (addr + 5) _ _ (omega arith)
        ∙ load-store_apart 4 (addr + header_size + size) 8 (addr + header_size + size + 4) _ _
            (omega arith)
        ∙ load-store_self 4 (addr + header_size + size) heap_crc _ (omega arith);
    foot_header =
        load-store_apart 8 (addr + header_size + size + 4) 8 (addr + 5) _ _ (omega arith)
        ∙ load-store_self 8 (addr + header_size + size + 4) addr _ (omega arith);
  }

  -- Nothing outside the header and the footer is written.
  pub block_memory-outside :
      (b : ℕ)
      → (b < addr)
        ⊎ ((addr + header_size ≤ b) × (b < addr + header_size + size))
        ⊎ (addr + header_size + size + footer_size ≤ b)
      → block_memory addr size mem b ≡ mem b
  block_memory-outside b h =
      store_outside 8 (addr + 5) _ _ b (omega arith)
      ∙ store_outside 8 (addr + header_size + size + 4) _ _ b (omega arith)
      ∙ store_outside 4 (addr + header_size + size) _ _ b (omega arith)
      ∙ store_outside 1 (addr + 4) _ _ b (omega arith)
      ∙ store_outside 4 addr _ _ b (omega arith)

create_heap_block_lem :
    (heap : Heap) (addr size : ℕ)
    → addr + size + header_size < heap_virt + heap.size
    → heap_virt + heap.size < 2 ^ 64 - 12
    → create_heap_block heap addr size
      ≡ done (addr + header_size + size + footer_size, block_memory addr size heap.mem)
unfolding create_heap_block
create_heap_block_lem heap addr size h k =
    let foot : u64 (addr + size + header_size) ≡ addr + header_size + size = omega arith in
    let end : u64 (addr + header_size + size + footer_size)
        ≡ addr + header_size + size + footer_size =
      omega arith in
    let width : u64 (size + footer_size) ≡ size + footer_size = omega arith in
    let inside : ltb (addr + header_size + size) (u64 (heap_virt + heap.size)) ≡ true =
      ground arith in
    rw (foot, inside, end, width)

-- What a call of `_malloc` that makes a new block leaves.
pub record IsGrown (wanted : ℕ) (heap heap' : Heap) : Type 0 where
  pub addr : heap'.addr ≡ heap.addr + header_size + wanted + footer_size
  pub size : heap'.size ≡ heap.size
  pub fits : HeapFits heap'
  pub block : IsBlock heap'.mem heap.addr wanted head_in_use
  pub slot : (p : ℕ) × IsInserted heap.addr p heap.allocs heap'.allocs
  pub outside :
      (b : ℕ)
      → (b < heap.addr)
        ⊎ ((heap.addr + header_size ≤ b) × (b < heap.addr + header_size + wanted))
        ⊎ (heap'.addr ≤ b)
      → heap'.mem b ≡ heap.mem b

grown_by : ℕ → Heap → Heap
grown_by size heap =
    let mem' = block_memory heap.addr size heap.mem in
    record heap {
      addr = heap.addr + header_size + size + footer_size;
      allocs = (oarray_insert (alloc_greater mem') heap.allocs heap.addr).1;
      mem = mem';
    }

malloc_new_lem :
    (size : ℕ) (heap : Heap)
    → HeapFits heap
    → heap.addr + header_size + size + footer_size ≤ heap_virt + heap.size
    → heap_virt + heap.size < 2 ^ 64 - 12
    → heap.allocs.idx < heap.allocs.max_elements
    → heap.allocs.max_elements < 2 ^ 32
    → malloc_new size heap ≡ done (heap.addr + header_size, grown_by size heap)
unfolding malloc_new get_heap_free get_total_block_size expand_heap grown_by list_block
malloc_new_lem size heap fits room bound few small =
    let available : u64 (u64 (heap_virt + heap.size) + 2 ^ 64 - heap.addr)
        ≡ heap_virt + heap.size - heap.addr =
      omega (arith, fits.from, fits.upto) in
    let total : u64 (footer_size + header_size + size) ≡ footer_size + header_size + size =
      omega (arith, fits.from) in
    let enough : ltb (heap_virt + heap.size - heap.addr) (footer_size + header_size + size)
        ≡ false =
      ground arith in
    let place : u64 (heap.addr + header_size) ≡ heap.addr + header_size = omega arith in
    let mem' = block_memory heap.addr size heap.mem in
    let (returned, slot, ins) =
      oarray_insert_lem (alloc_greater mem') heap.allocs heap.addr few small in
    let same : (heap.addr == heap.addr) ≡ true = ground arith in
    rw (
      available,
      total,
      enough,
      create_heap_block_lem heap heap.addr size (omega arith) bound,
      returned,
      same,
      place,
    )

-- Where no free block fits, the heap has room for the block and the list for one more entry,
-- `_malloc` returns the address behind a new header at the old end of the heap. The new block is
-- well formed and in use, the heap's end moves just past it and stays in the region, the header
-- is in the list, and no byte is written but the header's and the footer's.
pub malloc-IsGrown :
    (size : ℕ) (heap : Heap)
    → HeapFits heap
    → find_best_free_space size heap ≡ done free_space_none
    → heap.addr + header_size + size + footer_size ≤ heap_virt + heap.size
    → heap_virt + heap.size < 2 ^ 64 - 12
    → heap.allocs.idx < heap.allocs.max_elements
    → heap.allocs.max_elements < 2 ^ 32
    → (heap' : Heap) × (malloc size heap ≡ done (heap.addr + header_size, heap'))
      × IsGrown size heap heap'
unfolding malloc grown_by
malloc-IsGrown size heap fits none_free room bound few small =
    let mem' = block_memory heap.addr size heap.mem in
    let (returned, slot, ins) =
      oarray_insert_lem (alloc_greater mem') heap.allocs heap.addr few small in
    (
      grown_by size heap,
      rw none_free (malloc_new_lem size heap fits room bound few small),
      record {
        addr = refl;
        size = refl;
        fits = record { from = omega (arith, fits.from); upto = room; bounded = fits.bounded };
        block = block_memory-IsBlock heap.addr size heap.mem (omega arith);
        slot = (find_slot (alloc_greater mem') heap.allocs.idx 0 heap.addr heap.allocs.items, ins);
        outside = λ b h. block_memory-outside heap.addr size heap.mem (omega arith) b h;
      },
    )

-- Where the block would not fit the heap, `_malloc` stops in `panic`: the heap cannot grow.
pub malloc_full :
    (size : ℕ) (heap : Heap)
    → HeapFits heap
    → find_best_free_space size heap ≡ done free_space_none
    → heap_virt + heap.size < heap.addr + header_size + size + footer_size
    → size + 25 < 2 ^ 64
    → malloc size heap ≡ panic
unfolding malloc malloc_new get_heap_free get_total_block_size expand_heap
malloc_full size heap fits none_free short bound = rw none_free (ground arith)

-- `_free` of the address behind a well-formed block's header marks that block free and leaves the
-- rest of it, and every byte but the mark, as they were.
pub free-IsBlock :
    (addr size available : ℕ) (heap : Heap)
    → 0 < addr
    → addr + size + 25 < 2 ^ 64
    → IsBlock heap.mem addr size available
    → (mem' : Memory) × (free (addr + header_size) heap ≡ done (record heap { mem = mem' }))
      × IsBlock mem' addr size head_available
      × ((b : ℕ) → b ≢ addr + 4 → mem' b ≡ heap.mem b)
unfolding free
free-IsBlock addr size available heap pos bound block =
    let mem' = store 1 (addr + 4) head_available heap.mem in
    let back : u64 (addr + header_size + 2 ^ 64 - header_size) ≡ addr = omega arith in
    let foot : u64 (addr + header_size + (size + footer_size) + 2 ^ 64 - footer_size)
        ≡ addr + header_size + size =
      omega arith in
    let nonzero : (addr + header_size == 0) ≡ false = ground arith in
    let same : (addr == addr) ≡ true = ground arith in
    (
      mem',
      rw (
        back, nonzero, block.block_size, foot, block.head_crc, block.foot_crc, block.foot_header,
        same,
      ),
      record {
        head_crc = load-store_apart 4 addr 1 (addr + 4) _ _ (omega arith) ∙ block.head_crc;
        mark = load-store_self 1 (addr + 4) head_available _ (omega arith);
        block_size =
            load-store_apart 8 (addr + 5) 1 (addr + 4) _ _ (omega arith) ∙ block.block_size;
        foot_crc =
            load-store_apart 4 (addr + header_size + size) 1 (addr + 4) _ _ (omega arith)
            ∙ block.foot_crc;
        foot_header =
            load-store_apart 8 (addr + header_size + size + 4) 1 (addr + 4) _ _ (omega arith)
            ∙ block.foot_header;
      },
      λ b h. store_outside 1 (addr + 4) head_available heap.mem b (omega arith),
    )
