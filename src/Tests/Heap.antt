-- ===== src/Tests/Heap.antt =====
-- The heap of src/kernel/mem/kalloc.c on small inputs.
use twos.Base.{◌==◌, if◌then◌else◌, Memory, load, ℕ, ◌+◌, ◌≡◌, refl, ◌≢◌, ◌||◌, arith}
use twos.Types.OrderedArray.{oarray_get}
use twos.Mem.Heap.{
  heap_crc, header_crc, head_available, header_size, heap_virt, heap_size, free_space_none, Heap,
  find_from, find_best_free_space, malloc, free, done,
}
use twos.Mem.Heap.Fresh.{IsBlock, HeapFits, IsGrown, malloc-IsGrown, free-IsBlock}
use twos.Mem.Heap.Reuse.{HasHeaders, IsFirstFit, find_best_free_space-IsFirstFit}

-- A heap with its list and nothing in it.
abbrev fresh_heap : Heap
fresh_heap = record {
  addr = heap_virt + 0x200000;
  size = heap_size;
  allocs = record { max_size_bytes = 0x200000; max_elements = 1000; idx = 0; items = λ j. 0 };
  mem = λ b. 0;
}

fresh_heap-HeapFits : HeapFits fresh_heap
fresh_heap-HeapFits = record { from = omega arith; upto = omega arith; bounded = omega arith }

no_space : (size : ℕ) → find_best_free_space size fresh_heap ≡ done free_space_none
unfolding find_best_free_space
no_space size = refl

malloc_example :
    (heap' : Heap) × (malloc 100 fresh_heap ≡ done (heap_virt + 0x200000 + header_size, heap'))
    × IsGrown 100 fresh_heap heap'
malloc_example =
    malloc-IsGrown 100 fresh_heap fresh_heap-HeapFits (no_space 100) (omega arith) (omega arith)
      (omega arith) (omega arith)

-- A block of 16 bytes at address 64, and the list with it.
abbrev block_bytes : Memory
block_bytes b =
    if (b == 64) || (b == 93)
    then 0xAD
    else if (b == 65) || (b == 94)
    then 0xDE
    else if (b == 66) || (b == 95)
    then 0x15
    else if (b == 67) || (b == 96)
    then 0xD5
    else if b == 68
    then 255
    else if b == 69
    then 28
    else if b == 97
    then 64
    else 0

abbrev one_block : Heap
one_block = record {
  addr = heap_virt + 0x200000;
  size = heap_size;
  allocs = record { max_size_bytes = 0x200000; max_elements = 1000; idx = 1; items = λ j. 64 };
  mem = block_bytes;
}

block_bytes-IsBlock : IsBlock block_bytes 64 16 255
unfolding load
block_bytes-IsBlock = record {
  head_crc = refl;
  mark = refl;
  block_size = refl;
  foot_crc = refl;
  foot_header = refl;
}

free_example :
    (mem' : Memory) × (free (64 + header_size) one_block ≡ done (record one_block { mem = mem' }))
    × IsBlock mem' 64 16 head_available
    × ((b : ℕ) → b ≢ 64 + 4 → mem' b ≡ block_bytes b)
free_example = free-IsBlock 64 16 255 one_block (omega arith) (omega arith) block_bytes-IsBlock

finds_block : find_best_free_space 10 one_block ≡ done 0
unfolding find_best_free_space find_from load oarray_get
finds_block = refl

one_block-crc : header_crc 64 block_bytes ≡ heap_crc
unfolding load
one_block-crc = refl

one_block-HasHeaders : HasHeaders one_block
unfolding oarray_get
one_block-HasHeaders itr h = ground (arith, h)

find_best_free_space_example :
    (r : ℕ) × (find_best_free_space 10 one_block ≡ done r) × IsFirstFit 10 one_block 0 1 r
find_best_free_space_example = find_best_free_space-IsFirstFit 10 one_block one_block-HasHeaders
