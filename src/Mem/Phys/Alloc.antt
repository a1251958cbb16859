-- ===== src/Mem/Phys/Alloc.antt =====
-- `phys_malloc` of src/kernel/mem/physmem.c: the search for free pages in a row, and the marking.
use twos.Base.{
  ℕ, zero, suc, ◌+◌, ◌-◌, ◌*◌, ◌/◌, ◌%◌, ◌^◌, ◌==◌, if◌then◌else◌, Option, some, ◌>>=◌, List,
  get_elem?, set, u64, uint64_max, bit_and, bit_or,
}
use twos.Mem.Page.{page_size}
use twos.Mem.Phys.{Physmem}

-- The variables of the search: `contiguous_free_pages`, `start_idx`, `start_bit`.
pub record Search : Type 0 where
  pub contiguous : ℕ
  pub start_idx : ℕ
  pub start_bit : ℕ

pub data Scan : Type 0 where
  found : Search → Scan
  more : Search → Scan

-- A free page at (idx, bit): the run starts here if none is open, and grows by one.
unfoldable pub extend : Search → ℕ → ℕ → Search
extend s idx bit =
    if s.contiguous == 0
    then record { contiguous = 1; start_idx = idx; start_bit = bit }
    else record s { contiguous = s.contiguous + 1 }

-- The inner loop from `bit` on, with `left` bits to go.
unfoldable pub scan_bits : ℕ → ℕ → ℕ → ℕ → ℕ → Search → Scan
scan_bits num_pages mask idx zero bit s = more s
scan_bits num_pages mask idx (suc left) bit s =
    let s' = extend s idx bit in
    let next = scan_bits num_pages mask idx left (bit + 1) s' in
    let skip = scan_bits num_pages mask idx left (bit + 1) (record s { contiguous = 0 }) in
    if bit_and mask (2 ^ bit) == 0
    then if s'.contiguous == num_pages then found s' else next
    else skip

-- A full word is skipped by `continue`, which leaves the run as it is.
unfoldable pub scan_word : ℕ → ℕ → ℕ → Search → Scan
scan_word num_pages mask idx s =
    if mask == uint64_max then more s else scan_bits num_pages mask idx 64 0 s

-- The outer loop from `idx` on, with `left` words to go.
unfoldable pub scan_words : ℕ → List ℕ → ℕ → ℕ → Search → Option Scan
scan_words num_pages pmm zero idx s = some (more s)
scan_words num_pages pmm (suc left) idx s = get_elem? pmm idx >>= λ mask.
    elim (scan_word num_pages mask idx s) [
      | found s' ↦ some (found s')
      | more s' ↦ scan_words num_pages pmm left (idx + 1) s'
    ]

-- `pmm[idx] |= 1 << bit` for each page of the run, the `i`-th first, `left` pages to go.
unfoldable pub mark_pages : ℕ → ℕ → ℕ → ℕ → List ℕ → Option (List ℕ)
mark_pages start_idx start_bit zero i pmm = some pmm
mark_pages start_idx start_bit (suc left) i pmm =
    let idx = start_idx + (start_bit + i) / 64 in
    let bit = (start_bit + i) % 64 in
    get_elem? pmm idx >>= λ w.
    mark_pages start_idx start_bit left (i + 1) (set pmm idx (bit_or w (2 ^ bit)))

abbrev pub pages_of : ℕ → ℕ
pages_of size = u64 (size + page_size - 1) / page_size

abbrev pub no_run : Search
no_run = record { contiguous = 0; start_idx = 0; start_bit = 0 }

-- The address returned, 0 on failure, and the new state: what follows the search.
unfoldable pub finish_malloc : ℕ → Physmem → Scan → Option (ℕ × Physmem)
finish_malloc size m (more s) = some (0, m)
finish_malloc size m (found s) =
    mark_pages s.start_idx s.start_bit (pages_of size) 0 m.pmm >>= λ pmm'.
    some (u64 ((s.start_idx * 64 + s.start_bit) * page_size), record m { pmm = pmm' })

unfoldable pub phys_malloc : ℕ → Physmem → Option (ℕ × Physmem)
unfolding finish_malloc
phys_malloc size m = scan_words (pages_of size) m.pmm m.mm_end 0 no_run >>= finish_malloc size m
