-- ===== src/Mem/Heap/Reuse.antt =====
-- The search for a free block, and what `_malloc` does with the block that it finds.
use twos.Base.{
  ℕ, zero, suc, ◌+◌, ◌-◌, ◌*◌, ◌^◌, ◌≤◌, ◌<◌, ◌≡◌, ◌≢◌, ◌⊎◌, inl, inr, ap, ◌∙◌, Bool, true, false,
  ◌==◌, ◌&&◌, leb, u64, update, store, load-update_third, Bool-cases, ==_iff, arith, refl,
}
use native.Mathlib.Decide.{ℕ_discrete}
use twos.Types.OrderedArray.{oarray_get}
use twos.Mem.Heap.{
  Heap, done, heap_crc, head_available, head_in_use, header_size, footer_size, free_space_none,
  header_crc, header_available, header_block_size, find_from, find_best_free_space, malloc_reuse,
  malloc,
}

-- The block of entry `itr` is free and holds `size` bytes.
abbrev pub fits_entry : ℕ → Heap → ℕ → Bool
fits_entry size heap itr =
    let header = oarray_get heap.allocs itr in
    header_available header heap.mem == head_available
    && leb size (u64 (header_block_size header heap.mem + 2 ^ 64 - footer_size))

-- No entry in use is a null pointer.
abbrev pub HasHeaders : Heap → Type 0
HasHeaders heap = (itr : ℕ) → itr < heap.allocs.idx → oarray_get heap.allocs itr ≢ 0

-- The first entry from `lo` up to `hi` that fits, or none of them does.
abbrev pub IsFirstFit : ℕ → Heap → ℕ → ℕ → ℕ → Type 0
IsFirstFit size heap lo hi r =
    ((lo ≤ r)
      × (r < hi)
      × (fits_entry size heap r ≡ true)
      × ((j : ℕ) → lo ≤ j → j < r → fits_entry size heap j ≡ false))
    ⊎ ((r ≡ free_space_none) × ((j : ℕ) → lo ≤ j → j < hi → fits_entry size heap j ≡ false))

find_from-IsFirstFit :
    (left itr hi size : ℕ) (heap : Heap)
    → itr + left ≡ hi
    → hi ≤ heap.allocs.idx
    → HasHeaders heap
    → (r : ℕ) × (find_from left itr size heap ≡ done r) × IsFirstFit size heap itr hi r
unfolding find_from
find_from-IsFirstFit zero itr hi size heap e h heads =
    (free_space_none, refl, inr (refl, λ j p q. absurd (omega arith)))
find_from-IsFirstFit (suc left) itr hi size heap e h heads =
    let nonnull : (oarray_get heap.allocs itr == 0) ≡ false = ground (arith, heads itr) in
    elim (Bool-cases (fits_entry size heap itr)) [
      | inl fit ↦ (
        itr,
        rw (nonnull, fit),
        inl (omega arith, omega arith, fit, λ j p q. absurd (omega arith)),
      )
      | inr unfit ↦
          let (r, runs, first) =
            find_from-IsFirstFit left (itr + 1) hi size heap (omega arith) h heads in
          (r, rw (nonnull, unfit) runs, extended unfit r first)
    ]
  where
    before :
        fits_entry size heap itr ≡ false
        → (k : ℕ) → ((j : ℕ) → itr + 1 ≤ j → j < k → fits_entry size heap j ≡ false)
        → (j : ℕ) → itr ≤ j
        → j < k
        → fits_entry size heap j ≡ false
    before unfit k rest j p q = elim (ℕ_discrete j itr) [
      | yes same ↦ ap (fits_entry size heap) same ∙ unfit
      | no other ↦ rest j (omega arith) q
    ]

    extended :
        fits_entry size heap itr ≡ false
        → (r : ℕ) → IsFirstFit size heap (itr + 1) hi r
        → IsFirstFit size heap itr hi r
    extended unfit r (inl (a, b, c, d)) = inl (omega arith, b, c, before unfit r d)
    extended unfit r (inr (a, b)) = inr (a, before unfit hi b)

-- With no null entry, `find_best_free_space` returns the first entry of the list whose block is
-- free and holds the size, and `FREE_SPACE_NONE` where there is none.
pub find_best_free_space-IsFirstFit :
    (size : ℕ) (heap : Heap)
    → HasHeaders heap
    → (r : ℕ) × (find_best_free_space size heap ≡ done r) × IsFirstFit size heap 0 heap.allocs.idx r
unfolding find_best_free_space
find_best_free_space-IsFirstFit size heap heads = elim (Bool-cases (heap.allocs.idx == 0)) [
  | inl empty ↦
      (free_space_none, rw empty, inr (refl, λ j p q. absurd (omega (arith, (==_iff _ _).0 empty))))
  | inr some ↦
      let (r, runs, first) =
        find_from-IsFirstFit heap.allocs.idx 0 heap.allocs.idx size heap (omega arith) (omega arith)
          heads in
      (r, rw some runs, first)
]

-- Where the search finds a block with a good header, `_malloc` returns an address 5 bytes inside
-- the header, not behind it: a byte `v` that the client then writes there becomes a byte of the
-- header's block size.
pub malloc_inside_header :
    (size space v : ℕ) (heap : Heap)
    → find_best_free_space size heap ≡ done space
    → space ≢ free_space_none
    → let header = oarray_get heap.allocs space in
      header ≢ 0
      → header + header_size < 2 ^ 64
      → header_crc header heap.mem ≡ heap_crc
      → (addr : ℕ) × (heap' : Heap) × (malloc size heap ≡ done (addr, heap'))
        × (addr + 5 ≡ header + header_size)
        × (header_block_size header (update heap'.mem addr v) + 256 ^ 3 * heap'.mem addr
            ≡ header_block_size header heap'.mem + 256 ^ 3 * v)
unfolding malloc malloc_reuse
malloc_inside_header size space v heap found ne nonnull bound crc =
    let header = oarray_get heap.allocs space in
    let not_none : (space == free_space_none) ≡ false = ground arith in
    let not_null : (header == 0) ≡ false = ground arith in
    let place : u64 (header + 8) ≡ header + 8 = omega arith in
    let heap' : Heap = record heap { mem = store 1 (header + 4) head_in_use heap.mem } in
    (
      header + 8,
      heap',
      rw (found, not_none, not_null, crc, place),
      omega arith,
      load-update_third (header + 5) (header + 8) v heap'.mem (omega arith),
    )
