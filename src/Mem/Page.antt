-- ===== src/Mem/Page.antt =====
-- Page arithmetic of include/kernel/mem/page.h. A page has 2 MiB; addresses are 64-bit words.
use twos.Base.{
  ℕ, ◌+◌, ◌-◌, ◌*◌, ◌/◌, ◌%◌, ◌^◌, ◌≤◌, ◌<◌, ◌≡◌, ◌↔◌, ◌∙◌, ap, Bool, true, ◌==◌, if◌then◌else◌,
  u64, bit_and, bit_and_high, bit_and-low_mask, arith,
}

abbrev pub page_size : ℕ
page_size = 0x200000

unfoldable pub round_up_to_page : ℕ → ℕ
round_up_to_page addr =
    if addr % page_size == 0 then addr else u64 (addr + (page_size - addr % page_size))

-- The result is an `int`: the quotient is cut to 32 bits.
unfoldable pub calc_num_pages : ℕ → ℕ
calc_num_pages addr_size = u64 (addr_size + page_size - 1) / page_size % 2 ^ 32

abbrev pub bitmask_21_align : ℕ
bitmask_21_align = 0xFFFFFFFFFFE00000

unfoldable pub page_align : ℕ → ℕ
page_align address = bit_and address bitmask_21_align

unfoldable pub is_page_aligned : ℕ → Bool
unfolding page_align
is_page_aligned address = page_align address == address

-- For an address at most 2^64 - 2^21, `round_up_to_page` gives the least multiple of the page
-- size that is not below it: it is a multiple, and lies within one page above the address.
pub round_up_to_page_lem :
    (addr : ℕ)
    → addr + page_size ≤ 2 ^ 64
    → (round_up_to_page addr % page_size ≡ 0)
      × (addr ≤ round_up_to_page addr)
      × (round_up_to_page addr < addr + page_size)
unfolding round_up_to_page
round_up_to_page_lem addr h = ground arith

-- On a 64-bit address, `page_align` clears the 21 low bits: it is the start of the page.
pub page_align_lem :
    (address : ℕ) → address < 2 ^ 64 → page_align address ≡ address / page_size * page_size
unfolding page_align
page_align_lem address h =
    let q : ℕ = address / page_size in
    let split : address ≡ q * 2 ^ 21 + address % page_size = omega arith in
    ap (λ a. bit_and a bitmask_21_align) split
    ∙ bit_and_high 21 q (address % page_size) (2 ^ 43 - 1) (omega arith)
    ∙ ap (λ x. x * page_size) (bit_and-low_mask 43 q ∙ omega arith)

-- A 64-bit address passes `is_page_aligned` exactly when it is a multiple of the page size.
pub is_page_aligned_iff :
    (address : ℕ) → address < 2 ^ 64 → (is_page_aligned address ≡ true) ↔ (address % page_size ≡ 0)
unfolding is_page_aligned
is_page_aligned_iff address h = ground (arith, page_align_lem address h)

-- Below 2^52 bytes, `calc_num_pages` is the least number of pages that hold the size.
pub calc_num_pages_lem :
    (size : ℕ)
    → size < 2 ^ 52
    → (size ≤ calc_num_pages size * page_size)
      × (calc_num_pages size * page_size < size + page_size)
unfolding calc_num_pages
calc_num_pages_lem size h = omega arith
