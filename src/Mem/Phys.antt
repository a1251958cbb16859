-- ===== src/Mem/Phys.antt =====
-- The physical page bitmap of src/kernel/mem/physmem.c: one bit a page, set where the page is used.
-- `pmm` is the array of 512 words. An access outside it gives `none`, as does a division by zero.
pub mod Alloc
pub mod Init
pub mod Bitmap
pub mod Region
pub mod Survey
pub mod Runs
pub mod Boot
pub mod Found
pub mod Gap
pub mod Malloc
pub mod Spec
pub mod Refine
use twos.Base.{
  ℕ, zero, suc, ◌+◌, ◌-◌, ◌*◌, ◌/◌, ◌%◌, ◌^◌, ◌>>>◌, Bool, true, false, ◌==◌, ltb, if◌then◌else◌,
  Option, none, some, ◌>>=◌, List, get_elem?, get_or, set, u64, uint64_max, bit_and, bit_or,
  test_bit,
}
use twos.Mem.Page.{page_size, round_up_to_page}

-- An entry of the boot loader's memory map.
pub record Mmap : Type 0 where
  pub addr : ℕ
  pub len : ℕ
  pub type : ℕ

pub record Physmem : Type 0 where
  pub pmm : List ℕ
  pub mmaps : List Mmap
  pub size : ℕ
  pub mm_end : ℕ
  pub end_addr : ℕ
  pub total_avail : ℕ

abbrev pub pmm_size : ℕ
pmm_size = 512

abbrev pub word_index : ℕ → ℕ
word_index addr = addr / page_size / 64

abbrev pub bit_index : ℕ → ℕ
bit_index addr = addr / page_size % 64

unfoldable pub get_phys : ℕ → Physmem → Option ℕ
get_phys addr m =
    if m.mm_end == 0
    then none
    else get_elem? m.pmm (word_index addr) >>= λ w. some (bit_and (w >>> bit_index addr) 1)

-- Rounds enough for a loop whose address does not wrap.
abbrev pub rounds : ℕ → ℕ → ℕ
rounds start bound = (bound + page_size - 1 - start) / page_size

-- The abstract view: 1 where the page is used.
abbrev pub page_bit : List ℕ → ℕ → ℕ
page_bit words p = test_bit (get_or words (p / 64) 0) (p % 64)

abbrev pub page_used : Physmem → ℕ → ℕ
page_used m = page_bit m.pmm

module _ (wide : ℕ → ℕ) where
  -- `1 << bit` is a shift of an `int`, widened to 64 bits: bit 31 is the sign, which is extended.
  -- From bit 32 on C leaves the result open; what the compiled code gives there is `wide`.
  unfoldable pub int_one_shl : ℕ → ℕ
  int_one_shl bit =
      if ltb bit 31 then 2 ^ bit else if bit == 31 then 2 ^ 64 - 2 ^ 31 else u64 (wide bit)

  unfoldable pub set_phys : ℕ → ℕ → Physmem → Option Physmem
  set_phys addr b m =
      let mask = int_one_shl (bit_index addr) in
      get_elem? m.pmm (word_index addr) >>= λ w.
      let w' = if b == 0 then bit_and w (uint64_max - mask) else bit_or w mask in
      some (record m { pmm = set m.pmm (word_index addr) w' })

  -- The loop `for (f = start; f < bound; f += PAGE_SIZE) set_phys(f, b)`, where `b` may depend on
  -- the address. With no round left the loop must be over.
  unfoldable pub set_range : ℕ → ℕ → ℕ → (ℕ → ℕ) → Physmem → Option Physmem
  set_range zero f bound b m = if ltb f bound then none else some m
  set_range (suc fuel) f bound b m =
      let rest = set_phys f (b f) m >>= λ m'. set_range fuel (u64 (f + page_size)) bound b m' in
      if ltb f bound then rest else some m

  unfoldable pub physmem_markregion : ℕ → ℕ → ℕ → Physmem → Option Physmem
  physmem_markregion map_start map_end b =
      set_range (rounds map_start map_end) map_start map_end (λ _. b)

  unfoldable pub phys_free : ℕ → ℕ → Physmem → Option Physmem
  phys_free addr size =
      let bound = u64 (addr + size) in set_range (rounds addr bound) addr bound (λ _. 0)
