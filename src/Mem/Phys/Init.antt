-- ===== src/Mem/Phys/Init.antt =====
-- `physmem_init` of src/kernel/mem/physmem.c: the bitmap from the boot loader's memory map.
use twos.Base.{
  ℕ, zero, suc, ◌+◌, ◌-◌, ◌*◌, ◌/◌, ◌==◌, ◌&&◌, ◌||◌, ltb, not, if◌then◌else◌, Option, some, ◌>>=◌,
  List, [], ◌∷◌, get_elem?, set, replicate, u64, uint64_max,
}
use twos.Mem.Page.{page_size, round_up_to_page}
use twos.Mem.Phys.{Mmap, Physmem, pmm_size, get_phys, set_phys, set_range, rounds}

abbrev pub multiboot_memory_available : ℕ
multiboot_memory_available = 1

-- The first loop over the map: the sum of the available lengths, and the highest available end.
pub record Survey : Type 0 where
  pub total_avail : ℕ
  pub highest_avail : ℕ

unfoldable pub survey_entry : Mmap → Survey → Survey
survey_entry e v =
    let available = e.type == multiboot_memory_available in
    let e_end = u64 (e.addr + e.len) in
    record {
      total_avail = if available then u64 (v.total_avail + e.len) else v.total_avail;
      highest_avail = if ltb v.highest_avail e_end && available then e_end else v.highest_avail;
    }

unfoldable pub survey : List Mmap → Survey → Survey
survey [] v = v
survey (e ∷ mmaps) v = survey mmaps (survey_entry e v)

-- `for (i = 0; i < mm_end; ++i) pmm[i] = UINT64_MAX`
unfoldable pub fill_used : ℕ → ℕ → List ℕ → Option (List ℕ)
fill_used zero i pmm = some pmm
fill_used (suc left) i pmm = get_elem? pmm i >>= λ _. fill_used left (i + 1) (set pmm i uint64_max)

-- What a page of the region is marked as: used, but for available memory above the first page.
unfoldable pub region_use : Mmap → ℕ → ℕ
region_use e addr =
    if not (e.type == multiboot_memory_available) || ltb addr page_size then 1 else 0

-- The four reads of the message at the end.
unfoldable pub probe : Physmem → Option ℕ
probe m = get_phys 0xfffc0000 m >>= λ _. get_phys (0x100000000 + page_size) m >>= λ _.
    get_phys 0x100000000 m >>= λ _. get_phys (0xbffe0000 - page_size) m

-- `memset` fills the bitmap with bytes of the value PHYS_USED, which is 1.
abbrev pub memset_used : List ℕ
memset_used = replicate pmm_size 0x0101010101010101

module _ (wide : ℕ → ℕ) where
  -- The second loop over the map.
  unfoldable pub mark_map : List Mmap → Physmem → Option Physmem
  mark_map [] m = some m
  mark_map (e ∷ mmaps) m =
      let map_start = round_up_to_page e.addr in
      let map_end = round_up_to_page (u64 (e.addr + e.len)) in
      let rest =
        set_range wide (rounds map_start map_end) map_start map_end (region_use e) m >>= λ m'.
        mark_map mmaps m' in
      if ltb m.end_addr e.addr then some m else rest

  -- `for (i = 0; i < 16; ++i) set_phys(PAGE_SIZE * i, 1)`, with `left` rounds to go.
  unfoldable pub mark_low : ℕ → ℕ → Physmem → Option Physmem
  mark_low zero i m = some m
  mark_low (suc left) i m = set_phys wide (page_size * i) 1 m >>= λ m'. mark_low left (i + 1) m'

  -- What follows once the searched words are full.
  unfoldable pub mark_and_probe : Physmem → Option (ℕ × Physmem)
  mark_and_probe m = mark_map m.mmaps m >>= λ m'.
      mark_low 16 0 m' >>= λ m''. probe m'' >>= λ _. some (m''.total_avail, m'')

  unfoldable pub physmem_init : List Mmap → ℕ → Option (ℕ × Physmem)
  unfolding mark_and_probe
  physmem_init mmaps mmap_size =
      let v = survey mmaps (record { total_avail = 0; highest_avail = 0 }) in
      let highest = round_up_to_page v.highest_avail in
      let mm_end = u64 (highest / page_size + 64) / 64 - 1 in
      fill_used mm_end 0 memset_used >>= λ pmm. mark_and_probe (record {
        pmm = pmm;
        mmaps = mmaps;
        size = mmap_size;
        mm_end = mm_end;
        end_addr = highest;
        total_avail = v.total_avail;
      })
