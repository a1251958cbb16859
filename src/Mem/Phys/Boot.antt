-- ===== src/Mem/Phys/Boot.antt =====
-- `physmem_init` as a whole: on a memory map below 64 GiB it returns, with the total of the
-- available lengths, every searched word there, and the first sixteen pages used.
use twos.Base.{
  ℕ, ◌+◌, ◌-◌, ◌/◌, ◌%◌, ◌^◌, ◌≤◌, ◌<◌, ◌≡◌, ◌≢◌, ap, ◌∙◌, some, List, length, length-replicate,
  u64, arith, refl,
}
use twos.Mem.Page.{page_size, round_up_to_page, round_up_to_page_lem}
use twos.Mem.Phys.{Mmap, Physmem, page_used}
use twos.Mem.Phys.Init.{
  survey, fill_used, mark_and_probe, mark_map, mark_low, probe, memset_used, physmem_init,
}
use twos.Mem.Phys.Bitmap.{get_phys_lem}
use twos.Mem.Phys.Malloc.{HasWords}
use twos.Mem.Phys.Survey.{
  available, EndsBelow, survey-total, survey-highest, fill_used-some, mark_map-some, mark_low_lem,
}

module _ (wide : ℕ → ℕ) where
  -- What runs once the bitmap is filled.
  probe-some : (m : Physmem) → m.mm_end ≢ 0 → 512 ≤ length m.pmm → (x : ℕ) × (probe m ≡ some x)
  unfolding probe
  probe-some m h k = (
    page_used m ((0xbffe0000 - page_size) / page_size),
    rw (
      get_phys_lem 0xfffc0000 m h (omega arith),
      get_phys_lem (0x100000000 + page_size) m h (omega arith),
      get_phys_lem 0x100000000 m h (omega arith),
      get_phys_lem (0xbffe0000 - page_size) m h (omega arith),
    ),
  )

  mark_and_probe_chain :
      (m m' m'' : Physmem) (x total : ℕ)
      → mark_map wide m.mmaps m ≡ some m'
      → mark_low wide 16 0 m' ≡ some m''
      → probe m'' ≡ some x
      → m''.total_avail ≡ total
      → mark_and_probe wide m ≡ some (total, m'')
  unfolding mark_and_probe
  mark_and_probe_chain m m' m'' x total a b c d = rw a (rw b (rw c (ap (λ t. some (t, m'')) d)))

  mark_and_probe_lem :
      (mmaps : List Mmap) (mmap_size highest total : ℕ) (pmm : List ℕ)
      → EndsBelow (2 ^ 36) mmaps
      → 64 ≤ highest / page_size
      → highest ≤ 2 ^ 36
      → length pmm ≡ 512
      → let m : Physmem = record {
        pmm = pmm;
        mmaps = mmaps;
        size = mmap_size;
        mm_end = highest / page_size / 64;
        end_addr = highest;
        total_avail = total;
      } in
        (m' : Physmem) × (mark_and_probe wide m ≡ some (total, m'))
        × HasWords m'
        × ((p : ℕ) → p < 16 → page_used m' p ≡ 1)
  mark_and_probe_lem mmaps mmap_size highest total pmm below low high full =
      let m : Physmem = record {
        pmm = pmm;
        mmaps = mmaps;
        size = mmap_size;
        mm_end = highest / page_size / 64;
        end_addr = highest;
        total_avail = total;
      } in
      let (m', runs, same) =
        mark_map-some wide (2 ^ 36) mmaps m (omega arith) (omega (arith, full)) below in
      let (m'', runs', marked) =
        mark_low_lem wide 16 0 16 m' refl (omega arith) (omega (arith, same.words, full)) in
      let (x, runs'') =
        probe-some m'' (omega (arith, marked.shape.mm_end, same.mm_end))
          (omega (arith, marked.shape.words, same.words, full)) in
      (
        m'',
        mark_and_probe_chain m m' m'' x total runs runs' runs'' (marked.shape.total ∙ same.total),
        record {
          there =
              omega (arith, marked.shape.mm_end, marked.shape.words, same.mm_end, same.words, full);
          fits = omega (arith, marked.shape.words, same.words, full);
        },
        λ p h. marked.inside p (omega arith) h,
      )

  physmem_init_chain :
      (mmaps : List Mmap) (mmap_size t : ℕ) (pmm : List ℕ) (m : Physmem)
      → let v = survey mmaps (record { total_avail = 0; highest_avail = 0 }) in
        let highest = round_up_to_page v.highest_avail in
        let start : Physmem = record {
          pmm = pmm;
          mmaps = mmaps;
          size = mmap_size;
          mm_end = highest / page_size / 64;
          end_addr = highest;
          total_avail = v.total_avail;
        } in
        highest ≤ 2 ^ 36
        → fill_used (highest / page_size / 64) 0 memset_used ≡ some pmm
        → mark_and_probe wide start ≡ some (t, m)
        → physmem_init wide mmaps mmap_size ≡ some (t, m)
  unfolding physmem_init
  physmem_init_chain mmaps mmap_size t pmm m h filled runs =
      let v = survey mmaps (record { total_avail = 0; highest_avail = 0 }) in
      let highest = round_up_to_page v.highest_avail in
      let words : u64 (highest / page_size + 64) / 64 - 1 ≡ highest / page_size / 64 =
        omega arith in
      rw (words, filled) runs

  -- On a memory map whose regions all end a page below 64 GiB and whose highest available end is
  -- at least 128 MiB, `physmem_init` returns: the total is the sum of the available lengths, the
  -- bitmap has the words that `phys_malloc` searches, and the pages 0 to 15 are used.
  pub physmem_init_lem :
      (mmaps : List Mmap) (mmap_size : ℕ)
      → EndsBelow (2 ^ 36) mmaps
      → 2 ^ 27 ≤ (survey mmaps (record { total_avail = 0; highest_avail = 0 })).highest_avail
      → (m : Physmem) × (physmem_init wide mmaps mmap_size ≡ some (available mmaps % 2 ^ 64, m))
        × HasWords m
        × ((p : ℕ) → p < 16 → page_used m p ≡ 1)
  physmem_init_lem mmaps mmap_size below high =
      let v = survey mmaps (record { total_avail = 0; highest_avail = 0 }) in
      let top =
        survey-highest (2 ^ 36) mmaps (record { total_avail = 0; highest_avail = 0 }) (omega arith)
          below (omega arith) in
      let summed =
        survey-total mmaps (record { total_avail = 0; highest_avail = 0 }) (omega arith) in
      let total : v.total_avail ≡ available mmaps % 2 ^ 64 = omega (arith, summed) in
      let rounded = round_up_to_page_lem v.highest_avail (omega arith) in
      let highest = round_up_to_page v.highest_avail in
      let (pmm, filled, full) =
        fill_used-some (highest / page_size / 64) 0 memset_used
          (omega (arith, length-replicate {A = ℕ} 512 0x0101010101010101)) in
      let (m, runs, words, low) =
        mark_and_probe_lem mmaps mmap_size highest v.total_avail pmm below (omega arith)
          (omega arith) (full ∙ length-replicate {A = ℕ} 512 0x0101010101010101) in
      (
        m,
        physmem_init_chain mmaps mmap_size v.total_avail pmm m (omega arith) filled runs
            ∙ ap (λ t. some (t, m)) total,
        words,
        low,
      )
