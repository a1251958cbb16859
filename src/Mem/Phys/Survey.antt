-- ===== src/Mem/Phys/Survey.antt =====
-- The loops of `physmem_init` over the memory map: what they add up, and that they end.
use twos.Base.{
  ℕ, zero, suc, ◌+◌, ◌-◌, ◌*◌, ◌%◌, ◌^◌, ◌≤◌, ◌<◌, ◌≡◌, inl, inr, ◌∙◌, if◌then◌else◌, ◌==◌, ltb,
  false, Bool-cases, some, List, [], ◌∷◌, length, length-set, get_or, set, get_elem?-eq-get_or,
  bit_or, bit_and, u64, uint64_max, arith, refl,
}
use native.Mathlib.Decide.{dec_lt}
use twos.Mem.Page.{page_size, round_up_to_page, round_up_to_page_lem}
use twos.Mem.Phys.{Mmap, Physmem, word_index, bit_index, int_one_shl, set_phys, set_range, rounds}
use twos.Mem.Phys.Init.{
  Survey, survey, survey_entry, fill_used, region_use, mark_map, mark_low,
  multiboot_memory_available,
}
use twos.Mem.Phys.Bitmap.{
  SameShape, SameShape-refl, SameShape-trans, SameShape-set, IsMarked, IsMarked-refl,
  IsMarked-trans, set_phys_page,
}
use twos.Mem.Phys.Region.{set_range_step}

-- The sum of the available lengths.
unfoldable pub available : List Mmap → ℕ
available [] = 0
available (e ∷ mmaps) =
    (if e.type == multiboot_memory_available then e.len else 0) + available mmaps

-- Every region ends a page below `top`.
abbrev pub EndsBelow : ℕ → List Mmap → Type 0
EndsBelow top [] = Unit {0}
EndsBelow top (e ∷ mmaps) = (e.addr + e.len + page_size ≤ top) × EndsBelow top mmaps

pub survey-total :
    (mmaps : List Mmap) (v : Survey)
    → v.total_avail < 2 ^ 64
    → (survey mmaps v).total_avail ≡ (v.total_avail + available mmaps) % 2 ^ 64
unfolding survey available
survey-total [] v h = omega arith
survey-total (e ∷ mmaps) v h = ground (arith, one, survey-total mmaps (survey_entry e v))
  where
    one :
        (survey_entry e v).total_avail
        ≡ (v.total_avail + (if e.type == multiboot_memory_available then e.len else 0)) % 2 ^ 64
    one = unfold survey_entry in ground arith

pub survey-highest :
    (top : ℕ) (mmaps : List Mmap) (v : Survey)
    → top ≤ 2 ^ 64
    → EndsBelow top mmaps
    → v.highest_avail + page_size ≤ top
    → (survey mmaps v).highest_avail + page_size ≤ top
unfolding survey
survey-highest top [] v t h k = k
survey-highest top (e ∷ mmaps) v t h k = survey-highest top mmaps (survey_entry e v) t h.1 one
  where
    one : (survey_entry e v).highest_avail + page_size ≤ top
    one = unfold survey_entry in ground arith

pub fill_used-some :
    (left i : ℕ) (pmm : List ℕ)
    → i + left ≤ length pmm
    → (pmm' : List ℕ) × (fill_used left i pmm ≡ some pmm') × (length pmm' ≡ length pmm)
unfolding fill_used
fill_used-some zero i pmm h = (pmm, refl, refl)
fill_used-some (suc left) i pmm h =
    let (pmm', runs, same) =
      fill_used-some left (i + 1) (set pmm i uint64_max)
        (omega (arith, length-set pmm i uint64_max)) in
    (pmm', rw (get_elem?-eq-get_or pmm i 0 (omega arith)) runs, same ∙ length-set pmm i uint64_max)

module _ (wide : ℕ → ℕ) where
  pub set_phys-some :
      (addr b : ℕ) (m : Physmem)
      → word_index addr < length m.pmm
      → (m' : Physmem) × (set_phys wide addr b m ≡ some m') × SameShape m m'
  unfolding set_phys
  set_phys-some addr b m h =
      let w = get_or m.pmm (word_index addr) 0 in
      let mask = int_one_shl wide (bit_index addr) in
      let w' : ℕ = if b == 0 then bit_and w (uint64_max - mask) else bit_or w mask in
      (
        record m { pmm = set m.pmm (word_index addr) w' },
        rw (get_elem?-eq-get_or m.pmm (word_index addr) 0 h),
        SameShape-set m (word_index addr) w',
      )

  -- The loop over a region whose pages have words, with rounds enough, ends.
  pub set_range-some :
      (fuel f bound : ℕ) (b : ℕ → ℕ) (m : Physmem)
      → bound + page_size ≤ 2 ^ 64
      → bound ≤ length m.pmm * 64 * page_size
      → bound ≤ f + fuel * page_size
      → (m' : Physmem) × (set_range wide fuel f bound b m ≡ some m') × SameShape m m'
  unfolding set_range
  set_range-some zero f bound b m h₁ h₂ h₃ = (m, ground arith, SameShape-refl m)
  set_range-some (suc fuel) f bound b m h₁ h₂ h₃ = elim (dec_lt f bound) [
    | yes lt ↦
        let (m', e, same) = set_phys-some f (b f) m (omega arith) in
        let (m'', e', same') =
          set_range-some fuel (u64 (f + page_size)) bound b m' h₁ (omega (arith, same.words))
            (omega arith) in
        (m'', set_range_step wide fuel f bound b m m' lt e ∙ e', SameShape-trans same same')
    | no ge ↦ (m, ground arith, SameShape-refl m)
  ]

  pub mark_map_step :
      (e : Mmap) (mmaps : List Mmap) (m m' : Physmem)
      → ltb m.end_addr e.addr ≡ false
      → let start = round_up_to_page e.addr in
        let bound = round_up_to_page (u64 (e.addr + e.len)) in
        set_range wide (rounds start bound) start bound (region_use e) m ≡ some m'
        → mark_map wide (e ∷ mmaps) m ≡ mark_map wide mmaps m'
  unfolding mark_map
  mark_map_step e mmaps m m' near runs = rw (near, runs)

  pub mark_map-some :
      (top : ℕ) (mmaps : List Mmap) (m : Physmem)
      → top ≤ 2 ^ 63
      → top ≤ length m.pmm * 64 * page_size
      → EndsBelow top mmaps
      → (m' : Physmem) × (mark_map wide mmaps m ≡ some m') × SameShape m m'
  unfolding mark_map
  mark_map-some top [] m t h k = (m, refl, SameShape-refl m)
  mark_map-some top (e ∷ mmaps) m t h k = elim (Bool-cases (ltb m.end_addr e.addr)) [
    | inl past ↦ (m, rw past, SameShape-refl m)
    | inr near ↦
        let map_end = round_up_to_page (u64 (e.addr + e.len)) in
        let low = round_up_to_page_lem e.addr (omega arith) in
        let high = round_up_to_page_lem (u64 (e.addr + e.len)) (omega arith) in
        let (m', runs, same) =
          set_range-some (rounds (round_up_to_page e.addr) map_end) (round_up_to_page e.addr)
            map_end (region_use e) m (omega arith) (omega arith) (omega arith) in
        let (m'', runs', same') = mark_map-some top mmaps m' t (omega (arith, same.words)) k.1 in
        (m'', mark_map_step e mmaps m m' near runs ∙ runs', SameShape-trans same same')
  ]

  pub mark_low_step :
      (left i : ℕ) (m m' : Physmem)
      → set_phys wide (i * page_size) 1 m ≡ some m'
      → mark_low wide (suc left) i m ≡ mark_low wide left (i + 1) m'
  unfolding mark_low
  mark_low_step left i m m' runs =
      let e : page_size * i ≡ i * page_size = omega arith in rw (e, runs)

  pub mark_low_lem :
      (left i j : ℕ) (m : Physmem)
      → i + left ≡ j
      → j ≤ 16
      → 0 < length m.pmm
      → (m' : Physmem) × (mark_low wide left i m ≡ some m') × IsMarked 1 i j m m'
  unfolding mark_low
  mark_low_lem zero i j m e h k = (m, refl, IsMarked-refl 1 i j m (omega arith))
  mark_low_lem (suc left) i j m e h k =
      let (m', runs, marked) = set_phys_page wide i 1 m (omega arith) (omega arith) in
      let (m'', runs', marked') =
        mark_low_lem left (i + 1) j m' (omega arith) h (omega (arith, marked.shape.words)) in
      (
        m'',
        mark_low_step left i m m' runs ∙ runs',
        IsMarked-trans (omega arith) (omega arith) marked marked',
      )
