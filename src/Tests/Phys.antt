-- ===== src/Tests/Phys.antt =====
-- The page functions of src/kernel/mem/physmem.c and include/kernel/mem/page.h on small inputs.
use twos.Base.{
  inl, test_bit, refl, ap, get_or, [], ℕ, ◌+◌, ◌-◌, ◌*◌, ◌/◌, ◌%◌, ◌^◌, ◌≤◌, ◌<◌, ◌≡◌, ◌⊎◌, inr,
  some, List, ◌∷◌, arith,
}
use native.Mathlib.Nat.{lt_irrefl}
use twos.Mem.Page.{page_size}
use twos.Mem.Phys.{Mmap, Physmem, page_used, phys_free}
use twos.Mem.Phys.Spec.{Command, alloc, free, Reply, Run}
use twos.Mem.Phys.Refine.{IsKept, Allowed, serve, serve_lem}
use twos.Mem.Phys.Alloc.{pages_of, phys_malloc}
use twos.Mem.Phys.Init.{survey, survey_entry, physmem_init}
use twos.Mem.Phys.Bitmap.{IsMarked}
use twos.Mem.Phys.Region.{phys_free_lem}
use twos.Mem.Phys.Survey.{available}
use twos.Mem.Phys.Boot.{physmem_init_lem}
use twos.Mem.Phys.Found.{NoGap}
use twos.Mem.Phys.Gap.{gap_words, phys_malloc-gap}
use twos.Mem.Phys.Malloc.{IsAllocated, HasWords, HasNoRun, phys_malloc_lem}

-- The processor takes a shift's count modulo 32.
abbrev x86 : ℕ → ℕ
x86 bit = 2 ^ (bit % 32)

-- Two words of pages: of the first, the pages 0 to 3 are used.
abbrev two_words : Physmem
two_words = record {
  pmm = 15 ∷ 0 ∷ [];
  mmaps = [];
  size = 0;
  mm_end = 2;
  end_addr = 128 * page_size;
  total_avail = 0;
}

two_words-HasWords : HasWords two_words
two_words-HasWords = record { there = ground arith; fits = ground arith }

abbrev words : List ℕ
words = 15 ∷ 0 ∷ []

second_word : get_or words 1 0 ≡ 0
second_word = refl

two_words-NoGap : NoGap 3 words 2
two_words-NoGap = inr (λ idx h h' e.
    let one : 1 ≡ idx = omega arith in
    elim (lt_irrefl 0 (omega (arith, e, second_word, ap (λ i. get_or words i 0) one))) [ ])

phys_malloc_example :
    (addr : ℕ) × (m' : Physmem) × (phys_malloc (3 * page_size) two_words ≡ some (addr, m'))
    × (((lo : ℕ) × (addr ≡ lo * page_size) × IsAllocated (pages_of (3 * page_size)) lo two_words m')
        ⊎ ((addr ≡ 0) × (m' ≡ two_words) × HasNoRun (pages_of (3 * page_size)) two_words))
phys_malloc_example =
    phys_malloc_lem (3 * page_size) two_words two_words-HasWords (omega arith) (omega arith)
      two_words-NoGap

abbrev pc_map : List Mmap
pc_map =
    record { addr = 0; len = 0x9fc00; type = 1 }
    ∷ record { addr = 0x100000; len = 0xbfee0000; type = 1 }
    ∷ record { addr = 0xbffe0000; len = 0x20000; type = 2 }
    ∷ []

pc_map-reach :
    2 ^ 27 ≤ (survey pc_map (record { total_avail = 0; highest_avail = 0 })).highest_avail
unfolding survey survey_entry
pc_map-reach = omega arith

physmem_init_example :
    (m : Physmem) × (physmem_init x86 pc_map 3 ≡ some (available pc_map % 2 ^ 64, m))
    × HasWords m
    × ((p : ℕ) → p < 16 → page_used m p ≡ 1)
physmem_init_example =
    physmem_init_lem x86 pc_map 3 (omega arith, (omega arith, (omega arith, tt))) pc_map-reach

phys_free_example :
    (m' : Physmem) × (phys_free x86 (1 * page_size) page_size two_words ≡ some m')
    × IsMarked 0 1 (1 + (page_size + page_size - 1) / page_size) two_words m'
phys_free_example = phys_free_lem x86 1 page_size two_words (omega arith) (λ p h h'. ground arith)

-- Page 63 is free, the pages 64 to 127 are used, and page 128 is free.
abbrev gap : Physmem
gap = record {
  pmm = gap_words 0 [];
  mmaps = [];
  size = 0;
  mm_end = 3;
  end_addr = 192 * page_size;
  total_avail = 0;
}

phys_malloc-gap_example :
    (m' : Physmem) × (phys_malloc (2 * page_size) gap ≡ some (63 * page_size, m'))
    × (page_used gap 64 ≡ 1)
phys_malloc-gap_example = phys_malloc-gap 0 0 [] gap refl refl refl

-- Page 0 in use, and the rest of one word free.
abbrev one_word : Physmem
one_word = record {
  pmm = 1 ∷ [];
  mmaps = [];
  size = 0;
  mm_end = 1;
  end_addr = 64 * page_size;
  total_avail = 0;
}

one_word-IsKept : IsKept x86 1 1 one_word
unfolding test_bit
one_word-IsKept = record {
  shape = refl;
  searched = refl;
  there = omega arith;
  fits = omega arith;
  first = refl;
}

abbrev some_requests : List Command
some_requests = alloc page_size ∷ free 1 page_size ∷ alloc 100 ∷ []

some_requests-Allowed : Allowed x86 1 1 some_requests one_word
unfolding Allowed
some_requests-Allowed = (
  omega arith,
  omega arith,
  inl refl,
  λ addr m₁ e. (
    omega arith,
    omega arith,
    λ p h h'. ground arith,
    λ m₂ e'. (omega arith, omega arith, inl refl, λ addr' m₃ e''. omega arith),
  ),
)

serve_example :
    (rs : List Reply) × (m' : Physmem) × (serve x86 some_requests one_word ≡ some (rs, m'))
    × IsKept x86 1 1 m'
    × Run (1 * 64) (page_used one_word) some_requests rs (page_used m')
serve_example = serve_lem x86 1 1 some_requests one_word some_requests-Allowed one_word-IsKept
