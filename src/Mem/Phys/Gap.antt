-- ===== src/Mem/Phys/Gap.antt =====
-- The run that `phys_malloc` carries across a full word.
use twos.Base.{
  ℕ, suc, ◌+◌, ◌-◌, ◌*◌, ◌%◌, ◌^◌, ◌≡◌, refl, List, ◌∷◌, some, ◌==◌, true, false, bit_and, test_bit,
  bit_and-two_pow_iff, uint64_max, get_elem?, arith, ◌∙◌,
}
use twos.Mem.Page.{page_size}
use twos.Mem.Phys.{Physmem, page_used}
use twos.Mem.Phys.Alloc.{
  Search, found, more, extend, scan_bits, scan_word, scan_words, mark_pages, no_run, phys_malloc,
}

-- The last page of the first word is free, the second word is full, and the first page of the
-- third word, `v`, is free.
abbrev pub gap_words : ℕ → List ℕ → List ℕ
gap_words v rest = (2 ^ 63 - 1) ∷ uint64_max ∷ v ∷ rest

abbrev open_run : Search
open_run = record { contiguous = 1; start_idx = 0; start_bit = 63 }

abbrev full_run : Search
full_run = record { contiguous = 2; start_idx = 0; start_bit = 63 }

scan_first : scan_word 2 (2 ^ 63 - 1) 0 no_run ≡ more open_run
unfolding scan_word scan_bits extend
scan_first = refl

scan_full : scan_word 2 uint64_max 1 open_run ≡ more open_run
unfolding scan_word
scan_full = refl

scan_free_bit : (v left : ℕ) → v % 2 ≡ 0 → scan_bits 2 v 2 (suc left) 0 open_run ≡ found full_run
unfolding scan_bits extend
scan_free_bit v left h =
    let low_bit : bit_and v 1 ≡ 0 = unfold test_bit in (bit_and-two_pow_iff 0 v).1 h in
    let free : (bit_and v 1 == 0) ≡ true = ground (arith, low_bit) in rw free

scan_third : (v : ℕ) → v % 2 ≡ 0 → scan_word 2 v 2 open_run ≡ found full_run
unfolding scan_word
scan_third v h =
    let below : (v == uint64_max) ≡ false = ground arith in rw below (scan_free_bit v 63 h)

module _ (n left idx w : ℕ) (pmm : List ℕ) (s s' : Search) (word : get_elem? pmm idx ≡ some w) where
  pub scan_words-more :
      scan_word n w idx s ≡ more s'
      → scan_words n pmm (suc left) idx s ≡ scan_words n pmm left (idx + 1) s'
  unfolding scan_words
  scan_words-more e = ground arith

  pub scan_words-found :
      scan_word n w idx s ≡ found s' → scan_words n pmm (suc left) idx s ≡ some (found s')
  unfolding scan_words
  scan_words-found e = ground arith

scan_gap :
    (v : ℕ) (rest : List ℕ) (left : ℕ)
    → v % 2 ≡ 0
    → scan_words 2 (gap_words v rest) (suc (suc (suc left))) 0 no_run ≡ some (found full_run)
scan_gap v rest left h =
    scan_words-more 2 (suc (suc left)) 0 (2 ^ 63 - 1) (gap_words v rest) no_run open_run refl
      scan_first
    ∙ scan_words-more 2 (suc left) 1 uint64_max (gap_words v rest) open_run open_run refl scan_full
    ∙ scan_words-found 2 left 2 v (gap_words v rest) open_run full_run refl (scan_third v h)

-- On such a bitmap `phys_malloc`, asked for two pages, gives the pages 63 and 64, though page 64
-- was in use: the run is not reset where a full word is skipped.
pub phys_malloc-gap :
    (v left : ℕ) (rest : List ℕ) (m : Physmem)
    → v % 2 ≡ 0
    → m.pmm ≡ gap_words v rest
    → m.mm_end ≡ suc (suc (suc left))
    → (m' : Physmem) × (phys_malloc (2 * page_size) m ≡ some (63 * page_size, m'))
      × (page_used m 64 ≡ 1)
unfolding phys_malloc mark_pages test_bit
phys_malloc-gap v left rest m h e k = (
  record m { pmm = ((2 ^ 64 - 1) ∷ uint64_max ∷ v ∷ rest) },
  rw (e, k, scan_gap v rest left h),
  rw e,
)
