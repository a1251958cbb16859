-- ===== src/Mem/Phys/Region.antt =====
-- The loops over `set_phys`: a region marked or freed, and what goes wrong at bit 31.
use twos.Base.{
  ℕ, zero, suc, ◌+◌, ◌-◌, ◌*◌, ◌/◌, ◌%◌, ◌^◌, ◌≤◌, ◌<◌, ◌≡◌, refl, ap, ◌∙◌, lt→ltb, some, length,
  get_or, set, get_elem?-eq-get_or, get_or-set_self, u64, bit_or, test_bit, test_bit-bit_or,
  test_bit-complement, test_bit-lt_two, test_bit-beyond, arith,
}
use native.Mathlib.Decide.{dec_lt}
use twos.Mem.Page.{page_size}
use twos.Mem.Phys.{
  Physmem, page_used, word_index, bit_index, set_phys, int_one_shl, set_range, rounds,
  physmem_markregion, phys_free,
}
use twos.Mem.Phys.Bitmap.{IsMarked, IsMarked-refl, IsMarked-trans, set_phys_page}

module _ (wide : ℕ → ℕ) where
  pub set_range_step :
      (fuel f bound : ℕ) (b : ℕ → ℕ) (m m' : Physmem)
      → f < bound
      → set_phys wide f (b f) m ≡ some m'
      → set_range wide (suc fuel) f bound b m ≡ set_range wide fuel (u64 (f + page_size)) bound b m'
  unfolding set_range
  set_range_step fuel f bound b m m' h e = rw (lt→ltb f bound h, e)

  -- The loop from page `lo` on, with rounds enough: it ends, and marks the pages up to `hi`.
  pub set_range_lem :
      (fuel lo hi bound b f : ℕ) (m : Physmem)
      → bound + page_size ≤ 2 ^ 64
      → bound ≤ hi * page_size
      → hi * page_size < bound + page_size
      → lo ≤ hi
      → hi ≤ lo + fuel
      → f ≡ lo * page_size
      → ((p : ℕ) → lo ≤ p → p < hi → (p / 64 < length m.pmm) × (p % 64 < 31))
      → (m' : Physmem) × (set_range wide fuel f bound (λ _. b) m ≡ some m') × IsMarked b lo hi m m'
  unfolding set_range
  set_range_lem zero lo hi bound b f m h₁ h₂ h₃ h₄ h₅ e ok =
      (m, ground arith, IsMarked-refl b lo hi m (omega arith))
  set_range_lem (suc fuel) lo hi bound b f m h₁ h₂ h₃ h₄ h₅ e ok = elim (dec_lt lo hi) [
    | yes lt ↦
        let (m', e', marked) =
          set_phys_page wide lo b m (ok lo (omega arith) lt).0 (ok lo (omega arith) lt).1 in
        let (m'', e'', marked') =
          set_range_lem fuel (lo + 1) hi bound b (u64 (f + page_size)) m' h₁ h₂ h₃ (omega arith)
            (omega arith) (omega arith)
            λ p q r. (rw marked.shape.words (ok p (omega arith) r).0, (ok p (omega arith) r).1) in
        (
          m'',
          set_range_step fuel f bound (λ _. b) m m' (omega arith)
                (ap (λ a. set_phys wide a b m) e ∙ e')
              ∙ e'',
          IsMarked-trans (omega arith) (omega arith) marked marked',
        )
    | no ge ↦ (m, ground arith, IsMarked-refl b lo hi m (omega arith))
  ]

  -- Freeing `size` bytes from the start of page `lo`: if the region ends 2 MiB below 2^64, and every
  -- page of it has a word and stands at one of the bits 0 to 30 there, `phys_free` ends, makes
  -- exactly these pages free, and changes no other page.
  pub phys_free_lem :
      (lo size : ℕ) (m : Physmem)
      → lo * page_size + size + page_size ≤ 2 ^ 64
      → ((p : ℕ)
          → lo ≤ p
          → p < lo + (size + page_size - 1) / page_size
          → (p / 64 < length m.pmm) × (p % 64 < 31))
      → (m' : Physmem) × (phys_free wide (lo * page_size) size m ≡ some m')
        × IsMarked 0 lo (lo + (size + page_size - 1) / page_size) m m'
  unfolding phys_free
  phys_free_lem lo size m h ok =
      let bound : ℕ = u64 (lo * page_size + size) in
      set_range_lem (rounds (lo * page_size) bound) lo (lo + (size + page_size - 1) / page_size)
        bound 0 (lo * page_size) m (omega arith) (omega arith) (omega arith) (omega arith)
        (omega arith) refl ok

  -- Marking from the start of page `lo` to `map_end`: under the same conditions, `physmem_markregion`
  -- ends, gives the value asked for to the pages that the region touches, and to no other.
  pub physmem_markregion_lem :
      (lo map_end b : ℕ) (m : Physmem)
      → lo * page_size ≤ map_end
      → map_end + page_size ≤ 2 ^ 64
      → ((p : ℕ)
          → lo ≤ p
          → p < (map_end + page_size - 1) / page_size
          → (p / 64 < length m.pmm) × (p % 64 < 31))
      → (m' : Physmem) × (physmem_markregion wide (lo * page_size) map_end b m ≡ some m')
        × IsMarked b lo ((map_end + page_size - 1) / page_size) m m'
  unfolding physmem_markregion
  physmem_markregion_lem lo map_end b m h h' ok =
      set_range_lem (rounds (lo * page_size) map_end) lo ((map_end + page_size - 1) / page_size)
        map_end b (lo * page_size) m h' (omega arith) (omega arith) (omega arith) (omega arith) refl
        ok

  -- `set_phys` on a page at bit 31 of its word: the mask is the sign bit of an `int`, so asking for
  -- that page to be used makes the pages at bits 31 to 63 of the word used, all 33.
  pub set_phys-bit_31 :
      (addr : ℕ) (m : Physmem)
      → word_index addr < length m.pmm
      → bit_index addr ≡ 31
      → (m' : Physmem) × (set_phys wide addr 1 m ≡ some m')
        × ((p : ℕ) → p / 64 ≡ word_index addr → 31 ≤ p % 64 → page_used m' p ≡ 1)
  unfolding set_phys int_one_shl
  set_phys-bit_31 addr m h k = (m', ground (arith, get_elem?-eq-get_or m.pmm i 0 h), used)
    where
      i : ℕ
      i = word_index addr

      v : ℕ
      v = bit_or (get_or m.pmm i 0) (2 ^ 64 - 2 ^ 31)

      m' : Physmem
      m' = record m { pmm = set m.pmm i v }

      used : (p : ℕ) → p / 64 ≡ i → 31 ≤ p % 64 → page_used m' p ≡ 1
      used p e q =
          ap (λ j. test_bit (get_or (set m.pmm i v) j 0) (p % 64)) e
          ∙ ap (λ w. test_bit w (p % 64)) (get_or-set_self m.pmm i v 0 h)
          ∙ omega (
            arith,
            test_bit-bit_or (p % 64) (get_or m.pmm i 0) (2 ^ 64 - 2 ^ 31),
            test_bit-complement 64 (2 ^ 31 - 1) (p % 64) (omega arith) (omega arith),
            test_bit-beyond 31 (2 ^ 31 - 1) (p % 64) (omega arith) q,
            test_bit-lt_two (get_or m.pmm i 0) (p % 64),
          )
