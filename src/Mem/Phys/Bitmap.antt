-- ===== src/Mem/Phys/Bitmap.antt =====
-- What `get_phys`, `set_phys` and the loops over it do, in terms of pages.
use twos.Base.{
  ℕ, suc, ◌+◌, ◌-◌, ◌*◌, ◌/◌, ◌%◌, ◌^◌, ◌≤◌, ◌<◌, ◌≡◌, ◌≢◌, refl, ap, subst, ◌∙◌, ◌⊎◌, ◌==◌,
  if◌then◌else◌, some, List, length, length-set, get_or, set, get_elem?-eq-get_or, get_or-set_self,
  get_or-set_ne, uint64_max, bit_and, bit_or, test_bit, test_bit-bit_or, test_bit-bit_and,
  test_bit-two_pow_self, test_bit-two_pow_ne, test_bit-complement, test_bit-lt_two,
  shift-eq-test_bit, bit_and-low_mask, arith,
}
use native.Mathlib.Decide.{ℕ_discrete}
use native.Mathlib.Nat.{pow-le-pow_right, pow-suc, one-le-pow}
use twos.Mem.Page.{page_size}
use twos.Mem.Phys.{
  Physmem, page_used, page_bit, word_index, bit_index, get_phys, set_phys, int_one_shl,
}

-- The bit that `b` asks for.
abbrev pub truth : ℕ → ℕ
truth b = if b == 0 then 0 else 1

-- `m'` has what `m` has beside the bits.
pub record SameShape (m m' : Physmem) : Type 0 where
  pub words : length m'.pmm ≡ length m.pmm
  pub mmaps : m'.mmaps ≡ m.mmaps
  pub size : m'.size ≡ m.size
  pub mm_end : m'.mm_end ≡ m.mm_end
  pub end_addr : m'.end_addr ≡ m.end_addr
  pub total : m'.total_avail ≡ m.total_avail

pub SameShape-refl : (m : Physmem) → SameShape m m
SameShape-refl m = record {
  words = refl;
  mmaps = refl;
  size = refl;
  mm_end = refl;
  end_addr = refl;
  total = refl;
}

pub SameShape-trans : {m m' m'' : Physmem} → SameShape m m' → SameShape m' m'' → SameShape m m''
SameShape-trans s t = record {
  words = t.words ∙ s.words;
  mmaps = t.mmaps ∙ s.mmaps;
  size = t.size ∙ s.size;
  mm_end = t.mm_end ∙ s.mm_end;
  end_addr = t.end_addr ∙ s.end_addr;
  total = t.total ∙ s.total;
}

-- With other words of the same number it has the shape that it had.
pub SameShape-set : (m : Physmem) (i v : ℕ) → SameShape m (record m { pmm = set m.pmm i v })
SameShape-set m i v = record {
  words = length-set m.pmm i v;
  mmaps = refl;
  size = refl;
  mm_end = refl;
  end_addr = refl;
  total = refl;
}

-- From `m` to `m'`, the pages from `lo` up to `hi` have become `b`, and nothing else changed.
pub record IsMarked (b lo hi : ℕ) (m m' : Physmem) : Type 0 where
  pub inside : (p : ℕ) → lo ≤ p → p < hi → page_used m' p ≡ truth b
  pub outside : (p : ℕ) → (p < lo) ⊎ (hi ≤ p) → page_used m' p ≡ page_used m p
  pub shape : SameShape m m'

pub IsMarked-refl : (b lo hi : ℕ) (m : Physmem) → hi ≤ lo → IsMarked b lo hi m m
IsMarked-refl b lo hi m h = record {
  inside = λ p q r. absurd (omega arith);
  outside = λ p q. refl;
  shape = SameShape-refl m;
}

pub IsMarked-trans :
    {b lo mid hi : ℕ} {m m' m'' : Physmem}
    → lo ≤ mid
    → mid ≤ hi
    → IsMarked b lo mid m m'
    → IsMarked b mid hi m' m''
    → IsMarked b lo hi m m''
IsMarked-trans {mid} p q r s = record {
  inside = λ k h h'. ground (arith, r.inside k, s.inside k, s.outside k);
  outside = λ k h. ground (arith, r.outside k, s.outside k);
  shape = SameShape-trans r.shape s.shape;
}

-- `get_phys` reads the bit of the address's page, wherever the bitmap has a word for it.
pub get_phys_lem :
    (addr : ℕ) (m : Physmem)
    → m.mm_end ≢ 0
    → word_index addr < length m.pmm
    → get_phys addr m ≡ some (page_used m (addr / page_size))
unfolding get_phys
get_phys_lem addr m h k = ground (
  arith,
  get_elem?-eq-get_or m.pmm (word_index addr) 0 k,
  bit_and-low_mask 1 (get_or m.pmm (word_index addr) 0 / 2 ^ bit_index addr),
  shift-eq-test_bit (bit_index addr) (get_or m.pmm (word_index addr) 0),
)

-- The word that `set_phys` stores.
abbrev pub stored : ℕ → ℕ → ℕ → ℕ
stored b mask w = if b == 0 then bit_and w (uint64_max - mask) else bit_or w mask

module _ (b k w : ℕ) (k_lt : k < 64) where
  mask-lt : 2 ^ k < 2 ^ 64
  mask-lt =
      let e : k + 1 ≡ suc k = omega arith in
      let bound : 2 ^ (k + 1) ≤ 2 ^ 64 =
        pow-le-pow_right {n = 2} (omega arith) {i = k + 1} {j = 64} (omega arith) in
      omega (arith, one-le-pow k 2, pow-suc 2 k, rw e at bound)

  test_bit-stored_self : test_bit (stored b (2 ^ k) w) k ≡ truth b
  test_bit-stored_self = ground (
    arith,
    test_bit-bit_or k w (2 ^ k),
    test_bit-bit_and k w (uint64_max - 2 ^ k),
    test_bit-complement 64 (2 ^ k) k mask-lt k_lt,
    test_bit-two_pow_self k,
    test_bit-lt_two w k,
  )

  test_bit-stored_ne : (i : ℕ) → i < 64 → k ≢ i → test_bit (stored b (2 ^ k) w) i ≡ test_bit w i
  test_bit-stored_ne i i_lt ne = ground (
    arith,
    test_bit-bit_or i w (2 ^ k),
    test_bit-bit_and i w (uint64_max - 2 ^ k),
    test_bit-complement 64 (2 ^ k) i mask-lt i_lt,
    test_bit-two_pow_ne k i ne,
    test_bit-lt_two w i,
  )

-- A word stored at a page's place changes that page's bit and no other.
pub page_bit-set_self :
    (words : List ℕ) (b p : ℕ)
    → p / 64 < length words
    → page_bit (set words (p / 64) (stored b (2 ^ (p % 64)) (get_or words (p / 64) 0))) p ≡ truth b
page_bit-set_self words b p h =
    ap (λ w. test_bit w (p % 64)) (get_or-set_self words (p / 64) _ 0 h)
    ∙ test_bit-stored_self b (p % 64) (get_or words (p / 64) 0) (omega arith)

pub page_bit-set_ne :
    (words : List ℕ) (b p q : ℕ)
    → p / 64 < length words
    → p ≢ q
    → page_bit (set words (p / 64) (stored b (2 ^ (p % 64)) (get_or words (p / 64) 0))) q
      ≡ page_bit words q
page_bit-set_ne words b p q h ne = elim (ℕ_discrete (p / 64) (q / 64)) [
  | yes e ↦ rw (← e) (
      ap (λ w. test_bit w (q % 64)) (get_or-set_self words (p / 64) _ 0 h)
      ∙ test_bit-stored_ne b (p % 64) (get_or words (p / 64) 0) (omega arith) (q % 64) (omega arith)
          (omega arith))
  | no ne' ↦ ap (λ w. test_bit w (q % 64)) (get_or-set_ne words (p / 64) (q / 64) _ 0 ne')
]

module _ (wide : ℕ → ℕ) where
  -- `set_phys` on an address whose page has a word, at one of its bits 0 to 30, makes that page
  -- used or free as asked, and changes no other page.
  pub set_phys_lem :
      (addr b : ℕ) (m : Physmem)
      → word_index addr < length m.pmm
      → bit_index addr < 31
      → (m' : Physmem) × (set_phys wide addr b m ≡ some m')
        × IsMarked b (addr / page_size) (addr / page_size + 1) m m'
  unfolding set_phys int_one_shl
  set_phys_lem addr b m h k = (
    m',
    ground (arith, get_elem?-eq-get_or m.pmm i 0 h),
    record {
      inside = λ p q r.
          let e : p ≡ addr / page_size = omega arith in
          rw e (page_bit-set_self m.pmm b (addr / page_size) h);
      outside = λ p q. page_bit-set_ne m.pmm b (addr / page_size) p h (omega arith);
      shape = SameShape-set m i v;
    },
  )
    where
      i : ℕ
      i = word_index addr

      v : ℕ
      v = stored b (2 ^ bit_index addr) (get_or m.pmm i 0)

      m' : Physmem
      m' = record m { pmm = set m.pmm i v }

  pub set_phys_page :
      (lo b : ℕ) (m : Physmem)
      → lo / 64 < length m.pmm
      → lo % 64 < 31
      → (m' : Physmem) × (set_phys wide (lo * page_size) b m ≡ some m')
        × IsMarked b lo (lo + 1) m m'
  set_phys_page lo b m =
      let e : lo * page_size / page_size ≡ lo = omega arith in
      subst
        (λ p.
          p / 64 < length m.pmm
          → p % 64 < 31
          → (m' : Physmem) × (set_phys wide (lo * page_size) b m ≡ some m')
            × IsMarked b p (p + 1) m m')
        e (set_phys_lem (lo * page_size) b m)
