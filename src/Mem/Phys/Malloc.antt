-- ===== src/Mem/Phys/Malloc.antt =====
-- `phys_malloc` as a whole: the pages that it returns were free and are now used, and it fails
-- exactly where there are none.
use twos.Base.{
  ℕ, zero, suc, ◌+◌, ◌*◌, ◌/◌, ◌%◌, ◌^◌, ◌≤◌, ◌<◌, ◌≡◌, ◌⊎◌, inl, inr, sym, subst, ◌∙◌, some, List,
  length, get_or, set, get_elem?-eq-get_or, bit_or, u64, arith, refl,
}
use twos.Mem.Page.{page_size}
use twos.Mem.Phys.{Physmem, pmm_size}
use twos.Mem.Phys.Alloc.{Scan, found, more, mark_pages, pages_of, finish_malloc, phys_malloc}
use twos.Mem.Phys.Bitmap.{
  SameShape-set, IsMarked, IsMarked-refl, IsMarked-trans, page_bit-set_self, page_bit-set_ne,
}
use twos.Mem.Phys.Runs.{FreeFrom, start, IsSound, IsComplete}
use twos.Mem.Phys.Found.{NoGap, search-IsSound, search-IsComplete}

abbrev with_words : Physmem → List ℕ → Physmem
with_words m pmm = record m { pmm = pmm }

-- One page marked.
mark_one :
    (m : Physmem) (p : ℕ)
    → p / 64 < length m.pmm
    → IsMarked 1 p
        (p + 1)
        m
        (with_words m (set m.pmm (p / 64) (bit_or (get_or m.pmm (p / 64) 0) (2 ^ (p % 64)))))
mark_one m p h = record {
  inside = λ q a b. let e : q ≡ p = omega arith in rw e (page_bit-set_self m.pmm 1 p h);
  outside = λ q a. page_bit-set_ne m.pmm 1 p q h (omega arith);
  shape = SameShape-set m (p / 64) _;
}

mark_pages_step :
    (left i p start_idx start_bit : ℕ) (pmm : List ℕ)
    → start_idx * 64 + start_bit + i ≡ p
    → p / 64 < length pmm
    → mark_pages start_idx start_bit (suc left) i pmm
      ≡ mark_pages start_idx start_bit left
          (i + 1)
          (set pmm (p / 64) (bit_or (get_or pmm (p / 64) 0) (2 ^ (p % 64))))
unfolding mark_pages
mark_pages_step left i p a b pmm e h =
    let word : a + (b + i) / 64 ≡ p / 64 = omega arith in
    let place : (b + i) % 64 ≡ p % 64 = omega arith in
    rw (word, place, get_elem?-eq-get_or pmm (p / 64) 0 h)

mark_pages_lem :
    (left i p start_idx start_bit : ℕ) (m : Physmem)
    → start_idx * 64 + start_bit + i ≡ p
    → p + left ≤ length m.pmm * 64
    → (pmm' : List ℕ) × (mark_pages start_idx start_bit left i m.pmm ≡ some pmm')
      × IsMarked 1 p (p + left) m (with_words m pmm')
unfolding mark_pages
mark_pages_lem zero i p a b m e h = (m.pmm, refl, IsMarked-refl 1 p (p + 0) m (omega arith))
mark_pages_lem (suc left) i p a b m e h =
    let there : p / 64 < length m.pmm = omega arith in
    let one = mark_one m p there in
    let m' = with_words m (set m.pmm (p / 64) (bit_or (get_or m.pmm (p / 64) 0) (2 ^ (p % 64)))) in
    let (pmm', runs, rest) =
      mark_pages_lem left (i + 1) (p + 1) a b m' (omega arith) (omega (arith, one.shape.words)) in
    let e' : p + 1 + left ≡ p + suc left = omega arith in
    (
      pmm',
      mark_pages_step left i p a b m.pmm e there ∙ runs,
      IsMarked-trans (omega arith) (omega arith) one
          (subst (λ k. IsMarked 1 (p + 1) k m' (with_words m pmm')) e' rest),
    )

-- `n` pages from page `lo` on, all searched and free before, are used afterwards, and no other
-- page is changed.
pub record IsAllocated (n lo : ℕ) (m m' : Physmem) : Type 0 where
  pub within : lo + n ≤ m.mm_end * 64
  pub was_free : FreeFrom m.pmm lo (lo + n)
  pub marked : IsMarked 1 lo (lo + n) m m'

-- The bitmap has all words that are searched, and no more than the array has.
pub record HasWords (m : Physmem) : Type 0 where
  pub there : m.mm_end ≤ length m.pmm
  pub fits : length m.pmm ≤ pmm_size

-- No `n` searched pages in a row are free.
abbrev pub HasNoRun : ℕ → Physmem → Type 0
HasNoRun n m = (lo : ℕ) → lo + n ≤ m.mm_end * 64 → ¬ FreeFrom m.pmm lo (lo + n)

-- Asked for a size above 0 that does not wrap, with the words there and no gap, `phys_malloc`
-- returns, and either it gives the address of a run of free pages long enough, which are now used
-- and the only ones changed, or it gives 0, changes nothing, and there is no such run.
pub phys_malloc_lem :
    (size : ℕ) (m : Physmem)
    → HasWords m
    → 0 < size
    → size + page_size ≤ 2 ^ 64
    → NoGap (pages_of size) m.pmm m.mm_end
    → (addr : ℕ) × (m' : Physmem) × (phys_malloc size m ≡ some (addr, m'))
      × (((lo : ℕ) × (addr ≡ lo * page_size) × IsAllocated (pages_of size) lo m m')
          ⊎ ((addr ≡ 0) × (m' ≡ m) × HasNoRun (pages_of size) m))
unfolding phys_malloc
phys_malloc_lem size m words pos small gap =
    let n : ℕ = pages_of size in
    let pos_n : 0 < n = omega arith in
    let (r, runs, sound) = search-IsSound n m.mm_end m.pmm pos_n words.there gap in
    let (r', runs', complete) = search-IsComplete n m.mm_end m.pmm pos_n words.there in
    let same : r' ≡ r = cc (sym runs' ∙ runs) in
    rw runs (finish pos_n r sound (subst (IsComplete n m.pmm (m.mm_end * 64)) same complete))
  where
    finish :
        0 < pages_of size
        → (r : Scan) → IsSound (pages_of size) m.pmm (m.mm_end * 64) r
        → IsComplete (pages_of size) m.pmm (m.mm_end * 64) r
        → (addr : ℕ) × (m' : Physmem) × (finish_malloc size m r ≡ some (addr, m'))
          × (((lo : ℕ) × (addr ≡ lo * page_size) × IsAllocated (pages_of size) lo m m')
              ⊎ ((addr ≡ 0) × (m' ≡ m) × HasNoRun (pages_of size) m))
    finish pos_n (more s) sound complete = (0, m, refl, inr (refl, refl, complete.absent))
    finish pos_n (found s) (full, inside, free) complete =
        let (pmm', marks, marked) =
          mark_pages_lem (pages_of size) 0 (start s) s.start_idx s.start_bit m (omega arith)
            (omega (arith, words.there)) in
        (
          u64 (start s * page_size),
          with_words m pmm',
          rw marks,
          inl (
            start s,
            omega (arith, words.there, words.fits),
            record { within = inside; was_free = free; marked = marked },
          ),
        )
