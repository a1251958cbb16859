-- ===== src/Mem/Phys/Found.antt =====
-- The search of `phys_malloc` over whole words: what it finds is free, and what it misses is not
-- there.
use twos.Base.{
  ℕ, zero, suc, ◌+◌, ◌-◌, ◌*◌, ◌≤◌, ◌<◌, ◌≡◌, ◌⊎◌, inl, inr, ap, subst, ◌∙◌, ◌==◌, Bool-cases,
  ==_iff, some, List, length, get_or, get_elem?-eq-get_or, test_bit, test_bit-complement,
  zero-test_bit, uint64_max, arith, refl,
}
use native.Mathlib.Decide.{ℕ_discrete, dec_le}
use twos.Mem.Phys.{page_bit}
use twos.Mem.Phys.Alloc.{Search, Scan, found, more, scan_bits, scan_word, scan_words, no_run}
use twos.Mem.Phys.Runs.{
  start, IsRun, IsLongest, IsSound, IsComplete, IsRun-extend, IsRun-reset, IsLongest-extend,
  IsLongest-reset, extend-free, page_bit-at, scan_bits_rule,
}

-- One page is asked for, or no full word among the first `limit` comes straight after a word
-- whose last page is free.
abbrev pub NoGap : ℕ → List ℕ → ℕ → Type 0
NoGap n pmm limit =
    (n ≡ 1)
    ⊎ ((idx : ℕ)
        → 0 < idx
        → idx < limit
        → get_or pmm idx 0 ≡ uint64_max
        → page_bit pmm (idx * 64 - 1) ≡ 1)

module _ (n : ℕ) (pmm : List ℕ) (pos_n : 0 < n) where
  scan_bits-IsSound :
      (idx : ℕ) (s : Search)
      → IsRun n pmm (idx * 64) s
      → IsSound n pmm (idx * 64 + 64) (scan_bits n (get_or pmm idx 0) idx 64 0 s)
  scan_bits-IsSound idx s run =
      scan_bits_rule n pmm (IsRun n pmm) (IsSound n pmm (idx * 64 + 64)) idx
        (λ pos bit s e free h ne. IsRun-extend n pmm pos idx bit s h e free ne)
        (λ pos bit s lt e free h full.
          let (grown, ends, frees) = extend-free n pmm pos idx bit s h e free in
          (full, omega arith, λ p q r. frees p q (omega arith)))
        (λ pos s used h. IsRun-reset n pmm (pos + 1) s pos_n) (λ s h. h) 64 0 (idx * 64) s
        (omega arith) refl run

  scan_bits-IsComplete :
      (idx : ℕ) (s : Search)
      → IsLongest n pmm (idx * 64) s
      → IsComplete n pmm (idx * 64 + 64) (scan_bits n (get_or pmm idx 0) idx 64 0 s)
  scan_bits-IsComplete idx s run =
      scan_bits_rule n pmm (IsLongest n pmm) (IsComplete n pmm (idx * 64 + 64)) idx
        (λ pos bit s e free h ne. IsLongest-extend n pmm pos idx bit s h ne)
        (λ pos bit s lt e free h full. tt) (λ pos s used h. IsLongest-reset n pmm pos s h used)
        (λ s h. h) 64 0 (idx * 64) s (omega arith) refl run

  -- A full word has no free page.
  full_word :
      (idx p : ℕ)
      → get_or pmm idx 0 ≡ uint64_max
      → idx * 64 ≤ p
      → p < idx * 64 + 64
      → page_bit pmm p ≡ 1
  full_word idx p e h k =
      let bit : ℕ = p - idx * 64 in
      page_bit-at n pmm p idx bit (omega arith) (omega arith)
      ∙ ap (λ w. test_bit w bit) e
      ∙ omega (arith, test_bit-complement 64 0 bit (omega arith) (omega arith), zero-test_bit bit)

  IsRun-skip :
      (idx limit : ℕ) (s : Search)
      → NoGap n pmm limit
      → idx < limit
      → get_or pmm idx 0 ≡ uint64_max
      → IsRun n pmm (idx * 64) s
      → IsRun n pmm (idx * 64 + 64) s
  IsRun-skip idx limit s gap lt e run = record {
    short = run.short;
    free = run.free;
    ends = inl (closed gap run.ends);
  }
    where
      closed :
          NoGap n pmm limit
          → (s.contiguous ≡ 0) ⊎ (start s + s.contiguous ≡ idx * 64)
          → s.contiguous ≡ 0
      closed g (inl z) = z
      closed (inl one) (inr r) = omega (arith, run.short)
      closed (inr used) (inr r) = elim (ℕ_discrete s.contiguous 0) [
        | yes z ↦ z
        | no nz ↦ omega (
          arith,
          used idx (omega arith) lt e,
          run.free (idx * 64 - 1) (omega arith) (omega arith),
        )
      ]

  IsLongest-skip :
      (idx : ℕ) (s : Search)
      → get_or pmm idx 0 ≡ uint64_max
      → IsLongest n pmm (idx * 64) s
      → IsLongest n pmm (idx * 64 + 64) s
  IsLongest-skip idx s e run = record {
    short = run.short;
    longest = λ q h free. elim (dec_le (idx * 64 + 64) q) [
      | yes le ↦ omega arith
      | no gt ↦ omega (
        arith,
        free (idx * 64 + 63) (omega arith) (omega arith),
        full_word idx (idx * 64 + 63) e (omega arith) (omega arith),
      )
    ];
    absent = λ q h free. elim (dec_le (q + n) (idx * 64)) [
      | yes le ↦ run.absent q le free
      | no gt ↦ omega (
        arith,
        free (q + n - 1) (omega arith) (omega arith),
        full_word idx (q + n - 1) e (omega arith) (omega arith),
      )
    ];
  }

  scan_word-IsSound :
      (idx limit : ℕ) (s : Search)
      → NoGap n pmm limit
      → idx < limit
      → IsRun n pmm (idx * 64) s
      → IsSound n pmm (idx * 64 + 64) (scan_word n (get_or pmm idx 0) idx s)
  unfolding scan_word
  scan_word-IsSound idx limit s gap lt run = elim (Bool-cases (get_or pmm idx 0 == uint64_max)) [
    | inl full ↦ rw full (IsRun-skip idx limit s gap lt ((==_iff _ _).0 full) run)
    | inr part ↦ rw part (scan_bits-IsSound idx s run)
  ]

  scan_word-IsComplete :
      (idx : ℕ) (s : Search)
      → IsLongest n pmm (idx * 64) s
      → IsComplete n pmm (idx * 64 + 64) (scan_word n (get_or pmm idx 0) idx s)
  unfolding scan_word
  scan_word-IsComplete idx s run = elim (Bool-cases (get_or pmm idx 0 == uint64_max)) [
    | inl full ↦ rw full (IsLongest-skip idx s ((==_iff _ _).0 full) run)
    | inr part ↦ rw part (scan_bits-IsComplete idx s run)
  ]

-- The outer loop over `limit` words that are all there: it ends, and keeps what a word keeps.
module _ (n limit : ℕ) (pmm : List ℕ) (there : limit ≤ length pmm) (P : ℕ → Search → Type 0)
    (Q : Scan → Type 0) where
  abbrev AfterWord : ℕ → Scan → Type 0
  AfterWord idx (found s) = Q (found s)
  AfterWord idx (more s) = P (idx * 64 + 64) s

  scan_words_rule :
      ((idx : ℕ) (s : Search)
        → idx < limit
        → P (idx * 64) s
        → AfterWord idx (scan_word n (get_or pmm idx 0) idx s))
      → ((s : Search) → P (limit * 64) s → Q (more s))
      → (left idx : ℕ) (s : Search) → idx + left ≡ limit
      → P (idx * 64) s
      → (r : Scan) × (scan_words n pmm left idx s ≡ some r) × Q r
  unfolding scan_words
  scan_words_rule word done zero idx s e h =
      let e' : idx ≡ limit = omega arith in (more s, refl, done s (subst (λ i. P (i * 64) s) e' h))
  scan_words_rule word done (suc left) idx s e h =
      rw (get_elem?-eq-get_or pmm idx 0 (omega arith)) (
        go (scan_word n (get_or pmm idx 0) idx s) (word idx s (omega arith) h)
          (λ s'. scan_words_rule word done left (idx + 1) s' (omega arith)))
    where
      go :
          (r : Scan)
          → AfterWord idx r
          → ((s' : Search)
              → P ((idx + 1) * 64) s'
              → (r' : Scan) × (scan_words n pmm left (idx + 1) s' ≡ some r') × Q r')
          → (r' : Scan) × (elim r [
            | found s' ↦ some (found s')
            | more s' ↦ scan_words n pmm left (idx + 1) s'
          ]
              ≡ some r')
            × Q r'
      go (found s') after rest = (found s', refl, after)
      go (more s') after rest =
          let e' : idx * 64 + 64 ≡ (idx + 1) * 64 = omega arith in
          rest s' (subst (λ p. P p s') e' after)

module _ (n limit : ℕ) (pmm : List ℕ) (pos_n : 0 < n) (there : limit ≤ length pmm) where
  widen :
      (idx : ℕ) (r : Scan)
      → idx < limit
      → IsSound n pmm (idx * 64 + 64) r
      → AfterWord n limit pmm there (IsRun n pmm) (IsSound n pmm (limit * 64)) idx r
  widen idx (found s) lt (e, h, free) = (e, omega arith, free)
  widen idx (more s) lt run = run

  after-IsComplete :
      (idx : ℕ) (r : Scan)
      → IsComplete n pmm (idx * 64 + 64) r
      → AfterWord n limit pmm there (IsLongest n pmm) (IsComplete n pmm (limit * 64)) idx r
  after-IsComplete idx (found s) h = tt
  after-IsComplete idx (more s) h = h

  pub search-IsSound :
      NoGap n pmm limit
      → (r : Scan) × (scan_words n pmm limit 0 no_run ≡ some r) × IsSound n pmm (limit * 64) r
  search-IsSound gap =
      scan_words_rule n limit pmm there (IsRun n pmm) (IsSound n pmm (limit * 64))
        (λ idx s lt run.
          widen idx (scan_word n (get_or pmm idx 0) idx s) lt
            (scan_word-IsSound n pmm pos_n idx limit s gap lt run))
        (λ s h. h) limit 0 no_run (omega arith)
        record { short = pos_n; free = λ p q r. absurd (omega arith); ends = inl refl }

  pub search-IsComplete :
      (r : Scan) × (scan_words n pmm limit 0 no_run ≡ some r) × IsComplete n pmm (limit * 64) r
  search-IsComplete =
      scan_words_rule n limit pmm there (IsLongest n pmm) (IsComplete n pmm (limit * 64))
        (λ idx s lt run.
          after-IsComplete idx (scan_word n (get_or pmm idx 0) idx s)
            (scan_word-IsComplete n pmm pos_n idx s run))
        (λ s h. h) limit 0 no_run (omega arith)
        record {
          short = pos_n;
          longest = λ q h free. omega arith;
          absent = λ q h free. absurd (omega arith);
        }
