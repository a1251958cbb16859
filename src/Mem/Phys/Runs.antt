-- ===== src/Mem/Phys/Runs.antt =====
-- The search of `phys_malloc` for free pages in a row: what each round keeps.
use twos.Base.{
  ℕ, zero, suc, ◌+◌, ◌*◌, ◌/◌, ◌%◌, ◌^◌, ◌≤◌, ◌<◌, ◌≡◌, ◌≢◌, ◌⊎◌, inl, inr, ap, subst, sym, ◌∙◌,
  ◌==◌, Bool-cases, ==_iff, List, get_or, bit_and, test_bit, bit_and-two_pow_iff, arith, refl,
}
use native.Mathlib.Decide.{ℕ_discrete, dec_le}
use twos.Mem.Phys.{page_bit}
use twos.Mem.Phys.Alloc.{Search, Scan, found, more, extend, scan_bits}

-- Every page from `lo` up to `hi` is free.
abbrev pub FreeFrom : List ℕ → ℕ → ℕ → Type 0
FreeFrom pmm lo hi = (p : ℕ) → lo ≤ p → p < hi → page_bit pmm p ≡ 0

abbrev pub start : Search → ℕ
start s = s.start_idx * 64 + s.start_bit

-- At page `pos`: the run is shorter than what is sought, free, and ends here unless it is empty.
pub record IsRun (n : ℕ) (pmm : List ℕ) (pos : ℕ) (s : Search) : Type 0 where
  pub short : s.contiguous < n
  pub free : FreeFrom pmm (start s) (start s + s.contiguous)
  pub ends : (s.contiguous ≡ 0) ⊎ (start s + s.contiguous ≡ pos)

-- At page `pos`: no run that ends here is longer, and none below is long enough.
pub record IsLongest (n : ℕ) (pmm : List ℕ) (pos : ℕ) (s : Search) : Type 0 where
  pub short : s.contiguous < n
  pub longest : (q : ℕ) → q ≤ pos → FreeFrom pmm q pos → pos ≤ q + s.contiguous
  pub absent : (q : ℕ) → q + n ≤ pos → ¬ FreeFrom pmm q (q + n)

-- What the search may say at page `pos`.
abbrev pub IsSound : ℕ → List ℕ → ℕ → Scan → Type 0
IsSound n pmm pos (more s) = IsRun n pmm pos s
IsSound n pmm pos (found s) =
    (s.contiguous ≡ n) × (start s + n ≤ pos) × FreeFrom pmm (start s) (start s + n)

abbrev pub IsComplete : ℕ → List ℕ → ℕ → Scan → Type 0
IsComplete n pmm pos (more s) = IsLongest n pmm pos s
IsComplete n pmm pos (found s) = Unit {0}

module _ (n : ℕ) (pmm : List ℕ) where
  pub extend-free :
      (pos idx bit : ℕ) (s : Search)
      → IsRun n pmm pos s
      → idx * 64 + bit ≡ pos
      → page_bit pmm pos ≡ 0
      → let s' = extend s idx bit in
        (s'.contiguous ≡ s.contiguous + 1)
        × (start s' + s'.contiguous ≡ pos + 1)
        × FreeFrom pmm (start s') (pos + 1)
  unfolding extend
  extend-free pos idx bit s run e h = (
    ground arith,
    ground arith,
    λ p q r. elim (ℕ_discrete p pos) [
      | yes e' ↦ ap (page_bit pmm) e' ∙ h
      | no ne ↦ ground (arith, run.free p)
    ],
  )

  pub IsRun-extend :
      (pos idx bit : ℕ) (s : Search)
      → IsRun n pmm pos s
      → idx * 64 + bit ≡ pos
      → page_bit pmm pos ≡ 0
      → (extend s idx bit).contiguous ≢ n
      → IsRun n pmm (pos + 1) (extend s idx bit)
  IsRun-extend pos idx bit s run e h ne =
      let (grown, ends, free) = extend-free pos idx bit s run e h in
      record {
        short = omega (arith, run.short);
        free = λ p q r. free p q (omega arith);
        ends = inr ends;
      }

  pub IsRun-reset : (pos : ℕ) (s : Search) → 0 < n → IsRun n pmm pos (record s { contiguous = 0 })
  IsRun-reset pos s h = record { short = h; free = λ p q r. absurd (omega arith); ends = inl refl }

  IsLongest-next :
      (pos : ℕ) (s s' : Search)
      → IsLongest n pmm pos s
      → s'.contiguous < n
      → ((q : ℕ) → q ≤ pos + 1 → FreeFrom pmm q (pos + 1) → pos + 1 ≤ q + s'.contiguous)
      → IsLongest n pmm (pos + 1) s'
  IsLongest-next pos s s' run short longest = record {
    short = short;
    longest = longest;
    absent = λ q h free. elim (dec_le (q + n) pos) [
      | yes le ↦ run.absent q le free
      | no gt ↦
          let far : pos + 1 ≤ q + s'.contiguous =
            longest q (omega arith) (λ p a b. free p a (omega arith)) in
          omega arith
    ];
  }

  pub contiguous-extend :
      (idx bit : ℕ) (s : Search) → (extend s idx bit).contiguous ≡ s.contiguous + 1
  unfolding extend
  contiguous-extend idx bit s = ground arith

  pub IsLongest-extend :
      (pos idx bit : ℕ) (s : Search)
      → IsLongest n pmm pos s
      → (extend s idx bit).contiguous ≢ n
      → IsLongest n pmm (pos + 1) (extend s idx bit)
  IsLongest-extend pos idx bit s run ne =
      let e = contiguous-extend idx bit s in
      IsLongest-next pos s (extend s idx bit) run (omega (arith, run.short)) λ q h free.
        elim (dec_le q pos) [
          | yes le ↦ omega (arith, run.longest q le (λ p a b. free p a (omega arith)))
          | no gt ↦ omega arith
        ]

  pub IsLongest-reset :
      (pos : ℕ) (s : Search)
      → IsLongest n pmm pos s
      → page_bit pmm pos ≢ 0
      → IsLongest n pmm (pos + 1) (record s { contiguous = 0 })
  IsLongest-reset pos s run h =
      IsLongest-next pos s (record s { contiguous = 0 }) run (omega (arith, run.short))
        λ q k free. elim (dec_le q pos) [
          | yes le ↦ absurd (h (free pos le (omega arith)))
          | no gt ↦ omega arith
        ]

  pub page_bit-at :
      (pos idx bit : ℕ)
      → idx * 64 + bit ≡ pos
      → bit < 64
      → page_bit pmm pos ≡ test_bit (get_or pmm idx 0) bit
  page_bit-at pos idx bit e h =
      let word : pos / 64 ≡ idx = omega arith in
      let place : pos % 64 ≡ bit = omega arith in rw (word, place)

  -- The inner loop, over the bits of word `idx`: a rule for what its rounds keep.
  module _ (P : ℕ → Search → Type 0) (Q : Scan → Type 0) (idx : ℕ)
      (grow : (pos bit : ℕ) (s : Search)
        → idx * 64 + bit ≡ pos
        → page_bit pmm pos ≡ 0
        → P pos s
        → (extend s idx bit).contiguous ≢ n
        → P (pos + 1) (extend s idx bit))
      (stop : (pos bit : ℕ) (s : Search)
        → bit < 64
        → idx * 64 + bit ≡ pos
        → page_bit pmm pos ≡ 0
        → P pos s
        → (extend s idx bit).contiguous ≡ n
        → Q (found (extend s idx bit)))
      (reset : (pos : ℕ) (s : Search)
        → page_bit pmm pos ≢ 0
        → P pos s
        → P (pos + 1) (record s { contiguous = 0 }))
      (leave : (s : Search) → P (idx * 64 + 64) s → Q (more s)) where
    pub scan_bits_rule :
        (left bit pos : ℕ) (s : Search)
        → idx * 64 + bit ≡ pos
        → bit + left ≡ 64
        → P pos s
        → Q (scan_bits n (get_or pmm idx 0) idx left bit s)
    unfolding scan_bits
    scan_bits_rule zero bit pos s e k h =
        let e' : pos ≡ idx * 64 + 64 = omega arith in leave s (subst (λ p. P p s) e' h)
    scan_bits_rule (suc left) bit pos s e k h =
        let at = page_bit-at pos idx bit e (omega arith) in
        let reads = bit_and-two_pow_iff bit (get_or pmm idx 0) in
        elim (Bool-cases (bit_and (get_or pmm idx 0) (2 ^ bit) == 0)) [
          | inl zero_bit ↦
              let free : page_bit pmm pos ≡ 0 = at ∙ reads.0 ((==_iff _ _).0 zero_bit) in
              elim (Bool-cases ((extend s idx bit).contiguous == n)) [
                | inl full ↦
                    rw (zero_bit, full)
                      (stop pos bit s (omega arith) e free h ((==_iff _ _).0 full))
                | inr short ↦
                    rw (zero_bit, short)
                      (scan_bits_rule left (bit + 1) (pos + 1) (extend s idx bit) (omega arith)
                        (omega arith) (grow pos bit s e free h (ground arith)))
              ]
          | inr one_bit ↦ rw one_bit (
              scan_bits_rule left (bit + 1) (pos + 1) (record s { contiguous = 0 }) (omega arith)
                (omega arith)
                (reset pos s (λ free. absurd (ground (arith, reads.1 (sym at ∙ free)))) h))
        ]
