-- ===== src/Mem/Phys/Refine.antt =====
-- The code of the physical memory manager keeps to its specification, request by request.
use twos.Base.{
  ℕ, ◌+◌, ◌*◌, ◌/◌, ◌%◌, ◌^◌, ◌≤◌, ◌<◌, ◌≡◌, ◌≢◌, inl, inr, ◌∙◌, sym, refl, ap, subst, ◌==◌, false,
  Option, some, ◌>>=◌, List, [], ◌∷◌, length, arith,
}
use native.Mathlib.Nat.{lt_irrefl}
use twos.Mem.Page.{page_size}
use twos.Mem.Phys.{Physmem, page_used, pmm_size, phys_free}
use twos.Mem.Phys.Alloc.{pages_of, phys_malloc}
use twos.Mem.Phys.Bitmap.{IsMarked}
use twos.Mem.Phys.Found.{NoGap}
use twos.Mem.Phys.Malloc.{HasWords, phys_malloc_lem}
use twos.Mem.Phys.Region.{phys_free_lem}
use twos.Mem.Phys.Spec.{
  Command, alloc, free, Reply, pages, nothing, done, needed, Step, gives, refuses, frees, Run, stop,
  step, reply_to,
}

reply_to-pages : (addr lo : ℕ) → addr ≡ lo * page_size → lo ≢ 0 → reply_to addr ≡ pages lo
reply_to-pages addr lo at later =
    let real : (addr == 0) ≡ false = ground (arith, at, later) in
    let page : addr / page_size ≡ lo = omega (arith, at) in rw real (ap pages page)

module _ (wide : ℕ → ℕ) where
  -- The requests against the code.
  unfoldable pub serve : List Command → Physmem → Option (List Reply × Physmem)
  serve [] m = some ([], m)
  serve (alloc size ∷ cs) m = phys_malloc size m >>= λ (addr, m').
      serve cs m' >>= λ (rs, m''). some (reply_to addr ∷ rs, m'')
  serve (free lo size ∷ cs) m = phys_free wide (lo * page_size) size m >>= λ m'.
      serve cs m' >>= λ (rs, m''). some (done ∷ rs, m'')

  module _ (words limit : ℕ) where
    -- The bitmap keeps its shape, and page 0 stays in use.
    pub record IsKept (m : Physmem) : Type 0 where
      pub shape : length m.pmm ≡ words
      pub searched : m.mm_end ≡ limit
      pub there : limit ≤ words
      pub fits : words ≤ pmm_size
      pub first : page_used m 0 ≡ 1

    -- What the requests have to respect, each in the state that it finds.
    unfoldable pub Allowed : List Command → Physmem → Type 0
    Allowed [] m = 0 ≤ 0
    Allowed (alloc size ∷ cs) m =
        (0 < size)
        × (size + page_size ≤ 2 ^ 64)
        × NoGap (pages_of size) m.pmm m.mm_end
        × ((addr : ℕ) (m' : Physmem) → phys_malloc size m ≡ some (addr, m') → Allowed cs m')
    Allowed (free lo size ∷ cs) m =
        (0 < lo)
        × (lo * page_size + size + page_size ≤ 2 ^ 64)
        × ((p : ℕ) → lo ≤ p → p < lo + needed size → (p / 64 < words) × (p % 64 < 31))
        × ((m' : Physmem) → phys_free wide (lo * page_size) size m ≡ some m' → Allowed cs m')

    -- Marking pages other than page 0 keeps the shape and page 0.
    IsKept-marked :
        (b lo hi : ℕ) (m m' : Physmem) → IsKept m → 0 < lo → IsMarked b lo hi m m' → IsKept m'
    IsKept-marked b lo hi m m' k pos marked = record {
      shape = marked.shape.words ∙ k.shape;
      searched = marked.shape.mm_end ∙ k.searched;
      there = k.there;
      fits = k.fits;
      first = marked.outside 0 (inl pos) ∙ k.first;
    }

    alloc-Step :
        (size : ℕ) (m : Physmem)
        → IsKept m
        → 0 < size
        → size + page_size ≤ 2 ^ 64
        → NoGap (pages_of size) m.pmm m.mm_end
        → (addr : ℕ) × (m' : Physmem) × (phys_malloc size m ≡ some (addr, m'))
          × IsKept m'
          × Step (limit * 64) (page_used m) (page_used m') (alloc size) (reply_to addr)
    alloc-Step size m k pos small gap =
        let has : HasWords m = record {
          there = omega (arith, k.there, k.shape, k.searched);
          fits = omega (arith, k.shape, k.fits);
        } in
        let (addr, m', runs, outcome) = phys_malloc_lem size m has pos small gap in
        let same : pages_of size ≡ needed size = omega (arith, small) in
        let some_page : 0 < needed size = omega (arith, pos) in
        elim outcome [
          | inl (lo, at, got) ↦
              let later : lo ≢ 0 = λ z. lt_irrefl 0 (
                omega (
                  arith,
                  got.was_free 0 (omega (arith, z)) (omega (arith, same, some_page)),
                  k.first,
                )) in
              let address : reply_to addr ≡ pages lo = reply_to-pages addr lo at later in
              (
                addr,
                m',
                runs,
                IsKept-marked 1 lo (lo + pages_of size) m m' k (omega (arith, later)) got.marked,
                subst (Step (limit * 64) (page_used m) (page_used m') (alloc size)) (sym address) (
                    gives size lo (omega (arith, got.within, same, k.searched))
                      (λ p h h'. got.was_free p h (omega (arith, h', same)))
                      (record {
                        inside = λ p h h'. got.marked.inside p h (omega (arith, h', same));
                        outside = λ p h. got.marked.outside p (omega (arith, h, same));
                      })),
              )
          | inr (zero_address, unchanged, no_run) ↦
              let address : reply_to addr ≡ nothing = rw zero_address refl in
              (
                addr,
                m',
                runs,
                subst IsKept (sym unchanged) k,
                subst (Step (limit * 64) (page_used m) (page_used m') (alloc size)) (sym address) (
                    refuses size
                      (λ lo h all.
                        no_run lo (omega (arith, h, same, k.searched))
                          (λ p h₁ h₂. all p h₁ (omega (arith, h₂, same))))
                      (λ p. ap (λ x. page_used x p) unchanged)),
              )
        ]

    free-Step :
        (lo size : ℕ) (m : Physmem)
        → IsKept m
        → 0 < lo
        → lo * page_size + size + page_size ≤ 2 ^ 64
        → ((p : ℕ) → lo ≤ p → p < lo + needed size → (p / 64 < words) × (p % 64 < 31))
        → (m' : Physmem) × (phys_free wide (lo * page_size) size m ≡ some m')
          × IsKept m'
          × Step (limit * 64) (page_used m) (page_used m') (free lo size) done
    free-Step lo size m k pos small ok =
        let (m', runs, marked) =
          phys_free_lem wide lo size m small
            (λ p h h'. (omega (arith, (ok p h h').0, k.shape), (ok p h h').1)) in
        (
          m',
          runs,
          IsKept-marked 0 lo (lo + needed size) m m' k pos marked,
          frees lo size (record { inside = marked.inside; outside = marked.outside }),
        )

    -- From a bitmap with its words and page 0 in use, every history of requests that is allowed, with
    -- sizes above 0 that do not wrap, no gap in the bitmap, and pages given back at bits 0 to 30 of
    -- their words, is served: its replies and its pages are those of a history of the specification.
    pub serve_lem :
        (cs : List Command) (m : Physmem)
        → Allowed cs m
        → IsKept m
        → (rs : List Reply) × (m' : Physmem) × (serve cs m ≡ some (rs, m'))
          × IsKept m'
          × Run (limit * 64) (page_used m) cs rs (page_used m')
    unfolding serve Allowed
    serve_lem [] m h k = ([], m, refl, k, stop (page_used m))
    serve_lem (alloc size ∷ cs) m (pos, small, gap, next) k =
        let (addr, m', runs, k', s) = alloc-Step size m k pos small gap in
        let (rs, m'', serves, k'', r) = serve_lem cs m' (next addr m' runs) k' in
        (reply_to addr ∷ rs, m'', rw runs (rw serves refl), k'', step s r)
    serve_lem (free lo size ∷ cs) m (pos, small, ok, next) k =
        let (m', runs, k', s) = free-Step lo size m k pos small ok in
        let (rs, m'', serves, k'', r) = serve_lem cs m' (next m' runs) k' in
        (done ∷ rs, m'', rw runs (rw serves refl), k'', step s r)
