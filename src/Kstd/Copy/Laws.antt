-- ===== src/Kstd/Copy/Laws.antt =====
-- What the copies leave in memory.
use twos.Base.{
  ℕ, zero, suc, ◌+◌, ◌-◌, ◌≤◌, ◌<◌, ◌≡◌, ◌≢◌, ◌⊎◌, ap, sym, ◌∙◌, refl, false, ◌==◌, some, Memory,
  update, update_ne, update_self, arith,
}
use native.Mathlib.Decide.{dec_lt}
use twos.Kstd.Copy.{memcpy, memset, strlen, strcpy, strcat}

-- A string of `n` bytes at `str`: none of them is zero, and a zero byte follows.
pub record IsText (mem : Memory) (str n : ℕ) : Type 0 where
  pub body : (i : ℕ) → i < n → mem (str + i) ≢ 0
  pub ends : mem (str + n) ≡ 0

-- The two regions of `n` bytes do not touch.
abbrev pub Apart : ℕ → ℕ → ℕ → Type 0
Apart n dest src = (dest + n ≤ src) ⊎ (src + n ≤ dest)

-- No byte outside the destination is written.
pub memcpy_outside :
    (n dest src : ℕ) (mem : Memory) (b : ℕ)
    → (b < dest) ⊎ (dest + n ≤ b)
    → memcpy n dest src mem b ≡ mem b
unfolding memcpy
memcpy_outside zero dest src mem b h = refl
memcpy_outside (suc n) dest src mem b h =
    memcpy_outside n (dest + 1) (src + 1) (update mem dest (mem src)) b (omega arith)
    ∙ update_ne mem dest b (mem src) (omega arith)

-- `memcpy` between regions that do not touch puts each source byte at its place.
pub memcpy_at :
    (n dest src : ℕ) (mem : Memory) (i : ℕ)
    → Apart n dest src
    → i < n
    → memcpy n dest src mem (dest + i) ≡ mem (src + i)
unfolding memcpy
memcpy_at zero dest src mem i h k = absurd (omega arith)
memcpy_at (suc n) dest src mem zero h k =
    memcpy_outside n (dest + 1) (src + 1) (update mem dest (mem src)) (dest + 0) (omega arith)
    ∙ update_self mem dest (dest + 0) (mem src) (omega arith)
    ∙ ap mem (omega arith)
memcpy_at (suc n) dest src mem (suc i) h k =
    let mem' = update mem dest (mem src) in
    let step : dest + suc i ≡ dest + 1 + i = omega arith in
    ap (memcpy n (dest + 1) (src + 1) mem') step
    ∙ memcpy_at n (dest + 1) (src + 1) mem' i (omega arith) (omega arith)
    ∙ update_ne mem dest (src + 1 + i) (mem src) (omega arith)
    ∙ ap mem (omega arith)

-- `memset` writes its `n` bytes and no other.
pub memset_outside :
    (n dest val : ℕ) (mem : Memory) (b : ℕ)
    → (b < dest) ⊎ (dest + n ≤ b)
    → memset n dest val mem b ≡ mem b
unfolding memset
memset_outside zero dest val mem b h = refl
memset_outside (suc n) dest val mem b h =
    memset_outside n (dest + 1) val (update mem dest val) b (omega arith)
    ∙ update_ne mem dest b val (omega arith)

pub memset_at :
    (n dest val : ℕ) (mem : Memory) (i : ℕ) → i < n → memset n dest val mem (dest + i) ≡ val
unfolding memset
memset_at zero dest val mem i k = elim k [ ]
memset_at (suc n) dest val mem zero k =
    memset_outside n (dest + 1) val (update mem dest val) (dest + 0) (omega arith)
    ∙ update_self mem dest (dest + 0) val (omega arith)
memset_at (suc n) dest val mem (suc i) k =
    let step : dest + suc i ≡ dest + 1 + i = omega arith in
    ap (memset n (dest + 1) val (update mem dest val)) step
    ∙ memset_at n (dest + 1) val (update mem dest val) i (omega arith)

-- On a string shorter than the fuel, `strlen` returns its length.
pub strlen_lem :
    (fuel str n : ℕ) (mem : Memory) → IsText mem str n → n < fuel → strlen fuel str mem ≡ some n
unfolding strlen
strlen_lem zero str n mem t h = absurd (omega arith)
strlen_lem (suc fuel) str zero mem t h = let e : mem str ≡ 0 = ap mem (omega arith) ∙ t.ends in rw e
strlen_lem (suc fuel) str (suc n) mem t h =
    let start : (mem str == 0) ≡ false =
      ground (arith, t.body 0, ap mem {x = str + 0} {y = str} (omega arith)) in
    let rest : IsText mem (str + 1) n = record {
      body = λ i k z. t.body (suc i) (omega arith) (ap mem (omega arith) ∙ z);
      ends = ap mem (omega arith) ∙ t.ends;
    } in
    rw (start, strlen_lem fuel (str + 1) n mem rest (omega arith))

-- Copying a string to a region that does not touch it leaves the same string there, and `strcpy`
-- writes nothing else.
pub strcpy_lem :
    (fuel dest src n : ℕ) (mem : Memory)
    → IsText mem src n
    → n < fuel
    → dest ≢ 0
    → src ≢ 0
    → Apart (n + 1) dest src
    → (mem' : Memory) × (strcpy fuel dest src mem ≡ some mem')
      × IsText mem' dest n
      × ((i : ℕ) → i < n → mem' (dest + i) ≡ mem (src + i))
      × ((b : ℕ) → (b < dest) ⊎ (dest + (n + 1) ≤ b) → mem' b ≡ mem b)
unfolding strcpy
strcpy_lem fuel dest src n mem t h d s apart =
    let at = λ (i : ℕ) (k : i < n + 1). memcpy_at (n + 1) dest src mem i apart k in
    let dest_set : (dest == 0) ≡ false = ground arith in
    let src_set : (src == 0) ≡ false = ground arith in
    (
      memcpy (n + 1) dest src mem,
      rw (dest_set, src_set, strlen_lem fuel src n mem t h),
      record {
        body = λ i k z. t.body i k (sym (at i (omega arith)) ∙ z);
        ends = at n (omega arith) ∙ t.ends;
      },
      λ i k. at i (omega arith),
      λ b k. memcpy_outside (n + 1) dest src mem b k,
    )

-- Appending a string behind another, into room that touches neither: `strcat` leaves the two
-- strings one after the other.
pub strcat_lem :
    (fuel dest src n k : ℕ) (mem : Memory)
    → IsText mem dest n
    → IsText mem src k
    → n < fuel
    → k < fuel
    → dest ≢ 0
    → src ≢ 0
    → (dest + (n + k) < src) ⊎ (src + k < dest)
    → (mem' : Memory) × (strcat fuel dest src mem ≡ some mem')
      × IsText mem' dest (n + k)
      × ((i : ℕ) → i < n → mem' (dest + i) ≡ mem (dest + i))
      × ((i : ℕ) → i < k → mem' (dest + (n + i)) ≡ mem (src + i))
unfolding strcat
strcat_lem fuel dest src n k mem t u h h' d s apart =
    let (mem', runs, text, copied, kept) =
      strcpy_lem fuel (dest + n) src k mem u h' (omega arith) s (omega arith) in
    let dest_set : (dest == 0) ≡ false = ground arith in
    let src_set : (src == 0) ≡ false = ground arith in
    let first = λ (i : ℕ) (q : i < n). kept (dest + i) (omega arith) in
    let second = λ (i : ℕ) (q : i < k).
      ap mem' {x = dest + (n + i)} {y = dest + n + i} (omega arith) ∙ copied i q in
    (
      mem',
      rw (dest_set, src_set, strlen_lem fuel dest n mem t h) runs,
      record {
        body = λ i q z. elim (dec_lt i n) [
          | yes lt ↦ t.body i lt (sym (first i lt) ∙ z)
          | no ge ↦ u.body (i - n) (omega arith) (
              sym (second (i - n) (omega arith))
              ∙ ap mem' {x = dest + (n + (i - n))} {y = dest + i} (omega arith)
              ∙ z)
        ];
        ends = ap mem' {x = dest + (n + k)} {y = dest + n + k} (omega arith) ∙ text.ends;
      },
      first,
      second,
    )
