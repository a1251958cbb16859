-- ===== src/Kstd/Print/Format.antt =====
-- Reading a format: where a part of it stands, and the letter of a conversion.
use twos.Base.{
  ℕ, zero, suc, ◌+◌, ◌≤◌, ◌≡◌, ◌∙◌, refl, ap, subst, ◌==◌, false, some, List, [], ◌∷◌, ◌++◌, length,
  arith,
}
use native.Mathlib.Nat.{lt_irrefl}
use twos.Kstd.Print.{byte_at, below_58, find_letter}

-- From the place `c` on the format is `rest`.
pub record Stands (fmt : List ℕ) (c : ℕ) (rest : List ℕ) : Type 0 where
  pub bytes : (i : ℕ) → byte_at fmt (c + i) ≡ byte_at rest i
  pub size : length fmt ≡ c + length rest

byte_at-next : (x : ℕ) (xs : List ℕ) (i : ℕ) → byte_at (x ∷ xs) (suc i) ≡ byte_at xs i
unfolding byte_at
byte_at-next x xs i =
    let same : (suc i == suc (length xs)) ≡ (i == length xs) = ground arith in rw same refl

pub Stands-next :
    {fmt : List ℕ} {c x : ℕ} {rest : List ℕ} → Stands fmt c (x ∷ rest) → Stands fmt (c + 1) rest
Stands-next {fmt} {c} {x} {rest} st = record {
  bytes = λ i. ap (byte_at fmt) (omega arith) ∙ st.bytes (suc i) ∙ byte_at-next x rest i;
  size = omega (arith, st.size);
}

-- The part behind a part.
pub Stands-skip :
    {fmt : List ℕ} (xs : List ℕ) {ys : List ℕ} {c : ℕ}
    → Stands fmt c (xs ++ ys)
    → Stands fmt (c + length xs) ys
Stands-skip {fmt} [] {ys} {c} st = subst (λ k. Stands fmt k ys) (omega arith) st
Stands-skip {fmt} (x ∷ xs) {ys} {c} st =
    subst (λ k. Stands fmt k ys) (omega arith) (Stands-skip xs (Stands-next st))

pub Stands-whole : (fmt : List ℕ) → Stands fmt 0 fmt
Stands-whole fmt = record { bytes = λ i. ap (byte_at fmt) (omega arith); size = omega arith }

pub first_byte :
    {fmt : List ℕ} {c x : ℕ} {rest : List ℕ} → Stands fmt c (x ∷ rest) → byte_at fmt c ≡ some x
unfolding byte_at
first_byte {fmt} {c} {x} {rest} st =
    let inside : (0 == suc (length rest)) ≡ false = ground arith in
    ap (byte_at fmt) (omega arith) ∙ st.bytes 0 ∙ rw inside refl

pub last_byte : {fmt : List ℕ} {c : ℕ} → Stands fmt c [] → byte_at fmt c ≡ some 0
unfolding byte_at
last_byte {fmt} {c} st = ap (byte_at fmt) (omega arith) ∙ st.bytes 0

-- The letter right behind the percent sign.
pub find_letter_lem :
    (fuel : ℕ) (fmt : List ℕ) (c ch : ℕ)
    → 2 ≤ fuel
    → byte_at fmt c ≡ some b'%'
    → byte_at fmt (c + 1) ≡ some ch
    → below_58 ch ≡ false
    → find_letter fuel fmt c 0 ≡ some (ch, c + 1, 1)
unfolding find_letter
find_letter_lem zero fmt c ch h percent letter high = elim (lt_irrefl 0 (omega arith)) [ ]
find_letter_lem (suc zero) fmt c ch h percent letter high = elim (lt_irrefl 0 (omega arith)) [ ]
find_letter_lem (suc (suc fuel)) fmt c ch h percent letter high =
    rw percent (rw letter (rw high refl))
