-- ===== src/Base/Fields.antt =====
-- Masks and fields of a word as arithmetic, at every width.
use Prim.Native.Nat.{ℕ, zero, suc, ◌+◌, ◌-◌, ◌*◌, ◌/◌, ◌%◌, ◌^◌, ◌<◌, min, bit_and, bit_or}
use mathlib.Core.Path.{◌≡◌, ap, ap₂, sym, ◌∙◌}
use native.Mathlib.Nat.{pow-suc, one-le-pow}
use native.Mathlib.Omega.{arith}
use twos.Base.Bits.{
  bit_or-div_two, bit_or-mod_two, bit_and-div_two, bit_and-mod_two, test_bit_ext, test_bit-bit_or,
  test_bit-bit_and, zero-test_bit, test_bit, test_bit-complement, test_bit-lt_two,
}

bit_or-zero : (a : ℕ) → bit_or a 0 ≡ a
bit_or-zero a = test_bit_ext _ _ (λ i. omega (arith, test_bit-bit_or i a 0, zero-test_bit i))

bit_and-zero : (a : ℕ) → bit_and a 0 ≡ 0
bit_and-zero a = test_bit_ext _ _ (λ i. omega (arith, test_bit-bit_and i a 0, zero-test_bit i))

double_shift : (q k : ℕ) → q * 2 ^ suc k ≡ 2 * (q * 2 ^ k)
double_shift q k = omega (arith, ap (λ (t : ℕ). q * t) (pow-suc 2 k))

-- `(q << k) | r`, with `r` below the shift.
pub bit_or_disjoint : (k q r : ℕ) → r < 2 ^ k → bit_or (q * 2 ^ k) r ≡ q * 2 ^ k + r
bit_or_disjoint zero q r h = ground (arith, bit_or-zero q)
bit_or_disjoint (suc k) q r h =
    let halves : q * 2 ^ suc k / 2 ≡ q * 2 ^ k = omega (arith, double_shift q k) in
    let rest : bit_or (q * 2 ^ suc k) r / 2 ≡ q * 2 ^ k + r / 2 =
      bit_or-div_two (q * 2 ^ suc k) r
      ∙ ap (λ x. bit_or x (r / 2)) halves
      ∙ bit_or_disjoint k q (r / 2) (omega (arith, pow-suc 2 k)) in
    omega (arith, double_shift q k, bit_or-mod_two (q * 2 ^ suc k) r)

-- A mask that stands `k` bits up.
pub bit_and_high :
    (k q r m : ℕ) → r < 2 ^ k → bit_and (q * 2 ^ k + r) (m * 2 ^ k) ≡ bit_and q m * 2 ^ k
bit_and_high zero q r m h =
    let e : q * 2 ^ 0 + r ≡ q = omega arith in
    let e' : m * 2 ^ 0 ≡ m = omega arith in rw (e, e') (omega arith)
bit_and_high (suc k) q r m h =
    let x : ℕ = q * 2 ^ suc k + r in
    let y : ℕ = m * 2 ^ suc k in
    let e : x / 2 ≡ q * 2 ^ k + r / 2 = omega (arith, double_shift q k) in
    let e' : y / 2 ≡ m * 2 ^ k = omega (arith, double_shift m k) in
    let rest : bit_and x y / 2 ≡ bit_and q m * 2 ^ k =
      bit_and-div_two x y
      ∙ ap₂ bit_and e e'
      ∙ bit_and_high k q (r / 2) m (omega (arith, pow-suc 2 k)) in
    omega
      (arith, double_shift q k, double_shift m k, double_shift (bit_and q m) k, bit_and-mod_two x y)

bit_and_low : (k q r : ℕ) → r < 2 ^ k → bit_and (q * 2 ^ k + r) (2 ^ k - 1) ≡ r
bit_and_low zero q r h = rw bit_and-zero (omega arith)
bit_and_low (suc k) q r h =
    let x : ℕ = q * 2 ^ suc k + r in
    let y : ℕ = 2 ^ suc k - 1 in
    let e : x / 2 ≡ q * 2 ^ k + r / 2 = omega (arith, double_shift q k) in
    let e' : y / 2 ≡ 2 ^ k - 1 = omega (arith, pow-suc 2 k) in
    let rest : bit_and x y / 2 ≡ r / 2 =
      bit_and-div_two x y
      ∙ ap₂ bit_and e e'
      ∙ bit_and_low k q (r / 2) (omega (arith, pow-suc 2 k)) in
    omega (arith, double_shift q k, pow-suc 2 k, one-le-pow k 2, bit_and-mod_two x y)

-- A mask of the `k` low bits is a remainder.
pub bit_and-low_mask : (k a : ℕ) → bit_and a (2 ^ k - 1) ≡ a % 2 ^ k
bit_and-low_mask k a = ground (arith, one-le-pow k 2, bit_and_low k (a / 2 ^ k) (a % 2 ^ k))

-- The low bits of a word cut to its width.
pub test_bit-low : (w x i : ℕ) → i < w → test_bit (x % 2 ^ w) i ≡ test_bit x i
test_bit-low w x i h =
    let same : 2 ^ w - 1 ≡ 2 ^ w - 1 - 0 = omega arith in
    let low : test_bit (2 ^ w - 1) i ≡ 1 =
      ap (λ m. test_bit m i) same
      ∙ test_bit-complement w 0 i (one-le-pow w 2 (omega arith)) h
      ∙ ap (λ b. 1 - b) (zero-test_bit i) in
    ap (λ y. test_bit y i) (sym (bit_and-low_mask w x))
    ∙ test_bit-bit_and i x (2 ^ w - 1)
    ∙ ap (λ b. min (test_bit x i) b) low
    ∙ omega (arith, test_bit-lt_two x i)
