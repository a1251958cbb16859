-- ===== src/Base/Bits.antt =====
-- The bits of a word, one at a time: what `|` and `&` do at each position, and the arithmetic
-- form of a low mask and of disjoint fields.
use Prim.Native.Nat.{
  ℕ, zero, suc, ◌+◌, ◌-◌, ◌*◌, ◌/◌, ◌%◌, ◌^◌, ◌≤◌, ◌<◌, min, max, bit_and, bit_or, digits,
  bit_and-bitwise, bit_or-bitwise,
}
use mathlib.Core.Path.{◌≡◌, refl, ap, sym, ◌∙◌}
use mathlib.Core.Logic.{◌≢◌, ◌↔◌}
use native.Mathlib.Nat.{pow-suc, le_refl, div-div-eq-div-mul}
use native.Mathlib.Decide.{ℕ_discrete}
use native.Mathlib.Omega.{arith}

-- Bit `i` of `x`, 0 or 1.
unfoldable pub test_bit : ℕ → ℕ → ℕ
test_bit x zero = x % 2
test_bit x (suc i) = test_bit (x / 2) i

pub test_bit-lt_two : (x i : ℕ) → test_bit x i < 2
unfolding test_bit
test_bit-lt_two x zero = omega arith
test_bit-lt_two x (suc i) = test_bit-lt_two (x / 2) i

pub zero-test_bit : (i : ℕ) → test_bit 0 i ≡ 0
unfolding test_bit
zero-test_bit zero = refl
zero-test_bit (suc i) = zero-test_bit i

-- Two numbers with the same bits are equal.
test_bit_ext_fuel : (n a b : ℕ) → a ≤ n → b ≤ n → ((i : ℕ) → test_bit a i ≡ test_bit b i) → a ≡ b
unfolding test_bit
test_bit_ext_fuel zero a b p q h = omega arith
test_bit_ext_fuel (suc n) a b p q h =
    let tops : a / 2 ≡ b / 2 =
      test_bit_ext_fuel n (a / 2) (b / 2) (omega arith) (omega arith) (λ i. h (suc i)) in
    omega (arith, h 0)

pub test_bit_ext : (a b : ℕ) → ((i : ℕ) → test_bit a i ≡ test_bit b i) → a ≡ b
test_bit_ext a b h = test_bit_ext_fuel (a + b) a b (omega arith) (omega arith) h

-- The native operations stand for a recursion on digits: position `i` of it, with fuel enough.
or_digits :
    (i n a b : ℕ)
    → a ≤ n
    → test_bit (digits (λ y. y) max n a b) i ≡ max (test_bit a i) (test_bit b i)
unfolding test_bit
or_digits i zero zero b h = omega (arith, zero-test_bit i)
or_digits i zero (suc a) b h = absurd (omega arith)
or_digits i (suc n) zero b h = omega (arith, zero-test_bit i)
or_digits zero (suc n) (suc a) b h = omega arith
or_digits (suc i) (suc n) (suc a) b h =
    ap (λ x. test_bit x i) (omega arith) ∙ or_digits i n (suc a / 2) (b / 2) (omega arith)

and_digits :
    (i n a b : ℕ)
    → a ≤ n
    → test_bit (digits (λ y. 0) min n a b) i ≡ min (test_bit a i) (test_bit b i)
unfolding test_bit
and_digits i zero zero b h = omega (arith, zero-test_bit i)
and_digits i zero (suc a) b h = absurd (omega arith)
and_digits i (suc n) zero b h = omega (arith, zero-test_bit i)
and_digits zero (suc n) (suc a) b h = omega arith
and_digits (suc i) (suc n) (suc a) b h =
    ap (λ x. test_bit x i) (omega arith) ∙ and_digits i n (suc a / 2) (b / 2) (omega arith)

pub test_bit-bit_or : (i a b : ℕ) → test_bit (bit_or a b) i ≡ max (test_bit a i) (test_bit b i)
test_bit-bit_or i a b = rw bit_or-bitwise (or_digits i a a b (le_refl a))

pub test_bit-bit_and : (i a b : ℕ) → test_bit (bit_and a b) i ≡ min (test_bit a i) (test_bit b i)
test_bit-bit_and i a b = rw bit_and-bitwise (and_digits i a a b (le_refl a))

-- So each operation acts on the lowest digit and on the rest apart.
pub bit_or-div_two : (a b : ℕ) → bit_or a b / 2 ≡ bit_or (a / 2) (b / 2)
bit_or-div_two a b = test_bit_ext _ _ λ i.
    unfold test_bit in omega (arith, test_bit-bit_or (suc i) a b, test_bit-bit_or i (a / 2) (b / 2))

pub bit_or-mod_two : (a b : ℕ) → bit_or a b % 2 ≡ max (a % 2) (b % 2)
unfolding test_bit
bit_or-mod_two a b = test_bit-bit_or 0 a b

pub bit_and-div_two : (a b : ℕ) → bit_and a b / 2 ≡ bit_and (a / 2) (b / 2)
bit_and-div_two a b = test_bit_ext _ _ λ i.
    unfold test_bit in
    omega (arith, test_bit-bit_and (suc i) a b, test_bit-bit_and i (a / 2) (b / 2))

pub bit_and-mod_two : (a b : ℕ) → bit_and a b % 2 ≡ min (a % 2) (b % 2)
unfolding test_bit
bit_and-mod_two a b = test_bit-bit_and 0 a b

-- A bit is the remainder of a shift, as the C code reads it.
pub shift-eq-test_bit : (i x : ℕ) → x / 2 ^ i % 2 ≡ test_bit x i
unfolding test_bit
shift-eq-test_bit zero x = omega arith
shift-eq-test_bit (suc i) x =
    ap (λ d. d % 2) (ap (λ d. x / d) powers ∙ sym (div-div-eq-div-mul x 2 (2 ^ i)))
    ∙ shift-eq-test_bit i (x / 2)
  where
    powers : 2 ^ suc i ≡ 2 * 2 ^ i
    powers = omega (arith, pow-suc 2 i)

-- The mask `1 << k` has one bit.
pub test_bit-two_pow_self : (k : ℕ) → test_bit (2 ^ k) k ≡ 1
unfolding test_bit
test_bit-two_pow_self zero = refl
test_bit-two_pow_self (suc k) =
    ap (λ x. test_bit x k) (omega (arith, pow-suc 2 k)) ∙ test_bit-two_pow_self k

pub test_bit-two_pow_ne : (k i : ℕ) → k ≢ i → test_bit (2 ^ k) i ≡ 0
unfolding test_bit
test_bit-two_pow_ne zero zero h = absurd (h refl)
test_bit-two_pow_ne zero (suc i) h = zero-test_bit i
test_bit-two_pow_ne (suc k) zero h = omega (arith, pow-suc 2 k)
test_bit-two_pow_ne (suc k) (suc i) h =
    ap (λ x. test_bit x i) (omega (arith, pow-suc 2 k))
    ∙ test_bit-two_pow_ne k i (λ e. h (ap suc e))

-- `~m` in `w` bits.
pub test_bit-complement :
    (w m i : ℕ) → m < 2 ^ w → i < w → test_bit (2 ^ w - 1 - m) i ≡ 1 - test_bit m i
unfolding test_bit
test_bit-complement zero m i p q = absurd (omega arith)
test_bit-complement (suc w) m zero p q = omega (arith, pow-suc 2 w)
test_bit-complement (suc w) m (suc i) p q =
    ap (λ x. test_bit x i) (omega (arith, pow-suc 2 w))
    ∙ test_bit-complement w (m / 2) i (omega (arith, pow-suc 2 w)) (omega arith)

-- A word of `w` bits has no bit beyond.
pub test_bit-beyond : (w x i : ℕ) → x < 2 ^ w → w ≤ i → test_bit x i ≡ 0
unfolding test_bit
test_bit-beyond zero x i p q = ap (λ n. test_bit n i) (omega arith) ∙ zero-test_bit i
test_bit-beyond (suc w) x zero p q = absurd (omega arith)
test_bit-beyond (suc w) x (suc i) p q =
    test_bit-beyond w (x / 2) i (omega (arith, pow-suc 2 w)) (omega arith)

-- The test `(x & (1 << k)) == 0` reads bit `k`.
pub bit_and-two_pow_iff : (k x : ℕ) → (bit_and x (2 ^ k) ≡ 0) ↔ (test_bit x k ≡ 0)
bit_and-two_pow_iff k x = (reads, clears)
  where
    reads : bit_and x (2 ^ k) ≡ 0 → test_bit x k ≡ 0
    reads e =
        let zero_there : test_bit (bit_and x (2 ^ k)) k ≡ 0 =
          ap (λ y. test_bit y k) e ∙ zero-test_bit k in
        omega (arith, test_bit-bit_and k x (2 ^ k), test_bit-two_pow_self k, test_bit-lt_two x k)

    clears : test_bit x k ≡ 0 → bit_and x (2 ^ k) ≡ 0
    clears h = test_bit_ext _ _ λ i. elim (ℕ_discrete k i) [
      | yes e ↦
          omega (arith, test_bit-bit_and i x (2 ^ k), zero-test_bit i, ap (λ j. test_bit x j) e)
      | no ne ↦
          omega (arith, test_bit-bit_and i x (2 ^ k), test_bit-two_pow_ne k i ne, zero-test_bit i)
    ]
