-- ===== src/Kstd/Number/Itoa.antt =====
-- What the texts of `itoa` and `ltoa` spell, and that `atou` reads them back.
use twos.Base.{
  ℕ, zero, suc, ◌+◌, ◌*◌, ◌/◌, ◌%◌, ◌^◌, ◌≤◌, ◌<◌, ◌≡◌, ap, ◌∙◌, inl, inr, ap₂, ◌==◌, Bool-cases,
  ==_iff, if◌then◌else◌, some, List, [], ◌∷◌, length, arith,
}
use native.Mathlib.Nat.{
  pow-le-pow_left, pow-suc, pow-zero, div-add-mod', mod-lt, div-eq_of_lt, div-lt_iff_lt-mul,
}
use twos.Kstd.Number.{digit_upper, itoa_loop, itoa, magnitude, is_negative}
use twos.Kstd.Number.Laws.{read_from, read, digit_value-upper, read-cons}

-- One digit moved from the number to the text.
move_digit : (base m w v : ℕ) → (m / base) * (base * w) + ((m % base) * w + v) ≡ m * w + v
move_digit base m w v = omega (arith, ap (λ t. t * w) (div-add-mod' m base))

-- The last digit is the number itself.
quotient_zero : (base m : ℕ) → m / base ≡ 0 → m % base ≡ m
quotient_zero base m e = omega (arith, ap (λ t. t * base) e, div-add-mod' m base)

quotient_smaller : (base m fuel : ℕ) → 0 < base → m < base ^ suc fuel → m / base < base ^ fuel
quotient_smaller base m fuel hb h =
    (div-lt_iff_lt-mul {x = m} {y = base ^ fuel} hb).1 (omega (arith, h, pow-suc base fuel))

pub read-itoa_loop :
    (fuel base m : ℕ) (p : List ℕ)
    → 1 < base
    → base ≤ 36
    → m < base ^ suc fuel
    → read base (itoa_loop (suc fuel) base m p) ≡ m * base ^ length p + read base p
unfolding itoa_loop
read-itoa_loop zero base m p hb hb36 h =
    let small : m < base = omega (arith, h, pow-suc base 0, ap (λ t. t * base) (pow-zero base)) in
    let q : m / base ≡ 0 = div-eq_of_lt small in
    rw q (
      read-cons base (digit_upper (m % base)) p
      ∙ ap (λ d. d * base ^ length p + read base p)
          (digit_value-upper (m % base) (omega (arith, small, hb36, quotient_zero base m q))
            ∙ quotient_zero base m q))
read-itoa_loop (suc fuel) base m p hb hb36 h =
    let r : m % base < base = mod-lt m (omega arith) in
    let p' = digit_upper (m % base) ∷ p in
    let now : read base p' ≡ (m % base) * base ^ length p + read base p =
      read-cons base (digit_upper (m % base)) p
      ∙ ap (λ d. d * base ^ length p + read base p) (digit_value-upper (m % base) (omega arith)) in
    elim (Bool-cases (m / base == 0)) [
      | inl e ↦
          (let q : m / base ≡ 0 = (==_iff (m / base) 0).0 e in
            rw e (now ∙ ap (λ d. d * base ^ length p + read base p) (quotient_zero base m q)))
      | inr e ↦
          (let rest : read base (itoa_loop (suc fuel) base (m / base) p')
                ≡ (m / base) * base ^ length p' + read base p' =
              read-itoa_loop fuel base (m / base) p' hb hb36
                (quotient_smaller base m (suc fuel) (omega arith) h) in
            rw e (
              rest
              ∙ ap₂ (λ a b. (m / base) * a + b) (pow-suc base (length p)) now
              ∙ omega (arith, move_digit base m (base ^ length p) (read base p))))
    ]

-- In a base from 2 to 36 `itoa` gives a text, a minus sign in front exactly for a negative number,
-- whose digits spell the magnitude in that base.
pub itoa_lem :
    (a base : ℕ)
    → 1 < base
    → base ≤ 36
    → a < 2 ^ 32
    → (p : List ℕ) × (itoa a base ≡ some (if is_negative a then b'-' ∷ p else p))
      × (read base p ≡ magnitude a)
unfolding itoa read_from
itoa_lem a base hb hb36 ha =
    let small : magnitude a < 2 ^ 32 = ground arith in
    let grows : 2 ^ 32 ≤ base ^ 32 = pow-le-pow_left {n = 2} {m = base} hb 32 in
    let bounded : magnitude a < base ^ 32 = omega (arith, small, grows) in
    (
      itoa_loop 32 base (magnitude a) [],
      (ground arith),
      (read-itoa_loop 31 base (magnitude a) [] hb hb36 bounded
          ∙ omega (arith, ap (λ t. magnitude a * t) (pow-zero base))),
    )
