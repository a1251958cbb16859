-- ===== src/Kstd/Print/NoZero.antt =====
-- The texts of numbers hold no zero.
use twos.Base.{
  ℕ, zero, suc, ◌/◌, ◌%◌, ◌≡◌, ◌≢◌, sym, refl, subst, ◌==◌, ◌||◌, ltb, Bool-cases, inl, inr, List,
  [], ◌∷◌, ◌++◌, take, some, none, arith,
}
use twos.Kstd.Number.{
  digit_upper, digit_lower, itoa_loop, itoa, ltoa_loop, ltoa, magnitude, is_negative,
}
use twos.Kstd.Print.{itoa_text, left_in_buffer}
use twos.Kstd.Print.Pieces.{NoZero, char_text, hex_prefix}

pub nil-NoZero : NoZero []
unfolding NoZero
nil-NoZero = omega arith

pub singleton-NoZero : (c : ℕ) → c ≢ 0 → NoZero (c ∷ [])
unfolding NoZero
singleton-NoZero c h = (h, omega arith)

pub hex_prefix-NoZero : NoZero hex_prefix
unfolding NoZero
hex_prefix-NoZero = (omega arith, (omega arith, omega arith))

pub append-NoZero : (xs ys : List ℕ) → NoZero xs → NoZero ys → NoZero (xs ++ ys)
unfolding NoZero
append-NoZero [] ys h h' = h'
append-NoZero (x ∷ xs) ys (ne, h) h' = (ne, append-NoZero xs ys h h')

take-NoZero : (n : ℕ) (xs : List ℕ) → NoZero xs → NoZero (take n xs)
unfolding NoZero
take-NoZero zero xs h = omega arith
take-NoZero (suc n) [] h = omega arith
take-NoZero (suc n) (x ∷ xs) (ne, h) = (ne, take-NoZero n xs h)

digit_upper-nonzero : (d : ℕ) → digit_upper d ≢ 0
unfolding digit_upper
digit_upper-nonzero d = ground arith

digit_lower-nonzero : (d : ℕ) → digit_lower d ≢ 0
unfolding digit_lower
digit_lower-nonzero d = ground arith

itoa_loop-NoZero : (fuel base m : ℕ) (p : List ℕ) → NoZero p → NoZero (itoa_loop fuel base m p)
unfolding NoZero itoa_loop
itoa_loop-NoZero zero base m p h = h
itoa_loop-NoZero (suc fuel) base m p h =
    let p' = digit_upper (m % base) ∷ p in
    let h' : NoZero p' = (digit_upper-nonzero (m % base), h) in
    elim (Bool-cases (m / base == 0)) [
      | inl e ↦ rw e h'
      | inr e ↦ rw e (itoa_loop-NoZero fuel base (m / base) p' h')
    ]

ltoa_loop-NoZero : (i base a : ℕ) (p : List ℕ) → NoZero p → NoZero (ltoa_loop i base a p)
unfolding NoZero ltoa_loop
ltoa_loop-NoZero zero base a p h = h
ltoa_loop-NoZero (suc i) base a p h =
    let rest =
      ltoa_loop-NoZero i base (a / base) (digit_lower (a % base) ∷ p)
        (digit_lower-nonzero (a % base), h) in
    elim (Bool-cases (a == 0)) [ inl e ↦ rw e h | inr e ↦ rw e rest ]

pub itoa_text-NoZero : (a base : ℕ) → NoZero (itoa_text a base)
unfolding itoa NoZero
itoa_text-NoZero a base =
    let digits = itoa_loop-NoZero 32 base (magnitude a) [] (omega arith) in
    let p = itoa_loop 32 base (magnitude a) [] in
    elim (Bool-cases (ltb base 2 || ltb 36 base)) [
      | inl e ↦
          let bad : itoa a base ≡ none = rw e refl in
          subst (λ r. NoZero (left_in_buffer r)) (sym bad) (omega arith)
      | inr e ↦ elim (Bool-cases (is_negative a)) [
        | inl n ↦
            let signed : itoa a base ≡ some (b'-' ∷ p) = rw e (rw n refl) in
            subst (λ r. NoZero (left_in_buffer r)) (sym signed) (omega arith, digits)
        | inr n ↦
            let unsigned : itoa a base ≡ some p = rw e (rw n refl) in
            subst (λ r. NoZero (left_in_buffer r)) (sym unsigned) digits
      ]
    ]

pub ltoa-NoZero : (a base : ℕ) → NoZero (ltoa a base)
unfolding ltoa NoZero
ltoa-NoZero a base =
    let digits =
      take-NoZero 32 (ltoa_loop 60 base a []) (ltoa_loop-NoZero 60 base a [] (omega arith)) in
    elim (Bool-cases (a == 0)) [ inl e ↦ rw e (omega arith, omega arith) | inr e ↦ rw e digits ]

pub char_text-NoZero : (c : ℕ) → NoZero (char_text c)
unfolding NoZero
char_text-NoZero c = elim (Bool-cases (c == 0)) [
  | inl e ↦ rw e (omega arith)
  | inr e ↦ rw e (ground (arith, e), omega arith)
]
