-- ===== src/Kstd/Number/Atou.antt =====
-- What `atou` makes of a text of decimal digits.
use twos.Base.{
  ℕ, zero, suc, ◌+◌, ◌-◌, ◌*◌, ◌/◌, ◌%◌, ◌^◌, ◌≤◌, ◌<◌, ◌≡◌, ◌∙◌, inl, inr, refl, true, false, ◌==◌,
  ◌&&◌, leb, Bool-cases, some, List, [], ◌∷◌, u32, arith,
}
use native.Mathlib.Nat.{mod-lt}
use twos.Kstd.Number.{digit_upper, itoa_loop, itoa, atou_loop, atou, magnitude, is_negative}
use twos.Kstd.Number.Laws.{digit_value, read_from, read}
use twos.Kstd.Number.Itoa.{read-itoa_loop}

-- Every character is one of `0` to `9`.
unfoldable pub IsDecimal : List ℕ → Type 0
IsDecimal [] = Unit {0}
IsDecimal (c ∷ text) = (b'0' ≤ c) × (c ≤ b'9') × IsDecimal text

decimal_value : (c : ℕ) → b'0' ≤ c → c ≤ b'9' → digit_value c ≡ c - b'0'
unfolding digit_value
decimal_value c h h' = ground (arith, h, h')

is_digit : (c : ℕ) → b'0' ≤ c → c ≤ b'9' → (leb b'0' c && leb c b'9') ≡ true
is_digit c h h' = ground (arith, h, h')

read_from-mod :
    (text : List ℕ) (a b : ℕ)
    → a % 2 ^ 32 ≡ b % 2 ^ 32
    → read_from 10 a text % 2 ^ 32 ≡ read_from 10 b text % 2 ^ 32
unfolding read_from
read_from-mod [] a b h = h
read_from-mod (c ∷ text) a b h =
    read_from-mod text (a * 10 + digit_value c) (b * 10 + digit_value c) (omega (arith, h))

atou_loop-read :
    (text : List ℕ) (result : ℕ)
    → IsDecimal text
    → result < 2 ^ 32
    → atou_loop text result ≡ read_from 10 result text % 2 ^ 32
unfolding atou_loop read_from IsDecimal
atou_loop-read [] result h hr = omega (arith, hr)
atou_loop-read (c ∷ text) result (p, q, h) hr =
    let next = u32 (u32 (result * 10) + (c - b'0')) in
    rw (is_digit c p q) (
      atou_loop-read text next h (omega arith)
      ∙ read_from-mod text next (result * 10 + digit_value c) (omega (arith, decimal_value c p q)))

-- On a text of decimal digits `atou` gives the number that it spells, modulo 2^32; so a number
-- from 2^32 on is not reported as an error.
pub atou_lem : (text : List ℕ) → IsDecimal text → atou text ≡ read 10 text % 2 ^ 32
unfolding atou
atou_lem text h = atou_loop-read text 0 h (omega arith)

itoa_loop-IsDecimal : (fuel m : ℕ) (p : List ℕ) → IsDecimal p → IsDecimal (itoa_loop fuel 10 m p)
unfolding itoa_loop IsDecimal digit_upper
itoa_loop-IsDecimal zero m p h = h
itoa_loop-IsDecimal (suc fuel) m p h =
    let low : m % 10 < 10 = mod-lt m (omega arith) in
    let h' : IsDecimal (digit_upper (m % 10) ∷ p) = (ground (arith, low), ground (arith, low), h) in
    elim (Bool-cases (m / 10 == 0)) [
      | inl e ↦ rw e h'
      | inr e ↦ rw e (itoa_loop-IsDecimal fuel (m / 10) (digit_upper (m % 10) ∷ p) h')
    ]

-- `atou` reads back what `itoa` writes in base 10 for a number that is not negative.
pub atou-itoa : (a : ℕ) → a < 2 ^ 31 → (p : List ℕ) × (itoa a 10 ≡ some p) × (atou p ≡ a)
unfolding itoa IsDecimal read_from
atou-itoa a h =
    let small : magnitude a ≡ a = ground (arith, h) in
    let p = itoa_loop 32 10 (magnitude a) [] in
    let digits : IsDecimal p = itoa_loop-IsDecimal 32 (magnitude a) [] tt in
    let spelt : read 10 p ≡ magnitude a =
      read-itoa_loop 31 10 (magnitude a) [] (omega arith) (omega arith) (omega (arith, small, h))
      ∙ omega arith in
    let positive : is_negative a ≡ false = ground (arith, h) in
    (p, rw positive refl, atou_lem p digits ∙ omega (arith, spelt, small, h))
