-- ===== src/Kstd/Number/Laws.antt =====
-- The texts of `ltoa` and what `atou` reads.
use twos.Base.{
  ℕ, ◌+◌, ◌-◌, ◌*◌, ◌^◌, ◌<◌, ◌≡◌, ap, ltb, if◌then◌else◌, List, [], ◌∷◌, length, arith,
}
use native.Mathlib.Nat.{pow-suc, pow-zero}
use twos.Kstd.Number.{digit_upper, digit_lower}

-- The digit that a character stands for, in either table.
unfoldable pub digit_value : ℕ → ℕ
digit_value c = if ltb c b'A' then c - b'0' else if ltb c b'a' then c - b'A' + 10 else c - b'a' + 10

-- The number that a text spells in a base, behind the digits read so far.
unfoldable pub read_from : ℕ → ℕ → List ℕ → ℕ
read_from base acc [] = acc
read_from base acc (c ∷ text) = read_from base (acc * base + digit_value c) text

abbrev pub read : ℕ → List ℕ → ℕ
read base = read_from base 0

pub digit_value-upper : (d : ℕ) → d < 36 → digit_value (digit_upper d) ≡ d
unfolding digit_value digit_upper
digit_value-upper d h = ground arith

pub digit_value-lower : (d : ℕ) → d < 16 → digit_value (digit_lower d) ≡ d
unfolding digit_value digit_lower
digit_value-lower d h = ground arith

-- One more digit in front: the number grows by that digit times the power of the length.
read_from-acc :
    (base acc : ℕ) (text : List ℕ)
    → read_from base acc text ≡ acc * base ^ length text + read base text
unfolding read_from
read_from-acc base acc [] = omega (arith, ap (λ (t : ℕ). acc * t) (pow-zero base))
read_from-acc base acc (c ∷ text) = omega (
  arith,
  read_from-acc base (acc * base + digit_value c) text,
  read_from-acc base (0 * base + digit_value c) text,
  ap (λ (t : ℕ). acc * t) (pow-suc base (length text)),
)

pub read-cons :
    (base c : ℕ) (text : List ℕ)
    → read base (c ∷ text) ≡ digit_value c * base ^ length text + read base text
unfolding read_from
read-cons base c text = omega (arith, read_from-acc base (0 * base + digit_value c) text)
