-- ===== src/Kstd/Number.antt =====
-- `itoa`, `ltoa` and `atou` of src/kstdlib/string.c: numbers as text. A text is the list of its
-- bytes, without the zero that ends it. An `int` is its 32-bit pattern.
pub mod Laws
pub mod Itoa
pub mod Atou
use twos.Base.{
  ℕ, zero, suc, ◌+◌, ◌-◌, ◌*◌, ◌/◌, ◌%◌, ◌^◌, Bool, true, false, ◌==◌, ◌&&◌, ◌||◌, ltb, leb,
  if◌then◌else◌, Option, none, some, List, [], ◌∷◌, ◌++◌, take, u32, uint32_max,
}

-- The table "0123456789ABCDEFGHIJKLMNOPQRSTUVWXYZ".
unfoldable pub digit_upper : ℕ → ℕ
digit_upper d = if ltb d 10 then b'0' + d else b'A' + (d - 10)

-- The table "0123456789abcdef".
unfoldable pub digit_lower : ℕ → ℕ
digit_lower d = if ltb d 10 then b'0' + d else b'a' + (d - 10)

-- `do { *(--p) = digits[-(an % base)]; an /= base; } while (an);` over the magnitude of `an`,
-- which is never positive. The text so far is `p`; at most `fuel` digits.
unfoldable pub itoa_loop : ℕ → ℕ → ℕ → List ℕ → List ℕ
itoa_loop zero base m p = p
itoa_loop (suc fuel) base m p =
    let p' = digit_upper (m % base) ∷ p in
    let rest = itoa_loop fuel base (m / base) p' in if m / base == 0 then p' else rest

abbrev pub is_negative : ℕ → Bool
is_negative a = leb (2 ^ 31) a

abbrev pub magnitude : ℕ → ℕ
magnitude a = if is_negative a then 2 ^ 32 - a else a

-- What `itoa` writes to `dest`; `none` is its null result for a bad base.
unfoldable pub itoa : ℕ → ℕ → Option (List ℕ)
itoa a base =
    if ltb base 2 || ltb 36 base
    then none
    else let p = itoa_loop 32 base (magnitude a) [] in some (if is_negative a then b'-' ∷ p else p)

-- `for (; a && i; --i, a /= base) buf[i] = digits[a % base];` with `i` places left.
unfoldable pub ltoa_loop : ℕ → ℕ → ℕ → List ℕ → List ℕ
ltoa_loop zero base a text = text
ltoa_loop (suc i) base a text =
    let rest = ltoa_loop i base (a / base) (digit_lower (a % base) ∷ text) in
    if a == 0 then text else rest

-- The buffer has room for 60 digits, and `strncpy` copies at most 32 of them.
unfoldable pub ltoa : ℕ → ℕ → List ℕ
ltoa a base = if a == 0 then b'0' ∷ [] else take 32 (ltoa_loop 60 base a [])

-- The loop of `atou` over the rest of the text.
unfoldable pub atou_loop : List ℕ → ℕ → ℕ
atou_loop [] result = result
atou_loop (c ∷ str) result =
    if leb b'0' c && leb c b'9'
    then atou_loop str (u32 (u32 (result * 10) + (c - b'0')))
    else uint32_max

unfoldable pub atou : List ℕ → ℕ
atou str = atou_loop str 0
