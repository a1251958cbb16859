-- ===== src/Kstd/Print.antt =====
-- src/kstdlib/print.c: formatted output. A text is the list of its bytes without the zero that ends
-- it. The function that takes the output is a parameter, as it is in the source: its state is S, it
-- returns a count, and `none` stands there, and here, for what C leaves undefined: a read or write
-- out of range, a shift by too many places, an argument of another type.
pub mod Sprint
pub mod Pieces
pub mod NoZero
pub mod Format
pub mod Convert
pub mod Loop
pub mod Vprintf
pub mod Held
pub mod Append
pub mod Snprintf
use twos.Base.{
  ℕ, zero, suc, ◌+◌, ◌-◌, ◌*◌, ◌/◌, ◌%◌, ◌^◌, ◌==◌, ◌&&◌, ◌||◌, not, ltb, leb, if◌then◌else◌, Bool,
  true, false, Option, none, some, ◌>>=◌, List, [], ◌∷◌, ◌++◌, length, get_elem?, u8, u32, u64,
  test_bit,
}
use twos.Kstd.Number.{itoa, ltoa}

abbrev pub printf_buf : ℕ
printf_buf = 2048

-- What a caller hands over for `...`.
pub data Arg : Type 0 where
  int : ℕ → Arg
  long : ℕ → Arg
  text : List ℕ → Arg

unfoldable pub va_int : List Arg → Option (ℕ × List Arg)
va_int [] = none
va_int (int n ∷ args) = some (u32 n, args)
va_int (long n ∷ args) = none
va_int (text t ∷ args) = none

unfoldable pub va_long : List Arg → Option (ℕ × List Arg)
va_long [] = none
va_long (int n ∷ args) = none
va_long (long n ∷ args) = some (u64 n, args)
va_long (text t ∷ args) = none

unfoldable pub va_text : List Arg → Option (List ℕ × List Arg)
va_text [] = none
va_text (int n ∷ args) = none
va_text (long n ∷ args) = none
va_text (text t ∷ args) = some (t, args)

-- `fmt[i]`: the zero stands behind the text.
unfoldable pub byte_at : List ℕ → ℕ → Option ℕ
byte_at fmt i = if i == length fmt then some 0 else get_elem? fmt i

-- What `itoa` leaves in a buffer of zeros.
abbrev pub left_in_buffer : Option (List ℕ) → List ℕ
left_in_buffer none = []
left_in_buffer (some t) = t

abbrev pub itoa_text : ℕ → ℕ → List ℕ
itoa_text num base = left_in_buffer (itoa num base)

-- The loop of `get_highest_bit` from a position down; it stops at a bit that is set.
unfoldable pub highest_from : ℕ → ℕ → ℕ
highest_from zero num = 0
highest_from (suc position) num =
    let rest = highest_from position num in
    if test_bit num (suc position) == 0 then rest else suc position

unfoldable pub get_highest_bit : ℕ → ℕ
get_highest_bit num = if num == 0 then 0 else highest_from 31 num

-- A `char` is signed: `ch < 58`.
abbrev pub below_58 : ℕ → Bool
below_58 ch = ltb ch 58 || leb 128 ch

-- The loop to the letter of a conversion, from `j` on: the letter, its place, and `fp_precision`.
unfoldable pub find_letter : ℕ → List ℕ → ℕ → ℕ → Option (ℕ × ℕ × ℕ)
find_letter zero fmt j fp = none
find_letter (suc fuel) fmt j fp =
    let rest = find_letter fuel fmt (j + 1) (fp + 1) in
    byte_at fmt j >>= λ ch. if below_58 ch then rest else some (ch, j, fp)

-- The sum of the counts, the arguments that are left, and the state of the output.
pub record Out (S : Type 0) : Type 0 where
  pub total : ℕ
  pub args : List Arg
  pub state : S

module _ {S : Type 0} (print : List ℕ → S → Option (ℕ × S)) where
  unfoldable pub emit : List ℕ → Out S → Option (Out S)
  emit t o = print t o.state >>= λ (n, s). some (record o { total = u64 (o.total + n); state = s })

  -- The calls whose count is dropped.
  unfoldable pub emit_uncounted : List ℕ → Out S → Option (Out S)
  emit_uncounted t o = print t o.state >>= λ (n, s). some (record o { state = s })

  unfoldable pub emit_space : Bool → Out S → Option (Out S)
  emit_space spaced o = if spaced then emit_uncounted (b' ' ∷ []) o else some o

  -- The digits of `num`, which has `width` bits, from the bit `i` down, `left` of them, with a space
  -- behind every fourth.
  unfoldable pub emit_bits : ℕ → (ℕ → Bool) → ℕ → ℕ → Out S → Option (Out S)
  emit_bits width spaced num zero o = some o
  emit_bits width spaced num (suc i) o =
      let digit = if test_bit num i == 0 then b'0' ∷ [] else b'1' ∷ [] in
      let rest = emit_uncounted digit o >>= λ o₁.
      emit_space (spaced i) o₁ >>= λ o₂. emit_bits width spaced num i o₂ in
      if ltb i width then rest else none

  -- `%b`, `%B` and `%C`.
  unfoldable pub convert_bits : ℕ → Out S → Option (Out S)
  convert_bits ch1 o = emit_uncounted (b'0' ∷ b'b' ∷ []) o >>= λ o₁.
      va_int o₁.args >>= λ (num, args').
      let o₂ : Out S = record o₁ { args = args' } in
      let highest = if ch1 == b'C' then get_highest_bit num * 8 else 31 in
      let highest_bit = if ch1 == b'B' then 7 else highest in
      let spaced : ℕ → Bool = λ i. (i % 4 == 0) && (not (i == highest_bit) && not (ch1 == b'B')) in
      if num == 0
      then emit_uncounted (b'0' ∷ []) o₂
      else emit_bits 32 spaced num (highest_bit + 1) o₂

  -- `%lb` and `%lB`.
  unfoldable pub convert_long_bits : Out S → Option (Out S)
  convert_long_bits o = emit_uncounted (b'0' ∷ b'b' ∷ []) o >>= λ o₁.
      va_long o₁.args >>= λ (num, args').
      let o₂ : Out S = record o₁ { args = args' } in
      if num == 0
      then emit_uncounted (b'0' ∷ b'0' ∷ b'0' ∷ b'0' ∷ []) o₂
      else emit_bits 64 (λ i. i % 4 == 0) num 64 o₂

  -- An `int` in a base.
  unfoldable pub convert_int : ℕ → Out S → Option (Out S)
  convert_int base o =
      va_int o.args >>= λ (num, args'). emit (itoa_text num base) (record o { args = args' })

  unfoldable pub convert_long : ℕ → Out S → Option (Out S)
  convert_long base o =
      va_long o.args >>= λ (num, args'). emit (ltoa num base) (record o { args = args' })

  unfoldable pub convert_char : Out S → Option (Out S)
  convert_char o = va_int o.args >>= λ (num, args').
      emit (if u8 num == 0 then [] else u8 num ∷ []) (record o { args = args' })

  unfoldable pub convert_text : Out S → Option (Out S)
  convert_text o = va_text o.args >>= λ (t, args'). emit t (record o { args = args' })

  -- The inner `switch`, for what follows an `l`, and `last_fmt_len`.
  unfoldable pub convert_l : ℕ → ℕ → Out S → Option (ℕ × Out S)
  convert_l ch2 fp o =
      if (ch2 == b'b') || (ch2 == b'B')
      then (convert_long_bits o >>= λ o'. some (2, o'))
      else if (ch2 == b'x') || (ch2 == b'X')
      then (convert_long 16 o >>= λ o'. some (2, o'))
      else if ch2 == b'f'
      then (emit
            (b'n' ∷ b'o' ∷ b' ' ∷ b'd' ∷ b'o' ∷ b'u' ∷ b'b' ∷ b'l' ∷ b'e' ∷ b' ' ∷ b'i' ∷ b'm'
              ∷ b'p' ∷ b'l' ∷ [])
            o
          >>= λ o'. some (2 + fp, o'))
      else let before = if (ch2 == b'u') || ((ch2 == b'd') || (ch2 == b'i')) then 1 else 0 in
        convert_long 10 o >>= λ o'. some (before + 1, o')

  -- The `switch` on the letter `ch1` at `j`.
  unfoldable pub convert : List ℕ → ℕ → ℕ → ℕ → Out S → Option (ℕ × Out S)
  convert fmt ch1 j fp o =
      if (ch1 == b'i') || ((ch1 == b'd') || (ch1 == b'u'))
      then (convert_int 10 o >>= λ o'. some (1, o'))
      else if ch1 == b'x'
      then (emit (b'0' ∷ b'x' ∷ []) o >>= λ o₁. convert_int 16 o₁ >>= λ o'. some (1, o'))
      else if (ch1 == b'B') || ((ch1 == b'b') || (ch1 == b'C'))
      then (convert_bits ch1 o >>= λ o'. some (1, o'))
      else if ch1 == b'c'
      then (convert_char o >>= λ o'. some (1, o'))
      else if ch1 == b'f'
      then (emit
            (b'n' ∷ b'o' ∷ b' ' ∷ b'f' ∷ b'l' ∷ b'o' ∷ b'a' ∷ b't' ∷ b' ' ∷ b'i' ∷ b'm' ∷ b'p'
              ∷ b'l' ∷ [])
            o
          >>= λ o'. some (1 + fp, o'))
      else if (ch1 == b'l') || (ch1 == b'L')
      then (byte_at fmt (j + 1) >>= λ ch2. convert_l ch2 fp o)
      else if ch1 == b's'
      then (convert_text o >>= λ o'. some (1, o'))
      else emit [] o >>= λ o'. some (1, o')

  -- One round of the loop at `c`, with the `k` bytes in `buf` so far, up to and with its `c++`.
  unfoldable pub round : List ℕ → ℕ → List ℕ → Out S → Option (ℕ × List ℕ × Out S)
  round fmt c buf o = byte_at fmt c >>= λ ch.
      let plain =
        if ltb (length buf + 1) printf_buf then some (c + 1, buf ++ ch ∷ [], o) else none in
      let conversion = emit buf o >>= λ o₁. find_letter (length fmt + 1) fmt c 0 >>= λ (ch1, j, fp).
      convert fmt ch1 j fp o₁ >>= λ (last_fmt_len, o₂). some (c + last_fmt_len + 1, [], o₂) in
      if ch == b'%' then (if leb (length fmt) printf_buf then conversion else none) else plain

  -- The loop: behind a round comes the last output where the format is over, or the next round.
  unfoldable pub vprintf_loop : ℕ → List ℕ → ℕ → List ℕ → Out S → Option (Out S)
  vprintf_loop zero fmt c buf o = none
  vprintf_loop (suc fuel) fmt c buf o = round fmt c buf o >>= λ (c', buf', o').
      byte_at fmt c' >>= λ ch.
      let next = vprintf_loop fuel fmt c' buf' o' in if ch == 0 then emit buf' o' else next

  -- The format is read from its start, and every round goes on by a byte.
  unfoldable pub vprintf : List ℕ → List Arg → S → Option (ℕ × S)
  vprintf fmt args s =
      let o : Out S = record { total = 0; args = args; state = s } in
      let all = vprintf_loop (length fmt) fmt 0 [] o in
      (if length fmt == 0 then some o else all) >>= λ o'. some (o'.total, o'.state)
