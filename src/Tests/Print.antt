-- ===== src/Tests/Print.antt =====
-- Formatted output on concrete formats.
use twos.Base.{
  length, Memory, test_bit, ℕ, ◌+◌, ◌-◌, ◌≤◌, ◌<◌, ◌==◌, if◌then◌else◌, ◌≡◌, ◌⊎◌, min, refl, Option,
  none, some, List, [], ◌∷◌, ◌++◌, arith,
}
use twos.Kstd.Number.{itoa, itoa_loop, digit_upper}
use twos.Kstd.Print.Append.{sprint_lem}
use twos.Kstd.Copy.Laws.{IsText}
use twos.Kstd.Print.{
  va_int, byte_at, highest_from, get_highest_bit, find_letter, emit, emit_uncounted, emit_space,
  emit_bits, convert_bits, convert_int, convert_char, convert, round, vprintf_loop, vprintf, int,
}
use twos.Kstd.Print.Pieces.{Piece, format_of, args_of, Takes, plain, decimal, hex, char}
use twos.Kstd.Print.Sprint.{max_add, sprint}

-- An output that keeps the bytes in a list.
abbrev print_list : List ℕ → List ℕ → Option (ℕ × List ℕ)
print_list t s = some (length t, s ++ t)

abbrev print_list-Takes : Takes print_list
print_list-Takes = record {
  view = λ s. s;
  Room = λ s n. 0 ≤ n;
  takes = λ t n s nz room. (s ++ t, refl, refl, omega arith);
}

-- "n=%i %x%c".
abbrev some_pieces : List Piece
some_pieces = plain b'n' ∷ plain b'=' ∷ decimal 42 ∷ plain b' ' ∷ hex 255 ∷ char b'!' ∷ []

printed :
    vprintf print_list (format_of some_pieces) (args_of some_pieces) []
    ≡ some (10, b'n' ∷ b'=' ∷ b'4' ∷ b'2' ∷ b' ' ∷ b'0' ∷ b'x' ∷ b'F' ∷ b'F' ∷ b'!' ∷ [])
unfolding vprintf vprintf_loop round convert format_of args_of byte_at find_letter emit convert_int
    convert_char va_int itoa itoa_loop digit_upper
printed = refl

-- `%f` takes the byte behind it too, here the zero, and the loop reads on behind the format.
percent_f : vprintf print_list (b'%' ∷ b'f' ∷ []) [] [] ≡ none
unfolding vprintf vprintf_loop round convert byte_at find_letter emit
percent_f = refl

percent_end : vprintf print_list (b'%' ∷ []) [] [] ≡ none
unfolding vprintf vprintf_loop round convert byte_at find_letter emit
percent_end = refl

percent_c : vprintf print_list (b'%' ∷ b'C' ∷ []) (int 16 ∷ []) [] ≡ none
unfolding vprintf vprintf_loop round convert convert_bits emit_bits emit_uncounted get_highest_bit
    highest_from byte_at find_letter emit va_int test_bit
percent_c = refl

binary_uncounted :
    vprintf print_list (b'%' ∷ b'B' ∷ []) (int 5 ∷ []) []
    ≡ some (0, b'0' ∷ b'b' ∷ b'0' ∷ b'0' ∷ b'0' ∷ b'0' ∷ b'0' ∷ b'1' ∷ b'0' ∷ b'1' ∷ [])
unfolding vprintf vprintf_loop round convert convert_bits emit_bits emit_space emit_uncounted
    byte_at find_letter emit va_int test_bit
binary_uncounted = refl

-- A buffer of four bytes with "a" in it, and "xyz" to go behind it.
abbrev two_texts : Memory
two_texts b =
    if b == 16
    then b'a'
    else if b == 64
    then b'x'
    else if b == 65
    then b'y'
    else if b == 66
    then b'z'
    else 0

two_texts_first : IsText two_texts 16 1
two_texts_first = record { body = λ i l z. ground arith; ends = ground arith }

two_texts_second : IsText two_texts 64 3
two_texts_second = record { body = λ i l z. ground arith; ends = ground arith }

sprint_example :
    (mem' : Memory) × (sprint 100 64 16 4 two_texts ≡ some (max_add 4 1 3, mem'))
    × (max_add 4 1 3 ≡ min 3 (4 - 1))
    × IsText mem' 16 (1 + max_add 4 1 3)
    × ((i : ℕ) → i < 1 → mem' (16 + i) ≡ two_texts (16 + i))
    × ((i : ℕ) → i < max_add 4 1 3 → mem' (16 + 1 + i) ≡ two_texts (64 + i))
    × ((b : ℕ) → (b < 16 + 1) ⊎ (16 + 1 + max_add 4 1 3 < b) → mem' b ≡ two_texts b)
sprint_example =
    sprint_lem 100 64 16 4 1 3 two_texts two_texts_first two_texts_second (omega arith)
      (omega arith) (omega arith) (omega arith) (omega arith) (omega arith)
