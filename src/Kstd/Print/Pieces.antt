-- ===== src/Kstd/Print/Pieces.antt =====
-- Formats as lists of pieces: the text of each, the arguments it takes, and what it comes to.
use twos.Base.{
  ℕ, ◌+◌, ◌==◌, ◌≡◌, ◌≢◌, ◌≤◌, if◌then◌else◌, Option, some, List, [], ◌∷◌, ◌++◌, length, u8, u32,
  u64,
}
use twos.Kstd.Number.{ltoa}
use twos.Kstd.Print.{Arg, int, long, text, itoa_text}

-- A text of C holds no zero.
unfoldable pub NoZero : List ℕ → Type 0
NoZero [] = 0 ≤ 0
NoZero (c ∷ cs) = (c ≢ 0) × NoZero cs

-- A plain byte, or a conversion and its argument: %i, %x, %lu, %lx, %c and %s.
pub data Piece : Type 0 where
  plain : ℕ → Piece
  decimal : ℕ → Piece
  hex : ℕ → Piece
  long_decimal : ℕ → Piece
  long_hex : ℕ → Piece
  char : ℕ → Piece
  string : List ℕ → Piece

-- Plain bytes are neither zero nor a percent sign, and texts hold no zero.
unfoldable pub IsPlain : List Piece → Type 0
IsPlain [] = 0 ≤ 0
IsPlain (plain ch ∷ ps) = (ch ≢ 0) × (ch ≢ b'%') × IsPlain ps
IsPlain (decimal n ∷ ps) = IsPlain ps
IsPlain (hex n ∷ ps) = IsPlain ps
IsPlain (long_decimal n ∷ ps) = IsPlain ps
IsPlain (long_hex n ∷ ps) = IsPlain ps
IsPlain (char n ∷ ps) = IsPlain ps
IsPlain (string t ∷ ps) = NoZero t × IsPlain ps

unfoldable pub format_of : List Piece → List ℕ
format_of [] = []
format_of (plain ch ∷ ps) = ch ∷ format_of ps
format_of (decimal n ∷ ps) = b'%' ∷ b'i' ∷ format_of ps
format_of (hex n ∷ ps) = b'%' ∷ b'x' ∷ format_of ps
format_of (long_decimal n ∷ ps) = b'%' ∷ b'l' ∷ b'u' ∷ format_of ps
format_of (long_hex n ∷ ps) = b'%' ∷ b'l' ∷ b'x' ∷ format_of ps
format_of (char n ∷ ps) = b'%' ∷ b'c' ∷ format_of ps
format_of (string t ∷ ps) = b'%' ∷ b's' ∷ format_of ps

unfoldable pub args_of : List Piece → List Arg
args_of [] = []
args_of (plain ch ∷ ps) = args_of ps
args_of (decimal n ∷ ps) = int n ∷ args_of ps
args_of (hex n ∷ ps) = int n ∷ args_of ps
args_of (long_decimal n ∷ ps) = long n ∷ args_of ps
args_of (long_hex n ∷ ps) = long n ∷ args_of ps
args_of (char n ∷ ps) = int n ∷ args_of ps
args_of (string t ∷ ps) = text t ∷ args_of ps

abbrev pub char_text : ℕ → List ℕ
char_text c = if c == 0 then [] else c ∷ []

abbrev pub hex_prefix : List ℕ
hex_prefix = b'0' ∷ b'x' ∷ []

unfoldable pub text_of : List Piece → List ℕ
text_of [] = []
text_of (plain ch ∷ ps) = ch ∷ text_of ps
text_of (decimal n ∷ ps) = itoa_text (u32 n) 10 ++ text_of ps
text_of (hex n ∷ ps) = hex_prefix ++ (itoa_text (u32 n) 16 ++ text_of ps)
text_of (long_decimal n ∷ ps) = ltoa (u64 n) 10 ++ text_of ps
text_of (long_hex n ∷ ps) = ltoa (u64 n) 16 ++ text_of ps
text_of (char n ∷ ps) = char_text (u8 (u32 n)) ++ text_of ps
text_of (string t ∷ ps) = t ++ text_of ps

-- An output that takes texts as long as there is room for them: what it holds, and how much more.
pub record Takes {S : Type 0} (print : List ℕ → S → Option (ℕ × S)) : Type 1 where
  pub view : S → List ℕ
  pub Room : S → ℕ → Type 0
  pub takes :
      (t : List ℕ) (n : ℕ) (s : S)
      → NoZero t
      → Room s (length t + n)
      → (s' : S) × (print t s ≡ some (length t, s')) × (view s' ≡ view s ++ t) × Room s' n
