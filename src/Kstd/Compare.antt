-- ===== src/Kstd/Compare.antt =====
-- `strcmp` and `strncmp` of src/kstdlib/string.c. A string is the list of its bytes, without the
-- zero that ends it. A `char` is signed.
pub mod Laws
use twos.Base.{
  ℕ, zero, suc, ◌+◌, ◌-◌, ◌%◌, Bool, true, false, ◌==◌, ◌&&◌, ltb, if◌then◌else◌, List, [], ◌∷◌,
}

-- The results -1, 0 and 1.
pub data Sign : Type 0 where
  minus nil plus : Sign

-- `a < b` on signed bytes.
unfoldable pub char_lt : ℕ → ℕ → Bool
char_lt a b = ltb ((a + 128) % 256) ((b + 128) % 256)

-- The tests after the loop, on the bytes at which it stopped.
unfoldable pub verdict : ℕ → ℕ → Sign
unfolding char_lt
verdict a b = if a == b then nil else if char_lt a b then minus else plus

unfoldable pub strcmp : List ℕ → List ℕ → Sign
strcmp [] [] = verdict 0 0
strcmp [] (b ∷ str2) = verdict 0 b
strcmp (a ∷ str1) [] = verdict a 0
strcmp (a ∷ str1) (b ∷ str2) = elim (a == b) [ true ↦ strcmp str1 str2 | false ↦ verdict a b ]

-- The bytes at which the loop of `strncmp` stops, 0 at an end, and the number of matches, with
-- `left` bytes to go.
pub record Stop : Type 0 where
  pub matching : ℕ
  pub byte1 : ℕ
  pub byte2 : ℕ

unfoldable pub match_bytes : ℕ → ℕ → List ℕ → List ℕ → Stop
match_bytes left c [] [] = record { matching = c; byte1 = 0; byte2 = 0 }
match_bytes left c [] (b ∷ str2) = record { matching = c; byte1 = 0; byte2 = b }
match_bytes left c (a ∷ str1) [] = record { matching = c; byte1 = a; byte2 = 0 }
match_bytes zero c (a ∷ str1) (b ∷ str2) = record { matching = c; byte1 = a; byte2 = b }
match_bytes (suc left) c (a ∷ str1) (b ∷ str2) = elim (a == b) [
  | true ↦ match_bytes left (c + 1) str1 str2
  | false ↦ record { matching = c; byte1 = a; byte2 = b }
]

unfoldable pub strncmp : List ℕ → List ℕ → ℕ → Sign
unfolding char_lt
strncmp str1 str2 num =
    let stop = match_bytes num 0 str1 str2 in
    if num == 0
    then nil
    else if stop.matching == num
    then nil
    else if char_lt stop.byte2 stop.byte1
    then minus
    else plus
