-- ===== src/Kstd/Compare/Laws.antt =====
-- When `strcmp` and `strncmp` say that strings agree.
use mathlib.Core.Logic.{◌↔◌}
use twos.Base.{ℕ, zero, suc, ◌+◌, ◌≤◌, ◌<◌, ◌≡◌, refl, List, [], ◌∷◌, length, take, arith}
use twos.Kstd.Compare.{Sign, minus, nil, plus, verdict, strcmp, match_bytes, strncmp}

-- Every byte is one, and none is zero.
abbrev pub AllBytes : List ℕ → Type 0
AllBytes [] = Unit {0}
AllBytes (a ∷ str) = (0 < a) × (a < 256) × AllBytes str

abbrev opposite : Sign → Sign
opposite minus = plus
opposite nil = nil
opposite plus = minus

verdict-nil : (a b : ℕ) → (verdict a b ≡ nil) ↔ (a ≡ b)
unfolding verdict
verdict-nil a b = ground arith

verdict-swap : (a b : ℕ) → a < 256 → b < 256 → verdict b a ≡ opposite (verdict a b)
unfolding verdict
verdict-swap a b h k = ground arith

-- On strings of nonzero bytes, `strcmp` returns 0 exactly when they are equal.
pub strcmp_iff : (s t : List ℕ) → AllBytes s → AllBytes t → (strcmp s t ≡ nil) ↔ (s ≡ t)
unfolding strcmp
strcmp_iff [] [] h k = (λ e. refl, λ e. (verdict-nil 0 0).1 refl)
strcmp_iff [] (b ∷ t) h k = (λ e. absurd (omega (arith, (verdict-nil 0 b).0 e)), λ e. absurd (cc))
strcmp_iff (a ∷ s) [] h k = (λ e. absurd (omega (arith, (verdict-nil a 0).0 e)), λ e. absurd (cc))
strcmp_iff (a ∷ s) (b ∷ t) h k = ground (arith, strcmp_iff s t h.2 k.2, verdict-nil a b)

-- Swapping the arguments of `strcmp` changes the sign of its result.
pub strcmp-swap : (s t : List ℕ) → AllBytes s → AllBytes t → strcmp t s ≡ opposite (strcmp s t)
unfolding strcmp
strcmp-swap [] [] h k = verdict-swap 0 0 (omega arith) (omega arith)
strcmp-swap [] (b ∷ t) h k = verdict-swap 0 b (omega arith) k.1
strcmp-swap (a ∷ s) [] h k = verdict-swap a 0 h.1 (omega arith)
strcmp-swap (a ∷ s) (b ∷ t) h k = ground (arith, strcmp-swap s t h.2 k.2, verdict-swap a b h.1 k.1)

-- The loop of `strncmp` counts `num` matches exactly when both strings have `num` bytes and
-- agree on them.
match_bytes_iff :
    (num c : ℕ) (s t : List ℕ)
    → ((match_bytes num c s t).matching ≡ c + num)
      ↔ ((num ≤ length s) × (num ≤ length t) × (take num s ≡ take num t))
unfolding match_bytes
match_bytes_iff zero c [] [] = (λ e. (omega arith, omega arith, refl), λ e. omega arith)
match_bytes_iff zero c [] (b ∷ t) = (λ e. (omega arith, omega arith, refl), λ e. omega arith)
match_bytes_iff zero c (a ∷ s) [] = (λ e. (omega arith, omega arith, refl), λ e. omega arith)
match_bytes_iff zero c (a ∷ s) (b ∷ t) = (λ e. (omega arith, omega arith, refl), λ e. omega arith)
match_bytes_iff (suc n) c [] [] = (λ e. absurd (omega arith), λ e. absurd (omega arith))
match_bytes_iff (suc n) c [] (b ∷ t) = (λ e. absurd (omega arith), λ e. absurd (omega arith))
match_bytes_iff (suc n) c (a ∷ s) [] = (λ e. absurd (omega arith), λ e. absurd (omega arith))
match_bytes_iff (suc n) c (a ∷ s) (b ∷ t) = ground (arith, match_bytes_iff n (c + 1) s t)

-- For a positive count, `strncmp` returns 0 exactly when both strings have at least that many
-- bytes and agree on them. So it tells a string shorter than the count from itself.
pub strncmp_iff :
    (s t : List ℕ) (num : ℕ)
    → 0 < num
    → (strncmp s t num ≡ nil) ↔ ((num ≤ length s) × (num ≤ length t) × (take num s ≡ take num t))
unfolding strncmp
strncmp_iff s t num h = ground (arith, match_bytes_iff num 0 s t)
