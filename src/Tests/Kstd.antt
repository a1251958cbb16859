-- ===== src/Tests/Kstd.antt =====
-- The library of src/kstdlib on small inputs.
use twos.Base.{
  ◌==◌, if◌then◌else◌, length, take, Memory, ℕ, ◌≤◌, ◌≡◌, refl, ◌↔◌, some, List, [], ◌∷◌, arith,
}
use twos.Kstd.Copy.Laws.{IsText}
use twos.Kstd.Compare.{strcmp, strncmp, nil}
use twos.Kstd.Compare.Laws.{AllBytes, strcmp_iff, strncmp_iff}
use twos.Kstd.Number.{atou, itoa}
use twos.Kstd.Number.Atou.{IsDecimal, atou-itoa}

-- "ab" at 16 and "c" at 32.
abbrev texts : Memory
texts b = if b == 16 then 97 else if b == 17 then 98 else if b == 32 then 99 else 0

ab-IsText : IsText texts 16 2
ab-IsText = record { body = λ i h. ground (arith, h); ends = refl }

c-IsText : IsText texts 32 1
c-IsText = record { body = λ i h. ground (arith, h); ends = refl }

abbrev apic : List ℕ
apic = b'A' ∷ b'P' ∷ b'I' ∷ b'C' ∷ []

abbrev facp : List ℕ
facp = b'F' ∷ b'A' ∷ b'C' ∷ b'P' ∷ []

apic-AllBytes : AllBytes apic
apic-AllBytes = (
  omega arith,
  omega arith,
  (omega arith, omega arith, (omega arith, omega arith, (omega arith, omega arith, tt))),
)

facp-AllBytes : AllBytes facp
facp-AllBytes = (
  omega arith,
  omega arith,
  (omega arith, omega arith, (omega arith, omega arith, (omega arith, omega arith, tt))),
)

strcmp_example : (strcmp apic facp ≡ nil) ↔ (apic ≡ facp)
strcmp_example = strcmp_iff apic facp apic-AllBytes facp-AllBytes

strncmp_example :
    (strncmp apic apic 5 ≡ nil)
    ↔ ((5 ≤ length apic) × (5 ≤ length apic) × (take 5 apic ≡ take 5 apic))
strncmp_example = strncmp_iff apic apic 5 (omega arith)

-- 5000000000, which is too large.
abbrev five_billion : List ℕ
five_billion = b'5' ∷ b'0' ∷ b'0' ∷ b'0' ∷ b'0' ∷ b'0' ∷ b'0' ∷ b'0' ∷ b'0' ∷ b'0' ∷ []

five_billion-IsDecimal : IsDecimal five_billion
unfolding IsDecimal
five_billion-IsDecimal = ground arith

atou-itoa_example : (p : List ℕ) × (itoa 1234 10 ≡ some p) × (atou p ≡ 1234)
atou-itoa_example = atou-itoa 1234 (omega arith)
