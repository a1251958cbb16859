-- ===== src/Acpi/Tables.antt =====
-- What a valid checksum says, and which table `acpi_find_tbl` finds.
use twos.Base.{
  ◌*◌, ◌^◌, ◌≢◌, load, [], ◌∷◌, ℕ, zero, suc, ◌+◌, ◌%◌, ◌<◌, ◌≤◌, ◌≡◌, ◌∙◌, ◌↔◌, refl, subst, ap,
  inl, inr, ◌&&◌, ==_iff, Bool-cases, Bool, true, false, Option, none, some, List, Memory, u8,
  arith,
}
use native.Mathlib.Decide.{ℕ_discrete}
use native.Mathlib.Nat.{lt_irrefl}
use twos.Kstd.Compare.{strncmp, match_bytes, char_lt}
use twos.Acpi.{
  string_at, sum_bytes, acpi_validate_checksum, acpi_validate_sig, find_entry, acpi_find_tbl,
  num_entries, xsdt_entry, sdt_length,
}

-- The sum of the `n` bytes from `p`, not cut to a byte.
unfoldable pub total : ℕ → ℕ → Memory → ℕ
total zero p mem = 0
total (suc n) p mem = mem p + total n (p + 1) mem

sum_bytes-total :
    (n p : ℕ) (mem : Memory) (sum : ℕ)
    → sum < 256
    → sum_bytes n p mem sum ≡ (sum + total n p mem) % 256
unfolding sum_bytes total
sum_bytes-total zero p mem sum h = omega (arith, h)
sum_bytes-total (suc n) p mem sum h =
    omega (arith, sum_bytes-total n (p + 1) mem (u8 (sum + mem p)) (omega arith))

-- `acpi_validate_checksum` accepts a table exactly if the bytes of its length, summed up in full,
-- come to a multiple of 256.
pub acpi_validate_checksum_iff :
    (header : ℕ) (mem : Memory)
    → (acpi_validate_checksum header mem ≡ true)
      ↔ (total (sdt_length header mem) header mem % 256 ≡ 0)
unfolding acpi_validate_checksum
acpi_validate_checksum_iff header mem =
    let sum = sum_bytes-total (sdt_length header mem) header mem 0 (omega arith) in
    (
      (λ e. omega (arith, sum, (==_iff (sum_bytes (sdt_length header mem) header mem 0) 0).0 e)),
      (λ z. (==_iff (sum_bytes (sdt_length header mem) header mem 0) 0).1 (omega (arith, sum, z))),
    )

-- The tests of the loop.
abbrev is_wanted : List ℕ → ℕ → Memory → ℕ → Bool
is_wanted sig xsdt mem i =
    acpi_validate_sig (xsdt_entry xsdt i mem) sig mem
    && acpi_validate_checksum (xsdt_entry xsdt i mem) mem

-- The first entry of those from `from` to `to` that passes the tests, or the null pointer where none
-- does.
unfoldable IsFirstWanted : List ℕ → ℕ → Memory → ℕ → ℕ → Option ℕ → Type 0
IsFirstWanted sig xsdt mem from to none =
    (i : ℕ) → from ≤ i → i < to → is_wanted sig xsdt mem i ≡ false
IsFirstWanted sig xsdt mem from to (some entry) =
    (k : ℕ) × (from ≤ k)
    × (k < to)
    × (xsdt_entry xsdt k mem ≡ entry)
    × (is_wanted sig xsdt mem k ≡ true)
    × ((i : ℕ) → from ≤ i → i < k → is_wanted sig xsdt mem i ≡ false)

IsFirstWanted-step :
    (sig : List ℕ) (xsdt : ℕ) (mem : Memory) (from to : ℕ) (found : Option ℕ)
    → is_wanted sig xsdt mem from ≡ false
    → IsFirstWanted sig xsdt mem (from + 1) to found
    → IsFirstWanted sig xsdt mem from to found
unfolding IsFirstWanted
IsFirstWanted-step sig xsdt mem from to none e f = λ i p q. elim (ℕ_discrete i from) [
  | yes same ↦ (ap (is_wanted sig xsdt mem) same ∙ e)
  | no ne ↦ f i (omega (arith, p, ne)) q
]
IsFirstWanted-step sig xsdt mem from to (some entry) e (k, p, q, at, w, before) = (
  k,
  omega (arith, p),
  q,
  at,
  w,
  λ i h h'. elim (ℕ_discrete i from) [
    | yes same ↦ (ap (is_wanted sig xsdt mem) same ∙ e)
    | no ne ↦ before i (omega (arith, h, ne)) h'
  ],
)

find_entry-IsFirstWanted :
    (n i : ℕ) (sig : List ℕ) (xsdt : ℕ) (mem : Memory)
    → IsFirstWanted sig xsdt mem i (i + n) (find_entry n i sig xsdt mem)
unfolding find_entry IsFirstWanted
find_entry-IsFirstWanted zero i sig xsdt mem = λ j p q. elim (lt_irrefl 0 (omega (arith, p, q))) [ ]
find_entry-IsFirstWanted (suc n) i sig xsdt mem = elim (Bool-cases (is_wanted sig xsdt mem i)) [
  | inl e ↦
      rw e (
        i,
        omega arith,
        omega arith,
        refl,
        e,
        λ j p q. elim (lt_irrefl 0 (omega (arith, p, q))) [ ],
      )
  | inr e ↦ rw e (
      IsFirstWanted-step sig xsdt mem i (i + suc n) (find_entry n (i + 1) sig xsdt mem) e (
        subst (λ to. IsFirstWanted sig xsdt mem (i + 1) to (find_entry n (i + 1) sig xsdt mem))
          (omega arith) (find_entry-IsFirstWanted n (i + 1) sig xsdt mem)))
]

-- A table at `p`, as the standard describes one: it starts with the four bytes of its signature, and
-- the sum of all its bytes, as many as the word behind the signature says, is a multiple of 256.
abbrev pub IsTableOf : ℕ → ℕ → ℕ → ℕ → Memory → ℕ → Type 0
IsTableOf a b c d mem p =
    (mem p ≡ a)
    × (mem (p + 1) ≡ b)
    × (mem (p + 2) ≡ c)
    × (mem (p + 3) ≡ d)
    × (total (load 4 (p + 4) mem) p mem % 256 ≡ 0)

acpi_validate_sig_iff :
    (a b c d p : ℕ) (mem : Memory)
    → a ≢ 0
    → b ≢ 0
    → c ≢ 0
    → d ≢ 0
    → (acpi_validate_sig p (a ∷ b ∷ c ∷ d ∷ []) mem ≡ true)
      ↔ ((mem p ≡ a) × (mem (p + 1) ≡ b) × (mem (p + 2) ≡ c) × (mem (p + 3) ≡ d))
unfolding acpi_validate_sig string_at strncmp match_bytes char_lt
acpi_validate_sig_iff a b c d p mem na nb nc nd = ground arith

-- What the tests of the loop come to.
is_wanted_iff :
    (a b c d xsdt i : ℕ) (mem : Memory)
    → a ≢ 0
    → b ≢ 0
    → c ≢ 0
    → d ≢ 0
    → (is_wanted (a ∷ b ∷ c ∷ d ∷ []) xsdt mem i ≡ true)
      ↔ IsTableOf a b c d mem (load 8 (xsdt + 36 + 8 * i) mem)
is_wanted_iff a b c d xsdt i mem na nb nc nd =
    let p = load 8 (xsdt + 36 + 8 * i) mem in
    let sig = acpi_validate_sig_iff a b c d p mem na nb nc nd in
    let sum = acpi_validate_checksum_iff p mem in ground (arith, sig, sum)

-- The first of the `n` addresses behind the header of 36 bytes, of 8 bytes each, where such a table
-- stands, or the null pointer where one stands at none of them.
pub IsFirstTable : ℕ → ℕ → ℕ → ℕ → ℕ → Memory → ℕ → Option ℕ → Type 0
IsFirstTable a b c d xsdt mem n none =
    (i : ℕ) → i < n → ¬ (IsTableOf a b c d mem (load 8 (xsdt + 36 + 8 * i) mem))
IsFirstTable a b c d xsdt mem n (some entry) =
    (k : ℕ) × (k < n)
    × (load 8 (xsdt + 36 + 8 * k) mem ≡ entry)
    × IsTableOf a b c d mem entry
    × ((i : ℕ) → i < k → ¬ (IsTableOf a b c d mem (load 8 (xsdt + 36 + 8 * i) mem)))

IsFirstWanted-IsFirstTable :
    (a b c d xsdt n : ℕ) (mem : Memory) (found : Option ℕ)
    → a ≢ 0
    → b ≢ 0
    → c ≢ 0
    → d ≢ 0
    → IsFirstWanted (a ∷ b ∷ c ∷ d ∷ []) xsdt mem 0 n found
    → IsFirstTable a b c d xsdt mem n found
unfolding IsFirstWanted IsFirstTable
IsFirstWanted-IsFirstTable a b c d xsdt n mem none na nb nc nd f =
    λ i l t. absurd (cc (f i (omega arith) l, (is_wanted_iff a b c d xsdt i mem na nb nc nd).1 t))
IsFirstWanted-IsFirstTable a b c d xsdt n mem (some entry) na nb nc nd (k, p, q, at, w, before) = (
  k,
  q,
  at,
  subst (IsTableOf a b c d mem) at ((is_wanted_iff a b c d xsdt k mem na nb nc nd).0 w),
  λ i l t.
      absurd (cc (before i (omega arith) l, (is_wanted_iff a b c d xsdt i mem na nb nc nd).1 t)),
)

-- On an XSDT whose length is that of a header of 36 bytes and of `n` addresses of 8 bytes, and for a
-- signature of four nonzero bytes: `acpi_find_tbl` gives the first of the `n` addresses where a table
-- stands that starts with the signature and whose bytes add up to a multiple of 256, and null exactly
-- where none of them is one.
pub acpi_find_tbl-IsFirstTable :
    (a b c d xsdt n : ℕ) (mem : Memory)
    → a ≢ 0
    → b ≢ 0
    → c ≢ 0
    → d ≢ 0
    → load 4 (xsdt + 4) mem ≡ 36 + 8 * n
    → 36 + 8 * n < 2 ^ 32
    → IsFirstTable a b c d xsdt mem n (acpi_find_tbl (a ∷ b ∷ c ∷ d ∷ []) xsdt mem)
unfolding acpi_find_tbl
acpi_find_tbl-IsFirstTable a b c d xsdt n mem na nb nc nd size fits =
    let count : num_entries xsdt mem ≡ n = omega (arith, size, fits) in
    let sig = a ∷ b ∷ c ∷ d ∷ [] in
    IsFirstWanted-IsFirstTable a b c d xsdt n mem (find_entry (num_entries xsdt mem) 0 sig xsdt mem)
      na nb nc nd
      (subst
        (λ to. IsFirstWanted sig xsdt mem 0 to (find_entry (num_entries xsdt mem) 0 sig xsdt mem))
        (omega (arith, count)) (find_entry-IsFirstWanted (num_entries xsdt mem) 0 sig xsdt mem))
