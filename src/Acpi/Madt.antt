-- ===== src/Acpi/Madt.antt =====
-- The entries of the MADT, and the tables of their addresses: one round of the loop.
use twos.Base.{
  ℕ, zero, suc, ◌+◌, ◌*◌, ◌^◌, ◌<◌, ◌≤◌, ◌≡◌, ◌≢◌, ◌⊎◌, ◌∙◌, refl, ap, inl, inr, ◌==◌,
  if◌then◌else◌, true, false, Option, none, some, List, [], ◌∷◌, ◌++◌, Memory, load, store,
  store_outside, load-store_self, load-store_apart, length, length-append, get_elem?,
  get_elem?-some-lt, arith,
}
use native.Mathlib.Decide.{ℕ_discrete}
use twos.Acpi.{
  Table, proc_apic, io_apic, ioso_apic, ionmi_apic, nmi_lapic, addro_lapic, procx2_lapic, kind_of,
  table_of, Collected, put_entry,
}

-- An entry's type and the length that it gives.
pub record Entry : Type 0 where
  pub kind : ℕ
  pub size : ℕ

-- The entries lie one behind the other from `ptr` to `max_madt_addr`, each of two bytes at least.
unfoldable pub IsMadt : Memory → ℕ → List Entry → ℕ → Type 0
IsMadt mem ptr [] max_madt_addr = ptr ≡ max_madt_addr
IsMadt mem ptr (e ∷ entries) max_madt_addr =
    (mem ptr ≡ e.kind)
    × (mem (ptr + 1) ≡ e.size)
    × (2 ≤ e.size)
    × (ptr + e.size ≤ max_madt_addr)
    × IsMadt mem (ptr + e.size) entries max_madt_addr

-- The addresses of the entries of a type.
unfoldable pub addresses : ℕ → ℕ → List Entry → List ℕ
addresses kind ptr [] = []
addresses kind ptr (e ∷ entries) =
    let rest = addresses kind (ptr + e.size) entries in if e.kind == kind then ptr ∷ rest else rest

-- `ACPI_APIC_TBL_SIZE`.
abbrev pub acpi_apic_tbl_size : ℕ
acpi_apic_tbl_size = 256

-- The seven tables do not touch each other, nor the entries from `from` to `upto`.
pub record IsApart (tbl : Table → ℕ) (from upto : ℕ) : Type 0 where
  pub tables :
      (t k : Table)
      → kind_of t ≢ kind_of k
      → (tbl t + acpi_apic_tbl_size ≤ tbl k) ⊎ (tbl k + acpi_apic_tbl_size ≤ tbl t)
  pub entries : (t : Table) → (tbl t + acpi_apic_tbl_size ≤ from) ⊎ (upto ≤ tbl t)

-- The table holds the list: its count is the list's length, and its slots are the list's elements.
pub record IsTable (tbl : Table → ℕ) (c : Collected) (t : Table) (xs : List ℕ) : Type 0 where
  pub count : c.idx t ≡ length xs
  pub slots : (i a : ℕ) → get_elem? xs i ≡ some a → load 8 (tbl t + 8 * i) c.mem ≡ a

table_of-kind_of : (t : Table) → table_of (kind_of t) ≡ some t
unfolding table_of
table_of-kind_of proc_apic = refl
table_of-kind_of io_apic = refl
table_of-kind_of ioso_apic = refl
table_of-kind_of ionmi_apic = refl
table_of-kind_of nmi_lapic = refl
table_of-kind_of addro_lapic = refl
table_of-kind_of procx2_lapic = refl

pub kind_of-injective : (t k : Table) → kind_of t ≡ kind_of k → t ≡ k
kind_of-injective t k e =
    let same : table_of (kind_of t) ≡ table_of (kind_of k) = ap table_of e in
    cc (same, table_of-kind_of t, table_of-kind_of k)

-- The switch finds the table of the entry's type, or there is none.
pub switch-cases :
    (kind : ℕ)
    → ((table_of kind ≡ none) × ((t : Table) → kind ≢ kind_of t))
      ⊎ ((t : Table) × (kind ≡ kind_of t) × (table_of kind ≡ some t))
unfolding table_of
switch-cases kind =
    let found : (t : Table) → kind ≡ kind_of t → table_of kind ≡ some t =
      λ t e. ap table_of e ∙ table_of-kind_of t in
    elim (ℕ_discrete kind (kind_of proc_apic)) [
      | yes e ↦ inr (proc_apic, e, found proc_apic e)
      | no n0 ↦ elim (ℕ_discrete kind (kind_of io_apic)) [
        | yes e ↦ inr (io_apic, e, found io_apic e)
        | no n1 ↦ elim (ℕ_discrete kind (kind_of ioso_apic)) [
          | yes e ↦ inr (ioso_apic, e, found ioso_apic e)
          | no n2 ↦ elim (ℕ_discrete kind (kind_of ionmi_apic)) [
            | yes e ↦ inr (ionmi_apic, e, found ionmi_apic e)
            | no n3 ↦ elim (ℕ_discrete kind (kind_of nmi_lapic)) [
              | yes e ↦ inr (nmi_lapic, e, found nmi_lapic e)
              | no n4 ↦ elim (ℕ_discrete kind (kind_of addro_lapic)) [
                | yes e ↦ inr (addro_lapic, e, found addro_lapic e)
                | no n5 ↦ elim (ℕ_discrete kind (kind_of procx2_lapic)) [
                  | yes e ↦ inr (procx2_lapic, e, found procx2_lapic e)
                  | no n6 ↦
                      let free : table_of kind ≡ none =
                        ground (arith, n0, n1, n2, n3, n4, n5, n6) in
                      inl (free, λ t e. absurd (cc (free, found t e)))
                ]
              ]
            ]
          ]
        ]
      ]
    ]

pub switch-kind : (kind : ℕ) (t : Table) → table_of kind ≡ some t → kind ≡ kind_of t
switch-kind kind t h = elim (switch-cases kind) [
  | inl (free, ne) ↦ absurd (cc (free, h))
  | inr (k, e, found) ↦ let same : k ≡ t = cc (found, h) in e ∙ ap kind_of same
]

-- `a` lies in none of the tables.
abbrev pub IsOutside : (Table → ℕ) → ℕ → Type 0
IsOutside tbl a = (t : Table) → (a < tbl t) ⊎ (tbl t + acpi_apic_tbl_size ≤ a)

-- The entries are read only between `from` and `upto`.
pub IsMadt-kept :
    (mem mem' : Memory) (from upto ptr : ℕ) (entries : List Entry)
    → ((a : ℕ) → from ≤ a → a < upto → mem' a ≡ mem a)
    → from ≤ ptr
    → IsMadt mem ptr entries upto
    → IsMadt mem' ptr entries upto
unfolding IsMadt
IsMadt-kept mem mem' from upto ptr [] same low m = m
IsMadt-kept mem mem' from upto ptr (e ∷ entries) same low (mk, ms, big, inside, m) = (
  same ptr low (omega (arith, big, inside)) ∙ mk,
  same (ptr + 1) (omega (arith, low)) (omega (arith, big, inside)) ∙ ms,
  big,
  inside,
  IsMadt-kept mem mem' from upto (ptr + e.size) entries same (omega (arith, low)) m,
)

get_elem?-snoc :
    (xs : List ℕ) (x i a : ℕ)
    → get_elem? (xs ++ x ∷ []) i ≡ some a
    → ((i < length xs) × (get_elem? xs i ≡ some a)) ⊎ ((i ≡ length xs) × (x ≡ a))
get_elem?-snoc [] x zero a h = inr (refl, cc h)
get_elem?-snoc [] x (suc i) a h = absurd (cc h)
get_elem?-snoc (y ∷ xs) x zero a h = inl (omega arith, h)
get_elem?-snoc (y ∷ xs) x (suc i) a h = elim (get_elem?-snoc xs x i a h) [
  | inl (l, e) ↦ inl (omega (arith, l), e)
  | inr (l, e) ↦ inr (omega (arith, l), e)
]

module _ (tbl : Table → ℕ) (from upto : ℕ) (apart : IsApart tbl from upto) where
  -- The table of the entry grows, and the others stay.
  pub put_self-IsTable :
      (t : Table) (ptr : ℕ) (c : Collected) (xs : List ℕ)
      → ptr < 2 ^ 64
      → length xs < 32
      → IsTable tbl c t xs
      → IsTable tbl (put_entry tbl (some t) ptr c) t (xs ++ ptr ∷ [])
  unfolding put_entry
  put_self-IsTable t ptr c xs small few h =
      let same : (kind_of t == kind_of t) ≡ true = ground arith in
      record {
        count = rw same (omega (arith, h.count, few, length-append xs (ptr ∷ [])));
        slots = λ i a e. elim (get_elem?-snoc xs ptr i a e) [
          | inl (l, old) ↦
              load-store_apart 8 (tbl t + 8 * i) 8 (tbl t + 8 * c.idx t) ptr c.mem
                (omega (arith, l, h.count))
              ∙ h.slots i a old
          | inr (l, new) ↦
              let at : tbl t + 8 * i ≡ tbl t + 8 * c.idx t = omega (arith, l, h.count) in
              ap (λ p. load 8 p (store 8 (tbl t + 8 * c.idx t) ptr c.mem)) at
              ∙ load-store_self 8 (tbl t + 8 * c.idx t) ptr c.mem (omega (arith, small))
              ∙ new
        ];
      }

  pub put_other-IsTable :
      (t k : Table) (ptr : ℕ) (c : Collected) (xs ys : List ℕ)
      → kind_of t ≢ kind_of k
      → length ys < 32
      → length xs ≤ 32
      → IsTable tbl c t ys
      → IsTable tbl c k xs
      → IsTable tbl (put_entry tbl (some t) ptr c) k xs
  unfolding put_entry
  put_other-IsTable t k ptr c xs ys ne few room ht h =
      let other : (kind_of k == kind_of t) ≡ false = ground (arith, ne) in
      record {
        count = rw other h.count;
        slots = λ i a e.
            load-store_apart 8 (tbl k + 8 * i) 8 (tbl t + 8 * c.idx t) ptr c.mem
              (omega (arith, apart.tables t k ne, get_elem?-some-lt xs i e, room, ht.count, few))
            ∙ h.slots i a e;
      }

  pub put_entry_outside :
      (o : Option Table) (ptr : ℕ) (c : Collected) (xs : Table → List ℕ) (a : ℕ)
      → ((t : Table) → o ≡ some t → length (xs t) < 32)
      → ((t : Table) → IsTable tbl c t (xs t))
      → IsOutside tbl a
      → (put_entry tbl o ptr c).mem a ≡ c.mem a
  unfolding put_entry
  put_entry_outside none ptr c xs a few h out = refl
  put_entry_outside (some t) ptr c xs a few h out =
      store_outside 8 (tbl t + 8 * c.idx t) ptr c.mem a
        (omega (arith, out t, (h t).count, few t refl))
