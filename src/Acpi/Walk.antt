-- ===== src/Acpi/Walk.antt =====
-- What the loop over the MADT leaves in the tables, and that it ends.
use twos.Base.{
  ℕ, zero, suc, ◌+◌, ◌^◌, ◌<◌, ◌≤◌, ◌≡◌, ◌∙◌, refl, ap, subst, inl, inr, ◌==◌, ltb, Bool-cases,
  lt→ltb, if◌then◌else◌, true, false, some, List, [], ◌∷◌, ◌++◌, Memory, u64, length, length-append,
  arith,
}
use mathlib.Core.List.{append-nil, append_assoc}
use native.Mathlib.Nat.{lt_irrefl}
use native.Mathlib.Decide.{ℕ_discrete}
use twos.Acpi.{Table, kind_of, table_of, Collected, put_entry, walk_madt}
use twos.Acpi.Madt.{
  Entry, IsMadt, addresses, IsApart, IsTable, IsOutside, switch-cases, switch-kind,
  kind_of-injective, IsMadt-kept, put_self-IsTable, put_other-IsTable, put_entry_outside,
}

-- What one entry adds to a list.
abbrev added : ℕ → ℕ → ℕ → List ℕ
added kind at ptr = if kind == at then ptr ∷ [] else []

at_end : (a : ℕ) → ltb a a ≡ false
at_end a = ground arith

-- The entry's own address first, and those behind it.
added-addresses :
    (at ptr : ℕ) (e : Entry) (entries : List Entry) (xs : List ℕ)
    → (xs ++ added (e.kind) at ptr) ++ addresses at (ptr + e.size) entries
      ≡ xs ++ addresses at ptr (e ∷ entries)
unfolding addresses
added-addresses at ptr e entries xs = elim (Bool-cases (e.kind == at)) [
  | inl h ↦ rw h (append_assoc xs (ptr ∷ []) (addresses at (ptr + e.size) entries))
  | inr h ↦ rw h (ap (λ ys. ys ++ addresses at (ptr + e.size) entries) (append-nil xs))
]

module _ (tbl : Table → ℕ) (from upto : ℕ) (apart : IsApart tbl from upto) where
  length-added :
      (xs : List ℕ) (kind at ptr : ℕ)
      → length (xs ++ added kind at ptr) ≤ 32
      → (length xs ≤ 32) × (kind ≡ at → length xs < 32)
  length-added xs kind at ptr room = elim (Bool-cases (kind == at)) [
    | inl h ↦
        let few = rw h at room in
        let n = length-append xs (ptr ∷ []) in (omega (arith, few, n), λ e. omega (arith, few, n))
    | inr h ↦
        let few = rw h at room in
        (omega (arith, few, length-append xs []), λ e. absurd (ground (arith, h, e)))
  ]

  put_entry-IsTable :
      (kind ptr : ℕ) (c : Collected) (xs : Table → List ℕ)
      → ptr < 2 ^ 64
      → ((t : Table) → length (xs t ++ added kind (kind_of t) ptr) ≤ 32)
      → ((t : Table) → IsTable tbl c t (xs t))
      → (k : Table)
      → IsTable tbl (put_entry tbl (table_of kind) ptr c) k (xs k ++ added kind (kind_of k) ptr)
  unfolding put_entry
  put_entry-IsTable kind ptr c xs small room h k = elim (switch-cases kind) [
    | inl (free, ne) ↦
        let other : (kind == kind_of k) ≡ false = ground (arith, ne k) in
        rw (free, other, append-nil (xs k)) (h k)
    | inr (t, is, found) ↦
        let mine : (kind == kind_of t) ≡ true = ground (arith, is) in
        let few = (length-added (xs t) kind (kind_of t) ptr (room t)).1 is in
        let self = put_self-IsTable tbl from upto apart t ptr c (xs t) small few (h t) in
        elim (ℕ_discrete (kind_of t) (kind_of k)) [
          | yes e ↦
              let P : Table → Type 0 = λ k.
                IsTable tbl (put_entry tbl (some t) ptr c) k (xs k ++ added kind (kind_of k) ptr) in
              rw found (subst P (kind_of-injective t k e) (rw mine self))
          | no ne ↦
              let other : (kind == kind_of k) ≡ false = ground (arith, is, ne) in
              let fits = (length-added (xs k) kind (kind_of k) ptr (room k)).0 in
              let kept =
                put_other-IsTable tbl from upto apart t k ptr c (xs k) (xs t) ne few fits (h t)
                  (h k) in
              rw (found, other, append-nil (xs k)) kept
        ]
  ]

  -- Over entries that lie well from `ptr` to `upto`, with fuel for each: the lists grow by the addresses.
  walk_madt-IsTable :
      (fuel ptr : ℕ) (entries : List Entry) (c : Collected) (xs : Table → List ℕ)
      → from ≤ ptr
      → upto < 2 ^ 64
      → IsMadt c.mem ptr entries upto
      → length entries ≤ fuel
      → ((t : Table) → length (xs t ++ addresses (kind_of t) ptr entries) ≤ 32)
      → ((t : Table) → IsTable tbl c t (xs t))
      → (c' : Collected) × (walk_madt tbl fuel ptr upto c ≡ some c')
        × ((t : Table) → IsTable tbl c' t (xs t ++ addresses (kind_of t) ptr entries))
        × ((a : ℕ) → IsOutside tbl a → c'.mem a ≡ c.mem a)
  unfolding walk_madt addresses IsMadt
  walk_madt-IsTable zero ptr [] c xs low end m hf room h =
      (c, rw m (rw (at_end upto) refl), λ t. rw (append-nil (xs t)) (h t), λ a out. refl)
  walk_madt-IsTable (suc fuel) ptr [] c xs low end m hf room h =
      (c, rw m (rw (at_end upto) refl), λ t. rw (append-nil (xs t)) (h t), λ a out. refl)
  walk_madt-IsTable zero ptr (e ∷ entries) c xs low end m hf room h =
      elim (lt_irrefl 0 (omega (arith, hf))) [ ]
  walk_madt-IsTable (suc fuel) ptr (e ∷ entries) c xs low end (mk, ms, big, inside, m) hf room h =
      let c₁ = put_entry tbl (table_of (e.kind)) ptr c in
      let ys : Table → List ℕ = λ t. xs t ++ added (e.kind) (kind_of t) ptr in
      let all : (t : Table)
          → ys t ++ addresses (kind_of t) (ptr + e.size) entries
            ≡ xs t ++ addresses (kind_of t) ptr (e ∷ entries) =
        λ t. added-addresses (kind_of t) ptr e entries (xs t) in
      let room' : (t : Table) → length (ys t ++ addresses (kind_of t) (ptr + e.size) entries) ≤ 32 =
        λ t. omega (arith, ap length (all t), room t) in
      let one : (t : Table) → length (ys t) ≤ 32 = λ t.
        omega
          (arith, room' t, length-append (ys t) (addresses (kind_of t) (ptr + e.size) entries)) in
      let few : (t : Table) → table_of (e.kind) ≡ some t → length (xs t) < 32 = λ t found.
        (length-added (xs t) (e.kind) (kind_of t) ptr (one t)).1 (switch-kind (e.kind) t found) in
      let same : (a : ℕ) → IsOutside tbl a → c₁.mem a ≡ c.mem a =
        λ a out. put_entry_outside tbl from upto apart (table_of (e.kind)) ptr c xs a few h out in
      let beyond : (a : ℕ) → from ≤ a → a < upto → IsOutside tbl a =
        λ a l u t. omega (arith, l, u, apart.entries t) in
      let m' =
        IsMadt-kept c.mem c₁.mem from upto (ptr + e.size) entries (λ a l u. same a (beyond a l u))
          (omega (arith, low)) m in
      let size : c₁.mem (ptr + 1) ≡ e.size =
        same (ptr + 1) (beyond (ptr + 1) (omega (arith, low)) (omega (arith, big, inside))) ∙ ms in
      let next : u64 (ptr + c₁.mem (ptr + 1)) ≡ ptr + e.size = omega (arith, size, inside, end) in
      let more : ltb ptr upto ≡ true = lt→ltb ptr upto (omega (arith, big, inside)) in
      let put = put_entry-IsTable (e.kind) ptr c xs (omega (arith, big, inside, end)) one h in
      let (c', runs, tables, kept) =
        walk_madt-IsTable fuel (ptr + e.size) entries c₁ ys (omega (arith, low)) end m'
          (omega (arith, hf)) room' put in
      (
        c',
        rw (mk, more) (ap (λ p. walk_madt tbl fuel p upto c₁) next ∙ runs),
        λ t. subst (IsTable tbl c' t) (all t) (tables t),
        λ a out. kept a out ∙ same a out,
      )

-- The tables as `acpi_init_madt` clears them.
abbrev pub empty_tables : Memory → Collected
empty_tables mem = record { idx = λ t. 0; mem = mem }

-- Over a MADT of well-laid entries that ends below 2^64, with at most 32 entries of a type, as many as
-- the tables of 256 bytes have room for, with tables that touch neither each other nor the entries,
-- and with as much fuel as there are entries: the loop of `acpi_init_madt` ends, each of the seven
-- tables in memory holds the addresses of the entries of its type, in their order, with their number as
-- its count, and no byte outside the tables has changed.
pub walk_madt_lem :
    (tbl : Table → ℕ) (fuel ptr upto : ℕ) (entries : List Entry) (mem : Memory)
    → IsApart tbl ptr upto
    → upto < 2 ^ 64
    → IsMadt mem ptr entries upto
    → length entries ≤ fuel
    → ((t : Table) → length (addresses (kind_of t) ptr entries) ≤ 32)
    → (c : Collected) × (walk_madt tbl fuel ptr upto (empty_tables mem) ≡ some c)
      × ((t : Table) → IsTable tbl c t (addresses (kind_of t) ptr entries))
      × ((a : ℕ) → IsOutside tbl a → c.mem a ≡ mem a)
walk_madt_lem tbl fuel ptr upto entries mem apart end m hf room =
    walk_madt-IsTable tbl ptr upto apart fuel ptr entries (empty_tables mem) (λ t. []) (omega arith)
      end m hf room (λ t. record { count = refl; slots = λ i a e. absurd (cc e) })
