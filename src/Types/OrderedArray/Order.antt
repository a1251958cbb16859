-- ===== src/Types/OrderedArray/Order.antt =====
-- `oarray_insert` puts the element at its place, moves the greater ones up, and keeps the order.
use twos.Base.{
  ℕ, zero, suc, ◌+◌, ◌-◌, ◌^◌, ◌≤◌, ◌<◌, ◌≡◌, inl, inr, ap, ◌∙◌, Bool, true, false, ◌==◌, ◌&&◌, ltb,
  leb, if◌then◌else◌, update, Bool-cases, ==_iff, arith, refl,
}
use native.Mathlib.Decide.{ℕ_discrete}
use twos.Types.OrderedArray.{OArray, find_slot, shift_up, oarray_insert}

-- The slot found lies in the range, nothing before it is greater, and at it there is something
-- greater unless it is the end.
pub record IsSlot (greater : ℕ → ℕ → Bool) (lo hi element : ℕ) (items : ℕ → ℕ) (p : ℕ)
    : Type 0 where
  pub from : lo ≤ p
  pub upto : p ≤ hi
  pub below : (j : ℕ) → lo ≤ j → j < p → greater (items j) element ≡ false
  pub here : p < hi → greater (items p) element ≡ true

find_slot-IsSlot :
    (greater : ℕ → ℕ → Bool) (left itr hi element : ℕ) (items : ℕ → ℕ)
    → itr + left ≡ hi
    → IsSlot greater itr hi element items (find_slot greater left itr element items)
unfolding find_slot
find_slot-IsSlot greater zero itr hi element items e = record {
  from = omega arith;
  upto = omega arith;
  below = λ j p q. absurd (omega arith);
  here = λ h. absurd (omega arith);
}
find_slot-IsSlot greater (suc left) itr hi element items e =
    elim (Bool-cases (greater (items itr) element)) [
      | inl yes_greater ↦ rw yes_greater record {
        from = omega arith;
        upto = omega arith;
        below = λ j p q. absurd (omega arith);
        here = λ h. yes_greater;
      }
      | inr no_greater ↦
          let rest = find_slot-IsSlot greater left (itr + 1) hi element items (omega arith) in
          rw no_greater record {
            from = omega (arith, rest.from);
            upto = rest.upto;
            below = λ j p q. elim (ℕ_discrete j itr) [
              | yes same ↦ ap (λ k. greater (items k) element) same ∙ no_greater
              | no other ↦ rest.below j (omega arith) q
            ];
            here = rest.here;
          }
    ]

-- The shift moves the slots above `itr` up by one, with `displaced` first.
shift_up_at :
    (left itr hi displaced : ℕ) (items : ℕ → ℕ) (j : ℕ)
    → itr + left ≡ hi
    → shift_up left itr displaced items j ≡ (
        if ltb itr j && leb j hi
        then (if j == itr + 1 then displaced else items (j - 1))
        else items j)
unfolding shift_up
shift_up_at zero itr hi displaced items j e = ground arith
shift_up_at (suc left) itr hi displaced items j e =
    shift_up_at left (itr + 1) hi (items (itr + 1)) (update items (itr + 1) displaced) j
      (omega arith)
    ∙ ground (arith, same)
  where
    same : j ≡ itr + 2 → items (itr + 1) ≡ items (j - 1)
    same h = ap items (omega arith)

-- The array after an insertion at slot `p`.
pub record IsInserted (element p : ℕ) (arr arr' : OArray) : Type 0 where
  pub count : arr'.idx ≡ arr.idx + 1
  pub capacity : arr'.max_elements ≡ arr.max_elements
  pub size : arr'.max_size_bytes ≡ arr.max_size_bytes
  pub before : (j : ℕ) → j < p → arr'.items j ≡ arr.items j
  pub placed : arr'.items p ≡ element
  pub moved : (j : ℕ) → p < j → j < arr'.idx → arr'.items j ≡ arr.items (j - 1)
  pub beyond : (j : ℕ) → arr'.idx ≤ j → arr'.items j ≡ arr.items j

-- An array with room takes the element: `oarray_insert` returns it and puts it at the slot before
-- which nothing is greater and at which something is, unless it is the end. Slots before stay,
-- later ones move up by one, and none at or beyond the new count is written.
pub oarray_insert_lem :
    (greater : ℕ → ℕ → Bool) (arr : OArray) (element : ℕ)
    → arr.idx < arr.max_elements
    → arr.max_elements < 2 ^ 32
    → ((oarray_insert greater arr element).0 ≡ element)
      × IsSlot greater 0 arr.idx element arr.items (find_slot greater arr.idx 0 element arr.items)
      × IsInserted element
          (find_slot greater arr.idx 0 element arr.items)
          arr
          (oarray_insert greater arr element).1
unfolding oarray_insert
oarray_insert_lem greater arr element h small =
    let itr = find_slot greater arr.idx 0 element arr.items in
    let slot = find_slot-IsSlot greater arr.idx 0 arr.idx element arr.items (omega arith) in
    let room : leb arr.max_elements arr.idx ≡ false = ground arith in
    elim (Bool-cases (itr == arr.idx)) [
      | inl end ↦
          rw (room, end)
            (
              refl,
              slot,
              record {
                count = omega arith;
                capacity = refl;
                size = refl;
                before = λ j p. ground (arith, slot.upto);
                placed = ground (arith, (==_iff _ _).0 end);
                moved = λ j p q. absurd (omega (arith, (==_iff _ _).0 end));
                beyond = λ j p. ground (arith, slot.upto);
              },
            )
      | inr middle ↦
          let at = λ (j : ℕ).
            shift_up_at (arr.idx - itr) itr arr.idx (arr.items itr) (update arr.items itr element) j
              (omega (arith, slot.upto)) in
          rw (room, middle)
            (
              refl,
              slot,
              record {
                count = omega arith;
                capacity = refl;
                size = refl;
                before = λ j p. ground (arith, at j);
                placed = ground (arith, at itr);
                moved = λ j p q. ground (arith, at j, ap arr.items);
                beyond = λ j p. ground (arith, at j, slot.upto);
              },
            )
    ]

-- A full array is left as it is, and 0 is returned.
pub oarray_insert_full :
    (greater : ℕ → ℕ → Bool) (arr : OArray) (element : ℕ)
    → arr.max_elements ≤ arr.idx
    → oarray_insert greater arr element ≡ (0, arr)
unfolding oarray_insert
oarray_insert_full greater arr element h = ground arith

-- The slots in use are in order of their keys.
abbrev pub IsOrdered : (ℕ → ℕ) → OArray → Type 0
IsOrdered key arr = (i j : ℕ) → i < j → j < arr.idx → key (arr.items i) ≤ key (arr.items j)

-- Where `bgreater` compares keys, an insertion into an ordered array with room leaves it ordered.
pub oarray_insert-IsOrdered :
    (greater : ℕ → ℕ → Bool) (key : ℕ → ℕ)
    → ((a b : ℕ) → greater a b ≡ ltb (key b) (key a))
    → (arr : OArray) (element : ℕ) → arr.idx < arr.max_elements
    → arr.max_elements < 2 ^ 32
    → IsOrdered key arr
    → IsOrdered key (oarray_insert greater arr element).1
oarray_insert-IsOrdered greater key by_key arr element h small ordered i j p q =
    let (returned, slot, ins) = oarray_insert_lem greater arr element h small in
    let itr = find_slot greater arr.idx 0 element arr.items in
    ground (
      arith,
      ins.count,
      ins.before i,
      ins.before j,
      ins.placed,
      ins.moved i,
      ins.moved j,
      slot.below i,
      slot.here,
      slot.upto,
      by_key (arr.items i) element,
      by_key (arr.items itr) element,
      ordered i j,
      ordered i (j - 1),
      ordered (i - 1) (j - 1),
      ordered itr (j - 1),
    )
