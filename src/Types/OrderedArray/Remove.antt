-- ===== src/Types/OrderedArray/Remove.antt =====
-- `oarray_remove` closes the gap, and undoes an insertion.
use twos.Base.{
  ℕ, zero, suc, ◌+◌, ◌-◌, ◌^◌, ◌≤◌, ◌<◌, ◌≡◌, ap, ◌∙◌, Bool, ◌&&◌, ltb, leb, if◌then◌else◌, update,
  arith,
}
use twos.Types.OrderedArray.{
  OArray, find_slot, shift_down, oarray_insert, oarray_remove, oarray_get,
}
use twos.Types.OrderedArray.Order.{oarray_insert_lem}

shift_down_at :
    (left idx hi : ℕ) (items : ℕ → ℕ) (j : ℕ)
    → idx + left ≡ hi
    → shift_down left idx items j ≡ (if leb idx j && ltb j hi then items (j + 1) else items j)
unfolding shift_down
shift_down_at zero idx hi items j e = ground arith
shift_down_at (suc left) idx hi items j e =
    shift_down_at left (idx + 1) hi (update items idx (items (idx + 1))) j (omega arith)
    ∙ ground (arith, same)
  where
    same : j ≡ idx → items (idx + 1) ≡ items (j + 1)
    same h = ap items (omega arith)

-- Removing a slot in use lowers the count by one, keeps the slots before, and moves the later
-- ones down by one: the element is gone and the order of the rest is kept.
pub oarray_remove_lem :
    (arr : OArray) (idx j : ℕ)
    → idx < arr.idx
    → arr.idx < 2 ^ 32
    → ((oarray_remove arr idx).idx + 1 ≡ arr.idx)
      × ((oarray_remove arr idx).items j ≡ (
          if ltb j idx
          then arr.items j
          else if ltb j arr.idx
          then arr.items (j + 1)
          else arr.items j))
unfolding oarray_remove
oarray_remove_lem arr idx j h small = (
  omega arith,
  shift_down_at (arr.idx - idx) idx arr.idx arr.items j (omega arith) ∙ ground arith,
)

-- Removing the slot at which `oarray_insert` put an element gives back the count and every slot
-- that was in use.
pub oarray_remove-insert :
    (greater : ℕ → ℕ → Bool) (arr : OArray) (element j : ℕ)
    → arr.idx < arr.max_elements
    → arr.max_elements < 2 ^ 32
    → j < arr.idx
    → let arr' = (oarray_insert greater arr element).1 in
      let back = oarray_remove arr' (find_slot greater arr.idx 0 element arr.items) in
      (back.idx ≡ arr.idx) × (oarray_get back j ≡ oarray_get arr j)
unfolding oarray_get
oarray_remove-insert greater arr element j h small k =
    let (returned, slot, ins) = oarray_insert_lem greater arr element h small in
    let arr' = (oarray_insert greater arr element).1 in
    let itr = find_slot greater arr.idx 0 element arr.items in
    let (count, at) =
      oarray_remove_lem arr' itr j (omega (arith, slot.upto, ins.count))
        (omega (arith, ins.count)) in
    let moved : itr ≤ j → arr'.items (j + 1) ≡ arr.items j = λ le.
      ins.moved (j + 1) (omega arith) (omega (arith, ins.count)) ∙ ap arr.items (omega arith) in
    (omega (arith, ins.count), ground (arith, at, count, ins.count, ins.before j, moved))
