-- ===== src/Tests/OrderedArray.antt =====
-- The ordered array of include/kernel/types/orderedarray.h on small inputs.
use twos.Base.{ltb, ℕ, ◌+◌, ◌*◌, ◌≡◌, refl, Bool, arith}
use twos.Types.OrderedArray.{OArray, find_slot, oarray_insert, oarray_remove, oarray_get}
use twos.Types.OrderedArray.Order.{
  IsSlot, IsInserted, oarray_insert_lem, IsOrdered, oarray_insert-IsOrdered,
}
use twos.Types.OrderedArray.Remove.{oarray_remove-insert}

-- The elements stand for themselves.
abbrev greater : ℕ → ℕ → Bool
greater a b = ltb b a

abbrev key : ℕ → ℕ
key a = a

-- The elements 1, 3, 5 and 7.
abbrev four : OArray
four = record { max_size_bytes = 96; max_elements = 6; idx = 4; items = λ j. 2 * j + 1 }

four-IsOrdered : IsOrdered key four
four-IsOrdered i j h h' = omega (arith, h)

oarray_insert_example :
    ((oarray_insert greater four 4).0 ≡ 4)
    × IsSlot greater 0 4 4 (four.items) (find_slot greater 4 0 4 (four.items))
    × IsInserted 4 (find_slot greater 4 0 4 (four.items)) four ((oarray_insert greater four 4).1)
oarray_insert_example = oarray_insert_lem greater four 4 (omega arith) (omega arith)

oarray_insert-IsOrdered_example : IsOrdered key ((oarray_insert greater four 4).1)
oarray_insert-IsOrdered_example =
    oarray_insert-IsOrdered greater key (λ a b. refl) four 4 (omega arith) (omega arith)
      four-IsOrdered

oarray_remove-insert_example :
    let arr' = (oarray_insert greater four 4).1 in
    let back = oarray_remove arr' (find_slot greater 4 0 4 (four.items)) in
    (back.idx ≡ 4) × (oarray_get back 2 ≡ oarray_get four 2)
oarray_remove-insert_example =
    oarray_remove-insert greater four 4 2 (omega arith) (omega arith) (omega arith)
