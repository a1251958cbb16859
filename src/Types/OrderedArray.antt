-- ===== src/Types/OrderedArray.antt =====
-- The ordered array of include/kernel/types/orderedarray.h: pointers kept in the order that
-- `bgreater` gives. `items` is a flexible array, so its slots are raw memory past the header.
pub mod Order
pub mod Remove
use twos.Base.{
  ℕ, zero, suc, ◌+◌, ◌-◌, ◌*◌, ◌/◌, ◌%◌, ◌^◌, Bool, true, false, ◌==◌, ◌&&◌, not, ltb, leb,
  if◌then◌else◌, u32, update,
}

pub record OArray : Type 0 where
  pub max_size_bytes : ℕ
  pub max_elements : ℕ
  pub idx : ℕ
  pub items : ℕ → ℕ

-- `sizeof(oarray_t)`: three function pointers, a u64 and two u32.
abbrev pub oarray_header_size : ℕ
oarray_header_size = 48

-- The slots hold whatever the memory held.
unfoldable pub oarray_init : ℕ → (ℕ → ℕ) → OArray
oarray_init size raw = record {
  max_size_bytes = size;
  max_elements = (2 ^ 64 + size - oarray_header_size) % 2 ^ 64 / 8 % 2 ^ 32;
  idx = 0;
  items = raw;
}

-- `while (itr < idx) { itr++; swap(items[itr], displaced) }`, with `left` rounds to go.
unfoldable pub shift_up : ℕ → ℕ → ℕ → (ℕ → ℕ) → ℕ → ℕ
shift_up zero itr displaced items = items
shift_up (suc left) itr displaced items =
    shift_up left (itr + 1) (items (itr + 1)) (update items (itr + 1) displaced)

-- `bgreater` reads the objects that the pointers name: it is an argument.
module _ (greater : ℕ → ℕ → Bool) where
  -- `while (itr < idx && !bgreater(items[itr], element)) itr++`, with `left` slots to go.
  unfoldable pub find_slot : ℕ → ℕ → ℕ → (ℕ → ℕ) → ℕ
  find_slot zero itr element items = itr
  find_slot (suc left) itr element items =
      let next = find_slot left (itr + 1) element items in
      if greater (items itr) element then itr else next

  -- The pointer returned is 0 when the array is full.
  unfoldable pub oarray_insert : OArray → ℕ → ℕ × OArray
  oarray_insert arr element =
      if leb arr.max_elements arr.idx
      then (0, arr)
      else let itr = find_slot arr.idx 0 element arr.items in
        if itr == arr.idx
        then (
          element,
          record arr { idx = u32 (arr.idx + 1); items = update arr.items arr.idx element },
        )
        else (
          element,
          record arr {
            idx = u32 (arr.idx + 1);
            items = shift_up (arr.idx - itr) itr (arr.items itr) (update arr.items itr element);
          },
        )

-- `while (idx < map->idx) { items[idx] = items[idx + 1]; idx++; }`, with `left` rounds to go.
unfoldable pub shift_down : ℕ → ℕ → (ℕ → ℕ) → ℕ → ℕ
shift_down zero idx items = items
shift_down (suc left) idx items = shift_down left (idx + 1) (update items idx (items (idx + 1)))

unfoldable pub oarray_remove : OArray → ℕ → OArray
oarray_remove arr idx = record arr {
  idx = (arr.idx + 2 ^ 32 - 1) % 2 ^ 32;
  items = shift_down (arr.idx - idx) idx arr.items;
}

unfoldable pub oarray_get : OArray → ℕ → ℕ
oarray_get arr idx = if ltb arr.idx idx then 0 else arr.items idx
