-- ===== src/Mem/Virt/Walk.antt =====
-- How the processor translates an address through tables of 2 MiB pages, as its manual has it. An entry
-- of an upper level with bit 7 set names no table: it is reserved in the fourth level, and a page of
-- 1 GiB in the third, which is left out, as is that the upper 16 bits of an address repeat bit 47.
use twos.Base.{
  ℕ, ◌+◌, ◌*◌, ◌/◌, ◌%◌, ◌^◌, ◌==◌, if◌then◌else◌, Option, none, some, ◌>>=◌, Memory, load, u64,
}
use twos.Mem.Virt.{kernel_vaddr}

-- The part of an entry that is an address, its bits 12 to 51.
abbrev pub table_address : ℕ → ℕ
table_address entry = entry / 4096 % 2 ^ 40 * 4096

-- The table that an entry names, seen through the kernel's window, if the entry is present and names
-- one.
unfoldable pub descend : ℕ → ℕ → Memory → Option ℕ
descend table index mem =
    let entry = load 8 (table + 8 * index) mem in
    if entry % 2 == 0
    then none
    else if entry / 2 ^ 7 % 2 == 0
    then some (u64 (table_address entry + kernel_vaddr))
    else none

-- The physical address of `virt`: the entry of the second level has to be present and to name a
-- page, bit 7, whose frame is in the bits 21 to 51.
unfoldable pub translate : Memory → ℕ → ℕ → Option ℕ
unfolding descend
translate mem pt virt = descend pt (virt / 2 ^ 39 % 512) mem >>= λ p3.
    descend p3 (virt / 2 ^ 30 % 512) mem >>= λ p2.
    let entry = load 8 (p2 + 8 * (virt / 2 ^ 21 % 512)) mem in
    if entry % 2 == 0
    then none
    else if entry / 2 ^ 7 % 2 == 0
    then none
    else some (entry / 2 ^ 21 % 2 ^ 31 * 2 ^ 21 + virt % 2 ^ 21)
