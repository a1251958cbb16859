-- ===== src/Mem/Virt.antt =====
-- The page tables: src/kernel/mem/virtmem.c. Memory is what the kernel's window shows: the byte of
-- physical memory at p stands at `kernel_vaddr` + p. `none` stands for a panic, a failed assertion
-- and for what C leaves undefined. Flushing the processor's cache of translations is left out.
pub mod Walk
pub mod Level
pub mod Way
pub mod Map
pub mod Frame
use twos.Base.{
  ℕ, zero, suc, ◌+◌, ◌-◌, ◌*◌, ◌^◌, ◌==◌, leb, ltb, if◌then◌else◌, Option, none, some, ◌>>=◌,
  Memory, load, store, u64, ◌>>>◌, bit_and, bit_or,
}
use twos.Kstd.Copy.{memset}
use twos.Mem.Page.{page_size, page_align}
use twos.Mem.Phys.{Physmem}
use twos.Mem.Phys.Alloc.{phys_malloc}

-- `KERNEL_VADDR` of include/kernel/kernel.h.
abbrev pub kernel_vaddr : ℕ
kernel_vaddr = 0xffffffff80000000

abbrev pub page_index_mask : ℕ
page_index_mask = 0x1FF

abbrev pub page_present_flag : ℕ
page_present_flag = 1

abbrev pub page_write_flag : ℕ
page_write_flag = 2

abbrev pub page_size_2mb : ℕ
page_size_2mb = 128

abbrev pub page_default : ℕ
page_default = bit_or (bit_or page_size_2mb page_present_flag) page_write_flag

-- `sizeof(page_table_t)`.
abbrev pub page_table_size : ℕ
page_table_size = 4096

-- Offsets in `pt_alloc_t`, behind its 511 tables.
abbrev pub idx_offset : ℕ
idx_offset = 511 * 4096

abbrev pub prev_offset : ℕ
prev_offset = 511 * 4096 + 8

abbrev pub next_offset : ℕ
next_offset = 511 * 4096 + 16

-- Memory, the page bitmap, and the static `cur` of `new_page_table`.
pub record Vmm : Type 0 where
  pub mem : Memory
  pub physmem : Physmem
  pub cur : ℕ

abbrev pub with_mem : Vmm → Memory → Vmm
with_mem s mem = record s { mem = mem }

-- The loop that clears the tables of a block, with `left` to go.
unfoldable pub clear_dirs : ℕ → ℕ → Memory → Memory
clear_dirs zero dir mem = mem
clear_dirs (suc left) dir mem =
    clear_dirs left (dir + page_table_size) (memset page_table_size dir 0 mem)

-- The physical address of a new block.
unfoldable pub alloc_pt_block : Vmm → Option (ℕ × Vmm)
alloc_pt_block s = phys_malloc page_size s.physmem >>= λ (page, physmem').
    let block = u64 (kernel_vaddr + page) in
    let mem' = clear_dirs 512 block (memset page_size block 0 s.mem) in
    if page == 0 then none else some (page, record s { mem = mem'; physmem = physmem' })

-- The first block of all.
unfoldable pub first_block : Vmm → Option Vmm
first_block s =
    let fresh =
      alloc_pt_block s >>= λ (page, s'). some (record s' { cur = u64 (page + kernel_vaddr) }) in
    if s.cur == 0 then fresh else some s

-- A further block where the current one is full, linked to it both ways.
unfoldable pub next_block : Vmm → Option Vmm
next_block s =
    let fresh = alloc_pt_block s >>= λ (page, s').
    let cur' = u64 (page + kernel_vaddr) in
    let mem' = store 8 (cur' + prev_offset) s.cur (store 8 (s.cur + next_offset) cur' s'.mem) in
    some (record s' { mem = mem'; cur = cur' }) in
    if leb 511 (load 8 (s.cur + idx_offset) s.mem) then fresh else some s

-- The message counts `idx` up as well as the result does, so every second table is given.
unfoldable pub take_table : Vmm → ℕ × Vmm
take_table s =
    let at = s.cur + idx_offset in
    let idx = load 8 at s.mem in
    let mem₁ = store 8 at (u64 (idx + 1)) s.mem in
    let idx₁ = load 8 at mem₁ in
    (s.cur + page_table_size * idx₁, with_mem s (store 8 at (u64 (idx₁ + 1)) mem₁))

unfoldable pub new_page_table : Vmm → Option (ℕ × Vmm)
new_page_table s = first_block s >>= λ s₁. next_block s₁ >>= λ s₂. some (take_table s₂)

-- The table that an entry names, and a new one, with its entry, where the entry is not present.
unfoldable pub virt_get_next_map_level : ℕ → ℕ → ℕ → Vmm → Option (ℕ × Vmm)
virt_get_next_map_level page_directory index flags s =
    let slot = page_directory + 8 * index in
    let entry = load 8 slot s.mem in
    let fresh = new_page_table s >>= λ (npt, s').
    let new_entry = bit_or (u64 (npt + 2 ^ 64 - kernel_vaddr)) flags in
    some (npt, with_mem s' (store 8 slot new_entry s'.mem)) in
    if page_directory == 0
    then none
    else if bit_and entry 1 == 0
    then fresh
    else some (u64 (bit_and entry (2 ^ 64 - 1 - 0x1ff) + kernel_vaddr), s)

-- The places of an address in the tables of the fourth, third and second level.
abbrev pub table_index : ℕ → ℕ → ℕ
table_index shift virt = bit_and (virt >>> shift) page_index_mask

abbrev pub table_flags : ℕ
table_flags = bit_or page_present_flag page_write_flag

unfoldable pub virt_map_page : ℕ → ℕ → ℕ → ℕ → Vmm → Option (ℕ × Vmm)
virt_map_page pt phys virt flags s =
    let virt' = page_align virt in
    let phys' = page_align phys in
    virt_get_next_map_level pt (table_index 39 virt') table_flags s >>= λ (p3, s₁).
    virt_get_next_map_level p3 (table_index 30 virt') table_flags s₁ >>= λ (p2, s₂).
    let mem' = store 8 (p2 + 8 * table_index 21 virt') (bit_or phys' flags) s₂.mem in
    some (virt', with_mem s₂ mem')

unfoldable pub virt_unmap_page : ℕ → ℕ → Vmm → Option Vmm
virt_unmap_page pt virt s = virt_map_page pt 0 virt 0 s >>= λ (_, s'). some s'

-- `get_cr3()` is the processor's register.
abbrev pub virt_current_pd : ℕ → ℕ
virt_current_pd cr3 = u64 (cr3 + kernel_vaddr)

-- The loop over the pages of the framebuffer, from page `i` on.
unfoldable pub map_framebuffer : ℕ → ℕ → ℕ → ℕ → Vmm → Option Vmm
map_framebuffer zero i pt fb_addr s = some s
map_framebuffer (suc left) i pt fb_addr s =
    let addr = u64 (fb_addr + i * page_size) in
    let flags = bit_or (bit_or page_size_2mb page_present_flag) page_write_flag in
    virt_map_page pt addr addr flags s >>= λ (_, s'). map_framebuffer left (i + 1) pt fb_addr s'

-- `virtmem_init` with the framebuffer's address, height and pitch.
unfoldable pub virtmem_init : ℕ → ℕ → ℕ → ℕ → Vmm → Option Vmm
virtmem_init cr3 fb_addr h pitch s = phys_malloc (page_size * 64) s.physmem >>= λ (addr, physmem').
    let s₁ : Vmm = record s { physmem = physmem' } in
    let mapped = map_framebuffer 4 0 (virt_current_pd cr3) fb_addr s₁ in
    if ltb (u64 (h * pitch)) (page_size * 4) then mapped else none
