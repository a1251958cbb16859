-- ===== src/Tests/Virt.antt =====
-- The page tables of virtmem.c on concrete memory.
use twos.Base.{
  load, store, store_outside, ◌%◌, ◌≤◌, ◌∙◌, inr, ℕ, ◌+◌, ◌/◌, ◌^◌, ◌≡◌, refl, inl, some, [], arith,
}
use twos.Mem.Page.{page_align}
use twos.Mem.Virt.{kernel_vaddr, idx_offset, Vmm, virt_map_page}
use twos.Mem.Virt.Level.{load-zero}
use twos.Mem.Virt.Way.{CanMap, Spared}
use twos.Mem.Virt.Map.{page_seen, virt_map_page_lem}
use twos.Mem.Virt.Walk.{descend, translate}
use twos.Mem.Virt.Frame.{IsSlot, virt_map_page-frame}

-- Memory is zero, and the tables come from the block at 2 MiB.
abbrev fresh_vmm : Vmm
fresh_vmm = record {
  mem = λ _. 0;
  physmem = record { pmm = []; mmaps = []; size = 0; mm_end = 0; end_addr = 0; total_avail = 0 };
  cur = kernel_vaddr + 0x200000;
}

abbrev root_table : ℕ
root_table = kernel_vaddr + 0x1000

fresh_zero : (a : ℕ) → load 8 a fresh_vmm.mem ≡ 0
fresh_zero a = load-zero 8 a fresh_vmm.mem λ b h h'. refl

fresh_CanMap : CanMap root_table 0x40200000 fresh_vmm
fresh_CanMap =
    let unused = fresh_zero (kernel_vaddr + 0x200000 + idx_offset) in
    (
      ground arith,
      record {
        from = omega arith;
        upto = omega arith;
        aligned = ground arith;
        room = omega (arith, unused);
        clear = λ b h h'. refl;
      },
      inl (omega (arith, unused)),
      inl (omega (arith, fresh_zero root_table)),
    )

virt_map_page_example :
    (s' : Vmm) × (virt_map_page root_table 0x600000 0x40200000 131 fresh_vmm
      ≡ some (page_align 0x40200000, s'))
    × ((v : ℕ)
        → v / 2 ^ 21 ≡ 0x40200000 / 2 ^ 21
        → translate s'.mem root_table v ≡ page_seen 0x600000 131 v)
virt_map_page_example =
    virt_map_page_lem root_table 0x600000 0x40200000 131 fresh_vmm (omega arith) (omega arith)
      (omega arith) fresh_CanMap

-- Two tables stand on the way already.
abbrev two_tables : Vmm
two_tables = record fresh_vmm {
  mem = store 8 root_table 0x3003 (store 8 (kernel_vaddr + 0x3000) 0x4003 (λ b. 0));
}

two_tables-high : (b : ℕ) → kernel_vaddr + 0x4000 ≤ b → two_tables.mem b ≡ 0
two_tables-high b h =
    store_outside 8 root_table 0x3003 _ b (omega (arith, h))
    ∙ store_outside 8 (kernel_vaddr + 0x3000) 0x4003 (λ b. 0) b (omega (arith, h))

two_tables-CanMap : CanMap root_table 0x400000 two_tables
unfolding load store
two_tables-CanMap = (
  ground arith,
  record {
    from = omega arith;
    upto = omega arith;
    aligned = ground arith;
    room = omega arith;
    clear = λ b h h'. two_tables-high b (omega (arith, h));
  },
  omega arith,
  inr (
    record { present = refl; fits = omega arith; whole = refl; small = refl },
    ground arith,
    omega arith,
    omega arith,
    inr (
      record { present = refl; fits = omega arith; whole = refl; small = refl },
      omega arith,
      omega arith,
      omega arith,
    ),
  ),
)

frame_example :
    (s' : Vmm) × (virt_map_page root_table 0x800000 0x400000 131 two_tables
      ≡ some (page_align 0x400000, s'))
    × ((v q3 q2 : ℕ)
        → descend root_table (v / 2 ^ 39 % 512) two_tables.mem ≡ some q3
        → descend q3 (v / 2 ^ 30 % 512) two_tables.mem ≡ some q2
        → ((a : ℕ) → IsSlot root_table q3 q2 v a → Spared root_table 0x400000 two_tables a)
        → translate s'.mem root_table v ≡ translate two_tables.mem root_table v)
frame_example =
    virt_map_page-frame root_table 0x800000 0x400000 131 two_tables (omega arith) two_tables-CanMap

-- The next page, in the same tables, is spared.
next_page-Spared :
    (a : ℕ)
    → IsSlot root_table (kernel_vaddr + 0x3000) (kernel_vaddr + 0x4000) 0x600000 a
    → Spared root_table 0x400000 two_tables a
unfolding load store
next_page-Spared a at = (omega (arith, at), inr refl, inr (inr refl, inr (omega (arith, at))))

next_page_kept :
    (s' : Vmm) × (virt_map_page root_table 0x800000 0x400000 131 two_tables
      ≡ some (page_align 0x400000, s'))
    × (translate s'.mem root_table 0x600000 ≡ translate two_tables.mem root_table 0x600000)
unfolding descend load store
next_page_kept =
    let (s', maps, keeps) =
      virt_map_page-frame root_table 0x800000 0x400000 131 two_tables (omega arith)
        two_tables-CanMap in
    (s', maps, keeps 0x600000 _ _ refl refl next_page-Spared)
