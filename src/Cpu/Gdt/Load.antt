-- ===== src/Cpu/Gdt/Load.antt =====
-- `make_tss` and `init_gdt_tss` of src/boot/gdt.c: the TSS and its descriptor in memory.
use twos.Base.{
  ℕ, ◌+◌, ◌-◌, ◌^◌, ◌≤◌, ◌<◌, ◌≡◌, ◌⊎◌, ◌∙◌, ap, ◌==◌, leb, ltb, if◌then◌else◌, true, false, Option,
  none, some, List, [], ◌∷◌, ◌++◌, u64, Memory, load, store, load_ext, store_outside,
  load-store_self, load-store_apart, arith,
}
use twos.Cpu.Gdt.{
  tss_size, rsp_offset, tss_gdt_offset, GdtEntrySys, access_byte, make_tss_entry, init_gdt,
  descriptor_base, make_tss_entry_lem,
}
use twos.Cpu.Gdt.Dump.{gdt_entry_sys_at, access_of, dump_gdt}
use twos.Cpu.Log.{Line, line}
use twos.Kstd.Copy.{memset}
use twos.Kstd.Copy.Laws.{memset_outside, memset_at}

-- The copy of the 16 bytes of a descriptor to `p`.
unfoldable pub copy_entry : ℕ → GdtEntrySys → Memory → Memory
copy_entry p e mem = store 4 (p + 12) (e.reserved0) (
    store 4 (p + 8) (e.base_31_64) (
      store 1 (p + 7) (e.base_24_31) (
        store 1 (p + 6) (e.flags) (
          store 1 (p + 5) (access_byte (e.access)) (
            store 1 (p + 4) (e.base_16_23)
              (store 2 (p + 2) (e.base_0_15) (store 2 p (e.size) mem)))))))

-- `tss` is the address of `task_state_segment`.
unfoldable pub make_tss : ℕ → ℕ → ℕ → Memory → Memory
make_tss gdt_tss_ptr tss kernel_stack mem =
    let mem' = store 8 (tss + rsp_offset) kernel_stack (memset tss_size tss 0 mem) in
    copy_entry gdt_tss_ptr (make_tss_entry tss) mem'

-- What `init_gdt_tss` prints, with memory before and after.
unfoldable pub gdt_lines : ℕ → ℕ → Memory → Memory → List Line
gdt_lines dump gdt_ptr mem mem' =
    let before = if leb 1 dump then dump_gdt gdt_ptr false mem else [] in
    let after = if ltb 1 dump then dump_gdt gdt_ptr true mem' else [] in
    line "==init GDT, TSS==" [] ∷ (before ++ line "==Reloaded GDT, Loaded TSS==" [] ∷ after)

module _ (load_tss : Memory → Memory) where
  -- `load_tss` is assembly: what the processor leaves in memory as it loads the TSS. The result is what
  -- is printed, and memory; `none` where the assertion fails.
  unfoldable pub init_gdt_tss : ℕ → ℕ → ℕ → ℕ → ℕ → Memory → Option (List Line × Memory)
  init_gdt_tss dump gdt_tss_ptr gdt_ptr tss kernel_stack mem =
      let mem' = load_tss (make_tss gdt_tss_ptr tss kernel_stack mem) in
      if init_gdt gdt_tss_ptr gdt_ptr then some (gdt_lines dump gdt_ptr mem mem', mem') else none

-- The fields of a descriptor fit the bytes that the packed struct gives them.
record IsPacked (e : GdtEntrySys) : Type 0 where
  size : e.size < 2 ^ 16
  low : e.base_0_15 < 2 ^ 16
  middle : e.base_16_23 < 2 ^ 8
  byte : access_byte (e.access) < 2 ^ 8
  high : e.base_24_31 < 2 ^ 8
  upper : e.base_31_64 < 2 ^ 32

-- The byte of the access bits gives them back.
access_byte-access_of : (b : ℕ) → b < 256 → access_byte (access_of b) ≡ b
unfolding access_byte access_of
access_byte-access_of b h = omega (arith, h)

-- A packed descriptor is read back as it was copied.
copy_entry_lem :
    (p : ℕ) (e : GdtEntrySys) (mem : Memory)
    → IsPacked e
    → (descriptor_base (gdt_entry_sys_at p (copy_entry p e mem)) ≡ descriptor_base e)
      × (access_byte ((gdt_entry_sys_at p (copy_entry p e mem)).access) ≡ access_byte (e.access))
      × ((gdt_entry_sys_at p (copy_entry p e mem)).size ≡ e.size)
unfolding copy_entry gdt_entry_sys_at
copy_entry_lem p e mem f =
    let o0 : load 2 p (copy_entry p e mem) ≡ e.size =
      load-store_apart 2 p 4 (p + 12) (e.reserved0) _ (omega arith)
      ∙ load-store_apart 2 p 4 (p + 8) (e.base_31_64) _ (omega arith)
      ∙ load-store_apart 2 p 1 (p + 7) (e.base_24_31) _ (omega arith)
      ∙ load-store_apart 2 p 1 (p + 6) (e.flags) _ (omega arith)
      ∙ load-store_apart 2 p 1 (p + 5) (access_byte (e.access)) _ (omega arith)
      ∙ load-store_apart 2 p 1 (p + 4) (e.base_16_23) _ (omega arith)
      ∙ load-store_apart 2 p 2 (p + 2) (e.base_0_15) _ (omega arith)
      ∙ load-store_self 2 p (e.size) _ (omega (arith, f.size)) in
    let o2 : load 2 (p + 2) (copy_entry p e mem) ≡ e.base_0_15 =
      load-store_apart 2 (p + 2) 4 (p + 12) (e.reserved0) _ (omega arith)
      ∙ load-store_apart 2 (p + 2) 4 (p + 8) (e.base_31_64) _ (omega arith)
      ∙ load-store_apart 2 (p + 2) 1 (p + 7) (e.base_24_31) _ (omega arith)
      ∙ load-store_apart 2 (p + 2) 1 (p + 6) (e.flags) _ (omega arith)
      ∙ load-store_apart 2 (p + 2) 1 (p + 5) (access_byte (e.access)) _ (omega arith)
      ∙ load-store_apart 2 (p + 2) 1 (p + 4) (e.base_16_23) _ (omega arith)
      ∙ load-store_self 2 (p + 2) (e.base_0_15) _ (omega (arith, f.low)) in
    let o4 : load 1 (p + 4) (copy_entry p e mem) ≡ e.base_16_23 =
      load-store_apart 1 (p + 4) 4 (p + 12) (e.reserved0) _ (omega arith)
      ∙ load-store_apart 1 (p + 4) 4 (p + 8) (e.base_31_64) _ (omega arith)
      ∙ load-store_apart 1 (p + 4) 1 (p + 7) (e.base_24_31) _ (omega arith)
      ∙ load-store_apart 1 (p + 4) 1 (p + 6) (e.flags) _ (omega arith)
      ∙ load-store_apart 1 (p + 4) 1 (p + 5) (access_byte (e.access)) _ (omega arith)
      ∙ load-store_self 1 (p + 4) (e.base_16_23) _ (omega (arith, f.middle)) in
    let o5 : load 1 (p + 5) (copy_entry p e mem) ≡ access_byte (e.access) =
      load-store_apart 1 (p + 5) 4 (p + 12) (e.reserved0) _ (omega arith)
      ∙ load-store_apart 1 (p + 5) 4 (p + 8) (e.base_31_64) _ (omega arith)
      ∙ load-store_apart 1 (p + 5) 1 (p + 7) (e.base_24_31) _ (omega arith)
      ∙ load-store_apart 1 (p + 5) 1 (p + 6) (e.flags) _ (omega arith)
      ∙ load-store_self 1 (p + 5) (access_byte (e.access)) _ (omega (arith, f.byte)) in
    let o7 : load 1 (p + 7) (copy_entry p e mem) ≡ e.base_24_31 =
      load-store_apart 1 (p + 7) 4 (p + 12) (e.reserved0) _ (omega arith)
      ∙ load-store_apart 1 (p + 7) 4 (p + 8) (e.base_31_64) _ (omega arith)
      ∙ load-store_self 1 (p + 7) (e.base_24_31) _ (omega (arith, f.high)) in
    let o8 : load 4 (p + 8) (copy_entry p e mem) ≡ e.base_31_64 =
      load-store_apart 4 (p + 8) 4 (p + 12) (e.reserved0) _ (omega arith)
      ∙ load-store_self 4 (p + 8) (e.base_31_64) _ (omega (arith, f.upper)) in
    (
      omega (arith, o0, o2, o4, o7, o8),
      ap (λ b. access_byte (access_of b)) o5 ∙ access_byte-access_of _ (omega (arith, f.byte)),
      o0,
    )

copy_entry_outside :
    (p : ℕ) (e : GdtEntrySys) (mem : Memory) (a : ℕ)
    → (a < p) ⊎ (p + 16 ≤ a)
    → copy_entry p e mem a ≡ mem a
unfolding copy_entry
copy_entry_outside p e mem a h =
    store_outside 4 (p + 12) (e.reserved0) _ a (omega arith)
    ∙ store_outside 4 (p + 8) (e.base_31_64) _ a (omega arith)
    ∙ store_outside 1 (p + 7) (e.base_24_31) _ a (omega arith)
    ∙ store_outside 1 (p + 6) (e.flags) _ a (omega arith)
    ∙ store_outside 1 (p + 5) (access_byte (e.access)) _ a (omega arith)
    ∙ store_outside 1 (p + 4) (e.base_16_23) _ a (omega arith)
    ∙ store_outside 2 (p + 2) (e.base_0_15) _ a (omega arith)
    ∙ store_outside 2 p (e.size) mem a (omega arith)

make_tss_entry-IsPacked : (addr : ℕ) → IsPacked (make_tss_entry addr)
unfolding make_tss_entry access_byte
make_tss_entry-IsPacked addr = record {
  size = omega arith;
  low = omega arith;
  middle = omega arith;
  byte = omega arith;
  high = omega arith;
  upper = omega arith;
}

-- What `make_tss` leaves for the processor to load: the descriptor at `p` gives the address of the TSS,
-- a present one of ring 0 with the limit 104; in the TSS the stack of ring 0 is the kernel's, and all
-- else is zero; nothing else has changed.
pub record IsLoadable (p tss kernel_stack : ℕ) (before after : Memory) : Type 0 where
  pub base : descriptor_base (gdt_entry_sys_at p after) ≡ tss
  pub access : access_byte ((gdt_entry_sys_at p after).access) ≡ 0x89
  pub limit : (gdt_entry_sys_at p after).size ≡ tss_size
  pub stack : load 8 (tss + rsp_offset) after ≡ kernel_stack
  pub zeros : (i : ℕ) → i < tss_size → (i < 4) ⊎ (12 ≤ i) → after (tss + i) ≡ 0
  pub kept :
      (a : ℕ) → (a < tss) ⊎ (tss + tss_size ≤ a) → (a < p) ⊎ (p + 16 ≤ a) → after a ≡ before a

make_tss-IsLoadable :
    (p tss kernel_stack : ℕ) (mem : Memory)
    → tss < 2 ^ 64
    → kernel_stack < 2 ^ 64
    → (tss + tss_size ≤ p) ⊎ (p + 16 ≤ tss)
    → IsLoadable p tss kernel_stack mem (make_tss p tss kernel_stack mem)
unfolding make_tss
make_tss-IsLoadable p tss kernel_stack mem h k apart =
    let e = make_tss_entry tss in
    let cleared = memset tss_size tss 0 mem in
    let mem' = store 8 (tss + rsp_offset) kernel_stack cleared in
    let (base, access, limit) = copy_entry_lem p e mem' (make_tss_entry-IsPacked tss) in
    let (right_base, right_access, right_limit) = make_tss_entry_lem tss h in
    record {
      base = base ∙ right_base;
      access = access ∙ right_access;
      limit = limit ∙ right_limit;
      stack =
          load_ext 8 (tss + rsp_offset) mem' (copy_entry p e mem')
            (λ b l u. copy_entry_outside p e mem' b (omega (arith, apart, l, u)))
          ∙ load-store_self 8 (tss + rsp_offset) kernel_stack cleared (omega (arith, k));
      zeros = λ i l u.
          copy_entry_outside p e mem' (tss + i) (omega (arith, apart, l))
          ∙ store_outside 8 (tss + rsp_offset) kernel_stack cleared (tss + i) (omega (arith, u))
          ∙ memset_at tss_size tss 0 mem i l;
      kept = λ a l u.
          copy_entry_outside p e mem' a u
          ∙ store_outside 8 (tss + rsp_offset) kernel_stack cleared a (omega (arith, l))
          ∙ memset_outside tss_size tss 0 mem a l;
    }

module _ (load_tss : Memory → Memory) where
  -- At addresses of 64 bits, where the TSS's descriptor stands 0x28 bytes behind the start of the table,
  -- as the assertion asks, and the TSS lies apart from the whole table: `init_gdt_tss` returns, whatever it is told to print,
  -- and hands the processor a memory with the TSS and its descriptor in it, in which the 0x28 bytes of
  -- the table's five segments and all bytes outside the table and the TSS are as they were.
  pub init_gdt_tss_lem :
      (dump gdt_ptr tss kernel_stack : ℕ) (mem : Memory)
      → gdt_ptr + tss_gdt_offset < 2 ^ 64
      → tss < 2 ^ 64
      → kernel_stack < 2 ^ 64
      → (tss + tss_size ≤ gdt_ptr) ⊎ (gdt_ptr + tss_gdt_offset + 16 ≤ tss)
      → (ready : Memory) × (init_gdt_tss load_tss dump
            (gdt_ptr + tss_gdt_offset)
            gdt_ptr
            tss
            kernel_stack
            mem
          ≡ some (gdt_lines dump gdt_ptr mem (load_tss ready), load_tss ready))
        × IsLoadable (gdt_ptr + tss_gdt_offset) tss kernel_stack mem ready
        × ((i : ℕ) → i < tss_gdt_offset → ready (gdt_ptr + i) ≡ mem (gdt_ptr + i))
  unfolding init_gdt_tss init_gdt
  init_gdt_tss_lem dump gdt_ptr tss kernel_stack mem g h k apart =
      let at = gdt_ptr + tss_gdt_offset in
      let loadable = make_tss-IsLoadable at tss kernel_stack mem h k (omega (arith, apart)) in
      let there : (u64 (at + 2 ^ 64 - gdt_ptr) == tss_gdt_offset) ≡ true = ground arith in
      (
        make_tss at tss kernel_stack mem,
        rw there,
        loadable,
        λ i l. loadable.kept (gdt_ptr + i) (omega (arith, apart, l)) (omega (arith, l)),
      )
