-- ===== src/Mem/Virt/Level.antt =====
-- One level of the tables: what `virt_get_next_map_level` returns and writes.
use twos.Base.{
  ℕ, zero, suc, ◌+◌, ◌-◌, ◌*◌, ◌/◌, ◌%◌, ◌^◌, ◌<◌, ◌≤◌, ◌≡◌, ◌≢◌, ◌⊎◌, ◌∙◌, refl, ap, ◌==◌, leb,
  true, false, some, Memory, load, store, store_outside, load-store_apart, load-store_self, u64,
  bit_and, bit_or, bit_or_disjoint, bit_and-low_mask, bit_and_high, arith,
}
use twos.Mem.Virt.{
  Vmm, with_mem, kernel_vaddr, idx_offset, table_flags, first_block, next_block, take_table,
  new_page_table, virt_get_next_map_level,
}
use twos.Mem.Virt.Walk.{descend, table_address}

pub load-zero :
    (n a : ℕ) (mem : Memory) → ((b : ℕ) → a ≤ b → b < a + n → mem b ≡ 0) → load n a mem ≡ 0
unfolding load
load-zero zero a mem h = refl
load-zero (suc n) a mem h = omega (
  arith,
  h a (omega arith) (omega arith),
  load-zero n (a + 1) mem (λ b p q. h b (omega arith) (omega arith)),
)

-- The number of tables of the block that are gone.
abbrev pub used : Vmm → ℕ
used s = load 8 (s.cur + idx_offset) s.mem

-- The current block lies in the window, page by page, has `n` tables left, and they are zero.
pub record HasTables (n : ℕ) (s : Vmm) : Type 0 where
  pub from : kernel_vaddr ≤ s.cur
  pub upto : s.cur + 2 ^ 21 ≤ 2 ^ 64
  pub aligned : (s.cur - kernel_vaddr) % 4096 ≡ 0
  pub room : used s + n ≤ 511
  pub clear : (b : ℕ) → s.cur + 4096 * used s ≤ b → b < s.cur + idx_offset → s.mem b ≡ 0

-- The eight bytes at an address lie outside the block, or in tables that are gone.
abbrev pub IsApart : Vmm → ℕ → Type 0
IsApart s a = (a + 8 ≤ s.cur + 4096 * used s) ⊎ (s.cur + 2 ^ 21 ≤ a)

-- A table is taken: the second of those left, the count goes up by two, and no other byte changes.
module _ (n : ℕ) (s : Vmm) (r : HasTables (n + 2) s) where
  abbrev taken : Vmm
  taken = (take_table s).1

  take_table_at : (take_table s).0 ≡ s.cur + 4096 * (used s + 1)
  unfolding take_table
  take_table_at =
      omega (
        arith,
        load-store_self 8 (s.cur + idx_offset) (u64 (used s + 1)) s.mem (omega arith),
        r.room,
      )

  take_table-cur : taken.cur ≡ s.cur
  unfolding take_table
  take_table-cur = refl

  take_table-used : load 8 (s.cur + idx_offset) taken.mem ≡ used s + 2
  unfolding take_table
  take_table-used =
      let at = s.cur + idx_offset in
      let mem₁ = store 8 at (u64 (used s + 1)) s.mem in
      omega (
        arith,
        load-store_self 8 at (u64 (used s + 1)) s.mem (omega arith),
        load-store_self 8 at (u64 (load 8 at mem₁ + 1)) mem₁ (omega arith),
        r.room,
      )

  take_table-keeps :
      (b : ℕ) → (b < s.cur + idx_offset) ⊎ (s.cur + idx_offset + 8 ≤ b) → taken.mem b ≡ s.mem b
  unfolding take_table
  take_table-keeps b h =
      let at = s.cur + idx_offset in
      let mem₁ = store 8 at (u64 (used s + 1)) s.mem in
      store_outside 8 at (u64 (load 8 at mem₁ + 1)) mem₁ b h
      ∙ store_outside 8 at (u64 (used s + 1)) s.mem b h

  new_page_table_lem : new_page_table s ≡ some (take_table s)
  unfolding new_page_table first_block next_block
  new_page_table_lem =
      let cur : (s.cur == 0) ≡ false = ground (arith, r.from) in
      let room : leb 511 (used s) ≡ false = ground (arith, r.room) in rw cur (rw room refl)

-- What a step down the tables leaves: the processor takes the same step, and no byte is written but
-- the entry and the count of tables.
pub record Leads (s s' : Vmm) (table index next : ℕ) : Type 0 where
  pub descends : descend table index s'.mem ≡ some next
  pub same_cur : s'.cur ≡ s.cur
  pub keeps :
      (b : ℕ)
      → (b < table + 8 * index) ⊎ (table + 8 * index + 8 ≤ b)
      → (b < s.cur + idx_offset) ⊎ (s.cur + idx_offset + 8 ≤ b)
      → s'.mem b ≡ s.mem b

-- The entry for a table at `npt`.
new_entry_lem :
    (npt : ℕ)
    → kernel_vaddr ≤ npt
    → npt < 2 ^ 64
    → (npt - kernel_vaddr) % 4096 ≡ 0
    → bit_or (u64 (npt + 2 ^ 64 - kernel_vaddr)) table_flags ≡ npt - kernel_vaddr + 3
new_entry_lem npt h h' al =
    let ph : u64 (npt + 2 ^ 64 - kernel_vaddr) ≡ (npt - kernel_vaddr) / 4096 * 2 ^ 12 =
      omega arith in
    ap (λ x. bit_or x 3) ph
    ∙ bit_or_disjoint 12 ((npt - kernel_vaddr) / 4096) 3 (omega arith)
    ∙ omega arith

descend_lem :
    (table index entry : ℕ) (mem : Memory)
    → load 8 (table + 8 * index) mem ≡ entry
    → entry % 2 ≡ 1
    → entry / 2 ^ 7 % 2 ≡ 0
    → descend table index mem ≡ some (u64 (table_address entry + kernel_vaddr))
unfolding descend
descend_lem table index entry mem e odd small =
    let test : (load 8 (table + 8 * index) mem % 2 == 0) ≡ false = ground (arith, e, odd) in
    let names : (load 8 (table + 8 * index) mem / 2 ^ 7 % 2 == 0) ≡ true =
      ground (arith, e, small) in
    rw (test, names) (ap (λ x. some (u64 (table_address x + kernel_vaddr))) e)

module _ (n : ℕ) (s : Vmm) (table index : ℕ) (r : HasTables (n + 2) s) (there : table ≢ 0)
    (apart : IsApart s (table + 8 * index)) where
  -- An entry that is not present gets a new table, all zero.
  pub next_level-fresh :
      load 8 (table + 8 * index) s.mem % 2 ≡ 0
      → let next = s.cur + 4096 * (used s + 1) in
        (s' : Vmm) × (virt_get_next_map_level table index table_flags s ≡ some (next, s'))
        × Leads s s' table index next
        × HasTables n s'
        × (used s' ≡ used s + 2)
  unfolding virt_get_next_map_level
  next_level-fresh absent =
      let slot = table + 8 * index in
      let at = s.cur + idx_offset in
      let next = s.cur + 4096 * (used s + 1) in
      let npt = (take_table s).0 in
      let s₁ = (take_table s).1 in
      let new_entry = bit_or (u64 (npt + 2 ^ 64 - kernel_vaddr)) table_flags in
      let mem' = store 8 slot new_entry s₁.mem in
      let npt_at : npt ≡ next = take_table_at n s r in
      let entry : new_entry ≡ next - kernel_vaddr + 3 =
        ap (λ p. bit_or (u64 (p + 2 ^ 64 - kernel_vaddr)) table_flags) npt_at
        ∙ new_entry_lem next (omega (arith, r.from)) (omega (arith, r.upto, r.room))
            (omega (arith, r.from, r.aligned)) in
      let read : load 8 slot mem' ≡ next - kernel_vaddr + 3 =
        load-store_self 8 slot new_entry s₁.mem (omega (arith, entry, r.upto, r.room)) ∙ entry in
      let cur : s₁.cur ≡ s.cur = take_table-cur n s r in
      let s' = with_mem s₁ mem' in
      let now : used s' ≡ used s + 2 =
        ap (λ c. load 8 (c + idx_offset) mem') cur
        ∙ load-store_apart 8 at 8 slot new_entry s₁.mem (omega (arith, apart, r.room))
        ∙ take_table-used n s r in
      let keeps : (b : ℕ)
          → (b < slot) ⊎ (slot + 8 ≤ b)
          → (b < at) ⊎ (at + 8 ≤ b)
          → mem' b ≡ s.mem b =
        λ b h h'. store_outside 8 slot new_entry s₁.mem b h ∙ take_table-keeps n s r b h' in
      let not_null : (table == 0) ≡ false = ground (arith, there) in
      let missing : (bit_and (load 8 slot s.mem) 1 == 0) ≡ true =
        ground (arith, bit_and-low_mask 1 (load 8 slot s.mem), absent) in
      (
        s',
        rw not_null (rw missing (rw (new_page_table_lem n s r) (ap (λ p. some (p, s')) npt_at))),
        record {
          descends =
              descend_lem table index (next - kernel_vaddr + 3) mem' read
                (omega (arith, r.from, r.aligned)) (omega (arith, r.from, r.aligned))
              ∙ ap some (omega (arith, r.from, r.upto, r.aligned, r.room));
          same_cur = cur;
          keeps = keeps;
        },
        record {
          from = omega (arith, cur, r.from);
          upto = omega (arith, cur, r.upto);
          aligned = omega (arith, cur, r.aligned);
          room = omega (arith, now, r.room);
          clear = λ b h h'.
              keeps b (omega (arith, apart, cur, now, h, h')) (omega (arith, cur, h'))
              ∙ r.clear b (omega (arith, cur, now, h)) (omega (arith, cur, h'));
        },
        now,
      )

-- A present entry for a table: an address below 2^52 on a page of 4 KiB, and flags without bit 7.
pub record IsEntry (entry : ℕ) : Type 0 where
  pub present : entry % 2 ≡ 1
  pub fits : entry < 2 ^ 52
  pub whole : entry / 512 % 8 ≡ 0
  pub small : entry / 2 ^ 7 % 2 ≡ 0

-- The table that an entry names, through the window.
abbrev pub named : ℕ → ℕ
named entry = u64 (table_address entry + kernel_vaddr)

-- The table of a present entry is the one that the processor goes to, and nothing is written.
pub next_level-present :
    (s : Vmm) (table index : ℕ)
    → table ≢ 0
    → let entry = load 8 (table + 8 * index) s.mem in
      IsEntry entry
      → (virt_get_next_map_level table index table_flags s ≡ some (named entry, s))
        × Leads s s table index (named entry)
unfolding virt_get_next_map_level
next_level-present s table index there e =
    let entry = load 8 (table + 8 * index) s.mem in
    let not_null : (table == 0) ≡ false = ground (arith, there) in
    let present : (bit_and entry 1 == 0) ≡ false =
      ground (arith, bit_and-low_mask 1 entry, e.present) in
    let masked : bit_and entry (2 ^ 64 - 1 - 0x1ff) ≡ table_address entry =
      ap (λ x. bit_and x (2 ^ 64 - 1 - 0x1ff)) (omega arith)
      ∙ bit_and_high 9 (entry / 512) (entry % 512) (2 ^ 55 - 1) (omega arith)
      ∙ omega (arith, bit_and-low_mask 55 (entry / 512), e.fits, e.whole) in
    (
      rw not_null (rw present (ap (λ x. some (u64 (x + kernel_vaddr), s)) masked)),
      record {
        descends = descend_lem table index entry s.mem refl e.present e.small;
        same_cur = refl;
        keeps = λ b h h'. refl;
      },
    )
