-- ===== src/Device/Hpet.antt =====
-- src/kernel/timer/hpet.c: the timer, and waiting for it. The sizes of include/kernel/acpi/acpi_structs.h
-- place the address of its registers in the table.
pub mod Sleep
use twos.Base.{
  ℕ, zero, suc, ◌+◌, ◌-◌, ◌*◌, ◌/◌, ◌^◌, ◌==◌, ltb, if◌then◌else◌, Option, none, some, ◌>>=◌, List,
  [], ◌∷◌, load, u64, ◌>>>◌, bit_and, bit_or,
}
use twos.Acpi.{acpi_find_tbl}
use twos.Mem.Virt.{Vmm, virt_map_page, virt_current_pd, page_default}

-- Hardware with states S: what reading a 64-bit word of its memory gives and does, and writing one.
pub record Registers (S : Type 0) : Type 0 where
  pub read64 : ℕ → S → ℕ × S
  pub write64 : ℕ → ℕ → S → S

-- `hpet_inst_t` without the table, which only `hpet_init` reads.
pub record Hpet : Type 0 where
  pub tbl : ℕ
  pub f_per_tick : ℕ
  pub tick_per_us : ℕ

abbrev pub femtoseconds_per_microsecond : ℕ
femtoseconds_per_microsecond = 1000000000

abbrev pub enable_hpet : ℕ
enable_hpet = 1

abbrev pub enable_legacy_replace : ℕ
enable_legacy_replace = 2

-- The fields of `hpet_table_t`.
abbrev pub capabilities_offset : ℕ
capabilities_offset = 0

abbrev pub config_offset : ℕ
config_offset = 0x10

abbrev pub main_counter_offset : ℕ
main_counter_offset = 0xf0

-- `address_info.address` of `hpet_t`, behind the header, five bytes, and four of `address_info`.
abbrev pub hpet_address_offset : ℕ
hpet_address_offset = 44

module _ {S : Type 0} (registers : Registers S) where
  unfoldable pub hpet_timer_reset : Hpet → S → S
  hpet_timer_reset hpet s = registers.write64 (hpet.tbl + main_counter_offset) 0 s

  unfoldable pub hpet_timer_start : Hpet → S → S
  hpet_timer_start hpet s =
      let config = registers.read64 (hpet.tbl + config_offset) s in
      registers.write64 (hpet.tbl + config_offset) (bit_or (config.0) enable_hpet) (config.1)

  unfoldable pub hpet_timer_poll_ticks : Hpet → S → ℕ × S
  hpet_timer_poll_ticks hpet s = registers.read64 (hpet.tbl + main_counter_offset) s

  unfoldable pub hpet_timer_poll_time : Hpet → S → ℕ × S
  hpet_timer_poll_time hpet s =
      let counter = registers.read64 (hpet.tbl + main_counter_offset) s in
      (u64 (counter.0 * hpet.f_per_tick), counter.1)

  -- The loop of `usleep`, at most `fuel` rounds of it.
  unfoldable pub wait_until : ℕ → Hpet → ℕ → S → Option S
  wait_until zero hpet time s = none
  wait_until (suc fuel) hpet time s =
      let now = hpet_timer_poll_time hpet s in
      let rest = wait_until fuel hpet time (now.1) in
      if ltb (now.0) time then rest else some (now.1)

  unfoldable pub usleep : ℕ → Hpet → ℕ → S → Option S
  usleep fuel hpet us s =
      wait_until fuel hpet (u64 (femtoseconds_per_microsecond * us))
        (hpet_timer_start hpet (hpet_timer_reset hpet s))

  -- `xsdt` is the root table, and `cr3` the processor's register. `none` stands for the panics and
  -- for the division by a period of zero.
  unfoldable pub hpet_init : ℕ → ℕ → Vmm → S → Option (Hpet × Vmm × S)
  hpet_init xsdt cr3 vmm s = acpi_find_tbl (b'H' ∷ b'P' ∷ b'E' ∷ b'T' ∷ []) xsdt vmm.mem >>= λ sdt.
      virt_map_page (virt_current_pd cr3) sdt sdt page_default vmm >>= λ (_, vmm').
      let tbl = load 8 (sdt + hpet_address_offset) vmm'.mem in
      let capabilities = registers.read64 (tbl + capabilities_offset) s in
      let f_per_tick = capabilities.0 >>> 32 in
      let config = registers.read64 (tbl + config_offset) (capabilities.1) in
      let off = bit_and (config.0) (2 ^ 64 - 1 - bit_or enable_legacy_replace enable_hpet) in
      let hpet : Hpet = record {
        tbl = tbl;
        f_per_tick = f_per_tick;
        tick_per_us = femtoseconds_per_microsecond / f_per_tick;
      } in
      if f_per_tick == 0
      then none
      else some (hpet, vmm', registers.write64 (tbl + config_offset) off (config.1))
