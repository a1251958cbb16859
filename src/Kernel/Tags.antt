-- ===== src/Kernel/Tags.antt =====
-- The boot loader's tags, as `kmain` handles them. The tags stand in memory, with the layout of
-- the boot protocol's structs. `none` stands for a panic and for what C leaves undefined. The
-- messages are left out.
use twos.Base.{
  ℕ, zero, suc, ◌+◌, ◌-◌, ◌/◌, ◌^◌, ◌==◌, ◌&&◌, ◌||◌, not, ltb, if◌then◌else◌, Bool, false, Option,
  none, some, ◌>>=◌, List, [], ◌∷◌, Memory, load, u8, u32, u64, bit_and,
}
use twos.Acpi.{rsdp_revision, acpi_validate_rsdp}
use twos.Boot.Cmdline.{
  Cmdline, Parsed, parsed, overflow, out_of_fuel, cmdline_parse, cmdline_getarg, cmdline_hasarg,
  cmdline_no_arg,
}
use twos.Mem.Phys.{Physmem, Mmap}
use twos.Mem.Phys.Init.{physmem_init}

-- `kboot.fb`.
pub record Fb : Type 0 where
  pub ptr : ℕ
  pub addr : ℕ
  pub w : ℕ
  pub h : ℕ
  pub pitch : ℕ
  pub bpp : ℕ

-- `kboot`, without the fields that nothing writes.
pub record KernelBoot : Type 0 where
  pub use_serial : Bool
  pub level : ℕ
  pub mmap_size : ℕ
  pub fb : Fb
  pub is_legacy_bios : Bool

-- What the loop over the tags changes: `kboot`, the arguments, `total_mem`, `rsdp`, the page bitmap.
pub record Boot : Type 0 where
  pub kboot : KernelBoot
  pub cmdline : Cmdline
  pub total_mem : ℕ
  pub rsdp : ℕ
  pub physmem : Physmem

abbrev pub tag_type : ℕ → Memory → ℕ
tag_type tag mem = load 4 tag mem

abbrev pub tag_size : ℕ → Memory → ℕ
tag_size tag mem = load 4 (tag + 4) mem

-- `(tag->size + 7) & ~7` in 32 bits.
abbrev pub next_tag : ℕ → Memory → ℕ
next_tag tag mem = tag + bit_and (u32 (tag_size tag mem + 7)) (2 ^ 32 - 8)

-- `stag->size - sizeof(struct multiboot_tag)` as an `int`; below 0 it counts as 0.
abbrev pub string_len : ℕ → Memory → ℕ
string_len tag mem =
    let len = u32 (tag_size tag mem + 2 ^ 32 - 8) in if ltb len (2 ^ 31) then len else 0

unfoldable pub set_cmdline : Boot → Cmdline → Boot
set_cmdline b c =
    let serial = b's' ∷ b'e' ∷ b'r' ∷ b'i' ∷ b'a' ∷ b'l' ∷ [] in
    let dbg = b'd' ∷ b'b' ∷ b'g' ∷ [] in
    let k : KernelBoot = record b.kboot {
      use_serial = not (cmdline_getarg serial c == cmdline_no_arg);
      level = if cmdline_hasarg dbg c then u8 (cmdline_getarg dbg c) else 0;
    } in
    let b' : Boot = record b { cmdline = c } in
    if c.num_args == 0 then b' else record b { cmdline = c; kboot = k }

unfoldable pub take_parsed : Boot → Parsed → Option Boot
take_parsed b (parsed c) = some (set_cmdline b c)
take_parsed b overflow = none
take_parsed b out_of_fuel = none

unfoldable pub on_cmdline : ℕ → Memory → Boot → Option Boot
on_cmdline tag mem b = take_parsed b (cmdline_parse (string_len tag mem) (λ i. mem (tag + 8 + i)))

abbrev pub framebuffer_of : ℕ → Memory → Fb
framebuffer_of tag mem = record {
  ptr = 0;
  addr = load 8 (tag + 8) mem;
  w = load 4 (tag + 20) mem;
  h = load 4 (tag + 24) mem;
  pitch = load 4 (tag + 16) mem;
  bpp = mem (tag + 28);
}

-- The test that lets a framebuffer be passed over.
abbrev pub is_no_framebuffer : Fb → Bool
is_no_framebuffer fb =
    (fb.addr == 0) || (ltb 0x100000000000 fb.addr || (ltb fb.w 64 || ltb fb.h 64))

unfoldable pub on_framebuffer : ℕ → Memory → Boot → Boot
on_framebuffer tag mem b =
    let fb = framebuffer_of tag mem in
    let k : KernelBoot = record b.kboot { fb = fb } in
    if is_no_framebuffer fb then b else record b { kboot = k }

-- The entries of a memory map, of 24 bytes each.
unfoldable pub mmap_entries : ℕ → ℕ → Memory → List Mmap
mmap_entries zero a mem = []
mmap_entries (suc n) a mem =
    record { addr = load 8 a mem; len = load 8 (a + 8) mem; type = load 4 (a + 16) mem }
    ∷ mmap_entries n (a + 24) mem

-- `(mmaps->size - sizeof(struct multiboot_tag_mmap)) / entry_size`, in 64 bits.
abbrev pub mmap_count : ℕ → Memory → ℕ
mmap_count tag mem = u64 (tag_size tag mem + 2 ^ 64 - 16) / load 4 (tag + 8) mem

module _ (wide : ℕ → ℕ) where
  unfoldable pub on_mmap : ℕ → Memory → Boot → Option Boot
  on_mmap tag mem b =
      let n = mmap_count tag mem in
      let k : KernelBoot = record b.kboot { mmap_size = n } in
      let init = physmem_init wide (mmap_entries n (tag + 16) mem) n >>= λ (total, m).
      if total == 0 then none else some (record b { kboot = k; total_mem = total; physmem = m }) in
      if load 4 (tag + 8) mem == 0 then none else init

  unfoldable pub on_efi : Boot → Boot
  on_efi b =
      let k : KernelBoot = record b.kboot { is_legacy_bios = false } in record b { kboot = k }

  unfoldable pub on_acpi : ℕ → Memory → Boot → Option Boot
  on_acpi tag mem b =
      let new = tag + 8 in
      let older = ltb (rsdp_revision new mem) (rsdp_revision b.rsdp mem) in
      let taken = if acpi_validate_rsdp new mem then some (record b { rsdp = new }) else none in
      if not (b.rsdp == 0) && older then some b else taken

  -- The `switch`. The name of the boot loader falls through into the framebuffer.
  unfoldable pub on_tag : ℕ → Memory → Boot → Option Boot
  on_tag tag mem b =
      let type = tag_type tag mem in
      if type == 1
      then on_cmdline tag mem b
      else if (type == 2) || (type == 8)
      then some (on_framebuffer tag mem b)
      else if type == 6
      then on_mmap tag mem b
      else if (type == 18) || ((type == 17) || ((type == 11) || (type == 12)))
      then some (on_efi b)
      else if (type == 15) || (type == 14)
      then on_acpi tag mem b
      else some b

  -- The loop, at most `fuel` tags.
  unfoldable pub walk_tags : ℕ → ℕ → Memory → Boot → Option Boot
  walk_tags zero tag mem b = none
  walk_tags (suc fuel) tag mem b =
      let rest = on_tag tag mem b >>= walk_tags fuel (next_tag tag mem) mem in
      if tag_type tag mem == 0 then some b else rest
