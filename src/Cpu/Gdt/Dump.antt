-- ===== src/Cpu/Gdt/Dump.antt =====
-- `dump_gdt` of src/boot/gdt.c: the descriptors as they stand in memory, and their fields printed.
use Prim.Native.String.{String}
use twos.Base.{ℕ, ◌+◌, ◌*◌, ◌/◌, ◌%◌, Bool, if◌then◌else◌, List, [], ◌∷◌, ◌++◌, Memory, load}
use twos.Cpu.Gdt.{AccessBit, GdtEntrySys}
use twos.Cpu.Log.{Line, line}

pub record GdtEntry : Type 0 where
  pub limit_0_15 : ℕ
  pub base_0_15 : ℕ
  pub base_16_23 : ℕ
  pub access : AccessBit
  pub limit_16_19_and_flags : ℕ
  pub base_24_31 : ℕ

-- `sizeof(gdt_entry_t)`.
abbrev pub gdt_entry_size : ℕ
gdt_entry_size = 8

-- The bit-fields of a byte, the first field lowest.
unfoldable pub access_of : ℕ → AccessBit
access_of b = record {
  accessed = b % 2;
  rw = b / 2 % 2;
  dc = b / 4 % 2;
  exec = b / 8 % 2;
  not_sys = b / 16 % 2;
  priv = b / 32 % 4;
  present = b / 128 % 2;
}

-- The packed structs at `p`.
unfoldable pub gdt_entry_at : ℕ → Memory → GdtEntry
gdt_entry_at p mem = record {
  limit_0_15 = load 2 p mem;
  base_0_15 = load 2 (p + 2) mem;
  base_16_23 = load 1 (p + 4) mem;
  access = access_of (load 1 (p + 5) mem);
  limit_16_19_and_flags = load 1 (p + 6) mem;
  base_24_31 = load 1 (p + 7) mem;
}

unfoldable pub gdt_entry_sys_at : ℕ → Memory → GdtEntrySys
gdt_entry_sys_at p mem = record {
  size = load 2 p mem;
  base_0_15 = load 2 (p + 2) mem;
  base_16_23 = load 1 (p + 4) mem;
  access = access_of (load 1 (p + 5) mem);
  flags = load 1 (p + 6) mem;
  base_24_31 = load 1 (p + 7) mem;
  base_31_64 = load 4 (p + 8) mem;
  reserved0 = load 4 (p + 12) mem;
}

unfoldable pub dump_access : AccessBit → List Line
dump_access a =
    line "---access bit---" []
    ∷ line "accessed" (a.accessed ∷ [])
    ∷ line "RW" (a.rw ∷ [])
    ∷ line "DC" (a.dc ∷ [])
    ∷ line "exec" (a.exec ∷ [])
    ∷ line "not_sys" (a.not_sys ∷ [])
    ∷ line "priv" (a.priv ∷ [])
    ∷ line "present" (a.present ∷ [])
    ∷ []

unfoldable pub dump_entry : String → GdtEntry → List Line
dump_entry name e =
    line name []
    ∷ line "limit_0_15" (e.limit_0_15 ∷ [])
    ∷ line "base_0_15" (e.base_0_15 ∷ [])
    ∷ line "base_16_23" (e.base_16_23 ∷ [])
    ∷ (dump_access (e.access)
        ++ line "limit_16_19_and_flags" (e.limit_16_19_and_flags ∷ e.limit_16_19_and_flags ∷ [])
          ∷ line "base_24_31" (e.base_24_31 ∷ [])
          ∷ [])

unfoldable pub dump_tss : GdtEntrySys → List Line
dump_tss e =
    line "gdt->tss:" []
    ∷ line "size" (e.size ∷ [])
    ∷ line "base_0_15" (e.base_0_15 ∷ [])
    ∷ line "base_16_23" (e.base_16_23 ∷ [])
    ∷ (dump_access (e.access)
        ++ line "flags" (e.flags ∷ [])
          ∷ line "base_24_31" (e.base_24_31 ∷ [])
          ∷ line "base_31_64" (e.base_31_64 ∷ [])
          ∷ line "reserved0" (e.reserved0 ∷ [])
          ∷ [])

-- The table starts with the null descriptor; that of the TSS stands behind the five segments.
unfoldable pub dump_gdt : ℕ → Bool → Memory → List Line
dump_gdt gdt dump_sys mem =
    let at : ℕ → ℕ = λ i. gdt + gdt_entry_size * i in
    let start = line "===DUMP GDT===" [] in
    let segments =
      dump_entry "gdt->kernel_cs:" (gdt_entry_at (at 1) mem)
      ++ (dump_entry "gdt->kernel_ds:" (gdt_entry_at (at 2) mem)
          ++ (dump_entry "gdt->user_cs:" (gdt_entry_at (at 3) mem)
              ++ dump_entry "gdt->user_ds:" (gdt_entry_at (at 4) mem))) in
    let rest =
      if dump_sys
      then dump_tss (gdt_entry_sys_at (at 5) mem)
      else line "not dumping gdt->tss+" [] ∷ [] in
    (start ∷ segments) ++ (rest ++ line "=== END GDT DUMP ===" [] ∷ [])
