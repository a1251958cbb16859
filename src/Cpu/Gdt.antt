-- ===== src/Cpu/Gdt.antt =====
-- src/boot/gdt.c: the descriptor of the TSS that `make_tss` fills, and the assertion of `init_gdt`. A
-- packed struct is a record of its fields. The children read and print the table, and put the TSS and
-- its descriptor into memory.
pub mod Dump
pub mod Load
use twos.Base.{
  ℕ, ◌+◌, ◌*◌, ◌-◌, ◌^◌, ◌<◌, ◌≡◌, Bool, ◌==◌, List, [], ◌∷◌, u8, u16, u32, u64, ◌>>>◌, bit_and,
  bit_and-low_mask, arith,
}

-- `GDT_ENTRIES` segments of 8 bytes stand before the descriptor of the TSS.
abbrev pub tss_gdt_offset : ℕ
tss_gdt_offset = 0x28

-- `sizeof(tss_t)`, as the source asserts.
abbrev pub tss_size : ℕ
tss_size = 104

-- The place of `rsp[0]` in `tss_t`.
abbrev pub rsp_offset : ℕ
rsp_offset = 4

pub record AccessBit : Type 0 where
  pub accessed : ℕ
  pub rw : ℕ
  pub dc : ℕ
  pub exec : ℕ
  pub not_sys : ℕ
  pub priv : ℕ
  pub present : ℕ

pub record GdtEntrySys : Type 0 where
  pub size : ℕ
  pub base_0_15 : ℕ
  pub base_16_23 : ℕ
  pub access : AccessBit
  pub flags : ℕ
  pub base_24_31 : ℕ
  pub base_31_64 : ℕ
  pub reserved0 : ℕ

-- The byte that the bit-fields of `access_bit_t` make, the first field lowest.
unfoldable pub access_byte : AccessBit → ℕ
access_byte a =
    a.accessed + 2 * a.rw + 4 * a.dc + 8 * a.exec + 16 * a.not_sys + 32 * a.priv + 128 * a.present

-- The descriptor of a TSS at `addr`.
unfoldable pub make_tss_entry : ℕ → GdtEntrySys
make_tss_entry addr = record {
  size = u16 tss_size;
  base_0_15 = u16 (bit_and addr 0xffff);
  base_16_23 = u8 (bit_and (addr >>> 16) 0xff);
  access = record { accessed = 1; rw = 0; dc = 0; exec = 1; not_sys = 0; priv = 0; present = 1 };
  flags = 0;
  base_24_31 = u8 (bit_and (addr >>> 24) 0xff);
  base_31_64 = u32 (addr >>> 32);
  reserved0 = 0;
}

-- The assertion of `init_gdt`, with the addresses of the two symbols.
unfoldable pub init_gdt : ℕ → ℕ → Bool
init_gdt gdt_tss_ptr gdt_ptr = u64 (gdt_tss_ptr + 2 ^ 64 - gdt_ptr) == tss_gdt_offset

-- The address that the processor reads from a system descriptor.
abbrev pub descriptor_base : GdtEntrySys → ℕ
descriptor_base e =
    e.base_0_15 + 2 ^ 16 * e.base_16_23 + 2 ^ 24 * e.base_24_31 + 2 ^ 32 * e.base_31_64

-- The descriptor that `make_tss` builds gives back the address of the TSS, has the access byte 0x89
-- (a present TSS of ring 0), and its limit is 104, one more than the last byte's offset.
pub make_tss_entry_lem :
    (addr : ℕ)
    → addr < 2 ^ 64
    → (descriptor_base (make_tss_entry addr) ≡ addr)
      × (access_byte ((make_tss_entry addr).access) ≡ 0x89)
      × ((make_tss_entry addr).size ≡ 103 + 1)
unfolding make_tss_entry access_byte
make_tss_entry_lem addr h = (
  (omega (
    arith,
    h,
    bit_and-low_mask 16 addr,
    bit_and-low_mask 8 (addr >>> 16),
    bit_and-low_mask 8 (addr >>> 24),
  )),
  (omega arith),
  (omega arith),
)
