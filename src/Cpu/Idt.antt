-- ===== src/Cpu/Idt.antt =====
-- src/kernel/isr/idt.c: the interrupt descriptor table.
use twos.Base.{
  ℕ, zero, suc, ◌+◌, ◌-◌, ◌*◌, ◌/◌, ◌^◌, ◌<◌, ◌≤◌, ◌≡◌, refl, ap, sym, ◌∙◌, ◌==◌, ltb,
  if◌then◌else◌, u16, ◌>>>◌, bit_and, bit_and-low_mask, update, update_ne, update_self, arith,
}
use native.Mathlib.Decide.{ℕ_discrete}

abbrev pub idt_max_descriptors : ℕ
idt_max_descriptors = 255

-- `sizeof(idt_entry_t)`.
abbrev pub idt_entry_size : ℕ
idt_entry_size = 16

pub record IdtEntry : Type 0 where
  pub isr_low : ℕ
  pub kernel_cs : ℕ
  pub ist : ℕ
  pub attributes : ℕ
  pub isr_mid : ℕ
  pub isr_high : ℕ
  pub reserved : ℕ

-- `idt`, `idt_ptr` and `interupt_handlers`.
pub record Idt : Type 0 where
  pub entries : ℕ → IdtEntry
  pub limit : ℕ
  pub base : ℕ
  pub handlers : ℕ → ℕ

abbrev pub idt_entry : ℕ → ℕ → IdtEntry
idt_entry isr flags = record {
  isr_low = u16 (bit_and isr 0xFFFF);
  kernel_cs = 8;
  ist = 0;
  attributes = flags;
  isr_mid = u16 (bit_and (isr >>> 16) 0xFFFF);
  isr_high = bit_and (isr >>> 32) 0xFFFFFFFF;
  reserved = 0;
}

unfoldable pub idt_set_descriptor : ℕ → ℕ → ℕ → (ℕ → IdtEntry) → ℕ → IdtEntry
idt_set_descriptor vector isr flags idt = update idt vector (idt_entry isr flags)

-- The loop over the vectors below `n`.
unfoldable pub set_descriptors : ℕ → (ℕ → ℕ) → (ℕ → IdtEntry) → ℕ → IdtEntry
set_descriptors zero isr_stub_table idt = idt
set_descriptors (suc n) isr_stub_table idt =
    idt_set_descriptor n (isr_stub_table n) 0x8E (set_descriptors n isr_stub_table idt)

-- `memset(&idt, 0, sizeof(idt_entry_t) * 256 - 1)`: the last byte of the last entry stays.
unfoldable pub clear_entries : (ℕ → IdtEntry) → ℕ → IdtEntry
clear_entries idt vec = record {
  isr_low = 0;
  kernel_cs = 0;
  ist = 0;
  attributes = 0;
  isr_mid = 0;
  isr_high = 0;
  reserved = if vec == 255 then (idt vec).reserved / 2 ^ 24 * 2 ^ 24 else 0;
}

-- `memset(&interupt_handlers, 0, sizeof(isr_t) * IDT_MAX_DESCRIPTORS - 1)`: one byte of the entry
-- 254 and the whole entry 255 stay.
unfoldable pub clear_handlers : (ℕ → ℕ) → ℕ → ℕ
clear_handlers handlers n =
    if ltb n 254 then 0 else if n == 254 then handlers n / 2 ^ 56 * 2 ^ 56 else handlers n

-- `idt_init`, with the address of the table and the stubs of asm/idt.asm.
unfoldable pub idt_init : ℕ → (ℕ → ℕ) → Idt → Idt
idt_init idt_address isr_stub_table s = record {
  entries = set_descriptors 48 isr_stub_table (clear_entries (s.entries));
  limit = u16 (idt_entry_size * idt_max_descriptors - 1);
  base = idt_address;
  handlers = clear_handlers (s.handlers);
}

-- The address that the processor reads from a gate.
abbrev pub gate_offset : IdtEntry → ℕ
gate_offset e = e.isr_low + 2 ^ 16 * e.isr_mid + 2 ^ 32 * e.isr_high

gate_offset_lem : (isr flags : ℕ) → isr < 2 ^ 64 → gate_offset (idt_entry isr flags) ≡ isr
gate_offset_lem isr flags h = omega (
  arith,
  h,
  bit_and-low_mask 16 isr,
  bit_and-low_mask 16 (isr >>> 16),
  bit_and-low_mask 32 (isr >>> 32),
)

set_descriptors-below :
    (n : ℕ) (stubs : ℕ → ℕ) (idt : ℕ → IdtEntry) (vec : ℕ)
    → vec < n
    → set_descriptors n stubs idt vec ≡ idt_entry (stubs vec) 0x8E
unfolding set_descriptors idt_set_descriptor
set_descriptors-below zero stubs idt vec h = ground (arith, h)
set_descriptors-below (suc n) stubs idt vec h = elim (ℕ_discrete vec n) [
  | yes e ↦
      (update_self (set_descriptors n stubs idt) n vec (idt_entry (stubs n) 0x8E) e
        ∙ ap (λ v. idt_entry (stubs v) 0x8E) (sym e))
  | no ne ↦
      (update_ne (set_descriptors n stubs idt) n vec (idt_entry (stubs n) 0x8E) ne
        ∙ set_descriptors-below n stubs idt vec (omega (arith, h, ne)))
]

set_descriptors-above :
    (n : ℕ) (stubs : ℕ → ℕ) (idt : ℕ → IdtEntry) (vec : ℕ)
    → n ≤ vec
    → set_descriptors n stubs idt vec ≡ idt vec
unfolding set_descriptors idt_set_descriptor
set_descriptors-above zero stubs idt vec h = refl
set_descriptors-above (suc n) stubs idt vec h =
    update_ne (set_descriptors n stubs idt) n vec (idt_entry (stubs n) 0x8E) (omega arith)
    ∙ set_descriptors-above n stubs idt vec (omega arith)

-- With stubs at 64-bit addresses, `idt_init` leaves each vector below 48 with a present 64-bit
-- interrupt gate (type 0x8E) of the kernel's code segment whose address is the stub's; each vector
-- from 48 to 255 not present; and a limit that takes in the entries up to vector 254 only.
pub idt_init_lem :
    (idt_address : ℕ) (stubs : ℕ → ℕ) (s : Idt)
    → ((vec : ℕ) → stubs vec < 2 ^ 64)
    → ((vec : ℕ)
        → vec < 48
        → (gate_offset ((idt_init idt_address stubs s).entries vec) ≡ stubs vec)
          × (((idt_init idt_address stubs s).entries vec).attributes ≡ 0x8E)
          × (((idt_init idt_address stubs s).entries vec).kernel_cs ≡ 8))
      × ((vec : ℕ) → 48 ≤ vec → ((idt_init idt_address stubs s).entries vec).attributes ≡ 0)
      × ((idt_init idt_address stubs s).limit + 1 ≡ idt_entry_size * 255)
unfolding idt_init clear_entries
idt_init_lem idt_address stubs s h =
    let idt = clear_entries (s.entries) in
    (
      (λ vec p.
          let e : set_descriptors 48 stubs idt vec ≡ idt_entry (stubs vec) 0x8E =
            set_descriptors-below 48 stubs idt vec p in
          (
            (ap gate_offset e ∙ gate_offset_lem (stubs vec) 0x8E (h vec)),
            (ap (λ d. d.attributes) e),
            (ap (λ d. d.kernel_cs) e),
          )),
      (λ vec p. ap (λ d. d.attributes) (set_descriptors-above 48 stubs idt vec p)),
      omega arith,
    )
