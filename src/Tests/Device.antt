-- ===== src/Tests/Device.antt =====
-- The drivers on small devices.
use twos.Base.{
  ◌==◌, if◌then◌else◌, u8, update, update_ne, update_self, test_bit, ℕ, ◌-◌, ◌≤◌, ◌<◌, min, bit_and,
  ◌≡◌, refl, ap, ◌≢◌, inl, false, List, [], ◌∷◌, ◌++◌, arith,
}
use native.Mathlib.Decide.{ℕ_discrete}
use twos.Device.Port.{Ports}
use twos.Device.Pic.Masks.{MaskRegisters}
use twos.Device.Serial.{Serial}
use twos.Device.Serial.Print.{Transmitter}
use twos.Kstd.Print.Pieces.{Piece, plain, decimal}
use twos.Device.IoApic.{Window, IoApic, ioapicredtbl, ioapic_mask_gsi}
use twos.Device.IoApicInit.{mask_entries}
use twos.Device.IoApicInit.Masked.{mask_entries_lem}
use twos.Device.IoApic.Mask.{Registers, ioapic_mask_gsi_lem}

-- Two mask registers and nothing else.
abbrev mask_ports : Ports (ℕ × ℕ)
mask_ports = record {
  port_byte_in = λ port s.
      if port == 0x21 then (u8 (s.0), s) else if port == 0xA1 then (u8 (s.1), s) else (0, s);
  port_byte_out =
      λ port v s. if port == 0x21 then (v, s.1) else if port == 0xA1 then (s.0, v) else s;
}

abbrev mask_ports-registers : MaskRegisters mask_ports
mask_ports-registers = record {
  imr1 = λ s. u8 (s.0);
  imr2 = λ s. u8 (s.1);
  imr1-lt = λ s. omega arith;
  imr2-lt = λ s. omega arith;
  in1 = λ s. refl;
  in2 = λ s. refl;
  out1 = λ v s h. omega (arith, h);
  out1_other = λ v s. refl;
  out2 = λ v s h. omega (arith, h);
  out2_other = λ v s. refl;
}

-- A transmitter that needs three polls behind each byte: the polls left, and the bytes sent.
abbrev uart_ports : Ports (ℕ × List ℕ)
uart_ports = record {
  port_byte_in = λ port s. (if min (s.0) 3 == 0 then 0x20 else 0, (min (s.0) 3 - 1, s.1));
  port_byte_out = λ port v s. (3, if min (s.0) 3 == 0 then s.1 ++ v ∷ [] else s.1);
}

uart-ready : (n : ℕ) → min n 3 ≡ 0 → bit_and (if min n 3 == 0 then 0x20 else 0) 0x20 ≢ 0
uart-ready n e = rw e (omega arith)

-- A byte written while another one is sent is lost.
uart-sends :
    (n : ℕ) (done : List ℕ) (a : ℕ)
    → bit_and (if min n 3 == 0 then 0x20 else 0) 0x20 ≢ 0
    → (if min (min n 3 - 1) 3 == 0 then done ++ a ∷ [] else done) ≡ done ++ a ∷ []
uart-sends n done a h = elim (ℕ_discrete (min n 3) 0) [
  | yes e ↦ rw e refl
  | no ne ↦
      let none : (min n 3 == 0) ≡ false = ground (arith, ne) in
      absurd (h (ap (λ b. bit_and (if b then 0x20 else 0) 0x20) none))
]

abbrev uart : Transmitter uart_ports
uart = record {
  busy = 3;
  polls = λ s. min (s.0) 3;
  sent = λ s. s.1;
  polls-le = λ s. omega arith;
  ready = λ s. uart-ready (s.0);
  poll_again = λ s n e. omega (arith, e);
  poll_keeps = λ s. refl;
  sends = λ a s h. uart-sends (s.0) (s.1) a h;
}

abbrev open_port : Serial (ℕ × List ℕ)
open_port = record { has_init = 1; use_e9 = 0; hardware = (0, []) }

-- A controller that has the selected register and a file of registers.
abbrev ioapic_window : Window (ℕ × (ℕ → ℕ))
ioapic_window = record {
  read32 = λ addr s. (s.1 (s.0), s);
  write32 = λ addr v s. if addr == 0xfec00000 then (v, s.1) else (s.0, update (s.1) (s.0) v);
}

abbrev first_ioapic : IoApic
first_ioapic = record { base = 0xfec00000; gsi_base = 0; max_redir = 24 }

abbrev ioapic_window-registers : Registers ioapic_window 0xfec00000
ioapic_window-registers = record {
  value = λ s. s.1;
  selected = λ s. s.0;
  select = λ r s h. refl;
  select_keeps = λ r i s. refl;
  reads = λ s. refl;
  entries = 24;
  few = omega arith;
  writes = λ k v i s l at hi n12 n14. ap (λ x. test_bit x i) (update_self (s.1) (s.0) (s.0) v refl);
  writes_keep = λ k v r s l at ne. update_ne (s.1) (s.0) r v ne;
}

abbrev ioapic_start : ℕ × (ℕ → ℕ)
ioapic_start = (0, λ r. 0x20)

abbrev after_mask : ℕ × (ℕ × (ℕ → ℕ))
after_mask = ioapic_mask_gsi ioapic_window first_ioapic 4 ioapic_start

mask_entries_example :
    test_bit ((mask_entries ioapic_window 25 0 first_ioapic ioapic_start).1 (ioapicredtbl 4)) 16 ≡ 1
mask_entries_example =
    mask_entries_lem ioapic_window first_ioapic ioapic_window-registers 4 ioapic_start (omega arith)
      (omega arith) (omega arith)

ioapic_mask_gsi_example :
    (4 ≤ 24
      → (after_mask.0 ≡ 0)
        × ((i : ℕ)
            → i ≤ 16
            → i ≢ 12
            → i ≢ 14
            → test_bit (after_mask.1.1 (ioapicredtbl 4)) i
              ≡ (if i == 16 then 1 else test_bit 0x20 i))
        × ((r : ℕ) → r ≢ ioapicredtbl 4 → after_mask.1.1 r ≡ 0x20))
    × (24 < 4 → (after_mask.0 ≡ 1) × ((r : ℕ) → after_mask.1.1 r ≡ 0x20))
ioapic_mask_gsi_example =
    ioapic_mask_gsi_lem ioapic_window first_ioapic ioapic_window-registers 4 ioapic_start
      (omega arith) (inl (omega arith))

-- "x=%i".
abbrev a_message : List Piece
a_message = plain b'x' ∷ plain b'=' ∷ decimal 7 ∷ []
