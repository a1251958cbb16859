-- ===== src/Device/Serial.antt =====
-- src/kernel/driver/serial/serialdriver.c: the first serial port. A text is the list of its bytes
-- without the zero that ends it. The busy loop of `serial_write` takes fuel, one for each poll.
pub mod Print
use twos.Base.{
  ℕ, zero, suc, ◌+◌, ◌==◌, if◌then◌else◌, Bool, true, false, not, Option, none, some, List, [], ◌∷◌,
  ◌++◌, ◌>>=◌, bit_and,
}
use twos.Device.Port.{Ports}

abbrev pub serial_port_com1 : ℕ
serial_port_com1 = 0x3f8

-- `serial__has_init` and `use_e9` with the hardware.
pub record Serial (S : Type 0) : Type 0 where
  pub has_init : ℕ
  pub use_e9 : ℕ
  pub hardware : S

module _ {S : Type 0} (ports : Ports S) where
  abbrev com1 : ℕ → ℕ → S → S
  com1 offset v = ports.port_byte_out (serial_port_com1 + offset) v

  -- What `serial_init` writes up to the test of the chip.
  unfoldable pub serial_setup : S → S
  serial_setup s0 =
      let s1 = com1 3 0x80 (com1 1 0x00 s0) in
      let s2 = com1 1 0x00 (com1 0 0x01 s1) in
      let s3 = com1 2 0xC7 (com1 3 0x02 s2) in
      let s4 = com1 4 0x1E (com1 4 0x0B s3) in com1 0 0xAE s4

  unfoldable pub serial_init : Serial S → ℕ × Serial S
  serial_init s =
      let echo = ports.port_byte_in serial_port_com1 (serial_setup (s.hardware)) in
      if not (s.has_init == 0)
      then (0, s)
      else if not (echo.0 == 0xAE)
      then (1, record { has_init = 1; use_e9 = s.use_e9; hardware = echo.1 })
      else (0, record { has_init = 1; use_e9 = 0; hardware = com1 4 0x0F (echo.1) })

  abbrev pub is_transmit_empty : S → ℕ × S
  is_transmit_empty s =
      let lsr = ports.port_byte_in (serial_port_com1 + 5) s in (bit_and (lsr.0) 0x20, lsr.1)

  unfoldable pub serial_write : ℕ → ℕ → S → Option S
  serial_write zero a s = none
  serial_write (suc fuel) a s =
      let poll = is_transmit_empty s in
      let rest = serial_write fuel a (poll.1) in
      if poll.0 == 0 then rest else some (ports.port_byte_out serial_port_com1 a (poll.1))

  -- The two loops over the text.
  unfoldable pub serial_write_all : ℕ → List ℕ → S → Option S
  serial_write_all fuel [] s = some s
  serial_write_all fuel (c ∷ str) s = serial_write fuel c s >>= serial_write_all fuel str

  unfoldable pub e9_all : List ℕ → S → S
  e9_all [] s = s
  e9_all (c ∷ str) s = e9_all str (ports.port_byte_out 0xe9 c s)

  abbrev with_hardware : Serial S → S → Serial S
  with_hardware s h = record { has_init = s.has_init; use_e9 = s.use_e9; hardware = h }

  unfoldable pub serial_print : ℕ → List ℕ → Serial S → Option (Serial S)
  serial_print fuel str s =
      if s.has_init == 0
      then some s
      else if s.use_e9 == 0
      then (serial_write_all fuel str (s.hardware) >>= λ h. some (with_hardware s h))
      else some (with_hardware s (e9_all str (s.hardware)))

  unfoldable pub serial_println : ℕ → List ℕ → Serial S → Option (Serial S)
  serial_println fuel str s = serial_print fuel str s >>= serial_print fuel (10 ∷ [])

  unfoldable pub serial_set_e9 : Serial S → Serial S
  serial_set_e9 s = record { has_init = s.has_init; use_e9 = 1; hardware = s.hardware }
