-- ===== src/Device/Serial/Print.antt =====
-- That a text is handed byte by byte to a transmitter that empties.
use twos.Base.{
  ℕ, zero, suc, ◌+◌, ◌-◌, ◌<◌, ◌≤◌, ◌≡◌, ◌≢◌, ◌∙◌, sym, refl, ap, ◌==◌, ==_iff, Bool-cases, inl,
  inr, some, List, [], ◌∷◌, ◌++◌, bit_and, arith,
}
use mathlib.Core.List.{append-nil, append_assoc}
use twos.Device.Port.{Ports}
use twos.Device.Serial.{
  Serial, serial_port_com1, serial_write, serial_write_all, serial_print, serial_println,
}

-- A transmitter, as the 16550's data sheet has it: bit 5 of the line status is set once it is
-- empty, which is after at most `busy` polls of the status behind each byte. A byte written where the
-- last poll has shown that bit is the next one taken; of one that is written at another time nothing
-- is known. How many of a byte's bits go out is set by the line control.
pub record Transmitter {S : Type 0} (ports : Ports S) : Type 0 where
  pub busy : ℕ
  pub polls : S → ℕ
  pub sent : S → List ℕ
  pub polls-le : (s : S) → polls s ≤ busy
  pub ready :
      (s : S) → polls s ≡ 0 → bit_and ((ports.port_byte_in (serial_port_com1 + 5) s).0) 0x20 ≢ 0
  pub poll_again :
      (s : S) (n : ℕ)
      → polls s ≡ suc n
      → polls ((ports.port_byte_in (serial_port_com1 + 5) s).1) ≤ n
  pub poll_keeps : (s : S) → sent ((ports.port_byte_in (serial_port_com1 + 5) s).1) ≡ sent s
  pub sends :
      (a : ℕ) (s : S)
      → bit_and ((ports.port_byte_in (serial_port_com1 + 5) s).0) 0x20 ≢ 0
      → sent
          (ports.port_byte_out serial_port_com1 a ((ports.port_byte_in (serial_port_com1 + 5) s).1))
        ≡ sent s ++ a ∷ []

module _ {S : Type 0} (ports : Ports S) (uart : Transmitter ports) where
  serial_write_lem :
      (fuel a : ℕ) (s : S)
      → uart.polls s < fuel
      → (s' : S) × (serial_write ports fuel a s ≡ some s') × (uart.sent s' ≡ uart.sent s ++ a ∷ [])
  unfolding serial_write
  serial_write_lem zero a s h = elim h [ ]
  serial_write_lem (suc fuel) a s h =
      let polled = (ports.port_byte_in (serial_port_com1 + 5) s).1 in
      let lsr = bit_and ((ports.port_byte_in (serial_port_com1 + 5) s).0) 0x20 in
      elim (Bool-cases (lsr == 0)) [
        | inl e ↦
            (let waits : uart.polls s ≢ 0 = λ z. uart.ready s z ((==_iff lsr 0).0 e) in
              let fewer : uart.polls polled < fuel =
                omega
                  (arith, h, waits, uart.poll_again s (uart.polls s - 1) (omega (arith, waits))) in
              let rest = serial_write_lem fuel a polled fewer in
              (rest.0, rw e (rest.1), rest.2 ∙ ap (λ t. t ++ a ∷ []) (uart.poll_keeps s)))
        | inr e ↦ (
          ports.port_byte_out serial_port_com1 a polled,
          rw e refl,
          uart.sends a s (ground (arith, e)),
        )
      ]

  serial_write_all_lem :
      (fuel : ℕ) (str : List ℕ) (s : S)
      → uart.busy < fuel
      → (s' : S) × (serial_write_all ports fuel str s ≡ some s')
        × (uart.sent s' ≡ uart.sent s ++ str)
  unfolding serial_write_all
  serial_write_all_lem fuel [] s h = (s, refl, sym (append-nil (uart.sent s)))
  serial_write_all_lem fuel (c ∷ str) s h =
      let first = serial_write_lem fuel c s (omega (arith, h, uart.polls-le s)) in
      let rest = serial_write_all_lem fuel str (first.0) h in
      (
        rest.0,
        rw (first.1) (rest.1),
        rest.2 ∙ ap (λ t. t ++ str) (first.2) ∙ append_assoc (uart.sent s) (c ∷ []) str,
      )

  -- On a transmitter as the data sheet has it, `serial_print` of an initialised port that does not
  -- use port 0xe9 returns, with more fuel than a byte's polls, and has handed over the bytes of its
  -- text in order behind what was handed over before.
  pub serial_print_lem :
      (fuel : ℕ) (str : List ℕ) (s : Serial S)
      → s.has_init ≢ 0
      → s.use_e9 ≡ 0
      → uart.busy < fuel
      → (s' : Serial S) × (serial_print ports fuel str s ≡ some s')
        × (uart.sent (s'.hardware) ≡ uart.sent (s.hardware) ++ str)
        × (s'.has_init ≡ s.has_init)
        × (s'.use_e9 ≡ 0)
  unfolding serial_print
  serial_print_lem fuel str s hi he h =
      let all = serial_write_all_lem fuel str (s.hardware) h in
      (
        record { has_init = s.has_init; use_e9 = s.use_e9; hardware = all.0 },
        (ground (arith, all.1)),
        all.2,
        refl,
        he,
      )

  -- Under the same conditions `serial_println` hands over the text and then a line feed.
  pub serial_println_lem :
      (fuel : ℕ) (str : List ℕ) (s : Serial S)
      → s.has_init ≢ 0
      → s.use_e9 ≡ 0
      → uart.busy < fuel
      → (s' : Serial S) × (serial_println ports fuel str s ≡ some s')
        × (uart.sent (s'.hardware) ≡ (uart.sent (s.hardware) ++ str) ++ 10 ∷ [])
  unfolding serial_println
  serial_println_lem fuel str s hi he h =
      let text = serial_print_lem fuel str s hi he h in
      let line = serial_print_lem fuel (10 ∷ []) (text.0) (omega (arith, hi, text.3)) (text.4) h in
      (line.0, rw (text.1) (line.1), line.2 ∙ ap (λ t. t ++ 10 ∷ []) (text.2))
