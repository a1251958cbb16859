-- ===== src/Device/Printk.antt =====
-- src/kernel/printk.c: a formatted message goes through a buffer of 2048 bytes to the serial port.
-- The level is not used by the source.
use twos.Base.{
  ℕ, ◌+◌, ◌-◌, ◌≤◌, ◌<◌, ◌≡◌, ◌≢◌, ◌⊎◌, ◌∙◌, refl, inl, inr, ◌==◌, if◌then◌else◌, Bool-cases,
  Option, some, ◌>>=◌, List, [], ◌∷◌, ◌++◌, length, get_elem?, get_or, get_elem?-eq-get_or, Memory,
  arith,
}
use mathlib.Core.List.{append_assoc}
use twos.Acpi.{string_at}
use twos.Device.Port.{Ports}
use twos.Device.Serial.{Serial, e9_all, serial_print, serial_println}
use twos.Device.Serial.Print.{Transmitter, serial_print_lem, serial_println_lem}
use twos.Kstd.Print.{Arg, printf_buf}
use twos.Kstd.Print.Pieces.{Piece, IsPlain, format_of, args_of, text_of}
use twos.Kstd.Print.Sprint.{vsnprintf}
use twos.Kstd.Print.Snprintf.{vsnprintf_lem}

abbrev pub printk_buf_size : ℕ
printk_buf_size = 2048

module _ {S : Type 0} (ports : Ports S) where
  -- The loop over `_port_e9_hack_out`.
  unfoldable pub printk_vm : List ℕ → S → S
  printk_vm str s = e9_all ports str s

  -- `str[len - 1]` of an empty text is a byte before the buffer: `none`.
  unfoldable pub printk_findoutputs : ℕ → List ℕ → Serial S → Option (Serial S)
  printk_findoutputs fuel str s = get_elem? str (length str - 1) >>= λ last.
      if last == 10 then serial_print ports fuel str s else serial_println ports fuel str s

  -- `fuel` is for the strings and `polls` for the port; the buffer of the stack is at `buf`.
  unfoldable pub printk :
      ℕ → ℕ → ℕ → ℕ → List ℕ → List Arg → Memory → Serial S → Option (Memory × Serial S)
  printk fuel polls scratch buf fmt args mem s =
      vsnprintf fuel scratch buf printk_buf_size fmt args mem >>= λ (n, mem').
      printk_findoutputs polls (string_at printk_buf_size buf mem') s >>= λ s'. some (mem', s')

-- A text with a line feed behind it, unless it ends in one.
abbrev pub line_of : List ℕ → List ℕ
line_of t = if get_or t (length t - 1) 0 == 10 then t else t ++ 10 ∷ []

module _ {S : Type 0} (ports : Ports S) (uart : Transmitter ports) where
  printk_findoutputs_lem :
      (fuel : ℕ) (str : List ℕ) (s : Serial S)
      → 0 < length str
      → s.has_init ≢ 0
      → s.use_e9 ≡ 0
      → uart.busy < fuel
      → (s' : Serial S) × (printk_findoutputs ports fuel str s ≡ some s')
        × (uart.sent (s'.hardware) ≡ uart.sent (s.hardware) ++ line_of str)
  unfolding printk_findoutputs
  printk_findoutputs_lem fuel str s some_text hi he h =
      let last = get_elem?-eq-get_or str (length str - 1) 0 (omega (arith, some_text)) in
      let (s₁, prints, sent₁, i₁, e₁) = serial_print_lem ports uart fuel str s hi he h in
      let (s₂, println, sent₂) = serial_println_lem ports uart fuel str s hi he h in
      elim (Bool-cases (get_or str (length str - 1) 0 == 10)) [
        | inl e ↦ (s₁, rw last (rw e prints), rw e sent₁)
        | inr e ↦ (
          s₂,
          rw last (rw e println),
          rw e (sent₂ ∙ append_assoc (uart.sent (s.hardware)) str (10 ∷ [])),
        )
      ]

  pub printk_lem :
      (fuel polls scratch buf : ℕ) (ps : List Piece) (mem : Memory) (s : Serial S)
      → printk_buf_size < fuel
      → (buf + printk_buf_size ≤ scratch) ⊎ (scratch + printk_buf_size ≤ buf)
      → buf ≢ 0
      → IsPlain ps
      → length (format_of ps) < printf_buf
      → 0 < length (text_of ps)
      → length (text_of ps) < printk_buf_size
      → s.has_init ≢ 0
      → s.use_e9 ≡ 0
      → uart.busy < polls
      → (mem' : Memory) × (s' : Serial S) × (printk ports fuel polls scratch buf
            (format_of ps)
            (args_of ps)
            mem
            s
          ≡ some (mem', s'))
        × (uart.sent (s'.hardware) ≡ uart.sent (s.hardware) ++ line_of (text_of ps))
  unfolding printk
  printk_lem fuel polls scratch buf ps mem s enough apart not_null h short some_text fits hi he
        polled =
      let (mem', formats, text) =
        vsnprintf_lem fuel scratch buf printk_buf_size enough (omega arith) apart not_null ps mem h
          short fits in
      let (s', prints, sent) = printk_findoutputs_lem polls (text_of ps) s some_text hi he polled in
      (mem', s', rw formats (rw text (rw prints refl)), sent)
