-- ===== src/Device/Panic.antt =====
-- src/kernel/panic.c and src/kstdlib/kassert.c: a message to the serial port, behind which the
-- processor is halted for good. The result is what is left as it halts; `none` stands for what the
-- printing leaves undefined.
use twos.Base.{
  ℕ, ◌+◌, ◌≤◌, ◌<◌, ◌≡◌, ◌≢◌, ◌⊎◌, ◌∙◌, refl, sym, ap, ap₂, Option, some, List, [], ◌∷◌, ◌++◌,
  length, map, Memory, arith,
}
use twos.Device.Port.{Ports}
use twos.Device.Printk.{printk_buf_size, printk, line_of, printk_lem}
use twos.Device.Serial.{Serial}
use twos.Device.Serial.Print.{Transmitter}
use twos.Kstd.Print.{int, text, printf_buf}
use twos.Kstd.Print.Pieces.{plain, IsPlain, format_of, args_of, text_of}

-- "assertion failed: '", "' !!! \n-->", " (" and ")": the parts of the format around its conversions.
abbrev assert_format : List ℕ
assert_format =
    b'a' ∷ b's' ∷ b's' ∷ b'e' ∷ b'r' ∷ b't' ∷ b'i' ∷ b'o' ∷ b'n' ∷ b' ' ∷ b'f' ∷ b'a' ∷ b'i' ∷ b'l'
    ∷ b'e' ∷ b'd' ∷ b':' ∷ b' ' ∷ 39 ∷ b'%' ∷ b's' ∷ 39 ∷ b' ' ∷ b'!' ∷ b'!' ∷ b'!' ∷ b' ' ∷ 10
    ∷ b'-' ∷ b'-' ∷ b'>' ∷ b'%' ∷ b's' ∷ b' ' ∷ b'(' ∷ b'%' ∷ b'd' ∷ b')' ∷ []

module _ {S : Type 0} (ports : Ports S) (fuel polls scratch buf : ℕ) where
  -- `debugf(msg)`: the message is the format.
  unfoldable pub panic : List ℕ → Memory → Serial S → Option (Memory × Serial S)
  panic msg mem s = printk ports fuel polls scratch buf msg [] mem s

  unfoldable pub assert_try_print :
      List ℕ → List ℕ → ℕ → Memory → Serial S → Option (Memory × Serial S)
  assert_try_print str file at mem s =
      printk ports fuel polls scratch buf assert_format (text str ∷ text file ∷ int at ∷ []) mem s

-- A message of plain bytes: neither zero nor a percent sign.
unfoldable pub IsMessage : List ℕ → Type 0
IsMessage [] = 0 ≤ 0
IsMessage (ch ∷ chs) = (ch ≢ 0) × (ch ≢ b'%') × IsMessage chs

IsMessage-IsPlain : (msg : List ℕ) → IsMessage msg → IsPlain (map plain msg)
unfolding IsMessage IsPlain
IsMessage-IsPlain [] h = h
IsMessage-IsPlain (ch ∷ chs) (nz, np, h) = (nz, np, IsMessage-IsPlain chs h)

format_of-plain : (msg : List ℕ) → format_of (map plain msg) ≡ msg
unfolding format_of
format_of-plain [] = refl
format_of-plain (ch ∷ chs) = ap (λ cs. ch ∷ cs) (format_of-plain chs)

args_of-plain : (msg : List ℕ) → args_of (map plain msg) ≡ []
unfolding args_of
args_of-plain [] = refl
args_of-plain (ch ∷ chs) = args_of-plain chs

text_of-plain : (msg : List ℕ) → text_of (map plain msg) ≡ msg
unfolding text_of
text_of-plain [] = refl
text_of-plain (ch ∷ chs) = ap (λ cs. ch ∷ cs) (text_of-plain chs)

module _ {S : Type 0} (ports : Ports S) (uart : Transmitter ports) where
  -- On a transmitter as the data sheet has it: the message of a panic, of plain bytes without a percent
  -- sign, not empty and shorter than the buffers, is handed to the transmitter of the initialised port
  -- byte by byte, with a line feed behind it unless it ends in one, before the processor halts.
  pub panic_lem :
      (fuel polls scratch buf : ℕ) (msg : List ℕ) (mem : Memory) (s : Serial S)
      → printk_buf_size < fuel
      → (buf + printk_buf_size ≤ scratch) ⊎ (scratch + printk_buf_size ≤ buf)
      → buf ≢ 0
      → IsMessage msg
      → length msg < printf_buf
      → 0 < length msg
      → length msg < printk_buf_size
      → s.has_init ≢ 0
      → s.use_e9 ≡ 0
      → uart.busy < polls
      → (mem' : Memory) × (s' : Serial S) × (panic ports fuel polls scratch buf msg mem s
          ≡ some (mem', s'))
        × (uart.sent (s'.hardware) ≡ uart.sent (s.hardware) ++ line_of msg)
  unfolding panic
  panic_lem fuel polls scratch buf msg mem s enough apart not_null plains short some_text fits hi he
        polled =
      let ps = map plain msg in
      let format = format_of-plain msg in
      let text = text_of-plain msg in
      let (mem', s', prints, sent) =
        printk_lem ports uart fuel polls scratch buf ps mem s enough apart not_null
          (IsMessage-IsPlain msg plains) (omega (arith, ap length format, short))
          (omega (arith, ap length text, some_text)) (omega (arith, ap length text, fits)) hi he
          polled in
      (
        mem',
        s',
        ap₂ (λ fmt args. printk ports fuel polls scratch buf fmt args mem s) (sym format)
              (sym (args_of-plain msg))
            ∙ prints,
        sent ∙ ap (λ t. uart.sent (s.hardware) ++ line_of t) text,
      )
