-- ===== src/Device/Pic.antt =====
-- src/kernel/apic/pic.c: the two 8259 interrupt controllers.
pub mod Masks
use twos.Base.{
  ℕ, ◌+◌, ◌-◌, ◌*◌, ◌^◌, ltb, leb, if◌then◌else◌, Option, none, some, ◌>>=◌, u8, u16, bit_and,
  bit_or,
}
use twos.Device.Port.{Ports, io_wait}

abbrev pub pic1_command : ℕ
pic1_command = 0x20

abbrev pub pic1_data : ℕ
pic1_data = 0x21

abbrev pub pic2_command : ℕ
pic2_command = 0xA0

abbrev pub pic2_data : ℕ
pic2_data = 0xA1

abbrev pub pic_eoi : ℕ
pic_eoi = 0x20

-- `ICW1_INIT | ICW1_ICW4`.
abbrev pub icw1 : ℕ
icw1 = 0x11

abbrev pub icw4_8086 : ℕ
icw4_8086 = 0x01

-- `1 << irq` on an int, undefined from 32 on.
abbrev pub shl_one : ℕ → Option ℕ
shl_one irq = if ltb irq 32 then some (2 ^ irq) else none

-- The port of a line and its bit there.
abbrev pub mask_port : ℕ → ℕ
mask_port irq = if ltb irq 8 then pic1_data else pic2_data

abbrev pub mask_line : ℕ → ℕ
mask_line irq = if ltb irq 8 then irq else irq - 8

module _ {S : Type 0} (ports : Ports S) where
  abbrev out : ℕ → ℕ → S → S
  out = ports.port_byte_out

  abbrev wait : S → S
  wait = io_wait ports

  unfoldable pub pic_send_eoi : ℕ → S → S
  pic_send_eoi irq s =
      let s1 = if leb 8 irq then out pic2_command pic_eoi s else s in out pic1_command pic_eoi s1

  -- `__pic_get_irq_req`; the operands of `|` are read from left to right.
  unfoldable pub pic_get_irq_req : ℕ → S → ℕ × S
  pic_get_irq_req ocw3 s =
      let s1 = out pic2_command ocw3 (out pic1_command ocw3 s) in
      let high = ports.port_byte_in pic2_command s1 in
      let low = ports.port_byte_in pic1_command (high.1) in
      (u16 (bit_or (high.0 * 2 ^ 8) (low.0)), low.1)

  unfoldable pub pic_disable : S → S
  pic_disable s = out pic2_data 0xff (out pic1_data 0xff s)

  unfoldable pub pic_enable : S → S
  pic_enable s = out pic2_data 0 (out pic1_data 0 s)

  unfoldable pub pic_set_mask : ℕ → S → Option S
  pic_set_mask irq s = shl_one (mask_line irq) >>= λ bit.
      let mask = ports.port_byte_in (mask_port irq) s in
      some (out (mask_port irq) (u8 (bit_or (mask.0) bit)) (mask.1))

  unfoldable pub pic_clear_mask : ℕ → S → Option S
  pic_clear_mask irq s = shl_one (mask_line irq) >>= λ bit.
      let mask = ports.port_byte_in (mask_port irq) s in
      some (out (mask_port irq) (u8 (bit_and (mask.0) (2 ^ 32 - 1 - bit))) (mask.1))

  -- The masks are read and not used.
  unfoldable pub pic_remap : ℕ → ℕ → S → Option S
  pic_remap off1 off2 s =
      let s1 =
        pic_disable ((ports.port_byte_in pic2_data ((ports.port_byte_in pic1_data s).1)).1) in
      let s2 = wait (out pic2_command icw1 (wait (out pic1_command icw1 s1))) in
      let s3 = wait (out pic2_data off2 (wait (out pic1_data off1 s2))) in
      let s4 = wait (out pic2_data 2 (wait (out pic1_data 4 s3))) in
      let s5 = wait (out pic2_data icw4_8086 (wait (out pic1_data icw4_8086 s4))) in
      let s6 = wait (out pic2_data 0 (wait (out pic1_data 0 s5))) in
      pic_clear_mask 0x20 s6 >>= pic_clear_mask 0x21
