-- ===== src/Device/Pic/Masks.antt =====
-- What masking and unmasking a line does to the lines of both controllers.
use twos.Base.{
  ℕ, ◌-◌, ◌^◌, ◌<◌, ◌≤◌, ◌≡◌, ◌∙◌, refl, ap, min, ltb, ◌==◌, Bool-cases, ltb→lt, lt→ltb,
  if◌then◌else◌, some, u8, bit_and, bit_or, test_bit-low, test_bit, test_bit-lt_two,
  test_bit-bit_or, test_bit-bit_and, test_bit-complement, test_bit-two_pow_self,
  test_bit-two_pow_ne, inl, inr, arith,
}
use native.Mathlib.Nat.{pow-le-pow_right}
use native.Mathlib.Decide.{ℕ_discrete}
use twos.Device.Port.{Ports}
use twos.Device.Pic.{
  pic1_data, pic2_data, pic_set_mask, pic_clear_mask, mask_port, mask_line, shl_one,
}

-- The mask registers of initialised controllers, as the 8259's data sheet has them: a data port
-- reads and writes its own register and leaves the other.
pub record MaskRegisters {S : Type 0} (ports : Ports S) : Type 0 where
  pub imr1 : S → ℕ
  pub imr2 : S → ℕ
  pub imr1-lt : (s : S) → imr1 s < 256
  pub imr2-lt : (s : S) → imr2 s < 256
  pub in1 : (s : S) → ports.port_byte_in pic1_data s ≡ (imr1 s, s)
  pub in2 : (s : S) → ports.port_byte_in pic2_data s ≡ (imr2 s, s)
  pub out1 : (v : ℕ) (s : S) → v < 256 → imr1 (ports.port_byte_out pic1_data v s) ≡ v
  pub out1_other : (v : ℕ) (s : S) → imr2 (ports.port_byte_out pic1_data v s) ≡ imr2 s
  pub out2 : (v : ℕ) (s : S) → v < 256 → imr2 (ports.port_byte_out pic2_data v s) ≡ v
  pub out2_other : (v : ℕ) (s : S) → imr1 (ports.port_byte_out pic2_data v s) ≡ imr1 s

set_bit :
    (x k i : ℕ) → i < 8 → test_bit (u8 (bit_or x (2 ^ k))) i ≡ (if i == k then 1 else test_bit x i)
set_bit x k i h =
    test_bit-low 8 (bit_or x (2 ^ k)) i h ∙ test_bit-bit_or i x (2 ^ k) ∙ elim (ℕ_discrete k i) [
      | yes e ↦
          ground (arith, test_bit-two_pow_self k, ap (test_bit (2 ^ k)) e, test_bit-lt_two x i)
      | no ne ↦ ground (arith, test_bit-two_pow_ne k i ne)
    ]

clear_bit :
    (x k i : ℕ)
    → i < 8
    → k < 32
    → 2 ^ k < 2 ^ 32
    → test_bit (u8 (bit_and x (2 ^ 32 - 1 - 2 ^ k))) i ≡ (if i == k then 0 else test_bit x i)
clear_bit x k i h hk hp =
    test_bit-low 8 (bit_and x (2 ^ 32 - 1 - 2 ^ k)) i h
    ∙ test_bit-bit_and i x (2 ^ 32 - 1 - 2 ^ k)
    ∙ ap (λ b. min (test_bit x i) b) (test_bit-complement 32 (2 ^ k) i hp (omega arith))
    ∙ elim (ℕ_discrete k i) [
      | yes e ↦ ground (arith, test_bit-two_pow_self k, ap (test_bit (2 ^ k)) e)
      | no ne ↦ ground (arith, test_bit-two_pow_ne k i ne, test_bit-lt_two x i)
    ]

module _ {S : Type 0} (ports : Ports S) (regs : MaskRegisters ports) where
  -- The mask bit of one of the sixteen lines.
  unfoldable pub line_masked : ℕ → S → ℕ
  line_masked irq s = test_bit (if ltb irq 8 then regs.imr1 s else regs.imr2 s) (mask_line irq)

  -- A new mask for the controller of a line, read back.
  write_mask :
      (irq v b : ℕ) (s : S)
      → v < 256
      → ((i : ℕ)
          → i < 8
          → test_bit v i ≡ (
              if i == mask_line irq
              then b
              else test_bit (if ltb irq 8 then regs.imr1 s else regs.imr2 s) i))
      → (j : ℕ) → j < 16
      → line_masked j (ports.port_byte_out (mask_port irq) v s)
        ≡ (if j == irq then b else line_masked j s)
  unfolding line_masked
  write_mask irq v b s hv bits j hj = elim (Bool-cases (ltb irq 8)) [
    | inl p ↦ elim (Bool-cases (ltb j 8)) [
      | inl q ↦
          (let at = bits j (ltb→lt j 8 q) in
            ground (arith, at, p, q, ap (λ x. test_bit x j) (regs.out1 v s hv)))
      | inr q ↦ ground (arith, p, q, ap (λ x. test_bit x (j - 8)) (regs.out1_other v s))
    ]
    | inr p ↦ elim (Bool-cases (ltb j 8)) [
      | inl q ↦ ground (arith, p, q, ap (λ x. test_bit x j) (regs.out2_other v s))
      | inr q ↦
          (let at = bits (j - 8) (omega arith) in
            ground (arith, at, p, q, ap (λ x. test_bit x (j - 8)) (regs.out2 v s hv)))
    ]
  ]

  power_bound : (irq : ℕ) → irq < 40 → 2 ^ mask_line irq < 2 ^ 32
  power_bound irq h =
      let small : 2 ^ mask_line irq ≤ 2 ^ 31 =
        pow-le-pow_right {n = 2} (omega arith) {i = mask_line irq} {j = 31} (ground arith) in
      omega (arith, small)

  abbrev mask_of : ℕ → S → ℕ
  mask_of irq s = if ltb irq 8 then regs.imr1 s else regs.imr2 s

  read_mask : (irq : ℕ) (s : S) → ports.port_byte_in (mask_port irq) s ≡ (mask_of irq s, s)
  read_mask irq s = elim (Bool-cases (ltb irq 8)) [
    | inl p ↦ rw p (regs.in1 s)
    | inr p ↦ rw p (regs.in2 s)
  ]

  line_shift : (irq : ℕ) → irq < 40 → shl_one (mask_line irq) ≡ some (2 ^ mask_line irq)
  line_shift irq h = rw (lt→ltb (mask_line irq) 32 (ground arith)) refl

  -- With mask registers as the data sheet has them, `PIC_set_mask` of any line number below 40
  -- masks that line, and leaves the mask of each other of the sixteen lines as it was; a number
  -- from 16 on masks nothing.
  pub pic_set_mask_lem :
      (irq : ℕ) (s : S)
      → irq < 40
      → (s' : S) × (pic_set_mask ports irq s ≡ some s')
        × ((j : ℕ) → j < 16 → line_masked j s' ≡ (if j == irq then 1 else line_masked j s))
  unfolding pic_set_mask
  pic_set_mask_lem irq s h =
      let v = u8 (bit_or (mask_of irq s) (2 ^ mask_line irq)) in
      (
        ports.port_byte_out (mask_port irq) v s,
        rw (line_shift irq h) (rw (read_mask irq s) refl),
        write_mask irq v 1 s (omega arith) (set_bit (mask_of irq s) (mask_line irq)),
      )

  -- With mask registers as the data sheet has them, `PIC_clear_mask` of any line number below 40
  -- unmasks that line, and leaves the mask of each other of the sixteen lines as it was; a number
  -- from 16 on, as the two that `PIC_remap` ends with, unmasks nothing.
  pub pic_clear_mask_lem :
      (irq : ℕ) (s : S)
      → irq < 40
      → (s' : S) × (pic_clear_mask ports irq s ≡ some s')
        × ((j : ℕ) → j < 16 → line_masked j s' ≡ (if j == irq then 0 else line_masked j s))
  unfolding pic_clear_mask
  pic_clear_mask_lem irq s h =
      let m = mask_of irq s in
      let v = u8 (bit_and m (2 ^ 32 - 1 - 2 ^ mask_line irq)) in
      (
        ports.port_byte_out (mask_port irq) v s,
        rw (line_shift irq h) (rw (read_mask irq s) refl),
        write_mask irq v 0 s (omega arith)
            (λ i hi. clear_bit m (mask_line irq) i hi (ground arith) (power_bound irq h)),
      )
