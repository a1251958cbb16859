-- ===== src/Device/IoApicInit/Masked.antt =====
-- That the first loop of `ioapic_init` masks all entries.
use twos.Base.{ℕ, zero, suc, ◌+◌, ◌<◌, ◌≤◌, ◌≡◌, ◌≢◌, ◌∙◌, refl, ap, inl, test_bit, arith}
use native.Mathlib.Decide.{ℕ_discrete}
use native.Mathlib.Nat.{lt_irrefl}
use twos.Device.IoApic.{Window, IoApic, ioapicredtbl, ioapic_mask_gsi}
use twos.Device.IoApic.Mask.{Registers, mask_other, ioapic_mask_gsi_lem}
use twos.Device.IoApicInit.{mask_entries}

ioapicredtbl-ne : (i j : ℕ) → i < 120 → j < 120 → i ≢ j → ioapicredtbl i ≢ ioapicredtbl j
unfolding ioapicredtbl
ioapicredtbl-ne i j h h' ne = omega (arith, h, h', ne)

module _ {S : Type 0} (window : Window S) (ioapic : IoApic)
    (regs : Registers window (ioapic.base)) where
  mask_bit : ℕ → S → ℕ
  mask_bit idx s = test_bit (regs.value s (ioapicredtbl idx)) 16

  mask_entries-before :
      (left i idx : ℕ) (s : S)
      → i + left ≤ regs.entries + 1
      → i + left ≤ ioapic.max_redir + 1
      → idx < i
      → mask_bit idx (mask_entries window left i ioapic s) ≡ mask_bit idx s
  unfolding mask_entries mask_bit
  mask_entries-before zero i idx s h hm p = refl
  mask_entries-before (suc left) i idx s h hm p =
      let s1 = (ioapic_mask_gsi window ioapic i s).1 in
      mask_entries-before left (i + 1) idx s1 (omega (arith, h)) (omega (arith, hm))
        (omega (arith, p))
      ∙ ap (λ w. test_bit w 16)
          (mask_other window ioapic regs i (ioapicredtbl idx) s (omega (arith, h)) (
            ioapicredtbl-ne idx i (omega (arith, p, h, regs.few)) (omega (arith, h, regs.few))
              (omega (arith, p))))

  mask_entries-from :
      (left i idx : ℕ) (s : S)
      → i + left ≤ regs.entries + 1
      → i + left ≤ ioapic.max_redir + 1
      → i ≤ idx
      → idx < i + left
      → idx < regs.entries
      → mask_bit idx (mask_entries window left i ioapic s) ≡ 1
  unfolding mask_entries mask_bit
  mask_entries-from zero i idx s h hm p q there = elim (lt_irrefl 0 (omega (arith, p, q))) [ ]
  mask_entries-from (suc left) i idx s h hm p q there =
      let s1 = (ioapic_mask_gsi window ioapic i s).1 in
      elim (ℕ_discrete idx i) [
        | yes same ↦
            let step =
              ioapic_mask_gsi_lem window ioapic regs i s (omega (arith, h, regs.few, same, there))
                (inl (omega (arith, same, there))) in
            let within = step.0 (omega (arith, hm)) in
            (mask_entries-before left (i + 1) idx s1 (omega (arith, h)) (omega (arith, hm))
                (omega (arith, same))
              ∙ ap (λ j. test_bit (regs.value s1 (ioapicredtbl j)) 16) same
              ∙ within.1 16 (omega arith) (omega arith) (omega arith))
        | no ne ↦
            mask_entries-from left (i + 1) idx s1 (omega (arith, h)) (omega (arith, hm))
              (omega (arith, p, ne)) (omega (arith, q)) there
      ]

  -- With registers as the data sheet has them, and where `max_redir` is at most the number of the
  -- controller's entries, as `ioapic_init` sets it: the first loop of `ioapic_init` sets the mask bit
  -- of each entry up to `max_redir` that the controller has.
  pub mask_entries_lem :
      (idx : ℕ) (s : S)
      → ioapic.max_redir ≤ regs.entries
      → idx ≤ ioapic.max_redir
      → idx < regs.entries
      → test_bit
          (regs.value (mask_entries window (ioapic.max_redir + 1) 0 ioapic s) (ioapicredtbl idx))
          16
        ≡ 1
  unfolding mask_bit
  mask_entries_lem idx s h p there =
      mask_entries-from (ioapic.max_redir + 1) 0 idx s (omega (arith, h)) (omega arith)
        (omega arith) (omega (arith, p)) there
