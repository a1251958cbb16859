-- ===== src/Device/IoApic/Mask.antt =====
-- What masking a line writes to its redirection entry.
use twos.Base.{
  ℕ, ◌+◌, ◌*◌, ◌%◌, ◌^◌, ◌<◌, ◌≤◌, ◌≡◌, ◌≢◌, ◌⊎◌, inl, inr, Bool-cases, ◌∙◌, sym, refl, ap, ap₂,
  max, ltb, ◌==◌, false, true, if◌then◌else◌, u32, bit_or, test_bit-low, test_bit, test_bit-lt_two,
  test_bit-bit_or, test_bit-two_pow_self, test_bit-two_pow_ne, zero-test_bit, arith,
}
use native.Mathlib.Decide.{ℕ_discrete}
use twos.Device.IoApic.{
  Window, IoApic, ioapicredtbl, ioapic_read, ioapic_write, ioapic_read_redtbl_entry,
  ioapic_mask_gsi,
}

-- The registers of the controller, as its data sheet has them: the word at `base` selects one, the
-- word behind it reads and writes the selected one; the k-th redirection entry has its lower half at
-- 0x10 + 2 * k. In the lower half of an entry the bits up to the mask, 16, are written, but for the two
-- of status, 12 and 14, and no other register changes. A write to the place right behind the entries,
-- which the code makes too, changes none of the others; of writes elsewhere nothing is said. Between the
-- accesses the registers stand still: no interrupt comes that would move the bits of status.
pub record Registers {S : Type 0} (window : Window S) (base : ℕ) : Type 0 where
  pub value : S → ℕ → ℕ
  pub selected : S → ℕ
  pub entries : ℕ
  pub few : entries < 120
  pub select : (r : ℕ) (s : S) → r < 256 → selected (window.write32 base r s) ≡ r
  pub select_keeps : (r i : ℕ) (s : S) → value (window.write32 base r s) i ≡ value s i
  pub reads : (s : S) → window.read32 (base + 0x10) s ≡ (value s (selected s), s)
  pub writes :
      (k v i : ℕ) (s : S)
      → k < entries
      → selected s ≡ 0x10 + 2 * k
      → i ≤ 16
      → i ≢ 12
      → i ≢ 14
      → test_bit (value (window.write32 (base + 0x10) v s) (selected s)) i ≡ test_bit v i
  pub writes_keep :
      (k v r : ℕ) (s : S)
      → k ≤ entries
      → selected s ≡ 0x10 + 2 * k
      → r ≢ selected s
      → value (window.write32 (base + 0x10) v s) r ≡ value s r

-- The bit that the shift by 31 brings in stands above the mask.
upper_bit : (high i : ℕ) → i ≤ 16 → test_bit (u32 (high * 2 ^ 31)) i ≡ 0
upper_bit high i h = elim (ℕ_discrete (high % 2) 0) [
  | yes e ↦ (ap (λ x. test_bit x i) (lem0 e) ∙ zero-test_bit i)
  | no ne ↦ (ap (λ x. test_bit x i) (lem1 ne) ∙ test_bit-two_pow_ne 31 i (omega (arith, h)))
]
  where
    lem0 : high % 2 ≡ 0 → u32 (high * 2 ^ 31) ≡ 0
    lem0 e = omega (arith, e)

    lem1 : high % 2 ≢ 0 → u32 (high * 2 ^ 31) ≡ 2 ^ 31
    lem1 ne = omega (arith, ne)

-- A bit of the word that is written: of the lower half, or the mask.
masked_bit :
    (low high i : ℕ)
    → i ≤ 16
    → test_bit (u32 (bit_or (bit_or low (u32 (high * 2 ^ 31))) (2 ^ 16))) i
      ≡ (if i == 16 then 1 else test_bit low i)
masked_bit low high i h =
    test_bit-low 32 (bit_or (bit_or low (u32 (high * 2 ^ 31))) (2 ^ 16)) i (omega (arith, h))
    ∙ test_bit-bit_or i (bit_or low (u32 (high * 2 ^ 31))) (2 ^ 16)
    ∙ ap (λ b. max b (test_bit (2 ^ 16) i)) (test_bit-bit_or i low (u32 (high * 2 ^ 31)))
    ∙ ap (λ b. max (max (test_bit low i) b) (test_bit (2 ^ 16) i)) (upper_bit high i h)
    ∙ elim (ℕ_discrete 16 i) [
      | yes e ↦
          ground (arith, test_bit-two_pow_self 16, ap (test_bit (2 ^ 16)) e, test_bit-lt_two low i)
      | no ne ↦ ground (arith, test_bit-two_pow_ne 16 i ne)
    ]

ioapicredtbl-lt : (idx : ℕ) → ioapicredtbl idx < 256
unfolding ioapicredtbl
ioapicredtbl-lt idx = omega arith

ioapicredtbl_lem : (idx : ℕ) → idx < 120 → ioapicredtbl idx ≡ 0x10 + 2 * idx
unfolding ioapicredtbl
ioapicredtbl_lem idx h = omega (arith, h)

module _ {S : Type 0} (window : Window S) (ioapic : IoApic)
    (regs : Registers window (ioapic.base)) where
  read_value : (r : ℕ) (s : S) → r < 256 → (ioapic_read window (ioapic.base) r s).0 ≡ regs.value s r
  unfolding ioapic_read
  read_value r s h =
      let s1 = window.write32 (ioapic.base) r s in
      ap (λ p. p.0) (regs.reads s1)
      ∙ ap (regs.value s1) (regs.select r s h)
      ∙ regs.select_keeps r r s

  read_keeps :
      (r i : ℕ) (s : S) → regs.value ((ioapic_read window (ioapic.base) r s).1) i ≡ regs.value s i
  unfolding ioapic_read
  read_keeps r i s =
      let s1 = window.write32 (ioapic.base) r s in
      ap (λ p. regs.value (p.1) i) (regs.reads s1) ∙ regs.select_keeps r i s

  -- The word that `ioapic_read_redtbl_entry` makes of an entry's halves: the upper half's lowest
  -- bit at place 31.
  read_entry :
      (idx : ℕ) (s : S)
      → idx < 120
      → (ioapic_read_redtbl_entry window (ioapic.base) idx s).0
        ≡ bit_or
            (regs.value s (ioapicredtbl idx))
            (u32 (regs.value s (ioapicredtbl idx + 1) * 2 ^ 31))
  unfolding ioapic_read_redtbl_entry ioapicredtbl
  read_entry idx s h =
      let offset = ioapicredtbl idx in
      let s1 = (ioapic_read window (ioapic.base) offset s).1 in
      ap₂ (λ a b. bit_or a (u32 (b * 2 ^ 31))) (read_value offset s (omega arith))
        (read_value (offset + 1) s1 (omega (arith, h)) ∙ read_keeps offset (offset + 1) s)

  read_entry_keeps :
      (idx i : ℕ) (s : S)
      → regs.value ((ioapic_read_redtbl_entry window (ioapic.base) idx s).1) i ≡ regs.value s i
  unfolding ioapic_read_redtbl_entry
  read_entry_keeps idx i s =
      let offset = ioapicredtbl idx in
      let s1 = (ioapic_read window (ioapic.base) offset s).1 in
      read_keeps (offset + 1) i s1 ∙ read_keeps offset i s

  write_bit :
      (idx v i : ℕ) (s : S)
      → idx < regs.entries
      → i ≤ 16
      → i ≢ 12
      → i ≢ 14
      → test_bit
          (regs.value (ioapic_write window (ioapic.base) (ioapicredtbl idx) v s) (ioapicredtbl idx))
          i
        ≡ test_bit v i
  unfolding ioapic_write
  write_bit idx v i s h hi n12 n14 =
      let r = ioapicredtbl idx in
      let there = regs.select r s (ioapicredtbl-lt idx) in
      let s1 = window.write32 (ioapic.base) r s in
      ap (λ sel. test_bit (regs.value (window.write32 (ioapic.base + 0x10) v s1) sel) i) (sym there)
      ∙ regs.writes idx v i s1 h (there ∙ ioapicredtbl_lem idx (omega (arith, h, regs.few))) hi n12
          n14

  write_other :
      (idx v r' : ℕ) (s : S)
      → idx ≤ regs.entries
      → r' ≢ ioapicredtbl idx
      → regs.value (ioapic_write window (ioapic.base) (ioapicredtbl idx) v s) r' ≡ regs.value s r'
  unfolding ioapic_write
  write_other idx v r' s h ne =
      let r = ioapicredtbl idx in
      let there = regs.select r s (ioapicredtbl-lt idx) in
      let s1 = window.write32 (ioapic.base) r s in
      regs.writes_keep idx v r' s1 h (there ∙ ioapicredtbl_lem idx (omega (arith, h, regs.few)))
        (λ e. ne (e ∙ there))
      ∙ regs.select_keeps r r' s

  -- Masking changes no other register, also at the place right behind the entries.
  pub mask_other :
      (idx r : ℕ) (s : S)
      → idx ≤ regs.entries
      → r ≢ ioapicredtbl idx
      → regs.value ((ioapic_mask_gsi window ioapic idx s).1) r ≡ regs.value s r
  unfolding ioapic_mask_gsi
  mask_other idx r s h ne =
      let (word, s1) = ioapic_read_redtbl_entry window (ioapic.base) idx s in
      elim (Bool-cases (ltb (ioapic.max_redir) idx)) [
        | inl e ↦ rw e (read_entry_keeps idx r s)
        | inr e ↦
            rw e (write_other idx (u32 (bit_or word (2 ^ 16))) r s1 h ne ∙ read_entry_keeps idx r s)
      ]

  -- With registers as the data sheet has them, and of an index below 120 that is one of the
  -- controller's entries or past `max_redir`: up to `max_redir` `ioapic_mask_gsi` returns 0, sets the
  -- entry's mask bit, keeps the other writable bits up to it, and leaves every other register; past
  -- `max_redir` it returns 1 and leaves all registers.
  pub ioapic_mask_gsi_lem :
      (idx : ℕ) (s : S)
      → idx < 120
      → (idx < regs.entries) ⊎ (ioapic.max_redir < idx)
      → (idx ≤ ioapic.max_redir
          → ((ioapic_mask_gsi window ioapic idx s).0 ≡ 0)
            × ((i : ℕ)
                → i ≤ 16
                → i ≢ 12
                → i ≢ 14
                → test_bit
                    (regs.value ((ioapic_mask_gsi window ioapic idx s).1) (ioapicredtbl idx))
                    i
                  ≡ (if i == 16 then 1 else test_bit (regs.value s (ioapicredtbl idx)) i))
            × ((r : ℕ)
                → r ≢ ioapicredtbl idx
                → regs.value ((ioapic_mask_gsi window ioapic idx s).1) r ≡ regs.value s r))
        × (ioapic.max_redir < idx
            → ((ioapic_mask_gsi window ioapic idx s).0 ≡ 1)
              × ((r : ℕ) → regs.value ((ioapic_mask_gsi window ioapic idx s).1) r ≡ regs.value s r))
  unfolding ioapic_mask_gsi
  ioapic_mask_gsi_lem idx s h known = (
    (λ p. (
      rw (in_range p) refl,
      (λ i hi n12 n14. rw (in_range p) (
          write_bit idx (u32 (bit_or word (2 ^ 16))) i s1 (omega (arith, p, known)) hi n12 n14
          ∙ ap (λ w. test_bit (u32 (bit_or w (2 ^ 16))) i) (read_entry idx s h)
          ∙ masked_bit (regs.value s offset) (regs.value s (offset + 1)) i hi)),
      (λ r ne. rw (in_range p) (
          write_other idx (u32 (bit_or word (2 ^ 16))) r s1 (omega (arith, p, known)) ne
          ∙ read_entry_keeps idx r s)),
    )),
    (λ p. (rw (out_of_range p) refl, λ r. rw (out_of_range p) (read_entry_keeps idx r s))),
  )
    where
      offset : ℕ
      offset = ioapicredtbl idx

      word : ℕ
      word = (ioapic_read_redtbl_entry window (ioapic.base) idx s).0

      s1 : S
      s1 = (ioapic_read_redtbl_entry window (ioapic.base) idx s).1

      in_range : idx ≤ ioapic.max_redir → ltb (ioapic.max_redir) idx ≡ false
      in_range p = ground (arith, p)

      out_of_range : ioapic.max_redir < idx → ltb (ioapic.max_redir) idx ≡ true
      out_of_range p = ground (arith, p)
