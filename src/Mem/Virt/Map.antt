-- ===== src/Mem/Virt/Map.antt =====
-- Mapping a page: what the processor then makes of the page's addresses.
use twos.Base.{
  ℕ, ◌+◌, ◌*◌, ◌/◌, ◌%◌, ◌^◌, ◌<◌, ◌≤◌, ◌≡◌, ◌∙◌, refl, ap, ◌==◌, if◌then◌else◌, Option, none, some,
  Memory, load, store, store_outside, load_ext, load-store_self, bit_and, bit_or, bit_or_disjoint,
  bit_and-low_mask, arith,
}
use twos.Mem.Page.{page_align, page_align_lem}
use twos.Mem.Virt.{Vmm, with_mem, idx_offset, table_index, virt_map_page, virt_unmap_page}
use twos.Mem.Virt.Walk.{descend, translate}
use twos.Mem.Virt.Level.{Leads}
use twos.Mem.Virt.Way.{Disjoint, CanMap, CanMap-HasWay}

-- The indices of the addresses of a page.
module _ (virt v : ℕ) (h : virt < 2 ^ 64) (same : v / 2 ^ 21 ≡ virt / 2 ^ 21) where
  pub index4 : table_index 39 (page_align virt) ≡ v / 2 ^ 39 % 512
  index4 =
      ap (λ a. bit_and (a / 2 ^ 39) 0x1ff) (page_align_lem virt h)
      ∙ bit_and-low_mask 9 (virt / 2 ^ 21 * 2 ^ 21 / 2 ^ 39)
      ∙ omega (arith, same)

  pub index3 : table_index 30 (page_align virt) ≡ v / 2 ^ 30 % 512
  index3 =
      ap (λ a. bit_and (a / 2 ^ 30) 0x1ff) (page_align_lem virt h)
      ∙ bit_and-low_mask 9 (virt / 2 ^ 21 * 2 ^ 21 / 2 ^ 30)
      ∙ omega (arith, same)

  pub index2 : table_index 21 (page_align virt) ≡ v / 2 ^ 21 % 512
  index2 =
      ap (λ a. bit_and (a / 2 ^ 21) 0x1ff) (page_align_lem virt h)
      ∙ bit_and-low_mask 9 (virt / 2 ^ 21 * 2 ^ 21 / 2 ^ 21)
      ∙ omega (arith, same)

pub descend_ext :
    (table index : ℕ) (mem mem' : Memory)
    → ((b : ℕ) → table + 8 * index ≤ b → b < table + 8 * index + 8 → mem' b ≡ mem b)
    → descend table index mem' ≡ descend table index mem
unfolding descend
descend_ext table index mem mem' h = rw (load_ext 8 (table + 8 * index) mem mem' h) refl

-- Two steps down the tables and a last entry: the processor takes both steps and finds the entry.
module _ (s s₁ s₂ : Vmm) (pt p3 p2 i4 i3 i2 word : ℕ) (l4 : Leads s s₁ pt i4 p3)
    (l3 : Leads s₁ s₂ p3 i3 p2) (apart : Disjoint (pt + 8 * i4) (s.cur + idx_offset))
    (d43 : Disjoint (pt + 8 * i4) (p3 + 8 * i3)) (d42 : Disjoint (pt + 8 * i4) (p2 + 8 * i2))
    (d32 : Disjoint (p3 + 8 * i3) (p2 + 8 * i2)) where
  abbrev mapped : Memory
  mapped = store 8 (p2 + 8 * i2) word s₂.mem

  mapped-descend4 : descend pt i4 mapped ≡ some p3
  mapped-descend4 =
      descend_ext pt i4 s₁.mem mapped (λ b h h'.
        store_outside 8 (p2 + 8 * i2) word s₂.mem b (omega (arith, d42, h, h'))
        ∙ l3.keeps b (omega (arith, d43, h, h')) (omega (arith, apart, l4.same_cur, h, h')))
      ∙ l4.descends

  mapped-descend3 : descend p3 i3 mapped ≡ some p2
  mapped-descend3 =
      descend_ext p3 i3 s₂.mem mapped
        (λ b h h'. store_outside 8 (p2 + 8 * i2) word s₂.mem b (omega (arith, d32, h, h')))
      ∙ l3.descends

  mapped-load : word < 2 ^ 64 → load 8 (p2 + 8 * i2) mapped ≡ word
  mapped-load h = load-store_self 8 (p2 + 8 * i2) word s₂.mem h

-- The entry that is written for a page, as the processor reads it.
module _ (phys flags : ℕ) (hp : phys < 2 ^ 52) (hf : flags < 2 ^ 12) where
  abbrev entry : ℕ
  entry = bit_or (page_align phys) flags

  entry_lem : entry ≡ phys / 2 ^ 21 * 2 ^ 21 + flags
  entry_lem =
      ap (λ x. bit_or x flags) (page_align_lem phys (omega (arith, hp)))
      ∙ bit_or_disjoint 21 (phys / 2 ^ 21) flags (omega (arith, hf))

-- What the processor makes of that entry.
abbrev pub page_seen : ℕ → ℕ → ℕ → Option ℕ
page_seen phys flags v =
    if flags % 2 == 0
    then none
    else if flags / 2 ^ 7 % 2 == 0
    then none
    else some (phys / 2 ^ 21 * 2 ^ 21 + v % 2 ^ 21)

entry-reads :
    (phys flags word v : ℕ)
    → phys < 2 ^ 52
    → flags < 2 ^ 12
    → word ≡ phys / 2 ^ 21 * 2 ^ 21 + flags
    → (if word % 2 == 0
        then none
        else if word / 2 ^ 7 % 2 == 0
        then none
        else some (word / 2 ^ 21 % 2 ^ 31 * 2 ^ 21 + v % 2 ^ 21))
      ≡ page_seen phys flags v
entry-reads phys flags word v hp hf e =
    let present : word % 2 ≡ flags % 2 = omega (arith, e) in
    let large : word / 2 ^ 7 % 2 ≡ flags / 2 ^ 7 % 2 = omega (arith, e, hf) in
    let frame : word / 2 ^ 21 % 2 ^ 31 ≡ phys / 2 ^ 21 = omega (arith, e, hf, hp) in
    rw present (rw large (rw frame refl))

-- Where the tables on the way can be followed or made, for a physical address below 2^52 and flags of
-- 12 bits: mapping returns the start of the page, and the processor then finds for every address of
-- the page what the flags say, no page without the present flag or the flag of large pages, else the
-- address at the same place in the physical page.
pub virt_map_page_lem :
    (pt phys virt flags : ℕ) (s : Vmm)
    → virt < 2 ^ 64
    → phys < 2 ^ 52
    → flags < 2 ^ 12
    → CanMap pt virt s
    → (s' : Vmm) × (virt_map_page pt phys virt flags s ≡ some (page_align virt, s'))
      × ((v : ℕ) → v / 2 ^ 21 ≡ virt / 2 ^ 21 → translate s'.mem pt v ≡ page_seen phys flags v)
unfolding virt_map_page translate
virt_map_page_lem pt phys virt flags s hv hp hf can =
    let w = CanMap-HasWay pt virt s can in
    let i4 = virt / 2 ^ 39 % 512 in
    let i3 = virt / 2 ^ 30 % 512 in
    let i2 = virt / 2 ^ 21 % 512 in
    let word = entry phys flags hp hf in
    let word_is = entry_lem phys flags hp hf in
    let apart : Disjoint (pt + 8 * i4) (s.cur + idx_offset) = omega (arith, can.2, can.1.room) in
    let mem' =
      mapped s w.s₁ w.s₂ pt w.p3 w.p2 i4 i3 i2 word w.leads3 w.leads2 apart w.d43 w.d42 w.d32 in
    let down4 =
      mapped-descend4 s w.s₁ w.s₂ pt w.p3 w.p2 i4 i3 i2 word w.leads3 w.leads2 apart w.d43 w.d42
        w.d32 in
    let down3 =
      mapped-descend3 s w.s₁ w.s₂ pt w.p3 w.p2 i4 i3 i2 word w.leads3 w.leads2 apart w.d43 w.d42
        w.d32 in
    let last =
      mapped-load s w.s₁ w.s₂ pt w.p3 w.p2 i4 i3 i2 word w.leads3 w.leads2 apart w.d43 w.d42 w.d32
        (omega (arith, word_is, hp, hf)) in
    (
      with_mem w.s₂ mem',
      rw (index4 virt virt hv refl) (
          rw w.gets3
            (rw (index3 virt virt hv refl) (rw w.gets2 (rw (index2 virt virt hv refl) refl)))),
      λ v same.
          let at4 : v / 2 ^ 39 % 512 ≡ i4 = omega (arith, same) in
          let at3 : v / 2 ^ 30 % 512 ≡ i3 = omega (arith, same) in
          let at2 : v / 2 ^ 21 % 512 ≡ i2 = omega (arith, same) in
          rw at4 (
            rw down4
              (rw at3 (rw down3 (rw at2 (rw last (entry-reads phys flags word v hp hf word_is)))))),
    )

-- Unmapping leaves no translation for any address of the page.
pub virt_unmap_page_lem :
    (pt virt : ℕ) (s : Vmm)
    → virt < 2 ^ 64
    → CanMap pt virt s
    → (s' : Vmm) × (virt_unmap_page pt virt s ≡ some s')
      × ((v : ℕ) → v / 2 ^ 21 ≡ virt / 2 ^ 21 → translate s'.mem pt v ≡ none)
unfolding virt_unmap_page
virt_unmap_page_lem pt virt s hv can =
    let (s', maps, seen) = virt_map_page_lem pt 0 virt 0 s hv (omega arith) (omega arith) can in
    (s', rw maps refl, seen)
