-- ===== src/Mem/Virt/Frame.antt =====
-- Mapping a page leaves the pages of other tables and other entries as they were.
use twos.Base.{
  ℕ, ◌+◌, ◌*◌, ◌/◌, ◌%◌, ◌^◌, ◌<◌, ◌≤◌, ◌≡◌, ◌⊎◌, ◌∙◌, refl, some, inl, inr, bit_or, store,
  store_outside, load_ext, Memory, arith,
}
use twos.Mem.Page.{page_align}
use twos.Mem.Virt.{Vmm, with_mem, virt_map_page}
use twos.Mem.Virt.Walk.{descend, translate}
use twos.Mem.Virt.Way.{Spared, CanMap, CanMap-HasWay}
use twos.Mem.Virt.Map.{index4, index3, index2, descend_ext}

-- The page's entry is written behind the tables of the way.
pub virt_map_page-keeps :
    (pt phys virt flags : ℕ) (s : Vmm)
    → virt < 2 ^ 64
    → CanMap pt virt s
    → (s' : Vmm) × (virt_map_page pt phys virt flags s ≡ some (page_align virt, s'))
      × ((a : ℕ) → Spared pt virt s a → (b : ℕ) → a ≤ b → b < a + 8 → s'.mem b ≡ s.mem b)
unfolding virt_map_page
virt_map_page-keeps pt phys virt flags s hv can =
    let w = CanMap-HasWay pt virt s can in
    let slot2 = w.p2 + 8 * (virt / 2 ^ 21 % 512) in
    let word = bit_or (page_align phys) flags in
    (
      with_mem w.s₂ (store 8 slot2 word w.s₂.mem),
      rw (index4 virt virt hv refl) (
          rw w.gets3
            (rw (index3 virt virt hv refl) (rw w.gets2 (rw (index2 virt virt hv refl) refl)))),
      λ a spared b h h'.
          let (away, kept) = w.spares a spared in
          store_outside 8 slot2 word w.s₂.mem b (omega (arith, away, h, h')) ∙ kept b h h',
    )

-- The places of the three entries that translate `v`, in the tables at `pt`, `q3` and `q2`.
abbrev pub IsSlot : ℕ → ℕ → ℕ → ℕ → ℕ → Type 0
IsSlot pt q3 q2 v a =
    (a ≡ pt + 8 * (v / 2 ^ 39 % 512))
    ⊎ (a ≡ q3 + 8 * (v / 2 ^ 30 % 512))
    ⊎ (a ≡ q2 + 8 * (v / 2 ^ 21 % 512))

translate_ext :
    (mem mem' : Memory) (pt q3 q2 v : ℕ)
    → descend pt (v / 2 ^ 39 % 512) mem ≡ some q3
    → descend q3 (v / 2 ^ 30 % 512) mem ≡ some q2
    → ((a : ℕ) → IsSlot pt q3 q2 v a → (b : ℕ) → a ≤ b → b < a + 8 → mem' b ≡ mem b)
    → translate mem' pt v ≡ translate mem pt v
unfolding translate
translate_ext mem mem' pt q3 q2 v d4 d3 same =
    let kept = λ (a : ℕ) (at : IsSlot pt q3 q2 v a). same a at in
    let d4' = descend_ext pt (v / 2 ^ 39 % 512) mem mem' (kept _ (inl refl)) ∙ d4 in
    let d3' = descend_ext q3 (v / 2 ^ 30 % 512) mem mem' (kept _ (inr (inl refl))) ∙ d3 in
    let last = load_ext 8 (q2 + 8 * (v / 2 ^ 21 % 512)) mem mem' (kept _ (inr (inr refl))) in
    rw d4' (rw d4 (rw d3' (rw d3 (rw last refl))))

-- Mapping a page leaves every address translated as before whose three entries are spared: they lie
-- outside the tables that are left, and away from the page's own entry and from the entries on its way
-- that have to be made. This holds for the addresses of other pages in the same tables too, and also
-- for those that have no translation.
pub virt_map_page-frame :
    (pt phys virt flags : ℕ) (s : Vmm)
    → virt < 2 ^ 64
    → CanMap pt virt s
    → (s' : Vmm) × (virt_map_page pt phys virt flags s ≡ some (page_align virt, s'))
      × ((v q3 q2 : ℕ)
          → descend pt (v / 2 ^ 39 % 512) s.mem ≡ some q3
          → descend q3 (v / 2 ^ 30 % 512) s.mem ≡ some q2
          → ((a : ℕ) → IsSlot pt q3 q2 v a → Spared pt virt s a)
          → translate s'.mem pt v ≡ translate s.mem pt v)
virt_map_page-frame pt phys virt flags s hv can =
    let (s', maps, keeps) = virt_map_page-keeps pt phys virt flags s hv can in
    (
      s',
      maps,
      λ v q3 q2 d4 d3 spared.
          translate_ext s.mem s'.mem pt q3 q2 v d4 d3 (λ a at. keeps a (spared a at)),
    )
