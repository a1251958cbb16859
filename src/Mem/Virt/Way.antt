-- ===== src/Mem/Virt/Way.antt =====
-- The way down to the last table: the tables on it, made where they are missing.
use twos.Base.{
  ℕ, ◌+◌, ◌*◌, ◌/◌, ◌%◌, ◌^◌, ◌≤◌, ◌≡◌, ◌≢◌, ◌⊎◌, ◌<◌, refl, ◌∙◌, inl, inr, some, load, arith,
}
use twos.Mem.Virt.{Vmm, table_flags, virt_get_next_map_level}
use twos.Mem.Virt.Level.{
  HasTables, IsApart, Leads, IsEntry, named, used, next_level-fresh, next_level-present, load-zero,
}

-- The eight bytes at two addresses do not meet.
abbrev pub Disjoint : ℕ → ℕ → Type 0
Disjoint a b = (a + 8 ≤ b) ⊎ (b + 8 ≤ a)

-- What has to hold for a page to be mapped: four tables are left, and the entries on the way are
-- not present, or for tables that do not meet one another or the tables that are left.
abbrev pub CanMap : ℕ → ℕ → Vmm → Type 0
CanMap pt virt s =
    let slot4 = pt + 8 * (virt / 2 ^ 39 % 512) in
    let e4 = load 8 slot4 s.mem in
    let slot3 = named e4 + 8 * (virt / 2 ^ 30 % 512) in
    let e3 = load 8 slot3 s.mem in
    let slot2 = named e3 + 8 * (virt / 2 ^ 21 % 512) in
    (pt ≢ 0)
    × HasTables 4 s
    × IsApart s slot4
    × ((e4 % 2 ≡ 0)
        ⊎ (IsEntry e4
            × (named e4 ≢ 0)
            × IsApart s slot3
            × Disjoint slot4 slot3
            × ((e3 % 2 ≡ 0)
                ⊎ (IsEntry e3 × Disjoint slot4 slot2 × Disjoint slot3 slot2 × IsApart s slot2))))

-- An entry at `a` that mapping the page leaves alone: outside the tables that are left, and away from
-- the entries on the way that are made and from the page's own.
abbrev pub Spared : ℕ → ℕ → Vmm → ℕ → Type 0
Spared pt virt s a =
    let slot4 = pt + 8 * (virt / 2 ^ 39 % 512) in
    let e4 = load 8 slot4 s.mem in
    let slot3 = named e4 + 8 * (virt / 2 ^ 30 % 512) in
    let e3 = load 8 slot3 s.mem in
    let slot2 = named e3 + 8 * (virt / 2 ^ 21 % 512) in
    IsApart s a
    × (Disjoint a slot4 ⊎ (e4 % 2 ≡ 1))
    × ((e4 % 2 ≡ 0) ⊎ ((Disjoint a slot3 ⊎ (e3 % 2 ≡ 1)) × ((e3 % 2 ≡ 0) ⊎ Disjoint a slot2)))

-- The tables on the way to a page, made where they were missing.
pub record HasWay (pt virt : ℕ) (s : Vmm) : Type 0 where
  pub s₁ : Vmm
  pub s₂ : Vmm
  pub p3 : ℕ
  pub p2 : ℕ
  pub gets3 : virt_get_next_map_level pt (virt / 2 ^ 39 % 512) table_flags s ≡ some (p3, s₁)
  pub gets2 : virt_get_next_map_level p3 (virt / 2 ^ 30 % 512) table_flags s₁ ≡ some (p2, s₂)
  pub leads3 : Leads s s₁ pt (virt / 2 ^ 39 % 512) p3
  pub leads2 : Leads s₁ s₂ p3 (virt / 2 ^ 30 % 512) p2
  pub d43 : Disjoint (pt + 8 * (virt / 2 ^ 39 % 512)) (p3 + 8 * (virt / 2 ^ 30 % 512))
  pub d42 : Disjoint (pt + 8 * (virt / 2 ^ 39 % 512)) (p2 + 8 * (virt / 2 ^ 21 % 512))
  pub d32 : Disjoint (p3 + 8 * (virt / 2 ^ 30 % 512)) (p2 + 8 * (virt / 2 ^ 21 % 512))
  pub spares :
      (a : ℕ)
      → Spared pt virt s a
      → Disjoint a (p2 + 8 * (virt / 2 ^ 21 % 512))
        × ((b : ℕ) → a ≤ b → b < a + 8 → s₂.mem b ≡ s.mem b)

pub CanMap-HasWay : (pt virt : ℕ) (s : Vmm) → CanMap pt virt s → HasWay pt virt s
CanMap-HasWay pt virt s (pos, r, apart, inl absent) =
    let i4 = virt / 2 ^ 39 % 512 in
    let i3 = virt / 2 ^ 30 % 512 in
    let i2 = virt / 2 ^ 21 % 512 in
    let (s₁, gets3, leads3, r₁, more) = next_level-fresh 2 s pt i4 r pos apart absent in
    let p3 = s.cur + 4096 * (used s + 1) in
    let zero3 : load 8 (p3 + 8 * i3) s₁.mem ≡ 0 = load-zero 8 (p3 + 8 * i3) s₁.mem λ b h h'.
      leads3.keeps b (omega (arith, apart, h, h')) (omega (arith, r.room, h, h'))
      ∙ r.clear b (omega (arith, h)) (omega (arith, r.room, h')) in
    let (s₂, gets2, leads2, r₂, more₂) =
      next_level-fresh 0 s₁ p3 i3 r₁ (omega (arith, r.from))
        (inl (omega (arith, leads3.same_cur, more))) (omega (arith, zero3)) in
    record {
      s₁ = s₁;
      s₂ = s₂;
      p3 = p3;
      p2 = s₁.cur + 4096 * (used s₁ + 1);
      gets3 = gets3;
      gets2 = gets2;
      leads3 = leads3;
      leads2 = leads2;
      d43 = omega (arith, apart);
      d42 = omega (arith, apart, leads3.same_cur, more, r.room);
      d32 = inl (omega (arith, leads3.same_cur, more));
      spares = λ a (out, d4, rest). (
        omega (arith, out, leads3.same_cur, more, r.room),
        λ b h h'.
            leads2.keeps b (omega (arith, out, r.room, h, h'))
              (omega (arith, out, leads3.same_cur, r.room, h, h'))
            ∙ leads3.keeps b (omega (arith, d4, absent, h, h')) (omega (arith, out, r.room, h, h')),
      );
    }
CanMap-HasWay pt virt s (pos, r, apart, inr (e, ne, apart3, d43, inl absent)) =
    let i3 = virt / 2 ^ 30 % 512 in
    let p3 = named (load 8 (pt + 8 * (virt / 2 ^ 39 % 512)) s.mem) in
    let (gets3, leads3) = next_level-present s pt (virt / 2 ^ 39 % 512) pos e in
    let (s₂, gets2, leads2, r₂, more₂) = next_level-fresh 2 s p3 i3 r ne apart3 absent in
    record {
      s₁ = s;
      s₂ = s₂;
      p3 = p3;
      p2 = s.cur + 4096 * (used s + 1);
      gets3 = gets3;
      gets2 = gets2;
      leads3 = leads3;
      leads2 = leads2;
      d43 = d43;
      d42 = omega (arith, apart, r.room);
      d32 = omega (arith, apart3, r.room);
      spares = λ a (out, d4, rest). (
        omega (arith, out, r.room),
        λ b h h'.
            leads2.keeps b (omega (arith, rest, e.present, absent, h, h'))
              (omega (arith, out, r.room, h, h')),
      );
    }
CanMap-HasWay pt virt s (pos, r, apart, inr (e, ne, apart3, d43, inr (e', d42, d32, apart2))) =
    let p3 = named (load 8 (pt + 8 * (virt / 2 ^ 39 % 512)) s.mem) in
    let (gets3, leads3) = next_level-present s pt (virt / 2 ^ 39 % 512) pos e in
    let (gets2, leads2) = next_level-present s p3 (virt / 2 ^ 30 % 512) ne e' in
    record {
      s₁ = s;
      s₂ = s;
      p3 = p3;
      p2 = named (load 8 (p3 + 8 * (virt / 2 ^ 30 % 512)) s.mem);
      gets3 = gets3;
      gets2 = gets2;
      leads3 = leads3;
      leads2 = leads2;
      d43 = d43;
      d42 = d42;
      d32 = d32;
      spares = λ a (out, d4, rest). (omega (arith, rest, e.present, e'.present), λ b h h'. refl);
    }
