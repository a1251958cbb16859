-- ===== src/Kernel/Walk.antt =====
-- The loop over the tags: what holds behind it, whatever the boot loader hands over.
use twos.Base.{
  load, Bool, ℕ, zero, suc, ◌+◌, ◌^◌, ◌≤◌, ◌<◌, ◌≡◌, ◌⊎◌, refl, subst, inl, inr, ◌==◌, ◌||◌, ◌&&◌,
  not, ltb, if◌then◌else◌, true, false, Bool-cases, Option, some, >>=-eq-some, List, Memory, arith,
}
use twos.Acpi.{acpi_validate_rsdp, rsdp_revision}
use twos.Boot.Cmdline.{Cmdline, Parsed, parsed, overflow, out_of_fuel}
use twos.Mem.Phys.{Mmap}
use twos.Mem.Phys.Init.{physmem_init}
use twos.Kernel.Tags.{
  KernelBoot, Boot, Fb, tag_type, next_tag, framebuffer_of, is_no_framebuffer, mmap_count,
  mmap_entries, set_cmdline, take_parsed, on_cmdline, on_framebuffer, on_mmap, on_efi, on_acpi,
  on_tag, walk_tags,
}

-- A framebuffer that the loop lets through.
pub record IsUsable (fb : Fb) : Type 0 where
  pub there : 0 < fb.addr
  pub below : fb.addr ≤ 2 ^ 44
  pub wide : 64 ≤ fb.w
  pub high : 64 ≤ fb.h

abbrev pub no_fb : Fb
no_fb = record { ptr = 0; addr = 0; w = 0; h = 0; pitch = 0; bpp = 0 }

-- The framebuffer is usable or was never set, the root pointer is null or has a right checksum, the
-- memory is none or what `physmem_init` made of some map, and the machine counts as booted by EFI.
pub record IsSound (wide : ℕ → ℕ) (mem : Memory) (b : Boot) : Type 0 where
  pub fb : (b.kboot.fb ≡ no_fb) ⊎ IsUsable b.kboot.fb
  pub rsdp : (b.rsdp ≡ 0) ⊎ (acpi_validate_rsdp b.rsdp mem ≡ true)
  pub memory :
      (b.total_mem ≡ 0)
      ⊎ ((mmaps : List Mmap) × (n : ℕ) × (physmem_init wide mmaps n
            ≡ some (b.total_mem, b.physmem)))
  pub legacy : b.kboot.is_legacy_bios ≡ false

-- Both ways through a test.
if_some :
    {P : Type 0} (c : Bool) {x y : Option Boot} {b : Boot}
    → (if c then x else y) ≡ some b
    → (x ≡ some b → P)
    → (y ≡ some b → P)
    → P
if_some true h f g = f h
if_some false h f g = g h

module _ (wide : ℕ → ℕ) (mem : Memory) where
  set_cmdline-IsSound :
      (b : Boot) (c : Cmdline) → IsSound wide mem b → IsSound wide mem (set_cmdline b c)
  unfolding set_cmdline
  set_cmdline-IsSound b c s = elim (Bool-cases (c.num_args == 0)) [
    | inl e ↦ rw e (record { fb = s.fb; rsdp = s.rsdp; memory = s.memory; legacy = s.legacy })
    | inr e ↦ rw e (record { fb = s.fb; rsdp = s.rsdp; memory = s.memory; legacy = s.legacy })
  ]

  on_framebuffer-IsSound :
      (tag : ℕ) (b : Boot) → IsSound wide mem b → IsSound wide mem (on_framebuffer tag mem b)
  unfolding on_framebuffer
  on_framebuffer-IsSound tag b s =
      let f : Fb = framebuffer_of tag mem in
      elim (Bool-cases (is_no_framebuffer f)) [
        | inl e ↦ rw e s
        | inr e ↦
            let usable : IsUsable f = record {
              there = ground (arith, e);
              below = ground (arith, e);
              wide = ground (arith, e);
              high = ground (arith, e);
            } in
            rw e (record { fb = inr usable; rsdp = s.rsdp; memory = s.memory; legacy = s.legacy })
      ]

  take_parsed-IsSound :
      (b b' : Boot) (p : Parsed)
      → IsSound wide mem b
      → take_parsed b p ≡ some b'
      → IsSound wide mem b'
  unfolding take_parsed
  take_parsed-IsSound b b' (parsed c) s h =
      let same : set_cmdline b c ≡ b' = cc h in
      subst (IsSound wide mem) same (set_cmdline-IsSound b c s)
  take_parsed-IsSound b b' overflow s h = absurd (cc h)
  take_parsed-IsSound b b' out_of_fuel s h = absurd (cc h)

  on_mmap-IsSound :
      (tag : ℕ) (b b' : Boot)
      → IsSound wide mem b
      → on_mmap wide tag mem b ≡ some b'
      → IsSound wide mem b'
  unfolding on_mmap
  on_mmap-IsSound tag b b' s h =
      let n = mmap_count tag mem in
      let entries = mmap_entries n (tag + 16) mem in
      let k : KernelBoot = record b.kboot { mmap_size = n } in
      if_some (load 4 (tag + 8) mem == 0) h (λ no. absurd (cc no))
        λ yes.
          let ((total, m), inits, then_some) = >>=-eq-some (physmem_init wide entries n) _ yes in
          let made : Boot = record b { kboot = k; total_mem = total; physmem = m } in
          if_some (total == 0) then_some (λ no. absurd (cc no))
            λ kept.
              let same : made ≡ b' = cc kept in
              subst (IsSound wide mem) same (record {
                fb = s.fb;
                rsdp = s.rsdp;
                memory = inr (entries, n, inits);
                legacy = s.legacy;
              })

  on_acpi-IsSound :
      (tag : ℕ) (b b' : Boot)
      → IsSound wide mem b
      → on_acpi wide tag mem b ≡ some b'
      → IsSound wide mem b'
  unfolding on_acpi
  on_acpi-IsSound tag b b' s h =
      let made : Boot = record b { rsdp = tag + 8 } in
      let older = ltb (rsdp_revision (tag + 8) mem) (rsdp_revision b.rsdp mem) in
      if_some (not (b.rsdp == 0) && older) h (λ same. subst (IsSound wide mem) (cc same) s)
        λ taken. elim (Bool-cases (acpi_validate_rsdp (tag + 8) mem)) [
          | inl valid ↦
              let same : made ≡ b' = cc (rw valid at taken) in
              subst (IsSound wide mem) same
                (record { fb = s.fb; rsdp = inr valid; memory = s.memory; legacy = s.legacy })
          | inr invalid ↦ absurd (cc (rw invalid at taken))
        ]

  on_tag-IsSound :
      (tag : ℕ) (b b' : Boot)
      → IsSound wide mem b
      → on_tag wide tag mem b ≡ some b'
      → IsSound wide mem b'
  unfolding on_tag on_cmdline on_efi
  on_tag-IsSound tag b b' s h =
      let type = tag_type tag mem in
      let efi : KernelBoot = record b.kboot { is_legacy_bios = false } in
      let by_efi : Boot = record b { kboot = efi } in
      if_some (type == 1) h (take_parsed-IsSound b b' _ s) λ h₁.
        if_some ((type == 2) || (type == 8)) h₁
          (λ e. subst (IsSound wide mem) (cc e) (on_framebuffer-IsSound tag b s))
          λ h₂. if_some (type == 6) h₂ (on_mmap-IsSound tag b b' s) λ h₃.
            if_some ((type == 18) || ((type == 17) || ((type == 11) || (type == 12)))) h₃
              (λ e.
                let same : by_efi ≡ b' = cc e in
                subst (IsSound wide mem) same
                  (record { fb = s.fb; rsdp = s.rsdp; memory = s.memory; legacy = refl }))
              λ h₄.
                if_some ((type == 15) || (type == 14)) h₄ (on_acpi-IsSound tag b b' s)
                  (λ e. subst (IsSound wide mem) (cc e) s)

  -- Whatever tags the boot loader hands over, from a sound state the loop comes only to a sound state:
  -- the framebuffer was never set or is usable, the root pointer is null or has a right checksum, the
  -- memory is none or what `physmem_init` found on a map, and the machine counts as booted by EFI.
  pub walk_tags-IsSound :
      (fuel tag : ℕ) (b b' : Boot)
      → IsSound wide mem b
      → walk_tags wide fuel tag mem b ≡ some b'
      → IsSound wide mem b'
  unfolding walk_tags
  walk_tags-IsSound zero tag b b' s h = absurd (cc h)
  walk_tags-IsSound (suc fuel) tag b b' s h =
      if_some (tag_type tag mem == 0) h (λ e. subst (IsSound wide mem) (cc e) s)
        λ rest.
          let (b₁, handled, goes) = >>=-eq-some (on_tag wide tag mem b) _ rest in
          walk_tags-IsSound fuel (next_tag tag mem) b₁ b' (on_tag-IsSound tag b b₁ s handled) goes
