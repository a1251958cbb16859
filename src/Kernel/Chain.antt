-- ===== src/Kernel/Chain.antt =====
-- The end of the loop over the tags.
use twos.Base.{
  ℕ, suc, ◌+◌, ◌-◌, ◌*◌, ◌/◌, ◌%◌, ◌^◌, ◌<◌, ◌≤◌, ◌≡◌, ◌≢◌, ◌∙◌, refl, sym, ap, ◌==◌, if◌then◌else◌,
  true, false, Option, some, ◌>>=◌, Option-cases, List, [], ◌∷◌, inl, inr, length, Memory, load,
  u32, bit_and, bit_and_high, bit_and-low_mask, arith,
}
use twos.Kernel.Tags.{
  Boot, next_tag, on_cmdline, on_framebuffer, on_mmap, on_efi, on_acpi, on_tag, walk_tags,
}

-- A tag: its type, and its size in bytes without the padding behind it.
pub record TagHead : Type 0 where
  pub type : ℕ
  pub size : ℕ

-- The tags as the boot protocol lays them out from an address: the type, not 0, and 4 bytes behind it
-- the size, of 8 at least; each tag starts at the next multiple of 8 bytes behind the one before; behind
-- the last stands a tag of type 0.
unfoldable pub IsChain : Memory → List TagHead → ℕ → Type 0
IsChain mem [] tag = load 4 tag mem ≡ 0
IsChain mem (t ∷ ts) tag =
    (t.type ≢ 0)
    × (load 4 tag mem ≡ t.type)
    × (load 4 (tag + 4) mem ≡ t.size)
    × (8 ≤ t.size)
    × (t.size + 7 < 2 ^ 32)
    × IsChain mem ts (tag + (t.size + 7) / 8 * 8)

-- Who handles a tag at an address.
pub record Handler : Type 0 where
  pub of : ℕ
  pub handle : ℕ → Memory → Boot → Option Boot

-- The types of tags that the kernel looks at, with their handlers.
abbrev all_handlers : (ℕ → ℕ) → List Handler
all_handlers wide =
    record { of = 1; handle = on_cmdline }
    ∷ record { of = 2; handle = λ tag mem b. some (on_framebuffer tag mem b) }
    ∷ record { of = 6; handle = on_mmap wide }
    ∷ record { of = 8; handle = λ tag mem b. some (on_framebuffer tag mem b) }
    ∷ record { of = 11; handle = λ tag mem b. some (on_efi wide b) }
    ∷ record { of = 12; handle = λ tag mem b. some (on_efi wide b) }
    ∷ record { of = 14; handle = on_acpi wide }
    ∷ record { of = 15; handle = on_acpi wide }
    ∷ record { of = 17; handle = λ tag mem b. some (on_efi wide b) }
    ∷ record { of = 18; handle = λ tag mem b. some (on_efi wide b) }
    ∷ []

-- A tag of a type that has no handler is passed over.
unfoldable pub handle_by : List Handler → ℕ → ℕ → Memory → Boot → Option Boot
handle_by [] type tag mem b = some b
handle_by (h ∷ hs) type tag mem b =
    if type == h.of then h.handle tag mem b else handle_by hs type tag mem b

-- Every tag of a chain is handled by its type, in order.
unfoldable pub handle_all : (ℕ → ℕ) → Memory → List TagHead → ℕ → Boot → Option Boot
handle_all wide mem [] tag b = some b
handle_all wide mem (t ∷ ts) tag b =
    handle_by (all_handlers wide) t.type tag mem b
    >>= handle_all wide mem ts (tag + (t.size + 7) / 8 * 8)

-- The mask that clears the three low bits rounds down.
round_down : (n : ℕ) → n < 2 ^ 32 → bit_and n (2 ^ 32 - 8) ≡ n / 8 * 8
round_down n h =
    let high = bit_and_high 3 (n / 8) (n % 8) (2 ^ 29 - 1) (omega arith) in
    let low = bit_and-low_mask 29 (n / 8) in
    let split : n ≡ n / 8 * 2 ^ 3 + n % 8 = omega arith in
    ap (λ x. bit_and x (2 ^ 32 - 8)) split ∙ high ∙ ap (λ x. x * 2 ^ 3) low ∙ omega (arith, h)

next_tag_lem :
    (tag size : ℕ) (mem : Memory)
    → load 4 (tag + 4) mem ≡ size
    → size + 7 < 2 ^ 32
    → next_tag tag mem ≡ tag + (size + 7) / 8 * 8
next_tag_lem tag size mem e h =
    let fits : u32 (load 4 (tag + 4) mem + 7) ≡ size + 7 = omega (arith, e, h) in
    ap (λ x. tag + bit_and x (2 ^ 32 - 8)) fits ∙ ap (λ x. tag + x) (round_down (size + 7) h)

on_tag_lem :
    (wide : ℕ → ℕ) (tag type : ℕ) (mem : Memory) (b : Boot)
    → load 4 tag mem ≡ type
    → on_tag wide tag mem b ≡ handle_by (all_handlers wide) type tag mem b
unfolding on_tag handle_by
on_tag_lem wide tag type mem b e = rw e (ground arith)

-- On tags laid out as the boot protocol has them, each at the next multiple of 8 bytes behind the one
-- before, with a tag of type 0 behind the last: the loop ends within one round for each tag and one
-- more, and comes to what handling every tag by the handler of its type, in order, comes to.
pub walk_tags-chain :
    (wide : ℕ → ℕ) (mem : Memory) (tags : List TagHead) (tag : ℕ) (b : Boot)
    → IsChain mem tags tag
    → walk_tags wide (suc (length tags)) tag mem b ≡ handle_all wide mem tags tag b
unfolding IsChain handle_all walk_tags
walk_tags-chain wide mem [] tag b end =
    let over : (load 4 tag mem == 0) ≡ true = ground (arith, end) in rw over refl
walk_tags-chain wide mem (t ∷ ts) tag b (ne, type, size, least, most, rest) =
    let going : (load 4 tag mem == 0) ≡ false = ground (arith, ne, type) in
    let here = on_tag_lem wide tag t.type mem b type in
    let next = next_tag_lem tag t.size mem size most in
    elim (Option-cases (on_tag wide tag mem b)) [
      | inl n ↦ rw going (rw (sym here) (rw n refl))
      | inr (b', e) ↦ rw going (
          rw (sym here) (
            rw e (
              ap (λ a. walk_tags wide (suc (length ts)) a mem b') next
              ∙ walk_tags-chain wide mem ts (tag + (t.size + 7) / 8 * 8) b' rest)))
    ]
