-- ===== src/Device/Framebuffer/Fill.antt =====
-- The loops over the pixels: every pixel gets its colour, and nothing else is written.
use twos.Base.{
  ℕ, zero, suc, ◌+◌, ◌*◌, ◌/◌, ◌%◌, ◌^◌, ◌≤◌, ◌<◌, ◌≡◌, ◌⊎◌, ◌∙◌, ap, refl, sym, inl, Memory, load,
  store_outside, load-store_self, load_ext, u32, arith,
}
use native.Mathlib.Decide.{ℕ_discrete}
use native.Mathlib.Nat.{mul-le-mul_left, mul-le-mul_right, div-lt_iff_lt-mul, lt_irrefl}
use twos.Device.Framebuffer.{
  pixel_at, draw_pixel, draw_row, draw_rows, rgb_color, hsv_to_rgb, test_hue, animated_hue,
  framebuffer_display_test_pattern, framebuffer_display_animated_pattern,
}
use twos.Device.Framebuffer.Hsv.{rgb_color_lt}

-- The pitch holds a row, and the picture has less than 2^32 bytes.
pub record FitsIn (width height pitch : ℕ) : Type 0 where
  pub row : 4 * width ≤ pitch
  pub size : height * pitch < 2 ^ 32

-- The hue of a column is a byte.
hue-lt : (width x : ℕ) → x < width → x * 256 / width < 256
hue-lt width x h =
    (div-lt_iff_lt-mul {k = width} {x = x * 256} {y = 256} (omega arith)).1 (omega arith)

-- No cut changes it in a picture of at most 2^24 columns.
column-scaled : (width x : ℕ) → width ≤ 2 ^ 24 → x < width → u32 (x * 256) / width ≡ x * 256 / width
column-scaled width x small h = ap (λ z. z / width) (omega arith)

module _ (framebuffer pitch : ℕ) where
  -- The address of a pixel without the cuts to 32 bits.
  abbrev pub place : ℕ → ℕ → ℕ
  place y x = framebuffer + 4 * (y * (pitch / 4) + x)

  module _ (width height : ℕ) (f : FitsIn width height pitch) where
    pixel_at_lem : (y x : ℕ) → y < height → x < width → pixel_at framebuffer pitch y x ≡ place y x
    pixel_at_lem y x hy hx =
        let rounded : pitch / 4 * 4 ≤ pitch = omega arith in
        let below : (y + 1) * (pitch / 4) ≤ height * (pitch / 4) =
          mul-le-mul_right (pitch / 4) (omega (arith, hy)) in
        let whole : height * (pitch / 4) * 4 ≤ height * pitch =
          omega (arith, mul-le-mul_left height rounded) in
        omega (arith, below, whole, f.row, f.size)

  -- The columns from `lo` to `hi` of the row `y` have their colours, and no other byte changed.
  record IsRowDrawn (hue : ℕ → ℕ) (y lo hi : ℕ) (mem mem' : Memory) : Type 0 where
    drawn :
        (x : ℕ) → lo ≤ x → x < hi → load 4 (place y x) mem' ≡ rgb_color (hsv_to_rgb (hue x) 255 255)
    kept : (b : ℕ) → (b < place y lo) ⊎ (place y hi ≤ b) → mem' b ≡ mem b

  record IsDrawn (hue : ℕ → ℕ) (width lo hi : ℕ) (mem mem' : Memory) : Type 0 where
    drawn :
        (y x : ℕ)
        → lo ≤ y
        → y < hi
        → x < width
        → load 4 (place y x) mem' ≡ rgb_color (hsv_to_rgb (hue x) 255 255)
    kept : (b : ℕ) → (b < place lo 0) ⊎ (place hi 0 ≤ b) → mem' b ≡ mem b

  module _ (hue : ℕ → ℕ) (width height : ℕ) (f : FitsIn width height pitch) where
    draw_row_lem :
        (y left x : ℕ) (mem : Memory)
        → y < height
        → x + left ≤ width
        → IsRowDrawn hue y x (x + left) mem (draw_row framebuffer pitch hue y left x mem)
    unfolding draw_row draw_pixel
    draw_row_lem y zero x mem hy h = record {
      drawn = λ c p q. elim (lt_irrefl 0 (omega arith)) [ ];
      kept = λ b p. refl;
    }
    draw_row_lem y (suc left) x mem hy h =
        let color = rgb_color (hsv_to_rgb (hue x) 255 255) in
        let here = pixel_at_lem width height f y x hy (omega arith) in
        let mem₁ = draw_pixel framebuffer pitch hue y x mem in
        let rest = draw_row_lem y left (x + 1) mem₁ hy (omega arith) in
        record {
          drawn = λ c p q. elim (ℕ_discrete c x) [
            | yes e ↦ rw e (
                load_ext 4 (place y x) mem₁ (draw_row framebuffer pitch hue y left (x + 1) mem₁)
                  (λ b i j. rest.kept b (omega arith))
                ∙ ap (λ a. load 4 a mem₁) (sym here)
                ∙ load-store_self 4 (pixel_at framebuffer pitch y x) color mem
                    (rgb_color_lt (hue x)))
            | no ne ↦ rest.drawn c (omega arith) (omega arith)
          ];
          kept = λ b p.
              rest.kept b (omega arith)
              ∙ store_outside 4 (pixel_at framebuffer pitch y x) color mem b (omega (arith, here));
        }

    draw_rows_lem :
        (left y : ℕ) (mem : Memory)
        → y + left ≤ height
        → IsDrawn hue width y (y + left) mem (draw_rows framebuffer pitch hue width left y mem)
    unfolding draw_rows
    draw_rows_lem zero y mem h = record {
      drawn = λ r x p q. elim (lt_irrefl 0 (omega arith)) [ ];
      kept = λ b p. refl;
    }
    draw_rows_lem (suc left) y mem h =
        let mem₁ = draw_row framebuffer pitch hue y width 0 mem in
        let row = draw_row_lem y width 0 mem (omega arith) (omega arith) in
        let down : (y + 1) * (pitch / 4) ≤ (y + suc left) * (pitch / 4) =
          mul-le-mul_right (pitch / 4) (omega arith) in
        let rest = draw_rows_lem left (y + 1) mem₁ (omega arith) in
        record {
          drawn = λ r x p q inside. elim (ℕ_discrete r y) [
            | yes e ↦ rw e (
                load_ext 4 (place y x) mem₁
                  (draw_rows framebuffer pitch hue width left (y + 1) mem₁)
                  (λ b i j. rest.kept b (inl (omega (arith, f.row))))
                ∙ row.drawn x (omega arith) (omega arith))
            | no ne ↦ rest.drawn r x (omega arith) (omega arith) inside
          ];
          kept = λ b p. rest.kept b (omega arith) ∙ row.kept b (omega (arith, down, f.row));
        }

  -- What a pattern comes to: each pixel of the picture has the colour of its hue, and every byte
  -- outside the picture is as before.
  abbrev pub ShowsHues : (ℕ → ℕ) → ℕ → ℕ → Memory → Memory → Type 0
  ShowsHues hue width height mem mem' =
      ((y x : ℕ)
        → y < height
        → x < width
        → load 4 (place y x) mem' ≡ rgb_color (hsv_to_rgb (hue x) 255 255))
      × ((b : ℕ) → (b < framebuffer) ⊎ (framebuffer + height * pitch ≤ b) → mem' b ≡ mem b)

  draw_rows-ShowsHues :
      (hue : ℕ → ℕ) (width height : ℕ) (mem : Memory)
      → FitsIn width height pitch
      → ShowsHues hue width height mem (draw_rows framebuffer pitch hue width height 0 mem)
  draw_rows-ShowsHues hue width height mem f =
      let d = draw_rows_lem hue width height f height 0 mem (omega arith) in
      let rounded : pitch / 4 * 4 ≤ pitch = omega arith in
      (
        λ y x hy hx. d.drawn y x (omega arith) (omega arith) hx,
        λ b p. d.kept b (omega (arith, mul-le-mul_left height rounded)),
      )

  -- For a picture of at most 2^24 columns whose rows fit in the pitch and which has less than 2^32
  -- bytes: each pixel gets the colour of its column, the hue growing from 0 to 255 along a row, and
  -- no byte outside the picture is written.
  pub framebuffer_display_test_pattern_lem :
      (width height : ℕ) (mem : Memory)
      → FitsIn width height pitch
      → width ≤ 2 ^ 24
      → ShowsHues
          (λ x. x * 256 / width)
          width
          height
          mem
          (framebuffer_display_test_pattern framebuffer width height pitch mem)
  unfolding framebuffer_display_test_pattern
  framebuffer_display_test_pattern_lem width height mem f small =
      let (drawn, kept) = draw_rows-ShowsHues (test_hue width) width height mem f in
      (
        λ y x hy hx.
            drawn y x hy hx
            ∙ ap (λ h. rgb_color (hsv_to_rgb h 255 255))
                (omega (arith, column-scaled width x small hx, hue-lt width x hx)),
        kept,
      )

  pub framebuffer_display_animated_pattern_lem :
      (width height cycle : ℕ) (mem : Memory)
      → FitsIn width height pitch
      → width ≤ 2 ^ 24
      → cycle < 256
      → ShowsHues
          (λ x. (x * 256 / width + cycle) % 256)
          width
          height
          mem
          (framebuffer_display_animated_pattern framebuffer width height pitch cycle mem)
  unfolding framebuffer_display_animated_pattern
  framebuffer_display_animated_pattern_lem width height cycle mem f small hc =
      let (drawn, kept) = draw_rows-ShowsHues (animated_hue width cycle) width height mem f in
      (
        λ y x hy hx.
            drawn y x hy hx
            ∙ ap (λ h. rgb_color (hsv_to_rgb h 255 255))
                (omega (arith, column-scaled width x small hx, hue-lt width x hx)),
        kept,
      )

  -- Whatever the hues, no byte outside the rows is written.
  pub framebuffer_display_test_pattern-bounds :
      (width height : ℕ) (mem : Memory)
      → FitsIn width height pitch
      → (b : ℕ) → (b < framebuffer) ⊎ (framebuffer + height * pitch ≤ b)
      → framebuffer_display_test_pattern framebuffer width height pitch mem b ≡ mem b
  unfolding framebuffer_display_test_pattern
  framebuffer_display_test_pattern-bounds width height mem f =
      (draw_rows-ShowsHues (test_hue width) width height mem f).1
