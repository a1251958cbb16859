-- ===== src/Device/Framebuffer.antt =====
-- include/kernel/driver/fb/framebuffer.h: the test patterns. `int` counters are numbers below 2^31.
pub mod Hsv
pub mod Fill
use twos.Base.{
  ℕ, zero, suc, ◌+◌, ◌-◌, ◌*◌, ◌/◌, ◌%◌, ◌==◌, if◌then◌else◌, Memory, store, u8, u16, u32, ◌<<<◌,
  ◌>>>◌, bit_or,
}

pub record Rgb : Type 0 where
  pub r : ℕ
  pub g : ℕ
  pub b : ℕ

-- The `switch` over the region.
unfoldable pub region_rgb : ℕ → ℕ → ℕ → ℕ → ℕ → Rgb
region_rgb region v p q t =
    if region == 0
    then record { r = v; g = t; b = p }
    else if region == 1
    then record { r = q; g = v; b = p }
    else if region == 2
    then record { r = p; g = v; b = t }
    else if region == 3
    then record { r = p; g = q; b = v }
    else if region == 4
    then record { r = t; g = p; b = v }
    else record { r = v; g = p; b = q }

abbrev pub hsv_region : ℕ → ℕ
hsv_region h = u8 (h / 43)

abbrev pub hsv_remainder : ℕ → ℕ
hsv_remainder h = u8 ((h - hsv_region h * 43) * 6)

abbrev pub hsv_p : ℕ → ℕ → ℕ
hsv_p s v = u8 ((v * (255 - s)) >>> 8)

abbrev pub hsv_q : ℕ → ℕ → ℕ → ℕ
hsv_q h s v = u8 ((v * (255 - ((s * hsv_remainder h) >>> 8))) >>> 8)

abbrev pub hsv_t : ℕ → ℕ → ℕ → ℕ
hsv_t h s v = u8 ((v * (255 - ((s * (255 - hsv_remainder h)) >>> 8))) >>> 8)

unfoldable pub hsv_to_rgb : ℕ → ℕ → ℕ → Rgb
hsv_to_rgb h s v =
    let hue = region_rgb (hsv_region h) v (hsv_p s v) (hsv_q h s v) (hsv_t h s v) in
    if s == 0 then record { r = v; g = v; b = v } else hue

-- `(r << 16) | (g << 8) | b`.
unfoldable pub rgb_color : Rgb → ℕ
rgb_color c = bit_or (bit_or (c.r <<< 16) (c.g <<< 8)) c.b

-- The hue of the column `x` in the test pattern, and in the animated one.
abbrev pub test_hue : ℕ → ℕ → ℕ
test_hue width x = u16 (u32 (x * 256) / width)

abbrev pub animated_hue : ℕ → ℕ → ℕ → ℕ
animated_hue width cycle x = u16 (u32 (u32 (x * 256) / width + cycle)) % 256

-- The address of the pixel in the column `x` of the row `y`; the index is an `unsigned`.
abbrev pub pixel_at : ℕ → ℕ → ℕ → ℕ → ℕ
pixel_at framebuffer pitch y x = framebuffer + 4 * u32 (u32 (y * (pitch / 4)) + x)

-- The body of both inner loops, which differ in the hue alone.
unfoldable pub draw_pixel : ℕ → ℕ → (ℕ → ℕ) → ℕ → ℕ → Memory → Memory
draw_pixel framebuffer pitch hue y x mem =
    store 4 (pixel_at framebuffer pitch y x) (rgb_color (hsv_to_rgb (hue x) 255 255)) mem

-- A row from the column `x` on, with `left` columns to go.
unfoldable pub draw_row : ℕ → ℕ → (ℕ → ℕ) → ℕ → ℕ → ℕ → Memory → Memory
draw_row framebuffer pitch hue y zero x mem = mem
draw_row framebuffer pitch hue y (suc left) x mem =
    draw_row framebuffer pitch hue y left (x + 1) (draw_pixel framebuffer pitch hue y x mem)

-- The rows from `y` on, with `left` rows to go.
unfoldable pub draw_rows : ℕ → ℕ → (ℕ → ℕ) → ℕ → ℕ → ℕ → Memory → Memory
draw_rows framebuffer pitch hue width zero y mem = mem
draw_rows framebuffer pitch hue width (suc left) y mem =
    draw_rows framebuffer pitch hue width left (y + 1)
      (draw_row framebuffer pitch hue y width 0 mem)

unfoldable pub framebuffer_display_test_pattern : ℕ → ℕ → ℕ → ℕ → Memory → Memory
framebuffer_display_test_pattern framebuffer width height pitch mem =
    draw_rows framebuffer pitch (test_hue width) width height 0 mem

unfoldable pub framebuffer_display_animated_pattern : ℕ → ℕ → ℕ → ℕ → ℕ → Memory → Memory
framebuffer_display_animated_pattern framebuffer width height pitch cycle mem =
    draw_rows framebuffer pitch (animated_hue width cycle) width height 0 mem
