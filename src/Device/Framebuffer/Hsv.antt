-- ===== src/Device/Framebuffer/Hsv.antt =====
-- The colours: a channel for the value, one for the chroma, and none outside them.
use twos.Base.{
  ℕ, ◌+◌, ◌-◌, ◌*◌, ◌/◌, ◌^◌, ◌≤◌, ◌<◌, ◌≡◌, ◌≢◌, ◌∙◌, ap, max, min, ◌==◌, false, u8, bit_or,
  bit_or_disjoint, arith,
}
use native.Mathlib.Nat.{mul-le-mul_left}
use twos.Device.Framebuffer.{
  Rgb, region_rgb, hsv_region, hsv_remainder, hsv_p, hsv_q, hsv_t, hsv_to_rgb, rgb_color,
}

abbrev pub brightest : Rgb → ℕ
brightest c = max c.r (max c.g c.b)

abbrev pub darkest : Rgb → ℕ
darkest c = min c.r (min c.g c.b)

-- With `q` and `t` between `p` and `v`, every region has `v` for the brightest and `p` for the darkest.
region_rgb_lem :
    (region v p q t : ℕ)
    → p ≤ q
    → q ≤ v
    → p ≤ t
    → t ≤ v
    → (brightest (region_rgb region v p q t) ≡ v) × (darkest (region_rgb region v p q t) ≡ p)
unfolding region_rgb
region_rgb_lem region v p q t pq qv pt tv = (ground arith, ground arith)

-- A factor of at most 255 takes part of a channel.
part_of : (v k : ℕ) → v < 256 → k ≤ 255 → u8 (v * k / 256) ≡ v * k / 256
part_of v k hv hk = omega (arith, mul-le-mul_left v hk, hv)

part-le_self : (v k : ℕ) → k ≤ 255 → v * k / 256 ≤ v
part-le_self v k hk = omega (arith, mul-le-mul_left v hk)

part-le_part : (v k l : ℕ) → k ≤ l → v * k / 256 ≤ v * l / 256
part-le_part v k l h = omega (arith, mul-le-mul_left v h)

-- A channel that fades by a part of the saturation lies between the darkest and the brightest.
fade_between :
    (s v rem : ℕ)
    → s < 256
    → v < 256
    → rem ≤ 255
    → (hsv_p s v ≤ u8 (v * (255 - s * rem / 256) / 256))
      × (u8 (v * (255 - s * rem / 256) / 256) ≤ v)
fade_between s v rem hs hv hr =
    let less : 255 - s ≤ 255 - s * rem / 256 = omega (arith, part-le_self s rem hr) in
    let low = part_of v (255 - s) hv (omega arith) in
    let high = part_of v (255 - s * rem / 256) hv (omega arith) in
    let order = part-le_part v (255 - s) (255 - s * rem / 256) less in
    let below = part-le_self v (255 - s * rem / 256) (omega arith) in
    (omega (arith, low, high, order), omega (arith, high, below))

-- For a colour that is not grey the brightest channel is the value, and the darkest is the value
-- times 255 less the saturation, over 256, whatever the hue.
pub hsv_to_rgb_lem :
    (h s v : ℕ)
    → s < 256
    → v < 256
    → s ≢ 0
    → (brightest (hsv_to_rgb h s v) ≡ v) × (darkest (hsv_to_rgb h s v) ≡ v * (255 - s) / 256)
unfolding hsv_to_rgb
hsv_to_rgb_lem h s v hs hv ne =
    let coloured : (s == 0) ≡ false = ground (arith, ne) in
    let shade = part_of v (255 - s) hv (omega arith) in
    let (q_low, q_high) = fade_between s v (hsv_remainder h) hs hv (omega arith) in
    let (t_low, t_high) = fade_between s v (255 - hsv_remainder h) hs hv (omega arith) in
    let (bright, dark) =
      region_rgb_lem (hsv_region h) v (hsv_p s v) (hsv_q h s v) (hsv_t h s v) q_low q_high t_low
        t_high in
    rw coloured (bright, dark ∙ shade)

pub rgb_color_lem :
    (c : Rgb) → c.r < 256 → c.g < 256 → c.b < 256 → rgb_color c ≡ c.r * 2 ^ 16 + c.g * 2 ^ 8 + c.b
unfolding rgb_color
rgb_color_lem c hr hg hb =
    ap (λ x. bit_or x c.b) (bit_or_disjoint 16 c.r (c.g * 2 ^ 8) (omega (arith, hg)) ∙ omega arith)
    ∙ bit_or_disjoint 8 (c.r * 2 ^ 8 + c.g) c.b (omega (arith, hb))
    ∙ omega arith

-- A colour of the patterns has 24 bits.
pub rgb_color_lt : (h : ℕ) → rgb_color (hsv_to_rgb h 255 255) < 2 ^ 32
rgb_color_lt h =
    let (bright, dark) = hsv_to_rgb_lem h 255 255 (omega arith) (omega arith) (omega arith) in
    omega (
      arith,
      rgb_color_lem (hsv_to_rgb h 255 255) (omega (arith, bright)) (omega (arith, bright))
          (omega (arith, bright)),
      bright,
    )
