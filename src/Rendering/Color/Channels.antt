-- ===== src/Rendering/Color/Channels.antt =====
-- Scaling a colour.
use minecraft_os.Prelude.{ℕ, ◌*◌, ◌/◌, ◌%◌, ◌^◌, ◌≤◌, ◌<◌, ◌≡◌, arith}
use minecraft_os.Rendering.Color.{Color, IsColor, black, with_intensity}
use native.Mathlib.Nat.{mul-le-mul_left, mul-le-mul}

-- A channel `v` scaled by `i` is the rounded-down share `v * i / 255`: nothing wraps.
channel : (v i : ℕ) → v < 256 → i < 256 → v * i % 2 ^ 16 / 255 % 256 ≡ v * i / 255
channel v i h k =
    let bound : v * i ≤ 255 * 255 = mul-le-mul {n₂ = 255} {m₂ = 255} (omega arith) (omega arith) in
    omega arith

channel-le : (v i : ℕ) → i < 256 → v * i / 255 ≤ v
channel-le v i k = let bound : v * i ≤ v * 255 = mul-le-mul_left v (omega arith) in omega arith

-- The product in 16 bits does not overflow and the result fits its channel: each channel becomes
-- its share `v * i / 255`, which is no more than it was.
pub with_intensity_lem :
    (c : Color) (i : ℕ)
    → IsColor c
    → i < 256
    → let d = with_intensity c i in
      (d ≡ record { red = c.red * i / 255; green = c.green * i / 255; blue = c.blue * i / 255 })
      × (d.red ≤ c.red)
      × (d.green ≤ c.green)
      × (d.blue ≤ c.blue)
unfolding with_intensity
with_intensity_lem c i (r, g, b) h =
    let red = channel c.red i r h in
    let green = channel c.green i g h in
    let blue = channel c.blue i b h in
    (
      λ j. record { red = red j; green = green j; blue = blue j },
      rw red (channel-le c.red i h),
      rw green (channel-le c.green i h),
      rw blue (channel-le c.blue i h),
    )

-- Full intensity keeps a colour and intensity 0 is black.
pub with_intensity_ends :
    (c : Color) → IsColor c → (with_intensity c 255 ≡ c) × (with_intensity c 0 ≡ black)
unfolding with_intensity
with_intensity_ends c (r, g, b) = (
  λ j. record { red = full c.red r j; green = full c.green g j; blue = full c.blue b j },
  λ j. record { red = dark c.red j; green = dark c.green j; blue = dark c.blue j },
)
  where
    full : (v : ℕ) → v < 256 → v * 255 % 2 ^ 16 / 255 % 256 ≡ v
    full v h = omega arith

    dark : (v : ℕ) → v * 0 % 2 ^ 16 / 255 % 256 ≡ 0
    dark v = omega arith
