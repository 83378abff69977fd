-- ===== src/Rendering/Color.antt =====
-- The colours of kernel-core/src/rendering/color.rs; a channel is a `u8`. Strings are their bytes.
pub mod Hex
pub mod Channels
use package.minecraft_os.Prelude.{
  ℕ, zero, suc, ◌+◌, ◌-◌, ◌*◌, ◌/◌, ◌%◌, ◌^◌, ◌≤◌, ◌<◌, Bool, true, false, not, ◌&&◌, ◌||◌,
}
use package.minecraft_os.Prelude.{
  Option, none, some, List, [], ◌∷◌, ◌++◌, ltb, leb, ◌==◌, if◌then◌else◌, set, replicate, length,
}

pub record Color : Type 0 where
  pub red : ℕ
  pub green : ℕ
  pub blue : ℕ

abbrev pub IsColor : Color → Type 0
IsColor c = (c.red < 256) × (c.green < 256) × (c.blue < 256)

abbrev pub white : Color
white = record { red = 255; green = 255; blue = 255 }

abbrev pub black : Color
black = record { red = 0; green = 0; blue = 0 }

-- `u16` products, cut to a `u8`.
unfoldable pub with_intensity : Color → ℕ → Color
with_intensity c intensity = record {
  red = c.red * intensity % 2 ^ 16 / 255 % 256;
  green = c.green * intensity % 2 ^ 16 / 255 % 256;
  blue = c.blue * intensity % 2 ^ 16 / 255 % 256;
}

unfoldable pub to_gray : Color → ℕ
to_gray c = c.red / 3 + c.green / 3 + c.blue / 3

-- The digits that `char::to_digit(16)` accepts.
unfoldable pub hex_digit : ℕ → Option ℕ
hex_digit b =
    if leb b'0' b && leb b b'9'
    then some (b - b'0')
    else if leb b'A' b && leb b b'F'
    then some (b - 55)
    else if leb b'a' b && leb b b'f'
    then some (b - 87)
    else none

-- The checked multiplication and addition of `u32::from_str_radix(_, 16)`.
unfoldable pub hex_digits : ℕ → List ℕ → Option ℕ
hex_digits value [] = some value
hex_digits value (b ∷ bs) = elim (hex_digit b) [
  | none ↦ none
  | some d ↦ if ltb (value * 16 + d) (2 ^ 32) then hex_digits (value * 16 + d) bs else none
]

-- An empty string, or a sign alone, is an error; a `+` before digits is allowed.
unfoldable pub from_str_radix_16 : List ℕ → Option ℕ
from_str_radix_16 [] = none
from_str_radix_16 (b ∷ []) = hex_digits 0 (b ∷ [])
from_str_radix_16 (b ∷ c ∷ bs) =
    if b == b'+' then hex_digits 0 (c ∷ bs) else hex_digits 0 (b ∷ c ∷ bs)

unfoldable pub color_of_num : ℕ → Color
color_of_num num = record { red = num / 2 ^ 16 % 256; green = num / 2 ^ 8 % 256; blue = num % 256 }

unfoldable pub parse_hex : List ℕ → Option Color
parse_hex [] = none
parse_hex (b ∷ hex) =
    if b == b'#'
    then elim (from_str_radix_16 hex) [ none ↦ none | some num ↦ some (color_of_num num) ]
    else none

-- `bootloader_api::info::PixelFormat`; another format than these makes `write_to` panic.
pub data PixelFormat : Type 0 where
  rgb bgr u8 other : PixelFormat

-- `none` is a panic: an index out of the chunk, or an unknown format.
unfoldable pub write_to : Color → List ℕ → PixelFormat → Option (List ℕ)
write_to c chunk rgb =
    if ltb (length chunk) 3 then none else some (set (set (set chunk 0 c.red) 1 c.green) 2 c.blue)
write_to c chunk bgr =
    if ltb (length chunk) 3 then none else some (set (set (set chunk 0 c.blue) 1 c.green) 2 c.red)
write_to c chunk u8 = if ltb (length chunk) 1 then none else some (set chunk 0 (to_gray c))
write_to c chunk other = none

-- `{:02X}` of a `u8`
abbrev pub upper_digit : ℕ → ℕ
upper_digit d = if ltb d 10 then b'0' + d else 55 + d

abbrev pub two_digits : ℕ → List ℕ
two_digits v = upper_digit (v / 16) ∷ upper_digit (v % 16) ∷ []

-- What `Fg` prints: ESC ~ FG#RRGGBB BEL.
unfoldable pub fg : Color → List ℕ
fg c =
    0x1b
    ∷ b'~'
    ∷ b'F'
    ∷ b'G'
    ∷ b'#'
    ∷ (two_digits c.red ++ (two_digits c.green ++ (two_digits c.blue ++ (0x07 ∷ []))))
