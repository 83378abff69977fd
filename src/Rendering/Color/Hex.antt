-- ===== src/Rendering/Color/Hex.antt =====
-- A printed colour is parsed as itself.
use minecraft_os.Prelude.{
  ℕ, ◌+◌, ◌*◌, ◌/◌, ◌%◌, ◌^◌, ◌<◌, ◌≡◌, refl, ap, ◌∙◌, arith, false, some, List, [], ◌∷◌, ◌++◌,
  ◌==◌,
}
use minecraft_os.Rendering.Color.{
  Color, IsColor, hex_digit, hex_digits, from_str_radix_16, color_of_num, parse_hex, upper_digit,
  two_digits,
}

hex_digit-upper_digit : (d : ℕ) → d < 16 → hex_digit (upper_digit d) ≡ some d
unfolding hex_digit
hex_digit-upper_digit d h = ground arith

hex_digits_step :
    (value d : ℕ) (bs : List ℕ)
    → d < 16
    → value * 16 + d < 2 ^ 32
    → hex_digits value (upper_digit d ∷ bs) ≡ hex_digits (value * 16 + d) bs
unfolding hex_digits
hex_digits_step value d bs h k = ground (arith, hex_digit-upper_digit d)

hex_digits-two_digits :
    (value v : ℕ) (bs : List ℕ)
    → v < 256
    → value < 2 ^ 24
    → hex_digits value (two_digits v ++ bs) ≡ hex_digits (value * 256 + v) bs
hex_digits-two_digits value v bs h k =
    hex_digits_step value (v / 16) (upper_digit (v % 16) ∷ bs) (omega arith) (omega arith)
    ∙ hex_digits_step (value * 16 + v / 16) (v % 16) bs (omega arith) (omega arith)
    ∙ ap (λ n. hex_digits n bs) (omega arith)

-- The text of a colour: `#` and two digits for each channel.
abbrev pub hex_text : Color → List ℕ
hex_text c = b'#' ∷ (two_digits c.red ++ (two_digits c.green ++ (two_digits c.blue ++ [])))

no_plus : (d : ℕ) → d < 16 → (upper_digit d == b'+') ≡ false
no_plus d h = ground arith

-- A colour printed with two hexadecimal digits for each channel is parsed as the same colour.
pub parse_hex-hex_text : (c : Color) → IsColor c → parse_hex (hex_text c) ≡ some c
unfolding parse_hex from_str_radix_16
parse_hex-hex_text c (r, g, b) =
    rw (parse_hex, from_str_radix_16, no_plus (c.red / 16) (omega arith), digits)
      (ap some split_num)
  where
    num : ℕ
    num = ((0 * 256 + c.red) * 256 + c.green) * 256 + c.blue

    digits :
        hex_digits 0 (two_digits c.red ++ (two_digits c.green ++ (two_digits c.blue ++ [])))
        ≡ some num
    digits =
        hex_digits-two_digits 0 c.red _ r (omega arith)
        ∙ hex_digits-two_digits (0 * 256 + c.red) c.green _ g (omega arith)
        ∙ hex_digits-two_digits ((0 * 256 + c.red) * 256 + c.green) c.blue [] b (omega arith)
        ∙ (unfold hex_digits in refl)

    split_num : color_of_num num ≡ c
    split_num = unfold color_of_num in λ i. record { red = red i; green = green i; blue = blue i }
      where
        red : num / 2 ^ 16 % 256 ≡ c.red
        red = omega arith

        green : num / 2 ^ 8 % 256 ≡ c.green
        green = omega arith

        blue : num % 256 ≡ c.blue
        blue = omega arith
