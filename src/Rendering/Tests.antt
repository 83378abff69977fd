-- ===== src/Rendering/Tests.antt =====
-- A few bytes through the parser and the layout.
use minecraft_os.Prelude.{◌≡◌, refl, arith, some, [], ◌∷◌, ◌++◌, All}
use minecraft_os.Rendering.Color.{Color, black, with_intensity, parse_hex, fg}
use minecraft_os.Rendering.Color.Hex.{parse_hex-hex_text}
use minecraft_os.Rendering.Color.Channels.{with_intensity_ends}
use minecraft_os.Rendering.Parser.{Style, new_parser, push_all, is_printable}
use minecraft_os.Rendering.Parser.Text.{glyph, line_break, color, push_all_lem}
use minecraft_os.Rendering.TextBox.{TextBox, write_str, reset_content}
use minecraft_os.Rendering.TextBox.Tiling.{shown, flat, IsInside}
use minecraft_os.Prelude.{ℕ, ◌∷◌, [], ◌++◌, ◌≡◌, List, zero, suc}
use minecraft_os.Rendering.TextBox.Layout.{write_str_lem}

abbrev orange : Color
orange = record { red = 0xff; green = 0xa5; blue = 0x0a }

parse_hex-hex_text_example :
    parse_hex (b'#' ∷ b'F' ∷ b'F' ∷ b'A' ∷ b'5' ∷ b'0' ∷ b'A' ∷ []) ≡ some orange
parse_hex-hex_text_example = parse_hex-hex_text orange (omega arith)

with_intensity_ends_example :
    (with_intensity orange 255 ≡ orange) × (with_intensity orange 0 ≡ black)
with_intensity_ends_example = with_intensity_ends orange (omega arith)

abbrev white_style : Style
white_style = record { color_text = record { red = 255; green = 255; blue = 255 } }

abbrev orange_style : Style
orange_style = record { color_text = orange }

push_all_example :
    push_all (new_parser white_style) (b'a' ∷ (fg orange ++ (b'b' ∷ b'\n' ∷ b'c' ∷ []))) ([] ∷ [])
    ≡ (
      new_parser orange_style,
      (record { b = b'a'; style = white_style } ∷ record { b = b'b'; style = orange_style } ∷ [])
          ∷ (record { b = b'c'; style = orange_style } ∷ [])
          ∷ [],
    )
unfolding is_printable
push_all_example =
    push_all_lem (glyph b'a' ∷ color orange ∷ glyph b'b' ∷ line_break ∷ glyph b'c' ∷ []) white_style
      (refl, (omega arith, (refl, (_, (refl, _)))))

-- A box 100 pixels wide, with 40 pixels for each glyph.
abbrev text_box : TextBox
text_box = record {
  size_x = 100;
  padding_left = 5;
  padding_right = 5;
  letter_spacing = 0;
  cursor_x = 5;
  buffer = [] ∷ [];
  visual_lines = record { line_idx = 0; start = 0; end = 0 } ∷ [];
  parser = new_parser white_style;
}

write_str_example :
    (end : TextBox) × (write_str
        (λ b. 40)
        (reset_content white_style text_box)
        (b'a' ∷ b'b' ∷ b'c' ∷ [])
      ≡ some end)
    × (shown end.buffer end.visual_lines ≡ flat end.buffer)
    × All (IsInside end.buffer) end.visual_lines
write_str_example = write_str_lem (λ b. 40) text_box white_style (b'a' ∷ b'b' ∷ b'c' ∷ [])

-- Sixteen pixels of three bytes, laid over fifty bytes of a buffer of sixty.
abbrev pattern : List ℕ
pattern = flat_map_16 16
  where
    flat_map_16 : ℕ → List ℕ
    flat_map_16 zero = []
    flat_map_16 (suc n) = 1 ∷ 2 ∷ 3 ∷ flat_map_16 n
