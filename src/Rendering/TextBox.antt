-- ===== src/Rendering/TextBox.antt =====
-- The layout of kernel-core/src/rendering/text_box.rs: how pushed glyphs become visual lines. An
-- `i32` is its 32 bits. How wide the font draws a byte is a parameter.
pub mod Tiling
pub mod Layout
use package.minecraft_os.Prelude.{
  ℕ, zero, suc, ◌+◌, ◌-◌, ◌%◌, ◌^◌, ◌≤◌, Bool, Option, none, some, List, [], ◌∷◌, ◌++◌, ltb,
  if◌then◌else◌, length, get_or, take, drop,
}
use package.minecraft_os.Rendering.Color.{Color}
use package.minecraft_os.Rendering.Parser.{
  Parser, Style, Glyph, LogicalLine, Buffer, ParserResult, pushed_glyph, new_logical_line,
  no_new_glyph, new_parser,
}
use package.minecraft_os.Rendering.Parser

-- `start` and `end` (exclusive) within the logical line `line_idx`.
pub record VisualLine : Type 0 where
  pub line_idx : ℕ
  pub start : ℕ
  pub end : ℕ

abbrev pub default_visual_line : VisualLine
default_visual_line = record { line_idx = 0; start = 0; end = 0 }

unfoldable pub visual_line_slice : Buffer → VisualLine → List Glyph
visual_line_slice buffer w = drop w.start (take w.end (get_or buffer w.line_idx []))

-- The fields of `TextBox` that the layout reads and writes; `size_x`, the paddings and the spacing
-- are those of `bounding_box` and `config`.
pub record TextBox : Type 0 where
  pub size_x : ℕ
  pub padding_left : ℕ
  pub padding_right : ℕ
  pub letter_spacing : ℕ
  pub cursor_x : ℕ
  pub buffer : Buffer
  pub visual_lines : List VisualLine
  pub parser : Parser

abbrev pub add_i32 : ℕ → ℕ → ℕ
add_i32 a b = (a + b) % 2 ^ 32

abbrev pub sub_i32 : ℕ → ℕ → ℕ
sub_i32 a b = (a + 2 ^ 32 - b % 2 ^ 32) % 2 ^ 32

abbrev pub gt_i32 : ℕ → ℕ → Bool
gt_i32 a b = ltb ((b + 2 ^ 31) % 2 ^ 32) ((a + 2 ^ 31) % 2 ^ 32)

-- `reset_content`, without the scroll offset and the cursor index.
unfoldable pub reset_content : Style → TextBox → TextBox
reset_content style t = record t {
  buffer = [] ∷ [];
  visual_lines = default_visual_line ∷ [];
  cursor_x = t.padding_left;
  parser = new_parser style;
}

-- `last()`, and `last_mut().unwrap()`, for which `none` is the panic.
unfoldable pub last {ℓ} : {A : Type ℓ} → List A → Option A
last [] = none
last (x ∷ []) = some x
last (x ∷ y ∷ xs) = last (y ∷ xs)

unfoldable pub update_last {ℓ} : {A : Type ℓ} → (A → A) → List A → Option (List A)
update_last f [] = none
update_last f (x ∷ []) = some (f x ∷ [])
update_last f (x ∷ y ∷ xs) = elim (update_last f (y ∷ xs)) [ none ↦ none | some zs ↦ some (x ∷ zs) ]

module _ (advance_width : ℕ → ℕ) where
  unfoldable pub calc_advance : TextBox → Glyph → ℕ
  calc_advance t g = add_i32 (advance_width g.b) t.letter_spacing

  -- The two branches of `update_last_line_layout`; `i` is the index of the pushed glyph.
  unfoldable pub wrap_line : TextBox → ℕ → ℕ → Option TextBox
  wrap_line t advance i =
      elim (update_last (λ (w : VisualLine). record w { end = i }) t.visual_lines) [
        | none ↦ none
        | some ws ↦ some (record t {
          visual_lines =
              ws ++ (record { line_idx = length t.buffer - 1; start = i; end = i + 1 } ∷ []);
          cursor_x = add_i32 t.padding_left advance;
        })
      ]

  unfoldable pub extend_line : TextBox → ℕ → Option TextBox
  extend_line t cursor_x =
      elim (update_last (λ (w : VisualLine). record w { end = w.end + 1 }) t.visual_lines) [
        | none ↦ none
        | some ws ↦ some (record t { visual_lines = ws; cursor_x = cursor_x })
      ]

  unfoldable pub update_last_line_layout : TextBox → Glyph → Option TextBox
  update_last_line_layout t g =
      let advance = calc_advance t g in
      let cursor_x = add_i32 t.cursor_x advance in
      let line_end = sub_i32 (sub_i32 t.size_x t.padding_right) t.padding_left in
      if gt_i32 cursor_x line_end
      then elim (last t.buffer) [ none ↦ none | some line ↦ wrap_line t advance (length line - 1) ]
      else extend_line t cursor_x

  -- The `match` on the parser's result.
  unfoldable pub apply_result : TextBox → Parser.Pushed → Option TextBox
  apply_result t (parser, buffer, pushed_glyph g) =
      update_last_line_layout (record t { parser = parser; buffer = buffer }) g
  apply_result t (parser, buffer, new_logical_line) = some (record t {
    parser = parser;
    buffer = buffer;
    cursor_x = t.padding_left;
    visual_lines =
        t.visual_lines ++ (record { line_idx = length buffer - 1; start = 0; end = 0 } ∷ []);
  })
  apply_result t (parser, buffer, no_new_glyph) =
      some (record t { parser = parser; buffer = buffer })

  unfoldable pub push_byte : TextBox → ℕ → Option TextBox
  push_byte t b = apply_result t (Parser.push_byte t.parser b t.buffer)

  -- `write_str`
  unfoldable pub write_str : TextBox → List ℕ → Option TextBox
  write_str t [] = some t
  write_str t (b ∷ bs) = elim (push_byte t b) [ none ↦ none | some t' ↦ write_str t' bs ]
