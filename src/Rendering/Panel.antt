-- ===== src/Rendering/Panel.antt =====
-- `TextBox` of kernel-core/src/rendering/text_box.rs around its layout: the set-up, the font size,
-- scrolling and rendering. `i32` sums wrap around as in a release build; `none` is a panic.
pub mod Window
pub mod Sample
mod Tests
use package.minecraft_os.Prelude.{
  ℕ, zero, suc, ◌+◌, ◌-◌, ◌*◌, ◌/◌, ◌%◌, ◌^◌, min, max, Bool, true, false, ◌&&◌, Option, none, some,
  ◌>>=◌, List, [], ◌∷◌, ◌++◌, ltb, leb, ◌==◌, if◌then◌else◌, length, take, drop, map,
}
use package.minecraft_os.Prelude.Int.{ℤ, pos, negsuc, ◌+ℤ◌, ◌-ℤ◌}
use mathlib.Core.List.{reverse}
use package.minecraft_os.Rendering.Color.{Color, white, black, with_intensity}
use package.minecraft_os.Rendering.GlyphCache.{Key, Raster}
use package.minecraft_os.Rendering.Parser.{Style, Glyph, Buffer, new_parser}
use package.minecraft_os.Rendering.Rectangle.{Rectangle, wrap32, as_usize}
use package.minecraft_os.Rendering.Renderer.{Renderer, Pixel, fill_solid, draw_iter}
use package.minecraft_os.Rendering.TextBox
use package.minecraft_os.Rendering.TextBox.{
  TextBox, VisualLine, default_visual_line, visual_line_slice, reset_content,
}

-- The font's line metrics, as the casts to `i32` give them; ascent and descent are negated.
pub record LineMetrics : Type 0 where
  pub new_line_size : ℤ
  pub neg_ascent : ℤ
  pub neg_descent : ℤ

pub record Font : Type 0 where
  pub horizontal_line_metrics : ℕ → Option LineMetrics
  pub rasterize : Key → Raster

pub record Panel : Type 0 where
  pub text : TextBox
  pub bounding_box : Rectangle
  pub padding_top : ℤ
  pub padding_bottom : ℤ
  pub line_spacing : ℤ
  pub font_size : ℕ
  pub line_height : ℤ
  pub line_ascent : ℤ
  pub line_descent : ℤ
  pub color_text : Color
  pub color_bg : Color
  pub scroll_offset : ℕ
  pub cursor_idx : Option ℕ

infixl 65 ◌+32◌ ◌-32◌
abbrev pub ◌+32◌ : ℤ → ℤ → ℤ
a +32 b = wrap32 (a +ℤ b)

abbrev pub ◌-32◌ : ℤ → ℤ → ℤ
a -32 b = wrap32 (a -ℤ b)

-- The 32 bits of an integer.
abbrev pub bits32 : ℤ → ℕ
bits32 (pos n) = n % 2 ^ 32
bits32 (negsuc n) = 2 ^ 32 - 1 - n % 2 ^ 32

-- `size as i32`
abbrev pub as_i32 : ℕ → ℤ
as_i32 n = wrap32 (pos n)

abbrev pub style_of : Panel → Style
style_of p = record { color_text = p.color_text }

unfoldable pub reset : Panel → Panel
reset p = record p {
  text = reset_content (style_of p) p.text;
  scroll_offset = 0;
  cursor_idx = none;
}

-- `i32` division, which panics on 0; -2^31 / -1 overflows.
unfoldable pub div32 : ℤ → ℤ → Option ℤ
div32 a (pos zero) = none
div32 (pos a) (pos (suc b)) = some (pos (a / suc b))
div32 (negsuc a) (pos (suc b)) = some (pos 0 -ℤ pos (suc a / suc b))
div32 (pos a) (negsuc b) = some (pos 0 -ℤ pos (a / suc b))
div32 (negsuc a) (negsuc b) =
    if a == 2 ^ 31 - 1 && (b == 0) then none else some (pos (suc a / suc b))

unfoldable pub max_visible_lines : Panel → Option ℕ
max_visible_lines p =
    let effective_height = as_i32 p.bounding_box.size.y -32 p.padding_bottom -32 p.padding_top in
    let effective_line_height = p.line_height +32 p.line_spacing in
    div32 effective_height effective_line_height >>= λ n. some (as_usize n)

-- By a negative `isize`, and by another.
unfoldable pub scroll : Panel → ℤ → Option Panel
scroll p (negsuc n) = some (record p { scroll_offset = p.scroll_offset - suc n })
scroll p (pos delta) = do
  visible ← max_visible_lines p
  let max_scroll_offset = length p.text.visual_lines - visible
  some (record p { scroll_offset = min ((p.scroll_offset + delta) % 2 ^ 64) max_scroll_offset })

unfoldable pub clear : Panel → Panel
clear p = reset p

unfoldable pub set_cursor_index : Panel → Option ℕ → Panel
set_cursor_index p index = record p { cursor_idx = index }

abbrev pub get_current_text_color : Panel → Color
get_current_text_color p = p.text.parser.current_style.color_text

-- The visual lines within view; a slice out of range panics.
unfoldable pub lines_to_render : Panel → Option (List VisualLine)
lines_to_render p =
    if leb p.scroll_offset (length p.text.visual_lines)
    then (max_visible_lines p >>= λ visible.
        let end = length p.text.visual_lines - p.scroll_offset in
        some (drop (end - visible) (take end p.text.visual_lines)))
    else none

-- What `render` asks of the renderer, in order.
pub data Draw : Type 0 where
  solid : Rectangle → Color → Draw
  pixels : List Pixel → Draw

abbrev pub total_glyphs : Buffer → ℕ
total_glyphs [] = 0
total_glyphs (line ∷ lines) = length line + total_glyphs lines

-- A cursor of one pixel's width at `x`, whose baseline is `y`.
unfoldable pub render_cursor : Panel → ℤ → ℤ → Draw
render_cursor p x y =
    let cursor_top = y +32 p.line_ascent in
    solid
      (record {
        top_left = record {
          x = p.bounding_box.top_left.x +32 x;
          y = p.bounding_box.top_left.y +32 cursor_top;
        };
        size = record { x = 1; y = as_usize (p.line_descent -32 p.line_ascent) };
      })
      p.color_text

-- The pixels of a bitmap from index `i` on, its top left corner at (tx, ty).
unfoldable pub bitmap_pixels : ℤ → ℤ → Color → ℕ → ℕ → List ℕ → List Pixel
bitmap_pixels tx ty color width i [] = []
bitmap_pixels tx ty color width i (intensity ∷ bitmap) =
    let rest = bitmap_pixels tx ty color width (i + 1) bitmap in
    if intensity == 0
    then rest
    else record {
      coord = record { x = tx +32 as_i32 (i % width); y = ty +32 as_i32 (i / width) };
      color = with_intensity color intensity;
    }
      ∷ rest

-- A bitmap of width 0 that is not empty divides by 0.
unfoldable pub render_char : Panel → Raster → Color → ℤ → ℤ → Option Draw
render_char p raster color x y =
    let tx = p.bounding_box.top_left.x +32 x +32 raster.xmin in
    let ty = p.bounding_box.top_left.y +32 y -32 as_i32 raster.height -32 raster.ymin in
    if raster.width == 0 && ltb 0 (length raster.bitmap)
    then none
    else some (pixels (bitmap_pixels tx ty color raster.width 0 raster.bitmap))

abbrev pub is_at_cursor : Panel → ℕ → Bool
is_at_cursor p n = elim p.cursor_idx [ none ↦ false | some i ↦ i == n ]

module _ (font : Font) where
  unfoldable pub recalculate_metrics : Panel → Option Panel
  recalculate_metrics p = do
    metrics ← font.horizontal_line_metrics p.font_size
    some (record p {
      line_height = metrics.new_line_size +32 p.line_spacing;
      line_ascent = metrics.neg_ascent;
      line_descent = metrics.neg_descent;
    })

  -- The fields before the metrics are known.
  abbrev pub initial : Rectangle → Panel
  initial bounding_box = record {
    text = record {
      size_x = bounding_box.size.x % 2 ^ 32;
      padding_left = 10;
      padding_right = 10;
      letter_spacing = 0;
      cursor_x = 10;
      buffer = [] ∷ [];
      visual_lines = default_visual_line ∷ [];
      parser = new_parser (record { color_text = white });
    };
    bounding_box = bounding_box;
    padding_top = pos 10;
    padding_bottom = pos 10;
    line_spacing = pos 0;
    font_size = 14;
    line_height = pos 0;
    line_ascent = pos 0;
    line_descent = pos 0;
    color_text = white;
    color_bg = black;
    scroll_offset = 0;
    cursor_idx = none;
  }

  unfoldable pub new : Rectangle → Option Panel
  new bounding_box = do p ← recalculate_metrics (initial bounding_box); some (reset p)

  unfoldable pub set_font_size : Panel → ℕ → Option Panel
  set_font_size p size =
      recalculate_metrics (record p { font_size = min (max size 4) 72; scroll_offset = 0 })

  -- `get_raster`, whose cache gives what the font does.
  abbrev pub raster_of : Panel → Glyph → Raster
  raster_of p g = font.rasterize (g.b, p.font_size)

  unfoldable pub push_byte : Panel → ℕ → Option Panel
  push_byte p b = do
    text ← TextBox.push_byte (λ c. bits32 (font.rasterize (c, p.font_size)).advance) p.text b
    some (record p { text = text })

  unfoldable pub write_str : Panel → List ℕ → Option Panel
  write_str p [] = some p
  write_str p (b ∷ bs) = do p' ← push_byte p b; write_str p' bs

  unfoldable pub set_text : Panel → List ℕ → Option Panel
  set_text p text = write_str (reset p) text

  abbrev pub cursor_if : Bool → Draw → List Draw → List Draw
  cursor_if b cursor draws = if b then cursor ∷ draws else draws

  -- The glyphs of a line from `flat_idx` and `x` on, and where they end.
  unfoldable pub render_glyphs : Panel → ℤ → ℕ → ℤ → List Glyph → Option (List Draw × ℤ)
  render_glyphs p y flat_idx x [] = some ([], x)
  render_glyphs p y flat_idx x (g ∷ glyphs) = do
    let raster = raster_of p g
    char ← render_char p raster g.style.color_text x y
    (rest, end) ←
        render_glyphs p y (flat_idx + 1)
          (x +32 (raster.advance +32 wrap32 (pos p.text.letter_spacing))) glyphs
    some (cursor_if (is_at_cursor p flat_idx) (render_cursor p x y) (char ∷ rest), end)

  unfoldable pub render_line : Panel → ℤ → VisualLine → Option (List Draw)
  render_line p y line = do
    let total = total_glyphs p.text.buffer
    (draws, x) ←
        render_glyphs p y line.start (wrap32 (pos p.text.padding_left))
          (visual_line_slice p.text.buffer line)
    some (draws ++ cursor_if (is_at_cursor p total && (line.end == total)) (render_cursor p x y) [])

  -- The lines from the last one upwards, the baseline of which is `y`.
  unfoldable pub render_lines : Panel → ℤ → List VisualLine → Option (List Draw)
  render_lines p y [] = some []
  render_lines p y (line ∷ lines) = do
    draws ← render_line p y line
    rest ← render_lines p (y -32 (p.line_height +32 p.line_spacing)) lines
    some (draws ++ rest)

  unfoldable pub render_draws : Panel → Option (List Draw)
  render_draws p = do
    lines ← lines_to_render p
    let y = as_i32 p.bounding_box.size.y -32 p.padding_bottom -32 p.line_descent
    draws ← render_lines p y (reverse lines)
    some (solid p.bounding_box p.color_bg ∷ draws)

  unfoldable pub perform : Renderer → List Draw → Option Renderer
  perform r [] = some r
  perform r (solid area color ∷ draws) = do r' ← fill_solid r area color; perform r' draws
  perform r (pixels ps ∷ draws) = do r' ← draw_iter r ps; perform r' draws

  unfoldable pub render : Panel → Renderer → Option Renderer
  render p r = do draws ← render_draws p; perform r draws
