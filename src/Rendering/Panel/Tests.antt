-- ===== src/Rendering/Panel/Tests.antt =====
-- A small text box that shows two of its lines.
use minecraft_os.Prelude.{◌≡◌, refl, min, Option, some, none, List, [], ◌∷◌, ◌++◌, length}
use minecraft_os.Prelude.Int.{pos}
use minecraft_os.Rendering.Rectangle.{wrap32, as_usize}
use minecraft_os.Rendering.Parser
use minecraft_os.Rendering.TextBox
use minecraft_os.Rendering.TextBox.{VisualLine}
use minecraft_os.Rendering.Panel.{
  Panel, lines_to_render, max_visible_lines, new, scroll, push_byte, recalculate_metrics, reset,
  div32, initial,
}
use minecraft_os.Rendering.Panel.Sample.{font, box}
use minecraft_os.Rendering.Panel.Window.{Call, write, scroll_by, used, call, lines_to_render_lem}

abbrev calls : List Call
calls = write b'a' ∷ write b'\n' ∷ write b'b' ∷ write b'\n' ∷ scroll_by (pos 5) ∷ []

abbrev get_panel : Option Panel → Panel
get_panel none = initial font box
get_panel (some p) = p

abbrev scrolled : Panel
scrolled = get_panel (used font box calls)

scrolled-used : used font box calls ≡ some scrolled
unfolding call new push_byte scroll recalculate_metrics reset max_visible_lines div32
    TextBox.push_byte TextBox.apply_result TextBox.update_last_line_layout TextBox.calc_advance
    TextBox.extend_line TextBox.update_last TextBox.reset_content Parser.push_byte
    Parser.push_in_text Parser.push_text Parser.push_glyph Parser.is_printable Parser.new_parser
    wrap32 as_usize
scrolled-used = refl

scrolled_visible : max_visible_lines scrolled ≡ some 2
unfolding call new push_byte scroll recalculate_metrics reset max_visible_lines div32
    TextBox.push_byte TextBox.apply_result TextBox.update_last_line_layout TextBox.calc_advance
    TextBox.extend_line TextBox.update_last TextBox.reset_content Parser.push_byte
    Parser.push_in_text Parser.push_text Parser.push_glyph Parser.is_printable Parser.new_parser
    wrap32 as_usize
scrolled_visible = refl

lines_to_render_example :
    (before : List VisualLine) × (shown : List VisualLine) × (after : List VisualLine)
    × (lines_to_render scrolled ≡ some shown)
    × (scrolled.text.visual_lines ≡ before ++ (shown ++ after))
    × (length after ≡ scrolled.scroll_offset)
    × (length shown ≡ min 2 (length scrolled.text.visual_lines))
lines_to_render_example =
    lines_to_render_lem font box calls scrolled 2 scrolled-used scrolled_visible
