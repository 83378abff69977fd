-- ===== src/Logger/Tests.antt =====
-- A logger on a screen without pixels, which is set up, scrolled and drawn.
use minecraft_os.Prelude.{◌≡◌, refl, true, false, Option, some, none, List, [], ◌∷◌}
use minecraft_os.Prelude.Int.{negsuc}
use minecraft_os.Rendering.Color
use minecraft_os.Rendering.Color.{rgb, fg}
use minecraft_os.Rendering.Parser
use minecraft_os.Rendering.Rectangle.{intersection, between, bottom_right, wrap32, as_usize}
use minecraft_os.Rendering.Renderer
use minecraft_os.Rendering.TextBox
use minecraft_os.Rendering.Renderer.{Info, Renderer}
use minecraft_os.Rendering.Panel
use minecraft_os.Rendering.Panel.{Font, Panel}
use minecraft_os.Rendering.Panel.Sample.{font, box}
use minecraft_os.Logger.{
  Logger, default, enable_rendering, scroll, flush, flush_text_box, render_text_box, flush_staging,
  info, log, write_text, show_text, log_line,
}
use minecraft_os.Logger.Shown.{Call, enable, scroll_at, flush_at, run_calls, run_calls_lem}
use minecraft_os.Logger.Flushed.{at_rest, log-IsFlushed}

abbrev dark : Renderer
dark = record {
  framebuffer = [];
  info = record { width = 0; height = 0; stride = 0; bytes_per_pixel = 3; pixel_format = rgb };
}

abbrev calls : List Call
calls = enable box ∷ scroll_at at_rest (negsuc 0) ∷ flush_at at_rest ∷ []

abbrev get_logger : Option Logger → Logger
get_logger none = default dark []
get_logger (some l) = l

abbrev shown : Logger
shown = get_logger (run_calls font (default dark []) calls)

abbrev box_of : Option Panel → Panel
box_of none = Panel.initial font box
box_of (some p) = p

shown_run :
    (run_calls font (default dark []) calls ≡ some shown)
    × (shown.needs_flush ≡ false)
    × (shown.text_box ≡ some (box_of shown.text_box))
unfolding default enable_rendering scroll Panel.scroll flush flush_text_box render_text_box
    flush_staging Panel.new Panel.recalculate_metrics Panel.reset Panel.render Panel.render_draws
    Panel.lines_to_render Panel.max_visible_lines Panel.div32 wrap32 as_usize Panel.render_lines
    Panel.render_line Panel.render_glyphs TextBox.visual_line_slice Panel.perform
    Renderer.fill_solid intersection between Renderer.bounding_box bottom_right
    TextBox.reset_content
shown_run = (refl, refl, refl)

run_calls_example : shown.rendered ≡ some (box_of shown.text_box)
run_calls_example =
    run_calls_lem font dark [] calls shown (box_of shown.text_box) shown_run.0 shown_run.1
      shown_run.2

abbrev enabled : Logger
enabled = get_logger (enable_rendering font (default dark []) box)

abbrev logged : Logger
logged = get_logger (log font at_rest enabled info (b'a' ∷ []))

enabled_box : (enabled.visible ≡ true) × (enabled.text_box ≡ some (box_of enabled.text_box))
unfolding default enable_rendering Panel.new Panel.recalculate_metrics
enabled_box = (refl, refl)

enabled-log : log font at_rest enabled info (b'a' ∷ []) ≡ some logged
unfolding default enable_rendering flush flush_text_box render_text_box flush_staging log write_text
    show_text Panel.new Panel.recalculate_metrics Panel.reset Panel.render Panel.render_draws
    Panel.lines_to_render Panel.max_visible_lines Panel.div32 wrap32 as_usize Panel.render_lines
    Panel.render_line Panel.render_glyphs TextBox.visual_line_slice Panel.perform
    Renderer.fill_solid intersection between Renderer.bounding_box bottom_right
    TextBox.reset_content fg Panel.write_str Panel.push_byte TextBox.push_byte TextBox.apply_result
    TextBox.update_last_line_layout TextBox.calc_advance TextBox.extend_line TextBox.update_last
    Parser.push_byte Parser.push_in_text Parser.push_in_command Parser.exec_cmd Parser.style_after
    Parser.push_text Parser.push_glyph Parser.is_printable Parser.new_parser Color.parse_hex
    Color.from_str_radix_16 Color.hex_digits Color.hex_digit Color.color_of_num Panel.render_char
    Panel.bitmap_pixels Renderer.draw_iter Renderer.render_pixel Color.with_intensity
enabled-log = refl

log-IsFlushed_example :
    (logged.needs_flush ≡ false)
    × (logged.text_box
        ≡ Panel.write_str font
            (box_of enabled.text_box)
            (log_line (box_of enabled.text_box) info (b'a' ∷ [])))
    × (logged.rendered
        ≡ Panel.write_str font
            (box_of enabled.text_box)
            (log_line (box_of enabled.text_box) info (b'a' ∷ [])))
    × (logged.display ≡ logged.staging.framebuffer)
log-IsFlushed_example =
    log-IsFlushed font enabled logged (box_of enabled.text_box) info (b'a' ∷ []) enabled_box.0
      enabled_box.1 enabled-log
