-- ===== src/Rendering/Panel/Sample.antt =====
-- A font of one glyph, and the place of a small text box, to try the text box with.
use minecraft_os.Prelude.{some, [], ◌∷◌}
use minecraft_os.Prelude.Int.{pos, negsuc}
use minecraft_os.Rendering.Rectangle.{Rectangle}
use minecraft_os.Rendering.Panel.{LineMetrics, Font}

abbrev metrics : LineMetrics
metrics = record { new_line_size = pos 14; neg_ascent = negsuc 10; neg_descent = pos 3 }

abbrev pub font : Font
font = record {
  horizontal_line_metrics = λ size. some metrics;
  rasterize = λ k. record {
    xmin = pos 0;
    ymin = pos 0;
    width = 1;
    height = 1;
    advance = pos 8;
    bitmap = 255 ∷ [];
  };
}

abbrev pub box : Rectangle
box = record { top_left = record { x = pos 0; y = pos 0 }; size = record { x = 100; y = 48 } }
