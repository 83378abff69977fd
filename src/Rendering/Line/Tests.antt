-- ===== src/Rendering/Line/Tests.antt =====
-- A line on a small frame, in whole numbers instead of `f32`.
use minecraft_os.Prelude.{
  ℕ, ◌+◌, ◌-◌, ◌/◌, ◌≡◌, refl, arith, ltb, leb, [], ◌∷◌, map, replicate, none,
}
use minecraft_os.Prelude.Int.{pos, pos_part}
use minecraft_os.Rendering.Color.{Color, rgb}
use minecraft_os.Rendering.Rectangle.{IVec2, wrap32}
use minecraft_os.Rendering.Line.{
  DepthOps, Vertex, Point, Renderer3d, draw_points, line_of, first_point, fill_line_thin, step,
  abs32,
}
use minecraft_os.Rendering.Line.Visits.{
  ends_of, walk, plot_all, finished, IsPath, draw_points-IsPath,
}
use minecraft_os.Rendering.Line.Drawing.{IsFrame, IsDrawn, fill_line_thin-IsDrawn}

abbrev whole : DepthOps
whole = record {
  as_i32 = λ n. pos n;
  of_i32 = pos_part;
  add = λ a b. a + b;
  sub = λ a b. a - b;
  div = λ a b. a / b;
  lt = ltb;
  le = leb;
  zero = 0;
  line_z_bias = 1;
}

abbrev frame : Renderer3d
frame = record {
  buffer = replicate 96 0;
  depth_buffer = replicate 32 0;
  info = record { width = 8; height = 4; stride = 8; bytes_per_pixel = 3; pixel_format = rgb };
}

abbrev from : Vertex
from = record { x = 6; y = 0; z = 5 }

abbrev to : Vertex
to = record { x = 1; y = 3; z = 15 }

abbrev coords : Point → ℕ × ℕ
coords p = (pos_part p.x, pos_part p.y)

abbrev corner : ℕ → IVec2
corner n = record { x = pos n; y = pos n }

visited :
    map coords (
      walk whole 5
        (line_of whole (corner 0) (corner 4) [] from to)
        (first_point whole (line_of whole (corner 0) (corner 4) [] from to) from))
    ≡ (6, 0) ∷ (5, 1) ∷ (4, 1) ∷ (3, 2) ∷ (2, 2) ∷ (1, 3) ∷ []
unfolding line_of first_point step abs32 wrap32
visited = refl

draw_points-IsPath_example :
    let l = line_of whole (corner 0) (corner 4) (1 ∷ 2 ∷ 3 ∷ []) from to in
    let points = walk whole 5 l (first_point whole l from) in
    (draw_points whole 6 frame l (first_point whole l from)
      ≡ finished (plot_all whole frame l points))
    × IsPath (ends_of whole from to) 0 points
draw_points-IsPath_example =
    draw_points-IsPath whole frame (corner 0) (corner 4) (1 ∷ 2 ∷ 3 ∷ []) from to 6 (omega arith)
      (omega arith)

frame-IsFrame : IsFrame frame
frame-IsFrame = record {
  strided = omega arith;
  pixel = omega arith;
  known = λ e. cc e;
  depths = omega arith;
  bytes = omega arith;
}

abbrev red : Color
red = record { red = 255; green = 0; blue = 0 }

fill_line_thin-IsDrawn_example : IsDrawn (fill_line_thin whole 6 frame from to red none)
fill_line_thin-IsDrawn_example =
    fill_line_thin-IsDrawn whole 6 from to red (omega arith) (omega arith) frame none frame-IsFrame
