-- ===== src/Rendering/Renderer/Tests.antt =====
-- A screen of eight by four pixels, and an area that reaches beyond its corner.
use minecraft_os.Prelude.{
  ℕ, zero, suc, ◌+◌, ◌*◌, ◌<◌, ◌≤◌, ◌≡◌, refl, arith, some, List, [], ◌∷◌, replicate,
}
use minecraft_os.Prelude.Int.{pos}
use minecraft_os.Rendering.Color.{Color, rgb, write_to}
use minecraft_os.Rendering.Rectangle.{
  Rectangle, IVec2, intersection, between, bottom_right, wrap32, as_usize, counted,
}
use minecraft_os.Rendering.Rectangle.Intersection.{Decides, Contains, intersection_lem}
use minecraft_os.Rendering.Renderer.{
  Renderer, bounding_box, build_48_byte_pattern, pattern_chunks, fill_rows, fill_solid,
}
use minecraft_os.Rendering.Renderer.Solid.{IsPainted, IsKeptAround, fill_solid_lem}

abbrev screen : Renderer
screen = record {
  framebuffer = replicate 128 0;
  info = record { width = 8; height = 4; stride = 8; bytes_per_pixel = 4; pixel_format = rgb };
}

abbrev area : Rectangle
area = record { top_left = record { x = pos 6; y = pos 2 }; size = record { x = 5; y = 5 } }

abbrev inside : IVec2
inside = record { x = pos 7; y = pos 3 }

intersection_example :
    Decides
      (intersection area (bounding_box screen.info))
      (Contains area inside × Contains (bounding_box screen.info) inside)
      inside
unfolding bounding_box
intersection_example =
    intersection_lem area (bounding_box screen.info) inside
      (record {
        width = omega arith;
        height = omega arith;
        right = omega arith;
        bottom = omega arith;
      })
      (record {
        width = omega arith;
        height = omega arith;
        right = omega arith;
        bottom = omega arith;
      })

abbrev orange : Color
orange = record { red = 255; green = 128; blue = 0 }

abbrev copies : ℕ → List ℕ
copies zero = []
copies (suc n) = 255 ∷ 128 ∷ 0 ∷ 0 ∷ copies n

fits : (i : ℕ) → i < 2 → ((2 + i) * 8 + 6) * 4 + 2 * 4 ≤ 128
fits i h = omega arith

fill_solid_example :
    let fb = fill_rows screen.info (pos 6) 8 (copies 12) (counted (pos 2) 2) screen.framebuffer in
    (fill_solid screen area orange ≡ some (record screen { framebuffer = fb }))
    × IsPainted screen 6 2 2 2 (copies 12) fb
    × IsKeptAround screen 6 2 2 2 fb
unfolding intersection between bottom_right wrap32 as_usize bounding_box build_48_byte_pattern
    pattern_chunks write_to
fill_solid_example =
    fill_solid_lem screen area orange (copies 12) 6 2 2 2 refl refl (omega arith) (omega arith)
      (omega arith) fits
