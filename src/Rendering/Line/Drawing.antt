-- ===== src/Rendering/Line/Drawing.antt =====
-- Drawing a thin line into a frame that is as large as its description says.
use minecraft_os.Prelude.{
  ℕ, ◌+◌, ◌*◌, ◌≤◌, ◌<◌, ◌≡◌, ◌≢◌, refl, ap, ◌∙◌, arith, true, Bool-cases, Option-cases, leb, max,
  inl, inr, List, [], ◌∷◌, length, set, take, replicate, Option, some, get_elem?-eq-get_or,
  length-set, length-write_at, write_at,
}
use native.Mathlib.Nat.{mul-le-mul_right}
use minecraft_os.Rendering.Color.{Color, PixelFormat, rgb, bgr, u8, other, write_to}
use minecraft_os.Rendering.Rectangle.{Rectangle, as_usize}
use minecraft_os.Rendering.Renderer.{bounding_box}
use minecraft_os.Rendering.Line.{
  DepthOps, Vertex, Line, Point, Renderer3d, write_deep, plot, is_clipped_in, line_of, first_point,
  draw_clipped, clip_start, clip_end, is_nothing, clip_to, fill_line_thin, Drawn, drawn,
}
use minecraft_os.Rendering.Line.Nearest.{IsSmall, width, height}
use minecraft_os.Rendering.Line.Visits.{ends_of, plot_all, walk, finished, draw_points-IsPath}

-- The rows fit in the two buffers, and pixels are of a known format.
pub record IsFrame (r : Renderer3d) : Type 0 where
  pub strided : r.info.width ≤ r.info.stride
  pub pixel : r.info.bytes_per_pixel ≤ 8
  pub known : r.info.pixel_format ≢ other
  pub depths : r.info.width * r.info.height ≤ length r.depth_buffer
  pub bytes : r.info.height * r.info.stride * r.info.bytes_per_pixel ≤ length r.buffer

depth_in_range : (x y w h : ℕ) → x < w → y < h → y * w + x < w * h
depth_in_range x y w h p q = grind arith

bytes_in_range : (x y s h b : ℕ) → x < s → y < h → (y * s + x) * b + b ≤ h * s * b
bytes_in_range x y s h b p q =
    let e : y * s + x + 1 ≤ h * s = grind arith in
    let m = mul-le-mul_right b e in
    let d : (y * s + x + 1) * b ≡ (y * s + x) * b + b = grind arith in omega (arith, m, d)

-- There is a result, and it is such a frame.
abbrev pub Gives : Option Renderer3d → Type 0
Gives o = (r : Renderer3d) × (o ≡ some r) × IsFrame r

module _ (f32 : DepthOps) (l : Line) where
  write_deep-Gives :
      (r : Renderer3d) (p : Point) (depth_offset depth : ℕ)
      → IsFrame r
      → as_usize p.x < r.info.width
      → as_usize p.y < r.info.height
      → Gives (write_deep f32 r l p depth_offset (some depth))
  unfolding write_deep
  write_deep-Gives r p depth_offset depth v hx hy =
      let b = r.info.bytes_per_pixel in
      let off = (as_usize p.y * r.info.stride + as_usize p.x) * b in
      let last =
        bytes_in_range (as_usize p.x) (as_usize p.y) r.info.stride r.info.height b
          (omega (arith, v.strided)) hy in
      let fits : leb (off + b) (length r.buffer) ≡ true = ground (arith, last, v.bytes) in
      elim (Bool-cases (f32.lt depth (f32.add p.z f32.line_z_bias))) [
        | inr e ↦ (r, rw e refl, v)
        | inl e ↦ (
          record r {
            depth_buffer = set r.depth_buffer depth_offset p.z;
            buffer = write_at off l.color_bytes r.buffer;
          },
          rw (e, fits) refl,
          record {
            strided = v.strided;
            pixel = v.pixel;
            known = v.known;
            depths = rw (length-set r.depth_buffer depth_offset p.z) v.depths;
            bytes = rw (length-write_at off l.color_bytes r.buffer) v.bytes;
          },
        )
      ]

  clipped_in-lt :
      (r : Renderer3d) (p : Point)
      → is_clipped_in r l p ≡ true
      → (as_usize p.x < r.info.width) × (as_usize p.y < r.info.height)
  clipped_in-lt r p e = ground arith

  plot-Gives : (r : Renderer3d) (p : Point) → IsFrame r → Gives (plot f32 r l p)
  unfolding plot
  plot-Gives r p v = elim (Bool-cases (is_clipped_in r l p)) [
    | inr e ↦ (r, rw e refl, v)
    | inl e ↦
        let (hx, hy) = clipped_in-lt r p e in
        let o = as_usize p.y * r.info.width + as_usize p.x in
        let d = depth_in_range (as_usize p.x) (as_usize p.y) r.info.width r.info.height hx hy in
        let g = get_elem?-eq-get_or r.depth_buffer o 0 (omega (arith, d, v.depths)) in
        rw (e, g) (write_deep-Gives r p o _ v hx hy)
  ]

  plot_all-Gives : (r : Renderer3d) (ps : List Point) → IsFrame r → Gives (plot_all f32 r l ps)
  plot_all-Gives r [] v = (r, refl, v)
  plot_all-Gives r (p ∷ ps) v = let (r', e, v') = plot-Gives r p v in rw e (plot_all-Gives r' ps v')

-- The loop comes to its end, and leaves such a frame.
abbrev pub IsDrawn : Drawn → Type 0
IsDrawn d = (r : Renderer3d) × (d ≡ drawn r) × IsFrame r

write_to-some :
    (c : Color) (format : PixelFormat)
    → format ≢ other
    → (bytes : List ℕ) × (write_to c (replicate 8 0) format ≡ some bytes)
unfolding write_to
write_to-some c rgb h = (_, refl)
write_to-some c bgr h = (_, refl)
write_to-some c u8 h = (_, refl)
write_to-some c other h = absurd (h refl)

module _ (f32 : DepthOps) (fuel : ℕ) (a b : Vertex) (color : Color)
    (small : IsSmall (ends_of f32 a b))
    (enough : max (width (ends_of f32 a b)) (height (ends_of f32 a b)) < fuel) where
  draw_clipped-IsDrawn :
      (r : Renderer3d) (clip : Rectangle)
      → IsFrame r
      → IsDrawn (draw_clipped f32 fuel r a b color clip)
  unfolding draw_clipped
  draw_clipped-IsDrawn r clip v =
      let (bytes, w) = write_to-some color r.info.pixel_format v.known in
      let wide : leb r.info.bytes_per_pixel 8 ≡ true = ground (arith, v.pixel) in
      let l =
        line_of f32 (clip_start clip) (clip_end r clip) (take r.info.bytes_per_pixel bytes) a b in
      let (e, path) =
        draw_points-IsPath f32 r (clip_start clip) (clip_end r clip)
          (take r.info.bytes_per_pixel bytes) a b fuel small enough in
      let (r', e', v') =
        plot_all-Gives f32 l r
          (walk f32 (max (width (ends_of f32 a b)) (height (ends_of f32 a b))) l
            (first_point f32 l a))
          v in
      elim (Bool-cases (is_nothing r clip)) [
        | inl n ↦ (r, rw n refl, v)
        | inr n ↦ (r', rw (n, wide, w) (e ∙ ap finished e'), v')
      ]

  -- For a frame whose rows fit in its buffers and whose pixels are of a known format, and ends whose
  -- coordinates are within 2^28 of the origin: `fill_line_thin` does not panic, whatever it is to be
  -- clipped to, ends within one round more than the longer side of the line has steps, and leaves a
  -- frame of the same kind.
  pub fill_line_thin-IsDrawn :
      (r : Renderer3d) (clip : Option Rectangle)
      → IsFrame r
      → IsDrawn (fill_line_thin f32 fuel r a b color clip)
  unfolding fill_line_thin
  fill_line_thin-IsDrawn r clip v = elim (Option-cases (clip_to clip (bounding_box r.info))) [
    | inl e ↦ (r, rw (fill_line_thin, e) refl, v)
    | inr (c, e) ↦ rw (fill_line_thin, e) (draw_clipped-IsDrawn r c v)
  ]
