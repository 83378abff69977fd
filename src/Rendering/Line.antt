-- ===== src/Rendering/Line.antt =====
-- `fill_line_thin` of kernel-core/src/rendering/renderer.rs, with `i32` arithmetic as in a release
-- build. Depths are `f32` values as their 32 bits, and their arithmetic is a parameter.
pub mod Counts
pub mod Signed
pub mod Nearest
pub mod Visits
pub mod Drawing
mod Tests
use package.minecraft_os.Prelude.{
  ℕ, zero, suc, ◌+◌, ◌*◌, ◌^◌, Bool, true, false, ◌&&◌, ◌||◌, Option, none, some, List, [], ◌∷◌,
  length, get_elem?, set, take, write_at, replicate, ltb, leb, ◌==◌, if◌then◌else◌,
}
use package.minecraft_os.Prelude.Int.{ℤ, pos, negsuc, pos_part, neg_part, ◌+ℤ◌, ◌-ℤ◌, ltb_ℤ}
use package.minecraft_os.Rendering.Color.{Color, write_to}
use package.minecraft_os.Rendering.Rectangle.{
  IVec2, Rectangle, wrap32, as_usize, min_ℤ, max_ℤ, bottom_right, intersection,
}
use package.minecraft_os.Rendering.Renderer.{Info, bounding_box}

-- `Vec3`, and what the loop uses of `f32`.
pub record Vertex : Type 0 where
  pub x : ℕ
  pub y : ℕ
  pub z : ℕ

pub record DepthOps : Type 0 where
  pub as_i32 : ℕ → ℤ
  pub of_i32 : ℤ → ℕ
  pub add : ℕ → ℕ → ℕ
  pub sub : ℕ → ℕ → ℕ
  pub div : ℕ → ℕ → ℕ
  pub lt : ℕ → ℕ → Bool
  pub le : ℕ → ℕ → Bool
  pub zero : ℕ
  pub line_z_bias : ℕ

pub record Renderer3d : Type 0 where
  pub buffer : List ℕ
  pub depth_buffer : List ℕ
  pub info : Info

abbrev pub eq_ℤ : ℤ → ℤ → Bool
eq_ℤ a b = pos_part a == pos_part b && (neg_part a == neg_part b)

abbrev pub le_ℤ : ℤ → ℤ → Bool
le_ℤ a b = leb (pos_part a + neg_part b) (pos_part b + neg_part a)

unfoldable pub abs32 : ℤ → ℤ
abs32 (pos n) = pos n
abs32 (negsuc n) = wrap32 (pos (suc n))

-- What stays the same in the loop. The clipping rectangle is exclusive of its end.
pub record Line : Type 0 where
  pub clip_start : IVec2
  pub clip_end : IVec2
  pub color_bytes : List ℕ
  pub end : IVec2
  pub dx : ℤ
  pub dy : ℤ
  pub sx : ℤ
  pub sy : ℤ
  pub dz : ℕ

pub record Point : Type 0 where
  pub x : ℤ
  pub y : ℤ
  pub err : ℤ
  pub z : ℕ

-- `if v < end { 1 } else { -1 }`
abbrev pub sign_to : ℤ → ℤ → ℤ
sign_to v end = if ltb_ℤ v end then pos 1 else negsuc 0

abbrev pub is_clipped_in : Renderer3d → Line → Point → Bool
is_clipped_in r l p =
    (le_ℤ (pos 0) p.x
      && ltb (as_usize p.x) r.info.width
      && le_ℤ (pos 0) p.y
      && ltb (as_usize p.y) r.info.height)
    && (le_ℤ l.clip_start.x p.x
        && ltb_ℤ p.x l.clip_end.x
        && le_ℤ l.clip_start.y p.y
        && ltb_ℤ p.y l.clip_end.y)

-- The loop's result; `running` is out of fuel.
pub data Drawn : Type 0 where
  drawn : Renderer3d → Drawn
  panicked running : Drawn

unfoldable pub clip_start : Rectangle → IVec2
clip_start clip = record { x = max_ℤ clip.top_left.x (pos 0); y = max_ℤ clip.top_left.y (pos 0) }

unfoldable pub clip_end : Renderer3d → Rectangle → IVec2
clip_end r clip = record {
  x = min_ℤ (bottom_right clip).x (wrap32 (pos r.info.width));
  y = min_ℤ (bottom_right clip).y (wrap32 (pos r.info.height));
}

-- The early returns: nothing is left after clipping.
unfoldable pub is_nothing : Renderer3d → Rectangle → Bool
is_nothing r clip =
    clip.size.x == 0
    || (clip.size.y == 0)
    || le_ℤ (clip_end r clip).x (clip_start clip).x
    || le_ℤ (clip_end r clip).y (clip_start clip).y

abbrev pub clip_to : Option Rectangle → Rectangle → Option Rectangle
clip_to none framebuffer_rect = some framebuffer_rect
clip_to (some rect) framebuffer_rect = intersection rect framebuffer_rect

module _ (f32 : DepthOps) where
  -- A pixel is written if it is not behind what is there. Reverse z: larger is nearer.
  unfoldable pub write_deep : Renderer3d → Line → Point → ℕ → Option ℕ → Option Renderer3d
  write_deep r l p depth_offset none = none
  write_deep r l p depth_offset (some depth) =
      let off = (as_usize p.y * r.info.stride + as_usize p.x) * r.info.bytes_per_pixel in
      if f32.lt depth (f32.add p.z f32.line_z_bias)
      then (if leb (off + r.info.bytes_per_pixel) (length r.buffer)
          then some (record r {
            depth_buffer = set r.depth_buffer depth_offset p.z;
            buffer = write_at off l.color_bytes r.buffer;
          })
          else none)
      else some r

  unfoldable pub plot : Renderer3d → Line → Point → Option Renderer3d
  plot r l p =
      let depth_offset = as_usize p.y * r.info.width + as_usize p.x in
      if is_clipped_in r l p
      then write_deep r l p depth_offset (get_elem? r.depth_buffer depth_offset)
      else some r

  unfoldable pub step : Line → Point → Point
  step l p =
      let e2 = wrap32 (p.err +ℤ p.err) in
      let across = ltb_ℤ (wrap32 (pos 0 -ℤ l.dy)) e2 in
      let along = ltb_ℤ e2 l.dx in
      let err = if across then wrap32 (p.err -ℤ l.dy) else p.err in
      record {
        x = if across then wrap32 (p.x +ℤ l.sx) else p.x;
        y = if along then wrap32 (p.y +ℤ l.sy) else p.y;
        err = if along then wrap32 (err +ℤ l.dx) else err;
        z = f32.add p.z l.dz;
      }

  unfoldable pub draw_points : ℕ → Renderer3d → Line → Point → Drawn
  draw_points zero r l p = running
  draw_points (suc fuel) r l p = elim (plot r l p) [
    | none ↦ panicked
    | some r' ↦ elim (eq_ℤ p.x l.end.x && eq_ℤ p.y l.end.y) [
      | true ↦ drawn r'
      | false ↦ draw_points fuel r' l (step l p)
    ]
  ]

  -- The set-up of the loop behind the clipping.
  unfoldable pub line_of : IVec2 → IVec2 → List ℕ → Vertex → Vertex → Line
  line_of clip_start clip_end color_bytes a b =
      let x = f32.as_i32 a.x in
      let y = f32.as_i32 a.y in
      let end_x = f32.as_i32 b.x in
      let end_y = f32.as_i32 b.y in
      let dx = abs32 (wrap32 (end_x -ℤ x)) in
      let dy = abs32 (wrap32 (end_y -ℤ y)) in
      let steps = max_ℤ dx dy in
      record {
        clip_start = clip_start;
        clip_end = clip_end;
        color_bytes = color_bytes;
        end = record { x = end_x; y = end_y };
        dx = dx;
        dy = dy;
        sx = sign_to x end_x;
        sy = sign_to y end_y;
        dz = if ltb_ℤ (pos 0) steps then f32.div (f32.sub b.z a.z) (f32.of_i32 steps) else f32.zero;
      }

  unfoldable pub first_point : Line → Vertex → Point
  first_point l a = record {
    x = f32.as_i32 a.x;
    y = f32.as_i32 a.y;
    err = wrap32 (l.dx -ℤ l.dy);
    z = a.z;
  }

  -- `[0u8; 8]` with the colour's bytes.
  unfoldable pub draw_clipped : ℕ → Renderer3d → Vertex → Vertex → Color → Rectangle → Drawn
  draw_clipped fuel r a b color clip =
      let zeros : List ℕ = replicate 8 0 in
      let lines = λ (color_bytes : List ℕ).
        let l =
          line_of (clip_start clip) (clip_end r clip) (take r.info.bytes_per_pixel color_bytes) a
            b in
        draw_points fuel r l (first_point l a) in
      if is_nothing r clip
      then drawn r
      else if leb r.info.bytes_per_pixel 8
      then elim (write_to color zeros r.info.pixel_format) [
        | none ↦ panicked
        | some bytes ↦ lines bytes
      ]
      else panicked

  unfoldable pub fill_line_thin :
      ℕ → Renderer3d → Vertex → Vertex → Color → Option Rectangle → Drawn
  fill_line_thin fuel r a b color clip_rect = elim (clip_to clip_rect (bounding_box r.info)) [
    | none ↦ drawn r
    | some clip ↦ draw_clipped fuel r a b color clip
  ]

  -- `thickness <= 1.5`, and a `todo!` for thicker lines.
  unfoldable pub draw_line : ℕ → Renderer3d → Vertex → Vertex → Color → ℕ → Option Rectangle → Drawn
  draw_line fuel r a b color thickness clip_rect =
      if f32.le thickness 0x3fc0_0000 then fill_line_thin fuel r a b color clip_rect else panicked
