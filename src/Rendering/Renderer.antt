-- ===== src/Rendering/Renderer.antt =====
-- The integer drawing operations of `Renderer` in kernel-core/src/rendering/renderer.rs. A panic,
-- an index behind the frame buffer or an unknown pixel format, is `none`.
pub mod Rows
pub mod Solid
mod Tests
use package.minecraft_os.Prelude.{
  ℕ, zero, suc, ◌+◌, ◌*◌, ◌/◌, ◌%◌, ◌^◌, Bool, true, false, not, ◌&&◌, Option, none, some, ◌>>=◌,
  List, [], ◌∷◌, length, take, drop, replicate, write_at, ltb, leb, ◌==◌, if◌then◌else◌,
}
use package.minecraft_os.Prelude.Int.{ℤ, pos}
use package.minecraft_os.Rendering.Color.{Color, PixelFormat, write_to}
use package.minecraft_os.Rendering.Fill.{fill_slice_48}
use package.minecraft_os.Rendering.Rectangle.{IVec2, Rectangle, intersection, rows, as_usize}

-- `bootloader_api::info::FrameBufferInfo`
pub record Info : Type 0 where
  pub width : ℕ
  pub height : ℕ
  pub stride : ℕ
  pub bytes_per_pixel : ℕ
  pub pixel_format : PixelFormat

pub record Renderer : Type 0 where
  pub framebuffer : List ℕ
  pub info : Info

pub record Pixel : Type 0 where
  pub coord : IVec2
  pub color : Color

unfoldable pub bounding_box : Info → Rectangle
bounding_box info = record {
  top_left = record { x = pos 0; y = pos 0 };
  size = record { x = info.width; y = info.height };
}

-- `chunk[..]` of the frame buffer from an offset on, with the colour written to its front.
abbrev pub write_chunk : List ℕ → ℕ → Option (List ℕ) → Option (List ℕ)
write_chunk fb offset none = none
write_chunk fb offset (some chunk) = some (write_at offset chunk fb)

abbrev pub with_buffer : Renderer → Option (List ℕ) → Option Renderer
with_buffer r none = none
with_buffer r (some fb) = some (record r { framebuffer = fb })

unfoldable pub render_pixel : Renderer → Pixel → Option Renderer
render_pixel r pixel =
    let x = as_usize pixel.coord.x in
    let y = as_usize pixel.coord.y in
    let byte_offset = (y * r.info.stride + x) * r.info.bytes_per_pixel in
    let written = write_to pixel.color (drop byte_offset r.framebuffer) r.info.pixel_format in
    if not (ltb x r.info.width && ltb y r.info.height)
    then some r
    else if leb byte_offset (length r.framebuffer)
    then with_buffer r (write_chunk r.framebuffer byte_offset written)
    else none

unfoldable pub draw_iter : Renderer → List Pixel → Option Renderer
draw_iter r [] = some r
draw_iter r (pixel ∷ pixels) = do r' ← render_pixel r pixel; draw_iter r' pixels

-- `(y * stride + x) * bytes_per_pixel`
abbrev pub row_start : Info → ℤ → ℤ → ℕ
row_start info x y = (as_usize y * info.stride + as_usize x) * info.bytes_per_pixel

-- The chunks of a row from `offset` on take the next colours, as long as there are some. A chunk
-- is `bpp` bytes.
unfoldable pub fill_chunks_of :
    ℕ → PixelFormat → ℕ → ℕ → List ℕ → List Color → Option (List ℕ × List Color)
fill_chunks_of bpp format offset zero fb colors = some (fb, colors)
fill_chunks_of bpp format offset (suc n) fb [] = some (fb, [])
fill_chunks_of bpp format offset (suc n) fb (color ∷ colors) = do
  fb' ← write_chunk fb offset (write_to color (take bpp (drop offset fb)) format)
  fill_chunks_of bpp format (offset + bpp) n fb' colors

-- The rows of an area in the frame buffer.
unfoldable pub fill_contiguous_rows : Info → ℤ → ℕ → List ℤ → List ℕ → List Color → Option (List ℕ)
fill_contiguous_rows info x width [] fb colors = some fb
fill_contiguous_rows info x width (y ∷ ys) fb colors =
    let start = row_start info x y in
    let inside = leb (start + width * info.bytes_per_pixel) (length fb) in
    if inside
    then (fill_chunks_of info.bytes_per_pixel info.pixel_format start width fb colors >>= λ r.
        fill_contiguous_rows info x width ys r.0 r.1)
    else none

abbrev pub fill_contiguous_in : Renderer → Option Rectangle → List Color → Option Renderer
fill_contiguous_in r none colors = some r
fill_contiguous_in r (some area) colors =
    with_buffer r
      (fill_contiguous_rows r.info area.top_left.x area.size.x (rows area) r.framebuffer colors)

unfoldable pub fill_contiguous : Renderer → Rectangle → List Color → Option Renderer
fill_contiguous r area colors =
    fill_contiguous_in r (intersection area (bounding_box r.info)) colors

-- `chunks_exact_mut(bpp)` over 48 zeroes; `bpp` 0 panics.
unfoldable pub pattern_chunks : Color → PixelFormat → ℕ → ℕ → ℕ → List ℕ → Option (List ℕ)
pattern_chunks c format bpp offset zero pattern = some pattern
pattern_chunks c format bpp offset (suc n) pattern = do
  pattern' ← write_chunk pattern offset (write_to c (take bpp (drop offset pattern)) format)
  pattern_chunks c format bpp (offset + bpp) n pattern'

unfoldable pub build_48_byte_pattern : Color → PixelFormat → ℕ → Option (List ℕ)
build_48_byte_pattern c format bpp =
    if bpp == 0 then none else pattern_chunks c format bpp 0 (48 / bpp) (replicate 48 0)

-- The writes go through a pointer, with no check of bounds.
unfoldable pub fill_rows : Info → ℤ → ℕ → List ℕ → List ℤ → List ℕ → List ℕ
fill_rows info x row_bytes pattern [] fb = fb
fill_rows info x row_bytes pattern (y ∷ ys) fb =
    fill_rows info x row_bytes pattern ys (fill_slice_48 (row_start info x y) row_bytes pattern fb)

abbrev pub fill_solid_in : Renderer → Color → Option Rectangle → Option Renderer
fill_solid_in r color none = some r
fill_solid_in r color (some area) =
    let row_bytes = area.size.x * r.info.bytes_per_pixel in
    if row_bytes == 0
    then some r
    else (build_48_byte_pattern color r.info.pixel_format r.info.bytes_per_pixel >>= λ pattern.
        some (record r {
          framebuffer =
              fill_rows r.info area.top_left.x row_bytes pattern (rows area) r.framebuffer;
        }))

unfoldable pub fill_solid : Renderer → Rectangle → Color → Option Renderer
fill_solid r area color = fill_solid_in r color (intersection area (bounding_box r.info))

unfoldable pub clear : Renderer → Color → Option Renderer
clear r color =
    let len = length r.framebuffer in
    if len == 0
    then some r
    else (build_48_byte_pattern color r.info.pixel_format r.info.bytes_per_pixel >>= λ pattern.
        some (record r { framebuffer = fill_slice_48 0 len pattern r.framebuffer }))
