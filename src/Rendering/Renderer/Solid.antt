-- ===== src/Rendering/Renderer/Solid.antt =====
-- What `fill_solid` does to every byte of the frame buffer.
use minecraft_os.Prelude.{
  ℕ, zero, suc, ◌+◌, ◌*◌, ◌/◌, ◌%◌, ◌^◌, ◌<◌, ◌≤◌, ◌≡◌, refl, ap, ◌∙◌, arith, Bool, true, false,
  ◌⊎◌, Option, none, some, ◌>>=◌, List, length, get_or, take, drop, replicate, length-write_at,
  length-replicate, ◌==◌, if◌then◌else◌,
}
use mathlib.Core.Path.{subst}
use native.Mathlib.Nat.{mul-le-mul_right}
use minecraft_os.Prelude.Int.{pos, ◌+ℤ◌, ◌-ℤ◌}
use minecraft_os.Rendering.Color.{Color, PixelFormat, write_to}
use minecraft_os.Rendering.Rectangle.{
  Rectangle, rows, counted, distance, bottom_right, wrap32, intersection,
}
use minecraft_os.Rendering.Renderer.{
  Renderer, bounding_box, write_chunk, pattern_chunks, build_48_byte_pattern, fill_rows, fill_solid,
  fill_solid_in,
}
use minecraft_os.Rendering.Renderer.Rows.{base, painted, untouched}

abbrev HasLength : ℕ → Option (List ℕ) → Type 0
HasLength n none = Unit
HasLength n (some l) = length l ≡ n

write_chunk-HasLength :
    (n offset : ℕ) (buf : List ℕ) (chunk : Option (List ℕ))
    → length buf ≡ n
    → HasLength n (write_chunk buf offset chunk)
write_chunk-HasLength n offset buf none e = _
write_chunk-HasLength n offset buf (some chunk) e = length-write_at offset chunk buf ∙ e

HasLength-then :
    (n : ℕ) (o : Option (List ℕ)) (f : List ℕ → Option (List ℕ))
    → HasLength n o
    → ((l : List ℕ) → length l ≡ n → HasLength n (f l))
    → HasLength n (o >>= f)
HasLength-then n none f h k = _
HasLength-then n (some l) f h k = k l h

pattern_chunks-HasLength :
    (c : Color) (format : PixelFormat) (bpp offset n : ℕ) (pattern : List ℕ)
    → length pattern ≡ 48
    → HasLength 48 (pattern_chunks c format bpp offset n pattern)
unfolding pattern_chunks
pattern_chunks-HasLength c format bpp offset zero pattern e = e
pattern_chunks-HasLength c format bpp offset (suc n) pattern e =
    HasLength-then 48
      (write_chunk pattern offset (write_to c (take bpp (drop offset pattern)) format)) _
      (write_chunk-HasLength 48 offset pattern _ e)
      (λ pattern' e'. pattern_chunks-HasLength c format bpp (offset + bpp) n pattern' e')

pub length-build_48_byte_pattern :
    (c : Color) (format : PixelFormat) (bpp : ℕ) (p : List ℕ)
    → build_48_byte_pattern c format bpp ≡ some p
    → length p ≡ 48
length-build_48_byte_pattern c format bpp p e = subst (HasLength 48) e built
  where
    either :
        (b : Bool) (o : Option (List ℕ)) → HasLength 48 o → HasLength 48 (if b then none else o)
    either true o h = _
    either false o h = h

    built : HasLength 48 (build_48_byte_pattern c format bpp)
    built =
        unfold build_48_byte_pattern in
        either (bpp == 0) _ (
          pattern_chunks-HasLength c format bpp 0 (48 / bpp) (replicate 48 0)
            (length-replicate {A = ℕ} 48 0))

-- An area with its corner at `x` and `y`.
abbrev pub area_at : ℕ → ℕ → ℕ → ℕ → Rectangle
area_at x y w h = record {
  top_left = record { x = pos x; y = pos y };
  size = record { x = w; y = h };
}

rows-area_at : (x y w h : ℕ) → y + h < 2 ^ 31 → rows (area_at x y w h) ≡ counted (pos y) h
unfolding rows bottom_right wrap32
rows-area_at x y w h l =
    let e : distance (wrap32 (pos y +ℤ wrap32 (pos h)) -ℤ pos y) ≡ h = ground arith in
    ap (counted (pos y)) e

-- Every byte of the area's rows is the pattern's, which starts over at every row and every 48 bytes.
abbrev pub IsPainted : Renderer → ℕ → ℕ → ℕ → ℕ → List ℕ → List ℕ → Type 0
IsPainted r x y w h p fb =
    (i k : ℕ)
    → i < h
    → k < w * r.info.bytes_per_pixel
    → get_or fb (base r.info x (y + i) + k) 0 ≡ get_or p (k % 48) 0

-- Every other byte is as it was.
abbrev pub IsKeptAround : Renderer → ℕ → ℕ → ℕ → ℕ → List ℕ → Type 0
IsKeptAround r x y w h fb =
    (j : ℕ)
    → ((i : ℕ)
        → i < h
        → (j < base r.info x (y + i)) ⊎ (base r.info x (y + i) + w * r.info.bytes_per_pixel ≤ j))
    → get_or fb j 0 ≡ get_or r.framebuffer j 0

-- An area that lies within the stride and the rows of the frame buffer once it is cut to the
-- screen, in a pixel format for which there is a pattern: `fill_solid` does not panic, every byte
-- of the area's pixels is the pattern's, and every other byte of the frame buffer is as it was.
pub fill_solid_lem :
    (r : Renderer) (area : Rectangle) (color : Color) (p : List ℕ) (x y w h : ℕ)
    → intersection area (bounding_box r.info) ≡ some (area_at x y w h)
    → build_48_byte_pattern color r.info.pixel_format r.info.bytes_per_pixel ≡ some p
    → 0 < w * r.info.bytes_per_pixel
    → x + w ≤ r.info.stride
    → y + h < 2 ^ 31
    → ((i : ℕ) → i < h → base r.info x (y + i) + w * r.info.bytes_per_pixel ≤ length r.framebuffer)
    → let fb =
        fill_rows r.info (pos x) (w * r.info.bytes_per_pixel) p (counted (pos y) h) r.framebuffer in
      (fill_solid r area color ≡ some (record r { framebuffer = fb }))
      × IsPainted r x y w h p fb
      × IsKeptAround r x y w h fb
unfolding fill_solid
fill_solid_lem r area color p x y w h cut e some_bytes within tall fits =
    let bpp = r.info.bytes_per_pixel in
    let size = length-build_48_byte_pattern color r.info.pixel_format bpp p e in
    let narrow : w * bpp ≤ r.info.stride * bpp = mul-le-mul_right bpp (omega (arith, within)) in
    let busy : (w * bpp == 0) ≡ false = ground (arith, some_bytes) in
    (
      ap (fill_solid_in r color) cut ∙ rw (busy, e, rows-area_at x y w h tall) refl,
      λ i k hi hk. painted r.info x (w * bpp) p size h y i k r.framebuffer narrow hi hk fits,
      λ j out. untouched r.info x (w * bpp) p size h y j r.framebuffer out,
    )
