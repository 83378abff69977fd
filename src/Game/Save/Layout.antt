-- ===== src/Game/Save/Layout.antt =====
-- The buffer that `serialize` fills, as one list of bytes.
use minecraft_os.Prelude.{ℕ, ◌+◌, ◌*◌, ◌≡◌, refl, ap, ◌∙◌, arith}
use minecraft_os.Prelude.{Bool, List, [], ◌∷◌, ◌++◌, map, if◌then◌else◌}
use minecraft_os.Prelude.{
  All, length, set, replicate, write_at, length-append, write_at_nothing, write_at-cons,
  write_at-append, write_at-eq-append, length-map, length-write_at,
}
use minecraft_os.Game.World.{World, IsWorld, IsPlane}
use minecraft_os.Game.Save.{
  Camera, magic, u32_to_le_bytes, store_row, store_plane, store_world, store_header, serialize,
  Cursor,
}
use mathlib.Core.List.{map-append}

abbrev pub block_byte : Bool → ℕ
block_byte b = if b then 1 else 0

-- The blocks in the order in which the loops visit them.
abbrev pub plane_blocks : List (List Bool) → List Bool
plane_blocks [] = []
plane_blocks (row ∷ plane) = row ++ plane_blocks plane

abbrev pub world_blocks : World → List Bool
world_blocks [] = []
world_blocks (plane ∷ world) = plane_blocks plane ++ world_blocks world

store_row-write_at :
    (row : List Bool) (i : ℕ) (buf : List ℕ)
    → store_row row (i, buf) ≡ (i + length row, write_at i (map block_byte row) buf)
unfolding store_row
store_row-write_at [] i buf = ground (arith, write_at_nothing i buf)
store_row-write_at (b ∷ row) i buf =
    store_row-write_at row (i + 1) (set buf i (block_byte b))
    ∙ ground (arith, write_at-cons i (block_byte b) (map block_byte row) buf)

-- Writing the bytes of two runs of blocks one behind the other is writing those of both.
step_blocks :
    (i : ℕ) (xs ys : List Bool) (buf : List ℕ)
    → let cursor : Cursor = (
      i + length xs + length ys,
      write_at (i + length xs) (map block_byte ys) (write_at i (map block_byte xs) buf),
    ) in
      cursor ≡ (i + length (xs ++ ys), write_at i (map block_byte (xs ++ ys)) buf)
step_blocks i xs ys buf =
    rw (map-append, write_at-append, length-map) (ground (arith, length-append xs ys))

store_plane-write_at :
    (plane : List (List Bool)) (i : ℕ) (buf : List ℕ)
    → let blocks = plane_blocks plane in
      store_plane plane (i, buf) ≡ (i + length blocks, write_at i (map block_byte blocks) buf)
unfolding store_plane
store_plane-write_at [] i buf = ground (arith, write_at_nothing i buf)
store_plane-write_at (row ∷ plane) i buf =
    ap (store_plane plane) (store_row-write_at row i buf)
    ∙ store_plane-write_at plane (i + length row) (write_at i (map block_byte row) buf)
    ∙ step_blocks i row (plane_blocks plane) buf

store_world-write_at :
    (world : World) (i : ℕ) (buf : List ℕ)
    → let blocks = world_blocks world in
      store_world world (i, buf) ≡ (i + length blocks, write_at i (map block_byte blocks) buf)
unfolding store_world
store_world-write_at [] i buf = ground (arith, write_at_nothing i buf)
store_world-write_at (plane ∷ world) i buf =
    ap (store_world world) (store_plane-write_at plane i buf)
    ∙ store_world-write_at world (i + length (plane_blocks plane))
        (write_at i (map block_byte (plane_blocks plane)) buf)
    ∙ step_blocks i (plane_blocks plane) (world_blocks world) buf

length-plane_blocks :
    (plane : List (List Bool))
    → All (λ row. length row ≡ 8) plane
    → length (plane_blocks plane) ≡ 8 * length plane
length-plane_blocks [] h = refl
length-plane_blocks (row ∷ plane) h =
    omega (arith, length-append row (plane_blocks plane), length-plane_blocks plane h.1)

length-planes :
    (world : World) → All IsPlane world → length (world_blocks world) ≡ 64 * length world
length-planes [] h = refl
length-planes (plane ∷ world) h = omega (
  arith,
  length-append (plane_blocks plane) (world_blocks world),
  length-plane_blocks plane h.0.1,
  length-planes world h.1,
)

-- A world has 512 blocks.
pub length-world_blocks : (world : World) → IsWorld world → length (world_blocks world) ≡ 512
length-world_blocks world h = omega (arith, length-planes world h.1)

-- The 32 bytes in front of the blocks.
abbrev pub header_bytes : Camera → List ℕ
header_bytes c =
    magic
    ++ (1 ∷ 0 ∷ 0 ∷ 0 ∷ []
        ++ (u32_to_le_bytes c.px
            ++ (u32_to_le_bytes c.py
                ++ (u32_to_le_bytes c.pz
                    ++ (u32_to_le_bytes c.yaw
                        ++ (u32_to_le_bytes c.pitch ++ u32_to_le_bytes c.v_fov))))))

store_header-append : (c : Camera) → store_header c ≡ header_bytes c ++ replicate 992 0
unfolding store_header
store_header-append c = refl

-- The buffer holds the header, a byte for each block from offset 32 to 544, and zeros.
pub serialize_layout :
    (world : World) (c : Camera)
    → IsWorld world
    → serialize world c ≡ header_bytes c ++ (map block_byte (world_blocks world) ++ replicate 480 0)
unfolding serialize store_header
serialize_layout world c h =
    ap (λ (s : Cursor). s.1) (store_world-write_at world 32 (store_header c))
    ∙ write_at-eq-append 32 bytes (store_header c) (rw size (omega arith))
    ∙ rw size refl
  where
    bytes : List ℕ
    bytes = map block_byte (world_blocks world)

    size : length bytes ≡ 512
    size = length-map (world_blocks world) block_byte ∙ length-world_blocks world h

pub length-serialize :
    (world : World) (c : Camera) → IsWorld world → length (serialize world c) ≡ 1024
unfolding serialize store_header
length-serialize world c h =
    ap (λ (s : Cursor). length s.1) (store_world-write_at world 32 (store_header c))
    ∙ length-write_at 32 (map block_byte (world_blocks world)) (store_header c)
