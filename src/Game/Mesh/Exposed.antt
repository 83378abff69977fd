-- ===== src/Game/Mesh/Exposed.antt =====
-- The mesh is just the faces of solid blocks that look at air.
use minecraft_os.Prelude.{ℕ, ◌^◌, ◌⊎◌, ◌<◌, ◌≡◌, Bool, true, false, List, some, get_elem?, ◌&&◌}
use minecraft_os.Prelude.Int.{wrap64, ℤ, pos, negsuc, ◌+ℤ◌}
use mathlib.Core.List.{Mem}
use minecraft_os.Game.World.{World, Block, Offset, Face, offset, block_at, AddSigned, is_in_bounds}
use minecraft_os.Game.Mesh.{FaceQuad, face_quads, Triangle, quad_triangles, at}

-- The block at integer coordinates is in the world and solid.
abbrev pub solid_at : World → ℤ → ℤ → ℤ → Bool
solid_at world (pos x) (pos y) (pos z) = is_in_bounds (at x y z) && block_at world (at x y z)
solid_at world (negsuc x) y z = false
solid_at world (pos x) (negsuc y) z = false
solid_at world (pos x) (pos y) (negsuc z) = false

abbrev pub neighbor_at : World → Block → Face → Bool
neighbor_at world block face =
    let o = offset face in
    solid_at world (pos block.x +ℤ o.x) (pos block.y +ℤ o.y) (pos block.z +ℤ o.z)

-- The documented behaviour of `wrapping_add_signed`.
abbrev pub IsWrapping : AddSigned → Type 0
IsWrapping add =
    (b : Block) (o : Offset)
    → add b o ≡ at (wrap64 (pos b.x +ℤ o.x)) (wrap64 (pos b.y +ℤ o.y)) (wrap64 (pos b.z +ℤ o.z))

-- Small enough not to wrap back into the world.
abbrev IsNear : ℤ → Type 0
IsNear (pos n) = n < 2 ^ 64
IsNear (negsuc n) = n < 2 ^ 63

abbrev IsInside : Block → Type 0
IsInside b = (b.x < 8) × (b.y < 8) × (b.z < 8)

-- An axis of an offset.
abbrev IsStep : ℤ → Type 0
IsStep o = (o ≡ pos 0) ⊎ ((o ≡ pos 1) ⊎ (o ≡ negsuc 0))

-- One of the six quads.
abbrev pub IsFaceQuad : FaceQuad → Type 0
IsFaceQuad quad = (i : ℕ) × (get_elem? face_quads i ≡ some quad)

-- A face of a solid block of the world whose neighbour is air or outside of the world.
pub record IsExposed (world : World) (block : Block) (quad : FaceQuad) : Type 0 where
  pub inside : IsInside block
  pub solid : block_at world block ≡ true
  pub is_face : IsFaceQuad quad
  pub open_air : neighbor_at world block quad.face ≡ false

abbrev pub IsFaceTriangle : World → Triangle → Type 0
IsFaceTriangle world t =
    (block : Block) × (quad : FaceQuad) × IsExposed world block quad
    × Mem t (quad_triangles block quad)
