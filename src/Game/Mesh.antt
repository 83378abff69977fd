-- ===== src/Game/Mesh.antt =====
-- `get_world_mesh` of kernel-core/src/game/world.rs. Every coordinate of the mesh is a small integer,
-- which an `f32` holds exactly, so corners and normals are integers here.
pub mod Exposed
pub mod Winding
mod Tests
use package.minecraft_os.Prelude.{
  ℕ, ◌+◌, ◌≡◌, refl, Bool, List, [], ◌∷◌, ◌++◌, if◌then◌else◌, get_or,
}
use package.minecraft_os.Prelude.Ranges.{pushed}
use package.minecraft_os.Game.World.{
  World, Block, Offset, Face, front, back, top, bottom, left, right, offset, index, block_at,
  AddSigned, neighboring_solids, world_x, world_y, world_z,
}

-- A corner of a quad is relative to its block.
pub record FaceQuad : Type 0 where
  pub face : Face
  pub q0 : Block
  pub q1 : Block
  pub q2 : Block
  pub q3 : Block

abbrev pub at : ℕ → ℕ → ℕ → Block
at x y z = record { x = x; y = y; z = z }

abbrev pub face_quads : List FaceQuad
face_quads =
    record { face = front; q0 = at 0 0 1; q1 = at 0 1 1; q2 = at 1 1 1; q3 = at 1 0 1 }
    ∷ record { face = back; q0 = at 1 0 0; q1 = at 1 1 0; q2 = at 0 1 0; q3 = at 0 0 0 }
    ∷ record { face = top; q0 = at 0 1 1; q1 = at 0 1 0; q2 = at 1 1 0; q3 = at 1 1 1 }
    ∷ record { face = bottom; q0 = at 0 0 0; q1 = at 0 0 1; q2 = at 1 0 1; q3 = at 1 0 0 }
    ∷ record { face = left; q0 = at 0 0 0; q1 = at 0 1 0; q2 = at 0 1 1; q3 = at 0 0 1 }
    ∷ record { face = right; q0 = at 1 0 1; q1 = at 1 1 1; q2 = at 1 1 0; q3 = at 1 0 0 }
    ∷ []

pub record Triangle : Type 0 where
  pub v0 : Block
  pub v1 : Block
  pub v2 : Block
  pub normal : Offset

-- `Vec3::new(fx + q[0], fy + q[1], fz + q[2])`
abbrev pub corner : Block → Block → Block
corner block q = at (block.x + q.x) (block.y + q.y) (block.z + q.z)

-- The two triangles of a quad.
unfoldable pub quad_triangles : Block → FaceQuad → List Triangle
quad_triangles block quad =
    record {
      v0 = corner block quad.q0;
      v1 = corner block quad.q1;
      v2 = corner block quad.q2;
      normal = offset quad.face;
    }
    ∷ record {
      v0 = corner block quad.q2;
      v1 = corner block quad.q3;
      v2 = corner block quad.q0;
      normal = offset quad.face;
    }
    ∷ []

-- `for face_quad in &FACE_QUADS`
unfoldable pub mesh_faces : List Bool → Block → List FaceQuad → List Triangle
mesh_faces neighbor_solids block [] = []
mesh_faces neighbor_solids block (quad ∷ quads) =
    let rest = mesh_faces neighbor_solids block quads in
    if get_or neighbor_solids (index quad.face) Bool.false
    then rest
    else quad_triangles block quad ++ rest

-- The body of the three loops.
unfoldable pub mesh_block : AddSigned → World → Block → List Triangle
mesh_block add world block =
    if block_at world block
    then mesh_faces (neighboring_solids add world block) block face_quads
    else []

unfoldable pub get_world_mesh : AddSigned → World → List Triangle
get_world_mesh add world =
    pushed (λ z. pushed (λ y. pushed (λ x. mesh_block add world (at x y z)) 0 world_x) 0 world_y) 0
      world_z
