-- ===== src/Game/World.antt =====
-- The block world of kernel-core/src/game/world.rs, and the faces of a block of game/mod.rs.
use minecraft_os.Prelude.{
  ℕ, zero, suc, ◌+◌, ◌≡◌, Bool, true, false, ◌&&◌, List, [], ◌∷◌, length, replicate, All, ltb,
  get_or, set,
}
use minecraft_os.Prelude.Int.{ℤ, pos, negsuc}

abbrev pub world_x : ℕ
world_x = 8

abbrev pub world_y : ℕ
world_y = 8

abbrev pub world_z : ℕ
world_z = 8

-- `[[[bool; WORLD_Z]; WORLD_Y]; WORLD_X]`, indexed `[x][y][z]`; `IsWorld` states the lengths that
-- the array type fixes.
abbrev pub World : Type 0
World = List (List (List Bool))

abbrev pub IsPlane : List (List Bool) → Type 0
IsPlane plane = (length plane ≡ world_y) × All (λ row. length row ≡ world_z) plane

abbrev pub IsWorld : World → Type 0
IsWorld w = (length w ≡ world_x) × All IsPlane w

unfoldable pub empty_world : World
empty_world = replicate world_x (replicate world_y (replicate world_z false))

-- `plane[y].fill(true)`
unfoldable pub fill_row : ℕ → List (List Bool) → List (List Bool)
fill_row y plane = set plane y (replicate (length (get_or plane y [])) true)

-- `for yz_plane in w.iter_mut()`
unfoldable pub fill_layer : ℕ → World → World
fill_layer y [] = []
fill_layer y (plane ∷ w) = fill_row y plane ∷ fill_layer y w

-- `for y in 0..4`, from `y` on.
unfoldable pub fill_layers : ℕ → ℕ → World → World
fill_layers y zero w = w
fill_layers y (suc n) w = fill_layers (y + 1) n (fill_layer y w)

-- The initial content of `WORLD`.
unfoldable pub initial_world : World
initial_world = fill_layers 0 4 empty_world

-- `USizeVec3` and `ISizeVec3`
pub record Block : Type 0 where
  pub x : ℕ
  pub y : ℕ
  pub z : ℕ

pub record Offset : Type 0 where
  pub x : ℤ
  pub y : ℤ
  pub z : ℤ

pub data Face : Type 0 where
  front back top bottom left right : Face

abbrev pub all_faces : List Face
all_faces = front ∷ back ∷ top ∷ bottom ∷ left ∷ right ∷ []

unfoldable pub offset : Face → Offset
offset front = record { x = pos 0; y = pos 0; z = pos 1 }
offset back = record { x = pos 0; y = pos 0; z = negsuc 0 }
offset top = record { x = pos 0; y = pos 1; z = pos 0 }
offset bottom = record { x = pos 0; y = negsuc 0; z = pos 0 }
offset left = record { x = negsuc 0; y = pos 0; z = pos 0 }
offset right = record { x = pos 1; y = pos 0; z = pos 0 }

unfoldable pub index : Face → ℕ
index front = 0
index back = 1
index top = 2
index bottom = 3
index left = 4
index right = 5

unfoldable pub is_in_bounds : Block → Bool
is_in_bounds b = ltb b.x world_x && ltb b.y world_y && ltb b.z world_z

-- `world[x][y][z]`, which is only read in bounds.
abbrev pub block_at : World → Block → Bool
block_at world b = get_or (get_or (get_or world b.x []) b.y []) b.z false

-- `USizeVec3::wrapping_add_signed` of the vector library.
abbrev pub AddSigned : Type 0
AddSigned = Block → Offset → Block

-- The neighbour behind a face is in the world and solid.
abbrev pub is_solid_neighbor : AddSigned → World → Block → Face → Bool
is_solid_neighbor add world block face =
    is_in_bounds (add block (offset face)) && block_at world (add block (offset face))

unfoldable pub neighbors_of : AddSigned → World → Block → List Face → List Bool → List Bool
neighbors_of add world block [] neighbors = neighbors
neighbors_of add world block (face ∷ faces) neighbors =
    neighbors_of add world block faces
      (set neighbors (index face) (is_solid_neighbor add world block face))

unfoldable pub neighboring_solids : AddSigned → World → Block → List Bool
neighboring_solids add world block = neighbors_of add world block all_faces (replicate 6 false)
