-- ===== src/Game/Voxel.antt =====
-- `VoxelTraverser` and `looking_at_solid_block` of kernel-core/src/game/camera.rs. An `f32` is its
-- 32 bits, and its arithmetic a parameter.
pub mod Ray
pub mod Sight
pub mod Bounds
pub mod Whole
mod Tests
use package.minecraft_os.Prelude.{
  ℕ, zero, suc, ◌+◌, ◌-◌, ◌%◌, ◌^◌, Bool, true, false, ◌&&◌, ◌||◌, Option, none, some, leb, length,
  get_or, if◌then◌else◌, List, [],
}
use package.minecraft_os.Prelude.Int.{ℤ, pos, negsuc, ◌+ℤ◌, ltb_ℤ, wrap64}
use package.minecraft_os.Game.World.{
  World, Block, Offset, Face, front, back, top, bottom, left, right, block_at,
}
use package.minecraft_os.Game.Save.{Camera}

-- `Vec3`
pub record Vec3 : Type 0 where
  pub x : ℕ
  pub y : ℕ
  pub z : ℕ

pub data Axis : Type 0 where
  x_axis y_axis z_axis : Axis

-- What the traverser uses of `f32`, of the vector library's operations on three of them, and
-- `Camera::forward`.
pub record F32Ops : Type 0 where
  pub add : ℕ → ℕ → ℕ
  pub sub : ℕ → ℕ → ℕ
  pub mul : ℕ → ℕ → ℕ
  pub neg : ℕ → ℕ
  pub recip : ℕ → ℕ
  pub signum : ℕ → ℕ
  pub abs : ℕ → ℕ
  pub floor : ℕ → ℕ
  pub min : ℕ → ℕ → ℕ
  pub max : ℕ → ℕ → ℕ
  pub clamp : ℕ → ℕ → ℕ → ℕ
  pub clamp_component : ℕ → ℕ → ℕ → ℕ
  pub lt : ℕ → ℕ → Bool
  pub is_sign_negative : ℕ → Bool
  pub of_usize : ℕ → ℕ
  pub as_usize : ℕ → ℕ
  pub as_isize : ℕ → ℤ
  pub max_position : Vec3 → Axis
  pub min_element : Vec3 → ℕ
  pub zero : ℕ
  pub half : ℕ
  pub infinity : ℕ
  pub forward : Camera → Vec3

pub record Active : Type 0 where
  pub current_block : Block
  pub world_dimensions : Block
  pub step : Offset
  pub delta : Vec3
  pub t : Vec3
  pub remaining_distance : ℕ

pub record Start : Type 0 where
  pub world_dimensions : Block
  pub position : Vec3
  pub forward : Vec3
  pub max_distance : ℕ

pub data Traverser : Type 0 where
  empty : Traverser
  uninit : Start → Traverser
  active : Active → Traverser

abbrev pub each : (ℕ → ℕ) → Vec3 → Vec3
each f v = record { x = f v.x; y = f v.y; z = f v.z }

abbrev pub both : (ℕ → ℕ → ℕ) → Vec3 → Vec3 → Vec3
both f v w = record { x = f v.x w.x; y = f v.y w.y; z = f v.z w.z }

abbrev pub at_axis : Axis → Vec3 → ℕ
at_axis x_axis v = v.x
at_axis y_axis v = v.y
at_axis z_axis v = v.z

-- A coordinate is at or behind the dimension.
unfoldable pub is_outside : Block → Block → Bool
is_outside block dimensions =
    leb dimensions.x block.x || leb dimensions.y block.y || leb dimensions.z block.z

unfoldable pub wrapping_add_signed : ℕ → ℤ → ℕ
wrapping_add_signed n step = wrap64 (pos n +ℤ step)

abbrev pub is_negative : ℤ → Bool
is_negative z = ltb_ℤ z (pos 0)

-- `current_block.$axis.wrapping_add_signed(step.$axis)`
unfoldable pub stepped : Axis → Active → Block
stepped x_axis a = record a.current_block { x = wrapping_add_signed a.current_block.x a.step.x }
stepped y_axis a = record a.current_block { y = wrapping_add_signed a.current_block.y a.step.y }
stepped z_axis a = record a.current_block { z = wrapping_add_signed a.current_block.z a.step.z }

unfoldable pub face_of : Axis → Offset → Face
face_of x_axis step = if is_negative step.x then right else left
face_of y_axis step = if is_negative step.y then top else bottom
face_of z_axis step = if is_negative step.z then front else back

unfoldable pub dimensions_of : World → Block
dimensions_of world = record {
  x = length world;
  y = length (get_or world 0 []);
  z = length (get_or (get_or world 0 []) 0 []);
}

-- `running` is out of fuel.
pub data Search : Type 0 where
  found : Block → Face → Search
  nothing running : Search

module _ (f32 : F32Ops) where
  unfoldable pub raised : Axis → Active → Vec3
  raised x_axis a = record a.t { x = f32.add a.t.x a.delta.x }
  raised y_axis a = record a.t { y = f32.add a.t.y a.delta.y }
  raised z_axis a = record a.t { z = f32.add a.t.z a.delta.z }

  unfoldable pub advance_axis : Axis → Active → Traverser × Option (Block × Face)
  advance_axis axis a =
      let block = stepped axis a in
      if f32.lt a.remaining_distance (at_axis axis a.t) || is_outside block a.world_dimensions
      then (empty, none)
      else (
        active (record a { current_block = block; t = raised axis a }),
        some (block, face_of axis a.step),
      )

  unfoldable pub nearest_axis : Vec3 → Axis
  nearest_axis t =
      if f32.lt t.x t.y
      then (if f32.lt t.x t.z then x_axis else z_axis)
      else if f32.lt t.y t.z
      then y_axis
      else z_axis

  unfoldable pub entry_face : Axis → Vec3 → Face
  entry_face x_axis sign = if f32.is_sign_negative sign.x then right else left
  entry_face y_axis sign = if f32.is_sign_negative sign.y then top else bottom
  entry_face z_axis sign = if f32.is_sign_negative sign.z then front else back

  abbrev pub as_vec3 : Block → Vec3
  as_vec3 b = record { x = f32.of_usize b.x; y = f32.of_usize b.y; z = f32.of_usize b.z }

  abbrev pub less_one : ℕ → ℕ
  less_one n = (n + (2 ^ 64 - 1)) % 2 ^ 64

  -- `position.floor().clamp(Vec3::ZERO, (world_dimensions - 1).as_vec3()).as_usizevec3()`
  unfoldable pub clamped_block : Block → Vec3 → Block
  clamped_block d p =
      let clamped = λ (v : ℕ) (n : ℕ).
        f32.as_usize (f32.clamp_component (f32.floor v) f32.zero (f32.of_usize (less_one n))) in
      record { x = clamped p.x d.x; y = clamped p.y d.y; z = clamped p.z d.z }

  abbrev pub step_of : Vec3 → Offset
  step_of sign = record {
    x = f32.as_isize sign.x;
    y = f32.as_isize sign.y;
    z = f32.as_isize sign.z;
  }

  -- The distance at which the ray enters the world, that at which it leaves it, and the axis of the
  -- side through which it enters.
  unfoldable pub slab : Start → Axis × ℕ × ℕ
  slab s =
      let inverse = each f32.recip s.forward in
      let t1 = both f32.mul (each f32.neg s.position) inverse in
      let t2 = both f32.mul (both f32.sub (as_vec3 s.world_dimensions) s.position) inverse in
      let close = both f32.min t1 t2 in
      let axis = f32.max_position close in
      (
        axis,
        f32.clamp (at_axis axis close) f32.zero f32.infinity,
        f32.min_element (both f32.max t1 t2),
      )

  -- The block at the entry point.
  abbrev pub entry_point : Start → ℕ → Vec3
  entry_point s close = both f32.add s.position (each (λ v. f32.mul v close) s.forward)

  abbrev pub first_block : Start → ℕ → Block
  first_block s close = clamped_block s.world_dimensions (entry_point s close)

  unfoldable pub enter : Start → Axis → ℕ → Traverser × Option (Block × Face)
  enter s axis close =
      let inverse = each f32.recip s.forward in
      let sign = each f32.signum inverse in
      let position = entry_point s close in
      let block = first_block s close in
      let select = each (λ v. f32.add f32.half (f32.mul f32.half v)) sign in
      let planes = both f32.add (as_vec3 block) select in
      if is_outside block s.world_dimensions then (empty, none) else (
        active (record {
          current_block = block;
          world_dimensions = s.world_dimensions;
          step = step_of sign;
          delta = each f32.abs inverse;
          t = both f32.mul (both f32.sub planes position) inverse;
          remaining_distance = f32.sub s.max_distance close;
        }),
        some (block, entry_face axis sign),
      )

  unfoldable pub begin : Start → Traverser × Option (Block × Face)
  begin s =
      let (axis, close, far) = slab s in
      if f32.lt far close
      then (empty, none)
      else if f32.lt (f32.sub s.max_distance close) f32.zero
      then (empty, none)
      else enter s axis close

  unfoldable pub next : Traverser → Traverser × Option (Block × Face)
  next empty = (empty, none)
  next (uninit s) = begin s
  next (active a) = advance_axis (nearest_axis a.t) a

  -- `for (pos, face) in traverser`
  unfoldable pub search_ray : ℕ → World → Traverser → Search
  search_ray zero world r = running
  search_ray (suc fuel) world r = elim (next r).1 [
    | none ↦ nothing
    | some (block, face) ↦ elim (block_at world block) [
      | true ↦ found block face
      | false ↦ search_ray fuel world (next r).0
    ]
  ]

  -- The traverser of `looking_at_solid_block`.
  abbrev pub start_of : World → Camera → ℕ → Start
  start_of world camera max_distance = record {
    world_dimensions = dimensions_of world;
    position = record { x = camera.px; y = camera.py; z = camera.pz };
    forward = f32.forward camera;
    max_distance = max_distance;
  }

  unfoldable pub looking_at_solid_block : World → Camera → ℕ → Search
  looking_at_solid_block world camera max_distance =
      let d = dimensions_of world in
      search_ray (suc (d.x + d.y + d.z + 1)) world (uninit (start_of world camera max_distance))
