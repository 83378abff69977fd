-- ===== src/Game/Voxel/Bounds.antt =====
-- The ray never leaves the world, also where the direction has parts that are NaN.
use minecraft_os.Prelude.{
  ℕ, zero, suc, ◌≡◌, refl, inl, inr, false, ◌||◌, Bool-cases, Option, none, some,
}
use mathlib.Core.Path.{subst}
use minecraft_os.Game.World.{World, IsWorld, Block, Face, block_at}
use minecraft_os.Game.Mesh.{at}
use minecraft_os.Game.Save.{Camera}
use minecraft_os.Game.Voxel.{
  Axis, F32Ops, Active, Start, Traverser, empty, uninit, active, is_outside, at_axis, stepped,
  advance_axis, nearest_axis, slab, first_block, begin, enter, next, Search, found, nothing,
  running, search_ray, looking_at_solid_block,
}
use minecraft_os.Game.Voxel.Ray.{IsInside, is_outside-false, or_false}
use minecraft_os.Game.Voxel.Sight.{dimensions_of-IsWorld}

abbrev HasDimensions : Block → Traverser → Type 0
HasDimensions d empty = Unit
HasDimensions d (uninit s) = s.world_dimensions ≡ d
HasDimensions d (active a) = a.world_dimensions ≡ d

abbrev IsItemInside : Block → Option (Block × Face) → Type 0
IsItemInside d none = Unit
IsItemInside d (some (b, face)) = IsInside d b

abbrev Keeps : Block → Traverser × Option (Block × Face) → Type 0
Keeps d r = HasDimensions d r.0 × IsItemInside d r.1

module _ (f32 : F32Ops) (d : Block) where
  inside : (b e : Block) → e ≡ d → is_outside b e ≡ false → IsInside d b
  inside b e h o = subst (λ w. IsInside w b) h (is_outside-false b e o)

  advance_axis-Keeps :
      (axis : Axis) (a : Active) → a.world_dimensions ≡ d → Keeps d (advance_axis f32 axis a)
  unfolding advance_axis
  advance_axis-Keeps axis a h =
      elim (Bool-cases (
        f32.lt a.remaining_distance (at_axis axis a.t)
        || is_outside (stepped axis a) a.world_dimensions)) [
          | inl e ↦ rw e (tt, tt)
          | inr e ↦ rw e (h, inside _ _ h (or_false _ _ e))
        ]

  enter-Keeps :
      (s : Start) (axis : Axis) (close : ℕ)
      → s.world_dimensions ≡ d
      → Keeps d (enter f32 s axis close)
  unfolding enter
  enter-Keeps s axis close h =
      elim (Bool-cases (is_outside (first_block f32 s close) s.world_dimensions)) [
        | inl e ↦ rw e (tt, tt)
        | inr e ↦ rw e (h, inside _ _ h e)
      ]

  begin-Keeps : (s : Start) → s.world_dimensions ≡ d → Keeps d (begin f32 s)
  unfolding begin
  begin-Keeps s h = elim (Bool-cases (f32.lt (slab f32 s).2 (slab f32 s).1)) [
    | inl e ↦ rw e (tt, tt)
    | inr e ↦ elim (Bool-cases (f32.lt (f32.sub s.max_distance (slab f32 s).1) f32.zero)) [
      | inl g ↦ rw (e, g) (tt, tt)
      | inr g ↦ rw (e, g) (enter-Keeps s (slab f32 s).0 (slab f32 s).1 h)
    ]
  ]

  next-Keeps : (r : Traverser) → HasDimensions d r → Keeps d (next f32 r)
  unfolding next
  next-Keeps empty h = (tt, tt)
  next-Keeps (uninit s) h = begin-Keeps s h
  next-Keeps (active a) h = advance_axis-Keeps (nearest_axis f32 a.t) a h

  abbrev pub IsFoundInside : Search → Type 0
  IsFoundInside (found b face) = IsInside d b
  IsFoundInside nothing = Unit
  IsFoundInside running = Unit

  search_ray-IsFoundInside :
      (fuel : ℕ) (world : World) (r : Traverser)
      → HasDimensions d r
      → IsFoundInside (search_ray f32 fuel world r)
  unfolding search_ray
  search_ray-IsFoundInside zero world r h = tt
  search_ray-IsFoundInside (suc fuel) world r h =
      item (next f32 r).1 refl (next-Keeps r h) (search_ray-IsFoundInside fuel world (next f32 r).0)
    where
      item :
          (o : Option (Block × Face))
          → (next f32 r).1 ≡ o
          → Keeps d (next f32 r)
          → (HasDimensions d (next f32 r).0
              → IsFoundInside (search_ray f32 fuel world (next f32 r).0))
          → IsFoundInside (search_ray f32 (suc fuel) world r)
      item none e k rest = rw (search_ray, e) tt
      item (some (b, face)) e k rest = elim (Bool-cases (block_at world b)) [
        | inl solid ↦ rw (search_ray, e, solid) (subst (IsItemInside d) e k.1)
        | inr air ↦ rw (search_ray, e, air) (rest k.0)
      ]

-- The block that the camera looks at is in the world, whatever the arithmetic of `f32` gives.
pub looking_at_solid_block-IsFoundInside :
    (f32 : F32Ops) (world : World) (camera : Camera) (max_distance : ℕ)
    → IsWorld world
    → IsFoundInside f32 (at 8 8 8) (looking_at_solid_block f32 world camera max_distance)
unfolding looking_at_solid_block
looking_at_solid_block-IsFoundInside f32 world camera max_distance v =
    search_ray-IsFoundInside f32 (at 8 8 8) _ world _ (dimensions_of-IsWorld world v)
