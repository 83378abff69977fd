-- ===== src/Game/Voxel/Sight.antt =====
-- What the camera looks at.
use minecraft_os.Prelude.{
  ℕ, suc, ◌+◌, ◌≤◌, ◌<◌, ◌≡◌, refl, sym, ap, arith, inl, inr, true, false, Bool-cases, Option, none,
  some, ◌⊎◌, [], ◌∷◌,
}
use mathlib.Core.Path.{subst}
use minecraft_os.Prelude.Int.{ℤ, pos, negsuc}
use minecraft_os.Game.World.{World, IsWorld, Block, Face, AddSigned, offset, block_at}
use minecraft_os.Game.Mesh.{at}
use minecraft_os.Game.Mesh.Exposed.{IsWrapping}
use minecraft_os.Game.Save.{Camera}
use minecraft_os.Game.Voxel.{
  Vec3, Axis, first_block, F32Ops, Active, Start, Traverser, empty, uninit, active, is_outside,
  slab, step_of, each, begin, enter, next, Search, found, nothing, running, search_ray,
  dimensions_of, start_of, looking_at_solid_block,
}
use minecraft_os.Game.Voxel.Ray.{
  IsInside, IsDirected, IsNarrow, IsOnCourse, IsLit, measure, ahead, is_outside-false,
  search_ray-IsLit,
}

-- The signs of the direction are those of numbers: no part of it is NaN.
abbrev pub IsLooking : F32Ops → Vec3 → Type 0
IsLooking f32 direction = IsDirected (step_of f32 (each f32.signum (each f32.recip direction)))

-- The first block of a ray, if it meets the world.
abbrev Begun : F32Ops → Start → Traverser × Option (Block × Face) → Type 0
Begun f32 s r =
    (r ≡ (empty, none))
    ⊎ ((a : Active) × (face : Face) × (r ≡ (active a, some (a.current_block, face)))
        × IsOnCourse s.world_dimensions a)

enter-Begun :
    (f32 : F32Ops) (s : Start) (axis : Axis) (close : ℕ)
    → IsLooking f32 s.forward
    → Begun f32 s (enter f32 s axis close)
unfolding enter
enter-Begun f32 s axis close looking =
    elim (Bool-cases (is_outside (first_block f32 s close) s.world_dimensions)) [
      | inl e ↦ rw e (inl refl)
      | inr e ↦ rw e (
          inr (
            _,
            _,
            refl,
            record { dimensions = refl; inside = is_outside-false _ _ e; directed = looking },
          ))
    ]

begin-Begun : (f32 : F32Ops) (s : Start) → IsLooking f32 s.forward → Begun f32 s (begin f32 s)
unfolding begin
begin-Begun f32 s looking = elim (Bool-cases (f32.lt (slab f32 s).2 (slab f32 s).1)) [
  | inl e ↦ rw e (inl refl)
  | inr e ↦ elim (Bool-cases (f32.lt (f32.sub s.max_distance (slab f32 s).1) f32.zero)) [
    | inl g ↦ rw (e, g) (inl refl)
    | inr g ↦ rw (e, g) (enter-Begun f32 s (slab f32 s).0 (slab f32 s).1 looking)
  ]
]

ahead-le : (s : ℤ) (d x : ℕ) → x < d → ahead s d x ≤ d
ahead-le (pos k) d x h = omega arith
ahead-le (negsuc k) d x h = omega arith

measure-le : (d : Block) (a : Active) → IsOnCourse d a → measure a ≤ d.x + d.y + d.z
measure-le d a v =
    let e : a.world_dimensions ≡ d = v.dimensions in
    let (i, j, k) = v.inside in
    rw e (
      omega (
        arith,
        ahead-le a.step.x d.x a.current_block.x i,
        ahead-le a.step.y d.y a.current_block.y j,
        ahead-le a.step.z d.z a.current_block.z k,
      ))

module _ (add : AddSigned) (f32 : F32Ops) (world : World) where
  -- A solid block of the world. It is the first block of the ray, or behind its face is air of the
  -- world.
  abbrev pub IsSeen : Block → Start → Search → Type 0
  IsSeen d s (found b face) =
      IsInside d b
      × (block_at world b ≡ true)
      × (((begin f32 s).1 ≡ some (b, face))
          ⊎ (IsInside d (add b (offset face)) × (block_at world (add b (offset face)) ≡ false)))
  IsSeen d s nothing = Unit
  IsSeen d s running = ⊥

  IsSeen-IsLit : (d : Block) (s : Start) (r : Search) → IsLit add d world r → IsSeen d s r
  IsSeen-IsLit d s (found b face) (inside, solid, inside', air) =
      (inside, solid, inr (inside', air))
  IsSeen-IsLit d s nothing lit = tt
  IsSeen-IsLit d s running lit = elim lit [ ]

  search-IsSeen :
      (wrapping : IsWrapping add) (fuel : ℕ) (s : Start)
      → IsNarrow s.world_dimensions
      → IsLooking f32 s.forward
      → s.world_dimensions.x + s.world_dimensions.y + s.world_dimensions.z < fuel
      → IsSeen s.world_dimensions s (search_ray f32 (suc fuel) world (uninit s))
  unfolding search_ray next
  search-IsSeen wrapping fuel s narrow looking enough = elim (begin-Begun f32 s looking) [
    | inl e ↦ rw (search_ray, next, e) tt
    | inr (a, face, e, v) ↦ elim (Bool-cases (block_at world a.current_block)) [
      | inl solid ↦ rw (search_ray, next, e, solid) (v.inside, solid, inl (ap (λ p. p.1) e))
      | inr air ↦
          let left : (next f32 (uninit s)).0 ≡ active a = ap (λ p. p.0) e in
          let m = measure-le s.world_dimensions a v in
          rw (search_ray, next, e, air)
            (rw left (
              IsSeen-IsLit s.world_dimensions s _ (
                search_ray-IsLit add wrapping s.world_dimensions narrow f32 fuel world a v
                  (omega arith) air)))
    ]
  ]

pub dimensions_of-IsWorld : (world : World) → IsWorld world → dimensions_of world ≡ at 8 8 8
unfolding dimensions_of
dimensions_of-IsWorld [] (e, planes) = absurd (omega (arith, e))
dimensions_of-IsWorld ([] ∷ world) (e, ((f, rows), planes)) = absurd (omega (arith, f))
dimensions_of-IsWorld ((row ∷ plane) ∷ world) (e, ((f, (g, rows)), planes)) =
    λ i. at (e i) (f i) (g i)

-- Whatever the arithmetic of `f32` gives, if no part of the camera's direction is NaN: the search
-- ends, and what it finds is a solid block of the world. It is the first block of the ray, or behind
-- its face is a block of the world that is air.
pub looking_at_solid_block_lem :
    (add : AddSigned) (f32 : F32Ops) (world : World) (camera : Camera) (max_distance : ℕ)
    → IsWrapping add
    → IsWorld world
    → IsLooking f32 (f32.forward camera)
    → IsSeen add f32 world
        (at 8 8 8)
        (start_of f32 world camera max_distance)
        (looking_at_solid_block f32 world camera max_distance)
unfolding looking_at_solid_block
looking_at_solid_block_lem add f32 world camera max_distance wrapping v looking =
    let s = start_of f32 world camera max_distance in
    let e : dimensions_of world ≡ at 8 8 8 = dimensions_of-IsWorld world v in
    let narrow : IsNarrow s.world_dimensions = subst IsNarrow (sym e) (omega arith) in
    subst (λ d. IsSeen add f32 world d s (looking_at_solid_block f32 world camera max_distance)) e
      (search-IsSeen add f32 world wrapping _ s narrow looking (omega arith))
