-- ===== src/Game/Voxel/Ray.antt =====
-- A ray goes from block to block through their common faces, and ends.
use minecraft_os.Prelude.{
  ℕ, zero, suc, ◌+◌, ◌-◌, ◌^◌, ◌<◌, ◌≡◌, refl, sym, ap, ◌∙◌, arith, inl, inr, Bool, true, false,
  ◌||◌, Bool-cases, Option, none, some, ◌⊎◌, if◌then◌else◌,
}
use mathlib.Core.Path.{subst}
use minecraft_os.Prelude.Int.{ℤ, pos, negsuc, ◌+ℤ◌, wrap64}
use minecraft_os.Game.World.{
  World, Block, Offset, Face, front, back, top, bottom, left, right, AddSigned, offset, block_at,
}
use minecraft_os.Game.Mesh.{at}
use minecraft_os.Game.Mesh.Exposed.{IsWrapping}
use minecraft_os.Game.Voxel.{
  Axis, x_axis, y_axis, z_axis, F32Ops, Active, at_axis, Traverser, empty, active, is_outside,
  wrapping_add_signed, is_negative, stepped, face_of, advance_axis, nearest_axis, next, Search,
  found, nothing, running, search_ray,
}

-- The sign of a number that is not NaN.
abbrev pub IsUnit : ℤ → Type 0
IsUnit s = (s ≡ pos 1) ⊎ (s ≡ negsuc 0)

abbrev pub IsInside : Block → Block → Type 0
IsInside d b = (b.x < d.x) × (b.y < d.y) × (b.z < d.z)

abbrev pub IsDirected : Offset → Type 0
IsDirected step = IsUnit step.x × IsUnit step.y × IsUnit step.z

abbrev pub IsNarrow : Block → Type 0
IsNarrow d = (d.x < 2 ^ 63) × (d.y < 2 ^ 63) × (d.z < 2 ^ 63)

-- The blocks that are left in the direction of a step.
abbrev pub ahead : ℤ → ℕ → ℕ → ℕ
ahead (pos k) d x = d - x
ahead (negsuc k) d x = x + 1

-- A step that stays in the world comes closer to its end, and can be taken back.
abbrev Steps : ℕ → ℕ → ℤ → Type 0
Steps d x s =
    wrapping_add_signed x s < d
    → (ahead s d (wrapping_add_signed x s) + 1 ≡ ahead s d x)
      × (wrap64 (pos (wrapping_add_signed x s) +ℤ (if is_negative s then pos 1 else negsuc 0)) ≡ x)

up_Steps : (d x : ℕ) → x < d → d < 2 ^ 63 → Steps d x (pos 1)
unfolding wrapping_add_signed
up_Steps d x hx hd h = ground arith

down_Steps : (d x : ℕ) → x < d → d < 2 ^ 63 → Steps d x (negsuc 0)
unfolding wrapping_add_signed
down_Steps d x hx hd h = ground arith

scalar-Steps : (d x : ℕ) (s : ℤ) → IsUnit s → x < d → d < 2 ^ 63 → Steps d x s
scalar-Steps d x s (inl e) hx hd = subst (Steps d x) (sym e) (up_Steps d x hx hd)
scalar-Steps d x s (inr e) hx hd = subst (Steps d x) (sym e) (down_Steps d x hx hd)

still : (x d : ℕ) → x < d → d < 2 ^ 63 → wrap64 (pos x +ℤ pos 0) ≡ x
still x d h k = ground arith

pub is_outside-false : (b d : Block) → is_outside b d ≡ false → IsInside d b
unfolding is_outside
is_outside-false b d e = ground arith

-- How far a ray can still go.
abbrev pub measure : Active → ℕ
measure a =
    ahead a.step.x a.world_dimensions.x a.current_block.x
    + ahead a.step.y a.world_dimensions.y a.current_block.y
    + ahead a.step.z a.world_dimensions.z a.current_block.z

pub record IsOnCourse (d : Block) (a : Active) : Type 0 where
  pub dimensions : a.world_dimensions ≡ d
  pub inside : IsInside d a.current_block
  pub directed : IsDirected a.step

-- A step of a ray on its course: it ends, or comes to the block behind the face.
abbrev Advanced : AddSigned → Block → Active → Traverser × Option (Block × Face) → Type 0
Advanced add d a r =
    (r ≡ (empty, none))
    ⊎ ((a' : Active) × (face : Face) × (r ≡ (active a', some (a'.current_block, face)))
        × IsOnCourse d a'
        × (measure a' + 1 ≡ measure a)
        × (add a'.current_block (offset face) ≡ a.current_block))

offset_x :
    (b : Bool)
    → offset (if b then right else left)
      ≡ record { x = if b then pos 1 else negsuc 0; y = pos 0; z = pos 0 }
unfolding offset
offset_x true = refl
offset_x false = refl

offset_y :
    (b : Bool)
    → offset (if b then top else bottom)
      ≡ record { x = pos 0; y = if b then pos 1 else negsuc 0; z = pos 0 }
unfolding offset
offset_y true = refl
offset_y false = refl

offset_z :
    (b : Bool)
    → offset (if b then front else back)
      ≡ record { x = pos 0; y = pos 0; z = if b then pos 1 else negsuc 0 }
unfolding offset
offset_z true = refl
offset_z false = refl

same_block : {x y z : ℕ} {b : Block} → x ≡ b.x → y ≡ b.y → z ≡ b.z → at x y z ≡ b
same_block p q r = λ i. at (p i) (q i) (r i)

pub or_false : (a b : Bool) → (a || b) ≡ false → b ≡ false
or_false true b e = absurd (cc e)
or_false false b e = e

-- What a search from an air block finds: a solid block of the world, behind the face of which is
-- air of the world.
abbrev pub IsLit : AddSigned → Block → World → Search → Type 0
IsLit add d world (found b face) =
    IsInside d b
    × (block_at world b ≡ true)
    × IsInside d (add b (offset face))
    × (block_at world (add b (offset face)) ≡ false)
IsLit add d world nothing = Unit
IsLit add d world running = ⊥

module _ (add : AddSigned) (wrapping : IsWrapping add) (d : Block) (narrow : IsNarrow d) where
  -- The face that is entered by a step leads back.
  abbrev IsBack : Axis → Active → Type 0
  IsBack axis a = add (stepped axis a) (offset (face_of axis a.step)) ≡ a.current_block

  came_from :
      (b from : Block) (o o' : Offset)
      → o ≡ o'
      → wrap64 (pos b.x +ℤ o'.x) ≡ from.x
      → wrap64 (pos b.y +ℤ o'.y) ≡ from.y
      → wrap64 (pos b.z +ℤ o'.z) ≡ from.z
      → add b o ≡ from
  came_from b from o o' e x y z = ap (add b) e ∙ wrapping b o' ∙ same_block x y z

  stepped-IsBack :
      (axis : Axis) (a : Active)
      → IsOnCourse d a
      → IsInside d (stepped axis a)
      → IsBack axis a × (measure (record a { current_block = stepped axis a }) + 1 ≡ measure a)
  unfolding stepped face_of
  stepped-IsBack x_axis a v h =
      let (i, j, k) = v.inside in
      let (m, b) = scalar-Steps d.x a.current_block.x a.step.x v.directed.0 i narrow.0 h.0 in
      let e : a.world_dimensions ≡ d = v.dimensions in
      (
        came_from _ _ _ _ (offset_x (is_negative a.step.x)) b (still _ d.y j narrow.1)
            (still _ d.z k narrow.2),
        rw e (omega (arith, m)),
      )
  stepped-IsBack y_axis a v h =
      let (i, j, k) = v.inside in
      let (m, b) = scalar-Steps d.y a.current_block.y a.step.y v.directed.1 j narrow.1 h.1 in
      let e : a.world_dimensions ≡ d = v.dimensions in
      (
        came_from _ _ _ _ (offset_y (is_negative a.step.y)) (still _ d.x i narrow.0) b
            (still _ d.z k narrow.2),
        rw e (omega (arith, m)),
      )
  stepped-IsBack z_axis a v h =
      let (i, j, k) = v.inside in
      let (m, b) = scalar-Steps d.z a.current_block.z a.step.z v.directed.2 k narrow.2 h.2 in
      let e : a.world_dimensions ≡ d = v.dimensions in
      (
        came_from _ _ _ _ (offset_z (is_negative a.step.z)) (still _ d.x i narrow.0)
            (still _ d.y j narrow.1) b,
        rw e (omega (arith, m)),
      )

  advance_axis-Advanced :
      (f32 : F32Ops) (axis : Axis) (a : Active)
      → IsOnCourse d a
      → Advanced add d a (advance_axis f32 axis a)
  unfolding advance_axis
  advance_axis-Advanced f32 axis a v =
      elim (Bool-cases (
        f32.lt a.remaining_distance (at_axis axis a.t)
        || is_outside (stepped axis a) a.world_dimensions)) [
          | inl e ↦ rw e (inl refl)
          | inr e ↦
              let h : IsInside d (stepped axis a) =
                subst (λ w. IsInside w (stepped axis a)) v.dimensions
                  (is_outside-false _ _ (or_false _ _ e)) in
              let (b, m) = stepped-IsBack axis a v h in
              rw e (
                inr (
                  _,
                  _,
                  refl,
                  record { dimensions = v.dimensions; inside = h; directed = v.directed },
                  m,
                  b,
                ))
        ]

  pub search_ray-IsLit :
      (f32 : F32Ops) (fuel : ℕ) (world : World) (a : Active)
      → IsOnCourse d a
      → measure a < fuel
      → block_at world a.current_block ≡ false
      → IsLit add d world (search_ray f32 fuel world (active a))
  unfolding search_ray next
  search_ray-IsLit f32 zero world a v m air = absurd (omega arith)
  search_ray-IsLit f32 (suc fuel) world a v m air =
      elim (advance_axis-Advanced f32 (nearest_axis f32 a.t) a v) [
        | inl e ↦ rw (search_ray, next, e) tt
        | inr (a', face, e, v', m', way) ↦ elim (Bool-cases (block_at world a'.current_block)) [
          | inl solid ↦
              rw (search_ray, next, e, solid) (v'.inside, solid, rw way v.inside, rw way air)
          | inr through ↦
              let left : (next f32 (active a)).0 ≡ active a' = ap (λ p. p.0) e in
              rw (search_ray, next, e, through)
                (rw left (search_ray-IsLit f32 fuel world a' v' (omega arith) through))
        ]
      ]
