-- ===== src/Rendering/Clip.antt =====
-- kernel-core/src/rendering/geometry.rs: the overlap of a polygon with a rectangle. A number is the
-- 32 bits of an `f32`, and its arithmetic is a parameter.
pub mod Inside
mod Tests
use package.minecraft_os.Prelude.{
  ℕ, zero, suc, ◌*◌, Bool, true, false, Option, none, some, ◌>>=◌, List, [], ◌∷◌, ltb,
  if◌then◌else◌, length,
}
use package.minecraft_os.Rendering.TextBox.{last}

pub record F32Ops : Type 0 where
  pub add : ℕ → ℕ → ℕ
  pub sub : ℕ → ℕ → ℕ
  pub mul : ℕ → ℕ → ℕ
  pub div : ℕ → ℕ → ℕ
  pub abs : ℕ → ℕ
  pub le : ℕ → ℕ → Bool

-- 0.0, 0.5 and `f32::EPSILON`
abbrev pub zero_f32 : ℕ
zero_f32 = 0

abbrev pub half_f32 : ℕ
half_f32 = 0x3f00_0000

abbrev pub epsilon : ℕ
epsilon = 0x3400_0000

pub record Vec2 : Type 0 where
  pub x : ℕ
  pub y : ℕ

-- The edges of the rectangle, in the order in which the polygon is clipped to them.
pub data Edge : Type 0 where
  left : Edge
  right : Edge
  top : Edge
  bottom : Edge

module _ {ℓ} {A : Type ℓ} (inside : A → Bool) (intersection : A → A → A) where
  -- The vertices from behind `prev` on.
  unfoldable pub clip_from : A → List A → List A
  clip_from prev [] = []
  clip_from prev (curr ∷ input) =
      let rest = clip_from curr input in
      if inside curr
      then (if inside prev then curr ∷ rest else intersection prev curr ∷ curr ∷ rest)
      else (if inside prev then intersection prev curr ∷ rest else rest)

  unfoldable pub clip_polygon_generic : List A → List A
  clip_polygon_generic input = elim (last input) [ none ↦ [] | some prev ↦ clip_from prev input ]

module _ (f32 : F32Ops) where
  unfoldable pub area_from : ℕ → Vec2 → List Vec2 → ℕ
  area_from area prev [] = area
  area_from area prev (curr ∷ vertices) =
      area_from (f32.add area (f32.sub (f32.mul prev.x curr.y) (f32.mul curr.x prev.y))) curr
        vertices

  unfoldable pub polygon_area : List Vec2 → ℕ
  polygon_area vertices = if ltb (length vertices) 3 then zero_f32 else elim (last vertices) [
    | none ↦ zero_f32
    | some prev ↦ f32.mul half_f32 (f32.abs (area_from zero_f32 prev vertices))
  ]

  unfoldable pub intersect_vertical : Vec2 → Vec2 → ℕ → Vec2
  intersect_vertical a b x =
      let dx = f32.sub b.x a.x in
      if f32.le (f32.abs dx) epsilon
      then record { x = x; y = a.y }
      else (let t = f32.div (f32.sub x a.x) dx in
          record { x = x; y = f32.add a.y (f32.mul t (f32.sub b.y a.y)) })

  unfoldable pub intersect_horizontal : Vec2 → Vec2 → ℕ → Vec2
  intersect_horizontal a b y =
      let dy = f32.sub b.y a.y in
      if f32.le (f32.abs dy) epsilon
      then record { x = a.x; y = y }
      else (let t = f32.div (f32.sub y a.y) dy in
          record { x = f32.add a.x (f32.mul t (f32.sub b.x a.x)); y = y })

  module _ (top_left bottom_right : Vec2) where
    -- The arguments of `clip_edge!`.
    abbrev pub bound : Edge → ℕ
    bound left = top_left.x
    bound right = bottom_right.x
    bound top = top_left.y
    bound bottom = bottom_right.y

    unfoldable pub is_inside : Edge → Vec2 → Bool
    is_inside left p = f32.le top_left.x p.x
    is_inside right p = f32.le p.x bottom_right.x
    is_inside top p = f32.le top_left.y p.y
    is_inside bottom p = f32.le p.y bottom_right.y

    unfoldable pub edge_intersection : Edge → Vec2 → Vec2 → Vec2
    edge_intersection left a b = intersect_vertical a b top_left.x
    edge_intersection right a b = intersect_vertical a b bottom_right.x
    edge_intersection top a b = intersect_horizontal a b top_left.y
    edge_intersection bottom a b = intersect_horizontal a b bottom_right.y

    abbrev pub clip_to_edge : Edge → List Vec2 → List Vec2
    clip_to_edge e input = clip_polygon_generic (is_inside e) (edge_intersection e) input

    -- `none` is the return with the area 0.
    unfoldable pub clip_edge : Edge → List Vec2 → Option (List Vec2)
    clip_edge e input =
        let output = clip_to_edge e input in if ltb (length output) 3 then none else some output

    unfoldable pub clip_polygon : List Vec2 → Option (List Vec2)
    clip_polygon polygon = do
      a ← clip_edge left polygon
      b ← clip_edge right a
      c ← clip_edge top b
      clip_edge bottom c

    unfoldable pub overlap_area_polygon_with_rect : List Vec2 → ℕ
    overlap_area_polygon_with_rect polygon =
        if ltb (length polygon) 3
        then zero_f32
        else elim (clip_polygon polygon) [ none ↦ zero_f32 | some output ↦ polygon_area output ]
