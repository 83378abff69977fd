-- ===== src/Game/Mesh/Winding.antt =====
-- The order of the vertices of the mesh's triangles.
use minecraft_os.Prelude.{
  ℕ, ◌+◌, ◌*◌, ◌≡◌, refl, arith, Bool, false, inl, inr, Bool-cases, List, [], ◌∷◌, All, All-append,
  get_or,
}
use minecraft_os.Prelude.Ranges.{All-pushed}
use minecraft_os.Prelude.Int.{ℤ, pos_part, neg_part, sub_ℕ, ◌-ℤ◌}
use minecraft_os.Game.World.{
  World, Block, Offset, index, offset, AddSigned, neighboring_solids, block_at,
}
use minecraft_os.Game.Mesh.{
  FaceQuad, face_quads, Triangle, quad_triangles, mesh_faces, mesh_block, get_world_mesh, at,
  corner,
}

infixl 70 ◌*ℤ◌
abbrev pub ◌*ℤ◌ : ℤ → ℤ → ℤ
a *ℤ b =
    sub_ℕ (pos_part a * pos_part b + neg_part a * neg_part b)
      (pos_part a * neg_part b + neg_part a * pos_part b)

-- The vector from `b` to `a`.
unfoldable pub between : Block → Block → Offset
between a b = record { x = sub_ℕ a.x b.x; y = sub_ℕ a.y b.y; z = sub_ℕ a.z b.z }

abbrev pub cross : Offset → Offset → Offset
cross u v = record {
  x = u.y *ℤ v.z -ℤ u.z *ℤ v.y;
  y = u.z *ℤ v.x -ℤ u.x *ℤ v.z;
  z = u.x *ℤ v.y -ℤ u.y *ℤ v.x;
}

-- The normal is the product that `Triangle::new` takes of the triangle's edges: seen from where it
-- points, the vertices run clockwise.
abbrev pub IsClockwise : Triangle → Type 0
IsClockwise t = cross (between t.v2 t.v0) (between t.v1 t.v0) ≡ t.normal

sub-add : (x a b : ℕ) → sub_ℕ (x + a) (x + b) ≡ sub_ℕ a b
sub-add x a b = ground arith

between-corner : (block p q : Block) → between (corner block p) (corner block q) ≡ between p q
unfolding between
between-corner block p q =
    rw (sub-add block.x p.x q.x, sub-add block.y p.y q.y, sub-add block.z p.z q.z) refl

abbrev IsQuad : FaceQuad → Type 0
IsQuad q =
    (cross (between q.q2 q.q0) (between q.q1 q.q0) ≡ offset q.face)
    × (cross (between q.q0 q.q2) (between q.q3 q.q2) ≡ offset q.face)

six_quads : All IsQuad face_quads
unfolding offset between
six_quads = (
  (refl, refl),
  ((refl, refl), ((refl, refl), ((refl, refl), ((refl, refl), ((refl, refl), _))))),
)

quad_triangles-IsClockwise :
    (block : Block) (q : FaceQuad) → IsQuad q → All IsClockwise (quad_triangles block q)
unfolding quad_triangles
quad_triangles-IsClockwise block q v = (
  rw (between-corner block q.q2 q.q0, between-corner block q.q1 q.q0) v.0,
  (rw (between-corner block q.q0 q.q2, between-corner block q.q3 q.q2) v.1, _),
)

mesh_faces-IsClockwise :
    (solids : List Bool) (block : Block) (quads : List FaceQuad)
    → All IsQuad quads
    → All IsClockwise (mesh_faces solids block quads)
unfolding mesh_faces
mesh_faces-IsClockwise solids block [] v = _
mesh_faces-IsClockwise solids block (q ∷ quads) v =
    let rest = mesh_faces-IsClockwise solids block quads v.1 in
    elim (Bool-cases (get_or solids (index q.face) false)) [
      | inl covered ↦ rw covered rest
      | inr air ↦ rw air (
          All-append IsClockwise (quad_triangles block q) (mesh_faces solids block quads)
            (quad_triangles-IsClockwise block q v.0) rest)
    ]

mesh_block-IsClockwise :
    (add : AddSigned) (world : World) (block : Block) → All IsClockwise (mesh_block add world block)
unfolding mesh_block
mesh_block-IsClockwise add world block = elim (Bool-cases (block_at world block)) [
  | inl s ↦
      rw s (mesh_faces-IsClockwise (neighboring_solids add world block) block face_quads six_quads)
  | inr air ↦ rw air _
]

-- Every triangle of the mesh is wound clockwise when its normal points at the viewer.
pub get_world_mesh-IsClockwise :
    (add : AddSigned) (world : World) → All IsClockwise (get_world_mesh add world)
unfolding get_world_mesh
get_world_mesh-IsClockwise add world = All-pushed IsClockwise _ 8 0 (λ z lz hz.
    All-pushed IsClockwise _ 8 0 (λ y ly hy.
      All-pushed IsClockwise (λ x. mesh_block add world (at x y z)) 8 0
        (λ x lx hx. mesh_block-IsClockwise add world (at x y z))))
