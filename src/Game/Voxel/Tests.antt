-- ===== src/Game/Voxel/Tests.antt =====
-- A ray through an air world with one solid block, in whole numbers instead of `f32`.
use minecraft_os.Prelude.{◌≡◌, refl, arith, true, false, inl, get_or, set, [], replicate}
use minecraft_os.Prelude.Int.{pos, ◌+ℤ◌, wrap64}
use minecraft_os.Game.World.{World, IsWorld, empty_world, back, AddSigned}
use minecraft_os.Game.Mesh.{at}
use minecraft_os.Game.Save.{Camera}
use minecraft_os.Game.Voxel.{
  found, looking_at_solid_block, search_ray, next, begin, enter, slab, is_outside, clamped_block,
  nearest_axis, advance_axis, raised, stepped, wrapping_add_signed, face_of, entry_face,
  dimensions_of, start_of,
}
use minecraft_os.Game.Voxel.Whole.{whole}
use minecraft_os.Game.Voxel.Sight.{IsSeen, looking_at_solid_block_lem}

abbrev world : World
world = set empty_world 4 (set (get_or empty_world 4 []) 5 (set (replicate 8 false) 3 true))

abbrev camera : Camera
camera = record { px = 4; py = 5; pz = 0; yaw = 0; pitch = 0; v_fov = 70 }

abbrev add : AddSigned
add b o = at (wrap64 (pos b.x +ℤ o.x)) (wrap64 (pos b.y +ℤ o.y)) (wrap64 (pos b.z +ℤ o.z))

finds_block : looking_at_solid_block whole world camera 100 ≡ found (at 4 5 3) back
unfolding looking_at_solid_block search_ray next begin enter slab is_outside clamped_block
    nearest_axis advance_axis stepped wrapping_add_signed face_of entry_face dimensions_of
    empty_world raised
finds_block = refl

world-IsWorld : IsWorld world
unfolding empty_world
world-IsWorld = omega arith

looking_at_solid_block_example :
    IsSeen add whole world
      (at 8 8 8)
      (start_of whole world camera 100)
      (looking_at_solid_block whole world camera 100)
looking_at_solid_block_example =
    looking_at_solid_block_lem add whole world camera 100 (λ b o. refl) world-IsWorld
      (inl refl, inl refl, inl refl)
