-- ===== src/Game/Mesh/Tests.antt =====
-- A world with one block in a corner.
use minecraft_os.Prelude.{Bool, true, replicate, set, All}
use minecraft_os.Prelude.Int.{wrap64, pos, ◌+ℤ◌}
use minecraft_os.Game.World.{World, AddSigned, empty_world}
use minecraft_os.Game.Mesh.{get_world_mesh, at}
use minecraft_os.Game.Mesh.Winding.{IsClockwise, get_world_mesh-IsClockwise}

abbrev add : AddSigned
add b o = at (wrap64 (pos b.x +ℤ o.x)) (wrap64 (pos b.y +ℤ o.y)) (wrap64 (pos b.z +ℤ o.z))

abbrev corner_block : World
corner_block =
    set empty_world 0
      (set (replicate 8 (replicate 8 Bool.false)) 0 (set (replicate 8 Bool.false) 7 true))

get_world_mesh-IsClockwise_example : All IsClockwise (get_world_mesh add corner_block)
get_world_mesh-IsClockwise_example = get_world_mesh-IsClockwise add corner_block
