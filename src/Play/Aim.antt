-- ===== src/Play/Aim.antt =====
-- The main loop with the camera's own search for the block that it looks at.
use minecraft_os.Prelude.{ℕ, ◌≡◌, sym, arith, true, Option, List, [], ◌∷◌, All}
use mathlib.Core.Path.{subst}
use minecraft_os.Console.{Console}
use minecraft_os.Game.World.{World, IsWorld, Block, AddSigned, is_in_bounds}
use minecraft_os.Game.Mesh.{at}
use minecraft_os.Game.Save.{Camera}
use minecraft_os.Game.Voxel
use minecraft_os.Game.Voxel.{F32Ops, Search, found, looking_at_solid_block}
use minecraft_os.Game.Voxel.Ray.{IsInside}
use minecraft_os.Game.Voxel.Bounds.{IsFoundInside, looking_at_solid_block-IsFoundInside}
use minecraft_os.Storage.{Backend, Drives}
use minecraft_os.Play.{Frame, new_game, of_search, targeted_block}
use minecraft_os.Play.Sync.{IsKept}
use minecraft_os.Play.Rounds.{IsAimed, IsAiming, play_frames, play_frames-new_game}

in_bounds : (b : Block) → IsInside (at 8 8 8) b → is_in_bounds b ≡ true
unfolding is_in_bounds
in_bounds b h = ground arith

module _ (f32 : F32Ops) where
  of_search-IsAimed : (r : Search) → IsFoundInside f32 (at 8 8 8) r → IsAimed (of_search r)
  of_search-IsAimed (found b face) h = in_bounds b h
  of_search-IsAimed Voxel.nothing h = tt
  of_search-IsAimed Voxel.running h = tt

  targeted_block-IsAimed :
      (world : World) (camera : Camera) → IsWorld world → IsAimed (targeted_block f32 world camera)
  unfolding targeted_block
  targeted_block-IsAimed world camera v =
      of_search-IsAimed _ (looking_at_solid_block-IsFoundInside f32 world camera _ v)

  -- The frame looks where the source does.
  abbrev pub IsLookingAhead : Frame → Type 0
  IsLookingAhead frame = frame.target ≡ targeted_block f32

  all-IsAiming : (frames : List Frame) → All IsLookingAhead frames → All IsAiming frames
  all-IsAiming [] h = tt
  all-IsAiming (frame ∷ frames) h = (
    λ world camera v.
        subst (λ target. IsAimed (target world camera)) (sym h.0)
          (targeted_block-IsAimed world camera v),
    all-IsAiming frames h.1,
  )

  -- From the initial state on, after any number of rounds with any keys, commands, movements and
  -- clicks, any answers of the drives and any arithmetic of `f32`: the world has its dimensions and
  -- the mesh that is drawn is the mesh of that world, unless the kernel panicked in a key's handler.
  -- A search that does not end, as a direction that is not a number makes it, counts as one that finds
  -- nothing.
  pub play_frames-IsLookingAhead :
      (add : AddSigned) (placeholder : List ℕ) (console : Console) (camera : Camera)
      (backend : Option (Option Backend)) (drives : Drives) (frames : List Frame)
      → All IsLookingAhead frames
      → IsKept add (play_frames add placeholder (new_game add console camera backend drives) frames)
  play_frames-IsLookingAhead add placeholder console camera backend drives frames looking =
      play_frames-new_game add placeholder console camera backend drives frames
        (all-IsAiming frames looking)
