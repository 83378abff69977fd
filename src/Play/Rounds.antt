-- ===== src/Play/Rounds.antt =====
-- Any number of rounds of the main loop.
use minecraft_os.Prelude.{
  ℕ, ◌≡◌, refl, Bool, true, false, ◌>>=◌, inl, inr, Bool-cases, Option, none, some, List, [], ◌∷◌,
  All,
}
use minecraft_os.Console.{Console}
use minecraft_os.Game.World.{World, IsWorld, Block, Face, AddSigned, is_in_bounds, offset}
use minecraft_os.Game.Save.{Camera}
use minecraft_os.Storage.{Backend, Drives}
use minecraft_os.Play.{Game, Frame, handle_events, remove_block, place_block, play_frame, new_game}
use minecraft_os.Play.Sync.{
  IsInSync, put_block-IsInSync, IsKept, IsKept-then, handle_events-IsKept, initial_world-IsWorld,
}

-- A targeted block is in the world.
abbrev pub IsAimed : Option (Block × Face) → Type 0
IsAimed none = Unit
IsAimed (some (block, face)) = is_in_bounds block ≡ true

abbrev pub IsAiming : Frame → Type 0
IsAiming frame =
    (world : World) (camera : Camera) → IsWorld world → IsAimed (frame.target world camera)

module _ (add : AddSigned) where
  remove_block-IsInSync :
      (g : Game) (click : Bool) (targeted : Option (Block × Face))
      → IsAimed targeted
      → IsInSync add g
      → IsInSync add (remove_block add g click targeted)
  unfolding remove_block
  remove_block-IsInSync g true (some (block, face)) aimed v =
      put_block-IsInSync add g block false aimed v
  remove_block-IsInSync g true none aimed v = v
  remove_block-IsInSync g false targeted aimed v = v

  place_block-IsInSync :
      (g : Game) (click : Bool) (targeted : Option (Block × Face))
      → IsInSync add g
      → IsInSync add (place_block add g click targeted)
  unfolding place_block
  place_block-IsInSync g true (some (block, face)) v =
      elim (Bool-cases (is_in_bounds (add block (offset face)))) [
        | inl inside ↦ rw inside (put_block-IsInSync add g (add block (offset face)) true inside v)
        | inr outside ↦ rw outside v
      ]
  place_block-IsInSync g true none v = v
  place_block-IsInSync g false targeted v = v

  play_frame-IsKept :
      (placeholder : List ℕ) (g : Game) (frame : Frame)
      → IsAiming frame
      → IsInSync add g
      → IsKept add (play_frame add placeholder g frame)
  unfolding play_frame
  play_frame-IsKept placeholder g frame aiming v =
      let looking : Game = record g { camera = frame.looked g.camera } in
      IsKept-then add (handle_events add placeholder looking frame.events) _
        (handle_events-IsKept add placeholder looking frame.events
          (record { dimensions = v.dimensions; mesh = v.mesh }))
        (λ g' v'.
          let moved : Game = record g' { camera = frame.moved g'.camera } in
          let targeted = frame.target moved.world moved.camera in
          place_block-IsInSync (remove_block add moved frame.clicks.left targeted)
            frame.clicks.right targeted
            (remove_block-IsInSync moved frame.clicks.left targeted
              (aiming moved.world moved.camera v'.dimensions)
              (record { dimensions = v'.dimensions; mesh = v'.mesh })))

  -- The rounds of the main loop.
  abbrev pub play_frames : List ℕ → Game → List Frame → Option Game
  play_frames placeholder g [] = some g
  play_frames placeholder g (frame ∷ frames) =
      play_frame add placeholder g frame >>= λ g'. play_frames placeholder g' frames

  play_frames-IsKept :
      (placeholder : List ℕ) (g : Game) (frames : List Frame)
      → All IsAiming frames
      → IsInSync add g
      → IsKept add (play_frames placeholder g frames)
  play_frames-IsKept placeholder g [] aiming v = v
  play_frames-IsKept placeholder g (frame ∷ frames) aiming v =
      IsKept-then add (play_frame add placeholder g frame) _
        (play_frame-IsKept placeholder g frame aiming.0 v)
        (λ g' v'. play_frames-IsKept placeholder g' frames aiming.1 v')

  -- From the initial state on, after any number of rounds with any keys, commands, clicks and any
  -- answers of the drives, where the camera only ever targets a block of the world, the world has
  -- its dimensions and the mesh that is drawn is the mesh of that world, unless the kernel panicked.
  pub play_frames-new_game :
      (placeholder : List ℕ) (console : Console) (camera : Camera)
      (backend : Option (Option Backend)) (drives : Drives) (frames : List Frame)
      → All IsAiming frames
      → IsKept add (play_frames placeholder (new_game add console camera backend drives) frames)
  unfolding new_game
  play_frames-new_game placeholder console camera backend drives frames aiming =
      play_frames-IsKept placeholder (new_game add console camera backend drives) frames aiming
        (record { dimensions = initial_world-IsWorld; mesh = refl })
