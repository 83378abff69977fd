-- ===== src/Game/Save/Tests.antt =====
-- A world with two blocks, saved and loaded.
use minecraft_os.Prelude.{
  ℕ, zero, suc, ◌<◌, ◌≡◌, refl, arith, Bool, true, false, List, [], ◌∷◌, ◌++◌,
}
use minecraft_os.Prelude.{get_or, take, replicate, All}
use minecraft_os.Game.World.{World, IsWorld, empty_world}
use minecraft_os.Game.Save.{
  Camera, IsCamera, ok, err, version_mismatch, invalid_magic, magic, serialize, deserialize,
  load_world, load_camera,
}
use minecraft_os.Game.Save.RoundTrip.{deserialize-serialize, deserialize-IsWorld}

abbrev air_plane : List (List Bool)
air_plane = replicate 8 (replicate 8 false)

abbrev sample : World
sample =
    ((false ∷ true ∷ replicate 6 false)
      ∷ (replicate 6 (replicate 8 false) ++ ((replicate 7 false ++ (true ∷ [])) ∷ [])))
    ∷ replicate 7 air_plane

abbrev camera : Camera
camera = record {
  px = 0x40000000;
  py = 0xbf800000;
  pz = 3;
  yaw = 0xffffffff;
  pitch = 0;
  v_fov = 0x3f99999a;
}

sample-IsWorld : IsWorld sample
sample-IsWorld = omega arith

camera-IsCamera : IsCamera camera
camera-IsCamera = omega arith

deserialize-serialize_example : deserialize (serialize sample camera) ≡ ok sample camera
deserialize-serialize_example = deserialize-serialize sample camera sample-IsWorld camera-IsCamera

-- The second block of the first row is byte 33; the last block of the first plane is byte 95.
serialize_blocks :
    (get_or (serialize sample camera) 32 7 ≡ 0)
    × (get_or (serialize sample camera) 33 7 ≡ 1)
    × (get_or (serialize sample camera) 95 7 ≡ 1)
    × (get_or (serialize sample camera) 96 7 ≡ 0)
    × (get_or (serialize sample camera) 544 7 ≡ 0)
unfolding serialize
serialize_blocks = (refl, refl, refl, refl, refl)

-- A file with another version, and one that is no save file.
wrong_version : deserialize (magic ++ (2 ∷ 0 ∷ replicate 1018 0)) ≡ err version_mismatch
unfolding deserialize
wrong_version = refl

wrong_magic : deserialize (replicate 1024 0) ≡ err invalid_magic
unfolding deserialize
wrong_magic = refl

-- Only the header: an empty world.
abbrev header_only : List ℕ
header_only = magic ++ (1 ∷ 0 ∷ replicate 1018 0)

abbrev zero_camera : Camera
zero_camera = record { px = 0; py = 0; pz = 0; yaw = 0; pitch = 0; v_fov = 0 }

header_only_bytes : All (λ b. b < 256) header_only
header_only_bytes = (
  omega arith,
  (omega arith, (omega arith, (omega arith, (omega arith, (omega arith, zeros 1018))))),
)
  where
    zeros : (n : ℕ) → All (λ b. b < 256) (replicate n 0)
    zeros zero = _
    zeros (suc n) = (omega arith, zeros n)

header_only_loaded : deserialize header_only ≡ ok empty_world zero_camera
unfolding deserialize load_camera empty_world load_world
header_only_loaded = refl

deserialize-IsWorld_example :
    IsWorld empty_world
    × IsCamera zero_camera
    × (take 4 header_only ≡ magic)
    × (get_or header_only 4 0 ≡ 1)
    × (get_or header_only 5 0 ≡ 0)
deserialize-IsWorld_example =
    deserialize-IsWorld header_only empty_world zero_camera header_only_bytes header_only_loaded
