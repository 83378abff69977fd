-- ===== src/Game/Save.antt =====
-- The save format of kernel-core/src/game/save.rs: 1024 bytes with a header, the camera and one
-- byte for each block. An `f32` is its 32 bits, which is what `to_le_bytes` writes.
pub mod Layout
pub mod RoundTrip
mod Tests
use package.minecraft_os.Prelude.{ℕ, ◌+◌, ◌*◌, ◌/◌, ◌%◌, ◌^◌, ◌<◌, Bool, true, false, not, ◌&&◌}
use package.minecraft_os.Prelude.{List, [], ◌∷◌, ◌==◌, if◌then◌else◌}
use package.minecraft_os.Prelude.{get_or, set, take, replicate, write_at}
use package.minecraft_os.Game.World.{World, empty_world}

-- The bits of an `f32`.
abbrev pub F32 : Type 0
F32 = ℕ

pub record Camera : Type 0 where
  pub px : F32
  pub py : F32
  pub pz : F32
  pub yaw : F32
  pub pitch : F32
  pub v_fov : F32

abbrev pub IsF32 : F32 → Type 0
IsF32 v = v < 2 ^ 32

abbrev pub IsCamera : Camera → Type 0
IsCamera c = IsF32 c.px × IsF32 c.py × IsF32 c.pz × IsF32 c.yaw × IsF32 c.pitch × IsF32 c.v_fov

pub data SaveError : Type 0 where
  invalid_magic version_mismatch : SaveError

pub data Loaded : Type 0 where
  ok : World → Camera → Loaded
  err : SaveError → Loaded

-- The bytes of "MCOS".
abbrev pub magic : List ℕ
magic = b'M' ∷ b'C' ∷ b'O' ∷ b'S' ∷ []

abbrev pub version : ℕ
version = 1

-- `u16::to_le_bytes` and `f32::to_le_bytes`
abbrev pub u16_to_le_bytes : ℕ → List ℕ
u16_to_le_bytes v = v % 256 ∷ v / 256 % 256 ∷ []

abbrev pub u32_to_le_bytes : ℕ → List ℕ
u32_to_le_bytes v = v % 256 ∷ v / 256 % 256 ∷ v / 65536 % 256 ∷ v / 16777216 % 256 ∷ []

abbrev pub u16_from_le_bytes : ℕ → ℕ → ℕ
u16_from_le_bytes a b = a + 256 * b

abbrev pub u32_from_le_bytes : ℕ → ℕ → ℕ → ℕ → ℕ
u32_from_le_bytes a b c d = a + 256 * b + 65536 * c + 16777216 * d

-- The three nested loops over the blocks, with `offset` and the buffer as their state.
abbrev pub Cursor : Type 0
Cursor = ℕ × List ℕ

unfoldable pub store_row : List Bool → Cursor → Cursor
store_row [] (offset, buf) = (offset, buf)
store_row (block ∷ row) (offset, buf) =
    store_row row (offset + 1, set buf offset (if block then 1 else 0))

unfoldable pub store_plane : List (List Bool) → Cursor → Cursor
unfolding store_row
store_plane [] c = c
store_plane (row ∷ plane) c = store_plane plane (store_row row c)

unfoldable pub store_world : World → Cursor → Cursor
unfolding store_plane
store_world [] c = c
store_world (plane ∷ world) c = store_world world (store_plane plane c)

unfoldable pub store_header : Camera → List ℕ
store_header camera =
    let buf = replicate 1024 0 in
    let buf = write_at 0 magic buf in
    let buf = write_at 4 (u16_to_le_bytes version) buf in
    let buf = write_at 8 (u32_to_le_bytes camera.px) buf in
    let buf = write_at 12 (u32_to_le_bytes camera.py) buf in
    let buf = write_at 16 (u32_to_le_bytes camera.pz) buf in
    let buf = write_at 20 (u32_to_le_bytes camera.yaw) buf in
    let buf = write_at 24 (u32_to_le_bytes camera.pitch) buf in
    write_at 28 (u32_to_le_bytes camera.v_fov) buf

unfoldable pub serialize : World → Camera → List ℕ
unfolding store_world store_header
serialize world camera = (store_world world (32, store_header camera)).1

-- The loops of `deserialize` run over the blocks of an empty world and replace each.
unfoldable pub load_row : List Bool → ℕ → List ℕ → ℕ × List Bool
load_row [] offset buf = (offset, [])
load_row (_ ∷ row) offset buf =
    let (end, rest) = load_row row (offset + 1) buf in (end, not (get_or buf offset 0 == 0) ∷ rest)

unfoldable pub load_plane : List (List Bool) → ℕ → List ℕ → ℕ × List (List Bool)
unfolding load_row
load_plane [] offset buf = (offset, [])
load_plane (row ∷ plane) offset buf =
    let (next, row') = load_row row offset buf in
    let (end, rest) = load_plane plane next buf in (end, row' ∷ rest)

unfoldable pub load_world : World → ℕ → List ℕ → ℕ × World
unfolding load_plane
load_world [] offset buf = (offset, [])
load_world (plane ∷ world) offset buf =
    let (next, plane') = load_plane plane offset buf in
    let (end, rest) = load_world world next buf in (end, plane' ∷ rest)

-- `&[u8] == &[u8]`
abbrev pub bytes_eq : List ℕ → List ℕ → Bool
bytes_eq [] [] = true
bytes_eq [] (b ∷ bs) = false
bytes_eq (a ∷ as') [] = false
bytes_eq (a ∷ as') (b ∷ bs) = a == b && bytes_eq as' bs

unfoldable pub load_camera : List ℕ → Camera
load_camera buf = record {
  px = f32_at 8;
  py = f32_at 12;
  pz = f32_at 16;
  yaw = f32_at 20;
  pitch = f32_at 24;
  v_fov = f32_at 28;
}
  where
    f32_at : ℕ → ℕ
    f32_at i =
        u32_from_le_bytes (get_or buf i 0) (get_or buf (i + 1) 0) (get_or buf (i + 2) 0)
          (get_or buf (i + 3) 0)

unfoldable pub deserialize : List ℕ → Loaded
deserialize buf =
    if not (bytes_eq (take 4 buf) magic)
    then err invalid_magic
    else if not (u16_from_le_bytes (get_or buf 4 0) (get_or buf 5 0) == version)
    then err version_mismatch
    else ok (load_world empty_world 32 buf).1 (load_camera buf)
