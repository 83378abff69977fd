-- ===== src/Game/Save/RoundTrip.antt =====
-- Loading what was saved: `deserialize` is a left inverse of `serialize`, and it reads nothing but
-- the magic, the version, the camera and the blocks.
use minecraft_os.Prelude.{ℕ, zero, suc, ◌+◌, ◌<◌, ◌≡◌, refl, sym, ap, ◌∙◌, arith}
use minecraft_os.Prelude.{Bool, true, false, List, [], ◌∷◌, ◌++◌, map, not, ◌==◌}
use minecraft_os.Prelude.{
  All, length, get_or, take, drop, replicate, get_or-drop_cons, drop_next, length-append,
}
use minecraft_os.Game.World.{World, IsWorld, IsPlane, empty_world}
use minecraft_os.Game.Save.{
  Camera, IsCamera, IsF32, u16_from_le_bytes, u32_from_le_bytes, bytes_eq, magic, ok, load_row,
  load_plane, load_world,
}
use minecraft_os.Game.Save.{load_camera, serialize, deserialize}
use minecraft_os.Game.Save.Layout.{
  block_byte, plane_blocks, world_blocks, header_bytes, serialize_layout,
}
use mathlib.Core.Path.{subst}
use native.Mathlib.Nat.{add-zero}
use mathlib.Core.List.{append_assoc, map-append}

nonzero_block : (b : Bool) → not (block_byte b == 0) ≡ b
nonzero_block true = refl
nonzero_block false = refl

-- The blocks read from where their bytes stand, and the offset behind them.
load_row-bytes :
    (slots row : List Bool) (i : ℕ) (buf rest : List ℕ)
    → length slots ≡ length row
    → drop i buf ≡ map block_byte row ++ rest
    → (load_row slots i buf ≡ (i + length row, row)) × (drop (i + length row) buf ≡ rest)
unfolding load_row
load_row-bytes [] [] i buf rest same e = (ground arith, rw add-zero e)
load_row-bytes [] (b ∷ row) i buf rest same e = absurd (omega arith)
load_row-bytes (s ∷ slots) [] i buf rest same e = absurd (omega arith)
load_row-bytes (s ∷ slots) (b ∷ row) i buf rest same e =
    let h = load_row-bytes slots row (i + 1) buf rest (omega arith) (drop_next i buf e) in
    let shift : i + 1 + length row ≡ i + suc (length row) = omega arith in
    (
      ground (arith, h.0, get_or-drop_cons i buf 0 e, nonzero_block b),
      ap (λ n. drop n buf) (sym shift) ∙ h.1,
    )

-- A template whose rows are as long as those of the value.
abbrev SameRows : List (List Bool) → List (List Bool) → Type 0
SameRows [] [] = Unit {0}
SameRows [] (row ∷ plane) = ⊥
SameRows (slots ∷ template) [] = ⊥
SameRows (slots ∷ template) (row ∷ plane) = (length slots ≡ length row) × SameRows template plane

abbrev SamePlanes : World → World → Type 0
SamePlanes [] [] = Unit {0}
SamePlanes [] (plane ∷ world) = ⊥
SamePlanes (template ∷ planes) [] = ⊥
SamePlanes (template ∷ planes) (plane ∷ world) = SameRows template plane × SamePlanes planes world

split_bytes :
    (xs ys : List Bool) (rest : List ℕ)
    → map block_byte (xs ++ ys) ++ rest ≡ map block_byte xs ++ (map block_byte ys ++ rest)
split_bytes xs ys rest = rw map-append (append_assoc (map block_byte xs) (map block_byte ys) rest)

load_plane-bytes :
    (template plane : List (List Bool)) (i : ℕ) (buf rest : List ℕ)
    → SameRows template plane
    → drop i buf ≡ map block_byte (plane_blocks plane) ++ rest
    → let end = i + length (plane_blocks plane) in
      (load_plane template i buf ≡ (end, plane)) × (drop end buf ≡ rest)
unfolding load_plane
load_plane-bytes [] [] i buf rest same e = (ground arith, rw add-zero e)
load_plane-bytes [] (row ∷ plane) i buf rest same e = absurd same
load_plane-bytes (slots ∷ template) [] i buf rest same e = absurd same
load_plane-bytes (slots ∷ template) (row ∷ plane) i buf rest same e =
    let here =
      load_row-bytes slots row i buf (map block_byte (plane_blocks plane) ++ rest) same.0
        (e ∙ split_bytes row (plane_blocks plane) rest) in
    let later = load_plane-bytes template plane (i + length row) buf rest same.1 here.1 in
    let end : i + length row + length (plane_blocks plane)
        ≡ i + length (row ++ plane_blocks plane) =
      omega (arith, length-append row (plane_blocks plane)) in
    (rw (here.0, later.0) (ground arith), ap (λ n. drop n buf) (sym end) ∙ later.1)

load_world-bytes :
    (template world : World) (i : ℕ) (buf rest : List ℕ)
    → SamePlanes template world
    → drop i buf ≡ map block_byte (world_blocks world) ++ rest
    → load_world template i buf ≡ (i + length (world_blocks world), world)
unfolding load_world
load_world-bytes [] [] i buf rest same e = ground arith
load_world-bytes [] (plane ∷ world) i buf rest same e = absurd same
load_world-bytes (planes ∷ template) [] i buf rest same e = absurd same
load_world-bytes (planes ∷ template) (plane ∷ world) i buf rest same e =
    let here =
      load_plane-bytes planes plane i buf (map block_byte (world_blocks world) ++ rest) same.0
        (e ∙ split_bytes (plane_blocks plane) (world_blocks world) rest) in
    let next = i + length (plane_blocks plane) in
    let later = load_world-bytes template world next buf rest same.1 here.1 in
    rw (here.0, later) (ground (arith, length-append (plane_blocks plane) (world_blocks world)))

SameRows-replicate :
    (plane : List (List Bool))
    → All (λ row. length row ≡ 8) plane
    → SameRows (replicate (length plane) (replicate 8 false)) plane
SameRows-replicate [] h = tt
SameRows-replicate (row ∷ plane) h = (sym h.0, SameRows-replicate plane h.1)

SamePlanes-replicate :
    (world : World)
    → All IsPlane world
    → SamePlanes (replicate (length world) (replicate 8 (replicate 8 false))) world
SamePlanes-replicate [] h = tt
SamePlanes-replicate (plane ∷ world) h =
    (rw (h.0.0) at (SameRows-replicate plane h.0.1), SamePlanes-replicate world h.1)

SamePlanes-empty_world : (world : World) → IsWorld world → SamePlanes empty_world world
unfolding empty_world
SamePlanes-empty_world world h = rw (h.0) at (SamePlanes-replicate world h.1)

load_camera-header :
    (c : Camera) (rest : List ℕ) → IsCamera c → load_camera (header_bytes c ++ rest) ≡ c
unfolding load_camera
load_camera-header c rest h = ground arith

-- A saved world and camera are loaded as they were, for every world of the right dimensions and
-- every camera whose fields are 32-bit values.
pub deserialize-serialize :
    (world : World) (c : Camera)
    → IsWorld world
    → IsCamera c
    → deserialize (serialize world c) ≡ ok world c
unfolding deserialize
deserialize-serialize world c hw hc =
    let blocks = map block_byte (world_blocks world) in
    let loaded =
      load_world-bytes empty_world world 32 (header_bytes c ++ (blocks ++ replicate 480 0))
        (replicate 480 0) (SamePlanes-empty_world world hw) refl in
    rw (serialize_layout world c hw, loaded, load_camera-header c (blocks ++ replicate 480 0) hc)
      refl

length-load_row :
    (slots : List Bool) (i : ℕ) (buf : List ℕ) → length (load_row slots i buf).1 ≡ length slots
unfolding load_row
length-load_row [] i buf = refl
length-load_row (s ∷ slots) i buf = ap suc (length-load_row slots (i + 1) buf)

load_plane-IsPlane :
    (template : List (List Bool)) (i : ℕ) (buf : List ℕ)
    → All (λ row. length row ≡ 8) template
    → (length (load_plane template i buf).1 ≡ length template)
      × All (λ row. length row ≡ 8) (load_plane template i buf).1
unfolding load_plane
load_plane-IsPlane [] i buf h = (refl, tt)
load_plane-IsPlane (slots ∷ template) i buf h =
    let rest = load_plane-IsPlane template (load_row slots i buf).0 buf h.1 in
    (ap suc rest.0, (length-load_row slots i buf ∙ h.0, rest.1))

load_world-IsWorld :
    (template : World) (i : ℕ) (buf : List ℕ)
    → All IsPlane template
    → (length (load_world template i buf).1 ≡ length template)
      × All IsPlane (load_world template i buf).1
unfolding load_world
load_world-IsWorld [] i buf h = (refl, tt)
load_world-IsWorld (planes ∷ template) i buf h =
    let here = load_plane-IsPlane planes i buf h.0.1 in
    let rest = load_world-IsWorld template (load_plane planes i buf).0 buf h.1 in
    (ap suc rest.0, ((here.0 ∙ h.0.0, here.1), rest.1))

empty_world-IsWorld : IsWorld empty_world
unfolding empty_world
empty_world-IsWorld = omega arith

get_or-lt : (buf : List ℕ) (i : ℕ) → All (λ b. b < 256) buf → get_or buf i 0 < 256
get_or-lt [] i h = omega arith
get_or-lt (b ∷ buf) zero h = h.0
get_or-lt (b ∷ buf) (suc i) h = get_or-lt buf i h.1

u32_from_le_bytes-IsF32 :
    (buf : List ℕ) (i j k l : ℕ)
    → All (λ b. b < 256) buf
    → IsF32 (u32_from_le_bytes (get_or buf i 0) (get_or buf j 0) (get_or buf k 0) (get_or buf l 0))
u32_from_le_bytes-IsF32 buf i j k l h =
    omega (arith, get_or-lt buf i h, get_or-lt buf j h, get_or-lt buf k h, get_or-lt buf l h)

load_camera-IsCamera : (buf : List ℕ) → All (λ b. b < 256) buf → IsCamera (load_camera buf)
unfolding load_camera
load_camera-IsCamera buf h = (
  u32_from_le_bytes-IsF32 buf 8 9 10 11 h,
  u32_from_le_bytes-IsF32 buf 12 13 14 15 h,
  u32_from_le_bytes-IsF32 buf 16 17 18 19 h,
  u32_from_le_bytes-IsF32 buf 20 21 22 23 h,
  u32_from_le_bytes-IsF32 buf 24 25 26 27 h,
  u32_from_le_bytes-IsF32 buf 28 29 30 31 h,
)

bytes_eq→≡ : (xs ys : List ℕ) → bytes_eq xs ys ≡ true → xs ≡ ys
bytes_eq→≡ [] [] h = refl
bytes_eq→≡ [] (y ∷ ys) h = cc
bytes_eq→≡ (x ∷ xs) [] h = cc
bytes_eq→≡ (x ∷ xs) (y ∷ ys) h = ground (arith, bytes_eq→≡ xs ys)

deserialize_ok :
    (buf : List ℕ) (world : World) (c : Camera)
    → deserialize buf ≡ ok world c
    → ((load_world empty_world 32 buf).1 ≡ world)
      × (load_camera buf ≡ c)
      × (bytes_eq (take 4 buf) magic ≡ true)
      × (u16_from_le_bytes (get_or buf 4 0) (get_or buf 5 0) ≡ 1)
unfolding deserialize
deserialize_ok buf world c e = ground arith

pub deserialize-dimensions :
    (buf : List ℕ) (world : World) (c : Camera) → deserialize buf ≡ ok world c → IsWorld world
deserialize-dimensions buf world c e =
    let shape = load_world-IsWorld empty_world 32 buf (empty_world-IsWorld.1) in
    let sizes : IsWorld (load_world empty_world 32 buf).1 =
      (shape.0 ∙ empty_world-IsWorld.0, shape.1) in
    subst IsWorld (deserialize_ok buf world c e).0 sizes

-- Whatever bytes the disk returns, what `deserialize` accepts is a world of the right dimensions
-- and a camera of 32-bit values, and the buffer began with the magic and the version 1.
pub deserialize-IsWorld :
    (buf : List ℕ) (world : World) (c : Camera)
    → All (λ b. b < 256) buf
    → deserialize buf ≡ ok world c
    → IsWorld world
      × IsCamera c
      × (take 4 buf ≡ magic)
      × (get_or buf 4 0 ≡ 1)
      × (get_or buf 5 0 ≡ 0)
deserialize-IsWorld buf world c h e =
    let (w, k, m, v) = deserialize_ok buf world c e in
    (
      deserialize-dimensions buf world c e,
      subst IsCamera k (load_camera-IsCamera buf h),
      bytes_eq→≡ (take 4 buf) magic m,
      omega (arith, get_or-lt buf 4 h),
      omega (arith, get_or-lt buf 4 h),
    )
