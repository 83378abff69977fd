-- ===== src/Rendering/Rectangle.antt =====
-- `Rectangle` of kernel-core/src/rendering/renderer.rs. Coordinates are `i32`, and sums wrap around
-- as in a release build.
pub mod Intersection
use package.minecraft_os.Prelude.{
  ℕ, zero, suc, ◌+◌, ◌-◌, ◌%◌, ◌^◌, Bool, ◌&&◌, Option, none, some, List, [], ◌∷◌, ltb,
  if◌then◌else◌,
}
use package.minecraft_os.Prelude.Int.{ℤ, pos, negsuc, ◌+ℤ◌, ◌-ℤ◌, ltb_ℤ}

-- The `i32` of the lowest 32 bits.
abbrev pub signed32 : ℕ → ℤ
signed32 w = if ltb w (2 ^ 31) then pos w else negsuc (2 ^ 32 - w - 1)

unfoldable pub wrap32 : ℤ → ℤ
wrap32 (pos n) = signed32 (n % 2 ^ 32)
wrap32 (negsuc n) = signed32 (2 ^ 32 - 1 - n % 2 ^ 32)

-- `as usize` of an `i32`
unfoldable pub as_usize : ℤ → ℕ
as_usize (pos n) = n
as_usize (negsuc n) = 2 ^ 64 - 1 - n

-- `IVec2` and `USizeVec2`
pub record IVec2 : Type 0 where
  pub x : ℤ
  pub y : ℤ

pub record USizeVec2 : Type 0 where
  pub x : ℕ
  pub y : ℕ

pub record Rectangle : Type 0 where
  pub top_left : IVec2
  pub size : USizeVec2

abbrev pub min_ℤ : ℤ → ℤ → ℤ
min_ℤ a b = if ltb_ℤ b a then b else a

abbrev pub max_ℤ : ℤ → ℤ → ℤ
max_ℤ a b = if ltb_ℤ a b then b else a

unfoldable pub bottom_right : Rectangle → IVec2
bottom_right r = record {
  x = wrap32 (r.top_left.x +ℤ wrap32 (pos r.size.x));
  y = wrap32 (r.top_left.y +ℤ wrap32 (pos r.size.y));
}

abbrev pub max_vec : IVec2 → IVec2 → IVec2
max_vec a b = record { x = max_ℤ a.x b.x; y = max_ℤ a.y b.y }

abbrev pub min_vec : IVec2 → IVec2 → IVec2
min_vec a b = record { x = min_ℤ a.x b.x; y = min_ℤ a.y b.y }

-- The rectangle between two corners, if it has a pixel.
unfoldable pub between : IVec2 → IVec2 → Option Rectangle
between start end =
    if ltb_ℤ start.x end.x && ltb_ℤ start.y end.y
    then some record {
      top_left = start;
      size = record {
        x = as_usize (wrap32 (end.x -ℤ start.x));
        y = as_usize (wrap32 (end.y -ℤ start.y));
      };
    }
    else none

unfoldable pub intersection : Rectangle → Rectangle → Option Rectangle
intersection r s =
    between (max_vec r.top_left s.top_left) (min_vec (bottom_right r) (bottom_right s))

-- The numbers of a range of `i32` that begins with `start` and has `n` of them.
abbrev pub counted : ℤ → ℕ → List ℤ
counted start zero = []
counted start (suc n) = start ∷ counted (start +ℤ pos 1) n

abbrev pub distance : ℤ → ℕ
distance (pos n) = n
distance (negsuc n) = 0

unfoldable pub rows : Rectangle → List ℤ
rows r = counted r.top_left.y (distance ((bottom_right r).y -ℤ r.top_left.y))
