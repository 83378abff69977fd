-- ===== src/Game/Voxel/Whole.antt =====
-- Whole numbers in place of `f32`, for runs on concrete inputs; every ray goes along z.
use minecraft_os.Prelude.{◌+◌, ◌-◌, ◌*◌, false, min, max, ltb}
use minecraft_os.Prelude.Int.{pos}
use minecraft_os.Game.Voxel.{F32Ops, z_axis}

abbrev pub whole : F32Ops
whole = record {
  add = λ a b. a + b;
  sub = λ a b. a - b;
  mul = λ a b. a * b;
  neg = λ a. 0;
  recip = λ a. a;
  signum = λ a. 1;
  abs = λ a. a;
  floor = λ a. a;
  min = λ a b. min a b;
  max = λ a b. max a b;
  clamp = λ a lo hi. min (max a lo) hi;
  clamp_component = λ a lo hi. min (max a lo) hi;
  lt = ltb;
  is_sign_negative = λ a. false;
  of_usize = λ a. a;
  as_usize = λ a. a;
  as_isize = λ a. pos a;
  max_position = λ v. z_axis;
  min_element = λ v. min v.x (min v.y v.z);
  zero = 0;
  half = 1;
  infinity = 1000;
  forward = λ c. record { x = 90; y = 90; z = 1 };
}
