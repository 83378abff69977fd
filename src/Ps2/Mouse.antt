-- ===== src/Ps2/Mouse.antt =====
-- The PS/2 mouse of kernel/src/ps2/mouse.rs. An `i16` is its 16 bits, and its sums wrap as in a
-- release build.
pub mod Buttons
pub mod Packets
pub mod Motion
use package.minecraft_os.Prelude.{ℕ, ◌+◌, ◌-◌, ◌*◌, ◌/◌, ◌%◌, ◌^◌, Bool, true, false, not, ◌&&◌}
use package.minecraft_os.Prelude.{Option, none, some, List, [], ◌∷◌, bit_and, ltb, ◌==◌}
use package.minecraft_os.Prelude.{if◌then◌else◌, get_or, set, replicate}

pub data MouseButtons : Type 0 where
  released left right middle left_right left_middle right_middle all : MouseButtons

-- `match b & 0x07`
unfoldable pub from_state_byte : ℕ → MouseButtons
from_state_byte b =
    let k = bit_and b 0x07 in
    if k == 0
    then released
    else if k == 1
    then left
    else if k == 2
    then right
    else if k == 3
    then left_right
    else if k == 4
    then middle
    else if k == 5
    then left_middle
    else if k == 6
    then right_middle
    else if k == 7
    then all
    else released

unfoldable pub is_left_down : MouseButtons → Bool
is_left_down left = true
is_left_down left_middle = true
is_left_down left_right = true
is_left_down _ = false

unfoldable pub is_right_down : MouseButtons → Bool
is_right_down right = true
is_right_down right_middle = true
is_right_down left_right = true
is_right_down _ = false

pub record MousePacket : Type 0 where
  pub buttons : MouseButtons
  pub dx : ℕ
  pub dy : ℕ
  pub sign_x : Bool
  pub sign_y : Bool
  pub byte_4 : Option ℕ

abbrev pub add_i16 : ℕ → ℕ → ℕ
add_i16 a b = (a + b) % 2 ^ 16

abbrev pub sub_i16 : ℕ → ℕ → ℕ
sub_i16 a b = (a + 2 ^ 16 - b) % 2 ^ 16

abbrev pub neg_i16 : ℕ → ℕ
neg_i16 a = (2 ^ 16 - a) % 2 ^ 16

unfoldable pub from_bytes : ℕ → ℕ → ℕ → Option ℕ → MousePacket
from_bytes byte_state byte_x byte_y byte_4 =
    let sign_x = not (bit_and byte_state 0x10 == 0) in
    let sign_y = not (bit_and byte_state 0x20 == 0) in
    let dx = sub_i16 byte_x (if sign_x then 0x100 else 0) in
    let dy = sub_i16 byte_y (if sign_y then 0x100 else 0) in
    record {
      buttons = from_state_byte byte_state;
      dx = dx;
      dy = neg_i16 dy;
      sign_x = sign_x;
      sign_y = sign_y;
      byte_4 = byte_4;
    }

pub data MouseType : Type 0 where
  standard intellimouse explorer unknown : MouseType

unfoldable pub from_type_id : ℕ → MouseType
from_type_id type_id =
    if type_id == 0x00
    then standard
    else if type_id == 0x03
    then intellimouse
    else if type_id == 0x04
    then explorer
    else unknown

pub record Ps2Mouse : Type 0 where
  pub x : ℕ
  pub y : ℕ
  pub buttons : MouseButtons
  pub previous_buttons : MouseButtons
  pub dx_this_frame : ℕ
  pub dy_this_frame : ℕ
  pub packet_state : ℕ
  pub packet_bytes : List ℕ
  pub mouse_type : MouseType

unfoldable pub default_mouse : Ps2Mouse
default_mouse = record {
  x = 0;
  y = 0;
  buttons = released;
  previous_buttons = released;
  dx_this_frame = 0;
  dy_this_frame = 0;
  packet_state = 0;
  packet_bytes = replicate 4 0;
  mouse_type = unknown;
}

pub record MouseClicks : Type 0 where
  pub left : Bool
  pub right : Bool

unfoldable pub set_mouse_type : Ps2Mouse → ℕ → Ps2Mouse
set_mouse_type m type_id = record m { mouse_type = from_type_id type_id }

-- `None` is the early return of an unknown mouse.
unfoldable pub bytes_needed : MouseType → Option ℕ
bytes_needed standard = some 3
bytes_needed explorer = some 4
bytes_needed intellimouse = some 4
bytes_needed unknown = none

-- The packet that the received bytes make up.
unfoldable pub assemble : ℕ → List ℕ → MousePacket
assemble needed bytes =
    from_bytes (get_or bytes 0 0) (get_or bytes 1 0) (get_or bytes 2 0)
      (if needed == 4 then some (get_or bytes 3 0) else none)

unfoldable pub apply_packet : Ps2Mouse → MousePacket → Ps2Mouse
apply_packet m packet = record m {
  x = add_i16 m.x packet.dx;
  y = add_i16 m.y packet.dy;
  dx_this_frame = add_i16 m.dx_this_frame packet.dx;
  dy_this_frame = add_i16 m.dy_this_frame packet.dy;
  previous_buttons = m.buttons;
  buttons = packet.buttons;
}

-- A write at `packet_state` out of range would panic; `IsValid` rules it out.
unfoldable pub receive : ℕ → Ps2Mouse → ℕ → Ps2Mouse × Option MousePacket
receive needed m byte =
    let bytes = set m.packet_bytes m.packet_state byte in
    let state = m.packet_state + 1 in
    let packet = assemble needed bytes in
    let complete : Ps2Mouse = record m { packet_bytes = bytes; packet_state = 0 } in
    if ltb state needed
    then (record m { packet_bytes = bytes; packet_state = state }, none)
    else (apply_packet complete packet, some packet)

unfoldable pub handle_interrupt : Ps2Mouse → ℕ → Ps2Mouse × Option MousePacket
handle_interrupt m byte = elim (bytes_needed m.mouse_type) [
  | none ↦ (m, none)
  | some needed ↦ receive needed m byte
]

unfoldable pub reset_position : Ps2Mouse → Ps2Mouse
reset_position m = record m { x = 0; y = 0 }

unfoldable pub pop_clicks : Ps2Mouse → Ps2Mouse × MouseClicks
pop_clicks m = (
  record m { previous_buttons = m.buttons },
  record {
    left = is_left_down m.buttons && not (is_left_down m.previous_buttons);
    right = is_right_down m.buttons && not (is_right_down m.previous_buttons);
  },
)

unfoldable pub pop_delta : Ps2Mouse → Ps2Mouse × (ℕ × ℕ)
pop_delta m =
    (record m { dx_this_frame = 0; dy_this_frame = 0 }, (m.dx_this_frame, m.dy_this_frame))
