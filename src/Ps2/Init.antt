-- ===== src/Ps2/Init.antt =====
-- The initialisation of the PS/2 controller, keyboard and mouse: kernel/src/ps2/mod.rs.
pub mod Sequence
pub mod Bits
mod Tests
use package.minecraft_os.Prelude.{
  ℕ, Bool, true, false, not, ◌&&◌, ◌||◌, Option, none, some, ◌+◌, ◌==◌, if◌then◌else◌,
}
use package.minecraft_os.Ps2.Mouse.{set_mouse_type}
use package.minecraft_os.Ps2.Keyboard.{KeyboardType, from_identify_bytes}
use package.minecraft_os.Ps2.Config.{
  Ps2Config, irq12_enabled, set_irq1, set_irq12, set_first_port_clock, set_second_port_clock,
  set_translation,
}
use package.minecraft_os.Ps2.Controller.{
  Bus, Io, ◌>>=◌, ◌>>◌, return, Done, send_command, write_data, read_data, read_with_timeout,
  flush_buffer, read_config, write_config, send_keyboard_command, send_mouse_command, log_ack,
}

-- Whether to go on: a keyboard answered the reset as it should.
abbrev pub check_reset : Option ℕ → Io Bool
check_reset none = return false
check_reset (some b1) = do
  b2 ← read_data
  return (b1 == 0xFA && b2 == 0xAA || b1 == 0xAA && b2 == 0xFA)

unfoldable pub reset_keyboard : Io Bool
reset_keyboard = do write_data 0xFF; b1 ← read_with_timeout; check_reset b1

abbrev pub and_then : Option ℕ → Io (Option ℕ)
and_then none = return none
and_then (some b1) = read_with_timeout

-- The type is only logged.
unfoldable pub identify_keyboard : Io KeyboardType
identify_keyboard = do
  send_keyboard_command 0xF5
  log_ack
  send_keyboard_command 0xF2
  log_ack
  b1 ← read_with_timeout
  b2 ← and_then b1
  return (from_identify_bytes b1 b2)

pub data ScancodeSet : Type 0 where
  set1 set2 set3 unknown : ScancodeSet

unfoldable pub scancode_set : Option ℕ → ScancodeSet
scancode_set none = unknown
scancode_set (some id) =
    if id == 0x43 || id == 0x01
    then set1
    else if id == 0x41 || id == 0x02
    then set2
    else if id == 0x3F || id == 0x03
    then set3
    else unknown

-- Set 2 is chosen and read back; the result is dropped.
unfoldable pub set_scancode : Io ScancodeSet
set_scancode = do
  send_keyboard_command 0xF0
  log_ack
  write_data 0x02
  log_ack
  send_keyboard_command 0xF0
  log_ack
  write_data 0x00
  log_ack
  id ← read_with_timeout
  return (scancode_set id)

-- `*PS2_KEYBOARD.lock() = Ps2Keyboard::default()`
abbrev pub reset_state : Io Done
reset_state bus = some (tt, record bus { keyboard_resets = bus.keyboard_resets + 1 })

abbrev pub finish_keyboard : Bool → Io Done
finish_keyboard false = return tt
finish_keyboard true = do
  identify_keyboard
  set_scancode
  reset_state
  send_keyboard_command 0xF4
  log_ack
  return tt

unfoldable pub init_keyboard : Io Done
init_keyboard = do valid ← reset_keyboard; finish_keyboard valid

-- `PS2_MOUSE.lock().set_mouse_type(id)`, if an id came.
abbrev pub store_type : Option ℕ → Io Done
store_type none bus = return tt bus
store_type (some id) bus = some (tt, record bus { mouse = set_mouse_type bus.mouse id })

unfoldable pub set_up_mouse : Io Done
set_up_mouse = do
  device_id ← read_with_timeout
  store_type device_id
  send_mouse_command 0xF6
  log_ack
  send_mouse_command 0xF2
  log_ack
  mouse_id ← read_with_timeout
  store_type mouse_id
  send_mouse_command 0xF4
  log_ack
  return tt

abbrev pub finish_mouse : Option ℕ → Io Done
finish_mouse none = return tt
finish_mouse (some reset_result) = if reset_result == 0xAA then set_up_mouse else return tt

-- An acknowledgement other than 0xFA is only logged.
abbrev pub after_ack : Option ℕ → Io Done
after_ack none = return tt
after_ack (some ack) = do reset_result ← read_with_timeout; finish_mouse reset_result

unfoldable pub init_mouse : Io Done
init_mouse = do send_mouse_command 0xFF; ack ← read_with_timeout; after_ack ack

-- Step 5, the configuration while the devices are set up.
abbrev pub quiet : Ps2Config → Ps2Config
quiet config = set_first_port_clock (set_translation (set_irq1 config false) false) true

-- Step 7: on a controller with two channels the second port is quiet too.
abbrev pub quiet_second : Bool → Ps2Config → Ps2Config
quiet_second is_dual_channel config =
    if is_dual_channel then set_second_port_clock (set_irq12 config false) true else config

abbrev pub write_if : Bool → Ps2Config → Io Done
write_if true config = write_config config
write_if false config = return tt

abbrev pub test_second : Bool → Io Bool
test_second false = return false
test_second true = do send_command 0xA9; port2_test ← read_data; return (port2_test == 0x00)

-- Step 9: the interrupts of the ports that work.
abbrev pub enable : Bool → Bool → Ps2Config → Ps2Config
enable port1_works port2_works config =
    let first = if port1_works then set_irq1 config true else config in
    if port2_works then set_second_port_clock (set_irq12 first true) true else first

abbrev pub command_if : Bool → ℕ → Io Done
command_if true cmd = send_command cmd
command_if false cmd = return tt

pub record Ports : Type 0 where
  pub config : Ps2Config
  pub port1_works : Bool
  pub port2_works : Bool

-- Step 9.
unfoldable pub enable_ports : Bool → Bool → Ps2Config → Io Ports
enable_ports port1_works port2_works config = do
  command_if port1_works 0xAE
  command_if port2_works 0xA8
  let enabled = enable port1_works port2_works config
  write_config enabled
  return (record { config = enabled; port1_works = port1_works; port2_works = port2_works })

-- The rest of step 7, and step 8.
unfoldable pub test_ports : Bool → Ps2Config → Io Ports
test_ports is_dual_channel config = do
  let second = quiet_second is_dual_channel config
  write_if is_dual_channel second
  send_command 0xAB
  port1_test ← read_data
  port2_works ← test_second is_dual_channel
  enable_ports (port1_test == 0x00) port2_works second

-- Steps 5 to 9.
unfoldable pub settle : Io Ports
settle = do
  firmware ← read_config
  let config = quiet firmware
  write_config config
  send_command 0xAA
  self_test_res ← read_data
  write_config config
  send_command 0xA8
  let is_dual_channel = irq12_enabled config
  send_command 0xA7
  test_ports is_dual_channel config

-- Steps 3 to 9.
unfoldable pub configure : Io Ports
configure = do send_command 0xAD; send_command 0xA7; flush_buffer; settle

abbrev pub when : Bool → Io Done → Io Done
when true m = m
when false m = return tt

-- The configuration that is read back at the end is only logged.
unfoldable pub init : Io ℕ
init = do
  ports ← configure
  when ports.port1_works init_keyboard
  when ports.port2_works init_mouse
  write_config (set_translation ports.config true)
  read_config
