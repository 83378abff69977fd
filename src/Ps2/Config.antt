-- ===== src/Ps2/Config.antt =====
-- The configuration byte of kernel/src/ps2/mod.rs: `Ps2Config` and the macros that define its bits.
pub mod Settings
use package.minecraft_os.Prelude.{
  ℕ, ◌-◌, Bool, true, false, not, ◌&&◌, ◌==◌, if◌then◌else◌, bit_and, bit_or,
}

-- `Ps2Config(u8)`
abbrev pub Ps2Config : Type 0
Ps2Config = ℕ

-- `bit_field!` and `bit_field_readonly!`
unfoldable pub get_bit : ℕ → Ps2Config → Bool
get_bit bit config = not (bit_and config bit == 0)

unfoldable pub set_bit : ℕ → Ps2Config → Bool → Ps2Config
set_bit bit config enabled = if enabled then bit_or config bit else bit_and config (255 - bit)

-- `bit_field_inverted!`
unfoldable pub get_inverted : ℕ → Ps2Config → Bool
get_inverted bit config = bit_and config bit == 0

unfoldable pub set_inverted : ℕ → Ps2Config → Bool → Ps2Config
set_inverted bit config enabled = if enabled then bit_and config (255 - bit) else bit_or config bit

abbrev pub irq1_enabled : Ps2Config → Bool
irq1_enabled c = get_bit 0b00000001 c

abbrev pub set_irq1 : Ps2Config → Bool → Ps2Config
set_irq1 c enabled = set_bit 0b00000001 c enabled

abbrev pub irq12_enabled : Ps2Config → Bool
irq12_enabled c = get_bit 0b00000010 c

abbrev pub set_irq12 : Ps2Config → Bool → Ps2Config
set_irq12 c enabled = set_bit 0b00000010 c enabled

abbrev pub system_flag : Ps2Config → Bool
system_flag c = get_bit 0b00000100 c

abbrev pub reserved_bit3 : Ps2Config → Bool
reserved_bit3 c = get_bit 0b00001000 c

abbrev pub first_port_clock_enabled : Ps2Config → Bool
first_port_clock_enabled c = get_inverted 0b00010000 c

abbrev pub set_first_port_clock : Ps2Config → Bool → Ps2Config
set_first_port_clock c enabled = set_inverted 0b00010000 c enabled

abbrev pub second_port_clock_enabled : Ps2Config → Bool
second_port_clock_enabled c = get_inverted 0b00100000 c

abbrev pub set_second_port_clock : Ps2Config → Bool → Ps2Config
set_second_port_clock c enabled = set_inverted 0b00100000 c enabled

abbrev pub translation_enabled : Ps2Config → Bool
translation_enabled c = get_bit 0b01000000 c

abbrev pub set_translation : Ps2Config → Bool → Ps2Config
set_translation c enabled = set_bit 0b01000000 c enabled

abbrev pub reserved_bit7 : Ps2Config → Bool
reserved_bit7 c = get_bit 0b10000000 c

unfoldable pub validate : Ps2Config → Bool
validate c = system_flag c && not (reserved_bit3 c) && not (reserved_bit7 c)
