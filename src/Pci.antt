-- ===== src/Pci.antt =====
-- The PCI configuration space of kernel/src/pci.rs. What the data port returns at each address is a
-- function; a write through the two ports is a `Write`.
pub mod Words
pub mod Addresses
pub mod Bars
pub mod Scan
mod Tests
use package.minecraft_os.Prelude.{
  ℕ, zero, suc, ◌+◌, ◌-◌, ◌*◌, ◌/◌, ◌%◌, ◌^◌, ◌≤◌, ◌<◌, Bool, true, false, not, ◌&&◌, ◌||◌,
}
use package.minecraft_os.Prelude.{
  Option, none, some, List, [], ◌∷◌, ◌++◌, bit_and, bit_or, ltb, leb, ◌==◌, if◌then◌else◌, get_or,
  replicate,
}
use package.minecraft_os.Prelude.Ranges.{pushed}

-- `config_address`, a `u32`; the other arguments are `u8`.
unfoldable pub config_address : ℕ → ℕ → ℕ → ℕ → ℕ
config_address bus device function offset =
    bit_or (bit_or (bit_or (bit_or (2 ^ 31) (bus * 2 ^ 16)) (device * 2 ^ 11)) (function * 2 ^ 8))
      (bit_and offset 0xfc)

-- The 32-bit word behind the data port, for each value of the address port.
abbrev pub Space : Type 0
Space = ℕ → ℕ

pub data Write : Type 0 where
  write_u32 : ℕ → ℕ → Write

unfoldable pub pci_read_u32 : Space → ℕ → ℕ → ℕ → ℕ → ℕ
pci_read_u32 space bus device function offset = space (config_address bus device function offset)

-- `((val >> ((offset & 2) * 8)) & 0xFFFF) as u16`, and the same for a byte.
unfoldable pub u16_of : ℕ → ℕ → ℕ
u16_of val offset = bit_and (val / 2 ^ (bit_and offset 2 * 8)) 0xffff

unfoldable pub u8_of : ℕ → ℕ → ℕ
u8_of val offset = bit_and (val / 2 ^ (bit_and offset 3 * 8)) 0xff

unfoldable pub pci_read_u16 : Space → ℕ → ℕ → ℕ → ℕ → ℕ
pci_read_u16 space bus device function offset =
    u16_of (pci_read_u32 space bus device function (bit_and offset 0xfc)) offset

unfoldable pub pci_read_u8 : Space → ℕ → ℕ → ℕ → ℕ → ℕ
pci_read_u8 space bus device function offset =
    u8_of (pci_read_u32 space bus device function (bit_and offset 0xfc)) offset

unfoldable pub pci_write_u32 : ℕ → ℕ → ℕ → ℕ → ℕ → Write
pci_write_u32 bus device function offset value =
    write_u32 (config_address bus device function offset) value

-- `(current & mask) | ((value as u32) << shift)`
unfoldable pub with_u16 : ℕ → ℕ → ℕ → ℕ
with_u16 current offset value =
    let shift = bit_and offset 2 * 8 in
    let mask = 2 ^ 32 - 1 - 0xffff * 2 ^ shift in bit_or (bit_and current mask) (value * 2 ^ shift)

unfoldable pub with_u8 : ℕ → ℕ → ℕ → ℕ
with_u8 current offset value =
    let shift = bit_and offset 3 * 8 in
    let mask = 2 ^ 32 - 1 - 0xff * 2 ^ shift in bit_or (bit_and current mask) (value * 2 ^ shift)

unfoldable pub pci_write_u16 : Space → ℕ → ℕ → ℕ → ℕ → ℕ → Write
pci_write_u16 space bus device function offset value =
    let current = pci_read_u32 space bus device function (bit_and offset 0xfc) in
    pci_write_u32 bus device function (bit_and offset 0xfc) (with_u16 current offset value)

unfoldable pub pci_write_u8 : Space → ℕ → ℕ → ℕ → ℕ → ℕ → Write
pci_write_u8 space bus device function offset value =
    let current = pci_read_u32 space bus device function (bit_and offset 0xfc) in
    pci_write_u32 bus device function (bit_and offset 0xfc) (with_u8 current offset value)

pub record PciDevice : Type 0 where
  pub bus : ℕ
  pub device : ℕ
  pub function : ℕ
  pub vendor_id : ℕ
  pub device_id : ℕ
  pub class : ℕ
  pub subclass : ℕ
  pub prog_if : ℕ
  pub header_type : ℕ
  pub bars : List ℕ
  pub interrupt_line : ℕ
  pub interrupt_pin : ℕ

-- The loop over `bars[..bar_count]`, from bar `i` on.
unfoldable pub read_bars : Space → ℕ → ℕ → ℕ → ℕ → ℕ → List ℕ
read_bars space bus device function i zero = []
read_bars space bus device function i (suc bars) =
    pci_read_u32 space bus device function (0x10 + i * 4)
    ∷ read_bars space bus device function (i + 1) bars

unfoldable pub read_device : Space → ℕ → ℕ → ℕ → Option PciDevice
read_device space bus device function =
    let vendor_id = pci_read_u16 space bus device function 0x00 in
    let header_type = pci_read_u8 space bus device function 0x0e in
    let bar_count = if bit_and header_type 0x7f == 0 then 6 else 2 in
    if vendor_id == 0xffff
    then none
    else some record {
      bus = bus;
      device = device;
      function = function;
      vendor_id = vendor_id;
      device_id = pci_read_u16 space bus device function 0x02;
      class = pci_read_u8 space bus device function 0x0b;
      subclass = pci_read_u8 space bus device function 0x0a;
      prog_if = pci_read_u8 space bus device function 0x09;
      header_type = header_type;
      bars = read_bars space bus device function 0 bar_count ++ replicate (6 - bar_count) 0;
      interrupt_line = pci_read_u8 space bus device function 0x3c;
      interrupt_pin = pci_read_u8 space bus device function 0x3d;
    }

unfoldable pub scan_function : Space → ℕ → ℕ → ℕ → List PciDevice
scan_function space bus device function = elim (read_device space bus device function) [
  | some dev ↦ dev ∷ []
  | none ↦ []
]

unfoldable pub is_multifunction : PciDevice → Bool
is_multifunction dev = not (bit_and dev.header_type 0x80 == 0)

unfoldable pub scan_device : Space → ℕ → ℕ → List PciDevice
scan_device space bus device = elim (read_device space bus device 0) [
  | none ↦ []
  | some dev ↦
      dev ∷ (if is_multifunction dev then pushed (scan_function space bus device) 1 7 else [])
]

unfoldable pub scan_all : Space → List PciDevice
scan_all space = pushed (λ bus. pushed (λ device. scan_device space bus device) 0 32) 0 256

unfoldable pub find_by_class : List PciDevice → ℕ → ℕ → List PciDevice
find_by_class [] class subclass = []
find_by_class (d ∷ devices) class subclass =
    let rest = find_by_class devices class subclass in
    if d.class == class && d.subclass == subclass then d ∷ rest else rest

-- `bar & !0x3` and `bar & !0xF` on a `u32`.
unfoldable pub read_bar_address : PciDevice → ℕ → ℕ
read_bar_address dev bar_index =
    let bar = get_or dev.bars bar_index 0 in
    let bar_type = bit_and (bar / 2) 0x3 in
    let base = bit_and bar (2 ^ 32 - 1 - 0xf) in
    let upper = get_or dev.bars (bar_index + 1) 0 in
    if leb 6 bar_index
    then 0
    else if not (bit_and bar 1 == 0)
    then bit_and bar (2 ^ 32 - 1 - 0x3)
    else if bar_type == 2 && ltb bar_index 5
    then bit_or base (upper * 2 ^ 32)
    else base

unfoldable pub enable_bus_mastering : Space → PciDevice → List Write
enable_bus_mastering space dev =
    let cmd = pci_read_u16 space dev.bus dev.device dev.function 0x04 in
    if bit_and cmd (2 ^ 2) == 0
    then pci_write_u16 space dev.bus dev.device dev.function 0x04 (bit_or cmd (2 ^ 2)) ∷ []
    else []
