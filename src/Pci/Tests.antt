-- ===== src/Pci/Tests.antt =====
-- A bus with one device of two functions.
use minecraft_os.Prelude.{◌/◌, ◌≡◌, refl, arith, true, some, [], ◌∷◌, ◌==◌, if◌then◌else◌, All}
use mathlib.Core.List.{Mem}
use minecraft_os.Pci.{
  config_address, Space, PciDevice, u16_of, read_device, is_multifunction, scan_all,
  read_bar_address, enable_bus_mastering, pci_read_u32, pci_read_u16, pci_read_u8, read_bars, u8_of,
}
use minecraft_os.Pci.Addresses.{enable_bus_mastering_lem, space_after, with_bit_2}
use minecraft_os.Pci.Bars.{read_bar_address-memory64}
use minecraft_os.Pci.Scan.{further, scan_all-complete, IsFound, scan_all-IsFound}

-- Bus 0, device 2: function 0 is an NVMe controller with several functions, function 3 answers too.
abbrev space : Space
space address =
    if address == config_address 0 2 0 0x00
    then 0x00101b36
    else if address == config_address 0 2 0 0x04
    then 0x00100003
    else if address == config_address 0 2 0 0x08
    then 0x01080202
    else if address == config_address 0 2 0 0x0c
    then 0x00800000
    else if address == config_address 0 2 0 0x10
    then 0xfebf0004
    else if address == config_address 0 2 0 0x14
    then 1
    else if address == config_address 0 2 3 0x00
    then 0x12378086
    else if address / 256 == config_address 0 2 0 0x00 / 256
    then 0
    else if address / 256 == config_address 0 2 3 0x00 / 256
    then 0
    else 0xffffffff

abbrev nvme : PciDevice
nvme = record {
  bus = 0;
  device = 2;
  function = 0;
  vendor_id = 0x1b36;
  device_id = 0x0010;
  class = 1;
  subclass = 8;
  prog_if = 2;
  header_type = 0x80;
  bars = 0xfebf0004 ∷ 1 ∷ 0 ∷ 0 ∷ 0 ∷ 0 ∷ [];
  interrupt_line = 0;
  interrupt_pin = 0;
}

abbrev bridge : PciDevice
bridge = record {
  bus = 0;
  device = 2;
  function = 3;
  vendor_id = 0x8086;
  device_id = 0x1237;
  class = 0;
  subclass = 0;
  prog_if = 0;
  header_type = 0;
  bars = 0 ∷ 0 ∷ 0 ∷ 0 ∷ 0 ∷ 0 ∷ [];
  interrupt_line = 0;
  interrupt_pin = 0;
}

nvme_read : read_device space 0 2 0 ≡ some nvme
unfolding read_device pci_read_u16 pci_read_u8 pci_read_u32 u16_of u8_of read_bars config_address
nvme_read = refl

bridge_read : read_device space 0 2 3 ≡ some bridge
unfolding read_device pci_read_u16 pci_read_u8 pci_read_u32 u16_of u8_of read_bars config_address
bridge_read = refl

nvme_functions : is_multifunction nvme ≡ true
unfolding is_multifunction
nvme_functions = refl

scan_all-complete_example : Mem bridge (scan_all space)
scan_all-complete_example =
    scan_all-complete space 0 2 3 bridge (omega arith) (omega arith)
      (further 3 bridge nvme nvme_read nvme_functions (omega arith) (omega arith) bridge_read)

scan_all-IsFound_example : All (IsFound space) (scan_all space)
scan_all-IsFound_example = scan_all-IsFound space

read_bar_address-memory64_example : read_bar_address nvme 0 ≡ 0x1febf0000
read_bar_address-memory64_example =
    read_bar_address-memory64 nvme 0 0x1febf0000 0 (omega arith) refl (omega arith) (omega arith)
      refl refl

enable_bus_mastering_example :
    space_after space (enable_bus_mastering space nvme) 0x80001004
    ≡ (if 0x80001004 == 0x80001004 then with_bit_2 (space 0x80001004) else space 0x80001004)
unfolding config_address
enable_bus_mastering_example =
    enable_bus_mastering_lem space nvme 0x80001004 (omega arith) (omega arith) (omega arith)
      (omega arith)
