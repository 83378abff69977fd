-- ===== src/Pci/Addresses.antt =====
-- The address that selects a configuration word, and the command register.
use minecraft_os.Prelude.{
  ℕ, ◌+◌, ◌*◌, ◌/◌, ◌%◌, ◌^◌, ◌<◌, ◌≡◌, inl, inr, refl, ap, ◌∙◌, arith, false,
}
use minecraft_os.Prelude.{bit_and, bit_or, List, [], ◌∷◌, ◌==◌, if◌then◌else◌, Bool-cases}
use minecraft_os.Prelude.Bits.{
  bit_and_mask, bit_and_bit, bit_and_digit, bit_or_sum, bit_or_digit, bit_or-zero,
}
use mathlib.Core.Path.{subst}
use minecraft_os.Pci.{
  config_address, Space, Write, write_u32, PciDevice, enable_bus_mastering, pci_read_u16,
  pci_write_u16, pci_write_u32, pci_read_u32, u16_of, with_u16,
}
use minecraft_os.Pci.Words.{with_u16-replaced}

aligned : (offset : ℕ) → offset < 256 → bit_and offset 0xfc ≡ offset / 4 * 4
aligned offset h = omega (
  arith,
  bit_and_digit offset 0xfc,
  bit_and_digit (offset / 2) 0x7e,
  bit_and_mask 6 (offset / 2 / 2),
)

config_address-sum :
    (bus device function offset : ℕ)
    → bus < 256
    → device < 32
    → function < 8
    → offset < 256
    → config_address bus device function offset
      ≡ 2 ^ 31 + bus * 2 ^ 16 + device * 2 ^ 11 + function * 2 ^ 8 + offset / 4 * 4
unfolding config_address
config_address-sum bus device function offset b d f o =
    let e1 : bit_or (2 ^ 31) (bus * 2 ^ 16) ≡ (2 ^ 15 + bus) * 2 ^ 16 =
      bit_or_sum 31 1 (bus * 2 ^ 16) (omega arith) ∙ omega arith in
    let e2 : bit_or ((2 ^ 15 + bus) * 2 ^ 16) (device * 2 ^ 11)
        ≡ ((2 ^ 15 + bus) * 2 ^ 5 + device) * 2 ^ 11 =
      bit_or_sum 16 (2 ^ 15 + bus) (device * 2 ^ 11) (omega arith) ∙ omega arith in
    let e3 : bit_or (((2 ^ 15 + bus) * 2 ^ 5 + device) * 2 ^ 11) (function * 2 ^ 8)
        ≡ (((2 ^ 15 + bus) * 2 ^ 5 + device) * 2 ^ 3 + function) * 2 ^ 8 =
      bit_or_sum 11 ((2 ^ 15 + bus) * 2 ^ 5 + device) (function * 2 ^ 8) (omega arith)
      ∙ omega arith in
    rw (config_address, e1, e2, e3, aligned offset o)
      (bit_or_sum 8 (((2 ^ 15 + bus) * 2 ^ 5 + device) * 2 ^ 3 + function) (offset / 4 * 4)
          (omega arith)
        ∙ omega arith)

-- The address has its enable bit set and holds bus, device, function and the offset rounded down to
-- a multiple of 4, each in its field; so two words that differ in any of these have two addresses.
pub config_address_fields :
    (bus device function offset : ℕ)
    → bus < 256
    → device < 32
    → function < 8
    → offset < 256
    → let a = config_address bus device function offset in
      (a / 2 ^ 24 ≡ 0x80)
      × (a / 2 ^ 16 % 2 ^ 8 ≡ bus)
      × (a / 2 ^ 11 % 2 ^ 5 ≡ device)
      × (a / 2 ^ 8 % 2 ^ 3 ≡ function)
      × (a % 2 ^ 8 ≡ offset / 4 * 4)
config_address_fields bus device function offset b d f o =
    let e = config_address-sum bus device function offset b d f o in
    (omega (arith, e), omega (arith, e), omega (arith, e), omega (arith, e), omega (arith, e))

set_bit_2 : (cmd : ℕ) → bit_or cmd 4 ≡ cmd / 8 * 8 + 4 + cmd % 4
set_bit_2 cmd = omega (
  arith,
  bit_or_digit cmd 4,
  bit_or_digit (cmd / 2) 2,
  bit_or_digit (cmd / 2 / 2) 1,
  bit_or-zero (cmd / 2 / 2 / 2),
)

set_bit_2-lt : (cmd : ℕ) → cmd < 2 ^ 16 → bit_or cmd 4 < 2 ^ 16
set_bit_2-lt cmd h = omega (arith, set_bit_2 cmd)

set_bit_2-set : (cmd : ℕ) → (bit_and cmd (2 ^ 2) == 0) ≡ false → bit_or cmd 4 ≡ cmd
set_bit_2-set cmd h = ground (arith, set_bit_2 cmd, bit_and_bit 2 cmd)

u16_of-lt : (word offset : ℕ) → u16_of word offset < 2 ^ 16
unfolding u16_of
u16_of-lt word offset = omega (arith, bit_and_mask 16 (word / 2 ^ (bit_and offset 2 * 8)))

low_half : (word : ℕ) → u16_of word 0x04 ≡ word % 2 ^ 16
unfolding u16_of
low_half word = omega (arith, bit_and_mask 16 (word / 2 ^ (bit_and 0x04 2 * 8)))

-- What the configuration space holds after writes, each of them at its own address.
abbrev pub space_after : Space → List Write → Space
space_after space [] = space
space_after space (write_u32 address value ∷ writes) =
    space_after (λ a. if a == address then value else space a) writes

-- The low half of a word with its bit 2 set, and the high half as it was.
abbrev pub with_bit_2 : ℕ → ℕ
with_bit_2 word = word / 2 ^ 16 * 2 ^ 16 + bit_or (word % 2 ^ 16) 4

with_u16-command :
    (word : ℕ) → word < 2 ^ 32 → with_u16 word 0x04 (bit_or (u16_of word 0x04) 4) ≡ with_bit_2 word
with_u16-command word h = rw (low_half word) (
    with_u16-replaced word 0x04 (bit_or (word % 2 ^ 16) 4) h
      (set_bit_2-lt (word % 2 ^ 16) (omega arith))
    ∙ omega arith)

with_bit_2-set :
    (word : ℕ) → (bit_and (u16_of word 0x04) (2 ^ 2) == 0) ≡ false → with_bit_2 word ≡ word
with_bit_2-set word h =
    let same : bit_or (word % 2 ^ 16) 4 ≡ word % 2 ^ 16 =
      subst (λ c. bit_or c 4 ≡ c) (low_half word) (set_bit_2-set (u16_of word 0x04) h) in
    omega (arith, same)

-- A value that is stored where it was changes nothing.
unchanged :
    (space : Space) (address a : ℕ)
    → space address ≡ (if address == a then space a else space address)
unchanged space address a = elim (Bool-cases (address == a)) [
  | inl e ↦ let same : address ≡ a = ground arith in rw e (ap space same)
  | inr e ↦ rw e refl
]

-- Enabling bus mastering for a function with an 8-bit bus, a 5-bit device and a 3-bit number, whose word
-- at offset 4 has 32 bits, changes no word of the configuration space but the one at
-- offset 4 of this function, whose address has the enable bit, the bus, the device, the function and
-- the offset each in its field: there the command register, the low half, has its bit 2 set and every
-- other bit as it was, and the status register, the high half, is written back as it was read.
pub enable_bus_mastering_lem :
    (space : Space) (dev : PciDevice) (address : ℕ)
    → dev.bus < 256
    → dev.device < 32
    → dev.function < 8
    → let command = 2 ^ 31 + dev.bus * 2 ^ 16 + dev.device * 2 ^ 11 + dev.function * 2 ^ 8 + 4 in
      space command < 2 ^ 32
      → space_after space (enable_bus_mastering space dev) address
        ≡ (if address == command then with_bit_2 (space command) else space address)
unfolding enable_bus_mastering pci_read_u16 pci_write_u16 pci_write_u32 pci_read_u32
enable_bus_mastering_lem space dev address b d f h =
    let command = 2 ^ 31 + dev.bus * 2 ^ 16 + dev.device * 2 ^ 11 + dev.function * 2 ^ 8 + 4 in
    let at : config_address dev.bus dev.device dev.function 0x04 ≡ command =
      config_address-sum dev.bus dev.device dev.function 0x04 b d f (omega arith) in
    let word = space command in
    elim (Bool-cases (bit_and (u16_of word 0x04) (2 ^ 2) == 0)) [
      | inl clear ↦ rw (at, clear, with_u16-command word h) refl
      | inr already ↦
          rw (at, already, with_bit_2-set word already) (unchanged space address command)
    ]
