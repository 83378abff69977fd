-- ===== src/Pci/Bars.antt =====
-- Base addresses.
use minecraft_os.Prelude.{ℕ, ◌+◌, ◌-◌, ◌*◌, ◌/◌, ◌%◌, ◌^◌, ◌<◌, ◌≡◌, ◌⊎◌, arith}
use minecraft_os.Prelude.{bit_and, get_or}
use minecraft_os.Prelude.Bits.{bit_and_mask, bit_and_digit, bit_or_sum_low}
use minecraft_os.Pci.{PciDevice, read_bar_address}

clear_four : (bar : ℕ) → bar < 2 ^ 32 → bit_and bar (2 ^ 32 - 1 - 0xf) ≡ bar / 16 * 16
clear_four bar h = omega (
  arith,
  bit_and_digit bar 0xfffffff0,
  bit_and_digit (bar / 2) 0x7ffffff8,
  bit_and_digit (bar / 2 / 2) 0x3ffffffc,
  bit_and_digit (bar / 2 / 2 / 2) 0x1ffffffe,
  bit_and_mask 28 (bar / 2 / 2 / 2 / 2),
)

clear_two : (bar : ℕ) → bar < 2 ^ 32 → bit_and bar (2 ^ 32 - 1 - 0x3) ≡ bar / 4 * 4
clear_two bar h = omega (
  arith,
  bit_and_digit bar 0xfffffffc,
  bit_and_digit (bar / 2) 0x7ffffffe,
  bit_and_mask 30 (bar / 2 / 2),
)

-- A 64-bit memory BAR, encoded as two words with its flags in the low four bits (type 2, and the
-- prefetchable bit), is read as its 16-byte aligned base, for any index below 5.
pub read_bar_address-memory64 :
    (dev : PciDevice) (i base prefetchable : ℕ)
    → base < 2 ^ 64
    → base % 16 ≡ 0
    → prefetchable < 2
    → i < 5
    → get_or dev.bars i 0 ≡ base % 2 ^ 32 + 8 * prefetchable + 4
    → get_or dev.bars (i + 1) 0 ≡ base / 2 ^ 32
    → read_bar_address dev i ≡ base
unfolding read_bar_address
read_bar_address-memory64 dev i base p h a f n e g =
    let bar = get_or dev.bars i 0 in
    let upper = get_or dev.bars (i + 1) 0 in
    let low : bar < 2 ^ 32 = omega arith in
    let field = clear_four bar low in
    ground (
      arith,
      field,
      bit_and_mask 1 bar,
      bit_and_mask 2 (bar / 2),
      bit_or_sum_low 32 upper (bit_and bar (2 ^ 32 - 1 - 0xf)),
    )

-- A 32-bit memory BAR is its base with the low four bits cleared, an I/O BAR with the low two.
pub read_bar_address-word :
    (dev : PciDevice) (i base flags : ℕ)
    → i < 6
    → base < 2 ^ 32
    → get_or dev.bars i 0 ≡ base + flags
    → ((base % 16 ≡ 0) × (flags < 16) × (flags % 2 ≡ 0) × (flags / 2 % 4 ≡ 0))
      ⊎ ((base % 4 ≡ 0) × (flags ≡ 1))
    → read_bar_address dev i ≡ base
unfolding read_bar_address
read_bar_address-word dev i base flags n h e c =
    let bar = get_or dev.bars i 0 in
    let low : bar < 2 ^ 32 = ground arith in
    ground
      (arith, clear_four bar low, clear_two bar low, bit_and_mask 1 bar, bit_and_mask 2 (bar / 2))
