-- ===== src/Ps2/Mouse/Buttons.antt =====
-- What a packet says of the buttons and of the motion.
use minecraft_os.Prelude.{ℕ, ◌*◌, ◌/◌, ◌%◌, ◌<◌, ◌≡◌, not, ◌&&◌, ◌==◌, Option, arith}
use minecraft_os.Prelude.Bits.{bit_and_mask, bit_and_bit}
use minecraft_os.Prelude.Int.{sub_ℕ, signed16}
use minecraft_os.Ps2.Mouse.{from_state_byte, is_left_down, is_right_down, from_bytes}

-- A button counts as down exactly where its bit is set and not all three buttons are pressed: with
-- all three pressed neither the left nor the right button counts as down.
pub button_tests :
    (b : ℕ)
    → (is_left_down (from_state_byte b) ≡ (b % 2 == 1) && not (b % 8 == 7))
      × (is_right_down (from_state_byte b) ≡ (b / 2 % 2 == 1) && not (b % 8 == 7))
unfolding from_state_byte is_left_down is_right_down
button_tests b = (ground (arith, bit_and_mask 3 b), ground (arith, bit_and_mask 3 b))

-- The motion is a nine-bit two's complement number with its sign in the state byte; y is negated,
-- so that down is positive.
pub motion :
    (state x y : ℕ) (byte_4 : Option ℕ)
    → x < 256
    → y < 256
    → let p = from_bytes state x y byte_4 in
      (signed16 p.dx ≡ sub_ℕ x (256 * (state / 16 % 2)))
      × (signed16 p.dy ≡ sub_ℕ (256 * (state / 32 % 2)) y)
unfolding from_bytes
motion state x y byte_4 hx hy =
    (ground (arith, bit_and_bit 4 state), ground (arith, bit_and_bit 5 state))
