-- ===== src/Ps2/Keyboard/States.antt =====
-- The set of pressed keys.
use minecraft_os.Prelude.{
  ℕ, zero, suc, ◌-◌, ◌*◌, ◌/◌, ◌%◌, ◌^◌, ◌<◌, ◌≤◌, ◌≡◌, ◌≢◌, refl, sym, ap, ◌∙◌,
}
use minecraft_os.Prelude.{
  ◌==◌, if◌then◌else◌, bit_and, min, Bool, true, false, not, arith, inl, inr, ◌⊎◌,
}
use minecraft_os.Prelude.Bits.{
  bit, bit-eq, bit_and_bit, bit-bit_or, bit-bit_and, bit-pow_self, bit-pow_ne, bit_complement,
  bit_le_one,
}
use minecraft_os.Ps2.Keyboard.{update_state, is_pressed}
use native.Mathlib.Nat.{mod-eq_of_lt, pow-suc, one-le-pow}

pow_lt : (k w : ℕ) → k < w → 2 ^ k < 2 ^ w
pow_lt k zero h = absurd (omega arith)
pow_lt zero (suc w) h = omega (arith, pow-suc 2 w, one-le-pow w 2)
pow_lt (suc k) (suc w) h = omega (arith, pow-suc 2 w, pow-suc 2 k, pow_lt k w (omega arith))

mask_of : (k : ℕ) → k < 128 → 2 ^ k % 2 ^ 128 ≡ 2 ^ k
mask_of k h = mod-eq_of_lt (pow_lt k 128 h)

positive_test : (d p : ℕ) → d < 2 → 1 ≤ p → not (d * p == 0) ≡ (d == 1)
positive_test zero p h k = ground arith
positive_test (suc zero) p h k = ground arith
positive_test (suc (suc d)) p h k = absurd (omega arith)

is_pressed-bit : (s k : ℕ) → k < 128 → is_pressed s k ≡ (bit k s == 1)
unfolding is_pressed
is_pressed-bit s k h =
    ap (λ (t : ℕ). not (bit_and s t == 0)) (mask_of k h)
    ∙ ap (λ (t : ℕ). not (t == 0)) (bit_and_bit k s)
    ∙ positive_test (s / 2 ^ k % 2) (2 ^ k) (omega arith) (one-le-pow k 2 (omega arith))
    ∙ ap (λ (t : ℕ). t == 1) (sym (bit-eq k s))

bit_released :
    (s k i : ℕ)
    → k < 128
    → i < 128
    → bit i (bit_and s (2 ^ 128 - 1 - 2 ^ k)) ≡ min (bit i s) (1 - bit i (2 ^ k))
bit_released s k i h g =
    bit-bit_and i s (2 ^ 128 - 1 - 2 ^ k)
    ∙ ap (λ (t : ℕ). min (bit i s) t) (bit_complement i 128 (2 ^ k) g (pow_lt k 128 h))

bit-update_state_self :
    (s k : ℕ) (d : Bool) → k < 128 → bit k (update_state s k d) ≡ (if d then 1 else 0)
unfolding update_state
bit-update_state_self s k true h =
    rw (mask_of k h, bit-bit_or k s (2 ^ k), bit-pow_self k) (omega (arith, bit_le_one k s))
bit-update_state_self s k false h =
    rw (mask_of k h, bit_released s k k h h, bit-pow_self k) (omega arith)

bit-update_state_ne :
    (s k i : ℕ) (d : Bool) → k < 128 → i < 128 → i ≢ k → bit i (update_state s k d) ≡ bit i s
unfolding update_state
bit-update_state_ne s k i true h g n =
    rw (mask_of k h, bit-bit_or i s (2 ^ k), bit-pow_ne i k n) (omega arith)
bit-update_state_ne s k i false h g n =
    rw (mask_of k h, bit_released s k i h g, bit-pow_ne i k n) (omega (arith, bit_le_one i s))

same_key : (i k : ℕ) → (i ≡ k) ⊎ (i ≢ k)
same_key i k = ground arith

down_test : (d : Bool) → ((if d then 1 else 0) == 1) ≡ d
down_test true = refl
down_test false = refl

self_test : (k : ℕ) (d b : Bool) → (if k == k then d else b) ≡ d
self_test k d b = ground arith

other_test : (i k : ℕ) (d b : Bool) → i ≢ k → (if i == k then d else b) ≡ b
other_test i k d b n = ground arith

-- After a key event with a code below 128, the key of the event is pressed exactly when it went
-- down, and every other key with a code below 128 is as it was.
pub is_pressed-update_state :
    (s k i : ℕ) (d : Bool)
    → k < 128
    → i < 128
    → is_pressed (update_state s k d) i ≡ (if i == k then d else is_pressed s i)
is_pressed-update_state s k i d h g =
    is_pressed-bit (update_state s k d) i g ∙ elim (same_key i k) [
      | inl e ↦ rw e (
          ap (λ (t : ℕ). t == 1) (bit-update_state_self s k d h)
          ∙ down_test d
          ∙ sym (self_test k d (is_pressed s k)))
      | inr n ↦
          ap (λ (t : ℕ). t == 1) (bit-update_state_ne s k i d h g n)
          ∙ sym (is_pressed-bit s i g)
          ∙ sym (other_test i k d (is_pressed s i) n)
    ]
