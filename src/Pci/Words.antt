-- ===== src/Pci/Words.antt =====
-- The halves and bytes of a configuration word.
use minecraft_os.Prelude.{
  ℕ, ◌+◌, ◌*◌, ◌/◌, ◌%◌, ◌^◌, ◌<◌, ◌≡◌, ◌≢◌, ◌⊎◌, inl, inr, refl, sym, ◌∙◌, arith,
}
use minecraft_os.Prelude.{bit_and}
use minecraft_os.Prelude.Bits.{bit_and_mask, bit_and_bit}
use minecraft_os.Prelude.Fields.{replace_field}
use minecraft_os.Pci.{u16_of, u8_of, with_u16, with_u8}

u16_of-div : (val offset : ℕ) → u16_of val offset ≡ val / 2 ^ (bit_and offset 2 * 8) % 2 ^ 16
unfolding u16_of
u16_of-div val offset = bit_and_mask 16 (val / 2 ^ (bit_and offset 2 * 8))

u8_of-div : (val offset : ℕ) → u8_of val offset ≡ val / 2 ^ (bit_and offset 3 * 8) % 2 ^ 8
unfolding u8_of
u8_of-div val offset = bit_and_mask 8 (val / 2 ^ (bit_and offset 3 * 8))

halves : (offset : ℕ) → (bit_and offset 2 ≡ 0) ⊎ (bit_and offset 2 ≡ 2)
halves offset = ground (arith, bit_and_bit 1 offset)

-- The field of `w` bits at `s` is replaced.
abbrev replaced : ℕ → ℕ → ℕ → ℕ → ℕ
replaced w s current value = (current / 2 ^ s / 2 ^ w * 2 ^ w + value) * 2 ^ s + current % 2 ^ s

pub with_u16-replaced :
    (current offset value : ℕ)
    → current < 2 ^ 32
    → value < 2 ^ 16
    → with_u16 current offset value ≡ replaced 16 (bit_and offset 2 * 8) current value
unfolding with_u16
with_u16-replaced current offset value h v = elim (halves offset) [
  | inl e ↦
      rw (with_u16, e)
        (replace_field 16 16 0 current 0xffff0000 (current / 2 ^ 16) (current % 2 ^ 16) 0 value
            (omega arith) refl (omega arith) (omega arith) (omega arith) v
          ∙ omega arith)
  | inr e ↦
      rw (with_u16, e)
        (replace_field 0 16 16 current 0xffff 0 (current / 2 ^ 16) (current % 2 ^ 16) value
            (omega arith) refl (omega arith) (omega arith) (omega arith) v
          ∙ omega arith)
]

quarters :
    (offset : ℕ)
    → (bit_and offset 3 ≡ 0)
      ⊎ ((bit_and offset 3 ≡ 1) ⊎ ((bit_and offset 3 ≡ 2) ⊎ (bit_and offset 3 ≡ 3)))
quarters offset = ground (arith, bit_and_mask 2 offset)

with_u8-replaced :
    (current offset value : ℕ)
    → current < 2 ^ 32
    → value < 2 ^ 8
    → with_u8 current offset value ≡ replaced 8 (bit_and offset 3 * 8) current value
unfolding with_u8
with_u8-replaced current offset value h v = elim (quarters offset) [
  | inl e ↦
      rw (with_u8, e)
        (replace_field 24 8 0 current 0xffffff00 (current / 2 ^ 8) (current % 2 ^ 8) 0 value
            (omega arith) refl (omega arith) (omega arith) (omega arith) v
          ∙ omega arith)
  | inr (inl e) ↦
      rw (with_u8, e)
        (replace_field 16 8 8 current 0xffff00ff (current / 2 ^ 16) (current / 2 ^ 8 % 2 ^ 8)
            (current % 2 ^ 8) value (omega arith) refl (omega arith) (omega arith) (omega arith) v
          ∙ omega arith)
  | inr (inr (inl e)) ↦
      rw (with_u8, e)
        (replace_field 8 8 16 current 0xff00ffff (current / 2 ^ 24) (current / 2 ^ 16 % 2 ^ 8)
            (current % 2 ^ 16) value (omega arith) refl (omega arith) (omega arith) (omega arith) v
          ∙ omega arith)
  | inr (inr (inr e)) ↦
      rw (with_u8, e)
        (replace_field 0 8 24 current 0xffffff 0 (current / 2 ^ 24) (current % 2 ^ 24) value
            (omega arith) refl (omega arith) (omega arith) (omega arith) v
          ∙ omega arith)
]

-- A 16-bit write into a word changes just the half at its offset: reading that half gives the value,
-- and the half at any offset in the other half is as it was.
pub with_u16_lem :
    (current offset other value : ℕ)
    → current < 2 ^ 32
    → value < 2 ^ 16
    → bit_and other 2 ≢ bit_and offset 2
    → (u16_of (with_u16 current offset value) offset ≡ value)
      × (u16_of (with_u16 current offset value) other ≡ u16_of current other)
with_u16_lem current offset other value h v n =
    let w = with_u16-replaced current offset value h v in
    let a = u16_of-div (with_u16 current offset value) offset in
    let b = u16_of-div (with_u16 current offset value) other in
    let c = u16_of-div current other in
    elim (halves offset) [
      | inl e ↦ elim (halves other) [
        | inl f ↦ absurd (n (f ∙ sym e))
        | inr f ↦ (a ∙ rw (w, e) (omega arith), b ∙ rw (w, e, f) (omega arith) ∙ sym c)
      ]
      | inr e ↦ elim (halves other) [
        | inl f ↦ (a ∙ rw (w, e) (omega arith), b ∙ rw (w, e, f) (omega arith) ∙ sym c)
        | inr f ↦ absurd (n (f ∙ sym e))
      ]
    ]
