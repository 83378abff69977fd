-- ===== src/Prelude/Fields.antt =====
-- `&` and `|` on words that are two fields side by side, and replacing one field of a word.
use Prim.Native.Nat.{ℕ, zero, suc, ◌+◌, ◌-◌, ◌*◌, ◌/◌, ◌%◌, ◌^◌, ◌<◌}
use Prim.Native.Nat.{bit_and, bit_or}
use mathlib.Core.Path.{◌≡◌, refl, ap, ◌∙◌}
use native.Mathlib.Omega.{arith}
use native.Mathlib.Nat.{pow-suc, one-le-pow, mod-eq_of_lt}
use minecraft_os.Prelude.Bits.{
  bit_and_digit, bit_or_digit, double_pow, bit_and_mask, bit_and-zero, bit_or-zero, bit_or_sum,
}

pub bit_and_fields :
    (s p q l m : ℕ)
    → l < 2 ^ s
    → m < 2 ^ s
    → bit_and (p * 2 ^ s + l) (q * 2 ^ s + m) ≡ bit_and p q * 2 ^ s + bit_and l m
bit_and_fields zero p q l m h k =
    let e : l ≡ 0 = omega arith in
    let f : m ≡ 0 = omega arith in
    let g : p * 1 + 0 ≡ p = omega arith in
    let i : q * 1 + 0 ≡ q = omega arith in rw (e, f, g, i) (omega arith)
bit_and_fields (suc s) p q l m h k =
    let a = p * 2 ^ suc s + l in
    let b = q * 2 ^ suc s + m in
    let e : a / 2 ≡ p * 2 ^ s + l / 2 = omega (arith, double_pow s p) in
    let f : b / 2 ≡ q * 2 ^ s + m / 2 = omega (arith, double_pow s q) in
    let ih =
      bit_and_fields s p q (l / 2) (m / 2) (omega (arith, pow-suc 2 s))
        (omega (arith, pow-suc 2 s)) in
    let step : bit_and (a / 2) (b / 2) ≡ bit_and p q * 2 ^ s + bit_and (l / 2) (m / 2) =
      rw (e, f) ih in
    let g : a % 2 ≡ l % 2 = omega (arith, double_pow s p) in
    let i : b % 2 ≡ m % 2 = omega (arith, double_pow s q) in
    omega (arith, bit_and_digit a b, bit_and_digit l m, step, g, i, double_pow s (bit_and p q))

pub bit_or_fields :
    (s p q l m : ℕ)
    → l < 2 ^ s
    → m < 2 ^ s
    → bit_or (p * 2 ^ s + l) (q * 2 ^ s + m) ≡ bit_or p q * 2 ^ s + bit_or l m
bit_or_fields zero p q l m h k =
    let e : l ≡ 0 = omega arith in
    let f : m ≡ 0 = omega arith in
    let g : p * 1 + 0 ≡ p = omega arith in
    let i : q * 1 + 0 ≡ q = omega arith in rw (e, f, g, i) (omega (arith, bit_or-zero 0))
bit_or_fields (suc s) p q l m h k =
    let a = p * 2 ^ suc s + l in
    let b = q * 2 ^ suc s + m in
    let e : a / 2 ≡ p * 2 ^ s + l / 2 = omega (arith, double_pow s p) in
    let f : b / 2 ≡ q * 2 ^ s + m / 2 = omega (arith, double_pow s q) in
    let ih =
      bit_or_fields s p q (l / 2) (m / 2) (omega (arith, pow-suc 2 s))
        (omega (arith, pow-suc 2 s)) in
    let step : bit_or (a / 2) (b / 2) ≡ bit_or p q * 2 ^ s + bit_or (l / 2) (m / 2) =
      rw (e, f) ih in
    let g : a % 2 ≡ l % 2 = omega (arith, double_pow s p) in
    let i : b % 2 ≡ m % 2 = omega (arith, double_pow s q) in
    omega (arith, bit_or_digit a b, bit_or_digit l m, step, g, i, double_pow s (bit_or p q))

-- A word of `n + w + s` bits, with its field of `w` bits at `s` cleared by a mask.
pub clear_field :
    (n w s high field low : ℕ)
    → high < 2 ^ n
    → field < 2 ^ w
    → low < 2 ^ s
    → bit_and
        ((high * 2 ^ w + field) * 2 ^ s + low)
        (((2 ^ n - 1) * 2 ^ w + 0) * 2 ^ s + (2 ^ s - 1))
      ≡ (high * 2 ^ w + 0) * 2 ^ s + low
clear_field n w s high field low h f l =
    let low_kept : bit_and low (2 ^ s - 1) ≡ low =
      omega (arith, bit_and_mask s low, small s low l) in
    let high_kept : bit_and high (2 ^ n - 1) ≡ high =
      omega (arith, bit_and_mask n high, small n high h) in
    let upper : bit_and (high * 2 ^ w + field) ((2 ^ n - 1) * 2 ^ w + 0) ≡ high * 2 ^ w + 0 =
      bit_and_fields w high (2 ^ n - 1) field 0 f (one-le-pow w 2 (omega arith))
      ∙ rw (high_kept, bit_and-zero field) refl in
    bit_and_fields s _ _ low (2 ^ s - 1) l (omega (arith, one-le-pow s 2))
    ∙ rw (upper, low_kept) refl
  where
    small : (k a : ℕ) → a < 2 ^ k → a % 2 ^ k ≡ a
    small k a g = mod-eq_of_lt g

-- The cleared field is filled with `value`.
pub fill_field :
    (w s high low value : ℕ)
    → value < 2 ^ w
    → low < 2 ^ s
    → bit_or ((high * 2 ^ w + 0) * 2 ^ s + low) (value * 2 ^ s)
      ≡ (high * 2 ^ w + value) * 2 ^ s + low
fill_field w s high low value v l =
    let e : value * 2 ^ s ≡ value * 2 ^ s + 0 = omega arith in
    let filled : bit_or (high * 2 ^ w + 0) value ≡ high * 2 ^ w + value =
      ap (λ t. bit_or t value) (omega arith) ∙ bit_or_sum w high value v in
    ap (λ t. bit_or ((high * 2 ^ w + 0) * 2 ^ s + low) t) e
    ∙ bit_or_fields s (high * 2 ^ w + 0) value low 0 l (one-le-pow s 2 (omega arith))
    ∙ rw (filled, bit_or-zero low) refl

-- `word & mask | value << s` puts `value` in the field.
pub replace_field :
    (n w s current mask high field low value : ℕ)
    → current ≡ (high * 2 ^ w + field) * 2 ^ s + low
    → mask ≡ ((2 ^ n - 1) * 2 ^ w + 0) * 2 ^ s + (2 ^ s - 1)
    → high < 2 ^ n
    → field < 2 ^ w
    → low < 2 ^ s
    → value < 2 ^ w
    → bit_or (bit_and current mask) (value * 2 ^ s) ≡ (high * 2 ^ w + value) * 2 ^ s + low
replace_field n w s current mask high field low value c m h f l v =
    rw (c, m, clear_field n w s high field low h f l) (fill_field w s high low value v l)
