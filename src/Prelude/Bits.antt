-- ===== src/Prelude/Bits.antt =====
-- `&`, `|` and `^` on machine words, digit by digit: the value of each bit of the result, and the
-- two arithmetic readings that the drivers use, a low mask and a sum of disjoint fields.
use Prim.Native.Nat.{ℕ, zero, suc, ◌+◌, ◌-◌, ◌*◌, ◌/◌, ◌%◌, ◌^◌, ◌≤◌, ◌<◌, min, max, digits}
use Prim.Native.Nat.{bit_and, bit_or, bit_and-bitwise, bit_or-bitwise}
use mathlib.Core.Path.{◌≡◌, refl, sym, ap, ◌∙◌}
use mathlib.Core.Logic.{◌≢◌}
use native.Mathlib.Omega.{arith}
use native.Mathlib.Nat.{pow-suc, pow-succ', one-le-pow, div-div-eq-div-mul}

-- The recursion of the native operations, with any count of digits that is large enough.
module _ (z : ℕ → ℕ) (f : ℕ → ℕ → ℕ) where
  enough_digits : (n m a b : ℕ) → a ≤ n → a ≤ m → digits z f n a b ≡ digits z f m a b
  enough_digits zero zero a b p q = refl
  enough_digits zero (suc m) zero b p q = refl
  enough_digits zero (suc m) (suc a) b p q = absurd (omega arith)
  enough_digits (suc n) zero zero b p q = refl
  enough_digits (suc n) zero (suc a) b p q = absurd (omega arith)
  enough_digits (suc n) (suc m) zero b p q = refl
  enough_digits (suc n) (suc m) (suc a) b p q =
      rw (enough_digits n m (suc a / 2) (b / 2) (omega arith) (omega arith))

pub zero-bit_and : (b : ℕ) → bit_and 0 b ≡ 0
zero-bit_and b = bit_and-bitwise 0 b

pub zero-bit_or : (b : ℕ) → bit_or 0 b ≡ b
zero-bit_or b = bit_or-bitwise 0 b

-- The lowest digit, and the rest.
pub bit_and_digit : (a b : ℕ) → bit_and a b ≡ bit_and (a / 2) (b / 2) * 2 + min (a % 2) (b % 2)
bit_and_digit zero b = omega (arith, zero-bit_and b, zero-bit_and (b / 2))
bit_and_digit (suc a) b = omega (
  arith,
  bit_and-bitwise (suc a) b,
  bit_and-bitwise (suc a / 2) (b / 2),
  enough_digits (λ x. zero) min a (suc a / 2) (suc a / 2) (b / 2) (omega arith) (omega arith),
)

pub bit_or_digit : (a b : ℕ) → bit_or a b ≡ bit_or (a / 2) (b / 2) * 2 + max (a % 2) (b % 2)
bit_or_digit zero b = omega (arith, zero-bit_or b, zero-bit_or (b / 2))
bit_or_digit (suc a) b = omega (
  arith,
  bit_or-bitwise (suc a) b,
  bit_or-bitwise (suc a / 2) (b / 2),
  enough_digits (λ x. x) max a (suc a / 2) (suc a / 2) (b / 2) (omega arith) (omega arith),
)

-- Bit `i` of a word.
abbrev pub bit : ℕ → ℕ → ℕ
bit zero a = a % 2
bit (suc i) a = bit i (a / 2)

pub bit_le_one : (i a : ℕ) → bit i a ≤ 1
bit_le_one zero a = omega arith
bit_le_one (suc i) a = bit_le_one i (a / 2)

pub bit-bit_and : (i a b : ℕ) → bit i (bit_and a b) ≡ min (bit i a) (bit i b)
bit-bit_and zero a b = omega (arith, bit_and_digit a b)
bit-bit_and (suc i) a b =
    ap (bit i) (omega (arith, bit_and_digit a b)) ∙ bit-bit_and i (a / 2) (b / 2)

pub bit-bit_or : (i a b : ℕ) → bit i (bit_or a b) ≡ max (bit i a) (bit i b)
bit-bit_or zero a b = omega (arith, bit_or_digit a b)
bit-bit_or (suc i) a b = ap (bit i) (omega (arith, bit_or_digit a b)) ∙ bit-bit_or i (a / 2) (b / 2)

pub double_pow : (k q : ℕ) → q * 2 ^ suc k ≡ 2 * (q * 2 ^ k)
double_pow k q = omega (arith, ap (λ (t : ℕ). q * t) (pow-suc 2 k))

bit_and-zero_of_le : (n x : ℕ) → x ≤ n → bit_and x 0 ≡ 0
bit_and-zero_of_le n zero h = refl
bit_and-zero_of_le zero (suc x) h = absurd (omega arith)
bit_and-zero_of_le (suc n) (suc x) h =
    omega (arith, bit_and_digit (suc x) 0, bit_and-zero_of_le n (suc x / 2) (omega arith))

bit_or-zero_of_le : (n x : ℕ) → x ≤ n → bit_or x 0 ≡ x
bit_or-zero_of_le n zero h = refl
bit_or-zero_of_le zero (suc x) h = absurd (omega arith)
bit_or-zero_of_le (suc n) (suc x) h =
    omega (arith, bit_or_digit (suc x) 0, bit_or-zero_of_le n (suc x / 2) (omega arith))

pub bit_and-zero : (x : ℕ) → bit_and x 0 ≡ 0
bit_and-zero x = bit_and-zero_of_le x x (omega arith)

pub bit_or-zero : (x : ℕ) → bit_or x 0 ≡ x
bit_or-zero x = bit_or-zero_of_le x x (omega arith)

low_part : (k a q r : ℕ) → a ≡ q * 2 ^ k + r → r < 2 ^ k → bit_and a (2 ^ k - 1) ≡ r
low_part zero a q r e h = omega (arith, bit_and-zero a)
low_part (suc k) a q r e h = ground (
  arith,
  bit_and_digit a (2 ^ suc k - 1),
  double_pow k q,
  pow-suc 2 k,
  one-le-pow k 2,
  low_part k (a / 2) q (r / 2),
)

-- `&` with `k` low ones is the remainder by `2 ^ k`.
pub bit_and_mask : (k a : ℕ) → bit_and a (2 ^ k - 1) ≡ a % 2 ^ k
bit_and_mask k a =
    low_part k a (a / 2 ^ k) (a % 2 ^ k) (grind arith) (omega (arith, one-le-pow k 2))

-- `|` of fields that do not overlap is their sum.
pub bit_or_sum : (k a b : ℕ) → b < 2 ^ k → bit_or (a * 2 ^ k) b ≡ a * 2 ^ k + b
bit_or_sum zero a b h = ground (arith, bit_or-zero a)
bit_or_sum (suc k) a b h =
    ground
      (arith, bit_or_digit (a * 2 ^ suc k) b, double_pow k a, pow-suc 2 k, bit_or_sum k a (b / 2))

pub bit_or_sum_low : (k a b : ℕ) → b < 2 ^ k → bit_or b (a * 2 ^ k) ≡ a * 2 ^ k + b
bit_or_sum_low zero a b h = let e : b ≡ 0 = omega arith in rw e (omega (arith, zero-bit_or (a * 1)))
bit_or_sum_low (suc k) a b h =
    ground (
      arith,
      bit_or_digit b (a * 2 ^ suc k),
      double_pow k a,
      pow-suc 2 k,
      bit_or_sum_low k a (b / 2),
    )

halve : (k a : ℕ) → a / 2 ^ suc k ≡ a / 2 / 2 ^ k
halve k a = ap (λ t. a / t) (pow-succ' 2 k) ∙ sym (div-div-eq-div-mul a 2 (2 ^ k))

-- A test of one bit.
pub bit_and_bit : (k a : ℕ) → bit_and a (2 ^ k) ≡ a / 2 ^ k % 2 * 2 ^ k
bit_and_bit zero a = omega (arith, bit_and_mask 1 a)
bit_and_bit (suc k) a = ground (
  arith,
  bit_and_digit a (2 ^ suc k),
  pow-suc 2 k,
  bit_and_bit k (a / 2),
  halve k a,
  double_pow k (a / 2 / 2 ^ k % 2),
)

pub bit-eq : (k a : ℕ) → bit k a ≡ a / 2 ^ k % 2
bit-eq zero a = omega arith
bit-eq (suc k) a = bit-eq k (a / 2) ∙ ap (λ t. t % 2) (sym (halve k a))

-- The bits of a power of two, and of the complement of a word of `w` bits.
pub bit-pow_self : (k : ℕ) → bit k (2 ^ k) ≡ 1
bit-pow_self zero = refl
bit-pow_self (suc k) =
    let e : 2 ^ suc k / 2 ≡ 2 ^ k = omega (arith, pow-suc 2 k) in rw e (bit-pow_self k)

bit-zero : (i : ℕ) → bit i 0 ≡ 0
bit-zero zero = refl
bit-zero (suc i) = bit-zero i

pub bit-pow_ne : (i k : ℕ) → i ≢ k → bit i (2 ^ k) ≡ 0
bit-pow_ne zero zero h = absurd (h refl)
bit-pow_ne zero (suc k) h = omega (arith, pow-suc 2 k)
bit-pow_ne (suc i) zero h = bit-zero i
bit-pow_ne (suc i) (suc k) h =
    let e : 2 ^ suc k / 2 ≡ 2 ^ k = omega (arith, pow-suc 2 k) in
    rw e (bit-pow_ne i k (λ p. h (ap suc p)))

pub bit_complement : (i w a : ℕ) → i < w → a < 2 ^ w → bit i (2 ^ w - 1 - a) ≡ 1 - bit i a
bit_complement i zero a h k = absurd (omega arith)
bit_complement zero (suc w) a h k = omega (arith, pow-suc 2 w, one-le-pow w 2)
bit_complement (suc i) (suc w) a h k =
    let e : (2 ^ suc w - 1 - a) / 2 ≡ 2 ^ w - 1 - a / 2 =
      omega (arith, pow-suc 2 w, one-le-pow w 2) in
    rw e (bit_complement i w (a / 2) (omega arith) (omega (arith, pow-suc 2 w)))
