-- ===== src/Rendering/Line/Signed.antt =====
-- The `i32` arithmetic of the loop, on coordinates that are small enough for it not to wrap.
use minecraft_os.Prelude.{
  ℕ, ◌+◌, ◌-◌, ◌*◌, ◌^◌, ◌<◌, ◌≡◌, arith, Bool, true, false, ◌==◌, if◌then◌else◌,
}
use minecraft_os.Prelude.Int.{ℤ, pos, negsuc, pos_part, neg_part, ◌+ℤ◌, ◌-ℤ◌, ltb_ℤ}
use minecraft_os.Rendering.Rectangle.{wrap32}
use minecraft_os.Rendering.Line.{abs32, eq_ℤ}
use minecraft_os.Rendering.Line.Counts.{IsBalanced, goes_across, goes_along, plus_if}

abbrev pub IsCoord : ℤ → Type 0
IsCoord (pos n) = n < 2 ^ 28
IsCoord (negsuc n) = n < 2 ^ 28

abbrev pub gap : ℤ → ℤ → ℕ
gap a b =
    (pos_part b + neg_part a - (pos_part a + neg_part b))
    + (pos_part a + neg_part b - (pos_part b + neg_part a))

-- `i` steps from `a` on, upwards or downwards.
abbrev pub along : ℤ → Bool → ℕ → ℤ
along a true i = a +ℤ pos i
along a false i = a -ℤ pos i

pub gap-lt : (a b : ℤ) → IsCoord a → IsCoord b → gap a b < 2 ^ 29
gap-lt (pos m) (pos n) h k = omega arith
gap-lt (pos m) (negsuc n) h k = omega arith
gap-lt (negsuc m) (pos n) h k = omega arith
gap-lt (negsuc m) (negsuc n) h k = omega arith

pub abs32-gap : (a b : ℤ) → IsCoord a → IsCoord b → abs32 (wrap32 (b -ℤ a)) ≡ pos (gap a b)
unfolding abs32 wrap32
abs32-gap (pos m) (pos n) h k = ground arith
abs32-gap (pos m) (negsuc n) h k = ground arith
abs32-gap (negsuc m) (pos n) h k = ground arith
abs32-gap (negsuc m) (negsuc n) h k = ground arith

pub along-gap : (a b : ℤ) → along a (ltb_ℤ a b) (gap a b) ≡ b
along-gap (pos m) (pos n) = ground arith
along-gap (pos m) (negsuc n) = ground arith
along-gap (negsuc m) (pos n) = ground arith
along-gap (negsuc m) (negsuc n) = ground arith

pub along-suc :
    (a : ℤ) (r : Bool) (i : ℕ)
    → IsCoord a
    → i < 2 ^ 29
    → wrap32 (along a r i +ℤ (if r then pos 1 else negsuc 0)) ≡ along a r (i + 1)
unfolding wrap32
along-suc (pos m) true i h k = ground arith
along-suc (pos m) false i h k = ground arith
along-suc (negsuc m) true i h k = ground arith
along-suc (negsuc m) false i h k = ground arith

pub eq_ℤ-along : (a b : ℤ) (i : ℕ) → eq_ℤ (along a (ltb_ℤ a b) i) b ≡ (i == gap a b)
eq_ℤ-along (pos m) (pos n) i = ground arith
eq_ℤ-along (pos m) (negsuc n) i = ground arith
eq_ℤ-along (negsuc m) (pos n) i = ground arith
eq_ℤ-along (negsuc m) (negsuc n) i = ground arith

-- `err` is `dx - dy + b - a`.
abbrev pub IsErr : ℕ → ℕ → ℕ → ℕ → ℤ → Type 0
IsErr dx dy a b err = pos_part err + dy + a ≡ dx + b + neg_part err

module _ (dx dy a b : ℕ) (hx : dx < 2 ^ 29) (hy : dy < 2 ^ 29) (v : IsBalanced dx dy a b) where
  pub across-test :
      (err : ℤ)
      → IsErr dx dy a b err
      → ltb_ℤ (wrap32 (pos 0 -ℤ pos dy)) (wrap32 (err +ℤ err)) ≡ goes_across dx dy a b
  unfolding wrap32
  across-test (pos n) e = ground (arith, v.low, v.high)
  across-test (negsuc n) e = ground (arith, v.low, v.high)

  pub along-test :
      (err : ℤ) → IsErr dx dy a b err → ltb_ℤ (wrap32 (err +ℤ err)) (pos dx) ≡ goes_along dx dy a b
  unfolding wrap32
  along-test (pos n) e = ground (arith, v.low, v.high)
  along-test (negsuc n) e = ground (arith, v.low, v.high)

  pub step-IsErr :
      (err : ℤ) (across along : Bool)
      → IsErr dx dy a b err
      → let err' = if across then wrap32 (err -ℤ pos dy) else err in
        IsErr dx dy
          (plus_if across dy a)
          (plus_if along dx b)
          (if along then wrap32 (err' +ℤ pos dx) else err')
  unfolding wrap32
  step-IsErr (pos n) true true e = ground (arith, v.low, v.high)
  step-IsErr (pos n) true false e = ground (arith, v.low, v.high)
  step-IsErr (pos n) false true e = ground (arith, v.low, v.high)
  step-IsErr (pos n) false false e = e
  step-IsErr (negsuc n) true true e = ground (arith, v.low, v.high)
  step-IsErr (negsuc n) true false e = ground (arith, v.low, v.high)
  step-IsErr (negsuc n) false true e = ground (arith, v.low, v.high)
  step-IsErr (negsuc n) false false e = e

pub start-IsErr :
    (dx dy : ℕ)
    → dx < 2 ^ 29
    → dy < 2 ^ 29
    → IsErr dx dy (0 * dy) (0 * dx) (wrap32 (pos dx -ℤ pos dy))
unfolding wrap32
start-IsErr dx dy hx hy = ground arith
