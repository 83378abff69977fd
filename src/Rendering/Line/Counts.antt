-- ===== src/Rendering/Line/Counts.antt =====
-- The counts behind the loop: `i` steps across and `j` along make `a = i * dy` and `b = j * dx`.
use minecraft_os.Prelude.{ℕ, zero, suc, ◌+◌, ◌*◌, ◌≤◌, ◌<◌, ◌≡◌, arith, Bool, true, false, max, ltb}

-- The point is at most half a pixel off the line, on the shorter of the two sides.
pub record IsBalanced (dx dy a b : ℕ) : Type 0 where
  pub low : 2 * a ≤ 2 * b + max dx dy
  pub high : 2 * b ≤ 2 * a + max dx dy
  pub diagonal : dx ≡ dy → a ≡ b

-- The two tests of a round, on numbers: `2 * err > -dy`, `2 * err < dx`.
abbrev pub goes_across : ℕ → ℕ → ℕ → ℕ → Bool
goes_across dx dy a b = ltb (2 * dy + 2 * a) (2 * dx + 2 * b + dy)

abbrev pub goes_along : ℕ → ℕ → ℕ → ℕ → Bool
goes_along dx dy a b = ltb (2 * dx + 2 * b) (dx + 2 * dy + 2 * a)

abbrev pub plus_if : Bool → ℕ → ℕ → ℕ
plus_if true d a = a + d
plus_if false d a = a

module _ (dx dy a b : ℕ) (v : IsBalanced dx dy a b) (h : 0 < max dx dy) where
  pub goes_across-wide : dy ≤ dx → goes_across dx dy a b ≡ true
  goes_across-wide w = ground (arith, v.diagonal)

  pub goes_along-tall : dx < dy → goes_along dx dy a b ≡ true
  goes_along-tall w = ground arith

  pub round-IsBalanced :
      IsBalanced dx dy (plus_if (goes_across dx dy a b) dy a) (plus_if (goes_along dx dy a b) dx b)
  round-IsBalanced = record {
    low = ground (arith, v.diagonal);
    high = ground (arith, v.diagonal);
    diagonal = λ e. ground (arith, v.diagonal e);
  }

-- The shorter side has taken its steps when the longer one has.
pub done-le : (m n j : ℕ) → 0 < m → 2 * (j * m) ≤ 2 * (n * m) + m → j ≤ n
done-le m n zero h e = omega arith
done-le m zero (suc j) h e = absurd (grind arith)
done-le m (suc n) (suc j) h e = let k = done-le m n j h (grind arith) in omega (arith, k)
