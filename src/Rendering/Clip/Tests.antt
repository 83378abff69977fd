-- ===== src/Rendering/Clip/Tests.antt =====
-- A triangle cut by the left edge; the arithmetic is that of natural numbers, rounded down.
use minecraft_os.Prelude.{ℕ, ◌+◌, ◌-◌, ◌*◌, ◌/◌, ◌≡◌, refl, true, List, [], ◌∷◌, leb, length, All}
use minecraft_os.Rendering.Clip.{F32Ops, Vec2, left, is_inside, clip_to_edge}
use minecraft_os.Rendering.Clip.Inside.{Subsequence, kept, crossings_around, clip_to_edge_lem}

abbrev whole_numbers : F32Ops
whole_numbers = record {
  add = λ a b. a + b;
  sub = λ a b. a - b;
  mul = λ a b. a * b;
  div = λ a b. a / b;
  abs = λ a. a;
  le = leb;
}

abbrev at : ℕ → ℕ → Vec2
at x y = record { x = x; y = y }

abbrev triangle : List Vec2
triangle = at 2 1 ∷ at 8 1 ∷ at 8 7 ∷ []

clip_to_edge_example :
    let output = clip_to_edge whole_numbers (at 4 0) (at 9 9) left triangle in
    let inside = is_inside whole_numbers (at 4 0) (at 9 9) left in
    All (λ p. inside p ≡ true) output
    × Subsequence inside (kept inside triangle) output
    × (length output ≡ length (kept inside triangle) + crossings_around inside triangle)
clip_to_edge_example = clip_to_edge_lem whole_numbers (at 4 0) (at 9 9) left triangle refl
