-- ===== src/Rendering/Line/Nearest.antt =====
-- The loop visits, once each, the points that are nearest to the line.
use minecraft_os.Prelude.{
  ℕ, ◌+◌, ◌*◌, ◌^◌, ◌≤◌, ◌<◌, ◌≡◌, refl, ap, ◌∙◌, arith, Bool, true, false, Bool-cases, ltb, max,
  if◌then◌else◌, inl, inr, ◌⊎◌,
}
use mathlib.Core.Path.{ap₂}
use minecraft_os.Prelude.Int.{ℤ, pos, ◌+ℤ◌, ltb_ℤ}
use minecraft_os.Rendering.Rectangle.{wrap32}
use minecraft_os.Rendering.Line.{DepthOps, Line, Point, step, sign_to}
use minecraft_os.Rendering.Line.Counts.{
  IsBalanced, goes_across, goes_along, goes_across-wide, goes_along-tall, round-IsBalanced, plus_if,
  done-le,
}
use minecraft_os.Rendering.Line.Signed.{
  IsCoord, gap, gap-lt, along, along-suc, IsErr, across-test, along-test, step-IsErr,
}

-- The line from (x0, y0) to (x1, y1).
pub record Ends : Type 0 where
  pub x0 : ℤ
  pub y0 : ℤ
  pub x1 : ℤ
  pub y1 : ℤ

pub record IsSmall (e : Ends) : Type 0 where
  pub x0 : IsCoord e.x0
  pub y0 : IsCoord e.y0
  pub x1 : IsCoord e.x1
  pub y1 : IsCoord e.y1

abbrev pub width : Ends → ℕ
width e = gap e.x0 e.x1

abbrev pub height : Ends → ℕ
height e = gap e.y0 e.y1

-- What `k` rounds come to: `i` columns and `j` rows from the start towards the end, `k` on the longer
-- side, where `i * height` and `j * width` differ by at most half of the longer side.
pub record IsNearest (e : Ends) (k : ℕ) (x y : ℤ) : Type 0 where
  pub i : ℕ
  pub j : ℕ
  pub column : x ≡ along e.x0 (ltb_ℤ e.x0 e.x1) i
  pub row : y ≡ along e.y0 (ltb_ℤ e.y0 e.y1) j
  pub wide : height e ≤ width e → i ≡ k
  pub tall : width e < height e → j ≡ k
  pub i_le : i ≤ width e
  pub j_le : j ≤ height e
  pub near : IsBalanced (width e) (height e) (i * height e) (j * width e)

pub record IsAt (e : Ends) (k : ℕ) (p : Point) : Type 0 where
  pub place : IsNearest e k p.x p.y
  pub err : IsErr (width e) (height e) (place.i * height e) (place.j * width e) p.err

pub record IsLineOf (e : Ends) (l : Line) : Type 0 where
  pub dx : l.dx ≡ pos (width e)
  pub dy : l.dy ≡ pos (height e)
  pub sx : l.sx ≡ sign_to e.x0 e.x1
  pub sy : l.sy ≡ sign_to e.y0 e.y1
  pub end_x : l.end.x ≡ e.x1
  pub end_y : l.end.y ≡ e.y1

plus_if-mul : (b : Bool) (i m : ℕ) → plus_if b 1 i * m ≡ plus_if b m (i * m)
plus_if-mul true i m = grind arith
plus_if-mul false i m = refl

-- Half of the longer side leaves the shorter one no room.
pub short-le : (m n i j : ℕ) → 0 < m → j ≤ m → 2 * (i * m) ≤ 2 * (j * n) + m → i ≤ n
short-le m n i j h k e = done-le m n i h (grind arith)

pub le_or_lt : (a b : ℕ) → (a ≤ b) ⊎ (b < a)
le_or_lt a b = elim (Bool-cases (ltb b a)) [
  | inl e ↦ inr (ground arith)
  | inr e ↦ inl (ground arith)
]

moved :
    (t : Bool) (a b s x : ℤ) (i : ℕ)
    → IsCoord a
    → i < 2 ^ 29
    → s ≡ sign_to a b
    → x ≡ along a (ltb_ℤ a b) i
    → (if t then wrap32 (x +ℤ s) else x) ≡ along a (ltb_ℤ a b) (plus_if t 1 i)
moved true a b s x i c h es ex = ap₂ (λ u w. wrap32 (u +ℤ w)) ex es ∙ along-suc a (ltb_ℤ a b) i c h
moved false a b s x i c h es ex = ex

-- The counts of a round, from those of the one before.
record NextCounts (e : Ends) (k i j : ℕ) (across up : Bool) : Type 0 where
  wide : height e ≤ width e → plus_if across 1 i ≡ k + 1
  tall : width e < height e → plus_if up 1 j ≡ k + 1
  i_le : plus_if across 1 i ≤ width e
  j_le : plus_if up 1 j ≤ height e
  near : IsBalanced (width e) (height e) (plus_if across 1 i * height e) (plus_if up 1 j * width e)

module _ (e : Ends) (k : ℕ) (x y : ℤ) (p : IsNearest e k x y)
    (h : k < max (width e) (height e)) where
  abbrev across : Bool
  across = goes_across (width e) (height e) (p.i * height e) (p.j * width e)

  abbrev up : Bool
  up = goes_along (width e) (height e) (p.i * height e) (p.j * width e)

  positive : 0 < max (width e) (height e)
  positive = omega arith

  next_near :
      IsBalanced (width e) (height e) (plus_if across 1 p.i * height e) (plus_if up 1 p.j * width e)
  next_near =
      rw (plus_if-mul across p.i (height e), plus_if-mul up p.j (width e))
        (round-IsBalanced (width e) (height e) (p.i * height e) (p.j * width e) p.near positive)

  wide_next : height e ≤ width e → plus_if across 1 p.i ≡ k + 1
  wide_next w =
      rw (goes_across-wide (width e) (height e) (p.i * height e) (p.j * width e) p.near positive w)
        (ap (λ n. n + 1) (p.wide w))

  tall_next : width e < height e → plus_if up 1 p.j ≡ k + 1
  tall_next w =
      rw (goes_along-tall (width e) (height e) (p.i * height e) (p.j * width e) p.near positive w)
        (ap (λ n. n + 1) (p.tall w))

  next_i-le : plus_if across 1 p.i ≤ width e
  next_i-le = elim (le_or_lt (height e) (width e)) [
    | inl w ↦ omega (arith, wide_next w)
    | inr w ↦
        short-le (height e) (width e) (plus_if across 1 p.i) (plus_if up 1 p.j) (omega arith)
          (omega (arith, tall_next w)) (omega (arith, next_near.low))
  ]

  next_j-le : plus_if up 1 p.j ≤ height e
  next_j-le = elim (le_or_lt (height e) (width e)) [
    | inl w ↦
        short-le (width e) (height e) (plus_if up 1 p.j) (plus_if across 1 p.i) (omega arith)
          (omega (arith, wide_next w)) (omega (arith, next_near.high))
    | inr w ↦ omega (arith, tall_next w)
  ]

  next-NextCounts : NextCounts e k p.i p.j across up
  next-NextCounts = record {
    wide = wide_next;
    tall = tall_next;
    i_le = next_i-le;
    j_le = next_j-le;
    near = next_near;
  }

module _ (f32 : DepthOps) (e : Ends) (small : IsSmall e) (l : Line) (v : IsLineOf e l) where
  pub step-IsAt :
      (k : ℕ) (p : Point)
      → IsAt e k p
      → k < max (width e) (height e)
      → IsAt e (k + 1) (step f32 l p)
  unfolding step
  step-IsAt k p w h =
      let q = w.place in
      let s = across e k p.x p.y q h in
      let r = up e k p.x p.y q h in
      let n = next-NextCounts e k p.x p.y q h in
      let a = q.i * height e in
      let b = q.j * width e in
      let hx = gap-lt e.x0 e.x1 small.x0 small.x1 in
      let hy = gap-lt e.y0 e.y1 small.y0 small.y1 in
      let t = across-test (width e) (height e) a b hx hy q.near p.err w.err in
      let u = along-test (width e) (height e) a b hx hy q.near p.err w.err in
      rw (v.dx, v.dy, t, u)
        (record {
          place = record {
            i = plus_if s 1 q.i;
            j = plus_if r 1 q.j;
            column =
                moved s e.x0 e.x1 l.sx p.x q.i small.x0 (omega (arith, q.i_le, hx)) v.sx q.column;
            row = moved r e.y0 e.y1 l.sy p.y q.j small.y0 (omega (arith, q.j_le, hy)) v.sy q.row;
            wide = n.wide;
            tall = n.tall;
            i_le = n.i_le;
            j_le = n.j_le;
            near = n.near;
          };
          err =
              rw (plus_if-mul s q.i (height e), plus_if-mul r q.j (width e))
                (step-IsErr (width e) (height e) a b hx hy q.near p.err s r w.err);
        })
