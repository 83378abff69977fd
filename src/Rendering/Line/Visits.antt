-- ===== src/Rendering/Line/Visits.antt =====
-- Which points a thin line draws, and that it ends.
use minecraft_os.Prelude.{
  ℕ, zero, suc, ◌+◌, ◌*◌, ◌≤◌, ◌<◌, ◌≡◌, refl, ap, ◌∙◌, arith, Bool, true, false, Option-cases,
  ◌==◌, ◌&&◌, max, inl, inr, List, [], ◌∷◌, Option, none, some, ◌>>=◌,
}
use mathlib.Core.Path.{ap₂}
use minecraft_os.Prelude.Int.{ℤ, pos, negsuc, ltb_ℤ}
use minecraft_os.Rendering.Rectangle.{IVec2}
use minecraft_os.Rendering.Line.{
  DepthOps, Vertex, Line, Point, Renderer3d, step, plot, draw_points, line_of, first_point, eq_ℤ,
  Drawn, drawn, panicked,
}
use minecraft_os.Rendering.Line.Signed.{
  along, along-gap, eq_ℤ-along, start-IsErr, abs32-gap, gap-lt,
}
use minecraft_os.Rendering.Line.Counts.{done-le}
use minecraft_os.Rendering.Line.Nearest.{
  Ends, IsSmall, width, height, IsNearest, IsAt, IsLineOf, step-IsAt, le_or_lt,
}

other_done : (m n i j : ℕ) → n ≤ m → i ≡ m → j ≤ n → 2 * (i * n) ≤ 2 * (j * m) + m → j ≡ n
other_done zero n i j w e h k = omega arith
other_done (suc m) n i j w e h k =
    let c : suc m * n ≡ n * suc m = grind arith in
    let p : i * n ≡ n * suc m = ap (λ (t : ℕ). t * n) e ∙ c in
    let q = done-le (suc m) j n (omega arith) (omega (arith, p)) in omega (arith, q)

-- All steps of the shorter side are done when those of the longer one are.
arrived :
    (e : Ends) (k : ℕ) (x y : ℤ) (p : IsNearest e k x y)
    → k ≡ max (width e) (height e)
    → (p.i ≡ width e) × (p.j ≡ height e)
arrived e k x y p h = elim (le_or_lt (height e) (width e)) [
  | inl w ↦
      let i : p.i ≡ width e = omega (arith, p.wide w) in
      (i, other_done (width e) (height e) p.i p.j w i p.j_le (omega (arith, p.near.low)))
  | inr w ↦
      let j : p.j ≡ height e = omega (arith, p.tall w) in
      (
        other_done (height e) (width e) p.j p.i (omega arith) j p.i_le (omega (arith, p.near.high)),
        j,
      )
]

not_arrived :
    (e : Ends) (k : ℕ) (x y : ℤ) (p : IsNearest e k x y)
    → k < max (width e) (height e)
    → (p.i == width e && (p.j == height e)) ≡ false
not_arrived e k x y p h = elim (le_or_lt (height e) (width e)) [
  | inl w ↦ let i : p.i < width e = omega (arith, p.wide w) in ground arith
  | inr w ↦ let j : p.j < height e = omega (arith, p.tall w) in ground arith
]

both_equal : (a b c d : ℕ) → a ≡ b → c ≡ d → (a == b && (c == d)) ≡ true
both_equal a b c d p q = ground arith

-- The points of `n` rounds.
abbrev pub walk : DepthOps → ℕ → Line → Point → List Point
walk f32 zero l p = p ∷ []
walk f32 (suc n) l p = p ∷ walk f32 n l (step f32 l p)

abbrev pub plot_all : DepthOps → Renderer3d → Line → List Point → Option Renderer3d
plot_all f32 r l [] = some r
plot_all f32 r l (p ∷ ps) = plot f32 r l p >>= λ r'. plot_all f32 r' l ps

abbrev pub finished : Option Renderer3d → Drawn
finished none = panicked
finished (some r) = drawn r

-- From the `k`-th point on, each is the nearest to the line in its column or row, up to the end.
abbrev pub IsPath : Ends → ℕ → List Point → Type 0
IsPath e k [] = ⊥
IsPath e k (p ∷ []) = IsNearest e k p.x p.y × (p.x ≡ e.x1) × (p.y ≡ e.y1)
IsPath e k (p ∷ q ∷ ps) = IsNearest e k p.x p.y × IsPath e (k + 1) (q ∷ ps)

module _ (f32 : DepthOps) (e : Ends) (small : IsSmall e) (l : Line) (v : IsLineOf e l) where
  stop-test :
      (k : ℕ) (p : Point) (w : IsAt e k p)
      → (eq_ℤ p.x l.end.x && eq_ℤ p.y l.end.y) ≡ (w.place.i == width e && (w.place.j == height e))
  stop-test k p w =
      ap₂ (λ s t. s && t) (ap₂ eq_ℤ w.place.column v.end_x ∙ eq_ℤ-along e.x0 e.x1 w.place.i)
        (ap₂ eq_ℤ w.place.row v.end_y ∙ eq_ℤ-along e.y0 e.y1 w.place.j)

  walk-cons :
      (n k : ℕ) (p q : Point)
      → IsNearest e k p.x p.y
      → IsPath e (k + 1) (walk f32 n l q)
      → IsPath e k (p ∷ walk f32 n l q)
  walk-cons zero k p q w h = (w, h)
  walk-cons (suc n) k p q w h = (w, h)

  walk-IsPath :
      (n k : ℕ) (p : Point)
      → IsAt e k p
      → k + n ≡ max (width e) (height e)
      → IsPath e k (walk f32 n l p)
  walk-IsPath zero k p w h =
      let (i, j) = arrived e k p.x p.y w.place (omega (arith, h)) in
      (
        w.place,
        w.place.column ∙ (ap (along e.x0 (ltb_ℤ e.x0 e.x1)) i ∙ along-gap e.x0 e.x1),
        w.place.row ∙ (ap (along e.y0 (ltb_ℤ e.y0 e.y1)) j ∙ along-gap e.y0 e.y1),
      )
  walk-IsPath (suc n) k p w h = walk-cons n k p (step f32 l p) w.place (
      walk-IsPath n (k + 1) (step f32 l p) (step-IsAt f32 e small l v k p w (omega (arith, h)))
        (omega (arith, h)))

  draw_points-walk :
      (n k fuel : ℕ) (r : Renderer3d) (p : Point)
      → IsAt e k p
      → k + n ≡ max (width e) (height e)
      → n < fuel
      → draw_points f32 fuel r l p ≡ finished (plot_all f32 r l (walk f32 n l p))
  unfolding draw_points
  draw_points-walk n k zero r p w h enough = absurd (omega arith)
  draw_points-walk zero k (suc fuel) r p w h enough =
      let (i, j) = arrived e k p.x p.y w.place (omega (arith, h)) in
      let stop : (eq_ℤ p.x l.end.x && eq_ℤ p.y l.end.y) ≡ true =
        stop-test k p w ∙ both_equal _ _ _ _ i j in
      elim (Option-cases (plot f32 r l p)) [
        | inl o ↦ rw (draw_points, o) refl
        | inr (r', o) ↦ rw (draw_points, o, stop) refl
      ]
  draw_points-walk (suc n) k (suc fuel) r p w h enough =
      let go : (eq_ℤ p.x l.end.x && eq_ℤ p.y l.end.y) ≡ false =
        stop-test k p w ∙ not_arrived e k p.x p.y w.place (omega (arith, h)) in
      elim (Option-cases (plot f32 r l p)) [
        | inl o ↦ rw (draw_points, o) refl
        | inr (r', o) ↦
            rw (draw_points, o, go)
              (draw_points-walk n (k + 1) fuel r' (step f32 l p)
                (step-IsAt f32 e small l v k p w (omega (arith, h))) (omega (arith, h))
                (omega arith))
      ]

abbrev pub ends_of : DepthOps → Vertex → Vertex → Ends
ends_of f32 a b = record {
  x0 = f32.as_i32 a.x;
  y0 = f32.as_i32 a.y;
  x1 = f32.as_i32 b.x;
  y1 = f32.as_i32 b.y;
}

line_of-IsLineOf :
    (f32 : DepthOps) (start end : IVec2) (bytes : List ℕ) (a b : Vertex)
    → IsSmall (ends_of f32 a b)
    → IsLineOf (ends_of f32 a b) (line_of f32 start end bytes a b)
unfolding line_of
line_of-IsLineOf f32 start end bytes a b small = record {
  dx = abs32-gap (f32.as_i32 a.x) (f32.as_i32 b.x) small.x0 small.x1;
  dy = abs32-gap (f32.as_i32 a.y) (f32.as_i32 b.y) small.y0 small.y1;
  sx = refl;
  sy = refl;
  end_x = refl;
  end_y = refl;
}

start-along : (v : ℤ) (t : Bool) → v ≡ along v t 0
start-along (pos n) true = ground arith
start-along (pos n) false = ground arith
start-along (negsuc n) true = ground arith
start-along (negsuc n) false = ground arith

first_point-IsAt :
    (f32 : DepthOps) (e : Ends) (l : Line) (a : Vertex)
    → IsSmall e
    → IsLineOf e l
    → f32.as_i32 a.x ≡ e.x0
    → f32.as_i32 a.y ≡ e.y0
    → IsAt e 0 (first_point f32 l a)
unfolding first_point
first_point-IsAt f32 e l a small v ex ey = record {
  place = record {
    i = 0;
    j = 0;
    column = ex ∙ start-along e.x0 (ltb_ℤ e.x0 e.x1);
    row = ey ∙ start-along e.y0 (ltb_ℤ e.y0 e.y1);
    wide = λ h. refl;
    tall = λ h. refl;
    i_le = omega arith;
    j_le = omega arith;
    near = record { low = omega arith; high = omega arith; diagonal = λ h. omega arith };
  };
  err =
      rw (v.dx, v.dy)
        (start-IsErr (width e) (height e) (gap-lt e.x0 e.x1 small.x0 small.x1)
          (gap-lt e.y0 e.y1 small.y0 small.y1));
}

-- For ends whose coordinates are within 2^28 of the origin, the loop ends after one point more than
-- the longer side of the line has steps: it draws, in this order and once each, a point in every
-- column (or row, on a steep line), which is the nearest to the line there, the two ends among them.
pub draw_points-IsPath :
    (f32 : DepthOps) (r : Renderer3d) (start end : IVec2) (bytes : List ℕ) (a b : Vertex) (fuel : ℕ)
    → IsSmall (ends_of f32 a b)
    → max (width (ends_of f32 a b)) (height (ends_of f32 a b)) < fuel
    → let e = ends_of f32 a b in
      let l = line_of f32 start end bytes a b in
      let points = walk f32 (max (width e) (height e)) l (first_point f32 l a) in
      (draw_points f32 fuel r l (first_point f32 l a) ≡ finished (plot_all f32 r l points))
      × IsPath e 0 points
draw_points-IsPath f32 r start end bytes a b fuel small enough =
    let e = ends_of f32 a b in
    let l = line_of f32 start end bytes a b in
    let v = line_of-IsLineOf f32 start end bytes a b small in
    let w = first_point-IsAt f32 e l a small v refl refl in
    (
      draw_points-walk f32 e small l v (max (width e) (height e)) 0 fuel r (first_point f32 l a) w
          (omega arith) enough,
      walk-IsPath f32 e small l v (max (width e) (height e)) 0 (first_point f32 l a) w
          (omega arith),
    )
