-- ===== src/Rendering/Clip/Inside.antt =====
-- What the clipping of a polygon to an edge keeps.
use minecraft_os.Prelude.{
  ℕ, ◌+◌, ◌≡◌, refl, ap, ◌∙◌, arith, Bool, true, false, Bool-cases, inl, inr, none, some, List, [],
  ◌∷◌, ltb, if◌then◌else◌, length, All,
}
use minecraft_os.Rendering.TextBox.{last}
use minecraft_os.Rendering.Clip.{
  F32Ops, Vec2, epsilon, Edge, left, right, top, bottom, clip_from, clip_polygon_generic,
  polygon_area, is_inside, edge_intersection, bound, clip_to_edge, clip_edge, clip_polygon,
  overlap_area_polygon_with_rect, intersect_vertical, intersect_horizontal,
}

last-some {ℓ} : {A : Type ℓ} (x : A) (xs : List A) → (y : A) × (last (x ∷ xs) ≡ some y)
unfolding last
last-some x [] = (x, refl)
last-some x (y ∷ xs) = last-some y xs

last-All {ℓ} :
    {A : Type ℓ} (inside : A → Bool) (x : A) (xs : List A)
    → All (λ p. inside p ≡ true) (x ∷ xs)
    → (y : A) × (last (x ∷ xs) ≡ some y) × (inside y ≡ true)
unfolding last
last-All inside x [] h = (x, refl, h.0)
last-All inside x (y ∷ xs) h = last-All inside y xs h.1

module _ {ℓ} {A : Type ℓ} (inside : A → Bool) where
  -- The first list is what is left of the second when some elements are taken away.
  pub data Subsequence : List A → List A → Type ℓ where
    done : Subsequence [] []
    keep : {xs ys : List A} (x : A) → Subsequence xs ys → Subsequence (x ∷ xs) (x ∷ ys)
    skip : {xs ys : List A} (x : A) → Subsequence xs ys → Subsequence xs (x ∷ ys)

  abbrev pub kept : List A → List A
  kept [] = []
  kept (x ∷ xs) = if inside x then x ∷ kept xs else kept xs

  abbrev pub crossing : A → A → ℕ
  crossing a b = if inside a then (if inside b then 0 else 1) else (if inside b then 1 else 0)

  -- The pairs of neighbours on different sides.
  abbrev pub crossings : A → List A → ℕ
  crossings prev [] = 0
  crossings prev (curr ∷ xs) = crossing prev curr + crossings curr xs

  abbrev pub crossings_around : List A → ℕ
  crossings_around xs = elim (last xs) [ none ↦ 0 | some prev ↦ crossings prev xs ]

  module _ (intersection : A → A → A) where
    clip_from-cases {κ} :
        (P : List A → Type κ) (prev curr : A) (xs : List A)
        → (let r = clip_from inside intersection curr xs in
            (inside curr ≡ true → inside prev ≡ true → P (curr ∷ r))
            → (inside curr ≡ true → inside prev ≡ false → P (intersection prev curr ∷ curr ∷ r))
            → (inside curr ≡ false → inside prev ≡ true → P (intersection prev curr ∷ r))
            → (inside curr ≡ false → inside prev ≡ false → P r)
            → P (clip_from inside intersection prev (curr ∷ xs)))
    unfolding clip_from
    clip_from-cases P prev curr xs a b c d = elim (Bool-cases (inside curr)) [
      | inl e ↦ elim (Bool-cases (inside prev)) [
        | inl f ↦ rw (e, f) (a e f)
        | inr f ↦ rw (e, f) (b e f)
      ]
      | inr e ↦ elim (Bool-cases (inside prev)) [
        | inl f ↦ rw (e, f) (c e f)
        | inr f ↦ rw (e, f) (d e f)
      ]
    ]

    clip_from-All :
        (prev : A) (xs : List A)
        → ((a b : A) → inside (intersection a b) ≡ true)
        → All (λ p. inside p ≡ true) (clip_from inside intersection prev xs)
    unfolding clip_from
    clip_from-All prev [] h = _
    clip_from-All prev (curr ∷ xs) h =
        let k = clip_from-All curr xs h in
        clip_from-cases (All (λ p. inside p ≡ true)) prev curr xs (λ e f. (e, k))
          (λ e f. (h prev curr, (e, k))) (λ e f. (h prev curr, k)) (λ e f. k)

    clip_from-Subsequence :
        (prev : A) (xs : List A) → Subsequence (kept xs) (clip_from inside intersection prev xs)
    unfolding clip_from
    clip_from-Subsequence prev [] = done
    clip_from-Subsequence prev (curr ∷ xs) =
        let k = clip_from-Subsequence curr xs in
        clip_from-cases (Subsequence (kept (curr ∷ xs))) prev curr xs (λ e f. rw e (keep curr k))
          (λ e f. rw e (skip (intersection prev curr) (keep curr k)))
          (λ e f. rw e (skip (intersection prev curr) k)) (λ e f. rw e k)

    length-clip_from :
        (prev : A) (xs : List A)
        → length (clip_from inside intersection prev xs) ≡ length (kept xs) + crossings prev xs
    unfolding clip_from
    length-clip_from prev [] = refl
    length-clip_from prev (curr ∷ xs) =
        let k = length-clip_from curr xs in
        clip_from-cases (λ ys. length ys ≡ length (kept (curr ∷ xs)) + crossings prev (curr ∷ xs))
          prev curr xs (λ e f. rw (e, f) (omega (arith, k))) (λ e f. rw (e, f) (omega (arith, k)))
          (λ e f. rw (e, f) (omega (arith, k))) (λ e f. rw (e, f) (omega (arith, k)))

    clip_from-inside :
        (prev : A) (xs : List A)
        → inside prev ≡ true
        → All (λ p. inside p ≡ true) xs
        → clip_from inside intersection prev xs ≡ xs
    unfolding clip_from
    clip_from-inside prev [] e h = refl
    clip_from-inside prev (curr ∷ xs) e h =
        rw (h.0, e) (ap (λ l. curr ∷ l) (clip_from-inside curr xs h.0 h.1))

    clip_polygon_generic-eq :
        (x : A) (xs : List A) (prev : A)
        → last (x ∷ xs) ≡ some prev
        → clip_polygon_generic inside intersection (x ∷ xs)
          ≡ clip_from inside intersection prev (x ∷ xs)
    unfolding clip_polygon_generic
    clip_polygon_generic-eq x xs prev e = rw (clip_polygon_generic, e) refl

    clip_polygon_generic-inside :
        (xs : List A)
        → All (λ p. inside p ≡ true) xs
        → clip_polygon_generic inside intersection xs ≡ xs
    unfolding clip_polygon_generic last
    clip_polygon_generic-inside [] h = refl
    clip_polygon_generic-inside (x ∷ xs) h =
        let (prev, e, i) = last-All inside x xs h in
        clip_polygon_generic-eq x xs prev e ∙ clip_from-inside prev (x ∷ xs) i h

    clip_polygon_generic-Clipped :
        (x : A) (xs : List A) (prev : A)
        → last (x ∷ xs) ≡ some prev
        → ((a b : A) → inside (intersection a b) ≡ true)
        → All (λ p. inside p ≡ true) (clip_polygon_generic inside intersection (x ∷ xs))
          × Subsequence (kept (x ∷ xs)) (clip_polygon_generic inside intersection (x ∷ xs))
          × (length (clip_polygon_generic inside intersection (x ∷ xs))
              ≡ length (kept (x ∷ xs)) + crossings_around (x ∷ xs))
    clip_polygon_generic-Clipped x xs prev k h =
        rw (clip_polygon_generic-eq x xs prev k, crossings_around, k)
          (
            clip_from-All prev (x ∷ xs) h,
            clip_from-Subsequence prev (x ∷ xs),
            length-clip_from prev (x ∷ xs),
          )

-- Whatever the numbers are, points that are cut out of a line that crosses an edge lie on the edge.
edge_intersection-inside :
    (f32 : F32Ops) (top_left bottom_right : Vec2) (e : Edge) (a b : Vec2)
    → f32.le (bound f32 top_left bottom_right e) (bound f32 top_left bottom_right e) ≡ true
    → is_inside f32 top_left bottom_right e (edge_intersection f32 top_left bottom_right e a b)
      ≡ true
unfolding is_inside edge_intersection intersect_vertical intersect_horizontal
edge_intersection-inside f32 tl br left a b h =
    elim (Bool-cases (f32.le (f32.abs (f32.sub b.x a.x)) epsilon)) [
      | inl k ↦ rw k h
      | inr k ↦ rw k h
    ]
edge_intersection-inside f32 tl br right a b h =
    elim (Bool-cases (f32.le (f32.abs (f32.sub b.x a.x)) epsilon)) [
      | inl k ↦ rw k h
      | inr k ↦ rw k h
    ]
edge_intersection-inside f32 tl br top a b h =
    elim (Bool-cases (f32.le (f32.abs (f32.sub b.y a.y)) epsilon)) [
      | inl k ↦ rw k h
      | inr k ↦ rw k h
    ]
edge_intersection-inside f32 tl br bottom a b h =
    elim (Bool-cases (f32.le (f32.abs (f32.sub b.y a.y)) epsilon)) [
      | inl k ↦ rw k h
      | inr k ↦ rw k h
    ]

-- The polygon clipped to an edge of the rectangle whose coordinate is a number: its vertices lie within
-- the edge, the vertices of the polygon that do are among them in their order, and there is one more
-- for each side of the polygon that crosses the edge.
pub clip_to_edge_lem :
    (f32 : F32Ops) (top_left bottom_right : Vec2) (e : Edge) (polygon : List Vec2)
    → f32.le (bound f32 top_left bottom_right e) (bound f32 top_left bottom_right e) ≡ true
    → (let output = clip_to_edge f32 top_left bottom_right e polygon in
        let inside = is_inside f32 top_left bottom_right e in
        All (λ p. inside p ≡ true) output
        × Subsequence inside (kept inside polygon) output
        × (length output ≡ length (kept inside polygon) + crossings_around inside polygon))
unfolding clip_polygon_generic last
clip_to_edge_lem f32 tl br e [] h = (_, done, refl)
clip_to_edge_lem f32 tl br e (x ∷ xs) h =
    let (prev, k) = last-some x xs in
    clip_polygon_generic-Clipped (is_inside f32 tl br e) (edge_intersection f32 tl br e) x xs prev k
      (λ a b. edge_intersection-inside f32 tl br e a b h)

module _ (f32 : F32Ops) (top_left bottom_right : Vec2) where
  abbrev pub IsWithin : List Vec2 → Edge → Type 0
  IsWithin polygon e = All (λ p. is_inside f32 top_left bottom_right e p ≡ true) polygon

  clip_edge-IsWithin :
      (e : Edge) (polygon : List Vec2)
      → ltb (length polygon) 3 ≡ false
      → IsWithin polygon e
      → clip_edge f32 top_left bottom_right e polygon ≡ some polygon
  unfolding clip_edge
  clip_edge-IsWithin e polygon n h =
      rw
        (
          clip_polygon_generic-inside (is_inside f32 top_left bottom_right e)
              (edge_intersection f32 top_left bottom_right e) polygon h,
          n,
        )
        refl

  clip_polygon-IsWithin :
      (polygon : List Vec2)
      → ltb (length polygon) 3 ≡ false
      → ((e : Edge) → IsWithin polygon e)
      → clip_polygon f32 top_left bottom_right polygon ≡ some polygon
  unfolding clip_polygon
  clip_polygon-IsWithin polygon n h =
      rw
        (
          clip_edge-IsWithin left polygon n (h left),
          clip_edge-IsWithin right polygon n (h right),
          clip_edge-IsWithin top polygon n (h top),
          clip_edge-IsWithin bottom polygon n (h bottom),
        )
        refl

  -- A polygon within the rectangle overlaps it with its own area.
  pub overlap_area_polygon_with_rect_lem :
      (polygon : List Vec2)
      → ((e : Edge) → IsWithin polygon e)
      → overlap_area_polygon_with_rect f32 top_left bottom_right polygon ≡ polygon_area f32 polygon
  unfolding overlap_area_polygon_with_rect polygon_area
  overlap_area_polygon_with_rect_lem polygon h = elim (Bool-cases (ltb (length polygon) 3)) [
    | inl n ↦ rw n refl
    | inr n ↦ rw (n, clip_polygon-IsWithin polygon n h, n) refl
  ]
