-- ===== src/Rendering/Rectangle/Intersection.antt =====
-- A pixel is in the intersection of two rectangles just if it is in both.
use minecraft_os.Prelude.{
  ℕ, ◌+◌, ◌-◌, ◌^◌, ◌<◌, ◌≡◌, refl, sym, arith, true, false, inl, inr, Bool-cases, Option, none,
  some, ◌↔◌, ◌⊎◌,
}
use mathlib.Core.Path.{ap₂, subst}
use minecraft_os.Prelude.Int.{
  ℤ, pos, negsuc, pos_part, neg_part, ◌+ℤ◌, ◌-ℤ◌, ◌≤ℤ◌, ◌<ℤ◌, ltb_ℤ, sub_ℕ,
}
use minecraft_os.Rendering.Rectangle.{
  wrap32, as_usize, IVec2, Rectangle, min_ℤ, max_ℤ, bottom_right, between, min_vec, max_vec,
  intersection,
}

-- An `i32`.
abbrev pub IsI32 : ℤ → Type 0
IsI32 (pos n) = n < 2 ^ 31
IsI32 (negsuc n) = n < 2 ^ 31

pub wrap32-eq : (z : ℤ) → IsI32 z → wrap32 z ≡ z
unfolding wrap32
wrap32-eq (pos n) h = ground arith
wrap32-eq (negsuc n) h = ground arith

sub_ℕ-parts : (a b : ℕ) → (pos_part (sub_ℕ a b) ≡ a - b) × (neg_part (sub_ℕ a b) ≡ b - a)
sub_ℕ-parts a b = (ground arith, ground arith)

ltb_ℤ→<ℤ : (a b : ℤ) → ltb_ℤ a b ≡ true → a <ℤ b
ltb_ℤ→<ℤ a b e = ground arith

ltb_ℤ→≤ℤ : (a b : ℤ) → ltb_ℤ a b ≡ false → b ≤ℤ a
ltb_ℤ→≤ℤ a b e = ground arith

one_side : (z : ℤ) → (pos_part z ≡ 0) ⊎ (neg_part z ≡ 0)
one_side (pos n) = inr refl
one_side (negsuc n) = inl refl

-- `z` is one of the `n` numbers from `a` on.
abbrev pub IsWithin : ℤ → ℕ → ℤ → Type 0
IsWithin a n z = (a ≤ℤ z) × (z <ℤ a +ℤ pos n)

IsWithin-iff :
    (a : ℤ) (n : ℕ) (z : ℤ)
    → IsWithin a n z ↔ ((a ≤ℤ z) × (pos_part z + neg_part a < pos_part a + n + neg_part z))
IsWithin-iff a n z =
    let (p, q) = sub_ℕ-parts (pos_part a + n) (neg_part a + 0) in
    (λ h. (h.0, omega (arith, h.1, p, q)), λ h. (h.0, omega (arith, h.1, p, q)))

width :
    (l r : ℤ)
    → l <ℤ r
    → pos_part r + neg_part l < pos_part l + neg_part r + 2 ^ 31
    → as_usize (wrap32 (r -ℤ l)) ≡ pos_part r + neg_part l - (neg_part r + pos_part l)
unfolding as_usize wrap32
width l r h k = ground arith

max_ℤ-cases : (a c : ℤ) → ((max_ℤ a c ≡ a) × (c ≤ℤ a)) ⊎ ((max_ℤ a c ≡ c) × (a ≤ℤ c))
max_ℤ-cases a c = elim (Bool-cases (ltb_ℤ a c)) [
  | inl e ↦ let h = ltb_ℤ→<ℤ a c e in inr (rw e refl, omega (arith, h))
  | inr e ↦ inl (rw e refl, ltb_ℤ→≤ℤ a c e)
]

min_ℤ-cases : (a c : ℤ) → ((min_ℤ a c ≡ a) × (a ≤ℤ c)) ⊎ ((min_ℤ a c ≡ c) × (c ≤ℤ a))
min_ℤ-cases a c = elim (Bool-cases (ltb_ℤ c a)) [
  | inl e ↦ let h = ltb_ℤ→<ℤ c a e in inr (rw e refl, omega (arith, h))
  | inr e ↦ inl (rw e refl, ltb_ℤ→≤ℤ c a e)
]

-- The end of `n` numbers from `a` on, and its distance.
end-parts :
    (a : ℤ) (n : ℕ) → pos_part (a +ℤ pos n) + neg_part a ≡ pos_part a + n + neg_part (a +ℤ pos n)
end-parts a n = let (p, q) = sub_ℕ-parts (pos_part a + n) (neg_part a + 0) in omega (arith, p, q)

module _ (a c : ℤ) (m n : ℕ) (hm : m < 2 ^ 31) (hn : n < 2 ^ 31) where
  abbrev start : ℤ
  start = max_ℤ a c

  abbrev end : ℤ
  end = min_ℤ (a +ℤ pos m) (c +ℤ pos n)

  -- The larger start and the smaller end, as inequalities.
  record Bounds (l r : ℤ) : Type 0 where
    lower_a : a ≤ℤ l
    lower_c : c ≤ℤ l
    lower : (z : ℤ) → a ≤ℤ z → c ≤ℤ z → l ≤ℤ z
    upper_a : r ≤ℤ a +ℤ pos m
    upper_c : r ≤ℤ c +ℤ pos n
    upper : (z : ℤ) → z <ℤ a +ℤ pos m → z <ℤ c +ℤ pos n → z <ℤ r

  bounds : Bounds start end
  bounds = record {
    lower_a = elim (max_ℤ-cases a c) [ inl (e, h) ↦ rw e (omega arith) | inr (e, h) ↦ rw e h ];
    lower_c = elim (max_ℤ-cases a c) [ inl (e, h) ↦ rw e h | inr (e, h) ↦ rw e (omega arith) ];
    lower = λ z p q. elim (max_ℤ-cases a c) [ inl (e, h) ↦ rw e p | inr (e, h) ↦ rw e q ];
    upper_a = elim (min_ℤ-cases (a +ℤ pos m) (c +ℤ pos n)) [
      | inl (e, h) ↦ rw e (omega arith)
      | inr (e, h) ↦ rw e h
    ];
    upper_c = elim (min_ℤ-cases (a +ℤ pos m) (c +ℤ pos n)) [
      | inl (e, h) ↦ rw e h
      | inr (e, h) ↦ rw e (omega arith)
    ];
    upper = λ z p q. elim (min_ℤ-cases (a +ℤ pos m) (c +ℤ pos n)) [
      | inl (e, h) ↦ rw e p
      | inr (e, h) ↦ rw e q
    ];
  }

  overlap :
      (l r z : ℤ)
      → Bounds l r
      → l <ℤ r
      → IsWithin l (as_usize (wrap32 (r -ℤ l))) z ↔ (IsWithin a m z × IsWithin c n z)
  overlap l r z b lr =
      let d = as_usize (wrap32 (r -ℤ l)) in
      let short : pos_part r + neg_part l < pos_part l + neg_part r + 2 ^ 31 =
        omega (arith, b.upper_a, b.lower_a, hm, end-parts a m) in
      let size = width l r lr short in
      let (to, from) = IsWithin-iff l d z in
      (
        λ h.
            let k = to h in
            let below : z <ℤ r = omega (arith, k.1, size, lr) in
            (
              (omega (arith, b.lower_a, k.0), omega (arith, below, b.upper_a)),
              (omega (arith, b.lower_c, k.0), omega (arith, below, b.upper_c)),
            ),
        λ h.
            let above = b.lower z h.0.0 h.1.0 in
            let below = b.upper z h.0.1 h.1.1 in
            from (above, omega (arith, above, below, size, lr)),
      )

  apart : (l r z : ℤ) → Bounds l r → r ≤ℤ l → ¬ (IsWithin a m z × IsWithin c n z)
  apart l r z b rl w =
      let above = b.lower z w.0.0 w.1.0 in
      let below = b.upper z w.0.1 w.1.1 in absurd (omega (arith, above, below, rl))

-- Sizes and corners are in the range of `i32`.
pub record IsDrawable (r : Rectangle) : Type 0 where
  pub width : r.size.x < 2 ^ 31
  pub height : r.size.y < 2 ^ 31
  pub right : IsI32 (r.top_left.x +ℤ pos r.size.x)
  pub bottom : IsI32 (r.top_left.y +ℤ pos r.size.y)

-- The pixel is in the rectangle.
abbrev pub Contains : Rectangle → IVec2 → Type 0
Contains r p = IsWithin r.top_left.x r.size.x p.x × IsWithin r.top_left.y r.size.y p.y

bottom_right-eq :
    (r : Rectangle)
    → IsDrawable r
    → bottom_right r ≡ record { x = r.top_left.x +ℤ pos r.size.x; y = r.top_left.y +ℤ pos r.size.y }
unfolding bottom_right
bottom_right-eq r v =
    rw
      (
        wrap32-eq (pos r.size.x) v.width,
        wrap32-eq (pos r.size.y) v.height,
        wrap32-eq (r.top_left.x +ℤ pos r.size.x) v.right,
        wrap32-eq (r.top_left.y +ℤ pos r.size.y) v.bottom,
      )
      refl

-- What a pixel's membership says of the intersection, if there is one.
abbrev pub Decides : Option Rectangle → Type 0 → IVec2 → Type 0
Decides (some t) P p = Contains t p ↔ P
Decides none P p = ¬ P

between-Decides :
    (r s : Rectangle) (p start end : IVec2) (hr : IsDrawable r) (hs : IsDrawable s)
    → Bounds r.top_left.x s.top_left.x r.size.x s.size.x hr.width hs.width start.x end.x
    → Bounds r.top_left.y s.top_left.y r.size.y s.size.y hr.height hs.height start.y end.y
    → Decides (between start end) (Contains r p × Contains s p) p
unfolding between
between-Decides r s p start end hr hs bx by = elim (Bool-cases (ltb_ℤ start.x end.x)) [
  | inr e ↦ rw e (λ w.
      apart _ _ _ _ hr.width hs.width start.x end.x p.x bx (ltb_ℤ→≤ℤ start.x end.x e)
        (w.0.0, w.1.0))
  | inl e ↦ elim (Bool-cases (ltb_ℤ start.y end.y)) [
    | inr f ↦
        rw (e, f)
          (λ w.
            apart _ _ _ _ hr.height hs.height start.y end.y p.y by (ltb_ℤ→≤ℤ start.y end.y f)
              (w.0.1, w.1.1))
    | inl f ↦
        rw (e, f)
          (let (to_x, from_x) =
              overlap _ _ _ _ hr.width hs.width start.x end.x p.x bx (ltb_ℤ→<ℤ start.x end.x e) in
            let (to_y, from_y) =
              overlap _ _ _ _ hr.height hs.height start.y end.y p.y by (ltb_ℤ→<ℤ start.y end.y f) in
            (
              λ h. (((to_x h.0).0, (to_y h.1).0), ((to_x h.0).1, (to_y h.1).1)),
              λ w. (from_x (w.0.0, w.1.0), from_y (w.0.1, w.1.1)),
            ))
  ]
]

-- For rectangles whose corners are `i32`, the intersection of two contains just the pixels that are
-- in both, and where there is none, no pixel is in both.
pub intersection_lem :
    (r s : Rectangle) (p : IVec2)
    → IsDrawable r
    → IsDrawable s
    → Decides (intersection r s) (Contains r p × Contains s p) p
unfolding intersection
intersection_lem r s p hr hs =
    let corner : Rectangle → IVec2 =
      λ t. record { x = t.top_left.x +ℤ pos t.size.x; y = t.top_left.y +ℤ pos t.size.y } in
    let corners : between (max_vec r.top_left s.top_left)
          (min_vec (bottom_right r) (bottom_right s))
        ≡ between (max_vec r.top_left s.top_left) (min_vec (corner r) (corner s)) =
      ap₂ (λ u v. between (max_vec r.top_left s.top_left) (min_vec u v)) (bottom_right-eq r hr)
        (bottom_right-eq s hs) in
    subst (λ o. Decides o (Contains r p × Contains s p) p) (sym corners)
      (between-Decides r s p (max_vec r.top_left s.top_left) (min_vec (corner r) (corner s)) hr hs
        (bounds _ _ _ _ hr.width hs.width) (bounds _ _ _ _ hr.height hs.height))
