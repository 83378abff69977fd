-- ===== src/Rendering/Renderer/Rows.antt =====
-- The bytes of the frame buffer after `fill_solid` has filled the rows of an area.
use minecraft_os.Prelude.{
  ℕ, zero, suc, ◌+◌, ◌*◌, ◌%◌, ◌<◌, ◌≤◌, ◌≡◌, refl, ap, ◌∙◌, arith, inl, ◌⊎◌, List, length, get_or,
  length-write_at, get_or-write_at_inside, get_or-write_at_outside,
}
use minecraft_os.Prelude.Int.{pos, ◌+ℤ◌}
use minecraft_os.Rendering.Fill.{fill_slice_48}
use minecraft_os.Rendering.Fill.Pattern.{cycle, length-cycle, fill_slice_48-write_at}
use minecraft_os.Rendering.Rectangle.{counted, as_usize}
use minecraft_os.Rendering.Renderer.{Info, fill_rows}

cycle-get : (n i k : ℕ) (p : List ℕ) → k < n → get_or (cycle i n p) k 0 ≡ get_or p ((i + k) % 48) 0
cycle-get zero i k p h = absurd (omega arith)
cycle-get (suc n) i zero p h = let e : i + 0 ≡ i = omega arith in rw e refl
cycle-get (suc n) i (suc k) p h =
    let e : i + suc k ≡ i + 1 + k = omega arith in rw e (cycle-get n (i + 1) k p (omega arith))

-- Where a row of an area begins.
abbrev pub base : Info → ℕ → ℕ → ℕ
base info x y = (y * info.stride + x) * info.bytes_per_pixel

module _ (info : Info) (x row_bytes : ℕ) (p : List ℕ) (size : length p ≡ 48) where
  abbrev line : ℕ
  line = info.stride * info.bytes_per_pixel

  base-suc : (y : ℕ) → base info x (y + 1) ≡ base info x y + line
  base-suc y = grind arith

  base-later : (d y : ℕ) → base info x y + line ≤ base info x (y + 1 + d)
  base-later zero y = let e : y + 1 + 0 ≡ y + 1 = omega arith in rw e (omega (arith, base-suc y))
  base-later (suc d) y =
      let e : y + 1 + suc d ≡ y + 1 + d + 1 = omega arith in
      rw e (omega (arith, base-later d y, base-suc (y + 1 + d)))

  row_inside :
      (y k : ℕ) (fb : List ℕ)
      → k < row_bytes
      → base info x y + row_bytes ≤ length fb
      → get_or (fill_slice_48 (base info x y) row_bytes p fb) (base info x y + k) 0
        ≡ get_or p (k % 48) 0
  row_inside y k fb h g =
      let e = length-cycle 0 row_bytes p in
      let z : 0 + k ≡ k = omega arith in
      ap (λ l. get_or l (base info x y + k) 0)
        (fill_slice_48-write_at (base info x y) row_bytes p fb size)
      ∙ get_or-write_at_inside (base info x y) (cycle 0 row_bytes p) fb k 0 (omega (arith, e, h))
          (omega (arith, e, g))
      ∙ cycle-get row_bytes 0 k p h
      ∙ ap (λ i. get_or p (i % 48) 0) z

  row_outside :
      (y j : ℕ) (fb : List ℕ)
      → (j < base info x y) ⊎ (base info x y + row_bytes ≤ j)
      → get_or (fill_slice_48 (base info x y) row_bytes p fb) j 0 ≡ get_or fb j 0
  row_outside y j fb h =
      let e = length-cycle 0 row_bytes p in
      ap (λ l. get_or l j 0) (fill_slice_48-write_at (base info x y) row_bytes p fb size)
      ∙ get_or-write_at_outside (base info x y) (cycle 0 row_bytes p) fb j 0 (rw e h)

  length-row :
      (y : ℕ) (fb : List ℕ) → length (fill_slice_48 (base info x y) row_bytes p fb) ≡ length fb
  length-row y fb =
      ap length (fill_slice_48-write_at (base info x y) row_bytes p fb size)
      ∙ length-write_at (base info x y) (cycle 0 row_bytes p) fb

  -- The rows from `y` on, one after the other.
  abbrev pub filled : ℕ → ℕ → List ℕ → List ℕ
  filled y n fb = fill_rows info (pos x) row_bytes p (counted (pos y) n) fb

  filled-suc :
      (y n : ℕ) (fb : List ℕ)
      → filled y (suc n) fb ≡ filled (y + 1) n (fill_slice_48 (base info x y) row_bytes p fb)
  unfolding fill_rows as_usize
  filled-suc y n fb =
      let e : pos y +ℤ pos 1 ≡ pos (y + 1) = ground arith in
      ap
        (λ t.
          fill_rows info (pos x) row_bytes p (counted t n)
            (fill_slice_48 (base info x y) row_bytes p fb))
        e

  pub untouched :
      (n y j : ℕ) (fb : List ℕ)
      → ((i : ℕ) → i < n → (j < base info x (y + i)) ⊎ (base info x (y + i) + row_bytes ≤ j))
      → get_or (filled y n fb) j 0 ≡ get_or fb j 0
  unfolding fill_rows
  untouched zero y j fb h = refl
  untouched (suc n) y j fb h =
      let z : y + 0 ≡ y = omega arith in
      let here : (j < base info x y) ⊎ (base info x y + row_bytes ≤ j) =
        rw z at (h 0 (omega arith)) in
      ap (λ l. get_or l j 0) (filled-suc y n fb)
      ∙ untouched n (y + 1) j _
          (λ i l. let e : y + 1 + i ≡ y + suc i = omega arith in rw e (h (suc i) (omega arith)))
      ∙ row_outside y j fb here

  pub painted :
      (n y i k : ℕ) (fb : List ℕ)
      → row_bytes ≤ line
      → i < n
      → k < row_bytes
      → ((i : ℕ) → i < n → base info x (y + i) + row_bytes ≤ length fb)
      → get_or (filled y n fb) (base info x (y + i) + k) 0 ≡ get_or p (k % 48) 0
  painted zero y i k fb w hi hk fits = absurd (omega arith)
  painted (suc n) y zero k fb w hi hk fits =
      let z : y + 0 ≡ y = omega arith in
      let room : base info x y + row_bytes ≤ length fb = rw z at (fits 0 (omega arith)) in
      ap (λ l. get_or l (base info x (y + 0) + k) 0) (filled-suc y n fb)
      ∙ ap
          (λ t.
            get_or (filled (y + 1) n (fill_slice_48 (base info x y) row_bytes p fb))
              (base info x t + k) 0)
          z
      ∙ untouched n (y + 1) (base info x y + k) _ (λ d l. inl (omega (arith, base-later d y)))
      ∙ row_inside y k fb hk room
  painted (suc n) y (suc i) k fb w hi hk fits =
      let e : y + suc i ≡ y + 1 + i = omega arith in
      let fb' = fill_slice_48 (base info x y) row_bytes p fb in
      ap (λ l. get_or l (base info x (y + suc i) + k) 0) (filled-suc y n fb)
      ∙ ap (λ t. get_or (filled (y + 1) n fb') (base info x t + k) 0) e
      ∙ painted n (y + 1) i k fb' w (omega arith) hk (λ d l.
        let f : y + 1 + d ≡ y + suc d = omega arith in
        rw f (omega (arith, fits (suc d) (omega arith), length-row y fb)))
