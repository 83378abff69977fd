-- ===== src/Rendering/TextBox/Tiling.antt =====
-- The visual lines show every glyph of the buffer once and in order.
use minecraft_os.Prelude.{
  ℕ, zero, suc, ◌+◌, ◌≤◌, ◌≡◌, refl, sym, ap, ◌∙◌, arith, some, List, [], ◌∷◌, ◌++◌, length, get_or,
  take, drop, length-append, All,
}
use minecraft_os.Rendering.Parser.{Glyph, Buffer, LogicalLine}
use minecraft_os.Rendering.TextBox.{VisualLine, visual_line_slice, last, update_last}
use mathlib.Core.List.{append_assoc, append-nil}

pub last-append {ℓ} : {A : Type ℓ} (xs : List A) (x : A) → last (xs ++ (x ∷ [])) ≡ some x
unfolding last
last-append [] x = refl
last-append (y ∷ []) x = refl
last-append (y ∷ z ∷ xs) x = last-append (z ∷ xs) x

pub update_last-append {ℓ} :
    {A : Type ℓ} (f : A → A) (xs : List A) (x : A)
    → update_last f (xs ++ (x ∷ [])) ≡ some (xs ++ (f x ∷ []))
unfolding update_last
update_last-append f [] x = refl
update_last-append f (y ∷ []) x = refl
update_last-append f (y ∷ z ∷ xs) x = let ih = update_last-append f (z ∷ xs) x in rw ih refl

pub take_all {ℓ} : {A : Type ℓ} (xs : List A) → take (length xs) xs ≡ xs
take_all [] = refl
take_all (x ∷ xs) = ap (λ l. x ∷ l) (take_all xs)

take-append_left {ℓ} :
    {A : Type ℓ} (n : ℕ) (xs ys : List A) → n ≤ length xs → take n (xs ++ ys) ≡ take n xs
take-append_left zero xs ys h = refl
take-append_left (suc n) [] ys h = absurd (omega arith)
take-append_left (suc n) (x ∷ xs) ys h = ap (λ l. x ∷ l) (take-append_left n xs ys (omega arith))

drop-append_left {ℓ} :
    {A : Type ℓ} (n : ℕ) (xs ys : List A) → n ≤ length xs → drop n (xs ++ ys) ≡ drop n xs ++ ys
drop-append_left zero xs ys h = refl
drop-append_left (suc n) [] ys h = absurd (omega arith)
drop-append_left (suc n) (x ∷ xs) ys h = drop-append_left n xs ys (omega arith)

pub get_or-last {ℓ} :
    {A : Type ℓ} (xs : List A) (x d : A) → get_or (xs ++ (x ∷ [])) (length xs) d ≡ x
get_or-last [] x d = refl
get_or-last (y ∷ xs) x d = get_or-last xs x d

-- A visual line lies within its logical line.
abbrev pub IsInside : Buffer → VisualLine → Type 0
IsInside buffer w = (w.start ≤ w.end) × (w.end ≤ length (get_or buffer w.line_idx []))

grown :
    (lines : Buffer) (line : LogicalLine) (g : Glyph) (k e : ℕ)
    → e ≤ length (get_or (lines ++ (line ∷ [])) k [])
    → (take e (get_or (lines ++ ((line ++ (g ∷ [])) ∷ [])) k [])
        ≡ take e (get_or (lines ++ (line ∷ [])) k []))
      × (e ≤ length (get_or (lines ++ ((line ++ (g ∷ [])) ∷ [])) k []))
grown [] line g zero e h =
    (take-append_left e line (g ∷ []) h, omega (arith, length-append line (g ∷ [])))
grown [] line g (suc k) e h = (refl, h)
grown (l ∷ lines) line g zero e h = (refl, h)
grown (l ∷ lines) line g (suc k) e h = grown lines line g k e h

new_line : (buffer : Buffer) (k : ℕ) → get_or (buffer ++ ([] ∷ [])) k [] ≡ get_or buffer k []
new_line [] zero = refl
new_line [] (suc k) = refl
new_line (l ∷ buffer) zero = refl
new_line (l ∷ buffer) (suc k) = new_line buffer k

-- All glyphs of the lines, and all glyphs that visual lines show.
abbrev pub flat : Buffer → List Glyph
flat [] = []
flat (line ∷ lines) = line ++ flat lines

abbrev pub shown : Buffer → List VisualLine → List Glyph
shown buffer [] = []
shown buffer (w ∷ ws) = visual_line_slice buffer w ++ shown buffer ws

pub shown-append :
    (buffer : Buffer) (ws : List VisualLine) (w : VisualLine)
    → shown buffer (ws ++ (w ∷ [])) ≡ shown buffer ws ++ visual_line_slice buffer w
shown-append buffer [] w = append-nil (visual_line_slice buffer w)
shown-append buffer (v ∷ ws) w =
    rw (shown-append buffer ws w) (
      sym
        (append_assoc (visual_line_slice buffer v) (shown buffer ws) (visual_line_slice buffer w)))

pub flat-append :
    (lines : Buffer) (line : LogicalLine) → flat (lines ++ (line ∷ [])) ≡ flat lines ++ line
flat-append [] line = append-nil line
flat-append (l ∷ lines) line = rw (flat-append lines line) (sym (append_assoc l (flat lines) line))

pub All-append {ℓ κ} :
    {A : Type ℓ} (P : A → Type κ) (xs : List A) (y : A) → All P xs → P y → All P (xs ++ (y ∷ []))
All-append P [] y h k = (k, _)
All-append P (x ∷ xs) y h k = (h.0, All-append P xs y h.1 k)

shown-grown :
    (lines : Buffer) (line : LogicalLine) (g : Glyph) (ws : List VisualLine)
    → All (IsInside (lines ++ (line ∷ []))) ws
    → let bigger = lines ++ ((line ++ (g ∷ [])) ∷ []) in
      (shown bigger ws ≡ shown (lines ++ (line ∷ [])) ws) × All (IsInside bigger) ws
unfolding visual_line_slice
shown-grown lines line g [] h = (refl, _)
shown-grown lines line g (w ∷ ws) ((s, e), h) =
    let (same, inside) = grown lines line g w.line_idx w.end e in
    let (rest, insides) = shown-grown lines line g ws h in
    (rw (same, rest) refl, ((s, inside), insides))

shown-new_line :
    (buffer : Buffer) (ws : List VisualLine)
    → All (IsInside buffer) ws
    → (shown (buffer ++ ([] ∷ [])) ws ≡ shown buffer ws) × All (IsInside (buffer ++ ([] ∷ []))) ws
unfolding visual_line_slice
shown-new_line buffer [] h = (refl, _)
shown-new_line buffer (w ∷ ws) ((s, e), h) =
    let same = new_line buffer w.line_idx in
    let (rest, insides) = shown-new_line buffer ws h in
    (rw (same, rest) refl, ((s, rw same e), insides))

-- The last visual line runs to the end of the last logical line, and what is shown before it is
-- what stands before it.
pub record Tiling (lines : Buffer) (line : LogicalLine) (ws : List VisualLine) (w : VisualLine)
    : Type 0 where
  pub idx : w.line_idx ≡ length lines
  pub end : w.end ≡ length line
  pub start : w.start ≤ length line
  pub inside : All (IsInside (lines ++ (line ∷ []))) ws
  pub tiles : shown (lines ++ (line ∷ [])) ws ++ drop w.start line ≡ flat lines ++ line

pub extended :
    (lines : Buffer) (line : LogicalLine) (ws : List VisualLine) (w : VisualLine) (g : Glyph)
    → Tiling lines line ws w
    → Tiling lines (line ++ (g ∷ [])) ws (record w { end = w.end + 1 })
extended lines line ws w g v =
    let (same, inside) = shown-grown lines line g ws v.inside in
    record {
      idx = v.idx;
      end = omega (arith, v.end, length-append line (g ∷ []));
      start = omega (arith, v.start, length-append line (g ∷ []));
      inside = inside;
      tiles =
          rw (same, drop-append_left w.start line (g ∷ []) v.start)
            (sym (append_assoc (shown (lines ++ (line ∷ [])) ws) (drop w.start line) (g ∷ []))
              ∙ ap (λ l. l ++ (g ∷ [])) v.tiles
              ∙ append_assoc (flat lines) line (g ∷ []));
    }

pub wrapped :
    (lines : Buffer) (line : LogicalLine) (ws : List VisualLine) (w : VisualLine) (g : Glyph)
    (k i : ℕ)
    → k ≡ length lines
    → i ≡ length line
    → Tiling lines line ws w
    → Tiling lines
        (line ++ (g ∷ []))
        (ws ++ (record w { end = i } ∷ []))
        (record { line_idx = k; start = i; end = i + 1 })
unfolding visual_line_slice
wrapped lines line ws w g k i p q v =
    let (same, inside) = shown-grown lines line g ws v.inside in
    let bigger = lines ++ ((line ++ (g ∷ [])) ∷ []) in
    let here : get_or bigger w.line_idx [] ≡ line ++ (g ∷ []) =
      ap (λ n. get_or bigger n []) v.idx ∙ get_or-last lines (line ++ (g ∷ [])) [] in
    let closed : visual_line_slice bigger (record w { end = i }) ≡ drop w.start line =
      rw (here, q, take-append_left (length line) line (g ∷ []) (omega arith))
        (ap (drop w.start) (take_all line)) in
    let fresh : drop i (line ++ (g ∷ [])) ≡ g ∷ [] =
      rw (q, drop-append_left (length line) line (g ∷ []) (omega arith))
        (ap (λ l. l ++ (g ∷ [])) (drop_all line)) in
    record {
      idx = p;
      end = omega (arith, length-append line (g ∷ []));
      start = omega (arith, length-append line (g ∷ []));
      inside =
          All-append (IsInside bigger) ws (record w { end = i }) inside
            (omega (arith, v.start), rw here (omega (arith, length-append line (g ∷ []))));
      tiles =
          rw (shown-append bigger ws (record w { end = i }), fresh, closed, same)
            (ap (λ l. l ++ (g ∷ [])) v.tiles ∙ append_assoc (flat lines) line (g ∷ []));
    }
  where
    drop_all : (l : List Glyph) → drop (length l) l ≡ []
    drop_all [] = refl
    drop_all (x ∷ l) = drop_all l

pub broken :
    (lines : Buffer) (line : LogicalLine) (ws : List VisualLine) (w : VisualLine) (k : ℕ)
    → k ≡ length lines + 1
    → Tiling lines line ws w
    → Tiling
        (lines ++ (line ∷ []))
        []
        (ws ++ (w ∷ []))
        (record { line_idx = k; start = 0; end = 0 })
unfolding visual_line_slice
broken lines line ws w k p v =
    let buffer = lines ++ (line ∷ []) in
    let (same, inside) = shown-new_line buffer ws v.inside in
    let here : get_or (buffer ++ ([] ∷ [])) w.line_idx [] ≡ line =
      new_line buffer w.line_idx ∙ ap (λ n. get_or buffer n []) v.idx ∙ get_or-last lines line [] in
    let closed : visual_line_slice (buffer ++ ([] ∷ [])) w ≡ drop w.start line =
      rw (here, v.end) (ap (drop w.start) (take_all line)) in
    record {
      idx = omega (arith, p, length-append lines (line ∷ []));
      end = refl;
      start = omega arith;
      inside =
          All-append (IsInside (buffer ++ ([] ∷ []))) ws w inside
            (omega (arith, v.start, v.end), rw here (omega (arith, v.end)));
      tiles =
          rw (shown-append (buffer ++ ([] ∷ [])) ws w, same, closed, flat-append lines line)
            (append-nil _ ∙ v.tiles ∙ sym (append-nil (flat lines ++ line)));
    }
